-- ===== src/Billing/Repeat.antt =====
-- services/api/internal/httpapi/billing.go and billing_xendit_webhook.go: a delivered event that the
-- provider sends again.
use Prim.Native.String.{len}
use xpace.Prelude.{
  ℕ, ◌≡◌, ◌∙◌, refl, sym, ap, String, Bool, true, false, not, ◌||◌, Option, none, some, List, [],
  ◌∷◌, ◌++◌, inl, inr, arith, ◌==◌, nat_eq, text_eq, if◌then◌else◌, first, update_where,
  Option-cases, Bool-cases, first-append, eq_iff, to_lower, trim_space,
}
use xpace.Http.{Response, IsError, Faults, error_json}
use xpace.Billing.{
  WebhookEvent, Store, Library, Applied, rejected, applied, or_reject, is_event, process, Delivered,
  webhook_event, finalize, deliver_once, deliver, SubscriptionStatus, InvoiceStatus, Subscription,
  CheckoutSession, CheckoutStatus, of_tenant,
}
use xpace.Billing.Webhook
use xpace.Billing.Webhook.{
  billing_webhook, is_provider, valid_billing_signature, subscription_step, invoice_step,
  notice_step, apply_billing_subscription_event, upsert_billing_invoice, InvoicePayload,
}
use xpace.Billing.Xendit
use xpace.Billing.Xendit.{
  xendit_webhook, Event, supported_xendit_event, session_completed, session_expired, plan_activated,
  plan_inactivated, cycle_pending, cycle_succeeded, cycle_failed, apply_event, apply_xendit_webhook,
  complete_session, activate_plan, inactivate_xendit_subscription,
  update_xendit_subscription_status, upsert_xendit_cycle, queue_xendit_billing_notice,
  cycle_and_status, by_subscription_id, queue_for, session_tenant,
}
use xpace.Billing.Delivery.{Hook, generic, xendit, receive}

first-update_kept {ℓ} :
    {A : Type ℓ} (p q : A → Bool) (f : A → A) (xs : List A)
    → ((x : A) → q (f x) ≡ q x)
    → {x : A} → first q xs ≡ some x
    → (y : A) × (first q (update_where p f xs) ≡ some y)
unfolding first update_where
first-update_kept p q f [] k h = cc
first-update_kept p q f (z ∷ xs) k {x = x} h = elim (Bool-cases (q z)) [
  | inl e ↦ elim (Bool-cases (p z)) [
    | inl c ↦ (f z, rw (c, k z, e) refl)
    | inr c ↦ (z, rw (c, e) refl)
  ]
  | inr e ↦
      let (y, g) = first-update_kept p q f xs k (rw e at h) in
      elim (Bool-cases (p z)) [ inl c ↦ (y, rw (c, k z, e) g) | inr c ↦ (y, rw (c, e) g) ]
]

-- Statements that leave the list of events alone, and transactions whose rejections are errors.
record Steady (es : List WebhookEvent) (o : Option Store) : Type 0 where
  pub kept : (t : Store) → o ≡ some t → t.webhook_events ≡ es

Sound : List WebhookEvent → Applied → Type 0
Sound es (rejected r) = IsError r
Sound es (applied t) = t.webhook_events ≡ es

module _ {es : List WebhookEvent} where
  Steady-none : Steady es none
  Steady-none = record { kept = λ t h. cc }

  Steady-some : {t : Store} → t.webhook_events ≡ es → Steady es (some t)
  Steady-some {t = t} e = record {
    kept = λ u h. let same : t ≡ u = cc in ap (λ x. x.webhook_events) (sym same) ∙ e;
  }

  Steady-if :
      (b : Bool) {x y : Option Store} → Steady es x → Steady es y → Steady es (if b then x else y)
  Steady-if true h k = h
  Steady-if false h k = k

  Sound-or_reject :
      (o : Option Store) (r : Response) (rest : Store → Applied)
      → Steady es o
      → IsError r
      → ((t : Store) → t.webhook_events ≡ es → Sound es (rest t))
      → Sound es (or_reject o r rest)
  Sound-or_reject none r rest h e k = unfold Sound in e
  Sound-or_reject (some t) r rest h e k = k t (h.kept t refl)

ruleset steady = (Steady-none, Steady-some, Steady-if)

module _ (es : List WebhookEvent) (down : Faults) (event_id : ℕ) (s : Store)
    (h : s.webhook_events ≡ es) where
  subscription-Steady :
      (tenant : ℕ) (p : Webhook.Payload) (st : Option SubscriptionStatus)
      → Steady es (subscription_step down s event_id tenant p st)
  unfolding subscription_step apply_billing_subscription_event
  subscription-Steady tenant p none = search steady
  subscription-Steady tenant p (some st) =
      elim (Option-cases (first (of_tenant tenant) s.subscriptions)) [
        | inl e ↦ rw e (search steady)
        | inr (x, e) ↦ rw e (search steady)
      ]

  invoice-Steady :
      (provider : String) (tenant : ℕ) (st : Option InvoiceStatus) (x : Option InvoicePayload)
      → Steady es (invoice_step down s provider tenant st x)
  unfolding invoice_step upsert_billing_invoice
  invoice-Steady provider tenant st none = search steady
  invoice-Steady provider tenant none (some x) = search steady
  invoice-Steady provider tenant (some st) (some x) = search steady

  notice-Steady : (tenant : ℕ) (prefix : String) → Steady es (notice_step down s tenant prefix)
  unfolding notice_step
  notice-Steady tenant prefix = search steady

  complete-Steady : (st : CheckoutStatus) (id : String) → Steady es (complete_session down s st id)
  unfolding complete_session
  complete-Steady st id = search steady

  module _ (lib : Library) (now : ℕ) (p : Xendit.Payload) where
    activate-Steady :
        (c : Option CheckoutSession) → Steady es (activate_plan lib down s now event_id p c)
    unfolding activate_plan
    activate-Steady none = search steady
    activate-Steady (some c) = elim (Option-cases (first (of_tenant c.tenant_id) s.subscriptions)) [
      | inl e ↦ rw e (search steady)
      | inr (x, e) ↦ rw e (search steady)
    ]

    inactivate-Steady :
        (x : Option Subscription)
        → Steady es (inactivate_xendit_subscription down s now event_id p x)
    unfolding inactivate_xendit_subscription
    inactivate-Steady none = search steady
    inactivate-Steady (some x) = search steady

    cycle-Steady :
        (st : InvoiceStatus) (x : Option Subscription)
        → Steady es (upsert_xendit_cycle lib down s now p st x)
    unfolding upsert_xendit_cycle
    cycle-Steady st none = search steady
    cycle-Steady st (some x) = search steady

    status-Steady :
        (st : SubscriptionStatus) (x : Option Subscription)
        → Steady es (update_xendit_subscription_status lib down s now event_id p st x)
    unfolding update_xendit_subscription_status
    status-Steady st none = search steady
    status-Steady st (some x) = search steady

queue_for-events :
    (s : Store) (key : String) (tenant : Option ℕ)
    → (queue_for s key tenant).webhook_events ≡ s.webhook_events
unfolding queue_for
queue_for-events s key none = refl
queue_for-events s key (some t) = refl

xendit_notice-Steady :
    (es : List WebhookEvent) (down : Faults) (s : Store)
    → s.webhook_events ≡ es
    → (d : Xendit.Resource) (key : String) → Steady es (queue_xendit_billing_notice down s d key)
unfolding queue_xendit_billing_notice
xendit_notice-Steady es down s h d key =
    Steady-if (down "queue notice") Steady-none (Steady-some (queue_for-events s key _ ∙ h))

module _ (es : List WebhookEvent) (down : Faults) (event_id : ℕ) where
  payload-Sound :
      (provider : String) (p : Webhook.Payload) (st : Option SubscriptionStatus)
      (inv : Option InvoiceStatus) (tenant : Option ℕ) (s : Store)
      → s.webhook_events ≡ es
      → Sound es (Webhook.apply_payload down provider event_id p st inv tenant s)
  unfolding Webhook.apply_payload Sound Webhook.cast_rejection
  payload-Sound provider p none inv none s h = omega arith
  payload-Sound provider p (some st) inv none s h = omega arith
  payload-Sound provider p st inv (some tenant) s h =
      Sound-or_reject (subscription_step down s event_id tenant p st)
        (error_json 409 "SUBSCRIPTION_UPDATE_FAILED") _
        (subscription-Steady es down event_id s h tenant p st) (omega arith)
        (λ t e.
          Sound-or_reject (invoice_step down t provider tenant inv p.invoice)
            (error_json 409 "INVOICE_UPDATE_FAILED") _
            (invoice-Steady es down event_id t e provider tenant inv p.invoice) (omega arith)
            (λ u f.
              Sound-or_reject (notice_step down u tenant _) (error_json 500 "INTERNAL_ERROR")
                applied (notice-Steady es down event_id u f tenant _) (omega arith) (λ v g. g)))

  cycle_and_status-Steady :
      (lib : Library) (now : ℕ) (p : Xendit.Payload) (inv : InvoiceStatus) (st : SubscriptionStatus)
      (s : Store)
      → s.webhook_events ≡ es
      → Steady es (cycle_and_status lib down s now event_id p inv st)
  unfolding cycle_and_status
  cycle_and_status-Steady lib now p inv st s h =
      let cycle =
        cycle-Steady es down event_id s h lib now p inv
          (first (by_subscription_id p.data_.plan_id) s.subscriptions) in
      elim (Option-cases (
        upsert_xendit_cycle lib down s now p inv
          (first (by_subscription_id p.data_.plan_id) s.subscriptions))) [
            | inl e ↦ rw e Steady-none
            | inr (t, e) ↦ rw e (status-Steady es down event_id t (cycle.kept t e) lib now p st _)
          ]

  event-Steady :
      (lib : Library) (now : ℕ) (p : Xendit.Payload) (e : Event) (s : Store)
      → s.webhook_events ≡ es
      → Steady es (apply_event lib down s now event_id p e)
  unfolding apply_event
  event-Steady lib now p session_completed s h = complete-Steady es down event_id s h _ _
  event-Steady lib now p session_expired s h = complete-Steady es down event_id s h _ _
  event-Steady lib now p plan_activated s h = activate-Steady es down event_id s h lib now p _
  event-Steady lib now p plan_inactivated s h = inactivate-Steady es down event_id s h lib now p _
  event-Steady lib now p cycle_pending s h = cycle-Steady es down event_id s h lib now p _ _
  event-Steady lib now p cycle_succeeded s h = cycle_and_status-Steady lib now p _ _ s h
  event-Steady lib now p cycle_failed s h = cycle_and_status-Steady lib now p _ _ s h

  xendit-Sound :
      (lib : Library) (now : ℕ) (p : Xendit.Payload) (e : Event) (key : String) (s : Store)
      → s.webhook_events ≡ es
      → Sound es (Xendit.apply_payload lib down now event_id p e key s)
  unfolding Xendit.apply_payload apply_xendit_webhook queue_xendit_billing_notice Sound
  xendit-Sound lib now p e key s h =
      Sound-or_reject (apply_xendit_webhook lib down s now event_id p e)
        (error_json 409 "XENDIT_EVENT_REJECTED") _
        (Steady-if (down "select") Steady-none (event-Steady lib now p e s h)) (omega arith)
        (λ t f.
          Sound-or_reject (queue_xendit_billing_notice down t p.data_ key)
            (error_json 500 "INTERNAL_ERROR") applied (xendit_notice-Steady es down t f p.data_ key)
            (omega arith) (λ v g. g))

module _ (down again : Faults) (s : Store) (new_id id2 : ℕ) (d : Delivered)
    (apply later : Store → Applied) where
  -- A registered event is never applied again.
  deliver_registered :
      (e : WebhookEvent) (t : Store)
      → first (is_event d.provider d.key) t.webhook_events ≡ some e
      → (deliver again t id2 d later).1 ≡ t
  unfolding deliver deliver_once
  deliver_registered e t h = ground (arith, h)

  process-event :
      (x : WebhookEvent) → is_event d.provider d.key (process x) ≡ is_event d.provider d.key x
  process-event x = refl

  registers :
      first (is_event d.provider d.key) s.webhook_events ≡ none
      → first (is_event d.provider d.key) (s.webhook_events ++ webhook_event new_id d ∷ [])
        ≡ some (webhook_event new_id d)
  registers h =
      rw
        (
          first-append (is_event d.provider d.key) s.webhook_events (webhook_event new_id d),
          h,
          (eq_iff d.provider d.provider).1 refl,
          (eq_iff d.key d.key).1 refl,
        )
        refl

  finalize-registered :
      (r : Applied)
      → first (is_event d.provider d.key) s.webhook_events ≡ none
      → Sound (s.webhook_events ++ webhook_event new_id d ∷ []) r
      → (finalize down s new_id r).0.status ≡ 200
      → (e : WebhookEvent) × (first
            (is_event d.provider d.key)
            (finalize down s new_id r).1.webhook_events
          ≡ some e)
  unfolding finalize Sound
  finalize-registered (rejected r) h q ok = absurd (omega arith)
  finalize-registered (applied t) h q ok = elim (Bool-cases (down "finalize" || down "commit")) [
    | inl e ↦ absurd (ground (arith, e, ok))
    | inr e ↦ rw e (
        first-update_kept (λ x. x.id == new_id) (is_event d.provider d.key) process t.webhook_events
          process-event {x = webhook_event new_id d} (rw q (registers h)))
  ]

  delivered-registered :
      Sound
        (s.webhook_events ++ webhook_event new_id d ∷ [])
        (apply (record s { webhook_events = s.webhook_events ++ webhook_event new_id d ∷ [] }))
      → (deliver down s new_id d apply).0.status ≡ 200
      → (e : WebhookEvent) × (first
            (is_event d.provider d.key)
            (deliver down s new_id d apply).1.webhook_events
          ≡ some e)
  unfolding deliver deliver_once
  delivered-registered q ok = elim (Bool-cases (down "begin" || down "register")) [
    | inl e ↦ absurd (ground (arith, e, ok))
    | inr b ↦ elim (Option-cases (first (is_event d.provider d.key) s.webhook_events)) [
      | inl e ↦
          let ok' : (finalize down s new_id (
                apply (record s {
                  webhook_events = s.webhook_events ++ webhook_event new_id d ∷ [];
                }))).0.status
              ≡ 200 =
            rw (b, e) at ok in
          rw (b, e) (finalize-registered _ e q ok')
      | inr (x, e) ↦ (x, ground (arith, b, e, ok))
    ]
  ]

  deliver_twice :
      Sound
        (s.webhook_events ++ webhook_event new_id d ∷ [])
        (apply (record s { webhook_events = s.webhook_events ++ webhook_event new_id d ∷ [] }))
      → (deliver down s new_id d apply).0.status ≡ 200
      → (deliver again (deliver down s new_id d apply).1 id2 d later).1
        ≡ (deliver down s new_id d apply).1
  deliver_twice q ok =
      let (e, h) = delivered-registered q ok in
      deliver_registered e (deliver down s new_id d apply).1 h

-- What a second run leaves as the first one left it.
record Once (r : Response × Store) (again : Store → Response × Store) : Type 0 where
  pub kept : r.0.status ≡ 200 → (again r.1).1 ≡ r.1

Once-same : {s : Store} {r r' : Response} → Once (r, s) (λ t. (r', t))
Once-same = record { kept = λ _. refl }

Once-if :
    (b : Bool) {x y : Response × Store} {f g : Store → Response × Store}
    → Once x f
    → Once y g
    → Once (if b then x else y) (λ t. if b then f t else g t)
Once-if true h k = h
Once-if false h k = k

module _ (lib : Library) (down again : Faults) (s : Store) (now later new_id id2 : ℕ) where
  valid_twice :
      (provider body : String) (p : Webhook.Payload)
      (v : Option (Option SubscriptionStatus × Option InvoiceStatus))
      → (Webhook.process_valid lib down s new_id provider body p v).0.status ≡ 200
      → (Webhook.process_valid lib again
          (Webhook.process_valid lib down s new_id provider body p v).1
          id2
          provider
          body
          p
          v).1
        ≡ (Webhook.process_valid lib down s new_id provider body p v).1
  unfolding Webhook.process_valid
  valid_twice provider body p none ok = refl
  valid_twice provider body p (some (st, inv)) ok =
      deliver_twice down again s new_id id2 (Webhook.delivered lib provider body p) _ _
        (payload-Sound _ down new_id provider p st inv (lib.uuid p.tenant_id) _ refl) ok

  payload_twice :
      (provider body : String) (p : Option Webhook.Payload)
      → (Webhook.process_payload lib down s new_id provider body p).0.status ≡ 200
      → (Webhook.process_payload lib again
          (Webhook.process_payload lib down s new_id provider body p).1
          id2
          provider
          body
          p).1
        ≡ (Webhook.process_payload lib down s new_id provider body p).1
  unfolding Webhook.process_payload
  payload_twice provider body none ok = refl
  payload_twice provider body (some p) ok = valid_twice provider body _ _ ok

  event_twice :
      (body created : String) (p : Xendit.Payload) (e : Option Event)
      → (Xendit.process_event lib down s now new_id body created p e).0.status ≡ 200
      → (Xendit.process_event lib again
          (Xendit.process_event lib down s now new_id body created p e).1
          later
          id2
          body
          created
          p
          e).1
        ≡ (Xendit.process_event lib down s now new_id body created p e).1
  unfolding Xendit.process_event
  event_twice body created p none ok = refl
  event_twice body created p (some e) ok =
      elim (Bool-cases (Xendit.xendit_webhook_resource_id p.data_ == "")) [
        | inl c ↦ rw c refl
        | inr c ↦ rw c (
            deliver_twice down again s new_id id2 (Xendit.delivered lib body p created) _ _
              (xendit-Sound _ down new_id lib now p e (Xendit.event_key p created) _ refl)
              (rw c at ok))
      ]

  created_twice :
      (body : String) (p : Xendit.Payload) (created : Option String)
      → let q = record p { created = created } in
        (Xendit.process_payload lib down s now new_id body (some q)).0.status ≡ 200
        → (Xendit.process_payload lib again
            (Xendit.process_payload lib down s now new_id body (some q)).1
            later
            id2
            body
            (some q)).1
          ≡ (Xendit.process_payload lib down s now new_id body (some q)).1
  unfolding Xendit.process_payload
  created_twice body p none ok = refl
  created_twice body p (some at) ok = elim (Bool-cases (p.event == "")) [
    | inl b ↦ rw b refl
    | inr b ↦ rw b (event_twice body at (record p { created = some at }) _ (rw b at ok))
  ]

  xendit_twice :
      (body : String) (p : Option Xendit.Payload)
      → Once
          (Xendit.process_payload lib down s now new_id body p)
          (λ t. Xendit.process_payload lib again t later id2 body p)
  xendit_twice body none = unfold Xendit.process_payload in record { kept = λ _. refl }
  xendit_twice body (some p) = record { kept = created_twice body p p.created }

  receive-Once :
      (h : Hook) → Once (receive lib down s now new_id h) (λ t. receive lib again t later id2 h)
  unfolding receive billing_webhook xendit_webhook
  receive-Once (generic parse secret path signature none) =
      Once-if (secret == "") Once-same
        (Once-if (not (is_provider (to_lower (trim_space path)))) Once-same Once-same)
  receive-Once (generic parse secret path signature (some body)) =
      Once-if (secret == "") Once-same (
        Once-if (not (is_provider (to_lower (trim_space path)))) Once-same (
          Once-if (body == "") Once-same (
            Once-if (not (valid_billing_signature lib body signature secret)) Once-same
              (record { kept = payload_twice (to_lower (trim_space path)) body (parse body) }))))
  receive-Once (xendit parse token provided none) = Once-if (trim_space token == "") Once-same (
      Once-if (not (len provided == len (trim_space token)) || not (provided == trim_space token))
        Once-same Once-same)
  receive-Once (xendit parse token provided (some body)) =
      Once-if (trim_space token == "") Once-same (
        Once-if (not (len provided == len (trim_space token)) || not (provided == trim_space token))
          Once-same (Once-if (body == "") Once-same (xendit_twice body (parse body))))

-- An event that was accepted has its effects once: the same request sent again, at any time and
-- whichever statements then fail, leaves every table as it is.
pub receive_twice :
    (lib : Library) (down again : Faults) (s : Store) (now later new_id id2 : ℕ) (h : Hook)
    → (receive lib down s now new_id h).0.status ≡ 200
    → let s' = (receive lib down s now new_id h).1 in (receive lib again s' later id2 h).1 ≡ s'
receive_twice lib down again s now later new_id id2 h ok =
    (receive-Once lib down again s now later new_id id2 h).kept ok
