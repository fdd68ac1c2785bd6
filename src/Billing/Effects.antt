-- ===== src/Billing/Effects.antt =====
-- services/api/internal/httpapi/billing.go: what an accepted event of the generic provider leaves in
-- the subscriptions and in the invoices.
use mathlib.Core.Option
use xpace.Prelude.{
  ℕ, ◌≡◌, ◌≢◌, ◌∙◌, refl, sym, ap, String, Bool, true, false, not, ◌||◌, Option, none, some, [],
  ◌∷◌, ◌++◌, inl, inr, arith, ◌==◌, nat_eq, text_eq, if◌then◌else◌, first, update_where,
  Option-cases, Bool-cases, first-update_self, to_lower, trim_space,
}
use xpace.Http.{Response, IsError, Faults}
use xpace.Billing.{
  SubscriptionStatus, InvoiceStatus, Subscription, Store, Library, Applied, rejected, applied,
  or_reject, of_tenant, is_event, Delivered, webhook_event, process, finalize, deliver_once,
  deliver,
}
use xpace.Billing.Webhook.{
  Payload, InvoicePayload, trimmed, validate_billing_webhook, billing_webhook, process_payload,
  process_valid, is_provider, valid_billing_signature, delivered, cast_rejection, apply_payload,
  set_subscription, subscription_step, invoice_step, notice_step, apply_billing_subscription_event,
  upsert_billing_invoice,
}

-- The workspace's subscription stands at the event's status, on the event's plan.
abbrev pub ShowsSubscription : Store → ℕ → String → Option SubscriptionStatus → Type 0
ShowsSubscription s tenant plan none = Unit
ShowsSubscription s tenant plan (some status) =
    (row : Subscription) × (first (of_tenant tenant) s.subscriptions ≡ some row)
    × (row.status ≡ status)
    × (row.plan_key ≡ plan)

Shows-same :
    (s t : Store) (tenant : ℕ) (plan : String) (st : Option SubscriptionStatus)
    → t.subscriptions ≡ s.subscriptions
    → ShowsSubscription s tenant plan st
    → ShowsSubscription t tenant plan st
Shows-same s t tenant plan none e h = tt
Shows-same s t tenant plan (some st) e (row, f, a, b) = (row, rw e f, a, b)

if_none-some : (b : Bool) {x t : Store} → (if b then none else some x) ≡ some t → x ≡ t
if_none-some true e = cc
if_none-some false e = cc

module _ (down : Faults) (event_id tenant : ℕ) (p : Payload) where
  step-Shows :
      (s t : Store) (st : Option SubscriptionStatus)
      → subscription_step down s event_id tenant p st ≡ some t
      → ShowsSubscription t tenant p.plan_key st
  unfolding subscription_step apply_billing_subscription_event set_subscription
  step-Shows s t none h = tt
  step-Shows s t (some st) h = elim (Bool-cases (down "select subscription")) [
    | inl c ↦ let h' : none ≡ some t = rw c at h in cc
    | inr c ↦ elim (Option-cases (first (of_tenant tenant) s.subscriptions)) [
      | inl e ↦ let h' : none ≡ some t = rw (c, e) at h in cc
      | inr (x, e) ↦
          let same = if_none-some _ (rw (c, e) at h) in
          (
            set_subscription p st x,
            ap (λ z. first (of_tenant tenant) z.subscriptions) (sym same)
                ∙ first-update_self (of_tenant tenant) (set_subscription p st) s.subscriptions
                    (λ y k. k)
                ∙ ap (Option.map (set_subscription p st)) e,
            refl,
            refl,
          )
    ]
  ]

  invoice-same :
      (s t : Store) (provider : String) (inv : Option InvoiceStatus) (x : Option InvoicePayload)
      → invoice_step down s provider tenant inv x ≡ some t
      → t.subscriptions ≡ s.subscriptions
  unfolding invoice_step upsert_billing_invoice
  invoice-same s t provider inv none h = let e : s ≡ t = cc in ap (λ z. z.subscriptions) (sym e)
  invoice-same s t provider none (some x) h = cc
  invoice-same s t provider (some inv) (some x) h =
      ap (λ z. z.subscriptions) (sym (if_none-some _ h))

  notice-same :
      (s t : Store) (prefix : String)
      → notice_step down s tenant prefix ≡ some t
      → t.subscriptions ≡ s.subscriptions
  unfolding notice_step
  notice-same s t prefix h = ap (λ z. z.subscriptions) (sym (if_none-some _ h))

-- What holds of the tables of a transaction that was not rejected; a rejection is an error.
abbrev OnApplied : (Store → Type 0) → Applied → Type 0
OnApplied P (rejected r) = IsError r
OnApplied P (applied t) = P t

OnApplied-or_reject :
    (P : Store → Type 0) (o : Option Store) (r : Response) (rest : Store → Applied)
    → IsError r
    → ((t : Store) → o ≡ some t → OnApplied P (rest t))
    → OnApplied P (or_reject o r rest)
OnApplied-or_reject P none r rest e h = e
OnApplied-or_reject P (some t) r rest e h = h t refl

payload-Shows :
    (down : Faults) (provider : String) (event_id tenant : ℕ) (p : Payload)
    (st : Option SubscriptionStatus) (inv : Option InvoiceStatus) (s : Store)
    → OnApplied
        (λ t. ShowsSubscription t tenant p.plan_key st)
        (apply_payload down provider event_id p st inv (some tenant) s)
unfolding apply_payload
payload-Shows down provider event_id tenant p st inv s =
    OnApplied-or_reject _ (subscription_step down s event_id tenant p st) _ _ (omega arith) (λ t e.
      OnApplied-or_reject _ (invoice_step down t provider tenant inv p.invoice) _ _ (omega arith)
        (λ u f. OnApplied-or_reject _ (notice_step down u tenant _) _ _ (omega arith) (λ v g.
          Shows-same u v tenant p.plan_key st (notice-same down event_id tenant p u v _ g) (
            Shows-same t u tenant p.plan_key st
              (invoice-same down event_id tenant p t u provider inv p.invoice f)
              (step-Shows down event_id tenant p s t st e)))))

finalize-Shows :
    (down : Faults) (s : Store) (new_id tenant : ℕ) (plan : String) (st : Option SubscriptionStatus)
    (r : Applied)
    → OnApplied (λ t. ShowsSubscription t tenant plan st) r
    → (finalize down s new_id r).0.status ≡ 200
    → ShowsSubscription (finalize down s new_id r).1 tenant plan st
unfolding finalize
finalize-Shows down s new_id tenant plan st (rejected r) h ok = absurd (omega arith)
finalize-Shows down s new_id tenant plan st (applied t) h ok =
    elim (Bool-cases (down "finalize" || down "commit")) [
      | inl e ↦ absurd (ground (arith, e, ok))
      | inr e ↦ rw e (
          Shows-same t
            (record t {
              webhook_events = update_where (λ x. x.id == new_id) process t.webhook_events;
            })
            tenant plan st refl h)
    ]

deliver-Shows :
    (down : Faults) (s : Store) (new_id tenant : ℕ) (plan : String) (st : Option SubscriptionStatus)
    (d : Delivered) (apply : Store → Applied)
    → ((t : Store) → OnApplied (λ u. ShowsSubscription u tenant plan st) (apply t))
    → first (is_event d.provider d.key) s.webhook_events ≡ none
    → (deliver down s new_id d apply).0.status ≡ 200
    → ShowsSubscription (deliver down s new_id d apply).1 tenant plan st
unfolding deliver deliver_once
deliver-Shows down s new_id tenant plan st d apply h new ok =
    elim (Bool-cases (down "begin" || down "register")) [
      | inl e ↦ absurd (ground (arith, e, ok))
      | inr e ↦
          rw (e, new) (finalize-Shows down s new_id tenant plan st _ (h _) (rw (e, new) at ok))
    ]

deliver-rejected :
    (down : Faults) (s : Store) (new_id : ℕ) (d : Delivered) (apply : Store → Applied)
    (r : Store → Response)
    → ((t : Store) → apply t ≡ rejected (r t))
    → ((t : Store) → IsError (r t))
    → first (is_event d.provider d.key) s.webhook_events ≡ none
    → (deliver down s new_id d apply).0.status ≢ 200
unfolding deliver deliver_once finalize
deliver-rejected down s new_id d apply r h e new =
    elim (Bool-cases (down "begin" || down "register")) [
      | inl b ↦ rw b (omega arith)
      | inr b ↦
          rw (b, new, h _)
            (let bad =
                e (record s { webhook_events = s.webhook_events ++ webhook_event new_id d ∷ [] }) in
              omega (arith, bad))
    ]

cast_rejection-IsError : (st : Option SubscriptionStatus) → IsError (cast_rejection st)
unfolding cast_rejection
cast_rejection-IsError none = omega arith
cast_rejection-IsError (some st) = omega arith

cast-rejected :
    (down : Faults) (provider : String) (event_id : ℕ) (p : Payload)
    (st : Option SubscriptionStatus) (inv : Option InvoiceStatus) (s : Store)
    → apply_payload down provider event_id p st inv none s ≡ rejected (cast_rejection st)
unfolding apply_payload
cast-rejected down provider event_id p st inv s = refl

module _ (lib : Library) (down : Faults) (s : Store) (new_id : ℕ) (provider body : String)
    (p : Payload) where
  valid-Shows :
      (st : Option SubscriptionStatus) (inv : Option InvoiceStatus)
      → first (is_event provider p.id) s.webhook_events ≡ none
      → (process_valid lib down s new_id provider body p (some (st, inv))).0.status ≡ 200
      → (tenant : ℕ) × (lib.uuid p.tenant_id ≡ some tenant)
        × ShowsSubscription
            (process_valid lib down s new_id provider body p (some (st, inv))).1
            tenant
            p.plan_key
            st
  unfolding process_valid
  valid-Shows st inv new ok = elim (Option-cases (lib.uuid p.tenant_id)) [
    | inl e ↦ absurd (
        deliver-rejected down s new_id (delivered lib provider body p)
          (apply_payload down provider new_id p st inv none) (λ _. cast_rejection st)
          (cast-rejected down provider new_id p st inv) (λ t. cast_rejection-IsError st) new
          (rw e at ok))
    | inr (tenant, e) ↦ (
      tenant,
      e,
      rw e (
          deliver-Shows down s new_id tenant p.plan_key st (delivered lib provider body p) _
            (λ t. payload-Shows down provider new_id tenant p st inv t) new (rw e at ok)),
    )
  ]

-- A new event of the generic provider that is accepted names a workspace by a UUID; if its type gives
-- the subscription a status, that workspace's subscription stands afterwards at this status, on the
-- plan that the event names.
pub event_applied :
    (lib : Library) (parse : String → Option Payload) (secret : String) (down : Faults) (s : Store)
    (new_id : ℕ) (path signature body : String) (p : Payload) (st : Option SubscriptionStatus)
    (inv : Option InvoiceStatus)
    → parse body ≡ some p
    → validate_billing_webhook (trimmed p) ≡ some (st, inv)
    → first (is_event (to_lower (trim_space path)) (trim_space p.id)) s.webhook_events ≡ none
    → (billing_webhook lib parse secret down s new_id path signature (some body)).0.status ≡ 200
    → (tenant : ℕ) × (lib.uuid (trimmed p).tenant_id ≡ some tenant)
      × ShowsSubscription
          (billing_webhook lib parse secret down s new_id path signature (some body)).1
          tenant
          (trimmed p).plan_key
          st
unfolding billing_webhook process_payload
event_applied lib parse secret down s new_id path signature body p st inv parsed valid new ok =
    elim (Bool-cases (secret == "")) [
      | inl a ↦ absurd (ground (arith, a, ok))
      | inr a ↦ elim (Bool-cases (not (is_provider (to_lower (trim_space path))))) [
        | inl b ↦ absurd (ground (arith, a, b, ok))
        | inr b ↦ elim (Bool-cases (body == "")) [
          | inl c ↦ absurd (ground (arith, a, b, c, ok))
          | inr c ↦ elim (Bool-cases (not (valid_billing_signature lib body signature secret))) [
            | inl d ↦ absurd (ground (arith, a, b, c, d, ok))
            | inr d ↦
                rw (a, b, c, d, parsed, valid)
                  (valid-Shows lib down s new_id (to_lower (trim_space path)) body (trimmed p) st
                    inv new (rw (a, b, c, d, parsed, valid) at ok))
          ]
        ]
      ]
    ]
