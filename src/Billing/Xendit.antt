-- ===== src/Billing/Xendit.antt =====
-- services/api/internal/httpapi/billing_xendit_webhook.go: the events of the payment provider Xendit.
-- `body` is what `io.ReadAll` returns of the limited reader and `parse` is `json.Unmarshal`. The
-- event's creation time is a text in the RFC 3339 form, and `none` is the zero time.
use Prim.Native.String.{len}
use xpace.Prelude.{
  ℕ, ℤ, String, Bool, true, false, not, ◌&&◌, ◌||◌, Option, none, some, List, [], ◌∷◌, ◌++◌, first,
  exists, update_where, ltb, ◌==◌, if◌then◌else◌, nat_eq, text_eq, trim_space, to_upper, pos,
}
use xpace.Http.{Response, error_json, Faults}
use xpace.Billing.{
  SubscriptionStatus, active, past_due, canceled, InvoiceStatus, CheckoutStatus, Subscription,
  CheckoutSession, Invoice, SubscriptionEvent, Store, Library, of_tenant, has_text, nullif,
  coalesce, violates_unique, insert_or_update, violates_invoice_checks,
  queue_workspace_admin_notice, Applied, applied, or_reject, Delivered, deliver,
}
use xpace.Billing.Webhook.{is_canceled}

pub record Resource : Type 0 where
  pub id : String
  pub reference_id : String
  pub plan_id : String
  pub customer_id : String
  pub payment_session_id : String
  pub currency : String
  pub amount : ℤ
  pub scheduled_timestamp : Option ℕ

pub record Payload : Type 0 where
  pub event : String
  pub created : Option String
  pub data_ : Resource

-- The events that `supportedXenditEvent` accepts, by the branch of `applyXenditWebhook` they take.
pub data Event : Type 0 where
  session_completed session_expired plan_activated plan_inactivated : Event
  cycle_pending cycle_succeeded cycle_failed : Event

unfoldable pub supported_xendit_event : String → Option Event
supported_xendit_event e =
    if e == "payment_session.completed"
    then some session_completed
    else if e == "payment_session.expired"
    then some session_expired
    else if e == "recurring.plan.activated"
    then some plan_activated
    else if e == "recurring.plan.inactivated"
    then some plan_inactivated
    else if e == "recurring.cycle.created" || e == "recurring.cycle.retrying"
    then some cycle_pending
    else if e == "recurring.cycle.succeeded"
    then some cycle_succeeded
    else if e == "recurring.cycle.failed" || e == "recurring.cycle.force_attempt_failed"
    then some cycle_failed
    else none

unfoldable pub xendit_webhook_resource_id : Resource → String
xendit_webhook_resource_id d =
    if not (d.id == "")
    then d.id
    else if not (d.payment_session_id == "")
    then d.payment_session_id
    else d.reference_id

abbrev pub is_session : String → CheckoutSession → Bool
is_session id x = x.provider == "xendit" && has_text id x.provider_session_id

-- The session's own identifiers, neither of which matches when it is empty.
abbrev pub names_session : String → String → CheckoutSession → Bool
names_session session reference x =
    x.provider == "xendit"
    && ((not (session == "") && has_text session x.provider_session_id)
        || (not (reference == "") && x.reference_id == reference))

-- ORDER BY created_at DESC LIMIT 1
unfoldable pub latest_session : String → String → List CheckoutSession → Option CheckoutSession
latest_session session reference [] = none
latest_session session reference (x ∷ rest) =
    newer (names_session session reference x) (latest_session session reference rest)
  where
    newer : Bool → Option CheckoutSession → Option CheckoutSession
    newer false found = found
    newer true none = some x
    newer true (some y) = if ltb x.created_at y.created_at then some y else some x

abbrev pub by_subscription_id : String → Subscription → Bool
by_subscription_id id x = has_text id x.billing_subscription_id

abbrev pub log_event :
    Store → ℕ → ℕ → String → SubscriptionStatus → SubscriptionStatus → String → SubscriptionEvent
log_event s tenant event_id event from to plan = record {
  tenant_id = tenant;
  webhook_event_id = event_id;
  event_type = event;
  from_status = from;
  to_status = to;
  plan_key = plan;
}

-- The UPDATE of one workspace's subscription and the INSERT of its event.
abbrev pub write_subscription :
    Faults → Store → ℕ → (Subscription → Subscription) → SubscriptionEvent → Option Store
write_subscription down s tenant set log =
    if down "update subscription" || down "insert subscription event"
    then none
    else some (record s {
      subscriptions = update_where (of_tenant tenant) set s.subscriptions;
      subscription_events = s.subscription_events ++ log ∷ [];
    })

unfoldable pub complete_session : Faults → Store → CheckoutStatus → String → Option Store
complete_session down s status id =
    if down "update session" || not (exists (is_session id) s.checkout_sessions)
    then none
    else some (record s {
      checkout_sessions =
          update_where (is_session id) (λ x. record x { status = status }) s.checkout_sessions;
    })

unfoldable pub activate : Library → ℕ → String → Resource → Subscription → Subscription
activate lib now plan d x = record x {
  plan_key = plan;
  status = active;
  current_period_started_at = some now;
  current_period_ends_at = some (lib.add_month now);
  cancel_at_period_end = false;
  billing_customer_id = coalesce (nullif d.customer_id) x.billing_customer_id;
  billing_subscription_id = some d.id;
}

activate_previous :
    Library
    → Faults
    → Store
    → ℕ
    → ℕ
    → Payload
    → CheckoutSession
    → Option Subscription
    → Option Store
activate_previous lib down s now event_id p c none = none
activate_previous lib down s now event_id p c (some previous) =
    if violates_unique c.tenant_id (nullif p.data_.customer_id) (some p.data_.id) s.subscriptions
    then none
    else write_subscription down s c.tenant_id (activate lib now c.plan_key p.data_)
        (log_event s c.tenant_id event_id p.event previous.status active c.plan_key)

unfoldable pub activate_plan :
    Library → Faults → Store → ℕ → ℕ → Payload → Option CheckoutSession → Option Store
unfolding activate_previous
activate_plan lib down s now event_id p none = none
activate_plan lib down s now event_id p (some c) =
    activate_previous lib down s now event_id p c (first (of_tenant c.tenant_id) s.subscriptions)

abbrev pub is_after : Option ℕ → ℕ → Bool
is_after none now = false
is_after (some t) now = ltb now t

-- Cancelled at once, unless the cancellation was scheduled and the paid period is still running.
unfoldable pub inactivated_status : ℕ → Subscription → SubscriptionStatus
inactivated_status now x =
    if x.cancel_at_period_end && is_after x.current_period_ends_at now then active else canceled

abbrev pub set_inactivated : SubscriptionStatus → Subscription → Subscription
set_inactivated status x = record x {
  status = status;
  cancel_at_period_end = if is_canceled status then false else x.cancel_at_period_end;
}

unfoldable pub inactivate_xendit_subscription :
    Faults → Store → ℕ → ℕ → Payload → Option Subscription → Option Store
inactivate_xendit_subscription down s now event_id p none = none
inactivate_xendit_subscription down s now event_id p (some x) =
    let status = inactivated_status now x in
    write_subscription down s x.tenant_id (set_inactivated status)
      (log_event s x.tenant_id event_id p.event x.status status x.plan_key)

abbrev pub is_active_status : SubscriptionStatus → Bool
is_active_status SubscriptionStatus.active = true
is_active_status _ = false

abbrev from_default : ℕ → Option ℕ → ℕ
from_default now none = now
from_default now (some t) = t

unfoldable pub set_cycle : Library → ℕ → Option ℕ → SubscriptionStatus → Subscription → Subscription
set_cycle lib now scheduled status x = record x {
  status = status;
  current_period_started_at =
      if is_active_status status then some now else x.current_period_started_at;
  current_period_ends_at =
      if is_active_status status
      then some (lib.add_month (from_default now scheduled))
      else x.current_period_ends_at;
  cancel_at_period_end = if is_canceled status then false else x.cancel_at_period_end;
}

unfoldable pub update_xendit_subscription_status :
    Library
    → Faults
    → Store
    → ℕ
    → ℕ
    → Payload
    → SubscriptionStatus
    → Option Subscription
    → Option Store
update_xendit_subscription_status lib down s now event_id p status none = none
update_xendit_subscription_status lib down s now event_id p status (some x) =
    write_subscription down s x.tenant_id (set_cycle lib now p.data_.scheduled_timestamp status)
      (log_event s x.tenant_id event_id p.event x.status status x.plan_key)

abbrev pub plan_of : Resource → String
plan_of d = if d.plan_id == "" then d.id else d.plan_id

abbrev next_month : Library → Option ℕ → Option ℕ
next_month lib none = none
next_month lib (some t) = some (lib.add_month t)

abbrev paid_since : ℕ → InvoiceStatus → Option ℕ
paid_since now InvoiceStatus.paid = some now
paid_since now _ = none

abbrev pub cycle_invoice : Library → ℕ → ℕ → Resource → InvoiceStatus → Invoice
cycle_invoice lib now tenant d status =
    let upper = to_upper d.currency in
    record {
      tenant_id = tenant;
      provider = "xendit";
      provider_invoice_id = d.id;
      invoice_number = Prim.Native.String.◌++◌ "XENDIT-" d.id;
      status = status;
      currency = if upper == "" then "IDR" else upper;
      subtotal_amount = d.amount;
      tax_amount = pos 0;
      total_amount = d.amount;
      hosted_invoice_url = none;
      period_started_at = d.scheduled_timestamp;
      period_ends_at = next_month lib d.scheduled_timestamp;
      due_at = d.scheduled_timestamp;
      paid_at = paid_since now status;
    }

-- DO UPDATE SET: the row keeps its workspace, its number, its tax and its link, and a payment time.
abbrev pub set_invoice : Invoice → Invoice → Invoice
set_invoice new x = record x {
  status = new.status;
  currency = new.currency;
  subtotal_amount = new.subtotal_amount;
  total_amount = new.total_amount;
  period_started_at = new.period_started_at;
  period_ends_at = new.period_ends_at;
  due_at = new.due_at;
  paid_at = coalesce new.paid_at x.paid_at;
}

unfoldable pub upsert_xendit_cycle :
    Library → Faults → Store → ℕ → Payload → InvoiceStatus → Option Subscription → Option Store
upsert_xendit_cycle lib down s now p status none = none
upsert_xendit_cycle lib down s now p status (some x) =
    let row = cycle_invoice lib now x.tenant_id p.data_ status in
    if down "upsert invoice" || violates_invoice_checks row
    then none
    else some (record s { invoices = insert_or_update row (set_invoice row) s.invoices })

unfoldable pub cycle_and_status :
    Library → Faults → Store → ℕ → ℕ → Payload → InvoiceStatus → SubscriptionStatus → Option Store
cycle_and_status lib down s now event_id p invoice_status status = then_status (
    upsert_xendit_cycle lib down s now p invoice_status
      (first (by_subscription_id p.data_.plan_id) s.subscriptions))
  where
    then_status : Option Store → Option Store
    then_status none = none
    then_status (some s1) =
        update_xendit_subscription_status lib down s1 now event_id p status
          (first (by_subscription_id (plan_of p.data_)) s1.subscriptions)

-- `none` is an error. A failed SELECT is an error before anything is written.
unfoldable pub apply_event : Library → Faults → Store → ℕ → ℕ → Payload → Event → Option Store
apply_event lib down s now event_id p session_completed =
    complete_session down s CheckoutStatus.completed p.data_.payment_session_id
apply_event lib down s now event_id p session_expired =
    complete_session down s CheckoutStatus.expired p.data_.payment_session_id
apply_event lib down s now event_id p plan_activated =
    activate_plan lib down s now event_id p
      (latest_session p.data_.payment_session_id p.data_.reference_id s.checkout_sessions)
apply_event lib down s now event_id p plan_inactivated =
    inactivate_xendit_subscription down s now event_id p
      (first (by_subscription_id p.data_.id) s.subscriptions)
apply_event lib down s now event_id p cycle_pending =
    upsert_xendit_cycle lib down s now p InvoiceStatus.pending
      (first (by_subscription_id p.data_.plan_id) s.subscriptions)
apply_event lib down s now event_id p cycle_succeeded =
    cycle_and_status lib down s now event_id p InvoiceStatus.paid active
apply_event lib down s now event_id p cycle_failed =
    cycle_and_status lib down s now event_id p InvoiceStatus.failed past_due

unfoldable pub apply_xendit_webhook :
    Library → Faults → Store → ℕ → ℕ → Payload → Event → Option Store
apply_xendit_webhook lib down s now event_id p e =
    if down "select" then none else apply_event lib down s now event_id p e

-- The target workspace of a notice: of a session, or else of a subscription.
abbrev pub session_tenant : Option CheckoutSession → Option Subscription → Option ℕ
session_tenant (some c) found = some c.tenant_id
session_tenant none (some x) = some x.tenant_id
session_tenant none none = none

abbrev pub notice_subscription : Resource → Subscription → Bool
notice_subscription d x =
    (not (d.id == "") && has_text d.id x.billing_subscription_id)
    || (not (d.plan_id == "") && has_text d.plan_id x.billing_subscription_id)

unfoldable pub queue_for : Store → String → Option ℕ → Store
queue_for s key none = s
queue_for s key (some tenant) = record s {
  email_outbox =
      queue_workspace_admin_notice tenant (Prim.Native.String.◌++◌ "billing:xendit:" key)
        s.rbac.users s.email_outbox;
}

unfoldable pub queue_xendit_billing_notice : Faults → Store → Resource → String → Option Store
queue_xendit_billing_notice down s d key =
    if down "queue notice"
    then none
    else some (
        queue_for s key (
          session_tenant
            (first (names_session d.payment_session_id d.reference_id) s.checkout_sessions)
            (first (notice_subscription d) s.subscriptions)))

unfoldable pub apply_payload : Library → Faults → ℕ → ℕ → Payload → Event → String → Store → Applied
apply_payload lib down now event_id p e key s =
    or_reject (apply_xendit_webhook lib down s now event_id p e)
      (error_json 409 "XENDIT_EVENT_REJECTED")
      (λ s1.
        or_reject (queue_xendit_billing_notice down s1 p.data_ key)
          (error_json 500 "INTERNAL_ERROR") (λ s2. applied s2))

abbrev pub event_key : Payload → String → String
event_key p created = Prim.Native.String.◌++◌ p.event (
    Prim.Native.String.◌++◌ ":" (
      Prim.Native.String.◌++◌ (xendit_webhook_resource_id p.data_)
        (Prim.Native.String.◌++◌ ":" created)))

abbrev pub delivered : Library → String → Payload → String → Delivered
delivered lib body p created = record {
  provider = "xendit";
  key = event_key p created;
  event_type = p.event;
  hash = lib.sha256_hex body;
}

unfoldable pub process_event :
    Library
    → Faults
    → Store
    → (now new_id : ℕ) → (body created : String) → Payload
    → Option Event
    → Response × Store
process_event lib down s now new_id body created p none =
    (error_json 400 "UNSUPPORTED_XENDIT_EVENT", s)
process_event lib down s now new_id body created p (some e) =
    if xendit_webhook_resource_id p.data_ == ""
    then (error_json 400 "UNSUPPORTED_XENDIT_EVENT", s)
    else deliver down s new_id (delivered lib body p created)
        (apply_payload lib down now new_id p e (event_key p created))

process_created :
    Library
    → Faults
    → Store
    → (now new_id : ℕ) → (body : String) → Payload
    → Option String
    → Response × Store
process_created lib down s now new_id body p none = (error_json 400 "INVALID_INPUT", s)
process_created lib down s now new_id body p (some created) =
    if p.event == ""
    then (error_json 400 "INVALID_INPUT", s)
    else process_event lib down s now new_id body created p (supported_xendit_event p.event)

unfoldable pub process_payload :
    Library
    → Faults
    → Store
    → (now new_id : ℕ) → (body : String) → Option Payload
    → Response × Store
unfolding process_created
process_payload lib down s now new_id body none = (error_json 400 "INVALID_INPUT", s)
process_payload lib down s now new_id body (some p) =
    process_created lib down s now new_id body p p.created

process_body :
    Library
    → (String → Option Payload)
    → Faults
    → Store
    → (now new_id : ℕ) → Option String
    → Response × Store
process_body lib parse down s now new_id none = (error_json 400 "INVALID_INPUT", s)
process_body lib parse down s now new_id (some body) =
    if body == ""
    then (error_json 400 "INVALID_INPUT", s)
    else process_payload lib down s now new_id body (parse body)

unfoldable pub xendit_webhook :
    Library
    → (String → Option Payload)
    → (configured_token : String) → Faults
    → Store
    → (now new_id : ℕ) → (provided : String) → Option String
    → Response × Store
unfolding process_body
xendit_webhook lib parse configured_token down s now new_id provided body =
    let token = trim_space configured_token in
    if token == ""
    then (error_json 503 "BILLING_NOT_CONFIGURED", s)
    else if not (len provided == len token) || not (provided == token)
    then (error_json 401 "INVALID_SIGNATURE", s)
    else process_body lib parse down s now new_id body
