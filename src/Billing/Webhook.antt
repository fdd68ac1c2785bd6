-- ===== src/Billing/Webhook.antt =====
-- services/api/internal/httpapi/billing.go: `billingWebhook`, the signed events of a generic payment
-- provider. `body` is what `io.ReadAll` returns of the limited reader, `parse` is `json.Unmarshal`.
use Prim.Native.Char.{Char, code}
use Prim.Native.String.{len, slice}
use xpace.Prelude.{
  ℕ, ℤ, String, Bool, true, false, not, ◌&&◌, ◌||◌, Option, none, some, [], ◌∷◌, ◌++◌, first,
  exists, update_where, ltb, leb, ◌==◌, if◌then◌else◌, nat_eq, text_eq, trim_space, to_upper,
  to_lower, is_negative,
}
use xpace.Http.{Response, error_json, Faults}
use xpace.Incidents.Alerts.{trim_prefix}
use xpace.Billing.{
  SubscriptionStatus, active, past_due, canceled, suspended, InvoiceStatus, Subscription, Invoice,
  SubscriptionEvent, Store, Library, of_tenant, nullif, coalesce, violates_unique, insert_or_update,
  violates_invoice_checks, queue_workspace_admin_notice, Applied, rejected, applied, or_reject,
  Delivered, deliver,
}

pub record InvoicePayload : Type 0 where
  pub id : String
  pub number : String
  pub currency : String
  pub subtotal_amount : ℤ
  pub tax_amount : ℤ
  pub total_amount : ℤ
  pub hosted_url : String
  pub period_started_at : Option ℕ
  pub period_ends_at : Option ℕ
  pub due_at : Option ℕ
  pub paid_at : Option ℕ

pub record Payload : Type 0 where
  pub id : String
  pub event_type : String
  pub tenant_id : String
  pub plan_key : String
  pub customer_id : String
  pub subscription_id : String
  pub period_started_at : Option ℕ
  pub period_ends_at : Option ℕ
  pub invoice : Option InvoicePayload

lower_alphanumeric : Char → Bool
lower_alphanumeric c =
    (leb b'a' (code c) && leb (code c) b'z') || (leb b'0' (code c) && leb (code c) b'9')

all_provider : String → Bool
unfolding lower_alphanumeric
all_provider Prim.Native.String.[] = true
all_provider (Prim.Native.String.◌∷◌ c s) =
    (lower_alphanumeric c || code c == b'_' || code c == b'-') && all_provider s

-- `billingProviderPattern`: ^[a-z0-9][a-z0-9_-]{0,39}$
unfoldable pub is_provider : String → Bool
unfolding all_provider lower_alphanumeric
is_provider Prim.Native.String.[] = false
is_provider (Prim.Native.String.◌∷◌ c s) = lower_alphanumeric c && all_provider s && leb (len s) 39

unfoldable pub valid_billing_signature : Library → String → String → String → Bool
valid_billing_signature lib body provided secret =
    same (lib.decode_hex (trim_space (trim_prefix provided "sha256=")))
  where
    same : Option String → Bool
    same none = false
    same (some decoded) = decoded == lib.hmac_sha256 secret body

-- The new statuses of the subscription and of the invoice, of each type of event.
unfoldable pub event_statuses : String → Option (Option SubscriptionStatus × Option InvoiceStatus)
event_statuses t =
    if t == "subscription.activated" || t == "subscription.renewed"
    then some (some active, none)
    else if t == "subscription.past_due"
    then some (some past_due, none)
    else if t == "subscription.canceled"
    then some (some canceled, none)
    else if t == "subscription.suspended"
    then some (some suspended, none)
    else if t == "invoice.pending"
    then some (none, some InvoiceStatus.pending)
    else if t == "invoice.paid"
    then some (some active, some InvoiceStatus.paid)
    else if t == "invoice.payment_failed"
    then some (some past_due, some InvoiceStatus.failed)
    else if t == "invoice.voided"
    then some (none, some InvoiceStatus.void)
    else if t == "invoice.refunded"
    then some (none, some InvoiceStatus.refunded)
    else none

abbrev pub is_some {ℓ} : {A : Type ℓ} → Option A → Bool
is_some none = false
is_some (some x) = true

abbrev pub lacks_invoice_id : Option InvoicePayload → Bool
lacks_invoice_id none = true
lacks_invoice_id (some x) = trim_space x.id == ""

abbrev pub has_invalid_amounts : Option InvoicePayload → Bool
has_invalid_amounts none = false
has_invalid_amounts (some x) =
    not (len (to_upper (trim_space x.currency)) == 3)
    || is_negative x.subtotal_amount
    || is_negative x.tax_amount
    || is_negative x.total_amount

validate_statuses :
    Payload
    → Option (Option SubscriptionStatus × Option InvoiceStatus)
    → Option (Option SubscriptionStatus × Option InvoiceStatus)
validate_statuses p none = none
validate_statuses p (some (status, invoice_status)) =
    if is_some status && p.plan_key == ""
      || is_some invoice_status && lacks_invoice_id p.invoice
      || has_invalid_amounts p.invoice
    then none
    else some (status, invoice_status)

unfoldable pub validate_billing_webhook :
    Payload → Option (Option SubscriptionStatus × Option InvoiceStatus)
unfolding validate_statuses
validate_billing_webhook p =
    if p.id == "" || ltb 200 (len p.id) || p.tenant_id == ""
    then none
    else validate_statuses p (event_statuses p.event_type)

abbrev pub is_canceled : SubscriptionStatus → Bool
is_canceled SubscriptionStatus.canceled = true
is_canceled _ = false

-- The SET clause of `applyBillingSubscriptionEvent`.
unfoldable pub set_subscription : Payload → SubscriptionStatus → Subscription → Subscription
set_subscription p status x = record x {
  plan_key = p.plan_key;
  status = status;
  current_period_started_at = coalesce p.period_started_at x.current_period_started_at;
  current_period_ends_at = coalesce p.period_ends_at x.current_period_ends_at;
  cancel_at_period_end = if is_canceled status then false else x.cancel_at_period_end;
  billing_customer_id = coalesce (nullif p.customer_id) x.billing_customer_id;
  billing_subscription_id = coalesce (nullif p.subscription_id) x.billing_subscription_id;
}

updated_subscription :
    Faults → Store → ℕ → ℕ → Payload → SubscriptionStatus → Option Subscription → Option Store
updated_subscription down s event_id tenant p status none = none
updated_subscription down s event_id tenant p status (some previous) =
    let log : SubscriptionEvent = record {
      tenant_id = tenant;
      webhook_event_id = event_id;
      event_type = p.event_type;
      from_status = previous.status;
      to_status = status;
      plan_key = p.plan_key;
    } in
    if down "update subscription"
      || not (exists (λ k. k == p.plan_key) s.plans)
      || violates_unique tenant (nullif p.customer_id) (nullif p.subscription_id) s.subscriptions
      || down "insert subscription event"
    then none
    else some (record s {
      subscriptions = update_where (of_tenant tenant) (set_subscription p status) s.subscriptions;
      subscription_events = s.subscription_events ++ log ∷ [];
    })

unfoldable pub apply_billing_subscription_event :
    Faults → Store → ℕ → ℕ → Payload → SubscriptionStatus → Option Store
unfolding updated_subscription
apply_billing_subscription_event down s event_id tenant p status =
    if down "select subscription"
    then none
    else updated_subscription down s event_id tenant p status
        (first (of_tenant tenant) s.subscriptions)

abbrev pub invoice_row : String → ℕ → InvoiceStatus → InvoicePayload → Invoice
invoice_row provider tenant status x = record {
  tenant_id = tenant;
  provider = provider;
  provider_invoice_id = trim_space x.id;
  invoice_number = trim_space x.number;
  status = status;
  currency = to_upper (trim_space x.currency);
  subtotal_amount = x.subtotal_amount;
  tax_amount = x.tax_amount;
  total_amount = x.total_amount;
  hosted_invoice_url = nullif (trim_space x.hosted_url);
  period_started_at = x.period_started_at;
  period_ends_at = x.period_ends_at;
  due_at = x.due_at;
  paid_at = x.paid_at;
}

-- A status that is no invoice status violates the column's CHECK.
unfoldable pub upsert_billing_invoice :
    Faults → Store → String → ℕ → Option InvoiceStatus → InvoicePayload → Option Store
upsert_billing_invoice down s provider tenant none x = none
upsert_billing_invoice down s provider tenant (some status) x =
    let row = invoice_row provider tenant status x in
    if down "upsert invoice"
      || violates_invoice_checks row
      || not (exists (λ t. t == tenant) s.tenants)
    then none
    else some (record s { invoices = insert_or_update row (λ _. row) s.invoices })

unfoldable pub subscription_step :
    Faults → Store → ℕ → ℕ → Payload → Option SubscriptionStatus → Option Store
subscription_step down s event_id tenant p none = some s
subscription_step down s event_id tenant p (some status) =
    apply_billing_subscription_event down s event_id tenant p status

unfoldable pub invoice_step :
    Faults → Store → String → ℕ → Option InvoiceStatus → Option InvoicePayload → Option Store
invoice_step down s provider tenant status none = some s
invoice_step down s provider tenant status (some x) =
    upsert_billing_invoice down s provider tenant status x

unfoldable pub notice_step : Faults → Store → ℕ → String → Option Store
notice_step down s tenant prefix =
    if down "queue notice"
    then none
    else some (record s {
      email_outbox = queue_workspace_admin_notice tenant prefix s.rbac.users s.email_outbox;
    })

notice_prefix : String → String → String
notice_prefix provider id =
    Prim.Native.String.◌++◌ "billing:"
      (Prim.Native.String.◌++◌ provider (Prim.Native.String.◌++◌ ":" id))

-- A tenant identifier that is no UUID makes the first statement that casts it fail.
unfoldable pub cast_rejection : Option SubscriptionStatus → Response
cast_rejection (some status) = error_json 409 "SUBSCRIPTION_UPDATE_FAILED"
cast_rejection none = error_json 409 "INVOICE_UPDATE_FAILED"

unfoldable pub apply_payload :
    Faults
    → String
    → ℕ
    → Payload
    → Option SubscriptionStatus
    → Option InvoiceStatus
    → Option ℕ
    → Store
    → Applied
unfolding notice_prefix
apply_payload down provider event_id p status invoice_status none s =
    rejected (cast_rejection status)
apply_payload down provider event_id p status invoice_status (some tenant) s =
    or_reject (subscription_step down s event_id tenant p status)
      (error_json 409 "SUBSCRIPTION_UPDATE_FAILED")
      (λ s1.
        or_reject (invoice_step down s1 provider tenant invoice_status p.invoice)
          (error_json 409 "INVOICE_UPDATE_FAILED")
          (λ s2.
            or_reject (notice_step down s2 tenant (notice_prefix provider p.id))
              (error_json 500 "INTERNAL_ERROR") (λ s3. applied s3)))

-- Of a payload whose texts were trimmed.
abbrev pub trimmed : Payload → Payload
trimmed p = record p {
  id = trim_space p.id;
  event_type = trim_space p.event_type;
  tenant_id = trim_space p.tenant_id;
  plan_key = to_upper (trim_space p.plan_key);
}

abbrev pub delivered : Library → String → String → Payload → Delivered
delivered lib provider body p = record {
  provider = provider;
  key = p.id;
  event_type = p.event_type;
  hash = lib.sha256_hex body;
}

unfoldable pub process_valid :
    Library
    → Faults
    → Store
    → ℕ
    → (provider body : String) → Payload
    → Option (Option SubscriptionStatus × Option InvoiceStatus)
    → Response × Store
process_valid lib down s new_id provider body p none = (error_json 400 "INVALID_BILLING_EVENT", s)
process_valid lib down s new_id provider body p (some (status, invoice_status)) =
    deliver down s new_id (delivered lib provider body p)
      (apply_payload down provider new_id p status invoice_status (lib.uuid p.tenant_id))

unfoldable pub process_payload :
    Library → Faults → Store → ℕ → (provider body : String) → Option Payload → Response × Store
process_payload lib down s new_id provider body none = (error_json 400 "INVALID_INPUT", s)
process_payload lib down s new_id provider body (some p) =
    process_valid lib down s new_id provider body (trimmed p) (validate_billing_webhook (trimmed p))

process_body :
    Library
    → (String → Option Payload)
    → (secret : String) → Faults
    → Store
    → ℕ
    → (provider signature : String) → Option String
    → Response × Store
process_body lib parse secret down s new_id provider signature none =
    (error_json 400 "INVALID_INPUT", s)
process_body lib parse secret down s new_id provider signature (some body) =
    if body == ""
    then (error_json 400 "INVALID_INPUT", s)
    else if not (valid_billing_signature lib body signature secret)
    then (error_json 401 "INVALID_SIGNATURE", s)
    else process_payload lib down s new_id provider body (parse body)

unfoldable pub billing_webhook :
    Library
    → (String → Option Payload)
    → (secret : String) → Faults
    → Store
    → ℕ
    → (path_provider signature : String) → Option String
    → Response × Store
unfolding process_body
billing_webhook lib parse secret down s new_id path_provider signature body =
    let provider = to_lower (trim_space path_provider) in
    if secret == ""
    then (error_json 503 "BILLING_NOT_CONFIGURED", s)
    else if not (is_provider provider)
    then (error_json 400 "INVALID_PROVIDER", s)
    else process_body lib parse secret down s new_id provider signature body
