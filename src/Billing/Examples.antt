-- ===== src/Billing/Examples.antt =====
-- Runs of the billing webhooks, and their theorems at concrete events.
use xpace.Prelude.{
  ℕ, ◌≡◌, refl, String, true, false, ◌&&◌, ◌==◌, text_eq, if◌then◌else◌, Option, none, some, [],
  ◌∷◌, pos, arith, first, exists, update_where, trim_space, to_upper, to_lower,
}
use xpace.Http.{no_faults, tenant_admin, active}
use xpace.Incidents.Alerts.{trim_prefix}
use xpace.Billing.{
  SubscriptionStatus, InvoiceStatus, Subscription, Store, Library, violates_unique, is_currency,
  insert_or_update, queue_workspace_admin_notice, is_event, finalize, deliver_once, deliver,
}
use xpace.Billing.Webhook.{
  Payload, InvoicePayload, is_provider, valid_billing_signature, event_statuses,
  validate_billing_webhook, set_subscription, trimmed, apply_billing_subscription_event,
  upsert_billing_invoice, subscription_step, invoice_step, notice_step, apply_payload,
  process_valid, process_payload, billing_webhook,
}
use xpace.Billing.Xendit.{inactivated_status, set_inactivated, is_after}
use xpace.Billing.Delivery.{Hook, generic, receive, receive_refused}
use xpace.Billing.Repeat.{receive_twice}
use xpace.Billing.Effects.{event_applied, ShowsSubscription}
use xpace.Billing.Period.{is_entitled, inactivated_entitlement}

machine : Unit {0}
unfolding receive billing_webhook process_payload process_valid apply_payload subscription_step
    invoice_step notice_step upsert_billing_invoice apply_billing_subscription_event
    set_subscription validate_billing_webhook event_statuses valid_billing_signature is_provider
    deliver deliver_once finalize queue_workspace_admin_notice insert_or_update is_currency
    violates_unique trim_prefix first exists update_where trim_space to_upper to_lower
machine = tt

-- Stand-ins for the hash functions, of which only the results are compared.
abbrev lib : Library
lib = record {
  hmac_sha256 = λ secret body. body;
  sha256_hex = λ body. body;
  decode_hex = λ t. some t;
  uuid = λ t. if t == "seven" then some 7 else none;
  add_month = λ t. t;
}

abbrev workspace : Subscription
workspace = record {
  tenant_id = 7;
  plan_key = "STARTER";
  status = SubscriptionStatus.past_due;
  trial_ends_at = none;
  current_period_started_at = none;
  current_period_ends_at = some 50;
  cancel_at_period_end = true;
  billing_customer_id = none;
  billing_subscription_id = some "repl_1";
}

abbrev start : Store
start = record {
  rbac = record {
    users =
        record { id = 1; tenant_id = 7; role = tenant_admin; status = active; deleted = false }
        ∷ [];
    custom_roles = [];
    custom_role_permissions = [];
    user_custom_roles = [];
    audit = [];
  };
  tenants = 7 ∷ [];
  plans = "STARTER" ∷ "BUSINESS" ∷ [];
  subscriptions = workspace ∷ [];
  checkout_sessions = [];
  invoices = [];
  webhook_events = [];
  subscription_events = [];
  email_outbox = [];
  audit = [];
}

abbrev invoice : InvoicePayload
invoice = record {
  id = "inv-1";
  number = "1";
  currency = "idr";
  subtotal_amount = pos 499000;
  tax_amount = pos 0;
  total_amount = pos 499000;
  hosted_url = "";
  period_started_at = none;
  period_ends_at = none;
  due_at = none;
  paid_at = none;
}

abbrev paid : Payload
paid = record {
  id = "evt-1";
  event_type = "invoice.paid";
  tenant_id = "seven";
  plan_key = "business";
  customer_id = "";
  subscription_id = "";
  period_started_at = none;
  period_ends_at = some 90;
  invoice = some invoice;
}

abbrev parse : String → Option Payload
parse body = if body == "paid" then some paid else none

abbrev request : String → Hook
request signature = generic parse "secret" "Acme" signature (some "paid")

accepted : (receive lib no_faults start 20 100 (request "sha256=paid")).0.status ≡ 200
unfolding machine
accepted = refl

invoice_stored :
    exists
      (λ x. x.provider_invoice_id == "inv-1")
      (receive lib no_faults start 20 100 (request "sha256=paid")).1.invoices
    ≡ true
unfolding machine
invoice_stored = refl

forged : (receive lib no_faults start 20 100 (request "forged")).0.status ≡ 401
unfolding machine
forged = refl

receive_refused_example : (receive lib no_faults start 20 100 (request "forged")).1 ≡ start
receive_refused_example =
    receive_refused lib no_faults start 20 100 (request "forged") (omega (arith, forged))

receive_twice_example :
    (receive lib no_faults
      (receive lib no_faults start 20 100 (request "sha256=paid")).1
      30
      101
      (request "sha256=paid")).1
    ≡ (receive lib no_faults start 20 100 (request "sha256=paid")).1
receive_twice_example =
    receive_twice lib no_faults no_faults start 20 30 100 101 (request "sha256=paid") accepted

valid :
    validate_billing_webhook (trimmed paid)
    ≡ some (some SubscriptionStatus.active, some InvoiceStatus.paid)
unfolding machine
valid = refl

new_event :
    first (is_event (to_lower (trim_space "Acme")) (trim_space "evt-1")) start.webhook_events ≡ none
unfolding machine
new_event = refl

accepted_webhook :
    (billing_webhook lib parse "secret" no_faults start 100 "Acme" "sha256=paid"
      (some "paid")).0.status
    ≡ 200
unfolding machine
accepted_webhook = refl

event_applied_example :
    (tenant : ℕ) × (lib.uuid (trimmed paid).tenant_id ≡ some tenant)
    × ShowsSubscription
        (billing_webhook lib parse "secret" no_faults start 100 "Acme" "sha256=paid"
          (some "paid")).1
        tenant
        (trimmed paid).plan_key
        (some SubscriptionStatus.active)
event_applied_example =
    event_applied lib parse "secret" no_faults start 100 "Acme" "sha256=paid" "paid" paid
      (some SubscriptionStatus.active) (some InvoiceStatus.paid) refl valid new_event
      accepted_webhook

inactivated_entitlement_example :
    is_entitled 40 (set_inactivated (inactivated_status 30 workspace) workspace)
    ≡ (true && is_after (some 50) 30 && is_after (some 50) 40)
inactivated_entitlement_example = inactivated_entitlement 30 40 workspace
