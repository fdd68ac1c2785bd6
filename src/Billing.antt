-- ===== src/Billing.antt =====
-- services/api/internal/httpapi/billing.go and the tables of migrations/0033_billing_foundation.sql:
-- subscriptions, invoices, and the delivery of a payment provider's event. Tables are lists of rows;
-- generated identifiers are arguments; `updated_at` and the texts of notices are left out.
pub mod Webhook
pub mod Xendit
pub mod Cancellation
pub mod Delivery
pub mod Repeat
pub mod Effects
pub mod Period
mod Examples
use Prim.Native.Char.{Char, code}
use Prim.Native.String.{len}
use xpace.Prelude.{
  ℕ, ℤ, String, Bool, true, false, not, ◌&&◌, ◌||◌, Option, none, some, List, [], ◌∷◌, ◌++◌, first,
  exists, update_where, leb, ◌==◌, if◌then◌else◌, nat_eq, text_eq, is_negative,
}
use xpace.Http.{Response, error_json, respond_json, Faults, User, AuditEvent, is_active}
use xpace.Rbac
use xpace.Rbac.{is_workspace_admin}

pub data SubscriptionStatus : Type 0 where
  trialing active past_due canceled suspended : SubscriptionStatus

pub data InvoiceStatus : Type 0 where
  draft pending paid failed void refunded : InvoiceStatus

pub data CheckoutStatus : Type 0 where
  pending open_ completed expired canceled : CheckoutStatus

-- A row of `tenant_subscriptions`.
pub record Subscription : Type 0 where
  pub tenant_id : ℕ
  pub plan_key : String
  pub status : SubscriptionStatus
  pub trial_ends_at : Option ℕ
  pub current_period_started_at : Option ℕ
  pub current_period_ends_at : Option ℕ
  pub cancel_at_period_end : Bool
  pub billing_customer_id : Option String
  pub billing_subscription_id : Option String

-- A row of `billing_checkout_sessions`; `reference_id` is `'xpace_'||id::text`.
pub record CheckoutSession : Type 0 where
  pub reference_id : String
  pub tenant_id : ℕ
  pub plan_key : String
  pub provider : String
  pub provider_session_id : Option String
  pub status : CheckoutStatus
  pub created_at : ℕ

pub record Invoice : Type 0 where
  pub tenant_id : ℕ
  pub provider : String
  pub provider_invoice_id : String
  pub invoice_number : String
  pub status : InvoiceStatus
  pub currency : String
  pub subtotal_amount : ℤ
  pub tax_amount : ℤ
  pub total_amount : ℤ
  pub hosted_invoice_url : Option String
  pub period_started_at : Option ℕ
  pub period_ends_at : Option ℕ
  pub due_at : Option ℕ
  pub paid_at : Option ℕ

-- A row of `billing_webhook_events`, RECEIVED or PROCESSED.
pub record WebhookEvent : Type 0 where
  pub id : ℕ
  pub provider : String
  pub provider_event_id : String
  pub event_type : String
  pub payload_sha256 : String
  pub processed : Bool

pub record SubscriptionEvent : Type 0 where
  pub tenant_id : ℕ
  pub webhook_event_id : ℕ
  pub event_type : String
  pub from_status : SubscriptionStatus
  pub to_status : SubscriptionStatus
  pub plan_key : String

-- A BILLING_NOTICE of `email_outbox`; its dedupe key is the prefix and the recipient.
pub record BillingNotice : Type 0 where
  pub tenant_id : ℕ
  pub recipient_id : ℕ
  pub dedupe_prefix : String

pub record Store : Type 0 where
  pub rbac : Rbac.Store
  pub tenants : List ℕ
  pub plans : List String
  pub subscriptions : List Subscription
  pub checkout_sessions : List CheckoutSession
  pub invoices : List Invoice
  pub webhook_events : List WebhookEvent
  pub subscription_events : List SubscriptionEvent
  pub email_outbox : List BillingNotice
  pub audit : List AuditEvent

-- What the handlers take from libraries and from the database: SHA-256, its HMAC, hexadecimal
-- decoding, the cast of a text to a UUID, and the same day of the next month.
pub record Library : Type 0 where
  pub hmac_sha256 : (secret body : String) → String
  pub sha256_hex : String → String
  pub decode_hex : String → Option String
  pub uuid : String → Option ℕ
  pub add_month : ℕ → ℕ

abbrev pub of_tenant : ℕ → Subscription → Bool
of_tenant tenant x = x.tenant_id == tenant

abbrev pub has_text : String → Option String → Bool
has_text t none = false
has_text t (some u) = u == t

-- NULLIF(value,'')
abbrev pub nullif : String → Option String
nullif value = if value == "" then none else some value

-- COALESCE(value, default), of columns that may be NULL
abbrev pub coalesce {ℓ} : {A : Type ℓ} → Option A → Option A → Option A
coalesce none default = default
coalesce (some x) default = some x

-- The unique indices on the two identifiers that the provider gives.
unfoldable pub violates_unique : ℕ → Option String → Option String → List Subscription → Bool
violates_unique tenant customer subscription [] = false
violates_unique tenant customer subscription (x ∷ rest) =
    let later = violates_unique tenant customer subscription rest in
    (not (x.tenant_id == tenant)
      && (clash customer x.billing_customer_id || clash subscription x.billing_subscription_id))
    || later
  where
    clash : Option String → Option String → Bool
    clash none y = false
    clash (some t) y = has_text t y

all_upper : String → Bool
all_upper Prim.Native.String.[] = true
all_upper (Prim.Native.String.◌∷◌ c s) = (leb b'A' (code c) && leb (code c) b'Z') && all_upper s

-- CHECK (currency ~ '^[A-Z]{3}$')
unfoldable pub is_currency : String → Bool
unfolding all_upper
is_currency value = len value == 3 && all_upper value

-- ON CONFLICT(provider,provider_invoice_id)
abbrev pub is_invoice : String → String → Invoice → Bool
is_invoice provider id x = x.provider == provider && x.provider_invoice_id == id

unfoldable pub insert_or_update : Invoice → (Invoice → Invoice) → List Invoice → List Invoice
insert_or_update new update invoices =
    if exists (is_invoice new.provider new.provider_invoice_id) invoices
    then update_where (is_invoice new.provider new.provider_invoice_id) update invoices
    else invoices ++ new ∷ []

abbrev pub violates_invoice_checks : Invoice → Bool
violates_invoice_checks x =
    not (is_currency x.currency)
    || is_negative x.subtotal_amount
    || is_negative x.tax_amount
    || is_negative x.total_amount

-- `queueWorkspaceAdminNotice`, with ON CONFLICT(dedupe_key) DO NOTHING.
abbrev pub same_notice : BillingNotice → BillingNotice → Bool
same_notice n m = m.dedupe_prefix == n.dedupe_prefix && m.recipient_id == n.recipient_id

unfoldable pub queue_workspace_admin_notice :
    ℕ → String → List User → List BillingNotice → List BillingNotice
queue_workspace_admin_notice tenant prefix [] outbox = outbox
queue_workspace_admin_notice tenant prefix (u ∷ rest) outbox =
    let n : BillingNotice = record {
      tenant_id = tenant;
      recipient_id = u.id;
      dedupe_prefix = prefix;
    } in
    queue_workspace_admin_notice tenant prefix rest (
      if u.tenant_id == tenant
        && is_active u.status
        && not u.deleted
        && is_workspace_admin u.role
        && not (exists (same_notice n) outbox)
      then outbox ++ n ∷ []
      else outbox)

-- What a transaction has come to: an error answer, or the tables so far.
pub data Applied : Type 0 where
  rejected : Response → Applied
  applied : Store → Applied

-- A statement that may fail, and the rest of the transaction.
abbrev pub or_reject : Option Store → Response → (Store → Applied) → Applied
or_reject none r rest = rejected r
or_reject (some s) r rest = rest s

abbrev pub is_event : String → String → WebhookEvent → Bool
is_event provider key e = e.provider == provider && e.provider_event_id == key

-- A delivered event, as the handlers take it from the request.
pub record Delivered : Type 0 where
  pub provider : String
  pub key : String
  pub event_type : String
  pub hash : String

abbrev pub webhook_event : ℕ → Delivered → WebhookEvent
webhook_event new_id d = record {
  id = new_id;
  provider = d.provider;
  provider_event_id = d.key;
  event_type = d.event_type;
  payload_sha256 = d.hash;
  processed = false;
}

abbrev pub process : WebhookEvent → WebhookEvent
process e = record e { processed = true }

-- The end of the transaction: a rejection rolls everything back.
unfoldable pub finalize : Faults → Store → ℕ → Applied → Response × Store
finalize down s new_id (rejected r) = (r, s)
finalize down s new_id (applied t) =
    if down "finalize" || down "commit" then (error_json 500 "INTERNAL_ERROR", s) else (
      respond_json 200,
      record t { webhook_events = update_where (λ e. e.id == new_id) process t.webhook_events },
    )

unfoldable pub deliver_once :
    Faults → Store → ℕ → Delivered → (Store → Applied) → Option WebhookEvent → Response × Store
deliver_once down s new_id d apply (some e) =
    if down "select duplicate"
    then (error_json 500 "INTERNAL_ERROR", s)
    else if not (e.payload_sha256 == d.hash)
    then (error_json 409 "EVENT_ID_REUSED", s)
    else (respond_json 200, s)
deliver_once down s new_id d apply none =
    finalize down s new_id
      (apply (record s { webhook_events = s.webhook_events ++ webhook_event new_id d ∷ [] }))

-- The transaction that `billingWebhook` and `xenditWebhook` have in common: the event is registered
-- once by its provider and key, and its effects are what `apply` makes of the tables.
unfoldable pub deliver : Faults → Store → ℕ → Delivered → (Store → Applied) → Response × Store
deliver down s new_id d apply =
    if down "begin" || down "register"
    then (error_json 500 "INTERNAL_ERROR", s)
    else deliver_once down s new_id d apply (first (is_event d.provider d.key) s.webhook_events)
