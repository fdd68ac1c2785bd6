-- ===== src/Billing/Cancellation.antt =====
-- services/api/internal/httpapi/billing.go: `adminBillingCancellation`. Whether the provider stopped
-- its billing cycles is the argument `deactivated`.
use text.Mathlib.Text.{starts_with}
use xpace.Prelude.{
  ℕ, String, Bool, true, false, not, ◌&&◌, Option, none, some, first, exists, update_where, ◌==◌,
  if◌then◌else◌, nat_eq, text_eq, trim_space,
}
use xpace.Http.{
  Response, error_json, respond_json, Faults, CurrentUser, AuditEvent, write_audit_event,
}
use xpace.Rbac.{has_permission}
use xpace.Billing.{SubscriptionStatus, Subscription, Store, of_tenant}

-- status IN ('TRIALING','ACTIVE','PAST_DUE')
abbrev pub is_current : SubscriptionStatus → Bool
is_current SubscriptionStatus.trialing = true
is_current SubscriptionStatus.active = true
is_current SubscriptionStatus.past_due = true
is_current _ = false

abbrev text_or_empty : Option String → String
text_or_empty none = ""
text_or_empty (some t) = t

abbrev pub can_change : ℕ → Subscription → Bool
can_change tenant x = of_tenant tenant x && is_current x.status

abbrev cancellation_action : Bool → String
cancellation_action true = "billing.subscription.cancel_scheduled"
cancellation_action false = "billing.subscription.resume"

unfoldable pub schedule_cancellation : Faults → Store → CurrentUser → Bool → Response × Store
schedule_cancellation down s actor cancel =
    let entry : AuditEvent = record {
      tenant_id = actor.tenant_id;
      actor_id = some actor.id;
      action = cancellation_action cancel;
      resource_type = "tenant";
      resource_id = actor.tenant_id;
    } in
    if down "update"
    then (error_json 500 "INTERNAL_ERROR", s)
    else if not (exists (can_change actor.tenant_id) s.subscriptions)
    then (error_json 409 "SUBSCRIPTION_INACTIVE", s)
    else (
      respond_json 200,
      record s {
        subscriptions =
            update_where (can_change actor.tenant_id)
              (λ x. record x { cancel_at_period_end = cancel }) s.subscriptions;
        audit = write_audit_event down entry s.audit;
      },
    )

unfoldable pub cancel_with_provider :
    Faults
    → Store
    → CurrentUser
    → Bool
    → (xendit_secret_key : String) → (deactivated : String → Bool) → Option Subscription
    → Response × Store
cancel_with_provider down s actor cancel key deactivated none = (error_json 500 "INTERNAL_ERROR", s)
cancel_with_provider down s actor cancel key deactivated (some x) =
    let id = text_or_empty x.billing_subscription_id in
    if not (starts_with id "repl_")
    then schedule_cancellation down s actor cancel
    else if not cancel
    then (error_json 409 "NEW_CHECKOUT_REQUIRED", s)
    else if trim_space key == ""
    then (error_json 503 "BILLING_NOT_CONFIGURED", s)
    else if not (deactivated id)
    then (error_json 502 "CANCELLATION_PROVIDER_ERROR", s)
    else schedule_cancellation down s actor cancel

unfoldable pub admin_billing_cancellation :
    Faults
    → Store
    → CurrentUser
    → Bool
    → (xendit_secret_key : String) → (deactivated : String → Bool) → Response × Store
admin_billing_cancellation down s actor cancel key deactivated =
    if not (has_permission down s.rbac actor "tenant.manage")
    then (error_json 403 "ADMIN_REQUIRED", s)
    else if down "select"
    then (error_json 500 "INTERNAL_ERROR", s)
    else cancel_with_provider down s actor cancel key deactivated
        (first (of_tenant actor.tenant_id) s.subscriptions)
