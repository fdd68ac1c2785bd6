-- ===== src/Plans/Examples.antt =====
-- Runs of the quota checks, and their theorems at a concrete workspace.
use xpace.Prelude.{ℕ, ◌+◌, ◌≤◌, ◌≡◌, refl, true, false, none, some, [], ◌∷◌, arith, first, exists}
use xpace.Http.{no_faults}
use xpace.Billing.{Subscription, SubscriptionStatus}
use xpace.Billing.Period.{is_entitled}
use xpace.Plans.{
  PlanEntitlements, TenantSubscription, Entitlement, Store, allowed, denied, feature, set_feature,
  apply_limit_override, apply_entitlements, load_tenant_subscription, check_resource,
  enforce_loaded, enforce_meeting_quota, enforce_tenant_quota,
}
use xpace.Plans.Quotas.{Metered, Fits, quota_allowed}
use xpace.Plans.Meetings.{meeting_quota_agrees}

machine : Unit {0}
unfolding enforce_tenant_quota enforce_meeting_quota enforce_loaded check_resource
    load_tenant_subscription apply_entitlements apply_limit_override set_feature feature first
    is_entitled
machine = tt

abbrev starter : PlanEntitlements
starter = record {
  key = "STARTER";
  max_users = 5;
  max_meetings_per_month = 100;
  max_meeting_duration_minutes = 60;
  max_storage_bytes = 5368709120;
  max_recordings_per_month = 10;
  features = ("drive", true) ∷ ("sso", false) ∷ [];
}

abbrev workspace : Subscription
workspace = record {
  tenant_id = 7;
  plan_key = "STARTER";
  status = SubscriptionStatus.active;
  trial_ends_at = none;
  current_period_started_at = none;
  current_period_ends_at = none;
  cancel_at_period_end = false;
  billing_customer_id = none;
  billing_subscription_id = none;
}

abbrev loaded : TenantSubscription
loaded = record {
  plan = starter;
  subscription = workspace;
  usage = record {
    users = 5;
    meetings_this_month = 3;
    storage_bytes = 1000;
    recordings_this_month = 0;
  };
}

abbrev fewer_meetings : Entitlement
fewer_meetings = record {
  tenant_id = 7;
  entitlement_key = "meetings.monthly";
  enabled = none;
  limit_value = some 3;
}

abbrev start : Store
start = record {
  plans = starter ∷ [];
  subscriptions = workspace ∷ [];
  entitlements = fewer_meetings ∷ [];
  usage = λ _. loaded.usage;
}

no_more_users : enforce_tenant_quota no_faults 20 start 7 "users" 1 ≡ denied 402 "QUOTA_EXCEEDED"
unfolding machine
no_more_users = refl

no_more_meetings :
    enforce_tenant_quota no_faults 20 start 7 "meetings" 1 ≡ denied 402 "QUOTA_EXCEEDED"
unfolding machine
no_more_meetings = refl

upload : enforce_loaded 20 "drive" 500 (some loaded) ≡ allowed
unfolding machine
upload = refl

loaded-Fits : Fits loaded 500
loaded-Fits = record {
  users = omega arith;
  meetings = omega arith;
  recordings = omega arith;
  storage = omega arith;
  max_users = omega arith;
  max_meetings = omega arith;
  max_recordings = omega arith;
  max_storage = omega arith;
}

quota_allowed_example :
    (is_entitled 20 workspace ≡ true)
    × ((used : ℕ) × (limit : ℕ) × Metered loaded "drive" used limit × (used + 500 ≤ limit))
quota_allowed_example = quota_allowed 20 loaded "drive" 500 loaded-Fits upload

meeting_quota_agrees_example :
    enforce_meeting_quota no_faults 20 start 7 1
    ≡ enforce_loaded 20 "meetings" 1 (load_tenant_subscription start 7)
unfolding exists
meeting_quota_agrees_example = meeting_quota_agrees no_faults 20 start 7 1 refl ((λ _. refl), tt)
