-- ===== src/Plans.antt =====
-- services/api/internal/httpapi/plans.go: the entitlements of a workspace's plan, and its quotas. An
-- `int64` is the word of its 64 bits. The counts that the sub-selects make of other tables are
-- `usage`; a plan's features are the pairs of its JSON object.
pub mod Quotas
pub mod Meetings
mod Examples
use xpace.Prelude.{
  ℕ, ◌+◌, ◌%◌, String, Bool, true, false, not, ◌&&◌, ◌||◌, Option, none, some, List, [], ◌∷◌, first,
  ltb, ◌==◌, if◌then◌else◌, nat_eq, text_eq,
}
use xpace.Http.{Faults}
use xpace.Billing.{Subscription}
use xpace.Billing.Period.{is_entitled}

abbrev pub two63 : ℕ
two63 = 9223372036854775808

abbrev pub two64 : ℕ
two64 = 18446744073709551616

-- The sum of two words, and `a > b` of words read as signed numbers.
abbrev pub add64 : ℕ → ℕ → ℕ
add64 a b = (a + b) % two64

abbrev pub gt64 : ℕ → ℕ → Bool
gt64 a b = ltb ((b + two63) % two64) ((a + two63) % two64)

abbrev pub Features : Type 0
Features = List (String × Bool)

-- Reading a key that the map lacks gives false.
unfoldable pub feature : String → Features → Bool
feature key [] = false
feature key ((k, v) ∷ rest) = if k == key then v else feature key rest

unfoldable pub set_feature : String → Bool → Features → Features
set_feature key v [] = (key, v) ∷ []
set_feature key v ((k, w) ∷ rest) =
    if k == key then (k, v) ∷ rest else (k, w) ∷ set_feature key v rest

pub record PlanEntitlements : Type 0 where
  pub key : String
  pub max_users : ℕ
  pub max_meetings_per_month : ℕ
  pub max_meeting_duration_minutes : ℕ
  pub max_storage_bytes : ℕ
  pub max_recordings_per_month : ℕ
  pub features : Features

pub record SubscriptionUsage : Type 0 where
  pub users : ℕ
  pub meetings_this_month : ℕ
  pub storage_bytes : ℕ
  pub recordings_this_month : ℕ

pub record TenantSubscription : Type 0 where
  pub plan : PlanEntitlements
  pub subscription : Subscription
  pub usage : SubscriptionUsage

-- A row of `tenant_entitlements`.
pub record Entitlement : Type 0 where
  pub tenant_id : ℕ
  pub entitlement_key : String
  pub enabled : Option Bool
  pub limit_value : Option ℕ

pub record Store : Type 0 where
  pub plans : List PlanEntitlements
  pub subscriptions : List Subscription
  pub entitlements : List Entitlement
  pub usage : ℕ → SubscriptionUsage

unfoldable pub apply_limit_override : String → ℕ → PlanEntitlements → PlanEntitlements
apply_limit_override key value plan =
    if key == "users.max"
    then record plan { max_users = value }
    else if key == "meetings.monthly"
    then record plan { max_meetings_per_month = value }
    else if key == "meeting.durationMinutes"
    then record plan { max_meeting_duration_minutes = value }
    else if key == "storage.bytes"
    then record plan { max_storage_bytes = value }
    else if key == "recordings.monthly"
    then record plan { max_recordings_per_month = value }
    else plan

abbrev pub enable : String → Option Bool → PlanEntitlements → PlanEntitlements
enable key none plan = plan
enable key (some v) plan = record plan { features = set_feature key v plan.features }

abbrev pub limit_to : String → Option ℕ → PlanEntitlements → PlanEntitlements
limit_to key none plan = plan
limit_to key (some v) plan = apply_limit_override key v plan

-- The loop over the rows of the workspace.
unfoldable pub apply_entitlements : ℕ → List Entitlement → PlanEntitlements → PlanEntitlements
apply_entitlements tenant [] plan = plan
apply_entitlements tenant (e ∷ rest) plan = apply_entitlements tenant rest (
    if e.tenant_id == tenant
    then limit_to e.entitlement_key e.limit_value (enable e.entitlement_key e.enabled plan)
    else plan)

abbrev pub of_tenant : ℕ → Subscription → Bool
of_tenant tenant x = x.tenant_id == tenant

abbrev pub is_plan : String → PlanEntitlements → Bool
is_plan key p = p.key == key

abbrev joined : Store → ℕ → Subscription → Option PlanEntitlements → Option TenantSubscription
joined s tenant x none = none
joined s tenant x (some p) = some (record {
  plan = apply_entitlements tenant s.entitlements p;
  subscription = x;
  usage = s.usage tenant;
})

abbrev subscribed : Store → ℕ → Option Subscription → Option TenantSubscription
subscribed s tenant none = none
subscribed s tenant (some x) = joined s tenant x (first (is_plan x.plan_key) s.plans)

unfoldable pub load_tenant_subscription : Store → ℕ → Option TenantSubscription
load_tenant_subscription s tenant = subscribed s tenant (first (of_tenant tenant) s.subscriptions)

-- What a quota check returns: nil, an `entitlementError`, or another error.
pub data Quota : Type 0 where
  allowed : Quota
  denied : (status : ℕ) → (code : String) → Quota
  failed : Quota

abbrev pub within : ℕ → ℕ → ℕ → Quota
within used increment limit =
    if gt64 (add64 used increment) limit then denied 402 "QUOTA_EXCEEDED" else allowed

abbrev pub included : String → PlanEntitlements → Quota → Quota
included key plan rest =
    if not (feature key plan.features) then denied 403 "FEATURE_NOT_INCLUDED" else rest

-- The switch of `enforceTenantQuota`.
unfoldable pub check_resource : TenantSubscription → String → ℕ → Quota
check_resource t resource increment =
    if resource == "users"
    then within t.usage.users increment t.plan.max_users
    else if resource == "meetings"
    then within t.usage.meetings_this_month increment t.plan.max_meetings_per_month
    else if resource == "recordings"
    then included "recording" t.plan
        (within t.usage.recordings_this_month increment t.plan.max_recordings_per_month)
    else if resource == "storage"
    then within t.usage.storage_bytes increment t.plan.max_storage_bytes
    else if resource == "drive"
    then included "drive" t.plan (within t.usage.storage_bytes increment t.plan.max_storage_bytes)
    else if resource == "chatAttachments"
    then included "chatAttachments" t.plan
        (within t.usage.storage_bytes increment t.plan.max_storage_bytes)
    else failed

unfoldable pub enforce_loaded : ℕ → String → ℕ → Option TenantSubscription → Quota
enforce_loaded now resource increment none = failed
enforce_loaded now resource increment (some t) =
    if not (is_entitled now t.subscription)
    then denied 402 "SUBSCRIPTION_INACTIVE"
    else check_resource t resource increment

-- LEFT JOIN tenant_entitlements … AND entitlement_key='meetings.monthly'
abbrev pub is_meetings_override : ℕ → Entitlement → Bool
is_meetings_override tenant e = e.tenant_id == tenant && e.entitlement_key == "meetings.monthly"

-- COALESCE(entitlement.limit_value, plan.max_meetings_per_month)
abbrev pub limit_or : Option Entitlement → ℕ → ℕ
limit_or none limit = limit
limit_or (some e) limit = value e.limit_value
  where
    value : Option ℕ → ℕ
    value none = limit
    value (some v) = v

abbrev meeting_joined : ℕ → Store → ℕ → ℕ → Subscription → Option PlanEntitlements → Quota
meeting_joined now s tenant increment x none = failed
meeting_joined now s tenant increment x (some p) =
    if not (is_entitled now x)
    then denied 402 "SUBSCRIPTION_INACTIVE"
    else within (s.usage tenant).meetings_this_month increment
        (limit_or (first (is_meetings_override tenant) s.entitlements) p.max_meetings_per_month)

abbrev meeting_subscribed : ℕ → Store → ℕ → ℕ → Option Subscription → Quota
meeting_subscribed now s tenant increment none = failed
meeting_subscribed now s tenant increment (some x) =
    meeting_joined now s tenant increment x (first (is_plan x.plan_key) s.plans)

unfoldable pub enforce_meeting_quota : Faults → ℕ → Store → ℕ → ℕ → Quota
enforce_meeting_quota down now s tenant increment =
    if down "select"
    then failed
    else meeting_subscribed now s tenant increment (first (of_tenant tenant) s.subscriptions)

unfoldable pub enforce_tenant_quota : Faults → ℕ → Store → ℕ → String → ℕ → Quota
enforce_tenant_quota down now s tenant resource increment =
    if resource == "meetings"
    then enforce_meeting_quota down now s tenant increment
    else if down "select" || down "entitlements" || down "usage"
    then failed
    else enforce_loaded now resource increment (load_tenant_subscription s tenant)
