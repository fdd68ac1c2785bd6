-- ===== src/Plans/Meetings.antt =====
-- services/api/internal/httpapi/plans.go: the one query of `enforceMeetingQuota` against the general
-- routine, which loads the whole subscription.
use xpace.Prelude.{
  ℕ, ◌≡◌, ◌∙◌, ap, refl, false, some, List, [], ◌∷◌, inl, inr, arith, ◌==◌, nat_eq, text_eq,
  if◌then◌else◌, first, AtMostOne, Bool-cases, Option-cases, eq_iff, first-none,
}
use xpace.Http.{Faults}
use xpace.Plans.{
  Store, Entitlement, PlanEntitlements, apply_limit_override, enable, limit_to, apply_entitlements,
  of_tenant, is_plan, load_tenant_subscription, check_resource, enforce_loaded,
  is_meetings_override, limit_or, enforce_meeting_quota,
}

step : ℕ → Entitlement → PlanEntitlements → PlanEntitlements
step tenant e plan =
    if e.tenant_id == tenant
    then limit_to e.entitlement_key e.limit_value (enable e.entitlement_key e.enabled plan)
    else plan

step-max :
    (tenant : ℕ) (e : Entitlement) (plan : PlanEntitlements)
    → (step tenant e plan).max_meetings_per_month ≡ (
        if is_meetings_override tenant e
        then limit_or (some e) plan.max_meetings_per_month
        else plan.max_meetings_per_month)
unfolding step apply_limit_override
step-max tenant e plan = elim (Bool-cases (e.entitlement_key == "meetings.monthly")) [
  | inl k ↦ rw ((eq_iff e.entitlement_key "meetings.monthly").0 k) (ground arith)
  | inr k ↦ ground (arith, k)
]

apply-max :
    (tenant : ℕ) (es : List Entitlement) (plan : PlanEntitlements)
    → AtMostOne (is_meetings_override tenant) es
    → (apply_entitlements tenant es plan).max_meetings_per_month
      ≡ limit_or (first (is_meetings_override tenant) es) plan.max_meetings_per_month
unfolding apply_entitlements first step
apply-max tenant [] plan h = refl
apply-max tenant (e ∷ es) plan h = elim (Bool-cases (is_meetings_override tenant e)) [
  | inl c ↦
      let max = rw c at (step-max tenant e plan) in
      apply-max tenant es (step tenant e plan) h.1
      ∙ rw (first-none (is_meetings_override tenant) es (h.0 c), c) max
  | inr c ↦
      let max = rw c at (step-max tenant e plan) in
      apply-max tenant es (step tenant e plan) h.1
      ∙ rw c (ap (limit_or (first (is_meetings_override tenant) es)) max)
]

-- With at most one override of the limit, as the table's primary key has it, the query of the meeting
-- quota answers as the general routine would for the resource "meetings": the same refusals, and the
-- same limit after all overrides are applied.
pub meeting_quota_agrees :
    (down : Faults) (now : ℕ) (s : Store) (tenant increment : ℕ)
    → down "select" ≡ false
    → AtMostOne (is_meetings_override tenant) s.entitlements
    → enforce_meeting_quota down now s tenant increment
      ≡ enforce_loaded now "meetings" increment (load_tenant_subscription s tenant)
unfolding enforce_meeting_quota enforce_loaded load_tenant_subscription check_resource
meeting_quota_agrees down now s tenant increment up one =
    elim (Option-cases (first (of_tenant tenant) s.subscriptions)) [
      | inl e ↦ rw (up, e) refl
      | inr (x, e) ↦ elim (Option-cases (first (is_plan x.plan_key) s.plans)) [
        | inl f ↦ rw (up, e, f) refl
        | inr (p, f) ↦ rw (up, e, f, apply-max tenant s.entitlements p one) refl
      ]
    ]
