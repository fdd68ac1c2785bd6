-- ===== src/Plans/Quotas.antt =====
-- services/api/internal/httpapi/plans.go: what an allowed increment stands for.
use xpace.Prelude.{
  ℕ, ◌+◌, ◌≤◌, ◌<◌, ◌≡◌, String, true, some, arith, ◌==◌, text_eq, Bool-cases, inl, inr, eq_iff,
}
use xpace.Billing.Period.{is_entitled}
use xpace.Plans.{
  TenantSubscription, allowed, two63, within, included, feature, check_resource, enforce_loaded,
}

within_limit :
    (used increment limit : ℕ)
    → used + increment < two63
    → limit < two63
    → within used increment limit ≡ allowed
    → used + increment ≤ limit
within_limit used increment limit h k e = ground arith

included_limit :
    (key : String) (t : TenantSubscription) (used increment limit : ℕ)
    → used + increment < two63
    → limit < two63
    → included key t.plan (within used increment limit) ≡ allowed
    → (feature key t.plan.features ≡ true) × (used + increment ≤ limit)
included_limit key t used increment limit h k e =
    ground (arith, within_limit used increment limit h k)

-- What each resource counts, against which limit, and the feature that the plan must include.
pub data Metered (t : TenantSubscription) : (resource : String) → (used limit : ℕ) → Type 0 where
  users : Metered t "users" t.usage.users t.plan.max_users
  meetings : Metered t "meetings" t.usage.meetings_this_month t.plan.max_meetings_per_month
  recordings :
      feature "recording" t.plan.features ≡ true
      → Metered t "recordings" t.usage.recordings_this_month t.plan.max_recordings_per_month
  storage : Metered t "storage" t.usage.storage_bytes t.plan.max_storage_bytes
  drive :
      feature "drive" t.plan.features ≡ true
      → Metered t "drive" t.usage.storage_bytes t.plan.max_storage_bytes
  attachments :
      feature "chatAttachments" t.plan.features ≡ true
      → Metered t "chatAttachments" t.usage.storage_bytes t.plan.max_storage_bytes

-- No count leaves the positive 64-bit numbers by the increment, and no limit is negative.
pub record Fits (t : TenantSubscription) (increment : ℕ) : Type 0 where
  pub users : t.usage.users + increment < two63
  pub meetings : t.usage.meetings_this_month + increment < two63
  pub recordings : t.usage.recordings_this_month + increment < two63
  pub storage : t.usage.storage_bytes + increment < two63
  pub max_users : t.plan.max_users < two63
  pub max_meetings : t.plan.max_meetings_per_month < two63
  pub max_recordings : t.plan.max_recordings_per_month < two63
  pub max_storage : t.plan.max_storage_bytes < two63

check_allowed :
    (t : TenantSubscription) (resource : String) (increment : ℕ)
    → Fits t increment
    → check_resource t resource increment ≡ allowed
    → (used : ℕ) × (limit : ℕ) × Metered t resource used limit × (used + increment ≤ limit)
unfolding check_resource
check_allowed t resource increment f e = elim (Bool-cases (resource == "users")) [
  | inl b ↦
      rw ((eq_iff resource "users").0 b)
        (_, _, users, within_limit _ _ _ f.users f.max_users (rw b at e))
  | inr b1 ↦ elim (Bool-cases (resource == "meetings")) [
    | inl b ↦
        rw ((eq_iff resource "meetings").0 b)
          (_, _, meetings, within_limit _ _ _ f.meetings f.max_meetings (rw (b1, b) at e))
    | inr b2 ↦ elim (Bool-cases (resource == "recordings")) [
      | inl b ↦
          let (has, le) =
            included_limit "recording" t _ _ _ f.recordings f.max_recordings
              (rw (b1, b2, b) at e) in
          rw ((eq_iff resource "recordings").0 b) (_, _, recordings has, le)
      | inr b3 ↦ elim (Bool-cases (resource == "storage")) [
        | inl b ↦
            rw ((eq_iff resource "storage").0 b)
              (_, _, storage, within_limit _ _ _ f.storage f.max_storage (rw (b1, b2, b3, b) at e))
        | inr b4 ↦ elim (Bool-cases (resource == "drive")) [
          | inl b ↦
              let (has, le) =
                included_limit "drive" t _ _ _ f.storage f.max_storage
                  (rw (b1, b2, b3, b4, b) at e) in
              rw ((eq_iff resource "drive").0 b) (_, _, drive has, le)
          | inr b5 ↦ elim (Bool-cases (resource == "chatAttachments")) [
            | inl b ↦
                let (has, le) =
                  included_limit "chatAttachments" t _ _ _ f.storage f.max_storage
                    (rw (b1, b2, b3, b4, b5, b) at e) in
                rw ((eq_iff resource "chatAttachments").0 b) (_, _, attachments has, le)
            | inr b ↦ absurd (ground (arith, b1, b2, b3, b4, b5, b, e))
          ]
        ]
      ]
    ]
  ]
]

-- Where the numbers fit, a quota check that allows an increment of a resource shows that the
-- subscription is running, that the plan includes the resource's feature, and that the count stays
-- within its limit.
pub quota_allowed :
    (now : ℕ) (t : TenantSubscription) (resource : String) (increment : ℕ)
    → Fits t increment
    → enforce_loaded now resource increment (some t) ≡ allowed
    → (is_entitled now t.subscription ≡ true)
      × ((used : ℕ) × (limit : ℕ) × Metered t resource used limit × (used + increment ≤ limit))
unfolding enforce_loaded
quota_allowed now t resource increment f e = elim (Bool-cases (is_entitled now t.subscription)) [
  | inl b ↦ (b, check_allowed t resource increment f (rw b at e))
  | inr b ↦ absurd (ground (arith, b, e))
]
