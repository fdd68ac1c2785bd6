-- ===== src/Billing/Period.antt =====
-- services/api/internal/httpapi/plans.go and billing_xendit_webhook.go: how long a subscription that
-- the provider ended still entitles its workspace.
use xpace.Prelude.{ℕ, ◌≡◌, Bool, true, false, ◌&&◌, Option, none, some, arith, ltb}
use xpace.Billing.{SubscriptionStatus, Subscription}
use xpace.Billing.Xendit.{is_after, inactivated_status, set_inactivated}

abbrev or_unlimited : Option ℕ → ℕ → Bool
or_unlimited none now = true
or_unlimited (some t) now = ltb now t

-- The Boolean `active` of `enforceTenantQuota` and of `enforceMeetingQuota`.
unfoldable pub is_entitled : ℕ → Subscription → Bool
is_entitled now x = entitled x.status
  where
    entitled : SubscriptionStatus → Bool
    entitled SubscriptionStatus.active = or_unlimited x.current_period_ends_at now
    entitled SubscriptionStatus.trialing = is_after x.trial_ends_at now
    entitled _ = false

-- When the provider ends a subscription, a scheduled cancellation leaves the workspace entitled until
-- its paid period ends, and no longer; without one, the workspace is entitled at no time from then on.
pub inactivated_entitlement :
    (now later : ℕ) (x : Subscription)
    → is_entitled later (set_inactivated (inactivated_status now x) x) ≡ (
        x.cancel_at_period_end
        && is_after x.current_period_ends_at now
        && is_after x.current_period_ends_at later)
unfolding is_entitled inactivated_status
inactivated_entitlement now later x = ground arith
