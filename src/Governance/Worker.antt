-- ===== src/Governance/Worker.antt =====
-- services/api/internal/httpapi/governance_worker.go: `runScheduledGovernanceRetention`, retention of all
-- workspaces in turn. The advisory lock is the argument `locked`; the ticker and the configuration
-- are left out.
use xpace.Prelude.{ℕ, Bool, not, ◌||◌, none, List, [], ◌∷◌, ◌++◌, if◌then◌else◌}
use xpace.Http.{Faults}
use xpace.Governance.{Store}
use xpace.Governance.Retention.{apply_governance_retention}

abbrev pub log_scheduled : Faults → (now tenant : ℕ) → Store → Store
log_scheduled down now tenant s = if down "audit" then s else record s {
  audit =
      s.audit
      ++ record {
        event = record {
          tenant_id = tenant;
          actor_id = none;
          action = "governance.retention.scheduled";
          resource_type = "tenant";
          resource_id = tenant;
        };
        created_at = now;
      }
        ∷ [];
}

-- An error in one workspace does not stop the others.
unfoldable pub retain_all :
    (down : ℕ → Faults)
    → (fails : ℕ → Faults) → (meanwhile : ℕ → Store → Store) → Store
    → (now : ℕ) → (tenants : List ℕ) → Store
retain_all down fails meanwhile s now [] = s
retain_all down fails meanwhile s now (tenant ∷ rest) =
    let done = apply_governance_retention (down tenant) fails meanwhile s now tenant in
    retain_all down fails meanwhile
      (if done.0 then log_scheduled (down tenant) now tenant done.1 else done.1) now rest

unfoldable pub run_scheduled_governance_retention :
    Faults
    → (locked : Bool) → (down : ℕ → Faults) → (fails : ℕ → Faults) → (meanwhile : ℕ → Store → Store)
    → Store
    → (now : ℕ) → (tenants : List ℕ) → Store
run_scheduled_governance_retention own locked down fails meanwhile s now tenants =
    if own "connection" || own "lock" || not locked || own "select tenants"
    then s
    else retain_all down fails meanwhile s now tenants
