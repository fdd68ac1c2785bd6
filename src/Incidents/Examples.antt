-- ===== src/Incidents/Examples.antt =====
-- Runs of the incident workflow, and its theorems at concrete requests.
use xpace.Prelude.{
  ℕ, ◌≡◌, refl, true, false, none, some, [], ◌∷◌, arith, first, exists, update_where, count_where,
  trim_space, to_lower, to_upper,
}
use xpace.Http.{no_faults, CurrentUser, tenant_admin, active, write_audit_event}
use xpace.Rbac.{has_permission, permissions, built_in}
use xpace.Incidents.{
  Severity, Status, Source, Incident, Store, valid_incident_severity, valid_incident_source,
  incident_transition, is_incident, find_incident, set_status, insert_incident,
  create_admin_incident, apply_transition, transition_known, transition_admin_incident, insert_note,
  add_incident_note,
}
use xpace.Incidents.Branches.{Action, Moves, Effect, transition_sound, transition_complete, name}
use xpace.Incidents.Errors.{transition, handle, incident_refused}
use xpace.Incidents.Alerts.{AlertStatus, Reading}
use xpace.Incidents.Escalation.{notices, queue_notices, escalate_incident, is_due, is_none}
use xpace.Incidents.Rows.{Operation, perform}
use xpace.Incidents.Consistency.{IsValid, valid, here, next, Reach-IsValid}
use xpace.Incidents.Sla.{escalate_once, acknowledged_never_due}

machine : Unit {0}
unfolding handle transition_admin_incident transition_known apply_transition set_status
    incident_transition create_admin_incident insert_incident add_incident_note insert_note
    has_permission permissions built_in first exists update_where valid_incident_severity
    valid_incident_source trim_space to_lower to_upper write_audit_event notices queue_notices
    escalate_incident perform count_where
machine = tt

abbrev admin : CurrentUser
admin = record { id = 1; tenant_id = 7; role = tenant_admin }

abbrev outage : Incident
outage = record {
  id = 5;
  tenant_id = 7;
  title = "Media server down";
  description = "";
  source = Source.manual;
  severity = Severity.p1;
  status = Status.open_;
  assignee_user_id = none;
  created_by = some 1;
  acknowledged_by = none;
  acknowledged_at = none;
  resolved_by = none;
  resolved_at = none;
  external_key = none;
  escalation_level = 0;
  last_escalated_at = none;
  created_at = 10;
  updated_at = 10;
}

abbrev start : Store
start = record {
  rbac = record {
    users =
        record { id = 1; tenant_id = 7; role = tenant_admin; status = active; deleted = false }
        ∷ [];
    custom_roles = [];
    custom_role_permissions = [];
    user_custom_roles = [];
    audit = [];
  };
  incidents = outage ∷ [];
  incident_events = [];
  notifications = [];
  email_outbox = [];
  audit = [];
}

close_open : (handle no_faults start 20 admin (transition "close" 5)).0.status ≡ 409
unfolding machine
close_open = refl

incident_refused_example : (handle no_faults start 20 admin (transition "close" 5)).1 ≡ start
incident_refused_example =
    incident_refused no_faults start 20 admin (transition "close" 5) (omega (arith, close_open))

resolve_open : (transition_admin_incident no_faults start 20 admin "Resolve" 5).0.status ≡ 204
unfolding machine
resolve_open = refl

there : find_incident start 7 5 ≡ some outage
unfolding machine
there = refl

may_manage : has_permission no_faults start.rbac admin "incident.manage" ≡ true
unfolding machine
may_manage = refl

lower_resolve : to_lower "Resolve" ≡ name Action.resolve
unfolding machine
lower_resolve = refl

transition_sound_example :
    (a : Action) × (i : Incident) × (j : Incident) × (to_lower "Resolve" ≡ name a)
    × (find_incident start 7 5 ≡ some i)
    × (find_incident (transition_admin_incident no_faults start 20 admin "Resolve" 5).1 7 5
        ≡ some j)
    × Moves a i.status j.status
    × Effect 20 1 i a j
transition_sound_example = transition_sound no_faults start 20 admin "Resolve" 5 resolve_open

transition_complete_example :
    ((transition_admin_incident no_faults start 20 admin "Resolve" 5).0.status ≡ 204)
    × ((j : Incident) × (find_incident
            (transition_admin_incident no_faults start 20 admin "Resolve" 5).1
            7
            5
          ≡ some j)
        × (j.status ≡ Status.resolved)
        × Effect 20 1 outage Action.resolve j)
transition_complete_example =
    transition_complete no_faults start 20 admin "Resolve" 5 Action.resolve outage Status.resolved
      (λ _. refl) may_manage lower_resolve there Moves.resolved_at_once

escalates : (escalate_incident no_faults start 20 7 5).0 ≡ some true
unfolding machine
escalates = refl

escalate_once_example :
    (escalate_incident no_faults (escalate_incident no_faults start 20 7 5).1 30 7 5).1
    ≡ (escalate_incident no_faults start 20 7 5).1
escalate_once_example = escalate_once no_faults no_faults start 20 30 7 5 escalates

abbrev seen : Incident
seen = record outage { status = Status.resolved; acknowledged_at = some 12; resolved_at = some 15 }

abbrev later : Store
later = record start { incidents = seen ∷ [] }

there_later : find_incident later 7 5 ≡ some seen
unfolding machine
there_later = refl

acknowledged_never_due_example :
    (j : Incident) × (find_incident
        (transition_admin_incident no_faults later 20 admin "reopen" 5).1
        7
        5
      ≡ some j)
    × (is_none j.acknowledged_at ≡ false)
    × (is_due 900 j ≡ false)
acknowledged_never_due_example =
    acknowledged_never_due no_faults later 20 900 admin "reopen" 5 seen there_later refl

abbrev empty : Store
empty = record start { incidents = [] }

abbrev firing : Reading
firing = record { title = "Disk full"; description = ""; severity = Severity.p2; fingerprint = "f" }

empty-IsValid : IsValid empty
unfolding machine
empty-IsValid =
    valid empty (record { unique = λ _ _. tt; rows = tt }) (record { counts = λ _ _. refl })

fresh : (tenant : ℕ) → exists (is_incident tenant 9) empty.incidents ≡ false
unfolding machine
fresh tenant = refl

Reach-IsValid_example : IsValid (
    perform no_faults 30
      (perform no_faults 20 empty (Operation.ingest 7 9 AlertStatus.firing firing))
      (Operation.escalation 7 9))
Reach-IsValid_example = Reach-IsValid empty-IsValid (
    next (next here no_faults 20 (Operation.ingest 7 9 AlertStatus.firing firing) fresh) no_faults
      30 (Operation.escalation 7 9) tt)
