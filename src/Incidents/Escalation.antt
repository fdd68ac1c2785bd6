-- ===== src/Incidents/Escalation.antt =====
-- services/api/internal/httpapi/incident_escalation_worker.go, and `queueWorkspaceAdminNotice` of
-- transactional_email.go: one round of the worker that escalates incidents nobody acknowledged.
-- Times are in minutes. The advisory lock is the argument `locked`.
use xpace.Prelude.{
  ℕ, zero, suc, ◌+◌, Bool, true, false, not, ◌&&◌, ◌||◌, Option, none, some, List, [], ◌∷◌, ◌++◌,
  exists, keep, update_where, leb, ◌==◌, if◌then◌else◌, nat_eq,
}
use xpace.Http.{Faults, User, AuditEvent, is_active}
use xpace.Rbac.{is_workspace_admin}
use xpace.Incidents.{
  Severity, p1, p2, p3, p4, Status, EventType, Incident, Event, Notice, Store, is_incident,
}

-- The acknowledgement time that each severity is given.
unfoldable pub sla : Severity → ℕ
sla p1 = 5
sla p2 = 15
sla p3 = 60
sla p4 = 240

abbrev pub is_open : Status → Bool
is_open Status.open_ = true
is_open _ = false

abbrev pub is_none : Option ℕ → Bool
is_none none = true
is_none (some _) = false

-- escalation_level=0 AND status='OPEN' AND acknowledged_at IS NULL
abbrev pub waits : Incident → Bool
waits i = i.escalation_level == 0 && is_open i.status && is_none i.acknowledged_at

-- The worker's WHERE clause.
abbrev pub is_due : ℕ → Incident → Bool
is_due now i = waits i && leb (i.created_at + sla i.severity) now

-- ORDER BY created_at ASC LIMIT n
unfoldable pub insert_by_age : Incident → List Incident → List Incident
insert_by_age i [] = i ∷ []
insert_by_age i (j ∷ rest) =
    if leb i.created_at j.created_at then i ∷ j ∷ rest else j ∷ insert_by_age i rest

unfoldable pub by_age : List Incident → List Incident
by_age [] = []
by_age (i ∷ rest) = insert_by_age i (by_age rest)

unfoldable pub take {ℓ} : {A : Type ℓ} → ℕ → List A → List A
take zero xs = []
take (suc n) [] = []
take (suc n) (x ∷ xs) = x ∷ take n xs

unfoldable pub due_incidents : ℕ → Store → List Incident
due_incidents now s = take 100 (by_age (keep (is_due now) s.incidents))

abbrev pub is_admin_of : ℕ → User → Bool
is_admin_of tenant u =
    u.tenant_id == tenant && is_active u.status && not u.deleted && is_workspace_admin u.role

-- One notice for each administrator of the workspace.
unfoldable pub notices : ℕ → ℕ → List User → List Notice
notices tenant incident [] = []
notices tenant incident (u ∷ rest) =
    let later = notices tenant incident rest in
    if is_admin_of tenant u
    then record { tenant_id = tenant; recipient_id = u.id; incident_id = incident } ∷ later
    else later

-- ON CONFLICT(dedupe_key) DO NOTHING: the key is the incident and the recipient.
abbrev pub same_notice : Notice → Notice → Bool
same_notice n m = m.incident_id == n.incident_id && m.recipient_id == n.recipient_id

unfoldable pub queue_notices : List Notice → List Notice → List Notice
queue_notices [] outbox = outbox
queue_notices (n ∷ rest) outbox =
    queue_notices rest (if exists (same_notice n) outbox then outbox else outbox ++ n ∷ [])

abbrev pub escalate : ℕ → Incident → Incident
escalate now i = record i { escalation_level = 1; last_escalated_at = some now; updated_at = now }

-- WHERE id=$1 AND tenant_id=$2 AND the incident still waits
abbrev pub still_waits : ℕ → ℕ → Incident → Bool
still_waits tenant id i = is_incident tenant id i && waits i

-- `escalateIncident`: `none` is an error, else whether the incident changed.
unfoldable pub escalate_incident : Faults → Store → ℕ → ℕ → ℕ → Option Bool × Store
escalate_incident down s now tenant id =
    let event : Event = record {
      tenant_id = tenant;
      incident_id = id;
      actor_user_id = none;
      event_type = EventType.escalated;
      text = "Acknowledgement SLA exceeded; workspace administrators notified.";
    } in
    let entry : AuditEvent = record {
      tenant_id = tenant;
      actor_id = none;
      action = "incident.escalate";
      resource_type = "incident";
      resource_id = id;
    } in
    let told = notices tenant id s.rbac.users in
    if down "begin" || down "update"
    then (none, s)
    else if not (exists (still_waits tenant id) s.incidents)
    then (some false, s)
    else if down "insert event" || down "notify" || down "queue" || down "audit" || down "commit"
    then (none, s)
    else (
      some true,
      record s {
        incidents = update_where (still_waits tenant id) (escalate now) s.incidents;
        incident_events = s.incident_events ++ event ∷ [];
        notifications = s.notifications ++ told;
        email_outbox = queue_notices told s.email_outbox;
        audit = s.audit ++ entry ∷ [];
      },
    )

-- The loop over the rows; an error is logged, and the loop goes on. Each row has its own faults.
unfoldable pub escalate_all : (ℕ → Faults) → Store → ℕ → List Incident → Store
escalate_all down s now [] = s
escalate_all down s now (i ∷ rest) =
    escalate_all down (escalate_incident (down i.id) s now i.tenant_id i.id).1 now rest

unfoldable pub run_incident_escalation : Faults → (ℕ → Faults) → Bool → Store → ℕ → Store
run_incident_escalation down row_down locked s now =
    if down "connection" || down "lock" || not locked || down "select"
    then s
    else escalate_all row_down s now (due_incidents now s)
