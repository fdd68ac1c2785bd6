-- ===== src/Incidents/Edit.antt =====
-- services/api/internal/httpapi/incidents.go: `updateAdminIncident`, which edits an incident's severity and
-- assignee in one transaction. An assignee is absent, blank, or an identifier.
use xpace.Prelude.{
  ℕ, String, Bool, true, false, not, ◌&&◌, ◌||◌, Option, none, some, [], ◌∷◌, ◌++◌, exists,
  update_where, ◌==◌, nat_eq, if◌then◌else◌, trim_space, to_upper,
}
use xpace.Http.{
  Response, error_json, respond_json, unwritten, Faults, User, CurrentUser, is_active,
  write_audit_event,
}
use xpace.Rbac.{has_permission}
use xpace.Incidents.{
  Severity, EventType, Incident, Store, is_incident, incident_event, incident_audit,
  valid_incident_severity,
}

pub record EditInput : Type 0 where
  pub severity : Option String
  pub assignee_user_id : Option (Option ℕ)

abbrev pub set_severity : ℕ → Severity → Incident → Incident
set_severity now severity i = record i { severity = severity; updated_at = now }

abbrev pub set_assignee : ℕ → Option ℕ → Incident → Incident
set_assignee now assignee i = record i { assignee_user_id = assignee; updated_at = now }

-- An UPDATE of the incident with its event, inside the transaction.
abbrev pub write_edit : CurrentUser → (id : ℕ) → (Incident → Incident) → EventType → Store → Store
write_edit actor id f event_type t = record t {
  incidents = update_where (is_incident actor.tenant_id id) f t.incidents;
  incident_events = t.incident_events ++ incident_event actor id event_type "" ∷ [];
}

-- SELECT status='ACTIVE' FROM users
abbrev pub is_assignable : CurrentUser → ℕ → User → Bool
is_assignable actor id u = u.tenant_id == actor.tenant_id && u.id == id && is_active u.status

-- `s` is the store before the transaction, and `t` what it has made of it so far.
unfoldable pub commit_edit : Faults → (s t : Store) → CurrentUser → (id : ℕ) → Response × Store
commit_edit down s t actor id = if down "commit" then (error_json 500 "INTERNAL_ERROR", s) else (
  respond_json 204,
  record t { audit = write_audit_event down (incident_audit actor "incident.update" id) t.audit },
)

-- The event of an incident that is not there violates its foreign key.
unfoldable pub write_assignee :
    Faults → (s t : Store) → ℕ → CurrentUser → (id : ℕ) → Option ℕ → Response × Store
write_assignee down s t now actor id assignee =
    if down "update assignee"
      || down "insert assigned event"
      || not (exists (is_incident actor.tenant_id id) t.incidents)
    then (error_json 500 "INTERNAL_ERROR", s)
    else commit_edit down s (write_edit actor id (set_assignee now assignee) EventType.assigned t)
        actor id

unfoldable pub edit_assignee :
    Faults
    → (s t : Store) → ℕ
    → CurrentUser
    → (id : ℕ) → (has_severity : Bool) → Option (Option ℕ)
    → Response × Store
edit_assignee down s t now actor id has_severity none =
    if has_severity then commit_edit down s t actor id else (error_json 400 "INVALID_INCIDENT", s)
edit_assignee down s t now actor id has_severity (some none) =
    write_assignee down s t now actor id none
edit_assignee down s t now actor id has_severity (some (some u)) =
    if down "select assignee" || not (exists (is_assignable actor u) t.rbac.users)
    then (error_json 400 "INVALID_ASSIGNEE", s)
    else write_assignee down s t now actor id (some u)

unfoldable pub edit_severity :
    Faults
    → Store
    → ℕ
    → CurrentUser
    → (id : ℕ) → Option Severity
    → Option (Option ℕ)
    → Response × Store
edit_severity down s now actor id none assignee = (error_json 400 "INVALID_INCIDENT", s)
edit_severity down s now actor id (some severity) assignee =
    if down "update severity" || not (exists (is_incident actor.tenant_id id) s.incidents)
    then (error_json 404 "NOT_FOUND", s)
    else if down "insert severity event"
    then (error_json 500 "INTERNAL_ERROR", s)
    else edit_assignee down s
        (write_edit actor id (set_severity now severity) EventType.severity_changed s) now actor id
        true assignee

unfoldable pub edit_incident :
    Faults
    → Store
    → ℕ
    → CurrentUser
    → (id : ℕ) → (severity : Option String) → Option (Option ℕ)
    → Response × Store
edit_incident down s now actor id none assignee = edit_assignee down s s now actor id false assignee
edit_incident down s now actor id (some severity) assignee =
    edit_severity down s now actor id (valid_incident_severity (to_upper (trim_space severity)))
      assignee

edit_decoded : Faults → Store → ℕ → CurrentUser → ℕ → Option EditInput → Response × Store
edit_decoded down s now actor id none = (unwritten, s)
edit_decoded down s now actor id (some input) =
    if down "begin"
    then (error_json 500 "INTERNAL_ERROR", s)
    else edit_incident down s now actor id input.severity input.assignee_user_id

unfoldable pub update_admin_incident :
    Faults → Store → ℕ → CurrentUser → (id : ℕ) → Option EditInput → Response × Store
unfolding edit_decoded
update_admin_incident down s now actor id input =
    if not (has_permission down s.rbac actor "incident.manage")
    then (error_json 403 "PERMISSION_REQUIRED", s)
    else edit_decoded down s now actor id input
