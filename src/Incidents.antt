-- ===== src/Incidents.antt =====
-- services/api/internal/httpapi/incidents.go: the incident workflow of a workspace. The tables are
-- lists of rows, NOW() is an argument, and `gen_random_uuid()` is the argument `new_id`. The CHECK
-- constraints on a title's and a note's characters stand where a row is written; a metadata column
-- is left out. A body that `decodeJSON` refuses is `none`.
pub mod Edit
pub mod Alerts
pub mod Escalation
pub mod Branches
pub mod Errors
mod Rows
mod Counts
pub mod Consistency
pub mod Sla
mod Examples
use Prim.Native.String.{len, count}
use mathlib.Core.Option
use xpace.Prelude.{
  ℕ, String, Bool, true, false, not, ◌&&◌, ◌||◌, Option, none, some, List, [], ◌∷◌, ◌++◌, first,
  exists, update_where, ltb, ◌==◌, if◌then◌else◌, nat_eq, text_eq, trim_space, to_upper, to_lower,
}
use xpace.Http.{
  Response, error_json, respond_json, unwritten, Faults, User, CurrentUser, AuditEvent,
  write_audit_event,
}
use xpace.Rbac
use xpace.Rbac.{has_permission}

pub data Severity : Type 0 where
  p1 p2 p3 p4 : Severity

pub data Status : Type 0 where
  open_ acknowledged investigating resolved closed : Status

pub data Source : Type 0 where
  manual prometheus client_error : Source

pub data EventType : Type 0 where
  created acknowledged investigating severity_changed assigned note resolved closed reopened :
      EventType
  alert_firing alert_resolved escalated : EventType

pub record Incident : Type 0 where
  pub id : ℕ
  pub tenant_id : ℕ
  pub title : String
  pub description : String
  pub source : Source
  pub severity : Severity
  pub status : Status
  pub assignee_user_id : Option ℕ
  pub created_by : Option ℕ
  pub acknowledged_by : Option ℕ
  pub acknowledged_at : Option ℕ
  pub resolved_by : Option ℕ
  pub resolved_at : Option ℕ
  pub external_key : Option String
  pub escalation_level : ℕ
  pub last_escalated_at : Option ℕ
  pub created_at : ℕ
  pub updated_at : ℕ

pub record Event : Type 0 where
  pub tenant_id : ℕ
  pub incident_id : ℕ
  pub actor_user_id : Option ℕ
  pub event_type : EventType
  pub text : String

-- A row of `notifications` or of `email_outbox` for one administrator.
pub record Notice : Type 0 where
  pub tenant_id : ℕ
  pub recipient_id : ℕ
  pub incident_id : ℕ

pub record Store : Type 0 where
  pub rbac : Rbac.Store
  pub incidents : List Incident
  pub incident_events : List Event
  pub notifications : List Notice
  pub email_outbox : List Notice
  pub audit : List AuditEvent

-- `validIncidentSeverity`, with the severity that the text stands for.
unfoldable pub valid_incident_severity : String → Option Severity
valid_incident_severity value =
    if value == "P1"
    then some p1
    else if value == "P2"
    then some p2
    else if value == "P3"
    then some p3
    else if value == "P4"
    then some p4
    else none

unfoldable pub valid_incident_source : String → Option Source
valid_incident_source value =
    if value == "MANUAL"
    then some manual
    else if value == "PROMETHEUS"
    then some prometheus
    else if value == "CLIENT_ERROR"
    then some client_error
    else none

-- `incidentTransition`: the target, the event, and the states from which the action is allowed.
pub record Transition : Type 0 where
  pub target : Status
  pub event_type : EventType
  pub allowed : Status → Bool

abbrev from_open : Status → Bool
from_open Status.open_ = true
from_open _ = false

abbrev from_unhandled : Status → Bool
from_unhandled Status.open_ = true
from_unhandled Status.acknowledged = true
from_unhandled _ = false

abbrev from_unresolved : Status → Bool
from_unresolved Status.resolved = false
from_unresolved Status.closed = false
from_unresolved _ = true

abbrev from_resolved : Status → Bool
from_resolved Status.resolved = true
from_resolved _ = false

abbrev from_done : Status → Bool
from_done Status.resolved = true
from_done Status.closed = true
from_done _ = false

unfoldable pub incident_transition : String → Option Transition
incident_transition action =
    if action == "acknowledge"
    then some (record {
      target = Status.acknowledged;
      event_type = EventType.acknowledged;
      allowed = from_open;
    })
    else if action == "investigate"
    then some (record {
      target = Status.investigating;
      event_type = EventType.investigating;
      allowed = from_unhandled;
    })
    else if action == "resolve"
    then some (record {
      target = Status.resolved;
      event_type = EventType.resolved;
      allowed = from_unresolved;
    })
    else if action == "close"
    then some
        (record { target = Status.closed; event_type = EventType.closed; allowed = from_resolved })
    else if action == "reopen"
    then some
        (record { target = Status.open_; event_type = EventType.reopened; allowed = from_done })
    else none

-- WHERE tenant_id=$1 AND id=$2
abbrev pub is_incident : ℕ → ℕ → Incident → Bool
is_incident tenant_id id i = i.tenant_id == tenant_id && i.id == id

abbrev pub find_incident : Store → ℕ → ℕ → Option Incident
find_incident s tenant_id id = first (is_incident tenant_id id) s.incidents

abbrev pub incident_event : CurrentUser → ℕ → EventType → String → Event
incident_event actor id event_type text = record {
  tenant_id = actor.tenant_id;
  incident_id = id;
  actor_user_id = some actor.id;
  event_type = event_type;
  text = text;
}

abbrev pub incident_audit : CurrentUser → String → ℕ → AuditEvent
incident_audit actor action id = record {
  tenant_id = actor.tenant_id;
  actor_id = some actor.id;
  action = action;
  resource_type = "incident";
  resource_id = id;
}

pub record IncidentInput : Type 0 where
  pub title : String
  pub description : String
  pub severity : String
  pub source : String

-- The CHECKs on `incidents`: their bounds are in characters, those of the handler in bytes.
abbrev pub violates_text_checks : String → String → Bool
violates_text_checks title description =
    ltb (count title) 3 || ltb 160 (count title) || ltb 4000 (count description)

abbrev pub new_incident : ℕ → CurrentUser → ℕ → String → String → Severity → Source → Incident
new_incident now actor new_id title description severity source = record {
  id = new_id;
  tenant_id = actor.tenant_id;
  title = title;
  description = description;
  source = source;
  severity = severity;
  status = Status.open_;
  assignee_user_id = none;
  created_by = some actor.id;
  acknowledged_by = none;
  acknowledged_at = none;
  resolved_by = none;
  resolved_at = none;
  external_key = none;
  escalation_level = 0;
  last_escalated_at = none;
  created_at = now;
  updated_at = now;
}

-- The transaction of `createAdminIncident`, of valid input.
unfoldable pub insert_incident :
    Faults
    → Store
    → ℕ
    → CurrentUser
    → ℕ
    → String
    → String
    → Option Severity
    → Option Source
    → Response × Store
insert_incident down s now actor new_id title description (some severity) (some source) =
    if ltb (len title) 3 || ltb 160 (len title) || ltb 4000 (len description)
    then (error_json 400 "INVALID_INCIDENT", s)
    else if down "begin"
        || down "insert incident"
        || violates_text_checks title description
        || down "insert event"
        || down "commit"
    then (error_json 500 "INTERNAL_ERROR", s)
    else (
      respond_json 201,
      record s {
        incidents =
            s.incidents ++ new_incident now actor new_id title description severity source ∷ [];
        incident_events =
            s.incident_events ++ incident_event actor new_id EventType.created description ∷ [];
        audit = write_audit_event down (incident_audit actor "incident.create" new_id) s.audit;
      },
    )
insert_incident down s now actor new_id title description _ _ =
    (error_json 400 "INVALID_INCIDENT", s)

create_decoded : Faults → Store → ℕ → CurrentUser → ℕ → Option IncidentInput → Response × Store
create_decoded down s now actor new_id none = (unwritten, s)
create_decoded down s now actor new_id (some input) =
    let source = to_upper (trim_space input.source) in
    insert_incident down s now actor new_id (trim_space input.title) (trim_space input.description)
      (valid_incident_severity (to_upper (trim_space input.severity)))
      (valid_incident_source (if source == "" then "MANUAL" else source))

-- `adminIncidents` on a POST request, with `createAdminIncident`; a GET changes nothing.
unfoldable pub create_admin_incident :
    Faults → Store → ℕ → CurrentUser → ℕ → Option IncidentInput → Response × Store
unfolding create_decoded
create_admin_incident down s now actor new_id input =
    if not (has_permission down s.rbac actor "audit.read")
    then (error_json 403 "PERMISSION_REQUIRED", s)
    else if not (has_permission down s.rbac actor "incident.manage")
    then (error_json 403 "PERMISSION_REQUIRED", s)
    else create_decoded down s now actor new_id input

-- The SET clause of the transition, with its CASE expressions.
unfoldable pub set_status : ℕ → ℕ → Status → Incident → Incident
set_status now actor_id Status.acknowledged i = record i {
  status = Status.acknowledged;
  acknowledged_by = some actor_id;
  acknowledged_at = some now;
  updated_at = now;
}
set_status now actor_id Status.resolved i = record i {
  status = Status.resolved;
  resolved_by = some actor_id;
  resolved_at = some now;
  updated_at = now;
}
set_status now actor_id Status.open_ i = record i {
  status = Status.open_;
  resolved_by = none;
  resolved_at = none;
  updated_at = now;
}
set_status now actor_id target i = record i { status = target; updated_at = now }

-- The transaction of `transitionAdminIncident`, of an action that the code knows.
unfoldable pub apply_transition :
    Faults → Store → ℕ → CurrentUser → String → ℕ → Transition → Option Incident → Response × Store
apply_transition down s now actor action id t none = (error_json 404 "NOT_FOUND", s)
apply_transition down s now actor action id t (some current) =
    if not (t.allowed current.status)
    then (error_json 409 "INVALID_TRANSITION", s)
    else if down "update" || down "insert event" || down "commit"
    then (error_json 500 "INTERNAL_ERROR", s)
    else (
      respond_json 204,
      record s {
        incidents =
            update_where (is_incident actor.tenant_id id) (set_status now actor.id t.target)
              s.incidents;
        incident_events = s.incident_events ++ incident_event actor id t.event_type "" ∷ [];
        audit =
            write_audit_event down
              (incident_audit actor (Prim.Native.String.◌++◌ "incident." action) id) s.audit;
      },
    )

unfoldable pub transition_known :
    Faults → Store → ℕ → CurrentUser → String → ℕ → Option Transition → Response × Store
transition_known down s now actor action id none = (error_json 400 "INVALID_TRANSITION", s)
transition_known down s now actor action id (some t) =
    if down "begin"
    then (error_json 500 "INTERNAL_ERROR", s)
    else if down "select"
    then (error_json 404 "NOT_FOUND", s)
    else apply_transition down s now actor action id t (find_incident s actor.tenant_id id)

unfoldable pub transition_admin_incident :
    Faults → Store → ℕ → CurrentUser → String → ℕ → Response × Store
transition_admin_incident down s now actor path_action id =
    let action = to_lower path_action in
    if not (has_permission down s.rbac actor "incident.manage")
    then (error_json 403 "PERMISSION_REQUIRED", s)
    else transition_known down s now actor action id (incident_transition action)

unfoldable pub insert_note : Faults → Store → ℕ → CurrentUser → ℕ → String → Response × Store
insert_note down s now actor id text =
    let touched =
      if down "touch"
      then s.incidents
      else update_where (is_incident actor.tenant_id id) (λ i. record i { updated_at = now })
          s.incidents in
    if text == "" || ltb 4000 (len text)
    then (error_json 400 "INVALID_NOTE", s)
    else if down "insert event" || not (exists (is_incident actor.tenant_id id) s.incidents)
    then (error_json 404 "NOT_FOUND", s)
    else (
      respond_json 204,
      record s {
        incidents = touched;
        incident_events = s.incident_events ++ incident_event actor id EventType.note text ∷ [];
        audit = write_audit_event down (incident_audit actor "incident.note" id) s.audit;
      },
    )

note_decoded : Faults → Store → ℕ → CurrentUser → ℕ → Option String → Response × Store
note_decoded down s now actor id none = (unwritten, s)
note_decoded down s now actor id (some text) = insert_note down s now actor id (trim_space text)

unfoldable pub add_incident_note :
    Faults → Store → ℕ → CurrentUser → ℕ → Option String → Response × Store
unfolding note_decoded
add_incident_note down s now actor id body =
    if not (has_permission down s.rbac actor "incident.manage")
    then (error_json 403 "PERMISSION_REQUIRED", s)
    else note_decoded down s now actor id body
