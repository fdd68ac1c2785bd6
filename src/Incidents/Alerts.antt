-- ===== src/Incidents/Alerts.antt =====
-- services/api/internal/httpapi/alertmanager_webhook.go: incidents out of monitoring alerts. The
-- SHA-256 digest that stands in for a missing fingerprint is the argument `digest`; the operations
-- workspace, found by its slug, is the argument `tenant`.
use Prim.Native.String.{len, slice, count}
use text.Mathlib.Text.{starts_with}
use xpace.Prelude.{
  ℕ, String, Bool, true, false, not, ◌&&◌, ◌||◌, Option, none, some, List, [], ◌∷◌, ◌++◌, first,
  length, update_where, ltb, ◌==◌, if◌then◌else◌, nat_eq, text_eq, trim_space, to_lower, take_runes,
}
use xpace.Http.{
  Response, error_json, respond_json, unwritten, Faults, AuditEvent, write_audit_event,
}
use xpace.Incidents.{
  Severity, p1, p2, p3, p4, Status, Source, prometheus, EventType, Incident, Event, Store,
  is_incident, violates_text_checks,
}

abbrev pub Labels : Type 0
Labels = List (String × String)

-- Reading a key that a Go map lacks gives the empty text.
unfoldable pub label : String → Labels → String
label key [] = ""
label key ((k, v) ∷ rest) = if k == key then v else label key rest

pub record Alert : Type 0 where
  pub status : String
  pub labels : Labels
  pub annotations : Labels
  pub fingerprint : String

unfoldable pub clean_alert_text : String → ℕ → String
clean_alert_text value maximum =
    let trimmed = trim_space value in
    if ltb maximum (count trimmed) then take_runes maximum trimmed else trimmed

unfoldable pub alert_incident_severity : String → Severity
alert_incident_severity value =
    let level = to_lower (trim_space value) in
    if level == "critical"
    then p1
    else if level == "warning"
    then p2
    else if level == "info"
    then p4
    else p3

-- What `upsertAlertIncident` works out of an alert before it opens its transaction.
pub record Reading : Type 0 where
  pub title : String
  pub description : String
  pub severity : Severity
  pub fingerprint : String

abbrev or_else : String → String → String
or_else value default = if value == "" then default else value

unfoldable pub read_alert : (String → Labels → String) → Alert → Reading
unfolding clean_alert_text
read_alert digest a =
    let name = or_else (clean_alert_text (label "alertname" a.labels) 160) "Prometheus alert" in
    record {
      title = or_else (clean_alert_text (label "summary" a.annotations) 160) name;
      description = clean_alert_text (label "description" a.annotations) 4000;
      severity = alert_incident_severity (label "severity" a.labels);
      fingerprint = or_else (clean_alert_text a.fingerprint 256) (digest name a.labels);
    }

-- Whether an alert fires or is resolved.
pub data AlertStatus : Type 0 where
  firing resolved : AlertStatus

unfoldable pub alert_status : String → Option AlertStatus
alert_status value =
    let status = to_lower (trim_space value) in
    if status == "firing" then some firing else if status == "resolved" then some resolved else none

abbrev is_prometheus : Source → Bool
is_prometheus Source.prometheus = true
is_prometheus _ = false

abbrev has_key : String → Option String → Bool
has_key key none = false
has_key key (some k) = k == key

-- WHERE tenant_id=$1 AND source='PROMETHEUS' AND external_key=$2
abbrev pub is_alert_incident : ℕ → String → Incident → Bool
is_alert_incident tenant key i =
    i.tenant_id == tenant && is_prometheus i.source && has_key key i.external_key

unfoldable pub next_status : AlertStatus → Status → Status
next_status AlertStatus.resolved Status.closed = Status.closed
next_status AlertStatus.resolved _ = Status.resolved
next_status AlertStatus.firing Status.resolved = Status.open_
next_status AlertStatus.firing Status.closed = Status.open_
next_status AlertStatus.firing current = current

abbrev pub initial_status : AlertStatus → Status
initial_status AlertStatus.firing = Status.open_
initial_status AlertStatus.resolved = Status.resolved

abbrev pub resolved_since : ℕ → Status → Option ℕ
resolved_since now Status.resolved = some now
resolved_since now _ = none

abbrev pub alert_incident : ℕ → ℕ → ℕ → AlertStatus → Reading → Incident
alert_incident now tenant new_id status r = record {
  id = new_id;
  tenant_id = tenant;
  title = r.title;
  description = r.description;
  source = prometheus;
  severity = r.severity;
  status = initial_status status;
  assignee_user_id = none;
  created_by = none;
  acknowledged_by = none;
  acknowledged_at = none;
  resolved_by = none;
  resolved_at = resolved_since now (initial_status status);
  external_key = some r.fingerprint;
  escalation_level = 0;
  last_escalated_at = none;
  created_at = now;
  updated_at = now;
}

abbrev coalesce : Option ℕ → ℕ → Option ℕ
coalesce none now = some now
coalesce (some t) now = some t

abbrev pub kept_resolved_at : ℕ → Status → Option ℕ → Option ℕ
kept_resolved_at now Status.resolved at = coalesce at now
kept_resolved_at now Status.open_ at = none
kept_resolved_at now _ at = at

abbrev pub kept_resolved_by : Status → Option ℕ → Option ℕ
kept_resolved_by Status.open_ by = none
kept_resolved_by _ by = by

unfoldable pub set_alert : ℕ → Reading → Status → Incident → Incident
set_alert now r status i = record i {
  title = r.title;
  description = r.description;
  severity = r.severity;
  status = status;
  resolved_at = kept_resolved_at now status i.resolved_at;
  resolved_by = kept_resolved_by status i.resolved_by;
  updated_at = now;
}

abbrev pub alert_event : AlertStatus → EventType
alert_event AlertStatus.firing = EventType.alert_firing
alert_event AlertStatus.resolved = EventType.alert_resolved

abbrev alert_action : AlertStatus → String
alert_action AlertStatus.firing = "incident.alert.firing"
alert_action AlertStatus.resolved = "incident.alert.resolved"

-- The rows after the SELECT … FOR UPDATE and the INSERT or UPDATE that follows it.
unfoldable pub upserted :
    ℕ → ℕ → ℕ → AlertStatus → Reading → List Incident → Option Incident → List Incident
unfolding set_alert
upserted now tenant new_id status r incidents none =
    incidents ++ alert_incident now tenant new_id status r ∷ []
upserted now tenant new_id status r incidents (some found) =
    update_where (is_incident tenant found.id) (set_alert now r (next_status status found.status))
      incidents

abbrev pub upserted_id : ℕ → Option Incident → ℕ
upserted_id new_id none = new_id
upserted_id new_id (some found) = found.id

-- `upsertAlertIncident`: whether it returned no error, and the tables. The audit event's error is
-- returned here, after the transaction was committed.
unfoldable pub upsert_alert_incident :
    Faults → Store → ℕ → ℕ → ℕ → AlertStatus → Reading → Bool × Store
upsert_alert_incident down s now tenant new_id status r =
    let found = first (is_alert_incident tenant r.fingerprint) s.incidents in
    let id = upserted_id new_id found in
    let event : Event = record {
      tenant_id = tenant;
      incident_id = id;
      actor_user_id = none;
      event_type = alert_event status;
      text = r.description;
    } in
    let entry : AuditEvent = record {
      tenant_id = tenant;
      actor_id = none;
      action = alert_action status;
      resource_type = "incident";
      resource_id = id;
    } in
    if down "begin"
      || down "select"
      || down "write incident"
      || violates_text_checks r.title r.description
      || down "insert event"
      || down "commit"
    then (false, s)
    else (
      not (down "audit"),
      record s {
        incidents = upserted now tenant new_id status r s.incidents found;
        incident_events = s.incident_events ++ event ∷ [];
        audit = write_audit_event down entry s.audit;
      },
    )

-- The loop over the alerts. Every alert has its own transaction, its own fresh identifier and its
-- own faults; what was ingested before an error stays.
pub record Round : Type 0 where
  pub down : Faults
  pub new_id : ℕ
  pub alert : Alert

ingest_known :
    (Store → Response × Store)
    → Store
    → ℕ
    → ℕ
    → Round
    → Reading
    → Option AlertStatus
    → Response × Store
ingest_known rest s now tenant round r none = (error_json 400 "INVALID_ALERT_PAYLOAD", s)
ingest_known rest s now tenant round r (some status) =
    let (ok, s') = upsert_alert_incident round.down s now tenant round.new_id status r in
    if ok then rest s' else (error_json 500 "INCIDENT_INGESTION_FAILED", s')

unfoldable pub ingest : (String → Labels → String) → Store → ℕ → ℕ → List Round → Response × Store
unfolding ingest_known
ingest digest s now tenant [] = (respond_json 200, s)
ingest digest s now tenant (round ∷ rest) =
    ingest_known (λ s'. ingest digest s' now tenant rest) s now tenant round
      (read_alert digest round.alert) (alert_status round.alert.status)

-- strings.TrimPrefix
unfoldable pub trim_prefix : String → String → String
trim_prefix s prefix = if starts_with s prefix then slice s (len prefix) (len s) else s

ingest_decoded :
    (String → Labels → String) → Store → ℕ → Option ℕ → Option (List Round) → Response × Store
ingest_decoded digest s now tenant none = (unwritten, s)
ingest_decoded digest s now none (some rounds) =
    if length rounds == 0 || ltb 100 (length rounds)
    then (error_json 400 "INVALID_ALERT_PAYLOAD", s)
    else (error_json 503 "OPERATIONS_TENANT_UNAVAILABLE", s)
ingest_decoded digest s now (some tenant) (some rounds) =
    if length rounds == 0 || ltb 100 (length rounds)
    then (error_json 400 "INVALID_ALERT_PAYLOAD", s)
    else ingest digest s now tenant rounds

-- Of texts of one length, `ConstantTimeCompare` is equality.
unfoldable pub authorized : String → String → Bool
authorized secret authorization =
    let expected = trim_space secret in
    let token = trim_space (trim_prefix authorization "Bearer ") in
    not (ltb (len expected) 32 || not (len token == len expected) || not (token == expected))

unfoldable pub alertmanager_webhook :
    (String → Labels → String)
    → Store
    → ℕ
    → (secret authorization : String) → Option ℕ
    → Option (List Round)
    → Response × Store
unfolding ingest_decoded
alertmanager_webhook digest s now secret authorization tenant body =
    if not (authorized secret authorization)
    then (error_json 401 "INVALID_WEBHOOK_TOKEN", s)
    else ingest_decoded digest s now tenant body
