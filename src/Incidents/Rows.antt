-- ===== src/Incidents/Rows.antt =====
-- services/api/internal/httpapi/incidents.go, alertmanager_webhook.go and
-- incident_escalation_worker.go: what holds of the incident rows, under every operation on them.
use mathlib.Core.Path.{subst}
use xpace.Prelude.{
  ℕ, ◌≤◌, ◌≡◌, ◌≢◌, refl, sym, String, Bool, true, false, not, ◌||◌, Option, none, some, List, [],
  ◌∷◌, ◌++◌, arith, nat_eq, first, exists, update_where, All, AtMostOne, All-append, All-update,
  All-update_one, AtMostOne-update, AtMostOne-append, first-holds, first-by_key, first-All,
  Bool-cases, inl, inr, to_lower,
}
use xpace.Http.{Keeps, Keeps-if, Keeps-leaf, error_json, keeps_rules, Faults, CurrentUser}
use xpace.Incidents.{
  EventType, Severity, Status, Source, Incident, Store, IncidentInput, is_incident, find_incident,
  set_status, insert_incident, create_admin_incident, transition_admin_incident, insert_note,
  add_incident_note, new_incident, from_done,
}
use xpace.Incidents.Branches.{
  Action, Moves, accepted, accepted_or_unchanged, moved, edge_of_entry, entry_of_transition,
  set_status-key,
}
use xpace.Incidents.Edit.{
  EditInput, set_severity, set_assignee, write_edit, is_assignable, commit_edit, write_assignee,
  edit_assignee, edit_severity, edit_incident, update_admin_incident,
}
use xpace.Incidents.Alerts.{
  AlertStatus, Reading, next_status, set_alert, alert_incident, upserted, upsert_alert_incident,
  is_alert_incident,
}
use xpace.Incidents.Escalation.{is_none, still_waits, escalate, escalate_incident}

-- Of one row: it has a resolution time exactly when it is resolved or closed, an acknowledged one has
-- an acknowledgement time, and its level is at most one, with the time noted.
pub record IsConsistent (i : Incident) : Type 0 where
  pub resolved_when_done : is_none i.resolved_at ≡ not (from_done i.status)
  pub acknowledged_at_set : i.status ≡ Status.acknowledged → is_none i.acknowledged_at ≡ false
  pub level : i.escalation_level ≤ 1
  pub escalation_noted : i.escalation_level ≢ 0 → is_none i.last_escalated_at ≡ false

abbrev pub HasUniqueIds : List Incident → Type 0
HasUniqueIds xs = (tenant id : ℕ) → AtMostOne (is_incident tenant id) xs

pub record HasValidRows (s : Store) : Type 0 where
  pub unique : HasUniqueIds s.incidents
  pub rows : All IsConsistent s.incidents

-- An operation on the incidents, by any caller or worker.
pub data Operation : Type 0 where
  create : CurrentUser → (new_id : ℕ) → Option IncidentInput → Operation
  transition : CurrentUser → (action : String) → (id : ℕ) → Operation
  annotate : CurrentUser → (id : ℕ) → Option String → Operation
  edit : CurrentUser → (id : ℕ) → Option EditInput → Operation
  ingest : (tenant new_id : ℕ) → AlertStatus → Reading → Operation
  escalation : (tenant id : ℕ) → Operation

unfoldable pub perform : Faults → ℕ → Store → Operation → Store
perform down now s (create actor new_id input) =
    (create_admin_incident down s now actor new_id input).1
perform down now s (transition actor action id) =
    (transition_admin_incident down s now actor action id).1
perform down now s (annotate actor id body) = (add_incident_note down s now actor id body).1
perform down now s (edit actor id input) = (update_admin_incident down s now actor id input).1
perform down now s (ingest tenant new_id status r) =
    (upsert_alert_incident down s now tenant new_id status r).1
perform down now s (escalation tenant id) = (escalate_incident down s now tenant id).1

-- A generated identifier is not in use.
abbrev pub IsFresh : Store → Operation → Type 0
IsFresh s (create actor new_id input) =
    (tenant : ℕ) → exists (is_incident tenant new_id) s.incidents ≡ false
IsFresh s (ingest tenant' new_id status r) =
    (tenant : ℕ) → exists (is_incident tenant new_id) s.incidents ≡ false
IsFresh s _ = Unit

-- Each row rewrite keeps a consistent row consistent.
set_status-IsConsistent :
    (now by : ℕ) (i : Incident) {a : Action} {from to : Status}
    → Moves a from to
    → i.status ≡ from
    → IsConsistent i
    → IsConsistent (set_status now by to i)
unfolding set_status
set_status-IsConsistent now by i Moves.acknowledged e h = ground arith
set_status-IsConsistent now by i Moves.investigated_at_once e h = ground arith
set_status-IsConsistent now by i Moves.investigated e h = ground arith
set_status-IsConsistent now by i Moves.resolved_at_once e h = ground arith
set_status-IsConsistent now by i Moves.resolved_acknowledged e h = ground arith
set_status-IsConsistent now by i Moves.resolved_investigated e h = ground arith
set_status-IsConsistent now by i Moves.closed e h = ground arith
set_status-IsConsistent now by i Moves.reopened_resolved e h = ground arith
set_status-IsConsistent now by i Moves.reopened_closed e h = ground arith

set_alert-IsConsistent :
    (now : ℕ) (r : Reading) (status : AlertStatus) (i : Incident)
    → IsConsistent i
    → IsConsistent (set_alert now r (next_status status i.status) i)
unfolding set_alert next_status
set_alert-IsConsistent now r AlertStatus.firing i h = ground arith
set_alert-IsConsistent now r AlertStatus.resolved i h = ground arith

escalate-IsConsistent : (now : ℕ) (i : Incident) → IsConsistent i → IsConsistent (escalate now i)
escalate-IsConsistent now i h = ground arith

alert_incident-IsConsistent :
    (now tenant id : ℕ) (status : AlertStatus) (r : Reading)
    → IsConsistent (alert_incident now tenant id status r)
alert_incident-IsConsistent now tenant id AlertStatus.firing r = ground arith
alert_incident-IsConsistent now tenant id AlertStatus.resolved r = ground arith

set_alert-key :
    (tenant id now : ℕ) (r : Reading) (status : Status) (i : Incident)
    → is_incident tenant id (set_alert now r status i) ≡ is_incident tenant id i
unfolding set_alert
set_alert-key tenant id now r status i = refl

-- What one rewrite of the rows under a key, or one inserted row, does to a valid table.
module _ (s : Store) (v : HasValidRows s) where
  update-HasValidRows :
      (tenant id : ℕ) (f : Incident → Incident) (found : Incident)
      → ((t k : ℕ) (i : Incident) → is_incident t k (f i) ≡ is_incident t k i)
      → find_incident s tenant id ≡ some found
      → (IsConsistent found → IsConsistent (f found))
      → HasUniqueIds (update_where (is_incident tenant id) f s.incidents)
        × All IsConsistent (update_where (is_incident tenant id) f s.incidents)
  update-HasValidRows tenant id f found key e keeps = (
    λ t k.
        AtMostOne-update (is_incident t k) (is_incident tenant id) f s.incidents (key t k)
          (v.unique t k),
    All-update_one IsConsistent (is_incident tenant id) f s.incidents (v.unique tenant id) e
        (keeps (first-All IsConsistent (is_incident tenant id) s.incidents e v.rows)) v.rows,
  )

  insert-HasValidRows :
      (i : Incident)
      → ((tenant : ℕ) → exists (is_incident tenant i.id) s.incidents ≡ false)
      → IsConsistent i
      → HasUniqueIds (s.incidents ++ i ∷ []) × All IsConsistent (s.incidents ++ i ∷ [])
  insert-HasValidRows i fresh c = (
    λ t k.
        AtMostOne-append (is_incident t k) s.incidents i (v.unique t k)
          (λ e. ground (arith, e, fresh t)),
    All-append IsConsistent s.incidents (i ∷ []) v.rows (c, tt),
  )

-- Only the incidents count.
HasValidRows-rows :
    {s : Store} → HasUniqueIds s.incidents → All IsConsistent s.incidents → HasValidRows s
HasValidRows-rows u r = record { unique = u; rows = r }

module _ (down : Faults) (now : ℕ) (s : Store) (v : HasValidRows s) where
  insert_incident-HasValidRows :
      (actor : CurrentUser) (id : ℕ) (title description : String) (severity : Option Severity)
      (source : Option Source)
      → ((tenant : ℕ) → exists (is_incident tenant id) s.incidents ≡ false)
      → Keeps HasValidRows (insert_incident down s now actor id title description severity source)
  unfolding insert_incident
  insert_incident-HasValidRows actor id title description (some severity) (some source) fresh =
      let i = new_incident now actor id title description severity source in
      let (u, r) = insert-HasValidRows s v i fresh (ground arith) in
      search (keeps_rules, v, HasValidRows-rows u r)
  insert_incident-HasValidRows actor id title description _ _ fresh = search (keeps_rules, v)

  create-HasValidRows :
      (actor : CurrentUser) (id : ℕ) (input : Option IncidentInput)
      → ((tenant : ℕ) → exists (is_incident tenant id) s.incidents ≡ false)
      → Keeps HasValidRows (create_admin_incident down s now actor id input)
  unfolding create_admin_incident
  create-HasValidRows actor id none fresh = search (keeps_rules, v)
  create-HasValidRows actor id (some input) fresh =
      search (keeps_rules, v, insert_incident-HasValidRows, fresh)

  transition-HasValidRows :
      (actor : CurrentUser) (action : String) (id : ℕ)
      → Keeps HasValidRows (transition_admin_incident down s now actor action id)
  unfolding moved
  transition-HasValidRows actor action id =
      elim (accepted_or_unchanged down s now actor action id) [
        | inr e ↦ record { kept = subst HasValidRows (sym e) v }
        | inl h ↦
            let (t, i, e, f, ok, rows) = accepted down s now actor action id h in
            let (a, n, same) = entry_of_transition (to_lower action) e in
            let edge = edge_of_entry a i.status (rw same ok) in
            let (u, r) =
              update-HasValidRows s v actor.tenant_id id (set_status now actor.id t.target) i
                (λ k j x. set_status-key k j now actor.id t.target x) f
                (λ c. rw (← same) (set_status-IsConsistent now actor.id i edge refl c)) in
            record { kept = record { unique = rw rows u; rows = rw rows r } }
      ]

  note-HasValidRows :
      (actor : CurrentUser) (id : ℕ) (text : String)
      → Keeps HasValidRows (insert_note down s now actor id text)
  unfolding insert_note
  note-HasValidRows actor id text =
      let touch : Incident → Incident = λ i. record i { updated_at = now } in
      let touched : HasValidRows (record s {
        incidents = update_where (is_incident actor.tenant_id id) touch s.incidents;
      }) =
        record {
          unique = λ t k.
              AtMostOne-update (is_incident t k) (is_incident actor.tenant_id id) touch s.incidents
                (λ x. refl) (v.unique t k);
          rows =
              All-update IsConsistent (is_incident actor.tenant_id id) touch s.incidents
                (λ x _ c. ground arith) v.rows;
        } in
      elim (Bool-cases (down "touch")) [
        | inl e ↦ rw e (search (keeps_rules, v, HasValidRows-rows v.unique v.rows))
        | inr e ↦ rw e (search (keeps_rules, v, HasValidRows-rows touched.unique touched.rows))
      ]

  annotate-HasValidRows :
      (actor : CurrentUser) (id : ℕ) (body : Option String)
      → Keeps HasValidRows (add_incident_note down s now actor id body)
  unfolding add_incident_note
  annotate-HasValidRows actor id none = search (keeps_rules, v)
  annotate-HasValidRows actor id (some text) = search (keeps_rules, v, note-HasValidRows)

  upserted-rows :
      (tenant id : ℕ) (status : AlertStatus) (r : Reading) (found : Option Incident)
      → ((t : ℕ) → exists (is_incident t id) s.incidents ≡ false)
      → first (is_alert_incident tenant r.fingerprint) s.incidents ≡ found
      → HasUniqueIds (upserted now tenant id status r s.incidents found)
        × All IsConsistent (upserted now tenant id status r s.incidents found)
  unfolding upserted
  upserted-rows tenant id status r none fresh e =
      insert-HasValidRows s v (alert_incident now tenant id status r) fresh
        (alert_incident-IsConsistent now tenant id status r)
  upserted-rows tenant id status r (some i) fresh e =
      let by_key = first-holds (is_alert_incident tenant r.fingerprint) s.incidents e in
      update-HasValidRows s v tenant i.id (set_alert now r (next_status status i.status)) i
        (λ t k x. set_alert-key t k now r (next_status status i.status) x)
        (first-by_key (is_incident tenant i.id) (is_alert_incident tenant r.fingerprint) s.incidents
          i (v.unique tenant i.id) e (ground (arith, by_key)))
        (set_alert-IsConsistent now r status i)

  alert-HasValidRows :
      (tenant id : ℕ) (status : AlertStatus) (r : Reading)
      → ((t : ℕ) → exists (is_incident t id) s.incidents ≡ false)
      → Keeps HasValidRows (upsert_alert_incident down s now tenant id status r)
  unfolding upsert_alert_incident
  alert-HasValidRows tenant id status r fresh =
      let (u, rows) = upserted-rows tenant id status r _ fresh refl in
      search (keeps_rules, v, HasValidRows-rows u rows)

  escalation-HasValidRows :
      (tenant id : ℕ) → Keeps HasValidRows (escalate_incident down s now tenant id)
  unfolding escalate_incident
  escalation-HasValidRows tenant id = search (
    keeps_rules,
    v,
    HasValidRows-rows
        (λ t k.
          AtMostOne-update (is_incident t k) (still_waits tenant id) (escalate now) s.incidents
            (λ x. refl) (v.unique t k))
        (All-update IsConsistent (still_waits tenant id) (escalate now) s.incidents
          (λ x _ c. escalate-IsConsistent now x c) v.rows),
  )

-- An edit changes neither status, level nor times.
write_edit-HasValidRows :
    (actor : CurrentUser) (id : ℕ) (f : Incident → Incident) (kind : EventType) (s : Store)
    → ((t k : ℕ) (i : Incident) → is_incident t k (f i) ≡ is_incident t k i)
    → ((i : Incident) → IsConsistent i → IsConsistent (f i))
    → HasValidRows s
    → HasValidRows (write_edit actor id f kind s)
write_edit-HasValidRows actor id f kind s key keeps v = record {
  unique = λ t k.
      AtMostOne-update (is_incident t k) (is_incident actor.tenant_id id) f s.incidents (key t k)
        (v.unique t k);
  rows =
      All-update IsConsistent (is_incident actor.tenant_id id) f s.incidents (λ x _ c. keeps x c)
        v.rows;
}

module _ (down : Faults) (now : ℕ) (s : Store) (v : HasValidRows s) where
  commit-HasValidRows :
      (t : Store) (actor : CurrentUser) (id : ℕ)
      → HasValidRows t
      → Keeps HasValidRows (commit_edit down s t actor id)
  unfolding commit_edit
  commit-HasValidRows t actor id w = search (keeps_rules, v, HasValidRows-rows w.unique w.rows)

  assign-HasValidRows :
      (t : Store) (actor : CurrentUser) (id : ℕ) (given : Bool) (assignee : Option (Option ℕ))
      → HasValidRows t
      → Keeps HasValidRows (edit_assignee down s t now actor id given assignee)
  unfolding edit_assignee write_assignee
  assign-HasValidRows t actor id given none w = search (keeps_rules, v, commit-HasValidRows, w)
  assign-HasValidRows t actor id given (some none) w =
      let to = set_assignee now none in
      let set =
        write_edit-HasValidRows actor id to EventType.assigned t (λ t k i. refl)
          (λ i c. ground arith) w in
      let done = commit-HasValidRows (write_edit actor id to EventType.assigned t) actor id set in
      Keeps-if
        (down "update assignee"
          || down "insert assigned event"
          || not (exists (is_incident actor.tenant_id id) t.incidents))
        (Keeps-leaf (error_json 500 "INTERNAL_ERROR") v) done
  assign-HasValidRows t actor id given (some (some u)) w =
      let to = set_assignee now (some u) in
      let set =
        write_edit-HasValidRows actor id to EventType.assigned t (λ t k i. refl)
          (λ i c. ground arith) w in
      let done = commit-HasValidRows (write_edit actor id to EventType.assigned t) actor id set in
      Keeps-if (down "select assignee" || not (exists (is_assignable actor u) t.rbac.users))
        (Keeps-leaf (error_json 400 "INVALID_ASSIGNEE") v)
        (Keeps-if
          (down "update assignee"
            || down "insert assigned event"
            || not (exists (is_incident actor.tenant_id id) t.incidents))
          (Keeps-leaf (error_json 500 "INTERNAL_ERROR") v) done)

  severity-HasValidRows :
      (actor : CurrentUser) (id : ℕ) (severity : Option Severity) (assignee : Option (Option ℕ))
      → Keeps HasValidRows (edit_severity down s now actor id severity assignee)
  unfolding edit_severity
  severity-HasValidRows actor id none assignee = search (keeps_rules, v)
  severity-HasValidRows actor id (some p) assignee =
      let to = set_severity now p in
      let set =
        write_edit-HasValidRows actor id to EventType.severity_changed s (λ t k i. refl)
          (λ i c. ground arith) v in
      let done =
        assign-HasValidRows (write_edit actor id to EventType.severity_changed s) actor id true
          assignee set in
      Keeps-if (down "update severity" || not (exists (is_incident actor.tenant_id id) s.incidents))
        (Keeps-leaf (error_json 404 "NOT_FOUND") v)
        (Keeps-if (down "insert severity event") (Keeps-leaf (error_json 500 "INTERNAL_ERROR") v)
          done)

  edit_incident-HasValidRows :
      (actor : CurrentUser) (id : ℕ) (severity : Option String) (assignee : Option (Option ℕ))
      → Keeps HasValidRows (edit_incident down s now actor id severity assignee)
  unfolding edit_incident
  edit_incident-HasValidRows actor id none assignee =
      assign-HasValidRows s actor id false assignee v
  edit_incident-HasValidRows actor id (some p) assignee = severity-HasValidRows actor id _ assignee

  edit-HasValidRows :
      (actor : CurrentUser) (id : ℕ) (input : Option EditInput)
      → Keeps HasValidRows (update_admin_incident down s now actor id input)
  unfolding update_admin_incident
  edit-HasValidRows actor id none = search (keeps_rules, v)
  edit-HasValidRows actor id (some input) = search (keeps_rules, v, edit_incident-HasValidRows)

-- Every operation on the incidents, whichever of its statements fail, keeps the rows valid.
pub perform-HasValidRows :
    (down : Faults) (now : ℕ) (s : Store) (op : Operation)
    → HasValidRows s
    → IsFresh s op
    → HasValidRows (perform down now s op)
unfolding perform
perform-HasValidRows down now s (create actor id input) v fresh =
    (create-HasValidRows down now s v actor id input fresh).kept
perform-HasValidRows down now s (transition actor action id) v fresh =
    (transition-HasValidRows down now s v actor action id).kept
perform-HasValidRows down now s (annotate actor id body) v fresh =
    (annotate-HasValidRows down now s v actor id body).kept
perform-HasValidRows down now s (edit actor id input) v fresh =
    (edit-HasValidRows down now s v actor id input).kept
perform-HasValidRows down now s (ingest tenant id status r) v fresh =
    (alert-HasValidRows down now s v tenant id status r fresh).kept
perform-HasValidRows down now s (escalation tenant id) v fresh =
    (escalation-HasValidRows down now s v tenant id).kept
