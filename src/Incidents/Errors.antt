-- ===== src/Incidents/Errors.antt =====
-- services/api/internal/httpapi/incidents.go: the error answers of the handlers.
use xpace.Prelude.{ℕ, ◌≡◌, String, Bool, false, Option, none, some, text_eq}
use xpace.Http.{Response, IsError, Unchanged, unchanged_rules, Faults, CurrentUser}
use xpace.Incidents.{
  Severity, Source, Incident, Store, Transition, IncidentInput, insert_incident,
  create_admin_incident, apply_transition, transition_known, transition_admin_incident, insert_note,
  add_incident_note,
}
use xpace.Incidents.Edit.{
  EditInput, commit_edit, write_assignee, edit_assignee, edit_severity, edit_incident,
  update_admin_incident,
}

module _ (down : Faults) (s : Store) (now : ℕ) (actor : CurrentUser) where
  insert-Unchanged :
      (id : ℕ) (title description : String) (severity : Option Severity) (source : Option Source)
      → Unchanged s (insert_incident down s now actor id title description severity source)
  unfolding insert_incident
  insert-Unchanged id title description (some severity) (some source) = search unchanged_rules
  insert-Unchanged id title description _ _ = search unchanged_rules

  create-Unchanged :
      (id : ℕ) (input : Option IncidentInput)
      → Unchanged s (create_admin_incident down s now actor id input)
  unfolding create_admin_incident
  create-Unchanged id none = search unchanged_rules
  create-Unchanged id (some input) = search (unchanged_rules, insert-Unchanged)

  apply-Unchanged :
      (action : String) (id : ℕ) (t : Transition) (found : Option Incident)
      → Unchanged s (apply_transition down s now actor action id t found)
  unfolding apply_transition
  apply-Unchanged action id t none = search unchanged_rules
  apply-Unchanged action id t (some i) = search unchanged_rules

  known-Unchanged :
      (action : String) (id : ℕ) (t : Option Transition)
      → Unchanged s (transition_known down s now actor action id t)
  unfolding transition_known
  known-Unchanged action id none = search unchanged_rules
  known-Unchanged action id (some t) = search (unchanged_rules, apply-Unchanged)

  transition-Unchanged :
      (action : String) (id : ℕ)
      → Unchanged s (transition_admin_incident down s now actor action id)
  unfolding transition_admin_incident
  transition-Unchanged action id = search (unchanged_rules, known-Unchanged)

  note-Unchanged : (id : ℕ) (text : String) → Unchanged s (insert_note down s now actor id text)
  unfolding insert_note
  note-Unchanged id text = search unchanged_rules

  add_note-Unchanged :
      (id : ℕ) (body : Option String) → Unchanged s (add_incident_note down s now actor id body)
  unfolding add_incident_note
  add_note-Unchanged id none = search unchanged_rules
  add_note-Unchanged id (some text) = search (unchanged_rules, note-Unchanged)

module _ (down : Faults) (s : Store) (now : ℕ) (actor : CurrentUser) where
  commit-Unchanged : (t : Store) (id : ℕ) → Unchanged s (commit_edit down s t actor id)
  unfolding commit_edit
  commit-Unchanged t id = search unchanged_rules

  write-Unchanged :
      (t : Store) (id : ℕ) (assignee : Option ℕ)
      → Unchanged s (write_assignee down s t now actor id assignee)
  unfolding write_assignee
  write-Unchanged t id assignee = search (unchanged_rules, commit-Unchanged)

  assign-Unchanged :
      (t : Store) (id : ℕ) (given : Bool) (assignee : Option (Option ℕ))
      → Unchanged s (edit_assignee down s t now actor id given assignee)
  unfolding edit_assignee
  assign-Unchanged t id given none = search (unchanged_rules, commit-Unchanged)
  assign-Unchanged t id given (some none) = write-Unchanged t id none
  assign-Unchanged t id given (some (some u)) = search (unchanged_rules, write-Unchanged)

  severity-Unchanged :
      (id : ℕ) (severity : Option Severity) (assignee : Option (Option ℕ))
      → Unchanged s (edit_severity down s now actor id severity assignee)
  unfolding edit_severity
  severity-Unchanged id none assignee = search unchanged_rules
  severity-Unchanged id (some p) assignee = search (unchanged_rules, assign-Unchanged)

  edit_incident-Unchanged :
      (id : ℕ) (severity : Option String) (assignee : Option (Option ℕ))
      → Unchanged s (edit_incident down s now actor id severity assignee)
  unfolding edit_incident
  edit_incident-Unchanged id none assignee = assign-Unchanged s id false assignee
  edit_incident-Unchanged id (some p) assignee = severity-Unchanged id _ assignee

  update-Unchanged :
      (id : ℕ) (input : Option EditInput)
      → Unchanged s (update_admin_incident down s now actor id input)
  unfolding update_admin_incident
  update-Unchanged id none = search unchanged_rules
  update-Unchanged id (some input) = search (unchanged_rules, edit_incident-Unchanged)

-- A request on the incidents of the caller's workspace.
pub data Request : Type 0 where
  create : (new_id : ℕ) → Option IncidentInput → Request
  transition : (action : String) → (id : ℕ) → Request
  annotate : (id : ℕ) → Option String → Request
  edit : (id : ℕ) → Option EditInput → Request

unfoldable pub handle : Faults → Store → ℕ → CurrentUser → Request → Response × Store
handle down s now actor (create new_id input) = create_admin_incident down s now actor new_id input
handle down s now actor (transition action id) =
    transition_admin_incident down s now actor action id
handle down s now actor (annotate id body) = add_incident_note down s now actor id body
handle down s now actor (edit id input) = update_admin_incident down s now actor id input

-- An incident handler that answers by an error, whether it creates, moves, annotates or edits an
-- incident, has changed no table.
pub incident_refused :
    (down : Faults) (s : Store) (now : ℕ) (actor : CurrentUser) (r : Request)
    → IsError (handle down s now actor r).0
    → (handle down s now actor r).1 ≡ s
unfolding handle
incident_refused down s now actor (create id input) h =
    (create-Unchanged down s now actor id input).on_error h
incident_refused down s now actor (transition action id) h =
    (transition-Unchanged down s now actor action id).on_error h
incident_refused down s now actor (annotate id body) h =
    (add_note-Unchanged down s now actor id body).on_error h
incident_refused down s now actor (edit id input) h =
    (update-Unchanged down s now actor id input).on_error h
