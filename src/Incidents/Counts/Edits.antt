-- ===== src/Incidents/Counts/Edits.antt =====
-- services/api/internal/httpapi/incidents.go: editing an incident adds no event of escalation.
use xpace.Prelude.{
  ℕ, refl, String, Bool, true, false, not, ◌||◌, Option, none, some, nat_eq, exists,
}
use xpace.Http.{Keeps, Keeps-if, Keeps-leaf, error_json, keeps_rules, Faults, CurrentUser}
use xpace.Incidents.{EventType, Severity, Store, is_incident, incident_event}
use xpace.Incidents.Edit.{
  EditInput, set_severity, set_assignee, write_edit, is_assignable, commit_edit, write_assignee,
  edit_assignee, edit_severity, edit_incident, update_admin_incident,
}
use xpace.Incidents.Counts.{IsCounted, IsCounted-rows, quiet}

module _ (down : Faults) (now : ℕ) (s : Store) (c : IsCounted s) where
  commit-IsCounted :
      (t : Store) (actor : CurrentUser) (id : ℕ)
      → IsCounted t
      → Keeps IsCounted (commit_edit down s t actor id)
  unfolding commit_edit
  commit-IsCounted t actor id w = search (keeps_rules, c, IsCounted-rows w.counts)

  assigned :
      (t : Store) (actor : CurrentUser) (id : ℕ) (assignee : Option ℕ)
      → IsCounted t
      → Keeps IsCounted (
          commit_edit down s
            (write_edit actor id (set_assignee now assignee) EventType.assigned t)
            actor
            id)
  assigned t actor id assignee w =
      commit-IsCounted (write_edit actor id (set_assignee now assignee) EventType.assigned t) actor
        id
        (IsCounted-rows (
          quiet t w (is_incident actor.tenant_id id) (set_assignee now assignee)
            (incident_event actor id EventType.assigned "") (λ t k i. refl) (λ i. refl) refl))

  assign-IsCounted :
      (t : Store) (actor : CurrentUser) (id : ℕ) (given : Bool) (assignee : Option (Option ℕ))
      → IsCounted t
      → Keeps IsCounted (edit_assignee down s t now actor id given assignee)
  unfolding edit_assignee write_assignee
  assign-IsCounted t actor id given none w =
      Keeps-if given (commit-IsCounted t actor id w)
        (Keeps-leaf (error_json 400 "INVALID_INCIDENT") c)
  assign-IsCounted t actor id given (some none) w =
      Keeps-if
        (down "update assignee"
          || down "insert assigned event"
          || not (exists (is_incident actor.tenant_id id) t.incidents))
        (Keeps-leaf (error_json 500 "INTERNAL_ERROR") c) (assigned t actor id none w)
  assign-IsCounted t actor id given (some (some u)) w =
      Keeps-if (down "select assignee" || not (exists (is_assignable actor u) t.rbac.users))
        (Keeps-leaf (error_json 400 "INVALID_ASSIGNEE") c)
        (Keeps-if
          (down "update assignee"
            || down "insert assigned event"
            || not (exists (is_incident actor.tenant_id id) t.incidents))
          (Keeps-leaf (error_json 500 "INTERNAL_ERROR") c) (assigned t actor id (some u) w))

  severity-IsCounted :
      (actor : CurrentUser) (id : ℕ) (severity : Option Severity) (assignee : Option (Option ℕ))
      → Keeps IsCounted (edit_severity down s now actor id severity assignee)
  unfolding edit_severity
  severity-IsCounted actor id none assignee = search (keeps_rules, c)
  severity-IsCounted actor id (some p) assignee =
      let set = write_edit actor id (set_severity now p) EventType.severity_changed s in
      let done = assign-IsCounted set actor id true assignee (
        IsCounted-rows (
          quiet s c (is_incident actor.tenant_id id) (set_severity now p)
            (incident_event actor id EventType.severity_changed "") (λ t k i. refl) (λ i. refl)
            refl)) in
      Keeps-if (down "update severity" || not (exists (is_incident actor.tenant_id id) s.incidents))
        (Keeps-leaf (error_json 404 "NOT_FOUND") c)
        (Keeps-if (down "insert severity event") (Keeps-leaf (error_json 500 "INTERNAL_ERROR") c)
          done)

  edit_incident-IsCounted :
      (actor : CurrentUser) (id : ℕ) (severity : Option String) (assignee : Option (Option ℕ))
      → Keeps IsCounted (edit_incident down s now actor id severity assignee)
  unfolding edit_incident
  edit_incident-IsCounted actor id none assignee = assign-IsCounted s actor id false assignee c
  edit_incident-IsCounted actor id (some p) assignee = severity-IsCounted actor id _ assignee

  pub edit-IsCounted :
      (actor : CurrentUser) (id : ℕ) (input : Option EditInput)
      → Keeps IsCounted (update_admin_incident down s now actor id input)
  unfolding update_admin_incident
  edit-IsCounted actor id none = search (keeps_rules, c)
  edit-IsCounted actor id (some input) = search (keeps_rules, c, edit_incident-IsCounted)
