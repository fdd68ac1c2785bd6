-- ===== src/Incidents/Counts/Workflow.antt =====
-- services/api/internal/httpapi/incidents.go: creating, moving and annotating an incident add no
-- event of escalation.
use xpace.Prelude.{
  ℕ, ◌≡◌, ◌∙◌, refl, String, false, not, Option, none, some, nat_eq, Bool-cases, inl, inr, to_lower,
}
use xpace.Http.{Keeps, Keeps-if, Keeps-leaf, error_json, keeps_rules, Faults, CurrentUser}
use xpace.Rbac.{has_permission}
use xpace.Incidents.{
  EventType, Severity, Source, Incident, Store, IncidentInput, Transition, is_incident,
  find_incident, incident_event, set_status, insert_incident, create_admin_incident,
  apply_transition, incident_transition, transition_known, transition_admin_incident, insert_note,
  add_incident_note, new_incident,
}
use xpace.Incidents.Branches.{set_status-key, entry_of_transition}
use xpace.Incidents.Counts.{
  is_escalated, IsCounted, count-quiet, IsCounted-rows, quiet, added, set_status-level, entry-quiet,
}

module _ (down : Faults) (now : ℕ) (s : Store) (c : IsCounted s) where
  insert-IsCounted :
      (actor : CurrentUser) (id : ℕ) (title description : String) (severity : Option Severity)
      (source : Option Source)
      → Keeps IsCounted (insert_incident down s now actor id title description severity source)
  unfolding insert_incident
  insert-IsCounted actor id title description (some severity) (some source) = search (
    keeps_rules,
    c,
    IsCounted-rows (
        added s c (new_incident now actor id title description severity source)
          (incident_event actor id EventType.created description) refl refl),
  )
  insert-IsCounted actor id title description _ _ = search (keeps_rules, c)

  pub create-IsCounted :
      (actor : CurrentUser) (id : ℕ) (input : Option IncidentInput)
      → Keeps IsCounted (create_admin_incident down s now actor id input)
  unfolding create_admin_incident
  create-IsCounted actor id none = search (keeps_rules, c)
  create-IsCounted actor id (some input) = search (keeps_rules, c, insert-IsCounted)

  apply-IsCounted :
      (actor : CurrentUser) (action : String) (id : ℕ) (t : Transition) (found : Option Incident)
      → is_escalated t.event_type ≡ false
      → Keeps IsCounted (apply_transition down s now actor action id t found)
  unfolding apply_transition
  apply-IsCounted actor action id t none h = search (keeps_rules, c)
  apply-IsCounted actor action id t (some i) h = search (
    keeps_rules,
    c,
    IsCounted-rows (
        quiet s c (is_incident actor.tenant_id id) (set_status now actor.id t.target)
          (incident_event actor id t.event_type "")
          (λ k j x. set_status-key k j now actor.id t.target x)
          (set_status-level now actor.id t.target) h),
  )

  known-IsCounted :
      (actor : CurrentUser) (action : String) (id : ℕ) (t : Option Transition)
      → incident_transition (to_lower action) ≡ t
      → Keeps IsCounted (transition_known down s now actor (to_lower action) id t)
  unfolding transition_known
  known-IsCounted actor action id none e = search (keeps_rules, c)
  known-IsCounted actor action id (some t) e =
      let (a, n, same) = entry_of_transition (to_lower action) e in
      Keeps-if (down "begin") (Keeps-leaf (error_json 500 "INTERNAL_ERROR") c) (
        Keeps-if (down "select") (Keeps-leaf (error_json 404 "NOT_FOUND") c) (
          apply-IsCounted actor (to_lower action) id t (find_incident s actor.tenant_id id)
            (rw (← same) (entry-quiet a))))

  pub transition-IsCounted :
      (actor : CurrentUser) (action : String) (id : ℕ)
      → Keeps IsCounted (transition_admin_incident down s now actor action id)
  unfolding transition_admin_incident
  transition-IsCounted actor action id =
      Keeps-if (not (has_permission down s.rbac actor "incident.manage"))
        (Keeps-leaf (error_json 403 "PERMISSION_REQUIRED") c)
        (known-IsCounted actor action id (incident_transition (to_lower action)) refl)

  note-IsCounted :
      (actor : CurrentUser) (id : ℕ) (text : String)
      → Keeps IsCounted (insert_note down s now actor id text)
  unfolding insert_note
  note-IsCounted actor id text = elim (Bool-cases (down "touch")) [
    | inl e ↦ rw e (
        search (
          keeps_rules,
          c,
          IsCounted-rows (λ t k.
              count-quiet t k s.incident_events (incident_event actor id EventType.note text) refl
              ∙ c.counts t k),
        ))
    | inr e ↦ rw e (
        search (
          keeps_rules,
          c,
          IsCounted-rows (
              quiet s c (is_incident actor.tenant_id id) (λ i. record i { updated_at = now })
                (incident_event actor id EventType.note text) (λ t k i. refl) (λ i. refl) refl),
        ))
  ]

  pub annotate-IsCounted :
      (actor : CurrentUser) (id : ℕ) (body : Option String)
      → Keeps IsCounted (add_incident_note down s now actor id body)
  unfolding add_incident_note
  annotate-IsCounted actor id none = search (keeps_rules, c)
  annotate-IsCounted actor id (some text) = search (keeps_rules, c, note-IsCounted)
