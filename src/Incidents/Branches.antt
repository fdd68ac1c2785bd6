-- ===== src/Incidents/Branches.antt =====
-- services/api/internal/httpapi/incidents.go: the workflow, as edges between statuses, and the
-- transitions that `transitionAdminIncident` accepts.
use xpace.Prelude.{
  ℕ, ◌≡◌, ◌∙◌, refl, String, true, false, none, some, List, arith, eq_iff, ◌==◌, text_eq, first,
  update_where, first-update_self, if_some, to_lower, Option-cases, ◌⊎◌, inl, inr,
}
use xpace.Http.{Response, Faults, CurrentUser}
use xpace.Rbac.{has_permission}
use xpace.Incidents.{
  EventType, from_open, from_unhandled, from_unresolved, from_resolved, from_done, Status, Incident,
  Store, Transition, incident_transition, is_incident, find_incident, set_status, apply_transition,
  transition_known, transition_admin_incident,
}

-- The workflow: which action leads from which status to which.
pub data Action : Type 0 where
  acknowledge investigate resolve close reopen : Action

abbrev pub name : Action → String
name acknowledge = "acknowledge"
name investigate = "investigate"
name resolve = "resolve"
name close = "close"
name reopen = "reopen"

pub data Moves : Action → Status → Status → Type 0 where
  acknowledged : Moves acknowledge Status.open_ Status.acknowledged
  investigated_at_once : Moves investigate Status.open_ Status.investigating
  investigated : Moves investigate Status.acknowledged Status.investigating
  resolved_at_once : Moves resolve Status.open_ Status.resolved
  resolved_acknowledged : Moves resolve Status.acknowledged Status.resolved
  resolved_investigated : Moves resolve Status.investigating Status.resolved
  closed : Moves close Status.resolved Status.closed
  reopened_resolved : Moves reopen Status.resolved Status.open_
  reopened_closed : Moves reopen Status.closed Status.open_

ruleset edges = (
  acknowledged, investigated_at_once, investigated, resolved_at_once, resolved_acknowledged,
  resolved_investigated, closed, reopened_resolved, reopened_closed,
)

-- What the table of transitions holds of each action.
abbrev pub entry : Action → Transition
entry acknowledge = record {
  target = Status.acknowledged;
  event_type = EventType.acknowledged;
  allowed = from_open;
}
entry investigate = record {
  target = Status.investigating;
  event_type = EventType.investigating;
  allowed = from_unhandled;
}
entry resolve = record {
  target = Status.resolved;
  event_type = EventType.resolved;
  allowed = from_unresolved;
}
entry close = record {
  target = Status.closed;
  event_type = EventType.closed;
  allowed = from_resolved;
}
entry reopen = record {
  target = Status.open_;
  event_type = EventType.reopened;
  allowed = from_done;
}

pub edge_of_entry :
    (a : Action) (from : Status) → (entry a).allowed from ≡ true → Moves a from (entry a).target
edge_of_entry acknowledge Status.open_ h = acknowledged
edge_of_entry investigate Status.open_ h = investigated_at_once
edge_of_entry investigate Status.acknowledged h = investigated
edge_of_entry resolve Status.open_ h = resolved_at_once
edge_of_entry resolve Status.acknowledged h = resolved_acknowledged
edge_of_entry resolve Status.investigating h = resolved_investigated
edge_of_entry close Status.resolved h = closed
edge_of_entry reopen Status.resolved h = reopened_resolved
edge_of_entry reopen Status.closed h = reopened_closed
edge_of_entry _ _ h = cc

pub entry_of_transition :
    (action : String) {t : Transition}
    → incident_transition action ≡ some t
    → (a : Action) × (action ≡ name a) × (entry a ≡ t)
unfolding incident_transition
entry_of_transition action e = elim (if_some (action == "acknowledge") (entry acknowledge) _ e) [
  | inl (h, q) ↦ (acknowledge, (eq_iff action "acknowledge").0 h, q)
  | inr e ↦ elim (if_some (action == "investigate") (entry investigate) _ e) [
    | inl (h, q) ↦ (investigate, (eq_iff action "investigate").0 h, q)
    | inr e ↦ elim (if_some (action == "resolve") (entry resolve) _ e) [
      | inl (h, q) ↦ (resolve, (eq_iff action "resolve").0 h, q)
      | inr e ↦ elim (if_some (action == "close") (entry close) _ e) [
        | inl (h, q) ↦ (close, (eq_iff action "close").0 h, q)
        | inr e ↦ elim (if_some (action == "reopen") (entry reopen) none e) [
          | inl (h, q) ↦ (reopen, (eq_iff action "reopen").0 h, q)
          | inr e ↦ cc
        ]
      ]
    ]
  ]
]

transition_of_edge :
    (a : Action) (from to : Status)
    → Moves a from to
    → (t : Transition) × (incident_transition (name a) ≡ some t)
      × (t.allowed from ≡ true)
      × (t.target ≡ to)
unfolding incident_transition
transition_of_edge acknowledge from to acknowledged = (_, refl, refl, refl)
transition_of_edge investigate from to investigated_at_once = (_, refl, refl, refl)
transition_of_edge investigate from to investigated = (_, refl, refl, refl)
transition_of_edge resolve from to resolved_at_once = (_, refl, refl, refl)
transition_of_edge resolve from to resolved_acknowledged = (_, refl, refl, refl)
transition_of_edge resolve from to resolved_investigated = (_, refl, refl, refl)
transition_of_edge close from to closed = (_, refl, refl, refl)
transition_of_edge reopen from to reopened_resolved = (_, refl, refl, refl)
transition_of_edge reopen from to reopened_closed = (_, refl, refl, refl)

-- What an action does to a row, with each field that it sets written out; no other field changes.
pub data Effect (now by : ℕ) (i : Incident) : Action → Incident → Type 0 where
  acknowledges : Effect now by i acknowledge (record i {
    status = Status.acknowledged;
    acknowledged_by = some by;
    acknowledged_at = some now;
    updated_at = now;
  })
  investigates :
      Effect now by i investigate (record i { status = Status.investigating; updated_at = now })
  resolves : Effect now by i resolve (record i {
    status = Status.resolved;
    resolved_by = some by;
    resolved_at = some now;
    updated_at = now;
  })
  closes : Effect now by i close (record i { status = Status.closed; updated_at = now })
  reopens :
      Effect now by i reopen (record i {
        status = Status.open_;
        resolved_by = none;
        resolved_at = none;
        updated_at = now;
      })

Effect-set_status :
    (now by : ℕ) (i : Incident) (a : Action)
    → Effect now by i a (set_status now by (entry a).target i)
unfolding set_status
Effect-set_status now by i acknowledge = acknowledges
Effect-set_status now by i investigate = investigates
Effect-set_status now by i resolve = resolves
Effect-set_status now by i close = closes
Effect-set_status now by i reopen = reopens

-- The end of an edge is the entry's.
target_of_edge : {a : Action} {from to : Status} → Moves a from to → (entry a).target ≡ to
target_of_edge acknowledged = refl
target_of_edge investigated_at_once = refl
target_of_edge investigated = refl
target_of_edge resolved_at_once = refl
target_of_edge resolved_acknowledged = refl
target_of_edge resolved_investigated = refl
target_of_edge closed = refl
target_of_edge reopened_resolved = refl
target_of_edge reopened_closed = refl

pub status_of_Effect :
    (now by : ℕ) (i j : Incident) (a : Action) → Effect now by i a j → j.status ≡ (entry a).target
status_of_Effect now by i j acknowledge acknowledges = refl
status_of_Effect now by i j investigate investigates = refl
status_of_Effect now by i j resolve resolves = refl
status_of_Effect now by i j close closes = refl
status_of_Effect now by i j reopen reopens = refl

pub set_status-key :
    (tenant id now by : ℕ) (target : Status) (i : Incident)
    → is_incident tenant id (set_status now by target i) ≡ is_incident tenant id i
unfolding set_status
set_status-key tenant id now by Status.open_ i = refl
set_status-key tenant id now by _ i = refl

module _ (down : Faults) (s : Store) (now : ℕ) (actor : CurrentUser) (path_action : String)
    (id : ℕ) where
  abbrev pub after : Response × Store
  after = transition_admin_incident down s now actor path_action id

  unfoldable pub moved : Transition → Incident → List Incident
  moved t i =
      update_where (is_incident actor.tenant_id id) (set_status now actor.id t.target) s.incidents

  pub accepted :
      after.0.status ≡ 204
      → (t : Transition) × (i : Incident) × (incident_transition (to_lower path_action) ≡ some t)
        × (find_incident s actor.tenant_id id ≡ some i)
        × (t.allowed i.status ≡ true)
        × (after.1.incidents ≡ moved t i)
  unfolding transition_admin_incident transition_known apply_transition moved
  accepted h = elim (Option-cases (incident_transition (to_lower path_action))) [
    | inl e ↦ absurd (ground (arith, e, h))
    | inr (t, e) ↦ elim (Option-cases (find_incident s actor.tenant_id id)) [
      | inl f ↦ absurd (ground (arith, e, f, h))
      | inr (i, f) ↦ (t, i, e, f, ground (arith, e, f, h), ground (arith, e, f, h))
    ]
  ]

  -- A request that is not accepted leaves the tables as they were.
  pub accepted_or_unchanged : (after.0.status ≡ 204) ⊎ (after.1 ≡ s)
  unfolding transition_admin_incident transition_known apply_transition
  accepted_or_unchanged = elim (Option-cases (incident_transition (to_lower path_action))) [
    | inl e ↦ inr (ground (arith, e))
    | inr (t, e) ↦ elim (Option-cases (find_incident s actor.tenant_id id)) [
      | inl f ↦ inr (ground (arith, e, f))
      | inr (i, f) ↦ ground (arith, e, f)
    ]
  ]

  pub found_moved :
      (t : Transition) (i : Incident)
      → find_incident s actor.tenant_id id ≡ some i
      → first (is_incident actor.tenant_id id) (moved t i)
        ≡ some (set_status now actor.id t.target i)
  unfolding moved
  found_moved t i e =
      rw
        (first-update_self (is_incident actor.tenant_id id) (set_status now actor.id t.target)
          s.incidents (λ x k. set_status-key actor.tenant_id id now actor.id t.target x ∙ k))
        (rw e)

  -- An accepted transition went along an edge of the workflow: the incident stood at its start, and
  -- stands at its end, with the fields set that the action sets, as written out, and no other changed.
  pub transition_sound :
      after.0.status ≡ 204
      → (a : Action) × (i : Incident) × (j : Incident) × (to_lower path_action ≡ name a)
        × (find_incident s actor.tenant_id id ≡ some i)
        × (find_incident after.1 actor.tenant_id id ≡ some j)
        × Moves a i.status j.status
        × Effect now actor.id i a j
  transition_sound h =
      let (t, i, e, f, ok, rows) = accepted h in
      let (a, n, same) = entry_of_transition (to_lower path_action) e in
      let effect = Effect-set_status now actor.id i a in
      let ends = status_of_Effect now actor.id i _ a effect in
      (
        a,
        i,
        set_status now actor.id (entry a).target i,
        n,
        f,
        rw rows (rw same (found_moved t i f)),
        rw ends (edge_of_entry a i.status (rw same ok)),
        effect,
      )

  -- A caller with the permission can take an incident along every edge of the workflow, if no
  -- statement fails: it stands at the end of the edge, with the fields set that the action sets.
  pub transition_complete :
      (a : Action) (i : Incident) (to : Status)
      → ((call : String) → down call ≡ false)
      → has_permission down s.rbac actor "incident.manage" ≡ true
      → to_lower path_action ≡ name a
      → find_incident s actor.tenant_id id ≡ some i
      → Moves a i.status to
      → (after.0.status ≡ 204)
        × ((j : Incident) × (find_incident after.1 actor.tenant_id id ≡ some j)
            × (j.status ≡ to)
            × Effect now actor.id i a j)
  unfolding transition_admin_incident transition_known apply_transition
  transition_complete a i to up may n f edge =
      let (t, e, ok, there) = transition_of_edge a i.status to edge in
      let effect = Effect-set_status now actor.id i a in
      let ends = status_of_Effect now actor.id i _ a effect ∙ target_of_edge edge in
      rw (n, may, e, f, ok, up "begin", up "select", up "update", up "insert event", up "commit")
        (
          refl,
          (
            set_status now actor.id (entry a).target i,
            rw (target_of_edge edge) (rw (← there) (unfold moved in found_moved t i f)),
            ends,
            effect,
          ),
        )
