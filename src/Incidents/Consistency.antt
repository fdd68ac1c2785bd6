-- ===== src/Incidents/Consistency.antt =====
-- services/api/internal/httpapi/incidents.go, alertmanager_webhook.go and
-- incident_escalation_worker.go: the invariant of the incidents and their events.
use xpace.Prelude.{
  ℕ, ◌≤◌, List, [], ◌∷◌, Bool, Bool-cases, inl, inr, arith, count_where, All, first,
}
use xpace.Http.{Faults}
use xpace.Incidents.{Incident, Store, is_incident}
use xpace.Incidents.Rows.{
  HasValidRows, IsConsistent, Operation, IsFresh, perform, perform-HasValidRows,
}
use xpace.Incidents.Counts.{is_escalation, level, IsCounted}
use xpace.Incidents.Counts.Worker.{perform-IsCounted}

-- The rows are valid, and the log of events holds an escalation of an incident at most once.
pub record IsValid (s : Store) : Type 0 where
  pub rows : HasValidRows s
  pub counted : IsCounted s
  pub escalated_once : (tenant id : ℕ) → count_where (is_escalation tenant id) s.incident_events ≤ 1

level_bound :
    (xs : List Incident) (p : Incident → Bool) → All IsConsistent xs → level (first p xs) ≤ 1
unfolding first
level_bound [] p h = omega arith
level_bound (i ∷ xs) p h = elim (Bool-cases (p i)) [
  | inl e ↦ rw e h.0.level
  | inr e ↦ rw e (level_bound xs p h.1)
]

-- The bound on the escalations follows from the bound on the level.
pub valid : (s : Store) → HasValidRows s → IsCounted s → IsValid s
valid s rows counted = record {
  rows = rows;
  counted = counted;
  escalated_once = λ tenant id.
      rw (counted.counts tenant id) (level_bound s.incidents (is_incident tenant id) rows.rows);
}

-- The states that a store goes through, with any operations in any order at any times.
pub data Reach (s : Store) : Store → Type 0 where
  here : Reach s s
  next :
      {t : Store}
      → Reach s t
      → (down : Faults) (now : ℕ) (op : Operation) → IsFresh t op
      → Reach s (perform down now t op)

-- In every state that is reached from a valid one by the operations on incidents, those of callers,
-- alerts and the escalation worker, identifiers are unique, an incident has a resolution time exactly
-- when it is resolved or closed, an acknowledged one has an acknowledgement time, an escalated one has
-- the time of it, and no incident has more than one event of escalation.
pub Reach-IsValid : {s t : Store} → IsValid s → Reach s t → IsValid t
Reach-IsValid v here = v
Reach-IsValid v (next {t = t} r down now op fresh) =
    let w = Reach-IsValid v r in
    valid (perform down now t op) (perform-HasValidRows down now t op w.rows fresh)
      (perform-IsCounted down now t op w.rows.unique w.counted)
