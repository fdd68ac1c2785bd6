-- ===== src/Incidents/Sla.antt =====
-- services/api/internal/httpapi/incident_escalation_worker.go and incidents.go: what the escalation worker
-- does for an incident, and what it leaves out.
use xpace.Prelude.{
  ℕ, ◌≡◌, ◌∙◌, refl, sym, String, true, false, some, List, [], ◌∷◌, arith, nat_eq, exists,
  update_where, inl, inr,
}
use xpace.Http.{Faults, CurrentUser}
use xpace.Incidents.{Incident, Store, find_incident, transition_admin_incident}
use xpace.Incidents.Branches.{
  Action, acknowledge, investigate, resolve, close, reopen, Effect, acknowledges, investigates,
  resolves, closes, reopens, transition_sound, accepted_or_unchanged,
}
use xpace.Incidents.Escalation.{is_none, is_due, still_waits, escalate, escalate_incident}

module _ (tenant id now : ℕ) where
  exists-escalated :
      (xs : List Incident)
      → exists (still_waits tenant id) (update_where (still_waits tenant id) (escalate now) xs)
        ≡ false
  unfolding exists update_where
  exists-escalated [] = refl
  exists-escalated (i ∷ xs) = ground (arith, exists-escalated xs)

Effect-acknowledged :
    (now by : ℕ) (i j : Incident) (a : Action)
    → Effect now by i a j
    → is_none i.acknowledged_at ≡ false
    → is_none j.acknowledged_at ≡ false
Effect-acknowledged now by i j acknowledge acknowledges h = refl
Effect-acknowledged now by i j investigate investigates h = h
Effect-acknowledged now by i j resolve resolves h = h
Effect-acknowledged now by i j close closes h = h
Effect-acknowledged now by i j reopen reopens h = h

never_due : (later : ℕ) (i : Incident) → is_none i.acknowledged_at ≡ false → is_due later i ≡ false
never_due later i h = ground (arith, h)

-- Once an incident was escalated, escalating it again, at any time and whichever statements fail,
-- changes nothing: one event, and one notice for each administrator.
pub escalate_once :
    (down again : Faults) (s : Store) (now later tenant id : ℕ)
    → (escalate_incident down s now tenant id).0 ≡ some true
    → let s' = (escalate_incident down s now tenant id).1 in
      (escalate_incident again s' later tenant id).1 ≡ s'
unfolding escalate_incident
escalate_once down again s now later tenant id h =
    ground (arith, exists-escalated tenant id now s.incidents)

-- An incident that was acknowledged once is never due again, not even after it was resolved and
-- reopened: whatever action a caller takes on it, its row keeps an acknowledgement time, and the
-- worker's WHERE clause leaves it out at every later time.
pub acknowledged_never_due :
    (down : Faults) (s : Store) (now later : ℕ) (actor : CurrentUser) (action : String) (id : ℕ)
    (i : Incident)
    → find_incident s actor.tenant_id id ≡ some i
    → is_none i.acknowledged_at ≡ false
    → (j : Incident) × (find_incident
          (transition_admin_incident down s now actor action id).1
          actor.tenant_id
          id
        ≡ some j)
      × (is_none j.acknowledged_at ≡ false)
      × (is_due later j ≡ false)
acknowledged_never_due down s now later actor action id i f h =
    elim (accepted_or_unchanged down s now actor action id) [
      | inr same ↦ (i, rw same f, h, never_due later i h)
      | inl ok ↦
          let (a, k, j, n, g, r, m, effect) = transition_sound down s now actor action id ok in
          let row : some k ≡ some i = sym g ∙ f in
          let same : k ≡ i = cc in
          let kept = Effect-acknowledged now actor.id k j a effect (rw same h) in
          (j, r, kept, never_due later j kept)
    ]
