-- ===== src/Incidents/Counts.antt =====
-- services/api/internal/httpapi/incidents.go, alertmanager_webhook.go and
-- incident_escalation_worker.go: the events of escalation, counted against the incident's level.
mod Workflow
mod Edits
pub mod Worker
use mathlib.Core.Bool.{false≢true}
use xpace.Prelude.{
  ℕ, ◌+◌, ◌≡◌, ◌∙◌, refl, sym, ap, String, Bool, true, false, not, ◌&&◌, ◌||◌, Option, none, some,
  List, [], ◌∷◌, ◌++◌, arith, nat_eq, ◌==◌, first, exists, update_where, count_where, if◌then◌else◌,
  AtMostOne, first-append, first-update_row, first-update_other, first-by_key, first-holds,
  Bool-cases, Option-cases, nat_beq_iff, inl, inr, to_lower,
}
use xpace.Http.{Keeps, Keeps-if, Keeps-leaf, error_json, keeps_rules, Faults, CurrentUser}
use xpace.Rbac.{has_permission}
use xpace.Incidents.{
  EventType, Severity, Status, Source, Incident, Event, Store, IncidentInput, Transition,
  is_incident, find_incident, incident_event, set_status, insert_incident, create_admin_incident,
  apply_transition, incident_transition, transition_known, transition_admin_incident, insert_note,
  add_incident_note, new_incident,
}
use xpace.Incidents.Edit.{
  EditInput, set_severity, set_assignee, write_edit, is_assignable, commit_edit, write_assignee,
  edit_assignee, edit_severity, edit_incident, update_admin_incident,
}
use xpace.Incidents.Rows.{
  Operation, create, transition, annotate, edit, ingest, escalation, HasUniqueIds, perform,
}
use xpace.Incidents.Branches.{
  Action, acknowledge, investigate, resolve, close, reopen, entry, set_status-key,
  entry_of_transition,
}
use xpace.Incidents.Alerts.{
  AlertStatus, alert_event, Reading, next_status, set_alert, alert_incident, upserted, upserted_id,
  upsert_alert_incident, is_alert_incident,
}
use xpace.Incidents.Escalation.{still_waits, escalate, escalate_incident}

abbrev pub is_escalated : EventType → Bool
is_escalated EventType.escalated = true
is_escalated _ = false

abbrev pub is_escalation : (tenant id : ℕ) → Event → Bool
is_escalation tenant id e =
    e.tenant_id == tenant && e.incident_id == id && is_escalated e.event_type

abbrev pub level : Option Incident → ℕ
level none = 0
level (some i) = i.escalation_level

-- The log holds as many escalations of an incident as its level says.
pub record IsCounted (s : Store) : Type 0 where
  pub counts :
      (tenant id : ℕ)
      → count_where (is_escalation tenant id) s.incident_events ≡ level (find_incident s tenant id)

pub count-append :
    {A : Type 0} (p : A → Bool) (xs : List A) (x : A)
    → count_where p (xs ++ x ∷ []) ≡ count_where p xs + (if p x then 1 else 0)
unfolding count_where
count-append p [] x = ground arith
count-append p (y ∷ xs) x = ground (arith, count-append p xs x)

pub count-quiet :
    (tenant id : ℕ) (xs : List Event) (e : Event)
    → is_escalated e.event_type ≡ false
    → count_where (is_escalation tenant id) (xs ++ e ∷ [])
      ≡ count_where (is_escalation tenant id) xs
count-quiet tenant id xs e h = ground (arith, h, count-append (is_escalation tenant id) xs e)

level-update :
    (p q : Incident → Bool) (f : Incident → Incident) (xs : List Incident)
    → ((i : Incident) → q (f i) ≡ q i)
    → ((i : Incident) → (f i).escalation_level ≡ i.escalation_level)
    → level (first q (update_where p f xs)) ≡ level (first q xs)
unfolding first update_where
level-update p q f [] k h = refl
level-update p q f (i ∷ xs) k h = ground (arith, k i, h i, level-update p q f xs k h)

level-append :
    (q : Incident → Bool) (xs : List Incident) (i : Incident)
    → i.escalation_level ≡ 0
    → level (first q (xs ++ i ∷ [])) ≡ level (first q xs)
level-append q xs i h = elim (Option-cases (first q xs)) [
  | inl e ↦
      rw (first-append q xs i, e) (elim (Bool-cases (q i)) [ inl f ↦ rw f h | inr f ↦ rw f refl ])
  | inr (x, e) ↦ rw (first-append q xs i, e) refl
]

pub IsCounted-rows :
    {s : Store}
    → ((tenant id : ℕ)
        → count_where (is_escalation tenant id) s.incident_events
          ≡ level (first (is_incident tenant id) s.incidents))
    → IsCounted s
IsCounted-rows h = record { counts = h }

module _ (s : Store) (c : IsCounted s) where
  -- A store in which one row is changed below its level, with an event of another kind.
  pub quiet :
      (p : Incident → Bool) (f : Incident → Incident) (e : Event)
      → ((t k : ℕ) (i : Incident) → is_incident t k (f i) ≡ is_incident t k i)
      → ((i : Incident) → (f i).escalation_level ≡ i.escalation_level)
      → is_escalated e.event_type ≡ false
      → (t k : ℕ)
      → count_where (is_escalation t k) (s.incident_events ++ e ∷ [])
        ≡ level (first (is_incident t k) (update_where p f s.incidents))
  quiet p f e key same kind t k =
      count-quiet t k s.incident_events e kind
      ∙ c.counts t k
      ∙ sym (level-update p (is_incident t k) f s.incidents (key t k) same)

  pub added :
      (i : Incident) (e : Event)
      → i.escalation_level ≡ 0
      → is_escalated e.event_type ≡ false
      → (t k : ℕ)
      → count_where (is_escalation t k) (s.incident_events ++ e ∷ [])
        ≡ level (first (is_incident t k) (s.incidents ++ i ∷ []))
  added i e low kind t k =
      count-quiet t k s.incident_events e kind
      ∙ c.counts t k
      ∙ sym (level-append (is_incident t k) s.incidents i low)

pub set_status-level :
    (now by : ℕ) (to : Status) (i : Incident)
    → (set_status now by to i).escalation_level ≡ i.escalation_level
unfolding set_status
set_status-level now by Status.open_ i = refl
set_status-level now by _ i = refl

pub found_of_exists :
    {A : Type 0} (p : A → Bool) (xs : List A) → exists p xs ≡ true → (x : A) × (first p xs ≡ some x)
unfolding exists first
found_of_exists p [] h = absurd (false≢true h)
found_of_exists p (x ∷ xs) h = elim (Bool-cases (p x)) [
  | inl e ↦ (x, rw e refl)
  | inr e ↦ let (y, f) = found_of_exists p xs (rw e at h) in (y, rw e f)
]

pub entry-quiet : (a : Action) → is_escalated (entry a).event_type ≡ false
entry-quiet acknowledge = refl
entry-quiet investigate = refl
entry-quiet resolve = refl
entry-quiet close = refl
entry-quiet reopen = refl

pub alert-quiet : (status : AlertStatus) → is_escalated (alert_event status) ≡ false
alert-quiet AlertStatus.firing = refl
alert-quiet AlertStatus.resolved = refl
