-- ===== src/Incidents/Counts/Worker.antt =====
-- services/api/internal/httpapi/alertmanager_webhook.go and incident_escalation_worker.go: an alert adds
-- no event of escalation, and the worker one where it raises the level.
use xpace.Prelude.{
  ℕ, ◌≡◌, ◌∙◌, refl, ap, true, false, ◌&&◌, Option, none, some, [], ◌∷◌, ◌++◌, arith, nat_eq, ◌==◌,
  first, exists, update_where, count_where, AtMostOne, first-update_row, first-update_other,
  first-by_key, first-holds, Bool-cases, nat_beq_iff, inl, inr,
}
use xpace.Http.{Keeps, keeps_rules, Faults}
use xpace.Incidents.{EventType, Incident, Event, Store, is_incident}
use xpace.Incidents.Rows.{
  Operation, create, transition, annotate, edit, ingest, escalation, HasUniqueIds, perform,
}
use xpace.Incidents.Alerts.{
  AlertStatus, alert_event, Reading, next_status, set_alert, alert_incident, upserted, upserted_id,
  upsert_alert_incident, is_alert_incident,
}
use xpace.Incidents.Escalation.{still_waits, escalate, escalate_incident}
use xpace.Incidents.Counts.{
  is_escalated, is_escalation, level, IsCounted, count-append, IsCounted-rows, quiet, added,
  alert-quiet, found_of_exists,
}
use xpace.Incidents.Counts.Workflow.{create-IsCounted, transition-IsCounted, annotate-IsCounted}
use xpace.Incidents.Counts.Edits.{edit-IsCounted}

module _ (down : Faults) (now : ℕ) (s : Store) (c : IsCounted s) where
  ingested :
      (tenant id : ℕ) (status : AlertStatus) (r : Reading) (found : Option Incident) (e : Event)
      → is_escalated e.event_type ≡ false
      → (t k : ℕ)
      → count_where (is_escalation t k) (s.incident_events ++ e ∷ [])
        ≡ level (first (is_incident t k) (upserted now tenant id status r s.incidents found))
  unfolding upserted set_alert
  ingested tenant id status r none e h = added s c (alert_incident now tenant id status r) e refl h
  ingested tenant id status r (some i) e h =
      quiet s c (is_incident tenant i.id) (set_alert now r (next_status status i.status)) e
        (λ t k i. refl) (λ i. refl) h

  alert-IsCounted :
      (tenant id : ℕ) (status : AlertStatus) (r : Reading)
      → Keeps IsCounted (upsert_alert_incident down s now tenant id status r)
  unfolding upsert_alert_incident
  alert-IsCounted tenant id status r =
      let found = first (is_alert_incident tenant r.fingerprint) s.incidents in
      search (
        keeps_rules,
        c,
        IsCounted-rows (
            ingested tenant id status r found
              (record {
                tenant_id = tenant;
                incident_id = upserted_id id found;
                actor_user_id = none;
                event_type = alert_event status;
                text = r.description;
              })
              (alert-quiet status)),
      )

  -- The one escalation: of an incident at level 0, which is at level 1 afterwards.
  module _ (tenant id : ℕ) (one : AtMostOne (is_incident tenant id) s.incidents)
      (there : exists (still_waits tenant id) s.incidents ≡ true) where
    module _ (e : Event) (et : e.tenant_id ≡ tenant) (ei : e.incident_id ≡ id)
        (kind : e.event_type ≡ EventType.escalated) where
      escalated_own :
          count_where (is_escalation tenant id) (s.incident_events ++ e ∷ [])
          ≡ level (
              first
                (is_incident tenant id)
                (update_where (still_waits tenant id) (escalate now) s.incidents))
      escalated_own =
          let due = still_waits tenant id in
          let mine = is_incident tenant id in
          let (x, found) = found_of_exists due s.incidents there in
          let waiting : due x ≡ true = first-holds due s.incidents found in
          let here = first-by_key mine due s.incidents x one found (ground (arith, waiting)) in
          let low : x.escalation_level ≡ 0 = ground (arith, waiting) in
          let none_yet : count_where (is_escalation tenant id) s.incident_events ≡ 0 =
            c.counts tenant id ∙ ap level here ∙ low in
          let counts_it : is_escalation tenant id e ≡ true = rw (et, ei, kind) (ground arith) in
          count-append (is_escalation tenant id) s.incident_events e
          ∙ rw
              (
                none_yet,
                counts_it,
                first-update_row due mine (escalate now) s.incidents x (λ _. refl) here,
                waiting,
              )
              refl

      escalated :
          (t k : ℕ)
          → count_where (is_escalation t k) (s.incident_events ++ e ∷ [])
            ≡ level (
                first
                  (is_incident t k)
                  (update_where (still_waits tenant id) (escalate now) s.incidents))
      escalated t k = elim (Bool-cases (tenant == t && id == k)) [
        | inl f ↦
            let st : tenant ≡ t = (nat_beq_iff tenant t).0 (ground (arith, f)) in
            let sk : id ≡ k = (nat_beq_iff id k).0 (ground (arith, f)) in
            rw (← st, ← sk) escalated_own
        | inr f ↦
            let not_it : is_escalation t k e ≡ false = rw (et, ei) (ground (arith, f)) in
            rw
              (
                count-append (is_escalation t k) s.incident_events e,
                not_it,
                c.counts t k,
                first-update_other (still_waits tenant id) (is_incident t k) (escalate now)
                    s.incidents (λ y h. (ground (arith, f, h), ground (arith, f, h))),
              )
              (ground arith)
      ]

  escalation-IsCounted :
      (tenant id : ℕ)
      → AtMostOne (is_incident tenant id) s.incidents
      → Keeps IsCounted (escalate_incident down s now tenant id)
  unfolding escalate_incident
  escalation-IsCounted tenant id one =
      elim (Bool-cases (exists (still_waits tenant id) s.incidents)) [
        | inr e ↦ rw e (search (keeps_rules, c))
        | inl e ↦
            let event : Event = record {
              tenant_id = tenant;
              incident_id = id;
              actor_user_id = none;
              event_type = EventType.escalated;
              text = "Acknowledgement SLA exceeded; workspace administrators notified.";
            } in
            rw e (
              search
                (keeps_rules, c, IsCounted-rows (escalated tenant id one e event refl refl refl)))
      ]

-- Every operation on the incidents keeps the count, where identifiers are unique.
pub perform-IsCounted :
    (down : Faults) (now : ℕ) (s : Store) (op : Operation)
    → HasUniqueIds s.incidents
    → IsCounted s
    → IsCounted (perform down now s op)
unfolding perform
perform-IsCounted down now s (create actor id input) u c =
    (create-IsCounted down now s c actor id input).kept
perform-IsCounted down now s (transition actor action id) u c =
    (transition-IsCounted down now s c actor action id).kept
perform-IsCounted down now s (annotate actor id body) u c =
    (annotate-IsCounted down now s c actor id body).kept
perform-IsCounted down now s (edit actor id input) u c =
    (edit-IsCounted down now s c actor id input).kept
perform-IsCounted down now s (ingest tenant id status r) u c =
    (alert-IsCounted down now s c tenant id status r).kept
perform-IsCounted down now s (escalation tenant id) u c =
    (escalation-IsCounted down now s c tenant id (u tenant id)).kept
