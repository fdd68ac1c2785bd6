-- ===== src/Recordings/Over.antt =====
-- services/api/internal/httpapi/recordings.go: a recording that is over, and the rounds of
-- `reconcileRecordingStatuses`.
use mathlib.Core.Bool.{false≢true}
use xpace.Prelude.{
  ℕ, ◌≡◌, ◌∙◌, refl, sym, ap, inl, inr, String, Bool, true, false, not, ◌&&◌, ◌||◌, Option, some,
  List, [], ◌∷◌, ◌++◌, first, ltb, ◌==◌, nat_eq, text_eq, if◌then◌else◌, Bool-cases, Option-cases,
  first-append, first-update_row, AtMostOne, AtMostOne-update, AtMostOne-append,
}
use xpace.Http.{Faults, CurrentUser}
use xpace.Governance.{Recording, RecordingStatus, starting, recording, stopping, ready}
use xpace.Recordings.{
  Store, Egress, complete, broken, other, audit_recording, is_active_status, is_running,
  is_recording, set_recordings, finish, fail, fail_at, completed_recording_size, reconcile_object,
  known_egress, reconcile_recording, reconcile_recordings, reconcile_recording_statuses,
}
use xpace.Recordings.Control.{fail_recording}

-- The recording is there, and is neither starting, nor running, nor stopping.
pub record Over (k : ℕ) (s : Store) : Type 0 where
  pub row : Recording
  pub one : AtMostOne (λ x. x.id == k) s.base.recordings
  pub found : first (λ x. x.id == k) s.base.recordings ≡ some row
  pub over : is_active_status row.status ≡ false

pub running_over : (x : RecordingStatus) → is_active_status x ≡ false → is_running x ≡ true → ⊥
running_over starting h r = false≢true (sym h)
running_over recording h r = false≢true (sym h)
running_over stopping h r = false≢true r
running_over ready h r = false≢true r
running_over RecordingStatus.failed h r = false≢true r

module _ {k : ℕ} where
  pub Over-recordings : {s t : Store} → t.base.recordings ≡ s.base.recordings → Over k s → Over k t
  Over-recordings e h = record {
    row = h.row;
    one = rw e h.one;
    found = rw e h.found;
    over = h.over;
  }

  -- An UPDATE that keeps identifiers and makes nothing active of the row.
  pub set-Over :
      (p : Recording → Bool) (f : Recording → Recording) (s : Store) (h : Over k s)
      → ((x : Recording) → (f x).id ≡ x.id)
      → (p h.row ≡ true → is_active_status (f h.row).status ≡ false)
      → Over k (set_recordings p f s)
  set-Over p f s h ids quiet = record {
    row = if p h.row then f h.row else h.row;
    one =
        AtMostOne-update (λ x. x.id == k) p f s.base.recordings (λ x. ap (λ i. i == k) (ids x))
          h.one;
    found =
        first-update_row p (λ x. x.id == k) f s.base.recordings h.row
          (λ y. ap (λ i. i == k) (ids y)) h.found;
    over = elim (Bool-cases (p h.row)) [ inl e ↦ rw e (quiet e) | inr e ↦ rw e h.over ];
  }

  pub audit-Over :
      (down : Faults) (now : ℕ) (user : CurrentUser) (action : String) (id : ℕ) (s : Store)
      → Over k s
      → Over k (audit_recording down now user action id s)
  audit-Over down now user action id s h = elim (Bool-cases (down "audit")) [
    | inl e ↦ Over-recordings (rw e refl) h
    | inr e ↦ Over-recordings (rw e refl) h
  ]

  reconcile_object-Over :
      (down : Faults) (stat : String → Option (ℕ × ℕ)) (s : Store) (tenant : ℕ) (item : Recording)
      → Over k s
      → Over k (reconcile_object down stat s tenant item)
  unfolding reconcile_object
  reconcile_object-Over down stat s tenant item h = elim (Bool-cases (down "object client")) [
    | inl e ↦ rw e h
    | inr e ↦ elim (Option-cases (stat item.object_key)) [
      | inl f ↦ rw (e, f) h
      | inr ((size, modified), f) ↦
          elim (Bool-cases (not (ltb 0 size) || down "update recording")) [
            | inl g ↦ rw (e, f, g) h
            | inr g ↦ rw (e, f, g) (set-Over _ _ s h (λ x. refl) (λ _. refl))
          ]
    ]
  ]

  reconcile_recording-Over :
      (down : Faults) (egress : String → Option Egress) (stat : String → Option (ℕ × ℕ)) (s : Store)
      (now tenant : ℕ) (item : Recording)
      → Over k s
      → Over k (reconcile_recording down egress stat s now tenant item)
  unfolding reconcile_recording
  reconcile_recording-Over down egress stat s now tenant item h =
      elim (Option-cases (known_egress egress down item)) [
        | inl e ↦ rw (reconcile_recording, e) (reconcile_object-Over down stat s tenant item h)
        | inr (what, e) ↦ rw (reconcile_recording, e) (cases what)
      ]
    where
      cases :
          (what : Egress)
          → Over k (elim what [
            | other ↦ reconcile_object down stat s tenant item
            | broken ↦
                if down "update recording"
                then s
                else set_recordings
                    (λ r. is_recording item.id tenant r && is_active_status r.status)
                    (fail_at now)
                    s
            | complete files ↦
                let size = completed_recording_size files item.object_key in
                let done =
                  if down "update recording"
                  then s
                  else set_recordings (is_recording item.id tenant) (finish now size) s in
                if ltb 0 size then done else reconcile_object down stat done tenant item
          ])
      cases other = reconcile_object-Over down stat s tenant item h
      cases broken = elim (Bool-cases (down "update recording")) [
        | inl f ↦ rw f h
        | inr f ↦ rw f (set-Over _ (fail_at now) s h (λ x. refl) (λ _. refl))
      ]
      cases (complete files) =
          let size = completed_recording_size files item.object_key in
          let done : Over k (
              if down "update recording"
              then s
              else set_recordings (is_recording item.id tenant) (finish now size) s) =
            elim (Bool-cases (down "update recording")) [
              | inl f ↦ rw f h
              | inr f ↦ rw f (set-Over _ (finish now size) s h (λ x. refl) (λ _. refl))
            ] in
          elim (Bool-cases (ltb 0 size)) [
            | inl f ↦ rw f done
            | inr f ↦ rw f (reconcile_object-Over down stat _ tenant item done)
          ]

  reconcile_recordings-Over :
      (down : Faults) (egress : String → Option Egress) (stat : String → Option (ℕ × ℕ))
      (now tenant : ℕ) (items : List Recording) (s : Store)
      → Over k s
      → Over k (reconcile_recordings down egress stat s now tenant items)
  unfolding reconcile_recordings
  reconcile_recordings-Over down egress stat now tenant [] s h = h
  reconcile_recordings-Over down egress stat now tenant (r ∷ rest) s h =
      reconcile_recordings-Over down egress stat now tenant rest _
        (reconcile_recording-Over down egress stat s now tenant r h)

  pub reconcile-Over :
      (down : Faults) (egress : String → Option Egress) (stat : String → Option (ℕ × ℕ)) (s : Store)
      (now tenant : ℕ)
      → Over k s
      → Over k (reconcile_recording_statuses down egress stat s now tenant)
  unfolding reconcile_recording_statuses
  reconcile-Over down egress stat s now tenant h = elim (Bool-cases (down "select stale")) [
    | inl e ↦ rw e h
    | inr e ↦ rw e (reconcile_recordings-Over down egress stat now tenant _ s h)
  ]

  -- The row stands before a new one, which has another identifier.
  pub appended-Over :
      (x : Recording) (s t : Store)
      → (x.id == k) ≡ false
      → t.base.recordings ≡ s.base.recordings ++ x ∷ []
      → Over k s
      → Over k t
  appended-Over x s t fresh e h = record {
    row = h.row;
    one = rw e (
        AtMostOne-append (λ y. y.id == k) s.base.recordings x h.one
          (λ f. absurd (false≢true (sym fresh ∙ f))));
    found = rw e (first-append (λ y. y.id == k) s.base.recordings x ∙ rw h.found refl);
    over = h.over;
  }

  pub fail-Over :
      (down : Faults) (tenant id : ℕ) (s : Store)
      → Over k s
      → Over k (fail_recording down tenant id s)
  fail-Over down tenant id s h = elim (Bool-cases (down "fail recording")) [
    | inl e ↦ rw e h
    | inr e ↦ rw e (set-Over (is_recording id tenant) fail s h (λ x. refl) (λ _. refl))
  ]
