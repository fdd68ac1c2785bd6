-- ===== src/Recordings/Final.antt =====
-- services/api/internal/httpapi/recordings.go: what becomes of a recording that is over.
use xpace.Prelude.{
  ℕ, ◌≡◌, ◌∙◌, refl, sym, inl, inr, String, Bool, true, false, not, ◌&&◌, ◌||◌, Option, some, arith,
  first, exists, ◌==◌, nat_eq, text_eq, Bool-cases, Option-cases, first-holds, first-by_key,
}
use xpace.Http.{Faults, CurrentUser}
use xpace.Governance.{Recording, is_unset}
use xpace.Drive.{remove_object}
use xpace.Rbac.{is_workspace_admin}
use xpace.Meetings.{Meeting, find_meeting}
use xpace.Meetings.Policy.{load_meeting_policy}
use xpace.Plans.{Quota, allowed, denied, failed}
use xpace.Recordings.{Store, Egress, is_active_status, is_recording, reconcile_recording_statuses}
use xpace.Recordings.Over.{
  Over, Over-recordings, set-Over, audit-Over, reconcile-Over, appended-Over, fail-Over,
  running_over,
}
use xpace.Recordings.Control.{
  Draw, new_recording, start_inserted, insert_recording, start_allowed, start_under,
  start_recording, recordings, run, is_running_of, stop, resume, end_recording, stop_found,
  stop_recording, is_active_of, is_ended, is_deletable, is_recording_of,
  can_manage_recording_access, is_host_of, recording_access, erase, delete_found,
  delete_library_recording, delete_recording,
}

-- What clients ask of recordings. A new one has a fresh identifier.
pub data Operation : Type 0 where
  start :
      (egress : String → Option Egress)
      → (stat : String → Option (ℕ × ℕ)) → String
      → Draw
      → Operation
  halt : (stopped : Bool) → String → Operation
  reconcile : (egress : String → Option Egress) → (stat : String → Option (ℕ × ℕ)) → Operation
  access : (is_put : Bool) → String → (id target : ℕ) → Operation
  delete : String → (id : ℕ) → Operation
  delete_from_library : (id : ℕ) → Operation

unfoldable pub serve : Faults → ℕ → CurrentUser → Operation → Store → Store
serve down now user (start egress stat code draw) s =
    (recordings down egress stat s now user code draw).1
serve down now user (halt stopped code) s = (stop_recording down stopped s now user code).1
serve down now user (reconcile egress stat) s =
    reconcile_recording_statuses down egress stat s now user.tenant_id
serve down now user (access is_put code id target) s =
    (recording_access down s now user is_put code id target).1
serve down now user (delete code id) s = (delete_recording down s now user code id).1
serve down now user (delete_from_library id) s = (delete_library_recording down s now user id).1

-- A start draws another identifier.
abbrev pub IsFresh : ℕ → Operation → Type 0
IsFresh k (start egress stat code draw) = (draw.id == k) ≡ false
IsFresh k _ = Unit

module _ (k : ℕ) where
  module _ (down : Faults) (now : ℕ) (user : CurrentUser) where
    row_id : (s : Store) (h : Over k s) → (h.row.id == k) ≡ true
    row_id s h = first-holds (λ x. x.id == k) s.base.recordings h.found

    start_inserted-Over :
        (s : Store) (draw : Draw)
        → (draw.id == k) ≡ false
        → Over k s
        → Over k (start_inserted down s now user draw).1
    unfolding start_inserted
    start_inserted-Over s draw fresh h =
        let failed_row = fail-Over down user.tenant_id draw.id s h in
        elim (Bool-cases (down "egress client")) [
          | inl e ↦ rw e failed_row
          | inr e ↦ elim (Option-cases draw.egress_id) [
            | inl f ↦ rw (start_inserted, e, f) failed_row
            | inr (id, f) ↦ elim (Bool-cases (down "save recording")) [
              | inl g ↦ rw (start_inserted, e, f, g) h
              | inr g ↦
                  rw (start_inserted, e, f, g)
                    (audit-Over down now user _ draw.id _ (
                      set-Over (is_recording draw.id user.tenant_id) (run id) s h (λ x. refl)
                        (λ p. absurd (ground (arith, p, fresh, row_id s h)))))
            ]
          ]
        ]

    insert-Over :
        (s : Store) (m : Meeting) (draw : Draw)
        → (draw.id == k) ≡ false
        → Over k s
        → Over k (insert_recording down s now user m draw).1
    unfolding insert_recording
    insert-Over s m draw fresh h = elim (Bool-cases (down "random")) [
      | inl e ↦ rw e h
      | inr e ↦
          elim (Bool-cases (
            down "insert recording"
            || exists (is_active_of m.id) s.base.recordings
            || exists (λ r. r.object_key == draw.object_key) s.base.recordings)) [
              | inl f ↦ rw (e, f) h
              | inr f ↦
                  rw (e, f)
                    (start_inserted-Over _ draw fresh
                      (appended-Over (new_recording user m now draw) s _ fresh refl h))
            ]
    ]

    module _ (egress : String → Option Egress) (stat : String → Option (ℕ × ℕ)) where
      start_allowed-Over :
          (s : Store) (m : Meeting) (draw : Draw)
          → (draw.id == k) ≡ false
          → Over k s
          → Over k (start_allowed down egress stat s now user m draw).1
      unfolding start_allowed
      start_allowed-Over s m draw fresh h =
          elim (Option-cases (load_meeting_policy down s.policies user.tenant_id)) [
            | inl e ↦ rw (start_allowed, e) h
            | inr ((p, rows), e) ↦ elim (Bool-cases p.recording_enabled) [
              | inr f ↦ rw (start_allowed, e, f) (Over-recordings refl h)
              | inl f ↦ elim (Bool-cases (is_ended m.status)) [
                | inl g ↦ rw (start_allowed, e, f, g) (Over-recordings refl h)
                | inr g ↦
                    rw (start_allowed, e, f, g)
                      (insert-Over _ m draw fresh (
                        reconcile-Over down egress stat (record s { policies = rows }) now
                          user.tenant_id (Over-recordings refl h)))
              ]
            ]
          ]

      start_under-Over :
          (s : Store) (m : Meeting) (draw : Draw) (q : Quota)
          → (draw.id == k) ≡ false
          → Over k s
          → Over k (start_under down egress stat s now user m draw q).1
      unfolding start_under
      start_under-Over s m draw allowed fresh h = start_allowed-Over s m draw fresh h
      start_under-Over s m draw (denied status code) fresh h = h
      start_under-Over s m draw failed fresh h = h

      recordings-Over :
          (s : Store) (path_code : String) (draw : Draw)
          → (draw.id == k) ≡ false
          → Over k s
          → Over k (recordings down egress stat s now user path_code draw).1
      unfolding recordings start_recording
      recordings-Over s path_code draw fresh h = elim (Bool-cases (down "select meeting")) [
        | inl e ↦ rw e h
        | inr e ↦ elim (Option-cases (find_meeting s.meetings user.tenant_id path_code)) [
          | inl f ↦ rw (recordings, e, f) h
          | inr (m, f) ↦ elim (Bool-cases (m.host_id == user.id)) [
            | inr g ↦ rw (recordings, e, f, g) h
            | inl g ↦ rw (recordings, e, f, g) (start_under-Over s m draw _ fresh h)
          ]
        ]
      ]

    stop_found-Over :
        (stopped : Bool) (s : Store) (m : Meeting) (r : Recording)
        → (r.id == k) ≡ false
        → Over k s
        → Over k (stop_found down stopped s now user m r).1
    unfolding stop_found
    stop_found-Over stopped s m r apart h =
        let stopping =
          set-Over (is_running_of m user) stop s h (λ x. refl)
            (λ p. absurd (running_over h.row.status h.over (ground (arith, p)))) in
        elim (Option-cases r.egress_id) [
          | inl e ↦ rw (stop_found, e) stopping
          | inr (id, e) ↦ elim (Bool-cases (down "egress client" || not stopped)) [
            | inl f ↦
                rw (stop_found, e, f)
                  (elim (Bool-cases (down "resume recording")) [
                    | inl g ↦ rw g stopping
                    | inr g ↦ rw g (
                        set-Over (is_recording r.id user.tenant_id) resume _ stopping (λ x. refl)
                          (λ p. absurd (ground (arith, p, apart, row_id _ stopping))))
                  ])
            | inr f ↦
                rw (stop_found, e, f)
                  (audit-Over down now user _ r.id _ (elim (Bool-cases (down "end recording")) [
                    | inl g ↦ rw g stopping
                    | inr g ↦ rw g (
                        set-Over (is_recording r.id user.tenant_id) (end_recording now) _ stopping
                          (λ x. refl) (λ _. refl))
                  ]))
          ]
        ]

    stop-Over :
        (stopped : Bool) (s : Store) (path_code : String)
        → Over k s
        → Over k (stop_recording down stopped s now user path_code).1
    unfolding stop_recording
    stop-Over stopped s path_code h = elim (Bool-cases (down "select meeting")) [
      | inl e ↦ rw e h
      | inr e ↦ elim (Option-cases (find_meeting s.meetings user.tenant_id path_code)) [
        | inl f ↦ rw (stop_recording, e, f) h
        | inr (m, f) ↦ elim (Bool-cases (m.host_id == user.id)) [
          | inr g ↦ rw (stop_recording, e, f, g) h
          | inl g ↦ elim (Bool-cases (down "stop recording")) [
            | inl d ↦ rw (stop_recording, e, f, g, d) h
            | inr d ↦ elim (Option-cases (first (is_running_of m user) s.base.recordings)) [
              | inl l ↦ rw (stop_recording, e, f, g, d, l) h
              | inr (r, l) ↦
                  rw (stop_recording, e, f, g, d, l)
                    (stop_found-Over stopped s m r (apart s h m r l) h)
            ]
          ]
        ]
      ]
    ]
      where
        -- The row that runs is another one than the row that is over.
        apart :
            (s : Store) (h : Over k s) (m : Meeting) (r : Recording)
            → first (is_running_of m user) s.base.recordings ≡ some r
            → (r.id == k) ≡ false
        apart s h m r l = elim (Bool-cases (r.id == k)) [
          | inr e ↦ e
          | inl e ↦
              let here =
                first-by_key (λ x. x.id == k) (is_running_of m user) s.base.recordings r h.one l
                  e in
              let same : some h.row ≡ some r = sym h.found ∙ here in
              let row : h.row ≡ r = cc in
              let runs = first-holds (is_running_of m user) s.base.recordings l in
              absurd (running_over r.status (rw row at h.over) (ground (arith, runs)))
        ]

    access-Over :
        (s : Store) (is_put : Bool) (code : String) (id target : ℕ)
        → Over k s
        → Over k (recording_access down s now user is_put code id target).1
    unfolding recording_access
    access-Over s is_put code id target h = Over-recordings kept h
      where
        kept :
            (recording_access down s now user is_put code id target).1.base.recordings
            ≡ s.base.recordings
        kept = ground arith

    delete_found-Over :
        (s : Store) (held : Bool) (r : Recording)
        → Over k s
        → Over k (delete_found down s now user held r).1
    unfolding delete_found
    delete_found-Over s held r h =
        let gone : Over k (record s {
          base = record s.base { objects = remove_object r.object_key s.base.objects };
        }) =
          Over-recordings refl h in
        elim (Bool-cases held) [
          | inl e ↦ rw e h
          | inr e ↦ elim (Bool-cases (is_active_status r.status)) [
            | inl f ↦ rw (e, f) h
            | inr f ↦ elim (Bool-cases (down "object client")) [
              | inl g ↦ rw (e, f, g) h
              | inr g ↦ elim (Bool-cases (down "remove object")) [
                | inl l ↦ rw (e, f, g, l) h
                | inr l ↦ elim (Bool-cases (down "mark deleted")) [
                  | inl m ↦ rw (e, f, g, l, m) gone
                  | inr m ↦ elim (Bool-cases (exists (is_deletable r.id user) s.base.recordings)) [
                    | inr d ↦ rw (e, f, g, l, m, d) gone
                    | inl d ↦
                        rw (e, f, g, l, m, d)
                          (audit-Over down now user _ r.id _ (
                            set-Over (is_deletable r.id user) (erase now) _ gone (λ x. refl)
                              (λ _. gone.over)))
                  ]
                ]
              ]
            ]
          ]
        ]

    delete-Over :
        (s : Store) (code : String) (id : ℕ)
        → Over k s
        → Over k (delete_recording down s now user code id).1
    unfolding delete_recording
    delete-Over s code id h = elim (Bool-cases (down "select meeting")) [
      | inl e ↦ rw e h
      | inr e ↦ elim (Option-cases (find_meeting s.meetings user.tenant_id code)) [
        | inl f ↦ rw (delete_recording, e, f) h
        | inr (m, f) ↦ elim (Bool-cases (can_manage_recording_access m user)) [
          | inr g ↦ rw (delete_recording, e, f, g) h
          | inl g ↦ elim (Bool-cases (down "select recording")) [
            | inl l ↦ rw (delete_recording, e, f, g, l) h
            | inr l ↦
                elim (Option-cases (
                  first (λ r. is_recording_of id m user r && is_unset r.retention_expired_at)
                    s.base.recordings)) [
                      | inl d ↦ rw (delete_recording, e, f, g, l, d) h
                      | inr (r, d) ↦
                          rw (delete_recording, e, f, g, l, d) (delete_found-Over s _ r h)
                    ]
          ]
        ]
      ]
    ]

    delete_library-Over :
        (s : Store) (id : ℕ) → Over k s → Over k (delete_library_recording down s now user id).1
    unfolding delete_library_recording
    delete_library-Over s id h = elim (Bool-cases (down "select recording")) [
      | inl e ↦ rw e h
      | inr e ↦ elim (Option-cases (first (is_deletable id user) s.base.recordings)) [
        | inl f ↦ rw (delete_library_recording, e, f) h
        | inr (r, f) ↦
            elim (Bool-cases
              (is_workspace_admin user.role || exists (is_host_of user r) s.meetings.meetings)) [
                | inr g ↦ rw (delete_library_recording, e, f, g) h
                | inl g ↦ rw (delete_library_recording, e, f, g) (delete_found-Over s _ r h)
              ]
      ]
    ]

    -- A recording that is over, ready or failed, stays there and is never active again, whatever is
    -- asked, deleting it included, whichever statements fail and whatever the service answers.
    pub serve-Over :
        (s : Store) (o : Operation) → IsFresh k o → Over k s → Over k (serve down now user o s)
    unfolding serve
    serve-Over s (start egress stat code draw) fresh h =
        recordings-Over egress stat s code draw fresh h
    serve-Over s (halt stopped code) fresh h = stop-Over stopped s code h
    serve-Over s (reconcile egress stat) fresh h =
        reconcile-Over down egress stat s now user.tenant_id h
    serve-Over s (access is_put code id target) fresh h = access-Over s is_put code id target h
    serve-Over s (delete code id) fresh h = delete-Over s code id h
    serve-Over s (delete_from_library id) fresh h = delete_library-Over s id h
