-- ===== src/Governance/Recordings.antt =====
-- services/api/internal/httpapi/governance.go: retention before a recording on hold.
use xpace.Prelude.{
  ℕ, ◌≡◌, ◌∙◌, refl, ap, inl, inr, String, Bool, true, false, not, ◌&&◌, ◌||◌, some, List, [], ◌∷◌,
  arith, first, exists, update_where, ◌==◌, nat_eq, text_eq, Bool-cases, Option-cases, All,
  All-keep, All-update, All-sort_by, All-take, first-update_other, nat_beq_iff,
}
use xpace.Http.{Faults}
use xpace.Governance.{Store, Policy, Recording, Attachment, DriveNode, is_held, of_tenant}
use xpace.Governance.Retention.{
  is_old_recording, expire, expire_recordings, is_purgeable, by_expiry, purge, purge_recording,
  purge_recordings, purge_expired_recording_objects, purge_attachment, purge_attachments, by_age,
  is_old_attachment, purge_expired_chat_attachments, redact_messages, delete_events,
  retain_recordings, retain_under, load_governance_policy, apply_governance_retention,
  is_held_attachment, default_policy,
}
use xpace.Governance.Holding.{exists-remove_object, held_without}
use xpace.Drive.{is_node, remove_object}
use xpace.Drive.Cleanup
use xpace.Drive.Cleanup.{
  is_expired, by_retention, expired_files, delete_file, cleanup_file, cleanup_files,
  cleanup_drive_retention, has_children,
}

-- Another row's object is another object.
abbrev pub IsOther : Recording → String → Type 0
IsOther r key = (key == r.object_key) ≡ false

abbrev pub IsApart : Recording → Recording → Type 0
IsApart r x = (x.id == r.id) ≡ false → IsOther r x.object_key

-- A recording on hold, with its row and its object, which no other row has.
pub record OnHold (r : Recording) (s : Store) : Type 0 where
  pub held : is_held s r.tenant_id "RECORDING" r.id ≡ true
  pub row : first (λ x. x.id == r.id) s.recordings ≡ some r
  pub object : exists (λ k. k == r.object_key) s.objects ≡ true
  pub recordings : All (IsApart r) s.recordings
  pub attachments : All (λ a. IsOther r a.object_key) s.attachments
  pub nodes : All (λ n. IsOther r n.object_key) s.nodes

module _ (r : Recording) where
  without_object :
      (s : Store) (key : String)
      → IsOther r key
      → OnHold r s
      → OnHold r (record s { objects = remove_object key s.objects })
  without_object s key other h = record {
    held = held_without s r.tenant_id "RECORDING" r.id (remove_object key s.objects) ∙ h.held;
    row = h.row;
    object = exists-remove_object r.object_key key s.objects other ∙ h.object;
    recordings = h.recordings;
    attachments = h.attachments;
    nodes = h.nodes;
  }

  -- An UPDATE of recordings that passes over the one on hold.
  updated :
      (s : Store) (p : Recording → Bool) (f : Recording → Recording)
      → ((x : Recording) → p x ≡ true → (x.id == r.id) ≡ false)
      → ((x : Recording) → (f x).id ≡ x.id)
      → ((x : Recording) → (f x).object_key ≡ x.object_key)
      → OnHold r s
      → OnHold r (record s { recordings = update_where p f s.recordings })
  unfolding is_held
  updated s p f passes ids keys h = record {
    held = h.held;
    row =
        first-update_other p (λ x. x.id == r.id) f s.recordings
          (λ x e. (passes x e, ap (λ i. i == r.id) (ids x) ∙ passes x e))
        ∙ h.row;
    object = h.object;
    recordings =
        All-update (IsApart r) p f s.recordings (λ x e a apart. rw (keys x) (a (passes x e)))
          h.recordings;
    attachments = h.attachments;
    nodes = h.nodes;
  }

  held_passes :
      (s : Store) (q : Recording → Bool) (x : Recording)
      → OnHold r s
      → (q x && not (is_held s r.tenant_id "RECORDING" x.id)) ≡ true
      → (x.id == r.id) ≡ false
  held_passes s q x h e = elim (Bool-cases (x.id == r.id)) [
    | inr f ↦ f
    | inl f ↦
        let same : x.id ≡ r.id = (nat_beq_iff x.id r.id).0 f in
        absurd (ground (arith, rw (same, h.held) at e))
  ]

  other_id :
      (x y : Recording) → (x.id == r.id) ≡ false → (y.id == x.id) ≡ true → (y.id == r.id) ≡ false
  other_id x y e f = rw ((nat_beq_iff y.id x.id).0 f) e

  purge_recording-OnHold :
      (down : Faults) (s : Store) (now : ℕ) (x : Recording)
      → IsApart r x
      → OnHold r s
      → OnHold r (purge_recording down s now r.tenant_id x)
  unfolding purge_recording
  purge_recording-OnHold down s now x apart h =
      elim (Bool-cases (
        down "begin"
        || down "lock"
        || down "select held"
        || is_held s r.tenant_id "RECORDING" x.id)) [
          | inl g ↦ rw g h
          | inr g ↦ elim (Bool-cases (down "remove object")) [
            | inl k ↦ rw (g, k) h
            | inr k ↦
                let other = held_passes s (λ _. true) x h (ground (arith, g)) in
                let removed = without_object s x.object_key (apart other) h in
                elim (Bool-cases (down "update recording" || down "commit")) [
                  | inl l ↦ rw (g, k, l) removed
                  | inr l ↦
                      rw (g, k, l)
                        (updated (record s { objects = remove_object x.object_key s.objects })
                          (λ y. y.id == x.id && is_purgeable s r.tenant_id y) (purge now)
                          (λ y e. other_id x y other (ground (arith, e))) (λ y. refl) (λ y. refl)
                          removed)
                ]
          ]
        ]

  purge_attachment-OnHold :
      (down : Faults) (s : Store) (now days : ℕ) (a : Attachment)
      → IsOther r a.object_key
      → OnHold r s
      → OnHold r (purge_attachment down s now r.tenant_id days a)
  unfolding purge_attachment is_held
  purge_attachment-OnHold down s now days a other h =
      let removed = without_object s a.object_key other h in
      elim (Bool-cases (
        down "begin"
        || down "lock"
        || down "select held"
        || is_held_attachment s r.tenant_id a.id)) [
          | inl g ↦ rw g h
          | inr g ↦ elim (Bool-cases (down "remove object")) [
            | inl k ↦ rw (g, k) h
            | inr k ↦ elim (Bool-cases (down "delete attachment" || down "commit")) [
              | inl l ↦ rw (g, k, l) removed
              | inr l ↦
                  rw (g, k, l)
                    (record {
                      held = removed.held;
                      row = removed.row;
                      object = removed.object;
                      recordings = removed.recordings;
                      attachments = All-keep _ _ s.attachments removed.attachments;
                      nodes = removed.nodes;
                    })
            ]
          ]
        ]

  cleanup_file-OnHold :
      (down : Faults) (s : Store) (now : ℕ) (n : DriveNode)
      → IsOther r n.object_key
      → OnHold r s
      → OnHold r (cleanup_file down s now r.tenant_id n)
  unfolding cleanup_file is_held
  cleanup_file-OnHold down s now n other h =
      let removed = without_object s n.object_key other h in
      let t = record s { objects = remove_object n.object_key s.objects } in
      elim (Bool-cases (down "remove object")) [
        | inl k ↦ rw k h
        | inr k ↦ elim (Bool-cases (down "delete file")) [
          | inl l ↦ rw (k, l) removed
          | inr l ↦
              elim (Bool-cases (
                exists (λ x. is_node n.id r.tenant_id x && Cleanup.is_removable t now r.tenant_id x)
                  t.nodes
                && not (has_children t n.id))) [
                  | inr m ↦ rw (k, l, delete_file, m) removed
                  | inl m ↦
                      rw (k, l, delete_file, m)
                        (record {
                          held = removed.held;
                          row = removed.row;
                          object = removed.object;
                          recordings = removed.recordings;
                          attachments = removed.attachments;
                          nodes = All-keep _ _ s.nodes removed.nodes;
                        })
                ]
        ]
      ]

-- The whole run, where what other requests do meanwhile keeps the recording on hold.
module _ (r : Recording) (fails : ℕ → Faults) (meanwhile : ℕ → Store → Store)
    (keeps : (i : ℕ) (t : Store) → OnHold r t → OnHold r (meanwhile i t)) (now : ℕ) where
  purge_recordings-OnHold :
      (xs : List Recording) (s : Store)
      → All (IsApart r) xs
      → OnHold r s
      → OnHold r (purge_recordings fails meanwhile s now r.tenant_id xs)
  unfolding purge_recordings
  purge_recordings-OnHold [] s a h = h
  purge_recordings-OnHold (x ∷ rest) s a h =
      purge_recordings-OnHold rest _ a.1
        (purge_recording-OnHold r (fails x.id) (meanwhile x.id s) now x a.0 (keeps x.id s h))

  purge_attachments-OnHold :
      (days : ℕ) (xs : List Attachment) (s : Store)
      → All (λ a. IsOther r a.object_key) xs
      → OnHold r s
      → OnHold r (purge_attachments fails meanwhile s now r.tenant_id days xs)
  unfolding purge_attachments
  purge_attachments-OnHold days [] s a h = h
  purge_attachments-OnHold days (x ∷ rest) s a h =
      purge_attachments-OnHold days rest _ a.1
        (purge_attachment-OnHold r (fails x.id) (meanwhile x.id s) now days x a.0 (keeps x.id s h))

  cleanup_files-OnHold :
      (xs : List DriveNode) (s : Store)
      → All (λ n. IsOther r n.object_key) xs
      → OnHold r s
      → OnHold r (cleanup_files fails meanwhile s now r.tenant_id xs)
  unfolding cleanup_files
  cleanup_files-OnHold [] s a h = h
  cleanup_files-OnHold (x ∷ rest) s a h =
      cleanup_files-OnHold rest _ a.1
        (cleanup_file-OnHold r (fails x.id) (meanwhile x.id s) now x a.0 (keeps x.id s h))

  objects-OnHold :
      (down : Faults) (s : Store)
      → OnHold r s
      → OnHold r (purge_expired_recording_objects down fails meanwhile s now r.tenant_id).1
  unfolding purge_expired_recording_objects
  objects-OnHold down s h = elim (Bool-cases (down "object client" || down "select recordings")) [
    | inl e ↦ rw e h
    | inr e ↦ rw e (
        purge_recordings-OnHold _ s
          (All-take (IsApart r) 50 _ (
            All-sort_by (IsApart r) by_expiry _
              (All-keep (IsApart r) (is_purgeable s r.tenant_id) s.recordings h.recordings)))
          h)
  ]

  attachments-OnHold :
      (down : Faults) (days : ℕ) (s : Store)
      → OnHold r s
      → OnHold r (purge_expired_chat_attachments down fails meanwhile s now r.tenant_id days).1
  unfolding purge_expired_chat_attachments
  attachments-OnHold down days s h =
      elim (Bool-cases (down "object client" || down "select attachments")) [
        | inl e ↦ rw e h
        | inr e ↦ rw e (
            purge_attachments-OnHold days _ s
              (All-take (λ a. IsOther r a.object_key) 100 _
                (All-sort_by (λ a. IsOther r a.object_key) by_age _
                  (All-keep (λ a. IsOther r a.object_key) (is_old_attachment s now r.tenant_id days)
                    s.attachments h.attachments)))
              h)
      ]

  drive-OnHold :
      (down : Faults) (s : Store)
      → OnHold r s
      → OnHold r (cleanup_drive_retention down fails meanwhile s now r.tenant_id)
  unfolding cleanup_drive_retention expired_files
  drive-OnHold down s h = elim (Bool-cases (down "object client" || down "select expired")) [
    | inl e ↦ rw e h
    | inr e ↦ rw e (
        cleanup_files-OnHold _ s
          (All-take (λ n. IsOther r n.object_key) 50 _
            (All-sort_by (λ n. IsOther r n.object_key) by_retention _
              (All-keep (λ n. IsOther r n.object_key) (is_expired s now r.tenant_id) s.nodes
                h.nodes)))
          h)
  ]

  -- Steps that touch none of what is on hold.
  rest-OnHold :
      (s t : Store)
      → t.holds ≡ s.holds
      → t.resources ≡ s.resources
      → t.recordings ≡ s.recordings
      → t.objects ≡ s.objects
      → t.attachments ≡ s.attachments
      → t.nodes ≡ s.nodes
      → OnHold r s
      → OnHold r t
  unfolding is_held
  rest-OnHold s t a b c d e f h = record {
    held = rw (is_held, a, b) h.held;
    row = rw c h.row;
    object = rw d h.object;
    recordings = rw c h.recordings;
    attachments = rw e h.attachments;
    nodes = rw f h.nodes;
  }

  expire-OnHold :
      (days : ℕ) (s : Store) → OnHold r s → OnHold r (expire_recordings s now r.tenant_id days)
  unfolding expire_recordings
  expire-OnHold days s h =
      updated r s (is_old_recording s now r.tenant_id days) (expire now)
        (λ x e. held_passes r s (λ _. true) x h (ground (arith, e))) (λ x. refl) (λ x. refl) h

  retain_recordings-OnHold :
      (down : Faults) (p : Policy) (s : Store)
      → OnHold r s
      → OnHold r (retain_recordings down fails meanwhile s now r.tenant_id p).1
  unfolding retain_recordings delete_events
  retain_recordings-OnHold down p s h = elim (Bool-cases (down "expire recordings")) [
    | inl e ↦ rw e h
    | inr e ↦
        let t = expire_recordings s now r.tenant_id p.recording_retention_days in
        let u = purge_expired_recording_objects down fails meanwhile t now r.tenant_id in
        let purged = objects-OnHold down t (expire-OnHold p.recording_retention_days s h) in
        elim (Bool-cases u.0) [
          | inr f ↦ rw (e, f) purged
          | inl f ↦
              let cleaned = drive-OnHold down u.1 purged in
              elim (Bool-cases (down "delete events")) [
                | inl g ↦ rw (e, f, g) cleaned
                | inr g ↦ rw (e, f, g) (rest-OnHold _ _ refl refl refl refl refl refl cleaned)
              ]
        ]
  ]

  retain_under-OnHold :
      (down : Faults) (p : Policy) (s : Store)
      → OnHold r s
      → OnHold r (retain_under down fails meanwhile s now r.tenant_id p).1
  unfolding retain_under redact_messages
  retain_under-OnHold down p s h =
      let chat =
        purge_expired_chat_attachments down fails meanwhile s now r.tenant_id
          p.chat_retention_days in
      let purged = attachments-OnHold down p.chat_retention_days s h in
      elim (Bool-cases (not chat.0 || down "redact messages")) [
        | inl e ↦ rw e purged
        | inr e ↦ rw e (
            retain_recordings-OnHold down p
              (redact_messages chat.1 now r.tenant_id p.chat_retention_days)
              (rest-OnHold chat.1 _ refl refl refl refl refl refl purged))
      ]

  -- A recording on hold, whose object is no other row's, keeps its row and its object in every run of
  -- the retention of its workspace, whichever statements fail, if what other requests do meanwhile
  -- keeps it so.
  pub held_recording_kept :
      (down : Faults) (s : Store)
      → OnHold r s
      → OnHold r (apply_governance_retention down fails meanwhile s now r.tenant_id).1
  unfolding apply_governance_retention load_governance_policy
  held_recording_kept down s h = elim (Bool-cases (down "load policy")) [
    | inl e ↦ rw (apply_governance_retention, load_governance_policy, e) h
    | inr e ↦ elim (Option-cases (first (of_tenant r.tenant_id) s.policies)) [
      | inr (p, f) ↦
          rw (apply_governance_retention, load_governance_policy, e, f)
            (retain_under-OnHold down p s h)
      | inl f ↦
          rw (apply_governance_retention, load_governance_policy, e, f)
            (retain_under-OnHold down (default_policy r.tenant_id) _
              (rest-OnHold s _ refl refl refl refl refl refl h))
    ]
  ]
