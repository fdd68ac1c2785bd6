-- ===== src/Drive/Access.antt =====
-- services/api/internal/httpapi/drive.go: what a caller without edit permission can do to a node.
use xpace.Prelude.{
  ℕ, ◌≤◌, ◌≡◌, ◌∙◌, exists, true, refl, inl, inr, String, Bool, false, ◌&&◌, ◌||◌, Option, none,
  some, [], ◌∷◌, ◌++◌, arith, first, update_where, ◌==◌, nat_eq, text_eq, Bool-cases, Option-cases,
  first-append, first-update_other, AtMostOne, exists-at_key, nat_beq_iff,
}
use xpace.Http.{Response, Faults, CurrentUser}
use xpace.Governance.{Store, DriveNode, is_unset, is_held, log_event}
use xpace.Drive.{
  FolderInput, Upload, NodeRequest, delete, change, NodeInput, is_node, may_edit,
  can_edit_drive_node, create_folder, store_upload, drive_upload, folder_node, file_node,
  change_node, drive_node_update, drive_share, rename, trash, type_of,
}
use xpace.Drive.Cleanup.{cleanup_drive_retention, is_over, list_nodes}
use xpace.Drive.Purging.{cleanup-row}
use xpace.Drive.Versions.{
  upload_version, store_version, drive_version_restore, find_version, is_live_file, set_content,
}

-- What a caller asks of the drive. A created node has a fresh identifier, and no other request comes
-- between the files that a listing cleans up.
pub data Operation : Type 0 where
  create : (fresh : ℕ) → Option FolderInput → Operation
  upload : (fresh content_length : ℕ) → (parent room : Option ℕ) → Option Upload → Operation
  update : (id : ℕ) → NodeRequest → Operation
  share : (id user : ℕ) → Option String → Operation
  new_version : (id : ℕ) → Option Upload → Operation
  restore : (id : ℕ) → (version : Option ℕ) → Operation
  list : (fails : ℕ → Faults) → (room : Option ℕ) → Operation

unfoldable pub serve : Faults → Store → ℕ → CurrentUser → Operation → Response × Store
serve down s now actor (create fresh input) = create_folder down s now actor fresh input
serve down s now actor (upload fresh content_length parent room form) =
    drive_upload down s now actor fresh content_length parent room form
serve down s now actor (update id request) = drive_node_update down s now actor id request
serve down s now actor (share id user permission) = drive_share down s now actor id user permission
serve down s now actor (new_version id form) = upload_version down s now actor id form
serve down s now actor (restore id version) = drive_version_restore down s now actor id version
serve down s now actor (list fails room) = list_nodes down fails (λ _ t. t) s now actor room

-- A node of the caller's workspace that is not deleted, and the caller's own or shared with the caller
-- for editing.
abbrev pub is_editable : Store → CurrentUser → DriveNode → Bool
is_editable s actor n =
    n.tenant_id == actor.tenant_id
    && is_unset n.deleted_at
    && (n.owner_id == actor.id
        || exists
            (λ x.
              (x.node_id == n.id && x.tenant_id == actor.tenant_id && x.user_id == actor.id)
              && x.permission == "EDIT")
            s.shares)

retention_over :
    (now : ℕ) (o : Option ℕ) → is_over now o ≡ true → (t : ℕ) × (o ≡ some t) × (t ≤ now)
retention_over now none h = cc
retention_over now (some t) h = (t, refl, ground (arith, h))

module _ (s : Store) (actor : CurrentUser) (k : ℕ) (n : DriveNode) where
  -- The row of the node after a handler.
  abbrev Stays : Store → Type 0
  Stays t = first (λ x. x.id == k) t.nodes ≡ some n

  -- What a request leaves of the row.
  pub data Fate (now : ℕ) : Operation → Store → Type 0 where
    kept : {o : Operation} {t : Store} → Stays t → Fate now o t
    purged :
        {fails : ℕ → Faults} {room : Option ℕ} {t : Store} (until : ℕ)
        → exists (λ x. x.id == k) t.nodes ≡ false
        → (n.tenant_id == actor.tenant_id) ≡ true
        → is_unset n.deleted_at ≡ false
        → n.retention_until ≡ some until
        → until ≤ now
        → is_held s actor.tenant_id "DRIVE_FILE" n.id ≡ false
        → Fate now (list fails room) t

  not_edited :
      (down : Faults)
      → AtMostOne (λ x. x.id == k) s.nodes
      → Stays s
      → is_editable s actor n ≡ false
      → can_edit_drive_node down s actor k ≡ false
  unfolding can_edit_drive_node
  not_edited down one here none_edits =
      rw
        (exists-at_key (λ x. x.id == k)
          (λ x. is_node k actor.tenant_id x && is_unset x.deleted_at && may_edit s actor x) s.nodes
          one here (λ y e. rw e refl) (ground (arith, none_edits)))
        (ground arith)

  log-Stays :
      (down : Faults) (now : ℕ) (action kind : String) (id : ℕ) (t : Store)
      → Stays t
      → Stays (log_event down now actor action kind id t)
  log-Stays down now action kind id t h = elim (Bool-cases (down "audit")) [
    | inl e ↦ rw e h
    | inr e ↦ rw e h
  ]

  update-Stays :
      (id : ℕ) (f : DriveNode → DriveNode)
      → (id == k) ≡ false
      → ((x : DriveNode) → (f x).id ≡ x.id)
      → Stays s
      → first (λ x. x.id == k) (update_where (is_node id actor.tenant_id) f s.nodes) ≡ some n
  update-Stays id f other keeps h =
      first-update_other (is_node id actor.tenant_id) (λ x. x.id == k) f s.nodes
        (λ x e. (ground (arith, e, other), ground (arith, e, other, keeps x)))
      ∙ h

  append-Stays : (x : DriveNode) → Stays s → first (λ y. y.id == k) (s.nodes ++ x ∷ []) ≡ some n
  append-Stays x h = first-append (λ y. y.id == k) s.nodes x ∙ rw h refl

  module _ (down : Faults) (now : ℕ) (h : Stays s) where
    create-Stays :
        (fresh : ℕ) (input : Option FolderInput)
        → Stays (create_folder down s now actor fresh input).1
    unfolding create_folder
    create-Stays fresh none = h
    create-Stays fresh (some input) =
        ground (arith, h, append-Stays (folder_node actor fresh input) h)

    store-Stays :
        (fresh : ℕ) (parent room : Option ℕ) (u : Upload)
        → Stays (store_upload down s now actor fresh parent room u).1
    unfolding store_upload
    store-Stays fresh parent room u =
        ground (arith, h, append-Stays (file_node actor now fresh parent room u) h)

    upload-Stays :
        (fresh content_length : ℕ) (parent room : Option ℕ) (form : Option Upload)
        → Stays (drive_upload down s now actor fresh content_length parent room form).1
    unfolding drive_upload
    upload-Stays fresh content_length parent room none = ground (arith, h)
    upload-Stays fresh content_length parent room (some u) =
        ground (arith, h, store-Stays fresh parent room u)

    share-Stays :
        (id user : ℕ) (permission : Option String)
        → Stays (drive_share down s now actor id user permission).1
    unfolding drive_share
    share-Stays id user none = ground (arith, h)
    share-Stays id user (some p) = ground (arith, h)

    change-Stays :
        (id : ℕ) (input : Option NodeInput)
        → (id == k) ≡ false
        → Stays (change_node down s now actor id input).1
    unfolding change_node
    change-Stays id none other = h
    change-Stays id (some input) other =
        ground (arith, h, update-Stays id (rename input) other (λ x. refl) h)

    node-Stays :
        (id : ℕ) (request : NodeRequest)
        → (id == k) ≡ false
        → Stays (drive_node_update down s now actor id request).1
    unfolding drive_node_update
    node-Stays id delete other =
        ground (arith, h, update-Stays id (trash s actor.tenant_id now) other (λ x. refl) h)
    node-Stays id (change input) other = ground (arith, h, change-Stays id input other)

    version-Stays :
        (id : ℕ) (old : DriveNode) (u : Upload)
        → (id == k) ≡ false
        → Stays (store_version down s now actor id old u).1
    unfolding store_version
    version-Stays id old u other =
        ground
          (arith, h, update-Stays id (set_content u.key (type_of u) u.size) other (λ x. refl) h)

    new_version-Stays :
        (id : ℕ) (form : Option Upload)
        → (id == k) ≡ false
        → Stays (upload_version down s now actor id form).1
    unfolding upload_version
    new_version-Stays id none other = ground (arith, h)
    new_version-Stays id (some u) other =
        elim (Option-cases (first (is_live_file id actor.tenant_id) s.nodes)) [
          | inl e ↦ rw (upload_version, e) (ground (arith, h))
          | inr (old, e) ↦ rw (upload_version, e) (ground (arith, h, version-Stays id old u other))
        ]

    restore-Stays :
        (id : ℕ) (version : Option ℕ)
        → (id == k) ≡ false
        → Stays (drive_version_restore down s now actor id version).1
    unfolding drive_version_restore
    restore-Stays id none other = h
    restore-Stays id (some version) other =
        elim (Option-cases (find_version s id actor.tenant_id version)) [
          | inl e ↦ rw (drive_version_restore, e) (ground (arith, h))
          | inr ((v, old), e) ↦
              rw (drive_version_restore, e)
                (ground (
                  arith,
                  h,
                  update-Stays id (set_content v.object_key v.content_type v.size_bytes) other
                      (λ x. refl) h,
                ))
        ]

    serve-Stays :
        (o : Operation)
        → AtMostOne (λ x. x.id == k) s.nodes
        → can_edit_drive_node down s actor k ≡ false
        → Fate now o (serve down s now actor o).1
    unfolding serve drive_node_update upload_version drive_version_restore list_nodes
    serve-Stays (create fresh input) one never = kept (create-Stays fresh input)
    serve-Stays (upload fresh content_length parent room form) one never =
        kept (upload-Stays fresh content_length parent room form)
    serve-Stays (share id user permission) one never = kept (share-Stays id user permission)
    serve-Stays (update id request) one never = kept (elim (Bool-cases (id == k)) [
      | inl e ↦ rw ((nat_beq_iff id k).0 e) (rw never h)
      | inr e ↦ node-Stays id request e
    ])
    serve-Stays (new_version id form) one never = kept (elim (Bool-cases (id == k)) [
      | inl e ↦ rw ((nat_beq_iff id k).0 e) (rw never h)
      | inr e ↦ new_version-Stays id form e
    ])
    serve-Stays (restore id none) one never = kept h
    serve-Stays (restore id (some version)) one never = kept (elim (Bool-cases (id == k)) [
      | inl e ↦ rw ((nat_beq_iff id k).0 e) (rw never (ground (arith, h)))
      | inr e ↦ restore-Stays id (some version) e
    ])
    serve-Stays (list fails room) one never =
        let t = cleanup_drive_retention down fails (λ _ u. u) s now actor.tenant_id in
        let same : (serve down s now actor (list fails room)).1 ≡ t = ground arith in
        elim (cleanup-row s now actor.tenant_id k n down fails one h) [
          | inl stays ↦ kept (rw same stays)
          | inr (gone, is, may) ↦
              let (at, over, ripe) = retention_over now n.retention_until (ground (arith, may)) in
              purged at (rw same gone) (ground (arith, is)) (ground (arith, may)) over ripe
                (ground (arith, may))
        ]

  -- A node that a caller may not edit, being of another workspace, deleted, or neither the caller's own
  -- nor shared with the caller for editing, keeps its row, whatever the caller asks of the drive, for
  -- this node or others, and whichever statements fail; but a listing, whoever asks for it, may remove
  -- a deleted node of the caller's workspace whose retention is over and that is not on hold.
  pub serve_not_editable :
      (down : Faults) (now : ℕ) (o : Operation)
      → AtMostOne (λ x. x.id == k) s.nodes
      → first (λ x. x.id == k) s.nodes ≡ some n
      → is_editable s actor n ≡ false
      → Fate now o (serve down s now actor o).1
  serve_not_editable down now o one h closed =
      serve-Stays down now h o one (not_edited down one h closed)
