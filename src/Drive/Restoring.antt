-- ===== src/Drive/Restoring.antt =====
-- services/api/internal/httpapi/drive.go: `driveVersions` before `driveVersionRestore`.
use text.Mathlib.TextPositions.{eq_refl}
use xpace.Prelude.{
  ℕ, ◌+◌, ◌≤◌, ◌≡◌, ◌∙◌, refl, String, true, false, ◌&&◌, some, [], ◌∷◌, ◌++◌, arith, first, exists,
  update_where, ltb, nat_eq, text_eq, first-append, first-none, first-holds, first-by_key,
  exists_of_found, AtMostOne, AtMostOne-update, exists-append, first-update_row, first-narrow,
  exists-narrow, List, inl, inr, Bool-cases, ◌==◌, if◌then◌else◌, is_empty,
}
use xpace.Http.{no_faults, Faults, CurrentUser}
use xpace.Governance.{Store, DriveNode, DriveVersion, is_unset}
use xpace.Drive.{Upload, can_edit_drive_node, is_node, may_edit, is_size, type_of, put_object}
use xpace.Drive.Versions.{
  is_live_file, same_version, as_version, set_content, store_version, upload_version, is_version_of,
  find_version, drive_version_restore,
}

-- A file that its caller can change, of which no version is stored from the present one on.
pub record IsCurrent (s : Store) (actor : CurrentUser) (id : ℕ) (n : DriveNode) : Type 0 where
  pub one : AtMostOne (is_node id actor.tenant_id) s.nodes
  pub here : first (is_live_file id actor.tenant_id) s.nodes ≡ some n
  pub editable : may_edit s actor n ≡ true
  pub positive : 1 ≤ n.version
  pub is_next : (k : ℕ) → n.version ≤ k → exists (same_version id k) s.versions ≡ false

-- What the two statements of a transaction leave.
record Replaced (s t : Store) (actor : CurrentUser) (id : ℕ) (n : DriveNode) (key kind : String)
    (size : ℕ) : Type 0 where
  pub nodes :
      t.nodes ≡ update_where (is_node id actor.tenant_id) (set_content key kind size) s.nodes
  pub versions : t.versions ≡ s.versions ++ as_version actor id n ∷ []
  pub shares : t.shares ≡ s.shares

module _ (s : Store) (actor : CurrentUser) (id : ℕ) (n : DriveNode)
    (h : IsCurrent s actor id n) where
  node_here : first (is_node id actor.tenant_id) s.nodes ≡ some n
  node_here =
      first-by_key (is_node id actor.tenant_id) (is_live_file id actor.tenant_id) s.nodes n h.one
        h.here (ground (arith, first-holds (is_live_file id actor.tenant_id) s.nodes h.here))

  can_edit :
      (down : Faults) → down "select editable" ≡ false → can_edit_drive_node down s actor id ≡ true
  unfolding can_edit_drive_node
  can_edit down up = rw up (
      exists_of_found
        (λ x. is_node id actor.tenant_id x && is_unset x.deleted_at && may_edit s actor x)
        (is_live_file id actor.tenant_id) s.nodes n h.here
        (ground (arith, h.editable, first-holds (is_live_file id actor.tenant_id) s.nodes h.here)))

  upload_rows :
      (now : ℕ) (u : Upload)
      → is_size u.size ≡ true
      → let t = (upload_version no_faults s now actor id (some u)).1 in
        Replaced s t actor id n u.key (type_of u) u.size × (t.objects ≡ put_object u.key s.objects)
  unfolding upload_version store_version
  upload_rows now u size =
      rw (upload_version, can_edit no_faults refl, size, h.here, store_version)
        (
          (record {
            nodes = refl;
            versions = rw (h.is_next n.version (ground arith)) refl;
            shares = refl;
          }),
          refl,
        )

  restore_rows :
      (now version : ℕ) (v : DriveVersion)
      → 1 ≤ version
      → first (is_version_of id actor.tenant_id version) s.versions ≡ some v
      → let t = (drive_version_restore no_faults s now actor id (some version)).1 in
        Replaced s t actor id n v.object_key v.content_type v.size_bytes × (t.objects ≡ s.objects)
  unfolding drive_version_restore find_version
  restore_rows now version v pos found =
      let live : first (λ x. is_node id actor.tenant_id x && is_unset x.deleted_at) s.nodes
          ≡ some n =
        first-narrow (is_node id actor.tenant_id) _ s.nodes (λ y k. ground (arith, k)) node_here
          (ground (arith, first-holds (is_live_file id actor.tenant_id) s.nodes h.here)) in
      let small : ltb version 1 ≡ false = ground arith in
      rw (drive_version_restore, small, can_edit no_faults refl, find_version, found, live)
        (
          (record {
            nodes = refl;
            versions = rw (h.is_next n.version (ground arith)) refl;
            shares = refl;
          }),
          refl,
        )

  -- The file after the transaction is current again.
  Replaced-IsCurrent :
      (t : Store) (key kind : String) (size : ℕ)
      → Replaced s t actor id n key kind size
      → IsCurrent t actor id (set_content key kind size n)
  Replaced-IsCurrent t key kind size r = record {
    one = rw r.nodes (
        AtMostOne-update (is_node id actor.tenant_id) (is_node id actor.tenant_id)
          (set_content key kind size) s.nodes (λ x. refl) h.one);
    here = rw r.nodes (
        first-update_row (is_node id actor.tenant_id) (is_live_file id actor.tenant_id)
          (set_content key kind size) s.nodes n (λ x. refl) h.here
        ∙ rw (first-holds (is_node id actor.tenant_id) s.nodes node_here) refl);
    editable = rw r.shares h.editable;
    positive = ground (arith, h.positive);
    is_next = λ k le. rw r.versions (
        exists-append (same_version id k) s.versions (as_version actor id n)
        ∙ rw (h.is_next k (ground (arith, le))) (ground (arith, le)));
  }

  kept_version :
      (t : Store) (key kind : String) (size : ℕ)
      → Replaced s t actor id n key kind size
      → first (is_version_of id actor.tenant_id n.version) t.versions ≡ some (as_version actor id n)
  kept_version t key kind size r =
      rw
        (
          r.versions,
          first-append (is_version_of id actor.tenant_id n.version) s.versions
              (as_version actor id n),
          first-none _ _ (
              exists-narrow (same_version id n.version) (is_version_of id actor.tenant_id n.version)
                s.versions (λ y k. ground (arith, k)) (h.is_next n.version (ground arith))),
        )
        (ground arith)

exists-put_object :
    (key : String) (objects : List String) → exists (λ k. k == key) (put_object key objects) ≡ true
exists-put_object key objects = elim (Bool-cases (exists (λ k. k == key) objects)) [
  | inl e ↦ rw e e
  | inr e ↦ rw e (exists-append (λ k. k == key) objects key ∙ rw (eq_refl key) (ground arith))
]

-- Where its caller can change a file and no statement fails, a new version followed by going back to
-- the one before it gives the file its content back, two versions on, and keeps what was uploaded: its
-- object in the storage, and its key, type, size and author as the version in between.
pub restore-upload_version :
    (s : Store) (actor : CurrentUser) (id : ℕ) (n : DriveNode) (now later : ℕ) (u : Upload)
    → IsCurrent s actor id n
    → is_size u.size ≡ true
    → let t = (upload_version no_faults s now actor id (some u)).1 in
      let r = (drive_version_restore no_faults t later actor id (some n.version)).1 in
      (first (is_live_file id actor.tenant_id) r.nodes
        ≡ some (record n { version = n.version + 1 + 1 }))
      × (first (is_version_of id actor.tenant_id (n.version + 1)) r.versions
          ≡ some (record {
            tenant_id = actor.tenant_id;
            node_id = id;
            version = n.version + 1;
            object_key = u.key;
            content_type =
                if is_empty u.content_type then "application/octet-stream" else u.content_type;
            size_bytes = u.size;
            created_by = actor.id;
          }))
      × (exists (λ k. k == u.key) r.objects ≡ true)
restore-upload_version s actor id n now later u h size =
    let t = (upload_version no_faults s now actor id (some u)).1 in
    let (up, put) = upload_rows s actor id n h now u size in
    let n2 = set_content u.key (type_of u) u.size n in
    let h2 = Replaced-IsCurrent s actor id n h t u.key (type_of u) u.size up in
    let kept = kept_version s actor id n h t u.key (type_of u) u.size up in
    let r = (drive_version_restore no_faults t later actor id (some n.version)).1 in
    let (back, kept_objects) =
      restore_rows t actor id n2 h2 later n.version (as_version actor id n) h.positive kept in
    let h3 = Replaced-IsCurrent t actor id n2 h2 r n.object_key n.content_type n.size_bytes back in
    (
      h3.here,
      kept_version t actor id n2 h2 r n.object_key n.content_type n.size_bytes back,
      rw (kept_objects, put) (exists-put_object u.key s.objects),
    )
