-- ===== src/Drive/Purging.antt =====
-- services/api/internal/httpapi/drive.go: what the cleanup of the drive does to the row of a node.
use xpace.Prelude.{
  ℕ, ◌≡◌, ◌∙◌, refl, sym, ap, inl, inr, ◌⊎◌, String, Bool, true, false, not, ◌&&◌, ◌||◌, some, List,
  [], ◌∷◌, arith, first, exists, keep, ◌==◌, nat_eq, Bool-cases, AtMostOne, first-holds,
}
use xpace.Http.{Faults}
use xpace.Governance.{Store, DriveNode, is_held}
use xpace.Drive.{is_node, remove_object}
use xpace.Drive.Cleanup.{
  is_removable, delete_file, cleanup_file, cleanup_files, cleanup_drive_retention, expired_files,
  has_children,
}

-- The rows under a key after some rows are deleted.
module _ {ℓ} {A : Type ℓ} (p q : A → Bool) where
  first-keep :
      (xs : List A) {x : A} → first p xs ≡ some x → q x ≡ true → first p (keep q xs) ≡ some x
  unfolding first keep
  first-keep [] h k = h
  first-keep (y ∷ xs) {x = x} h k = elim (Bool-cases (p y)) [
    | inl e ↦
        let same : some y ≡ some x = rw e at h in
        let row : y ≡ x = cc in rw (ap q row ∙ k) (rw e same)
    | inr e ↦ elim (Bool-cases (q y)) [
      | inl f ↦ rw f (rw e (first-keep xs (rw e at h) k))
      | inr f ↦ rw f (first-keep xs (rw e at h) k)
    ]
  ]

  exists-keep : (xs : List A) → exists p xs ≡ false → exists p (keep q xs) ≡ false
  unfolding exists keep
  exists-keep [] h = refl
  exists-keep (x ∷ xs) h = ground (arith, h, exists-keep xs (ground (arith, h)))

  AtMostOne-keep : (xs : List A) → AtMostOne p xs → AtMostOne p (keep q xs)
  unfolding keep
  AtMostOne-keep [] h = tt
  AtMostOne-keep (x ∷ xs) h = elim (Bool-cases (q x)) [
    | inl e ↦ rw e ((λ f. exists-keep xs (h.0 f)), AtMostOne-keep xs h.1)
    | inr e ↦ rw e (AtMostOne-keep xs h.1)
  ]

  exists-dropped :
      (xs : List A) {x : A}
      → AtMostOne p xs
      → first p xs ≡ some x
      → q x ≡ false
      → exists p (keep q xs) ≡ false
  unfolding first exists keep
  exists-dropped [] one h k = cc
  exists-dropped (y ∷ xs) {x = x} one h k = elim (Bool-cases (p y)) [
    | inl e ↦
        let same : some y ≡ some x = rw e at h in
        let row : y ≡ x = cc in rw (ap q row ∙ k) (exists-keep xs (one.0 e))
    | inr e ↦ elim (Bool-cases (q y)) [
      | inl f ↦ rw f (rw e (exists-dropped xs one.1 (rw e at h) k))
      | inr f ↦ rw f (exists-dropped xs one.1 (rw e at h) k)
    ]
  ]

module _ (s : Store) (now tenant k : ℕ) (n : DriveNode) where
  -- The row is in place, or it went, being one that the cleanup may remove.
  record Cleaned (t : Store) : Type 0 where
    pub holds : (kind : String) (id : ℕ) → is_held t tenant kind id ≡ is_held s tenant kind id
    pub one : AtMostOne (λ x. x.id == k) t.nodes
    pub row :
        (first (λ x. x.id == k) t.nodes ≡ some n)
        ⊎ ((exists (λ x. x.id == k) t.nodes ≡ false)
            × (is_node k tenant n ≡ true)
            × (is_removable s now tenant n ≡ true))

  removable_same :
      (t : Store) (x : DriveNode)
      → Cleaned t
      → is_removable t now tenant x ≡ is_removable s now tenant x
  removable_same t x h = rw (h.holds "DRIVE_FILE" x.id) refl

  delete-Cleaned : (t : Store) (id : ℕ) → Cleaned t → Cleaned (delete_file t now tenant id)
  unfolding is_held
  delete-Cleaned t id h =
      let q : DriveNode → Bool = λ x. not (is_node id tenant x && is_removable t now tenant x) in
      let mine : DriveNode → Bool = λ x. x.id == k in
      let deletes =
        exists (λ x. is_node id tenant x && is_removable t now tenant x) t.nodes
        && not (has_children t id) in
      elim (Bool-cases deletes) [
        | inr e ↦ rw (delete_file, e) h
        | inl e ↦
            rw (delete_file, e)
              (record {
                holds = h.holds;
                one = AtMostOne-keep mine q t.nodes h.one;
                row = elim h.row [
                  | inr (gone, is, may) ↦ inr (exists-keep mine q t.nodes gone, is, may)
                  | inl here ↦ elim (Bool-cases (q n)) [
                    | inl f ↦ inl (first-keep mine q t.nodes here f)
                    | inr f ↦ inr (
                      exists-dropped mine q t.nodes h.one here f,
                      ground (arith, f, first-holds mine t.nodes here),
                      sym (removable_same t n h) ∙ ground (arith, f),
                    )
                  ]
                ];
              })
      ]

  cleanup_file-Cleaned :
      (down : Faults) (t : Store) (x : DriveNode)
      → Cleaned t
      → Cleaned (cleanup_file down t now tenant x)
  unfolding cleanup_file is_held
  cleanup_file-Cleaned down t x h = elim (Bool-cases (down "remove object")) [
    | inl e ↦ rw e h
    | inr e ↦
        let removed : Cleaned (record t { objects = remove_object x.object_key t.objects }) =
          record { holds = h.holds; one = h.one; row = h.row } in
        elim (Bool-cases (down "delete file")) [
          | inl f ↦ rw (e, f) removed
          | inr f ↦ rw (e, f) (delete-Cleaned _ x.id removed)
        ]
  ]

  -- Nothing else happens during the cleanup.
  cleanup_files-Cleaned :
      (fails : ℕ → Faults) (xs : List DriveNode) (t : Store)
      → Cleaned t
      → Cleaned (cleanup_files fails (λ _ u. u) t now tenant xs)
  unfolding cleanup_files
  cleanup_files-Cleaned fails [] t h = h
  cleanup_files-Cleaned fails (x ∷ xs) t h =
      cleanup_files-Cleaned fails xs (cleanup_file (fails x.id) t now tenant x)
        (cleanup_file-Cleaned (fails x.id) t x h)

  pub cleanup-row :
      (down : Faults) (fails : ℕ → Faults)
      → AtMostOne (λ x. x.id == k) s.nodes
      → first (λ x. x.id == k) s.nodes ≡ some n
      → let t = cleanup_drive_retention down fails (λ _ u. u) s now tenant in
        (first (λ x. x.id == k) t.nodes ≡ some n)
        ⊎ ((exists (λ x. x.id == k) t.nodes ≡ false)
            × (is_node k tenant n ≡ true)
            × (is_removable s now tenant n ≡ true))
  unfolding cleanup_drive_retention
  cleanup-row down fails one here =
      let start : Cleaned s = record { holds = λ kind id. refl; one = one; row = inl here } in
      elim (Bool-cases (down "object client" || down "select expired")) [
        | inl e ↦ rw e (inl here)
        | inr e ↦ rw e (cleanup_files-Cleaned fails (expired_files s now tenant) s start).row
      ]
