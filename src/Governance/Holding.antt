-- ===== src/Governance/Holding.antt =====
-- services/api/internal/httpapi/governance.go and drive.go: retention before a legal hold.
use xpace.Prelude.{
  ℕ, ◌≡◌, ◌∙◌, refl, inl, inr, String, true, false, ◌&&◌, List, [], ◌∷◌, arith, exists, keep, ◌==◌,
  nat_eq, text_eq, Bool-cases, exists-none, nat_beq_iff, eq_iff,
}
use xpace.Http.{Faults}
use xpace.Governance.{Store, DriveNode, is_held}
use xpace.Drive.Cleanup
use xpace.Drive.{is_node, remove_object}
use xpace.Drive.Cleanup.{
  is_expired, by_retention, expired_files, delete_file, cleanup_file, cleanup_files,
  cleanup_drive_retention, has_children,
}

pub exists-remove_object :
    (key other : String) (objects : List String)
    → (other == key) ≡ false
    → exists (λ k. k == key) (remove_object other objects) ≡ exists (λ k. k == key) objects
unfolding exists keep
exists-remove_object key other [] h = refl
exists-remove_object key other (k ∷ rest) h = elim (Bool-cases (k == other)) [
  | inl e ↦
      let same : k ≡ other = (eq_iff k other).0 e in
      rw (e, exists-remove_object key other rest h) (rw (same, h) refl)
  | inr e ↦ rw (e, exists-remove_object key other rest h) refl
]

exists-removed :
    (key : String) (objects : List String)
    → exists (λ k. k == key) (remove_object key objects) ≡ false
unfolding exists keep
exists-removed key [] = refl
exists-removed key (k ∷ rest) = elim (Bool-cases (k == key)) [
  | inl e ↦ rw e (exists-removed key rest)
  | inr e ↦ rw e (rw (e, exists-removed key rest) refl)
]

-- Removing an object is nothing to the holds.
pub held_without :
    (s : Store) (tenant : ℕ) (kind : String) (id : ℕ) (objects : List String)
    → is_held (record s { objects = objects }) tenant kind id ≡ is_held s tenant kind id
unfolding is_held
held_without s tenant kind id objects = refl

-- No row that is held is one that a condition with `not held` selects.
module _ (s : Store) (tenant : ℕ) (id : ℕ) where
  none_removable :
      (now : ℕ)
      → is_held s tenant "DRIVE_FILE" id ≡ true
      → (x : DriveNode) → (is_node id tenant x && Cleanup.is_removable s now tenant x) ≡ false
  none_removable now held x = elim (Bool-cases (x.id == id)) [
    | inl e ↦ rw ((nat_beq_iff x.id id).0 e, held) (ground arith)
    | inr e ↦ rw e refl
  ]

-- When a file that is held by then has its turn in the cleanup of the drive, its object is removed
-- from the storage, if the storage does not fail, while its row stays.
pub cleanup_file_held :
    (down : Faults) (s : Store) (now tenant : ℕ) (n : DriveNode)
    → is_held s tenant "DRIVE_FILE" n.id ≡ true
    → down "remove object" ≡ false
    → ((cleanup_file down s now tenant n).nodes ≡ s.nodes)
      × (exists (λ k. k == n.object_key) (cleanup_file down s now tenant n).objects ≡ false)
unfolding cleanup_file
cleanup_file_held down s now tenant n held up =
    let removed = record s { objects = remove_object n.object_key s.objects } in
    let stays = exists-none _ s.nodes (
      none_removable removed tenant n.id now
        (held_without s tenant "DRIVE_FILE" n.id (remove_object n.object_key s.objects) ∙ held)) in
    elim (Bool-cases (down "delete file")) [
      | inl e ↦ rw (up, e) (refl, exists-removed n.object_key s.objects)
      | inr e ↦ rw (up, e, delete_file, stays) (refl, exists-removed n.object_key s.objects)
    ]
