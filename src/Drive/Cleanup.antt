-- ===== src/Drive/Cleanup.antt =====
-- services/api/internal/httpapi/drive.go: `cleanupDriveRetention`, which removes deleted files once their
-- retention is over, and the listing of the drive, which runs it. `fails` gives the failing statements for each file, and `meanwhile` what other
-- requests do before each file, after the list of files was read.
use xpace.Prelude.{
  ℕ, Bool, true, false, not, ◌&&◌, ◌||◌, Option, none, some, List, [], ◌∷◌, exists, keep, sort_by,
  take, leb, ◌==◌, nat_eq, text_eq, if◌then◌else◌,
}
use xpace.Http.{Faults, Response, error_json, respond_json, CurrentUser}
use xpace.Governance.{Store, DriveNode, is_file, is_unset, is_held}
use xpace.Drive.{is_node, remove_object, is_room_member, when_given}

abbrev pub is_over : ℕ → Option ℕ → Bool
is_over now none = false
is_over now (some t) = leb t now

-- deleted_at IS NOT NULL AND retention_until<=NOW() AND NOT EXISTS(…)
abbrev pub is_removable : Store → ℕ → ℕ → DriveNode → Bool
is_removable s now tenant n =
    not (is_unset n.deleted_at)
    && is_over now n.retention_until
    && not (is_held s tenant "DRIVE_FILE" n.id)

abbrev pub is_expired : Store → ℕ → ℕ → DriveNode → Bool
is_expired s now tenant n = n.tenant_id == tenant && is_file n.kind && is_removable s now tenant n

abbrev pub before : Option ℕ → Option ℕ → Bool
before none t = false
before (some a) none = true
before (some a) (some b) = leb a b

-- ORDER BY retention_until
abbrev pub by_retention : DriveNode → DriveNode → Bool
by_retention n m = before n.retention_until m.retention_until

unfoldable pub expired_files : Store → (now tenant : ℕ) → List DriveNode
expired_files s now tenant = take 50 (sort_by by_retention (keep (is_expired s now tenant) s.nodes))

-- The DELETE takes the shares and versions of a file with it; a node that has children stays.
abbrev pub has_children : Store → ℕ → Bool
has_children s id = exists (λ n. elim n.parent_id [ none ↦ false | some p ↦ p == id ]) s.nodes

abbrev pub delete_file : Store → (now tenant id : ℕ) → Store
delete_file s now tenant id =
    if exists (λ n. is_node id tenant n && is_removable s now tenant n) s.nodes
      && not (has_children s id)
    then record s {
      nodes = keep (λ n. not (is_node id tenant n && is_removable s now tenant n)) s.nodes;
      versions = keep (λ v. not (v.node_id == id)) s.versions;
      shares = keep (λ x. not (x.node_id == id)) s.shares;
    }
    else s

-- One file: its object is removed first, and then the row, which alone asks again for a hold.
unfoldable pub cleanup_file : Faults → Store → (now tenant : ℕ) → DriveNode → Store
cleanup_file down s now tenant n =
    if down "remove object"
    then s
    else let removed = record s { objects = remove_object n.object_key s.objects } in
      if down "delete file" then removed else delete_file removed now tenant n.id

unfoldable pub cleanup_files :
    (fails : ℕ → Faults)
    → (meanwhile : ℕ → Store → Store) → Store
    → (now tenant : ℕ) → List DriveNode
    → Store
cleanup_files fails meanwhile s now tenant [] = s
cleanup_files fails meanwhile s now tenant (n ∷ rest) =
    cleanup_files fails meanwhile (cleanup_file (fails n.id) (meanwhile n.id s) now tenant n) now
      tenant rest

unfoldable pub cleanup_drive_retention :
    Faults
    → (fails : ℕ → Faults) → (meanwhile : ℕ → Store → Store) → Store
    → (now tenant : ℕ) → Store
cleanup_drive_retention down fails meanwhile s now tenant =
    if down "object client" || down "select expired"
    then s
    else cleanup_files fails meanwhile s now tenant (expired_files s now tenant)

-- `driveNodes` on GET, which cleans up first; of the answer only the status is modelled.
unfoldable pub list_nodes :
    Faults
    → (fails : ℕ → Faults) → (meanwhile : ℕ → Store → Store) → Store
    → (now : ℕ) → CurrentUser
    → (room : Option ℕ) → Response × Store
list_nodes down fails meanwhile s now actor room =
    let cleaned = cleanup_drive_retention down fails meanwhile s now actor.tenant_id in
    if not (when_given (is_room_member down cleaned actor) room)
    then (error_json 404 "NOT_FOUND", cleaned)
    else if down "select nodes"
    then (error_json 500 "INTERNAL_ERROR", cleaned)
    else (respond_json 200, cleaned)
