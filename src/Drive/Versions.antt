-- ===== src/Drive/Versions.antt =====
-- services/api/internal/httpapi/drive.go: new versions of a file, and going back to an older one.
use xpace.Prelude.{
  ℕ, ◌+◌, String, Bool, not, ◌&&◌, ◌||◌, Option, none, some, List, [], ◌∷◌, ◌++◌, first, exists,
  update_where, ltb, ◌==◌, nat_eq, text_eq, if◌then◌else◌,
}
use xpace.Http.{Response, error_json, respond_json, Faults, CurrentUser}
use xpace.Governance.{Store, DriveNode, DriveVersion, is_file, is_unset, log_event}
use xpace.Drive.{Upload, can_edit_drive_node, is_node, is_size, put_object, take_back, type_of}

abbrev pub is_live_file : ℕ → ℕ → DriveNode → Bool
is_live_file id tenant n = is_node id tenant n && is_file n.kind && is_unset n.deleted_at

abbrev pub same_version : ℕ → ℕ → DriveVersion → Bool
same_version id version v = v.node_id == id && v.version == version

-- INSERT … ON CONFLICT(node_id,version) DO NOTHING
abbrev pub keep_version : DriveVersion → List DriveVersion → List DriveVersion
keep_version v rows =
    if exists (same_version v.node_id v.version) rows then rows else rows ++ v ∷ []

-- What a file is at present, as a row of `drive_versions`.
abbrev pub as_version : CurrentUser → ℕ → DriveNode → DriveVersion
as_version actor id n = record {
  tenant_id = actor.tenant_id;
  node_id = id;
  version = n.version;
  object_key = n.object_key;
  content_type = n.content_type;
  size_bytes = n.size_bytes;
  created_by = actor.id;
}

abbrev pub set_content : (key content_type : String) → (size : ℕ) → DriveNode → DriveNode
set_content key content_type size n = record n {
  object_key = key;
  content_type = content_type;
  size_bytes = size;
  version = n.version + 1;
}

-- The two statements of the transaction: `old` is the file as it was read before.
abbrev pub replace_content :
    CurrentUser
    → (id : ℕ) → (old : DriveNode) → (key content_type : String) → (size : ℕ) → Store
    → Store
replace_content actor id old key content_type size s = record s {
  versions = keep_version (as_version actor id old) s.versions;
  nodes = update_where (is_node id actor.tenant_id) (set_content key content_type size) s.nodes;
}

abbrev pub transaction_fails : Faults → Bool
transaction_fails down = down "insert version" || down "update node" || down "commit"

-- Without a quota check, as in the code.
unfoldable pub store_version :
    Faults → Store → ℕ → CurrentUser → (id : ℕ) → (old : DriveNode) → Upload → Response × Store
store_version down s now actor id old u =
    let stored = record s { objects = put_object u.key s.objects } in
    if down "object client"
    then (error_json 503 "STORAGE_UNAVAILABLE", s)
    else if down "put object"
    then (error_json 502 "STORAGE_ERROR", s)
    else if down "begin" || transaction_fails down
    then (error_json 500 "INTERNAL_ERROR", take_back down u.key stored)
    else (
      respond_json 201,
      log_event down now actor "drive.file.version.created" "drive_node" id
          (replace_content actor id old u.key (type_of u) u.size stored),
    )

-- `driveVersions` on POST.
unfoldable pub upload_version :
    Faults → Store → ℕ → CurrentUser → (id : ℕ) → (form : Option Upload) → Response × Store
upload_version down s now actor id form =
    if not (can_edit_drive_node down s actor id)
    then (error_json 403 "FORBIDDEN", s)
    else elim form [
      | none ↦ (error_json 400 "INVALID_INPUT", s)
      | some u ↦
          if not (is_size u.size)
          then (error_json 413 "FILE_TOO_LARGE", s)
          else if down "select file"
          then (error_json 404 "NOT_FOUND", s)
          else elim (first (is_live_file id actor.tenant_id) s.nodes) [
            | none ↦ (error_json 404 "NOT_FOUND", s)
            | some old ↦ store_version down s now actor id old u
          ]
    ]

abbrev pub is_version_of : ℕ → ℕ → ℕ → DriveVersion → Bool
is_version_of id tenant version v = v.node_id == id && v.tenant_id == tenant && v.version == version

-- The join of the version and its file.
unfoldable pub find_version : Store → (id tenant version : ℕ) → Option (DriveVersion × DriveNode)
find_version s id tenant version = elim (first (is_version_of id tenant version) s.versions) [
  | none ↦ none
  | some v ↦ elim (first (λ n. is_node id tenant n && is_unset n.deleted_at) s.nodes) [
    | none ↦ none
    | some n ↦ some (v, n)
  ]
]

unfoldable pub drive_version_restore :
    Faults → Store → ℕ → CurrentUser → (id : ℕ) → (version : Option ℕ) → Response × Store
drive_version_restore down s now actor id none = (error_json 400 "INVALID_INPUT", s)
drive_version_restore down s now actor id (some version) =
    if ltb version 1
    then (error_json 400 "INVALID_INPUT", s)
    else if not (can_edit_drive_node down s actor id)
    then (error_json 403 "FORBIDDEN", s)
    else if down "select version"
    then (error_json 404 "NOT_FOUND", s)
    else elim (find_version s id actor.tenant_id version) [
      | none ↦ (error_json 404 "NOT_FOUND", s)
      | some (v, n) ↦
          if down "begin" || transaction_fails down then (error_json 500 "INTERNAL_ERROR", s) else (
            respond_json 200,
            log_event down now actor "drive.file.version.restored" "drive_node" id
                (replace_content actor id n v.object_key v.content_type v.size_bytes s),
          )
    ]
