-- ===== src/Drive.antt =====
-- services/api/internal/httpapi/drive.go: files and folders, who may change them, and their versions.
-- Uploads come in as an argument: their size, type and name, and the key under which the object is
-- stored, which the code makes of the time. Times are in seconds.
pub mod Versions
pub mod Cleanup
mod Purging
pub mod Restoring
pub mod Access
mod Examples
use Prim.Native.String.{len, count}
use xpace.Prelude.{
  ℕ, ◌+◌, ◌*◌, String, Bool, true, false, not, ◌&&◌, ◌||◌, Option, none, some, List, [], ◌∷◌, ◌++◌,
  first, exists, keep, update_where, ltb, leb, ◌==◌, nat_eq, text_eq, if◌then◌else◌, trim_space,
  to_upper, is_empty,
}
use xpace.Http.{Response, error_json, respond_json, Faults, CurrentUser, User, is_active}
use xpace.Governance.{
  Store, Policy, DriveNode, DriveVersion, DriveShare, NodeKind, RoomMember, is_file, is_unset,
  is_held, of_tenant, log_event,
}
use xpace.Plans.{Quota, allowed, denied, failed, enforce_tenant_quota}

abbrev pub day : ℕ
day = 86400

abbrev pub max_drive_upload : ℕ
max_drive_upload = 100 * 1048576

-- `isRoomMember` of rooms.go
unfoldable pub is_room_member : Faults → Store → CurrentUser → (room : ℕ) → Bool
is_room_member down s actor room =
    not (down "select member")
    && exists (λ m. m.room_id == room && m.tenant_id == actor.tenant_id && m.user_id == actor.id)
        s.room_members

-- id=$1 AND tenant_id=$2
abbrev pub is_node : ℕ → ℕ → DriveNode → Bool
is_node id tenant n = n.id == id && n.tenant_id == tenant

abbrev pub is_share_of : ℕ → CurrentUser → DriveShare → Bool
is_share_of id actor x = x.node_id == id && x.tenant_id == actor.tenant_id && x.user_id == actor.id

abbrev pub may_edit : Store → CurrentUser → DriveNode → Bool
may_edit s actor n =
    n.owner_id == actor.id
    || exists (λ x. is_share_of n.id actor x && x.permission == "EDIT") s.shares

unfoldable pub can_edit_drive_node : Faults → Store → CurrentUser → (id : ℕ) → Bool
can_edit_drive_node down s actor id =
    not (down "select editable")
    && exists (λ n. is_node id actor.tenant_id n && is_unset n.deleted_at && may_edit s actor n)
        s.nodes

-- An identifier that may be missing: no test where it is.
abbrev pub when_given : (ℕ → Bool) → Option ℕ → Bool
when_given p none = true
when_given p (some id) = p id

abbrev pub is_name : String → Bool
is_name name = not (is_empty (trim_space name)) && leb (len (trim_space name)) 255

-- The foreign key of a parent.
abbrev pub has_parent : Store → ℕ → Option ℕ → Bool
has_parent s tenant parent = when_given (λ id. exists (is_node id tenant) s.nodes) parent

pub record FolderInput : Type 0 where
  pub name : String
  pub parent_id : Option ℕ
  pub room_id : Option ℕ

abbrev pub folder_node : CurrentUser → ℕ → FolderInput → DriveNode
folder_node actor fresh input = record {
  id = fresh;
  tenant_id = actor.tenant_id;
  parent_id = input.parent_id;
  room_id = input.room_id;
  owner_id = actor.id;
  kind = NodeKind.folder;
  name = trim_space input.name;
  object_key = "";
  content_type = "";
  size_bytes = 0;
  version = 1;
  retention_until = none;
  deleted_at = none;
}

unfoldable pub create_folder :
    Faults → Store → ℕ → CurrentUser → (fresh : ℕ) → Option FolderInput → Response × Store
create_folder down s now actor fresh none = (error_json 400 "INVALID_INPUT", s)
create_folder down s now actor fresh (some input) =
    if not (is_name input.name)
    then (error_json 400 "INVALID_INPUT", s)
    else if not (when_given (can_edit_drive_node down s actor) input.parent_id)
    then (error_json 403 "FORBIDDEN", s)
    else if not (when_given (is_room_member down s actor) input.room_id)
    then (error_json 404 "NOT_FOUND", s)
    else if down "insert folder"
    then (error_json 500 "INTERNAL_ERROR", s)
    else (
      respond_json 201,
      log_event down now actor "drive.folder.created" "drive_node" fresh
          (record s { nodes = s.nodes ++ folder_node actor fresh input ∷ [] }),
    )

-- A file of a form: `name` is the base of the trimmed file name, `key` the new object's.
pub record Upload : Type 0 where
  pub size : ℕ
  pub content_type : String
  pub name : String
  pub key : String

abbrev pub type_of : Upload → String
type_of u = if is_empty u.content_type then "application/octet-stream" else u.content_type

abbrev pub is_size : ℕ → Bool
is_size n = ltb 0 n && leb n max_drive_upload

abbrev pub put_object : String → List String → List String
put_object key objects = if exists (λ k. k == key) objects then objects else objects ++ key ∷ []

abbrev pub remove_object : String → List String → List String
remove_object key objects = keep (λ k. not (k == key)) objects

-- `_ = client.RemoveObject(…)` after a failure: an error leaves the new object behind.
abbrev pub take_back : Faults → String → Store → Store
take_back down key s =
    if down "remove object" then s else record s { objects = remove_object key s.objects }

abbrev pub file_node : CurrentUser → ℕ → ℕ → Option ℕ → Option ℕ → Upload → DriveNode
file_node actor now fresh parent room u = record {
  id = fresh;
  tenant_id = actor.tenant_id;
  parent_id = parent;
  room_id = room;
  owner_id = actor.id;
  kind = NodeKind.file;
  name = u.name;
  object_key = u.key;
  content_type = type_of u;
  size_bytes = u.size;
  version = 1;
  retention_until = some (now + 30 * day);
  deleted_at = none;
}

-- The CHECK on a name's characters can refuse an uploaded file's.
unfoldable pub store_upload :
    Faults → Store → ℕ → CurrentUser → ℕ → Option ℕ → Option ℕ → Upload → Response × Store
store_upload down s now actor fresh parent room u =
    let stored = record s { objects = put_object u.key s.objects } in
    if down "object client"
    then (error_json 503 "STORAGE_UNAVAILABLE", s)
    else if down "put object"
    then (error_json 502 "STORAGE_ERROR", s)
    else if down "insert file" || ltb 255 (count u.name)
    then (error_json 500 "INTERNAL_ERROR", take_back down u.key stored)
    else (
      respond_json 201,
      log_event down now actor "drive.file.uploaded" "drive_node" fresh
          (record stored { nodes = s.nodes ++ file_node actor now fresh parent room u ∷ [] }),
    )

-- `content_length` is the request's; `form` is `none` where it cannot be read or has no file.
unfoldable pub drive_upload :
    Faults
    → Store
    → ℕ
    → CurrentUser
    → (fresh content_length : ℕ) → (parent room : Option ℕ) → (form : Option Upload)
    → Response × Store
drive_upload down s now actor fresh content_length parent room form =
    if ltb (max_drive_upload + 1048576) content_length
    then (error_json 413 "FILE_TOO_LARGE", s)
    else elim form [
      | none ↦ (error_json 400 "INVALID_INPUT", s)
      | some u ↦
          if not (is_size u.size)
          then (error_json 413 "FILE_TOO_LARGE", s)
          else if not (when_given (is_room_member down s actor) room)
          then (error_json 404 "NOT_FOUND", s)
          else if not (when_given (can_edit_drive_node down s actor) parent)
          then (error_json 403 "FORBIDDEN", s)
          else elim (enforce_tenant_quota down now s.plans actor.tenant_id "drive" u.size) [
            | allowed ↦ store_upload down s now actor fresh parent room u
            | denied status code ↦ (error_json status code, s)
            | failed ↦ (error_json 500 "INTERNAL_ERROR", s)
          ]
    ]

-- COALESCE((SELECT drive_trash_retention_days …),30)
abbrev pub trash_days : Store → ℕ → ℕ
trash_days s tenant = elim (first (of_tenant tenant) s.policies) [
  | none ↦ 30
  | some p ↦ p.drive_trash_retention_days
]

-- GREATEST(COALESCE(retention_until,NOW()),NOW()+…)
abbrev pub later_of : Option ℕ → ℕ → ℕ → ℕ
later_of none now until = if ltb until now then now else until
later_of (some t) now until = if ltb until t then t else until

abbrev pub trash : Store → ℕ → ℕ → DriveNode → DriveNode
trash s tenant now n = record n {
  deleted_at = some now;
  retention_until = some (later_of n.retention_until now (now + trash_days s tenant * day));
}

pub record NodeInput : Type 0 where
  pub name : String
  pub parent_id : Option ℕ

abbrev pub rename : NodeInput → DriveNode → DriveNode
rename input n = record n {
  name = trim_space input.name;
  parent_id = input.parent_id;
  version = n.version + 1;
}

pub data NodeRequest : Type 0 where
  delete : NodeRequest
  change : Option NodeInput → NodeRequest

unfoldable pub change_node :
    Faults → Store → ℕ → CurrentUser → (id : ℕ) → Option NodeInput → Response × Store
change_node down s now actor id none = (error_json 400 "INVALID_INPUT", s)
change_node down s now actor id (some input) =
    if not (is_name input.name)
    then (error_json 400 "INVALID_INPUT", s)
    else if down "update node" || not (has_parent s actor.tenant_id input.parent_id)
    then (error_json 500 "INTERNAL_ERROR", s)
    else (
      respond_json 204,
      log_event down now actor "drive.node.updated" "drive_node" id
          (record s { nodes = update_where (is_node id actor.tenant_id) (rename input) s.nodes }),
    )

unfoldable pub drive_node_update :
    Faults → Store → ℕ → CurrentUser → (id : ℕ) → NodeRequest → Response × Store
drive_node_update down s now actor id request =
    if not (can_edit_drive_node down s actor id)
    then (error_json 403 "FORBIDDEN", s)
    else elim request [
      | delete ↦ if down "delete node" then (error_json 500 "INTERNAL_ERROR", s) else (
        respond_json 204,
        log_event down now actor "drive.node.deleted" "drive_node" id (record s {
          nodes = update_where (is_node id actor.tenant_id) (trash s actor.tenant_id now) s.nodes;
        }),
      )
      | change input ↦ change_node down s now actor id input
    ]

abbrev pub is_owned : ℕ → CurrentUser → DriveNode → Bool
is_owned id actor n =
    is_node id actor.tenant_id n && n.owner_id == actor.id && is_unset n.deleted_at

abbrev pub share_permission : String → String
share_permission p = to_upper (trim_space p)

abbrev pub same_share : ℕ → ℕ → DriveShare → Bool
same_share id user x = x.node_id == id && x.user_id == user

-- INSERT … SELECT … FROM users … ON CONFLICT(node_id,user_id) DO UPDATE
abbrev pub upsert_share : DriveShare → List DriveShare → List DriveShare
upsert_share x rows =
    if exists (same_share x.node_id x.user_id) rows
    then update_where (same_share x.node_id x.user_id) (λ y. record y { permission = x.permission })
        rows
    else rows ++ x ∷ []

abbrev pub is_active_user : ℕ → ℕ → User → Bool
is_active_user user tenant u = u.id == user && u.tenant_id == tenant && is_active u.status

unfoldable pub drive_share :
    Faults → Store → ℕ → CurrentUser → (id user : ℕ) → Option String → Response × Store
drive_share down s now actor id user permission =
    if down "select owner" || not (exists (is_owned id actor) s.nodes)
    then (error_json 403 "FORBIDDEN", s)
    else elim permission [
      | none ↦ (error_json 400 "INVALID_INPUT", s)
      | some p ↦
          if not (share_permission p == "VIEW") && not (share_permission p == "EDIT")
          then (error_json 400 "INVALID_INPUT", s)
          else if down "upsert share"
          then (error_json 500 "INTERNAL_ERROR", s)
          else if not (exists (is_active_user user actor.tenant_id) s.rbac.users)
          then (error_json 404 "NOT_FOUND", s)
          else (
            respond_json 204,
            log_event down now actor "drive.node.shared" "drive_node" id (record s {
              shares =
                  upsert_share
                    (record {
                      node_id = id;
                      tenant_id = actor.tenant_id;
                      user_id = user;
                      permission = share_permission p;
                    })
                    s.shares;
            }),
          )
    ]
