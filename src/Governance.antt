-- ===== src/Governance.antt =====
-- services/api/internal/httpapi/governance.go: retention policies and legal holds; with the tables that
-- retention and the drive (drive.go) work on. Times are in seconds. The object storage is the list of
-- the keys that it holds.

pub mod Retention
pub mod Worker
pub mod Holding
pub mod Recordings
mod Examples
use Prim.Native.String.{len}
use xpace.Prelude.{
  ℕ, ◌+◌, String, Bool, true, false, not, ◌&&◌, ◌||◌, Option, none, some, List, [], ◌∷◌, ◌++◌,
  exists, keep, update_where, ltb, leb, ◌==◌, nat_eq, text_eq, if◌then◌else◌, trim_space, to_upper,
  ℤ,
}
use xpace.Http.{Response, error_json, respond_json, Faults, CurrentUser, AuditEvent}
use xpace.Rbac
use xpace.Rbac.{has_permission}
use xpace.Plans

-- A row of `tenant_governance_policies`, all in days.
pub record Policy : Type 0 where
  pub tenant_id : ℕ
  pub recording_retention_days : ℕ
  pub drive_trash_retention_days : ℕ
  pub chat_retention_days : ℕ
  pub audit_retention_days : ℕ

pub data HoldStatus : Type 0 where
  active released : HoldStatus

pub record LegalHold : Type 0 where
  pub id : ℕ
  pub tenant_id : ℕ
  pub name : String
  pub reason : String
  pub status : HoldStatus
  pub released_at : Option ℕ

-- The types of a resource are texts, as in the column.
pub record HeldResource : Type 0 where
  pub hold_id : ℕ
  pub tenant_id : ℕ
  pub resource_type : String
  pub resource_id : ℕ

pub record Message : Type 0 where
  pub id : ℕ
  pub tenant_id : ℕ
  pub conversation_id : ℕ
  pub body : String
  pub created_at : ℕ
  pub edited_at : Option ℕ
  pub deleted_at : Option ℕ

pub record Attachment : Type 0 where
  pub id : ℕ
  pub tenant_id : ℕ
  pub message_id : ℕ
  pub conversation_id : ℕ
  pub object_key : String
  pub created_at : ℕ

-- `recording_status`
pub data RecordingStatus : Type 0 where
  starting recording stopping ready failed : RecordingStatus

pub record Recording : Type 0 where
  pub id : ℕ
  pub tenant_id : ℕ
  pub meeting_id : ℕ
  pub started_by : ℕ
  pub object_key : String
  pub status : RecordingStatus
  pub egress_id : Option String
  pub stopped_at : Option ℕ
  pub size_bytes : ℕ
  pub created_at : ℕ
  pub retention_expired_at : Option ℕ
  pub storage_deleted_at : Option ℕ

pub data NodeKind : Type 0 where
  file folder : NodeKind

-- A row of `drive_nodes`. A folder has no object.
pub record DriveNode : Type 0 where
  pub id : ℕ
  pub tenant_id : ℕ
  pub parent_id : Option ℕ
  pub room_id : Option ℕ
  pub owner_id : ℕ
  pub kind : NodeKind
  pub name : String
  pub object_key : String
  pub content_type : String
  pub size_bytes : ℕ
  pub version : ℕ
  pub retention_until : Option ℕ
  pub deleted_at : Option ℕ

pub record DriveVersion : Type 0 where
  pub tenant_id : ℕ
  pub node_id : ℕ
  pub version : ℕ
  pub object_key : String
  pub content_type : String
  pub size_bytes : ℕ
  pub created_by : ℕ

pub record DriveShare : Type 0 where
  pub node_id : ℕ
  pub tenant_id : ℕ
  pub user_id : ℕ
  pub permission : String

pub record RoomMember : Type 0 where
  pub room_id : ℕ
  pub tenant_id : ℕ
  pub user_id : ℕ

pub record AuditRow : Type 0 where
  pub event : AuditEvent
  pub created_at : ℕ

pub record Store : Type 0 where
  pub rbac : Rbac.Store
  pub plans : Plans.Store
  pub room_members : List RoomMember
  pub conversations : List (ℕ × ℕ)
  pub policies : List Policy
  pub holds : List LegalHold
  pub resources : List HeldResource
  pub messages : List Message
  pub attachments : List Attachment
  pub recordings : List Recording
  pub nodes : List DriveNode
  pub versions : List DriveVersion
  pub shares : List DriveShare
  pub objects : List String
  pub audit : List AuditRow

abbrev pub log_event : Faults → ℕ → CurrentUser → String → String → ℕ → Store → Store
log_event down now actor action resource_type id s = if down "audit" then s else record s {
  audit =
      s.audit
      ++ record {
        event = record {
          tenant_id = actor.tenant_id;
          actor_id = some actor.id;
          action = action;
          resource_type = resource_type;
          resource_id = id;
        };
        created_at = now;
      }
        ∷ [];
}

abbrev pub is_active_hold : HoldStatus → Bool
is_active_hold HoldStatus.active = true
is_active_hold HoldStatus.released = false

abbrev pub is_hold : ℕ → ℕ → LegalHold → Bool
is_hold id tenant h = h.id == id && h.tenant_id == tenant

abbrev pub is_held_by : List LegalHold → ℕ → String → ℕ → HeldResource → Bool
is_held_by holds tenant kind id r =
    r.tenant_id == tenant
    && r.resource_type == kind
    && r.resource_id == id
    && exists (λ h. is_hold r.hold_id r.tenant_id h && is_active_hold h.status) holds

-- EXISTS(SELECT 1 FROM legal_hold_resources … JOIN legal_holds … status='ACTIVE')
unfoldable pub is_held : Store → (tenant : ℕ) → (kind : String) → (id : ℕ) → Bool
is_held s tenant kind id = exists (is_held_by s.holds tenant kind id) s.resources

-- A policy as it comes in: any whole numbers.
pub record PolicyInput : Type 0 where
  pub recording : ℤ
  pub drive : ℤ
  pub chat : ℤ
  pub audit : ℤ

abbrev pub between : ℕ → ℕ → ℤ → Bool
between lo hi (ℤ.pos n) = leb lo n && leb n hi
between lo hi (ℤ.negsuc n) = false

abbrev pub days : ℤ → ℕ
days (ℤ.pos n) = n
days (ℤ.negsuc n) = 0

unfoldable pub validate : PolicyInput → Bool
validate p =
    between 1 3650 p.recording
    && between 1 3650 p.drive
    && between 1 3650 p.chat
    && between 30 3650 p.audit

abbrev pub of_tenant : ℕ → Policy → Bool
of_tenant tenant p = p.tenant_id == tenant

-- INSERT … ON CONFLICT(tenant_id) DO UPDATE
abbrev pub upsert_policy : Policy → List Policy → List Policy
upsert_policy p rows =
    if exists (of_tenant p.tenant_id) rows
    then update_where (of_tenant p.tenant_id) (λ _. p) rows
    else rows ++ p ∷ []

unfoldable pub admin_governance_policy :
    Faults → Store → ℕ → CurrentUser → Option PolicyInput → Response × Store
admin_governance_policy down s now actor input =
    if not (has_permission down s.rbac actor "governance.manage")
    then (error_json 403 "GOVERNANCE_REQUIRED", s)
    else elim input [
      | none ↦ (error_json 400 "INVALID_INPUT", s)
      | some p ↦
          if not (validate p)
          then (error_json 400 "INVALID_RETENTION_POLICY", s)
          else if down "upsert policy"
          then (error_json 500 "INTERNAL_ERROR", s)
          else (
            respond_json 200,
            log_event down now actor "governance.policy.update" "tenant" actor.tenant_id (record s {
              policies =
                  upsert_policy
                    (record {
                      tenant_id = actor.tenant_id;
                      recording_retention_days = days p.recording;
                      drive_trash_retention_days = days p.drive;
                      chat_retention_days = days p.chat;
                      audit_retention_days = days p.audit;
                    })
                    s.policies;
            }),
          )
    ]

pub record HoldInput : Type 0 where
  pub name : String
  pub reason : String

abbrev pub has_length : ℕ → ℕ → String → Bool
has_length lo hi s = leb lo (len (trim_space s)) && leb (len (trim_space s)) hi

-- The name of a hold is unique in its workspace.
unfoldable pub create_legal_hold :
    Faults → Store → ℕ → CurrentUser → (fresh : ℕ) → Option HoldInput → Response × Store
create_legal_hold down s now actor fresh input =
    if not (has_permission down s.rbac actor "governance.manage")
    then (error_json 403 "GOVERNANCE_REQUIRED", s)
    else elim input [
      | none ↦ (error_json 400 "INVALID_INPUT", s)
      | some h ↦
          if not (has_length 2 120 h.name && has_length 2 1000 h.reason)
          then (error_json 400 "INVALID_LEGAL_HOLD", s)
          else if down "insert hold"
              || exists (λ x. x.tenant_id == actor.tenant_id && x.name == trim_space h.name) s.holds
          then (error_json 409 "LEGAL_HOLD_EXISTS", s)
          else (
            respond_json 201,
            log_event down now actor "governance.hold.create" "legal_hold" fresh (record s {
              holds =
                  s.holds
                  ++ record {
                    id = fresh;
                    tenant_id = actor.tenant_id;
                    name = trim_space h.name;
                    reason = trim_space h.reason;
                    status = HoldStatus.active;
                    released_at = none;
                  }
                    ∷ [];
            }),
          )
    ]

abbrev pub is_releasable : ℕ → ℕ → LegalHold → Bool
is_releasable id tenant h = is_hold id tenant h && is_active_hold h.status

abbrev pub release : ℕ → LegalHold → LegalHold
release now h = record h { status = HoldStatus.released; released_at = some now }

unfoldable pub release_legal_hold : Faults → Store → ℕ → CurrentUser → (hold : ℕ) → Response × Store
release_legal_hold down s now actor hold =
    if not (has_permission down s.rbac actor "governance.manage")
    then (error_json 403 "GOVERNANCE_REQUIRED", s)
    else if down "release hold"
    then (error_json 500 "INTERNAL_ERROR", s)
    else if not (exists (is_releasable hold actor.tenant_id) s.holds)
    then (error_json 404 "LEGAL_HOLD_NOT_FOUND", s)
    else (
      respond_json 200,
      log_event down now actor "governance.hold.release" "legal_hold" hold (record s {
        holds = update_where (is_releasable hold actor.tenant_id) (release now) s.holds;
      }),
    )

unfoldable pub valid_legal_hold_resource_type : String → Bool
valid_legal_hold_resource_type value =
    to_upper (trim_space value) == "RECORDING"
    || to_upper (trim_space value) == "DRIVE_FILE"
    || to_upper (trim_space value) == "CHAT_CONVERSATION"

abbrev pub is_file : NodeKind → Bool
is_file NodeKind.file = true
is_file NodeKind.folder = false

abbrev pub is_unset : Option ℕ → Bool
is_unset none = true
is_unset (some _) = false

-- The query that `legalHoldResource` chooses by the resource's type.
unfoldable pub resource_exists : Store → (tenant : ℕ) → (kind : String) → (id : ℕ) → Bool
resource_exists s tenant kind id =
    if kind == "RECORDING"
    then exists (λ r. r.id == id && r.tenant_id == tenant && is_unset r.storage_deleted_at)
        s.recordings
    else if kind == "DRIVE_FILE"
    then exists (λ n. n.id == id && n.tenant_id == tenant && is_file n.kind) s.nodes
    else exists (λ c. c.0 == id && c.1 == tenant) s.conversations

abbrev pub same_resource : ℕ → String → ℕ → HeldResource → Bool
same_resource hold kind id r = r.hold_id == hold && r.resource_type == kind && r.resource_id == id

unfoldable pub hold_resource :
    Faults → Store → ℕ → CurrentUser → (hold : ℕ) → (kind : String) → (id : ℕ) → Response × Store
hold_resource down s now actor hold kind id =
    if down "begin" || down "lock"
    then (error_json 500 "INTERNAL_ERROR", s)
    else if down "select resource" || not (resource_exists s actor.tenant_id kind id)
    then (error_json 404 "RESOURCE_NOT_FOUND", s)
    else if down "insert resource"
    then (error_json 500 "INTERNAL_ERROR", s)
    else if not (exists (is_releasable hold actor.tenant_id) s.holds)
        || exists (same_resource hold kind id) s.resources
    then (error_json 404 "LEGAL_HOLD_NOT_FOUND", s)
    else if down "commit"
    then (error_json 500 "INTERNAL_ERROR", s)
    else (
      respond_json 204,
      log_event down now actor "governance.hold.resource.add" kind id (record s {
        resources =
            s.resources
            ++ record {
              hold_id = hold;
              tenant_id = actor.tenant_id;
              resource_type = kind;
              resource_id = id;
            }
              ∷ [];
      }),
    )

-- DELETE … USING legal_holds h WHERE … h.status='ACTIVE'
abbrev pub is_removable : List LegalHold → ℕ → ℕ → String → ℕ → HeldResource → Bool
is_removable holds hold tenant kind id r =
    same_resource hold kind id r
    && r.tenant_id == tenant
    && exists (is_releasable r.hold_id r.tenant_id) holds

unfoldable pub unhold_resource :
    Faults → Store → ℕ → CurrentUser → (hold : ℕ) → (kind : String) → (id : ℕ) → Response × Store
unhold_resource down s now actor hold kind id =
    if down "delete resource"
    then (error_json 500 "INTERNAL_ERROR", s)
    else if not (exists (is_removable s.holds hold actor.tenant_id kind id) s.resources)
    then (error_json 404 "RESOURCE_NOT_FOUND", s)
    else (
      respond_json 204,
      log_event down now actor "governance.hold.resource.remove" kind id (record s {
        resources =
            keep (λ r. not (is_removable s.holds hold actor.tenant_id kind id r)) s.resources;
      }),
    )

pub data ResourceMethod : Type 0 where
  put delete : ResourceMethod

unfoldable pub legal_hold_resource :
    Faults
    → Store
    → ℕ
    → CurrentUser
    → ResourceMethod
    → (hold : ℕ) → (resource_type : String) → (id : ℕ) → Response × Store
legal_hold_resource down s now actor method hold resource_type id =
    if not (has_permission down s.rbac actor "governance.manage")
    then (error_json 403 "GOVERNANCE_REQUIRED", s)
    else if not (valid_legal_hold_resource_type (to_upper (trim_space resource_type)))
    then (error_json 400 "INVALID_RESOURCE_TYPE", s)
    else elim method [
      | put ↦ hold_resource down s now actor hold (to_upper (trim_space resource_type)) id
      | delete ↦ unhold_resource down s now actor hold (to_upper (trim_space resource_type)) id
    ]
