-- ===== src/Meetings.antt =====
-- services/api/internal/httpapi/participants.go, realtime_moderation.go and lifecycle.go: who is in a
-- meeting. `down` is the database, and whether the realtime server muted a participant is the
-- argument `muted`; where the code drops that server's error, it has no part in the model.
pub mod Moderation
pub mod Presence
pub mod Policy
mod Duration
mod Examples
use xpace.Prelude.{
  ℕ, ◌+◌, String, Bool, true, false, not, ◌&&◌, ◌||◌, Option, none, some, List, [], ◌∷◌, map, first,
  exists, update_where, ltb, leb, ◌==◌, if◌then◌else◌, nat_eq, text_eq, trim_space, to_upper,
}
use xpace.Http.{
  Response, error_json, respond_json, Faults, CurrentUser, AuditEvent, write_audit_event,
}
use xpace.Rbac
use xpace.Rbac.{has_permission}

pub data MeetingStatus : Type 0 where
  scheduled waiting active ended cancelled : MeetingStatus

pub data ParticipantStatus : Type 0 where
  pre_join waiting_room joined left_ removed disconnected : ParticipantStatus

-- The roles of a participant, as text in the column.
pub data ParticipantRole : Type 0 where
  host co_host member guest : ParticipantRole

pub record Meeting : Type 0 where
  pub id : ℕ
  pub tenant_id : ℕ
  pub join_code : String
  pub status : MeetingStatus
  pub host_id : ℕ
  pub locked_at : Option ℕ
  pub ended_at : Option ℕ
  pub room_name : String
  pub started_at : Option ℕ
  pub end_reason : Option String
  pub room_closed_at : Option ℕ

pub record Participant : Type 0 where
  pub id : ℕ
  pub meeting_id : ℕ
  pub tenant_id : ℕ
  pub user_id : Option ℕ
  pub external_user_id : Option ℕ
  pub external_tenant_id : Option ℕ
  pub role : ParticipantRole
  pub status : ParticipantStatus
  pub joined_at : Option ℕ
  pub left_at : Option ℕ
  pub created_at : ℕ

pub record Store : Type 0 where
  pub rbac : Rbac.Store
  pub meetings : List Meeting
  pub participants : List Participant
  pub audit : List AuditEvent

abbrev pub is_joined : ParticipantStatus → Bool
is_joined ParticipantStatus.joined = true
is_joined _ = false

abbrev pub is_waiting : ParticipantStatus → Bool
is_waiting ParticipantStatus.waiting_room = true
is_waiting _ = false

-- status IN ('LEFT','REMOVED')
abbrev pub is_gone : ParticipantStatus → Bool
is_gone ParticipantStatus.left_ = true
is_gone ParticipantStatus.removed = true
is_gone _ = false

abbrev pub is_host : ParticipantRole → Bool
is_host ParticipantRole.host = true
is_host _ = false

abbrev pub is_co_host : ParticipantRole → Bool
is_co_host ParticipantRole.co_host = true
is_co_host _ = false

abbrev pub is_member : ParticipantRole → Bool
is_member ParticipantRole.member = true
is_member _ = false

abbrev pub is_cancelled : MeetingStatus → Bool
is_cancelled MeetingStatus.cancelled = true
is_cancelled _ = false

abbrev pub has_id : ℕ → Option ℕ → Bool
has_id id none = false
has_id id (some t) = t == id

-- `findMeeting`, by the caller's workspace and the code in the path.
abbrev pub find_meeting : Store → ℕ → String → Option Meeting
find_meeting s tenant path_code =
    first (λ m. m.tenant_id == tenant && m.join_code == to_upper (trim_space path_code)) s.meetings

-- `findMeetingForJoin`
abbrev pub find_meeting_for_join : Store → String → Option Meeting
find_meeting_for_join s path_code =
    first (λ m. m.join_code == to_upper (trim_space path_code) && not (is_cancelled m.status))
      s.meetings

abbrev pub is_joined_co_host : Meeting → CurrentUser → Participant → Bool
is_joined_co_host m user p =
    p.meeting_id == m.id
    && has_id user.id p.user_id
    && p.tenant_id == user.tenant_id
    && is_co_host p.role
    && is_joined p.status

unfoldable pub can_moderate : Faults → Store → Meeting → CurrentUser → Bool
can_moderate down s m user =
    if not (m.tenant_id == user.tenant_id)
    then false
    else if has_permission down s.rbac user "meeting.moderate" || m.host_id == user.id
    then true
    else not (down "co-host") && exists (is_joined_co_host m user) s.participants

-- An UPDATE of one participant: the states it is for, what it sets, and the audit event's action.
pub record RowAction : Type 0 where
  pub allowed : Participant → Bool
  pub set : ℕ → Participant → Participant
  pub audit : String

abbrev coalesce : Option ℕ → ℕ → Option ℕ
coalesce none now = some now
coalesce (some t) now = some t

abbrev pub admit : ℕ → Participant → Participant
admit now p = record p { status = ParticipantStatus.joined; joined_at = coalesce p.joined_at now }

abbrev pub remove : ℕ → Participant → Participant
remove now p = record p { status = ParticipantStatus.removed; left_at = some now }

abbrev pub promote : ℕ → Participant → Participant
promote now p = record p { role = ParticipantRole.co_host }

abbrev pub can_admit : Participant → Bool
can_admit p = is_waiting p.status

abbrev pub can_remove : Participant → Bool
can_remove p = not (is_gone p.status) && not (is_host p.role)

abbrev pub can_promote : Participant → Bool
can_promote p = is_joined p.status && is_member p.role

unfoldable pub row_action : String → Option RowAction
row_action action =
    if action == "admit"
    then some (record { allowed = can_admit; set = admit; audit = "participant.admit" })
    else if action == "reject"
    then some (record { allowed = can_remove; set = remove; audit = "participant.reject" })
    else if action == "remove"
    then some (record { allowed = can_remove; set = remove; audit = "participant.remove" })
    else if action == "promote"
    then some (record { allowed = can_promote; set = promote; audit = "participant.promote" })
    else none

-- WHERE id=$1 AND meeting_id=$2 AND tenant_id=$3
abbrev pub is_target : ℕ → ℕ → ℕ → Participant → Bool
is_target id meeting tenant p = p.id == id && p.meeting_id == meeting && p.tenant_id == tenant

-- `auditModeration`
abbrev pub moderation_event : CurrentUser → String → String → ℕ → AuditEvent
moderation_event user action resource_type id = record {
  tenant_id = user.tenant_id;
  actor_id = some user.id;
  action = action;
  resource_type = resource_type;
  resource_id = id;
}

unfoldable pub update_row :
    Faults → Store → ℕ → CurrentUser → Meeting → ℕ → Option RowAction → Response × Store
update_row down s now user m id none = (error_json 400 "INVALID_ACTION", s)
update_row down s now user m id (some a) =
    let row : Participant → Bool = λ p. is_target id m.id user.tenant_id p && a.allowed p in
    if down "update participant"
    then (error_json 500 "INTERNAL_ERROR", s)
    else if not (exists row s.participants)
    then (error_json 409 "ACTION_NOT_ALLOWED", s)
    else (
      respond_json 200,
      record s {
        participants = update_where row (a.set now) s.participants;
        audit = write_audit_event down (moderation_event user a.audit "participant" id) s.audit;
      },
    )

unfoldable pub moderate_target :
    Faults
    → Bool
    → Store
    → ℕ
    → CurrentUser
    → Meeting
    → ℕ
    → String
    → Option Participant
    → Response × Store
moderate_target down muted s now user m id action none = (error_json 404 "PARTICIPANT_NOT_FOUND", s)
moderate_target down muted s now user m id action (some target) =
    if action == "mute"
    then if is_host target.role || not (is_joined target.status)
      then (error_json 409 "ACTION_NOT_ALLOWED", s)
      else if not muted
      then (error_json 502 "REALTIME_ERROR", s)
      else (
        respond_json 200,
        record s {
          audit =
              write_audit_event down (moderation_event user "participant.mute" "participant" id)
                s.audit;
        },
      )
    else update_row down s now user m id (row_action action)

unfoldable pub moderate_in :
    Faults → Bool → Store → ℕ → CurrentUser → ℕ → String → Option Meeting → Response × Store
moderate_in down muted s now user id action none = (error_json 404 "MEETING_NOT_FOUND", s)
moderate_in down muted s now user id action (some m) =
    if not (can_moderate down s m user)
    then (error_json 403 "HOST_REQUIRED", s)
    else if down "select participant"
    then (error_json 404 "PARTICIPANT_NOT_FOUND", s)
    else moderate_target down muted s now user m id action
        (first (is_target id m.id user.tenant_id) s.participants)

unfoldable pub moderate_participant :
    Faults
    → Bool
    → Store
    → ℕ
    → CurrentUser
    → (path_code : String) → (id : ℕ) → (action : String) → Response × Store
moderate_participant down muted s now user path_code id action =
    if down "select meeting"
    then (error_json 404 "MEETING_NOT_FOUND", s)
    else moderate_in down muted s now user id action (find_meeting s user.tenant_id path_code)

abbrev pub lock : ℕ → Meeting → Meeting
lock now m = record m { locked_at = some now }

abbrev pub unlock : ℕ → Meeting → Meeting
unlock now m = record m { locked_at = none }

abbrev pub end_ : ℕ → Meeting → Meeting
end_ now m = record m { status = MeetingStatus.ended; ended_at = some now }

unfoldable pub meeting_action : String → Option (ℕ → Meeting → Meeting)
meeting_action action =
    if action == "lock"
    then some lock
    else if action == "unlock"
    then some unlock
    else if action == "end"
    then some end_
    else none

update_meeting :
    Faults
    → Store
    → ℕ
    → CurrentUser
    → Meeting
    → String
    → Option (ℕ → Meeting → Meeting)
    → Response × Store
update_meeting down s now user m action none = (error_json 400 "INVALID_ACTION", s)
update_meeting down s now user m action (some set) =
    if down "update meeting" then (error_json 500 "INTERNAL_ERROR", s) else (
      respond_json 200,
      record s {
        meetings =
            update_where (λ x. x.id == m.id && x.tenant_id == user.tenant_id) (set now) s.meetings;
        audit =
            write_audit_event down
              (moderation_event user (Prim.Native.String.◌++◌ "meeting." action) "meeting" m.id)
              s.audit;
      },
    )

moderate_found : Faults → Store → ℕ → CurrentUser → String → Option Meeting → Response × Store
moderate_found down s now user action none = (error_json 404 "MEETING_NOT_FOUND", s)
moderate_found down s now user action (some m) =
    if not (m.host_id == user.id) && not (has_permission down s.rbac user "meeting.moderate")
    then (error_json 403 "HOST_REQUIRED", s)
    else update_meeting down s now user m action (meeting_action action)

unfoldable pub moderate_meeting :
    Faults → Store → ℕ → CurrentUser → (path_code action : String) → Response × Store
unfolding moderate_found update_meeting
moderate_meeting down s now user path_code action =
    if down "select meeting"
    then (error_json 404 "MEETING_NOT_FOUND", s)
    else moderate_found down s now user action (find_meeting s user.tenant_id path_code)

-- The row of the caller, as a member of the workspace or as a guest from another one.
abbrev pub is_own : Meeting → CurrentUser → Participant → Bool
is_own m user p =
    p.meeting_id == m.id
    && p.tenant_id == m.tenant_id
    && (is_joined p.status || is_waiting p.status)
    && ((has_id user.id p.user_id && m.tenant_id == user.tenant_id)
        || (has_id user.id p.external_user_id && has_id user.tenant_id p.external_tenant_id))

-- ORDER BY created_at DESC LIMIT 1
unfoldable pub latest : (Participant → Bool) → List Participant → Option Participant
latest own [] = none
latest own (x ∷ rest) = newer (own x) (latest own rest)
  where
    newer : Bool → Option Participant → Option Participant
    newer false found = found
    newer true none = some x
    newer true (some y) = if ltb x.created_at y.created_at then some y else some x

abbrev pub leave : ℕ → Participant → Participant
leave now p = record p { status = ParticipantStatus.left_; left_at = some now }

leave_row : Faults → Store → ℕ → CurrentUser → Meeting → Option Participant → Response × Store
leave_row down s now user m none = (respond_json 204, s)
leave_row down s now user m (some p) =
    let entry : AuditEvent = record {
      tenant_id = m.tenant_id;
      actor_id = some user.id;
      action = "participant.leave";
      resource_type = "participant";
      resource_id = user.id;
    } in
    (
      respond_json 204,
      record s {
        participants = update_where (λ x. x.id == p.id) (leave now) s.participants;
        audit = write_audit_event down entry s.audit;
      },
    )

leave_found : Faults → Store → ℕ → CurrentUser → Option Meeting → Response × Store
leave_found down s now user none = (error_json 404 "MEETING_NOT_FOUND", s)
leave_found down s now user (some m) =
    if down "update participant"
    then (error_json 500 "INTERNAL_ERROR", s)
    else leave_row down s now user m (latest (is_own m user) s.participants)

unfoldable pub leave_meeting :
    Faults → Store → ℕ → CurrentUser → (path_code : String) → Response × Store
unfolding leave_row leave_found
leave_meeting down s now user path_code =
    if down "select meeting"
    then (error_json 404 "MEETING_NOT_FOUND", s)
    else leave_found down s now user (find_meeting_for_join s path_code)
