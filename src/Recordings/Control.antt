-- ===== src/Recordings/Control.antt =====
-- services/api/internal/httpapi/recordings.go: starting and stopping a recording, who may see it, and
-- deleting it.
use xpace.Prelude.{
  ℕ, String, Bool, true, false, not, ◌&&◌, ◌||◌, Option, none, some, List, [], ◌∷◌, ◌++◌, first,
  exists, keep, update_where, ◌==◌, nat_eq, text_eq, if◌then◌else◌,
}
use xpace.Http.{Response, error_json, respond_json, Faults, CurrentUser, User, is_active}
use xpace.Rbac.{is_workspace_admin}
use xpace.Governance.{Recording, RecordingStatus, is_held, is_unset}
use xpace.Meetings.{Meeting, MeetingStatus, find_meeting}
use xpace.Meetings.Policy.{load_meeting_policy}
use xpace.Plans.{Quota, allowed, denied, failed, enforce_tenant_quota}
use xpace.Drive.{remove_object}
use xpace.Recordings.{
  Store, Grant, Egress, audit_recording, is_active_status, is_running, is_recording, set_recordings,
  fail, reconcile_recording_statuses,
}

abbrev pub is_ended : MeetingStatus → Bool
is_ended MeetingStatus.ended = true
is_ended _ = false

-- What a new recording is given: its identifier and its object's key, and the identifier that the
-- recording service answers, if it starts.
pub record Draw : Type 0 where
  pub id : ℕ
  pub object_key : String
  pub egress_id : Option String

abbrev pub new_recording : CurrentUser → Meeting → ℕ → Draw → Recording
new_recording user m now draw = record {
  id = draw.id;
  tenant_id = user.tenant_id;
  meeting_id = m.id;
  started_by = user.id;
  object_key = draw.object_key;
  status = RecordingStatus.starting;
  egress_id = none;
  stopped_at = none;
  size_bytes = 0;
  created_at = now;
  retention_expired_at = none;
  storage_deleted_at = none;
}

-- The unique index on a meeting's active recordings.
abbrev pub is_active_of : ℕ → Recording → Bool
is_active_of meeting r = r.meeting_id == meeting && is_active_status r.status

-- `failRecording`, whose error is dropped.
abbrev pub fail_recording : Faults → (tenant id : ℕ) → Store → Store
fail_recording down tenant id s =
    if down "fail recording" then s else set_recordings (is_recording id tenant) fail s

abbrev pub run : String → Recording → Recording
run egress r = record r { egress_id = some egress; status = RecordingStatus.recording }

unfoldable pub start_inserted : Faults → Store → ℕ → CurrentUser → Draw → Response × Store
start_inserted down s now user draw =
    if down "egress client"
    then (error_json 503 "RECORDING_UNAVAILABLE", fail_recording down user.tenant_id draw.id s)
    else elim draw.egress_id [
      | none ↦
          (error_json 502 "RECORDING_START_FAILED", fail_recording down user.tenant_id draw.id s)
      | some egress ↦ if down "save recording" then (error_json 500 "INTERNAL_ERROR", s) else (
        respond_json 201,
        audit_recording down now user "recording.start" draw.id
            (set_recordings (is_recording draw.id user.tenant_id) (run egress) s),
      )
    ]

unfoldable pub insert_recording :
    Faults → Store → ℕ → CurrentUser → Meeting → Draw → Response × Store
insert_recording down s now user m draw =
    if down "random"
    then (error_json 500 "INTERNAL_ERROR", s)
    else if down "insert recording"
        || exists (is_active_of m.id) s.base.recordings
        || exists (λ r. r.object_key == draw.object_key) s.base.recordings
    then (error_json 409 "RECORDING_ACTIVE", s)
    else start_inserted down
        (record s {
          base = record s.base {
            recordings = s.base.recordings ++ new_recording user m now draw ∷ [];
          };
        })
        now user draw

unfoldable pub start_allowed :
    Faults
    → (egress : String → Option Egress) → (stat : String → Option (ℕ × ℕ)) → Store
    → ℕ
    → CurrentUser
    → Meeting
    → Draw
    → Response × Store
start_allowed down egress stat s now user m draw =
    elim (load_meeting_policy down s.policies user.tenant_id) [
      | none ↦ (error_json 500 "INTERNAL_ERROR", s)
      | some (p, rows) ↦
          let loaded = record s { policies = rows } in
          if not p.recording_enabled
          then (error_json 403 "RECORDING_DISABLED", loaded)
          else if is_ended m.status
          then (error_json 409 "MEETING_ENDED", loaded)
          else insert_recording down
              (reconcile_recording_statuses down egress stat loaded now user.tenant_id) now user m
              draw
    ]

unfoldable pub start_under :
    Faults
    → (egress : String → Option Egress) → (stat : String → Option (ℕ × ℕ)) → Store
    → ℕ
    → CurrentUser
    → Meeting
    → Draw
    → Quota
    → Response × Store
start_under down egress stat s now user m draw allowed =
    start_allowed down egress stat s now user m draw
start_under down egress stat s now user m draw (denied status code) = (error_json status code, s)
start_under down egress stat s now user m draw failed = (error_json 500 "INTERNAL_ERROR", s)

unfoldable pub start_recording :
    Faults
    → (egress : String → Option Egress) → (stat : String → Option (ℕ × ℕ)) → Store
    → ℕ
    → CurrentUser
    → Meeting
    → Draw
    → Response × Store
start_recording down egress stat s now user m draw =
    start_under down egress stat s now user m draw
      (enforce_tenant_quota down now s.base.plans user.tenant_id "recordings" 1)

-- `recordings` on POST.
unfoldable pub recordings :
    Faults
    → (egress : String → Option Egress) → (stat : String → Option (ℕ × ℕ)) → Store
    → ℕ
    → CurrentUser
    → (path_code : String) → Draw
    → Response × Store
recordings down egress stat s now user path_code draw =
    if down "select meeting"
    then (error_json 404 "MEETING_NOT_FOUND", s)
    else elim (find_meeting s.meetings user.tenant_id path_code) [
      | none ↦ (error_json 404 "MEETING_NOT_FOUND", s)
      | some m ↦
          if not (m.host_id == user.id)
          then (error_json 403 "HOST_REQUIRED", s)
          else start_recording down egress stat s now user m draw
    ]

abbrev pub is_running_of : Meeting → CurrentUser → Recording → Bool
is_running_of m user r =
    r.meeting_id == m.id && r.tenant_id == user.tenant_id && is_running r.status

abbrev pub stop : Recording → Recording
stop r = record r { status = RecordingStatus.stopping }

abbrev pub resume : Recording → Recording
resume r = record r { status = RecordingStatus.recording }

abbrev pub end_recording : ℕ → Recording → Recording
end_recording now r = record r { status = RecordingStatus.ready; stopped_at = some now }

-- An UPDATE whose error is dropped.
abbrev pub try_set : Bool → ℕ → ℕ → (Recording → Recording) → Store → Store
try_set is_down id tenant f s = if is_down then s else set_recordings (is_recording id tenant) f s

-- The rows at STARTING or RECORDING are stopping from here on. One without an identifier of the
-- service cannot be read, which answers 500.
unfoldable pub stop_found :
    Faults → (stopped : Bool) → Store → ℕ → CurrentUser → Meeting → Recording → Response × Store
stop_found down stopped s now user m r =
    let t = set_recordings (is_running_of m user) stop s in
    elim r.egress_id [
      | none ↦ (error_json 500 "INTERNAL_ERROR", t)
      | some egress ↦
          if down "egress client" || not stopped
          then (
            error_json 502 "RECORDING_STOP_FAILED",
            try_set (down "resume recording") r.id user.tenant_id resume t,
          )
          else (
            respond_json 200,
            audit_recording down now user "recording.stop" r.id
                (try_set (down "end recording") r.id user.tenant_id (end_recording now) t),
          )
    ]

-- `stopped` is whether the recording service stops.
unfoldable pub stop_recording :
    Faults → (stopped : Bool) → Store → ℕ → CurrentUser → (path_code : String) → Response × Store
stop_recording down stopped s now user path_code =
    if down "select meeting"
    then (error_json 404 "MEETING_NOT_FOUND", s)
    else elim (find_meeting s.meetings user.tenant_id path_code) [
      | none ↦ (error_json 404 "MEETING_NOT_FOUND", s)
      | some m ↦
          if not (m.host_id == user.id)
          then (error_json 403 "HOST_REQUIRED", s)
          else if down "stop recording"
          then (error_json 500 "INTERNAL_ERROR", s)
          else elim (first (is_running_of m user) s.base.recordings) [
            | none ↦ (error_json 409 "NO_ACTIVE_RECORDING", s)
            | some r ↦ stop_found down stopped s now user m r
          ]
    ]

abbrev pub can_manage_recording_access : Meeting → CurrentUser → Bool
can_manage_recording_access m user = is_workspace_admin user.role || m.host_id == user.id

abbrev pub is_recording_of : ℕ → Meeting → CurrentUser → Recording → Bool
is_recording_of id m user r = r.id == id && r.meeting_id == m.id && r.tenant_id == user.tenant_id

abbrev pub is_target_user : ℕ → CurrentUser → User → Bool
is_target_user target user u = u.id == target && u.tenant_id == user.tenant_id && is_active u.status

abbrev pub same_grant : ℕ → ℕ → Grant → Bool
same_grant id target g = g.recording_id == id && g.user_id == target

abbrev pub upsert_grant : Grant → List Grant → List Grant
upsert_grant g rows =
    if exists (same_grant g.recording_id g.user_id) rows
    then update_where (λ x. same_grant g.recording_id g.user_id x && x.tenant_id == g.tenant_id)
        (λ x. record x { granted_by = g.granted_by }) rows
    else rows ++ g ∷ []

unfoldable pub recording_access :
    Faults
    → Store
    → ℕ
    → CurrentUser
    → (is_put : Bool) → (path_code : String) → (id target : ℕ) → Response × Store
recording_access down s now user is_put path_code id target =
    if down "select meeting"
    then (error_json 404 "MEETING_NOT_FOUND", s)
    else elim (find_meeting s.meetings user.tenant_id path_code) [
      | none ↦ (error_json 404 "MEETING_NOT_FOUND", s)
      | some m ↦
          if not (can_manage_recording_access m user)
          then (error_json 403 "HOST_REQUIRED", s)
          else if down "select target"
              || not (
                  exists (is_recording_of id m user) s.base.recordings
                  && exists (is_target_user target user) s.base.rbac.users)
          then (error_json 404 "ACCESS_TARGET_NOT_FOUND", s)
          else if down "update access"
          then (error_json 500 "INTERNAL_ERROR", s)
          else if is_put
          then (
            respond_json 200,
            audit_recording down now user "recording.access.grant" id (record s {
              grants =
                  upsert_grant
                    (record {
                      recording_id = id;
                      tenant_id = user.tenant_id;
                      user_id = target;
                      granted_by = user.id;
                    })
                    s.grants;
            }),
          )
          else (
            respond_json 200,
            audit_recording down now user "recording.access.revoke" id (record s {
              grants =
                  keep (λ g. not (same_grant id target g && g.tenant_id == user.tenant_id))
                    s.grants;
            }),
          )
    ]

abbrev pub erase : ℕ → Recording → Recording
erase now r = record r {
  retention_expired_at = some now;
  storage_deleted_at = some now;
  size_bytes = 0;
}

-- After the row and the hold were read: the object goes first, then the row is marked.
unfoldable pub delete_found :
    Faults → Store → ℕ → CurrentUser → (held : Bool) → Recording → Response × Store
delete_found down s now user held r =
    let removed = record s {
      base = record s.base { objects = remove_object r.object_key s.base.objects };
    } in
    let row : Recording → Bool =
      λ x. is_recording r.id user.tenant_id x && is_unset x.retention_expired_at in
    if held
    then (error_json 409 "LEGAL_HOLD_ACTIVE", s)
    else if is_active_status r.status
    then (error_json 409 "RECORDING_ACTIVE", s)
    else if down "object client"
    then (error_json 503 "RECORDING_UNAVAILABLE", s)
    else if down "remove object"
    then (error_json 502 "RECORDING_DELETE_FAILED", s)
    else if down "mark deleted"
    then (error_json 500 "INTERNAL_ERROR", removed)
    else if not (exists row s.base.recordings)
    then (error_json 404 "RECORDING_NOT_FOUND", removed)
    else (
      respond_json 200,
      audit_recording down now user "recording.delete" r.id
          (set_recordings row (erase now) removed),
    )

abbrev pub is_deletable : ℕ → CurrentUser → Recording → Bool
is_deletable id user r = is_recording id user.tenant_id r && is_unset r.retention_expired_at

abbrev pub is_host_of : CurrentUser → Recording → Meeting → Bool
is_host_of user r m = m.id == r.meeting_id && m.tenant_id == r.tenant_id && m.host_id == user.id

unfoldable pub delete_library_recording :
    Faults → Store → ℕ → CurrentUser → (id : ℕ) → Response × Store
delete_library_recording down s now user id =
    if down "select recording"
    then (error_json 404 "RECORDING_NOT_FOUND", s)
    else elim (first (is_deletable id user) s.base.recordings) [
      | none ↦ (error_json 404 "RECORDING_NOT_FOUND", s)
      | some r ↦
          if not (is_workspace_admin user.role || exists (is_host_of user r) s.meetings.meetings)
          then (error_json 403 "HOST_REQUIRED", s)
          else delete_found down s now user (is_held s.base r.tenant_id "RECORDING" r.id) r
    ]

unfoldable pub delete_recording :
    Faults → Store → ℕ → CurrentUser → (path_code : String) → (id : ℕ) → Response × Store
delete_recording down s now user path_code id =
    if down "select meeting"
    then (error_json 404 "MEETING_NOT_FOUND", s)
    else elim (find_meeting s.meetings user.tenant_id path_code) [
      | none ↦ (error_json 404 "MEETING_NOT_FOUND", s)
      | some m ↦
          if not (can_manage_recording_access m user)
          then (error_json 403 "HOST_REQUIRED", s)
          else if down "select recording"
          then (error_json 404 "RECORDING_NOT_FOUND", s)
          else elim (first (λ r. is_recording_of id m user r && is_unset r.retention_expired_at)
              s.base.recordings) [
                | none ↦ (error_json 404 "RECORDING_NOT_FOUND", s)
                | some r ↦
                    delete_found down s now user (is_held s.base r.tenant_id "RECORDING" r.id) r
              ]
    ]
