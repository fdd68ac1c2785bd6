-- ===== src/Recordings.antt =====
-- services/api/internal/httpapi/recordings.go: recordings of meetings, from their start to their removal.
-- What the recording service answers is an argument: the identifier that a start gives, whether a stop
-- succeeds, and what it knows of a recording; so is the size of a stored object. Times are in seconds.
pub mod Control
pub mod Over
pub mod Final
mod Examples
use xpace.Prelude.{
  ℕ, ◌+◌, String, Bool, true, false, not, ◌&&◌, ◌||◌, Option, none, some, List, [], ◌∷◌, ◌++◌,
  first, exists, keep, update_where, ltb, leb, ◌==◌, nat_eq, text_eq, if◌then◌else◌, is_empty,
}
use xpace.Http.{Response, error_json, respond_json, Faults, CurrentUser, User, is_active}
use xpace.Rbac.{is_workspace_admin}
use xpace.Governance
use xpace.Governance.{Recording, RecordingStatus, is_held, is_unset}
use xpace.Meetings.{Meeting, MeetingStatus, find_meeting}
use xpace.Meetings
use xpace.Meetings.Policy.{PolicyRow, load_meeting_policy}
use xpace.Plans.{allowed, denied, failed, enforce_tenant_quota}
use xpace.Drive.{remove_object}

-- A row of `recording_access_grants`.
pub record Grant : Type 0 where
  pub recording_id : ℕ
  pub tenant_id : ℕ
  pub user_id : ℕ
  pub granted_by : ℕ

pub record Store : Type 0 where
  pub base : Governance.Store
  pub meetings : Meetings.Store
  pub policies : List PolicyRow
  pub grants : List Grant

-- `auditRecording`
abbrev pub audit_recording : Faults → ℕ → CurrentUser → String → ℕ → Store → Store
audit_recording down now user action id s = record s {
  base = Governance.log_event down now user action "recording" id s.base;
}

abbrev pub is_active_status : RecordingStatus → Bool
is_active_status RecordingStatus.starting = true
is_active_status RecordingStatus.recording = true
is_active_status RecordingStatus.stopping = true
is_active_status RecordingStatus.ready = false
is_active_status RecordingStatus.failed = false

abbrev pub is_running : RecordingStatus → Bool
is_running RecordingStatus.starting = true
is_running RecordingStatus.recording = true
is_running _ = false

abbrev pub is_ready : RecordingStatus → Bool
is_ready RecordingStatus.ready = true
is_ready _ = false

abbrev pub is_recording : ℕ → ℕ → Recording → Bool
is_recording id tenant r = r.id == id && r.tenant_id == tenant

abbrev pub set_recordings : (Recording → Bool) → (Recording → Recording) → Store → Store
set_recordings p f s = record s {
  base = record s.base { recordings = update_where p f s.base.recordings };
}

-- What the recording service says of a recording: it is complete, with the files it wrote, it failed,
-- or anything else.
pub data Egress : Type 0 where
  complete : List (String × ℕ) → Egress
  broken : Egress
  other : Egress

-- `completedRecordingMetrics`: the size of the first file that has no name or the object's.
unfoldable pub completed_recording_size : List (String × ℕ) → (object_key : String) → ℕ
completed_recording_size [] key = 0
completed_recording_size ((name, size) ∷ rest) key =
    if not (is_empty name) && not (name == key) then completed_recording_size rest key else size

abbrev pub stop_at : ℕ → Option ℕ → Option ℕ
stop_at now none = some now
stop_at now (some t) = some t

abbrev pub finish : ℕ → ℕ → Recording → Recording
finish now size r = record r {
  status = RecordingStatus.ready;
  stopped_at = stop_at now r.stopped_at;
  size_bytes = if ltb 0 size then size else r.size_bytes;
}

abbrev pub fail : Recording → Recording
fail r = record r { status = RecordingStatus.failed }

abbrev pub fail_at : ℕ → Recording → Recording
fail_at now r = record r { status = RecordingStatus.failed; stopped_at = stop_at now r.stopped_at }

-- The last resort: the object itself, whose last change is the argument's second part.
unfoldable pub reconcile_object :
    (down : Faults) → (stat : String → Option (ℕ × ℕ)) → Store → (tenant : ℕ) → Recording → Store
reconcile_object down stat s tenant item =
    if down "object client" then s else elim (stat item.object_key) [
      | none ↦ s
      | some (size, modified) ↦
          if not (ltb 0 size) || down "update recording"
          then s
          else set_recordings (is_recording item.id tenant)
              (λ r. record r {
                status = RecordingStatus.ready;
                stopped_at = stop_at modified r.stopped_at;
                size_bytes = size;
              })
              s
    ]

abbrev pub known_egress : (egress : String → Option Egress) → Faults → Recording → Option Egress
known_egress egress down item = elim item.egress_id [
  | none ↦ none
  | some e ↦ if down "egress client" || is_empty e || is_ready item.status then none else egress e
]

-- One recording of the loop of `reconcileRecordingStatuses`.
unfoldable pub reconcile_recording :
    Faults
    → (egress : String → Option Egress) → (stat : String → Option (ℕ × ℕ)) → Store
    → (now tenant : ℕ) → Recording
    → Store
reconcile_recording down egress stat s now tenant item = elim (known_egress egress down item) [
  | none ↦ reconcile_object down stat s tenant item
  | some e ↦ elim e [
    | other ↦ reconcile_object down stat s tenant item
    | broken ↦
        if down "update recording"
        then s
        else set_recordings (λ r. is_recording item.id tenant r && is_active_status r.status)
            (fail_at now) s
    | complete files ↦
        let size = completed_recording_size files item.object_key in
        let done =
          if down "update recording"
          then s
          else set_recordings (is_recording item.id tenant) (finish now size) s in
        if ltb 0 size then done else reconcile_object down stat done tenant item
  ]
]

unfoldable pub reconcile_recordings :
    Faults
    → (egress : String → Option Egress) → (stat : String → Option (ℕ × ℕ)) → Store
    → (now tenant : ℕ) → List Recording
    → Store
reconcile_recordings down egress stat s now tenant [] = s
reconcile_recordings down egress stat s now tenant (r ∷ rest) =
    reconcile_recordings down egress stat (reconcile_recording down egress stat s now tenant r) now
      tenant rest

abbrev pub is_stale : ℕ → Recording → Bool
is_stale tenant r =
    r.tenant_id == tenant
    && is_unset r.retention_expired_at
    && (is_active_status r.status || (is_ready r.status && r.size_bytes == 0))

unfoldable pub reconcile_recording_statuses :
    Faults
    → (egress : String → Option Egress) → (stat : String → Option (ℕ × ℕ)) → Store
    → (now tenant : ℕ) → Store
reconcile_recording_statuses down egress stat s now tenant =
    if down "select stale"
    then s
    else reconcile_recordings down egress stat s now tenant
        (keep (is_stale tenant) s.base.recordings)
