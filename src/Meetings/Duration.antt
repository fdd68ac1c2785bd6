-- ===== src/Meetings/Duration.antt =====
-- services/api/internal/httpapi/meeting_duration_worker.go: one round of the worker that ends meetings
-- which are longer than the plan allows, and closes their rooms. Times are in seconds. Each meeting
-- of a round has its own faults, and `close` is the error with which the realtime server answers.
mod Closing
mod Examples
use xpace.Prelude.{
  ℕ, ◌+◌, ◌*◌, String, Bool, true, false, not, ◌&&◌, ◌||◌, Option, none, some, List, [], ◌∷◌, ◌++◌,
  first, exists, keep, map, update_where, sort_by, take, ltb, leb, ◌==◌, if◌then◌else◌, nat_eq,
  text_eq, to_lower, contains,
}
use xpace.Http.{Faults, AuditEvent}
use xpace.Plans
use xpace.Plans.{Entitlement, PlanEntitlements, of_tenant, is_plan}
use xpace.Meetings
use xpace.Meetings.{Meeting, MeetingStatus, Participant, ParticipantStatus, coalesce, is_gone}

-- A row of `tenant_system_configurations`.
pub record Configuration : Type 0 where
  pub tenant_id : ℕ
  pub max_meeting_duration_minutes : ℕ

pub record Store : Type 0 where
  pub base : Meetings.Store
  pub plans : Plans.Store
  pub configurations : List Configuration

pub record ExpiredMeeting : Type 0 where
  pub id : ℕ
  pub tenant_id : ℕ
  pub room_name : String
  pub status : MeetingStatus
  pub limit_minutes : ℕ

abbrev pub is_duration : ℕ → Entitlement → Bool
is_duration tenant e = e.tenant_id == tenant && e.entitlement_key == "meeting.durationMinutes"

abbrev pub override : Option Entitlement → Option ℕ
override none = none
override (some e) = e.limit_value

-- The row of the plan that the workspace subscribes to.
abbrev pub plan_of : Plans.Store → ℕ → Option PlanEntitlements
plan_of s tenant = elim (first (of_tenant tenant) s.subscriptions) [
  | none ↦ none
  | some x ↦ first (is_plan x.plan_key) s.plans
]

abbrev pub duration_of : Option PlanEntitlements → Option ℕ
duration_of none = none
duration_of (some p) = some p.max_meeting_duration_minutes

abbrev pub or_else : Option ℕ → ℕ → ℕ
or_else none d = d
or_else (some v) _ = v

-- COALESCE(e.limit_value,p.max_meeting_duration_minutes,120)
abbrev pub allowed_minutes : Plans.Store → ℕ → ℕ
allowed_minutes s tenant =
    or_else (override (first (is_duration tenant) s.entitlements))
      (or_else (duration_of (plan_of s tenant)) 120)

abbrev pub configured : Option Configuration → Option ℕ
configured none = none
configured (some c) = some c.max_meeting_duration_minutes

abbrev pub least : ℕ → ℕ → ℕ
least a b = if leb a b then a else b

unfoldable pub effective_limit : Store → ℕ → ℕ
effective_limit s tenant =
    let plan = allowed_minutes s.plans tenant in
    least plan (or_else (configured (first (λ c. c.tenant_id == tenant) s.configurations)) plan)

abbrev pub is_active : MeetingStatus → Bool
is_active MeetingStatus.active = true
is_active _ = false

abbrev pub is_ended : MeetingStatus → Bool
is_ended MeetingStatus.ended = true
is_ended _ = false

abbrev pub is_over : ℕ → ℕ → Option ℕ → Bool
is_over now limit none = false
is_over now limit (some t) = leb (t + limit * 60) now

abbrev pub is_limit : Option String → Bool
is_limit none = false
is_limit (some r) = r == "PLAN_DURATION_LIMIT"

abbrev pub is_unset : Option ℕ → Bool
is_unset none = true
is_unset (some _) = false

-- The WHERE clause of the round.
abbrev pub is_expired : Store → ℕ → Meeting → Bool
is_expired s now m =
    (is_active m.status && is_over now (effective_limit s m.tenant_id) m.started_at)
    || (is_ended m.status && is_limit m.end_reason && is_unset m.room_closed_at)

-- ORDER BY started_at NULLS LAST, id
abbrev pub before : Meeting → Meeting → Bool
before m k = by_start m.started_at k.started_at
  where
    by_start : Option ℕ → Option ℕ → Bool
    by_start none none = leb m.id k.id
    by_start none (some _) = false
    by_start (some _) none = true
    by_start (some a) (some b) = ltb a b || (a == b && leb m.id k.id)

abbrev pub as_item : Store → Meeting → ExpiredMeeting
as_item s m = record {
  id = m.id;
  tenant_id = m.tenant_id;
  room_name = m.room_name;
  status = m.status;
  limit_minutes = effective_limit s m.tenant_id;
}

unfoldable pub expired_meetings : Store → ℕ → List Meeting
expired_meetings s now = take 50 (sort_by before (keep (is_expired s now) s.base.meetings))

abbrev pub is_item : ExpiredMeeting → Meeting → Bool
is_item x m = m.id == x.id && m.tenant_id == x.tenant_id

-- WHERE status='ACTIVE' AND started_at+$3*INTERVAL '1 minute'<=NOW()
abbrev pub still_over : ℕ → ExpiredMeeting → Meeting → Bool
still_over now x m = is_item x m && is_active m.status && is_over now x.limit_minutes m.started_at

abbrev pub end_at_limit : ℕ → Meeting → Meeting
end_at_limit now m = record m {
  status = MeetingStatus.ended;
  ended_at = some now;
  end_reason = some "PLAN_DURATION_LIMIT";
}

abbrev pub is_present : ExpiredMeeting → Participant → Bool
is_present x p = p.meeting_id == x.id && not (is_gone p.status)

abbrev pub send_off : ℕ → Participant → Participant
send_off now p = record p { status = ParticipantStatus.left_; left_at = coalesce p.left_at now }

abbrev pub transaction_fails : Faults → Bool
transaction_fails down = down "begin" || down "end" || down "leave" || down "audit" || down "commit"

-- The transaction of an active meeting: `none` where it fails or the meeting is not over any more.
unfoldable pub end_meeting : Faults → Store → ℕ → ExpiredMeeting → Option Store
end_meeting down s now x =
    let entry : AuditEvent = record {
      tenant_id = x.tenant_id;
      actor_id = none;
      action = "meeting.auto_ended";
      resource_type = "meeting";
      resource_id = x.id;
    } in
    if transaction_fails down || not (exists (still_over now x) s.base.meetings)
    then none
    else some (record s {
      base = record s.base {
        meetings = update_where (still_over now x) (end_at_limit now) s.base.meetings;
        participants = update_where (is_present x) (send_off now) s.base.participants;
        audit = s.base.audit ++ entry ∷ [];
      };
    })

unfoldable pub room_already_closed : String → Bool
room_already_closed error =
    let message = to_lower error in
    contains "not found" message
    || contains "not_found" message
    || contains "does not exist" message

abbrev pub stays_open : Option String → Bool
stays_open none = false
stays_open (some error) = not (room_already_closed error)

abbrev pub ended_at_limit : ExpiredMeeting → Meeting → Bool
ended_at_limit x m = is_item x m && is_ended m.status && is_limit m.end_reason

abbrev pub close_at : ℕ → Meeting → Meeting
close_at now m = record m { room_closed_at = coalesce m.room_closed_at now }

unfoldable pub close_room :
    Faults → (close : String → Option String) → Store → ℕ → ExpiredMeeting → Store
close_room down close s now x =
    if stays_open (close x.room_name) || down "close" then s else record s {
      base = record s.base {
        meetings = update_where (ended_at_limit x) (close_at now) s.base.meetings;
      };
    }

unfoldable pub enforce_meeting_duration :
    Faults → (close : String → Option String) → Store → ℕ → ExpiredMeeting → Store
enforce_meeting_duration down close s now x =
    if is_active x.status
    then elim (end_meeting down s now x) [ none ↦ s | some t ↦ close_room down close t now x ]
    else close_room down close s now x

unfoldable pub enforce_all :
    (ℕ → Faults) → (close : String → Option String) → Store → ℕ → List ExpiredMeeting → Store
enforce_all down close s now [] = s
enforce_all down close s now (x ∷ rest) =
    enforce_all down close (enforce_meeting_duration (down x.id) close s now x) now rest

unfoldable pub run_meeting_duration_enforcement :
    Faults → (ℕ → Faults) → (locked : Bool) → (close : String → Option String) → Store → ℕ → Store
run_meeting_duration_enforcement down row_down locked close s now =
    if down "connection" || down "lock" || not locked || down "select"
    then s
    else enforce_all row_down close s now (map (as_item s) (expired_meetings s now))
