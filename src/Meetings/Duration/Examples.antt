-- ===== src/Meetings/Duration/Examples.antt =====
-- Tests of the duration worker on a workspace whose plan allows 40 minutes, with a meeting that is
-- longer, one that is not, and one whose room could not be closed in an earlier round.
use xpace.Prelude.{
  String, true, false, Option, none, some, [], ◌∷◌, map, ◌≡◌, if◌then◌else◌, refl, first, exists,
  keep, update_where, AtMostOne, sort_by, insert_by, take, ◌==◌, nat_eq, text_eq, contains,
  to_lower,
}
use xpace.Http.{no_faults}
use xpace.Meetings.{Meeting, MeetingStatus, Participant, ParticipantRole, ParticipantStatus}
use xpace.Meetings.Duration.{
  Store, stays_open, effective_limit, expired_meetings, end_meeting, close_room,
  room_already_closed, enforce_meeting_duration, enforce_all, run_meeting_duration_enforcement,
}
use xpace.Meetings.Duration.Closing.{run-Settled, Settled}

abbrev long : Meeting
long = record {
  id = 3;
  tenant_id = 7;
  join_code = "ABC";
  status = MeetingStatus.active;
  host_id = 1;
  locked_at = none;
  ended_at = none;
  room_name = "xpace-abc";
  started_at = some 1000;
  end_reason = none;
  room_closed_at = none;
}

abbrev short : Meeting
short = record long { id = 4; room_name = "xpace-short"; started_at = some 3000 }

abbrev stuck : Meeting
stuck = record long {
  id = 5;
  room_name = "xpace-stuck";
  status = MeetingStatus.ended;
  ended_at = some 700;
  end_reason = some "PLAN_DURATION_LIMIT";
  started_at = some 10;
}

abbrev bob : Participant
bob = record {
  id = 20;
  meeting_id = 3;
  tenant_id = 7;
  user_id = some 2;
  external_user_id = none;
  external_tenant_id = none;
  role = ParticipantRole.member;
  status = ParticipantStatus.joined;
  joined_at = some 100;
  left_at = none;
  created_at = 90;
}

abbrev store : Store
store = record {
  base = record {
    rbac = record {
      users = [];
      custom_roles = [];
      custom_role_permissions = [];
      user_custom_roles = [];
      audit = [];
    };
    meetings = long ∷ short ∷ stuck ∷ [];
    participants = bob ∷ [];
    audit = [];
  };
  plans = record {
    plans = [];
    subscriptions = [];
    entitlements =
        record {
          tenant_id = 7;
          entitlement_key = "meeting.durationMinutes";
          enabled = none;
          limit_value = some 40;
        }
        ∷ [];
    usage = λ t. record {
      users = 0;
      meetings_this_month = 0;
      storage_bytes = 0;
      recordings_this_month = 0;
    };
  };
  configurations = record { tenant_id = 7; max_meeting_duration_minutes = 60 } ∷ [];
}

-- The realtime server knows no room `xpace-abc` any more, and fails for `xpace-stuck`.
abbrev close : String → Option String
close room = if room == "xpace-abc" then some "twirp error: Room NOT_FOUND" else some "timeout"

machine : Unit {0}
unfolding run_meeting_duration_enforcement enforce_all enforce_meeting_duration end_meeting
    close_room room_already_closed effective_limit expired_meetings first exists keep update_where
    sort_by insert_by take contains to_lower
machine = tt

limit : effective_limit store 7 ≡ 40
unfolding machine
limit = refl

read : map (λ m. m.id) (expired_meetings store 4000) ≡ 5 ∷ 3 ∷ []
unfolding machine
read = refl

left_over :
    map
      (λ m. m.id)
      (expired_meetings
        (run_meeting_duration_enforcement no_faults (λ _. no_faults) true close store 4000)
        4000)
    ≡ 5 ∷ []
unfolding machine
left_over = refl

sent_off :
    map
      (λ p. p.left_at)
      (run_meeting_duration_enforcement no_faults
        (λ _. no_faults)
        true
        close
        store
        4000).base.participants
    ≡ some 4000 ∷ []
unfolding machine
sent_off = refl

found : first (λ x. x.id == 3) store.base.meetings ≡ some long
unfolding machine
found = refl

is_read : exists (λ x. x.id == 3) (expired_meetings store 4000) ≡ true
unfolding machine
is_read = refl

no_other : AtMostOne (λ x. x.id == 3) store.base.meetings
unfolding machine
no_other = ((λ _. refl), ((λ _. refl), ((λ _. refl), tt)))

closes : stays_open (close "xpace-abc") ≡ false
unfolding machine
closes = refl

run-Settled_example :
    (q : Meeting) × (first
        (λ x. x.id == 3)
        (run_meeting_duration_enforcement no_faults
          (λ _. no_faults)
          true
          close
          store
          4000).base.meetings
      ≡ some q)
    × Settled 4000 long q
run-Settled_example =
    run-Settled no_faults (λ _. no_faults) close store 4000 long found no_other is_read refl refl
      refl closes
