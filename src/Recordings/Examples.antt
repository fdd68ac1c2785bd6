-- ===== src/Recordings/Examples.antt =====
-- A recording that is over, before the operations.
use xpace.Prelude.{
  ◌≡◌, refl, true, none, some, [], ◌∷◌, nat_eq, text_eq, first, exists, update_where, trim_space,
  to_upper,
}
use xpace.Http.{no_faults, CurrentUser, member}
use xpace.Governance.{Recording, RecordingStatus}
use xpace.Meetings.{Meeting, MeetingStatus}
use xpace.Recordings.{Store}
use xpace.Recordings.Control.{stop_recording, stop_found}
use xpace.Recordings.Over.{Over}
use xpace.Recordings.Final.{halt, serve, serve-Over}

machine : Unit {0}
unfolding first exists update_where trim_space to_upper stop_recording stop_found serve
machine = tt

abbrev host : CurrentUser
host = record { id = 1; tenant_id = 7; role = member }

abbrev standup : Meeting
standup = record {
  id = 3;
  tenant_id = 7;
  join_code = "ABC";
  status = MeetingStatus.active;
  host_id = 1;
  locked_at = none;
  ended_at = none;
  room_name = "xpace-abc";
  started_at = some 0;
  end_reason = none;
  room_closed_at = none;
}

abbrev over : Recording
over = record {
  id = 4;
  tenant_id = 7;
  meeting_id = 3;
  started_by = 1;
  object_key = "recordings/7/4";
  status = RecordingStatus.ready;
  egress_id = some "E4";
  stopped_at = some 1500;
  size_bytes = 900;
  created_at = 1000;
  retention_expired_at = none;
  storage_deleted_at = none;
}

abbrev running : Recording
running = record over {
  id = 5;
  object_key = "recordings/7/5";
  status = RecordingStatus.recording;
  egress_id = some "E5";
  stopped_at = none;
}

abbrev no_rows : xpace.Rbac.Store
no_rows = record {
  users = [];
  custom_roles = [];
  custom_role_permissions = [];
  user_custom_roles = [];
  audit = [];
}

abbrev before : Store
before = record {
  base = record {
    rbac = no_rows;
    plans = record {
      plans = [];
      subscriptions = [];
      entitlements = [];
      usage = λ t. record {
        users = 0;
        meetings_this_month = 0;
        storage_bytes = 0;
        recordings_this_month = 0;
      };
    };
    room_members = [];
    conversations = [];
    policies = [];
    holds = [];
    resources = [];
    messages = [];
    attachments = [];
    recordings = over ∷ running ∷ [];
    nodes = [];
    versions = [];
    shares = [];
    objects = [];
    audit = [];
  };
  meetings = record { rbac = no_rows; meetings = standup ∷ []; participants = []; audit = [] };
  policies = [];
  grants = [];
}

-- Stopping the recording that runs leaves it ready.
stopped :
    (serve no_faults 2000 host (halt true "abc") before).base.recordings
    ≡ over ∷ record running { status = RecordingStatus.ready; stopped_at = some 2000 } ∷ []
unfolding machine
stopped = refl

before-Over : Over 4 before
unfolding machine
before-Over = record {
  row = over;
  one = ((λ _. refl), ((λ _. refl), tt));
  found = refl;
  over = refl;
}

serve-Over_example : Over 4 (serve no_faults 2000 host (halt true "abc") before)
serve-Over_example = serve-Over 4 no_faults 2000 host before (halt true "abc") tt before-Over
