-- ===== src/Meetings/Examples.antt =====
-- Runs of moderation and of presence, and their theorems at concrete rows.
use xpace.Prelude.{
  ℕ, ◌≡◌, ◌==◌, nat_eq, refl, Bool, false, if◌then◌else◌, none, some, [], ◌∷◌, leb, arith, first,
  exists, update_where, trim_space, to_upper,
}
use xpace.Http.{no_faults, CurrentUser, member, write_audit_event}
use xpace.Rbac.{has_permission, permissions, built_in}
use xpace.Meetings.{
  Meeting, MeetingStatus, Participant, ParticipantRole, ParticipantStatus, Store,
  moderate_participant, moderate_in, moderate_target, update_row, row_action, can_moderate,
}
use xpace.Meetings.Moderation.{Outcome, moderate_participant_outcome}
use xpace.Meetings.Presence.{no_failures, reconcile_row, two_rounds}

machine : Unit {0}
unfolding moderate_participant moderate_in moderate_target update_row row_action can_moderate
    has_permission permissions built_in first exists update_where trim_space to_upper
    write_audit_event
machine = tt

abbrev owner : CurrentUser
owner = record { id = 1; tenant_id = 7; role = member }

abbrev standup : Meeting
standup = record {
  id = 3;
  tenant_id = 7;
  join_code = "ABC";
  status = MeetingStatus.active;
  host_id = 1;
  locked_at = none;
  ended_at = none;
  room_name = "xpace-abc";
  started_at = some 0;
  end_reason = none;
  room_closed_at = none;
}

abbrev bob : Participant
bob = record {
  id = 20;
  meeting_id = 3;
  tenant_id = 7;
  user_id = some 2;
  external_user_id = none;
  external_tenant_id = none;
  role = ParticipantRole.member;
  status = ParticipantStatus.joined;
  joined_at = some 100;
  left_at = none;
  created_at = 90;
}

abbrev start : Store
start = record {
  rbac = record {
    users = [];
    custom_roles = [];
    custom_role_permissions = [];
    user_custom_roles = [];
    audit = [];
  };
  meetings = standup ∷ [];
  participants = bob ∷ [];
  audit = [];
}

removed_by_host :
    (moderate_participant no_faults false start 200 owner "abc" 20 "remove").0.status ≡ 200
unfolding machine
removed_by_host = refl

there : first (λ x. x.id == 20) start.participants ≡ some bob
unfolding machine
there = refl

moderate_participant_outcome_example :
    (q : Participant) × (first
        (λ x. x.id == 20)
        (moderate_participant no_faults false start 200 owner "abc" 20 "remove").1.participants
      ≡ some q)
    × Outcome no_faults start 200 owner "abc" 20 bob q
moderate_participant_outcome_example =
    moderate_participant_outcome no_faults false start 200 owner "abc" 20 "remove" 20 bob there

abbrev nobody : ℕ → Bool
nobody _ = false

two_rounds_example :
    let q = reconcile_row no_failures nobody standup 200 bob in
    (q ≡ record bob { status = ParticipantStatus.disconnected; left_at = some 200 })
    × (reconcile_row no_failures nobody standup 330 q ≡ (
        if nobody 2
        then bob
        else if leb 320 330
        then record bob { status = ParticipantStatus.left_; left_at = some 200 }
        else q))
two_rounds_example =
    two_rounds standup bob 2 nobody nobody 200 330 100 refl refl refl refl refl (omega arith)
      (omega arith) refl refl
