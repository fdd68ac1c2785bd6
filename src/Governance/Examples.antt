-- ===== src/Governance/Examples.antt =====
-- Runs of retention and of holds, and the theorems at concrete rows.
use xpace.Prelude.{
  ℕ, ◌≡◌, refl, true, false, none, some, [], ◌∷◌, ◌==◌, nat_eq, text_eq, arith, first, exists, keep,
  update_where, sort_by, insert_by, take,
}
use xpace.Http.{Faults, no_faults}
use xpace.Governance.{
  Store, Recording, RecordingStatus, LegalHold, HoldStatus, DriveNode, NodeKind, is_held,
}
use xpace.Governance.Retention.{
  apply_governance_retention, load_governance_policy, retain_under, retain_recordings,
  purge_expired_chat_attachments, purge_attachments, redact_messages, expire_recordings,
  purge_expired_recording_objects, purge_recordings, purge_recording, delete_events,
}
use xpace.Governance.Holding.{cleanup_file_held}
use xpace.Governance.Recordings.{OnHold, held_recording_kept}
use xpace.Drive.Cleanup.{expired_files, cleanup_file, cleanup_files, cleanup_drive_retention}

machine : Unit {0}
unfolding first exists keep update_where sort_by insert_by take is_held apply_governance_retention
    load_governance_policy retain_under retain_recordings purge_expired_chat_attachments
    purge_attachments redact_messages expire_recordings purge_expired_recording_objects
    purge_recordings purge_recording delete_events expired_files cleanup_file cleanup_files
    cleanup_drive_retention
machine = tt

abbrev call : Recording
call = record {
  id = 4;
  tenant_id = 7;
  meeting_id = 3;
  started_by = 1;
  object_key = "recordings/7/4";
  status = RecordingStatus.ready;
  egress_id = some "egress";
  stopped_at = some 1500;
  size_bytes = 900;
  created_at = 1000;
  retention_expired_at = some 2000;
  storage_deleted_at = none;
}

abbrev other_call : Recording
other_call = record call { id = 5; object_key = "recordings/7/5" }

abbrev report : DriveNode
report = record {
  id = 9;
  tenant_id = 7;
  parent_id = none;
  room_id = none;
  owner_id = 1;
  kind = NodeKind.file;
  name = "report";
  object_key = "drive/7/9";
  content_type = "text/plain";
  size_bytes = 10;
  version = 1;
  retention_until = some 3000;
  deleted_at = some 2500;
}

abbrev litigation : LegalHold
litigation = record {
  id = 2;
  tenant_id = 7;
  name = "litigation";
  reason = "case 12";
  status = HoldStatus.active;
  released_at = none;
}

abbrev start : Store
start = record {
  rbac = record {
    users = [];
    custom_roles = [];
    custom_role_permissions = [];
    user_custom_roles = [];
    audit = [];
  };
  plans = record {
    plans = [];
    subscriptions = [];
    entitlements = [];
    usage = λ t. record {
      users = 0;
      meetings_this_month = 0;
      storage_bytes = 0;
      recordings_this_month = 0;
    };
  };
  room_members = [];
  conversations = [];
  policies = [];
  holds = litigation ∷ [];
  resources =
      record { hold_id = 2; tenant_id = 7; resource_type = "RECORDING"; resource_id = 4 }
      ∷ record { hold_id = 2; tenant_id = 7; resource_type = "DRIVE_FILE"; resource_id = 9 }
      ∷ [];
  messages = [];
  attachments = [];
  recordings = other_call ∷ call ∷ [];
  nodes = report ∷ [];
  versions = [];
  shares = [];
  objects = "recordings/7/4" ∷ "recordings/7/5" ∷ "drive/7/9" ∷ [];
  audit = [];
}

abbrev alone : ℕ → Store → Store
alone i s = s

abbrev faultless : ℕ → Faults
faultless i = no_faults

-- A run removes the object of the recording that is not on hold, and no other.
purged :
    (apply_governance_retention no_faults faultless alone start 9000000 7).1.objects
    ≡ "recordings/7/4" ∷ "drive/7/9" ∷ []
unfolding machine
purged = refl

call-OnHold : OnHold call start
unfolding machine
call-OnHold = record {
  held = refl;
  row = refl;
  object = refl;
  recordings = ((λ _. refl), ((λ e. absurd (ground (arith, e))), tt));
  attachments = tt;
  nodes = (refl, tt);
}

held_recording_kept_example :
    OnHold call (apply_governance_retention no_faults faultless alone start 9000000 7).1
held_recording_kept_example =
    held_recording_kept call faultless alone (λ i t h. h) 9000000 no_faults start call-OnHold

report_held : is_held start 7 "DRIVE_FILE" 9 ≡ true
unfolding machine
report_held = refl

cleanup_file_held_example :
    ((cleanup_file no_faults start 9000 7 report).nodes ≡ start.nodes)
    × (exists (λ k. k == "drive/7/9") (cleanup_file no_faults start 9000 7 report).objects ≡ false)
cleanup_file_held_example = cleanup_file_held no_faults start 9000 7 report report_held refl
