-- ===== src/Drive/Examples.antt =====
-- Runs of the drive, and the theorems at concrete rows.
use xpace.Prelude.{
  true, ◌≡◌, refl, false, none, some, [], ◌∷◌, ◌==◌, nat_eq, text_eq, arith, first, exists, keep,
  update_where, sort_by, insert_by, take, trim_space, to_upper, AtMostOne,
}
use xpace.Http.{no_faults, CurrentUser, member}
use xpace.Governance.{Store, DriveNode, NodeKind, is_held}
use xpace.Drive.{Upload, can_edit_drive_node, drive_node_update, change_node, delete}
use xpace.Drive.Versions.{
  is_live_file, is_version_of, upload_version, store_version, drive_version_restore, find_version,
}
use xpace.Drive.Cleanup.{
  cleanup_drive_retention, cleanup_files, cleanup_file, expired_files, list_nodes,
}
use xpace.Drive.Restoring.{IsCurrent, restore-upload_version}
use xpace.Drive.Access.{update, serve, is_editable, Fate, list, serve_not_editable}

machine : Unit {0}
unfolding first exists keep update_where trim_space to_upper can_edit_drive_node drive_node_update
    change_node upload_version store_version drive_version_restore find_version serve list_nodes
    cleanup_drive_retention cleanup_files cleanup_file expired_files sort_by insert_by take is_held
machine = tt

abbrev owner : CurrentUser
owner = record { id = 1; tenant_id = 7; role = member }

abbrev reader : CurrentUser
reader = record { id = 2; tenant_id = 7; role = member }

abbrev report : DriveNode
report = record {
  id = 9;
  tenant_id = 7;
  parent_id = none;
  room_id = none;
  owner_id = 1;
  kind = NodeKind.file;
  name = "report";
  object_key = "drive/7/1-report";
  content_type = "text/plain";
  size_bytes = 10;
  version = 1;
  retention_until = some 3000;
  deleted_at = none;
}

abbrev start : Store
start = record {
  rbac = record {
    users = [];
    custom_roles = [];
    custom_role_permissions = [];
    user_custom_roles = [];
    audit = [];
  };
  plans = record {
    plans = [];
    subscriptions = [];
    entitlements = [];
    usage = λ t. record {
      users = 0;
      meetings_this_month = 0;
      storage_bytes = 0;
      recordings_this_month = 0;
    };
  };
  room_members = [];
  conversations = [];
  policies = [];
  holds = [];
  resources = [];
  messages = [];
  attachments = [];
  recordings = [];
  nodes = report ∷ [];
  versions = [];
  shares = record { node_id = 9; tenant_id = 7; user_id = 2; permission = "VIEW" } ∷ [];
  objects = "drive/7/1-report" ∷ [];
  audit = [];
}

abbrev draft : Upload
draft = record { size = 20; content_type = ""; name = "draft"; key = "drive/7/2-draft" }

owner_edits : IsCurrent start owner 9 report
unfolding machine
owner_edits = record {
  one = ((λ _. refl), tt);
  here = refl;
  editable = refl;
  positive = omega arith;
  is_next = λ k h. refl;
}

restore-upload_version_example :
    let t = (upload_version no_faults start 100 owner 9 (some draft)).1 in
    let r = (drive_version_restore no_faults t 200 owner 9 (some 1)).1 in
    (first (is_live_file 9 7) r.nodes ≡ some (record report { version = 3 }))
    × (first (is_version_of 9 7 2) r.versions
        ≡ some (record {
          tenant_id = 7;
          node_id = 9;
          version = 2;
          object_key = "drive/7/2-draft";
          content_type = "application/octet-stream";
          size_bytes = 20;
          created_by = 1;
        }))
    × (exists (λ k. k == "drive/7/2-draft") r.objects ≡ true)
restore-upload_version_example =
    restore-upload_version start owner 9 report 100 200 draft owner_edits refl

one_report : AtMostOne (λ x. x.id == 9) start.nodes
unfolding machine
one_report = ((λ _. refl), tt)

report_here : first (λ x. x.id == 9) start.nodes ≡ some report
unfolding machine
report_here = refl

not_editable : is_editable start reader report ≡ false
unfolding machine
not_editable = refl

serve_not_editable_example :
    Fate start reader 9 report 100
      (update 9 delete)
      (serve no_faults start 100 reader (update 9 delete)).1
serve_not_editable_example =
    serve_not_editable start reader 9 report no_faults 100 (update 9 delete) one_report report_here
      not_editable

-- The same file in the bin, whose retention ended at 3000: the listing of a reader removes it.
abbrev binned : Store
binned = record start { nodes = record report { deleted_at = some 50 } ∷ [] }

too_early : (serve no_faults binned 2999 reader (list (λ _. no_faults) none)).1.nodes ≡ binned.nodes
unfolding machine
too_early = refl

purged_by_listing : (serve no_faults binned 3000 reader (list (λ _. no_faults) none)).1.nodes ≡ []
unfolding machine
purged_by_listing = refl
