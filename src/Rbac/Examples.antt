-- ===== src/Rbac/Examples.antt =====
-- Runs of the role administration, and its theorems at concrete requests.
use mathlib.Core.List.{Memᴰ}
use xpace.Prelude.{
  ◌≡◌, ◌⊎◌, ◌↔◌, refl, true, false, some, List, [], ◌∷◌, arith, exists, keep, update_where,
  trim_space,
}
use xpace.Http.{
  Faults, no_faults, CurrentUser, super_admin, tenant_admin, member, active, write_audit_event,
}
use xpace.Rbac.{
  RoleInput, Store, permissions, assignable_permissions, has_permission, built_in,
  valid_permission_set, unique_strings, unique_from, insert_permissions, commit_role, insert_role,
  create_custom_role, admin_custom_roles, custom_role_assignment,
}
use xpace.Rbac.Grants.{IsGranted, has_permission_iff}
use xpace.Rbac.Safety.{Request, create, assign, serve, serve_all, IsAssignable, no_escalation}
use xpace.Rbac.Assignment.{serve_refused}

machine : Unit {0}
unfolding serve serve_all admin_custom_roles create_custom_role insert_role commit_role
    insert_permissions unique_strings unique_from valid_permission_set has_permission built_in
    permissions assignable_permissions custom_role_assignment exists keep update_where trim_space
    write_audit_event
machine = tt

abbrev admin : CurrentUser
admin = record { id = 1; tenant_id = 7; role = tenant_admin }

abbrev ann : CurrentUser
ann = record { id = 2; tenant_id = 7; role = member }

abbrev start : Store
start = record {
  users =
      record { id = 1; tenant_id = 7; role = tenant_admin; status = active; deleted = false }
      ∷ record { id = 2; tenant_id = 7; role = member; status = active; deleted = false }
      ∷ [];
  custom_roles = [];
  custom_role_permissions = [];
  user_custom_roles = [];
  audit = [];
}

abbrev auditors : RoleInput
auditors = record {
  name = " Auditors ";
  description = "";
  permissions = "audit.read" ∷ "audit.read" ∷ [];
}

abbrev greedy : RoleInput
greedy = record { name = "Root"; description = ""; permissions = "platform.manage" ∷ [] }

abbrev requests : List (Faults × Request)
requests =
    (no_faults, create admin 10 (some auditors))
    ∷ (no_faults, assign admin true 10 2)
    ∷ (no_faults, create admin 11 (some greedy))
    ∷ []

ann_reads_audit : has_permission no_faults (serve_all start requests) ann "audit.read" ≡ true
unfolding machine
ann_reads_audit = refl

ann_manages_nothing : has_permission no_faults (serve_all start requests) ann "roles.manage" ≡ false
unfolding machine
ann_manages_nothing = refl

no_escalation_example :
    (member ≡ super_admin) ⊎ (Memᴰ "audit.read" (permissions member) ⊎ IsAssignable "audit.read")
no_escalation_example = no_escalation start requests no_faults ann "audit.read" tt ann_reads_audit

has_permission_iff_example : (has_permission no_faults start ann "meeting.join" ≡ true) ↔ (
    Memᴰ "meeting.join" (permissions member)
    ⊎ ((member ≡ super_admin) ⊎ IsGranted start ann "meeting.join"))
has_permission_iff_example = has_permission_iff no_faults start ann "meeting.join" refl

greedy_status : (serve no_faults start (create admin 11 (some greedy))).0.status ≡ 400
unfolding machine
greedy_status = refl

serve_refused_example : (serve no_faults start (create admin 11 (some greedy))).1 ≡ start
serve_refused_example =
    serve_refused no_faults start (create admin 11 (some greedy)) (omega (arith, greedy_status))
