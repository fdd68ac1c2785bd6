-- ===== src/Rbac.antt =====
-- services/api/internal/httpapi/roles.go and rbac.go: built-in roles, custom roles and their
-- assignment. The four tables are lists of rows; `gen_random_uuid()` is the argument `new_id`.
-- A body that `decodeJSON` refuses is `none`.
pub mod Grants
pub mod Safety
pub mod Assignment
mod Examples
use Prim.Native.String.{len}
use xpace.Prelude.{
  ℕ, String, Bool, true, false, not, ◌&&◌, ◌||◌, Option, none, some, List, [], ◌∷◌, ◌++◌, exists,
  keep, update_where, ltb, ◌==◌, if◌then◌else◌, nat_eq, text_eq, trim_space,
}
use xpace.Http.{
  Response, error_json, respond_json, unwritten, Faults, Role, super_admin, tenant_admin, host,
  co_host, member, guest, User, CurrentUser, AuditEvent, write_audit_event, is_active,
}

unfoldable pub permissions : Role → List String
permissions super_admin =
    "platform.manage" ∷ "tenant.manage" ∷ "users.manage" ∷ "groups.manage" ∷ "roles.manage"
    ∷ "identity.manage" ∷ "governance.manage" ∷ "incident.manage" ∷ "policy.manage" ∷ "audit.read"
    ∷ "analytics.read" ∷ "meeting.create" ∷ "meeting.moderate" ∷ "meeting.join" ∷ []
permissions tenant_admin =
    "tenant.manage" ∷ "users.manage" ∷ "groups.manage" ∷ "roles.manage" ∷ "identity.manage"
    ∷ "governance.manage" ∷ "incident.manage" ∷ "policy.manage" ∷ "audit.read" ∷ "analytics.read"
    ∷ "meeting.create" ∷ "meeting.moderate" ∷ "meeting.join" ∷ []
permissions host = "meeting.create" ∷ "meeting.moderate.owned" ∷ "meeting.join" ∷ []
permissions co_host = "meeting.create" ∷ "meeting.moderate.assigned" ∷ "meeting.join" ∷ []
permissions member = "meeting.create" ∷ "meeting.join" ∷ []
permissions guest = "meeting.join" ∷ []

unfoldable pub assignable_permissions : List String
assignable_permissions =
    "analytics.read" ∷ "audit.read" ∷ "governance.manage" ∷ "groups.manage" ∷ "identity.manage"
    ∷ "incident.manage" ∷ "meeting.create" ∷ "meeting.moderate" ∷ "policy.manage" ∷ "users.manage"
    ∷ []

unfoldable pub is_workspace_admin : Role → Bool
is_workspace_admin super_admin = true
is_workspace_admin tenant_admin = true
is_workspace_admin _ = false

pub record CustomRole : Type 0 where
  pub id : ℕ
  pub tenant_id : ℕ
  pub name : String
  pub description : String

pub record RolePermission : Type 0 where
  pub role_id : ℕ
  pub permission : String

pub record UserRole : Type 0 where
  pub tenant_id : ℕ
  pub user_id : ℕ
  pub role_id : ℕ

pub record Store : Type 0 where
  pub users : List User
  pub custom_roles : List CustomRole
  pub custom_role_permissions : List RolePermission
  pub user_custom_roles : List UserRole
  pub audit : List AuditEvent

-- The joins of the permission query, from the assignment to the role to its permissions.
abbrev pub role_of : UserRole → CustomRole → Bool
role_of ur r = r.id == ur.role_id && r.tenant_id == ur.tenant_id

abbrev pub permission_of : String → ℕ → RolePermission → Bool
permission_of permission role_id p = p.role_id == role_id && p.permission == permission

abbrev pub grants : Store → CurrentUser → String → UserRole → Bool
grants s actor permission ur =
    ur.user_id == actor.id
    && ur.tenant_id == actor.tenant_id
    && exists (role_of ur) s.custom_roles
    && exists (permission_of permission ur.role_id) s.custom_role_permissions

unfoldable pub built_in : List String → String → Bool
built_in [] permission = false
built_in (item ∷ rest) permission =
    item == permission || item == "platform.manage" || built_in rest permission

unfoldable pub has_permission : Faults → Store → CurrentUser → String → Bool
has_permission down s actor permission =
    built_in (permissions actor.role) permission
    || (not (down "permission") && exists (grants s actor permission) s.user_custom_roles)

unfoldable pub valid_permission_set : List String → Bool
valid_permission_set [] = true
valid_permission_set (item ∷ rest) =
    exists (λ a. a == item) assignable_permissions && valid_permission_set rest

-- `uniqueStrings`, whose sort only orders the reply: the first occurrences, in order.
unfoldable pub unique_from : List String → List String → List String
unique_from seen [] = []
unique_from seen (item ∷ rest) =
    let later = unique_from (item ∷ seen) rest in
    let same = unique_from seen rest in if exists (λ a. a == item) seen then same else item ∷ later

unfoldable pub unique_strings : List String → List String
unique_strings items = unique_from [] items

pub record RoleInput : Type 0 where
  pub name : String
  pub description : String
  pub permissions : List String

-- Inserting the permissions one by one; the primary key is (role_id, permission), and `none` is an
-- error.
unfoldable pub insert_permissions :
    Faults → ℕ → List String → List RolePermission → Option (List RolePermission)
insert_permissions down role_id [] table = some table
insert_permissions down role_id (permission ∷ rest) table =
    let next =
      insert_permissions down role_id rest
        (table ++ record { role_id = role_id; permission = permission } ∷ []) in
    if down permission || exists (permission_of permission role_id) table then none else next

abbrev pub name_taken : ℕ → String → ℕ → CustomRole → Bool
name_taken tenant_id name except r =
    r.tenant_id == tenant_id && r.name == name && not (r.id == except)

abbrev pub role_audit : CurrentUser → String → ℕ → AuditEvent
role_audit actor action role_id = record {
  tenant_id = actor.tenant_id;
  actor_id = some actor.id;
  action = action;
  resource_type = "custom_role";
  resource_id = role_id;
}

unfoldable pub commit_role :
    Faults
    → Store
    → CurrentUser
    → String
    → ℕ
    → List CustomRole
    → ℕ
    → Option (List RolePermission)
    → Response × Store
commit_role down s actor action role_id roles status none = (error_json 500 "INTERNAL_ERROR", s)
commit_role down s actor action role_id roles status (some perms) =
    if down "commit" then (error_json 500 "INTERNAL_ERROR", s) else (
      respond_json status,
      record s {
        custom_roles = roles;
        custom_role_permissions = perms;
        audit = write_audit_event down (role_audit actor action role_id) s.audit;
      },
    )

abbrev pub bad_name : String → Bool
bad_name name = ltb (len name) 2 || ltb 80 (len name)

-- The rows of `custom_roles` after the INSERT.
abbrev pub created_roles : Store → CurrentUser → ℕ → RoleInput → List CustomRole
created_roles s actor new_id input =
    s.custom_roles
    ++ record {
      id = new_id;
      tenant_id = actor.tenant_id;
      name = trim_space input.name;
      description = trim_space input.description;
    }
      ∷ []

unfoldable pub insert_role : Faults → Store → CurrentUser → ℕ → RoleInput → Response × Store
insert_role down s actor new_id input =
    let name = trim_space input.name in
    let saved =
      insert_permissions down new_id (unique_strings input.permissions) s.custom_role_permissions in
    if bad_name name
      || ltb 300 (len (trim_space input.description))
      || not (valid_permission_set input.permissions)
    then (error_json 400 "INVALID_ROLE", s)
    else if down "begin"
    then (error_json 500 "INTERNAL_ERROR", s)
    else if down "insert role"
        || exists (λ r. r.tenant_id == actor.tenant_id && r.name == name) s.custom_roles
    then (error_json 409 "ROLE_EXISTS", s)
    else commit_role down s actor "rbac.role.create" new_id (created_roles s actor new_id input) 201
        saved

unfoldable pub create_custom_role :
    Faults → Store → CurrentUser → ℕ → Option RoleInput → Response × Store
create_custom_role down s actor new_id none = (unwritten, s)
create_custom_role down s actor new_id (some input) = insert_role down s actor new_id input

-- `adminCustomRoles` on a POST request; a GET lists the roles and changes nothing.
unfoldable pub admin_custom_roles :
    Faults → Store → CurrentUser → ℕ → Option RoleInput → Response × Store
admin_custom_roles down s actor new_id input =
    if not (has_permission down s actor "roles.manage")
    then (error_json 403 "PERMISSION_REQUIRED", s)
    else create_custom_role down s actor new_id input

abbrev pub is_role : CurrentUser → ℕ → CustomRole → Bool
is_role actor role_id r = r.id == role_id && r.tenant_id == actor.tenant_id

-- Deleting a role cascades to its permissions and its assignments.
unfoldable pub delete_custom_role : Faults → Store → CurrentUser → ℕ → Response × Store
delete_custom_role down s actor role_id =
    if down "delete role"
    then (error_json 500 "INTERNAL_ERROR", s)
    else if not (exists (is_role actor role_id) s.custom_roles)
    then (error_json 404 "ROLE_NOT_FOUND", s)
    else (
      respond_json 204,
      record s {
        custom_roles = keep (λ r. not (is_role actor role_id r)) s.custom_roles;
        custom_role_permissions = keep (λ p. not (p.role_id == role_id)) s.custom_role_permissions;
        user_custom_roles = keep (λ ur. not (ur.role_id == role_id)) s.user_custom_roles;
        audit = write_audit_event down (role_audit actor "rbac.role.delete" role_id) s.audit;
      },
    )

-- The rows of `custom_roles` after the UPDATE, and of `custom_role_permissions` after the DELETE.
abbrev pub renamed_roles : Store → CurrentUser → ℕ → RoleInput → List CustomRole
renamed_roles s actor role_id input =
    update_where (is_role actor role_id)
      (λ r. record r { name = trim_space input.name; description = trim_space input.description })
      s.custom_roles

abbrev pub other_permissions : Store → ℕ → List RolePermission
other_permissions s role_id = keep (λ p. not (p.role_id == role_id)) s.custom_role_permissions

unfoldable pub replace_role : Faults → Store → CurrentUser → ℕ → RoleInput → Response × Store
replace_role down s actor role_id input =
    let name = trim_space input.name in
    let saved =
      insert_permissions down role_id (unique_strings input.permissions)
        (other_permissions s role_id) in
    if bad_name name || not (valid_permission_set input.permissions)
    then (error_json 400 "INVALID_ROLE", s)
    else if down "begin"
    then (error_json 500 "INTERNAL_ERROR", s)
    else if down "update role"
        || (exists (is_role actor role_id) s.custom_roles
            && exists (name_taken actor.tenant_id name role_id) s.custom_roles)
    then (error_json 409 "ROLE_EXISTS", s)
    else if not (exists (is_role actor role_id) s.custom_roles)
    then (error_json 404 "ROLE_NOT_FOUND", s)
    else commit_role down s actor "rbac.role.update" role_id (renamed_roles s actor role_id input)
        200 (if down "delete permissions" then none else saved)

unfoldable pub update_decoded :
    Faults → Store → CurrentUser → ℕ → Option RoleInput → Response × Store
update_decoded down s actor role_id none = (unwritten, s)
update_decoded down s actor role_id (some input) = replace_role down s actor role_id input

-- `updateCustomRole`: a DELETE request, or any other with a body.
unfoldable pub update_custom_role :
    Faults → Store → CurrentUser → Bool → ℕ → Option RoleInput → Response × Store
update_custom_role down s actor is_delete role_id input =
    if not (has_permission down s actor "roles.manage")
    then (error_json 403 "PERMISSION_REQUIRED", s)
    else if is_delete
    then delete_custom_role down s actor role_id
    else update_decoded down s actor role_id input

abbrev pub is_assignee : CurrentUser → ℕ → User → Bool
is_assignee actor user_id u =
    u.id == user_id && u.tenant_id == actor.tenant_id && is_active u.status

abbrev pub same_assignment : ℕ → ℕ → UserRole → Bool
same_assignment user_id role_id ur = ur.user_id == user_id && ur.role_id == role_id

-- `customRoleAssignment`: a PUT request assigns, any other unassigns. A failed look-up of the role
-- and the user leaves `valid` false.
unfoldable pub custom_role_assignment :
    Faults → Store → CurrentUser → Bool → ℕ → ℕ → Response × Store
custom_role_assignment down s actor is_put role_id user_id =
    let row : UserRole = record {
      tenant_id = actor.tenant_id;
      user_id = user_id;
      role_id = role_id;
    } in
    let assigned =
      if exists (same_assignment user_id role_id) s.user_custom_roles
      then s.user_custom_roles
      else s.user_custom_roles ++ row ∷ [] in
    let unassigned =
      keep (λ ur. not (ur.tenant_id == actor.tenant_id && same_assignment user_id role_id ur))
        s.user_custom_roles in
    let action = if is_put then "rbac.role.assign" else "rbac.role.unassign" in
    if not (has_permission down s actor "roles.manage")
    then (error_json 403 "PERMISSION_REQUIRED", s)
    else if down "assignment target"
        || not (
            exists (is_role actor role_id) s.custom_roles
            && exists (is_assignee actor user_id) s.users)
    then (error_json 404 "ASSIGNMENT_TARGET_NOT_FOUND", s)
    else if down "assignment"
    then (error_json 500 "INTERNAL_ERROR", s)
    else (
      respond_json 200,
      record s {
        user_custom_roles = if is_put then assigned else unassigned;
        audit = write_audit_event down (role_audit actor action role_id) s.audit;
      },
    )
