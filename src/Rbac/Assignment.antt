-- ===== src/Rbac/Assignment.antt =====
-- services/api/internal/httpapi/rbac.go: the error answers of the role administration.
use xpace.Prelude.{ℕ, ◌≡◌, String, false, Option, none, some, List, nat_eq, text_eq, leb}
use xpace.Http.{IsError, Unchanged, unchanged_rules, Faults, CurrentUser}
use xpace.Rbac.{
  CustomRole, RolePermission, RoleInput, Store, commit_role, insert_role, create_custom_role,
  admin_custom_roles, update_custom_role, custom_role_assignment, delete_custom_role, replace_role,
  update_decoded,
}
use xpace.Rbac.Safety.{Request, create, update, assign, serve}

module _ (down : Faults) (s : Store) (actor : CurrentUser) where
  commit-Unchanged :
      (action : String) (id : ℕ) (roles : List CustomRole) (status : ℕ)
      (saved : Option (List RolePermission))
      → leb 400 status ≡ false
      → Unchanged s (commit_role down s actor action id roles status saved)
  unfolding commit_role
  commit-Unchanged action id roles status none ok = search unchanged_rules
  commit-Unchanged action id roles status (some perms) ok = search unchanged_rules

  create-Unchanged :
      (id : ℕ) (input : Option RoleInput) → Unchanged s (create_custom_role down s actor id input)
  unfolding create_custom_role insert_role
  create-Unchanged id none = search unchanged_rules
  create-Unchanged id (some input) = search (unchanged_rules, commit-Unchanged)

  update-Unchanged :
      (id : ℕ) (input : Option RoleInput) → Unchanged s (update_decoded down s actor id input)
  unfolding update_decoded replace_role
  update-Unchanged id none = search unchanged_rules
  update-Unchanged id (some input) = search (unchanged_rules, commit-Unchanged) depth 8

  delete-Unchanged : (id : ℕ) → Unchanged s (delete_custom_role down s actor id)
  unfolding delete_custom_role
  delete-Unchanged id = search unchanged_rules

serve-Unchanged : (down : Faults) (s : Store) (r : Request) → Unchanged s (serve down s r)
unfolding serve admin_custom_roles update_custom_role custom_role_assignment
serve-Unchanged down s (create actor id input) = search (unchanged_rules, create-Unchanged)
serve-Unchanged down s (update actor is_delete id input) =
    search (unchanged_rules, delete-Unchanged, update-Unchanged)
serve-Unchanged down s (assign actor is_put role_id user_id) = search unchanged_rules

-- A request of the role administration that is answered by an error has changed no table.
pub serve_refused :
    (down : Faults) (s : Store) (r : Request) → IsError (serve down s r).0 → (serve down s r).1 ≡ s
serve_refused down s r = (serve-Unchanged down s r).on_error
