-- ===== src/Rbac/Safety.antt =====
-- services/api/internal/httpapi/rbac.go: which permissions custom roles come to
-- carry under sequences of role-administration requests.
use mathlib.Core.Bool.{◌||◌}
use mathlib.Core.List.{Memᴰ}
use xpace.Prelude.{
  ℕ, ◌≡◌, ◌⊎◌, inl, inr, String, Bool, true, not, Option, none, some, List, [], ◌∷◌, ◌++◌, All,
  arith, ◌==◌, nat_eq, text_eq, exists, if_both, Bool-cases, All-append, All-keep, Mem-All,
  if◌then◌else◌, refl,
}
use xpace.Http.{Response, Faults, CurrentUser, super_admin}
use mathlib.Core.Path.{subst}
use xpace.Rbac.{
  is_role, CustomRole, created_roles, renamed_roles, other_permissions, commit_role, insert_role,
  replace_role, RolePermission, RoleInput, Store, permissions, assignable_permissions,
  has_permission, delete_custom_role, update_decoded, valid_permission_set, unique_from,
  unique_strings, insert_permissions, create_custom_role, admin_custom_roles, update_custom_role,
  custom_role_assignment, permission_of,
}
use xpace.Rbac.Grants.{has_permission_sound}

abbrev pub is_assignable : String → Bool
is_assignable permission = exists (λ a. a == permission) assignable_permissions

abbrev pub IsAssignable : String → Type 0
IsAssignable permission = is_assignable permission ≡ true

abbrev pub AllAssignable : List RolePermission → Type 0
AllAssignable = All (λ p. IsAssignable p.permission)

unique_from-All :
    (seen items : List String) → All IsAssignable items → All IsAssignable (unique_from seen items)
unfolding unique_from
unique_from-All seen [] h = tt
unique_from-All seen (item ∷ rest) h =
    ground (arith, unique_from-All (item ∷ seen) rest, unique_from-All seen rest)

valid-All : (items : List String) → valid_permission_set items ≡ true → All IsAssignable items
unfolding valid_permission_set
valid-All [] h = tt
valid-All (item ∷ rest) h = (ground arith, valid-All rest (ground arith))

insert-AllAssignable :
    (down : Faults) (role_id : ℕ) (items : List String) (table saved : List RolePermission)
    → All IsAssignable items
    → AllAssignable table
    → insert_permissions down role_id items table ≡ some saved
    → AllAssignable saved
unfolding insert_permissions
insert-AllAssignable down role_id [] table saved h k e = ground arith
insert-AllAssignable down role_id (item ∷ rest) table saved h k e =
    let row : RolePermission = record { role_id = role_id; permission = item } in
    elim (Bool-cases (down item || exists (permission_of item role_id) table)) [
      | inl f ↦ absurd (ground arith)
      | inr f ↦
          insert-AllAssignable down role_id rest (table ++ row ∷ []) saved h.1
            (All-append (λ p. IsAssignable p.permission) table (row ∷ []) k (h.0, tt)) (rw f at e)
    ]

-- A request to the role administration, by any caller.
pub data Request : Type 0 where
  create : CurrentUser → (new_id : ℕ) → Option RoleInput → Request
  update : CurrentUser → (is_delete : Bool) → (role_id : ℕ) → Option RoleInput → Request
  assign : CurrentUser → (is_put : Bool) → (role_id user_id : ℕ) → Request

unfoldable pub serve : Faults → Store → Request → Response × Store
serve down s (create actor new_id input) = admin_custom_roles down s actor new_id input
serve down s (update actor is_delete role_id input) =
    update_custom_role down s actor is_delete role_id input
serve down s (assign actor is_put role_id user_id) =
    custom_role_assignment down s actor is_put role_id user_id

unfoldable pub serve_all : Store → List (Faults × Request) → Store
serve_all s [] = s
serve_all s ((down, r) ∷ rest) = serve_all (serve down s r).1 rest

abbrev Kept : Response × Store → Type 0
Kept r = AllAssignable r.1.custom_role_permissions

module _ (down : Faults) (s : Store) (h : AllAssignable s.custom_role_permissions)
    (actor : CurrentUser) where
  commit-AllAssignable :
      (action : String) (id : ℕ) (roles : List CustomRole) (status : ℕ)
      (saved : Option (List RolePermission))
      → ((perms : List RolePermission) → saved ≡ some perms → AllAssignable perms)
      → AllAssignable
          (commit_role down s actor action id roles status saved).1.custom_role_permissions
  unfolding commit_role
  commit-AllAssignable action id roles status none k = h
  commit-AllAssignable action id roles status (some perms) k = ground (arith, k perms refl)

  saved-AllAssignable :
      (id : ℕ) (items : List String) (table perms : List RolePermission)
      → valid_permission_set items ≡ true
      → AllAssignable table
      → insert_permissions down id (unique_strings items) table ≡ some perms
      → AllAssignable perms
  unfolding unique_strings
  saved-AllAssignable id items table perms v k e =
      insert-AllAssignable down id (unique_from [] items) table perms
        (unique_from-All [] items (valid-All items v)) k e

  insert_role-AllAssignable :
      (new_id : ℕ) (input : RoleInput)
      → AllAssignable (insert_role down s actor new_id input).1.custom_role_permissions
  unfolding insert_role
  insert_role-AllAssignable new_id input =
      elim (Bool-cases (valid_permission_set input.permissions)) [
        | inl v ↦ ground (
          arith,
          commit-AllAssignable "rbac.role.create" new_id (created_roles s actor new_id input) 201 _
              (λ perms e.
                saved-AllAssignable new_id input.permissions s.custom_role_permissions perms v h e),
        )
        | inr v ↦ ground arith
      ]

  replaced-AllAssignable :
      (id : ℕ) (input : RoleInput) (perms : List RolePermission)
      → valid_permission_set input.permissions ≡ true
      → (if down "delete permissions"
          then none
          else insert_permissions down id
              (unique_strings input.permissions)
              (other_permissions s id))
        ≡ some perms
      → AllAssignable perms
  replaced-AllAssignable id input perms v e =
      saved-AllAssignable id input.permissions (other_permissions s id) perms v
        (All-keep (λ p. IsAssignable p.permission) (λ p. not (p.role_id == id))
          s.custom_role_permissions h)
        (ground arith)

  replace_role-AllAssignable :
      (id : ℕ) (input : RoleInput)
      → AllAssignable (replace_role down s actor id input).1.custom_role_permissions
  unfolding replace_role
  replace_role-AllAssignable id input = elim (Bool-cases (valid_permission_set input.permissions)) [
    | inl v ↦ ground (
      arith,
      commit-AllAssignable "rbac.role.update" id (renamed_roles s actor id input) 200 _
          (λ perms e. replaced-AllAssignable id input perms v e),
    )
    | inr v ↦ ground arith
  ]

  delete-AllAssignable : (id : ℕ) → Kept (delete_custom_role down s actor id)
  unfolding delete_custom_role
  delete-AllAssignable id =
      if_both Kept (down "delete role") (λ _. h)
        (λ _.
          if_both Kept (not (exists (is_role actor id) s.custom_roles)) (λ _. h)
            (λ _.
              All-keep (λ p. IsAssignable p.permission) (λ p. not (p.role_id == id))
                s.custom_role_permissions h))

  update_decoded-AllAssignable :
      (id : ℕ) (input : Option RoleInput) → Kept (update_decoded down s actor id input)
  unfolding update_decoded
  update_decoded-AllAssignable id none = h
  update_decoded-AllAssignable id (some input) = replace_role-AllAssignable id input

  create-AllAssignable :
      (id : ℕ) (input : Option RoleInput) → Kept (create_custom_role down s actor id input)
  unfolding create_custom_role
  create-AllAssignable id none = h
  create-AllAssignable id (some input) = insert_role-AllAssignable id input

serve-AllAssignable :
    (down : Faults) (s : Store) (r : Request)
    → AllAssignable s.custom_role_permissions
    → Kept (serve down s r)
unfolding serve admin_custom_roles update_custom_role custom_role_assignment
serve-AllAssignable down s (create actor id input) h =
    if_both Kept (not (has_permission down s actor "roles.manage")) (λ _. h)
      (λ _. create-AllAssignable down s h actor id input)
serve-AllAssignable down s (update actor is_delete id input) h =
    if_both Kept (not (has_permission down s actor "roles.manage")) (λ _. h)
      (λ _.
        if_both Kept is_delete (λ _. delete-AllAssignable down s h actor id)
          (λ _. update_decoded-AllAssignable down s h actor id input))
serve-AllAssignable down s (assign actor is_put role_id user_id) h = ground arith

serve_all-AllAssignable :
    (requests : List (Faults × Request)) (s : Store)
    → AllAssignable s.custom_role_permissions
    → AllAssignable (serve_all s requests).custom_role_permissions
unfolding serve_all
serve_all-AllAssignable [] s h = h
serve_all-AllAssignable ((down, r) ∷ rest) s h =
    serve_all-AllAssignable rest (serve down s r).1 (serve-AllAssignable down s r h)

-- From tables in which custom roles carry assignable permissions only, whatever requests are served
-- and whichever of their statements fail, a caller who is not SUPER_ADMIN has no more than the
-- permissions built into the caller's role and the assignable ones.
pub no_escalation :
    (s : Store) (requests : List (Faults × Request)) (down : Faults) (actor : CurrentUser)
    (permission : String)
    → AllAssignable s.custom_role_permissions
    → has_permission down (serve_all s requests) actor permission ≡ true
    → (actor.role ≡ super_admin)
      ⊎ (Memᴰ permission (permissions actor.role) ⊎ IsAssignable permission)
no_escalation s requests down actor permission h allowed =
    elim (has_permission_sound down (serve_all s requests) actor permission allowed) [
      | inl m ↦ inr (inl m)
      | inr (inl e) ↦ inl e
      | inr (inr g) ↦ inr (
          inr (
            subst IsAssignable g.is_it (
              Mem-All (λ p. IsAssignable p.permission)
                (serve_all s requests).custom_role_permissions g.carries
                (serve_all-AllAssignable requests s h))))
    ]
