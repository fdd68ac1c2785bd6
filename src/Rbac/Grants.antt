-- ===== src/Rbac/Grants.antt =====
-- services/api/internal/httpapi/rbac.go: what `hasPermission` answers, against the
-- tables read as relations.
use text.Mathlib.TextPositions.{eq_refl}
use mathlib.Core.List.{Memᴰ}
use xpace.Prelude.{
  ◌≡◌, ◌↔◌, ◌⊎◌, inl, inr, refl, sym, String, Bool, true, false, List, [], ◌∷◌, arith, eq_iff, ◌==◌,
  nat_eq, text_eq, exists, exists→Mem, Mem→exists, Bool-cases,
}
use xpace.Http.{Faults, CurrentUser, Role, super_admin}
use xpace.Rbac.{
  CustomRole, RolePermission, UserRole, Store, permissions, built_in, has_permission, grants,
  role_of, permission_of,
}

-- A permission that an assigned custom role of the caller's own workspace carries.
pub record IsGranted (s : Store) (actor : CurrentUser) (permission : String) : Type 0 where
  pub assignment : UserRole
  pub role : CustomRole
  pub row : RolePermission
  pub assigned : Memᴰ assignment s.user_custom_roles
  pub exists_role : Memᴰ role s.custom_roles
  pub carries : Memᴰ row s.custom_role_permissions
  pub to_caller : assignment.user_id ≡ actor.id
  pub in_workspace : assignment.tenant_id ≡ actor.tenant_id
  pub same_role : role.id ≡ assignment.role_id
  pub of_workspace : role.tenant_id ≡ actor.tenant_id
  pub of_role : row.role_id ≡ role.id
  pub is_it : row.permission ≡ permission

module _ (s : Store) (actor : CurrentUser) (permission : String) where
  IsGranted-sound :
      exists (grants s actor permission) s.user_custom_roles ≡ true → IsGranted s actor permission
  IsGranted-sound h =
      let (ur, m, g) = exists→Mem (grants s actor permission) s.user_custom_roles h in
      let (r, mr, gr) = exists→Mem (role_of ur) s.custom_roles (ground (arith, g)) in
      let (p, mp, gp) =
        exists→Mem (permission_of permission ur.role_id) s.custom_role_permissions
          (ground (arith, g)) in
      record {
        assignment = ur;
        role = r;
        row = p;
        assigned = m;
        exists_role = mr;
        carries = mp;
        to_caller = ground (arith, g);
        in_workspace = ground (arith, g);
        same_role = ground (arith, gr);
        of_workspace = ground (arith, gr, g);
        of_role = ground (arith, gp, gr);
        is_it = ground (arith, gp, eq_iff p.permission permission);
      }

  granted_complete :
      IsGranted s actor permission → exists (grants s actor permission) s.user_custom_roles ≡ true
  granted_complete g =
      let r = Mem→exists (role_of g.assignment) s.custom_roles g.exists_role (ground arith) in
      let p =
        Mem→exists (permission_of permission g.assignment.role_id) s.custom_role_permissions
          g.carries (ground (arith, eq_iff g.row.permission permission)) in
      Mem→exists (grants s actor permission) s.user_custom_roles g.assigned (ground (arith, r, p))

built_in-sound :
    (items : List String) (permission : String)
    → built_in items permission ≡ true
    → Memᴰ permission items ⊎ Memᴰ "platform.manage" items
unfolding built_in
built_in-sound [] permission h = cc
built_in-sound (item ∷ rest) permission h = elim (Bool-cases (item == permission)) [
  | inl e ↦ inl (Memᴰ.head (sym ((eq_iff item permission).0 e)))
  | inr e ↦ elim (Bool-cases (item == "platform.manage")) [
    | inl f ↦ inr (Memᴰ.head (sym ((eq_iff item "platform.manage").0 f)))
    | inr f ↦ elim (built_in-sound rest permission (rw (e, f) at h)) [
      | inl m ↦ inl (Memᴰ.tail m)
      | inr m ↦ inr (Memᴰ.tail m)
    ]
  ]
]

built_in_of_Mem :
    (items : List String) (permission : String)
    → Memᴰ permission items
    → built_in items permission ≡ true
unfolding built_in
built_in_of_Mem [] permission m = elim m [ ]
built_in_of_Mem (item ∷ rest) permission (Memᴰ.head e) = ground (arith, eq_iff item permission)
built_in_of_Mem (item ∷ rest) permission (Memᴰ.tail m) =
    ground (arith, built_in_of_Mem rest permission m)

built_in-super_admin : (permission : String) → built_in (permissions super_admin) permission ≡ true
unfolding built_in permissions
built_in-super_admin permission = ground (arith, eq_refl "platform.manage")

-- Only SUPER_ADMIN has `platform.manage` built in.
abbrev is_super : Role → Bool
is_super super_admin = true
is_super _ = false

platform_role : (r : Role) → exists (λ a. a == "platform.manage") (permissions r) ≡ is_super r
unfolding permissions exists
platform_role super_admin = refl
platform_role _ = refl

platform_of_Mem : (r : Role) → Memᴰ "platform.manage" (permissions r) → r ≡ super_admin
platform_of_Mem r m =
    let found =
      Mem→exists (λ a. a == "platform.manage") (permissions r) m (eq_refl "platform.manage") in
    ground (arith, found, platform_role r)

module _ (down : Faults) (s : Store) (actor : CurrentUser) (permission : String) where
  -- What a caller may do rests on one of three grounds: a permission built into the role, the role
  -- SUPER_ADMIN, or a custom role of the caller's workspace that is assigned to the caller there.
  pub has_permission_sound :
      has_permission down s actor permission ≡ true
      → Memᴰ permission (permissions actor.role)
        ⊎ ((actor.role ≡ super_admin) ⊎ IsGranted s actor permission)
  unfolding has_permission
  has_permission_sound h = elim (Bool-cases (built_in (permissions actor.role) permission)) [
    | inl e ↦ elim (built_in-sound (permissions actor.role) permission e) [
      | inl m ↦ inl m
      | inr m ↦ inr (inl (platform_of_Mem actor.role m))
    ]
    | inr e ↦ inr (inr (IsGranted-sound s actor permission (ground arith)))
  ]

  -- If the query does not fail, each of the three grounds is enough.
  pub has_permission_complete :
      down "permission" ≡ false
      → Memᴰ permission (permissions actor.role)
        ⊎ ((actor.role ≡ super_admin) ⊎ IsGranted s actor permission)
      → has_permission down s actor permission ≡ true
  unfolding has_permission
  has_permission_complete up (inl m) =
      ground (arith, built_in_of_Mem (permissions actor.role) permission m)
  has_permission_complete up (inr (inl e)) = rw (e, built_in-super_admin)
  has_permission_complete up (inr (inr g)) = ground (arith, granted_complete s actor permission g)

  -- Where the query does not fail, a caller has a permission exactly when it is built into the role,
  -- or the role is SUPER_ADMIN, or a custom role of the caller's workspace that is assigned to the
  -- caller there carries it.
  pub has_permission_iff :
      down "permission" ≡ false
      → (has_permission down s actor permission ≡ true) ↔ (
          Memᴰ permission (permissions actor.role)
          ⊎ ((actor.role ≡ super_admin) ⊎ IsGranted s actor permission))
  has_permission_iff up = (has_permission_sound, has_permission_complete up)
