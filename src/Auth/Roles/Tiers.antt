-- ===== src/Auth/Roles/Tiers.antt =====
-- What the permission table of rbac.go grants: its tiers, and who holds the administrative rights.
use mathlib.Core.Path.{subst}
use zero_agent_scan.Prelude.{
  Each, Each-lookup, ◌≡◌, refl, ◌↔◌, ◌⊎◌, inl, inr, Bool, true, false, ◌&&◌, ◌||◌, List, [], ◌∷◌,
  arith, ◌==◌, eq_iff, Map, lookup, All, Bool-cases, Option-cases,
}
use zero_agent_scan.Auth.Roles.{
  Role, Permission, role_viewer, role_operator, role_auditor, role_admin, role_super_admin,
  viewer_permissions, operator_permissions, auditor_permissions, admin_permissions,
  super_admin_permissions, role_permissions, keys, get_role_permissions, read_flag, has_permission,
  has_all_permissions,
}

-- The check of several permissions is the check of each.
pub has_all_permissions_lem :
    (role : Role) (perms : List Permission)
    → (has_all_permissions role perms ≡ true) ↔ All (λ p. has_permission role p ≡ true) perms
unfolding has_all_permissions
has_all_permissions_lem role [] = ((λ h. tt), (λ h. refl))
has_all_permissions_lem role (p ∷ perms) = ground (arith, has_all_permissions_lem role perms)

-- Every permission of `m` is one of `n`, by running through `m`.
abbrev within : Map Bool → Map Bool → Bool
within [] n = true
within ((k, b) ∷ m) n = read_flag k n && within m n

within-read_flag :
    (m n : Map Bool) (perm : Permission)
    → within m n ≡ true
    → read_flag perm m ≡ true
    → read_flag perm n ≡ true
unfolding lookup
within-read_flag [] n perm w h = absurd (ground arith)
within-read_flag ((k, b) ∷ m) n perm w h = elim (Bool-cases (k == perm)) [
  | inl e ↦ subst (λ p. read_flag p n ≡ true) ((eq_iff k perm).0 e) (ground arith)
  | inr e ↦ within-read_flag m n perm (ground arith) (ground arith)
]

-- The tiers of the roles, each with those right below it.
pub data IsBelow : Role → Role → Type 0 where
  viewer_operator : IsBelow role_viewer role_operator
  viewer_auditor : IsBelow role_viewer role_auditor
  operator_admin : IsBelow role_operator role_admin
  auditor_admin : IsBelow role_auditor role_admin
  admin_super_admin : IsBelow role_admin role_super_admin
  through : {a b c : Role} → IsBelow a b → IsBelow b c → IsBelow a c

-- A higher tier has every permission of a lower one.
pub has_permission_mono :
    {lower higher : Role} (perm : Permission)
    → IsBelow lower higher
    → has_permission lower perm ≡ true
    → has_permission higher perm ≡ true
unfolding has_permission role_permissions lookup
has_permission_mono perm viewer_operator h =
    within-read_flag viewer_permissions operator_permissions perm refl h
has_permission_mono perm viewer_auditor h =
    within-read_flag viewer_permissions auditor_permissions perm refl h
has_permission_mono perm operator_admin h =
    within-read_flag operator_permissions admin_permissions perm refl h
has_permission_mono perm auditor_admin h =
    within-read_flag auditor_permissions admin_permissions perm refl h
has_permission_mono perm admin_super_admin h =
    within-read_flag admin_permissions super_admin_permissions perm refl h
has_permission_mono perm (through p q) h = has_permission_mono perm q (has_permission_mono perm p h)

abbrev pub contains : Permission → List Permission → Bool
contains perm [] = false
contains perm (p ∷ perms) = p == perm || contains perm perms

abbrev all_granted : Map Bool → Bool
all_granted [] = true
all_granted ((k, b) ∷ m) = b && all_granted m

read_flag-keys :
    (perm : Permission) (m : Map Bool)
    → all_granted m ≡ true
    → read_flag perm m ≡ contains perm (keys m)
unfolding lookup keys
read_flag-keys perm [] h = refl
read_flag-keys perm ((k, b) ∷ m) h = ground (arith, read_flag-keys perm m)

role_permissions_granted : Each (λ m. all_granted m ≡ true) role_permissions
unfolding role_permissions
role_permissions_granted = (refl, (refl, (refl, (refl, (refl, tt)))))

-- The permissions that are listed for a role are the ones that it passes the check of.
pub has_permission-get_role_permissions :
    (role : Role) (perm : Permission)
    → has_permission role perm ≡ contains perm (get_role_permissions role)
unfolding has_permission get_role_permissions
has_permission-get_role_permissions role perm = elim (Option-cases (lookup role role_permissions)) [
  | inl e ↦ rw (e, has_permission, get_role_permissions) refl
  | inr (perms, e) ↦
      let granted =
        Each-lookup (λ m. all_granted m ≡ true) role perms role_permissions role_permissions_granted
          e in
      rw (e, has_permission, get_role_permissions) (read_flag-keys perm perms granted)
]

-- A role that is none of the five has no permission at all.
pub has_permission_known :
    (role : Role) (perm : Permission)
    → has_permission role perm ≡ true
    → contains role
        (role_viewer ∷ role_operator ∷ role_auditor ∷ role_admin ∷ role_super_admin ∷ [])
      ≡ true
unfolding has_permission role_permissions lookup
has_permission_known role perm h = ground arith

-- Tenants are managed by the super administrator alone.
pub manage_tenants_only :
    (role : Role) → has_permission role "manage:tenants" ≡ true → role ≡ role_super_admin
unfolding has_permission role_permissions lookup
manage_tenants_only role h = ground (arith, eq_iff role_super_admin role)

abbrev pub IsAdministrator : Role → Type 0
IsAdministrator role = (role ≡ role_admin) ⊎ (role ≡ role_super_admin)

manage_users : (role : Role) → has_permission role "manage:users" ≡ true → IsAdministrator role
unfolding has_permission role_permissions lookup
manage_users role h = ground (arith, eq_iff role_admin role, eq_iff role_super_admin role)

manage_credentials :
    (role : Role) → has_permission role "manage:credentials" ≡ true → IsAdministrator role
unfolding has_permission role_permissions lookup
manage_credentials role h = ground (arith, eq_iff role_admin role, eq_iff role_super_admin role)

manage_alerts : (role : Role) → has_permission role "manage:alerts" ≡ true → IsAdministrator role
unfolding has_permission role_permissions lookup
manage_alerts role h = ground (arith, eq_iff role_admin role, eq_iff role_super_admin role)

abbrev pub administrative : List Permission
administrative = "manage:users" ∷ "manage:credentials" ∷ "manage:alerts" ∷ []

-- Users, credentials and alert rules are managed by the two administrators alone.
pub administrative_only :
    (role : Role) (perm : Permission)
    → contains perm administrative ≡ true
    → has_permission role perm ≡ true
    → IsAdministrator role
administrative_only role perm p h = ground (
  arith,
  eq_iff "manage:users" perm,
  eq_iff "manage:credentials" perm,
  eq_iff "manage:alerts" perm,
  manage_users role,
  manage_credentials role,
  manage_alerts role,
)
