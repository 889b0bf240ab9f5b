-- ===== src/Auth/Roles.antt =====
-- apps/api/internal/auth/rbac.go and types.go: the permissions of each role. A role and a
-- permission are texts, as in the source: SCIM can store any text as a role.
pub mod Tiers
use mathlib.Core.Path.{subst}
use zero_agent_scan.Prelude.{
  Each, Each-lookup, String, ◌≡◌, refl, ◌↔◌, ◌⊎◌, inl, inr, Bool, true, false, ◌&&◌, ◌||◌, Option,
  none, some, List, [], ◌∷◌, map, arith, ◌==◌, eq_iff, Map, lookup, All, if◌then◌else◌, Bool-cases,
  Option-cases,
}

abbrev pub Role : Type 0
Role = String

abbrev pub Permission : Type 0
Permission = String

abbrev pub role_viewer : Role
role_viewer = "viewer"

abbrev pub role_operator : Role
role_operator = "operator"

abbrev pub role_auditor : Role
role_auditor = "auditor"

abbrev pub role_admin : Role
role_admin = "admin"

abbrev pub role_super_admin : Role
role_super_admin = "superadmin"

abbrev viewer_permissions : Map Bool
viewer_permissions =
    ("read:telemetry", true)
    ∷ ("read:compliance", true)
    ∷ ("read:findings", true)
    ∷ ("read:drift", true)
    ∷ ("generate:reports", true)
    ∷ []

abbrev operator_permissions : Map Bool
operator_permissions =
    ("read:telemetry", true)
    ∷ ("read:compliance", true)
    ∷ ("read:findings", true)
    ∷ ("read:drift", true)
    ∷ ("trigger:scans", true)
    ∷ ("cancel:scans", true)
    ∷ ("ack:drift", true)
    ∷ ("generate:reports", true)
    ∷ []

abbrev auditor_permissions : Map Bool
auditor_permissions =
    ("read:telemetry", true)
    ∷ ("read:compliance", true)
    ∷ ("read:findings", true)
    ∷ ("read:drift", true)
    ∷ ("read:audit_logs", true)
    ∷ ("generate:reports", true)
    ∷ []

abbrev admin_permissions : Map Bool
admin_permissions =
    ("read:telemetry", true)
    ∷ ("read:compliance", true)
    ∷ ("read:findings", true)
    ∷ ("read:drift", true)
    ∷ ("read:audit_logs", true)
    ∷ ("trigger:scans", true)
    ∷ ("cancel:scans", true)
    ∷ ("ack:drift", true)
    ∷ ("manage:alerts", true)
    ∷ ("manage:credentials", true)
    ∷ ("manage:users", true)
    ∷ ("generate:reports", true)
    ∷ []

abbrev super_admin_permissions : Map Bool
super_admin_permissions =
    ("read:telemetry", true)
    ∷ ("read:compliance", true)
    ∷ ("read:findings", true)
    ∷ ("read:drift", true)
    ∷ ("read:audit_logs", true)
    ∷ ("trigger:scans", true)
    ∷ ("cancel:scans", true)
    ∷ ("ack:drift", true)
    ∷ ("manage:alerts", true)
    ∷ ("manage:credentials", true)
    ∷ ("manage:users", true)
    ∷ ("manage:tenants", true)
    ∷ ("generate:reports", true)
    ∷ []

unfoldable pub role_permissions : Map (Map Bool)
role_permissions =
    (role_viewer, viewer_permissions)
    ∷ (role_operator, operator_permissions)
    ∷ (role_auditor, auditor_permissions)
    ∷ (role_admin, admin_permissions)
    ∷ (role_super_admin, super_admin_permissions)
    ∷ []

-- The keys of a Go map; their order, which Go leaves open, is that of the text here.
unfoldable pub keys {ℓ} : {V : Type ℓ} → Map V → List String
keys [] = []
keys ((k, v) ∷ m) = k ∷ keys m

unfoldable pub get_role_permissions : Role → List Permission
unfolding keys
get_role_permissions role = elim (lookup role role_permissions) [
  | none ↦ []
  | some perms ↦ keys perms
]

-- A missing key reads as `false`.
abbrev read_flag : Permission → Map Bool → Bool
read_flag perm perms = elim (lookup perm perms) [ none ↦ false | some b ↦ b ]

unfoldable pub has_permission : Role → Permission → Bool
has_permission role perm = elim (lookup role role_permissions) [
  | none ↦ false
  | some perms ↦ read_flag perm perms
]

unfoldable pub has_all_permissions : Role → List Permission → Bool
has_all_permissions role [] = true
has_all_permissions role (p ∷ perms) =
    let rest = has_all_permissions role perms in if has_permission role p then rest else false
