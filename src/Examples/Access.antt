-- ===== src/Examples/Access.antt =====
-- The permission checks of rbac.go on the roles of the table.
use zero_agent_scan.Prelude.{◌≡◌, refl, ◌↔◌, true, false, [], ◌∷◌, lookup, All}
use zero_agent_scan.Auth.Roles.{
  role_viewer, role_admin, role_super_admin, role_permissions, has_permission, has_all_permissions,
}
use zero_agent_scan.Auth.Roles.Tiers.{has_all_permissions_lem, manage_tenants_only}

viewer_reads : has_permission role_viewer "read:drift" ≡ true
unfolding has_permission role_permissions lookup
viewer_reads = refl

viewer_scans : has_permission role_viewer "trigger:scans" ≡ false
unfolding has_permission role_permissions lookup
viewer_scans = refl

super_admin_tenants : has_permission role_super_admin "manage:tenants" ≡ true
unfolding has_permission role_permissions lookup
super_admin_tenants = refl

admin_users : has_permission role_admin "manage:users" ≡ true
unfolding has_permission role_permissions lookup
admin_users = refl

has_all_permissions_example :
    (has_all_permissions role_viewer ("read:drift" ∷ []) ≡ true)
    ↔ All (λ p. has_permission role_viewer p ≡ true) ("read:drift" ∷ [])
has_all_permissions_example = has_all_permissions_lem role_viewer ("read:drift" ∷ [])

manage_tenants_only_example : role_super_admin ≡ role_super_admin
manage_tenants_only_example = manage_tenants_only role_super_admin super_admin_tenants
