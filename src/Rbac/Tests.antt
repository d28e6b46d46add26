-- ===== src/Rbac/Tests.antt =====
-- Runs of the theorems on roles and permissions.
use wildfire.Base.{
  ◌≡◌, refl, not, ◌&&◌, String, true, false, ◌||◌, none, some, List, [], ◌∷◌, ok, guard, or_throw,
  ◌>>=◌, distinct,
}
use wildfire.Schedule.{◌+++◌}
use wildfire.Auth.Rotating.{AuthUser}
use wildfire.Rbac.{
  Rbac, PermissionRow, is_admin_user, role_has, user_has, find_role, find_user,
  find_permissions_by_ids, set_role_permissions_rows, set_user_roles_rows,
  list_permissions_by_role_id, create_role_row, find_role_by_name,
}
use wildfire.Rbac.Permissions.{
  Permission, PermissionResource, PermissionAction, permission_key, parse_permission, resource_text,
  action_text,
}
use wildfire.Rbac.Roles.{
  check_permission, set_role_permissions, set_user_roles, create_role, has_admin_permission,
  selected_permission_ids,
}
use wildfire.Rbac.Escalation.{Request, served_all-no_escalation, set_role_permissions-strips}
use wildfire.Rbac.Access.{parse_permission-key, check_permission_lem, names}

abbrev user : String → AuthUser
user id = record {
  id = id;
  username = id;
  email = none;
  name = id;
  timezone = none;
  avatar_key = none;
  invited_at = none;
  is_active = true;
  banned_at = none;
  last_seen_at = none;
}

abbrev all_access : PermissionRow
all_access = record { id = "p0"; resource = "admin"; action = "access"; is_admin = true }

abbrev edit_roles : PermissionRow
edit_roles = record { id = "p1"; resource = "roles"; action = "update"; is_admin = false }

abbrev tables : Rbac
tables = record {
  users = user "root" ∷ user "ann" ∷ [];
  roles =
      record { id = "r0"; name = "Admin"; description = none }
      ∷ record { id = "r1"; name = "Manager"; description = none }
      ∷ [];
  permissions = all_access ∷ edit_roles ∷ [];
  user_roles = ("root", "r0") ∷ ("ann", "r1") ∷ [];
  role_permissions = ("r0", "p0") ∷ ("r1", "p1") ∷ [];
}

-- Ann makes a role, gives it what she may, and tries to give herself the Admin role.
abbrev requests : List Request
requests =
    Request.create "r2" "Helper" none
    ∷ Request.set_permissions "r2" ("p1" ∷ [])
    ∷ Request.set_permissions "r2" ("p0" ∷ [])
    ∷ Request.set_roles "ann" ("r0" ∷ "r2" ∷ []) (some "ann")
    ∷ []

served_all-no_escalation_example : is_admin_user "root" tables ≡ true
unfolding is_admin_user create_role set_role_permissions set_user_roles create_role_row
    find_role_by_name find_role find_user find_permissions_by_ids set_role_permissions_rows
    set_user_roles_rows list_permissions_by_role_id has_admin_permission selected_permission_ids
    distinct guard or_throw ◌>>=◌
served_all-no_escalation_example =
    served_all-no_escalation requests tables "root" (tt, (tt, (tt, (refl, tt)))) refl

-- The Admin role itself is stripped.
set_role_permissions-strips_example :
    role_has (λ p. p.is_admin) "r0" (set_role_permissions "r0" ("p1" ∷ []) tables).1 ≡ false
unfolding set_role_permissions find_role find_permissions_by_ids set_role_permissions_rows guard
    or_throw ◌>>=◌
set_role_permissions-strips_example =
    set_role_permissions-strips "r0" ("p1" ∷ []) tables {selected = edit_roles ∷ []} refl

abbrev update_roles : Permission
update_roles = record { resource = PermissionResource.roles; action = PermissionAction.update }

check_permission_lem_example :
    check_permission "ann" (permission_key update_roles) tables
    ≡ ok (
        is_admin_user "ann" tables
        || user_has (λ p. not p.is_admin && names update_roles p) "ann" tables)
check_permission_lem_example = check_permission_lem "ann" update_roles tables (
  (record { resource = PermissionResource.admin; action = PermissionAction.access }, refl, refl),
  ((update_roles, refl, refl), tt),
)

parse_permission-key_example :
    parse_permission
      (resource_text PermissionResource.ai +++ ":" +++ action_text PermissionAction.access)
    ≡ ok (record { resource = PermissionResource.ai; action = PermissionAction.access })
parse_permission-key_example = parse_permission-key PermissionResource.ai PermissionAction.access
