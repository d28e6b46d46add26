-- ===== src/Rbac/Roles.antt =====
-- application/use-cases/rbac: roles, their permissions, the roles of users, and the permission
-- check; application/guards/dcism-user.guard.ts. A use case that throws leaves the tables as they
-- were; what it changes in the permissions' cache is not part of this state.
use wildfire.Base.{
  String, ◌==◌, Bool, true, false, not, ◌&&◌, Option, none, some, truthy, List, [], ◌∷◌, map, any,
  filter, includes, distinct, flat, if◌then◌else◌, Result, ok, err, validation, not_found,
  forbidden, guard, or_throw, ◌>>=◌, ◌>>◌,
}
use wildfire.Auth.Rotating.{AuthUser}
use wildfire.Rbac.{
  Rbac, RoleRow, PermissionRow, admin_role_name, is_system, find_role, find_role_by_name, find_user,
  create_role_row, update_role_row, delete_role_row, delete_user_row, list_permissions_by_role_id,
  find_permissions_by_ids, set_role_permissions_rows, set_user_roles_rows, is_admin_user,
  find_permission_rows_for_user,
}
use wildfire.Rbac.Permissions.{Permission, parse_permission, matches}
use wildfire.Schedule.{◌+++◌}

-- `throw` before the first write.
abbrev pub checked {ℓ κ} :
    {A : Type ℓ} {B : Type κ} → Result A → (A → Result B × Rbac) → Rbac → Result B × Rbac
checked (err e) next st = (err e, st)
checked (ok a) next st = next a

unfoldable pub create_role : String → String → Option String → Rbac → Result RoleRow × Rbac
create_role id name description st =
    checked
      (guard (elim (find_role_by_name name st) [ none ↦ true | some _ ↦ false ])
        (validation "A role with this name already exists."))
      (λ _. create_role_row id name description st) st

-- The new name belongs to no role, where it is another one and not empty.
name_is_free : Option String → RoleRow → Rbac → Bool
name_is_free name existing st = elim (truthy name) [
  | none ↦ true
  | some n ↦
      if n == existing.name
      then true
      else elim (find_role_by_name n st) [ none ↦ true | some _ ↦ false ]
]

unfoldable pub update_role :
    String → Option String → Option (Option String) → Rbac → Result RoleRow × Rbac
unfolding name_is_free
update_role id name description st =
    checked
      (do
        existing ← or_throw (find_role id st) (not_found "Role not found")
        guard (not (is_system existing))
            (forbidden "The Admin role is protected and cannot be modified.")
        guard (name_is_free name existing st) (validation "A role with this name already exists."))
      (λ _.
        let (answer, st') = update_role_row id name description st in
        (answer >>= λ o. or_throw o (not_found "Role not found"), st'))
      st

unfoldable pub delete_role : String → Rbac → Result (Unit {0}) × Rbac
delete_role id st =
    checked
      (do
        role ← or_throw (find_role id st) (not_found "Role not found")
        guard (not (role.name == admin_role_name))
            (forbidden "The Admin role is protected and cannot be deleted."))
      (λ _.
        let (deleted, st') = delete_role_row id st in
        (guard deleted (not_found "Role not found"), st'))
      st

unfoldable pub set_role_permissions :
    String → List String → Rbac → Result (List PermissionRow) × Rbac
set_role_permissions role_id ids st =
    let selected = find_permissions_by_ids ids st in
    checked
      (do
        role ← or_throw (find_role role_id st) (not_found "Role not found")
        guard (not (any (λ p. p.is_admin) selected))
            (forbidden "Cannot assign Admin permission via the application."))
      (λ _.
        let (answer, st') = set_role_permissions_rows role_id ids st in
        (answer >>= λ _. ok selected, st'))
      st

-- The permissions of the roles, each once.
unfoldable pub selected_permission_ids : List String → Rbac → List String
selected_permission_ids role_ids st =
    distinct (flat (map (λ r. list_permissions_by_role_id r st) role_ids))

-- Whether one of the roles gives the Admin permission.
unfoldable pub has_admin_permission : List String → Rbac → Bool
has_admin_permission role_ids st = elim (selected_permission_ids role_ids st) [
  | [] ↦ false
  | id ∷ ids ↦ any (λ p. p.is_admin) (find_permissions_by_ids (id ∷ ids) st)
]

abbrev pub caller_is_admin : Option String → Rbac → Bool
caller_is_admin caller st = elim (truthy caller) [ none ↦ false | some id ↦ is_admin_user id st ]

unfoldable pub set_user_roles :
    String → List String → Option String → Rbac → Result (List RoleRow) × Rbac
set_user_roles user_id role_ids caller st =
    checked
      (do
        user ← or_throw (find_user user_id st) (not_found "User not found")
        guard (not (is_admin_user user_id st))
            (forbidden "Cannot modify roles for an Admin user via the application.")
        guard (not (has_admin_permission role_ids st && not (caller_is_admin caller st)))
            (forbidden "Only Admin users can assign the Admin role."))
      (λ _.
        let (answer, st') = set_user_roles_rows user_id role_ids st in
        (answer >>= λ _. ok (filter (λ r. includes role_ids r.id) st'.roles), st'))
      st

-- `isDcismUser`
abbrev is_dcism_user : AuthUser → Bool → Bool
is_dcism_user user is_admin =
    (elim user.invited_at [ none ↦ true | some _ ↦ false ]) && not is_admin

-- `DeleteCurrentUserUseCase`
unfoldable pub delete_current_user : String → Rbac → Result (Unit {0}) × Rbac
delete_current_user user_id st =
    checked
      (do
        user ← or_throw (find_user user_id st) (not_found "User not found")
        guard (not (is_dcism_user user (is_admin_user user.id st)))
            (forbidden "DCISM users cannot delete their account."))
      (λ _. (ok tt, delete_user_row user_id st)) st

-- `findPermissionsForUser`: a row that is no permission throws.
unfoldable pub parse_rows : List PermissionRow → Result (List Permission)
parse_rows [] = ok []
parse_rows (p ∷ ps) = do
  first ← parse_permission (p.resource +++ ":" +++ p.action)
  rest ← parse_rows ps
  ok (first ∷ rest)

-- `CheckPermissionUseCase`
unfoldable pub check_permission : String → String → Rbac → Result Bool
check_permission user_id required st = if is_admin_user user_id st then ok true else do
  required_permission ← parse_permission required
  permissions ← parse_rows (find_permission_rows_for_user user_id st)
  ok (any (λ p. matches p required_permission) permissions)
