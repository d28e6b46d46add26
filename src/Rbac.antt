-- ===== src/Rbac.antt =====
-- Roles and permissions: the tables of infrastructure/db/schema/rbac.sql.ts and their repositories
-- role.repo.ts, user-role.repo.ts, role-permission.repo.ts, permission.repo.ts and
-- authorization.repo.ts. A statement that a key refuses throws and is rolled back.
pub mod Permissions
pub mod Roles
pub mod Grants
pub mod Escalation
pub mod Access
mod Tests
use wildfire.Base.{
  ℕ, String, ◌==◌, Bool, true, false, not, ◌&&◌, ◌||◌, Option, none, some, or_else, List, [], ◌∷◌,
  ◌++◌, map, any, every, find, filter, includes, distinct, has_duplicates, if◌then◌else◌, Result,
  ok, err, fault,
}
use wildfire.Auth.Rotating.{AuthUser}

pub record RoleRow : Type 0 where
  pub id : String
  pub name : String
  pub description : Option String

pub record PermissionRow : Type 0 where
  pub id : String
  pub resource : String
  pub action : String
  pub is_admin : Bool

pub record Rbac : Type 0 where
  pub users : List AuthUser
  pub roles : List RoleRow
  pub permissions : List PermissionRow
  -- The user's id and the role's.
  pub user_roles : List (String × String)
  -- The role's id and the permission's.
  pub role_permissions : List (String × String)

abbrev pub admin_role_name : String
admin_role_name = "Admin"

-- `withIsSystem`
abbrev pub is_system : RoleRow → Bool
is_system role = role.name == admin_role_name

unfoldable pub find_role : String → Rbac → Option RoleRow
find_role id st = find (λ r. r.id == id) st.roles

unfoldable pub find_role_by_name : String → Rbac → Option RoleRow
find_role_by_name name st = find (λ r. r.name == name) st.roles

unfoldable pub find_user : String → Rbac → Option AuthUser
find_user id st = find (λ u. u.id == id) st.users

-- `roles_name_unique` is on the name.
unfoldable pub create_role_row : String → String → Option String → Rbac → Result RoleRow × Rbac
create_role_row id name description st =
    let role : RoleRow = record { id = id; name = name; description = description } in
    if any (λ r. r.name == name) st.roles
    then (err (fault "roles_name_unique"), st)
    else (ok role, record st { roles = role ∷ st.roles })

abbrev pub renamed : Option String → Option (Option String) → RoleRow → RoleRow
renamed name description role = record role {
  name = or_else name role.name;
  description = or_else description role.description;
}

unfoldable pub update_role_row :
    String → Option String → Option (Option String) → Rbac → Result (Option RoleRow) × Rbac
unfolding find_role
update_role_row id name description st = elim (find_role id st) [
  | none ↦ (ok none, st)
  | some existing ↦
      let next = renamed name description existing in
      if any (λ r. r.name == next.name && not (r.id == id)) st.roles
      then (err (fault "roles_name_unique"), st)
      else (
        ok (some next),
        record st { roles = map (λ r. if r.id == id then next else r) st.roles },
      )
]

-- The grants go with the role (`onDelete: cascade`).
unfoldable pub delete_role_row : String → Rbac → Bool × Rbac
delete_role_row id st = (
  any (λ r. r.id == id) st.roles,
  record st {
    roles = filter (λ r. not (r.id == id)) st.roles;
    user_roles = filter (λ g. not (g.1 == id)) st.user_roles;
    role_permissions = filter (λ g. not (g.0 == id)) st.role_permissions;
  },
)

unfoldable pub delete_user_row : String → Rbac → Rbac
delete_user_row id st = record st {
  users = filter (λ u. not (u.id == id)) st.users;
  user_roles = filter (λ g. not (g.0 == id)) st.user_roles;
}

unfoldable pub list_permissions_by_role_id : String → Rbac → List String
list_permissions_by_role_id role_id st =
    map (λ g. g.1) (filter (λ g. g.0 == role_id) st.role_permissions)

unfoldable pub list_user_ids_by_role_id : String → Rbac → List String
list_user_ids_by_role_id role_id st = map (λ g. g.0) (filter (λ g. g.1 == role_id) st.user_roles)

unfoldable pub find_permissions_by_ids : List String → Rbac → List PermissionRow
find_permissions_by_ids ids st = filter (λ p. includes ids p.id) st.permissions

-- The primary key and the two foreign keys of `role_permissions`.
unfoldable pub set_role_permissions_rows : String → List String → Rbac → Result (Unit {0}) × Rbac
set_role_permissions_rows role_id ids st =
    if has_duplicates ids || not (every (λ id. any (λ p. p.id == id) st.permissions) ids)
    then (err (fault "role_permissions"), st)
    else (
      ok tt,
      record st {
        role_permissions =
            filter (λ g. not (g.0 == role_id)) st.role_permissions ++ map (λ id. (role_id, id)) ids;
      },
    )

unfoldable pub set_user_roles_rows : String → List String → Rbac → Result (Unit {0}) × Rbac
set_user_roles_rows user_id ids st =
    if has_duplicates ids || not (every (λ id. any (λ r. r.id == id) st.roles) ids)
    then (err (fault "user_roles"), st)
    else (
      ok tt,
      record st {
        user_roles =
            filter (λ g. not (g.0 == user_id)) st.user_roles ++ map (λ id. (user_id, id)) ids;
      },
    )

-- The joins of `user_roles`, `role_permissions` and `permissions`.
abbrev pub role_has : (PermissionRow → Bool) → String → Rbac → Bool
role_has wanted role_id st =
    any (λ g. g.0 == role_id && any (λ p. p.id == g.1 && wanted p) st.permissions)
      st.role_permissions

abbrev pub user_has : (PermissionRow → Bool) → String → Rbac → Bool
user_has wanted user_id st = any (λ g. g.0 == user_id && role_has wanted g.1 st) st.user_roles

unfoldable pub is_admin_user : String → Rbac → Bool
is_admin_user user_id st = user_has (λ p. p.is_admin) user_id st

unfoldable pub find_permission_rows_for_user : String → Rbac → List PermissionRow
find_permission_rows_for_user user_id st =
    filter
      (λ p.
        not p.is_admin
        && any (λ g. g.0 == user_id && any (λ h. h.0 == g.1 && p.id == h.1) st.role_permissions)
            st.user_roles)
      st.permissions
