-- ===== src/Rbac/Access.antt =====
-- The permission check against the tables of grants.
use wildfire.Base.{
  ◌≡◌, refl, ap, ◌∙◌, inl, inr, String, ◌==◌, Bool, true, not, ◌&&◌, ◌||◌, List, [], ◌∷◌, any, All,
  All-filter, Bool-cases, ok, ◌>>=◌, or_throw,
}
use wildfire.Base.Any.{Bool-ext, any_witness, any-filter, and-eq-true, and_intro}
use wildfire.Schedule.{◌+++◌}
use wildfire.Rbac.{
  Rbac, PermissionRow, role_has, user_has, is_admin_user, find_permission_rows_for_user,
}
use wildfire.Rbac.Roles.{check_permission, parse_rows}
use wildfire.Rbac.Permissions.{
  Permission, PermissionResource, PermissionAction, parse_permission, matches, permission_key,
  resource_text, action_text,
}

-- A permission is read back as it was written.
pub parse_permission-key :
    (r : PermissionResource) (a : PermissionAction)
    → parse_permission (resource_text r +++ ":" +++ action_text a)
      ≡ ok (record { resource = r; action = a })
unfolding parse_permission or_throw ◌>>=◌
parse_permission-key PermissionResource.admin PermissionAction.access = refl
parse_permission-key PermissionResource.displays PermissionAction.access = refl
parse_permission-key PermissionResource.content PermissionAction.access = refl
parse_permission-key PermissionResource.playlists PermissionAction.access = refl
parse_permission-key PermissionResource.schedules PermissionAction.access = refl
parse_permission-key PermissionResource.users PermissionAction.access = refl
parse_permission-key PermissionResource.roles PermissionAction.access = refl
parse_permission-key PermissionResource.audit PermissionAction.access = refl
parse_permission-key PermissionResource.ai PermissionAction.access = refl
parse_permission-key _ _ = refl

-- The row's texts are those of a permission.
abbrev pub IsPermission : PermissionRow → Type 0
IsPermission row =
    (p : Permission) × (row.resource ≡ resource_text p.resource)
    × (row.action ≡ action_text p.action)

abbrev pub names : Permission → PermissionRow → Bool
names required row =
    row.resource == resource_text required.resource && row.action == action_text required.action

-- The rows all parse, and one matches exactly where a row has the required names.
parse_rows-matches :
    (required : Permission) (rows : List PermissionRow)
    → All IsPermission rows
    → (ps : List Permission) × (parse_rows rows ≡ ok ps)
      × (any (λ p. matches p required) ps ≡ any (names required) rows)
unfolding parse_rows matches ◌>>=◌
parse_rows-matches required [] h = ([], refl, refl)
parse_rows-matches required (row ∷ rows) h =
    let (p, r, a) = h.0 in
    let (ps, e, same) = parse_rows-matches required rows h.1 in
    (
      p ∷ ps,
      rw (r, a, parse_permission-key p.resource p.action, ◌>>=◌, e) refl,
      rw (r, a, same) refl,
    )

-- The join read from the permission's side, and from the user's.
module _ (wanted : PermissionRow → Bool) (user : String) (st : Rbac) where
  abbrev allowed : PermissionRow → Bool
  allowed p = not p.is_admin && wanted p

  abbrev linked : PermissionRow → String × String → Bool
  linked p g = g.0 == user && any (λ h. h.0 == g.1 && p.id == h.1) st.role_permissions

  abbrev listed : PermissionRow → Bool
  listed p = not p.is_admin && any (linked p) st.user_roles

  abbrev grants : String × String → Bool
  grants h = any (λ p. p.id == h.1 && allowed p) st.permissions

  listed-user_has :
      any (λ p. listed p && wanted p) st.permissions ≡ true → user_has allowed user st ≡ true
  listed-user_has e =
      let (p, e1, found_p) = any_witness (λ p. listed p && wanted p) st.permissions e in
      let (in_list, wants) = and-eq-true (listed p) (wanted p) e1 in
      let (plain, in_users) = and-eq-true (not p.is_admin) (any (linked p) st.user_roles) in_list in
      let (g, e2, found_g) = any_witness (linked p) st.user_roles in_users in
      let (same_user, in_roles) =
        and-eq-true (g.0 == user) (any (λ h. h.0 == g.1 && p.id == h.1) st.role_permissions) e2 in
      let (h, e3, found_h) =
        any_witness (λ h. h.0 == g.1 && p.id == h.1) st.role_permissions in_roles in
      let (same_role, same_id) = and-eq-true (h.0 == g.1) (p.id == h.1) e3 in
      let is_allowed = and_intro (not p.is_admin) (wanted p) plain wants in
      let given =
        found_p (λ p. p.id == h.1 && allowed p)
          (and_intro (p.id == h.1) (allowed p) same_id is_allowed) in
      let has =
        found_h (λ h. h.0 == g.1 && grants h) (and_intro (h.0 == g.1) (grants h) same_role given) in
      found_g (λ g. g.0 == user && role_has allowed g.1 st)
        (and_intro (g.0 == user) (role_has allowed g.1 st) same_user has)

  user_has-listed :
      user_has allowed user st ≡ true → any (λ p. listed p && wanted p) st.permissions ≡ true
  user_has-listed e =
      let (g, e1, found_g) =
        any_witness (λ g. g.0 == user && role_has allowed g.1 st) st.user_roles e in
      let (same_user, has) = and-eq-true (g.0 == user) (role_has allowed g.1 st) e1 in
      let (h, e2, found_h) = any_witness (λ h. h.0 == g.1 && grants h) st.role_permissions has in
      let (same_role, given) = and-eq-true (h.0 == g.1) (grants h) e2 in
      let (p, e3, found_p) = any_witness (λ p. p.id == h.1 && allowed p) st.permissions given in
      let (same_id, is_allowed) = and-eq-true (p.id == h.1) (allowed p) e3 in
      let (plain, wants) = and-eq-true (not p.is_admin) (wanted p) is_allowed in
      let in_roles =
        found_h (λ h. h.0 == g.1 && p.id == h.1)
          (and_intro (h.0 == g.1) (p.id == h.1) same_role same_id) in
      let in_users = found_g (linked p) (
        and_intro (g.0 == user) (any (λ h. h.0 == g.1 && p.id == h.1) st.role_permissions) same_user
          in_roles) in
      found_p (λ p. listed p && wanted p)
        (and_intro (listed p) (wanted p)
          (and_intro (not p.is_admin) (any (linked p) st.user_roles) plain in_users) wants)

  any-join : any wanted (find_permission_rows_for_user user st) ≡ user_has allowed user st
  unfolding find_permission_rows_for_user
  any-join = rw (any-filter wanted listed st.permissions) (
      Bool-ext (any (λ p. listed p && wanted p) st.permissions) (user_has allowed user st)
        listed-user_has user_has-listed)

-- Where the permissions' table has permissions only, the check answers, and says yes exactly to the
-- administrators and to the users one of whose roles has a permission of that name that is not the
-- Admin permission.
pub check_permission_lem :
    (user : String) (required : Permission) (st : Rbac)
    → All IsPermission st.permissions
    → check_permission user (permission_key required) st
      ≡ ok (is_admin_user user st || user_has (λ p. not p.is_admin && names required p) user st)
unfolding check_permission find_permission_rows_for_user ◌>>=◌
check_permission_lem user required st h = elim (Bool-cases (is_admin_user user st)) [
  | inl admin ↦ rw admin refl
  | inr plain ↦
      let (ps, parsed, same) =
        parse_rows-matches required (find_permission_rows_for_user user st)
          (All-filter IsPermission _ st.permissions h) in
      rw (plain, parse_permission-key required.resource required.action, parsed)
        (ap ok (same ∙ any-join (names required) user st))
]
