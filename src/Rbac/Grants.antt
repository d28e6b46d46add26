-- ===== src/Rbac/Grants.antt =====
-- How the writes to the tables change what roles grant and who is an administrator.
use wildfire.Base.{
  ◌≡◌, refl, ◌⊎◌, inl, inr, String, ◌==◌, Bool, true, false, not, ◌&&◌, List, [], ◌∷◌, ◌++◌, map,
  any, filter, includes, distinct, flat, eq_iff, eq_refl, arith, Bool-cases,
}
use wildfire.Base.Any.{
  any_witness, any_mono, any-append, any-filter, any-of_filter, any-flat, any-map, and-eq-true,
  and_intro,
}
use wildfire.Rbac.{
  Rbac, PermissionRow, role_has, user_has, find_permissions_by_ids, list_permissions_by_role_id,
}
use wildfire.Rbac.Roles.{selected_permission_ids, has_admin_permission}

pub includes-distinct :
    (k : String) (xs : List String) → includes xs k ≡ true → includes (distinct xs) k ≡ true
unfolding distinct
includes-distinct k [] e = e
includes-distinct k (x ∷ xs) e = elim (Bool-cases (x == k)) [
  | inl h ↦ rw h refl
  | inr h ↦
      let more : includes xs k ≡ true = rw h at e in
      rw (h, any-filter (λ y. y == k) (λ y. not (y == x)) (distinct xs))
        (any_mono (λ y. y == k) (λ y. not (y == x) && y == k) (distinct xs)
          (λ y g. ground (arith, eq_iff y k, eq_iff y x, eq_iff x k, g, h))
          (includes-distinct k xs more))
]

-- A permission that one of the ids names is among the rows that are read for the ids.
pub any-find_permissions_by_ids :
    (wanted : PermissionRow → Bool) (ids : List String) (id : String) (st : Rbac)
    → includes ids id ≡ true
    → any (λ p. p.id == id && wanted p) st.permissions ≡ true
    → any wanted (find_permissions_by_ids ids st) ≡ true
unfolding find_permissions_by_ids
any-find_permissions_by_ids wanted ids id st named granted =
    rw (any-filter wanted (λ p. includes ids p.id) st.permissions) (
      any_mono (λ p. p.id == id && wanted p) (λ p. includes ids p.id && wanted p) st.permissions
        (λ p h.
          let (same, w) = and-eq-true (p.id == id) (wanted p) h in
          and_intro (includes ids p.id) (wanted p) (rw ((eq_iff p.id id).0 same) named) w)
        granted)

selected_permission_ids-includes :
    (role_ids : List String) (role id : String) (st : Rbac)
    → includes role_ids role ≡ true
    → any (λ g. g.0 == role && g.1 == id) st.role_permissions ≡ true
    → includes (selected_permission_ids role_ids st) id ≡ true
unfolding selected_permission_ids list_permissions_by_role_id
selected_permission_ids-includes role_ids role id st named granted =
    let listed : String → List String =
      λ r. map (λ (g : String × String). g.1) (filter (λ g. g.0 == r) st.role_permissions) in
    let of_role : includes (listed role) id ≡ true =
      rw
        (
          any-map (λ k. k == id) (λ (g : String × String). g.1)
              (filter (λ g. g.0 == role) st.role_permissions),
          any-filter (λ (g : String × String). g.1 == id) (λ g. g.0 == role) st.role_permissions,
        )
        granted in
    includes-distinct id (flat (map listed role_ids)) (
      rw
        (
          any-flat (λ k. k == id) (map listed role_ids),
          any-map (λ ks. any (λ k. k == id) ks) listed role_ids,
        )
        (any_mono (λ r. r == role) (λ r. includes (listed r) id) role_ids
          (λ r e. rw ((eq_iff r role).0 e) of_role) named))

-- The check of a list of ids that is not empty.
any_selected :
    (ids : List String) (id : String) (st : Rbac)
    → includes ids id ≡ true
    → any (λ p. p.is_admin) (find_permissions_by_ids ids st) ≡ true
    → (elim ids [
      | [] ↦ false
      | i ∷ is ↦ any (λ p. p.is_admin) (find_permissions_by_ids (i ∷ is) st)
    ])
      ≡ true
any_selected [] id st h e = cc
any_selected (i ∷ is) id st h e = e

-- A role of the list that grants the Admin permission shows in the check of the list.
pub has_admin_permission-role_has :
    (role_ids : List String) (role : String) (st : Rbac)
    → includes role_ids role ≡ true
    → role_has (λ p. p.is_admin) role st ≡ true
    → has_admin_permission role_ids st ≡ true
unfolding has_admin_permission
has_admin_permission-role_has role_ids role st named granted =
    let (g, here, found) =
      any_witness (λ g. g.0 == role && any (λ p. p.id == g.1 && p.is_admin) st.permissions)
        st.role_permissions granted in
    let (of_role, admin) =
      and-eq-true (g.0 == role) (any (λ p. p.id == g.1 && p.is_admin) st.permissions) here in
    let selected = selected_permission_ids-includes role_ids role g.1 st named (
      found (λ h. h.0 == role && h.1 == g.1)
        (and_intro (g.0 == role) (g.1 == g.1) of_role (eq_refl g.1))) in
    any_selected (selected_permission_ids role_ids st) g.1 st selected (
      any-find_permissions_by_ids (λ p. p.is_admin) (selected_permission_ids role_ids st) g.1 st
        selected admin)

module _ (wanted : PermissionRow → Bool) where
  -- What a role grants once its permissions are replaced.
  pub role_has-replaced :
      (role_id role : String) (ids : List String) (st : Rbac)
      → any wanted (find_permissions_by_ids ids st) ≡ false
      → role_has wanted role (record st {
        role_permissions =
            filter (λ g. not (g.0 == role_id)) st.role_permissions ++ map (λ id. (role_id, id)) ids;
      })
        ≡ true
      → (role_has wanted role st ≡ true) × ((role_id == role) ≡ false)
  role_has-replaced role_id role ids st harmless granted =
      let test : String × String → Bool =
        λ g. g.0 == role && any (λ p. p.id == g.1 && wanted p) st.permissions in
      let kept = filter (λ g. not (g.0 == role_id)) st.role_permissions in
      let either = rw (any-append test kept (map (λ id. (role_id, id)) ids)) at granted in
      elim (Bool-cases (any test kept)) [
        | inl old ↦
            let (g, here, found) =
              any_witness (λ g. not (g.0 == role_id) && test g) st.role_permissions
                (rw (any-filter test (λ g. not (g.0 == role_id)) st.role_permissions) at old) in
            let (other, holds) = and-eq-true (not (g.0 == role_id)) (test g) here in
            let of_role =
              (and-eq-true (g.0 == role) (any (λ p. p.id == g.1 && wanted p) st.permissions)
                holds).0 in
            (
              found test holds,
              ground (arith, eq_iff g.0 role_id, eq_iff g.0 role, eq_iff role_id role),
            )
        | inr none_old ↦
            let new : any test (map (λ id. (role_id, id)) ids) ≡ true = rw none_old at either in
            let (id, here, found) =
              any_witness (λ id. test (role_id, id)) ids
                (rw (any-map test (λ id. (role_id, id)) ids) at new) in
            let gives =
              (and-eq-true (role_id == role) (any (λ p. p.id == id && wanted p) st.permissions)
                here).1 in
            let shown =
              any-find_permissions_by_ids wanted ids id st (found (λ k. k == id) (eq_refl id))
                gives in
            absurd (cc)
      ]

  -- A user's grants once the user's roles are replaced.
  pub user_has-replaced :
      (user_id user : String) (ids : List String) (st : Rbac)
      → user_has wanted user (record st {
        user_roles =
            filter (λ g. not (g.0 == user_id)) st.user_roles ++ map (λ id. (user_id, id)) ids;
      })
        ≡ true
      → (user_has wanted user st ≡ true)
        ⊎ ((user_id ≡ user)
            × (role : String) × (includes ids role ≡ true)
            × (role_has wanted role st ≡ true))
  user_has-replaced user_id user ids st granted =
      let test : String × String → Bool = λ g. g.0 == user && role_has wanted g.1 st in
      let kept = filter (λ g. not (g.0 == user_id)) st.user_roles in
      let either = rw (any-append test kept (map (λ id. (user_id, id)) ids)) at granted in
      elim (Bool-cases (any test kept)) [
        | inl old ↦ inl (any-of_filter test (λ g. not (g.0 == user_id)) st.user_roles old)
        | inr none_old ↦
            let new : any test (map (λ id. (user_id, id)) ids) ≡ true = rw none_old at either in
            let (id, here, found) =
              any_witness (λ id. test (user_id, id)) ids
                (rw (any-map test (λ id. (user_id, id)) ids) at new) in
            let (same, gives) = and-eq-true (user_id == user) (role_has wanted id st) here in
            inr ((eq_iff user_id user).0 same, id, found (λ k. k == id) (eq_refl id), gives)
      ]

  -- Fewer grants never give more.
  pub user_has_mono :
      (user : String) (st st' : Rbac)
      → ((test : String × String → Bool)
          → any test st'.user_roles ≡ true
          → any test st.user_roles ≡ true)
      → ((role : String) → role_has wanted role st' ≡ true → role_has wanted role st ≡ true)
      → user_has wanted user st' ≡ true
      → user_has wanted user st ≡ true
  user_has_mono user st st' users roles granted =
      any_mono (λ g. g.0 == user && role_has wanted g.1 st')
        (λ g. g.0 == user && role_has wanted g.1 st) st.user_roles
        (λ g h.
          let (same, gives) = and-eq-true (g.0 == user) (role_has wanted g.1 st') h in
          and_intro (g.0 == user) (role_has wanted g.1 st) same (roles g.1 gives))
        (users (λ g. g.0 == user && role_has wanted g.1 st') granted)
