-- ===== src/Rbac/Escalation.antt =====
-- No series of requests by callers who are no administrators makes an administrator.
use wildfire.Base.{
  ◌≡◌, refl, inl, inr, String, ◌==◌, true, false, not, ◌&&◌, Option, truthy, List, [], ◌∷◌, ◌++◌,
  map, any, filter, has_duplicates, every, All, All-map, ◌||◌, arith, eq_refl, Bool-cases,
  Option-cases, Result, ok, err, >>=-eq-ok, guard-eq-ok,
}
use wildfire.Base.Any.{any-of_filter}
use wildfire.Rbac.{
  Rbac, renamed, find_role, PermissionRow, role_has, is_admin_user, find_permissions_by_ids,
  create_role_row, update_role_row, delete_role_row, delete_user_row, set_role_permissions_rows,
  set_user_roles_rows,
}
use wildfire.Rbac.Roles.{
  checked, create_role, update_role, delete_role, set_role_permissions, set_user_roles,
  delete_current_user, caller_is_admin, has_admin_permission,
}
use wildfire.Rbac.Grants.{
  role_has-replaced, user_has-replaced, user_has_mono, has_admin_permission-role_has,
}

-- A request of the application, with the id of a new role.
pub data Request : Type 0 where
  create : (id name : String) → Option String → Request
  update : (id : String) → Option String → Option (Option String) → Request
  delete : (id : String) → Request
  set_permissions : (role : String) → List String → Request
  set_roles : (user : String) → List String → Option String → Request
  delete_self : (user : String) → Request

abbrev pub served : Request → Rbac → Rbac
served (create id name description) st = (create_role id name description st).1
served (update id name description) st = (update_role id name description st).1
served (delete id) st = (delete_role id st).1
served (set_permissions role ids) st = (set_role_permissions role ids st).1
served (set_roles user ids caller) st = (set_user_roles user ids caller st).1
served (delete_self user) st = (delete_current_user user st).1

abbrev pub served_all : List Request → Rbac → Rbac
served_all [] st = st
served_all (r ∷ rs) st = served_all rs (served r st)

-- The caller of a request that gives roles is no administrator.
abbrev pub Unprivileged : Rbac → Request → Type 0
Unprivileged st (set_roles user ids caller) = caller_is_admin caller st ≡ false
Unprivileged st _ = Unit

-- What holds after the writes of a use case that went ahead, and before, holds after it.
checked_inv {ℓ κ ι} :
    {A : Type ℓ} {B : Type κ} (P : Rbac → Type ι) (r : Result A) (next : A → Result B × Rbac)
    (st : Rbac)
    → P st
    → ((a : A) → r ≡ ok a → P (next a).1)
    → P (checked r next st).1
checked_inv P (err e) next st before after = before
checked_inv P (ok a) next st before after = after a refl

-- Whoever is an administrator after it was one before.
abbrev Grows : Rbac → Rbac → Type 0
Grows st st' = (user : String) → is_admin_user user st' ≡ true → is_admin_user user st ≡ true

create_role_row-Grows :
    (id name : String) (d : Option String) (st : Rbac) → Grows st (create_role_row id name d st).1
unfolding create_role_row is_admin_user
create_role_row-Grows id name d st = elim (Bool-cases (any (λ r. r.name == name) st.roles)) [
  | inl h ↦ rw h (λ u e. e)
  | inr h ↦ rw h (λ u e. e)
]

update_role_row-Grows :
    (id : String) (name : Option String) (d : Option (Option String)) (st : Rbac)
    → Grows st (update_role_row id name d st).1
unfolding update_role_row is_admin_user
update_role_row-Grows id name d st = elim (Option-cases (find_role id st)) [
  | inl h ↦ rw (h, update_role_row) (λ u e. e)
  | inr (existing, h) ↦
      let next = renamed name d existing in
      rw (h, update_role_row)
        (elim (Bool-cases (any (λ r. r.name == next.name && not (r.id == id)) st.roles)) [
          | inl taken ↦ rw taken (λ u e. e)
          | inr free ↦ rw free (λ u e. e)
        ])
]

delete_role_row-Grows : (id : String) (st : Rbac) → Grows st (delete_role_row id st).1
unfolding delete_role_row is_admin_user
delete_role_row-Grows id st u e =
    user_has_mono (λ p. p.is_admin) u st (delete_role_row id st).1
      (λ test. any-of_filter test (λ g. not (g.1 == id)) st.user_roles)
      (λ role.
        any-of_filter (λ g. g.0 == role && any (λ p. p.id == g.1 && p.is_admin) st.permissions)
          (λ g. not (g.0 == id)) st.role_permissions)
      e

delete_user_row-Grows : (id : String) (st : Rbac) → Grows st (delete_user_row id st)
unfolding delete_user_row is_admin_user
delete_user_row-Grows id st u e =
    user_has_mono (λ p. p.is_admin) u st (delete_user_row id st)
      (λ test. any-of_filter test (λ g. not (g.0 == id)) st.user_roles) (λ role f. f) e

set_role_permissions_rows-Grows :
    (role_id : String) (ids : List String) (st : Rbac)
    → any (λ p. p.is_admin) (find_permissions_by_ids ids st) ≡ false
    → Grows st (set_role_permissions_rows role_id ids st).1
unfolding set_role_permissions_rows is_admin_user
set_role_permissions_rows-Grows role_id ids st harmless =
    elim (Bool-cases
      (has_duplicates ids || not (every (λ id. any (λ p. p.id == id) st.permissions) ids))) [
        | inl h ↦ rw h (λ u e. e)
        | inr h ↦ rw h (λ u e.
            user_has_mono (λ p. p.is_admin) u st
              (record st {
                role_permissions =
                    filter (λ g. not (g.0 == role_id)) st.role_permissions
                    ++ map (λ id. (role_id, id)) ids;
              })
              (λ test f. f)
              (λ role f. (role_has-replaced (λ p. p.is_admin) role_id role ids st harmless f).0) e)
      ]

set_user_roles_rows-Grows :
    (user_id : String) (ids : List String) (st : Rbac)
    → has_admin_permission ids st ≡ false
    → Grows st (set_user_roles_rows user_id ids st).1
unfolding set_user_roles_rows is_admin_user
set_user_roles_rows-Grows user_id ids st harmless =
    elim (Bool-cases
      (has_duplicates ids || not (every (λ id. any (λ r. r.id == id) st.roles) ids))) [
        | inl h ↦ rw h (λ u e. e)
        | inr h ↦ rw h (λ u e. elim (user_has-replaced (λ p. p.is_admin) user_id u ids st e) [
          | inl before ↦ before
          | inr (same, role, named, gives) ↦
              absurd (cc (harmless, has_admin_permission-role_has ids role st named gives))
        ])
      ]

served-Grows : (r : Request) (st : Rbac) → Unprivileged st r → Grows st (served r st)
unfolding create_role update_role delete_role set_role_permissions set_user_roles
    delete_current_user
served-Grows (create id name d) st h =
    checked_inv (Grows st) _ _ st (λ u e. e) (λ _ _. create_role_row-Grows id name d st)
served-Grows (update id name d) st h =
    checked_inv (Grows st) _ _ st (λ u e. e) (λ _ _. update_role_row-Grows id name d st)
served-Grows (delete id) st h =
    checked_inv (Grows st) _ _ st (λ u e. e) (λ _ _. delete_role_row-Grows id st)
served-Grows (set_permissions role ids) st h =
    checked_inv (Grows st) _ _ st (λ u e. e)
      (λ a ok_a.
        let (found, _, guarded) = >>=-eq-ok _ _ ok_a in
        let harmless =
          guard-eq-ok (not (any (λ p. p.is_admin) (find_permissions_by_ids ids st))) _ guarded in
        set_role_permissions_rows-Grows role ids st (ground arith))
served-Grows (set_roles user ids caller) st h =
    checked_inv (Grows st) _ _ st (λ u e. e)
      (λ a ok_a.
        let (found, _, rest) = >>=-eq-ok _ _ ok_a in
        let (_, _, guarded) = >>=-eq-ok _ _ rest in
        let admitted =
          guard-eq-ok (not (has_admin_permission ids st && not (caller_is_admin caller st))) _
            guarded in
        set_user_roles_rows-Grows user ids st (ground arith))
served-Grows (delete_self user) st h =
    checked_inv (Grows st) _ _ st (λ u e. e) (λ _ _. delete_user_row-Grows user st)

-- A caller who is no administrator stays one who is none.
caller-Grows :
    (caller : Option String) (st st' : Rbac)
    → Grows st st'
    → caller_is_admin caller st ≡ false
    → caller_is_admin caller st' ≡ false
caller-Grows caller st st' grows e = elim (Option-cases (truthy caller)) [
  | inl h ↦ rw (h, caller_is_admin) refl
  | inr (id, h) ↦
      let before : is_admin_user id st ≡ false = rw (h, caller_is_admin) at e in
      rw (h, caller_is_admin)
        (elim (Bool-cases (is_admin_user id st')) [
          | inl now ↦ absurd (cc (grows id now))
          | inr now ↦ now
        ])
]

Unprivileged-Grows :
    (r : Request) (st st' : Rbac) → Grows st st' → Unprivileged st r → Unprivileged st' r
Unprivileged-Grows (create id name d) st st' g h = tt
Unprivileged-Grows (update id name d) st st' g h = tt
Unprivileged-Grows (delete id) st st' g h = tt
Unprivileged-Grows (set_permissions role ids) st st' g h = tt
Unprivileged-Grows (set_roles user ids caller) st st' g h = caller-Grows caller st st' g h
Unprivileged-Grows (delete_self user) st st' g h = tt

-- Whatever requests to create, change and delete roles, to set their permissions and to give them
-- are served, and whether they succeed or throw: where none of those who give roles is an
-- administrator at the start, every administrator at the end was one at the start.
pub served_all-no_escalation :
    (rs : List Request) (st : Rbac) (user : String)
    → All (Unprivileged st) rs
    → is_admin_user user (served_all rs st) ≡ true
    → is_admin_user user st ≡ true
served_all-no_escalation [] st user h e = e
served_all-no_escalation (r ∷ rs) st user h e =
    let grows = served-Grows r st h.0 in
    grows user (
      served_all-no_escalation rs (served r st) user
        (All-map (λ q. Unprivileged-Grows q st (served r st) grows) rs h.1) e)

-- A use case that answered went ahead with its writes.
checked-ok {ℓ κ} :
    {A : Type ℓ} {B : Type κ} (r : Result A) (next : A → Result B × Rbac) (st : Rbac) {b : B}
    → (checked r next st).0 ≡ ok b
    → (a : A) × (r ≡ ok a) × ((next a).0 ≡ ok b) × (checked r next st ≡ next a)
checked-ok (err e) next st h = absurd (cc)
checked-ok (ok a) next st h = (a, refl, h, refl)

replaced-strips :
    (role_id : String) (ids : List String) (st : Rbac)
    → any (λ p. p.is_admin) (find_permissions_by_ids ids st) ≡ false
    → (set_role_permissions_rows role_id ids st).0 ≡ ok tt
    → role_has (λ p. p.is_admin) role_id (set_role_permissions_rows role_id ids st).1 ≡ false
unfolding set_role_permissions_rows
replaced-strips role_id ids st harmless e =
    elim (Bool-cases
      (has_duplicates ids || not (every (λ id. any (λ p. p.id == id) st.permissions) ids))) [
        | inl h ↦ absurd (cc (rw h at e))
        | inr h ↦
            let after = record st {
              role_permissions =
                  filter (λ g. not (g.0 == role_id)) st.role_permissions
                  ++ map (λ id. (role_id, id)) ids;
            } in
            rw h (elim (Bool-cases (role_has (λ p. p.is_admin) role_id after)) [
              | inl granted ↦ absurd (
                  cc (
                    eq_refl role_id,
                    (role_has-replaced (λ p. p.is_admin) role_id role_id ids st harmless granted).1,
                  ))
              | inr gone ↦ gone
            ])
      ]

-- Setting a role's permissions with success leaves it without the Admin permission: also the Admin
-- role, which the other use cases protect.
pub set_role_permissions-strips :
    (role_id : String) (ids : List String) (st : Rbac) {selected : List PermissionRow}
    → (set_role_permissions role_id ids st).0 ≡ ok selected
    → role_has (λ p. p.is_admin) role_id (set_role_permissions role_id ids st).1 ≡ false
unfolding set_role_permissions
set_role_permissions-strips role_id ids st e =
    let (a, admitted, answered, same) = checked-ok _ _ st e in
    let (found, _, guarded) = >>=-eq-ok _ _ admitted in
    let harmless =
      guard-eq-ok (not (any (λ p. p.is_admin) (find_permissions_by_ids ids st))) _ guarded in
    let (done, written, _) = >>=-eq-ok _ _ answered in
    rw same (replaced-strips role_id ids st (ground arith) written)
