-- ===== src/Auth/Cached/Rows.antt =====
-- The row of a session's id, and what the repository's statements make of it where ids are a key.
use wildfire.Base.{
  ℕ, ◌≤◌, ◌≡◌, refl, ap, sym, ◌∙◌, inl, inr, String, ◌==◌, Bool, true, false, ◌&&◌, Option, none,
  some, [], ◌∷◌, map, find, filter, any, ltb, arith, if◌then◌else◌, eq_iff, Bool-cases,
  some-injective, none≢some, find_sound,
}
use mathlib.Core.Option
use wildfire.Auth.Sessions.{AuthSession, Sessions, Rotation, rotated, find_by_session_id}

abbrev pub row : String → Sessions → Option AuthSession
row id xs = find (λ s. s.id == id) xs

-- The session, while it has not expired.
abbrev pub alive : ℕ → Option AuthSession → Option AuthSession
alive t none = none
alive t (some s) = if ltb t s.expires_at then some s else none

abbrev pub UniqueSessions : Sessions → Type 0
UniqueSessions [] = Unit
UniqueSessions (x ∷ xs) = (row x.id xs ≡ none) × UniqueSessions xs

pub alive_later : (t t' : ℕ) (o : Option AuthSession) → t ≤ t' → alive t' (alive t o) ≡ alive t' o
alive_later t t' none h = refl
alive_later t t' (some s) h = ground arith

pub row-none_find :
    (id : String) (t : ℕ) (xs : Sessions) → row id xs ≡ none → find_by_session_id id t xs ≡ none
unfolding find_by_session_id
row-none_find id t [] e = refl
row-none_find id t (x ∷ xs) e = ground (arith, row-none_find id t xs)

pub find_by_session_id-row :
    (id : String) (t : ℕ) (xs : Sessions)
    → UniqueSessions xs
    → find_by_session_id id t xs ≡ alive t (row id xs)
unfolding find_by_session_id
find_by_session_id-row id t [] u = refl
find_by_session_id-row id t (x ∷ xs) u = elim (Bool-cases (x.id == id)) [
  | inl same ↦
      let gone : row id xs ≡ none = rw (sym ((eq_iff x.id id).0 same)) u.0 in
      rw same (ground (arith, row-none_find id t xs gone))
  | inr other ↦ rw other (find_by_session_id-row id t xs u.1)
]

pub row-map :
    (id : String) (f : AuthSession → AuthSession) (xs : Sessions)
    → ((s : AuthSession) → (f s).id ≡ s.id)
    → row id (map f xs) ≡ Option.map f (row id xs)
row-map id f [] keeps = refl
row-map id f (x ∷ xs) keeps =
    let kept : ((f x).id == id) ≡ (x.id == id) = ap (λ k. k == id) (keeps x) in
    elim (Bool-cases (x.id == id)) [
      | inl same ↦ rw (kept, same) refl
      | inr other ↦ rw (kept, other) (row-map id f xs keeps)
    ]

pub row-filter_kept :
    (id : String) (k : AuthSession → Bool) (xs : Sessions)
    → ((s : AuthSession) → s.id ≡ id → k s ≡ true)
    → row id (filter k xs) ≡ row id xs
row-filter_kept id k [] keeps = refl
row-filter_kept id k (x ∷ xs) keeps =
    ground (arith, row-filter_kept id k xs keeps, keeps x, eq_iff x.id id)

pub row-filter-none :
    (id : String) (k : AuthSession → Bool) (xs : Sessions)
    → row id xs ≡ none
    → row id (filter k xs) ≡ none
row-filter-none id k [] e = refl
row-filter-none id k (x ∷ xs) e = ground (arith, row-filter-none id k xs)

pub UniqueSessions-filter :
    (k : AuthSession → Bool) (xs : Sessions) → UniqueSessions xs → UniqueSessions (filter k xs)
UniqueSessions-filter k [] u = tt
UniqueSessions-filter k (x ∷ xs) u = elim (Bool-cases (k x)) [
  | inl e ↦ rw e (row-filter-none x.id k xs u.0, UniqueSessions-filter k xs u.1)
  | inr e ↦ rw e (UniqueSessions-filter k xs u.1)
]

pub UniqueSessions-map :
    (f : AuthSession → AuthSession) (xs : Sessions)
    → ((s : AuthSession) → (f s).id ≡ s.id)
    → UniqueSessions xs
    → UniqueSessions (map f xs)
UniqueSessions-map f [] keeps u = tt
UniqueSessions-map f (x ∷ xs) keeps u =
    (rw (keeps x, row-map x.id f xs keeps, u.0) refl, UniqueSessions-map f xs keeps u.1)

row-none-any :
    (id : String) (p : AuthSession → Bool) (xs : Sessions)
    → row id xs ≡ none
    → any (λ s. s.id == id && p s) xs ≡ false
row-none-any id p [] e = refl
row-none-any id p (x ∷ xs) e = ground (arith, row-none-any id p xs)

-- With the ids a key, a row with the id and a property is the row of the id.
pub any-row :
    (id : String) (p : AuthSession → Bool) (xs : Sessions)
    → UniqueSessions xs
    → any (λ s. s.id == id && p s) xs ≡ true
    → (s : AuthSession) × (row id xs ≡ some s) × (p s ≡ true)
any-row id p [] u e = absurd (cc)
any-row id p (x ∷ xs) u e = elim (Bool-cases (x.id == id)) [
  | inl same ↦
      let gone : row id xs ≡ none = rw (sym ((eq_iff x.id id).0 same)) u.0 in
      (x, rw same refl, ground (arith, row-none-any id p xs gone))
  | inr other ↦ let (s, r, h) = any-row id p xs u.1 (rw other at e) in (s, rw other r, h)
]

-- A statement about the row of one id leaves the rows of the others.
pub row-map_other :
    (id id' : String) (f : AuthSession → AuthSession) (xs : Sessions)
    → ((s : AuthSession) → (f s).id ≡ s.id)
    → ((s : AuthSession) → (s.id == id') ≡ false → f s ≡ s)
    → (id == id') ≡ false
    → row id (map f xs) ≡ row id xs
row-map_other id id' f [] keeps same other = refl
row-map_other id id' f (x ∷ xs) keeps same other =
    let kept : ((f x).id == id) ≡ (x.id == id) = ap (λ k. k == id) (keeps x) in
    let rest = row-map_other id id' f xs keeps same other in
    elim (Bool-cases (x.id == id)) [
      | inl e ↦
          let fixed = same x (rw ((eq_iff x.id id).0 e) other) in
          rw (kept, e) (ap (λ s. some s) fixed)
      | inr e ↦ rw (kept, e) rest
    ]

pub alive-some : (t : ℕ) (s : AuthSession) {s' : AuthSession} → alive t (some s) ≡ some s' → s ≡ s'
alive-some t s e = elim (Bool-cases (ltb t s.expires_at)) [
  | inl h ↦ some-injective (rw h at e)
  | inr h ↦ absurd (none≢some (rw h at e))
]

-- A rotation that matched a row leaves the row of the id with its values.
pub row-rotated :
    (id expected : String) (r : Rotation) (xs : Sessions)
    → UniqueSessions xs
    → any (λ s. s.id == id && s.current_jti == expected) xs ≡ true
    → (s : AuthSession) × (row id
          (map (λ s. if s.id == id && s.current_jti == expected then rotated r s else s) xs)
        ≡ some (rotated r s))
row-rotated id expected r xs u e =
    let (s, is_row, current) = any-row id (λ s. s.current_jti == expected) xs u e in
    let named = find_sound (λ s. s.id == id) xs is_row in
    (
      s,
      row-map id (λ s. if s.id == id && s.current_jti == expected then rotated r s else s) xs
            (λ s. ground arith)
          ∙ rw is_row (rw (named, current) refl),
    )
