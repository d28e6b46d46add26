-- ===== src/Base/Lists.antt =====
-- List functions that compute, with their laws: the Boolean `filter`, `some` and `every` of
-- JavaScript, `find`, and the predicates by recursion that the proofs read.
use Prim.Native.Nat.{ℕ, suc, ◌+◌}
use mathlib.Core.Path.{◌≡◌, refl}
use mathlib.Core.Bool.{Bool, true, false, ◌&&◌, ◌||◌}
use mathlib.Core.Option.{Option, none, some}
use mathlib.Core.List.{List, [], ◌∷◌, ◌++◌, map}
use native.Mathlib.Omega.{arith}
use wildfire.Base.Tests.{Bool-cases, if◌then◌else◌}
use mathlib.Core.Logic.{◌⊎◌, inl, inr}

module _ {ℓ} {A : Type ℓ} where
  abbrev pub length : List A → ℕ
  length [] = 0
  length (_ ∷ xs) = suc (length xs)

  abbrev pub filter : (A → Bool) → List A → List A
  filter p [] = []
  filter p (x ∷ xs) = if p x then x ∷ filter p xs else filter p xs

  abbrev pub any : (A → Bool) → List A → Bool
  any p [] = false
  any p (x ∷ xs) = p x || any p xs

  abbrev pub every : (A → Bool) → List A → Bool
  every p [] = true
  every p (x ∷ xs) = p x && every p xs

  abbrev pub find : (A → Bool) → List A → Option A
  find p [] = none
  find p (x ∷ xs) = if p x then some x else find p xs

  -- `flat()`
  abbrev pub flat : List (List A) → List A
  flat [] = []
  flat (xs ∷ rest) = xs ++ flat rest

  abbrev pub head? : List A → Option A
  head? [] = none
  head? (x ∷ _) = some x

  -- Every element satisfies `P`.
  abbrev pub All {κ} : (A → Type κ) → List A → Type κ
  All P [] = Unit
  All P (x ∷ xs) = P x × All P xs

  pub length-append : (xs ys : List A) → length (xs ++ ys) ≡ length xs + length ys
  length-append [] ys = omega arith
  length-append (x ∷ xs) ys = omega (arith, length-append xs ys)

module _ {ℓ κ} {A : Type ℓ} (P : A → Type κ) where
  pub All-filter : (p : A → Bool) (xs : List A) → All P xs → All P (filter p xs)
  All-filter p [] h = h
  All-filter p (x ∷ xs) h = ground (arith, All-filter p xs h.1)

  pub All-find : (p : A → Bool) (xs : List A) {x : A} → All P xs → find p xs ≡ some x → P x
  All-find p [] h e = absurd (cc)
  All-find p (y ∷ ys) {x} h e = ground (arith, All-find p ys {x = x} h.1)

  pub All-append : (xs ys : List A) → All P xs → All P ys → All P (xs ++ ys)
  All-append [] ys h k = k
  All-append (x ∷ xs) ys h k = (h.0, All-append xs ys h.1 k)

module _ {ℓ κ κ'} {A : Type ℓ} {P : A → Type κ} {Q : A → Type κ'} where
  pub All-map : ((x : A) → P x → Q x) → (xs : List A) → All P xs → All Q xs
  All-map f [] h = tt
  All-map f (x ∷ xs) h = (f x h.0, All-map f xs h.1)

module _ {ℓ} {A : Type ℓ} where
  pub find_sound : (p : A → Bool) (xs : List A) {x : A} → find p xs ≡ some x → p x ≡ true
  find_sound p [] e = absurd (cc)
  find_sound p (y ∷ ys) {x} e = ground (arith, find_sound p ys {x = x})

  -- What is found survives a filter that keeps it.
  pub filter-filter :
      (p q : A → Bool) (xs : List A) → filter p (filter q xs) ≡ filter (λ x. q x && p x) xs
  filter-filter p q [] = refl
  filter-filter p q (x ∷ xs) = ground (arith, filter-filter p q xs)

-- `sort` is stable: an element goes behind those that are not greater.
unfoldable pub insert_by {ℓ} : {A : Type ℓ} → (A → A → Bool) → A → List A → List A
insert_by le x [] = x ∷ []
insert_by le x (y ∷ ys) = if le x y then x ∷ y ∷ ys else y ∷ insert_by le x ys

unfoldable pub sort_by {ℓ} : {A : Type ℓ} → (A → A → Bool) → List A → List A
unfolding insert_by
sort_by le [] = []
sort_by le (x ∷ xs) = insert_by le x (sort_by le xs)

module _ {ℓ κ} {A : Type ℓ} (P : A → Type κ) (le : A → A → Bool) where
  pub All-insert_by : (x : A) (xs : List A) → P x → All P xs → All P (insert_by le x xs)
  unfolding insert_by
  All-insert_by x [] p h = (p, tt)
  All-insert_by x (y ∷ ys) p h = ground (arith, All-insert_by x ys p h.1)

  pub All-sort_by : (xs : List A) → All P xs → All P (sort_by le xs)
  unfolding sort_by
  All-sort_by [] h = tt
  All-sort_by (x ∷ xs) h = All-insert_by x (sort_by le xs) h.0 (All-sort_by xs h.1)

module _ {ℓ κ} {A : Type ℓ} (P : A → Type κ) where
  All-of_filter :
      (p : A → Bool) (xs : List A) → All P (filter p xs) → All (λ x. (p x ≡ false) ⊎ P x) xs
  All-of_filter p [] h = tt
  All-of_filter p (x ∷ xs) h = elim (Bool-cases (p x)) [
    | inl e ↦ let k = rw e at h in (inr k.0, All-of_filter p xs k.1)
    | inr e ↦ (inl e, All-of_filter p xs (rw e at h))
  ]

  All-of_insert_by :
      (le : A → A → Bool) (x : A) (xs : List A) → All P (insert_by le x xs) → P x × All P xs
  unfolding insert_by
  All-of_insert_by le x [] h = h
  All-of_insert_by le x (y ∷ ys) h = elim (Bool-cases (le x y)) [
    | inl e ↦ rw e at h
    | inr e ↦ let k = rw e at h in let (p, ps) = All-of_insert_by le x ys k.1 in (p, (k.0, ps))
  ]

  All-of_sort_by : (le : A → A → Bool) (xs : List A) → All P (sort_by le xs) → All P xs
  unfolding sort_by
  All-of_sort_by le [] h = h
  All-of_sort_by le (x ∷ xs) h =
      let (p, ps) = All-of_insert_by le x (sort_by le xs) h in (p, All-of_sort_by le xs ps)

  -- What holds of a sorted selection holds of the elements that were selected.
  pub All-of_selection :
      (le : A → A → Bool) (p : A → Bool) (xs : List A)
      → All P (sort_by le (filter p xs))
      → All (λ x. (p x ≡ false) ⊎ P x) xs
  All-of_selection le p xs h = All-of_filter p xs (All-of_sort_by le (filter p xs) h)

module _ {ℓ κ ι} {A : Type ℓ} {B : Type ι} (P : B → Type κ) (f : A → B) where
  pub All-of_map : (xs : List A) → All P (map f xs) → All (λ x. P (f x)) xs
  All-of_map [] h = tt
  All-of_map (x ∷ xs) h = (h.0, All-of_map xs h.1)

pub List-cases {ℓ} :
    {A : Type ℓ} (xs : List A) → (xs ≡ []) ⊎ ((x : A) × (rest : List A) × (xs ≡ x ∷ rest))
List-cases [] = inl refl
List-cases (x ∷ xs) = inr (x, xs, refl)
