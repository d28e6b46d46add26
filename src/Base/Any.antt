-- ===== src/Base/Any.antt =====
-- `some` of JavaScript: what it finds, and how it goes through the other list functions.
use mathlib.Core.Path.{◌≡◌, refl}
use mathlib.Core.Bool.{Bool, true, false, ◌&&◌, ◌||◌}
use mathlib.Core.List.{List, [], ◌∷◌, ◌++◌, map}
use mathlib.Core.Logic.{inl, inr}
use native.Mathlib.Omega.{arith}
use wildfire.Base.Tests.{Bool-cases}
use wildfire.Base.Lists.{any, filter, flat, All}

pub Bool-ext : (a b : Bool) → (a ≡ true → b ≡ true) → (b ≡ true → a ≡ true) → a ≡ b
Bool-ext true true f g = refl
Bool-ext true false f g = absurd (cc (f refl))
Bool-ext false true f g = absurd (cc (g refl))
Bool-ext false false f g = refl

pub and-eq-true : (a b : Bool) → (a && b) ≡ true → (a ≡ true) × (b ≡ true)
and-eq-true a b e = ground arith

pub and_intro : (a b : Bool) → a ≡ true → b ≡ true → (a && b) ≡ true
and_intro a b p q = rw (p, q) refl

pub and_false_left : (a b : Bool) → a ≡ false → (a && b) ≡ false
and_false_left a b p = rw p refl

pub and_false_right : (a b : Bool) → b ≡ false → (a && b) ≡ false
and_false_right a b p = ground arith

module _ {ℓ} {A : Type ℓ} where
  -- An element for which the test holds: every other test that holds of it finds one too.
  pub any_witness :
      (p : A → Bool) (xs : List A)
      → any p xs ≡ true
      → (x : A) × (p x ≡ true) × ((q : A → Bool) → q x ≡ true → any q xs ≡ true)
  any_witness p [] e = absurd (cc)
  any_witness p (x ∷ xs) e = elim (Bool-cases (p x)) [
    | inl h ↦ (x, h, λ q k. rw k refl)
    | inr h ↦
        let (y, here, found) = any_witness p xs (ground arith) in
        (y, here, λ q k. let more = found q k in ground arith)
  ]

  pub any_mono :
      (p q : A → Bool) (xs : List A)
      → ((x : A) → p x ≡ true → q x ≡ true)
      → any p xs ≡ true
      → any q xs ≡ true
  any_mono p q xs h e = let (x, here, found) = any_witness p xs e in found q (h x here)

  pub any-append : (p : A → Bool) (xs ys : List A) → any p (xs ++ ys) ≡ (any p xs || any p ys)
  any-append p [] ys = refl
  any-append p (x ∷ xs) ys = ground (arith, any-append p xs ys)

  pub any-filter : (p k : A → Bool) (xs : List A) → any p (filter k xs) ≡ any (λ x. k x && p x) xs
  any-filter p k [] = refl
  any-filter p k (x ∷ xs) = ground (arith, any-filter p k xs)

  pub any-of_filter : (p k : A → Bool) (xs : List A) → any p (filter k xs) ≡ true → any p xs ≡ true
  any-of_filter p k xs e =
      any_mono (λ x. k x && p x) p xs (λ x h. (and-eq-true (k x) (p x) h).1)
        (rw (any-filter p k xs) at e)

  pub filter-append :
      (k : A → Bool) (xs ys : List A) → filter k (xs ++ ys) ≡ filter k xs ++ filter k ys
  filter-append k [] ys = refl
  filter-append k (x ∷ xs) ys = elim (Bool-cases (k x)) [
    | inl h ↦ rw (h, filter-append k xs ys) refl
    | inr h ↦ rw (h, filter-append k xs ys) refl
  ]

  pub filter-none : (k : A → Bool) (xs : List A) → All (λ x. k x ≡ false) xs → filter k xs ≡ []
  filter-none k [] h = refl
  filter-none k (x ∷ xs) h = rw (h.0) (filter-none k xs h.1)

  pub any-flat : (p : A → Bool) (xss : List (List A)) → any p (flat xss) ≡ any (λ xs. any p xs) xss
  any-flat p [] = refl
  any-flat p (xs ∷ xss) = rw (any-append p xs (flat xss), any-flat p xss) refl

module _ {ℓ κ} {A : Type ℓ} {B : Type κ} where
  pub any-map : (p : B → Bool) (f : A → B) (xs : List A) → any p (map f xs) ≡ any (λ x. p (f x)) xs
  any-map p f [] = refl
  any-map p f (x ∷ xs) = ground (arith, any-map p f xs)
