-- ===== src/Base/Sorting.antt =====
-- What `sort_by` gives: the same elements, in order where the comparator is total and transitive.
use mathlib.Core.Path.{◌≡◌}
use mathlib.Core.Logic.{◌⊎◌, inl, inr}
use mathlib.Core.Bool.{Bool, true}
use mathlib.Core.List.{List, [], ◌∷◌, Perm}
use mathlib.Core.List.Perm
use native.Mathlib.Omega.{arith}
use wildfire.Base.Tests.{Bool-cases}
use wildfire.Base.Lists.{All, All-map, All-insert_by, insert_by, sort_by}

module _ {ℓ} {A : Type ℓ} (le : A → A → Bool) where
  insert_by-perm : (x : A) (xs : List A) → Perm (insert_by le x xs) (x ∷ xs)
  unfolding insert_by
  insert_by-perm x [] = Perm.refl _
  insert_by-perm x (y ∷ ys) = elim (Bool-cases (le x y)) [
    | inl e ↦ rw e (Perm.refl _)
    | inr e ↦ rw e (Perm.trans (Perm.cons y (insert_by-perm x ys)) (Perm.swap x y ys))
  ]

  pub sort_by-perm : (xs : List A) → Perm (sort_by le xs) xs
  unfolding sort_by
  sort_by-perm [] = Perm.refl _
  sort_by-perm (x ∷ xs) =
      Perm.trans (insert_by-perm x (sort_by le xs)) (Perm.cons x (sort_by-perm xs))

  -- Each element comes before those behind it.
  abbrev pub IsAscending : List A → Type 0
  IsAscending [] = Unit
  IsAscending (x ∷ xs) = All (λ y. le x y ≡ true) xs × IsAscending xs

  module _ (total : (a b : A) → (le a b ≡ true) ⊎ (le b a ≡ true))
      (trans : (a b c : A) → le a b ≡ true → le b c ≡ true → le a c ≡ true) where
    insert_by-IsAscending : (x : A) (xs : List A) → IsAscending xs → IsAscending (insert_by le x xs)
    unfolding insert_by
    insert_by-IsAscending x [] h = (tt, tt)
    insert_by-IsAscending x (y ∷ ys) h = elim (Bool-cases (le x y)) [
      | inl e ↦ rw e ((e, All-map (λ z p. trans x y z e p) ys h.0), h)
      | inr e ↦
          let back : le y x ≡ true = ground (arith, total x y) in
          rw e (All-insert_by (λ z. le y z ≡ true) le x ys back h.0, insert_by-IsAscending x ys h.1)
    ]

    pub sort_by-IsAscending : (xs : List A) → IsAscending (sort_by le xs)
    unfolding sort_by
    sort_by-IsAscending [] = tt
    sort_by-IsAscending (x ∷ xs) = insert_by-IsAscending x (sort_by le xs) (sort_by-IsAscending xs)
