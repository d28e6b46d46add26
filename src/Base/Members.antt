-- ===== src/Base/Members.antt =====
-- Membership in lists that are appended, filtered and mapped.
use mathlib.Core.List.{Memᴰ}
use wildfire.Base.{
  ◌≡◌, refl, ap, sym, ◌∙◌, ◌⊎◌, inl, inr, Bool, true, List, [], ◌∷◌, ◌++◌, map, filter, Bool-cases,
  All, subst,
}

module _ {ℓ} {A : Type ℓ} where
  pub mem-append : (x : A) (xs ys : List A) → Memᴰ x (xs ++ ys) → Memᴰ x xs ⊎ Memᴰ x ys
  mem-append x [] ys m = inr m
  mem-append x (z ∷ xs) ys (Memᴰ.head e) = inl (Memᴰ.head e)
  mem-append x (z ∷ xs) ys (Memᴰ.tail m) = elim (mem-append x xs ys m) [
    | inl h ↦ inl (Memᴰ.tail h)
    | inr h ↦ inr h
  ]

  pub append-left : (x : A) (xs ys : List A) → Memᴰ x xs → Memᴰ x (xs ++ ys)
  append-left x [] ys m = elim m [ ]
  append-left x (z ∷ xs) ys (Memᴰ.head e) = Memᴰ.head e
  append-left x (z ∷ xs) ys (Memᴰ.tail m) = Memᴰ.tail (append-left x xs ys m)

  pub append-right : (x : A) (xs ys : List A) → Memᴰ x ys → Memᴰ x (xs ++ ys)
  append-right x [] ys m = m
  append-right x (z ∷ xs) ys m = Memᴰ.tail (append-right x xs ys m)

  pub All-mem {κ} : (P : A → Type κ) (x : A) (xs : List A) → Memᴰ x xs → All P xs → P x
  All-mem P x [] m h = elim m [ ]
  All-mem P x (z ∷ xs) (Memᴰ.head e) h = subst P (sym e) h.0
  All-mem P x (z ∷ xs) (Memᴰ.tail m) h = All-mem P x xs m h.1

  pub filter-mem :
      (k : A → Bool) (x : A) (xs : List A) → Memᴰ x (filter k xs) → Memᴰ x xs × (k x ≡ true)
  filter-mem k x [] m = elim m [ ]
  filter-mem k x (z ∷ xs) m = elim (Bool-cases (k z)) [
    | inl e ↦ first e (λ h. filter-mem k x xs h) (rw e at m)
    | inr e ↦ let (h, t) = filter-mem k x xs (rw e at m) in (Memᴰ.tail h, t)
  ]
    where
      first :
          k z ≡ true
          → (Memᴰ x (filter k xs) → Memᴰ x xs × (k x ≡ true))
          → Memᴰ x (z ∷ filter k xs)
          → Memᴰ x (z ∷ xs) × (k x ≡ true)
      first e rest (Memᴰ.head s) = (Memᴰ.head s, ap k s ∙ e)
      first e rest (Memᴰ.tail h) = let (h', t) = rest h in (Memᴰ.tail h', t)

  pub mem-filter :
      (k : A → Bool) (x : A) (xs : List A) → Memᴰ x xs → k x ≡ true → Memᴰ x (filter k xs)
  mem-filter k x [] m e = elim m [ ]
  mem-filter k x (z ∷ xs) (Memᴰ.head s) e = rw (sym (ap k s) ∙ e) (Memᴰ.head s)
  mem-filter k x (z ∷ xs) (Memᴰ.tail m) e = elim (Bool-cases (k z)) [
    | inl h ↦ rw h (Memᴰ.tail (mem-filter k x xs m e))
    | inr h ↦ rw h (mem-filter k x xs m e)
  ]

module _ {ℓ κ} {A : Type ℓ} {B : Type κ} where
  pub mem-map : (f : A → B) (x : A) (xs : List A) → Memᴰ x xs → Memᴰ (f x) (map f xs)
  mem-map f x [] m = elim m [ ]
  mem-map f x (z ∷ xs) (Memᴰ.head s) = Memᴰ.head (ap f s)
  mem-map f x (z ∷ xs) (Memᴰ.tail m) = Memᴰ.tail (mem-map f x xs m)

  pub map-mem :
      (f : A → B) (y : B) (xs : List A) → Memᴰ y (map f xs) → (x : A) × Memᴰ x xs × (y ≡ f x)
  map-mem f y [] m = elim m [ ]
  map-mem f y (z ∷ xs) (Memᴰ.head s) = (z, Memᴰ.head refl, s)
  map-mem f y (z ∷ xs) (Memᴰ.tail m) = let (x, h, e) = map-mem f y xs m in (x, Memᴰ.tail h, e)
