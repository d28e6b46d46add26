-- ===== src/Store/Items/Distinct.antt =====
-- Lists of ids without duplicates, and the ids of a playlist's items.
use wildfire.Base.{
  suc, ◌≤◌, ◌<◌, ◌≡◌, refl, ap, sym, ◌∙◌, inl, inr, String, ◌==◌, Bool, true, false, not, ◌||◌,
  ◌&&◌, List, [], ◌∷◌, map, any, every, filter, All, arith, Bool-cases, length, includes,
  has_duplicates, eq_iff, eq_refl, insert_by, sort_by,
}
use wildfire.Base.Any.{any-filter, any_mono}
use wildfire.Store.{PlaylistItemRecord}
use wildfire.Store.Items.{Rows}
use wildfire.Store.Items.Assign.{UniqueItems}

module _ {ℓ} {A : Type ℓ} where
  any-insert_by :
      (p : A → Bool) (le : A → A → Bool) (x : A) (xs : List A)
      → any p (insert_by le x xs) ≡ (p x || any p xs)
  unfolding insert_by
  any-insert_by p le x [] = refl
  any-insert_by p le x (y ∷ ys) = ground (arith, any-insert_by p le x ys)

  pub any-sort_by :
      (p : A → Bool) (le : A → A → Bool) (xs : List A) → any p (sort_by le xs) ≡ any p xs
  unfolding sort_by
  any-sort_by p le [] = refl
  any-sort_by p le (x ∷ xs) =
      any-insert_by p le x (sort_by le xs) ∙ ap (λ b. p x || b) (any-sort_by p le xs)

  length-insert_by :
      (le : A → A → Bool) (x : A) (xs : List A) → length (insert_by le x xs) ≡ suc (length xs)
  unfolding insert_by
  length-insert_by le x [] = refl
  length-insert_by le x (y ∷ ys) = ground (arith, length-insert_by le x ys)

  pub length-sort_by : (le : A → A → Bool) (xs : List A) → length (sort_by le xs) ≡ length xs
  unfolding sort_by
  length-sort_by le [] = refl
  length-sort_by le (x ∷ xs) =
      omega (arith, length-insert_by le x (sort_by le xs), length-sort_by le xs)

  -- `every` says no to nothing that is found.
  pub every-any : (p : A → Bool) (xs : List A) → every p xs ≡ not (any (λ x. not (p x)) xs)
  every-any p [] = refl
  every-any p (x ∷ xs) = ground (arith, every-any p xs)

abbrev pub without : String → List String → List String
without x xs = filter (λ y. not (y == x)) xs

pub includes-without :
    (x k : String) (xs : List String)
    → (x == k) ≡ false
    → includes xs k ≡ true
    → includes (without x xs) k ≡ true
includes-without x k xs other e = rw (any-filter (λ y. y == k) (λ y. not (y == x)) xs) (
    any_mono (λ y. y == k) (λ y. not (y == x) && y == k) xs
      (λ y h. ground (arith, eq_iff y k, eq_iff y x, eq_iff x k)) e)

length-without_le : (x : String) (xs : List String) → length (without x xs) ≤ length xs
length-without_le x [] = omega arith
length-without_le x (y ∷ ys) = ground (arith, length-without_le x ys)

pub length-without :
    (x : String) (xs : List String) → includes xs x ≡ true → length (without x xs) < length xs
length-without x [] e = absurd (cc)
length-without x (y ∷ ys) e = elim (Bool-cases (y == x)) [
  | inl h ↦ rw h (omega (arith, length-without_le x ys))
  | inr h ↦ let more = length-without x ys (rw h at e) in rw h (omega (arith, more))
]

-- As many at least as there are different ones among them.
pub length-distinct :
    (xs ys : List String)
    → has_duplicates xs ≡ false
    → ((k : String) → includes xs k ≡ true → includes ys k ≡ true)
    → length xs ≤ length ys
length-distinct [] ys d sub = omega arith
length-distinct (x ∷ xs) ys d sub =
    let there = length-without x ys (sub x (rw (eq_refl x) refl)) in
    let fresh : includes xs x ≡ false = ground arith in
    let rest =
      length-distinct xs (without x ys) (ground arith)
        (λ k e. includes-without x k ys (apart x k xs fresh e) (sub k (ground arith))) in
    omega (arith, there, rest)
  where
    apart :
        (x k : String) (xs : List String)
        → includes xs x ≡ false
        → includes xs k ≡ true
        → (x == k) ≡ false
    apart x k xs f e = elim (Bool-cases (x == k)) [
      | inl h ↦ absurd (cc (f, rw (sym ((eq_iff x k).0 h)) at e))
      | inr h ↦ h
    ]

-- Different ones that are as many as all are all.
pub includes-of_length :
    (xs ys : List String) (k : String)
    → has_duplicates xs ≡ false
    → ((k : String) → includes xs k ≡ true → includes ys k ≡ true)
    → length xs ≡ length ys
    → includes ys k ≡ true
    → includes xs k ≡ true
includes-of_length xs ys k d sub same e = elim (Bool-cases (includes xs k)) [
  | inl h ↦ h
  | inr h ↦
      let fewer = length-distinct xs (without k ys) d (λ j f.
        includes-without k j ys
          (elim (Bool-cases (k == j)) [
            | inl g ↦ absurd (cc (h, rw (sym ((eq_iff k j).0 g)) at f))
            | inr g ↦ g
          ])
          (sub j f)) in
      absurd (omega (arith, fewer, same, length-without k ys e))
]

abbrev pub ids_of : String → Rows → List String
ids_of playlist rows =
    map (λ (i : PlaylistItemRecord). i.id) (filter (λ i. i.playlist_id == playlist) rows)

pub includes-ids_of :
    (playlist k : String) (rows : Rows)
    → includes (ids_of playlist rows) k ≡ any (λ i. i.playlist_id == playlist && i.id == k) rows
includes-ids_of playlist k [] = refl
includes-ids_of playlist k (r ∷ rs) = ground (arith, includes-ids_of playlist k rs)

unique-fresh :
    (playlist : String) (r : PlaylistItemRecord) (rs : Rows)
    → All (λ s. (r.id == s.id) ≡ false) rs
    → includes (ids_of playlist rs) r.id ≡ false
unique-fresh playlist r [] u = refl
unique-fresh playlist r (s ∷ ss) u =
    ground (arith, unique-fresh playlist r ss u.1, eq_iff s.id r.id, eq_iff r.id s.id)

pub ids_of-distinct :
    (playlist : String) (rows : Rows)
    → UniqueItems rows
    → has_duplicates (ids_of playlist rows) ≡ false
ids_of-distinct playlist [] u = refl
ids_of-distinct playlist (r ∷ rs) u =
    ground (arith, ids_of-distinct playlist rs u.1, unique-fresh playlist r rs u.0)
