-- ===== src/Store/Items/Assign.antt =====
-- A batch that gives the rows of one playlist their places, by the ids in order.
use mathlib.Core.Option
use wildfire.Base.{
  filter, All-filter, ℕ, suc, ◌+◌, ◌<◌, ◌≡◌, refl, sym, ◌∙◌, inl, inr, String, ◌==◌, Bool, true,
  false, Option, none, some, List, [], ◌∷◌, map, All, arith, Option-cases, Bool-cases,
  some-injective, none≢some, length, includes, eq_iff, eqb,
}
use wildfire.Base.Int.{pos, eq_ℤ}
use wildfire.Base.Any.{and_false_left, and_false_right}
use wildfire.Store.{PlaylistItemRecord}
use wildfire.Store.Items.{Rows, applied, index_of, update_each}
use wildfire.Store.Items.Batches.{IsClear, AreFree, AllFree, update_each-AllFree}

map-none_iff : (o : Option ℕ) → Option.map suc o ≡ none → o ≡ none
map-none_iff none h = refl
map-none_iff (some i) h = absurd (none≢some (sym h))

map-some_inv :
    (o : Option ℕ) {i : ℕ} → Option.map suc o ≡ some i → (k : ℕ) × (o ≡ some k) × (i ≡ suc k)
map-some_inv none h = absurd (none≢some h)
map-some_inv (some k) h = (k, refl, sym (some-injective h))

pub index_of-lt :
    (x : String) (ids : List String) {i : ℕ} → index_of x ids ≡ some i → i < length ids
unfolding index_of
index_of-lt x [] h = absurd (none≢some h)
index_of-lt x (y ∷ ys) {i} h = elim (Bool-cases (y == x)) [
  | inl e ↦ let k = some-injective (rw e at h) in omega (arith, k)
  | inr e ↦
      let (k, g, is) = map-some_inv (index_of x ys) (rw e at h) in
      omega (arith, is, index_of-lt x ys g)
]

pub index_of-injective :
    (x y : String) (ids : List String) {i : ℕ}
    → index_of x ids ≡ some i
    → index_of y ids ≡ some i
    → x ≡ y
unfolding index_of
index_of-injective x y [] h k = absurd (none≢some h)
index_of-injective x y (z ∷ zs) {i} h k = elim (Bool-cases (z == x)) [
  | inl e ↦ elim (Bool-cases (z == y)) [
    | inl f ↦ sym ((eq_iff z x).0 e) ∙ (eq_iff z y).0 f
    | inr f ↦
        let zero_there = some-injective (rw e at h) in
        let (n, _, is) = map-some_inv (index_of y zs) (rw f at k) in
        absurd (omega (arith, zero_there, is))
  ]
  | inr e ↦ elim (Bool-cases (z == y)) [
    | inl f ↦
        let zero_there = some-injective (rw f at k) in
        let (n, _, is) = map-some_inv (index_of x zs) (rw e at h) in
        absurd (omega (arith, zero_there, is))
    | inr f ↦
        let (n, g, is) = map-some_inv (index_of x zs) (rw e at h) in
        let (m, g', is') = map-some_inv (index_of y zs) (rw f at k) in
        let same : m ≡ n = omega (arith, is, is') in
        index_of-injective x y zs {i = n} g (rw same at g')
  ]
]

-- An id has a place exactly if it is in the list.
pub index_of-none :
    (x : String) (ids : List String) → index_of x ids ≡ none → includes ids x ≡ false
unfolding index_of
index_of-none x [] h = refl
index_of-none x (y ∷ ys) h = elim (Bool-cases (y == x)) [
  | inl e ↦ absurd (none≢some (sym (rw e at h)))
  | inr e ↦ rw e (index_of-none x ys (map-none_iff (index_of x ys) (rw e at h)))
]

pub index_of-some :
    (x : String) (ids : List String) {i : ℕ} → index_of x ids ≡ some i → includes ids x ≡ true
unfolding index_of
index_of-some x [] h = absurd (none≢some h)
index_of-some x (y ∷ ys) h = elim (Bool-cases (y == x)) [
  | inl e ↦ rw e refl
  | inr e ↦
      let (k, g, _) = map-some_inv (index_of x ys) (rw e at h) in
      rw e (index_of-some x ys {i = k} g)
]

abbrev pub UniqueItems : Rows → Type 0
UniqueItems [] = Unit
UniqueItems (r ∷ rs) = All (λ s. (r.id == s.id) ≡ false) rs × UniqueItems rs

fresh-filter :
    (id : String) (k : PlaylistItemRecord → Bool) (rs : Rows)
    → All (λ s. (id == s.id) ≡ false) rs
    → All (λ s. (id == s.id) ≡ false) (filter k rs)
fresh-filter id k rs h = All-filter (λ (s : PlaylistItemRecord). (id == s.id) ≡ false) k rs h

pub UniqueItems-filter :
    (k : PlaylistItemRecord → Bool) (rs : Rows) → UniqueItems rs → UniqueItems (filter k rs)
UniqueItems-filter k [] u = tt
UniqueItems-filter k (r ∷ rs) u = elim (Bool-cases (k r)) [
  | inl e ↦ rw e (fresh-filter r.id k rs u.0, UniqueItems-filter k rs u.1)
  | inr e ↦ rw e (UniqueItems-filter k rs u.1)
]

apart_text : (a b c : String) → a ≡ c → (b == c) ≡ false → (a == b) ≡ false
apart_text a b c e h = ground (arith, eq_iff a b, eq_iff b c)

module _ (playlist : String) (index : String → Option ℕ) (n : ℕ)
    (bounded : (id : String) (i : ℕ) → index id ≡ some i → i < n)
    (injective : (a b : String) (i : ℕ) → index a ≡ some i → index b ≡ some i → a ≡ b) (base : ℕ)
    (write : PlaylistItemRecord → ℕ → PlaylistItemRecord)
    (stays : (r : PlaylistItemRecord) (i : ℕ) → (write r i).playlist_id ≡ r.playlist_id)
    (counts : (r : PlaylistItemRecord) (i : ℕ) → (write r i).sequence ≡ pos (base + i)) where
  abbrev change : PlaylistItemRecord → Option PlaylistItemRecord
  change r = Option.map (write r) (index r.id)

  -- The ids are those of the playlist's rows, and no row of it stands at a place that is given.
  pub record Fits (r : PlaylistItemRecord) : Type 0 where
    pub outside : index r.id ≡ none → (r.playlist_id == playlist) ≡ false
    pub inside : (i : ℕ) → index r.id ≡ some i → r.playlist_id ≡ playlist
    pub apart :
        r.playlist_id ≡ playlist → (i : ℕ) → i < n → eq_ℤ (pos (base + i)) r.sequence ≡ false

  IsClear-old : (r s : PlaylistItemRecord) → Fits r → Fits s → IsClear (change r) s
  IsClear-old r s f g = elim (Option-cases (index r.id)) [
    | inl h ↦ rw h tt
    | inr (i, h) ↦ rw h (
        rw (stays r i, counts r i)
          (elim (Bool-cases (s.playlist_id == playlist)) [
            | inl same ↦
                let free = g.apart ((eq_iff s.playlist_id playlist).0 same) i (bounded r.id i h) in
                and_false_right (r.playlist_id == s.playlist_id) (eq_ℤ (pos (base + i)) s.sequence)
                  free
            | inr other ↦
                and_false_left (r.playlist_id == s.playlist_id) (eq_ℤ (pos (base + i)) s.sequence)
                  (apart_text r.playlist_id s.playlist_id playlist (f.inside i h) other)
          ]))
  ]

  -- Two places differ.
  places_differ :
      (r s : PlaylistItemRecord) (i j : ℕ)
      → (r.id == s.id) ≡ false
      → index r.id ≡ some i
      → index s.id ≡ some j
      → eq_ℤ (pos (base + j)) (pos (base + i)) ≡ false
  places_differ r s i j other h k = elim (Bool-cases (eqb i j)) [
    | inl e ↦
        let same : j ≡ i = ground arith in
        let one = injective r.id s.id i h (rw same at k) in
        absurd (cc (other, (eq_iff r.id s.id).1 one))
    | inr e ↦ ground arith
  ]

  IsClear-new :
      (r s : PlaylistItemRecord)
      → Fits r
      → Fits s
      → (r.id == s.id) ≡ false
      → IsClear (change s) (applied change r)
  IsClear-new r s f g other = elim (Option-cases (index r.id)) [
    | inl h ↦ rw h (IsClear-old s r g f)
    | inr (i, h) ↦ rw h (elim (Option-cases (index s.id)) [
      | inl k ↦ rw k tt
      | inr (j, k) ↦ rw k (
          rw (counts s j, counts r i)
            (and_false_right _ (eq_ℤ (pos (base + j)) (pos (base + i)))
              (places_differ r s i j other h k)))
    ])
  ]

  Fits-AreFree :
      (r : PlaylistItemRecord) (rs : Rows)
      → Fits r
      → All Fits rs
      → All (λ s. (r.id == s.id) ≡ false) rs
      → All (AreFree change r) rs
  Fits-AreFree r [] f fs u = tt
  Fits-AreFree r (s ∷ ss) f fs u =
      ((IsClear-old r s f fs.0, IsClear-new r s f fs.0 u.0), Fits-AreFree r ss f fs.1 u.1)

  Fits-AllFree : (rs : Rows) → All Fits rs → UniqueItems rs → AllFree change rs
  Fits-AllFree [] f u = tt
  Fits-AllFree (r ∷ rs) f u = (Fits-AreFree r rs f.0 f.1 u.0, Fits-AllFree rs f.1 u.1)

  -- The batch gives every row its place at once.
  pub update_each-Fits :
      (rs : Rows)
      → All Fits rs
      → UniqueItems rs
      → update_each change [] rs ≡ some (map (applied change) rs)
  update_each-Fits rs f u = update_each-AllFree change rs (Fits-AllFree rs f u)
