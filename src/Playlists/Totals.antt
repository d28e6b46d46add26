-- ===== src/Playlists/Totals.antt =====
-- The durations of a playlist, summed over the rows of the table.
use wildfire.Base.{
  ℕ, ◌+◌, ◌≤◌, ◌≡◌, refl, ap, sym, ◌∙◌, inl, inr, String, ◌==◌, Bool, true, false, not, some, List,
  [], ◌∷◌, ◌++◌, map, find, filter, All, All-filter, All-sort_by, arith, Bool-cases, if◌then◌else◌,
  sort_by, insert_by, eq_iff, none≢some, some-injective,
}
use wildfire.Base.Int.{ℤ, pos, negsuc, ltb_ℤ, ◌+ℤ◌, pos_part}
use wildfire.Store.{Store, PlaylistItemRecord}
use wildfire.Store.Playlists.{list_items}
use wildfire.Store.Items.{Rows}
use wildfire.Store.Items.Assign.{UniqueItems}
use wildfire.Playlists.{base_duration}

abbrev pub total {ℓ} : {A : Type ℓ} → (A → ℕ) → List A → ℕ
total w [] = 0
total w (x ∷ xs) = w x + total w xs

module _ {ℓ} {A : Type ℓ} where
  pub total-append : (w : A → ℕ) (xs ys : List A) → total w (xs ++ ys) ≡ total w xs + total w ys
  total-append w [] ys = omega arith
  total-append w (x ∷ xs) ys = omega (arith, total-append w xs ys)

  pub total_mono : (v w : A → ℕ) (xs : List A) → All (λ x. v x ≤ w x) xs → total v xs ≤ total w xs
  total_mono v w [] h = omega arith
  total_mono v w (x ∷ xs) h = omega (arith, h.0, total_mono v w xs h.1)

  pub total-filter :
      (w : A → ℕ) (k : A → Bool) (xs : List A)
      → total w (filter k xs) ≡ total (λ x. if k x then w x else 0) xs
  total-filter w k [] = refl
  total-filter w k (x ∷ xs) = ground (arith, total-filter w k xs)

  total-insert_by :
      (w : A → ℕ) (le : A → A → Bool) (x : A) (xs : List A)
      → total w (insert_by le x xs) ≡ w x + total w xs
  unfolding insert_by
  total-insert_by w le x [] = refl
  total-insert_by w le x (y ∷ ys) = ground (arith, total-insert_by w le x ys)

  pub total-sort_by :
      (w : A → ℕ) (le : A → A → Bool) (xs : List A) → total w (sort_by le xs) ≡ total w xs
  unfolding sort_by
  total-sort_by w le [] = refl
  total-sort_by w le (x ∷ xs) =
      omega (arith, total-insert_by w le x (sort_by le xs), total-sort_by w le xs)

module _ {ℓ κ} {A : Type ℓ} {B : Type κ} where
  pub total-map :
      (w : B → ℕ) (f : A → B) (xs : List A) → total w (map f xs) ≡ total (λ x. w (f x)) xs
  total-map w f [] = refl
  total-map w f (x ∷ xs) = omega (arith, total-map w f xs)

abbrev pub seconds : PlaylistItemRecord → ℕ
seconds r = pos_part r.duration

-- What a row counts for a playlist.
abbrev pub counted : String → PlaylistItemRecord → ℕ
counted playlist r = if r.playlist_id == playlist then seconds r else 0

abbrev pub IsPositive : PlaylistItemRecord → Type 0
IsPositive r = ltb_ℤ (pos 0) r.duration ≡ true

pub positive-pos : (d : ℤ) → ltb_ℤ (pos 0) d ≡ true → d ≡ pos (pos_part d)
positive-pos (pos n) h = refl
positive-pos (negsuc n) h = absurd (ground arith)

pub add-pos : (a b : ℕ) → (pos a +ℤ pos b) ≡ pos (a + b)
unfolding ◌+ℤ◌
add-pos a b = ground arith

pub base_duration-seconds :
    (items : Rows) → All IsPositive items → base_duration items ≡ pos (total seconds items)
unfolding base_duration
base_duration-seconds [] h = refl
base_duration-seconds (i ∷ items) h =
    ap (λ d. i.duration +ℤ d) (base_duration-seconds items h.1)
    ∙ ap (λ d. d +ℤ pos (total seconds items)) (positive-pos i.duration h.0)
    ∙ add-pos (seconds i) (total seconds items)

-- The list of a playlist's items, some of them left out, counts what the table does.
pub listed_seconds :
    (playlist : String) (k : PlaylistItemRecord → Bool) (st : Store)
    → total seconds (filter k (list_items playlist st))
      ≡ total (counted playlist) (filter k st.playlist_items)
unfolding list_items
listed_seconds playlist k st =
    total-filter seconds k (list_items playlist st)
    ∙ total-sort_by (λ r. if k r then seconds r else 0) _
        (filter (λ i. i.playlist_id == playlist) st.playlist_items)
    ∙ total-filter (λ r. if k r then seconds r else 0) (λ i. i.playlist_id == playlist)
        st.playlist_items
    ∙ same st.playlist_items
    ∙ sym (total-filter (counted playlist) k st.playlist_items)
  where
    same :
        (rs : Rows)
        → total (λ x. if x.playlist_id == playlist then (if k x then seconds x else 0) else 0) rs
          ≡ total (λ x. if k x then counted playlist x else 0) rs
    same [] = refl
    same (r ∷ rs) = ground (arith, same rs)

pub list_items-IsPositive :
    (playlist : String) (st : Store)
    → All IsPositive st.playlist_items
    → All IsPositive (list_items playlist st)
unfolding list_items
list_items-IsPositive playlist st h =
    All-sort_by IsPositive _ (filter (λ i. i.playlist_id == playlist) st.playlist_items)
      (All-filter IsPositive (λ i. i.playlist_id == playlist) st.playlist_items h)

nowhere :
    (w : PlaylistItemRecord → ℕ) (f : PlaylistItemRecord → PlaylistItemRecord) (id : String)
    (rs : Rows)
    → All (λ s. (id == s.id) ≡ false) rs
    → (total w (map (λ i. if i.id == id then f i else i) rs) ≡ total w rs)
      × (total w (filter (λ i. not (i.id == id)) rs) ≡ total w rs)
nowhere w f id [] h = (refl, refl)
nowhere w f id (r ∷ rs) h =
    let (mapped, filtered) = nowhere w f id rs h.1 in
    let other : (r.id == id) ≡ false = ground (arith, h.0, eq_iff r.id id, eq_iff id r.id) in
    rw other (omega (arith, mapped), omega (arith, filtered))

-- With the ids a key, one row is changed, or one goes.
pub one_changed :
    (w : PlaylistItemRecord → ℕ) (f : PlaylistItemRecord → PlaylistItemRecord) (id : String)
    (rs : Rows) {e : PlaylistItemRecord}
    → UniqueItems rs
    → find (λ i. i.id == id) rs ≡ some e
    → (total w (map (λ i. if i.id == id then f i else i) rs) + w e ≡ total w rs + w (f e))
      × (total w (filter (λ i. not (i.id == id)) rs) + w e ≡ total w rs)
one_changed w f id [] u h = absurd (none≢some h)
one_changed w f id (r ∷ rs) {e} u h = elim (Bool-cases (r.id == id)) [
  | inl same ↦
      let mine : r ≡ e = some-injective (rw same at h) in
      let fresh : All (λ s. (id == s.id) ≡ false) rs = rw ((eq_iff r.id id).0 same) at u.0 in
      let (mapped, filtered) = nowhere w f id rs fresh in
      rw (same, sym mine) (omega (arith, mapped), omega (arith, filtered))
  | inr other ↦
      let (mapped, filtered) = one_changed w f id rs u.1 (rw other at h) in
      rw other (omega (arith, mapped), omega (arith, filtered))
]

pub every_row : (rs : Rows) → filter (λ (r : PlaylistItemRecord). true) rs ≡ rs
every_row [] = refl
every_row (r ∷ rs) = ap (λ ss. r ∷ ss) (every_row rs)
