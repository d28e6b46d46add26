-- ===== src/Playlists/Budget.antt =====
-- A playlist's items last 60 seconds at most, each at least one: what the writes to a row keep.
use wildfire.Base.{
  ℕ, ◌+◌, ◌≤◌, ◌≡◌, refl, ap, sym, subst, ◌∙◌, inl, inr, String, ◌==◌, Bool, true, false, not, some,
  List, [], ◌∷◌, map, find, filter, All, All-filter, arith, Bool-cases, Option-cases, if◌then◌else◌,
  eq_iff,
}
use wildfire.Base.Int.{ℤ, pos, ltb_ℤ, ◌+ℤ◌, pos_part}
use wildfire.Store.{Store, PlaylistItemRecord}
use wildfire.Store.Playlists.{list_items}
use wildfire.Store.Items.{Rows, applied, place_from, index_of}
use wildfire.Store.Items.Assign.{UniqueItems, UniqueItems-filter}
use wildfire.Store.Items.Moved.{UniqueItems-moved}
use wildfire.Playlists.{base_duration}
use wildfire.Playlists.Items.{within_total}
use wildfire.Playlists.Totals.{
  total, total_mono, total-filter, total-map, seconds, counted, IsPositive, positive-pos, add-pos,
  base_duration-seconds, listed_seconds, list_items-IsPositive, one_changed,
}

pub record IsWithinBudget (rows : Rows) : Type 0 where
  pub unique : UniqueItems rows
  pub positive : All IsPositive rows
  pub bounded : (playlist : String) → total (counted playlist) rows ≤ 60

-- What the test of the use cases says of the table.
pub within_total-bound :
    (playlist : String) (k : PlaylistItemRecord → Bool) (st : Store) (d : ℤ)
    → All IsPositive st.playlist_items
    → ltb_ℤ (pos 0) d ≡ true
    → within_total (base_duration (filter k (list_items playlist st)) +ℤ d) ≡ true
    → total (counted playlist) (filter k st.playlist_items) + pos_part d ≤ 60
within_total-bound playlist k st d h p e =
    let items = filter k (list_items playlist st) in
    let is =
      base_duration-seconds items
        (All-filter IsPositive k (list_items playlist st) (list_items-IsPositive playlist st h)) in
    let whole : (base_duration items +ℤ d) ≡ pos (total seconds items + pos_part d) =
      ap (λ b. b +ℤ d) is
      ∙ ap (λ b. pos (total seconds items) +ℤ b) (positive-pos d p)
      ∙ add-pos (total seconds items) (pos_part d) in
    let bound = rw whole at e in let same = listed_seconds playlist k st in ground arith

-- A row more.
pub added-IsWithinBudget :
    (item : PlaylistItemRecord) (rows : Rows)
    → IsWithinBudget rows
    → All (λ s. (item.id == s.id) ≡ false) rows
    → IsPositive item
    → total (counted item.playlist_id) rows + seconds item ≤ 60
    → IsWithinBudget (item ∷ rows)
added-IsWithinBudget item rows inv fresh p bound = record {
  unique = (fresh, inv.unique);
  positive = (p, inv.positive);
  bounded = λ playlist. elim (Bool-cases (item.playlist_id == playlist)) [
    | inl mine ↦
        let here =
          subst (λ p. total (counted p) rows + seconds item ≤ 60)
            ((eq_iff item.playlist_id playlist).0 mine) bound in
        rw mine (omega (arith, here))
    | inr other ↦ rw other (omega (arith, inv.bounded playlist))
  ];
}

-- Some rows fewer.
pub filtered-IsWithinBudget :
    (k : PlaylistItemRecord → Bool) (rows : Rows)
    → IsWithinBudget rows
    → IsWithinBudget (filter k rows)
filtered-IsWithinBudget k rows inv = record {
  unique = UniqueItems-filter k rows inv.unique;
  positive = All-filter IsPositive k rows inv.positive;
  bounded = λ playlist. rw (total-filter (counted playlist) k rows) (
      omega (
        arith,
        inv.bounded playlist,
        total_mono (λ x. if k x then counted playlist x else 0) (counted playlist) rows
            (less playlist rows),
      ));
}
  where
    less :
        (playlist : String) (rs : Rows)
        → All (λ x. (if k x then counted playlist x else 0) ≤ counted playlist x) rs
    less playlist [] = tt
    less playlist (r ∷ rs) = (ground arith, less playlist rs)

module _ (f : PlaylistItemRecord → PlaylistItemRecord) (id : String)
    (keeps : (i : PlaylistItemRecord)
      → ((f i).id ≡ i.id) × ((f i).playlist_id ≡ i.playlist_id)) where
  abbrev change : PlaylistItemRecord → PlaylistItemRecord
  change i = if i.id == id then f i else i

  change_id : (i : PlaylistItemRecord) → (change i).id ≡ i.id
  change_id i = elim (Bool-cases (i.id == id)) [ inl h ↦ rw h (keeps i).0 | inr h ↦ rw h refl ]

  change-UniqueItems : (rs : Rows) → UniqueItems rs → UniqueItems (map change rs)
  change-UniqueItems [] u = tt
  change-UniqueItems (r ∷ rs) u = (fresh rs u.0, change-UniqueItems rs u.1)
    where
      fresh :
          (ss : Rows)
          → All (λ s. (r.id == s.id) ≡ false) ss
          → All (λ s. ((change r).id == s.id) ≡ false) (map change ss)
      fresh [] h = tt
      fresh (s ∷ ss) h = (rw (change_id r, change_id s) h.0, fresh ss h.1)

  change-IsPositive :
      ((i : PlaylistItemRecord) → IsPositive (f i))
      → (rs : Rows) → All IsPositive rs
      → All IsPositive (map change rs)
  change-IsPositive p [] h = tt
  change-IsPositive p (r ∷ rs) h = (
    elim (Bool-cases (r.id == id)) [ inl e ↦ rw e (p r) | inr e ↦ rw e h.0 ],
    change-IsPositive p rs h.1,
  )

  -- A row changed.
  pub changed-IsWithinBudget :
      (rows : Rows) {e : PlaylistItemRecord}
      → IsWithinBudget rows
      → find (λ i. i.id == id) rows ≡ some e
      → ((i : PlaylistItemRecord) → IsPositive (f i))
      → total (counted e.playlist_id) (filter (λ i. not (i.id == id)) rows) + seconds (f e) ≤ 60
      → IsWithinBudget (map change rows)
  changed-IsWithinBudget rows {e} inv there p bound = record {
    unique = change-UniqueItems rows inv.unique;
    positive = change-IsPositive p rows inv.positive;
    bounded = λ playlist.
        let (mapped, filtered) = one_changed (counted playlist) f id rows inv.unique there in
        let stays = (keeps e).1 in
        elim (Bool-cases (e.playlist_id == playlist)) [
          | inl mine ↦
              let same = (eq_iff e.playlist_id playlist).0 mine in
              let here : total (counted playlist) (filter (λ i. not (i.id == id)) rows)
                    + seconds (f e)
                  ≤ 60 =
                rw (sym same) bound in
              let new_weight : counted playlist (f e) ≡ seconds (f e) = rw (stays, mine) refl in
              omega (arith, mapped, filtered, here, new_weight)
          | inr other ↦
              let old_weight : counted playlist e ≡ 0 = rw other refl in
              let new_weight : counted playlist (f e) ≡ 0 = rw (stays, other) refl in
              omega (arith, mapped, new_weight, old_weight, inv.bounded playlist)
        ];
  }

-- The rows moved.
pub moved-IsWithinBudget :
    (ids : List String) (base : ℕ) (rows : Rows)
    → IsWithinBudget rows
    → IsWithinBudget (map (applied (place_from base ids)) rows)
moved-IsWithinBudget ids base rows inv = record {
  unique = UniqueItems-moved "" ids base rows inv.unique;
  positive = still rows inv.positive;
  bounded = λ playlist. rw (total-map (counted playlist) (applied (place_from base ids)) rows) (
      omega (
        arith,
        inv.bounded playlist,
        total_mono (λ r. counted playlist (applied (place_from base ids) r)) (counted playlist) rows
            (same playlist rows),
      ));
}
  where
    same_row :
        (r : PlaylistItemRecord)
        → ((applied (place_from base ids) r).duration ≡ r.duration)
          × ((applied (place_from base ids) r).playlist_id ≡ r.playlist_id)
    same_row r = elim (Option-cases (index_of r.id ids)) [
      | inl h ↦ rw h (refl, refl)
      | inr (i, h) ↦ rw h (refl, refl)
    ]

    still :
        (rs : Rows) → All IsPositive rs → All IsPositive (map (applied (place_from base ids)) rs)
    still [] h = tt
    still (r ∷ rs) h = (rw ((same_row r).0) h.0, still rs h.1)

    same :
        (playlist : String) (rs : Rows)
        → All (λ r. counted playlist (applied (place_from base ids) r) ≤ counted playlist r) rs
    same playlist [] = tt
    same playlist (r ∷ rs) = (rw ((same_row r).0, (same_row r).1) (omega arith), same playlist rs)
