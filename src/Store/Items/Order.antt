-- ===== src/Store/Items/Order.antt =====
-- Orders of a playlist's items: the two batches of `reorderItems` give each item its place.
use wildfire.Base.{
  ℕ, ◌+◌, ◌≤◌, ◌<◌, ◌≡◌, refl, ap, sym, ◌∙◌, String, ◌==◌, true, false, not, ◌&&◌, some, List, [],
  ◌∷◌, map, any, every, filter, All, All-map, arith, length, includes, has_duplicates,
}
use wildfire.Base.Any.{any-map, any-filter}
use wildfire.Base.Int.{pos, eq_ℤ, ltb_ℤ}
use wildfire.Store.{Store, PlaylistItemRecord}
use wildfire.Store.Playlists.{list_items}
use wildfire.Store.Items.{Rows, applied, placed, place_from, index_of, reorder_rows}
use wildfire.Store.Items.Assign.{
  Fits, UniqueItems, update_each-Fits, index_of-lt, index_of-injective,
}
use wildfire.Store.Items.Moved.{
  any_only, IsMember, placed-Fits, moved_free, moved-IsMember, placed_twice, UniqueItems-moved,
}
use wildfire.Store.Items.Distinct.{
  any-sort_by, length-sort_by, every-any, length-distinct, ids_of, includes-ids_of, ids_of-distinct,
}

-- The ids are those of the playlist's items, each once.
pub record IsOrder (playlist : String) (ids : List String) (rows : Rows) : Type 0 where
  pub unrepeated : has_duplicates ids ≡ false
  pub exact :
      (id : String) → includes ids id ≡ any (λ i. i.playlist_id == playlist && i.id == id) rows

-- An item of the playlist stands at no place beyond 10000, where the first batch moves the items.
abbrev pub IsLow : String → PlaylistItemRecord → Type 0
IsLow playlist r = r.playlist_id ≡ playlist → ltb_ℤ (pos 10000) r.sequence ≡ false

module _ (playlist : String) (ids : List String) where
  low_free :
      (r : PlaylistItemRecord)
      → IsLow playlist r
      → r.playlist_id ≡ playlist
      → (i : ℕ) → i < length ids
      → eq_ℤ (pos (10001 + i)) r.sequence ≡ false
  low_free r low is i h = let bound = low is in ground arith

  moved-Fits :
      (rs : Rows)
      → All (IsMember playlist ids) rs
      → length ids ≤ 10000
      → All
          (Fits playlist
            (λ id. index_of id ids)
            (length ids)
            (λ id i h. index_of-lt id ids h)
            (λ a b i h k. index_of-injective a b ids {i = i} h k)
            1
            (λ r i. placed 1 i r)
            (λ r i. refl)
            (λ r i. refl))
          (map (applied (place_from 10001 ids)) rs)
  moved-Fits [] m short = tt
  moved-Fits (r ∷ rs) m short = (
    placed-Fits playlist ids 1 (applied (place_from 10001 ids) r)
        (moved-IsMember playlist ids 10001 r m.0)
        (λ is i h. moved_free playlist ids 10001 r m.0 is i (omega (arith, h, short))),
    moved-Fits rs m.1 short,
  )

  first-Fits :
      (rs : Rows)
      → All (IsMember playlist ids) rs
      → All (IsLow playlist) rs
      → All
          (Fits playlist
            (λ id. index_of id ids)
            (length ids)
            (λ id i h. index_of-lt id ids h)
            (λ a b i h k. index_of-injective a b ids {i = i} h k)
            10001
            (λ r i. placed 10001 i r)
            (λ r i. refl)
            (λ r i. refl))
          rs
  first-Fits [] m low = tt
  first-Fits (r ∷ rs) m low =
      (placed-Fits playlist ids 10001 r m.0 (low_free r low.0), first-Fits rs m.1 low.1)

  map_twice :
      (rs : Rows)
      → map (applied (place_from 1 ids)) (map (applied (place_from 10001 ids)) rs)
        ≡ map (applied (place_from 1 ids)) rs
  map_twice [] = refl
  map_twice (r ∷ rs) = rw (placed_twice playlist ids r, map_twice rs) refl

  pub reorder_rows-placed :
      (rows : Rows)
      → All (IsMember playlist ids) rows
      → All (IsLow playlist) rows
      → UniqueItems rows
      → length ids ≤ 10000
      → reorder_rows ids rows ≡ some (map (applied (place_from 1 ids)) rows)
  unfolding reorder_rows
  reorder_rows-placed rows m low u short =
      let moved = map (applied (place_from 10001 ids)) rows in
      let first =
        update_each-Fits playlist (λ id. index_of id ids) (length ids)
          (λ id i h. index_of-lt id ids h) (λ a b i h k. index_of-injective a b ids {i = i} h k)
          10001 (λ r i. placed 10001 i r) (λ r i. refl) (λ r i. refl) rows (first-Fits rows m low)
          u in
      let second =
        update_each-Fits playlist (λ id. index_of id ids) (length ids)
          (λ id i h. index_of-lt id ids h) (λ a b i h k. index_of-injective a b ids {i = i} h k) 1
          (λ r i. placed 1 i r) (λ r i. refl) (λ r i. refl) moved (moved-Fits rows m short)
          (UniqueItems-moved playlist ids 10001 rows u) in
      rw (first, reorder_rows) (second ∙ ap (λ x. some x) (map_twice rows))

  pub order_members :
      (rows : Rows)
      → IsOrder playlist ids rows
      → UniqueItems rows
      → All (IsMember playlist ids) rows
  order_members rows o u = All-map (λ r e. o.exact r.id ∙ e) rows (any_only playlist rows u)

  pub listed_ids :
      (st : Store) (k : String)
      → any (λ (i : PlaylistItemRecord). i.id == k) (list_items playlist st)
        ≡ includes (ids_of playlist st.playlist_items) k
  unfolding list_items
  listed_ids st k =
      any-sort_by (λ i. i.id == k) _ (filter (λ i. i.playlist_id == playlist) st.playlist_items)
      ∙ sym (
          any-map (λ j. j == k) (λ (i : PlaylistItemRecord). i.id)
            (filter (λ i. i.playlist_id == playlist) st.playlist_items))

  pub listed_length :
      (st : Store) → length (list_items playlist st) ≡ length (ids_of playlist st.playlist_items)
  unfolding list_items
  listed_length st =
      length-sort_by _ (filter (λ i. i.playlist_id == playlist) st.playlist_items)
      ∙ mapped (filter (λ i. i.playlist_id == playlist) st.playlist_items)
    where
      mapped : (xs : Rows) → length xs ≡ length (map (λ (i : PlaylistItemRecord). i.id) xs)
      mapped [] = refl
      mapped (x ∷ xs) = omega (arith, mapped xs)

  all_listed :
      (rows : Rows)
      → All (IsMember playlist ids) rows
      → any (λ i. i.playlist_id == playlist && not (includes ids i.id)) rows ≡ false
  all_listed [] m = refl
  all_listed (r ∷ rs) m = ground (arith, all_listed rs m.1)

  pub every_listed :
      (st : Store)
      → All (IsMember playlist ids) st.playlist_items
      → every (λ (i : PlaylistItemRecord). includes ids i.id) (list_items playlist st) ≡ true
  unfolding list_items
  every_listed st m =
      every-any (λ (i : PlaylistItemRecord). includes ids i.id) (list_items playlist st)
      ∙ ap not (
          any-sort_by (λ (i : PlaylistItemRecord). not (includes ids i.id)) _
            (filter (λ i. i.playlist_id == playlist) st.playlist_items)
          ∙ any-filter (λ (i : PlaylistItemRecord). not (includes ids i.id))
              (λ i. i.playlist_id == playlist) st.playlist_items
          ∙ all_listed st.playlist_items m)

  pub order_length :
      (st : Store)
      → IsOrder playlist ids st.playlist_items
      → UniqueItems st.playlist_items
      → length (list_items playlist st) ≡ length ids
  order_length st o u =
      let same : (k : String) → includes (ids_of playlist st.playlist_items) k ≡ includes ids k =
        λ k. includes-ids_of playlist k st.playlist_items ∙ sym (o.exact k) in
      let up =
        length-distinct (ids_of playlist st.playlist_items) ids
          (ids_of-distinct playlist st.playlist_items u) (λ k e. sym (same k) ∙ e) in
      let down =
        length-distinct ids (ids_of playlist st.playlist_items) o.unrepeated (λ k e. same k ∙ e) in
      omega (arith, up, down, listed_length st)
