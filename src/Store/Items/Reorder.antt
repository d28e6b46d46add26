-- ===== src/Store/Items/Reorder.antt =====
-- `reorderItems`: its two batches give each item its place, and only an order of the items is taken.
use wildfire.Base.{
  ℕ, ◌+◌, ◌≤◌, ◌≡◌, refl, sym, ◌∙◌, inl, inr, String, ◌==◌, true, false, not, ◌||◌, Option, none,
  some, List, [], ◌∷◌, map, every, All, arith, Bool-cases, length, includes, has_duplicates, eq_iff,
  eq_refl, eqb, eqb_iff, ok, err, fault, ok-injective,
}
use wildfire.Base.Any.{any_witness, Bool-ext, and_intro}
use wildfire.Base.Int.{pos, eq_ℤ}
use wildfire.Store.{Store, PlaylistItemRecord}
use wildfire.Store.Playlists.{list_items}
use wildfire.Store.Items.{
  Rows, applied, conflicts, refused, placed, place_from, index_of, update_each, reorder_rows,
  reorder_items,
}
use wildfire.Store.Items.Assign.{UniqueItems, index_of-lt}
use wildfire.Store.Items.Distinct.{
  every-any, includes-of_length, ids_of, includes-ids_of, ids_of-distinct,
}
use wildfire.Store.Items.Order.{
  IsLow, reorder_rows-placed, order_members, listed_ids, listed_length, every_listed, order_length,
  IsOrder,
}

placed_nowhere : (rows : Rows) → map (applied (place_from 1 [])) rows ≡ rows
unfolding index_of
placed_nowhere [] = refl
placed_nowhere (r ∷ rs) = rw (placed_nowhere rs) refl

nothing_to_place :
    (ids : List String) (rows : Rows)
    → length ids ≡ 0
    → map (applied (place_from 1 ids)) rows ≡ rows
nothing_to_place [] rows e = placed_nowhere rows
nothing_to_place (x ∷ xs) rows e = absurd (omega (arith, e))

-- An order of some items passes the tests, and is worth what its batches give.
order_passes :
    (playlist : String) (ids : List String) (st : Store) {answer : Option Rows}
    → UniqueItems st.playlist_items
    → IsOrder playlist ids st.playlist_items
    → eqb (length (list_items playlist st)) 0 ≡ false
    → reorder_rows ids st.playlist_items ≡ answer
    → reorder_items playlist ids st ≡ (elim answer [
      | none ↦ (err (fault "playlist_items_playlist_id_sequence_unique"), st)
      | some rows ↦ (ok true, record st { playlist_items = rows })
    ])
unfolding reorder_items
order_passes playlist ids st u o some_there batches =
    let m = order_members playlist ids st.playlist_items o u in
    rw (some_there, order_length playlist ids st o u, o.unrepeated, every_listed playlist ids st m)
      (rw ((eqb_iff (length ids) (length ids)).1 refl) (rw (batches, reorder_rows) refl))

-- An order of the playlist's items, none of which stands beyond 10000, is taken: each item then
-- stands at its place in the order, from 1 on, and no other row and no other column has changed.
pub reorder_items-IsOrder :
    (playlist : String) (ids : List String) (st : Store)
    → UniqueItems st.playlist_items
    → IsOrder playlist ids st.playlist_items
    → All (IsLow playlist) st.playlist_items
    → length ids ≤ 10000
    → reorder_items playlist ids st
      ≡ (ok true, record st { playlist_items = map (applied (place_from 1 ids)) st.playlist_items })
unfolding reorder_items
reorder_items-IsOrder playlist ids st u o low short =
    let m = order_members playlist ids st.playlist_items o u in
    let same = order_length playlist ids st o u in
    elim (Bool-cases (eqb (length (list_items playlist st)) 0)) [
      | inl none_there ↦
          let no_ids : length ids ≡ 0 = ground arith in
          rw (none_there, no_ids, nothing_to_place ids st.playlist_items no_ids) refl
      | inr some_there ↦
          order_passes playlist ids st u o some_there
            (reorder_rows-placed playlist ids st.playlist_items m low u short)
    ]

ids-nil : (xs : List String) (k : String) → length xs ≡ 0 → includes xs k ≡ false
ids-nil [] k e = refl
ids-nil (x ∷ xs) k e = absurd (omega (arith, e))

module _ (playlist : String) (ids : List String) (st : Store) where
  listed_in :
      every (λ (i : PlaylistItemRecord). includes ids i.id) (list_items playlist st) ≡ true
      → (k : String) → includes (ids_of playlist st.playlist_items) k ≡ true
      → includes ids k ≡ true
  listed_in e k h =
      let (i, named, found) =
        any_witness (λ (i : PlaylistItemRecord). i.id == k) (list_items playlist st)
          (listed_ids playlist ids st k ∙ h) in
      elim (Bool-cases (includes ids k)) [
        | inl there ↦ there
        | inr missing ↦
            let bad =
              found (λ i. not (includes ids i.id))
                (rw ((eq_iff i.id k).0 named) (rw missing refl)) in
            absurd (
              cc (
                e,
                bad,
                every-any (λ (i : PlaylistItemRecord). includes ids i.id) (list_items playlist st),
              ))
      ]

  tested-IsOrder :
      UniqueItems st.playlist_items
      → length (list_items playlist st) ≡ length ids
      → has_duplicates ids ≡ false
      → every (λ (i : PlaylistItemRecord). includes ids i.id) (list_items playlist st) ≡ true
      → IsOrder playlist ids st.playlist_items
  tested-IsOrder u same distinct e =
      let known = ids_of playlist st.playlist_items in
      record {
        unrepeated = distinct;
        exact = λ k.
            Bool-ext (includes ids k) (includes known k)
              (includes-of_length known ids k (ids_of-distinct playlist st.playlist_items u)
                (listed_in e) (sym (listed_length playlist ids st) ∙ same))
              (listed_in e k)
            ∙ includes-ids_of playlist k st.playlist_items;
      }

-- Only an order is taken: where the answer is yes, the ids were those of the playlist's items.
pub reorder_items-taken :
    (playlist : String) (ids : List String) (st : Store)
    → UniqueItems st.playlist_items
    → (reorder_items playlist ids st).0 ≡ ok true
    → IsOrder playlist ids st.playlist_items
unfolding reorder_items
reorder_items-taken playlist ids st u e =
    let size = length (list_items playlist st) in
    let all_there =
      every (λ (i : PlaylistItemRecord). includes ids i.id) (list_items playlist st) in
    elim (Bool-cases (eqb size 0)) [
      | inl none_there ↦
          let no_ids = ok-injective (rw none_there at e) in
          record {
            unrepeated = no_repeats ids (ground arith);
            exact = λ k.
                ids-nil ids k (ground arith)
                ∙ sym (
                    ids-nil (ids_of playlist st.playlist_items) k
                      (sym (listed_length playlist ids st) ∙ (eqb_iff size 0).0 none_there))
                ∙ includes-ids_of playlist k st.playlist_items;
          }
      | inr some_there ↦
          elim (Bool-cases (not (eqb size (length ids)) || has_duplicates ids || not all_there)) [
            | inl bad ↦ absurd (cc (ok-injective (rw (some_there, bad) at e)))
            | inr good ↦
                tested-IsOrder playlist ids st u ((eqb_iff size (length ids)).0 (ground arith))
                  (ground arith) (ground arith)
          ]
    ]
  where
    no_repeats : (xs : List String) → length xs ≡ 0 → has_duplicates xs ≡ false
    no_repeats [] h = refl
    no_repeats (x ∷ xs) h = absurd (omega (arith, h))

first_refused :
    (playlist : String) (ids : List String) (r s : PlaylistItemRecord) (rs : Rows) (i : ℕ)
    → r.playlist_id ≡ playlist
    → s.playlist_id ≡ playlist
    → index_of r.id ids ≡ some i
    → s.sequence ≡ pos (10001 + i)
    → (rows : Rows) → rows ≡ r ∷ s ∷ rs
    → reorder_rows ids rows ≡ none
unfolding reorder_rows update_each
first_refused playlist ids r s rs i rp sp place taken rows table =
    let clash : conflicts (placed 10001 i r) s ≡ true =
      rw (rp, sp, taken)
        (and_intro (playlist == playlist) (eq_ℤ (pos (10001 + i)) (pos (10001 + i)))
          (eq_refl playlist) (ground arith)) in
    let no : refused (place_from 10001 ids r) (s ∷ rs) ≡ true =
      rw (place, place_from) (rw clash refl) in
    let stops : update_each (place_from 10001 ids) [] (r ∷ s ∷ rs) ≡ none =
      rw (no, update_each) refl in
    rw table (rw (stops, reorder_rows) refl)

-- Where the first row that the first batch reaches is moved to a place beyond 10000 at which
-- another item of its playlist stands, the whole reordering fails, though the ids are an order.
pub reorder_items-collides :
    (playlist : String) (ids : List String) (st : Store) (r s : PlaylistItemRecord) (rs : Rows)
    (i : ℕ)
    → st.playlist_items ≡ r ∷ s ∷ rs
    → UniqueItems st.playlist_items
    → IsOrder playlist ids st.playlist_items
    → r.playlist_id ≡ playlist
    → s.playlist_id ≡ playlist
    → index_of r.id ids ≡ some i
    → s.sequence ≡ pos (10001 + i)
    → reorder_items playlist ids st ≡ (err (fault "playlist_items_playlist_id_sequence_unique"), st)
reorder_items-collides playlist ids st r s rs i table u o rp sp place taken =
    order_passes playlist ids st u o
      (ground (arith, index_of-lt r.id ids place, order_length playlist ids st o u))
      (first_refused playlist ids r s rs i rp sp place taken st.playlist_items table)
