-- ===== src/Store/Items.antt =====
-- infrastructure/db/repositories/playlist.repo.ts: the writes to playlist_items, whose rows have a
-- unique index on the playlist and the sequence. An `UPDATE` of several rows goes row by row, in the
-- order of the list, and the index is checked at each row; a statement that fails rolls back its
-- transaction. Random ids and the time as text are arguments.
pub mod Order
pub mod Batches
pub mod Assign
pub mod Distinct
pub mod Moved
pub mod Reorder
use mathlib.Core.Option
use wildfire.Base.{
  ℕ, suc, ◌+◌, String, ◌==◌, Bool, true, false, not, ◌&&◌, ◌||◌, Option, none, some, or_else, List,
  [], ◌∷◌, ◌++◌, map, any, every, find, filter, length, eqb, includes, distinct, has_duplicates,
  if◌then◌else◌, Result, ok, err, fault, validation, ltb, leb,
}
use wildfire.Base.Int.{ℤ, pos, negsuc, eq_ℤ, max_ℤ, ◌+ℤ◌}
use wildfire.Store.{Store, PlaylistItemRecord, PlaylistRecord, ContentRecord}
use wildfire.Store.Contents.{mark_content_used, refresh_content_unused_since}
use wildfire.Store.Playlists.{list_items}

abbrev pub Rows : Type 0
Rows = List PlaylistItemRecord

-- `playlist_items_playlist_id_sequence_unique`
abbrev pub conflicts : PlaylistItemRecord → PlaylistItemRecord → Bool
conflicts a b = a.playlist_id == b.playlist_id && eq_ℤ a.sequence b.sequence

-- The columns `sequence` and `duration` are `INT`s of 32 bits.
abbrev pub fits_int : ℤ → Bool
fits_int (pos n) = leb n 2147483647
fits_int (negsuc n) = ltb n 2147483648

abbrev pub fits_columns : PlaylistItemRecord → Bool
fits_columns r = fits_int r.sequence && fits_int r.duration

abbrev pub out_of_range : String
out_of_range = "Out of range value for column"

abbrev pub no_referenced_row : String
no_referenced_row = "a foreign key constraint fails"

abbrev pub applied :
    (PlaylistItemRecord → Option PlaylistItemRecord) → PlaylistItemRecord → PlaylistItemRecord
applied change r = or_else (change r) r

abbrev pub refused : Option PlaylistItemRecord → Rows → Bool
refused none others = false
refused (some r) others = any (conflicts r) others

-- The rows done, and those to come. `none`: the index refuses a row.
unfoldable pub update_each :
    (PlaylistItemRecord → Option PlaylistItemRecord) → Rows → Rows → Option Rows
update_each change done [] = some done
update_each change done (r ∷ rs) = elim (refused (change r) (done ++ rs)) [
  | true ↦ none
  | false ↦ update_each change (done ++ applied change r ∷ []) rs
]

-- The place of an id in a list.
unfoldable pub index_of : String → List String → Option ℕ
index_of id [] = none
index_of id (x ∷ xs) = if x == id then some 0 else Option.map suc (index_of id xs)

unfoldable pub find_item : String → Store → Option PlaylistItemRecord
find_item id st = find (λ i. i.id == id) st.playlist_items

abbrev pub sequence_taken : String
sequence_taken = "Sequence already exists in playlist"

-- The foreign keys of an item.
abbrev pub keys_there : PlaylistItemRecord → Store → Bool
keys_there item st =
    any (λ (p : PlaylistRecord). p.id == item.playlist_id) st.playlists
    && any (λ (c : ContentRecord). c.id == item.content_id) st.contents

unfoldable pub add_item :
    (id playlist_id content_id : String)
    → ℤ
    → ℤ
    → Bool
    → String
    → Store
    → Result PlaylistItemRecord × Store
add_item id playlist_id content_id sequence duration loop at st =
    let item : PlaylistItemRecord = record {
      id = id;
      playlist_id = playlist_id;
      content_id = content_id;
      sequence = sequence;
      duration = duration;
      loop = loop;
    } in
    if not (fits_columns item)
    then (err (fault out_of_range), st)
    else if any (conflicts item) st.playlist_items
    then (err (validation sequence_taken), st)
    else if not (keys_there item st)
    then (err (fault no_referenced_row), st)
    else (
      ok item,
      mark_content_used (content_id ∷ []) at
          (record st { playlist_items = item ∷ st.playlist_items }),
    )

-- The row `i` with what is given, and what was read for the rest.
abbrev pub with_values :
    Option ℤ → Option ℤ → Option Bool → PlaylistItemRecord → PlaylistItemRecord → PlaylistItemRecord
with_values sequence duration loop existing i = record i {
  sequence = or_else sequence existing.sequence;
  duration = or_else duration existing.duration;
  loop = or_else loop existing.loop;
}

-- A sequence that is taken is not translated here, as it is on insertion.
unfoldable pub update_item :
    String → Option ℤ → Option ℤ → Option Bool → Store → Result (Option PlaylistItemRecord) × Store
unfolding find_item update_each
update_item id sequence duration loop st = elim (find_item id st) [
  | none ↦ (ok none, st)
  | some existing ↦
      if not (fits_columns (with_values sequence duration loop existing existing))
      then (err (fault out_of_range), st)
      else elim (update_each
          (λ i. if i.id == id then some (with_values sequence duration loop existing i) else none)
          [] st.playlist_items) [
            | none ↦ (err (fault "playlist_items_playlist_id_sequence_unique"), st)
            | some rows ↦
                let st' : Store = record st { playlist_items = rows } in
                (ok (find_item id st'), st')
          ]
]

abbrev pub placed : ℕ → ℕ → PlaylistItemRecord → PlaylistItemRecord
placed base i r = record r { sequence = pos (base + i) }

-- `CASE WHEN id = … THEN base + i END`
abbrev pub place_from : ℕ → List String → PlaylistItemRecord → Option PlaylistItemRecord
place_from base ids r = Option.map (λ i. placed base i r) (index_of r.id ids)

-- The two batches of `reorderItems`.
unfoldable pub reorder_rows : List String → Rows → Option Rows
unfolding update_each index_of
reorder_rows ids rows = elim (update_each (place_from 10001 ids) [] rows) [
  | none ↦ none
  | some moved ↦ update_each (place_from 1 ids) [] moved
]

unfoldable pub reorder_items : String → List String → Store → Result Bool × Store
unfolding reorder_rows
reorder_items playlist_id ids st =
    let existing = list_items playlist_id st in
    if eqb (length existing) 0
    then (ok (eqb (length ids) 0), st)
    else if not (eqb (length existing) (length ids))
        || has_duplicates ids
        || not (every (λ (i : PlaylistItemRecord). includes ids i.id) existing)
    then (ok false, st)
    else elim (reorder_rows ids st.playlist_items) [
      | none ↦ (err (fault "playlist_items_playlist_id_sequence_unique"), st)
      | some rows ↦ (ok true, record st { playlist_items = rows })
    ]

-- The `bool` says whether a row was deleted.
unfoldable pub delete_item : String → String → Store → Bool × Store
unfolding find_item
delete_item id at st =
    let deleted = any (λ i. i.id == id) st.playlist_items in
    let st' : Store = record st {
      playlist_items = filter (λ i. not (i.id == id)) st.playlist_items;
    } in
    (
      deleted,
      elim (find_item id st) [
        | none ↦ st'
        | some existing ↦
            if deleted then refresh_content_unused_since (existing.content_id ∷ []) at st' else st'
      ],
    )
