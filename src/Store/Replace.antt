-- ===== src/Store/Replace.antt =====
-- `replaceItemsAtomic` of infrastructure/db/repositories/playlist.repo.ts: the items of a playlist
-- are replaced by a list in which old items stand by their ids. `uuid` gives the random id of the
-- new item at a place.
pub mod Asked
pub mod Writes
pub mod Batches
pub mod Insertion
pub mod Kept
pub mod Atomic
pub mod Described
pub mod Fits
use mathlib.Core.Option
use wildfire.Base.{
  ℕ, suc, ◌+◌, max, String, ◌==◌, Bool, true, false, not, ◌&&◌, ◌||◌, Option, none, some, or_else,
  List, [], ◌∷◌, ◌++◌, map, any, find, filter, length, includes, distinct, if◌then◌else◌, Result,
  ok, err, validation, every, fault,
}
use wildfire.Base.Int.{ℤ, pos, pos_part}
use wildfire.Store.{Store, PlaylistItemRecord, PlaylistRecord, ContentRecord}
use wildfire.Store.Contents.{mark_content_used, refresh_content_unused_since}
use wildfire.Store.Playlists.{list_items}
use wildfire.Store.Items.{
  Rows, conflicts, update_each, index_of, place_from, sequence_taken, fits_int, fits_columns,
  out_of_range, no_referenced_row,
}

-- `PlaylistItemAtomicWriteInput`: an item that is kept, by its id, or a new one, by its content.
pub data ItemWrite : Type 0 where
  existing : String → ℤ → Option Bool → ItemWrite
  new : String → ℤ → Option Bool → ItemWrite

abbrev pub write_duration : ItemWrite → ℤ
write_duration (existing id duration loop) = duration
write_duration (new content duration loop) = duration

-- The ids of the items that are kept.
abbrev pub kept_ids : List ItemWrite → List String
kept_ids [] = []
kept_ids (existing id duration loop ∷ items) = id ∷ kept_ids items
kept_ids (new content duration loop ∷ items) = kept_ids items

-- Those of them that the playlist has.
abbrev pub known_ids : Rows → List ItemWrite → List String
known_ids old items =
    filter (λ id. any (λ (r : PlaylistItemRecord). r.id == id) old) (kept_ids items)

unfoldable pub max_sequence : Rows → ℕ
max_sequence [] = 0
max_sequence (r ∷ rs) = max (pos_part r.sequence) (max_sequence rs)

unfoldable pub temporary_base : Rows → List ItemWrite → ℕ
temporary_base old items = max_sequence old + length items + length old + 1000

-- The place and the write of the first item that keeps the id.
unfoldable pub write_of : String → List ItemWrite → Option (ℕ × ItemWrite)
write_of id [] = none
write_of id (new content duration loop ∷ items) =
    Option.map (λ (p : ℕ × ItemWrite). (suc p.0, p.1)) (write_of id items)
write_of id (existing other duration loop ∷ items) =
    if other == id
    then some (0, existing other duration loop)
    else Option.map (λ (p : ℕ × ItemWrite). (suc p.0, p.1)) (write_of id items)

abbrev pub written : ℕ × ItemWrite → PlaylistItemRecord → PlaylistItemRecord
written (place, existing id duration loop) r = record r {
  sequence = pos (1 + place);
  duration = duration;
  loop = or_else loop r.loop;
}
written (place, new content duration loop) r = r

-- The second batch, on the rows of the playlist that are kept.
unfoldable pub rewrite : Rows → List ItemWrite → PlaylistItemRecord → Option PlaylistItemRecord
unfolding write_of
rewrite old items r =
    if includes (known_ids old items) r.id
    then Option.map (λ p. written p r) (write_of r.id items)
    else none

abbrev pub new_row : String → String → ℕ → String → ℤ → Option Bool → PlaylistItemRecord
new_row playlist id place content duration loop = record {
  id = id;
  playlist_id = playlist;
  content_id = content;
  sequence = pos (1 + place);
  duration = duration;
  loop = or_else loop false;
}

-- The rows of the new items, by their places.
unfoldable pub new_rows : String → (ℕ → String) → ℕ → List ItemWrite → Rows
new_rows playlist uuid place [] = []
new_rows playlist uuid place (existing id duration loop ∷ items) =
    new_rows playlist uuid (suc place) items
new_rows playlist uuid place (new content duration loop ∷ items) =
    new_row playlist (uuid place) place content duration loop
    ∷ new_rows playlist uuid (suc place) items

-- An `INSERT` of several rows, which the index may refuse.
unfoldable pub insert_each : Rows → Rows → Option Rows
insert_each [] rows = some rows
insert_each (r ∷ rs) rows = elim (any (conflicts r) rows) [
  | true ↦ none
  | false ↦ insert_each rs (rows ++ r ∷ [])
]

abbrev pub new_contents : List ItemWrite → List String
new_contents [] = []
new_contents (existing id duration loop ∷ items) = new_contents items
new_contents (new content duration loop ∷ items) = content ∷ new_contents items

-- The batches on the rows that are kept.
unfoldable pub rewrite_kept : Rows → List ItemWrite → Rows → Option Rows
unfolding update_each
rewrite_kept old items rows = elim (known_ids old items) [
  | [] ↦ some rows
  | id ∷ ids ↦ elim (update_each (place_from (temporary_base old items) (id ∷ ids)) [] rows) [
    | none ↦ none
    | some moved ↦ update_each (rewrite old items) [] moved
  ]
]

-- The transaction on the rows.
unfoldable pub replace_rows : String → Rows → (ℕ → String) → List ItemWrite → Rows → Option Rows
unfolding rewrite_kept insert_each
replace_rows playlist old uuid items rows =
    let dropped = filter (λ (r : PlaylistItemRecord). not (includes (kept_ids items) r.id)) old in
    let left = filter (λ r. not (any (λ (d : PlaylistItemRecord). d.id == r.id) dropped)) rows in
    elim (rewrite_kept old items left) [
      | none ↦ none
      | some kept ↦ insert_each (new_rows playlist uuid 0 items) kept
    ]

-- The transaction and what follows it, where every value fits its column.
unfoldable pub write_replacement :
    String → (ℕ → String) → List ItemWrite → String → Store → Result Rows × Store
unfolding replace_rows
write_replacement playlist uuid items at st =
    let old = list_items playlist st in
    let dropped = filter (λ (r : PlaylistItemRecord). not (includes (kept_ids items) r.id)) old in
    elim (replace_rows playlist old uuid items st.playlist_items) [
      | none ↦ (err (validation sequence_taken), st)
      | some rows ↦
          let st' : Store = record st { playlist_items = rows } in
          let used = mark_content_used (new_contents items) at st' in
          let refreshed =
            refresh_content_unused_since (map (λ (r : PlaylistItemRecord). r.content_id) dropped) at
              used in
          (ok (list_items playlist refreshed), refreshed)
    ]

-- A statement in strict mode refuses a row with a value out of its column's range.
abbrev pub change_fits :
    (PlaylistItemRecord → Bool)
    → (PlaylistItemRecord → Option PlaylistItemRecord)
    → PlaylistItemRecord
    → Bool
change_fits fits change r = elim (change r) [ none ↦ true | some r' ↦ fits r' ]

-- What the two batches and the `INSERT` write fits the columns.
unfoldable pub all_fit : String → (ℕ → String) → Rows → List ItemWrite → Bool
unfolding rewrite new_rows temporary_base index_of
all_fit playlist uuid old items =
    every
      (change_fits (λ r. fits_int r.sequence)
        (place_from (temporary_base old items) (known_ids old items)))
      old
    && every (change_fits fits_columns (rewrite old items)) old
    && every fits_columns (new_rows playlist uuid 0 items)

-- The foreign keys of new items, to the playlist and to their contents.
unfoldable pub keys_exist : String → List ItemWrite → Store → Bool
keys_exist playlist items st =
    every
      (λ id.
        any (λ (p : PlaylistRecord). p.id == playlist) st.playlists
        && any (λ (c : ContentRecord). c.id == id) st.contents)
      (new_contents items)

-- A refusal rolls the transaction back, at whichever statement it is.
unfoldable pub replace_items_atomic :
    String → (ℕ → String) → List ItemWrite → String → Store → Result Rows × Store
unfolding write_replacement all_fit keys_exist
replace_items_atomic playlist uuid items at st =
    if not (all_fit playlist uuid (list_items playlist st) items)
    then (err (fault out_of_range), st)
    else if not (keys_exist playlist items st)
    then (err (fault no_referenced_row), st)
    else write_replacement playlist uuid items at st
