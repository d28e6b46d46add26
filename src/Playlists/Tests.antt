-- ===== src/Playlists/Tests.antt =====
-- Runs of the theorems on a playlist with two items.
use wildfire.Base.{
  ◌↔◌, ◌==◌, not, filter, ℕ, ◌≡◌, refl, String, true, false, none, some, List, [], ◌∷◌, map, All,
  ok, err, fault, not_found, arith, sort_by, insert_by, guard, or_throw, ◌>>=◌, check_each,
  distinct, eq_iff,
}
use wildfire.Base.Int.{pos, ltb_ℤ, ◌+ℤ◌}
use wildfire.Schedule.{ScheduleRecord}
use wildfire.Store.{
  Store, PlaylistRecord, PlaylistItemRecord, ContentRecord, ContentType, ContentStatus,
  PlaylistStatus,
}
use wildfire.Store.Contents.{find_contents}
use wildfire.Store.Schedules.{list_by_playlist, map_schedule_rows}
use wildfire.Store.Playlists.{list_items, find_playlist, create_playlist_row, delete_playlist_row}
use wildfire.Store.Items.{
  Rows, applied, place_from, index_of, update_each, reorder_rows, reorder_items,
}
use wildfire.Store.Items.Reorder.{
  reorder_items-IsOrder, reorder_items-taken, reorder_items-collides,
}
use wildfire.Store.Items.Order.{IsOrder}
use wildfire.Store.Replace.{ItemWrite, existing, new, replace_items_atomic}
use wildfire.Store.Replace.Described.{IsWritten}
use wildfire.Store.Replace.Fits.{replace_items_atomic-IsWritten}
use mathlib.Core.List.{Memᴰ}
use wildfire.Scheduling.Guards.{find_playlist_scoped, format_date_time_in_timezone}
use wildfire.Scheduling.Mutations.{Deps, Call}
use wildfire.Playlists.{base_duration, find_contents_scoped}
use wildfire.Playlists.Items.{within_total, add_playlist_item, plan_update, update_playlist_item}
use wildfire.Playlists.Replacement.{
  NewItem, plan_replace, proposed_duration, requested_contents, replace_playlist_items,
  create_playlist,
}
use wildfire.Playlists.Whole.{plan_delete, delete_schedules, delete_playlist}
use wildfire.Playlists.Reach.{here, next, item_added, item_updated, Reach-within_total}
use wildfire.Playlists.Deletion.{IsGone, AllFinished, delete_playlist-IsGone}
use wildfire.Playlists.Creation.{create_playlist-refused}
use wildfire.Playlists.Refusals.{ItemCall, served, refused-unchanged}

abbrev item : String → ℕ → ℕ → PlaylistItemRecord
item id sequence duration = record {
  id = id;
  playlist_id = "p1";
  content_id = "c1";
  sequence = pos sequence;
  duration = pos duration;
  loop = false;
}

abbrev image : ContentRecord
image = record {
  id = "c1";
  title = "Image";
  type = ContentType.image;
  status = ContentStatus.ready;
  owner_id = "u1";
  duration = none;
  flash_message = none;
  flash_tone = none;
  updated_at = "2025";
  unused_since = none;
}

abbrev playlist : PlaylistRecord
playlist = record {
  id = "p1";
  name = "List";
  description = none;
  owner_id = "u1";
  status = PlaylistStatus.draft;
  show_counter = false;
  created_at = "2025";
  updated_at = "2025";
  unused_since = none;
}

abbrev holding : Rows → Store
holding rows = record {
  schedules = [];
  playlists = playlist ∷ [];
  playlist_items = rows;
  contents = image ∷ [];
  displays = [];
  users = (record { id = "u1"; username = "ann"; name = "Ann" }) ∷ [];
  emergency_slots = [];
  published = [];
}

abbrev two : Store
two = holding (item "a" 1 20 ∷ item "b" 2 30 ∷ [])

swapped : IsOrder "p1" ("b" ∷ "a" ∷ []) two.playlist_items
swapped = record { unrepeated = refl; exact = λ id. ground (arith, eq_iff "a" id, eq_iff "b" id) }

reorder_items-IsOrder_example : reorder_items "p1" ("b" ∷ "a" ∷ []) two ≡ (
  ok true,
  record two { playlist_items = map (applied (place_from 1 ("b" ∷ "a" ∷ []))) two.playlist_items },
)
reorder_items-IsOrder_example =
    reorder_items-IsOrder "p1" ("b" ∷ "a" ∷ []) two ((refl, tt), (tt, tt)) swapped
      ((λ _. refl), ((λ _. refl), tt)) (omega arith)

reorder_items-taken_example : IsOrder "p1" ("b" ∷ "a" ∷ []) two.playlist_items
unfolding reorder_items reorder_rows update_each index_of list_items sort_by insert_by
reorder_items-taken_example =
    reorder_items-taken "p1" ("b" ∷ "a" ∷ []) two ((refl, tt), (tt, tt)) refl

-- The second item was put at a place where the first is moved to.
abbrev far : Store
far = holding (item "a" 1 20 ∷ item "b" 10002 30 ∷ [])

reorder_items-collides_example :
    reorder_items "p1" ("b" ∷ "a" ∷ []) far
    ≡ (err (fault "playlist_items_playlist_id_sequence_unique"), far)
unfolding index_of
reorder_items-collides_example =
    reorder_items-collides "p1" ("b" ∷ "a" ∷ []) far (item "a" 1 20) (item "b" 10002 30) [] 1 refl
      ((refl, tt), (tt, tt))
      (record { unrepeated = refl; exact = λ id. ground (arith, eq_iff "a" id, eq_iff "b" id) })
      refl refl refl refl

-- The first item goes, a new one comes before the second, which is made longer.
abbrev writes : List ItemWrite
writes = new "c1" (pos 5) none ∷ existing "b" (pos 40) none ∷ []

replace_items_atomic-IsWritten_example :
    ((replace_items_atomic "p1" (λ _. "n") writes "2026" two).0
      ≡ ok (list_items "p1" (replace_items_atomic "p1" (λ _. "n") writes "2026" two).1))
    × ((r : PlaylistItemRecord)
        → r.playlist_id ≡ "p1"
        → Memᴰ r (replace_items_atomic "p1" (λ _. "n") writes "2026" two).1.playlist_items
          ↔ IsWritten "p1" (λ _. "n") writes two.playlist_items r)
    × (filter
          (λ r. not (r.playlist_id == "p1"))
          (replace_items_atomic "p1" (λ _. "n") writes "2026" two).1.playlist_items
        ≡ [])
unfolding list_items sort_by insert_by
replace_items_atomic-IsWritten_example =
    replace_items_atomic-IsWritten "p1" (λ _. "n") writes "2026" two 2 ((refl, tt), (tt, tt)) refl
      (refl, tt) (refl, (refl, tt)) (omega arith, (omega arith, tt)) (omega arith)

abbrev added : Store
added = (add_playlist_item "a" "2026" none "p1" "c1" (pos 1) (pos 20) none (holding [])).1

abbrev lengthened : Store
lengthened = (update_playlist_item "p1" none "a" none (some (pos 61)) none added).1

Reach-within_total_example :
    (within_total (base_duration (list_items "p1" lengthened)) ≡ true)
    × All (λ (i : PlaylistItemRecord). ltb_ℤ (pos 0) i.duration ≡ true) (list_items "p1" lengthened)
Reach-within_total_example = Reach-within_total (holding []) "p1" refl (
    next (next here (item_added "a" "2026" none "p1" "c1" (pos 1) (pos 20) none tt))
      (item_updated "p1" none "a" none (some (pos 61)) none))

refused-unchanged_example :
    (served (ItemCall.update "p1" none "x" none (some (pos 10)) none) two).1 ≡ two
unfolding update_playlist_item plan_update find_playlist_scoped find_playlist guard or_throw ◌>>=◌
    list_items sort_by insert_by
refused-unchanged_example =
    refused-unchanged (ItemCall.update "p1" none "x" none (some (pos 10)) none) two
      {e = not_found "Playlist item not found"} refl

-- The content of the one item is not there.
abbrev unshowable : List NewItem
unshowable = (record { content_id = "c9"; duration = pos 10; loop = none }) ∷ []

create_playlist-refused_example :
    ((create_playlist "p2" (λ _. "n") "2026" "New" none none "u1" none unshowable two).1.playlists
      ≡ two.playlists)
    × ((create_playlist "p2"
          (λ _. "n")
          "2026"
          "New"
          none
          none
          "u1"
          none
          unshowable
          two).1.playlist_items
        ≡ two.playlist_items)
    × ((create_playlist "p2" (λ _. "n") "2026" "New" none none "u1" none unshowable two).1.schedules
        ≡ two.schedules)
unfolding create_playlist create_playlist_row replace_playlist_items plan_replace proposed_duration
    requested_contents find_playlist_scoped find_playlist find_contents guard or_throw check_each
    ◌>>=◌ ◌+ℤ◌ list_items sort_by insert_by distinct find_contents_scoped
create_playlist-refused_example =
    create_playlist-refused "p2" (λ _. "n") "2026" "New" none none "u1" none unshowable two
      {e = not_found "Content not found"} ((refl, tt), (tt, tt))
      (record { unknown = (refl, tt); itemless = (refl, (refl, tt)); unscheduled = refl }) refl

abbrev deps : Deps
deps = record {
  intl = record {
    time_parts = λ _ _. [];
    date_parts = λ _ _. [];
    date_time_parts = λ _ _. [];
    locale_le = λ _ _. true;
  };
  newer = λ _ _. true;
  timezone = none;
  reconciles = true;
  has_users = false;
}

abbrev call : Call
call = record { now = 0; uuid = "n"; at = "2026" }

delete_playlist-IsGone_example :
    IsGone "p1" none (delete_playlist deps call "p1" none two).1
    × ((schedules : List ScheduleRecord) × (list_by_playlist "p1" two ≡ ok schedules)
        × AllFinished deps call.now schedules)
unfolding delete_playlist plan_delete delete_schedules delete_playlist_row list_by_playlist
    map_schedule_rows find_playlist_scoped find_playlist guard or_throw ◌>>=◌
    format_date_time_in_timezone
delete_playlist-IsGone_example = delete_playlist-IsGone deps call "p1" none two {u = tt} refl
