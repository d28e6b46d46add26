-- ===== src/Playlists.antt =====
-- domain/playlists/playlist.ts and application/use-cases/playlists/shared.ts: the rules on the items of
-- a playlist, and the events after a change. Durations and sequences are integers, as the request
-- schemas make them. A failure of the effects after a change is logged and not thrown.
pub mod Updated
pub mod Proposed
pub mod Rearranged
pub mod Effects
pub mod Items
pub mod Replacement
pub mod Whole
pub mod Totals
pub mod Budget
pub mod Changes
pub mod Owed
pub mod Replaced
pub mod Written
pub mod Reach
pub mod Deletion
pub mod Creation
pub mod Refusals
mod Tests
use wildfire.Base.{
  ℕ, String, Bool, true, false, not, ◌&&◌, Option, none, some, List, [], ◌∷◌, map, distinct, truthy,
  ltb, Result, ok, err, validation, guard,
}
use wildfire.Base.Int.{ℤ, pos, ltb_ℤ, ◌+ℤ◌}
use wildfire.Schedule.{ScheduleRecord}
use wildfire.Store.{
  Store, ContentRecord, ContentType, PlaylistItemRecord, publish, playlist_updated,
}
use wildfire.Store.Contents.{find_contents, find_contents_for_owner}
use wildfire.Store.Schedules.{list_by_playlist}

abbrev pub is_valid_sequence : ℤ → Bool
is_valid_sequence value = ltb_ℤ (pos 0) value

abbrev pub is_valid_duration : ℤ → Bool
is_valid_duration value = ltb_ℤ (pos 0) value

abbrev pub max_playlist_base_duration_seconds : ℤ
max_playlist_base_duration_seconds = pos 60

abbrev pub total_too_long : String
total_too_long = "Playlist total duration cannot exceed 60 seconds."

-- The sum of the durations, which `reduce` makes.
unfoldable pub base_duration : List PlaylistItemRecord → ℤ
base_duration [] = pos 0
base_duration (item ∷ items) = item.duration +ℤ base_duration items

abbrev is_flash : ContentType → Bool
is_flash ContentType.flash = true
is_flash _ = false

abbrev is_video : ContentType → Bool
is_video ContentType.video = true
is_video _ = false

unfoldable pub assert_playlist_eligible_content : ContentRecord → Result (Unit {0})
assert_playlist_eligible_content content = guard (not (is_flash content.type)) (
    validation
      "Flash content cannot be added to playlists. Schedule flash content with a flash schedule.")

abbrev pub resolve_playlist_item_loop : ContentRecord → Bool
resolve_playlist_item_loop content = is_video content.type

-- A duration that is 0 or missing bounds nothing.
abbrev longer_than : ℤ → Option ℕ → Bool
longer_than duration none = false
longer_than duration (some seconds) = ltb 0 seconds && ltb_ℤ (pos seconds) duration

unfoldable pub assert_playlist_item_duration_within_content : ContentRecord → ℤ → Result (Unit {0})
assert_playlist_item_duration_within_content content duration =
    guard (not (is_video content.type && longer_than duration content.duration))
      (validation "Video playlist item duration cannot exceed the source video duration.")

-- `loop && content.type !== "VIDEO"` is refused.
unfoldable pub assert_loop_supported : ContentRecord → Option Bool → Result (Unit {0})
assert_loop_supported content none = ok tt
assert_loop_supported content (some loop) =
    guard (not (loop && not (is_video content.type)))
      (validation "Loop is only supported for video playlist items.")

-- `findByIdsForOwner` where an owner is given, else `findByIds`.
unfoldable pub find_contents_scoped : List String → Option String → Store → List ContentRecord
find_contents_scoped ids owner_id st = elim (truthy owner_id) [
  | none ↦ find_contents ids st
  | some owner ↦ find_contents_for_owner ids owner st
]

abbrev publish_each : String → List String → Store → Store
publish_each reason [] st = st
publish_each reason (display ∷ displays) st =
    publish_each reason displays (publish (playlist_updated display reason) st)

-- To each display that a schedule shows the playlist on, once.
unfoldable pub publish_playlist_update_events : String → String → Store → Result (Unit {0}) × Store
publish_playlist_update_events playlist_id reason st = elim (list_by_playlist playlist_id st) [
  | err e ↦ (err e, st)
  | ok schedules ↦ (
    ok tt,
    publish_each reason (distinct (map (λ (s : ScheduleRecord). s.display_id) schedules)) st,
  )
]

abbrev pub run_playlist_post_mutation_effects : String → String → Store → Store
run_playlist_post_mutation_effects playlist_id reason st =
    (publish_playlist_update_events playlist_id reason st).1

-- What the view of an item is made from.
abbrev pub ItemView : Type 0
ItemView = PlaylistItemRecord × ContentRecord
