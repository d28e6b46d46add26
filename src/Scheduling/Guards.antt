-- ===== src/Scheduling/Guards.antt =====
-- application/use-cases/schedules/shared.ts and shared/playlist-*-duration.ts: the checks that the
-- use cases make against the stored records and the clock.
use mathlib.Core.Bool.{Bool}
use wildfire.Base.{
  ℕ, ◌+◌, String, ◌==◌, not, true, false, Option, none, some, List, [], ◌∷◌, map, find, or_else,
  truthy, str_lt, Result, ok, err, validation, not_found, ◌>>◌, guard,
}
use wildfire.Base.Int.{ℤ, pos, negsuc}
use wildfire.Schedule.{Intl, ScheduleRecord, part_value, ◌+++◌}
use wildfire.Store.{
  Store, PlaylistRecord, PlaylistItemRecord, ContentRecord, ContentType, ContentStatus,
}
use wildfire.Store.Contents.{find_content, find_content_for_owner, find_contents}
use wildfire.Store.Playlists.{find_playlist, find_playlist_for_owner, list_items}

unfoldable pub find_playlist_scoped : String → Option String → Store → Option PlaylistRecord
find_playlist_scoped playlist_id owner_id st = elim (truthy owner_id) [
  | none ↦ find_playlist playlist_id st
  | some owner ↦ find_playlist_for_owner playlist_id owner st
]

unfoldable pub find_content_scoped : String → Option String → Store → Option ContentRecord
find_content_scoped content_id owner_id st = elim (truthy owner_id) [
  | none ↦ find_content content_id st
  | some owner ↦ find_content_for_owner content_id owner st
]

abbrev found {ℓ} : {A : Type ℓ} → Option A → Result (Unit {0})
found none = err (not_found "Schedule not found")
found (some _) = ok tt

-- A schedule without a creator is judged by the owners of its targets.
unfoldable pub ensure_schedule_visible_to_owner :
    Option String → ScheduleRecord → Store → Result (Unit {0})
ensure_schedule_visible_to_owner owner_id schedule st = elim (truthy owner_id) [
  | none ↦ ok tt
  | some owner ↦ elim (truthy schedule.created_by) [
    | some creator ↦ guard (creator == owner) (not_found "Schedule not found")
    | none ↦ do
      elim (truthy schedule.playlist_id) [
        | none ↦ ok tt
        | some id ↦ found (find_playlist_scoped id owner_id st)
      ]
      elim (truthy schedule.content_id) [
        | none ↦ ok tt
        | some id ↦ found (find_content_scoped id owner_id st)
      ]
  ]
]

abbrev part_or_empty : String → List (String × String) → String
part_or_empty type parts = or_else (part_value type parts) ""

unfoldable pub format_date_time_in_timezone : Intl → ℕ → String → String × String
format_date_time_in_timezone intl date timezone =
    let parts = intl.date_time_parts date timezone in
    (
      part_or_empty "year" parts
          +++ "-"
          +++ part_or_empty "month" parts
          +++ "-"
          +++ part_or_empty "day" parts,
      part_or_empty "hour" parts +++ ":" +++ part_or_empty "minute" parts,
    )

unfoldable pub ensure_schedule_start_is_not_in_past :
    Intl → String → String → String → ℕ → Result (Unit {0})
ensure_schedule_start_is_not_in_past intl start_date start_time timezone now =
    let (date, time) = format_date_time_in_timezone intl now timezone in
    guard (not (str_lt (start_date +++ "T" +++ start_time) (date +++ "T" +++ time)))
      (validation "Schedule start time cannot be in the past.")

abbrev is_flash : ContentType → Bool
is_flash ContentType.flash = true
is_flash _ = false

abbrev is_ready : ContentStatus → Bool
is_ready ContentStatus.ready = true
is_ready _ = false

unfoldable pub ensure_flash_content_is_schedulable : ContentRecord → Result (Unit {0})
ensure_flash_content_is_schedulable content = do
  guard (is_flash content.type) (validation "Flash schedules require a FLASH content item")
  guard (is_ready content.status) (validation "Only ready flash content can be scheduled")

-- `Number.isFinite(d) && d > 0 ? Math.trunc(d) : 1`, on the integers of the column.
abbrev pub item_seconds : ℤ → ℕ
item_seconds (pos ℕ.zero) = 1
item_seconds (pos (ℕ.suc n)) = ℕ.suc n
item_seconds (negsuc _) = 1

-- An item whose content is not found counts nothing.
unfoldable pub effective_duration : List PlaylistItemRecord → List ContentRecord → ℕ
effective_duration [] contents = 0
effective_duration (item ∷ items) contents =
    elim (find (λ c. c.id == item.content_id) contents) [
      | none ↦ 0
      | some _ ↦ item_seconds item.duration
    ]
    + effective_duration items contents

unfoldable pub required_min_duration : String → Store → ℕ
required_min_duration playlist_id st =
    let items = list_items playlist_id st in
    effective_duration items (find_contents (map (λ i. i.content_id) items) st)
