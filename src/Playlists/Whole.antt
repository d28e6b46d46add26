-- ===== src/Playlists/Whole.antt =====
-- application/use-cases/playlists: update-playlist.use-case.ts and delete-playlist.use-case.ts.
use wildfire.Base.{
  ℕ, String, Bool, true, false, not, Option, none, some, List, [], ◌∷◌, map, filter, length, eqb,
  distinct, or_else, if◌then◌else◌, Result, ok, err, not_found, fault, playlist_in_use, guard,
  or_throw, ◌>>=◌, ◌>>◌,
}
use wildfire.Schedule.{ScheduleRecord}
use wildfire.Store.{Store, PlaylistRecord, publish, schedule_updated}
use wildfire.Store.Playlists.{list_items, update_playlist_row, delete_playlist_row}
use wildfire.Store.Schedules.{list_by_playlist, delete_row}
use wildfire.Scheduling.{is_schedule_finished}
use wildfire.Scheduling.Guards.{find_playlist_scoped, format_date_time_in_timezone}
use wildfire.Scheduling.Mutations.{Deps, Call}
use wildfire.Playlists.{base_duration, publish_playlist_update_events}
use wildfire.Playlists.Replacement.{PlaylistView, find_user}

abbrev pub finish_metadata :
    PlaylistRecord → Result (Unit {0}) × Store → Result PlaylistView × Store
finish_metadata playlist (err e, st) = (err e, st)
finish_metadata playlist (ok _, st) = (
  ok (record {
    playlist = playlist;
    owner = find_user playlist.owner_id st;
    items_count = length (list_items playlist.id st);
    total_duration = base_duration (list_items playlist.id st);
  }),
  st,
)

abbrev pub finish_update : Option PlaylistRecord × Store → Result PlaylistView × Store
finish_update (none, st) = (err (not_found "Playlist not found"), st)
finish_update (some playlist, st) =
    finish_metadata playlist
      (publish_playlist_update_events playlist.id "playlist_metadata_updated" st)

unfoldable pub update_playlist :
    (at id : String)
    → Option String
    → Option String
    → Option (Option String)
    → Option Bool
    → Store
    → Result PlaylistView × Store
update_playlist at id owner_id name description show_counter st =
    finish_update (update_playlist_row id owner_id name description show_counter at st)

abbrev pub unfinished : String → String → ScheduleRecord → Bool
unfinished date time s = not (is_schedule_finished s.end_date s.end_time date time)

-- The schedules that go with the playlist, all of them finished.
unfoldable pub plan_delete :
    Deps → ℕ → String → Option String → Store → Result (List ScheduleRecord)
plan_delete deps now id owner_id st = do
  _ ← or_throw (find_playlist_scoped id owner_id st) (not_found "Playlist not found")
  schedules ← list_by_playlist id st
  let (date, time) = format_date_time_in_timezone deps.intl now (or_else deps.timezone "UTC") in
      guard (eqb (length (filter (unfinished date time) schedules)) 0) (
        playlist_in_use (
          distinct
            (map (λ (s : ScheduleRecord). s.display_id) (filter (unfinished date time) schedules))))
  ok schedules

-- The loop over the schedules: one that throws ends it.
unfoldable pub delete_schedules : String → List ScheduleRecord → Store → Result (Unit {0}) × Store
delete_schedules at [] st = (ok tt, st)
delete_schedules at (schedule ∷ schedules) st =
    let (deleted, there) = delete_row schedule.id at st in
    elim deleted [
      | err e ↦ (err e, there)
      | ok gone ↦ delete_schedules at schedules (
          if gone
          then publish
              (schedule_updated schedule.display_id "finished_schedule_deleted_with_playlist") there
          else there)
    ]

abbrev pub finish_delete :
    String → Option String → Result (Unit {0}) × Store → Result (Unit {0}) × Store
finish_delete id owner_id (err e, st) = (err e, st)
finish_delete id owner_id (ok _, st) = elim (delete_playlist_row id owner_id st) [
  | none ↦ (err (fault "schedule_playlist_targets.playlist_id"), st)
  | some (false, there) ↦ (err (not_found "Playlist not found"), there)
  | some (true, there) ↦ (ok tt, there)
]

unfoldable pub delete_playlist :
    Deps → Call → String → Option String → Store → Result (Unit {0}) × Store
delete_playlist deps call id owner_id st = elim (plan_delete deps call.now id owner_id st) [
  | err e ↦ (err e, st)
  | ok schedules ↦ finish_delete id owner_id (delete_schedules call.at schedules st)
]
