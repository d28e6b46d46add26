-- ===== src/Scheduling/Reconcile.antt =====
-- application/use-cases/schedules/reconcile-playlist-statuses.use-case.ts
pub mod Due
pub mod Steps
pub mod Settled
use mathlib.Core.Bool.{Bool}
use wildfire.Base.{
  includes, ℕ, ◌+◌, String, ◌==◌, not, true, false, Option, none, some, List, [], ◌∷◌, map, or_else,
  ltb, any, if◌then◌else◌, filter, distinct,
}
use wildfire.Schedule.{Intl}
use wildfire.Store.{
  Store, PlaylistRecord, PlaylistStatus, draft, in_use, status_eq, publish, playlist_status_changed,
}
use wildfire.Store.Playlists.{find_playlist, update_status}
use wildfire.Store.Schedules.{count_unfinished_by_playlist}
use wildfire.Scheduling.Guards.{format_date_time_in_timezone}

abbrev pub next_status : ℕ → PlaylistStatus
next_status unfinished = if ltb 0 unfinished then in_use else draft

unfoldable pub set_status : String → PlaylistStatus → String → Store → Store
set_status id status at st =
    publish (playlist_status_changed id status) (update_status id status at st)

-- One round of the loop: whether the playlist's status was changed, and the store.
unfoldable pub reconcile_one : String → String → String → String → Store → ℕ × Store
reconcile_one date time at id st = elim (find_playlist id st) [
  | none ↦ (0, st)
  | some playlist ↦
      let status = next_status (count_unfinished_by_playlist id date time st) in
      if status_eq playlist.status status then (0, st) else (1, set_status id status at st)
]

unfoldable pub reconcile_loop : String → String → String → List String → Store → ℕ × Store
reconcile_loop date time at [] st = (0, st)
reconcile_loop date time at (id ∷ ids) st =
    let (changed, st') = reconcile_one date time at id st in
    let (updated, st'') = reconcile_loop date time at ids st' in (changed + updated, st'')

-- No list of ids means every playlist. `at` is the database's `now()`.
unfoldable pub reconcile :
    Intl → Option String → Option (List String) → ℕ → String → Store → ℕ × Store
reconcile intl timezone playlist_ids now at st =
    let (date, time) = format_date_time_in_timezone intl now (or_else timezone "UTC") in
    reconcile_loop date time at
      (elim playlist_ids [ none ↦ map (λ p. p.id) st.playlists | some ids ↦ distinct ids ]) st
