-- ===== src/Scheduling/Mutations.antt =====
-- application/use-cases/schedules: what create, update and delete share, and the view that they
-- return (schedule-view.ts).
pub mod Create
pub mod Update
pub mod Delete
use mathlib.Core.Bool.{Bool}
use wildfire.Base.{
  ℕ, String, Option, none, some, List, [], ◌∷◌, or_else, eqb, if◌then◌else◌, Result, ok, err,
  validation, not_found, window_too_short, ◌>>=◌, ◌>>◌, guard, or_throw, str_lt, truthy, not, leb,
  true, false,
}
use wildfire.Base.Int.{ℤ, pos, ltb_ℤ}
use wildfire.Schedule.{Intl, SchedulableKind, playlist, flash, ScheduleRecord}
use wildfire.Store.{
  Store, ScheduleRow, PlaylistRecord, ContentRecord, DisplayRecord, UserRecord, draft, in_use,
}
use wildfire.Store.Schedules.{count_by_playlist}
use wildfire.Scheduling.{ScheduleWindow, compute_window_duration_seconds}
use wildfire.Scheduling.Guards.{
  find_playlist_scoped, find_content_scoped, required_min_duration,
  ensure_flash_content_is_schedulable,
}
use wildfire.Scheduling.Reconcile.{set_status, reconcile}

-- How the use cases are wired: the clock's library, the database's ordering of rows, the
-- configured time zone, and the optional dependencies. The event publishers are present.
pub record Deps : Type 0 where
  pub intl : Intl
  pub newer : ScheduleRow → ScheduleRow → Bool
  pub timezone : Option String
  pub reconciles : Bool
  pub has_users : Bool

-- What the surroundings give one call: `input.now ?? new Date()`, a random UUID, and the time as
-- the text that the database stores.
pub record Call : Type 0 where
  pub now : ℕ
  pub uuid : String
  pub at : String

pub record ScheduleView : Type 0 where
  pub schedule : ScheduleRecord
  pub kind : SchedulableKind
  pub created_by_user : Option UserRecord
  pub playlist : Option (String × String)
  pub content : Option ContentRecord
  pub display : String × String

abbrev playlist_ref : Option PlaylistRecord → Option (String × String)
playlist_ref none = none
playlist_ref (some p) = some (p.id, p.name)

unfoldable pub to_schedule_view :
    ScheduleRecord
    → Option PlaylistRecord
    → Option ContentRecord
    → DisplayRecord
    → Option UserRecord
    → ScheduleView
to_schedule_view schedule shown_playlist shown_content display user = record {
  schedule = schedule;
  kind = or_else schedule.kind playlist;
  created_by_user = user;
  playlist = playlist_ref shown_playlist;
  content = shown_content;
  display = (display.id, display.name);
}

abbrev require_duration : ℤ → ℕ → Result (Unit {0})
require_duration window required =
    guard (not (ltb_ℤ window (pos required))) (window_too_short required)

-- `!playlistId || contentId` refuses; else the one target that is left.
abbrev pub only_target : Option String → Option String → String → Result String
only_target target other message = elim (truthy target) [
  | none ↦ err (validation message)
  | some id ↦ elim (truthy other) [ none ↦ ok id | some _ ↦ err (validation message) ]
]

-- The branch on the kind that create and update share: the target that exists and may be shown.
unfoldable pub resolve_target :
    SchedulableKind
    → Option String
    → Option String
    → Option String
    → String
    → String
    → Store
    → Result (Option PlaylistRecord × Option ContentRecord)
resolve_target playlist playlist_id content_id scope start_time end_time st = do
  id ← only_target playlist_id content_id "Playlist schedules require playlistId only"
  found ← or_throw (find_playlist_scoped id scope st) (not_found "Playlist not found")
  window ← compute_window_duration_seconds start_time end_time
  require_duration window (required_min_duration id st)
  ok (some found, none)
resolve_target flash playlist_id content_id scope start_time end_time st = do
  id ← only_target content_id playlist_id "Flash schedules require contentId only"
  found ← or_throw (find_content_scoped id scope st) (not_found "Content not found")
  ensure_flash_content_is_schedulable found
  ok (none, some found)

-- The target ids of the candidate: the other kind's is dropped.
abbrev pub playlist_of : SchedulableKind → Option String → Option String
playlist_of playlist id = id
playlist_of flash _ = none

abbrev pub content_of : SchedulableKind → Option String → Option String
content_of playlist _ = none
content_of flash id = id

-- Without the reconciler, a playlist that no schedule names goes back to DRAFT.
unfoldable pub release_playlist : String → String → Store → Store
release_playlist id at st =
    if eqb (count_by_playlist id st) 0 then set_status id draft at st else st

unfoldable pub run_reconcile : Deps → Call → List String → Store → Store
run_reconcile deps call ids st =
    (reconcile deps.intl deps.timezone (some ids) call.now call.at st).1
