-- ===== src/Scheduling/Mutations/Update.antt =====
-- application/use-cases/schedules/update-schedule.use-case.ts
use mathlib.Core.Option
use wildfire.Base.{
  distinct, String, ◌==◌, Option, none, some, List, [], ◌∷◌, ◌++◌, map, find, or_else, truthy,
  opt_eq, str_lt, trim, if◌then◌else◌, Result, ok, err, validation, not_found, ◌>>=◌, ◌>>◌, guard,
  or_throw,
}
use wildfire.Schedule.{SchedulableKind, playlist, ScheduleRecord}
use wildfire.Store.{
  Store, PlaylistRecord, ContentRecord, DisplayRecord, UserRecord, in_use, publish,
  schedule_updated,
}
use wildfire.Store.Schedules.{find_schedule, list_by_display, update_row}
use wildfire.Scheduling.{
  ScheduleWindow, to_schedule_window, ensure_no_schedule_conflicts, get_validated_window,
}
use wildfire.Scheduling.Guards.{
  ensure_schedule_visible_to_owner, ensure_schedule_start_is_not_in_past,
}
use wildfire.Scheduling.Reconcile.{set_status}
use wildfire.Scheduling.Mutations.{
  Deps, Call, ScheduleView, to_schedule_view, resolve_target, playlist_of, content_of,
  run_reconcile, release_playlist,
}
use wildfire.Scheduling.Mutations.Create.{create_values}

-- A field that is `none` was not given. A target may be given as null: `some none`.
pub record UpdateInput : Type 0 where
  pub id : String
  pub owner_id : Option String
  pub name : Option String
  pub kind : Option SchedulableKind
  pub playlist_id : Option (Option String)
  pub content_id : Option (Option String)
  pub display_id : Option String
  pub start_date : Option String
  pub end_date : Option String
  pub start_time : Option String
  pub end_time : Option String

pub record UpdatePlan : Type 0 where
  pub existing : ScheduleRecord
  pub candidate : ScheduleWindow
  pub display : DisplayRecord
  pub playlist : Option PlaylistRecord
  pub content : Option ContentRecord

abbrev pub first_given : Option String → Option String → Option String
first_given none old = old
first_given (some new) _ = some new

-- The existing schedule with the given fields put in; the dates are those that were validated.
abbrev pub update_candidate : UpdateInput → ScheduleRecord → String × String → ScheduleWindow
update_candidate input existing (start_date, end_date) =
    let kind = or_else input.kind (or_else existing.kind playlist) in
    record {
      id = some existing.id;
      name = or_else (Option.map trim input.name) existing.name;
      kind = kind;
      playlist_id = playlist_of kind (or_else input.playlist_id existing.playlist_id);
      content_id = content_of kind (or_else input.content_id existing.content_id);
      display_id = or_else input.display_id existing.display_id;
      start_date = start_date;
      end_date = end_date;
      start_time = or_else input.start_time existing.start_time;
      end_time = or_else input.end_time existing.end_time;
    }

abbrev pub find_visible : UpdateInput → Store → Result ScheduleRecord
find_visible input st = do
  found ← find_schedule input.id st
  existing ← or_throw found (not_found "Schedule not found")
  ensure_schedule_visible_to_owner input.owner_id existing st
  ok existing

-- The dates and times that the update would leave, checked.
unfoldable pub update_dates : Deps → Call → UpdateInput → ScheduleRecord → Result (String × String)
update_dates deps call input existing = do
  let start_time = or_else input.start_time existing.start_time
  let end_time = or_else input.end_time existing.end_time
  dates ←
      get_validated_window (first_given input.start_date existing.start_date)
        (first_given input.end_date existing.end_date) start_time end_time
  ensure_schedule_start_is_not_in_past deps.intl dates.0 start_time (or_else deps.timezone "UTC")
      call.now
  guard (str_lt start_time end_time) (validation "End time must be later than start time.")
  ok dates

unfoldable pub update_targets :
    UpdateInput
    → ScheduleRecord
    → Store
    → Result (DisplayRecord × Option PlaylistRecord × Option ContentRecord)
update_targets input existing st = do
  display ←
      or_throw (find (λ d. d.id == or_else input.display_id existing.display_id) st.displays)
        (not_found "Display not found")
  targets ←
      resolve_target (or_else input.kind (or_else existing.kind playlist))
        (or_else input.playlist_id existing.playlist_id)
        (or_else input.content_id existing.content_id) input.owner_id
        (or_else input.start_time existing.start_time) (or_else input.end_time existing.end_time) st
  ok (display, targets.0, targets.1)

unfoldable pub plan_update : Deps → Call → UpdateInput → Store → Result UpdatePlan
plan_update deps call input st = do
  existing ← find_visible input st
  dates ← update_dates deps call input existing
  targets ← update_targets input existing st
  others ← list_by_display deps.newer (or_else input.display_id existing.display_id) st
  ensure_no_schedule_conflicts (update_candidate input existing dates)
      (map to_schedule_window others) (existing.id ∷ [])
  ok (record {
    existing = existing;
    candidate = update_candidate input existing dates;
    display = targets.0;
    playlist = targets.1;
    content = targets.2;
  })

abbrev pub present : Option String → List String
present none = []
present (some id) = id ∷ []

-- Without the reconciler: the playlist that was left is released, the one that is shown is in use.
abbrev pub leave_playlist : Call → Option String → Option String → Store → Store
leave_playlist call before after st = elim (truthy before) [
  | none ↦ st
  | some id ↦ if opt_eq before after then st else release_playlist id call.at st
]

abbrev pub enter_playlist : Call → Option String → Store → Store
enter_playlist call after st = elim (truthy after) [
  | none ↦ st
  | some id ↦ set_status id in_use call.at st
]

unfoldable pub move_playlist : Call → Option String → Option String → Store → Store
move_playlist call before after st = enter_playlist call after (leave_playlist call before after st)

unfoldable pub playlists_moved : Deps → Call → Option String → Option String → Store → Store
playlists_moved deps call before after st = elim (distinct (present before ++ present after)) [
  | [] ↦ st
  | id ∷ ids ↦
      if deps.reconciles
      then run_reconcile deps call (id ∷ ids) st
      else move_playlist call before after st
]

abbrev find_creator : Deps → Option String → Store → Option UserRecord
find_creator deps created_by st = elim (truthy created_by) [
  | none ↦ none
  | some id ↦ if deps.has_users then find (λ u. u.id == id) st.users else none
]

unfoldable pub finish_update :
    Deps → Call → UpdatePlan → Result (Option ScheduleRecord) × Store → Result ScheduleView × Store
finish_update deps call plan (err e, st) = (err e, st)
finish_update deps call plan (ok none, st) = (err (not_found "Schedule not found"), st)
finish_update deps call plan (ok (some schedule), st) =
    let st' =
      publish (schedule_updated schedule.display_id "schedule_updated")
        (playlists_moved deps call plan.existing.playlist_id schedule.playlist_id st) in
    (
      ok (
          to_schedule_view schedule plan.playlist plan.content plan.display
            (find_creator deps schedule.created_by st')),
      st',
    )

unfoldable pub update_schedule : Deps → Call → UpdateInput → Store → Result ScheduleView × Store
update_schedule deps call input st = elim (plan_update deps call input st) [
  | err e ↦ (err e, st)
  | ok plan ↦
      finish_update deps call plan (update_row input.id call.at (create_values plan.candidate) st)
]
