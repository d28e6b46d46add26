-- ===== src/Scheduling/Mutations/Create.antt =====
-- application/use-cases/schedules/create-schedule.use-case.ts
use mathlib.Core.Bool.{Bool}
use wildfire.Base.{
  String, ◌==◌, Option, none, some, [], ◌∷◌, map, find, or_else, truthy, str_lt, trim,
  if◌then◌else◌, Result, ok, err, validation, not_found, ◌>>=◌, ◌>>◌, guard, or_throw,
}
use wildfire.Schedule.{SchedulableKind, ScheduleRecord}
use wildfire.Store.{
  Store, PlaylistRecord, ContentRecord, DisplayRecord, UserRecord, in_use, publish,
  schedule_updated,
}
use wildfire.Store.Schedules.{ScheduleValues, list_by_display, create_row}
use wildfire.Scheduling.{
  ScheduleWindow, to_schedule_window, ensure_no_schedule_conflicts, get_validated_window,
}
use wildfire.Scheduling.Guards.{ensure_schedule_start_is_not_in_past}
use wildfire.Scheduling.Reconcile.{set_status}
use wildfire.Scheduling.Mutations.{
  Deps, Call, ScheduleView, to_schedule_view, resolve_target, playlist_of, content_of,
  run_reconcile,
}

pub record CreateInput : Type 0 where
  pub owner_id : Option String
  pub actor_is_admin : Bool
  pub name : String
  pub kind : SchedulableKind
  pub playlist_id : Option String
  pub content_id : Option String
  pub display_id : String
  pub start_date : Option String
  pub end_date : Option String
  pub start_time : String
  pub end_time : String

-- What is known when every check has passed, and nothing has been written.
pub record CreatePlan : Type 0 where
  pub candidate : ScheduleWindow
  pub display : DisplayRecord
  pub playlist : Option PlaylistRecord
  pub content : Option ContentRecord
  pub owner : String

abbrev pub owner_scope : CreateInput → Option String
owner_scope input = if input.actor_is_admin then none else input.owner_id

abbrev pub create_candidate : CreateInput → String × String → ScheduleWindow
create_candidate input (start_date, end_date) = record {
  id = none;
  name = trim input.name;
  kind = input.kind;
  playlist_id = playlist_of input.kind input.playlist_id;
  content_id = content_of input.kind input.content_id;
  display_id = input.display_id;
  start_date = start_date;
  end_date = end_date;
  start_time = input.start_time;
  end_time = input.end_time;
}

-- The display, and the target that the kind asks for.
unfoldable pub create_targets :
    CreateInput → Store → Result (DisplayRecord × Option PlaylistRecord × Option ContentRecord)
create_targets input st = do
  display ←
      or_throw (find (λ d. d.id == input.display_id) st.displays) (not_found "Display not found")
  targets ←
      resolve_target input.kind input.playlist_id input.content_id (owner_scope input)
        input.start_time input.end_time st
  ok (display, targets.0, targets.1)

-- The checks against the input, the clock and the tables, in their order.
unfoldable pub plan_create : Deps → Call → CreateInput → Store → Result CreatePlan
plan_create deps call input st = do
  dates ← get_validated_window input.start_date input.end_date input.start_time input.end_time
  ensure_schedule_start_is_not_in_past deps.intl dates.0 input.start_time
      (or_else deps.timezone "UTC") call.now
  guard (str_lt input.start_time input.end_time)
      (validation "End time must be later than start time.")
  targets ← create_targets input st
  existing ← list_by_display deps.newer input.display_id st
  ensure_no_schedule_conflicts (create_candidate input dates) (map to_schedule_window existing) []
  owner ← or_throw (truthy input.owner_id) (validation "ownerId is required to create a schedule")
  ok (record {
    candidate = create_candidate input dates;
    display = targets.0;
    playlist = targets.1;
    content = targets.2;
    owner = owner;
  })

abbrev pub create_values : ScheduleWindow → ScheduleValues
create_values c = record {
  name = c.name;
  kind = c.kind;
  playlist_id = c.playlist_id;
  content_id = c.content_id;
  display_id = c.display_id;
  start_date = c.start_date;
  end_date = c.end_date;
  start_time = c.start_time;
  end_time = c.end_time;
}

unfoldable pub playlist_in_use : Deps → Call → Option PlaylistRecord → Store → Store
playlist_in_use deps call none st = st
playlist_in_use deps call (some playlist) st =
    if deps.reconciles
    then run_reconcile deps call (playlist.id ∷ []) st
    else set_status playlist.id in_use call.at st

abbrev find_user : Deps → String → Store → Option UserRecord
find_user deps id st = if deps.has_users then find (λ u. u.id == id) st.users else none

-- What follows the insertion: the statuses, the event, and the view.
unfoldable pub finish_create :
    Deps → Call → CreatePlan → Result ScheduleRecord × Store → Result ScheduleView × Store
finish_create deps call plan (err e, st) = (err e, st)
finish_create deps call plan (ok schedule, st) =
    let st' =
      publish (schedule_updated plan.candidate.display_id "schedule_created")
        (playlist_in_use deps call plan.playlist st) in
    (
      ok (
          to_schedule_view schedule plan.playlist plan.content plan.display
            (find_user deps (or_else schedule.created_by "") st')),
      st',
    )

unfoldable pub commit_create : Deps → Call → CreatePlan → Store → Result ScheduleView × Store
commit_create deps call plan st =
    finish_create deps call plan
      (create_row call.uuid plan.owner call.at (create_values plan.candidate) st)

unfoldable pub create_schedule : Deps → Call → CreateInput → Store → Result ScheduleView × Store
create_schedule deps call input st = elim (plan_create deps call input st) [
  | err e ↦ (err e, st)
  | ok plan ↦ commit_create deps call plan st
]
