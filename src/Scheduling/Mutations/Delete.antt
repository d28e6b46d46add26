-- ===== src/Scheduling/Mutations/Delete.antt =====
-- application/use-cases/schedules/delete-schedule.use-case.ts
use mathlib.Core.Bool.{Bool, true, false}
use wildfire.Base.{
  String, Option, none, some, [], ◌∷◌, truthy, if◌then◌else◌, Result, ok, err, not_found, ◌>>=◌,
  ◌>>◌, or_throw,
}
use wildfire.Schedule.{ScheduleRecord}
use wildfire.Store.{Store, publish, schedule_updated}
use wildfire.Store.Schedules.{find_schedule, delete_row}
use wildfire.Scheduling.Guards.{ensure_schedule_visible_to_owner}
use wildfire.Scheduling.Mutations.{Deps, Call, run_reconcile, release_playlist}

-- The schedule, if it exists and the owner may see it.
unfoldable pub plan_delete : String → Option String → Store → Result ScheduleRecord
plan_delete id owner_id st = do
  found ← find_schedule id st
  existing ← or_throw found (not_found "Schedule not found")
  ensure_schedule_visible_to_owner owner_id existing st
  ok existing

unfoldable pub after_removal : Deps → Call → Option String → Store → Store
after_removal deps call playlist_id st = elim (truthy playlist_id) [
  | none ↦ st
  | some id ↦
      if deps.reconciles
      then run_reconcile deps call (id ∷ []) st
      else release_playlist id call.at st
]

unfoldable pub finish_delete :
    Deps → Call → ScheduleRecord → Result Bool × Store → Result (Unit {0}) × Store
finish_delete deps call existing (err e, st) = (err e, st)
finish_delete deps call existing (ok false, st) = (err (not_found "Schedule not found"), st)
finish_delete deps call existing (ok true, st) = (
  ok tt,
  publish (schedule_updated existing.display_id "schedule_deleted")
      (after_removal deps call existing.playlist_id st),
)

unfoldable pub delete_schedule :
    Deps → Call → String → Option String → Store → Result (Unit {0}) × Store
delete_schedule deps call id owner_id st = elim (plan_delete id owner_id st) [
  | err e ↦ (err e, st)
  | ok existing ↦ finish_delete deps call existing (delete_row id call.at st)
]
