-- ===== src/Scheduling/Invariant/Planned.antt =====
-- What the plan of an update has been asked.
use wildfire.Base.{
  ap, sym, ◌≡◌, subst, ◌∙◌, true, String, Option, some, List, [], ◌∷◌, map, All, str_lt, ok,
  or_else, >>=-eq-ok, guard-eq-ok, or_throw-eq-ok,
}
use wildfire.Schedule.{playlist, ScheduleRecord}
use wildfire.Store.{Store, PlaylistRecord, ContentRecord, DisplayRecord}
use wildfire.Store.Schedules.{list_by_display, find_schedule}
use wildfire.Scheduling.{to_schedule_window, get_validated_window, first_date, last_date}
use wildfire.Scheduling.Admission.{
  IsPassed, ensure_no_schedule_conflicts_iff, HasWindow, get_validated_window-HasWindow,
}
use wildfire.Scheduling.Invariant.{HasTarget}
use wildfire.Scheduling.Invariant.Targets.{resolve_target-HasTarget}
use wildfire.Scheduling.Mutations.{Deps, Call, playlist_of, content_of}
use wildfire.Scheduling.Mutations.Update.{
  UpdateInput, UpdatePlan, update_candidate, update_dates, update_targets, plan_update,
  find_visible, first_given,
}

-- What a plan stands for.
pub record IsAdmitted (deps : Deps) (input : UpdateInput) (st : Store) (plan : UpdatePlan)
    : Type 0 where
  pub existing : ScheduleRecord
  pub found : find_schedule input.id st ≡ ok (some existing)
  pub dates : String × String
  pub window :
      HasWindow dates.0 dates.1
        (or_else input.start_time existing.start_time)
        (or_else input.end_time existing.end_time)
  pub dated : dates ≡ (
    or_else (first_given input.start_date existing.start_date) first_date,
    or_else (first_given input.end_date existing.end_date) last_date,
  )
  pub forward :
      str_lt
        (or_else input.start_time existing.start_time)
        (or_else input.end_time existing.end_time)
      ≡ true
  pub target :
      HasTarget
        (playlist_of
          (or_else input.kind (or_else existing.kind playlist))
          (or_else input.playlist_id existing.playlist_id))
        (content_of
          (or_else input.kind (or_else existing.kind playlist))
          (or_else input.content_id existing.content_id))
  pub others : List ScheduleRecord
  pub listed :
      list_by_display deps.newer (or_else input.display_id existing.display_id) st ≡ ok others
  pub checked :
      All
        (IsPassed (update_candidate input existing dates) (existing.id ∷ []))
        (map to_schedule_window others)
  pub candidate : plan.candidate ≡ update_candidate input existing dates

find_visible-found :
    (input : UpdateInput) (st : Store) {existing : ScheduleRecord}
    → find_visible input st ≡ ok existing
    → find_schedule input.id st ≡ ok (some existing)
find_visible-found input st h =
    let (found, e, h) = >>=-eq-ok _ _ h in
    let (existing, e', h) = >>=-eq-ok _ _ h in
    let (_, _, h) = >>=-eq-ok _ _ h in e ∙ ap ok (or_throw-eq-ok _ _ e' ∙ cc h)

record HasDates (input : UpdateInput) (existing : ScheduleRecord) (dates : String × String)
    : Type 0 where
  dated : dates ≡ (
    or_else (first_given input.start_date existing.start_date) first_date,
    or_else (first_given input.end_date existing.end_date) last_date,
  )
  window :
      HasWindow dates.0 dates.1
        (or_else input.start_time existing.start_time)
        (or_else input.end_time existing.end_time)
  forward :
      str_lt
        (or_else input.start_time existing.start_time)
        (or_else input.end_time existing.end_time)
      ≡ true

-- The dates that are not given are those of the default window.
window_dates :
    (start_date end_date : Option String) (start_time end_time : String) {dates : String × String}
    → get_validated_window start_date end_date start_time end_time ≡ ok dates
    → dates ≡ (or_else start_date first_date, or_else end_date last_date)
unfolding get_validated_window
window_dates start_date end_date start_time end_time h =
    let (_, _, h) = >>=-eq-ok _ _ h in let (_, _, h) = >>=-eq-ok _ _ h in sym (cc h)

update_dates-HasDates :
    (deps : Deps) (call : Call) (input : UpdateInput) (existing : ScheduleRecord)
    {dates : String × String}
    → update_dates deps call input existing ≡ ok dates
    → HasDates input existing dates
unfolding update_dates
update_dates-HasDates deps call input existing {dates} h =
    let (dates', window, h) = >>=-eq-ok _ _ h in
    let (_, _, h) = >>=-eq-ok _ _ h in
    let (_, forward, h) = >>=-eq-ok _ _ h in
    subst (HasDates input existing) (cc h) (record {
      dated = window_dates _ _ _ _ window;
      window = get_validated_window-HasWindow _ _ _ _ window;
      forward = guard-eq-ok _ _ forward;
    })

update_targets-HasTarget :
    (input : UpdateInput) (existing : ScheduleRecord) (st : Store)
    {t : DisplayRecord × Option PlaylistRecord × Option ContentRecord}
    → update_targets input existing st ≡ ok t
    → HasTarget
        (playlist_of
          (or_else input.kind (or_else existing.kind playlist))
          (or_else input.playlist_id existing.playlist_id))
        (content_of
          (or_else input.kind (or_else existing.kind playlist))
          (or_else input.content_id existing.content_id))
unfolding update_targets
update_targets-HasTarget input existing st h =
    let (_, _, h) = >>=-eq-ok _ _ h in resolve_target-HasTarget _ _ _ _ _ _ st (>>=-eq-ok _ _ h).1

pub plan_update-IsAdmitted :
    (deps : Deps) (call : Call) (input : UpdateInput) (st : Store) {plan : UpdatePlan}
    → plan_update deps call input st ≡ ok plan
    → IsAdmitted deps input st plan
unfolding plan_update
plan_update-IsAdmitted deps call input st h =
    let (existing, visible, h) = >>=-eq-ok _ _ h in
    let (dates, dated, h) = >>=-eq-ok _ _ h in
    let (_, targets, h) = >>=-eq-ok _ _ h in
    let (others, listed, h) = >>=-eq-ok _ _ h in
    let (_, checked, h) = >>=-eq-ok _ _ h in
    let d = update_dates-HasDates deps call input existing dated in
    record {
      existing = existing;
      found = find_visible-found input st visible;
      dates = dates;
      dated = d.dated;
      window = d.window;
      forward = d.forward;
      target = update_targets-HasTarget input existing st targets;
      others = others;
      listed = listed;
      checked = (ensure_no_schedule_conflicts_iff _ (existing.id ∷ []) _).0 checked;
      candidate = cc h;
    }
