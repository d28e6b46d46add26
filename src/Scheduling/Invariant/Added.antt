-- ===== src/Scheduling/Invariant/Added.antt =====
-- What a plan of a creation has been asked, and what a new row does to the table.
use wildfire.Base.{
  ◌≡◌, true, false, String, ◌==◌, eq_iff, eq_refl, Option, none, some, List, [], ◌∷◌, map, All,
  arith, str_lt, ok, ◌>>=◌, ◌>>◌, >>=-eq-ok, guard-eq-ok,
}
use wildfire.Schedule.{SchedulableKind, playlist, flash, ScheduleRecord}
use wildfire.Store.{Store, ScheduleRow, PlaylistRecord, ContentRecord, DisplayRecord}
use wildfire.Store.Schedules.{
  to_record, list_by_display, create_row, new_row, ScheduleValues, find_schedule,
  assert_valid_target, mark_target_used, require_target, playlist_target, content_target,
}
use wildfire.Scheduling.{ScheduleWindow, to_schedule_window, windows_conflict}
use wildfire.Scheduling.Admission.{
  IsPassed, ensure_no_schedule_conflicts_iff, HasWindow, get_validated_window-HasWindow,
}
use wildfire.Scheduling.Invariant.{
  IsWellFormed, IsConsistent, HasTarget, IsFree, kind_of, map_schedule_row-ok,
}
use wildfire.Scheduling.Mutations.{Deps, Call, playlist_of, content_of}
use wildfire.Scheduling.Mutations.Create.{
  CreateInput, CreatePlan, create_targets, plan_create, create_candidate, create_values,
  owner_scope,
}
use wildfire.Scheduling.Invariant.Targets.{resolve_target-HasTarget}

pub record IsAdmitted (deps : Deps) (input : CreateInput) (st : Store) (plan : CreatePlan)
    : Type 0 where
  pub dates : String × String
  pub window : HasWindow dates.0 dates.1 input.start_time input.end_time
  pub forward : str_lt input.start_time input.end_time ≡ true
  pub target :
      HasTarget (playlist_of input.kind input.playlist_id) (content_of input.kind input.content_id)
  pub existing : List ScheduleRecord
  pub listed : list_by_display deps.newer input.display_id st ≡ ok existing
  pub checked : All (IsPassed (create_candidate input dates) []) (map to_schedule_window existing)
  pub candidate : plan.candidate ≡ create_candidate input dates

create_targets-HasTarget :
    (input : CreateInput) (st : Store)
    {t : DisplayRecord × Option PlaylistRecord × Option ContentRecord}
    → create_targets input st ≡ ok t
    → HasTarget (playlist_of input.kind input.playlist_id) (content_of input.kind input.content_id)
unfolding create_targets
create_targets-HasTarget input st h =
    let (_, _, h) = >>=-eq-ok _ _ h in
    resolve_target-HasTarget input.kind input.playlist_id input.content_id (owner_scope input)
      input.start_time input.end_time st (>>=-eq-ok _ _ h).1

pub plan_create-IsAdmitted :
    (deps : Deps) (call : Call) (input : CreateInput) (st : Store) {plan : CreatePlan}
    → plan_create deps call input st ≡ ok plan
    → IsAdmitted deps input st plan
unfolding plan_create
plan_create-IsAdmitted deps call input st h =
    let (dates, window, h) = >>=-eq-ok _ _ h in
    let (_, _, h) = >>=-eq-ok _ _ h in
    let (_, forward, h) = >>=-eq-ok _ _ h in
    let (_, targets, h) = >>=-eq-ok _ _ h in
    let (existing, listed, h) = >>=-eq-ok _ _ h in
    let (_, checked, h) = >>=-eq-ok _ _ h in
    let (owner, _, h) = >>=-eq-ok _ _ h in
    record {
      dates = dates;
      window =
          get_validated_window-HasWindow input.start_date input.end_date input.start_time
            input.end_time window;
      forward = guard-eq-ok _ _ forward;
      target = create_targets-HasTarget input st targets;
      existing = existing;
      listed = listed;
      checked = (ensure_no_schedule_conflicts_iff _ [] _).0 checked;
      candidate = cc h;
    }

abbrev pub created_row : Call → CreatePlan → ScheduleRow
created_row call plan = new_row call.uuid plan.owner call.at (create_values plan.candidate)

pub targets_pass :
    (kind : SchedulableKind) (p c : Option String)
    → HasTarget (playlist_of kind p) (content_of kind c)
    → (assert_valid_target kind (playlist_of kind p) (content_of kind c)
        >> require_target kind (playlist_of kind p) (content_of kind c))
      ≡ ok tt
unfolding assert_valid_target require_target ◌>>=◌
targets_pass playlist (some p) c h = ground (arith, eq_iff p "")
targets_pass flash p (some c) h = ground (arith, eq_iff c "")
targets_pass playlist none c h = absurd h
targets_pass flash p none h = absurd h

pub HasTarget-row :
    (kind : SchedulableKind) (p c : Option String) (v : ScheduleValues)
    → v.kind ≡ kind
    → v.playlist_id ≡ playlist_of kind p
    → v.content_id ≡ content_of kind c
    → HasTarget (playlist_of kind p) (content_of kind c)
    → HasTarget (playlist_target v) (content_target v)
HasTarget-row playlist p c v k e f h = rw (k, e) h
HasTarget-row flash p c v k e f h = rw (k, f) h

find_schedule-head :
    (row : ScheduleRow) (rows : List ScheduleRow) (st : Store)
    → IsWellFormed row
    → find_schedule row.id (record st { schedules = row ∷ rows })
      ≡ ok (some (to_record row (kind_of row)))
unfolding find_schedule ◌>>=◌
find_schedule-head row rows st w =
    rw (eq_refl row.id, find_schedule) (rw (map_schedule_row-ok row w))

-- A well-formed row with a target is written and read back.
pub create_row-ok :
    (id by at : String) (v : ScheduleValues) (st : Store)
    → (assert_valid_target v.kind v.playlist_id v.content_id
        >> require_target v.kind v.playlist_id v.content_id)
      ≡ ok tt
    → IsWellFormed (new_row id by at v)
    → create_row id by at v st ≡ (
      ok (to_record (new_row id by at v) (kind_of (new_row id by at v))),
      mark_target_used
          (new_row id by at v).content_id
          at
          (record st { schedules = new_row id by at v ∷ st.schedules }),
    )
unfolding create_row
create_row-ok id by at v st checks w =
    rw (checks, create_row) (rw (find_schedule-head (new_row id by at v) st.schedules st w))

-- The kind that a row shows is the kind that it was written with.
pub kind_of-target :
    (kind : SchedulableKind) (p c : Option String) (v : ScheduleValues) (t : Option String)
    → t ≡ playlist_target v
    → v.kind ≡ kind
    → v.playlist_id ≡ playlist_of kind p
    → HasTarget (playlist_of kind p) (content_of kind c)
    → elim t [ none ↦ flash | some _ ↦ playlist ] ≡ v.kind
kind_of-target playlist (some p) c v t q k e h = rw (q, k, e)
kind_of-target flash p c v t q k e h = rw (q, k)
kind_of-target playlist none c v t q k e h = absurd h

-- A row that is put in front of a table, free of each of its rows, keeps the table consistent.
pub IsConsistent-cons :
    (st st' : Store) (row : ScheduleRow)
    → IsConsistent st
    → st'.schedules ≡ row ∷ st.schedules
    → IsWellFormed row
    → All (λ s. (s.id == row.id) ≡ false) st.schedules
    → All (IsFree row) st.schedules
    → IsConsistent st'
IsConsistent-cons st st' row inv e w u f = record {
  well_formed = rw e (w, inv.well_formed);
  unique = rw e (u, inv.unique);
  exclusive = rw e (f, inv.exclusive);
}

pub IsPassed-free : (c w : ScheduleWindow) → IsPassed c [] w → windows_conflict c w ≡ ok false
IsPassed-free c w h = ground arith
