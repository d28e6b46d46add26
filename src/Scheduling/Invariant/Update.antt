-- ===== src/Scheduling/Invariant/Update.antt =====
-- Updating a schedule keeps the table consistent.
use wildfire.Base.{
  ◌≡◌, refl, subst, ◌∙◌, ◌⊎◌, inl, inr, true, String, ◌==◌, eq_iff, Option, none, some, [], ◌∷◌,
  map, find_sound, All, All-map, arith, Result, ok, err, ◌>>◌, or_else, Result-cases, if◌then◌else◌,
}
use wildfire.Schedule.{ScheduleRecord}
use wildfire.Store.{Store, ScheduleRow}
use wildfire.Store.Schedules.{
  update_row, update_row_values, ScheduleValues, find_schedule, assert_valid_target, require_target,
}
use wildfire.Scheduling.{to_schedule_window, is_excluded}
use wildfire.Scheduling.Admission.{IsPassed}
use wildfire.Scheduling.Invariant.{
  IsWellFormed, IsConsistent, IsFree, window_of, kind_of, IsPassed-All, windows_conflict-same,
  list_by_display-ok,
}
use wildfire.Scheduling.Invariant.Added.{targets_pass, HasTarget-row, kind_of-target}
use wildfire.Scheduling.Invariant.Tables.{IsConsistent-rewrite, find_schedule-row}
use wildfire.Scheduling.Invariant.Frames.{playlists_moved-schedules, after_update-schedules}
use wildfire.Scheduling.Mutations.{Deps, Call}
use wildfire.Scheduling.Mutations.Create.{create_values}
use wildfire.Scheduling.Mutations.Update.{
  UpdateInput, UpdatePlan, update_candidate, plan_update, finish_update, update_schedule,
}
use wildfire.Scheduling.Invariant.Planned.{plan_update-IsAdmitted, IsAdmitted}

update_row-rows :
    (id at : String) (v : ScheduleValues) (st : Store) {existing : ScheduleRecord}
    → find_schedule id st ≡ ok (some existing)
    → (assert_valid_target v.kind v.playlist_id v.content_id
        >> require_target v.kind v.playlist_id v.content_id)
      ≡ ok tt
    → (update_row id at v st).1.schedules
      ≡ map (λ r. if r.id == id then update_row_values v at r else r) st.schedules
unfolding update_row
update_row-rows id at v st {existing} found checks =
    rw (found, update_row) (rw checks (after_update-schedules existing _ at _))

finish_update-schedules :
    (deps : Deps) (call : Call) (plan : UpdatePlan) (m : Result (Option ScheduleRecord) × Store)
    → (finish_update deps call plan m).1.schedules ≡ m.1.schedules
unfolding finish_update
finish_update-schedules deps call plan (err e, st) = refl
finish_update-schedules deps call plan (ok none, st) = refl
finish_update-schedules deps call plan (ok (some s), st) =
    playlists_moved-schedules deps call plan.existing.playlist_id s.playlist_id st

excluded-id :
    (e id : String) (w : ScheduleRow)
    → e ≡ id
    → is_excluded (e ∷ []) (window_of w) ≡ true
    → (w.id == id) ≡ true
excluded-id e id w same h = ground (arith, eq_iff w.id id, eq_iff e w.id, eq_iff w.id "")

module _ (deps : Deps) (call : Call) (input : UpdateInput) (st : Store) (plan : UpdatePlan)
    (a : IsAdmitted deps input st plan) where
  abbrev pub updated : ScheduleRow → ScheduleRow
  updated = update_row_values (create_values plan.candidate) call.at

  pub update_schedule-rows :
      plan_update deps call input st ≡ ok plan
      → (update_schedule deps call input st).1.schedules
        ≡ map (λ r. if r.id == input.id then updated r else r) st.schedules
  unfolding update_schedule
  update_schedule-rows planned =
      rw (planned, update_schedule)
        (finish_update-schedules deps call plan _
          ∙ update_row-rows input.id call.at (create_values plan.candidate) st a.found
              (rw a.candidate (targets_pass _ _ _ a.target)))

  pub updated-IsWellFormed : (r : ScheduleRow) → IsWellFormed (updated r)
  updated-IsWellFormed r = rw a.candidate (record {
    start_valid = a.window.start_valid;
    end_valid = a.window.end_valid;
    forward = a.forward;
    first_valid = a.window.first_valid;
    last_valid = a.window.last_valid;
    dates_forward = a.window.dates_forward;
    target =
        HasTarget-row _ _ _ (create_values (update_candidate input a.existing a.dates)) refl refl
          refl a.target;
  })

  kind_of-updated : (r : ScheduleRow) → kind_of (updated r) ≡ plan.candidate.kind
  kind_of-updated r = rw a.candidate (
      kind_of-target _ _ _ (create_values (update_candidate input a.existing a.dates)) _ refl refl
        refl a.target)

  updated_conflict :
      (r s : ScheduleRow)
      → IsPassed (update_candidate input a.existing a.dates) (a.existing.id ∷ []) (window_of s)
      → ((s.id == input.id) ≡ true) ⊎ IsFree (updated r) s
  updated_conflict r s (inl excluded) =
      let (row, found, same) = find_schedule-row input.id st a.found in
      inl (
        excluded-id a.existing.id input.id s
          (same
            ∙ (eq_iff row.id input.id).0 (find_sound (λ x. x.id == input.id) st.schedules found))
          excluded)
  updated_conflict r s (inr free) = inr (
      windows_conflict-same (window_of (updated r)) plan.candidate (window_of s) refl
        (kind_of-updated r) refl refl refl refl
      ∙ rw a.candidate free)

  updated-IsFree :
      IsConsistent st
      → (r : ScheduleRow) → r.id ≡ input.id
      → All (λ s. ((s.id == input.id) ≡ true) ⊎ IsFree (updated r) s) st.schedules
  updated-IsFree inv r _ =
      All-map (λ s. updated_conflict r s) st.schedules
        (IsPassed-All deps.newer (update_candidate input a.existing a.dates) (a.existing.id ∷ [])
          st.schedules
          (subst
            (λ l.
              All (IsPassed (update_candidate input a.existing a.dates) (a.existing.id ∷ []))
                (map to_schedule_window l))
            (cc (
              a.listed,
              list_by_display-ok deps.newer (or_else input.display_id a.existing.display_id) st inv,
            ))
            a.checked))

-- Updating a schedule keeps the table consistent.
pub update_schedule-IsConsistent :
    (deps : Deps) (call : Call) (input : UpdateInput) (st : Store)
    → IsConsistent st
    → IsConsistent (update_schedule deps call input st).1
unfolding update_schedule
update_schedule-IsConsistent deps call input st inv =
    elim (Result-cases (plan_update deps call input st)) [
      | inl (e, refused) ↦ rw (refused, update_schedule) inv
      | inr (plan, planned) ↦
          let a = plan_update-IsAdmitted deps call input st planned in
          IsConsistent-rewrite input.id (updated deps call input st plan a) (λ r. refl)
            (λ r _. updated-IsWellFormed deps call input st plan a r) st _ inv
            (update_schedule-rows deps call input st plan a planned)
            (updated-IsFree deps call input st plan a inv)
    ]
