-- ===== src/Scheduling/Invariant/Create.antt =====
-- Creating a schedule keeps the table consistent.
use wildfire.Base.{
  ◌≡◌, refl, ap, trim, subst, ◌∙◌, ◌⊎◌, inl, inr, false, ◌==◌, [], ◌∷◌, map, All, All-map, Error,
  ok, err, Result-cases,
}
use wildfire.Store.{Store, ScheduleRow}
use wildfire.Store.Schedules.{to_record, create_row, mark_target_used}
use wildfire.Scheduling.{to_schedule_window}
use wildfire.Scheduling.Admission.{IsPassed}
use wildfire.Scheduling.Invariant.{
  IsWellFormed, IsConsistent, IsFree, window_of, IsPassed-All, windows_conflict-same, kind_of,
  list_by_display-ok,
}
use wildfire.Scheduling.Mutations.{Deps, Call, ScheduleView}
use wildfire.Scheduling.Mutations.Create.{
  CreateInput, CreatePlan, plan_create, create_candidate, create_values, finish_create,
  commit_create, create_schedule,
}
use wildfire.Scheduling.Invariant.Frames.{mark_target_used-schedules, playlist_in_use-schedules}
use wildfire.Scheduling.Invariant.Added.{
  plan_create-IsAdmitted, created_row, targets_pass, HasTarget-row, create_row-ok, kind_of-target,
  IsConsistent-cons, IsPassed-free, IsAdmitted,
}

module _ (deps : Deps) (call : Call) (input : CreateInput) (st : Store) (plan : CreatePlan)
    (a : IsAdmitted deps input st plan) where
  created_row-IsWellFormed : IsWellFormed (created_row call plan)
  created_row-IsWellFormed = rw a.candidate (record {
    start_valid = a.window.start_valid;
    end_valid = a.window.end_valid;
    forward = a.forward;
    first_valid = a.window.first_valid;
    last_valid = a.window.last_valid;
    dates_forward = a.window.dates_forward;
    target =
        HasTarget-row input.kind input.playlist_id input.content_id
          (create_values (create_candidate input a.dates)) refl refl refl a.target;
  })

  kind_of-created_row : kind_of (created_row call plan) ≡ plan.candidate.kind
  kind_of-created_row = rw a.candidate (
      kind_of-target input.kind input.playlist_id input.content_id
        (create_values (create_candidate input a.dates)) _ refl refl refl a.target)

  created_row-IsFree : IsConsistent st → All (IsFree (created_row call plan)) st.schedules
  created_row-IsFree inv =
      All-map
        (λ s h.
          windows_conflict-same (window_of (created_row call plan)) plan.candidate (window_of s)
            refl kind_of-created_row refl refl refl refl
          ∙ rw a.candidate (IsPassed-free (create_candidate input a.dates) (window_of s) h))
        st.schedules
        (IsPassed-All deps.newer (create_candidate input a.dates) [] st.schedules (
          subst (λ l. All (IsPassed (create_candidate input a.dates) []) (map to_schedule_window l))
            (cc (a.listed, list_by_display-ok deps.newer input.display_id st inv)) a.checked))

  create_row-created : create_row call.uuid plan.owner call.at (create_values plan.candidate) st ≡ (
    ok (to_record (created_row call plan) (kind_of (created_row call plan))),
    mark_target_used
        (created_row call plan).content_id
        call.at
        (record st { schedules = created_row call plan ∷ st.schedules }),
  )
  create_row-created =
      create_row-ok call.uuid plan.owner call.at (create_values plan.candidate) st
        (rw a.candidate (targets_pass input.kind input.playlist_id input.content_id a.target))
        created_row-IsWellFormed

  -- With a plan the call answers a view and has put the new row into the table.
  pub commit_create-schedules :
      ((view : ScheduleView) × ((commit_create deps call plan st).0 ≡ ok view))
      × ((commit_create deps call plan st).1.schedules ≡ created_row call plan ∷ st.schedules)
  unfolding commit_create finish_create
  commit_create-schedules =
      rw (create_row-created, commit_create)
        (
          (_, refl),
          playlist_in_use-schedules deps call plan.playlist _
              ∙ mark_target_used-schedules (created_row call plan).content_id call.at _,
        )

-- Creating a schedule under a fresh id keeps the table consistent.
pub create_schedule-IsConsistent :
    (deps : Deps) (call : Call) (input : CreateInput) (st : Store)
    → IsConsistent st
    → All (λ r. (r.id == call.uuid) ≡ false) st.schedules
    → IsConsistent (create_schedule deps call input st).1
unfolding create_schedule
create_schedule-IsConsistent deps call input st inv fresh =
    elim (Result-cases (plan_create deps call input st)) [
      | inl (e, refused) ↦ rw (refused, create_schedule) inv
      | inr (plan, planned) ↦
          let a = plan_create-IsAdmitted deps call input st planned in
          rw (planned, create_schedule)
            (IsConsistent-cons st _ (created_row call plan) inv
              (commit_create-schedules deps call input st plan a).1
              (created_row-IsWellFormed deps call input st plan a) fresh
              (created_row-IsFree deps call input st plan a inv))
    ]

-- The call either throws and leaves every table and the event log as they were, or answers a view
-- and has put exactly one row into the table of schedules: of the call's UUID, with the display
-- and the times of the input and its name without the white space around it.
pub create_schedule_atomic :
    (deps : Deps) (call : Call) (input : CreateInput) (st : Store)
    → ((e : Error) × (create_schedule deps call input st ≡ (err e, st)))
      ⊎ ((view : ScheduleView) × (row : ScheduleRow) × ((create_schedule deps call input st).0
            ≡ ok view)
          × ((create_schedule deps call input st).1.schedules ≡ row ∷ st.schedules)
          × (row.id ≡ call.uuid)
          × (row.name ≡ trim input.name)
          × (row.display_id ≡ input.display_id)
          × (row.start_time ≡ input.start_time)
          × (row.end_time ≡ input.end_time))
unfolding create_schedule
create_schedule_atomic deps call input st = elim (Result-cases (plan_create deps call input st)) [
  | inl (e, refused) ↦ inl (e, rw (refused, create_schedule))
  | inr (plan, planned) ↦
      let a = plan_create-IsAdmitted deps call input st planned in
      let ((view, answered), rows) = commit_create-schedules deps call input st plan a in
      inr (
        view,
        created_row call plan,
        rw (planned, create_schedule) answered,
        rw (planned, create_schedule) rows,
        refl,
        ap (λ c. c.name) a.candidate,
        ap (λ c. c.display_id) a.candidate,
        ap (λ c. c.start_time) a.candidate,
        ap (λ c. c.end_time) a.candidate,
      )
]
