-- ===== src/Scheduling/Invariant/Delete.antt =====
-- Deleting a schedule keeps the table consistent.
use wildfire.Base.{
  ◌≡◌, refl, ap, ◌∙◌, ◌⊎◌, inl, inr, Bool, true, false, not, String, ◌==◌, Option, none, some, List,
  [], ◌∷◌, filter, length, eqb, arith, Result, Error, ok, err, Result-cases, Option-cases,
  >>=-eq-ok, or_throw-eq-ok, truthy,
}
use wildfire.Schedule.{ScheduleRecord}
use wildfire.Store.{Store, Event, schedule_updated, publish}
use wildfire.Store.Schedules.{find_schedule, delete_row, after_delete}
use wildfire.Scheduling.Invariant.{IsConsistent}
use wildfire.Scheduling.Invariant.Tables.{IsConsistent-filter, length-filter-lt, find_schedule-row}
use wildfire.Scheduling.Invariant.Frames.{after_removal-schedules, refresh-schedules}
use wildfire.Scheduling.Mutations.{Deps, Call}
use wildfire.Scheduling.Mutations.Delete.{
  plan_delete, finish_delete, delete_schedule, after_removal,
}

after_delete-schedules :
    (existing : Option ScheduleRecord) (b : Bool) (at : String) (st : Store)
    → (after_delete existing b at st).1.schedules ≡ st.schedules
after_delete-schedules existing false at st = refl
after_delete-schedules none true at st = refl
after_delete-schedules (some s) true at st = elim (Option-cases (truthy s.content_id)) [
  | inl e ↦ rw (e, after_delete) refl
  | inr (id, e) ↦ rw (e, after_delete) (refresh-schedules (id ∷ []) at st)
]

plan_delete-found :
    (id : String) (owner : Option String) (st : Store) {existing : ScheduleRecord}
    → plan_delete id owner st ≡ ok existing
    → find_schedule id st ≡ ok (some existing)
unfolding plan_delete
plan_delete-found id owner st h =
    let (found, e, h) = >>=-eq-ok _ _ h in
    let (existing, e', h) = >>=-eq-ok _ _ h in
    let (_, _, h) = >>=-eq-ok _ _ h in e ∙ ap ok (or_throw-eq-ok _ _ e' ∙ cc h)

-- The row that was found is gone afterwards, and no other row is.
delete_row-found :
    (id at : String) (st : Store) {existing : ScheduleRecord}
    → find_schedule id st ≡ ok (some existing)
    → ((delete_row id at st).0 ≡ ok true)
      × ((delete_row id at st).1.schedules ≡ filter (λ r. not (r.id == id)) st.schedules)
unfolding delete_row
delete_row-found id at st {existing} h =
    let (row, e, _) = find_schedule-row id st h in
    let fewer : eqb (length (filter (λ r. not (r.id == id)) st.schedules)) (length st.schedules)
        ≡ false =
      ground (arith, length-filter-lt (λ r. r.id == id) st.schedules e) in
    rw (h, delete_row) (rw fewer (refl, after_delete-schedules (some existing) true at _))

finish_delete-true :
    (deps : Deps) (call : Call) (existing : ScheduleRecord) (m : Result Bool × Store)
    → m.0 ≡ ok true
    → finish_delete deps call existing m ≡ (
      ok tt,
      publish
          (schedule_updated existing.display_id "schedule_deleted")
          (after_removal deps call existing.playlist_id m.1),
    )
unfolding finish_delete
finish_delete-true deps call existing (r, st) e = rw e

delete_schedule-planned :
    (deps : Deps) (call : Call) (id : String) (owner : Option String) (st : Store)
    {existing : ScheduleRecord}
    → plan_delete id owner st ≡ ok existing
    → delete_schedule deps call id owner st ≡ (
      ok tt,
      publish
          (schedule_updated existing.display_id "schedule_deleted")
          (after_removal deps call existing.playlist_id (delete_row id call.at st).1),
    )
unfolding delete_schedule
delete_schedule-planned deps call id owner st {existing} planned =
    rw (planned, delete_schedule)
      (finish_delete-true deps call existing (delete_row id call.at st)
        (delete_row-found id call.at st (plan_delete-found id owner st planned)).0)

-- Deleting either throws and leaves everything as it was, or the schedule existed, exactly the
-- rows of its id are gone, and the display that showed it is told last.
pub delete_schedule_atomic :
    (deps : Deps) (call : Call) (id : String) (owner : Option String) (st : Store)
    → ((e : Error) × (delete_schedule deps call id owner st ≡ (err e, st)))
      ⊎ ((existing : ScheduleRecord) × (earlier : List Event) × (find_schedule id st
            ≡ ok (some existing))
          × ((delete_schedule deps call id owner st).0 ≡ ok tt)
          × ((delete_schedule deps call id owner st).1.schedules
              ≡ filter (λ r. not (r.id == id)) st.schedules)
          × ((delete_schedule deps call id owner st).1.published
              ≡ schedule_updated existing.display_id "schedule_deleted" ∷ earlier))
unfolding delete_schedule
delete_schedule_atomic deps call id owner st = elim (Result-cases (plan_delete id owner st)) [
  | inl (e, refused) ↦ inl (e, rw (refused, delete_schedule))
  | inr (existing, planned) ↦
      let found = plan_delete-found id owner st planned in
      let done = delete_schedule-planned deps call id owner st planned in
      let removed = (delete_row id call.at st).1 in
      let st' = after_removal deps call existing.playlist_id removed in
      inr (
        existing,
        st'.published,
        found,
        ap (λ o. o.0) done,
        ap (λ (o : Result (Unit {0}) × Store). o.1.schedules) done
            ∙ after_removal-schedules deps call existing.playlist_id removed
            ∙ (delete_row-found id call.at st found).1,
        ap (λ (o : Result (Unit {0}) × Store). o.1.published) done,
      )
]

-- Deleting a schedule keeps the table consistent.
pub delete_schedule-IsConsistent :
    (deps : Deps) (call : Call) (id : String) (owner : Option String) (st : Store)
    → IsConsistent st
    → IsConsistent (delete_schedule deps call id owner st).1
delete_schedule-IsConsistent deps call id owner st inv =
    elim (delete_schedule_atomic deps call id owner st) [
      | inl (e, same) ↦ rw same inv
      | inr (existing, earlier, found, answered, rows, told) ↦
          IsConsistent-filter (λ r. not (r.id == id)) st _ inv rows
    ]
