-- ===== src/Scheduling/Invariant/Updated.antt =====
-- What an update leaves of a schedule.
use mathlib.Core.Option
use wildfire.Base.{
  ap, trim, ◌≡◌, refl, sym, subst, ◌∙◌, ◌⊎◌, inl, inr, true, String, ◌==◌, Option, none, some, List,
  [], ◌∷◌, map, find, Result, Error, ok, err, ◌>>=◌, ◌>>◌, or_else, Bool-cases, Option-cases,
  Result-cases, if◌then◌else◌, some-injective, none≢some, ok-injective,
}
use wildfire.Schedule.{ScheduleRecord, SchedulableKind, playlist, flash}
use wildfire.Store.{Store, ScheduleRow, Event, schedule_updated}
use wildfire.Store.Schedules.{
  update_row, update_row_values, ScheduleValues, find_schedule, assert_valid_target, require_target,
  to_record, map_schedule_row, resolve_kind,
}
use wildfire.Scheduling.{first_date, last_date}
use wildfire.Scheduling.Invariant.{IsWellFormed, kind_of, map_schedule_row-ok}
use wildfire.Scheduling.Invariant.Added.{targets_pass}
use wildfire.Scheduling.Invariant.Planned.{plan_update-IsAdmitted}
use wildfire.Scheduling.Invariant.Update.{updated, update_schedule-rows, updated-IsWellFormed}
use wildfire.Scheduling.Mutations.{Deps, Call, ScheduleView, playlist_of, content_of}
use wildfire.Scheduling.Mutations.Create.{create_values}
use wildfire.Scheduling.Mutations.Update.{
  UpdateInput, UpdatePlan, update_candidate, plan_update, finish_update, update_schedule,
  first_given, playlists_moved,
}

-- A row `r` after an update of a schedule whose row was `row`: each column as the input gives it, or
-- as it was. Only the target of the kind stays.
abbrev pub given_row : UpdateInput → String → ScheduleRow → ScheduleRow → ScheduleRow
given_row input at row r = record r {
  name = or_else (Option.map trim input.name) row.name;
  display_id = or_else input.display_id row.display_id;
  start_date = or_else input.start_date row.start_date;
  end_date = or_else input.end_date row.end_date;
  start_time = or_else input.start_time row.start_time;
  end_time = or_else input.end_time row.end_time;
  updated_at = at;
  playlist_id = elim (or_else input.kind (kind_of row)) [
    | playlist ↦ or_else input.playlist_id row.playlist_id
    | flash ↦ none
  ];
  content_id = elim (or_else input.kind (kind_of row)) [
    | playlist ↦ none
    | flash ↦ or_else input.content_id row.content_id
  ];
}

given_date :
    (input : Option String) (was default : String)
    → or_else (first_given input (some was)) default ≡ or_else input was
given_date none was default = refl
given_date (some d) was default = refl

found_row :
    (id : String) (st : Store) {s : ScheduleRecord}
    → find_schedule id st ≡ ok (some s)
    → (row : ScheduleRow) × (find (λ r. r.id == id) st.schedules ≡ some row)
      × (s ≡ to_record row (kind_of row))
unfolding find_schedule resolve_kind map_schedule_row ◌>>=◌
found_row id st {s} h = elim (Option-cases (find (λ r. r.id == id) st.schedules)) [
  | inl e ↦ absurd (none≢some (ok-injective (rw (e, find_schedule) at h)))
  | inr (row, e) ↦ (row, e, shown row (rw (e, find_schedule) at h))
]
  where
    kinds :
        (p c : Option String) {k : SchedulableKind}
        → resolve_kind p c ≡ ok k
        → k ≡ elim p [ none ↦ flash | some _ ↦ playlist ]
    kinds (some p) none e = sym (ok-injective e)
    kinds none (some c) e = sym (ok-injective e)
    kinds none none e = absurd (cc e)
    kinds (some p) (some c) e = absurd (cc e)

    shown :
        (row : ScheduleRow)
        → (map_schedule_row row >>= (λ found. ok (some found))) ≡ ok (some s)
        → s ≡ to_record row (kind_of row)
    shown row h = elim (Result-cases (resolve_kind row.playlist_id row.content_id)) [
      | inl (e, k) ↦ absurd (cc (rw (k, map_schedule_row) at h))
      | inr (kind, k) ↦
          sym (some-injective (ok-injective (rw (k, map_schedule_row) at h)))
          ∙ ap (to_record row) (kinds row.playlist_id row.content_id k)
    ]

-- The columns of an update.
update_row_values-given :
    (input : UpdateInput) (at : String) (row r : ScheduleRow) (dates : String × String)
    → dates ≡ (or_else input.start_date row.start_date, or_else input.end_date row.end_date)
    → update_row_values
        (create_values (update_candidate input (to_record row (kind_of row)) dates))
        at
        r
      ≡ given_row input at row r
update_row_values-given input at row r dates e = rw e (targets (or_else input.kind (kind_of row)))
  where
    values : SchedulableKind → ScheduleValues
    values k = record {
      name = or_else (Option.map trim input.name) row.name;
      kind = k;
      playlist_id = playlist_of k (or_else input.playlist_id row.playlist_id);
      content_id = content_of k (or_else input.content_id row.content_id);
      display_id = or_else input.display_id row.display_id;
      start_date = or_else input.start_date row.start_date;
      end_date = or_else input.end_date row.end_date;
      start_time = or_else input.start_time row.start_time;
      end_time = or_else input.end_time row.end_time;
    }

    targets :
        (k : SchedulableKind)
        → update_row_values (values k) at r ≡ record (given_row input at row r) {
          playlist_id = elim k [
            | playlist ↦ or_else input.playlist_id row.playlist_id
            | flash ↦ none
          ];
          content_id = elim k [ playlist ↦ none | flash ↦ or_else input.content_id row.content_id ];
        }
    targets playlist = refl
    targets flash = refl

find-rewritten :
    (id : String) (f : ScheduleRow → ScheduleRow) (rows : List ScheduleRow) {row : ScheduleRow}
    → ((r : ScheduleRow) → (f r).id ≡ r.id)
    → find (λ r. r.id == id) rows ≡ some row
    → find (λ r. r.id == id) (map (λ r. if r.id == id then f r else r) rows) ≡ some (f row)
find-rewritten id f [] keeps e = absurd (none≢some e)
find-rewritten id f (r ∷ rs) {row} keeps e = elim (Bool-cases (r.id == id)) [
  | inl h ↦
      let its : ((f r).id == id) ≡ true = rw (keeps r) h in
      rw h (rw its (ap (λ x. some (f x)) (some-injective (rw h at e))))
  | inr h ↦ rw h (rw h (find-rewritten id f rs {row = row} keeps (rw h at e)))
]

-- The row that is read back answers the call.
update_row-answers :
    (id at : String) (v : ScheduleValues) (st : Store) {existing : ScheduleRecord}
    {row : ScheduleRow}
    → find_schedule id st ≡ ok (some existing)
    → find (λ r. r.id == id) st.schedules ≡ some row
    → (assert_valid_target v.kind v.playlist_id v.content_id
        >> require_target v.kind v.playlist_id v.content_id)
      ≡ ok tt
    → IsWellFormed (update_row_values v at row)
    → (update_row id at v st).0
      ≡ ok (some (to_record (update_row_values v at row) (kind_of (update_row_values v at row))))
unfolding update_row find_schedule ◌>>=◌
update_row-answers id at v st {existing} {row} found held checks w =
    let read : find_schedule id (record st {
      schedules = map (λ r. if r.id == id then update_row_values v at r else r) st.schedules;
    })
        ≡ ok
            (some (to_record (update_row_values v at row) (kind_of (update_row_values v at row)))) =
      rw
        (
          find-rewritten id (update_row_values v at) st.schedules {row = row} (λ r. refl) held,
          find_schedule,
        )
        (rw (map_schedule_row-ok (update_row_values v at row) w) refl) in
    rw (found, update_row) (rw (checks, update_row) (rw (read, update_row) refl))

finish_update-answers :
    (deps : Deps) (call : Call) (plan : UpdatePlan) (m : Result (Option ScheduleRecord) × Store)
    {s : ScheduleRecord}
    → m.0 ≡ ok (some s)
    → (view : ScheduleView) × (earlier : List Event) × ((finish_update deps call plan m).0
        ≡ ok view)
      × ((finish_update deps call plan m).1.published
          ≡ schedule_updated s.display_id "schedule_updated" ∷ earlier)
unfolding finish_update
finish_update-answers deps call plan (err e, st) h = absurd (cc h)
finish_update-answers deps call plan (ok none, st) h = absurd (none≢some (ok-injective h))
finish_update-answers deps call plan (ok (some x), st) {s} h =
    let same : x ≡ s = some-injective (ok-injective h) in
    (
      _,
      (playlists_moved deps call plan.existing.playlist_id x.playlist_id st).published,
      refl,
      ap
          (λ y.
            schedule_updated y.display_id "schedule_updated"
            ∷ (playlists_moved deps call plan.existing.playlist_id x.playlist_id st).published)
          same,
    )

-- An update that its checks refuse throws and changes nothing. Otherwise it answers a view, each
-- column of the rows of its id is as the input gives it, or as it was in the first of them where it
-- does not, with the target of the kind alone; no other row is written, and the display that shows
-- the schedule from then on is told last.
pub update_schedule_rows :
    (deps : Deps) (call : Call) (input : UpdateInput) (st : Store)
    → ((e : Error) × (update_schedule deps call input st ≡ (err e, st)))
      ⊎ ((row : ScheduleRow) × (view : ScheduleView) × (earlier : List Event) × (find
              (λ r. r.id == input.id)
              st.schedules
            ≡ some row)
          × ((update_schedule deps call input st).0 ≡ ok view)
          × ((update_schedule deps call input st).1.schedules
              ≡ map
                  (λ r. if r.id == input.id then given_row input call.at row r else r)
                  st.schedules)
          × ((update_schedule deps call input st).1.published
              ≡ schedule_updated (or_else input.display_id row.display_id) "schedule_updated"
                ∷ earlier))
unfolding update_schedule
update_schedule_rows deps call input st = elim (Result-cases (plan_update deps call input st)) [
  | inl (e, refused) ↦ inl (e, rw (refused, update_schedule))
  | inr (plan, planned) ↦
      let a = plan_update-IsAdmitted deps call input st planned in
      let (row, held, shown) = found_row input.id st a.found in
      let dated =
        subst
          (λ (x : ScheduleRecord). a.dates ≡ (
            or_else (first_given input.start_date x.start_date) first_date,
            or_else (first_given input.end_date x.end_date) last_date,
          ))
          shown a.dated
        ∙ ap (λ d. (d, or_else (first_given input.end_date (some row.end_date)) last_date))
            (given_date input.start_date row.start_date first_date)
        ∙ ap (λ d. (or_else input.start_date row.start_date, d))
            (given_date input.end_date row.end_date last_date) in
      let candidate : plan.candidate
          ≡ update_candidate input (to_record row (kind_of row)) a.dates =
        a.candidate ∙ ap (λ x. update_candidate input x a.dates) shown in
      let given : (r : ScheduleRow)
          → updated deps call input st plan a r ≡ given_row input call.at row r =
        λ r.
          ap (λ c. update_row_values (create_values c) call.at r) candidate
          ∙ update_row_values-given input call.at row r a.dates dated in
      let (view, earlier, answered, told) =
        finish_update-answers deps call plan
          (update_row input.id call.at (create_values plan.candidate) st)
          (update_row-answers input.id call.at (create_values plan.candidate) st {row = row} a.found
            held (rw a.candidate (targets_pass _ _ _ a.target))
            (updated-IsWellFormed deps call input st plan a row)) in
      inr (
        row,
        view,
        earlier,
        held,
        rw (planned, update_schedule) answered,
        update_schedule-rows deps call input st plan a planned ∙ rows_given given st.schedules,
        rw (planned, update_schedule)
            (told
              ∙ ap (λ (c : ScheduleRow). schedule_updated c.display_id "schedule_updated" ∷ earlier)
                  (given row)),
      )
]
  where
    rows_given :
        {f g : ScheduleRow → ScheduleRow}
        → ((r : ScheduleRow) → f r ≡ g r)
        → (rows : List ScheduleRow)
        → map (λ r. if r.id == input.id then f r else r) rows
          ≡ map (λ r. if r.id == input.id then g r else r) rows
    rows_given same [] = refl
    rows_given same (r ∷ rs) = rw (same r, rows_given same rs) refl
