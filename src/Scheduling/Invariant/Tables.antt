-- ===== src/Scheduling/Invariant/Tables.antt =====
-- Removing rows and rewriting the one row of an id, on a consistent table.
use wildfire.Base.{
  ◌≡◌, ◌<◌, ◌≤◌, subst, ◌∙◌, ◌⊎◌, inl, inr, Bool, true, false, not, String, ◌==◌, eq_iff, List, [],
  ◌∷◌, map, filter, find, length, some, All, All-filter, arith, Bool-cases, ok, if◌then◌else◌,
  Result, Option, none, Option-cases, ◌>>=◌,
}
use wildfire.Schedule.{ScheduleRecord}
use wildfire.Store.{Store, ScheduleRow}
use wildfire.Store.Schedules.{find_schedule, map_schedule_row}
use wildfire.Scheduling.Conflicts.{windows_conflict_comm}
use wildfire.Scheduling.Invariant.{
  IsWellFormed, IsConsistent, IsFree, NoConflicts, UniqueIds, window_of, HasTimes-window_of,
}

module _ (p : ScheduleRow → Bool) where
  UniqueIds-filter : (rs : List ScheduleRow) → UniqueIds rs → UniqueIds (filter p rs)
  UniqueIds-filter [] h = tt
  UniqueIds-filter (r ∷ rs) h = elim (Bool-cases (p r)) [
    | inl e ↦ rw e (All-filter (λ s. (s.id == r.id) ≡ false) p rs h.0, UniqueIds-filter rs h.1)
    | inr e ↦ rw e (UniqueIds-filter rs h.1)
  ]

  NoConflicts-filter : (rs : List ScheduleRow) → NoConflicts rs → NoConflicts (filter p rs)
  NoConflicts-filter [] h = tt
  NoConflicts-filter (r ∷ rs) h = elim (Bool-cases (p r)) [
    | inl e ↦ rw e (All-filter (IsFree r) p rs h.0, NoConflicts-filter rs h.1)
    | inr e ↦ rw e (NoConflicts-filter rs h.1)
  ]

  pub IsConsistent-filter :
      (st st' : Store) → IsConsistent st → st'.schedules ≡ filter p st.schedules → IsConsistent st'
  IsConsistent-filter st st' inv e = record {
    well_formed = rw e (All-filter IsWellFormed p st.schedules inv.well_formed);
    unique = rw e (UniqueIds-filter st.schedules inv.unique);
    exclusive = rw e (NoConflicts-filter st.schedules inv.exclusive);
  }

length-filter-le :
    (p : ScheduleRow → Bool) (rs : List ScheduleRow) → length (filter p rs) ≤ length rs
length-filter-le p [] = omega arith
length-filter-le p (r ∷ rs) = ground (arith, length-filter-le p rs)

-- What is found is removed by the opposite filter.
pub length-filter-lt :
    (p : ScheduleRow → Bool) (rs : List ScheduleRow) {r : ScheduleRow}
    → find p rs ≡ some r
    → length (filter (λ x. not (p x)) rs) < length rs
length-filter-lt p [] h = absurd (cc)
length-filter-lt p (x ∷ xs) {r} h =
    ground (arith, length-filter-lt p xs {r = r}, length-filter-le (λ x. not (p x)) xs)

-- Rewriting the row of an id, where the new row is free of every row of another id.
module _ (id : String) (f : ScheduleRow → ScheduleRow) (same : (r : ScheduleRow) → (f r).id ≡ r.id)
    (good : (r : ScheduleRow) → r.id ≡ id → IsWellFormed (f r)) where
  abbrev rewrite_row : ScheduleRow → ScheduleRow
  rewrite_row r = if r.id == id then f r else r

  rewrite_row-id : (r : ScheduleRow) → (rewrite_row r).id ≡ r.id
  rewrite_row-id r = ground (arith, same r)

  IsWellFormed-rewrite :
      (rs : List ScheduleRow) → All IsWellFormed rs → All IsWellFormed (map rewrite_row rs)
  IsWellFormed-rewrite [] h = tt
  IsWellFormed-rewrite (r ∷ rs) h = (
    elim (Bool-cases (r.id == id)) [
      | inl e ↦ rw e (good r ((eq_iff r.id id).0 e))
      | inr e ↦ rw e h.0
    ],
    IsWellFormed-rewrite rs h.1,
  )

  ids-rewrite :
      (i : String) (rs : List ScheduleRow)
      → All (λ s. (s.id == i) ≡ false) rs
      → All (λ s. (s.id == i) ≡ false) (map rewrite_row rs)
  ids-rewrite i [] h = tt
  ids-rewrite i (r ∷ rs) h = (rw (rewrite_row-id r) h.0, ids-rewrite i rs h.1)

  UniqueIds-rewrite : (rs : List ScheduleRow) → UniqueIds rs → UniqueIds (map rewrite_row rs)
  UniqueIds-rewrite [] h = tt
  UniqueIds-rewrite (r ∷ rs) h =
      (rw (rewrite_row-id r) (ids-rewrite r.id rs h.0), UniqueIds-rewrite rs h.1)

  -- Free of the rows of other ids.
  abbrev pub IsFreeOfOthers : ScheduleRow → List ScheduleRow → Type 0
  IsFreeOfOthers r rs = All (λ s. ((s.id == id) ≡ true) ⊎ IsFree r s) rs

  flip_conflict : (r s : ScheduleRow) → IsWellFormed r → IsWellFormed s → IsFree s r → IsFree r s
  flip_conflict r s v w h =
      windows_conflict_comm (window_of r) (window_of s) (HasTimes-window_of r v)
        (HasTimes-window_of s w)
      ∙ h

  -- Against a row of another id.
  rewrite_other_row :
      (r : ScheduleRow) (rs : List ScheduleRow)
      → IsWellFormed r
      → ((x : ScheduleRow) → x.id ≡ id → IsFree (f x) r)
      → All (IsFree r) rs
      → All (IsFree r) (map rewrite_row rs)
  rewrite_other_row r [] w fr h = tt
  rewrite_other_row r (s ∷ rs) w fr h = (
    elim (Bool-cases (s.id == id)) [
      | inl e ↦
          let at = (eq_iff s.id id).0 e in rw e (flip_conflict r (f s) w (good s at) (fr s at))
      | inr e ↦ rw e h.0
    ],
    rewrite_other_row r rs w fr h.1,
  )

  -- Against the rewritten row itself, whose id no other row has.
  rewrite_own_row :
      (r : ScheduleRow) (rs : List ScheduleRow)
      → All (λ s. (s.id == id) ≡ false) rs
      → IsFreeOfOthers r rs
      → All (IsFree r) (map rewrite_row rs)
  rewrite_own_row r [] u h = tt
  rewrite_own_row r (s ∷ rs) u h = (rw u.0 (ground arith), rewrite_own_row r rs u.1 h.1)

  NoConflicts-rewrite :
      (rs : List ScheduleRow)
      → All IsWellFormed rs
      → UniqueIds rs
      → NoConflicts rs
      → ((r : ScheduleRow) → r.id ≡ id → IsFreeOfOthers (f r) rs)
      → NoConflicts (map rewrite_row rs)
  NoConflicts-rewrite [] w u h free = tt
  NoConflicts-rewrite (r ∷ rs) w u h free =
      let rest = NoConflicts-rewrite rs w.1 u.1 h.1 (λ x at. (free x at).1) in
      elim (Bool-cases (r.id == id)) [
        | inl e ↦
            let at = (eq_iff r.id id).0 e in
            rw e (
              rewrite_own_row (f r) rs (subst (λ i. All (λ s. (s.id == i) ≡ false) rs) at u.0)
                  (free r at).1,
              rest,
            )
        | inr e ↦
            rw e (rewrite_other_row r rs w.0 (λ x at. ground (arith, (free x at).0)) h.0, rest)
      ]

  pub IsConsistent-rewrite :
      (st st' : Store)
      → IsConsistent st
      → st'.schedules ≡ map rewrite_row st.schedules
      → ((r : ScheduleRow) → r.id ≡ id → IsFreeOfOthers (f r) st.schedules)
      → IsConsistent st'
  IsConsistent-rewrite st st' inv e free = record {
    well_formed = rw e (IsWellFormed-rewrite st.schedules inv.well_formed);
    unique = rw e (UniqueIds-rewrite st.schedules inv.unique);
    exclusive =
        rw e (NoConflicts-rewrite st.schedules inv.well_formed inv.unique inv.exclusive free);
  }

none-ne-some :
    {s : ScheduleRecord} → ◌≡◌ {A = Result (Option ScheduleRecord)} (ok none) (ok (some s)) → ⊥
none-ne-some h = cc

map_schedule_row-id :
    (row : ScheduleRow) {s : ScheduleRecord}
    → (map_schedule_row row >>= λ found. ok (some found)) ≡ ok (some s)
    → s.id ≡ row.id
unfolding map_schedule_row ◌>>=◌
map_schedule_row-id row h = ground arith

-- A schedule that is read is one of the rows.
pub find_schedule-row :
    (id : String) (st : Store) {s : ScheduleRecord}
    → find_schedule id st ≡ ok (some s)
    → (row : ScheduleRow) × (find (λ r. r.id == id) st.schedules ≡ some row) × (s.id ≡ row.id)
unfolding find_schedule
find_schedule-row id st {s} h = elim (Option-cases (find (λ r. r.id == id) st.schedules)) [
  | inl e ↦ absurd (none-ne-some (rw (e, find_schedule) at h))
  | inr (row, e) ↦ (row, e, map_schedule_row-id row (rw (e, find_schedule) at h))
]
