-- ===== src/Scheduling/Invariant.antt =====
-- What holds of the schedules' table between two calls.
pub mod Added
pub mod Planned
mod Targets
mod Frames
mod Tables
pub mod Create
pub mod Delete
pub mod Update
pub mod Updated
pub mod Reach
use wildfire.Base.{
  ℕ, ◌≡◌, ◌≢◌, refl, ap, sym, ◌∙◌, ◌⊎◌, inl, inr, Bool, true, false, not, String, ◌==◌, Option,
  none, some, List, [], ◌∷◌, map, filter, find, sort_by, All, All-filter, All-sort_by, All-of_map,
  All-map, All-of_selection, eq_iff, arith, str_lt, str_le, Result, ok, err, ◌>>=◌, or_else,
}
use wildfire.Schedule.{
  SchedulableKind, playlist, flash, ScheduleRecord, is_valid_time, is_valid_date,
}
use wildfire.Store.{Store, ScheduleRow}
use wildfire.Store.Schedules.{
  to_record, resolve_kind, map_schedule_row, map_schedule_rows, list_by_display,
}
use wildfire.Scheduling.{
  ScheduleWindow, to_schedule_window, windows_conflict, has_date_range_overlap,
  has_time_range_overlap,
}
use wildfire.Scheduling.Admission.{IsPassed}
use wildfire.Scheduling.Conflicts.{HasTimes}

-- A row shows one playlist or one FLASH content, named by a text that is not empty.
abbrev pub HasTarget : Option String → Option String → Type 0
HasTarget (some p) none = p ≢ ""
HasTarget none (some c) = c ≢ ""
HasTarget _ _ = ⊥

pub record IsWellFormed (r : ScheduleRow) : Type 0 where
  pub start_valid : is_valid_time r.start_time ≡ true
  pub end_valid : is_valid_time r.end_time ≡ true
  pub forward : str_lt r.start_time r.end_time ≡ true
  pub first_valid : is_valid_date r.start_date ≡ true
  pub last_valid : is_valid_date r.end_date ≡ true
  pub dates_forward : str_le r.start_date r.end_date ≡ true
  pub target : HasTarget r.playlist_id r.content_id

abbrev pub kind_of : ScheduleRow → SchedulableKind
kind_of r = elim r.playlist_id [ none ↦ flash | some _ ↦ playlist ]

abbrev pub window_of : ScheduleRow → ScheduleWindow
window_of r = to_schedule_window (to_record r (kind_of r))

abbrev pub IsFree : ScheduleRow → ScheduleRow → Type 0
IsFree r s = windows_conflict (window_of r) (window_of s) ≡ ok false

abbrev pub NoConflicts : List ScheduleRow → Type 0
NoConflicts [] = Unit
NoConflicts (r ∷ rs) = All (IsFree r) rs × NoConflicts rs

abbrev pub UniqueIds : List ScheduleRow → Type 0
UniqueIds [] = Unit
UniqueIds (r ∷ rs) = All (λ s. (s.id == r.id) ≡ false) rs × UniqueIds rs

-- Every row is well formed, the ids are a key, and no two rows conflict.
pub record IsConsistent (st : Store) : Type 0 where
  pub well_formed : All IsWellFormed st.schedules
  pub unique : UniqueIds st.schedules
  pub exclusive : NoConflicts st.schedules

pub HasTimes-window_of : (r : ScheduleRow) → IsWellFormed r → HasTimes (window_of r)
HasTimes-window_of r w = (w.start_valid, w.end_valid)

resolve_kind-HasTarget :
    (p c : Option String)
    → HasTarget p c
    → resolve_kind p c ≡ ok (elim p [ none ↦ flash | some _ ↦ playlist ])
unfolding resolve_kind
resolve_kind-HasTarget (some p) none h = refl
resolve_kind-HasTarget none (some c) h = refl
resolve_kind-HasTarget none none h = absurd h
resolve_kind-HasTarget (some p) (some c) h = absurd h

pub map_schedule_row-ok :
    (r : ScheduleRow) → IsWellFormed r → map_schedule_row r ≡ ok (to_record r (kind_of r))
unfolding map_schedule_row ◌>>=◌
map_schedule_row-ok r w = rw (resolve_kind-HasTarget r.playlist_id r.content_id w.target)

map_schedule_rows-ok :
    (rs : List ScheduleRow)
    → All IsWellFormed rs
    → map_schedule_rows rs ≡ ok (map (λ r. to_record r (kind_of r)) rs)
unfolding map_schedule_rows ◌>>=◌
map_schedule_rows-ok [] h = refl
map_schedule_rows-ok (r ∷ rs) h = rw (map_schedule_row-ok r h.0, map_schedule_rows-ok rs h.1)

-- On a consistent table `listByDisplay` does not throw.
pub list_by_display-ok :
    (newer : ScheduleRow → ScheduleRow → Bool) (display : String) (st : Store)
    → IsConsistent st
    → list_by_display newer display st
      ≡ ok (
          map
            (λ r. to_record r (kind_of r))
            (sort_by newer (filter (λ r. r.display_id == display) st.schedules)))
unfolding list_by_display
list_by_display-ok newer display st inv = map_schedule_rows-ok _ (
    All-sort_by IsWellFormed newer _
      (All-filter IsWellFormed (λ r. r.display_id == display) st.schedules inv.well_formed))

-- The test reads the display, the kind, the dates and the times alone.
pub windows_conflict-same :
    (a b w : ScheduleWindow)
    → a.display_id ≡ b.display_id
    → a.kind ≡ b.kind
    → a.start_date ≡ b.start_date
    → a.end_date ≡ b.end_date
    → a.start_time ≡ b.start_time
    → a.end_time ≡ b.end_time
    → windows_conflict a w ≡ windows_conflict b w
unfolding windows_conflict has_date_range_overlap has_time_range_overlap
windows_conflict-same a b w d k f l s e = cc

other_display :
    (a b : ScheduleWindow)
    → (b.display_id == a.display_id) ≡ false
    → windows_conflict a b ≡ ok false
unfolding windows_conflict
other_display a b e =
    ground (arith, eq_iff a.display_id b.display_id, eq_iff b.display_id a.display_id)

-- A candidate that passed the check against the display's rows conflicts with no row at all.
pub IsPassed-All :
    (newer : ScheduleRow → ScheduleRow → Bool) (candidate : ScheduleWindow) (exclude : List String)
    (rows : List ScheduleRow)
    → All (IsPassed candidate exclude) (
        map to_schedule_window (
          map
            (λ r. to_record r (kind_of r))
            (sort_by newer (filter (λ r. r.display_id == candidate.display_id) rows))))
    → All (λ r. IsPassed candidate exclude (window_of r)) rows
IsPassed-All newer candidate exclude rows h =
    All-map (λ r o. pass r o) rows
      (All-of_selection (λ r. IsPassed candidate exclude (window_of r)) newer
        (λ r. r.display_id == candidate.display_id) rows (All-of_map _ _ _ (All-of_map _ _ _ h)))
  where
    pass :
        (r : ScheduleRow)
        → ((r.display_id == candidate.display_id) ≡ false)
          ⊎ IsPassed candidate exclude (window_of r)
        → IsPassed candidate exclude (window_of r)
    pass r (inl e) = inr (other_display candidate (window_of r) e)
    pass r (inr h) = h
