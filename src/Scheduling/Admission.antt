-- ===== src/Scheduling/Admission.antt =====
-- What the checks before a write have established.
use wildfire.Base.{
  ◌≡◌, refl, ◌⊎◌, ◌↔◌, true, false, String, Option, List, [], ◌∷◌, All, arith, str_le, ok, ◌>>=◌,
  guard,
}
use wildfire.Schedule.{is_valid_time, is_valid_date}
use wildfire.Scheduling.{
  ScheduleWindow, windows_conflict, find_conflicts, ensure_no_schedule_conflicts, is_excluded,
  get_validated_window,
}

-- A window is no obstacle to a candidate.
abbrev pub IsPassed : ScheduleWindow → List String → ScheduleWindow → Type 0
IsPassed candidate exclude w =
    (is_excluded exclude w ≡ true) ⊎ (windows_conflict candidate w ≡ ok false)

module _ (candidate : ScheduleWindow) (exclude : List String) where
  find_conflicts-nil :
      (ws : List ScheduleWindow)
      → find_conflicts candidate exclude ws ≡ ok []
      → All (IsPassed candidate exclude) ws
  unfolding find_conflicts ◌>>=◌
  find_conflicts-nil [] h = tt
  find_conflicts-nil (w ∷ ws) h = (ground arith, find_conflicts-nil ws (ground arith))

  find_conflicts_complete :
      (ws : List ScheduleWindow)
      → All (IsPassed candidate exclude) ws
      → find_conflicts candidate exclude ws ≡ ok []
  unfolding find_conflicts ◌>>=◌
  find_conflicts_complete [] h = refl
  find_conflicts_complete (w ∷ ws) h = ground (arith, find_conflicts_complete ws h.1)

  -- The check passes exactly where each window is excluded by its id or does not conflict.
  pub ensure_no_schedule_conflicts_iff :
      (ws : List ScheduleWindow)
      → (ensure_no_schedule_conflicts candidate ws exclude ≡ ok tt)
        ↔ All (IsPassed candidate exclude) ws
  unfolding ensure_no_schedule_conflicts ◌>>=◌
  ensure_no_schedule_conflicts_iff ws =
      ((λ h. find_conflicts-nil ws (ground arith)), (λ h. rw (find_conflicts_complete ws h)))

pub record HasWindow (start_date end_date start_time end_time : String) : Type 0 where
  pub start_valid : is_valid_time start_time ≡ true
  pub end_valid : is_valid_time end_time ≡ true
  pub first_valid : is_valid_date start_date ≡ true
  pub last_valid : is_valid_date end_date ≡ true
  pub dates_forward : str_le start_date end_date ≡ true

-- Where the window is accepted, its times and dates have the right form and the dates are in order.
pub get_validated_window-HasWindow :
    (start_date end_date : Option String) (start_time end_time : String) {dates : String × String}
    → get_validated_window start_date end_date start_time end_time ≡ ok dates
    → HasWindow dates.0 dates.1 start_time end_time
unfolding get_validated_window guard ◌>>=◌
get_validated_window-HasWindow start_date end_date start_time end_time h = ground arith
