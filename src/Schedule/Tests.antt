-- ===== src/Schedule/Tests.antt =====
-- Runs of the theorems on times of day and on the schedules of a display.
use wildfire.Base.{
  ◌≡◌, ◌≢◌, ◌≤◌, ◌↔◌, inl, refl, true, Option, none, some, List, [], ◌∷◌, filter, units, ok,
}
use mathlib.Core.List.{Perm}
use wildfire.Base.Sorting.{IsAscending}
use wildfire.Schedule.{
  select_active_schedule, select_active_schedules, Intl, ScheduleRecord, flash, is_valid_time,
  matches_time, to_minutes, is_within_time_window, select_active_schedule_by_kind,
  select_active_schedules_by_kind, to_zoned_time_string, to_zoned_date_string,
}
use wildfire.Schedule.Windows.{minutes_until, is_within_time_window_iff}
use wildfire.Schedule.Active.{IsFirst, IsActiveOf}
use wildfire.Schedule.Selection.{
  is_active_of, select_active_schedule_by_kind-IsFirst, select_active_schedules_by_kind-sorted,
  select_active_schedule-invalid,
}

is_within_time_window_iff_example : (is_within_time_window "01:30" "22:00" "02:00" ≡ true) ↔ (
    (to_minutes "22:00" ≢ to_minutes "02:00")
    × (minutes_until (to_minutes "22:00") (to_minutes "01:30")
        ≤ minutes_until (to_minutes "22:00") (to_minutes "02:00")))
unfolding is_valid_time matches_time units
is_within_time_window_iff_example = is_within_time_window_iff "01:30" "22:00" "02:00" refl refl refl

-- A library that knows one instant, and orders texts as all alike.
abbrev intl : Intl
intl = record {
  time_parts = λ _ _. ("hour", "09") ∷ ("literal", ":") ∷ ("minute", "30") ∷ [];
  date_parts = λ _ _. ("year", "2025") ∷ ("month", "03") ∷ ("day", "04") ∷ [];
  date_time_parts = λ _ _. [];
  locale_le = λ _ _. true;
}

abbrev morning : ScheduleRecord
morning = record {
  id = "s1";
  name = "Morning";
  kind = some flash;
  playlist_id = none;
  content_id = some "c1";
  display_id = "d1";
  created_by = some "u1";
  start_date = some "2025-01-01";
  end_date = some "2025-12-31";
  start_time = "09:00";
  end_time = "10:00";
  created_at = "2025-01-01T00:00:00.000Z";
  updated_at = "2025-01-01T00:00:00.000Z";
}

select_active_schedule_by_kind-IsFirst_example :
    (o : Option ScheduleRecord) × (select_active_schedule_by_kind intl (morning ∷ []) flash 0 "UTC"
      ≡ ok o)
    × IsFirst (IsActiveOf flash "2025-03-04" "09:30") (morning ∷ []) o
unfolding to_zoned_time_string to_zoned_date_string
select_active_schedule_by_kind-IsFirst_example =
    select_active_schedule_by_kind-IsFirst intl (morning ∷ []) flash 0 "UTC" "2025-03-04" "09:30"
      refl refl

select_active_schedules_by_kind-sorted_example :
    (l : List ScheduleRecord) × (select_active_schedules_by_kind intl (morning ∷ []) flash 0 "UTC"
      ≡ ok l)
    × Perm l (filter (is_active_of flash "2025-03-04" "09:30") (morning ∷ []))
    × IsAscending (λ a b. intl.locale_le a.created_at b.created_at) l
unfolding to_zoned_time_string to_zoned_date_string
select_active_schedules_by_kind-sorted_example =
    select_active_schedules_by_kind-sorted intl (morning ∷ []) flash 0 "UTC" "2025-03-04" "09:30"
      refl refl (λ a b. inl refl) (λ a b c p q. refl)

-- The hour of midnight as the 24-hour cycle from 1 to 24 has it.
abbrev intl_24 : Intl
intl_24 = record intl { time_parts = λ _ _. ("hour", "24") ∷ ("minute", "30") ∷ [] }

select_active_schedule-invalid_example :
    (select_active_schedule intl_24 (morning ∷ []) 0 "UTC" ≡ ok none)
    × (select_active_schedules intl_24 (morning ∷ []) 0 "UTC" ≡ ok [])
unfolding to_zoned_time_string to_zoned_date_string is_valid_time matches_time units
select_active_schedule-invalid_example =
    select_active_schedule-invalid intl_24 (morning ∷ []) 0 "UTC" "2025-03-04" "24:30" refl refl
      refl
