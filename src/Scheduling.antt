-- ===== src/Scheduling.antt =====
-- application/use-cases/schedules: what shared.ts gives the use cases, windows and conflicts.
pub mod Guards
pub mod Reconcile
pub mod Mutations
pub mod Segments
pub mod Conflicts
pub mod Admission
pub mod Invariant
mod Tests
use wildfire.Base.{
  includes, ℕ, ◌+◌, String, ◌==◌, Bool, true, false, not, ◌&&◌, ◌||◌, Option, none, some, List, [],
  ◌∷◌, map, any, head?, or_else, truthy, str_lt, str_le, units, split_at, parse_int, if◌then◌else◌,
  Result, ok, err, validation, schedule_conflict, ◌>>=◌, ◌>>◌, guard,
}
use wildfire.Base.Int.{ℤ, pos, ◌+ℤ◌, ◌-ℤ◌, scale, ltb_ℤ}
use wildfire.Schedule.{
  SchedulableKind, playlist, flash, kind_eq, ScheduleRecord, is_valid_time, is_valid_date,
}

abbrev pub day_seconds : ℕ
day_seconds = 86400

abbrev pub first_date : String
first_date = "1970-01-01"

abbrev pub last_date : String
last_date = "2099-12-31"

pub record ScheduleWindow : Type 0 where
  pub id : Option String
  pub name : String
  pub kind : SchedulableKind
  pub playlist_id : Option String
  pub content_id : Option String
  pub display_id : String
  pub start_date : String
  pub end_date : String
  pub start_time : String
  pub end_time : String

abbrev hours_and_minutes : Option ℤ → Option ℤ → Result ℤ
hours_and_minutes (some hour) (some minute) = ok (scale 3600 hour +ℤ scale 60 minute)
hours_and_minutes _ _ = err (validation "Invalid schedule time format")

-- `value.split(":")`, the first two parts through `parseInt`.
unfoldable pub parse_seconds : List ℕ → Result ℤ
parse_seconds value =
    let (hour_raw, more) = split_at b':' value in
    hours_and_minutes (parse_int hour_raw) (parse_int (or_else (head? more) []))

unfoldable pub parse_time_to_seconds : String → Result ℤ
parse_time_to_seconds value = parse_seconds (units value)

unfoldable pub window_duration : ℤ → ℤ → ℤ
window_duration start end =
    if ltb_ℤ start end
    then end -ℤ start
    else if ltb_ℤ end start
    then pos day_seconds -ℤ start +ℤ end
    else pos 0

unfoldable pub compute_window_duration_seconds : String → String → Result ℤ
compute_window_duration_seconds start_time end_time = do
  start ← parse_time_to_seconds start_time
  end ← parse_time_to_seconds end_time
  ok (window_duration start end)

-- A window past midnight is two segments of the day.
unfoldable pub segments : ℤ → ℤ → List (ℤ × ℤ)
segments start end =
    if ltb_ℤ start end
    then (start, end) ∷ []
    else if ltb_ℤ end start
    then (start, pos day_seconds) ∷ (pos 0, end) ∷ []
    else []

unfoldable pub to_daily_time_segments : String → String → Result (List (ℤ × ℤ))
to_daily_time_segments start_time end_time = do
  start ← parse_time_to_seconds start_time
  end ← parse_time_to_seconds end_time
  ok (segments start end)

unfoldable pub has_date_range_overlap : ScheduleWindow → ScheduleWindow → Bool
has_date_range_overlap left right =
    str_le left.start_date right.end_date && str_le right.start_date left.end_date

abbrev pub segments_meet : ℤ × ℤ → ℤ × ℤ → Bool
segments_meet (left_start, left_end) (right_start, right_end) =
    ltb_ℤ left_start right_end && ltb_ℤ right_start left_end

unfoldable pub segments_overlap : List (ℤ × ℤ) → List (ℤ × ℤ) → Bool
segments_overlap left right = any (λ l. any (λ r. segments_meet l r) right) left

unfoldable pub has_time_range_overlap : ScheduleWindow → ScheduleWindow → Result Bool
has_time_range_overlap left right = do
  left_segments ← to_daily_time_segments left.start_time left.end_time
  right_segments ← to_daily_time_segments right.start_time right.end_time
  ok (segments_overlap left_segments right_segments)

unfoldable pub windows_conflict : ScheduleWindow → ScheduleWindow → Result Bool
windows_conflict left right =
    if not (left.display_id == right.display_id)
    then ok false
    else if not (kind_eq left.kind right.kind)
    then ok false
    else if kind_eq left.kind playlist
    then ok false
    else if has_date_range_overlap left right
    then has_time_range_overlap left right
    else ok false

abbrev pub to_schedule_window : ScheduleRecord → ScheduleWindow
to_schedule_window schedule = record {
  id = some schedule.id;
  name = schedule.name;
  kind = or_else schedule.kind playlist;
  playlist_id = schedule.playlist_id;
  content_id = schedule.content_id;
  display_id = schedule.display_id;
  start_date = or_else schedule.start_date first_date;
  end_date = or_else schedule.end_date last_date;
  start_time = schedule.start_time;
  end_time = schedule.end_time;
}

-- `current.id && input.excludeScheduleIds?.has(current.id)`; no set is the empty one.
abbrev pub is_excluded : List String → ScheduleWindow → Bool
is_excluded exclude current = elim (truthy current.id) [
  | none ↦ false
  | some id ↦ includes exclude id
]

abbrev keep_if {ℓ} : {A : Type ℓ} → Bool → A → List A → List A
keep_if true x xs = x ∷ xs
keep_if false x xs = xs

unfoldable pub find_conflicts :
    ScheduleWindow → List String → List ScheduleWindow → Result (List ScheduleWindow)
find_conflicts candidate exclude [] = ok []
find_conflicts candidate exclude (current ∷ rest) = do
  conflict ← (if is_excluded exclude current then ok false else windows_conflict candidate current)
  conflicts ← find_conflicts candidate exclude rest
  ok (keep_if conflict current conflicts)

abbrev refuse_conflicts : List ScheduleWindow → Result (Unit {0})
refuse_conflicts [] = ok tt
refuse_conflicts (c ∷ cs) = err (schedule_conflict (map (λ w. or_else w.id "unknown") (c ∷ cs)))

unfoldable pub ensure_no_schedule_conflicts :
    ScheduleWindow → List ScheduleWindow → List String → Result (Unit {0})
ensure_no_schedule_conflicts candidate existing exclude =
    find_conflicts candidate exclude existing >>= refuse_conflicts

-- The dates of a window whose times and dates have the right form and order.
unfoldable pub get_validated_window :
    Option String → Option String → String → String → Result (String × String)
get_validated_window start_date end_date start_time end_time = do
  guard (is_valid_time start_time && is_valid_time end_time) (validation "Invalid time range")
  let start = or_else start_date first_date
  let end = or_else end_date last_date
  guard (is_valid_date start && is_valid_date end && str_le start end)
      (validation "Invalid date range")
  ok (start, end)

unfoldable pub is_schedule_finished : Option String → String → String → String → Bool
is_schedule_finished end_date end_time date time =
    let last = or_else end_date last_date in
    if str_lt last date then true else if str_lt date last then false else str_lt end_time time
