-- ===== src/Schedule.antt =====
-- domain/schedules/schedule.ts: times of day, dates, and the schedules that are active.
-- `Date` is the number of milliseconds since the epoch. What `Intl` computes is a parameter.
pub mod Clock
pub mod Windows
pub mod Active
pub mod Selection
mod Tests
use wildfire.Base.{
  ℕ, ◌+◌, ◌-◌, ◌*◌, String, ◌==◌, Bool, true, false, not, ◌&&◌, ◌||◌, Option, none, some, List, [],
  ◌∷◌, ltb, leb, eqb, if◌then◌else◌, filter, find, head?, sort_by, units, str_le, truthy, or_else,
  is_digit, Result, ok, err, fault, ◌>>=◌, ◌>>◌,
}
use mathlib.Core.Option
use Prim.Native.String

pub data SchedulableKind : Type 0 where
  playlist flash : SchedulableKind

abbrev pub kind_eq : SchedulableKind → SchedulableKind → Bool
kind_eq playlist playlist = true
kind_eq flash flash = true
kind_eq _ _ = false

-- An absent field and a null one are both `none`: the code reads them alike.
pub record ScheduleRecord : Type 0 where
  pub id : String
  pub name : String
  pub kind : Option SchedulableKind
  pub playlist_id : Option String
  pub content_id : Option String
  pub display_id : String
  pub created_by : Option String
  pub start_date : Option String
  pub end_date : Option String
  pub start_time : String
  pub end_time : String
  pub created_at : String
  pub updated_at : String

-- What the runtime's internationalisation library answers: the parts of a formatted instant in a
-- time zone, as pairs of type and value, and whether `a.localeCompare(b) <= 0`.
pub record Intl : Type 0 where
  pub time_parts : ℕ → String → List (String × String)
  pub date_parts : ℕ → String → List (String × String)
  pub date_time_parts : ℕ → String → List (String × String)
  pub locale_le : String → String → Bool

abbrev pub normalize_schedule_kind : Option SchedulableKind → SchedulableKind
normalize_schedule_kind kind = or_else kind playlist

-- /^([01]\d|2[0-3]):([0-5]\d)$/
unfoldable pub matches_time : List ℕ → Bool
matches_time (h ∷ h' ∷ c ∷ m ∷ m' ∷ []) =
    (leb b'0' h && leb h b'1' && is_digit h' || eqb h b'2' && leb b'0' h' && leb h' b'3')
    && eqb c b':'
    && leb b'0' m
    && leb m b'5'
    && is_digit m'
matches_time _ = false

unfoldable pub is_valid_time : String → Bool
is_valid_time value = matches_time (units value)

-- /^\d{4}-\d{2}-\d{2}$/
unfoldable pub matches_date : List ℕ → Bool
matches_date (y ∷ y' ∷ y'' ∷ y''' ∷ c ∷ m ∷ m' ∷ c' ∷ d ∷ d' ∷ []) =
    is_digit y
    && is_digit y'
    && is_digit y''
    && is_digit y'''
    && eqb c b'-'
    && is_digit m
    && is_digit m'
    && eqb c' b'-'
    && is_digit d
    && is_digit d'
matches_date _ = false

unfoldable pub is_valid_date : String → Bool
is_valid_date value = matches_date (units value)

-- `Number` of the two digits of a group of the match.
abbrev pub two_digits : ℕ → ℕ → ℕ
two_digits a b = (a - b'0') * 10 + (b - b'0')

unfoldable pub units_minutes : List ℕ → ℕ
units_minutes (h ∷ h' ∷ c ∷ m ∷ m' ∷ []) =
    if matches_time (h ∷ h' ∷ c ∷ m ∷ m' ∷ []) then two_digits h h' * 60 + two_digits m m' else 0
units_minutes _ = 0

unfoldable pub to_minutes : String → ℕ
to_minutes value = units_minutes (units value)

-- `parts.find((part) => part.type === type)?.value`
abbrev pub part_value : String → List (String × String) → Option String
part_value type parts = Option.map (λ (p : String × String). p.1) (find (λ p. p.0 == type) parts)

infixl 65 ◌+++◌
abbrev pub ◌+++◌ : String → String → String
◌+++◌ = String.◌++◌

unfoldable pub to_zoned_time_string : Intl → ℕ → String → Result String
to_zoned_time_string intl now time_zone =
    let parts = intl.time_parts now time_zone in
    elim (truthy (part_value "hour" parts)) [
      | none ↦ err (fault "Unable to resolve zoned time parts")
      | some hour ↦ elim (truthy (part_value "minute" parts)) [
        | none ↦ err (fault "Unable to resolve zoned time parts")
        | some minute ↦ ok (hour +++ ":" +++ minute)
      ]
    ]

unfoldable pub to_zoned_date_string : Intl → ℕ → String → Result String
to_zoned_date_string intl now time_zone =
    let parts = intl.date_parts now time_zone in
    elim (truthy (part_value "year" parts)) [
      | none ↦ err (fault "Unable to resolve zoned date parts")
      | some year ↦ elim (truthy (part_value "month" parts)) [
        | none ↦ err (fault "Unable to resolve zoned date parts")
        | some month ↦ elim (truthy (part_value "day" parts)) [
          | none ↦ err (fault "Unable to resolve zoned date parts")
          | some day ↦ ok (year +++ "-" +++ month +++ "-" +++ day)
        ]
      ]
    ]

-- The comparison of the three numbers, after the early returns.
unfoldable pub within_minutes : ℕ → ℕ → ℕ → Bool
within_minutes current start end =
    if eqb start end
    then false
    else if ltb start end
    then leb start current && leb current end
    else leb start current || leb current end

unfoldable pub is_within_time_window : String → String → String → Bool
is_within_time_window current start end =
    if not (is_valid_time current) || not (is_valid_time start) || not (is_valid_time end)
    then false
    else within_minutes (to_minutes current) (to_minutes start) (to_minutes end)

unfoldable pub is_within_date_window : String → String → String → Bool
is_within_date_window current start end =
    if not (is_valid_date current) || not (is_valid_date start) || not (is_valid_date end)
    then false
    else str_le start current && str_le current end

-- The two filters of `selectActiveSchedule` and `selectActiveSchedules`.
unfoldable pub date_active : String → ScheduleRecord → Bool
date_active date schedule = elim (truthy schedule.start_date) [
  | none ↦ true
  | some start ↦ elim (truthy schedule.end_date) [
    | none ↦ true
    | some end ↦ is_within_date_window date start end
  ]
]

unfoldable pub time_active : String → ScheduleRecord → Bool
time_active time schedule = is_within_time_window time schedule.start_time schedule.end_time

unfoldable pub select_active_schedule :
    Intl → List ScheduleRecord → ℕ → String → Result (Option ScheduleRecord)
select_active_schedule intl schedules now time_zone = do
  time ← to_zoned_time_string intl now time_zone
  date ← to_zoned_date_string intl now time_zone
  ok (head? (filter (time_active time) (filter (date_active date) schedules)))

abbrev pub has_kind : SchedulableKind → ScheduleRecord → Bool
has_kind kind schedule = kind_eq (normalize_schedule_kind schedule.kind) kind

unfoldable pub select_active_schedule_by_kind :
    Intl → List ScheduleRecord → SchedulableKind → ℕ → String → Result (Option ScheduleRecord)
select_active_schedule_by_kind intl schedules kind now time_zone =
    select_active_schedule intl (filter (has_kind kind) schedules) now time_zone

unfoldable pub select_active_schedules :
    Intl → List ScheduleRecord → ℕ → String → Result (List ScheduleRecord)
select_active_schedules intl schedules now time_zone = do
  time ← to_zoned_time_string intl now time_zone
  date ← to_zoned_date_string intl now time_zone
  ok (
      sort_by (λ a b. intl.locale_le a.created_at b.created_at)
        (filter (time_active time) (filter (date_active date) schedules)))

unfoldable pub select_active_schedules_by_kind :
    Intl → List ScheduleRecord → SchedulableKind → ℕ → String → Result (List ScheduleRecord)
select_active_schedules_by_kind intl schedules kind now time_zone =
    select_active_schedules intl (filter (has_kind kind) schedules) now time_zone
