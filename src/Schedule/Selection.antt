-- ===== src/Schedule/Selection.antt =====
-- The active schedules among those of a display.
use mathlib.Core.List.{Perm}
use wildfire.Base.{
  ℕ, String, ◌≡◌, refl, ◌⊎◌, inl, Bool, true, false, ◌&&◌, List, [], ◌∷◌, Option, none, filter,
  head?, sort_by, ok, ap, ◌∙◌, ◌>>=◌, filter-filter,
}
use wildfire.Schedule.Active.{IsActiveOf, IsFirst, active_iff, head?-filter}
use wildfire.Schedule.Windows.{is_within_time_window-invalid}
use wildfire.Base.Sorting.{IsAscending, sort_by-perm, sort_by-IsAscending}
use wildfire.Schedule.{
  is_valid_time, Intl, ScheduleRecord, SchedulableKind, has_kind, date_active, time_active,
  to_zoned_time_string, to_zoned_date_string, select_active_schedule, select_active_schedules,
  select_active_schedule_by_kind, select_active_schedules_by_kind,
}

-- Of the kind asked for, and active at a local date and time.
abbrev pub is_active_of : SchedulableKind → String → String → ScheduleRecord → Bool
is_active_of kind date time s = (has_kind kind s && date_active date s) && time_active time s

filters-fused :
    (kind : SchedulableKind) (date time : String) (l : List ScheduleRecord)
    → filter (time_active time) (filter (date_active date) (filter (has_kind kind) l))
      ≡ filter (is_active_of kind date time) l
filters-fused kind date time l =
    ap (filter (time_active time)) (filter-filter (date_active date) (has_kind kind) l)
    ∙ filter-filter (time_active time) (λ s. has_kind kind s && date_active date s) l

module _ (intl : Intl) (schedules : List ScheduleRecord) (kind : SchedulableKind) (now : ℕ)
    (zone date time : String) (clock : to_zoned_time_string intl now zone ≡ ok time)
    (calendar : to_zoned_date_string intl now zone ≡ ok date) where
  -- `selectActiveScheduleByKind` answers the first schedule of the kind whose dates, where it has
  -- both, enclose the local date, and whose times differ and enclose the local time, past midnight
  -- too; and null exactly where there is none.
  pub select_active_schedule_by_kind-IsFirst :
      (o : Option ScheduleRecord) × (select_active_schedule_by_kind intl schedules kind now zone
        ≡ ok o)
      × IsFirst (IsActiveOf kind date time) schedules o
  unfolding select_active_schedule_by_kind select_active_schedule ◌>>=◌
  select_active_schedule_by_kind-IsFirst = (
    head? (filter (is_active_of kind date time) schedules),
    rw (clock, calendar, filters-fused kind date time schedules),
    head?-filter (IsActiveOf kind date time) (is_active_of kind date time)
        (active_iff kind date time) schedules,
  )

  -- `selectActiveSchedulesByKind` answers all the active schedules of the kind, each as often as
  -- it was given, and with the earliest creation first where the locale's order of the creation
  -- times is total and transitive.
  pub select_active_schedules_by_kind-sorted :
      ((a b : String) → (intl.locale_le a b ≡ true) ⊎ (intl.locale_le b a ≡ true))
      → ((a b c : String)
          → intl.locale_le a b ≡ true
          → intl.locale_le b c ≡ true
          → intl.locale_le a c ≡ true)
      → (l : List ScheduleRecord) × (select_active_schedules_by_kind intl schedules kind now zone
          ≡ ok l)
        × Perm l (filter (is_active_of kind date time) schedules)
        × IsAscending (λ a b. intl.locale_le a.created_at b.created_at) l
  unfolding select_active_schedules_by_kind select_active_schedules ◌>>=◌
  select_active_schedules_by_kind-sorted total trans = (
    sort_by by_creation (filter (is_active_of kind date time) schedules),
    rw (clock, calendar, filters-fused kind date time schedules),
    sort_by-perm by_creation _,
    sort_by-IsAscending by_creation (λ a b. total a.created_at b.created_at)
        (λ a b c. trans a.created_at b.created_at c.created_at) _,
  )
    where
      by_creation : ScheduleRecord → ScheduleRecord → Bool
      by_creation a b = intl.locale_le a.created_at b.created_at

none_active :
    (time : String)
    → is_valid_time time ≡ false
    → (l : List ScheduleRecord) → filter (time_active time) l ≡ []
unfolding time_active
none_active time e [] = refl
none_active time e (s ∷ l) =
    rw (is_within_time_window-invalid time s.start_time s.end_time (inl e)) (none_active time e l)

-- Where the library gives a local time that is not from 00:00 to 23:59, such as an hour of 24 at
-- midnight, no schedule is active, whatever its window.
pub select_active_schedule-invalid :
    (intl : Intl) (schedules : List ScheduleRecord) (now : ℕ) (zone date time : String)
    → to_zoned_time_string intl now zone ≡ ok time
    → to_zoned_date_string intl now zone ≡ ok date
    → is_valid_time time ≡ false
    → (select_active_schedule intl schedules now zone ≡ ok none)
      × (select_active_schedules intl schedules now zone ≡ ok [])
unfolding select_active_schedule select_active_schedules ◌>>=◌ sort_by
select_active_schedule-invalid intl schedules now zone date time clock calendar e =
    rw (clock, calendar)
      (rw (none_active time e (filter (date_active date) schedules)) (refl, refl))
