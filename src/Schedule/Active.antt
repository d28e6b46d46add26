-- ===== src/Schedule/Active.antt =====
-- When a schedule is active, and which one of a list is the first.
use wildfire.Base.{
  String, ◌≡◌, ◌≢◌, ◌↔◌, ◌≤◌, ◌⊎◌, refl, ap, inl, inr, Bool, true, ◌&&◌, List, [], ◌∷◌, ◌++◌,
  Option, none, some, All, arith, filter, head?, or_else, truthy, str_le, Bool-cases, Option-cases,
}
use wildfire.Schedule.{
  ScheduleRecord, SchedulableKind, playlist, flash, kind_eq, has_kind, date_active, time_active,
  is_valid_time, is_valid_date, to_minutes, is_within_date_window, is_within_time_window,
}
use wildfire.Schedule.Windows.{minutes_until, is_within_time_window_iff}

-- One of the dates is missing, or the three are dates and the day is between the two.
pub data IsOnDate (date : String) (s : ScheduleRecord) : Type 0 where
  always : (truthy s.start_date ≡ none) ⊎ (truthy s.end_date ≡ none) → IsOnDate date s
  between :
      (start end : String)
      → truthy s.start_date ≡ some start
      → truthy s.end_date ≡ some end
      → (is_valid_date date ≡ true) × (is_valid_date start ≡ true) × (is_valid_date end ≡ true)
      → (str_le start date ≡ true) × (str_le date end ≡ true)
      → IsOnDate date s

-- The clock, set going at the start, comes to the time no later than to the end.
pub record IsOnTime (time : String) (s : ScheduleRecord) : Type 0 where
  pub time_valid : is_valid_time time ≡ true
  pub start_valid : is_valid_time s.start_time ≡ true
  pub end_valid : is_valid_time s.end_time ≡ true
  pub lasts : to_minutes s.start_time ≢ to_minutes s.end_time
  pub runs :
      minutes_until (to_minutes s.start_time) (to_minutes time)
      ≤ minutes_until (to_minutes s.start_time) (to_minutes s.end_time)

-- A schedule without a kind is one of a playlist.
pub record IsActiveOf (kind : SchedulableKind) (date time : String) (s : ScheduleRecord)
    : Type 0 where
  pub of_kind : or_else s.kind playlist ≡ kind
  pub on_date : IsOnDate date s
  pub on_time : IsOnTime time s

kind_eq_iff : (a b : SchedulableKind) → (kind_eq a b ≡ true) ↔ (a ≡ b)
kind_eq_iff playlist playlist = ((λ _. refl), (λ _. refl))
kind_eq_iff flash flash = ((λ _. refl), (λ _. refl))
kind_eq_iff playlist flash = ((λ e. cc), (λ e. cc))
kind_eq_iff flash playlist = ((λ e. cc), (λ e. cc))

date_active-IsOnDate :
    (date : String) (s : ScheduleRecord) → date_active date s ≡ true → IsOnDate date s
unfolding date_active is_within_date_window
date_active-IsOnDate date s e = elim (Option-cases (truthy s.start_date)) [
  | inl h ↦ always (inl h)
  | inr (start, h) ↦ elim (Option-cases (truthy s.end_date)) [
    | inl k ↦ always (inr k)
    | inr (end, k) ↦
        let inside : is_within_date_window date start end ≡ true =
          rw (k, date_active) at (rw (h, date_active) at e) in
        between start end h k (ground arith, ground arith, ground arith)
          (ground arith, ground arith)
  ]
]

IsOnDate-date_active :
    (date : String) (s : ScheduleRecord) → IsOnDate date s → date_active date s ≡ true
unfolding date_active is_within_date_window
IsOnDate-date_active date s (always (inl h)) = rw (h, date_active) refl
IsOnDate-date_active date s (always (inr k)) = elim (Option-cases (truthy s.start_date)) [
  | inl h ↦ rw (h, date_active) refl
  | inr (start, h) ↦ rw (h, date_active) (rw (k, date_active) refl)
]
IsOnDate-date_active date s (between start end h k (a, b, c) (p, q)) =
    rw (h, date_active) (rw (k, date_active) (rw (a, b, c) (rw (p, q) refl)))

time_active-IsOnTime :
    (time : String) (s : ScheduleRecord) → time_active time s ≡ true → IsOnTime time s
unfolding time_active is_within_time_window
time_active-IsOnTime time s e =
    let a : is_valid_time time ≡ true = ground arith in
    let b : is_valid_time s.start_time ≡ true = ground arith in
    let c : is_valid_time s.end_time ≡ true = ground arith in
    let (lasts, runs) = (is_within_time_window_iff time s.start_time s.end_time a b c).0 e in
    record { time_valid = a; start_valid = b; end_valid = c; lasts = lasts; runs = runs }

IsOnTime-time_active :
    (time : String) (s : ScheduleRecord) → IsOnTime time s → time_active time s ≡ true
unfolding time_active
IsOnTime-time_active time s i =
    (is_within_time_window_iff time s.start_time s.end_time i.time_valid i.start_valid
        i.end_valid).1
      (i.lasts, i.runs)

pub active_iff :
    (kind : SchedulableKind) (date time : String) (s : ScheduleRecord)
    → (((has_kind kind s && date_active date s) && time_active time s) ≡ true)
      ↔ IsActiveOf kind date time s
active_iff kind date time s = (
  (λ e. record {
    of_kind = (kind_eq_iff (or_else s.kind playlist) kind).0 (ground arith);
    on_date = date_active-IsOnDate date s (ground arith);
    on_time = time_active-IsOnTime time s (ground arith);
  }),
  (λ i.
      rw
        (
          (kind_eq_iff (or_else s.kind playlist) kind).1 i.of_kind,
          IsOnDate-date_active date s i.on_date,
          IsOnTime-time_active time s i.on_time,
        )
        refl),
)

-- The list falls into schedules without the property, one that has it, and the rest; or none has it.
pub data IsFirst (P : ScheduleRecord → Type 0) (l : List ScheduleRecord)
    : Option ScheduleRecord → Type 0 where
  nothing : All (λ s. ¬ P s) l → IsFirst P l none
  first :
      (before : List ScheduleRecord) (s : ScheduleRecord) (after : List ScheduleRecord)
      → l ≡ before ++ s ∷ after
      → All (λ x. ¬ P x) before
      → P s
      → IsFirst P l (some s)

module _ (P : ScheduleRecord → Type 0) (p : ScheduleRecord → Bool)
    (tests : (s : ScheduleRecord) → (p s ≡ true) ↔ P s) where
  IsFirst-cons :
      (x : ScheduleRecord) (xs : List ScheduleRecord) {o : Option ScheduleRecord}
      → ¬ P x
      → IsFirst P xs o
      → IsFirst P (x ∷ xs) o
  IsFirst-cons x xs n (nothing h) = nothing (n, h)
  IsFirst-cons x xs n (first before s after split h q) =
      first (x ∷ before) s after (ap (λ l. x ∷ l) split) (n, h) q

  pub head?-filter : (l : List ScheduleRecord) → IsFirst P l (head? (filter p l))
  head?-filter [] = nothing tt
  head?-filter (x ∷ xs) = elim (Bool-cases (p x)) [
    | inl e ↦ rw e (first [] x xs refl tt ((tests x).0 e))
    | inr e ↦ rw e (IsFirst-cons x xs (λ q. absurd (cc (e, (tests x).1 q))) (head?-filter xs))
  ]
