-- ===== src/Scheduling/Conflicts.antt =====
-- When two windows conflict, and what the absence of a conflict gives to the displays.
mod Tests
use wildfire.Base.{
  ℕ, ◌*◌, ◌<◌, ◌≡◌, ◌⊎◌, inl, inr, ◌↔◌, Bool, true, false, String, eq_iff, arith, Bool-cases, ok,
  ap, ◌>>=◌, sym, ◌∙◌,
}
use wildfire.Base.Int.{pos}
use wildfire.Base.Order.{str_le_trans}
use wildfire.Schedule.{
  flash, is_valid_time, to_minutes, within_minutes, is_within_time_window, is_within_date_window,
}
use wildfire.Schedule.Clock.{to_minutes-lt}
use wildfire.Scheduling.{
  ScheduleWindow, windows_conflict, has_date_range_overlap, has_time_range_overlap, segments,
  segments_overlap,
}
use wildfire.Scheduling.Segments.{
  to_daily_time_segments-minutes, covers, segments_overlap_sound, segments_overlap_complete,
  segments_overlap_comm,
}

abbrev pub HasTimes : ScheduleWindow → Type 0
HasTimes w = (is_valid_time w.start_time ≡ true) × (is_valid_time w.end_time ≡ true)

-- The seconds of the day that a window covers.
abbrev pub covers_second : ScheduleWindow → ℕ → Bool
covers_second w t = covers (to_minutes w.start_time * 60) (to_minutes w.end_time * 60) t

module _ (l r : ScheduleWindow) (p : HasTimes l) (q : HasTimes r) where
  has_time_range_overlap-minutes :
      has_time_range_overlap l r
      ≡ ok (
          segments_overlap
            (segments (pos (to_minutes l.start_time * 60)) (pos (to_minutes l.end_time * 60)))
            (segments (pos (to_minutes r.start_time * 60)) (pos (to_minutes r.end_time * 60))))
  unfolding has_time_range_overlap ◌>>=◌
  has_time_range_overlap-minutes = rw (
    to_daily_time_segments-minutes l.start_time l.end_time p.0 p.1,
    to_daily_time_segments-minutes r.start_time r.end_time q.0 q.1,
  )

  has_time_range_overlap_iff :
      (has_time_range_overlap l r ≡ ok true)
      ↔ ((t : ℕ) × (t < 86400) × (covers_second l t ≡ true) × (covers_second r t ≡ true))
  has_time_range_overlap_iff = rw has_time_range_overlap-minutes (
    (λ h.
        segments_overlap_complete (to_minutes l.start_time * 60) (to_minutes l.end_time * 60)
          (to_minutes r.start_time * 60) (to_minutes r.end_time * 60)
          (omega (arith, to_minutes-lt l.start_time)) (omega (arith, to_minutes-lt l.end_time))
          (omega (arith, to_minutes-lt r.start_time)) (omega (arith, to_minutes-lt r.end_time))
          (cc h)),
    (λ h. ap ok (
        segments_overlap_sound (to_minutes l.start_time * 60) (to_minutes l.end_time * 60)
          (to_minutes r.start_time * 60) (to_minutes r.end_time * 60) h.0 h.1 h.2 h.3)),
  )

-- The early returns, and the test of the times where none applies.
windows_conflict-cases :
    (l r : ScheduleWindow)
    → (windows_conflict l r ≡ ok false)
      ⊎ ((l.display_id ≡ r.display_id)
          × (l.kind ≡ flash)
          × (r.kind ≡ flash)
          × (has_date_range_overlap l r ≡ true)
          × (windows_conflict l r ≡ has_time_range_overlap l r))
unfolding windows_conflict
windows_conflict-cases l r = ground (arith, eq_iff l.display_id r.display_id)

windows_conflict-times :
    (l r : ScheduleWindow)
    → l.display_id ≡ r.display_id
    → l.kind ≡ flash
    → r.kind ≡ flash
    → has_date_range_overlap l r ≡ true
    → windows_conflict l r ≡ has_time_range_overlap l r
unfolding windows_conflict
windows_conflict-times l r d k k' o = ground (arith, eq_iff l.display_id r.display_id)

-- With valid times no comparison throws.
pub windows_conflict_total :
    (l r : ScheduleWindow) → HasTimes l → HasTimes r → (b : Bool) × (windows_conflict l r ≡ ok b)
windows_conflict_total l r p q = elim (windows_conflict-cases l r) [
  | inl e ↦ (false, e)
  | inr (_, _, _, _, e) ↦ (_, e ∙ has_time_range_overlap-minutes l r p q)
]

-- Two windows with valid times conflict exactly when they are FLASH windows of one display, whose
-- date ranges meet and which both cover some second of the day.
pub windows_conflict_iff :
    (l r : ScheduleWindow)
    → HasTimes l
    → HasTimes r
    → (windows_conflict l r ≡ ok true) ↔ (
        (l.display_id ≡ r.display_id)
        × (l.kind ≡ flash)
        × (r.kind ≡ flash)
        × (has_date_range_overlap l r ≡ true)
        × ((t : ℕ) × (t < 86400) × (covers_second l t ≡ true) × (covers_second r t ≡ true)))
windows_conflict_iff l r p q = (
  (λ h. elim (windows_conflict-cases l r) [
    | inl e ↦ absurd (cc)
    | inr (d, k, k', o, e) ↦ (d, k, k', o, (has_time_range_overlap_iff l r p q).0 (sym e ∙ h))
  ]),
  (λ h. windows_conflict-times l r h.0 h.1 h.2 h.3 ∙ (has_time_range_overlap_iff l r p q).1 h.4),
)

has_time_range_overlap_comm :
    (l r : ScheduleWindow)
    → HasTimes l
    → HasTimes r
    → has_time_range_overlap l r ≡ has_time_range_overlap r l
has_time_range_overlap_comm l r p q =
    rw (has_time_range_overlap-minutes l r p q, has_time_range_overlap-minutes r l q p)
      (ap ok (
        segments_overlap_comm (to_minutes l.start_time * 60) (to_minutes l.end_time * 60)
          (to_minutes r.start_time * 60) (to_minutes r.end_time * 60)))

-- The test is symmetric.
pub windows_conflict_comm :
    (l r : ScheduleWindow) → HasTimes l → HasTimes r → windows_conflict l r ≡ windows_conflict r l
unfolding windows_conflict has_date_range_overlap
windows_conflict_comm l r p q = ground (
  arith,
  eq_iff l.display_id r.display_id,
  eq_iff r.display_id l.display_id,
  has_time_range_overlap_comm l r p q,
)

-- An active window covers the first second of the minute, but for the minute of its end.
is_within_time_window-covers :
    (w : ScheduleWindow) (time : String)
    → is_within_time_window time w.start_time w.end_time ≡ true
    → (to_minutes time ≡ to_minutes w.end_time) ⊎ (covers_second w (to_minutes time * 60) ≡ true)
unfolding is_within_time_window within_minutes
is_within_time_window-covers w time h = ground arith

date_windows-overlap :
    (l r : ScheduleWindow) (date : String)
    → is_within_date_window date l.start_date l.end_date ≡ true
    → is_within_date_window date r.start_date r.end_date ≡ true
    → has_date_range_overlap l r ≡ true
unfolding is_within_date_window has_date_range_overlap
date_windows-overlap l r date p q =
    ground
      (arith, str_le_trans l.start_date date r.end_date, str_le_trans r.start_date date l.end_date)

-- Two FLASH windows of one display that do not conflict are shown at the same time only in the
-- minute at which one ends and the other starts: `isWithinTimeWindow` counts the end, the
-- conflict test does not.
pub flash_exclusive :
    (l r : ScheduleWindow) (date time : String)
    → HasTimes l
    → HasTimes r
    → l.display_id ≡ r.display_id
    → l.kind ≡ flash
    → r.kind ≡ flash
    → windows_conflict l r ≡ ok false
    → is_within_date_window date l.start_date l.end_date ≡ true
    → is_within_date_window date r.start_date r.end_date ≡ true
    → is_within_time_window time l.start_time l.end_time ≡ true
    → is_within_time_window time r.start_time r.end_time ≡ true
    → ((to_minutes time ≡ to_minutes l.end_time)) ⊎ ((to_minutes time ≡ to_minutes r.end_time))
flash_exclusive l r date time p q d k k' free dl dr tl tr =
    elim (is_within_time_window-covers l time tl) [
      | inl e ↦ inl e
      | inr c ↦ elim (is_within_time_window-covers r time tr) [
        | inl e ↦ inr e
        | inr c' ↦
            let t = to_minutes time * 60 in
            let meet = (windows_conflict_iff l r p q).1 (
              d,
              k,
              k',
              date_windows-overlap l r date dl dr,
              (t, omega (arith, to_minutes-lt time), c, c'),
            ) in
            absurd (cc)
      ]
    ]

not_conflicting :
    (l r : ScheduleWindow)
    → HasTimes l
    → HasTimes r
    → ¬ (windows_conflict l r ≡ ok true)
    → windows_conflict l r ≡ ok false
not_conflicting l r p q n =
    let (b, e) = windows_conflict_total l r p q in
    elim (Bool-cases b) [ inl t ↦ absurd (n (e ∙ ap ok t)) | inr f ↦ e ∙ ap ok f ]

no_common_second :
    (l r : ScheduleWindow)
    → to_minutes l.start_time < to_minutes l.end_time
    → to_minutes l.end_time ≡ to_minutes r.start_time
    → to_minutes r.start_time < to_minutes r.end_time
    → ((t : ℕ) × (t < 86400) × (covers_second l t ≡ true) × (covers_second r t ≡ true))
    → ⊥
no_common_second l r a e b (t, _, c, c') = ground arith

active_from :
    (time start end : String)
    → is_valid_time time ≡ true
    → is_valid_time start ≡ true
    → is_valid_time end ≡ true
    → within_minutes (to_minutes time) (to_minutes start) (to_minutes end) ≡ true
    → is_within_time_window time start end ≡ true
unfolding is_within_time_window
active_from time start end v p q h = rw (v, p, q) h

-- Where one FLASH window of a display ends at the minute in which the next one starts, the two do
-- not conflict, and yet both are active in that minute.
pub touching_both_active :
    (l r : ScheduleWindow) (time : String)
    → HasTimes l
    → HasTimes r
    → is_valid_time time ≡ true
    → to_minutes l.start_time < to_minutes l.end_time
    → to_minutes l.end_time ≡ to_minutes r.start_time
    → to_minutes r.start_time < to_minutes r.end_time
    → to_minutes time ≡ to_minutes l.end_time
    → (windows_conflict l r ≡ ok false)
      × (is_within_time_window time l.start_time l.end_time ≡ true)
      × (is_within_time_window time r.start_time r.end_time ≡ true)
touching_both_active l r time p q v a e b at = (
  not_conflicting l r p q (λ h. no_common_second l r a e b ((windows_conflict_iff l r p q).0 h).4),
  active_from time l.start_time l.end_time v p.0 p.1 (unfold within_minutes in ground arith),
  active_from time r.start_time r.end_time v q.0 q.1 (unfold within_minutes in ground arith),
)
