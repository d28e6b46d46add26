-- ===== src/Schedule/Windows.antt =====
-- `isWithinTimeWindow` and `isWithinDateWindow` against the clock.
use wildfire.Base.{ℕ, ◌+◌, ◌-◌, ◌%◌, ◌≤◌, ◌<◌, ◌≡◌, ◌≢◌, ◌↔◌, ◌⊎◌, true, false, String, arith}
use wildfire.Schedule.{is_valid_time, to_minutes, within_minutes, is_within_time_window}
use wildfire.Schedule.Clock.{to_minutes-lt}

-- The minutes that the clock needs from `from` on to show `to`.
abbrev pub minutes_until : ℕ → ℕ → ℕ
minutes_until from to = (to + 1440 - from) % 1440

within_minutes_iff :
    (c s e : ℕ)
    → c < 1440
    → s < 1440
    → e < 1440
    → (within_minutes c s e ≡ true) ↔ ((s ≢ e) × (minutes_until s c ≤ minutes_until s e))
unfolding within_minutes
within_minutes_iff c s e p q r = ground arith

-- For valid times, a window is active exactly when its two times differ and the clock, set going
-- at the start, comes to the current time no later than to the end: past midnight too.
pub is_within_time_window_iff :
    (current start end : String)
    → is_valid_time current ≡ true
    → is_valid_time start ≡ true
    → is_valid_time end ≡ true
    → (is_within_time_window current start end ≡ true) ↔ (
        (to_minutes start ≢ to_minutes end)
        × (minutes_until (to_minutes start) (to_minutes current)
            ≤ minutes_until (to_minutes start) (to_minutes end)))
unfolding is_within_time_window
is_within_time_window_iff current start end p q r =
    rw (p, q, r)
      (within_minutes_iff (to_minutes current) (to_minutes start) (to_minutes end)
        (to_minutes-lt current) (to_minutes-lt start) (to_minutes-lt end))

-- Where one of the three texts is no time of day, the window is not active.
pub is_within_time_window-invalid :
    (current start end : String)
    → (is_valid_time current ≡ false) ⊎ (is_valid_time start ≡ false) ⊎ (is_valid_time end ≡ false)
    → is_within_time_window current start end ≡ false
unfolding is_within_time_window
is_within_time_window-invalid current start end h = ground arith
