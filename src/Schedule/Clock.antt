-- ===== src/Schedule/Clock.antt =====
-- The `HH:MM` texts that the regular expression of schedule.ts admits: their digits and minutes.
use wildfire.Base.{ℕ, ◌+◌, ◌*◌, ◌≤◌, ◌<◌, ◌≡◌, refl, ◌⊎◌, true, List, [], ◌∷◌, arith, String, units}
use wildfire.Schedule.{matches_time, units_minutes, to_minutes, two_digits}

-- The four digits of a time.
pub record TimeShape (l : List ℕ) : Type 0 where
  pub hour : ℕ
  pub hour' : ℕ
  pub minute : ℕ
  pub minute' : ℕ
  pub hour_bounds :
      ((48 ≤ hour) × (hour ≤ 49) × (48 ≤ hour') × (hour' ≤ 57))
      ⊎ ((hour ≡ 50) × (48 ≤ hour') × (hour' ≤ 51))
  pub minute_bounds : (48 ≤ minute) × (minute ≤ 53) × (48 ≤ minute') × (minute' ≤ 57)
  pub shape : l ≡ hour ∷ hour' ∷ b':' ∷ minute ∷ minute' ∷ []

pub matches_time-TimeShape : (l : List ℕ) → matches_time l ≡ true → TimeShape l
unfolding matches_time
matches_time-TimeShape (h ∷ h' ∷ c ∷ m ∷ m' ∷ []) e = record {
  hour = h;
  hour' = h';
  minute = m;
  minute' = m';
  hour_bounds = ground arith;
  minute_bounds = ground arith;
  shape = ground arith;
}
matches_time-TimeShape _ e = cc

pub units_minutes-shape :
    (l : List ℕ) (s : TimeShape l)
    → matches_time l ≡ true
    → units_minutes l ≡ two_digits s.hour s.hour' * 60 + two_digits s.minute s.minute'
unfolding units_minutes
units_minutes-shape l s e = rw s.shape (rw (rw s.shape at e) refl)

pub units_minutes-lt : (l : List ℕ) → units_minutes l < 1440
unfolding units_minutes matches_time
units_minutes-lt (h ∷ h' ∷ c ∷ m ∷ m' ∷ []) = ground arith
units_minutes-lt _ = omega arith

pub to_minutes-lt : (t : String) → to_minutes t < 1440
unfolding to_minutes
to_minutes-lt t = units_minutes-lt (units t)
