-- ===== src/Scheduling/Segments.antt =====
-- `parseTimeToSeconds` on the times that the validation admits, and the segments of a day.
use wildfire.Base.{
  ℕ, ◌+◌, ◌*◌, ◌≤◌, ◌<◌, ◌≡◌, true, false, List, [], ◌∷◌, arith, ltb, eqb, String, ◌>>=◌, units,
  split_at, parse_int, ok, ap, some, Bool, if◌then◌else◌, leb, ◌&&◌, ◌||◌,
}
use wildfire.Base.Int.{pos, ◌+ℤ◌, scale}
use wildfire.Schedule.{matches_time, units_minutes, is_valid_time, to_minutes, two_digits}
use wildfire.Schedule.Clock.{matches_time-TimeShape, units_minutes-shape}
use wildfire.Scheduling.{
  parse_seconds, parse_time_to_seconds, segments, to_daily_time_segments, segments_overlap,
}

-- Two digits are read as the number that they spell.
parse_int-two_digits :
    (a b : ℕ)
    → 48 ≤ a
    → a ≤ 57
    → 48 ≤ b
    → b ≤ 57
    → parse_int (a ∷ b ∷ []) ≡ some (pos (two_digits a b))
unfolding parse_int
parse_int-two_digits a b p q r s = ground arith

split_at-digits :
    (h h' m m' : ℕ)
    → 48 ≤ h
    → h ≤ 57
    → 48 ≤ h'
    → h' ≤ 57
    → 48 ≤ m
    → m ≤ 57
    → 48 ≤ m'
    → m' ≤ 57
    → split_at b':' (h ∷ h' ∷ b':' ∷ m ∷ m' ∷ []) ≡ (h ∷ h' ∷ [], (m ∷ m' ∷ []) ∷ [])
unfolding split_at
split_at-digits h h' m m' p1 p2 p3 p4 p5 p6 p7 p8 = ground arith

scale-pos : (k n : ℕ) → scale k (pos n) ≡ pos (k * n)
unfolding scale
scale-pos k n = ground arith

+ℤ-pos : (a b : ℕ) → pos a +ℤ pos b ≡ pos (a + b)
unfolding ◌+ℤ◌
+ℤ-pos a b = ground arith

-- A valid time is read as sixty times its minutes.
pub parse_seconds-minutes :
    (l : List ℕ) → matches_time l ≡ true → parse_seconds l ≡ ok (pos (units_minutes l * 60))
parse_seconds-minutes l e =
    let s = matches_time-TimeShape l e in
    let (m1, m2, m3, m4) = s.minute_bounds in
    let a : 48 ≤ s.hour = ground arith in
    let b : s.hour ≤ 57 = ground arith in
    let c : 48 ≤ s.hour' = ground arith in
    let d : s.hour' ≤ 57 = ground arith in
    rw (units_minutes-shape l s e, s.shape)
      (unfold parse_seconds in
        rw
          (
            split_at-digits s.hour s.hour' s.minute s.minute' a b c d m1 (omega arith) m3 m4,
            parse_int-two_digits s.hour s.hour' a b c d,
            parse_int-two_digits s.minute s.minute' m1 (omega arith) m3 m4,
            scale-pos,
            scale-pos,
            +ℤ-pos,
          )
          (ap (λ n. ok (pos n)) (omega arith)))

parse_time_to_seconds-minutes :
    (t : String) → is_valid_time t ≡ true → parse_time_to_seconds t ≡ ok (pos (to_minutes t * 60))
unfolding parse_time_to_seconds to_minutes is_valid_time
parse_time_to_seconds-minutes t v = parse_seconds-minutes (units t) v

-- The segments of two valid times.
pub to_daily_time_segments-minutes :
    (s e : String)
    → is_valid_time s ≡ true
    → is_valid_time e ≡ true
    → to_daily_time_segments s e ≡ ok (segments (pos (to_minutes s * 60)) (pos (to_minutes e * 60)))
unfolding to_daily_time_segments ◌>>=◌
to_daily_time_segments-minutes s e v w =
    rw (parse_time_to_seconds-minutes s v, parse_time_to_seconds-minutes e w)

-- The seconds of a day that a window covers: from its start up to its end, past midnight where the
-- end comes first, and none where they are equal.
abbrev pub covers : ℕ → ℕ → ℕ → Bool
covers start end t =
    if eqb start end
    then false
    else if ltb start end
    then leb start t && ltb t end
    else leb start t || ltb t end

pub segments_overlap_sound :
    (s e s' e' t : ℕ)
    → t < 86400
    → covers s e t ≡ true
    → covers s' e' t ≡ true
    → segments_overlap (segments (pos s) (pos e)) (segments (pos s') (pos e')) ≡ true
unfolding segments_overlap segments
segments_overlap_sound s e s' e' t d p q = ground arith

-- Two arcs of the day meet only where one of them starts inside the other.
pub segments_overlap_complete :
    (s e s' e' : ℕ)
    → s < 86400
    → e < 86400
    → s' < 86400
    → e' < 86400
    → segments_overlap (segments (pos s) (pos e)) (segments (pos s') (pos e')) ≡ true
    → (t : ℕ) × (t < 86400) × (covers s e t ≡ true) × (covers s' e' t ≡ true)
unfolding segments_overlap segments
segments_overlap_complete s e s' e' a b c d h =
    ((if covers s e s' then s' else s), ground arith, ground arith, ground arith)

pub segments_overlap_comm :
    (s e s' e' : ℕ)
    → segments_overlap (segments (pos s) (pos e)) (segments (pos s') (pos e'))
      ≡ segments_overlap (segments (pos s') (pos e')) (segments (pos s) (pos e))
unfolding segments_overlap segments
segments_overlap_comm s e s' e' = ground arith
