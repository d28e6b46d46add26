-- ===== src/Displays/Tests.antt =====
-- Runs of the theorems on registration attempts.
use wildfire.Base.{◌+◌, ◌≡◌, ◌<◌, refl, none, some, arith, differs}
use wildfire.Displays.Attempts.{
  AttemptStore, AttemptCode, create_or_replace_open_attempt, rotate_code, close_attempt,
  consume_code_hash, consume_from, replace_open, new_attempt, put_attempt, code_expiry,
  get_attempt_ttl_ms, non_empty,
}
use wildfire.Displays.Attempts.Invariant.{IsCode, create_or_replace_open_attempt-IsSound}
use wildfire.Displays.Attempts.Sound.{IsSound}
use wildfire.Displays.Attempts.Reach.{here, next, rotated, consumed, closed, Reach-IsSound}
use wildfire.Displays.Attempts.Codes.{
  consume_code_hash-once, create_or_replace_open_attempt-consume,
}
use wildfire.Displays.Attempts.Voids.{create_or_replace_open_attempt-voids, rotate_code-exchanges}

abbrev nothing : AttemptStore
nothing = record {
  attempts = λ _. none;
  open_attempts = λ _. none;
  codes = λ _. none;
  sessions = λ _. none;
}

nothing-IsSound : IsSound nothing
nothing-IsSound = record { indexed = λ h p e. absurd (cc); keyed = λ id a e. absurd (cc) }

abbrev code : AttemptCode
code = record { code_hash = "h1"; pairing_code_id = "p1"; expires_at_ms = 60000 }

abbrev next_code : AttemptCode
next_code = record { code_hash = "h2"; pairing_code_id = "p2"; expires_at_ms = 90000 }

is_code : IsCode code
is_code = (differs "h1" "" refl, differs "p1" "" refl)

is_next_code : IsCode next_code
is_next_code = (differs "h2" "" refl, differs "p2" "" refl)

-- One open attempt, with its code.
abbrev one : AttemptStore
one = put_attempt "a1" "a1" "u1" code 1000 (new_attempt "a1" "u1" code 1000 1000) nothing

one-IsSound : IsSound one
unfolding create_or_replace_open_attempt replace_open
one-IsSound =
    create_or_replace_open_attempt-IsSound "a1" "u1" code 1000 1000 nothing nothing-IsSound refl
      is_code

-- One attempt is made, its code is rotated, the old code asked for, and the attempt closed.
abbrev rotated_once : AttemptStore
rotated_once = (rotate_code "a1" "u1" next_code 2000 2000 one).1

abbrev asked : AttemptStore
asked = (consume_code_hash "h1" 3000 3000 rotated_once).1

Reach-IsSound_example : IsSound (close_attempt "a1" "u1" 4000 4000 asked).1
Reach-IsSound_example = Reach-IsSound one one-IsSound (
    next
      (next (next here (rotated "a1" "u1" next_code 2000 2000 is_next_code))
        (consumed "h1" 3000 3000))
      (closed "a1" "u1" 4000 4000))

consume_code_hash-once_example :
    (consume_code_hash "h1" 3000 3000 (consume_code_hash "h1" 2000 2000 one).1).0 ≡ none
unfolding consume_code_hash consume_from get_attempt_ttl_ms
consume_code_hash-once_example =
    consume_code_hash-once "h1" 2000 2000 3000 3000 one {r = ("a1", "p1")} refl

create_or_replace_open_attempt-consume_example :
    (consume_code_hash "h1" 2000 2000
      (create_or_replace_open_attempt "a1" "u1" code 1000 1000 nothing).1).0
    ≡ some ("a1", "p1")
unfolding get_attempt_ttl_ms
create_or_replace_open_attempt-consume_example =
    create_or_replace_open_attempt-consume "a1" "u1" code 1000 1000 2000 2000 nothing is_code
      (differs "a1" "" refl) (differs "u1" "" refl) (omega arith) (omega arith) (omega arith)

create_or_replace_open_attempt-voids_example :
    (consume_code_hash "h1" 3000 3000
      (create_or_replace_open_attempt "a2" "u1" next_code 2000 2000 one).1).0
    ≡ none
unfolding get_attempt_ttl_ms
create_or_replace_open_attempt-voids_example =
    create_or_replace_open_attempt-voids "a2" "u1" next_code 2000 2000 3000 3000 one
      (record { attempt_id = "a1"; expires_at = 1860000 }) (new_attempt "a1" "u1" code 1000 1000)
      refl refl (differs "a1" "" refl) (differs "u1" "" refl) refl (differs "h1" "h2" refl)

rotate_code-exchanges_example :
    ((rotate_code "a1" "u1" next_code 2000 2000 one).0 ≡ some (non_empty "p1"))
    × ((consume_code_hash "h1" 3000 3000 (rotate_code "a1" "u1" next_code 2000 2000 one).1).0
        ≡ none)
    × (3000 < code_expiry 90000
        → 3000 < 2000 + get_attempt_ttl_ms 2000 90000
        → 3000 < 90000
        → (consume_code_hash "h2" 3000 3000 (rotate_code "a1" "u1" next_code 2000 2000 one).1).0
          ≡ some ("a1", "p2"))
unfolding get_attempt_ttl_ms
rotate_code-exchanges_example =
    rotate_code-exchanges "a1" "u1" next_code 2000 2000 3000 3000 one
      (new_attempt "a1" "u1" code 1000 1000) refl refl (differs "a1" "" refl) refl
      (differs "u1" "" refl) refl refl is_next_code (differs "h1" "h2" refl)
