-- ===== src/Displays/Attempts/Reach.antt =====
-- The store's calls as steps: what every state that they reach keeps.
use wildfire.Base.{ℕ, ◌≡◌, none, String}
use wildfire.Displays.Attempts.{
  AttemptStore, AttemptCode, create_or_replace_open_attempt, rotate_code, close_attempt,
  consume_code_hash, bind_session_attempt, consume_session_attempt_id,
}
use wildfire.Displays.Attempts.Sound.{IsSound}
use wildfire.Displays.Attempts.Invariant.{
  IsCode, create_or_replace_open_attempt-IsSound, rotate_code-IsSound, close_attempt-IsSound,
  consume_code_hash-IsSound,
}

-- A call at any times. A new attempt's id is fresh, and a code has a text.
pub data Step (st : AttemptStore) : AttemptStore → Type 0 where
  created :
      (id owner : String) (code : AttemptCode) (now clock : ℕ)
      → st.attempts id ≡ none
      → IsCode code
      → Step st (create_or_replace_open_attempt id owner code now clock st).1
  rotated :
      (id owner : String) (code : AttemptCode) (now clock : ℕ)
      → IsCode code
      → Step st (rotate_code id owner code now clock st).1
  closed : (id owner : String) (now clock : ℕ) → Step st (close_attempt id owner now clock st).1
  consumed : (hash : String) (now clock : ℕ) → Step st (consume_code_hash hash now clock st).1
  bound :
      (session attempt : String) (clock : ℕ)
      → Step st (bind_session_attempt session attempt clock st)
  session_consumed :
      (session : String) (clock : ℕ) → Step st (consume_session_attempt_id session clock st).1

pub data Reach (st : AttemptStore) : AttemptStore → Type 0 where
  here : Reach st st
  next : {u v : AttemptStore} → Reach st u → Step u v → Reach st v

Step-IsSound : (st : AttemptStore) {st' : AttemptStore} → IsSound st → Step st st' → IsSound st'
unfolding bind_session_attempt consume_session_attempt_id
Step-IsSound st inv (created id owner code now clock fresh good) =
    create_or_replace_open_attempt-IsSound id owner code now clock st inv fresh good
Step-IsSound st inv (rotated id owner code now clock good) =
    rotate_code-IsSound id owner code now clock st inv good
Step-IsSound st inv (closed id owner now clock) = close_attempt-IsSound id owner now clock st inv
Step-IsSound st inv (consumed hash now clock) = consume_code_hash-IsSound hash now clock st inv
Step-IsSound st inv (bound session attempt clock) = record {
  indexed = inv.indexed;
  keyed = inv.keyed;
}
Step-IsSound st inv (session_consumed session clock) = record {
  indexed = inv.indexed;
  keyed = inv.keyed;
}

-- Whatever calls are made, in whatever order and at whatever times, the keys stay sound: each
-- indexed code names an open attempt whose active code it is, and each attempt stands under its id.
pub Reach-IsSound :
    (st : AttemptStore) {st' : AttemptStore} → IsSound st → Reach st st' → IsSound st'
Reach-IsSound st inv here = inv
Reach-IsSound st inv (next {u} r s) = Step-IsSound u (Reach-IsSound st inv r) s
