-- ===== src/Displays/Attempts.antt =====
-- infrastructure/displays/registration-attempt.store.ts and the scripts of
-- infrastructure/redis/scripts.ts that it calls. An attempt is a hash, whose fields a script writes
-- all at once; an owner's open attempt and a code's attempt are keys that hold an attempt's id.
-- `now_ms` is the server's time, `clock` that of Redis.
pub mod Sound
pub mod Voids
pub mod Codes
pub mod Invariant
pub mod Reach
mod Index
use mathlib.Core.Bool.{Bool}
use wildfire.Base.{
  ℕ, ◌+◌, ◌-◌, ◌*◌, ◌/◌, String, ◌==◌, true, false, not, ◌&&◌, ◌||◌, Option, none, some, ltb, leb,
  max, if◌then◌else◌,
}
use wildfire.Redis.{Keys, put, live}

-- An empty text stands for a code that is not there, as in the hash.
pub record Attempt : Type 0 where
  pub id : String
  pub owner_id : String
  pub created_at_ms : ℕ
  pub closed_at_ms : Option ℕ
  pub active_code_hash : String
  pub active_pairing_code_id : String
  pub active_code_expires_at_ms : Option ℕ
  pub expires_at : ℕ

-- An attempt's id, until a time.
pub record Pointer : Type 0 where
  pub attempt_id : String
  pub expires_at : ℕ

pub record AttemptStore : Type 0 where
  pub attempts : Keys Attempt
  -- By owner.
  pub open_attempts : Keys Pointer
  -- By the hash of a code.
  pub codes : Keys Pointer
  -- By the id of a session.
  pub sessions : Keys Pointer

pub record AttemptCode : Type 0 where
  pub code_hash : String
  pub pairing_code_id : String
  pub expires_at_ms : ℕ

abbrev pub stale_ttl_ms : ℕ
stale_ttl_ms = 1800000

abbrev session_ttl_ms : ℕ
session_ttl_ms = 1800000

abbrev pub attempt_at : String → ℕ → AttemptStore → Option Attempt
attempt_at id clock st = live (λ a. a.expires_at) clock (st.attempts id)

abbrev pub code_at : String → ℕ → AttemptStore → Option Pointer
code_at code_hash clock st = live (λ p. p.expires_at) clock (st.codes code_hash)

abbrev pub open_at : String → ℕ → AttemptStore → Option Pointer
open_at owner clock st = live (λ p. p.expires_at) clock (st.open_attempts owner)

unfoldable pub get_attempt_ttl_ms : ℕ → ℕ → ℕ
get_attempt_ttl_ms now_ms code_expires_at_ms =
    max stale_ttl_ms (code_expires_at_ms - now_ms + stale_ttl_ms)

-- `EXAT` of `toUnixSecondsMs`, in milliseconds.
abbrev pub code_expiry : ℕ → ℕ
code_expiry expires_at_ms = max 1 ((expires_at_ms + 999) / 1000) * 1000

abbrev pub has_code : Attempt → Bool
has_code a = not (a.active_code_hash == "") && not (a.active_pairing_code_id == "")

-- The index entry of the active code is deleted, and the pairing code reported.
abbrev pub drop_code : Attempt → AttemptStore → AttemptStore
drop_code a st =
    if has_code a then record st { codes = put a.active_code_hash none st.codes } else st

abbrev pub dropped_code : Attempt → String
dropped_code a = if has_code a then a.active_pairing_code_id else ""

abbrev pub closed : ℕ → ℕ → Attempt → Attempt
closed now_ms clock a = record a {
  closed_at_ms = some now_ms;
  active_code_hash = "";
  active_pairing_code_id = "";
  active_code_expires_at_ms = none;
  expires_at = clock + stale_ttl_ms;
}

abbrev pub close_hash : String → ℕ → ℕ → Attempt → AttemptStore → AttemptStore
close_hash id now_ms clock a st =
    let st' = drop_code a st in
    record st' { attempts = put id (some (closed now_ms clock a)) st'.attempts }

-- The owner's open attempt is closed, or its key deleted where the attempt is gone.
unfoldable pub replace_open : String → ℕ → ℕ → AttemptStore → String × AttemptStore
replace_open owner now_ms clock st = elim (open_at owner clock st) [
  | none ↦ ("", st)
  | some pointer ↦
      if pointer.attempt_id == "" then ("", st) else elim (attempt_at pointer.attempt_id clock st) [
        | none ↦ ("", record st { open_attempts = put owner none st.open_attempts })
        | some a ↦
            if a.owner_id == ""
            then ("", record st { open_attempts = put owner none st.open_attempts })
            else (dropped_code a, close_hash pointer.attempt_id now_ms clock a st)
      ]
]

abbrev pub new_attempt : String → String → AttemptCode → ℕ → ℕ → Attempt
new_attempt id owner code now_ms clock = record {
  id = id;
  owner_id = owner;
  created_at_ms = now_ms;
  closed_at_ms = none;
  active_code_hash = code.code_hash;
  active_pairing_code_id = code.pairing_code_id;
  active_code_expires_at_ms = some code.expires_at_ms;
  expires_at = clock + get_attempt_ttl_ms now_ms code.expires_at_ms;
}

abbrev pub non_empty : String → Option String
non_empty s = if s == "" then none else some s

-- An attempt with its active code under `key`, and `id` as the owner's open one.
abbrev pub put_attempt :
    String → String → String → AttemptCode → ℕ → Attempt → AttemptStore → AttemptStore
put_attempt key id owner code clock a st = record st {
  attempts = put key (some a) st.attempts;
  open_attempts =
      put owner (some (record { attempt_id = id; expires_at = a.expires_at })) st.open_attempts;
  codes =
      put code.code_hash
        (some (record { attempt_id = id; expires_at = code_expiry code.expires_at_ms })) st.codes;
}

-- `id` is a random UUID. The result is the attempt's id and the pairing code that is void now.
unfoldable pub create_or_replace_open_attempt :
    String → String → AttemptCode → ℕ → ℕ → AttemptStore → (String × Option String) × AttemptStore
create_or_replace_open_attempt id owner code now_ms clock st =
    let (invalidated, st') = replace_open owner now_ms clock st in
    (
      (id, non_empty invalidated),
      put_attempt id id owner code clock (new_attempt id owner code now_ms clock) st',
    )

abbrev pub with_code : AttemptCode → ℕ → ℕ → Attempt → Attempt
with_code code now_ms clock a = record a {
  active_code_hash = code.code_hash;
  active_pairing_code_id = code.pairing_code_id;
  active_code_expires_at_ms = some code.expires_at_ms;
  expires_at = clock + get_attempt_ttl_ms now_ms code.expires_at_ms;
}

abbrev pub is_closed : Attempt → Bool
is_closed a = elim a.closed_at_ms [ none ↦ false | some _ ↦ true ]

-- `none` where the attempt is not there, not the owner's, or closed.
unfoldable pub rotate_code :
    String → String → AttemptCode → ℕ → ℕ → AttemptStore → Option (Option String) × AttemptStore
rotate_code id owner code now_ms clock st = elim (attempt_at id clock st) [
  | none ↦ (none, st)
  | some a ↦ if a.id == "" || not (a.owner_id == owner) || is_closed a then (none, st) else (
    some (non_empty (dropped_code a)),
    put_attempt id a.id owner code clock (with_code code now_ms clock a) (drop_code a st),
  )
]

-- An attempt that is closed already is left as it is.
unfoldable pub close_attempt :
    String → String → ℕ → ℕ → AttemptStore → Option (Option String) × AttemptStore
close_attempt id owner now_ms clock st = elim (attempt_at id clock st) [
  | none ↦ (none, st)
  | some a ↦
      if not (a.owner_id == owner)
      then (none, st)
      else if is_closed a
      then (some none, st)
      else (let st' = close_hash id now_ms clock a st in
          (
            some (non_empty (dropped_code a)),
            record st' { open_attempts = put owner none st'.open_attempts },
          ))
]

unfoldable pub is_attempt_owned_by : String → String → ℕ → AttemptStore → Bool
is_attempt_owned_by id owner clock st = elim (attempt_at id clock st) [
  | none ↦ false
  | some a ↦ not (a.id == "") && not (a.owner_id == "") && (a.owner_id == owner)
]

abbrev pub without_code : ℕ → Attempt → Attempt
without_code clock a = record a {
  active_code_hash = "";
  active_pairing_code_id = "";
  active_code_expires_at_ms = none;
  expires_at = clock + stale_ttl_ms;
}

-- The code's key, and the attempt's code with it, are used up.
abbrev pub use_code : String → String → ℕ → Attempt → AttemptStore → AttemptStore
use_code code_hash id clock a st = record st {
  codes = put code_hash none st.codes;
  attempts = put id (some (without_code clock a)) st.attempts;
}

abbrev pub forget_code : String → AttemptStore → AttemptStore
forget_code code_hash st = record st { codes = put code_hash none st.codes }

-- The branches for an attempt that is there.
unfoldable pub consume_from :
    String → String → ℕ → ℕ → Attempt → AttemptStore → Option (String × String) × AttemptStore
consume_from code_hash id now_ms clock a st =
    if a.owner_id == "" || is_closed a || not (has_code a)
    then (none, forget_code code_hash st)
    else elim a.active_code_expires_at_ms [
      | none ↦ (none, forget_code code_hash st)
      | some until ↦
          if not (a.active_code_hash == code_hash)
          then (none, st)
          else if leb until now_ms
          then (none, use_code code_hash id clock a st)
          else (
            if id == "" then none else some (id, a.active_pairing_code_id),
            use_code code_hash id clock a st,
          )
    ]

-- The attempt and the pairing code of a code that is good: it is good once.
unfoldable pub consume_code_hash :
    String → ℕ → ℕ → AttemptStore → Option (String × String) × AttemptStore
consume_code_hash code_hash now_ms clock st = elim (code_at code_hash clock st) [
  | none ↦ (none, st)
  | some pointer ↦ elim (attempt_at pointer.attempt_id clock st) [
    | none ↦ (none, forget_code code_hash st)
    | some a ↦ consume_from code_hash pointer.attempt_id now_ms clock a st
  ]
]

unfoldable pub bind_session_attempt : String → String → ℕ → AttemptStore → AttemptStore
bind_session_attempt session_id attempt_id clock st = record st {
  sessions =
      put session_id
        (some (record { attempt_id = attempt_id; expires_at = clock + session_ttl_ms }))
        st.sessions;
}

-- `GETDEL`
unfoldable pub consume_session_attempt_id : String → ℕ → AttemptStore → Option String × AttemptStore
consume_session_attempt_id session_id clock st = (
  elim (live (λ p. p.expires_at) clock (st.sessions session_id)) [
    | none ↦ none
    | some p ↦ non_empty p.attempt_id
  ],
  record st { sessions = put session_id none st.sessions },
)
