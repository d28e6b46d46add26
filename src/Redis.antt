-- ===== src/Redis.antt =====
-- Redis as the code uses it: keys of one prefix, each with a value and the time at which it expires.
use wildfire.Base.{ℕ, String, ◌==◌, Option, none, some, ltb, if◌then◌else◌}

abbrev pub Keys {ℓ} : Type ℓ → Type ℓ
Keys A = String → Option A

-- `SET` and `DEL`.
abbrev pub put {ℓ} : {A : Type ℓ} → String → Option A → Keys A → Keys A
put key value keys = λ k. if k == key then value else keys k

-- A key that has expired is gone.
abbrev pub live {ℓ} : {A : Type ℓ} → (A → ℕ) → ℕ → Option A → Option A
live expires_at clock none = none
live expires_at clock (some v) = if ltb clock (expires_at v) then some v else none
