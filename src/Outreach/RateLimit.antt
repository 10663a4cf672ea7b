-- ===== src/Outreach/RateLimit.antt =====
-- The token bucket of backend/app/outreach/rate_limit.py, whose script Redis runs as one step.
--
-- The script computes with floating-point numbers, which are counted here in units of the least
-- positive one, so that each is a natural number; the rounding of a result is a parameter. Times are
-- integers of milliseconds, whose products the script computes exactly.
pub mod Rounding
pub mod Waiting
pub mod Granted
use find_me_gamer.Prelude.{
  ℕ, ◌+◌, ◌-◌, ◌*◌, ◌/◌, ◌≤◌, Bool, not, ◌&&◌, Option, none, some, ◌==◌, leb, ltb, min,
  if◌then◌else◌,
}
use find_me_gamer.Result.{value_error, Result, ok, ◌>>=◌, ◌>>◌, raise_if}

-- The floating-point numbers of Redis: `round n d` is the number for the quotient n / d. A result of
-- at most 131072 is off by at most `slack`; and a quotient that reaches a small whole number of units,
-- which is a floating-point number itself, is not rounded below it. Of the doubles of IEEE 754, `one`
-- is 2 ^ 1074, and `slack` may be 2 ^ 1037, half of the last place below 131072.
pub record Doubles : Type 0 where
  pub one : ℕ
  pub round : ℕ → ℕ → ℕ
  pub slack : ℕ
  pub slack_small : 400000 * slack ≤ one
  pub one_pos : 1 ≤ one
  pub round_low : (n d : ℕ) → 1 ≤ d → n ≤ 131072 * one * d → n ≤ round n d * d + slack * d
  pub round_high : (n d : ℕ) → 1 ≤ d → n ≤ 131072 * one * d → round n d * d ≤ n + slack * d
  pub round_units : (m n d : ℕ) → 1 ≤ d → m ≤ 65536 → m * d ≤ n → m ≤ round n d

-- The hash at the workspace's key.
pub record Bucket : Type 0 where
  pub tokens : ℕ
  pub updated_ms : ℕ

-- PEXPIRE
abbrev pub expiry_ms : ℕ
expiry_ms = 120000

-- What HMGET reads at a time: nothing once the key has expired.
unfoldable pub stored : ℕ → Option Bucket → Option Bucket
stored now_ms none = none
stored now_ms (some b) = if leb (b.updated_ms + expiry_ms) now_ms then none else some b

module _ (doubles : Doubles) where
  open doubles use {one, round}

  -- `elapsed_ms * rate / 60000`
  unfoldable pub paid_in : ℕ → ℕ → ℕ
  paid_in rate elapsed_ms = round (elapsed_ms * rate * one) 60000

  -- The tokens after the time since the last update was paid in.
  unfoldable pub refilled : ℕ → ℕ → Option Bucket → ℕ
  unfolding paid_in
  refilled rate now_ms none = rate * one
  refilled rate now_ms (some b) =
      min (rate * one) (round (b.tokens + paid_in rate (now_ms - b.updated_ms)) 1)

  -- `(1 - tokens) * 60000 / rate`, each result rounded.
  unfoldable pub missing_ms : ℕ → ℕ → ℕ
  missing_ms rate tokens = round (round (round (one - tokens) 1 * 60000) 1) rate

  -- `math.ceil`
  unfoldable pub delay_for : ℕ → ℕ → ℕ
  unfolding missing_ms
  delay_for rate tokens = (missing_ms rate tokens + (one - 1)) / one

  -- The script's result and the bucket that it stores. From a number of at least one, one is subtracted
  -- exactly.
  unfoldable pub take_token : ℕ → ℕ → ℕ → ℕ × Bucket
  unfolding delay_for
  take_token rate now_ms tokens =
      if leb one tokens
      then (0, record { tokens = tokens - one; updated_ms = now_ms })
      else (delay_for rate tokens, record { tokens = tokens; updated_ms = now_ms })

  unfoldable pub acquire_script : ℕ → ℕ → Option Bucket → ℕ × Bucket
  unfolding take_token refilled stored
  acquire_script rate now_ms bucket =
      take_token rate now_ms (refilled rate now_ms (stored now_ms bucket))

  unfoldable pub acquire : ℕ → ℕ → Option Bucket → Result (ℕ × Bucket)
  unfolding acquire_script
  acquire rate now_ms bucket = do
    raise_if (not (leb 1 rate && leb rate 60)) value_error
    ok (acquire_script rate now_ms bucket)
