-- ===== src/Jobs/Retry.antt =====
-- The delays between the attempts of a task (`RetryPolicy` of backend/app/workers/analysis_tasks.py,
-- which the Match and the Outreach tasks use too).
use native.Mathlib.Nat.{one-le-pow, mul-le-mul_left, pow-suc}
use find_me_gamer.Prelude.{ℕ, suc, ◌+◌, ◌*◌, ◌^◌, ◌≤◌, ◌≡◌, Bool, true, not, ◌&&◌, leb, min, arith}
use find_me_gamer.Result.{value_error, Result, ok, ◌>>◌, raise_if}

pub record RetryPolicy : Type 0 where
  pub max_retries : ℕ
  pub base_delay_seconds : ℕ
  pub max_delay_seconds : ℕ

-- `__post_init__`
unfoldable pub is_policy : RetryPolicy → Bool
is_policy p =
    leb p.max_retries 10
    && leb 1 p.base_delay_seconds
    && leb p.base_delay_seconds 300
    && leb p.base_delay_seconds p.max_delay_seconds
    && leb p.max_delay_seconds 3600

unfoldable pub delay : RetryPolicy → ℕ → ℕ → ℕ
delay p retries jitter =
    min (min (p.base_delay_seconds * 2 ^ retries) p.max_delay_seconds + jitter) p.max_delay_seconds

unfoldable pub countdown : RetryPolicy → ℕ → ℕ → Result ℕ
unfolding delay
countdown p retries jitter = do
  raise_if (not (leb jitter p.base_delay_seconds)) value_error
  ok (delay p retries jitter)

-- Every delay is bounded: of a valid policy, at every attempt and with every jitter that is drawn, the
-- delay is at least the base delay and at most the longest delay.
pub delay-bounded :
    (p : RetryPolicy) (retries jitter : ℕ)
    → is_policy p ≡ true
    → (p.base_delay_seconds ≤ delay p retries jitter)
      × (delay p retries jitter ≤ p.max_delay_seconds)
unfolding is_policy delay
delay-bounded p retries jitter valid =
    let product : p.base_delay_seconds ≤ p.base_delay_seconds * 2 ^ retries =
      omega (arith, mul-le-mul_left p.base_delay_seconds (one-le-pow retries 2 (omega arith))) in
    let ordered : p.base_delay_seconds ≤ p.max_delay_seconds = ground arith in
    (omega (arith, product, ordered), omega arith)

pub delay-grows :
    (p : RetryPolicy) (retries jitter : ℕ) → delay p retries jitter ≤ delay p (suc retries) jitter
unfolding delay
delay-grows p retries jitter =
    let doubled : 2 ^ retries ≤ 2 ^ suc retries = omega (arith, pow-suc 2 retries) in
    let product = mul-le-mul_left p.base_delay_seconds doubled in omega (arith, product)
