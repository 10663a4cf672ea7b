-- ===== src/Outreach/RateLimit/Waiting.antt =====
-- Waiting for the token bucket of backend/app/outreach/rate_limit.py: the loop of
-- `DeliveryExecutor.execute` in backend/app/workers/outreach_tasks.py.
use native.Mathlib.Nat.{mul-le-mul_right}
use find_me_gamer.Prelude.{
  ℕ, zero, suc, ◌+◌, ◌-◌, ◌*◌, ◌≤◌, ◌<◌, ◌≡◌, ◌⊎◌, inl, inr, Option, none, some, ◌==◌, leb,
  if◌then◌else◌, arith, Bool-cases, leb→le,
}
use find_me_gamer.Outreach.RateLimit.{
  Doubles, Bucket, stored, refilled, delay_for, take_token, acquire_script,
}
use find_me_gamer.Outreach.RateLimit.Rounding.{
  refilled-ge, full-enough, delay_for-pos, delay_for-covers, delay_for-le,
}

-- The rest of the loop after a result of the limiter; `none` where the fuel is spent.
abbrev wait_on : ℕ × Bucket → (ℕ → Bucket → Option (ℕ × Bucket)) → ℕ → Option (ℕ × Bucket)
wait_on (delay_ms, bucket) again now_ms =
    if delay_ms == 0 then some (now_ms, bucket) else again (now_ms + delay_ms) bucket

-- `while True`, by a worker that sleeps for the delay: the time at which the loop is left, and the
-- bucket then.
unfoldable pub wait_for_turn : Doubles → ℕ → ℕ → ℕ → Option Bucket → Option (ℕ × Bucket)
unfolding acquire_script
wait_for_turn doubles zero rate now_ms bucket = none
wait_for_turn doubles (suc fuel) rate now_ms bucket =
    wait_on (acquire_script doubles rate now_ms bucket)
      (λ later b. wait_for_turn doubles fuel rate later (some b)) now_ms

-- The end of a wait that began at a time.
abbrev pub EndsWithin : ℕ → ℕ → ℕ → Option (ℕ × Bucket) → Type 0
EndsWithin rate now_ms allowed result =
    (end : ℕ × Bucket) × (result ≡ some end)
    × (now_ms ≤ end.0)
    × (end.0 * rate ≤ now_ms * rate + allowed)

module _ (doubles : Doubles) (rate : ℕ) (positive : 1 ≤ rate) (limited : rate ≤ 60) where
  open doubles use {one, slack, slack_small, one_pos}

  -- A round of the loop with these tokens.
  abbrev round_with : ℕ → ℕ → ℕ → Option (ℕ × Bucket)
  round_with fuel now_ms tokens =
      wait_on (take_token doubles rate now_ms tokens)
        (λ later b. wait_for_turn doubles fuel rate later (some b)) now_ms

  abbrev left_after : ℕ → ℕ → Bucket
  left_after now_ms tokens = record { tokens = tokens; updated_ms = now_ms }

  -- The tokens after the delay.
  abbrev tokens_after : ℕ → ℕ → ℕ
  tokens_after now_ms tokens =
      refilled doubles rate (now_ms + delay_for doubles rate tokens)
        (stored (now_ms + delay_for doubles rate tokens) (some (left_after now_ms tokens)))

  granted_round :
      (fuel now_ms tokens : ℕ)
      → one ≤ tokens
      → round_with fuel now_ms tokens ≡ some (now_ms, left_after now_ms (tokens - one))
  unfolding take_token
  granted_round fuel now_ms tokens enough = ground arith

  delayed :
      (now_ms tokens : ℕ) (again : ℕ → Bucket → Option (ℕ × Bucket))
      → tokens < one
      → wait_on (take_token doubles rate now_ms tokens) again now_ms
        ≡ again (now_ms + delay_for doubles rate tokens) (left_after now_ms tokens)
  unfolding take_token
  delayed now_ms tokens again short =
      ground (arith, delay_for-pos doubles rate positive limited tokens)

  -- A round that must wait leads to the next.
  delayed_round :
      (fuel now_ms tokens : ℕ)
      → tokens < one
      → round_with (suc fuel) now_ms tokens
        ≡ round_with fuel (now_ms + delay_for doubles rate tokens) (tokens_after now_ms tokens)
  unfolding wait_for_turn acquire_script
  delayed_round fuel now_ms tokens short =
      delayed now_ms tokens (λ later b. wait_for_turn doubles (suc fuel) rate later (some b)) short

  abbrev Paid : ℕ → ℕ → Type 0
  Paid now_ms tokens =
      (one ≤ tokens_after now_ms tokens)
      ⊎ (tokens * 60000 + delay_for doubles rate tokens * rate * one
          ≤ tokens_after now_ms tokens * 60000 + 120000 * slack)

  Paid-after : (now_ms tokens : ℕ) → tokens < one → Paid now_ms tokens
  Paid-after now_ms tokens short =
      let full : tokens ≤ rate * one = omega (arith, full-enough doubles rate positive limited) in
      refilled-ge doubles rate positive limited now_ms (delay_for doubles rate tokens) tokens full

  -- After one delay little is missing to a token.
  nearly :
      (now_ms tokens : ℕ)
      → tokens < one
      → one * 60000 ≤ tokens_after now_ms tokens * 60000 + 180061 * slack
  nearly now_ms tokens short = elim (Paid-after now_ms tokens short) [
    | inl enough ↦ omega arith
    | inr paid ↦ omega (arith, paid, delay_for-covers doubles rate positive limited tokens short)
  ]

  -- And where so little is missing, nothing is after another delay.
  then_enough :
      (now_ms tokens : ℕ)
      → tokens < one
      → one * 60000 ≤ tokens * 60000 + 180061 * slack
      → one ≤ tokens_after now_ms tokens
  then_enough now_ms tokens short near = elim (Paid-after now_ms tokens short) [
    | inl enough ↦ enough
    | inr paid ↦
        let waits : 1 ≤ delay_for doubles rate tokens =
          delay_for-pos doubles rate positive limited tokens short in
        let product : 1 ≤ delay_for doubles rate tokens * rate = grind arith in
        let least : 1 * one ≤ delay_for doubles rate tokens * rate * one =
          mul-le-mul_right one product in
        elim (Bool-cases (leb one (tokens_after now_ms tokens))) [
          | inl enough ↦ leb→le one (tokens_after now_ms tokens) enough
          | inr still ↦
              let under : tokens_after now_ms tokens < one = ground arith in
              absurd (omega (arith, paid, near, least, slack_small, one_pos, under))
        ]
  ]

  cancel : (a b : ℕ) → a * one ≤ b * one → a ≤ b
  cancel a b h = elim (Bool-cases (leb a b)) [
    | inl fits ↦ leb→le a b fits
    | inr over ↦
        let above : b + 1 ≤ a = ground arith in
        let more : (b + 1) * one ≤ a * one = mul-le-mul_right one above in
        let spread : (b + 1) * one ≡ b * one + one = grind arith in
        absurd (omega (arith, h, more, spread, one_pos))
  ]

  first_delay : (tokens : ℕ) → tokens < one → delay_for doubles rate tokens * rate ≤ 60001 + rate
  first_delay tokens short =
      let spread : (60001 + rate) * one ≡ 60001 * one + rate * one = grind arith in
      cancel (delay_for doubles rate tokens * rate) (60001 + rate) (
        omega (arith, delay_for-le doubles rate positive limited tokens short, slack_small, spread))

  -- Both delays together.
  both_delays :
      (first second : ℕ)
      → first < one
      → second < one
      → one * 60000 ≤ second * 60000 + 180061 * slack
      → (delay_for doubles rate first + delay_for doubles rate second) * rate ≤ 60001 + 2 * rate
  both_delays first second short still near =
      let d = delay_for doubles rate first in
      let e = delay_for doubles rate second in
      let spread : (60001 + 2 * rate) * one ≡ 60001 * one + 2 * (rate * one) = grind arith in
      let joined : (d + e) * rate * one ≡ d * rate * one + e * rate * one = grind arith in
      cancel ((d + e) * rate) (60001 + 2 * rate) (
        omega (
          arith,
          delay_for-le doubles rate positive limited first short,
          delay_for-le doubles rate positive limited second still,
          near,
          slack_small,
          spread,
          joined,
        ))

  pub round-ends :
      (fuel now_ms tokens : ℕ)
      → EndsWithin rate now_ms (60001 + 2 * rate) (round_with (suc (suc fuel)) now_ms tokens)
  round-ends fuel now_ms tokens = elim (Bool-cases (leb one tokens)) [
    | inl enough ↦ (
      (now_ms, left_after now_ms (tokens - one)),
      granted_round (suc (suc fuel)) now_ms tokens (leb→le one tokens enough),
      omega arith,
      omega arith,
    )
    | inr below ↦
        let short : tokens < one = ground arith in
        let d = delay_for doubles rate tokens in
        let second : ℕ = tokens_after now_ms tokens in
        rw (delayed_round (suc fuel) now_ms tokens short) (elim (Bool-cases (leb one second)) [
          | inl enough ↦
              let later : (now_ms + d) * rate ≡ now_ms * rate + d * rate = grind arith in
              (
                (now_ms + d, left_after (now_ms + d) (second - one)),
                granted_round (suc fuel) (now_ms + d) second (leb→le one second enough),
                omega arith,
                omega (arith, first_delay tokens short, later),
              )
          | inr below_again ↦
              let still : second < one = ground arith in
              let near = nearly now_ms tokens short in
              let e = delay_for doubles rate second in
              let third : ℕ = tokens_after (now_ms + d) second in
              let later : (now_ms + d + e) * rate ≡ now_ms * rate + (d + e) * rate = grind arith in
              rw (delayed_round fuel (now_ms + d) second still) (
                (now_ms + d + e, left_after (now_ms + d + e) (third - one)),
                granted_round fuel (now_ms + d + e) third
                    (then_enough (now_ms + d) second still near),
                omega arith,
                omega (arith, both_delays tokens second short still near, later),
              )
        ])
  ]

-- A worker that no other worker disturbs leaves the loop around the limiter: at a rate of 1 to 60 per
-- minute three rounds are enough, whatever the bucket holds and however the script's floating-point
-- results are rounded, and the rate times the milliseconds slept is at most 60001 and twice the rate:
-- the time that pays in one token, with each of two delays rounded up.
pub wait_for_turn-ends :
    (doubles : Doubles) (rate now_ms fuel : ℕ) (bucket : Option Bucket)
    → 1 ≤ rate
    → rate ≤ 60
    → EndsWithin rate now_ms
        (60001 + 2 * rate)
        (wait_for_turn doubles (suc (suc (suc fuel))) rate now_ms bucket)
unfolding wait_for_turn acquire_script
wait_for_turn-ends doubles rate now_ms fuel bucket positive limited =
    round-ends doubles rate positive limited fuel now_ms
      (refilled doubles rate now_ms (stored now_ms bucket))
