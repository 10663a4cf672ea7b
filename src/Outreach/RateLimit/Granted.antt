-- ===== src/Outreach/RateLimit/Granted.antt =====
-- How many requests the token bucket of backend/app/outreach/rate_limit.py grants.
use find_me_gamer.Prelude.{
  ℕ, ◌+◌, ◌-◌, ◌*◌, ◌≤◌, ◌≡◌, refl, Option, some, List, [], ◌∷◌, ◌==◌, false, leb, if◌then◌else◌,
  arith, Bool-cases, inl, inr,
}
use find_me_gamer.Outreach.RateLimit.{
  Doubles, Bucket, stored, refilled, take_token, acquire_script, delay_for,
}
use find_me_gamer.Outreach.RateLimit.Rounding.{refilled-full, refilled-le, delay_for-pos}

abbrev grant : ℕ × Bucket → (Bucket → ℕ) → ℕ
grant (delay_ms, bucket) rest = (if delay_ms == 0 then 1 else 0) + rest bucket

-- The grants of a sequence of requests by any workers, each given by the time since the one before.
unfoldable pub granted : Doubles → ℕ → ℕ → List ℕ → Option Bucket → ℕ
unfolding acquire_script
granted doubles rate now_ms [] bucket = 0
granted doubles rate now_ms (gap ∷ gaps) bucket =
    grant (acquire_script doubles rate (now_ms + gap) bucket)
      (λ b. granted doubles rate (now_ms + gap) gaps (some b))

-- What the time between the requests pays in, in units of 1/60000 of the least number, and twice the
-- rounding's slack for each request.
abbrev pub allowance : Doubles → ℕ → List ℕ → ℕ
allowance doubles rate [] = 0
allowance doubles rate (gap ∷ gaps) =
    gap * rate * doubles.one + 120000 * doubles.slack + allowance doubles rate gaps

module _ (doubles : Doubles) (rate : ℕ) (positive : 1 ≤ rate) (limited : rate ≤ 60) where
  open doubles use {one, slack, one_pos}

  granted_step :
      (now_ms tokens : ℕ) (gaps : List ℕ)
      → tokens ≤ rate * one
      → ((b : Bucket)
          → b.updated_ms ≡ now_ms
          → b.tokens ≤ rate * one
          → granted doubles rate now_ms gaps (some b) * one * 60000
            ≤ b.tokens * 60000 + allowance doubles rate gaps)
      → grant
            (take_token doubles rate now_ms tokens)
            (λ b. granted doubles rate now_ms gaps (some b))
          * one
          * 60000
        ≤ tokens * 60000 + allowance doubles rate gaps
  unfolding take_token
  granted_step now_ms tokens gaps full rest = elim (Bool-cases (leb one tokens)) [
    | inl enough ↦
        let after : Bucket = record { tokens = tokens - one; updated_ms = now_ms } in
        let later = rest after refl (omega arith) in
        let spread : (1 + granted doubles rate now_ms gaps (some after)) * one
            ≡ one + granted doubles rate now_ms gaps (some after) * one =
          grind arith in
        let reached : one ≤ tokens = ground arith in
        rw enough (omega (arith, later, spread, reached))
    | inr short ↦
        let after : Bucket = record { tokens = tokens; updated_ms = now_ms } in
        let later = rest after refl full in
        let waits = delay_for-pos doubles rate positive limited tokens (ground arith) in
        let refusal : (delay_for doubles rate tokens == 0) ≡ false = ground arith in
        let nothing : 0 + granted doubles rate now_ms gaps (some after)
            ≡ granted doubles rate now_ms gaps (some after) =
          omega arith in
        rw (short, refusal, nothing) later
  ]

  granted_after :
      (now_ms : ℕ) (gaps : List ℕ) (b : Bucket)
      → b.updated_ms ≡ now_ms
      → b.tokens ≤ rate * one
      → granted doubles rate now_ms gaps (some b) * one * 60000
        ≤ b.tokens * 60000 + allowance doubles rate gaps
  unfolding granted acquire_script
  granted_after now_ms [] b at full = omega arith
  granted_after now_ms (gap ∷ gaps) b at full =
      let tokens : ℕ = refilled doubles rate (now_ms + gap) (stored (now_ms + gap) (some b)) in
      omega (
        arith,
        granted_step (now_ms + gap) tokens gaps
            (refilled-full doubles rate positive limited (now_ms + gap)
              (stored (now_ms + gap) (some b)))
            (granted_after (now_ms + gap) gaps),
        refilled-le doubles rate positive limited now_ms gap b at full,
      )

-- However many workers ask, and whenever they ask, the number of e-mails that the limiter lets through
-- in a stretch of time is at most a full bucket and what the stretch pays in, but for the rounding of
-- floating-point numbers: at a rate of 1 to 60 per minute, 60000 times the grants is at most 60000
-- times the rate plus, for each request, the rate times the milliseconds since the one before and
-- 120000 times the rounding's slack. All is counted in the least floating-point numbers; the requests
-- are given by the time from each to the next.
pub granted-le :
    (doubles : Doubles) (rate now_ms : ℕ) (gaps : List ℕ) (bucket : Option Bucket)
    → 1 ≤ rate
    → rate ≤ 60
    → granted doubles rate now_ms gaps bucket * doubles.one * 60000
      ≤ rate * doubles.one * 60000 + allowance doubles rate gaps
unfolding granted acquire_script
granted-le doubles rate now_ms [] bucket positive limited = omega arith
granted-le doubles rate now_ms (gap ∷ gaps) bucket positive limited =
    let tokens : ℕ = refilled doubles rate (now_ms + gap) (stored (now_ms + gap) bucket) in
    let full =
      refilled-full doubles rate positive limited (now_ms + gap) (stored (now_ms + gap) bucket) in
    omega (
      arith,
      granted_step doubles rate positive limited (now_ms + gap) tokens gaps full
          (granted_after doubles rate positive limited (now_ms + gap) gaps),
      full,
    )
