-- ===== src/Outreach/RateLimit/Rounding.antt =====
-- What the rounding of the script of backend/app/outreach/rate_limit.py leaves of its sums.
use native.Mathlib.Nat.{mul-le-mul_right, lt-div-mul-add, div-mul-le_self}
use find_me_gamer.Prelude.{
  ℕ, ◌+◌, ◌-◌, ◌*◌, ◌≤◌, ◌<◌, ◌≡◌, inl, inr, ◌⊎◌, Option, none, some, leb, arith, Bool-cases,
  leb→le,
}
use find_me_gamer.Outreach.RateLimit.{
  Doubles, Bucket, expiry_ms, stored, paid_in, refilled, missing_ms, delay_for,
}

module _ (doubles : Doubles) (rate : ℕ) (positive : 1 ≤ rate) (limited : rate ≤ 60) where
  open doubles use {one, round, slack, slack_small, one_pos, round_low, round_high, round_units}

  elapsed-limited : (elapsed_ms : ℕ) → elapsed_ms ≤ 120000 → elapsed_ms * rate * one ≤ 7200000 * one
  elapsed-limited elapsed_ms short =
      let product : elapsed_ms * rate ≤ 7200000 = grind arith in mul-le-mul_right one product

  pub paid_in-ge :
      (elapsed_ms : ℕ)
      → elapsed_ms ≤ 120000
      → elapsed_ms * rate * one ≤ paid_in doubles rate elapsed_ms * 60000 + slack * 60000
  unfolding paid_in
  paid_in-ge elapsed_ms short =
      let limit = elapsed-limited elapsed_ms short in
      round_low (elapsed_ms * rate * one) 60000 (omega arith) (omega arith)

  pub paid_in-le :
      (elapsed_ms : ℕ)
      → elapsed_ms ≤ 120000
      → paid_in doubles rate elapsed_ms * 60000 ≤ elapsed_ms * rate * one + slack * 60000
  unfolding paid_in
  paid_in-le elapsed_ms short =
      let limit = elapsed-limited elapsed_ms short in
      round_high (elapsed_ms * rate * one) 60000 (omega arith) (omega arith)

  full-limited : rate * one ≤ 60 * one
  full-limited = mul-le-mul_right one limited

  pub full-enough : one ≤ rate * one
  full-enough = let least : 1 * one ≤ rate * one = mul-le-mul_right one positive in omega arith

  sum-limited :
      (tokens elapsed_ms : ℕ)
      → tokens ≤ rate * one
      → elapsed_ms ≤ 120000
      → tokens + paid_in doubles rate elapsed_ms ≤ 131072 * one * 1
  sum-limited tokens elapsed_ms full short = omega (
    arith,
    full-limited,
    paid_in-le elapsed_ms short,
    elapsed-limited elapsed_ms short,
    slack_small,
  )

  pub refilled-full :
      (now_ms : ℕ) (bucket : Option Bucket) → refilled doubles rate now_ms bucket ≤ rate * one
  unfolding refilled
  refilled-full now_ms none = omega arith
  refilled-full now_ms (some b) = omega arith

  -- What a bucket holds after a time is at most what it held and what the time pays in, but for the
  -- rounding.
  pub refilled-le :
      (now_ms gap : ℕ) (b : Bucket)
      → b.updated_ms ≡ now_ms
      → b.tokens ≤ rate * one
      → refilled doubles rate (now_ms + gap) (stored (now_ms + gap) (some b)) * 60000
        ≤ b.tokens * 60000 + gap * rate * one + 120000 * slack
  unfolding refilled stored
  refilled-le now_ms gap b at full =
      elim (Bool-cases (leb (b.updated_ms + expiry_ms) (now_ms + gap))) [
        | inl expired ↦
            let expired_gap : 60000 ≤ gap =
              omega (arith, leb→le (b.updated_ms + expiry_ms) (now_ms + gap) expired) in
            let paid : 60000 * rate * one ≤ gap * rate * one =
              mul-le-mul_right one (mul-le-mul_right rate expired_gap) in
            rw expired (grind arith)
        | inr live ↦
            let gap_is : now_ms + gap - b.updated_ms ≡ gap = omega arith in
            let short : gap ≤ 120000 = ground arith in
            let rounded =
              round_high (b.tokens + paid_in doubles rate gap) 1 (omega arith)
                (sum-limited b.tokens gap full short) in
            rw (live, gap_is) (omega (arith, rounded, paid_in-le gap short))
      ]

  -- And it is full enough, or at least that.
  pub refilled-ge :
      (now_ms delay_ms : ℕ) (tokens : ℕ)
      → tokens ≤ rate * one
      → (one
          ≤ refilled doubles rate
              (now_ms + delay_ms)
              (stored (now_ms + delay_ms) (some (record { tokens = tokens; updated_ms = now_ms }))))
        ⊎ (tokens * 60000 + delay_ms * rate * one
            ≤ refilled doubles rate (now_ms + delay_ms) (
                  stored
                    (now_ms + delay_ms)
                    (some (record { tokens = tokens; updated_ms = now_ms })))
                * 60000
              + 120000 * slack)
  unfolding refilled stored
  refilled-ge now_ms delay_ms tokens full =
      elim (Bool-cases (leb (now_ms + expiry_ms) (now_ms + delay_ms))) [
        | inl expired ↦ rw expired (inl full-enough)
        | inr live ↦
            let delay_is : now_ms + delay_ms - now_ms ≡ delay_ms = omega arith in
            let short : delay_ms ≤ 120000 = ground arith in
            let rounded =
              round_low (tokens + paid_in doubles rate delay_ms) 1 (omega arith)
                (sum-limited tokens delay_ms full short) in
            rw (live, delay_is)
              (elim (Bool-cases
                (leb (rate * one) (round (tokens + paid_in doubles rate delay_ms) 1))) [
                  | inl capped ↦ inl (
                      omega (
                        arith,
                        full-enough,
                        leb→le (rate * one) (round (tokens + paid_in doubles rate delay_ms) 1)
                            capped,
                      ))
                  | inr below ↦
                      let under : round (tokens + paid_in doubles rate delay_ms) 1 < rate * one =
                        ground arith in
                      inr (omega (arith, under, rounded, paid_in-ge delay_ms short))
                ])
      ]

  -- The stages of the delay's computation.
  missing-low :
      (tokens : ℕ)
      → tokens < one
      → one * 60000
        ≤ tokens * 60000 + missing_ms doubles rate tokens * rate + slack * rate + 60001 * slack
  unfolding missing_ms
  missing-low tokens short =
      let x = round (one - tokens) 1 in
      let y = round (x * 60000) 1 in
      let x_low = round_low (one - tokens) 1 (omega arith) (omega arith) in
      let x_high = round_high (one - tokens) 1 (omega arith) (omega arith) in
      let x_limited : x * 60000 ≤ 131072 * one * 1 = omega (arith, x_high, slack_small) in
      let y_low = round_low (x * 60000) 1 (omega arith) x_limited in
      let y_high = round_high (x * 60000) 1 (omega arith) x_limited in
      let scaled : 131072 * one * 1 ≤ 131072 * one * rate = grind arith in
      let y_limited : y ≤ 131072 * one * rate =
        omega (arith, y_high, x_high, slack_small, scaled) in
      let z_low = round_low y rate positive y_limited in omega (arith, x_low, y_low, z_low)

  missing-pos : (tokens : ℕ) → tokens < one → 1 ≤ missing_ms doubles rate tokens
  unfolding missing_ms
  missing-pos tokens short =
      let x_pos = round_units 1 (one - tokens) 1 (omega arith) (omega arith) (omega arith) in
      let y_pos =
        round_units 60000 (round (one - tokens) 1 * 60000) 1 (omega arith) (omega arith)
          (omega (arith, x_pos)) in
      round_units 1 (round (round (one - tokens) 1 * 60000) 1) rate positive (omega arith)
        (omega (arith, y_pos))

  delay-covers : (tokens : ℕ) → missing_ms doubles rate tokens ≤ delay_for doubles rate tokens * one
  unfolding delay_for
  delay-covers tokens =
      omega
        (arith, one_pos, lt-div-mul-add {a = missing_ms doubles rate tokens + (one - 1)} {b = one})

  pub delay_for-pos : (tokens : ℕ) → tokens < one → 1 ≤ delay_for doubles rate tokens
  delay_for-pos tokens short = grind (arith, delay-covers tokens, missing-pos tokens)

  -- The delay pays in what is missing to a token, but for the rounding.
  pub delay_for-covers :
      (tokens : ℕ)
      → tokens < one
      → one * 60000 ≤ tokens * 60000 + delay_for doubles rate tokens * rate * one + 60061 * slack
  delay_for-covers tokens short =
      let paid : missing_ms doubles rate tokens * rate
          ≤ delay_for doubles rate tokens * one * rate =
        mul-le-mul_right rate (delay-covers tokens) in
      let order : delay_for doubles rate tokens * one * rate
          ≡ delay_for doubles rate tokens * rate * one =
        grind arith in
      let slacks : slack * rate ≤ 60 * slack = grind arith in
      omega (arith, missing-low tokens short, paid, order, slacks)

  missing-high :
      (tokens : ℕ)
      → tokens < one
      → missing_ms doubles rate tokens * rate + tokens * 60000
        ≤ one * 60000 + slack * rate + 60001 * slack
  unfolding missing_ms
  missing-high tokens short =
      let x = round (one - tokens) 1 in
      let y = round (x * 60000) 1 in
      let x_high = round_high (one - tokens) 1 (omega arith) (omega arith) in
      let x_limited : x * 60000 ≤ 131072 * one * 1 = omega (arith, x_high, slack_small) in
      let y_high = round_high (x * 60000) 1 (omega arith) x_limited in
      let scaled : 131072 * one * 1 ≤ 131072 * one * rate = grind arith in
      let y_limited : y ≤ 131072 * one * rate =
        omega (arith, y_high, x_high, slack_small, scaled) in
      let z_high = round_high y rate positive y_limited in omega (arith, x_high, y_high, z_high)

  delay-high :
      (tokens : ℕ) → delay_for doubles rate tokens * one ≤ missing_ms doubles rate tokens + one
  unfolding delay_for
  delay-high tokens =
      omega (arith, div-mul-le_self (missing_ms doubles rate tokens + (one - 1)) one)

  -- And it is at most a millisecond more, but for the rounding.
  pub delay_for-le :
      (tokens : ℕ)
      → tokens < one
      → delay_for doubles rate tokens * rate * one + tokens * 60000
        ≤ one * 60000 + rate * one + 60061 * slack
  delay_for-le tokens short =
      let paid : delay_for doubles rate tokens * one * rate
          ≤ (missing_ms doubles rate tokens + one) * rate =
        mul-le-mul_right rate (delay-high tokens) in
      let order : delay_for doubles rate tokens * one * rate
          ≡ delay_for doubles rate tokens * rate * one =
        grind arith in
      let spread : (missing_ms doubles rate tokens + one) * rate
          ≡ missing_ms doubles rate tokens * rate + rate * one =
        grind arith in
      let slacks : slack * rate ≤ 60 * slack = grind arith in
      omega (arith, missing-high tokens short, paid, order, spread, slacks)
