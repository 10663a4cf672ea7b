-- ===== src/Match/Ranking/Bounds.antt =====
-- The rounding of a score (`_quantize_score` of backend/app/matching/ranking.py).
use native.Mathlib.Nat.{div-mul-le_self, lt-div-mul-add}
use find_me_gamer.Prelude.{
  ℕ, zero, suc, ◌+◌, ◌-◌, ◌*◌, ◌/◌, ◌^◌, ◌≤◌, ◌<◌, ◌≡◌, ◌↔◌, refl, true, false, leb, leb→le, inl,
  inr, arith, Bool-cases,
}
use find_me_gamer.Result.{ok}
use find_me_gamer.Match.Ranking.Output.{
  Decimal, quantize, quantize_score, is_hidden_score, unit_score,
}

-- 10 ^ (places - 4), half of the divisor.
abbrev pub step : Decimal → ℕ
step d = 10 ^ (d.places - 4)

step-pos : (n : ℕ) → 0 < 10 ^ n
step-pos zero = omega arith
step-pos (suc n) = omega (arith, step-pos n)

leb_iff : (a b : ℕ) → (leb a b ≡ true) ↔ (a ≤ b)
leb_iff a b = ground arith

half_up :
    (c k q : ℕ)
    → 0 < k
    → q ≡ (2 * c + k) / (2 * k)
    → (2 * (q * k) ≤ 2 * c + k) × (2 * c < 2 * (q * k) + k)
half_up c k q positive q_is =
    let below : q * (2 * k) ≤ 2 * c + k = rw q_is (div-mul-le_self (2 * c + k) (2 * k)) in
    let above : 2 * c + k < q * (2 * k) + 2 * k =
      rw q_is (lt-div-mul-add {a = 2 * c + k} {b = 2 * k} (omega arith)) in
    let flat : q * (2 * k) ≡ 2 * (q * k) = grind arith in omega (arith, below, above, flat)

exact :
    (c places : ℕ)
    → places ≡ 4
    → (2 * (c * 10 ^ (4 - places) * 10 ^ (places - 4)) ≤ 2 * c + 10 ^ (places - 4))
      × (2 * c < 2 * (c * 10 ^ (4 - places) * 10 ^ (places - 4)) + 10 ^ (places - 4))
exact c places four = rw four (omega arith)

-- Rounding is to the nearest multiple of 0.0001, and up where two are equally near.
pub quantize-half_up :
    (d : Decimal)
    → 4 ≤ d.places
    → (2 * (quantize d * step d) ≤ 2 * d.coefficient + step d)
      × (2 * d.coefficient < 2 * (quantize d * step d) + step d)
unfolding quantize
quantize-half_up d long = elim (Bool-cases (leb d.places 4)) [
  | inl short ↦ rw short (exact d.coefficient (d.places) (ground arith))
  | inr longer ↦ rw longer (half_up d.coefficient (step d) _ (step-pos (d.places - 4)) refl)
]

cancel : (q s : ℕ) → 0 < s → 2 * (q * s) ≤ 20001 * s → q ≤ 10000
cancel q s positive h = grind arith

pow_split : (n : ℕ) → 10 ^ suc (suc (suc (suc n))) ≡ 10000 * 10 ^ n
pow_split n = omega arith

rounded_bounded :
    (c n : ℕ) → c ≤ 10 ^ suc (suc (suc (suc n))) → (2 * c + 10 ^ n) / (2 * 10 ^ n) ≤ 10000
rounded_bounded c n h =
    let near = half_up c (10 ^ n) _ (step-pos n) refl in
    cancel ((2 * c + 10 ^ n) / (2 * 10 ^ n)) (10 ^ n) (step-pos n)
      (omega (arith, near.0, h, pow_split n))

bounded :
    (c places : ℕ)
    → leb c (10 ^ places) ≡ true
    → quantize (record { coefficient = c; places = places }) ≤ 10000
unfolding quantize
bounded c zero h = ground arith
bounded c (suc zero) h = ground arith
bounded c (suc (suc zero)) h = ground arith
bounded c (suc (suc (suc zero))) h = ground arith
bounded c (suc (suc (suc (suc zero)))) h = ground arith
bounded c (suc (suc (suc (suc (suc n))))) h =
    let long : leb (suc (suc (suc (suc (suc n))))) 4 ≡ false = ground arith in
    let rest : suc (suc (suc (suc (suc n)))) - 4 ≡ suc n = omega arith in
    rw long (rw rest (rounded_bounded c (suc n) (leb→le c _ h)))

-- A score from 0 to 1 is rounded to a score from 0 to 1, so the check after the rounding rejects no
-- score that the schema accepts.
pub quantize_score-hidden :
    (d : Decimal) → is_hidden_score d ≡ true → quantize_score d ≡ ok (quantize d)
unfolding quantize_score is_hidden_score
quantize_score-hidden d hidden =
    let fits : leb (quantize d) unit_score ≡ true =
      (leb_iff (quantize d) unit_score).1 (bounded d.coefficient d.places hidden) in
    rw fits
