-- ===== src/Decimal/Rounding.antt =====
-- `reduceScale` of internal/model/decimal_math.go, and rounding half away from zero.
use native.Mathlib.Nat.{div-eq_of_lt-le, div-add-mod, mod-lt}
use native.Mathlib.Numerals.{add-one}
use real_time_market_data_pi.Base.{
  ℕ, zero, suc, ◌+◌, ◌*◌, ◌/◌, ◌%◌, ◌^◌, ◌<◌, ◌≡◌, refl, inl, inr, true, false, Bool-cases, leb,
  leb→le, if◌then◌else◌, arith,
}
use real_time_market_data_pi.Base.Int.{ℤ, pos, negsuc, abs_ℕ, neg_ℕ, ◌+ℤ◌, ◌-ℤ◌, quo, rem}
use real_time_market_data_pi.Decimal.Order.{pow-pos}
use real_time_market_data_pi.Decimal.Arith.{reduce_scale, step_away, pow10_big}

-- m / d, rounded half up.
pub round_ℕ : ℕ → ℕ → ℕ
round_ℕ m d = (2 * m + d) / (2 * d)

lt_of_leb : (a b : ℕ) → leb a b ≡ false → b < a
lt_of_leb a b h = ground arith

round_ℕ_lem : (m d : ℕ) → 0 < d → round_ℕ m d ≡ (if leb d (m % d * 2) then m / d + 1 else m / d)
unfolding round_ℕ
round_ℕ_lem m d h =
    let e = div-add-mod m d in
    let b = mod-lt m h in
    elim (Bool-cases (leb d (m % d * 2))) [
      | inl up ↦ rw up (
          div-eq_of_lt-le (2 * d) (omega (arith, e, leb→le d (m % d * 2) up)) (omega (arith, e, b)))
      | inr down ↦ rw down (
          div-eq_of_lt-le (2 * d) (omega (arith, e))
            (omega (arith, e, lt_of_leb d (m % d * 2) down)))
    ]

-- v / d, rounded half away from zero.
pub round_ℤ : ℤ → ℕ → ℤ
round_ℤ (pos m) d = pos (round_ℕ m d)
round_ℤ (negsuc m) d = neg_ℕ (round_ℕ (suc m) d)

step_away-pos : (q : ℕ) → step_away false (pos q) ≡ pos (q + 1)
unfolding step_away ◌+ℤ◌
step_away-pos q = ground arith

step_away-neg : (q : ℕ) → step_away true (neg_ℕ q) ≡ neg_ℕ (q + 1)
unfolding step_away ◌-ℤ◌
step_away-neg zero = refl
step_away-neg (suc q) = rw add-one (ground arith)

abs-neg_ℕ : (n : ℕ) → abs_ℕ (neg_ℕ n) ≡ n
abs-neg_ℕ zero = refl
abs-neg_ℕ (suc n) = refl

-- reduceScale divides by a power of ten and rounds half away from zero, for numbers of both signs.
pub reduce_scale-round_ℤ : (v : ℤ) (n : ℕ) → reduce_scale v n ≡ round_ℤ v (10 ^ n)
unfolding reduce_scale pow10_big quo rem round_ℤ
reduce_scale-round_ℤ (pos m) n =
    rw (round_ℕ_lem m (10 ^ n) (pow-pos n)) (ground (arith, step_away-pos (m / 10 ^ n)))
reduce_scale-round_ℤ (negsuc m) n =
    rw (abs-neg_ℕ, round_ℕ_lem (suc m) (10 ^ n) (pow-pos n))
      (ground (arith, step_away-neg (suc m / 10 ^ n)))
