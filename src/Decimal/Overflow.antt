-- ===== src/Decimal/Overflow.antt =====
-- `overflowsMul`, `addFast` and `pow10` of internal/model/decimal_math.go.
use native.Mathlib.Nat.{mul-div_cancel, zero-div, zero-mul, div-le_self, div-mul-le_self}
use mathlib.Core.Bool.{false≢true}
use real_time_market_data_pi.Base.{
  ℕ, zero, suc, ◌*◌, ◌/◌, ◌^◌, ◌≤◌, ◌≡◌, refl, sym, subst, ◌≢◌, ap, ◌∙◌, ◌↔◌, ◌⊎◌, inl, inr, true,
  false, some, none, arith, Bool-cases, all_below, all_below_sound, ==_iff,
}
use real_time_market_data_pi.Base.Int.{
  ℤ, pos, negsuc, pos_part, neg_part, abs_ℕ, neg_ℕ, +ℤ_parts, ◌+ℤ◌, ◌*ℤ◌, quo, eqb_ℤ, eq_of_parts,
}
use real_time_market_data_pi.Base.Int64.{
  IsInt64, min_int64, wrap, mul64, quo64, wrap-IsInt64, wrap_id,
}
use real_time_market_data_pi.Decimal.{max_scale}
use real_time_market_data_pi.Decimal.Arith.{add_fast, overflows_mul, pow10}

-- `addFast` gives the exact sum where it is an `int64`.
pub add_fast-some :
    (x y : ℤ) → IsInt64 x → IsInt64 y → IsInt64 (x +ℤ y) → add_fast x y ≡ some (x +ℤ y)
unfolding add_fast
add_fast-some x y hx hy h = rw (wrap_id (x +ℤ y) h) (ground (arith, +ℤ_parts x y))

pub add_fast-none : (x y : ℤ) → IsInt64 x → IsInt64 y → ¬ IsInt64 (x +ℤ y) → add_fast x y ≡ none
unfolding add_fast wrap ◌+ℤ◌
add_fast-none (pos m) (pos n) hx hy h = ground arith
add_fast-none (pos m) (negsuc n) hx hy h = ground arith
add_fast-none (negsuc m) (pos n) hx hy h = ground arith
add_fast-none (negsuc m) (negsuc n) hx hy h = ground arith

le_of_div : (m n k : ℕ) → m / n ≡ k → k * n ≤ m
le_of_div m n k e = rw (← e) (div-mul-le_self m n)

pub abs-neg_ℕ : (n : ℕ) → abs_ℕ (neg_ℕ n) ≡ n
abs-neg_ℕ zero = refl
abs-neg_ℕ (suc n) = refl

abs-quo : (p b : ℤ) → abs_ℕ (quo p b) ≡ abs_ℕ p / abs_ℕ b
unfolding quo
abs-quo (pos m) (pos n) = refl
abs-quo (pos m) (negsuc n) = abs-neg_ℕ (m / suc n)
abs-quo (negsuc m) (pos n) = abs-neg_ℕ (suc m / n)
abs-quo (negsuc m) (negsuc n) = refl

abs-* : (a b : ℤ) → abs_ℕ (a *ℤ b) ≡ abs_ℕ a * abs_ℕ b
unfolding ◌*ℤ◌
abs-* (pos m) (pos n) = refl
abs-* (pos m) (negsuc n) = abs-neg_ℕ (m * suc n)
abs-* (negsuc m) (pos n) = abs-neg_ℕ (suc m * n)
abs-* (negsuc m) (negsuc n) = refl

quo-neg_pos : (k n : ℕ) → quo (neg_ℕ k) (pos n) ≡ neg_ℕ (k / n)
unfolding quo
quo-neg_pos zero n = rw zero-div
quo-neg_pos (suc k) n = refl

quo-neg_negsuc : (k n : ℕ) → quo (neg_ℕ k) (negsuc n) ≡ pos (k / suc n)
unfolding quo
quo-neg_negsuc zero n = rw zero-div
quo-neg_negsuc (suc k) n = refl

quo-* : (a b : ℤ) → b ≢ pos 0 → quo (a *ℤ b) b ≡ a
unfolding quo ◌*ℤ◌
quo-* (pos m) (pos zero) h = absurd (h refl)
quo-* (pos m) (pos (suc n)) h = ap pos (mul-div_cancel m (omega arith))
quo-* (pos m) (negsuc n) h = quo-neg_negsuc (m * suc n) n ∙ ap pos (mul-div_cancel m (omega arith))
quo-* (negsuc m) (pos zero) h = absurd (h refl)
quo-* (negsuc m) (pos (suc n)) h =
    quo-neg_pos (suc m * suc n) (suc n) ∙ ap neg_ℕ (mul-div_cancel (suc m) (omega arith))
quo-* (negsuc m) (negsuc n) h = ap neg_ℕ (mul-div_cancel (suc m) (omega arith))

pub neg_ℕ-parts : (k : ℕ) → (pos_part (neg_ℕ k) ≡ 0) × (neg_part (neg_ℕ k) ≡ k)
neg_ℕ-parts zero = (refl, refl)
neg_ℕ-parts (suc k) = (refl, refl)

neg_ℕ-*-pos : (k n : ℕ) → neg_ℕ k *ℤ pos n ≡ neg_ℕ (k * n)
unfolding ◌*ℤ◌
neg_ℕ-*-pos zero n = rw zero-mul
neg_ℕ-*-pos (suc k) n = refl

neg_ℕ-*-negsuc : (k n : ℕ) → neg_ℕ k *ℤ negsuc n ≡ pos (k * suc n)
unfolding ◌*ℤ◌
neg_ℕ-*-negsuc zero n = rw zero-mul
neg_ℕ-*-negsuc (suc k) n = refl

-- What a division gives back, multiplied again, is no larger than what was divided, and of the
-- same sign.
quo_mul_fits : (p b : ℤ) → IsInt64 p → IsInt64 (quo p b *ℤ b)
unfolding quo
quo_mul_fits (pos r) (pos n) h = unfold ◌*ℤ◌ in omega (arith, div-mul-le_self r n)
quo_mul_fits (pos r) (negsuc n) h = rw neg_ℕ-*-negsuc (omega (arith, div-mul-le_self r (suc n)))
quo_mul_fits (negsuc r) (pos n) h =
    rw neg_ℕ-*-pos (omega (arith, neg_ℕ-parts (suc r / n * n), div-mul-le_self (suc r) n))
quo_mul_fits (negsuc r) (negsuc n) h =
    unfold ◌*ℤ◌ in
    omega (arith, neg_ℕ-parts (suc r / suc n * suc n), div-mul-le_self (suc r) (suc n))

quo-IsInt64 : (p b : ℤ) → IsInt64 p → b ≢ negsuc 0 → IsInt64 (quo p b)
unfolding quo
quo-IsInt64 (pos r) (pos n) h ne = omega (arith, div-le_self r n)
quo-IsInt64 (pos r) (negsuc n) h ne = omega (arith, neg_ℕ-parts (r / suc n), div-le_self r (suc n))
quo-IsInt64 (negsuc r) (pos n) h ne = omega (arith, neg_ℕ-parts (suc r / n), div-le_self (suc r) n)
quo-IsInt64 (negsuc r) (negsuc zero) h ne = absurd (ne refl)
quo-IsInt64 (negsuc r) (negsuc (suc n)) h ne = omega arith

pub overflows_mul-false : (a b : ℤ) → IsInt64 a → IsInt64 (a *ℤ b) → overflows_mul a b ≡ false
unfolding overflows_mul
overflows_mul-false a b ha h = elim (Bool-cases (eqb_ℤ b (pos 0))) [
  | inl e ↦ ground arith
  | inr e ↦ rw (wrap_id (a *ℤ b) h, quo-* a b (λ p. ground arith), wrap_id a ha) (ground arith)
]

mul_minus_one : (a : ℤ) → IsInt64 a → a ≢ min_int64 → IsInt64 (a *ℤ negsuc 0)
unfolding ◌*ℤ◌
mul_minus_one (pos n) ha ne = omega (arith, neg_ℕ-parts (n * 1))
mul_minus_one (negsuc n) ha ne = ground arith

zero_mul_fits : (b : ℤ) → IsInt64 (pos 0 *ℤ b)
unfolding ◌*ℤ◌
zero_mul_fits (pos n) = omega arith
zero_mul_fits (negsuc n) = omega (arith, neg_ℕ-parts (0 * suc n))

mul_zero_fits : (a : ℤ) → IsInt64 (a *ℤ pos 0)
unfolding ◌*ℤ◌
mul_zero_fits (pos m) = omega arith
mul_zero_fits (negsuc m) = omega (arith, neg_ℕ-parts (suc m * 0))

-- A test passed with neither operand zero says that the wrapped quotient is the first operand.
test_passed :
    (a b : ℤ) → overflows_mul a b ≡ false → (a ≡ pos 0) ⊎ (b ≡ pos 0) ⊎ (quo64 (mul64 a b) b ≡ a)
unfolding overflows_mul
test_passed a b e = elim (Bool-cases (eqb_ℤ a (pos 0))) [
  | inl za ↦ inl (ground arith)
  | inr na ↦ elim (Bool-cases (eqb_ℤ b (pos 0))) [
    | inl zb ↦ inr (inl (ground arith))
    | inr nb ↦ elim (Bool-cases (eqb_ℤ (quo64 (mul64 a b) b) a)) [
      | inl q ↦ inr (inr (eq_of_parts _ _ ((==_iff _ _).0 q)))
      | inr q ↦ absurd (false≢true (sym e ∙ rw (na, nb, q)))
    ]
  ]
]

-- overflowsMul of an int64 and another number answers no if and only if the product is an int64,
-- except for the smallest int64 times -1.
pub overflows_mul-exact :
    (a b : ℤ)
    → IsInt64 a
    → ¬ ((a ≡ min_int64) × (b ≡ negsuc 0))
    → (overflows_mul a b ≡ false) ↔ IsInt64 (a *ℤ b)
unfolding overflows_mul
overflows_mul-exact a b ha ne = (exact, overflows_mul-false a b ha)
  where
    divided : overflows_mul a b ≡ false → b ≢ negsuc 0 → IsInt64 (a *ℤ b)
    divided e nb = elim (test_passed a b e) [
      | inl za ↦ rw za (zero_mul_fits b)
      | inr (inl zb) ↦ rw zb (mul_zero_fits a)
      | inr (inr q) ↦
          subst (λ z. IsInt64 (z *ℤ b))
            (sym (wrap_id _ (quo-IsInt64 (mul64 a b) b (wrap-IsInt64 (a *ℤ b)) nb)) ∙ q)
            (quo_mul_fits (mul64 a b) b (wrap-IsInt64 (a *ℤ b)))
    ]

    exact : overflows_mul a b ≡ false → IsInt64 (a *ℤ b)
    exact e = elim (Bool-cases (eqb_ℤ b (negsuc 0))) [
      | inl p ↦
          let q : b ≡ negsuc 0 = eq_of_parts b (negsuc 0) ((==_iff _ _).0 p) in
          rw q (mul_minus_one a ha (λ m. ne (m, q)))
      | inr p ↦ divided e (λ q. ground arith)
    ]

pub pow10_table : all_below 19 (λ n. eqb_ℤ (pow10 n) (pos (10 ^ n))) ≡ true
unfolding all_below pow10 ◌*ℤ◌ wrap
pow10_table = refl

-- `pow10` is exact up to the largest scale.
pub pow10-eq : (n : ℕ) → n ≤ max_scale → pow10 n ≡ pos (10 ^ n)
pow10-eq n h =
    let e = all_below_sound 19 (λ k. eqb_ℤ (pow10 k) (pos (10 ^ k))) n pow10_table (omega arith) in
    eq_of_parts (pow10 n) (pos (10 ^ n)) ((==_iff _ _).0 e)
