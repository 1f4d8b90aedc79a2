-- ===== src/Decimal/Order.antt =====
-- `Cmp`, `Less` and `Equal` of internal/model/decimal_math.go, and the value of a decimal: a whole
-- number of units of 10^-18.
use native.Mathlib.Nat.{
  zero-mul, one-mul, mul-le-mul_right, mul_assoc, add-mul, zero-add, suc-add, pow-zero, pow-suc,
}
use real_time_market_data_pi.Base.{
  ◌↔◌, ℕ, zero, suc, ◌+◌, ◌-◌, ◌*◌, ◌^◌, ◌≤◌, ◌<◌, ◌≡◌, refl, sym, ap, ap₂, ◌∙◌, inl, inr, true,
  false, some, Option-cases, Bool-cases, ltb, ◌==◌, compare, arith,
}
use real_time_market_data_pi.Base.Int.{
  ℤ, pos, negsuc, pos_part, neg_part, ◌+ℤ◌, +ℤ_parts, ◌*ℤ◌, ◌<ℤ◌, compare_ℤ, ltb_ℤ, eq_of_parts,
}
use real_time_market_data_pi.Base.Int64.{IsInt64, mul64, wrap_id}
use real_time_market_data_pi.Decimal.{Decimal, max_scale, IsValid}
use real_time_market_data_pi.Decimal.Arith.{
  align_fast, big_at, cmp, less, equal, max_scale_of, overflows_mul, pow10, pow10_big,
}
use real_time_market_data_pi.Decimal.Overflow.{overflows_mul-exact, pow10-eq, neg_ℕ-parts}

-- z * k
abbrev pub scaled : ℤ → ℕ → ℤ
scaled z k = z *ℤ pos k

-- The value in units of 10^-18.
unfoldable pub value : Decimal → ℤ
value d = scaled d.unscaled (10 ^ (max_scale - d.scale))

pub scaled_parts :
    (z : ℤ) (k : ℕ)
    → (pos_part (scaled z k) ≡ pos_part z * k) × (neg_part (scaled z k) ≡ neg_part z * k)
unfolding ◌*ℤ◌
scaled_parts (pos m) k = (refl, sym (zero-mul k))
scaled_parts (negsuc m) k =
    ((neg_ℕ-parts (suc m * k)).0 ∙ sym (zero-mul k), (neg_ℕ-parts (suc m * k)).1)

scaled-scaled : (z : ℤ) (k l : ℕ) → scaled (scaled z k) l ≡ scaled z (k * l)
scaled-scaled z k l = eq_of_parts _ _ (
    rw
      (
        (scaled_parts (scaled z k) l).0,
        (scaled_parts (scaled z k) l).1,
        (scaled_parts z k).0,
        (scaled_parts z k).1,
        (scaled_parts z (k * l)).0,
        (scaled_parts z (k * l)).1,
        mul_assoc,
      )
      (ap (λ t. pos_part z * (k * l) + t) (sym (mul_assoc (neg_part z) k l))))

pub scaled_one : (z : ℤ) → scaled z 1 ≡ z
scaled_one z = eq_of_parts _ _ (omega (arith, scaled_parts z 1))

pub scaled-+ℤ : (x y : ℤ) (k : ℕ) → scaled (x +ℤ y) k ≡ scaled x k +ℤ scaled y k
scaled-+ℤ x y k = eq_of_parts _ _ (
    omega (
      arith,
      scaled_parts (x +ℤ y) k,
      scaled_parts x k,
      scaled_parts y k,
      +ℤ_parts (scaled x k) (scaled y k),
      ap (λ (t : ℕ). t * k) (+ℤ_parts x y),
    ))

pow-add : (a b : ℕ) → 10 ^ (a + b) ≡ 10 ^ a * 10 ^ b
pow-add zero b = rw (zero-add, pow-zero, one-mul)
pow-add (suc a) b = rw (suc-add, pow-suc, pow-add a b, pow-suc) (omega arith)

pub pow-pos : (n : ℕ) → 0 < 10 ^ n
pow-pos zero = omega arith
pow-pos (suc n) = rw pow-suc (omega (arith, pow-pos n))

compare-mul : (a b k : ℕ) → 0 < k → compare (a * k) (b * k) ≡ compare a b
compare-mul a b zero h = elim h [ ]
compare-mul a b (suc k) h =
    ground (arith, λ (p : a ≤ b). mul-le-mul_right k p, λ (p : b ≤ a). mul-le-mul_right k p)

compare-scaled : (x y : ℤ) (k : ℕ) → 0 < k → compare_ℤ (scaled x k) (scaled y k) ≡ compare_ℤ x y
compare-scaled x y k h =
    rw
      (
        (scaled_parts x k).0,
        (scaled_parts x k).1,
        (scaled_parts y k).0,
        (scaled_parts y k).1,
        ← add-mul (pos_part x) (neg_part y) k,
        ← add-mul (pos_part y) (neg_part x) k,
      )
      (compare-mul (pos_part x + neg_part y) (pos_part y + neg_part x) k h)

-- At a common scale the unscaled numbers, multiplied up, are the values.
pub value-big_at :
    (d : Decimal) (m : ℕ)
    → d.scale ≤ m
    → m ≤ max_scale
    → scaled (big_at d m) (10 ^ (max_scale - m)) ≡ value d
unfolding value big_at pow10_big
value-big_at d m h f = elim (Bool-cases (ltb d.scale m)) [
  | inl lower ↦ rw lower (
      scaled-scaled d.unscaled (10 ^ (m - d.scale)) (10 ^ (max_scale - m))
      ∙ ap (scaled d.unscaled)
          (sym (pow-add (m - d.scale) (max_scale - m)) ∙ ap (λ k. 10 ^ k) (omega arith)))
  | inr same ↦ rw same (ap (λ k. scaled d.unscaled (10 ^ k)) (ground arith))
]

mul64-pow10 :
    (u : ℤ) (k : ℕ)
    → IsInt64 u
    → k ≤ max_scale
    → overflows_mul u (pow10 k) ≡ false
    → mul64 u (pow10 k) ≡ u *ℤ pow10_big k
unfolding pow10_big
mul64-pow10 u k hu h e =
    let p = pow10-eq k h in
    rw p (wrap_id _ ((overflows_mul-exact u (pos (10 ^ k)) hu (λ m. ground arith)).0 (rw p at e)))

-- `alignFast` brings both numbers to the larger scale.
pub align_fast-some :
    (d o : Decimal) {x y : ℤ}
    → IsValid d
    → IsValid o
    → align_fast d o ≡ some (x, y)
    → (x ≡ big_at d (max_scale_of d o)) × (y ≡ big_at o (max_scale_of d o))
unfolding align_fast big_at max_scale_of
align_fast-some d o vd vo e = ground (
  arith,
  mul64-pow10 d.unscaled (o.scale - d.scale) vd.in_range,
  mul64-pow10 o.unscaled (d.scale - o.scale) vo.in_range,
)

pub max_scale_of_bounds :
    (d o : Decimal)
    → IsValid d
    → IsValid o
    → (d.scale ≤ max_scale_of d o) × (o.scale ≤ max_scale_of d o) × (max_scale_of d o ≤ max_scale)
unfolding max_scale_of
max_scale_of_bounds d o vd vo = ground arith

-- `Cmp` on every path compares the two numbers at the larger scale.
cmp-big_at :
    (d o : Decimal)
    → IsValid d
    → IsValid o
    → cmp d o ≡ compare_ℤ (big_at d (max_scale_of d o)) (big_at o (max_scale_of d o))
unfolding cmp
cmp-big_at d o vd vo = elim (Bool-cases (d.scale == o.scale)) [
  | inl e ↦ rw e (unfold big_at max_scale_of in ground arith)
  | inr n ↦ rw n (elim (Option-cases (align_fast d o)) [
    | inl slow ↦ rw slow
    | inr ((x, y), fast) ↦
        rw fast
          (ap₂ compare_ℤ (align_fast-some d o vd vo fast).0 (align_fast-some d o vd vo fast).1)
  ])
]

-- Cmp of two decimals in range orders them as their exact values, on the fast path and on the
-- big-integer path.
pub cmp-compare_value :
    (d o : Decimal) → IsValid d → IsValid o → cmp d o ≡ compare_ℤ (value d) (value o)
cmp-compare_value d o vd vo =
    let m = max_scale_of d o in
    let (hd, ho, hm) = max_scale_of_bounds d o vd vo in
    cmp-big_at d o vd vo
    ∙ sym
        (compare-scaled (big_at d m) (big_at o m) (10 ^ (max_scale - m)) (pow-pos (max_scale - m)))
    ∙ ap₂ compare_ℤ (value-big_at d m hd hm) (value-big_at o m ho hm)

-- `Less` says that the value is less, and `Equal` that it is the same.
pub less_iff : (d o : Decimal) → IsValid d → IsValid o → (less d o ≡ true) ↔ (value d <ℤ value o)
unfolding less
less_iff d o vd vo = rw (cmp-compare_value d o vd vo, less) (λ h. ground arith, λ h. ground arith)

pub equal_iff : (d o : Decimal) → IsValid d → IsValid o → (equal d o ≡ true) ↔ (value d ≡ value o)
unfolding equal
equal_iff d o vd vo =
    rw (cmp-compare_value d o vd vo, equal)
      (λ h. eq_of_parts _ _ (ground arith), λ h. rw h (ground arith))

-- `Less` as a test on the values.
pub less_lem : (d o : Decimal) → IsValid d → IsValid o → less d o ≡ ltb_ℤ (value d) (value o)
unfolding less
less_lem d o vd vo = rw (cmp-compare_value d o vd vo, less)
