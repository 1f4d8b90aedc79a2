-- ===== src/Decimal/Sum.antt =====
-- `Add`, `Sub`, `Mul` and `fromBig` of internal/model/decimal_math.go.
use real_time_market_data_pi.Base.{
  ℕ, zero, suc, ◌+◌, ◌-◌, ◌^◌, ◌≤◌, ◌≡◌, ap, ap₂, ◌∙◌, inl, inr, some, Option-cases, Bool-cases,
  ltb, arith, ◌≢◌, leb, le→leb, leb→le,
}
use real_time_market_data_pi.Base.Int.{
  ℤ, pos, negsuc, ◌*ℤ◌, ◌+ℤ◌, ◌-ℤ◌, neg, neg_parts, int_laws, eq_of_parts, neg_parts,
}
use real_time_market_data_pi.Base.Int64.{
  IsInt64, is_int64, is_int64_iff, min_int64, wrap_id, wrap-IsInt64,
}
use real_time_market_data_pi.Decimal.{Decimal, max_scale, IsValid}
use real_time_market_data_pi.Decimal.Arith.{
  add, add_big, add_fast, align_fast, big_at, pow10, from_big, from_big_end, from_big_loop,
  max_scale_of, negate, sub, mul, reduce_scale, overflows_mul,
}
use real_time_market_data_pi.Decimal.Overflow.{add_fast-some, overflows_mul-false}
use real_time_market_data_pi.Decimal.Order.{
  value, value-big_at, scaled, scaled-+ℤ, scaled_parts, align_fast-some, max_scale_of_bounds,
}

from_big_end-IsValid : (v : ℤ) (k : ℕ) → k ≤ max_scale → IsValid (from_big_end v k)
unfolding from_big_end neg
from_big_end-IsValid v k h = elim (Bool-cases (is_int64 v)) [
  | inl e ↦ rw e (record { in_range = (is_int64_iff v).0 e; fine = h })
  | inr e ↦ rw e (ground arith)
]

from_big_loop-IsValid : (v : ℤ) (k : ℕ) → k ≤ max_scale → IsValid (from_big_loop v k)
unfolding from_big_loop
from_big_loop-IsValid v zero h = from_big_end-IsValid v 0 h
from_big_loop-IsValid v (suc k) h = elim (Bool-cases (is_int64 v)) [
  | inl e ↦ rw (e, from_big_loop) (from_big_end-IsValid v (suc k) h)
  | inr e ↦ rw (e, from_big_loop) (from_big_loop-IsValid (reduce_scale v 1) k (omega arith))
]

-- Whatever the number and the scale, `fromBig` gives an `int64` with at most 18 places.
pub from_big-IsValid : (v : ℤ) (k : ℕ) → IsValid (from_big v k)
unfolding from_big
from_big-IsValid v k = elim (Bool-cases (ltb max_scale k)) [
  | inl e ↦ rw e (from_big_loop-IsValid (reduce_scale v (k - max_scale)) max_scale (omega arith))
  | inr e ↦ rw e (from_big_loop-IsValid v k (ground arith))
]

from_big_end-exact :
    (v : ℤ) (k : ℕ) → IsInt64 v → from_big_end v k ≡ record { unscaled = v; scale = k }
unfolding from_big_end
from_big_end-exact v k h = rw ((is_int64_iff v).1 h)

from_big_loop-exact :
    (v : ℤ) (k : ℕ) → IsInt64 v → from_big_loop v k ≡ record { unscaled = v; scale = k }
unfolding from_big_loop
from_big_loop-exact v zero h = from_big_end-exact v 0 h
from_big_loop-exact v (suc k) h =
    rw ((is_int64_iff v).1 h, from_big_loop) (from_big_end-exact v (suc k) h)

-- A number that fits, at a scale that fits, is kept as it is.
pub from_big-exact :
    (v : ℤ) (k : ℕ) → IsInt64 v → k ≤ max_scale → from_big v k ≡ record { unscaled = v; scale = k }
unfolding from_big
from_big-exact v k h f = elim (Bool-cases (ltb max_scale k)) [
  | inl e ↦ absurd (ground arith)
  | inr e ↦ rw e (from_big_loop-exact v k h)
]

-- The two numbers at the larger scale, added.
abbrev pub exact_sum : Decimal → Decimal → ℤ
exact_sum d o = big_at d (max_scale_of d o) +ℤ big_at o (max_scale_of d o)

pub align_fast-IsInt64 :
    (d o : Decimal) {x y : ℤ}
    → IsValid d
    → IsValid o
    → align_fast d o ≡ some (x, y)
    → IsInt64 x × IsInt64 y
unfolding align_fast
align_fast-IsInt64 d o vd vo e = ground (
  arith,
  wrap-IsInt64 (d.unscaled *ℤ pow10 (o.scale - d.scale)),
  wrap-IsInt64 (o.unscaled *ℤ pow10 (d.scale - o.scale)),
)

add_big-exact :
    (d o : Decimal)
    → IsValid d
    → IsValid o
    → IsInt64 (exact_sum d o)
    → add_big d o ≡ record { unscaled = exact_sum d o; scale = max_scale_of d o }
unfolding add_big
add_big-exact d o vd vo h =
    from_big-exact (exact_sum d o) (max_scale_of d o) h (max_scale_of_bounds d o vd vo).2

-- Where the sum of the two numbers at the larger scale is an `int64`, `Add` gives it, on either path.
pub add_exact :
    (d o : Decimal)
    → IsValid d
    → IsValid o
    → IsInt64 (exact_sum d o)
    → add d o ≡ record { unscaled = exact_sum d o; scale = max_scale_of d o }
unfolding add
add_exact d o vd vo h = elim (Option-cases (align_fast d o)) [
  | inl slow ↦ rw (add, slow) (add_big-exact d o vd vo h)
  | inr ((x, y), fast) ↦
      let (ex, ey) = align_fast-some d o vd vo fast in
      let (hx, hy) = align_fast-IsInt64 d o vd vo fast in
      let e : x +ℤ y ≡ exact_sum d o = ap₂ ◌+ℤ◌ ex ey in
      rw (add, fast, add_fast-some x y hx hy (rw e h), e)
]

-- The sum of two decimals in range has exactly the sum of their values, where it fits an int64 at
-- the larger scale.
pub value-add :
    (d o : Decimal)
    → IsValid d
    → IsValid o
    → IsInt64 (exact_sum d o)
    → value (add d o) ≡ value d +ℤ value o
value-add d o vd vo h =
    let m = max_scale_of d o in
    let (hd, ho, hm) = max_scale_of_bounds d o vd vo in
    ap value (add_exact d o vd vo h)
    ∙ unfold value in
      scaled-+ℤ (big_at d m) (big_at o m) (10 ^ (max_scale - m))
      ∙ ap₂ ◌+ℤ◌ (value-big_at d m hd hm) (value-big_at o m ho hm)

add_fast-IsInt64 : (x y : ℤ) {z : ℤ} → add_fast x y ≡ some z → IsInt64 z
unfolding add_fast
add_fast-IsInt64 x y e = ground (arith, wrap-IsInt64 (x +ℤ y))

-- The sum of two decimals in range is in range with at most 18 places, also where it is rounded or
-- clamped.
pub add-IsValid : (d o : Decimal) → IsValid d → IsValid o → IsValid (add d o)
unfolding add
add-IsValid d o vd vo = elim (Option-cases (align_fast d o)) [
  | inl slow ↦ rw (slow, add) (unfold add_big in from_big-IsValid _ _)
  | inr ((x, y), fast) ↦ elim (Option-cases (add_fast x y)) [
    | inl over ↦ rw (fast, over, add) (unfold add_big in from_big-IsValid _ _)
    | inr (z, e) ↦
        rw (fast, e, add)
          (record { in_range = add_fast-IsInt64 x y e; fine = (max_scale_of_bounds d o vd vo).2 })
  ]
]

neg-IsInt64 : (z : ℤ) → IsInt64 z → z ≢ min_int64 → IsInt64 (neg z)
unfolding neg
neg-IsInt64 (pos zero) h ne = omega arith
neg-IsInt64 (pos (suc n)) h ne = omega arith
neg-IsInt64 (negsuc n) h ne = ground arith

pub negate-IsValid : (d : Decimal) → IsValid d → IsValid (negate d)
unfolding negate
negate-IsValid d v = record { in_range = wrap-IsInt64 (neg d.unscaled); fine = v.fine }

pub value-negate :
    (d : Decimal) → IsValid d → d.unscaled ≢ min_int64 → value (negate d) ≡ neg (value d)
value-negate d v ne =
    let k = 10 ^ (max_scale - d.scale) in
    unfold value negate in
    rw (wrap_id (neg d.unscaled) (neg-IsInt64 d.unscaled v.in_range ne)) (
      eq_of_parts _ _ (
        rw (
          (scaled_parts (neg d.unscaled) k).0,
          (scaled_parts (neg d.unscaled) k).1,
          (neg_parts (scaled d.unscaled k)).0,
          (neg_parts (scaled d.unscaled k)).1,
          (scaled_parts d.unscaled k).0,
          (scaled_parts d.unscaled k).1,
          (neg_parts d.unscaled).0,
          (neg_parts d.unscaled).1,
        )))

-- The difference of two decimals in range has exactly the difference of their values, where it
-- fits an int64 at the larger scale and the second operand is not at the smallest int64.
pub value-sub :
    (d o : Decimal)
    → IsValid d
    → IsValid o
    → o.unscaled ≢ min_int64
    → IsInt64 (exact_sum d (negate o))
    → value (sub d o) ≡ value d -ℤ value o
unfolding sub
value-sub d o vd vo ne h =
    value-add d (negate o) vd (negate-IsValid o vo) h
    ∙ eq_of_parts _ _ (rw (value-negate o vo ne) (omega int_laws))

-- A product of a decimal in range and another is the product of the unscaled numbers at the sum of
-- the scales, where the scales add up to at most 18 and the product is an int64.
pub mul_exact :
    (d o : Decimal)
    → IsValid d
    → d.scale + o.scale ≤ max_scale
    → IsInt64 (d.unscaled *ℤ o.unscaled)
    → mul d o ≡ record { unscaled = d.unscaled *ℤ o.unscaled; scale = d.scale + o.scale }
unfolding mul
mul_exact d o vd f h = rw (
  le→leb (d.scale + o.scale) max_scale f,
  overflows_mul-false d.unscaled o.unscaled vd.in_range h,
  wrap_id _ h,
)

-- Every product is in range with at most 18 places, also where it is rounded or clamped.
pub mul-IsValid : (d o : Decimal) → IsValid (mul d o)
unfolding mul
mul-IsValid d o = elim (Bool-cases (leb (d.scale + o.scale) max_scale)) [
  | inr n ↦ rw n (from_big-IsValid _ _)
  | inl f ↦ elim (Bool-cases (overflows_mul d.unscaled o.unscaled)) [
    | inl over ↦ rw (f, over) (from_big-IsValid _ _)
    | inr fits ↦
        rw (f, fits)
          (record { in_range = wrap-IsInt64 _; fine = leb→le (d.scale + o.scale) max_scale f })
  ]
]
