-- ===== src/Decimal/Shorten.antt =====
-- The sums of internal/model/decimal_math.go where they do not fit.
use real_time_market_data_pi.Base.{
  ℕ, zero, suc, ◌≤◌, ◌≡◌, refl, sym, ap₂, ◌∙◌, inl, inr, some, Option-cases, Bool-cases,
  if◌then◌else◌, ltb, arith,
}
use real_time_market_data_pi.Base.Int.{ℤ, pos, negsuc, ◌+ℤ◌, neg}
use real_time_market_data_pi.Base.Int64.{IsInt64, is_int64, is_int64_iff, max_int64, wrap}
use real_time_market_data_pi.Decimal.{Decimal, max_scale, IsValid}
use real_time_market_data_pi.Decimal.Arith.{
  add, add_big, add_fast, align_fast, from_big, from_big_end, from_big_loop, max_scale_of,
}
use real_time_market_data_pi.Decimal.Order.{align_fast-some, max_scale_of_bounds}
use real_time_market_data_pi.Decimal.Rounding.{round_ℤ, reduce_scale-round_ℤ}
use real_time_market_data_pi.Decimal.Sum.{exact_sum, add_exact, align_fast-IsInt64, add-IsValid}

-- The largest number on the side of v.
pub clamped : ℤ → ℤ
clamped (pos n) = max_int64
clamped (negsuc n) = neg max_int64

-- A number at a scale with as many of its decimal places as an int64 has room for: it is rounded
-- half away from zero, a place at a time, and clamped where it has no room without any.
pub shorten : ℤ → ℕ → Decimal
shorten v zero = record { unscaled = if is_int64 v then v else clamped v; scale = 0 }
shorten v (suc k) =
    let shorter = shorten (round_ℤ v 10) k in
    if is_int64 v then record { unscaled = v; scale = suc k } else shorter

-- What `add_fast` gives does not wrap.
add_fast-fits : (x y : ℤ) {z : ℤ} → IsInt64 x → IsInt64 y → add_fast x y ≡ some z → IsInt64 (x +ℤ y)
unfolding add_fast wrap ◌+ℤ◌
add_fast-fits (pos m) (pos n) hx hy e = ground arith
add_fast-fits (pos m) (negsuc n) hx hy e = ground arith
add_fast-fits (negsuc m) (pos n) hx hy e = ground arith
add_fast-fits (negsuc m) (negsuc n) hx hy e = ground arith

from_big_end-shorten : (v : ℤ) → from_big_end v 0 ≡ shorten v 0
unfolding from_big_end shorten clamped
from_big_end-shorten (pos n) = ground arith
from_big_end-shorten (negsuc n) = ground arith

from_big_loop-shorten : (v : ℤ) (k : ℕ) → from_big_loop v k ≡ shorten v k
unfolding from_big_loop shorten
from_big_loop-shorten v zero = from_big_end-shorten v
from_big_loop-shorten v (suc k) = elim (Bool-cases (is_int64 v)) [
  | inl e ↦ rw (e, from_big_loop) (unfold from_big_end in rw e refl)
  | inr e ↦ rw (e, from_big_loop, reduce_scale-round_ℤ v 1) (from_big_loop-shorten (round_ℤ v 10) k)
]

shorten-exact : (v : ℤ) (k : ℕ) → IsInt64 v → shorten v k ≡ record { unscaled = v; scale = k }
unfolding shorten
shorten-exact v zero h = rw ((is_int64_iff v).1 h) refl
shorten-exact v (suc k) h = rw ((is_int64_iff v).1 h) refl

from_big-shorten : (v : ℤ) (k : ℕ) → k ≤ max_scale → from_big v k ≡ shorten v k
unfolding from_big
from_big-shorten v k f = elim (Bool-cases (ltb max_scale k)) [
  | inl e ↦ absurd (ground arith)
  | inr e ↦ rw e (from_big_loop-shorten v k)
]

add_big-shorten :
    (d o : Decimal)
    → IsValid d
    → IsValid o
    → add_big d o ≡ shorten (exact_sum d o) (max_scale_of d o)
unfolding add_big
add_big-shorten d o vd vo =
    from_big-shorten (exact_sum d o) (max_scale_of d o) (max_scale_of_bounds d o vd vo).2

add-shorten :
    (d o : Decimal) → IsValid d → IsValid o → add d o ≡ shorten (exact_sum d o) (max_scale_of d o)
unfolding add
add-shorten d o vd vo = elim (Option-cases (align_fast d o)) [
  | inl slow ↦ rw (add, slow) (add_big-shorten d o vd vo)
  | inr ((x, y), fast) ↦ elim (Option-cases (add_fast x y)) [
    | inl over ↦ rw (add, fast, over) (add_big-shorten d o vd vo)
    | inr (z, e) ↦
        let (ex, ey) = align_fast-some d o vd vo fast in
        let (hx, hy) = align_fast-IsInt64 d o vd vo fast in
        let fits : IsInt64 (exact_sum d o) = rw (ap₂ ◌+ℤ◌ ex ey) at (add_fast-fits x y hx hy e) in
        add_exact d o vd vo fits ∙ sym (shorten-exact (exact_sum d o) (max_scale_of d o) fits)
  ]
]

-- The sum of two decimals in range never wraps: it is their exact sum at the larger scale, with as
-- many of its decimal places as an int64 has room for, rounded half away from zero a place at a
-- time, and clamped to the largest int64 or its negative where it has no room without any; it is
-- in range, with at most 18 places.
pub add_never_wraps :
    (d o : Decimal)
    → IsValid d
    → IsValid o
    → (add d o ≡ shorten (exact_sum d o) (max_scale_of d o)) × IsValid (add d o)
add_never_wraps d o vd vo = (add-shorten d o vd vo, add-IsValid d o vd vo)
