-- ===== src/Decimal/Arith.antt =====
-- The exact arithmetic of internal/model/decimal_math.go. `big.Int` is ℤ; -1, 0 and +1 of `Cmp`
-- are `Ordering.lt`, `eq` and `gt`.
use real_time_market_data_pi.Base.{
  ℕ, zero, suc, ◌+◌, ◌-◌, ◌*◌, ◌^◌, ◌==◌, Bool, true, false, not, ◌&&◌, ◌||◌, ltb, leb,
  if◌then◌else◌, Option, none, some, Ordering,
}
use real_time_market_data_pi.Base.Int.{
  ℤ, pos, negsuc, abs_ℕ, ◌+ℤ◌, ◌-ℤ◌, ◌*ℤ◌, neg, quo, rem, compare_ℤ, ltb_ℤ, leb_ℤ, eqb_ℤ,
}
use real_time_market_data_pi.Base.Int64.{max_int64, is_int64, add64, mul64, neg64, quo64}
use real_time_market_data_pi.Decimal.{Decimal, max_scale, zero_decimal}

unfoldable pub max_scale_of : Decimal → Decimal → ℕ
max_scale_of a b = if ltb b.scale a.scale then a.scale else b.scale

-- `for i < n { p *= 10 }`
unfoldable pub pow10_loop : ℕ → ℤ → ℤ
pow10_loop zero p = p
pow10_loop (suc n) p = pow10_loop n (mul64 p (pos 10))

unfoldable pub pow10 : ℕ → ℤ
unfolding pow10_loop
pow10 n = if ltb max_scale n then max_int64 else pow10_loop n (pos 1)

unfoldable pub pow10_big : ℕ → ℤ
pow10_big n = pos (10 ^ n)

unfoldable pub overflows_mul : ℤ → ℤ → Bool
overflows_mul a b =
    if eqb_ℤ a (pos 0) || eqb_ℤ b (pos 0) then false else not (eqb_ℤ (quo64 (mul64 a b) b) a)

unfoldable pub add_fast : ℤ → ℤ → Option ℤ
add_fast x y =
    let sum = add64 x y in
    if (ltb_ℤ (pos 0) x && ltb_ℤ (pos 0) y && ltb_ℤ sum (pos 0))
      || (ltb_ℤ x (pos 0) && ltb_ℤ y (pos 0) && leb_ℤ (pos 0) sum)
    then none
    else some sum

unfoldable pub align_fast : Decimal → Decimal → Option (ℤ × ℤ)
align_fast a b =
    if a.scale == b.scale
    then some (a.unscaled, b.unscaled)
    else if ltb a.scale b.scale
    then (let f = pow10 (b.scale - a.scale) in
        if overflows_mul a.unscaled f then none else some (mul64 a.unscaled f, b.unscaled))
    else (let f = pow10 (a.scale - b.scale) in
        if overflows_mul b.unscaled f then none else some (a.unscaled, mul64 b.unscaled f))

unfoldable pub big_at : Decimal → ℕ → ℤ
big_at d scale = if ltb d.scale scale then d.unscaled *ℤ pow10_big (scale - d.scale) else d.unscaled

-- One unit away from zero, on the side that `negative` names.
unfoldable pub step_away : Bool → ℤ → ℤ
step_away negative q = if negative then q -ℤ pos 1 else q +ℤ pos 1

unfoldable pub reduce_scale : ℤ → ℕ → ℤ
unfolding step_away
reduce_scale v n =
    let den = pow10_big n in
    let q = quo v den in
    if leb (abs_ℕ den) (abs_ℕ (rem v den) * 2) then step_away (ltb_ℤ v (pos 0)) q else q

-- The clamp at scale 0, and the conversion to `int64`.
unfoldable pub from_big_end : ℤ → ℕ → Decimal
from_big_end v scale =
    if is_int64 v
    then record { unscaled = v; scale = scale }
    else if leb_ℤ (pos 0) v
    then record { unscaled = max_int64; scale = 0 }
    else record { unscaled = neg max_int64; scale = 0 }

-- `for scale > 0 && !v.IsInt64()`
unfoldable pub from_big_loop : ℤ → ℕ → Decimal
from_big_loop v zero = from_big_end v 0
from_big_loop v (suc scale) = elim (is_int64 v) [
  | true ↦ from_big_end v (suc scale)
  | false ↦ from_big_loop (reduce_scale v 1) scale
]

unfoldable pub from_big : ℤ → ℕ → Decimal
from_big v scale =
    if ltb max_scale scale
    then from_big_loop (reduce_scale v (scale - max_scale)) max_scale
    else from_big_loop v scale

unfoldable pub cmp : Decimal → Decimal → Ordering
cmp d o = if d.scale == o.scale then compare_ℤ d.unscaled o.unscaled else elim (align_fast d o) [
  | some (x, y) ↦ compare_ℤ x y
  | none ↦ let scale = max_scale_of d o in compare_ℤ (big_at d scale) (big_at o scale)
]

unfoldable pub less : Decimal → Decimal → Bool
less d o = elim (cmp d o) [ Ordering.lt ↦ true | _ ↦ false ]

unfoldable pub equal : Decimal → Decimal → Bool
equal d o = elim (cmp d o) [ Ordering.eq ↦ true | _ ↦ false ]

unfoldable pub add_big : Decimal → Decimal → Decimal
add_big d o = let scale = max_scale_of d o in from_big (big_at d scale +ℤ big_at o scale) scale

unfoldable pub add : Decimal → Decimal → Decimal
add d o = elim (align_fast d o) [
  | none ↦ add_big d o
  | some (x, y) ↦ elim (add_fast x y) [
    | none ↦ add_big d o
    | some sum ↦ record { unscaled = sum; scale = max_scale_of d o }
  ]
]

-- `Neg`
unfoldable pub negate : Decimal → Decimal
negate d = record d { unscaled = neg64 d.unscaled }

unfoldable pub sub : Decimal → Decimal → Decimal
sub d o = add d (negate o)

unfoldable pub mul : Decimal → Decimal → Decimal
mul d o =
    let scale = d.scale + o.scale in
    if leb scale max_scale && not (overflows_mul d.unscaled o.unscaled)
    then record { unscaled = mul64 d.unscaled o.unscaled; scale = scale }
    else from_big (d.unscaled *ℤ o.unscaled) scale

-- The rounded quotient of `Div`; the signs are those of the operands.
unfoldable pub div_round : ℤ → ℤ → Bool → ℤ
unfolding step_away
div_round num den negative =
    let q = quo num den in
    if leb (abs_ℕ den) (abs_ℕ (rem num den) * 2) then step_away negative q else q

unfoldable pub differ : Bool → Bool → Bool
differ true b = not b
differ false b = b

unfoldable pub div : Decimal → Decimal → ℕ → Decimal
div d o wanted =
    let scale = if ltb max_scale wanted then max_scale else wanted in
    let negative = differ (ltb_ℤ d.unscaled (pos 0)) (ltb_ℤ o.unscaled (pos 0)) in
    if eqb_ℤ o.unscaled (pos 0)
    then zero_decimal
    else if leb d.scale (scale + o.scale)
    then from_big
        (div_round (d.unscaled *ℤ pow10_big (scale + o.scale - d.scale)) o.unscaled negative) scale
    else from_big
        (div_round d.unscaled (o.unscaled *ℤ pow10_big (d.scale - (scale + o.scale))) negative)
        scale

-- `q++` and `q--` after a division by `factor`.
unfoldable pub round_down_scale : ℤ → ℤ → ℤ
round_down_scale u factor =
    let q = quo64 u factor in
    let r2 = mul64 (rem u factor) (pos 2) in
    if leb_ℤ factor r2
    then add64 q (pos 1)
    else if leb_ℤ r2 (neg64 factor)
    then add64 q (negsuc 0)
    else q

unfoldable pub rescale : Decimal → ℕ → Decimal
rescale d scale =
    if scale == d.scale
    then d
    else if ltb d.scale scale
    then (let factor = pow10 (scale - d.scale) in
        if overflows_mul d.unscaled factor
        then d
        else record { unscaled = mul64 d.unscaled factor; scale = scale })
    else record { unscaled = round_down_scale d.unscaled (pow10 (d.scale - scale)); scale = scale }
