-- ===== src/Float.antt =====
-- The conversions of internal/model/decimal_math.go, over an interface for Go's `float64`.
use real_time_market_data_pi.Base.{ℕ, Bool, ◌||◌, ltb, if◌then◌else◌}
use real_time_market_data_pi.Base.Int.{ℤ, neg}
use real_time_market_data_pi.Base.Int64.{max_int64, min_int64}
use real_time_market_data_pi.Decimal.{Decimal, max_scale, zero_decimal}

-- The operations of `float64` and of the package `math` that the program uses. `lit m n` is the
-- literal m / 10^n, `pow10` is `math.Pow10` `round` is
-- `int64(math.Round(f))`, `trunc` is `int64(f)` and `pow2 n` is `math.Pow(2, n)`.
pub record Float64 : Type 1 where
  pub F : Type 0
  pub lit : ℕ → ℕ → F
  pub of_int : ℤ → F
  pub pow10 : ℕ → F
  pub plus : F → F → F
  pub minus : F → F → F
  pub times : F → F → F
  pub over : F → F → F
  pub lt : F → F → Bool
  pub le : F → F → Bool
  pub is_nan : F → Bool
  pub is_inf : F → Bool
  pub round : F → ℤ
  pub trunc : F → ℤ
  pub pow2 : ℕ → F

module _ (fl : Float64) where
  -- `Float`
  unfoldable pub float : Decimal → fl.F
  float d = fl.over (fl.of_int d.unscaled) (fl.pow10 d.scale)

  unfoldable pub saturate : fl.F → Decimal
  saturate f =
      if fl.is_nan f
      then zero_decimal
      else if fl.lt (fl.lit 0 0) f
      then record { unscaled = max_int64; scale = 0 }
      else record { unscaled = neg max_int64; scale = 0 }

  -- `FromFloat`
  unfoldable pub from_float : fl.F → ℕ → Decimal
  unfolding saturate
  from_float f wanted =
      let scale = if ltb max_scale wanted then max_scale else wanted in
      let scaled = fl.times f (fl.pow10 scale) in
      if fl.is_nan scaled
        || fl.is_inf scaled
        || fl.lt (fl.of_int max_int64) scaled
        || fl.lt scaled (fl.of_int min_int64)
      then saturate scaled
      else record { unscaled = fl.round scaled; scale = scale }

  -- `clamp01` of the trading packages.
  unfoldable pub clamp01 : fl.F → fl.F
  clamp01 f =
      if fl.le f (fl.lit 0 0) then fl.lit 0 0 else if fl.lt (fl.lit 1 0) f then fl.lit 1 0 else f
