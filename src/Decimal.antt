-- ===== src/Decimal.antt =====
-- `Decimal` of internal/model/decimal.go: an exact base-10 number, an `int64` and a scale.
pub mod Text
pub mod Arith
pub mod Overflow
pub mod Digits
pub mod RoundTrip
pub mod Order
pub mod Sum
pub mod Rounding
pub mod Shorten
pub mod Json
use real_time_market_data_pi.Base.{ℕ, ◌≤◌, ◌<◌, ◌≡◌, Bool, ◌&&◌, arith}
use real_time_market_data_pi.Base.Int.{ℤ, pos, eqb_ℤ, ltb_ℤ, neg_part, pos_part}
use real_time_market_data_pi.Base.Int64.{IsInt64, two63}

pub record Decimal : Type 0 where
  pub unscaled : ℤ
  pub scale : ℕ

abbrev pub max_scale : ℕ
max_scale = 18

-- `Decimal{}`
abbrev pub zero_decimal : Decimal
zero_decimal = record { unscaled = pos 0; scale = 0 }

unfoldable pub is_zero : Decimal → Bool
is_zero d = eqb_ℤ d.unscaled (pos 0)

unfoldable pub is_negative : Decimal → Bool
is_negative d = ltb_ℤ d.unscaled (pos 0)

-- The fields are in the range of their types, and the scale is one that `parse` accepts.
pub record IsValid (d : Decimal) : Type 0 where
  pub in_range : IsInt64 d.unscaled
  pub fine : d.scale ≤ max_scale
