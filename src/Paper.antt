-- ===== src/Paper.antt =====
-- internal/consumer/paper/paper.go: the simulated account.
pub mod Trade
pub mod Report
pub mod Log
pub mod Replay
pub mod Engine
use real_time_market_data_pi.Base.{
  ℕ, suc, ◌+◌, ◌-◌, ◌==◌, Bool, true, false, not, ◌||◌, Option, none, some, List, [], ◌∷◌, ◌++◌,
  map, ltb, if◌then◌else◌, length, drop, list_eq, nat_eq, Ordering,
}
use real_time_market_data_pi.Base.Bytes.{Str}
use real_time_market_data_pi.Base.Int.{ℤ, pos, leb_ℤ, ltb_ℤ, abs_ℕ}
use real_time_market_data_pi.Base.Assoc.{Assoc, lookup, insert, erase}
use real_time_market_data_pi.Decimal.{Decimal, zero_decimal, is_zero, is_negative}
use real_time_market_data_pi.Decimal.Arith.{cmp, add, sub, mul, rescale}
use real_time_market_data_pi.Float.{Float64, float, from_float, clamp01}
use real_time_market_data_pi.Strategy.{Action, hold, buy, sell, Signal}
use real_time_market_data_pi.Tick.{Time}

pub record Config (F : Type 0) : Type 0 where
  pub starting_cash : Decimal
  pub fee_rate : F
  pub slippage_rate : F
  pub max_position_fraction : F
  pub price_precision : ℕ
  pub quantity_precision : ℕ

pub record Fill : Type 0 where
  pub time : Time
  pub instrument : Str
  pub side : Action
  pub price : Decimal
  pub quantity : Decimal
  pub notional : Decimal
  pub fee : Decimal
  pub realized_pl : Decimal
  pub reason : Str

pub record Position : Type 0 where
  pub instrument : Str
  pub quantity : Decimal
  pub avg_entry : Decimal
  pub opened_at : Time

-- What is saved and restored: `persisted`.
pub record Book (F : Type 0) : Type 0 where
  pub cash : Decimal
  pub positions : Assoc Str Position
  pub fills : List Fill
  pub realized : Decimal
  pub fees : Decimal
  pub wins : ℕ
  pub losses : ℕ
  pub peak_equity : Decimal
  pub max_dd : F

pub record Account (F : Type 0) : Type 0 where
  pub cfg : Config F
  pub last_prices : Assoc Str Decimal
  pub book : Book F

pub record Snapshot (F : Type 0) : Type 0 where
  pub time : Time
  pub starting_cash : Decimal
  pub cash : Decimal
  pub position_value : Decimal
  pub equity : Decimal
  pub realized_pl : Decimal
  pub unrealized_pl : Decimal
  pub total_pl : Decimal
  pub return_pct : F
  pub fees_paid : Decimal
  pub trades : ℕ
  pub wins : ℕ
  pub losses : ℕ
  pub win_rate_pct : F
  pub max_drawdown_pct : F
  pub positions : List Position

-- The value of one position: at its mark, or at cost where there is none yet.
unfoldable pub value_of : Assoc Str Decimal → Str × Position → Decimal
value_of prices (id, p) =
    let px : Decimal = elim (lookup id prices) [ none ↦ p.avg_entry | some px ↦ px ] in
    rescale (mul px p.quantity) 2

unfoldable pub sum_values : Assoc Str Decimal → Assoc Str Position → Decimal → Decimal
sum_values prices [] total = total
sum_values prices (p ∷ ps) total = sum_values prices ps (add total (value_of prices p))

-- `Cmp(...) > 0`
abbrev pub exceeds : Decimal → Decimal → Bool
exceeds d o = elim (cmp d o) [ Ordering.gt ↦ true | _ ↦ false ]

module _ {F : Type 0} where
  -- `positionValueLocked`; the positions in one of the orders that the source's map may have.
  unfoldable pub position_value : Account F → Decimal
  position_value a = rescale (sum_values a.last_prices a.book.positions zero_decimal) 2

  -- `equityLocked`
  unfoldable pub equity : Account F → Decimal
  unfolding position_value
  equity a = add a.book.cash (position_value a)

  -- `record`
  unfoldable pub record_fill : Fill → Account F → Account F
  record_fill f a = record a { book = record a.book { fills = a.book.fills ++ (f ∷ []) } }

  -- `Fills`
  unfoldable pub fills_of : ℤ → Account F → List Fill
  fills_of limit a =
      let n = length a.book.fills in
      let count = if leb_ℤ limit (pos 0) || ltb_ℤ (pos n) limit then n else abs_ℕ limit in
      drop (n - count) a.book.fills

  -- `MarshalState`, up to the JSON encoder.
  unfoldable pub save : Account F → Book F
  save a = a.book

  -- `UnmarshalState`, once the JSON decoder has answered.
  unfoldable pub restore : Option (Book F) → Account F → Bool × Account F
  restore none a = (false, a)
  restore (some b) a = (true, record a { book = b })

-- What `Apply` answers.
pub data Outcome : Type 0 where
  refused no_trade : Outcome
  filled : Fill → Outcome
