-- ===== src/Equity.antt =====
-- internal/broker/alpaca/equity.go: orders of stocks, and what the clients of the broker use.
use real_time_market_data_pi.Base.{Option, List}
use real_time_market_data_pi.Base.Bytes.{Str}
use real_time_market_data_pi.Broker.{OrderSide, Execution}
use real_time_market_data_pi.Decimal.{Decimal}
use real_time_market_data_pi.Tick.{Time}

pub record EquityOrder : Type 0 where
  pub symbol : Str
  pub side : OrderSide
  pub qty : Decimal
  pub notional : Decimal
  pub take_profit : Decimal
  pub stop_loss : Decimal
  pub client_id : Str
  pub reason : Str

pub record PositionInfo (F : Type 0) : Type 0 where
  pub symbol : Str
  pub qty : Decimal
  pub avg_entry_price : Decimal
  pub current_price : Decimal
  pub market_value : Decimal
  pub unrealized_pl : Decimal
  pub unrealized_pl_pc : F

pub record AccountSummary : Type 0 where
  pub cash : Decimal
  pub portfolio_value : Decimal
  pub buying_power : Decimal

-- `Trader`, over a state `W` of everything outside the program; `none` is an error. Also the clock
-- and the hexadecimal text of twelve random bytes.
pub record Trader (F W : Type 0) : Type 0 where
  pub name : Str
  pub place_equity_order : EquityOrder → W → Option Execution × W
  pub quote : Str → W → Option Decimal × W
  pub account_summary : W → Option AccountSummary × W
  pub positions : W → Option (List (PositionInfo F)) × W
  pub now : W → Time × W
  pub random_id : W → Str × W
