-- ===== src/Broker.antt =====
-- internal/broker/broker.go: orders and what a broker answers.
use real_time_market_data_pi.Base.{Bool, Option, List}
use real_time_market_data_pi.Base.Bytes.{Str}
use real_time_market_data_pi.Decimal.{Decimal}
use real_time_market_data_pi.Tick.{Time}

pub data OrderSide : Type 0 where
  buy_order sell_order : OrderSide

pub record Order : Type 0 where
  pub instrument : Str
  pub side : OrderSide
  pub quote_amount : Decimal
  pub quantity : Decimal
  pub client_id : Str
  pub reason : Str

-- `Fill`
pub record Execution : Type 0 where
  pub instrument : Str
  pub side : OrderSide
  pub price : Decimal
  pub quantity : Decimal
  pub quote_spent : Decimal
  pub commission : Decimal
  pub commission_ccy : Str
  pub order_id : Str
  pub client_id : Str
  pub time : Time
  pub reason : Str
  pub partial : Bool

pub record Balance : Type 0 where
  pub asset : Str
  pub free : Decimal
  pub locked : Decimal

-- `Broker`, over a state `W` of everything outside the program; `none` is an error. `random_id` is
-- the hexadecimal text of twelve random bytes.
pub record Broker (W : Type 0) : Type 0 where
  pub ping : W → Bool × W
  pub balances : W → Option (List Balance) × W
  pub submit : Order → W → Option Execution × W
  pub random_id : W → Str × W
