-- ===== src/Tick.antt =====
-- internal/model/tick.go: sides and ticks. A time is its nanoseconds since the zero `time.Time`,
-- in UTC.
use real_time_market_data_pi.Base.{ℕ}
use real_time_market_data_pi.Base.Bytes.{Str, str}
use real_time_market_data_pi.Decimal.{Decimal}

pub data Side : Type 0 where
  unknown_side buy_side sell_side : Side

-- `Side.String`
unfoldable pub side_string : Side → Str
side_string Side.buy_side = str "buy"
side_string Side.sell_side = str "sell"
side_string Side.unknown_side = str "unknown"

abbrev pub Time : Type 0
Time = ℕ

pub record Tick : Type 0 where
  pub venue : Str
  pub instrument : Str
  pub seq : ℕ
  pub event_time : Time
  pub recv_time : Time
  pub price : Decimal
  pub quantity : Decimal
  pub side : Side
  pub venue_trade_id : Str

abbrev pub venue_binance : Str
venue_binance = str "binance"
