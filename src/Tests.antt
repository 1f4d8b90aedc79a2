-- ===== src/Tests.antt =====
-- Inputs for the examples, and the examples of each part.
mod Bus
mod Arith
mod Flow
mod Trading
mod Archive
mod Session
mod Desk
mod Rules
mod Web
mod Program
mod Starts
use real_time_market_data_pi.Base.{ℕ, true, false, none, some, List, [], ◌∷◌}
use real_time_market_data_pi.Base.Bytes.{Str, str}
use real_time_market_data_pi.Base.Int.{ℤ, pos, negsuc}
use real_time_market_data_pi.Base.Text.{Unicode}
use real_time_market_data_pi.Decimal.{Decimal}
use real_time_market_data_pi.Tick.{Tick, buy_side, venue_binance}

abbrev pub dec : ℤ → ℕ → Decimal
dec u s = record { unscaled = u; scale = s }

abbrev pub btc : Str
btc = str "BTC-USDT"

abbrev pub eth : Str
eth = str "ETH-USDT"

abbrev pub trade : Str → ℕ → ℤ → Tick
trade id time price = record {
  venue = venue_binance;
  instrument = id;
  seq = 0;
  event_time = time;
  recv_time = time;
  price = dec price 2;
  quantity = dec (pos 5) 1;
  side = buy_side;
  venue_trade_id = str "t";
}

abbrev pub three_trades : List Tick
three_trades = trade btc 61 (pos 10100) ∷ trade eth 65 (pos 2000) ∷ trade btc 130 (pos 10050) ∷ []

-- Case on texts that are not ASCII, of which the examples have none.
abbrev pub unicode : Unicode
unicode = record { upper = λ s. s; lower = λ s. s }
