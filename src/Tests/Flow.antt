-- ===== src/Tests/Flow.antt =====
-- Examples for the candles, the registry, the sequencer, the persister and the account.
use real_time_market_data_pi.Base.{
  ◌≡◌, ◌<◌, ◌+◌, ◌-◌, ◌*◌, ◌^◌, ℕ, refl, false, some, Option, List, [], ◌∷◌, ◌++◌, length, All,
  arith,
}
use real_time_market_data_pi.Base.Bytes.{str}
use real_time_market_data_pi.Base.Int.{ℤ, pos, ◌+ℤ◌, ◌-ℤ◌, ◌*ℤ◌, quo, ltb_ℤ, leb_ℤ}
use real_time_market_data_pi.Base.Int64.{two64}
use real_time_market_data_pi.Decimal.Order.{value}
use real_time_market_data_pi.Float.{Float64}
use real_time_market_data_pi.Strategy.{Signal, buy, sell}
use real_time_market_data_pi.Tick.{Tick, venue_binance}
use real_time_market_data_pi.Candles.{Candle, start, run_ticks, new_builder}
use real_time_market_data_pi.Candles.Fold.{
  IsBar, start-IsBar, fold_all, highest, lowest, last_price, ValidTick, fold_all_lem,
}
use real_time_market_data_pi.Candles.Ledger.{IsHistory}
use real_time_market_data_pi.Candles.History.{build-IsHistory}
use real_time_market_data_pi.Normalize.{last_seq}
use real_time_market_data_pi.Persist.{
  Config, Event, received_tick, interval, cancelled, run, new_persister,
}
use real_time_market_data_pi.Persist.Lossless.{
  run_lossless, ticks_of, store_all, concat, stops, IsBatch, Left,
}
use real_time_market_data_pi.Persist.Balance.{run-IsBalanced, IsBalanced}
use real_time_market_data_pi.Paper.Trade.{new_account, default_config}
use real_time_market_data_pi.Paper.Log.{IsReplay}
use real_time_market_data_pi.Paper.Replay.{Step, signal, prices, restart, steps, steps-IsReplay}
use real_time_market_data_pi.Tests.{btc, eth, trade, dec, three_trades}

abbrev first_trade : Tick
first_trade = trade btc 61 (pos 10100)

abbrev bar : Candle
bar = record {
  instrument = btc;
  venue = venue_binance;
  open_time = 60;
  close_time = 61;
  opening = dec (pos 10100) 2;
  high = dec (pos 10100) 2;
  low = dec (pos 10100) 2;
  closing = dec (pos 10100) 2;
  volume = dec (pos 5) 1;
  trades = 1;
  complete = false;
}

bar-IsBar : IsBar bar
unfolding start
bar-IsBar =
    start-IsBar first_trade 60 (record { in_range = ground arith; fine = ground arith })
      (record { in_range = ground arith; fine = ground arith })

three_trades-valid : All ValidTick three_trades
three_trades-valid = (
  (
    record { in_range = ground arith; fine = ground arith },
    record { in_range = ground arith; fine = ground arith },
  ),
  (
    (
      record { in_range = ground arith; fine = ground arith },
      record { in_range = ground arith; fine = ground arith },
    ),
    (
      (
        record { in_range = ground arith; fine = ground arith },
        record { in_range = ground arith; fine = ground arith },
      ),
      tt,
    ),
  ),
)

fold_all_lem_example :
    IsBar (fold_all bar three_trades)
    × (value (fold_all bar three_trades).high ≡ highest (value bar.high) three_trades)
    × (value (fold_all bar three_trades).low ≡ lowest (value bar.low) three_trades)
    × ((fold_all bar three_trades).closing ≡ last_price bar.closing three_trades)
    × ((fold_all bar three_trades).opening ≡ bar.opening)
    × ((fold_all bar three_trades).trades ≡ 1 + 3)
fold_all_lem_example = fold_all_lem bar three_trades bar-IsBar three_trades-valid

build-IsHistory_example : IsHistory (run_ticks three_trades (new_builder (pos 60) (pos 2)))
build-IsHistory_example = build-IsHistory (pos 60) (pos 2) three_trades

small_enough : last_seq (venue_binance, btc) [] + 3 < two64
unfolding last_seq
small_enough = omega arith

-- A store that keeps every tick and reports each as stored.
abbrev append : List Tick → List Tick → Option ℕ × List Tick
append b s = (some (length b), s ++ b)

abbrev cfg : Config
cfg = record { batch_size = pos 2; flush_interval = pos 0 }

abbrev events : List Event
events =
    received_tick (trade btc 1 (pos 5))
    ∷ interval
    ∷ received_tick (trade eth 2 (pos 6))
    ∷ received_tick (trade btc 3 (pos 7))
    ∷ cancelled
    ∷ []

run_lossless_example :
    let p = run append events (new_persister cfg []) in
    (bs : List (List Tick)) × (p.store ≡ store_all append bs [])
    × (concat bs ++ p.batch ≡ ticks_of events)
    × All (IsBatch (new_persister {S = List Tick} cfg []).batch_size) bs
    × Left append (stops events) p
run_lossless_example = run_lossless append cfg [] events

run-IsBalanced_example : IsBalanced append (run append events (new_persister cfg []))
run-IsBalanced_example = run-IsBalanced append (λ b s. (length b, refl, omega arith)) cfg [] events

-- Fixed-point numbers with eight places in the place of `float64`.
abbrev unit : ℤ
unit = pos 100_000_000

abbrev pub fixed : Float64
fixed = record {
  F = ℤ;
  lit = λ m n. pos (m * 10 ^ (8 - n));
  of_int = λ z. z *ℤ unit;
  pow10 = λ n. pos (10 ^ n) *ℤ unit;
  plus = λ a b. a +ℤ b;
  minus = λ a b. a -ℤ b;
  times = λ a b. quo (a *ℤ b) unit;
  over = λ a b. quo (a *ℤ unit) b;
  lt = λ a b. ltb_ℤ a b;
  le = λ a b. leb_ℤ a b;
  is_nan = λ a. false;
  is_inf = λ a. false;
  round = λ a. quo a unit;
  trunc = λ a. quo a unit;
  pow2 = λ n. pos (2 ^ n) *ℤ unit;
}

abbrev pub buy_btc : Signal ℤ
buy_btc = record { instrument = btc; action = buy; strength = unit; reason = str "up"; time = 1 }

abbrev script : List (Step ℤ)
script =
    signal buy_btc (dec (pos 100) 0) 1
    ∷ prices ((btc, dec (pos 110) 0) ∷ [])
    ∷ restart (record (default_config fixed) { starting_cash = dec (pos 7) 0 })
    ∷ signal (record buy_btc { action = sell }) (dec (pos 110) 0) 2
    ∷ []

steps-IsReplay_example :
    let a = new_account fixed (default_config fixed) in
    IsReplay a.cfg.starting_cash (steps fixed script a).book
steps-IsReplay_example = steps-IsReplay fixed (default_config fixed) script
