-- ===== src/Tests/Trading.antt =====
-- Examples for the live engine and the supervisor.
use real_time_market_data_pi.Base.{
  ℕ, suc, ◌≡◌, true, false, some, Option, List, [], ◌∷◌, if◌then◌else◌, ltb, arith,
}
use real_time_market_data_pi.Base.Bytes.{str}
use real_time_market_data_pi.Base.Int.{ℤ, pos}
use real_time_market_data_pi.Broker.{Broker, Order, Execution}
use real_time_market_data_pi.Decimal.{zero_decimal}
use real_time_market_data_pi.Strategy.{Signal, sell}
use real_time_market_data_pi.Live.{Engine, Event, evaluation, cancelled, new_tick, is_held}
use real_time_market_data_pi.Live.Trade.{loop}
use real_time_market_data_pi.Live.Positions.{logged, outside, IsTracked, loop_orderly}
use real_time_market_data_pi.Supervise.{Policy, Call, failed_waited, supervise, running, gave_up}
use real_time_market_data_pi.Supervise.Attempts.{supervise_lem}
use real_time_market_data_pi.Tick.{venue_binance}
use real_time_market_data_pi.Tests.{btc, trade, dec}
use real_time_market_data_pi.Tests.Flow.{fixed, buy_btc}

abbrev execution : Order → Execution
execution o = record {
  instrument = o.instrument;
  side = o.side;
  price = dec (pos 100) 0;
  quantity = dec (pos 1) 0;
  quote_spent = dec (pos 100) 0;
  commission = zero_decimal;
  commission_ccy = str "USD";
  order_id = str "1";
  client_id = o.client_id;
  time = 1;
  reason = o.reason;
  partial = false;
}

-- A broker that counts its calls, with a thousand dollars and one coin, and fills every order.
abbrev broker : Broker ℕ
broker = record {
  ping = λ w. (true, w);
  balances = λ w. (
    some (
        record { asset = str "USD"; free = dec (pos 1000) 0; locked = zero_decimal }
        ∷ record { asset = str "BTC"; free = dec (pos 1) 0; locked = zero_decimal }
        ∷ []),
    suc w,
  );
  submit = λ o w. (some (execution o), suc w);
  random_id = λ w. (str "00", suc w);
}

abbrev engine : Engine ℤ
engine = record {
  cfg = record { name = []; eval_interval = pos 1; max_position_fraction = pos 10_000_000 };
  venue = venue_binance;
  last = [];
  insts = btc ∷ [];
  held = [];
  fill_log = [];
  failures = 0;
}

-- A strategy that buys twice and sells.
abbrev strategy : Engine ℤ → ℕ × List Order → Option (List (Signal ℤ)) × ℕ
strategy e v = (some (buy_btc ∷ buy_btc ∷ record buy_btc { action = sell } ∷ []), v.0)

abbrev events : List Event
events = new_tick (trade btc 1 (pos 100)) ∷ evaluation ∷ evaluation ∷ cancelled ∷ []

loop_orderly_example :
    IsTracked fixed broker
      (λ id. is_held id engine.held)
      (loop fixed
        (logged broker)
        (outside fixed broker (λ id. is_held id engine.held) strategy)
        events
        engine
        (0, []))
loop_orderly_example = loop_orderly fixed broker strategy events engine 0

abbrev policy : Policy ℤ
policy = record {
  initial_delay = pos 1_000;
  max_delay = pos 4_000;
  jitter = pos 0;
  reset_after = pos 50;
  max_attempts = pos 2;
}

abbrev failures : List (Call ℤ)
failures = failed_waited (pos 7) (pos 0) ∷ failed_waited (pos 9) (pos 0) ∷ []

supervise_lem_example :
    (policy.max_attempts ≡ pos 0 → (supervise fixed policy failures).0 ≡ running 2)
    × ((k : ℕ)
        → policy.max_attempts ≡ pos (suc k)
        → (supervise fixed policy failures).0
          ≡ (if ltb 2 (suc k) then running 2 else gave_up (suc k)))
supervise_lem_example =
    supervise_lem fixed policy failures (omega arith) (omega arith, (omega arith, tt))
