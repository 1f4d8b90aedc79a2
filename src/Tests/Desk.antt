-- ===== src/Tests/Desk.antt =====
-- Examples for the equity trader and the chat bot.
use real_time_market_data_pi.Base.{
  ℕ, suc, ◌≡◌, true, false, Option, none, some, List, [], ◌∷◌, same, list_eq, nat_eq,
}
use real_time_market_data_pi.Base.Bytes.{Str, str}
use real_time_market_data_pi.Base.Int.{ℤ, pos}
use real_time_market_data_pi.Broker.{Execution}
use real_time_market_data_pi.Decimal.{zero_decimal}
use real_time_market_data_pi.Equity.{EquityOrder, Trader}
use real_time_market_data_pi.EquityTrader.{
  Engine, Event, poll_time, eval_time, cancelled, is_held, loop,
}
use real_time_market_data_pi.EquityTrader.LongOnly.{IsTracked, logged, outside, loop_long_only}
use real_time_market_data_pi.Store.Order.{keep}
use real_time_market_data_pi.Strategy.{Signal, sell}
use real_time_market_data_pi.Telegram.Bot.{BotConfig, Update, Client, run, handle_all}
use real_time_market_data_pi.Telegram.Chats.{is_own, handle_all-own}
use real_time_market_data_pi.Telegram.Parser.{Matchers}
use real_time_market_data_pi.Telegram.Safety.{AllSafe, Log, apart, run-AllSafe}
use real_time_market_data_pi.Telegram.Safety
use real_time_market_data_pi.Tests.{dec}
use real_time_market_data_pi.Tests.Flow.{fixed, buy_btc}

abbrev aapl : Str
aapl = str "AAPL"

abbrev execution : EquityOrder → Execution
execution o = record {
  instrument = o.symbol;
  side = o.side;
  price = dec (pos 100) 0;
  quantity = o.qty;
  quote_spent = dec (pos 100) 0;
  commission = zero_decimal;
  commission_ccy = str "USD";
  order_id = str "1";
  client_id = o.client_id;
  time = 1;
  reason = o.reason;
  partial = false;
}

-- A broker that counts its calls, quotes a hundred dollars and holds three shares.
abbrev trader : Trader ℤ ℕ
trader = record {
  name = str "desk";
  place_equity_order = λ o w. (some (execution o), suc w);
  quote = λ s w. (some (dec (pos 100) 0), suc w);
  account_summary = λ w. (
    some (record {
      cash = dec (pos 900) 0;
      portfolio_value = dec (pos 1000) 0;
      buying_power = dec (pos 900) 0;
    }),
    suc w,
  );
  positions = λ w. (
    some (
        record {
          symbol = aapl;
          qty = dec (pos 3) 0;
          avg_entry_price = dec (pos 90) 0;
          current_price = dec (pos 100) 0;
          market_value = dec (pos 300) 0;
          unrealized_pl = dec (pos 30) 0;
          unrealized_pl_pc = pos 0;
        }
        ∷ []),
    suc w,
  );
  now = λ w. (w, w);
  random_id = λ w. (str "00", suc w);
}

abbrev engine : Engine ℤ
engine = record {
  cfg = record {
    symbols = aapl ∷ [];
    poll_interval = pos 1;
    eval_interval = pos 1;
    max_position_fraction = pos 10_000_000;
    history_bars = pos 2;
  };
  hist = [];
  held = [];
}

abbrev buy_aapl : Signal ℤ
buy_aapl = record buy_btc { instrument = aapl }

-- A strategy that sells what it does not hold, buys and sells.
abbrev strategy : Engine ℤ → ℕ × List EquityOrder → Option (List (Signal ℤ)) × ℕ
strategy e v = (
  some (record buy_aapl { action = sell } ∷ buy_aapl ∷ record buy_aapl { action = sell } ∷ []),
  v.0,
)

abbrev events : List Event
events = poll_time ∷ eval_time ∷ eval_time ∷ cancelled ∷ []

loop_long_only_example :
    IsTracked fixed trader
      (λ id. is_held id engine.held)
      (loop fixed
        (logged trader)
        (outside fixed trader (λ id. is_held id engine.held) strategy)
        events
        engine
        (0, []))
loop_long_only_example = loop_long_only fixed trader strategy events engine 0

-- Matchers for one message that buys and one that sells two shares.
abbrev matchers : Matchers ℤ
matchers = record {
  price_re = λ s. none;
  close_re = λ s. none;
  buy_re = λ s. same s (str "buy 2 AAPL");
  sell_re = λ s. same s (str "sell 2 AAPL");
  tp_re = λ s. none;
  sl_re = λ s. none;
  notional_re = λ s. none;
  share_qty_re = λ s. none;
  bare_qty_re = λ s. some (str "2");
  symbol_re = λ s. some aapl;
  parse_num = λ s. some (pos 200_000_000);
}

abbrev update : ℕ → ℤ → Str → Update
update n chat text = record {
  update_id = pos n;
  message = some (record { text = text; chat_id = chat });
}

abbrev updates : List Update
updates =
    update 1 (pos 7) (str "buy 2 AAPL")
    ∷ update 2 (pos 8) (str "buy 2 AAPL")
    ∷ update 3 (pos 7) (str "sell 2 AAPL")
    ∷ []

abbrev chat : Client ℤ ℕ
chat = record { get_updates = λ n w. (some updates, suc w); send_message = λ n r w. (true, suc w) }

abbrev bot : BotConfig ℤ
bot = record {
  allowed_chat_id = pos 7;
  max_order_notional = pos 30_000_000_000;
  poll_timeout = pos 1;
}

abbrev start : Log ℤ ℕ
start = record { world = 0; seen = []; quote = zero_decimal; placed = [] }

run-AllSafe_example :
    AllSafe fixed trader bot.max_order_notional
      (run fixed (Safety.logged trader) matchers (apart chat) 2 bot (pos 0) start).1
run-AllSafe_example = run-AllSafe fixed trader matchers chat bot 2 (pos 0) start tt

handle_all-own_example :
    (handle_all fixed trader matchers chat bot updates (pos 0) 0).1
    ≡ (handle_all fixed trader matchers chat bot (keep (is_own bot) updates) (pos 0) 0).1
handle_all-own_example = handle_all-own fixed trader matchers chat bot updates (pos 0) (pos 0) 0
