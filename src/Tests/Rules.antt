-- ===== src/Tests/Rules.antt =====
-- Examples for the strategies and the remote broker.
use real_time_market_data_pi.Base.{
  ℕ, suc, ◌+◌, ◌<◌, length, All, ◌≡◌, false, Option, none, some, List, [], ◌∷◌, if◌then◌else◌, same,
  list_eq, nat_eq,
}
use real_time_market_data_pi.Base.Bytes.{Str, str}
use real_time_market_data_pi.Base.Int.{ℤ, pos}
use real_time_market_data_pi.Alpaca.{Config, paper_base_url, paper_host, SdkDecimals}
use real_time_market_data_pi.Alpaca.Interlock.{IsChecked, equity_request-IsChecked}
use real_time_market_data_pi.Alpaca.Orders.{equity_request}
use real_time_market_data_pi.Broker.{buy_order}
use real_time_market_data_pi.Candles.{Candle}
use real_time_market_data_pi.Decimal.{zero_decimal}
use real_time_market_data_pi.Equity.{EquityOrder}
use real_time_market_data_pi.EquityTrader.{bar_of}
use real_time_market_data_pi.Strategy.LanguageModel.{Entry}
use real_time_market_data_pi.Strategy.LanguageModel.Prompt.{
  Llm, Services, texts, evaluate, Trades, evaluate-Trades,
}
use real_time_market_data_pi.Strategy.Momentum.{Market}
use real_time_market_data_pi.Strategy.Adaptive.{Arm, Random, new_adaptive}
use real_time_market_data_pi.Strategy.Adaptive.Alternation.{
  evaluate_all, IsAlternating, is_open, open_after, evaluate_all_lem,
}
use real_time_market_data_pi.Tick.{Time}
use real_time_market_data_pi.Tests.{btc, dec}
use real_time_market_data_pi.Tests.Flow.{fixed}

abbrev bar : ℕ → Candle
bar n = bar_of btc (dec (pos n) 0) n

-- Prices that rise, and then fall.
abbrev rising : Market
rising = record {
  instruments = btc ∷ [];
  candles = λ id n. bar 10 ∷ bar 10 ∷ bar 9 ∷ bar 14 ∷ bar 14 ∷ [];
}

abbrev falling : Market
falling = record {
  instruments = btc ∷ [];
  candles = λ id n. bar 14 ∷ bar 14 ∷ bar 15 ∷ bar 8 ∷ bar 8 ∷ [];
}

abbrev times : List (Market × Time)
times = (rising, 1) ∷ (rising, 2) ∷ (falling, 3) ∷ []

abbrev arms : List Arm
arms = record { fast = pos 1; slow = pos 2 } ∷ []

abbrev rng : Random ℤ ℕ
rng = record { float64 = λ w. (pos 50_000_000, suc w); intn = λ n w. (0, suc w) }

evaluate_all_lem_example :
    let (ss, a, _) =
      evaluate_all fixed rng
        (λ format numbers. format)
        times
        (new_adaptive fixed arms (pos 0) (pos 0))
        0 in
    IsAlternating btc ss false × (is_open btc a ≡ open_after btc ss false)
evaluate_all_lem_example =
    evaluate_all_lem fixed rng (λ format numbers. format) arms (pos 0) (pos 0) times 0 btc

abbrev config : Config
config = record { api_key = str "k"; api_secret = str "s"; base_url = []; allow_live = false }

-- One address that is understood.
abbrev hostname : Str → Option Str
hostname url = if same url paper_base_url then some paper_host else none

abbrev decimals : SdkDecimals ℤ
decimals = record {
  new = λ z n. z;
  text = λ z. [];
  zero_test = λ z. false;
  less_than = λ a b. false;
}

-- An amount with an exit.
abbrev bracket : EquityOrder
bracket = record {
  symbol = str "AAPL";
  side = buy_order;
  qty = zero_decimal;
  notional = dec (pos 500) 0;
  take_profit = dec (pos 160) 0;
  stop_loss = zero_decimal;
  client_id = str "1";
  reason = [];
}

equity_request-IsChecked_example : IsChecked decimals bracket (equity_request decimals bracket)
equity_request-IsChecked_example = equity_request-IsChecked decimals bracket

abbrev entry : Str → Str → Entry ℤ
entry id action = record { instrument = id; action = action; strength = pos 0; reason = [] }

-- An order that is followed, one of another instrument and one that is no action.
abbrev entries : List (Entry ℤ)
entries =
    entry (str " btc-usdt ") (str "BUY")
    ∷ entry (str "DOGE") (str "buy")
    ∷ entry btc (str "maybe")
    ∷ []

-- A model that answers with these entries.
abbrev services : Services ℤ ℕ
services = record {
  now = λ w. (w, w + 1);
  rfc3339 = λ t. str "t";
  clock_time = λ t. str "t";
  count = λ n. str "n";
  send = λ model prompt w. (texts (str "So: {} ." ∷ []), w);
  baseline = λ mk w. (none, w);
}

abbrev asked : Llm ℕ
asked = record { model_id = str "m"; bars = pos 40; baseline = none }

abbrev quiet_market : Market
quiet_market = record { instruments = btc ∷ []; candles = λ id n. [] }

evaluate-Trades_example :
    Trades fixed services
      (λ s. some entries)
      (btc ∷ [])
      (evaluate fixed services (λ s. some entries) asked quiet_market (λ id. none) 7).0
    × (All (λ id. length (quiet_market.candles id (pos 40)) < 5) (btc ∷ [])
        → evaluate fixed services (λ s. some entries) asked quiet_market (λ id. none) 7
          ≡ (some [], 8))
evaluate-Trades_example =
    evaluate-Trades fixed services (λ s. some entries) asked quiet_market (λ id. none) 7
