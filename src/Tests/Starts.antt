-- ===== src/Tests/Starts.antt =====
-- Examples for the engines that send real orders.
use real_time_market_data_pi.Base.{
  Bool, true, false, Option, none, some, List, if◌then◌else◌, same, list_eq, nat_eq,
}
use real_time_market_data_pi.Base.Bytes.{Str, str}
use real_time_market_data_pi.Base.Int.{ℤ, pos}
use real_time_market_data_pi.Alpaca.{paper_base_url, paper_host}
use real_time_market_data_pi.Command.Wiring.{Settings}

-- Every variable of the environment has a value.
abbrev getenv : Str → Str
getenv key = str "x"

abbrev hostname : Str → Option Str
hostname url = if same url paper_base_url then some paper_host else none

abbrev sqrt : ℤ → ℤ
sqrt x = x

abbrev sprintf : Str → List ℤ → Str
sprintf format xs = format

abbrev ping : Str → Bool
ping base = true

abbrev settings : Settings ℤ
settings = record {
  llm_model = str "";
  alpaca_strategy = str "momentum";
  alpaca_base_url = paper_base_url;
  alpaca_allow_live = false;
  alpaca_max_position = pos 1;
  alpaca_eval_every = pos 5;
  telegram_chat_id = pos 7;
  telegram_max_notional = pos 1000;
  equity_symbols = str "AAPL, msft";
  equity_strategy = str "adaptive";
  equity_poll_every = pos 1;
  equity_eval_every = pos 5;
  equity_max_position = pos 1;
}
