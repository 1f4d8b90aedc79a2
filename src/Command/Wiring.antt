-- ===== src/Command/Wiring.antt =====
-- cmd/mdp/main.go: which strategy a name stands for, and what the engines with real orders need before
-- they start.
pub mod Guarded
use real_time_market_data_pi.Base.{
  ℕ, Bool, true, false, ◌||◌, Option, none, some, List, [], ◌∷◌, ◌++◌, map, if◌then◌else◌, same,
  list_eq, nat_eq,
}
use real_time_market_data_pi.Base.Bytes.{Str, str}
use real_time_market_data_pi.Base.Int.{ℤ, pos, eqb_ℤ}
use real_time_market_data_pi.Base.Text.{to_upper, trim_space, split}
use real_time_market_data_pi.Alpaca.{new_client, Opened, Refusal}
use real_time_market_data_pi.Alpaca
use real_time_market_data_pi.Bus.{Policy, SubscriberSpec, BusError}
use real_time_market_data_pi.Bus.Fanout.{Bus, Subscribed, subscribe}
use real_time_market_data_pi.EquityTrader
use real_time_market_data_pi.Float.{Float64}
use real_time_market_data_pi.Live
use real_time_market_data_pi.Base.Text.{Unicode}
use real_time_market_data_pi.Registry.{RegistryError, register, new_registry, symbols}
use real_time_market_data_pi.Store.{is_blank}
use real_time_market_data_pi.Strategy.Adaptive.{Adaptive, new_adaptive}
use real_time_market_data_pi.Strategy.LanguageModel.Prompt.{Llm, new_llm}
use real_time_market_data_pi.Strategy.Momentum.{Momentum, new_momentum}
use real_time_market_data_pi.Strategy.Reversion.{Reversion, new_reversion}
use real_time_market_data_pi.Telegram.Bot.{BotConfig, new_bot}

-- The part of `config` that the three engines and the strategies read.
pub record Settings (F : Type 0) : Type 0 where
  pub llm_model : Str
  pub alpaca_strategy : Str
  pub alpaca_base_url : Str
  pub alpaca_allow_live : Bool
  pub alpaca_max_position : F
  pub alpaca_eval_every : ℤ
  pub telegram_chat_id : ℤ
  pub telegram_max_notional : F
  pub equity_symbols : Str
  pub equity_strategy : Str
  pub equity_poll_every : ℤ
  pub equity_eval_every : ℤ
  pub equity_max_position : F

-- A strategy that decides by a rule, and any strategy.
pub data Rule (F : Type 0) : Type 0 where
  adaptive : Adaptive F → Rule F
  momentum : Momentum → Rule F
  mean_reversion : Reversion F → Rule F

pub data Strategy (F : Type 0) : Type 0 where
  by_rule : Rule F → Strategy F
  by_model : Llm (Rule F) → Strategy F

pub data WireError : Type 0 where
  unknown_strategy no_model_key no_credentials no_token no_chat_id unreachable : WireError
  bad_symbols : RegistryError → WireError
  refused : Refusal → WireError
  not_subscribed : BusError → WireError

-- A value, or an error.
pub data Wired (A : Type 0) : Type 0 where
  ok : A → Wired A
  failed : WireError → Wired A

infixl 5 ◌>>=◌
abbrev ◌>>=◌ : {A B : Type 0} → Wired A → (A → Wired B) → Wired B
ok a >>= f = f a
failed e >>= f = failed e

-- What stands behind a start of each engine: the endpoint of its client and its settings.
pub record LiveStart (F : Type 0) : Type 0 where
  pub endpoint : Str
  pub strategy : Strategy F
  pub config : Live.Config F
  pub subscription : ℕ

pub record BotStart (F : Type 0) : Type 0 where
  pub endpoint : Str
  pub token : Str
  pub config : BotConfig F

pub record EquityStart (F : Type 0) : Type 0 where
  pub endpoint : Str
  pub strategy : Strategy F
  pub config : EquityTrader.Config F

-- `math.Sqrt`, `fmt.Sprintf` and `os.Getenv`.
module _ (fl : Float64) (sqrt : fl.F → fl.F) (sprintf : Str → List fl.F → Str)
    (getenv : Str → Str) where
  -- The strategies of a language model want a key.
  unfoldable pub with_model : Str → Option (Rule fl.F) → Wired (Strategy fl.F)
  unfolding new_llm
  with_model model baseline =
      if is_blank (getenv (str "ANTHROPIC_API_KEY"))
      then failed no_model_key
      else ok (by_model (new_llm (record { model = model; bars = pos 0; baseline = baseline })))

  -- `buildStrategy`
  unfoldable pub build_strategy : Str → Str → Wired (Strategy fl.F)
  unfolding with_model
  build_strategy name model =
      let zero = fl.lit 0 0 in
      let crossing = new_momentum (pos 9) (pos 27) in
      if is_blank name || same name (str "adaptive")
      then ok (by_rule (adaptive (new_adaptive fl [] zero zero)))
      else if same name (str "momentum")
      then ok (by_rule (momentum crossing))
      else if same name (str "meanrev")
      then ok (
          by_rule
            (mean_reversion (new_reversion fl sqrt sprintf (pos 30) (fl.lit 20 1) (fl.lit 5 1))))
      else if same name (str "llm")
      then with_model model none
      else if same name (str "llm+momentum")
      then with_model model (some (momentum crossing))
      else if same name (str "llm+adaptive")
      then with_model model (some (adaptive (new_adaptive fl [] zero zero)))
      else failed unknown_strategy

  -- `url.Parse` and `Hostname`, and whether the broker answers at an endpoint.
  module _ (unicode : Unicode) (hostname : Str → Option Str) (ping : Str → Bool) where
    -- The registry that each client gets.
    unfoldable pub registered : Wired Bool
    registered = elim (register unicode symbols new_registry).0 [
      | none ↦ ok true
      | some e ↦ failed (bad_symbols e)
    ]

    -- A client that the broker answers: `alpaca.New` and `Ping`.
    unfoldable pub open_client : Settings fl.F → Wired Str
    unfolding registered
    open_client c = registered >>= λ _.
        elim (new_client hostname (record {
          api_key = getenv (str "ALPACA_API_KEY");
          api_secret = getenv (str "ALPACA_API_SECRET");
          base_url = c.alpaca_base_url;
          allow_live = c.alpaca_allow_live;
        })) [
          | Opened.refused e ↦ failed (refused e)
          | Opened.no_credentials ↦ failed no_credentials
          | Opened.opened base ↦ if ping base then ok base else failed unreachable
        ]

    -- The keys of the broker.
    unfoldable pub lacks_keys : Bool
    lacks_keys =
        is_blank (getenv (str "ALPACA_API_KEY")) || is_blank (getenv (str "ALPACA_API_SECRET"))

    -- `wireAlpaca`, and the bus.
    unfoldable pub wire_alpaca : Settings fl.F → Bus → Wired (LiveStart fl.F) × Bus
    unfolding lacks_keys open_client build_strategy
    wire_alpaca c b =
        let name = str "alpaca-" ++ c.alpaca_strategy in
        let (answer, b') =
          subscribe
            (record {
              name = name;
              capacity = pos 1024;
              policy = Policy.coalesce;
              instruments = [];
            })
            b in
        if lacks_keys
        then (failed no_credentials, b)
        else elim (build_strategy c.alpaca_strategy c.llm_model) [
          | failed e ↦ (failed e, b)
          | ok strat ↦ elim (open_client c) [
            | failed e ↦ (failed e, b)
            | ok base ↦ elim answer [
              | Subscribed.refused e ↦ (failed (not_subscribed e), b')
              | Subscribed.subscribed i ↦ (
                ok (record {
                  endpoint = base;
                  strategy = strat;
                  config = record {
                    name = name;
                    eval_interval = c.alpaca_eval_every;
                    max_position_fraction = c.alpaca_max_position;
                  };
                  subscription = i;
                }),
                b',
              )
            ]
          ]
        ]

    -- `wireTelegram`
    unfoldable pub wire_telegram : Settings fl.F → Wired (BotStart fl.F)
    unfolding lacks_keys open_client
    wire_telegram c =
        let token = getenv (str "TELEGRAM_BOT_TOKEN") in
        if is_blank token
        then failed no_token
        else if eqb_ℤ c.telegram_chat_id (pos 0)
        then failed no_chat_id
        else if lacks_keys
        then failed no_credentials
        else open_client c >>= λ base. ok (record {
          endpoint = base;
          token = token;
          config = new_bot fl (record {
            allowed_chat_id = c.telegram_chat_id;
            max_order_notional = c.telegram_max_notional;
            poll_timeout = pos 0;
          });
        })

    -- The strategy of `wireEquityAuto`.
    unfoldable pub equity_strategy_of : Settings fl.F → Wired (Strategy fl.F)
    unfolding build_strategy
    equity_strategy_of c =
        if is_blank c.equity_strategy || same c.equity_strategy (str "adaptive")
        then ok (
            by_rule (
              adaptive (
                new_adaptive fl
                  (record { fast = pos 3; slow = pos 9 }
                    ∷ record { fast = pos 5; slow = pos 15 }
                    ∷ record { fast = pos 8; slow = pos 21 }
                    ∷ record { fast = pos 13; slow = pos 34 }
                    ∷ [])
                  (fl.lit 15 2) (fl.lit 7 1))))
        else build_strategy c.equity_strategy c.llm_model

    -- `wireEquityAuto`
    unfoldable pub wire_equity_auto : Settings fl.F → Wired (EquityStart fl.F)
    unfolding lacks_keys open_client equity_strategy_of
    wire_equity_auto c =
        if lacks_keys
        then failed no_credentials
        else equity_strategy_of c >>= λ strat. open_client c >>= λ base. ok (record {
          endpoint = base;
          strategy = strat;
          config = record {
            symbols = map (λ s. to_upper (trim_space s)) (split b',' c.equity_symbols);
            poll_interval = c.equity_poll_every;
            eval_interval = c.equity_eval_every;
            max_position_fraction = c.equity_max_position;
            history_bars = pos 0;
          };
        })
