-- ===== src/EquityTrader.antt =====
-- internal/equitytrader/engine.go: the engine that trades a basket of stocks. Durations are
-- nanoseconds.
pub mod LongOnly
use real_time_market_data_pi.Base.{
  ℕ, ◌-◌, Bool, true, false, Option, none, some, List, [], ◌∷◌, ◌++◌, if◌then◌else◌, ltb, length,
  drop, list_eq, nat_eq,
}
use real_time_market_data_pi.Base.Assoc.{Assoc, lookup, insert, erase}
use real_time_market_data_pi.Base.Bytes.{Str, str}
use real_time_market_data_pi.Base.Int.{ℤ, pos, leb_ℤ, ltb_ℤ, abs_ℕ}
use real_time_market_data_pi.Base.Text.{equal_fold}
use real_time_market_data_pi.Broker.{buy_order, sell_order}
use real_time_market_data_pi.Candles.{Candle}
use real_time_market_data_pi.Decimal.{Decimal, zero_decimal, is_zero}
use real_time_market_data_pi.Equity.{EquityOrder, PositionInfo, Trader}
use real_time_market_data_pi.Float.{Float64, float, from_float, clamp01}
use real_time_market_data_pi.Strategy.{hold, buy, sell, Signal}
use real_time_market_data_pi.Tick.{Tick, Time, unknown_side}

pub record Config (F : Type 0) : Type 0 where
  pub symbols : List Str
  pub poll_interval : ℤ
  pub eval_interval : ℤ
  pub max_position_fraction : F
  pub history_bars : ℤ

pub record Engine (F : Type 0) : Type 0 where
  pub cfg : Config F
  pub hist : Assoc Str (List Candle)
  pub held : Assoc Str Bool

abbrev default_symbols : List Str
default_symbols =
    str "AAPL"
    ∷ str "MSFT"
    ∷ str "NVDA"
    ∷ str "TSLA"
    ∷ str "AMD"
    ∷ str "META"
    ∷ str "AMZN"
    ∷ str "GOOGL"
    ∷ str "NFLX"
    ∷ str "COIN"
    ∷ []

-- What is stored for a missing key.
unfoldable pub bars_of : Str → Assoc Str (List Candle) → List Candle
bars_of id m = elim (lookup id m) [ none ↦ [] | some bars ↦ bars ]

unfoldable pub is_held : Str → Assoc Str Bool → Bool
is_held id m = elim (lookup id m) [ none ↦ false | some b ↦ b ]

-- The candle that `poll` makes of a price.
unfoldable pub bar_of : Str → Decimal → Time → Candle
bar_of id price now = record {
  instrument = id;
  venue = [];
  open_time = now;
  close_time = now;
  opening = price;
  high = price;
  low = price;
  closing = price;
  volume = zero_decimal;
  trades = 0;
  complete = true;
}

-- The last bars, where there are more; the number is positive in an engine of `NewEngine`.
unfoldable pub keep_bars : ℤ → List Candle → List Candle
keep_bars n h = if ltb_ℤ n (pos (length h)) then drop (length h - abs_ℕ n) h else h

abbrev last_bar : List Candle → Option Candle
last_bar [] = none
last_bar (b ∷ []) = some b
last_bar (b ∷ c ∷ bs) = last_bar (c ∷ bs)

module _ {F : Type 0} where
  -- `Last`
  unfoldable pub last_tick : Str → Engine F → Option Tick
  unfolding bars_of
  last_tick id e = elim (last_bar (bars_of id e.hist)) [
    | none ↦ none
    | some b ↦ some (record {
      venue = [];
      instrument = id;
      seq = 0;
      event_time = b.close_time;
      recv_time = 0;
      price = b.closing;
      quantity = zero_decimal;
      side = unknown_side;
      venue_trade_id = [];
    })
  ]

  -- `Candles`
  unfoldable pub candles_of : Str → ℤ → Engine F → List Candle
  unfolding bars_of
  candles_of id limit e =
      let bars = bars_of id e.hist in
      let n = abs_ℕ limit in
      if ltb_ℤ (pos 0) limit
      then (if ltb n (length bars) then drop (length bars - n) bars else bars)
      else bars

  -- The loop of `syncHeld`.
  unfoldable pub held_now : List (PositionInfo F) → Assoc Str Bool → Assoc Str Bool
  held_now [] m = m
  held_now (p ∷ ps) m = held_now ps (if is_zero p.qty then m else insert p.symbol true m)

  -- The loop of `sell`: the last position that matches.
  unfoldable pub qty_of : Str → List (PositionInfo F) → Decimal → Decimal
  qty_of id [] qty = qty
  qty_of id (p ∷ ps) qty = qty_of id ps (if equal_fold p.symbol id then p.qty else qty)

-- What the select of `Run` may see.
pub data Event : Type 0 where
  cancelled poll_time eval_time : Event

module _ (fl : Float64) {W : Type 0} (tr : Trader fl.F W) where
  -- `NewEngine`
  unfoldable pub new_engine : Config fl.F → Engine fl.F
  new_engine c = record {
    cfg = record {
      symbols = elim c.symbols [ [] ↦ default_symbols | s ∷ ss ↦ s ∷ ss ];
      poll_interval = if leb_ℤ c.poll_interval (pos 0) then pos 30_000_000_000 else c.poll_interval;
      eval_interval = if leb_ℤ c.eval_interval (pos 0) then pos 60_000_000_000 else c.eval_interval;
      max_position_fraction =
          if fl.le c.max_position_fraction (fl.lit 0 0)
          then fl.lit 5 2
          else c.max_position_fraction;
      history_bars = if leb_ℤ c.history_bars (pos 0) then pos 60 else c.history_bars;
    };
    hist = [];
    held = [];
  }

  -- One symbol of `poll`.
  unfoldable pub poll_symbol : Str → Engine fl.F → W → Engine fl.F × W
  unfolding bar_of keep_bars bars_of
  poll_symbol id e w =
      let (answer, w1) = tr.quote id w in
      let (now, w2) = tr.now w1 in
      elim answer [
        | none ↦ (e, w1)
        | some price ↦ if is_zero price then (e, w1) else (
          record e {
            hist =
                insert id
                  (keep_bars e.cfg.history_bars (bars_of id e.hist ++ (bar_of id price now ∷ [])))
                  e.hist;
          },
          w2,
        )
      ]

  unfoldable pub poll_all : List Str → Engine fl.F → W → Engine fl.F × W
  unfolding poll_symbol
  poll_all [] e w = (e, w)
  poll_all (id ∷ ids) e w = let (e', w') = poll_symbol id e w in poll_all ids e' w'

  -- `poll`
  unfoldable pub poll : Engine fl.F → W → Engine fl.F × W
  unfolding poll_all
  poll e w = poll_all e.cfg.symbols e w

  -- `syncHeld`
  unfoldable pub sync_held : Engine fl.F → W → Engine fl.F × W
  unfolding held_now
  sync_held e w =
      let (answer, w') = tr.positions w in
      (elim answer [ none ↦ e | some ps ↦ record e { held = held_now ps [] } ], w')

  -- The order is placed; if it is filled, the symbol is held or not.
  unfoldable pub place : EquityOrder → Bool → Engine fl.F → W → Engine fl.F × W
  place o held e w =
      let (answer, w') = tr.place_equity_order o w in
      (elim answer [ none ↦ e | some _ ↦ record e { held = insert o.symbol held e.held } ], w')

  -- `buy`, behind its first guard and with the value of the account.
  unfoldable pub buy_with : Signal fl.F → Decimal → Engine fl.F → W → Engine fl.F × W
  unfolding place
  buy_with sig value e w =
      let equity = float fl value in
      let notional =
        fl.times (fl.times equity e.cfg.max_position_fraction) (clamp01 fl sig.strength) in
      let (id, w') = tr.random_id w in
      if fl.le equity (fl.lit 0 0)
      then (e, w)
      else if fl.le notional (fl.lit 0 0)
      then (e, w)
      else place
          (record {
            symbol = sig.instrument;
            side = buy_order;
            qty = zero_decimal;
            notional = from_float fl notional 2;
            take_profit = zero_decimal;
            stop_loss = zero_decimal;
            client_id = str "eq-" ++ id;
            reason = sig.reason;
          })
          true e w'

  -- `buy`
  unfoldable pub buy_signal : Signal fl.F → Engine fl.F → W → Engine fl.F × W
  unfolding buy_with is_held
  buy_signal sig e w =
      let (answer, w') = tr.account_summary w in
      if is_held sig.instrument e.held
      then (e, w)
      else elim answer [ none ↦ (e, w') | some s ↦ buy_with sig s.portfolio_value e w' ]

  -- `sell`, behind its first guard and with the positions.
  unfoldable pub sell_with :
      Signal fl.F → List (PositionInfo fl.F) → Engine fl.F → W → Engine fl.F × W
  unfolding place qty_of
  sell_with sig ps e w =
      let qty = qty_of sig.instrument ps zero_decimal in
      let (id, w') = tr.random_id w in
      if is_zero qty
      then (record e { held = erase sig.instrument e.held }, w)
      else place
          (record {
            symbol = sig.instrument;
            side = sell_order;
            qty = qty;
            notional = zero_decimal;
            take_profit = zero_decimal;
            stop_loss = zero_decimal;
            client_id = str "eq-" ++ id;
            reason = sig.reason;
          })
          false e w'

  -- `sell`
  unfoldable pub sell_signal : Signal fl.F → Engine fl.F → W → Engine fl.F × W
  unfolding sell_with is_held
  sell_signal sig e w =
      let (answer, w') = tr.positions w in
      if is_held sig.instrument e.held
      then elim answer [ none ↦ (e, w') | some ps ↦ sell_with sig ps e w' ]
      else (e, w)

  -- The switch of `evaluate`.
  unfoldable pub act : Signal fl.F → Engine fl.F → W → Engine fl.F × W
  unfolding buy_signal sell_signal
  act sig e w = elim sig.action [
    | hold ↦ (e, w)
    | buy ↦ buy_signal sig e w
    | sell ↦ sell_signal sig e w
  ]

  unfoldable pub act_all : List (Signal fl.F) → Engine fl.F → W → Engine fl.F × W
  unfolding act
  act_all [] e w = (e, w)
  act_all (s ∷ ss) e w = let (e', w') = act s e w in act_all ss e' w'

  -- The strategy is behind an interface: `none` is an error.
  module _ (strat : Engine fl.F → W → Option (List (Signal fl.F)) × W) where
    -- `evaluate`
    unfoldable pub evaluate : Engine fl.F → W → Engine fl.F × W
    unfolding act_all
    evaluate e w =
        let (answer, w') = strat e w in
        elim answer [ none ↦ (e, w') | some sigs ↦ act_all sigs e w' ]

    unfoldable pub loop : List Event → Engine fl.F → W → Engine fl.F × W
    unfolding poll evaluate
    loop [] e w = (e, w)
    loop (cancelled ∷ es) e w = (e, w)
    loop (poll_time ∷ es) e w = let (e', w') = poll e w in loop es e' w'
    loop (eval_time ∷ es) e w = let (e', w') = evaluate e w in loop es e' w'

    -- `Run`
    unfoldable pub run : List Event → Engine fl.F → W → Engine fl.F × W
    unfolding sync_held poll loop
    run es e w = let (e1, w1) = sync_held e w in let (e2, w2) = poll e1 w1 in loop es e2 w2
