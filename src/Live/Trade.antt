-- ===== src/Live/Trade.antt =====
-- `NewEngine`, `Run` and the handling of signals of internal/consumer/live/engine.go.
use real_time_market_data_pi.Base.{
  suc, Bool, true, false, ◌||◌, Option, none, some, List, [], ◌∷◌, ◌++◌, if◌then◌else◌, list_eq,
  nat_eq,
}
use real_time_market_data_pi.Base.Bytes.{Str, str}
use real_time_market_data_pi.Base.Int.{pos, leb_ℤ}
use real_time_market_data_pi.Base.Assoc.{insert}
use real_time_market_data_pi.Broker.{Broker, Order, buy_order, sell_order, Balance}
use real_time_market_data_pi.Decimal.{zero_decimal, is_zero}
use real_time_market_data_pi.Float.{Float64, float, from_float, clamp01}
use real_time_market_data_pi.Strategy.{hold, buy, sell, Signal}
use real_time_market_data_pi.Live.{
  Config, Engine, is_held, held_now, total_usd, free_of, is_buy, see_tick, Event, cancelled,
  unsubscribed, evaluation, new_tick,
}

module _ (fl : Float64) {W : Type 0} (br : Broker W) where
  -- `NewEngine`
  unfoldable pub new_engine : Config fl.F → Str → List Str → Engine fl.F
  new_engine c venue insts = record {
    cfg = record c {
      eval_interval = if leb_ℤ c.eval_interval (pos 0) then pos 60_000_000_000 else c.eval_interval;
      max_position_fraction =
          if fl.le c.max_position_fraction (fl.lit 0 0)
          then fl.lit 1 1
          else c.max_position_fraction;
    };
    venue = venue;
    last = [];
    insts = insts;
    held = [];
    fill_log = [];
    failures = 0;
  }

  -- `syncHeldPositions`
  unfoldable pub sync_held : Engine fl.F → W → Engine fl.F × W
  unfolding held_now
  sync_held e w =
      let (answer, w') = br.balances w in
      (elim answer [ none ↦ e | some bs ↦ record e { held = held_now e.insts bs [] } ], w')

  -- `submit`
  unfoldable pub submit : Order → Engine fl.F → W → Engine fl.F × W
  submit o e w =
      let (answer, w') = br.submit o w in
      (
        elim answer [
          | none ↦ record e { failures = suc e.failures }
          | some fill ↦ record e {
            fill_log = e.fill_log ++ (fill ∷ []);
            held = insert o.instrument (is_buy o.side) e.held;
          }
        ],
        w',
      )

  -- `buy`, behind its first guard and with the balances.
  unfoldable pub buy_with : Signal fl.F → List Balance → Engine fl.F → W → Engine fl.F × W
  unfolding submit total_usd
  buy_with sig bs e w =
      let equity = total_usd bs in
      let notional =
        from_float fl
          (fl.times (fl.times (float fl equity) e.cfg.max_position_fraction)
            (clamp01 fl sig.strength))
          2 in
      let (id, w') = br.random_id w in
      if is_zero equity || fl.le (float fl notional) (fl.lit 0 0)
      then (e, w)
      else submit
          (record {
            instrument = sig.instrument;
            side = buy_order;
            quote_amount = notional;
            quantity = zero_decimal;
            client_id = str "mdp-" ++ id;
            reason = sig.reason;
          })
          e w'

  unfoldable pub buy_signal : Signal fl.F → Engine fl.F → W → Engine fl.F × W
  unfolding buy_with is_held
  buy_signal sig e w =
      let (answer, w') = br.balances w in
      if is_held sig.instrument e.held
      then (e, w)
      else elim answer [ none ↦ (e, w') | some bs ↦ buy_with sig bs e w' ]

  -- `sell`, behind its first guard and with the balances.
  unfoldable pub sell_with : Signal fl.F → List Balance → Engine fl.F → W → Engine fl.F × W
  unfolding submit free_of
  sell_with sig bs e w =
      let qty = free_of sig.instrument bs zero_decimal in
      let (id, w') = br.random_id w in
      if is_zero qty
      then (e, w)
      else submit
          (record {
            instrument = sig.instrument;
            side = sell_order;
            quote_amount = zero_decimal;
            quantity = qty;
            client_id = str "mdp-" ++ id;
            reason = sig.reason;
          })
          e w'

  unfoldable pub sell_signal : Signal fl.F → Engine fl.F → W → Engine fl.F × W
  unfolding sell_with is_held
  sell_signal sig e w =
      let (answer, w') = br.balances w in
      if is_held sig.instrument e.held
      then elim answer [ none ↦ (e, w') | some bs ↦ sell_with sig bs e w' ]
      else (e, w)

  -- `apply`
  unfoldable pub apply : Signal fl.F → Engine fl.F → W → Engine fl.F × W
  unfolding buy_signal sell_signal
  apply sig e w = elim sig.action [
    | hold ↦ (e, w)
    | buy ↦ buy_signal sig e w
    | sell ↦ sell_signal sig e w
  ]

  unfoldable pub apply_all : List (Signal fl.F) → Engine fl.F → W → Engine fl.F × W
  unfolding apply
  apply_all [] e w = (e, w)
  apply_all (s ∷ ss) e w = let (e', w') = apply s e w in apply_all ss e' w'

  -- The strategy is behind an interface: `none` is an error.
  module _ (strat : Engine fl.F → W → Option (List (Signal fl.F)) × W) where
    -- `evaluate`
    unfoldable pub evaluate : Engine fl.F → W → Engine fl.F × W
    unfolding apply_all
    evaluate e w =
        let (answer, w') = strat e w in
        elim answer [ none ↦ (e, w') | some sigs ↦ apply_all sigs e w' ]

    unfoldable pub loop : List Event → Engine fl.F → W → Engine fl.F × W
    unfolding evaluate see_tick
    loop [] e w = (e, w)
    loop (cancelled ∷ es) e w = (e, w)
    loop (unsubscribed ∷ es) e w = (e, w)
    loop (new_tick t ∷ es) e w = loop es (see_tick t e) w
    loop (evaluation ∷ es) e w = let (e', w') = evaluate e w in loop es e' w'

    -- `Run`; false is the error of an unreachable broker.
    unfoldable pub run : List Event → Engine fl.F → W → Bool × Engine fl.F × W
    unfolding sync_held loop
    run es e w =
        let (reachable, w1) = br.ping w in
        let (e1, w2) = sync_held e w1 in
        let (e2, w3) = loop es e1 w2 in if reachable then (true, e2, w3) else (false, e, w1)
