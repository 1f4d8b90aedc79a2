-- ===== src/Paper/Trade.antt =====
-- `NewAccount` and `Apply` of internal/consumer/paper/paper.go.
use real_time_market_data_pi.Base.{
  ℕ, suc, ◌==◌, Bool, not, ◌||◌, none, some, [], if◌then◌else◌, list_eq, nat_eq,
}
use real_time_market_data_pi.Base.Int.{pos}
use real_time_market_data_pi.Base.Assoc.{lookup, insert, erase}
use real_time_market_data_pi.Decimal.{Decimal, zero_decimal, is_zero, is_negative}
use real_time_market_data_pi.Decimal.Arith.{add, sub, mul, rescale}
use real_time_market_data_pi.Float.{Float64, float, from_float, clamp01}
use real_time_market_data_pi.Strategy.{hold, buy, sell, Signal}
use real_time_market_data_pi.Tick.{Time}
use real_time_market_data_pi.Paper.{
  Config, Fill, Position, Account, exceeds, equity, record_fill, Outcome, refused, no_trade, filled,
}

module _ (fl : Float64) where
  unfoldable pub default_config : Config fl.F
  default_config = record {
    starting_cash = record { unscaled = pos 1_000_000; scale = 2 };
    fee_rate = fl.lit 1 3;
    slippage_rate = fl.lit 5 4;
    max_position_fraction = fl.lit 25 2;
    price_precision = 8;
    quantity_precision = 8;
  }

  -- `NewAccount`
  unfoldable pub new_account : Config fl.F → Account fl.F
  unfolding default_config
  new_account c =
      let cfg = record c {
        starting_cash =
            if is_zero c.starting_cash then default_config.starting_cash else c.starting_cash;
        price_precision = if c.price_precision == 0 then 8 else c.price_precision;
        quantity_precision = if c.quantity_precision == 0 then 8 else c.quantity_precision;
        max_position_fraction =
            if fl.le c.max_position_fraction (fl.lit 0 0)
            then default_config.max_position_fraction
            else c.max_position_fraction;
      } in
      record {
        cfg = cfg;
        last_prices = [];
        book = record {
          cash = cfg.starting_cash;
          positions = [];
          fills = [];
          realized = zero_decimal;
          fees = zero_decimal;
          wins = 0;
          losses = 0;
          peak_equity = cfg.starting_cash;
          max_dd = fl.lit 0 0;
        };
      }

  unfoldable pub apply_rate : Decimal → fl.F → ℕ → Decimal
  apply_rate d rate scale = from_float fl (fl.times (float fl d) rate) scale

  abbrev pub positive : Decimal → Bool
  positive d = fl.lt (fl.lit 0 0) (float fl d)

  -- The sizes of an entry that `buy` computes before it writes anything.
  pub record Entry : Type 0 where
    pub fill_price : Decimal
    pub budget : Decimal
    pub qty : Decimal
    pub notional : Decimal
    pub fee : Decimal
    pub total : Decimal

  unfoldable pub entry : Signal fl.F → Decimal → Account fl.F → Entry
  unfolding equity apply_rate
  entry sig ref_price a =
      let fill_price =
        apply_rate ref_price (fl.plus (fl.lit 1 0) a.cfg.slippage_rate) a.cfg.price_precision in
      let wanted =
        from_float fl
          (fl.times (fl.times (float fl (equity a)) a.cfg.max_position_fraction)
            (clamp01 fl sig.strength))
          2 in
      let capped = if exceeds wanted a.book.cash then a.book.cash else wanted in
      let budget =
        from_float fl (fl.over (float fl capped) (fl.plus (fl.lit 1 0) a.cfg.fee_rate)) 2 in
      let qty =
        from_float fl (fl.over (float fl budget) (float fl fill_price)) a.cfg.quantity_precision in
      let notional = rescale (mul fill_price qty) 2 in
      let fee = from_float fl (fl.times (float fl notional) a.cfg.fee_rate) 2 in
      record {
        fill_price = fill_price;
        budget = budget;
        qty = qty;
        notional = notional;
        fee = fee;
        total = add notional fee;
      }

  -- The end of `buy`: the account pays and holds.
  unfoldable pub open_position : Signal fl.F → Time → Entry → Account fl.F → Outcome × Account fl.F
  unfolding record_fill
  open_position sig now e a =
      let f : Fill = record {
        time = now;
        instrument = sig.instrument;
        side = buy;
        price = e.fill_price;
        quantity = e.qty;
        notional = e.notional;
        fee = e.fee;
        realized_pl = zero_decimal;
        reason = sig.reason;
      } in
      let pos : Position = record {
        instrument = sig.instrument;
        quantity = e.qty;
        avg_entry =
            from_float fl (fl.over (float fl e.total) (float fl e.qty)) a.cfg.price_precision;
        opened_at = now;
      } in
      (
        filled f,
        record_fill f (record a {
          book = record a.book {
            cash = sub a.book.cash e.total;
            fees = add a.book.fees e.fee;
            positions = insert sig.instrument pos a.book.positions;
          };
        }),
      )

  -- `buy`
  unfoldable pub apply_buy : Signal fl.F → Decimal → Time → Account fl.F → Outcome × Account fl.F
  apply_buy sig ref_price now a = elim (lookup sig.instrument a.book.positions) [
    | some _ ↦ (no_trade, a)
    | none ↦
        let e = entry sig ref_price a in
        if not (positive e.budget) || not (positive e.qty) || exceeds e.total a.book.cash
        then (no_trade, a)
        else open_position sig now e a
  ]

  -- The part of `sell` behind its guard.
  unfoldable pub close_position :
      Signal fl.F → Decimal → Time → Position → Account fl.F → Outcome × Account fl.F
  unfolding apply_rate record_fill
  close_position sig ref_price now p a =
      let fill_price =
        apply_rate ref_price (fl.minus (fl.lit 1 0) a.cfg.slippage_rate) a.cfg.price_precision in
      let notional = rescale (mul fill_price p.quantity) 2 in
      let fee = from_float fl (fl.times (float fl notional) a.cfg.fee_rate) 2 in
      let proceeds = sub notional fee in
      let cost = rescale (mul p.avg_entry p.quantity) 2 in
      let realized = sub proceeds cost in
      let f : Fill = record {
        time = now;
        instrument = sig.instrument;
        side = sell;
        price = fill_price;
        quantity = p.quantity;
        notional = notional;
        fee = fee;
        realized_pl = realized;
        reason = sig.reason;
      } in
      (
        filled f,
        record_fill f (record a {
          book = record a.book {
            cash = add a.book.cash proceeds;
            fees = add a.book.fees fee;
            realized = add a.book.realized realized;
            losses = if is_negative realized then suc a.book.losses else a.book.losses;
            wins = if is_negative realized then a.book.wins else suc a.book.wins;
            positions = erase sig.instrument a.book.positions;
          };
        }),
      )

  -- `sell`
  unfoldable pub apply_sell : Signal fl.F → Decimal → Time → Account fl.F → Outcome × Account fl.F
  apply_sell sig ref_price now a = elim (lookup sig.instrument a.book.positions) [
    | none ↦ (no_trade, a)
    | some p ↦ close_position sig ref_price now p a
  ]

  -- `Apply`
  unfoldable pub apply : Signal fl.F → Decimal → Time → Account fl.F → Outcome × Account fl.F
  apply sig ref_price now a =
      if is_zero ref_price || is_negative ref_price then (refused, a) else elim sig.action [
        | buy ↦ apply_buy sig ref_price now a
        | sell ↦ apply_sell sig ref_price now a
        | hold ↦ (no_trade, a)
      ]
