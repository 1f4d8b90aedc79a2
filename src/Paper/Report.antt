-- ===== src/Paper/Report.antt =====
-- `Mark` and `Snapshot` of internal/consumer/paper/paper.go.
use real_time_market_data_pi.Base.{
  ◌+◌, none, some, [], ◌∷◌, map, ltb, if◌then◌else◌, length, list_eq, nat_eq,
}
use real_time_market_data_pi.Base.Bytes.{Str}
use real_time_market_data_pi.Base.Int.{pos}
use real_time_market_data_pi.Base.Assoc.{Assoc, lookup}
use real_time_market_data_pi.Decimal.{Decimal, zero_decimal}
use real_time_market_data_pi.Decimal.Arith.{add, sub, mul, rescale}
use real_time_market_data_pi.Float.{Float64, float}
use real_time_market_data_pi.Tick.{Time}
use real_time_market_data_pi.Paper.{Position, Account, Snapshot, exceeds, position_value, equity}

-- The unrealized part of `Snapshot`.
unfoldable pub sum_unrealized : Assoc Str Decimal → Assoc Str Position → Decimal → Decimal
sum_unrealized prices [] total = total
sum_unrealized prices ((id, p) ∷ ps) total = sum_unrealized prices ps (elim (lookup id prices) [
  | none ↦ total
  | some px ↦ add total (rescale (mul (sub px p.avg_entry) p.quantity) 2)
])

module _ (fl : Float64) where
  -- `Mark`
  unfoldable pub mark : Assoc Str Decimal → Account fl.F → Account fl.F
  mark prices a =
      let a1 = record a { last_prices = prices } in
      let eq = equity a1 in
      let peak = if exceeds eq a1.book.peak_equity then eq else a1.book.peak_equity in
      let top = float fl peak in
      let dd = fl.times (fl.over (fl.minus top (float fl eq)) top) (fl.lit 100 0) in
      let deepest =
        if fl.lt (fl.lit 0 0) top
        then (if fl.lt a1.book.max_dd dd then dd else a1.book.max_dd)
        else a1.book.max_dd in
      record a1 { book = record a1.book { peak_equity = peak; max_dd = deepest } }

  -- `Snapshot`
  unfoldable pub snapshot : Time → Account fl.F → Snapshot fl.F
  unfolding position_value
  snapshot now a =
      let held = position_value a in
      let eq = add a.book.cash held in
      let total = sub eq a.cfg.starting_cash in
      let start = float fl a.cfg.starting_cash in
      let closed = a.book.wins + a.book.losses in
      record {
        time = now;
        starting_cash = a.cfg.starting_cash;
        cash = rescale a.book.cash 2;
        position_value = held;
        equity = rescale eq 2;
        realized_pl = rescale a.book.realized 2;
        unrealized_pl = sum_unrealized a.last_prices a.book.positions zero_decimal;
        total_pl = rescale total 2;
        return_pct =
            if fl.lt (fl.lit 0 0) start
            then fl.times (fl.over (float fl total) start) (fl.lit 100 0)
            else fl.lit 0 0;
        fees_paid = rescale a.book.fees 2;
        trades = length a.book.fills;
        wins = a.book.wins;
        losses = a.book.losses;
        win_rate_pct =
            if ltb 0 closed
            then fl.times (fl.over (fl.of_int (pos a.book.wins)) (fl.of_int (pos closed)))
                (fl.lit 100 0)
            else fl.lit 0 0;
        max_drawdown_pct = a.book.max_dd;
        positions = map (λ (e : Str × Position). e.1) a.book.positions;
      }
