-- ===== src/Telegram/Shares.antt =====
-- The sells that internal/telegram/parser.go reads: they are by quantity.
use real_time_market_data_pi.Base.{
  ◌≡◌, inl, inr, true, false, not, Bool-cases, Option-cases, list_eq, nat_eq,
}
use real_time_market_data_pi.Base.Bytes.{Str}
use real_time_market_data_pi.Base.Text.{to_lower, trim_space}
use real_time_market_data_pi.Broker.{OrderSide, buy_order, sell_order}
use real_time_market_data_pi.Decimal.{Decimal, is_zero}
use real_time_market_data_pi.Float.{Float64}
use real_time_market_data_pi.Store.{is_blank}
use real_time_market_data_pi.Telegram.Parser.{
  Intent, Parsed, refused, intended, Matchers, Sizes, unsized, sized, exit_clause, sizes_of,
  is_stopword, finish_order, parse_order, plain_command, parse,
}

module _ (fl : Float64) where
  -- A sell asks for no amount of dollars.
  abbrev pub ByShares : Intent fl.F → Type 0
  ByShares i = i.side ≡ sell_order → is_zero i.notional ≡ true

  abbrev pub AllByShares : Parsed fl.F → Type 0
  AllByShares (refused e) = Unit
  AllByShares (intended i) = ByShares i

  module _ (re : Matchers fl.F) where
    by_quantity :
        (side : OrderSide) (notional : Decimal)
        → (elim side [ buy_order ↦ false | sell_order ↦ not (is_zero notional) ]) ≡ false
        → side ≡ sell_order
        → is_zero notional ≡ true
    by_quantity buy_order notional h s = cc
    by_quantity sell_order notional h s = elim (Bool-cases (is_zero notional)) [
      | inl q ↦ q
      | inr q ↦ cc
    ]

    finish-AllByShares :
        (side : OrderSide) (tp : Decimal) (tp_pct : fl.F) (sl : Decimal) (sl_pct : fl.F)
        (work : Str) (qty notional : Decimal)
        → AllByShares (finish_order fl re side tp tp_pct sl sl_pct work qty notional)
    unfolding finish_order
    finish-AllByShares side tp tp_pct sl sl_pct work qty notional =
        elim (Bool-cases (elim side [ buy_order ↦ false | sell_order ↦ not (is_zero notional) ])) [
          | inl q ↦ rw (finish_order, q) tt
          | inr q ↦ elim (Option-cases (re.symbol_re work)) [
            | inl n ↦ rw (finish_order, q, n) tt
            | inr (tok, n) ↦ elim (Bool-cases (is_stopword (to_lower tok))) [
              | inl stop ↦ rw (finish_order, q, n, stop) tt
              | inr name ↦ rw (finish_order, q, n, name) (by_quantity side notional q)
            ]
          ]
        ]

    sized-AllByShares :
        (side : OrderSide) (tp : Decimal) (tp_pct : fl.F) (sl : Decimal) (sl_pct : fl.F)
        (work : Str) (z : Sizes fl re)
        → AllByShares (elim z [
          | unsized e ↦ refused e
          | sized qty notional ↦ finish_order fl re side tp tp_pct sl sl_pct work qty notional
        ])
    sized-AllByShares side tp tp_pct sl sl_pct work (unsized e) = tt
    sized-AllByShares side tp tp_pct sl sl_pct work (sized qty notional) =
        finish-AllByShares side tp tp_pct sl sl_pct work qty notional

    order-AllByShares : (side : OrderSide) (text : Str) → AllByShares (parse_order fl re side text)
    unfolding parse_order
    order-AllByShares side text = elim (Option-cases (exit_clause fl re (re.tp_re text) text)) [
      | inl n ↦ rw (parse_order, n) tt
      | inr ((tp, tp_pct, work1), n) ↦
          elim (Option-cases (exit_clause fl re (re.sl_re work1) work1)) [
            | inl m ↦ rw (parse_order, n, m) tt
            | inr ((sl, sl_pct, work), m) ↦
                rw (parse_order, n, m)
                  (sized-AllByShares side tp tp_pct sl sl_pct work (sizes_of fl re work))
          ]
    ]

    pub parse-AllByShares : (raw : Str) → AllByShares (parse fl re raw)
    unfolding parse
    parse-AllByShares raw =
        let text = trim_space raw in
        elim (Bool-cases (is_blank text)) [
          | inl b ↦ rw (parse, b) tt
          | inr b ↦ elim (Option-cases (plain_command fl re (to_lower text))) [
            | inr (kind, k) ↦ rw (parse, b, k) (λ s. cc)
            | inl k ↦ elim (Option-cases (re.price_re text)) [
              | inr (tok, p) ↦ rw (parse, b, k, p) (λ s. cc)
              | inl p ↦ elim (Option-cases (re.close_re text)) [
                | inr (tok, c) ↦ rw (parse, b, k, p, c) (λ s. cc)
                | inl c ↦ elim (Bool-cases (re.buy_re text)) [
                  | inl y ↦ rw (parse, b, k, p, c, y) (order-AllByShares buy_order text)
                  | inr y ↦ elim (Bool-cases (re.sell_re text)) [
                    | inl z ↦ rw (parse, b, k, p, c, y, z) (order-AllByShares sell_order text)
                    | inr z ↦ rw (parse, b, k, p, c, y, z) tt
                  ]
                ]
              ]
            ]
          ]
        ]
