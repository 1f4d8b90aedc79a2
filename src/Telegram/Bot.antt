-- ===== src/Telegram/Bot.antt =====
-- internal/telegram/bot.go: the bot that trades for one chat. Replies are values, not their texts.
use real_time_market_data_pi.Base.{
  ℕ, zero, suc, Bool, ◌&&◌, ◌||◌, not, Option, none, some, List, [], ◌∷◌, ◌++◌, if◌then◌else◌,
  list_eq, nat_eq,
}
use real_time_market_data_pi.Base.Bytes.{Str, str}
use real_time_market_data_pi.Base.Int.{ℤ, pos, ◌+ℤ◌, eqb_ℤ, leb_ℤ}
use real_time_market_data_pi.Base.Text.{equal_fold, trim_space}
use real_time_market_data_pi.Broker.{buy_order, sell_order, Execution}
use real_time_market_data_pi.Decimal.{Decimal, zero_decimal, is_zero}
use real_time_market_data_pi.Equity.{EquityOrder, PositionInfo, AccountSummary, Trader}
use real_time_market_data_pi.Float.{Float64, float, from_float}
use real_time_market_data_pi.Store.{is_blank}
use real_time_market_data_pi.Telegram.Parser.{
  order_kind, close_kind, positions_kind, status_kind, quote_kind, help_kind, Intent, ParseError,
  refused, intended, Matchers, parse,
}

pub record BotConfig (F : Type 0) : Type 0 where
  pub allowed_chat_id : ℤ
  pub max_order_notional : F
  pub poll_timeout : ℤ

-- `Message`, without what is only logged, and `Update`.
pub record Message : Type 0 where
  pub text : Str
  pub chat_id : ℤ

pub record Update : Type 0 where
  pub update_id : ℤ
  pub message : Option Message

pub data Reply (F : Type 0) : Type 0 where
  help_text broker_failed no_quote : Reply F
  not_parsed : ParseError → Reply F
  status_text : AccountSummary → Reply F
  positions_text : List (PositionInfo F) → Reply F
  quote_text : Str → Decimal → Reply F
  none_open zero_quote : Str → Reply F
  closed : Str → Execution → Reply F
  sells_too_much : Decimal → Decimal → Reply F
  above_cap : F → Reply F
  done : EquityOrder → Execution → Reply F

-- `Client`, over a state of everything outside the program: the updates from an offset on, and
-- whether a reply was sent.
pub record Client (F W : Type 0) : Type 0 where
  pub get_updates : ℤ → W → Option (List Update) × W
  pub send_message : ℤ → Reply F → W → Bool × W

-- The loop of `heldQty`: the first position that matches.
unfoldable pub qty_of : {F : Type 0} → Str → List (PositionInfo F) → Decimal
qty_of symbol [] = zero_decimal
qty_of symbol (p ∷ ps) =
    let rest = qty_of symbol ps in if equal_fold p.symbol symbol then p.qty else rest

module _ (fl : Float64) where
  unfoldable pub default_bot_config : BotConfig fl.F
  default_bot_config = record {
    allowed_chat_id = pos 0;
    max_order_notional = fl.lit 1000 0;
    poll_timeout = pos 25_000_000_000;
  }

  -- `NewBot`
  unfoldable pub new_bot : BotConfig fl.F → BotConfig fl.F
  unfolding default_bot_config
  new_bot cfg = record cfg {
    max_order_notional =
        if fl.le cfg.max_order_notional (fl.lit 0 0)
        then default_bot_config.max_order_notional
        else cfg.max_order_notional;
    poll_timeout =
        if leb_ℤ cfg.poll_timeout (pos 0)
        then default_bot_config.poll_timeout
        else cfg.poll_timeout;
  }

  abbrev pub is_zero_float : fl.F → Bool
  is_zero_float f = fl.le f (fl.lit 0 0) && fl.le (fl.lit 0 0) f

  -- The price of an exit, by a percentage of the quote where there is one.
  unfoldable pub exit_price : Decimal → fl.F → fl.F → Decimal → Decimal
  exit_price fixed pct factor price =
      if fl.lt (fl.lit 0 0) pct then from_float fl (fl.times (float fl price) factor) 2 else fixed

  -- The order of an intent at a quote; only a buy has exits.
  unfoldable pub order_of : Intent fl.F → Decimal → Str → EquityOrder
  unfolding exit_price
  order_of i price id =
      let o : EquityOrder = record {
        symbol = i.symbol;
        side = i.side;
        qty = i.qty;
        notional = i.notional;
        take_profit = zero_decimal;
        stop_loss = zero_decimal;
        client_id = str "tg-" ++ id;
        reason = str "telegram";
      } in
      let up = fl.plus (fl.lit 1 0) (fl.over i.take_profit_pct (fl.lit 100 0)) in
      let down = fl.minus (fl.lit 1 0) (fl.over i.stop_loss_pct (fl.lit 100 0)) in
      elim i.side [
        | sell_order ↦ o
        | buy_order ↦ record o {
          take_profit = exit_price i.take_profit_price i.take_profit_pct up price;
          stop_loss = exit_price i.stop_loss_price i.stop_loss_pct down price;
        }
      ]

  -- The dollars of an intent at a quote.
  unfoldable pub amount_of : Intent fl.F → Decimal → fl.F
  amount_of i price =
      let notional = float fl i.notional in
      if is_zero_float notional then fl.times (float fl i.qty) (float fl price) else notional

  -- An order with exits is by a quantity.
  unfoldable pub with_quantity : Decimal → EquityOrder → EquityOrder
  with_quantity price o =
      if (not (is_zero o.take_profit) || not (is_zero o.stop_loss)) && is_zero o.qty
      then record o {
        qty = from_float fl (fl.over (float fl o.notional) (float fl price)) 6;
        notional = zero_decimal;
      }
      else o

  module _ {W : Type 0} (tr : Trader fl.F W) where
    -- `heldQty`
    unfoldable pub held_qty : Str → W → Option Decimal × W
    unfolding qty_of
    held_qty symbol w =
        let (answer, w') = tr.positions w in
        (elim answer [ none ↦ none | some ps ↦ some (qty_of symbol ps) ], w')

    -- `close`
    unfoldable pub close_all : Str → W → Reply fl.F × W
    unfolding held_qty
    close_all symbol w =
        let (answer, w1) = held_qty symbol w in
        let (id, w2) = tr.random_id w1 in
        elim answer [
          | none ↦ (broker_failed, w1)
          | some held ↦
              let (filled, w3) =
                tr.place_equity_order
                  (record {
                    symbol = symbol;
                    side = sell_order;
                    qty = held;
                    notional = zero_decimal;
                    take_profit = zero_decimal;
                    stop_loss = zero_decimal;
                    client_id = str "tg-" ++ id;
                    reason = str "telegram: close";
                  })
                  w2 in
              if is_zero held
              then (none_open symbol, w1)
              else (elim filled [ none ↦ broker_failed | some f ↦ closed symbol f ], w3)
        ]

    -- The end of `order`: the cap, the exits and the order.
    unfoldable pub place : fl.F → Intent fl.F → Decimal → W → Reply fl.F × W
    unfolding order_of amount_of with_quantity
    place cap i price w =
        let (id, w1) = tr.random_id w in
        let o = with_quantity price (order_of i price id) in
        let (filled, w2) = tr.place_equity_order o w1 in
        if fl.lt cap (amount_of i price)
        then (above_cap (amount_of i price), w1)
        else (elim filled [ none ↦ broker_failed | some f ↦ done o f ], w2)

    -- `order`, from the quote on.
    unfoldable pub quote_and_place : fl.F → Intent fl.F → W → Reply fl.F × W
    unfolding place
    quote_and_place cap i w =
        let (answer, w') = tr.quote i.symbol w in
        elim answer [
          | none ↦ (no_quote, w')
          | some price ↦ if is_zero price then (zero_quote i.symbol, w') else place cap i price w'
        ]

    -- `order`
    unfoldable pub order : fl.F → Intent fl.F → W → Reply fl.F × W
    unfolding held_qty quote_and_place
    order cap i w = elim i.side [
      | buy_order ↦ quote_and_place cap i w
      | sell_order ↦
          let (answer, w') = held_qty i.symbol w in
          elim answer [
            | none ↦ (broker_failed, w')
            | some held ↦
                if is_zero held
                then (none_open i.symbol, w')
                else if fl.lt (float fl held) (float fl i.qty)
                then (sells_too_much i.qty held, w')
                else quote_and_place cap i w'
          ]
    ]

    -- `status`, `positions` and the branch for a quote.
    unfoldable pub status : W → Reply fl.F × W
    status w =
        let (answer, w') = tr.account_summary w in
        (elim answer [ none ↦ broker_failed | some s ↦ status_text s ], w')

    unfoldable pub open_positions : W → Reply fl.F × W
    open_positions w =
        let (answer, w') = tr.positions w in
        (elim answer [ none ↦ broker_failed | some ps ↦ positions_text ps ], w')

    unfoldable pub tell_quote : Str → W → Reply fl.F × W
    tell_quote symbol w =
        let (answer, w') = tr.quote symbol w in
        (elim answer [ none ↦ broker_failed | some price ↦ quote_text symbol price ], w')

    -- The switch of `process`.
    unfoldable pub serve : fl.F → Intent fl.F → W → Reply fl.F × W
    unfolding close_all order status open_positions tell_quote
    serve cap i w = elim i.kind [
      | help_kind ↦ (help_text, w)
      | status_kind ↦ status w
      | positions_kind ↦ open_positions w
      | quote_kind ↦ tell_quote i.symbol w
      | close_kind ↦ close_all i.symbol w
      | order_kind ↦ order cap i w
    ]

    module _ (re : Matchers fl.F) (tg : Client fl.F W) where
      -- `process`
      unfoldable pub process : fl.F → Str → W → Reply fl.F × W
      unfolding serve
      process cap text w = elim (parse fl re text) [
        | refused e ↦ (not_parsed e, w)
        | intended i ↦ serve cap i w
      ]

      -- `handle`
      unfoldable pub handle : BotConfig fl.F → Message → W → W
      unfolding process
      handle cfg msg w =
          let (reply, w') = process cfg.max_order_notional msg.text w in
          if not (eqb_ℤ msg.chat_id cfg.allowed_chat_id)
          then w
          else (tg.send_message msg.chat_id reply w').1

      -- The loop of `Run` over the updates; the offset is after the last one.
      unfoldable pub handle_all : BotConfig fl.F → List Update → ℤ → W → ℤ × W
      unfolding handle
      handle_all cfg [] offset w = (offset, w)
      handle_all cfg (u ∷ us) offset w =
          let next = u.update_id +ℤ pos 1 in
          elim u.message [
            | none ↦ handle_all cfg us next w
            | some msg ↦
                handle_all cfg us next
                  (if is_blank (trim_space msg.text) then w else handle cfg msg w)
          ]

      -- `Run`, for the polls before the context is cancelled.
      unfoldable pub run : ℕ → BotConfig fl.F → ℤ → W → ℤ × W
      unfolding handle_all
      run zero cfg offset w = (offset, w)
      run (suc polls) cfg offset w =
          let (answer, w') = tg.get_updates offset w in
          elim answer [
            | none ↦ run polls cfg offset w'
            | some us ↦ let (offset', w2) = handle_all cfg us offset w' in run polls cfg offset' w2
          ]
