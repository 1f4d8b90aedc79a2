-- ===== src/Telegram/Safety.antt =====
-- The orders of internal/telegram/bot.go.
use real_time_market_data_pi.Base.{
  ℕ, zero, suc, ◌≡◌, ◌⊎◌, refl, sym, subst, inl, inr, Bool, true, false, ◌&&◌, ◌||◌, not,
  Bool-cases, none, some, Option-cases, List, [], ◌∷◌, ◌++◌, if◌then◌else◌, All, list_eq, nat_eq,
}
use real_time_market_data_pi.Base.Bytes.{Str}
use real_time_market_data_pi.Base.Int.{ℤ, eqb_ℤ}
use real_time_market_data_pi.Base.Text.{trim_space}
use real_time_market_data_pi.Broker.{OrderSide, buy_order, sell_order}
use real_time_market_data_pi.Decimal.{Decimal, zero_decimal, is_zero}
use real_time_market_data_pi.Equity.{EquityOrder, PositionInfo, Trader}
use real_time_market_data_pi.Float.{Float64, float, from_float}
use real_time_market_data_pi.Store.{is_blank}
use real_time_market_data_pi.Telegram.Parser.{
  Kind, order_kind, close_kind, positions_kind, status_kind, quote_kind, help_kind, Intent, Parsed,
  refused, intended, Matchers, parse,
}
use real_time_market_data_pi.Telegram.Shares.{ByShares, AllByShares, parse-AllByShares}
use real_time_market_data_pi.Telegram.Bot.{
  BotConfig, Message, Update, Reply, Client, qty_of, order_of, amount_of, with_quantity,
  is_zero_float, held_qty, close_all, place, quote_and_place, order, status, open_positions,
  tell_quote, serve, process, handle, handle_all, run,
}

-- An order that was sent, with the positions and the quote that the broker had answered last.
pub record Placed (F : Type 0) : Type 0 where
  pub order : EquityOrder
  pub seen : List (PositionInfo F)
  pub quote : Decimal

pub record Log (F W : Type 0) : Type 0 where
  pub world : W
  pub seen : List (PositionInfo F)
  pub quote : Decimal
  pub placed : List (Placed F)

-- A trader that also writes down what it answers and the orders that are sent to it.
abbrev pub logged : {F W : Type 0} → Trader F W → Trader F (Log F W)
logged tr = record {
  name = tr.name;
  place_equity_order = λ o v.
      let (a, w) = tr.place_equity_order o v.world in
      (
        a,
        record v {
          world = w;
          placed = v.placed ++ (record { order = o; seen = v.seen; quote = v.quote } ∷ []);
        },
      );
  quote = λ s v.
      let (a, w) = tr.quote s v.world in
      (a, record v { world = w; quote = elim a [ none ↦ v.quote | some q ↦ q ] });
  account_summary = λ v. let (a, w) = tr.account_summary v.world in (a, record v { world = w });
  positions = λ v.
      let (a, w) = tr.positions v.world in
      (a, record v { world = w; seen = elim a [ none ↦ v.seen | some ps ↦ ps ] });
  now = λ v. let (a, w) = tr.now v.world in (a, record v { world = w });
  random_id = λ v. let (a, w) = tr.random_id v.world in (a, record v { world = w });
}

-- The chat, which sees the outside.
abbrev pub apart : {F W : Type 0} → Client F W → Client F (Log F W)
apart tg = record {
  get_updates = λ n v. let (a, w) = tg.get_updates n v.world in (a, record v { world = w });
  send_message = λ n r v. let (a, w) = tg.send_message n r v.world in (a, record v { world = w });
}

All-snoc {ℓ κ} :
    {A : Type ℓ} (P : A → Type κ) (xs : List A) (x : A) → All P xs → P x → All P (xs ++ (x ∷ []))
All-snoc P [] x h p = (p, tt)
All-snoc P (y ∷ xs) x h p = (h.0, All-snoc P xs x h.1 p)

module _ (fl : Float64) where
  -- The dollars of a quantity or an amount.
  abbrev dollars : Decimal → Decimal → Decimal → fl.F
  dollars qty notional price =
      if is_zero_float fl (float fl notional)
      then fl.times (float fl qty) (float fl price)
      else float fl notional

  -- What was asked for is at the quote not above the cap, and is what was sent, or what was sent
  -- is its amount as a quantity at the quote.
  pub record IsCapped (cap : fl.F) (p : Placed fl.F) : Type 0 where
    pub qty : Decimal
    pub notional : Decimal
    pub capped : fl.lt cap (dollars qty notional p.quote) ≡ false
    pub sent :
        ((p.order.qty ≡ qty) × (p.order.notional ≡ notional))
        ⊎ ((is_zero qty ≡ true)
            × (p.order.qty ≡ from_float fl (fl.over (float fl notional) (float fl p.quote)) 6)
            × (is_zero p.order.notional ≡ true))

  -- A buy is capped. A sell is by quantity, of a position that the broker had answered, and of all
  -- of it or of no more than it by a capped order.
  abbrev pub IsSafe : fl.F → Placed fl.F → Type 0
  IsSafe cap p = elim p.order.side [
    | buy_order ↦ IsCapped cap p
    | sell_order ↦
        let held = qty_of p.order.symbol p.seen in
        (is_zero held ≡ false)
        × (is_zero p.order.notional ≡ true)
        × ((p.order.qty ≡ held)
            ⊎ ((fl.lt (float fl held) (float fl p.order.qty) ≡ false) × IsCapped cap p))
  ]

  -- What the bot has checked before it asks for a quote.
  abbrev IsReady : OrderSide → Str → Decimal → Decimal → List (PositionInfo fl.F) → Type 0
  IsReady buy_order symbol qty notional seen = Unit
  IsReady sell_order symbol qty notional seen =
      (is_zero (qty_of symbol seen) ≡ false)
      × (is_zero notional ≡ true)
      × (fl.lt (float fl (qty_of symbol seen)) (float fl qty) ≡ false)

  zero_amount : is_zero zero_decimal ≡ true
  unfolding is_zero
  zero_amount = refl

  and_right : (a b : Bool) → (a && b) ≡ true → b ≡ true
  and_right true b h = h
  and_right false b h = cc

  order-IsSafe :
      (cap : fl.F) (side : OrderSide) (i : Intent fl.F) (price : Decimal) (id : Str)
      (seen : List (PositionInfo fl.F))
      → fl.lt cap (amount_of fl i price) ≡ false
      → IsReady side i.symbol i.qty i.notional seen
      → IsSafe cap (record {
        order = with_quantity fl price (order_of fl (record i { side = side }) price id);
        seen = seen;
        quote = price;
      })
  unfolding order_of amount_of with_quantity is_zero
  order-IsSafe cap sell_order i price id seen h r = (
    r.0,
    r.1,
    inr (r.2, record { qty = i.qty; notional = i.notional; capped = h; sent = inl (refl, refl) }),
  )
  order-IsSafe cap buy_order i price id seen h r =
      let o = order_of fl (record i { side = buy_order }) price id in
      elim (Bool-cases
        ((not (is_zero o.take_profit) || not (is_zero o.stop_loss)) && is_zero i.qty)) [
          | inl c ↦ rw c (record {
            qty = i.qty;
            notional = i.notional;
            capped = h;
            sent = inr (
              and_right (not (is_zero o.take_profit) || not (is_zero o.stop_loss)) (is_zero i.qty)
                  c,
              refl,
              refl,
            );
          })
          | inr c ↦
              rw c
                (record { qty = i.qty; notional = i.notional; capped = h; sent = inl (refl, refl) })
        ]

  module _ {W : Type 0} (tr : Trader fl.F W) (cap : fl.F) where
    abbrev pub AllSafe : Log fl.F W → Type 0
    AllSafe v = All (IsSafe cap) v.placed

    close-AllSafe :
        (symbol : Str) (v : Log fl.F W) → AllSafe v → AllSafe (close_all fl (logged tr) symbol v).1
    unfolding close_all held_qty
    close-AllSafe symbol v h = elim (Option-cases (tr.positions v.world).0) [
      | inl failed ↦ rw (close_all, failed) h
      | inr (ps, read) ↦ elim (Bool-cases (is_zero (qty_of symbol ps))) [
        | inl q ↦ rw (close_all, read, q) h
        | inr q ↦
            rw (close_all, read, q)
              (All-snoc (IsSafe cap) v.placed _ h (rw read (q, zero_amount, inl refl)))
      ]
    ]

    place-AllSafe :
        (i : Intent fl.F) (v : Log fl.F W)
        → IsReady i.side i.symbol i.qty i.notional v.seen
        → AllSafe v
        → AllSafe (place fl (logged tr) cap i v.quote v).1
    unfolding place
    place-AllSafe i v r h = elim (Bool-cases (fl.lt cap (amount_of fl i v.quote))) [
      | inl c ↦ rw (place, c) h
      | inr c ↦
          rw (place, c)
            (All-snoc (IsSafe cap) v.placed _ h
              (order-IsSafe cap i.side i v.quote (tr.random_id v.world).0 v.seen c r))
    ]

    quote-AllSafe :
        (i : Intent fl.F) (v : Log fl.F W)
        → IsReady i.side i.symbol i.qty i.notional v.seen
        → AllSafe v
        → AllSafe (quote_and_place fl (logged tr) cap i v).1
    unfolding quote_and_place
    quote-AllSafe i v r h = elim (Option-cases (tr.quote i.symbol v.world).0) [
      | inl failed ↦ rw (quote_and_place, failed) h
      | inr (price, read) ↦ elim (Bool-cases (is_zero price)) [
        | inl q ↦ rw (quote_and_place, read, q) h
        | inr q ↦
            let v1 = ((logged tr).quote i.symbol v).1 in
            let told : v1.quote ≡ price = rw read refl in
            rw (quote_and_place, read, q)
              (subst (λ p. AllSafe (place fl (logged tr) cap i p v1).1) told
                (place-AllSafe i v1 r h))
      ]
    ]

    -- A sell, from the quantity held on.
    sell-AllSafe :
        (i : Intent fl.F) (v : Log fl.F W)
        → i.side ≡ sell_order
        → is_zero i.notional ≡ true
        → AllSafe v
        → AllSafe (order fl (logged tr) cap i v).1
    unfolding order held_qty
    sell-AllSafe i v s by_qty h = elim (Option-cases (tr.positions v.world).0) [
      | inl failed ↦ rw (order, s, failed) h
      | inr (ps, read) ↦
          let v1 = ((logged tr).positions v).1 in
          let told : v1.seen ≡ ps = rw read refl in
          elim (Bool-cases (is_zero (qty_of i.symbol ps))) [
            | inl q ↦ rw (order, s, read, q) h
            | inr q ↦ elim (Bool-cases (fl.lt (float fl (qty_of i.symbol ps)) (float fl i.qty))) [
              | inl l ↦ rw (order, s, read, q, l) h
              | inr l ↦
                  let ready : IsReady sell_order i.symbol i.qty i.notional v1.seen =
                    subst (λ seen. IsReady sell_order i.symbol i.qty i.notional seen) (sym told)
                      (q, by_qty, l) in
                  rw (order, s, read, q, l)
                    (quote-AllSafe i v1
                      (subst (λ side. IsReady side i.symbol i.qty i.notional v1.seen) (sym s) ready)
                      h)
            ]
          ]
    ]

    order-AllSafe :
        (side : OrderSide) (i : Intent fl.F) (v : Log fl.F W)
        → ByShares fl (record i { side = side })
        → AllSafe v
        → AllSafe (order fl (logged tr) cap (record i { side = side }) v).1
    unfolding order
    order-AllSafe sell_order i v n h =
        sell-AllSafe (record i { side = sell_order }) v refl (n refl) h
    order-AllSafe buy_order i v n h = quote-AllSafe (record i { side = buy_order }) v tt h

    serve-AllSafe :
        (kind : Kind) (i : Intent fl.F) (v : Log fl.F W)
        → i.kind ≡ kind
        → ByShares fl i
        → AllSafe v
        → AllSafe (serve fl (logged tr) cap i v).1
    unfolding serve status open_positions tell_quote
    serve-AllSafe help_kind i v k n h = rw k h
    serve-AllSafe status_kind i v k n h = rw k h
    serve-AllSafe positions_kind i v k n h = rw k h
    serve-AllSafe quote_kind i v k n h = rw k h
    serve-AllSafe close_kind i v k n h = rw k (close-AllSafe i.symbol v h)
    serve-AllSafe order_kind i v k n h = rw k (order-AllSafe i.side i v n h)

    abbrev AnswerSafe : Reply fl.F × Log fl.F W → Type 0
    AnswerSafe answer = AllSafe answer.1

    process-AllSafe :
        (re : Matchers fl.F) (tg : Client fl.F W) (text : Str) (v : Log fl.F W)
        → AllSafe v
        → AnswerSafe (process fl (logged tr) re (apart tg) cap text v)
    unfolding process
    process-AllSafe re tg text v h = go (parse fl re text) (parse-AllByShares fl re text)
      where
        go :
            (p : Parsed fl.F)
            → AllByShares fl p
            → AnswerSafe (elim p [
              | refused e ↦ (Reply.not_parsed e, v)
              | intended i ↦ serve fl (logged tr) cap i v
            ])
        go (refused e) n = h
        go (intended i) n = serve-AllSafe i.kind i v refl n h

  module _ {W : Type 0} (tr : Trader fl.F W) (re : Matchers fl.F) (tg : Client fl.F W)
      (cfg : BotConfig fl.F) where
    abbrev SafeUnder : Log fl.F W → Type 0
    SafeUnder v = AllSafe tr cfg.max_order_notional v

    handle-AllSafe :
        (msg : Message) (v : Log fl.F W)
        → SafeUnder v
        → SafeUnder (handle fl (logged tr) re (apart tg) cfg msg v)
    unfolding handle
    handle-AllSafe msg v h = elim (Bool-cases (eqb_ℤ msg.chat_id cfg.allowed_chat_id)) [
      | inr other ↦ rw (handle, other) h
      | inl own ↦ rw (handle, own) (process-AllSafe tr cfg.max_order_notional re tg msg.text v h)
    ]

    handle_all-AllSafe :
        (us : List Update) (offset : ℤ) (v : Log fl.F W)
        → SafeUnder v
        → SafeUnder (handle_all fl (logged tr) re (apart tg) cfg us offset v).1
    unfolding handle_all
    handle_all-AllSafe [] offset v h = h
    handle_all-AllSafe (u ∷ us) offset v h = elim (Option-cases u.message) [
      | inl q ↦ rw (handle_all, q) (handle_all-AllSafe us _ v h)
      | inr (msg, q) ↦ elim (Bool-cases (is_blank (trim_space msg.text))) [
        | inl b ↦ rw (handle_all, q, b) (handle_all-AllSafe us _ v h)
        | inr b ↦ rw (handle_all, q, b) (handle_all-AllSafe us _ _ (handle-AllSafe msg v h))
      ]
    ]

    -- Every order that the bot sends while it runs, whatever the chats write and the broker
    -- answers, is safe where those sent before are: a buy asks for no more dollars than the cap at
    -- the last quote, and a sell asks for no amount of dollars, and is of a position that the
    -- broker had last answered, and by quantity of all of it or, under the same cap, not of more.
    pub run-AllSafe :
        (polls : ℕ) (offset : ℤ) (v : Log fl.F W)
        → AllSafe tr cfg.max_order_notional v
        → AllSafe tr cfg.max_order_notional (run fl (logged tr) re (apart tg) polls cfg offset v).1
    unfolding run
    run-AllSafe zero offset v h = h
    run-AllSafe (suc polls) offset v h = elim (Option-cases (tg.get_updates offset v.world).0) [
      | inl failed ↦ rw (run, failed) (run-AllSafe polls offset _ h)
      | inr (us, got) ↦ rw (run, got) (run-AllSafe polls _ _ (handle_all-AllSafe us offset _ h))
    ]
