-- ===== src/Alpaca/Orders.antt =====
-- The orders of internal/broker/alpaca, alpaca.go and equity.go.
use real_time_market_data_pi.Base.{
  ℕ, Bool, true, false, ◌&&◌, ◌||◌, not, Option, none, some, List, [], ◌∷◌, if◌then◌else◌,
}
use real_time_market_data_pi.Base.Bytes.{Str, str}
use real_time_market_data_pi.Base.Text.{to_upper, trim_space}
use real_time_market_data_pi.Broker.{Order, OrderSide, buy_order, sell_order, Execution, Balance}
use real_time_market_data_pi.Decimal.{Decimal, zero_decimal, is_zero}
use real_time_market_data_pi.Equity.{EquityOrder, PositionInfo, AccountSummary}
use real_time_market_data_pi.Float.{Float64, from_float}
use real_time_market_data_pi.Store.{is_blank}
use real_time_market_data_pi.Alpaca.{
  SdkDecimals, SdkOrder, from_sdk_decimal, to_sdk_decimal, to_fill, await_fill, base_asset_of,
  to_alpaca_crypto_symbol,
}

-- The library's `PlaceOrderRequest` of a market order; `good_for_day` is the time in force, and an
-- order with an exit is a bracket order.
pub record Request (S : Type 0) : Type 0 where
  pub symbol : Str
  pub side : OrderSide
  pub good_for_day : Bool
  pub qty : Option S
  pub notional : Option S
  pub bracket : Bool
  pub take_profit : Option S
  pub stop_loss : Option S
  pub client_order_id : Str

-- The library's `Position` and `Account`, as far as they are read.
pub record SdkPosition (F S : Type 0) : Type 0 where
  pub symbol : Str
  pub qty : S
  pub avg_entry_price : S
  pub current_price : Option S
  pub market_value : Option S
  pub unrealized_pl : Option S
  pub unrealized_plpc : Option F

pub record SdkAccount (S : Type 0) : Type 0 where
  pub cash : S
  pub portfolio_value : S
  pub buying_power : S

-- The library's clients, over a state of everything outside the program; `none` is an error.
pub record Sdk (F S W : Type 0) : Type 0 where
  pub get_account : W → Option (SdkAccount S) × W
  pub get_positions : W → Option (List (SdkPosition F S)) × W
  pub place_order : Request S → W → Option (SdkOrder S) × W
  pub get_order : Str → W → Option (SdkOrder S) × W
  pub latest_trade : Str → W → Option F × W

module _ {S : Type 0} (dec : SdkDecimals S) where
  -- The checks of `PlaceEquityOrder` and the request that it builds; `none` is an error.
  unfoldable pub equity_request : EquityOrder → Option (Request S)
  unfolding to_sdk_decimal
  equity_request o =
      let exits = not (is_zero o.take_profit) || not (is_zero o.stop_loss) in
      let given : Decimal → Option S =
        λ d. if is_zero d then none else some (to_sdk_decimal dec d) in
      if is_blank o.symbol
      then none
      else if is_zero o.qty && is_zero o.notional
      then none
      else if not (is_zero o.qty) && not (is_zero o.notional)
      then none
      else if not (is_zero o.notional) && exits
      then none
      else some (record {
        symbol = to_upper (trim_space o.symbol);
        side = o.side;
        good_for_day = true;
        qty = given o.qty;
        notional = if is_zero o.qty then some (to_sdk_decimal dec o.notional) else none;
        bracket = exits;
        take_profit = given o.take_profit;
        stop_loss = given o.stop_loss;
        client_order_id = o.client_id;
      })

  -- The request of `Submit`.
  unfoldable pub crypto_request : Str → Order → Request S
  unfolding to_sdk_decimal
  crypto_request symbol o = record {
    symbol = symbol;
    side = o.side;
    good_for_day = false;
    qty = elim o.side [ buy_order ↦ none | sell_order ↦ some (to_sdk_decimal dec o.quantity) ];
    notional = elim o.side [
      | buy_order ↦ some (to_sdk_decimal dec o.quote_amount)
      | sell_order ↦ none
    ];
    bracket = false;
    take_profit = none;
    stop_loss = none;
    client_order_id = o.client_id;
  }

  module _ (fl : Float64) {W : Type 0} (sdk : Sdk fl.F S W) (polls : ℕ) where
    -- The end of `Submit` and `PlaceEquityOrder`.
    unfoldable pub place_and_await : Str → Str → Request S → W → Option Execution × W
    unfolding await_fill to_fill
    place_and_await instrument reason req w =
        let (answer, w1) = sdk.place_order req w in
        elim answer [
          | none ↦ (none, w1)
          | some placed ↦
              let (final, w2) = await_fill dec sdk.get_order polls placed.id w1 in
              (elim final [ none ↦ none | some r ↦ to_fill dec instrument req.side reason r ], w2)
        ]

    -- `PlaceEquityOrder`
    unfoldable pub place_equity_order : EquityOrder → W → Option Execution × W
    unfolding equity_request place_and_await
    place_equity_order o w = elim (equity_request o) [
      | none ↦ (none, w)
      | some req ↦ place_and_await req.symbol o.reason req w
    ]

    -- `Submit`, with the registry's `Symbol`.
    unfoldable pub submit : (Str → Option Str) → Order → W → Option Execution × W
    unfolding crypto_request place_and_await to_alpaca_crypto_symbol
    submit symbol_of o w = elim (symbol_of o.instrument) [
      | none ↦ (none, w)
      | some symbol ↦ elim (to_alpaca_crypto_symbol symbol) [
        | none ↦ (none, w)
        | some s ↦ place_and_await o.instrument o.reason (crypto_request s o) w
      ]
    ]

    unfoldable pub balances_of : List (SdkPosition fl.F S) → List Balance
    unfolding base_asset_of from_sdk_decimal
    balances_of [] = []
    balances_of (p ∷ ps) =
        record {
          asset = base_asset_of p.symbol;
          free = from_sdk_decimal dec p.qty;
          locked = zero_decimal;
        }
        ∷ balances_of ps

    -- `Balances`
    unfoldable pub balances : W → Option (List Balance) × W
    unfolding balances_of from_sdk_decimal
    balances w =
        let (account, w1) = sdk.get_account w in
        let (positions, w2) = sdk.get_positions w1 in
        elim account [
          | none ↦ (none, w1)
          | some a ↦ (
            elim positions [
              | none ↦ none
              | some ps ↦ some (
                  record {
                    asset = str "USD";
                    free = from_sdk_decimal dec a.cash;
                    locked = zero_decimal;
                  }
                  ∷ balances_of ps)
            ],
            w2,
          )
        ]

    -- A number that may be missing.
    abbrev optional : Option S → Decimal
    optional d = elim d [ none ↦ zero_decimal | some x ↦ from_sdk_decimal dec x ]

    unfoldable pub infos_of : List (SdkPosition fl.F S) → List (PositionInfo fl.F)
    unfolding from_sdk_decimal
    infos_of [] = []
    infos_of (p ∷ ps) =
        record {
          symbol = p.symbol;
          qty = from_sdk_decimal dec p.qty;
          avg_entry_price = from_sdk_decimal dec p.avg_entry_price;
          current_price = optional p.current_price;
          market_value = optional p.market_value;
          unrealized_pl = optional p.unrealized_pl;
          unrealized_pl_pc = elim p.unrealized_plpc [
            | none ↦ fl.lit 0 0
            | some pct ↦ fl.times pct (fl.lit 100 0)
          ];
        }
        ∷ infos_of ps

    -- `Positions`, `AccountSummary` and `Quote`.
    unfoldable pub positions : W → Option (List (PositionInfo fl.F)) × W
    unfolding infos_of
    positions w =
        let (answer, w') = sdk.get_positions w in
        (elim answer [ none ↦ none | some ps ↦ some (infos_of ps) ], w')

    unfoldable pub account_summary : W → Option AccountSummary × W
    unfolding from_sdk_decimal
    account_summary w =
        let (answer, w') = sdk.get_account w in
        (
          elim answer [
            | none ↦ none
            | some a ↦ some (record {
              cash = from_sdk_decimal dec a.cash;
              portfolio_value = from_sdk_decimal dec a.portfolio_value;
              buying_power = from_sdk_decimal dec a.buying_power;
            })
          ],
          w',
        )

    unfoldable pub quote : Str → W → Option Decimal × W
    quote symbol w =
        let (answer, w') = sdk.latest_trade (to_upper (trim_space symbol)) w in
        (elim answer [ none ↦ none | some price ↦ some (from_float fl price 4) ], w')
