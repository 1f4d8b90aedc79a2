-- ===== src/Alpaca.antt =====
-- internal/broker/alpaca/alpaca.go: the endpoint, the symbols and the fills of a remote broker.
pub mod Orders
pub mod Interlock
use real_time_market_data_pi.Base.{
  ℕ, zero, suc, ◌+◌, ◌-◌, Bool, true, false, ◌&&◌, ◌||◌, ◌==◌, not, Option, none, some, List, [],
  ◌∷◌, ◌++◌, if◌then◌else◌, ltb, length, take, drop, same, list_eq, nat_eq,
}
use real_time_market_data_pi.Base.Bytes.{Str, str}
use real_time_market_data_pi.Base.Int.{ℤ, pos, leb_ℤ}
use real_time_market_data_pi.Base.Text.{to_lower, to_upper}
use real_time_market_data_pi.Broker.{OrderSide, Execution, Balance}
use real_time_market_data_pi.Decimal.{Decimal, zero_decimal}
use real_time_market_data_pi.Decimal.Arith.{mul, rescale}
use real_time_market_data_pi.Decimal.Text.{ok, parse}
use real_time_market_data_pi.Store.{is_blank}
use real_time_market_data_pi.Tick.{Time}

pub record Config : Type 0 where
  pub api_key : Str
  pub api_secret : Str
  pub base_url : Str
  pub allow_live : Bool

abbrev pub paper_base_url : Str
paper_base_url = str "https://paper-api.alpaca.markets"

abbrev pub paper_host : Str
paper_host = str "paper-api.alpaca.markets"

abbrev pub live_host : Str
live_host = str "api.alpaca.markets"

-- `isLoopback`
unfoldable pub is_loopback : Str → Bool
is_loopback host =
    same host (str "127.0.0.1")
    || same host (str "localhost")
    || same host (str "::1")
    || same host (str "[::1]")

-- The errors of `checkBaseURL`.
pub data Refusal : Type 0 where
  bad_url live_not_allowed unrecognized_host : Refusal

-- What `New` answers: a client of an endpoint, or an error.
pub data Opened : Type 0 where
  refused : Refusal → Opened
  no_credentials : Opened
  opened : Str → Opened

-- `url.Parse` and `Hostname`; `none` is an error.
module _ (hostname : Str → Option Str) where
  -- `checkBaseURL`; `none` is no error.
  unfoldable pub check_base_url : Str → Bool → Option Refusal
  unfolding is_loopback
  check_base_url base allow_live = elim (hostname base) [
    | none ↦ some bad_url
    | some name ↦
        let host = to_lower name in
        if same host paper_host
        then none
        else if is_loopback host
        then none
        else if not allow_live
        then some live_not_allowed
        else if not (same host live_host)
        then some unrecognized_host
        else none
  ]

  -- `New`
  unfoldable pub new_client : Config → Opened
  unfolding check_base_url
  new_client cfg =
      let base = if is_blank cfg.base_url then paper_base_url else cfg.base_url in
      elim (check_base_url base cfg.allow_live) [
        | some e ↦ refused e
        | none ↦
            if is_blank cfg.api_key || is_blank cfg.api_secret then no_credentials else opened base
      ]

  -- `Name`, of a client of an endpoint.
  unfoldable pub client_name : Str → Str
  unfolding is_loopback
  client_name base = if same base paper_base_url then str "alpaca-paper" else elim (hostname base) [
    | none ↦ str "alpaca-live"
    | some host ↦ if is_loopback host then str "alpaca-test" else str "alpaca-live"
  ]

-- `baseAssetOf`: the text before the first slash, or all of it.
unfoldable pub base_asset_of : Str → Str
base_asset_of [] = []
base_asset_of (c ∷ s) = let rest = base_asset_of s in if c == b'/' then [] else c ∷ rest

-- The text before a suffix, where there is more than the suffix.
abbrev before_suffix : Str → Str → Option Str
before_suffix suffix s =
    let n = length s - length suffix in
    if ltb (length suffix) (length s) && same (drop n s) suffix then some (take n s) else none

-- `toAlpacaCryptoSymbol`; `none` is an error.
unfoldable pub to_alpaca_crypto_symbol : Str → Option Str
to_alpaca_crypto_symbol symbol =
    let s = to_upper symbol in
    elim (before_suffix (str "USDT") s) [
      | some base ↦ some (base ++ str "/USD")
      | none ↦ elim (before_suffix (str "USD") s) [
        | some base ↦ some (base ++ str "/USD")
        | none ↦ none
      ]
    ]

-- The decimals of the client's library: their exact text, and their tests.
pub record SdkDecimals (S : Type 0) : Type 0 where
  pub new : ℤ → ℕ → S
  pub text : S → Str
  pub zero_test : S → Bool
  pub less_than : S → S → Bool

-- The library's `Order`.
pub record SdkOrder (S : Type 0) : Type 0 where
  pub id : Str
  pub client_order_id : Str
  pub status : Str
  pub qty : Option S
  pub filled_qty : S
  pub filled_avg_price : Option S
  pub submitted_at : Time
  pub filled_at : Option Time

-- `terminalStatuses`
unfoldable pub is_terminal : Str → Bool
is_terminal status =
    same status (str "filled")
    || same status (str "canceled")
    || same status (str "expired")
    || same status (str "rejected")
    || same status (str "done_for_day")

module _ {S : Type 0} (sdk : SdkDecimals S) where
  -- `fromSDKDecimal` and `toSDKDecimal`; the scale counts places, so the exponent is its negative.
  unfoldable pub from_sdk_decimal : S → Decimal
  from_sdk_decimal d = elim (parse (sdk.text d)) [ ok x ↦ x | _ ↦ zero_decimal ]

  unfoldable pub to_sdk_decimal : Decimal → S
  to_sdk_decimal d = sdk.new d.unscaled d.scale

  -- `toFill`, of the instrument, the side and the reason of an order; `none` is `ErrRejected`.
  unfoldable pub to_fill : Str → OrderSide → Str → SdkOrder S → Option Execution
  unfolding from_sdk_decimal
  to_fill instrument side reason r =
      let filled = from_sdk_decimal r.filled_qty in
      let price : Decimal = elim r.filled_avg_price [
        | none ↦ zero_decimal
        | some p ↦ from_sdk_decimal p
      ] in
      let short : Bool = elim r.qty [
        | none ↦ false
        | some q ↦ not (sdk.zero_test q) && sdk.less_than r.filled_qty q
      ] in
      if same r.status (str "rejected")
        || same r.status (str "expired")
        || same r.status (str "canceled")
      then none
      else if sdk.zero_test r.filled_qty
      then none
      else some (record {
        instrument = instrument;
        side = side;
        price = price;
        quantity = filled;
        quote_spent = rescale (mul price filled) 8;
        commission = zero_decimal;
        commission_ccy = str "USD";
        order_id = r.id;
        client_id = r.client_order_id;
        time = elim r.filled_at [ none ↦ r.submitted_at | some t ↦ t ];
        reason = reason;
        partial = same r.status (str "partially_filled") || short;
      })

  -- The loop of `awaitFill`, with the number of polls before the context ends; `none` is an error.
  unfoldable pub await_fill :
      {W : Type 0} → (Str → W → Option (SdkOrder S) × W) → ℕ → Str → W → Option (SdkOrder S) × W
  unfolding is_terminal
  await_fill get_order zero id w = (none, w)
  await_fill get_order (suc polls) id w =
      let (answer, w') = get_order id w in
      elim answer [
        | none ↦ (none, w')
        | some o ↦ if is_terminal o.status then (some o, w') else await_fill get_order polls id w'
      ]

-- `strings.Contains`
abbrev starts_with : Str → Str → Bool
starts_with [] s = true
starts_with (c ∷ p) [] = false
starts_with (c ∷ p) (d ∷ s) = let rest = starts_with p s in c == d && rest

abbrev contains : Str → Str → Bool
contains p [] = starts_with p []
contains p (d ∷ s) = let rest = contains p s in starts_with p (d ∷ s) || rest

pub data OrderError : Type 0 where
  insufficient_funds below_minimum rejected : OrderError

-- `apiError`, of the error's text.
unfoldable pub api_error : Str → OrderError
api_error text =
    let msg = to_lower text in
    if contains (str "insufficient") msg
    then insufficient_funds
    else if contains (str "notional") msg
        || contains (str "qty") msg
        || contains (str "minimum") msg
    then below_minimum
    else rejected
