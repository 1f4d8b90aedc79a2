-- ===== src/Telegram/Parser.antt =====
-- internal/telegram/parser.go: from a message to an intent.
use real_time_market_data_pi.Base.{
  Bool, true, false, not, Option, none, some, List, [], ◌∷◌, if◌then◌else◌, same, list_eq, nat_eq,
}
use real_time_market_data_pi.Base.Assoc.{Assoc, lookup}
use real_time_market_data_pi.Base.Bytes.{Str, str}
use real_time_market_data_pi.Base.Text.{to_lower, to_upper, trim_space}
use real_time_market_data_pi.Broker.{OrderSide, buy_order, sell_order}
use real_time_market_data_pi.Decimal.{Decimal, zero_decimal, is_zero}
use real_time_market_data_pi.Float.{Float64, from_float}
use real_time_market_data_pi.Store.{is_blank}

pub data Kind : Type 0 where
  order_kind close_kind positions_kind status_kind quote_kind help_kind : Kind

pub record Intent (F : Type 0) : Type 0 where
  pub kind : Kind
  pub side : OrderSide
  pub symbol : Str
  pub qty : Decimal
  pub notional : Decimal
  pub take_profit_price : Decimal
  pub take_profit_pct : F
  pub stop_loss_price : Decimal
  pub stop_loss_pct : F

-- What a message is refused for.
pub data ParseError : Type 0 where
  empty_message not_understood bad_take_profit bad_stop_loss bad_amount bad_shares bad_quantity :
      ParseError
  no_quantity sell_by_amount no_symbol : ParseError

pub data Parsed (F : Type 0) : Type 0 where
  refused : ParseError → Parsed F
  intended : Intent F → Parsed F

-- The regular expressions, by the package `regexp`: whether one matches, its first group, and for
-- the clauses of an exit the number, whether a percent sign follows, and the text without it; and
-- `strconv.ParseFloat` without commas.
pub record Matchers (F : Type 0) : Type 0 where
  pub price_re : Str → Option Str
  pub close_re : Str → Option Str
  pub buy_re : Str → Bool
  pub sell_re : Str → Bool
  pub tp_re : Str → Option (Str × Bool × Str)
  pub sl_re : Str → Option (Str × Bool × Str)
  pub notional_re : Str → Option Str
  pub share_qty_re : Str → Option Str
  pub bare_qty_re : Str → Option Str
  pub symbol_re : Str → Option Str
  pub parse_num : Str → Option F

abbrev company_aliases : Assoc Str Str
company_aliases =
    (str "apple", str "AAPL")
    ∷ (str "tesla", str "TSLA")
    ∷ (str "google", str "GOOGL")
    ∷ (str "alphabet", str "GOOGL")
    ∷ (str "amazon", str "AMZN")
    ∷ (str "microsoft", str "MSFT")
    ∷ (str "nvidia", str "NVDA")
    ∷ (str "meta", str "META")
    ∷ (str "facebook", str "META")
    ∷ (str "netflix", str "NFLX")
    ∷ (str "disney", str "DIS")
    ∷ (str "boeing", str "BA")
    ∷ (str "nike", str "NKE")
    ∷ (str "starbucks", str "SBUX")
    ∷ (str "walmart", str "WMT")
    ∷ (str "target", str "TGT")
    ∷ (str "intel", str "INTC")
    ∷ (str "amd", str "AMD")
    ∷ (str "ibm", str "IBM")
    ∷ (str "oracle", str "ORCL")
    ∷ (str "salesforce", str "CRM")
    ∷ (str "uber", str "UBER")
    ∷ (str "airbnb", str "ABNB")
    ∷ (str "paypal", str "PYPL")
    ∷ (str "visa", str "V")
    ∷ (str "mastercard", str "MA")
    ∷ (str "coinbase", str "COIN")
    ∷ (str "robinhood", str "HOOD")
    ∷ (str "gamestop", str "GME")
    ∷ (str "amc", str "AMC")
    ∷ (str "ford", str "F")
    ∷ (str "gm", str "GM")
    ∷ (str "pfizer", str "PFE")
    ∷ (str "moderna", str "MRNA")
    ∷ (str "berkshire", str "BRK.B")
    ∷ (str "jpmorgan", str "JPM")
    ∷ (str "goldman", str "GS")
    ∷ (str "spy", str "SPY")
    ∷ (str "qqq", str "QQQ")
    ∷ []

-- `resolveSymbol`
unfoldable pub resolve_symbol : Str → Str
resolve_symbol tok = elim (lookup (to_lower (trim_space tok)) company_aliases) [
  | none ↦ to_upper (trim_space tok)
  | some t ↦ t
]

abbrev one_of : Str → List Str → Bool
one_of s [] = false
one_of s (t ∷ ts) = let rest = one_of s ts in if same s t then true else rest

-- `symbolStopwords`
unfoldable pub is_stopword : Str → Bool
is_stopword s = one_of s (str "shares" ∷ str "share" ∷ str "of" ∷ str "with" ∷ str "and" ∷ [])

module _ (fl : Float64) (re : Matchers fl.F) where
  abbrev zero_intent : Kind → Str → Intent fl.F
  zero_intent kind symbol = record {
    kind = kind;
    side = buy_order;
    symbol = symbol;
    qty = zero_decimal;
    notional = zero_decimal;
    take_profit_price = zero_decimal;
    take_profit_pct = fl.lit 0 0;
    stop_loss_price = zero_decimal;
    stop_loss_pct = fl.lit 0 0;
  }

  -- A clause of an exit: a price, a percentage and the text without it; `none` is an unreadable
  -- number.
  unfoldable pub exit_clause : Option (Str × Bool × Str) → Str → Option (Decimal × fl.F × Str)
  exit_clause none text = some (zero_decimal, fl.lit 0 0, text)
  exit_clause (some (digits, percent, rest)) text = elim (re.parse_num digits) [
    | none ↦ none
    | some v ↦
        some (if percent then (zero_decimal, v, rest) else (from_float fl v 4, fl.lit 0 0, rest))
  ]

  -- The quantity and the amount.
  pub data Sizes : Type 0 where
    unsized : ParseError → Sizes
    sized : Decimal → Decimal → Sizes

  unfoldable pub sizes_of : Str → Sizes
  sizes_of work = elim (re.notional_re work) [
    | some digits ↦ elim (re.parse_num digits) [
      | none ↦ unsized bad_amount
      | some v ↦ sized zero_decimal (from_float fl v 2)
    ]
    | none ↦ elim (re.share_qty_re work) [
      | some digits ↦ elim (re.parse_num digits) [
        | none ↦ unsized bad_shares
        | some v ↦ sized (from_float fl v 6) zero_decimal
      ]
      | none ↦ elim (re.bare_qty_re work) [
        | some digits ↦ elim (re.parse_num digits) [
          | none ↦ unsized bad_quantity
          | some v ↦ sized (from_float fl v 6) zero_decimal
        ]
        | none ↦ unsized no_quantity
      ]
    ]
  ]

  -- The end of `Parse`: the side's check and the symbol.
  unfoldable pub finish_order :
      OrderSide → Decimal → fl.F → Decimal → fl.F → Str → Decimal → Decimal → Parsed fl.F
  unfolding is_stopword resolve_symbol
  finish_order side tp_price tp_pct sl_price sl_pct work qty notional =
      let by_amount : Bool = elim side [
        | buy_order ↦ false
        | sell_order ↦ not (is_zero notional)
      ] in
      if by_amount then refused sell_by_amount else elim (re.symbol_re work) [
        | none ↦ refused no_symbol
        | some tok ↦
            if is_stopword (to_lower tok)
            then refused no_symbol
            else intended (record {
              kind = order_kind;
              side = side;
              symbol = resolve_symbol tok;
              qty = qty;
              notional = notional;
              take_profit_price = tp_price;
              take_profit_pct = tp_pct;
              stop_loss_price = sl_price;
              stop_loss_pct = sl_pct;
            })
      ]

  -- `Parse` once the side is known.
  unfoldable pub parse_order : OrderSide → Str → Parsed fl.F
  unfolding exit_clause sizes_of finish_order
  parse_order side text = elim (exit_clause (re.tp_re text) text) [
    | none ↦ refused bad_take_profit
    | some (tp_price, tp_pct, work1) ↦ elim (exit_clause (re.sl_re work1) work1) [
      | none ↦ refused bad_stop_loss
      | some (sl_price, sl_pct, work) ↦ elim (sizes_of work) [
        | unsized e ↦ refused e
        | sized qty notional ↦ finish_order side tp_price tp_pct sl_price sl_pct work qty notional
      ]
    ]
  ]

  -- The texts that are commands by themselves.
  unfoldable pub plain_command : Str → Option Kind
  plain_command lower =
      if one_of lower (str "/start" ∷ str "help" ∷ str "/help" ∷ [])
      then some help_kind
      else if one_of lower (str "positions" ∷ str "/positions" ∷ str "position" ∷ [])
      then some positions_kind
      else if one_of lower (str "status" ∷ str "/status" ∷ str "balance" ∷ str "account" ∷ [])
      then some status_kind
      else none

  -- `Parse`
  unfoldable pub parse : Str → Parsed fl.F
  unfolding plain_command parse_order resolve_symbol
  parse raw =
      let text = trim_space raw in
      if is_blank text then refused empty_message else elim (plain_command (to_lower text)) [
        | some kind ↦ intended (zero_intent kind [])
        | none ↦ elim (re.price_re text) [
          | some tok ↦ intended (zero_intent quote_kind (resolve_symbol tok))
          | none ↦ elim (re.close_re text) [
            | some tok ↦ intended (zero_intent close_kind (resolve_symbol tok))
            | none ↦
                if re.buy_re text
                then parse_order buy_order text
                else if re.sell_re text
                then parse_order sell_order text
                else refused not_understood
          ]
        ]
      ]
