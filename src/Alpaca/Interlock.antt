-- ===== src/Alpaca/Interlock.antt =====
-- The checks of internal/broker/alpaca before anything is sent.
use real_time_market_data_pi.Base.{
  ◌≡◌, ◌⊎◌, refl, sym, ap, ◌∙◌, inl, inr, Bool, true, false, ◌||◌, not, Bool-cases, Option, none,
  some, same, list_eq, nat_eq, if◌then◌else◌,
}
use real_time_market_data_pi.Base.Bytes.{Str}
use real_time_market_data_pi.Base.Text.{to_lower, to_upper, trim_space}
use real_time_market_data_pi.Decimal.{is_zero}
use real_time_market_data_pi.Equity.{EquityOrder}
use real_time_market_data_pi.Store.{is_blank}
use real_time_market_data_pi.Alpaca.{
  Refusal, live_not_allowed, unrecognized_host, paper_host, live_host, is_loopback, SdkDecimals,
}
use real_time_market_data_pi.Alpaca.Orders.{Request, equity_request}

-- The endpoints that a client may have: the broker's paper host, the local machine, and with the
-- consent to real money the broker's live host.
abbrev pub IsPermitted : Bool → Str → Type 0
IsPermitted allow_live name =
    (same (to_lower name) paper_host ≡ true)
    ⊎ ((is_loopback (to_lower name) ≡ true)
        ⊎ ((allow_live ≡ true) × (same (to_lower name) live_host ≡ true)))

abbrev verdict : Str → Bool → Option Refusal
verdict host allow_live =
    if same host paper_host
    then none
    else if is_loopback host
    then none
    else if not allow_live
    then some live_not_allowed
    else if not (same host live_host)
    then some unrecognized_host
    else none

-- Whether there is one.
abbrev pub given : {A : Type 0} → Option A → Bool
given none = false
given (some _) = true

module _ {S : Type 0} (dec : SdkDecimals S) where
  -- An order and what is sent of it: a request with its symbol, trimmed and in upper case, and
  -- with a quantity or an amount; or nothing, where the order has no symbol, both or neither of
  -- them, or an exit with an amount.
  abbrev pub IsChecked : EquityOrder → Option (Request S) → Type 0
  IsChecked o (some r) =
      (given r.qty ≡ not (given r.notional))
      × (r.symbol ≡ to_upper (trim_space o.symbol))
      × (is_blank o.symbol ≡ false)
      × (given r.qty ≡ not (is_zero o.qty))
      × (r.bracket ≡ true → given r.qty ≡ true)
  IsChecked o none =
      (is_blank o.symbol ≡ true)
      ⊎ ((is_zero o.qty ≡ is_zero o.notional)
          ⊎ ((is_zero o.notional ≡ false)
              × ((not (is_zero o.take_profit) || not (is_zero o.stop_loss)) ≡ true)))

  -- An order of PlaceEquityOrder that reaches the broker was given with a symbol that is not
  -- empty, and is sent with this symbol, trimmed and in upper case, which is empty where it is
  -- only spaces; it has either a quantity or an amount, never both, and with an exit a quantity;
  -- an order of which nothing is sent has no symbol, or both or neither of the two, or an exit
  -- with an amount.
  pub equity_request-IsChecked : (o : EquityOrder) → IsChecked o (equity_request dec o)
  unfolding equity_request
  equity_request-IsChecked o = elim (Bool-cases (is_blank o.symbol)) [
    | inl b ↦ rw (equity_request, b) (inl b)
    | inr b ↦ elim (Bool-cases (is_zero o.qty)) [
      | inl q ↦ elim (Bool-cases (is_zero o.notional)) [
        | inl n ↦ rw (equity_request, b, q, n) (inr (inl (q ∙ sym n)))
        | inr n ↦ elim (Bool-cases (not (is_zero o.take_profit) || not (is_zero o.stop_loss))) [
          | inl x ↦ rw (equity_request, b, q, n, x) (inr (inr (n, x)))
          | inr x ↦ rw (equity_request, b, q, n, x) (refl, refl, b, sym (ap not q), λ h. cc)
        ]
      ]
      | inr q ↦ elim (Bool-cases (is_zero o.notional)) [
        | inl n ↦ rw (equity_request, b, q, n) (refl, refl, b, sym (ap not q), λ h. refl)
        | inr n ↦ rw (equity_request, b, q, n) (inr (inl (q ∙ sym n)))
      ]
    ]
  ]
