-- ===== src/EquityTrader/LongOnly.antt =====
-- The orders of internal/equitytrader/engine.go and the positions that they leave.
use real_time_market_data_pi.Base.{
  ◌≡◌, refl, sym, ap, subst, ◌∙◌, inl, inr, Bool, true, false, Bool-cases, Option, none, some,
  Option-cases, List, [], ◌∷◌, ◌++◌, if◌then◌else◌, same, list_eq, nat_eq, list_beq_iff,
}
use real_time_market_data_pi.Base.Assoc.{insert, erase, lookup-insert, lookup-erase}
use real_time_market_data_pi.Base.Bytes.{Str}
use real_time_market_data_pi.Broker.{buy_order, sell_order}
use real_time_market_data_pi.Decimal.{Decimal, zero_decimal, is_zero}
use real_time_market_data_pi.Equity.{EquityOrder, PositionInfo, Trader}
use real_time_market_data_pi.EquityTrader.{
  Engine, Event, cancelled, poll_time, eval_time, is_held, qty_of, poll_symbol, poll_all, poll,
  place, buy_with, buy_signal, sell_with, sell_signal, act, act_all, evaluate, loop,
}
use real_time_market_data_pi.Float.{Float64, float, from_float, clamp01}
use real_time_market_data_pi.Strategy.{Action, hold, buy, sell, Signal}

-- A trader that also writes down the orders that are filled.
abbrev pub logged : {F W : Type 0} → Trader F W → Trader F (W × List EquityOrder)
logged tr = record {
  name = tr.name;
  place_equity_order = λ o v.
      let (a, w) = tr.place_equity_order o v.0 in
      (a, (w, elim a [ none ↦ v.1 | some _ ↦ v.1 ++ (o ∷ []) ]));
  quote = λ s v. let (a, w) = tr.quote s v.0 in (a, (w, v.1));
  account_summary = λ v. let (a, w) = tr.account_summary v.0 in (a, (w, v.1));
  positions = λ v. let (a, w) = tr.positions v.0 in (a, (w, v.1));
  now = λ v. let (a, w) = tr.now v.0 in (a, (w, v.1));
  random_id = λ v. let (a, w) = tr.random_id v.0 in (a, (w, v.1));
}

abbrev opens : EquityOrder → Bool
opens o = elim o.side [ buy_order ↦ true | sell_order ↦ false ]

abbrev holding : Str → Bool → EquityOrder → Bool
holding id h o = if same o.symbol id then opens o else h

abbrev pub held_after : Str → List EquityOrder → Bool → Bool
held_after id [] h = h
held_after id (o ∷ os) h = held_after id os (holding id h o)

held_after-snoc :
    (id : Str) (os : List EquityOrder) (o : EquityOrder) (h : Bool)
    → held_after id (os ++ (o ∷ [])) h ≡ holding id (held_after id os h) o
held_after-snoc id [] o h = refl
held_after-snoc id (p ∷ os) o h = held_after-snoc id os o (holding id h p)

-- A buy by an amount that is not zero or less, rounded to cents, and by no quantity; a sell only
-- of what is held, by a quantity that is not zero.
abbrev IsLegal : (fl : Float64) → Bool → EquityOrder → Type 0
IsLegal fl h o = elim o.side [
  | buy_order ↦
      (is_zero o.qty ≡ true)
      × (amount : fl.F) × (fl.le amount (fl.lit 0 0) ≡ false)
      × (o.notional ≡ from_float fl amount 2)
  | sell_order ↦ (h ≡ true) × (is_zero o.qty ≡ false) × (is_zero o.notional ≡ true)
]

abbrev pub IsLongOnly : (fl : Float64) → Str → List EquityOrder → Bool → Type 0
IsLongOnly fl id [] h = Unit
IsLongOnly fl id (o ∷ os) h =
    (same o.symbol id ≡ true → IsLegal fl h o) × IsLongOnly fl id os (holding id h o)

IsLongOnly-snoc :
    (fl : Float64) (id : Str) (os : List EquityOrder) (o : EquityOrder) (h : Bool)
    → IsLongOnly fl id os h
    → (same o.symbol id ≡ true → IsLegal fl (held_after id os h) o)
    → IsLongOnly fl id (os ++ (o ∷ [])) h
IsLongOnly-snoc fl id [] o h a l = (l, tt)
IsLongOnly-snoc fl id (p ∷ os) o h a l = (a.0, IsLongOnly-snoc fl id os o (holding id h p) a.1 l)

zero_quantity : is_zero zero_decimal ≡ true
unfolding is_zero
zero_quantity = refl

module _ (fl : Float64) {W : Type 0} (tr : Trader fl.F W) (start : Str → Bool) where
  -- The engine holds a symbol only where the filled orders leave it held, and these are long only.
  abbrev pub IsTracked : Engine fl.F × (W × List EquityOrder) → Type 0
  IsTracked (e, v) =
      (id : Str)
      → (is_held id e.held ≡ true → held_after id v.1 (start id) ≡ true)
        × IsLongOnly fl id v.1 (start id)

  held-insert :
      (id sym : Str) (b : Bool) (e : Engine fl.F)
      → is_held id (insert sym b e.held) ≡ (if same sym id then b else is_held id e.held)
  unfolding is_held
  held-insert id sym b e =
      ap (λ m. elim m [ none ↦ false | some c ↦ c ]) (lookup-insert sym id b e.held)
      ∙ elim (Bool-cases (same sym id)) [ inl q ↦ rw q refl | inr q ↦ rw q refl ]

  held-erase :
      (id sym : Str) (e : Engine fl.F)
      → is_held id (erase sym e.held) ≡ (if same sym id then false else is_held id e.held)
  unfolding is_held
  held-erase id sym e =
      ap (λ m. elim m [ none ↦ false | some c ↦ c ]) (lookup-erase sym id e.held)
      ∙ elim (Bool-cases (same sym id)) [ inl q ↦ rw q refl | inr q ↦ rw q refl ]

  place-IsTracked :
      (o : EquityOrder) (e : Engine fl.F) (v : W × List EquityOrder)
      → IsLegal fl (held_after o.symbol v.1 (start o.symbol)) o
      → IsTracked (e, v)
      → IsTracked (place fl (logged tr) o (opens o) e v)
  unfolding place
  place-IsTracked o e v legal t id = elim (Option-cases (tr.place_equity_order o v.0).0) [
    | inl failed ↦ rw (place, failed) (t id)
    | inr (f, done) ↦
        rw (place, done)
          (
            λ h.
                held_after-snoc id v.1 o (start id)
                ∙ after (same o.symbol id) (held_after id v.1 (start id))
                    (sym (held-insert id o.symbol (opens o) e) ∙ h),
            IsLongOnly-snoc fl id v.1 o (start id) (t id).1 (λ q.
                subst (λ i. IsLegal fl (held_after i v.1 (start i)) o)
                  ((list_beq_iff o.symbol id).0 q) legal),
          )
  ]
    where
      after :
          (b h : Bool)
          → (if b then opens o else is_held id e.held) ≡ true
          → (if b then opens o else held_after id v.1 (start id)) ≡ true
      after true h q = q
      after false h q = (t id).0 q

  erase-IsTracked :
      (sym_id : Str) (e : Engine fl.F) (v : W × List EquityOrder)
      → IsTracked (e, v)
      → IsTracked (record e { held = erase sym_id e.held }, v)
  erase-IsTracked sym_id e v t id =
      (λ h. (t id).0 (still (same sym_id id) (sym (held-erase id sym_id e) ∙ h)), (t id).1)
    where
      still :
          (b : Bool) → (if b then false else is_held id e.held) ≡ true → is_held id e.held ≡ true
      still true q = cc
      still false q = q

  buy_with-IsTracked :
      (sig : Signal fl.F) (value : Decimal) (e : Engine fl.F) (v : W × List EquityOrder)
      → IsTracked (e, v)
      → IsTracked (buy_with fl (logged tr) sig value e v)
  unfolding buy_with
  buy_with-IsTracked sig value e v t =
      let equity = float fl value in
      let notional =
        fl.times (fl.times equity e.cfg.max_position_fraction) (clamp01 fl sig.strength) in
      elim (Bool-cases (fl.le equity (fl.lit 0 0))) [
        | inl q ↦ rw q t
        | inr q ↦ elim (Bool-cases (fl.le notional (fl.lit 0 0))) [
          | inl r ↦ rw (q, r) t
          | inr r ↦
              rw (q, r)
                (place-IsTracked _ e ((tr.random_id v.0).1, v.1) (zero_quantity, notional, r, refl)
                  t)
        ]
      ]

  sell_with-IsTracked :
      (sig : Signal fl.F) (ps : List (PositionInfo fl.F)) (e : Engine fl.F)
      (v : W × List EquityOrder)
      → is_held sig.instrument e.held ≡ true
      → IsTracked (e, v)
      → IsTracked (sell_with fl (logged tr) sig ps e v)
  unfolding sell_with
  sell_with-IsTracked sig ps e v held t =
      elim (Bool-cases (is_zero (qty_of sig.instrument ps zero_decimal))) [
        | inl q ↦ rw q (erase-IsTracked sig.instrument e v t)
        | inr q ↦ rw q (
            place-IsTracked _ e ((tr.random_id v.0).1, v.1)
              ((t sig.instrument).0 held, q, zero_quantity) t)
      ]

  buy-IsTracked :
      (sig : Signal fl.F) (e : Engine fl.F) (v : W × List EquityOrder)
      → IsTracked (e, v)
      → IsTracked (buy_signal fl (logged tr) sig e v)
  unfolding buy_signal
  buy-IsTracked sig e v t = elim (Bool-cases (is_held sig.instrument e.held)) [
    | inl held ↦ rw held t
    | inr free ↦ elim (Option-cases (tr.account_summary v.0).0) [
      | inl failed ↦ rw (free, failed) t
      | inr (s, read) ↦
          rw (free, read)
            (buy_with-IsTracked sig s.portfolio_value e ((tr.account_summary v.0).1, v.1) t)
    ]
  ]

  sell-IsTracked :
      (sig : Signal fl.F) (e : Engine fl.F) (v : W × List EquityOrder)
      → IsTracked (e, v)
      → IsTracked (sell_signal fl (logged tr) sig e v)
  unfolding sell_signal
  sell-IsTracked sig e v t = elim (Bool-cases (is_held sig.instrument e.held)) [
    | inr free ↦ rw free t
    | inl held ↦ elim (Option-cases (tr.positions v.0).0) [
      | inl failed ↦ rw (held, failed) t
      | inr (ps, read) ↦
          rw (held, read) (sell_with-IsTracked sig ps e ((tr.positions v.0).1, v.1) held t)
    ]
  ]

  act-IsTracked :
      (action : Action) (sig : Signal fl.F) (e : Engine fl.F) (v : W × List EquityOrder)
      → sig.action ≡ action
      → IsTracked (e, v)
      → IsTracked (act fl (logged tr) sig e v)
  unfolding act
  act-IsTracked hold sig e v q t = rw q t
  act-IsTracked buy sig e v q t = rw q (buy-IsTracked sig e v t)
  act-IsTracked sell sig e v q t = rw q (sell-IsTracked sig e v t)

  act_all-IsTracked :
      (sigs : List (Signal fl.F)) (e : Engine fl.F) (v : W × List EquityOrder)
      → IsTracked (e, v)
      → IsTracked (act_all fl (logged tr) sigs e v)
  unfolding act_all
  act_all-IsTracked [] e v t = t
  act_all-IsTracked (s ∷ ss) e v t =
      let next = act fl (logged tr) s e v in
      act_all-IsTracked ss next.0 next.1 (act-IsTracked s.action s e v refl t)

  poll_symbol-IsTracked :
      (id : Str) (e : Engine fl.F) (v : W × List EquityOrder)
      → IsTracked (e, v)
      → IsTracked (poll_symbol fl (logged tr) id e v)
  unfolding poll_symbol
  poll_symbol-IsTracked id e v t = elim (Option-cases (tr.quote id v.0).0) [
    | inl failed ↦ rw (poll_symbol, failed) t
    | inr (price, read) ↦ elim (Bool-cases (is_zero price)) [
      | inl q ↦ rw (poll_symbol, read, q) t
      | inr q ↦ rw (poll_symbol, read, q) t
    ]
  ]

  poll_all-IsTracked :
      (ids : List Str) (e : Engine fl.F) (v : W × List EquityOrder)
      → IsTracked (e, v)
      → IsTracked (poll_all fl (logged tr) ids e v)
  unfolding poll_all
  poll_all-IsTracked [] e v t = t
  poll_all-IsTracked (id ∷ ids) e v t =
      let next = poll_symbol fl (logged tr) id e v in
      poll_all-IsTracked ids next.0 next.1 (poll_symbol-IsTracked id e v t)

  module _ (strat : Engine fl.F → W × List EquityOrder → Option (List (Signal fl.F)) × W) where
    -- The strategy sees the outside, and leaves the orders as they are.
    abbrev pub outside :
        Engine fl.F → W × List EquityOrder → Option (List (Signal fl.F)) × (W × List EquityOrder)
    outside e v = let (a, w) = strat e v in (a, (w, v.1))

    evaluate-IsTracked :
        (e : Engine fl.F) (v : W × List EquityOrder)
        → IsTracked (e, v)
        → IsTracked (evaluate fl (logged tr) outside e v)
    unfolding evaluate
    evaluate-IsTracked e v t = elim (Option-cases (strat e v).0) [
      | inl failed ↦ rw (evaluate, failed) t
      | inr (sigs, got) ↦ rw (evaluate, got) (act_all-IsTracked sigs e ((strat e v).1, v.1) t)
    ]

    loop-IsTracked :
        (es : List Event) (e : Engine fl.F) (v : W × List EquityOrder)
        → IsTracked (e, v)
        → IsTracked (loop fl (logged tr) outside es e v)
    unfolding loop poll
    loop-IsTracked [] e v t = t
    loop-IsTracked (cancelled ∷ es) e v t = t
    loop-IsTracked (poll_time ∷ es) e v t =
        let next = poll fl (logged tr) e v in
        loop-IsTracked es next.0 next.1 (poll_all-IsTracked e.cfg.symbols e v t)
    loop-IsTracked (eval_time ∷ es) e v t =
        let next = evaluate fl (logged tr) outside e v in
        loop-IsTracked es next.0 next.1 (evaluate-IsTracked e v t)

-- Whatever the broker answers and the strategy signals, among the orders that are filled during
-- the loop a symbol is sold only while it was held at the start or bought since, and not sold
-- since, by a quantity that is not zero and by no amount, and bought only by no quantity and by an
-- amount that was not zero or less before it was rounded to cents; the engine holds only what
-- these orders leave held.
pub loop_long_only :
    (fl : Float64) {W : Type 0} (tr : Trader fl.F W)
    (strat : Engine fl.F → W × List EquityOrder → Option (List (Signal fl.F)) × W) (es : List Event)
    (e : Engine fl.F) (w : W)
    → IsTracked fl tr
        (λ id. is_held id e.held)
        (loop fl (logged tr) (outside fl tr (λ id. is_held id e.held) strat) es e (w, []))
loop_long_only fl tr strat es e w =
    loop-IsTracked fl tr (λ id. is_held id e.held) strat es e (w, []) (λ id. (λ h. h, tt))
