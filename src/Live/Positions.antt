-- ===== src/Live/Positions.antt =====
-- The orders of internal/consumer/live/engine.go and the positions that the engine holds.
use real_time_market_data_pi.Base.{
  ◌≡◌, refl, sym, ap, subst, ◌∙◌, inl, inr, Bool, true, false, ◌||◌, Bool-cases, Option, none, some,
  Option-cases, List, [], ◌∷◌, ◌++◌, if◌then◌else◌, same, list_eq, nat_eq, list_beq_iff,
}
use real_time_market_data_pi.Base.Bytes.{Str}
use real_time_market_data_pi.Base.Assoc.{insert, lookup-insert}
use real_time_market_data_pi.Broker.{Broker, Order, buy_order, sell_order, Balance}
use real_time_market_data_pi.Decimal.{zero_decimal, is_zero}
use real_time_market_data_pi.Float.{Float64, float, from_float, clamp01}
use real_time_market_data_pi.Strategy.{Action, hold, buy, sell, Signal}
use real_time_market_data_pi.Live.{
  Engine, is_held, is_buy, total_usd, free_of, see_tick, Event, cancelled, unsubscribed, evaluation,
  new_tick,
}
use real_time_market_data_pi.Live.Trade.{
  submit, buy_with, buy_signal, sell_with, sell_signal, apply, apply_all, evaluate, loop,
}

-- A broker that also writes down the orders that it accepts.
abbrev pub logged : {W : Type 0} → Broker W → Broker (W × List Order)
logged br = record {
  ping = λ v. let (a, w) = br.ping v.0 in (a, (w, v.1));
  balances = λ v. let (a, w) = br.balances v.0 in (a, (w, v.1));
  submit = λ o v.
      let (a, w) = br.submit o v.0 in (a, (w, elim a [ none ↦ v.1 | some _ ↦ v.1 ++ (o ∷ []) ]));
  random_id = λ v. let (a, w) = br.random_id v.0 in (a, (w, v.1));
}

-- Whether an instrument is held after an order.
abbrev holding : Str → Bool → Order → Bool
holding id h o = if same o.instrument id then is_buy o.side else h

abbrev pub held_after : Str → List Order → Bool → Bool
held_after id [] h = h
held_after id (o ∷ os) h = held_after id os (holding id h o)

held_after-snoc :
    (id : Str) (os : List Order) (o : Order) (h : Bool)
    → held_after id (os ++ (o ∷ [])) h ≡ holding id (held_after id os h) o
held_after-snoc id [] o h = refl
held_after-snoc id (p ∷ os) o h = held_after-snoc id os o (holding id h p)

-- A buy only of what is not held, by an amount that is not zero or less and no quantity, and a
-- sell only of what is held, by quantity.
abbrev IsLegal : (fl : Float64) → Bool → Order → Type 0
IsLegal fl h o = elim o.side [
  | buy_order ↦
      (h ≡ false)
      × (fl.le (float fl o.quote_amount) (fl.lit 0 0) ≡ false)
      × (is_zero o.quantity ≡ true)
  | sell_order ↦ (h ≡ true) × (is_zero o.quantity ≡ false) × (is_zero o.quote_amount ≡ true)
]

abbrev pub IsOrderly : (fl : Float64) → Str → List Order → Bool → Type 0
IsOrderly fl id [] h = Unit
IsOrderly fl id (o ∷ os) h =
    (same o.instrument id ≡ true → IsLegal fl h o) × IsOrderly fl id os (holding id h o)

IsOrderly-snoc :
    (fl : Float64) (id : Str) (os : List Order) (o : Order) (h : Bool)
    → IsOrderly fl id os h
    → (same o.instrument id ≡ true → IsLegal fl (held_after id os h) o)
    → IsOrderly fl id (os ++ (o ∷ [])) h
IsOrderly-snoc fl id [] o h a l = (l, tt)
IsOrderly-snoc fl id (p ∷ os) o h a l = (a.0, IsOrderly-snoc fl id os o (holding id h p) a.1 l)

or_right : (a b : Bool) → (a || b) ≡ false → b ≡ false
or_right true b h = cc
or_right false b h = h

zero_quantity : is_zero zero_decimal ≡ true
unfolding is_zero
zero_quantity = refl

module _ (fl : Float64) {W : Type 0} (br : Broker W) (start : Str → Bool) where
  -- The engine's flags are those that the accepted orders leave, which are orderly.
  abbrev pub IsTracked : Engine fl.F × (W × List Order) → Type 0
  IsTracked (e, v) =
      (id : Str)
      → (is_held id e.held ≡ held_after id v.1 (start id)) × IsOrderly fl id v.1 (start id)

  submit-IsTracked :
      (o : Order) (e : Engine fl.F) (v : W × List Order)
      → IsLegal fl (is_held o.instrument e.held) o
      → IsTracked (e, v)
      → IsTracked (submit fl (logged br) o e v)
  unfolding submit is_held
  submit-IsTracked o e v legal t id = elim (Option-cases (br.submit o v.0).0) [
    | inl failed ↦ rw (submit, failed) (t id)
    | inr (f, done) ↦
        rw (submit, done)
          (
            held-insert
                ∙ ap (λ h. holding id h o) (t id).0
                ∙ sym (held_after-snoc id v.1 o (start id)),
            IsOrderly-snoc fl id v.1 o (start id) (t id).1 (λ q.
                let at : o.instrument ≡ id = (list_beq_iff o.instrument id).0 q in
                subst (λ h. IsLegal fl h o) (ap (λ i. is_held i e.held) at ∙ (t id).0) legal),
          )
  ]
    where
      held-insert :
          is_held id (insert o.instrument (is_buy o.side) e.held) ≡ holding id (is_held id e.held) o
      held-insert =
          ap (λ m. elim m [ none ↦ false | some b ↦ b ])
            (lookup-insert o.instrument id (is_buy o.side) e.held)
          ∙ elim (Bool-cases (same o.instrument id)) [ inl q ↦ rw q refl | inr q ↦ rw q refl ]

  buy_with-IsTracked :
      (sig : Signal fl.F) (bs : List Balance) (e : Engine fl.F) (v : W × List Order)
      → is_held sig.instrument e.held ≡ false
      → IsTracked (e, v)
      → IsTracked (buy_with fl (logged br) sig bs e v)
  unfolding buy_with
  buy_with-IsTracked sig bs e v free t =
      let notional =
        from_float fl
          (fl.times (fl.times (float fl (total_usd bs)) e.cfg.max_position_fraction)
            (clamp01 fl sig.strength))
          2 in
      elim (Bool-cases (is_zero (total_usd bs) || fl.le (float fl notional) (fl.lit 0 0))) [
        | inl q ↦ rw q t
        | inr q ↦ rw q (
            submit-IsTracked _ e ((br.random_id v.0).1, v.1) (free, or_right _ _ q, zero_quantity)
              t)
      ]

  sell_with-IsTracked :
      (sig : Signal fl.F) (bs : List Balance) (e : Engine fl.F) (v : W × List Order)
      → is_held sig.instrument e.held ≡ true
      → IsTracked (e, v)
      → IsTracked (sell_with fl (logged br) sig bs e v)
  unfolding sell_with
  sell_with-IsTracked sig bs e v held t =
      elim (Bool-cases (is_zero (free_of sig.instrument bs zero_decimal))) [
        | inl q ↦ rw q t
        | inr q ↦ rw q (submit-IsTracked _ e ((br.random_id v.0).1, v.1) (held, q, zero_quantity) t)
      ]

  buy-IsTracked :
      (sig : Signal fl.F) (e : Engine fl.F) (v : W × List Order)
      → IsTracked (e, v)
      → IsTracked (buy_signal fl (logged br) sig e v)
  unfolding buy_signal
  buy-IsTracked sig e v t = elim (Bool-cases (is_held sig.instrument e.held)) [
    | inl held ↦ rw held t
    | inr free ↦ elim (Option-cases (br.balances v.0).0) [
      | inl failed ↦ rw (free, failed) t
      | inr (bs, read) ↦
          rw (free, read) (buy_with-IsTracked sig bs e ((br.balances v.0).1, v.1) free t)
    ]
  ]

  sell-IsTracked :
      (sig : Signal fl.F) (e : Engine fl.F) (v : W × List Order)
      → IsTracked (e, v)
      → IsTracked (sell_signal fl (logged br) sig e v)
  unfolding sell_signal
  sell-IsTracked sig e v t = elim (Bool-cases (is_held sig.instrument e.held)) [
    | inr free ↦ rw free t
    | inl held ↦ elim (Option-cases (br.balances v.0).0) [
      | inl failed ↦ rw (held, failed) t
      | inr (bs, read) ↦
          rw (held, read) (sell_with-IsTracked sig bs e ((br.balances v.0).1, v.1) held t)
    ]
  ]

  act-IsTracked :
      (act : Action) (sig : Signal fl.F) (e : Engine fl.F) (v : W × List Order)
      → sig.action ≡ act
      → IsTracked (e, v)
      → IsTracked (apply fl (logged br) sig e v)
  unfolding apply
  act-IsTracked hold sig e v q t = rw q t
  act-IsTracked buy sig e v q t = rw q (buy-IsTracked sig e v t)
  act-IsTracked sell sig e v q t = rw q (sell-IsTracked sig e v t)

  apply_all-IsTracked :
      (sigs : List (Signal fl.F)) (e : Engine fl.F) (v : W × List Order)
      → IsTracked (e, v)
      → IsTracked (apply_all fl (logged br) sigs e v)
  unfolding apply_all
  apply_all-IsTracked [] e v t = t
  apply_all-IsTracked (s ∷ ss) e v t =
      let next = apply fl (logged br) s e v in
      apply_all-IsTracked ss next.0 next.1 (act-IsTracked s.action s e v refl t)

  module _ (strat : Engine fl.F → W × List Order → Option (List (Signal fl.F)) × W) where
    -- The strategy sees the outside, and leaves the orders as they are.
    abbrev pub outside :
        Engine fl.F → W × List Order → Option (List (Signal fl.F)) × (W × List Order)
    outside e v = let (a, w) = strat e v in (a, (w, v.1))

    evaluate-IsTracked :
        (e : Engine fl.F) (v : W × List Order)
        → IsTracked (e, v)
        → IsTracked (evaluate fl (logged br) outside e v)
    unfolding evaluate
    evaluate-IsTracked e v t = elim (Option-cases (strat e v).0) [
      | inl failed ↦ rw (evaluate, failed) t
      | inr (sigs, got) ↦ rw (evaluate, got) (apply_all-IsTracked sigs e ((strat e v).1, v.1) t)
    ]

    loop-IsTracked :
        (es : List Event) (e : Engine fl.F) (v : W × List Order)
        → IsTracked (e, v)
        → IsTracked (loop fl (logged br) outside es e v)
    unfolding loop see_tick
    loop-IsTracked [] e v t = t
    loop-IsTracked (cancelled ∷ es) e v t = t
    loop-IsTracked (unsubscribed ∷ es) e v t = t
    loop-IsTracked (new_tick k ∷ es) e v t = loop-IsTracked es (see_tick k e) v t
    loop-IsTracked (evaluation ∷ es) e v t =
        let next = evaluate fl (logged br) outside e v in
        loop-IsTracked es next.0 next.1 (evaluate-IsTracked e v t)

-- Whatever the broker answers and the strategy signals, among the orders that the broker accepts
-- during the loop an instrument is bought only while the engine does not hold it, by an amount
-- that as a float is not zero or less and by no quantity, and sold only while it does, by a
-- quantity that is not zero and by no amount; the engine holds what the last accepted order of the
-- instrument says.
pub loop_orderly :
    (fl : Float64) {W : Type 0} (br : Broker W)
    (strat : Engine fl.F → W × List Order → Option (List (Signal fl.F)) × W) (es : List Event)
    (e : Engine fl.F) (w : W)
    → IsTracked fl br
        (λ id. is_held id e.held)
        (loop fl (logged br) (outside fl br (λ id. is_held id e.held) strat) es e (w, []))
loop_orderly fl br strat es e w =
    loop-IsTracked fl br (λ id. is_held id e.held) strat es e (w, []) (λ id. (refl, tt))
