-- ===== src/Paper/Engine/Prices.antt =====
-- `evaluate` of internal/consumer/paper/engine.go, on the prices of its fills.
use real_time_market_data_pi.Base.{
  ◌≡◌, refl, subst, inl, inr, Bool, true, false, some, Option-cases, List, [], ◌∷◌, list_eq, nat_eq,
  All,
}
use real_time_market_data_pi.Base.Assoc.{lookup}
use real_time_market_data_pi.Float.{Float64}
use real_time_market_data_pi.Paper.Trade.{apply}
use real_time_market_data_pi.Paper.Replay.{Step, signal, prices, restart, step, steps}
use real_time_market_data_pi.Paper.Engine.{
  Engine, World, await_fill, fill_signal, fill_all, evaluate, last_tick,
}
use real_time_market_data_pi.Strategy.{Signal, Action, hold, buy, sell}
use real_time_market_data_pi.Tick.{Tick}

module _ (fl : Float64) {B W : Type 0} (os : World fl.F B W) where
  -- A signal applied at the last price that the engine has for its instrument.
  abbrev pub IsSeen : Engine fl.F → Step fl.F → Type 0
  IsSeen e (signal sig ref_price now) =
      (t : Tick) × (lookup sig.instrument e.last ≡ some t) × (ref_price ≡ t.price)
  IsSeen e (prices ps) = ⊥
  IsSeen e (restart cfg) = ⊥

  -- The second engine is the first after some signals, each at a price that the first has.
  pub record IsFilled (e e' : Engine fl.F) : Type 0 where
    pub fills : List (Step fl.F)
    pub account : e'.acct ≡ steps fl fills e.acct
    pub seen : All (IsSeen e) fills
    pub same_view : e'.last ≡ e.last

  nothing-IsFilled : (e : Engine fl.F) → IsFilled e e
  unfolding steps
  nothing-IsFilled e = record { fills = []; account = refl; seen = tt; same_view = refl }

  then-IsFilled :
      (sig : Signal fl.F) (e e' : Engine fl.F) (w : W)
      → IsFilled (fill_signal fl os sig e w).0 e'
      → IsFilled e e'
  unfolding fill_signal last_tick steps step
  then-IsFilled sig e e' w h = elim (Option-cases (lookup sig.instrument e.last)) [
    | inl q ↦
        let stays : fill_signal fl os sig e w ≡ (e, w) = rw (fill_signal, q) refl in
        subst (λ (p : Engine fl.F × W). IsFilled p.0 e') stays h
    | inr (t, q) ↦
        let now = (os.now w).0 in
        let e1 : Engine fl.F = record e { acct = (apply fl sig t.price now e.acct).1 } in
        let done : fill_signal fl os sig e w ≡ (e1, (os.now w).1) = rw (fill_signal, q) refl in
        let h1 = subst (λ (p : Engine fl.F × W). IsFilled p.0 e') done h in
        record {
          fills = signal sig t.price now ∷ h1.fills;
          account = h1.account;
          seen = ((t, q, refl), h1.seen);
          same_view = h1.same_view;
        }
  ]

  abbrev Filled : Engine fl.F → Engine fl.F × W → Type 0
  Filled e p = IsFilled e p.0

  choose-IsFilled :
      (e : Engine fl.F) (act : Action) (stopped : Bool) (held waited filled : Engine fl.F × W)
      → Filled e held
      → Filled e waited
      → Filled e filled
      → Filled e (elim act [ hold ↦ held | _ ↦ elim stopped [ true ↦ waited | false ↦ filled ] ])
  choose-IsFilled e hold stopped held waited filled a b c = a
  choose-IsFilled e buy true held waited filled a b c = b
  choose-IsFilled e buy false held waited filled a b c = c
  choose-IsFilled e sell true held waited filled a b c = b
  choose-IsFilled e sell false held waited filled a b c = c

  fill_all-IsFilled :
      (sigs : List (Signal fl.F)) (e : Engine fl.F) (w : W) → IsFilled e (fill_all fl os sigs e w).0
  unfolding fill_all
  fill_all-IsFilled [] e w = nothing-IsFilled e
  fill_all-IsFilled (sig ∷ sigs) e w =
      let (stopped, w1) = await_fill fl os e w in
      let (e', w2) = fill_signal fl os sig e w1 in
      choose-IsFilled e sig.action stopped _ (e, w1) _ (fill_all-IsFilled sigs e w)
        (nothing-IsFilled e) (then-IsFilled sig e _ w1 (fill_all-IsFilled sigs e' w2))

  -- Whatever the latency of the fills is, an evaluation applies signals to the account at the very
  -- prices that the strategy had at hand, and takes no tick in between.
  pub evaluate-IsFilled : (e : Engine fl.F) (w : W) → IsFilled e (evaluate fl os e w).0
  unfolding evaluate
  evaluate-IsFilled e w = elim (Option-cases (os.evaluate e w).0) [
    | inl h ↦ rw (evaluate, h) (nothing-IsFilled e)
    | inr (sigs, h) ↦ rw (evaluate, h) (fill_all-IsFilled sigs e (os.evaluate e w).1)
  ]
