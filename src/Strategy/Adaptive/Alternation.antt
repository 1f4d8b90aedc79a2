-- ===== src/Strategy/Adaptive/Alternation.antt =====
-- The signals of internal/strategy/adaptive.go, evaluation after evaluation.
use real_time_market_data_pi.Base.{
  ◌≡◌, refl, sym, ap, subst, ◌∙◌, inl, inr, Bool, true, false, Bool-cases, Option, none, some,
  Option-cases, List, [], ◌∷◌, ◌++◌, if◌then◌else◌, length, ◌⊎◌, same, list_eq, nat_eq,
  list_beq_iff,
}
use real_time_market_data_pi.Base.Assoc.{lookup, insert, erase, lookup-insert, lookup-erase}
use real_time_market_data_pi.Base.Bytes.{Str}
use real_time_market_data_pi.Base.Int.{pos, ◌+ℤ◌, ltb_ℤ}
use real_time_market_data_pi.Candles.{Candle}
use real_time_market_data_pi.Float.{Float64, float}
use real_time_market_data_pi.Strategy.{Action, hold, buy, sell, Signal}
use real_time_market_data_pi.Strategy.Momentum.{Market, without_last, crossed_down}
use real_time_market_data_pi.Strategy.Adaptive.{
  Adaptive, OpenPosition, Arm, Random, arm_at, max_slow, last_candle, new_adaptive, eligible_from,
  evaluate_entry, evaluate_exit, decide, consider, consider_all, evaluate,
}
use real_time_market_data_pi.Tick.{Time}

-- Evaluations one after the other, and all their signals.
unfoldable pub evaluate_all :
    (fl : Float64) {W : Type 0}
    → Random fl.F W
    → (Str → List fl.F → Str)
    → List (Market × Time)
    → Adaptive fl.F
    → W
    → List (Signal fl.F) × Adaptive fl.F × W
evaluate_all fl rng sprintf [] a w = ([], a, w)
evaluate_all fl rng sprintf ((mk, now) ∷ times) a w =
    let (ss, a1, w1) = evaluate fl rng sprintf a mk now w in
    let (rest, a2, w2) = evaluate_all fl rng sprintf times a1 w1 in (ss ++ rest, a2, w2)

-- A buy of what is not open, and a sell of what is.
abbrev IsTurn : Bool → Action → Type 0
IsTurn h hold = ⊥
IsTurn h buy = h ≡ false
IsTurn h sell = h ≡ true

module _ {F : Type 0} where
  abbrev pub is_open : Str → Adaptive F → Bool
  is_open id a = elim (lookup id a.open_positions) [ none ↦ false | some _ ↦ true ]

  -- Whether a position is open after a signal.
  abbrev turned : Str → Bool → Signal F → Bool
  turned id h s = if same s.instrument id then (elim s.action [ buy ↦ true | _ ↦ false ]) else h

  abbrev pub open_after : Str → List (Signal F) → Bool → Bool
  open_after id [] h = h
  open_after id (s ∷ ss) h = open_after id ss (turned id h s)

  abbrev pub IsAlternating : Str → List (Signal F) → Bool → Type 0
  IsAlternating id [] h = Unit
  IsAlternating id (s ∷ ss) h =
      (same s.instrument id ≡ true → IsTurn h s.action) × IsAlternating id ss (turned id h s)

  -- The signals lead from the positions of one state to those of the other.
  pub record Leads (a a' : Adaptive F) (ss : List (Signal F)) : Type 0 where
    pub alternating : (id : Str) → IsAlternating id ss (is_open id a)
    pub opened : (id : Str) → is_open id a' ≡ open_after id ss (is_open id a)

  open_after-append :
      (id : Str) (ss ts : List (Signal F)) (h : Bool)
      → open_after id (ss ++ ts) h ≡ open_after id ts (open_after id ss h)
  open_after-append id [] ts h = refl
  open_after-append id (s ∷ ss) ts h = open_after-append id ss ts (turned id h s)

  append-IsAlternating :
      (id : Str) (ss ts : List (Signal F)) (h : Bool)
      → IsAlternating id ss h
      → IsAlternating id ts (open_after id ss h)
      → IsAlternating id (ss ++ ts) h
  append-IsAlternating id [] ts h l r = r
  append-IsAlternating id (s ∷ ss) ts h l r =
      (l.0, append-IsAlternating id ss ts (turned id h s) l.1 r)

  append-Leads :
      (a b c : Adaptive F) (ss ts : List (Signal F))
      → Leads a b ss
      → Leads b c ts
      → Leads a c (ss ++ ts)
  append-Leads a b c ss ts l r = record {
    alternating = λ id.
        append-IsAlternating id ss ts (is_open id a) (l.alternating id)
          (subst (IsAlternating id ts) (l.opened id) (r.alternating id));
    opened = λ id.
        r.opened id
        ∙ ap (open_after id ts) (l.opened id)
        ∙ sym (open_after-append id ss ts (is_open id a));
  }

  nothing-Leads : (a : Adaptive F) → Leads a a []
  nothing-Leads a = record { alternating = λ id. tt; opened = λ id. refl }

  abbrev given : Option (Signal F) → List (Signal F)
  given none = []
  given (some s) = s ∷ []

  -- A state whose positions are those of another with one opened.
  buy-Leads :
      (a a' : Adaptive F) (s : Signal F) (p : OpenPosition F)
      → s.action ≡ buy
      → lookup s.instrument a.open_positions ≡ none
      → a'.open_positions ≡ insert s.instrument p a.open_positions
      → Leads a a' (s ∷ [])
  buy-Leads a a' s p act free after = record {
    alternating = λ id. (
      λ q. subst (IsTurn (is_open id a)) (sym act) (
          ap (λ i. is_open i a) (sym ((list_beq_iff s.instrument id).0 q))
          ∙ ap (λ o. elim o [ none ↦ false | some _ ↦ true ]) free),
      tt,
    );
    opened = λ id.
        ap (λ m. elim (lookup id m) [ none ↦ false | some _ ↦ true ]) after
        ∙ ap (λ o. elim o [ none ↦ false | some _ ↦ true ])
            (lookup-insert s.instrument id p a.open_positions)
        ∙ elim (Bool-cases (same s.instrument id)) [ inl q ↦ rw (q, act) refl | inr q ↦ rw q refl ];
  }

  sell-Leads :
      (a a' : Adaptive F) (s : Signal F) (p : OpenPosition F)
      → s.action ≡ sell
      → lookup s.instrument a.open_positions ≡ some p
      → a'.open_positions ≡ erase s.instrument a.open_positions
      → Leads a a' (s ∷ [])
  sell-Leads a a' s p act held after = record {
    alternating = λ id. (
      λ q. subst (IsTurn (is_open id a)) (sym act) (
          ap (λ i. is_open i a) (sym ((list_beq_iff s.instrument id).0 q))
          ∙ ap (λ o. elim o [ none ↦ false | some _ ↦ true ]) held),
      tt,
    );
    opened = λ id.
        ap (λ m. elim (lookup id m) [ none ↦ false | some _ ↦ true ]) after
        ∙ ap (λ o. elim o [ none ↦ false | some _ ↦ true ])
            (lookup-erase s.instrument id a.open_positions)
        ∙ elim (Bool-cases (same s.instrument id)) [ inl q ↦ rw (q, act) refl | inr q ↦ rw q refl ];
  }

List-cases {ℓ} : {A : Type ℓ} (xs : List A) → (xs ≡ []) ⊎ ((x : A) × (l : List A) × (xs ≡ x ∷ l))
List-cases [] = inl refl
List-cases (x ∷ l) = inr (x, l, refl)

module _ (fl : Float64) {W : Type 0} (rng : Random fl.F W) (sprintf : Str → List fl.F → Str) where
  -- What is decided of one instrument leads from the state before.
  abbrev Fine : Adaptive fl.F → Option (Signal fl.F) × Adaptive fl.F × W → Type 0
  Fine a r = Leads a r.1 (given r.0)

  entry-Fine :
      (a : Adaptive fl.F) (id : Str) (closed : List Candle) (last : fl.F) (now : Time) (w : W)
      → lookup id a.open_positions ≡ none
      → Fine a (evaluate_entry fl rng sprintf a id closed last now w)
  unfolding evaluate_entry
  entry-Fine a id closed last now w free = elim (List-cases (eligible_from fl 0 a.arms closed)) [
    | inl e ↦ rw (evaluate_entry, e) (nothing-Leads a)
    | inr (first, others, e) ↦ rw (evaluate_entry, e) (buy-Leads a _ _ _ refl free refl)
  ]

  exit-Fine :
      (a : Adaptive fl.F) (id : Str) (p : OpenPosition fl.F) (closed : List Candle) (last : fl.F)
      (now : Time) (w : W)
      → lookup id a.open_positions ≡ some p
      → Fine a (
        (evaluate_exit fl rng sprintf a id p closed last now).0,
        (evaluate_exit fl rng sprintf a id p closed last now).1,
        w,
      )
  unfolding evaluate_exit
  exit-Fine a id p closed last now w held = elim (Option-cases (arm_at a.arms p.arm)) [
    | inl e ↦ rw (evaluate_exit, e) (nothing-Leads a)
    | inr (arm, e) ↦ elim (Bool-cases (ltb_ℤ (pos (length closed)) (arm.slow +ℤ pos 1))) [
      | inl q ↦ rw (evaluate_exit, e, q) (nothing-Leads a)
      | inr q ↦ elim (Bool-cases (crossed_down fl closed arm.fast arm.slow)) [
        | inl c ↦ rw (evaluate_exit, e, q, c) (sell-Leads a _ _ p refl held refl)
        | inr c ↦ rw (evaluate_exit, e, q, c) (nothing-Leads a)
      ]
    ]
  ]

  decide-Fine :
      (a : Adaptive fl.F) (id : Str) (closed : List Candle) (last : fl.F) (now : Time) (w : W)
      → Fine a (decide fl rng sprintf a id closed last now w)
  unfolding decide
  decide-Fine a id closed last now w = elim (Option-cases (lookup id a.open_positions)) [
    | inl e ↦ rw (decide, e) (entry-Fine a id closed last now w e)
    | inr (p, e) ↦ rw (decide, e) (exit-Fine a id p closed last now w e)
  ]

  consider-Fine :
      (a : Adaptive fl.F) (id : Str) (bars : List Candle) (now : Time) (w : W)
      → Fine a (consider fl rng sprintf a id bars now w)
  unfolding consider
  consider-Fine a id bars now w =
      let longest = max_slow a.arms (pos 0) in
      let closed = without_last bars in
      elim (Bool-cases (ltb_ℤ (pos (length bars)) (longest +ℤ pos 2))) [
        | inl q ↦ rw (consider, q) (nothing-Leads a)
        | inr q ↦ elim (Bool-cases (ltb_ℤ (pos (length closed)) (longest +ℤ pos 1))) [
          | inl r ↦ rw (consider, q, r) (nothing-Leads a)
          | inr r ↦ elim (Option-cases (last_candle closed)) [
            | inl e ↦ rw (consider, q, r, e) (nothing-Leads a)
            | inr (b, e) ↦
                rw (consider, q, r, e) (decide-Fine a id closed (float fl b.closing) now w)
          ]
        ]
      ]

  -- All signals of some instruments.
  abbrev AllFine : Adaptive fl.F → List (Signal fl.F) × Adaptive fl.F × W → Type 0
  AllFine a r = Leads a r.1 r.0

  put_first :
      (s : Option (Signal fl.F)) (rest : List (Signal fl.F))
      → given s ++ rest ≡ elim s [ none ↦ rest | some x ↦ x ∷ rest ]
  put_first none rest = refl
  put_first (some x) rest = refl

  consider_all-AllFine :
      (a : Adaptive fl.F) (mk : Market) (ids : List Str) (now : Time) (w : W)
      → AllFine a (consider_all fl rng sprintf a mk ids now w)
  unfolding consider_all
  consider_all-AllFine a mk [] now w = nothing-Leads a
  consider_all-AllFine a mk (id ∷ ids) now w =
      let one =
        consider fl rng sprintf a id (mk.candles id (max_slow a.arms (pos 0) +ℤ pos 5)) now w in
      let rest = consider_all fl rng sprintf one.1 mk ids now one.2 in
      subst (Leads a rest.1) (put_first one.0 rest.0) (
        append-Leads a one.1 rest.1 (given one.0) rest.0 (consider-Fine a id _ now w)
          (consider_all-AllFine one.1 mk ids now one.2))

  evaluate_all-AllFine :
      (times : List (Market × Time)) (a : Adaptive fl.F) (w : W)
      → AllFine a (evaluate_all fl rng sprintf times a w)
  unfolding evaluate_all evaluate
  evaluate_all-AllFine [] a w = nothing-Leads a
  evaluate_all-AllFine ((mk, now) ∷ times) a w =
      let one = evaluate fl rng sprintf a mk now w in
      let rest = evaluate_all fl rng sprintf times one.1 one.2 in
      append-Leads a one.1 rest.1 one.0 rest.0 (consider_all-AllFine a mk mk.instruments now w)
        (evaluate_all-AllFine times one.1 one.2)

  -- Whatever the candles and the random numbers are, the signals that a new strategy gives of an
  -- instrument, evaluation after evaluation, are a buy and a sell in turns, a buy first, and after
  -- them it has a position of the instrument exactly where the last one was a buy.
  pub evaluate_all_lem :
      (arms : List Arm) (epsilon decay : fl.F) (times : List (Market × Time)) (w : W) (id : Str)
      → let (ss, a, _) = evaluate_all fl rng sprintf times (new_adaptive fl arms epsilon decay) w in
        IsAlternating id ss false × (is_open id a ≡ open_after id ss false)
  unfolding new_adaptive
  evaluate_all_lem arms epsilon decay times w id =
      let l = evaluate_all-AllFine times (new_adaptive fl arms epsilon decay) w in
      (l.alternating id, l.opened id)
