-- ===== src/Strategy/Adaptive.antt =====
-- internal/strategy/adaptive.go: crossovers picked by a bandit.
pub mod Alternation
use real_time_market_data_pi.Base.{
  ℕ, zero, suc, ◌+◌, ◌-◌, Bool, true, false, ◌||◌, Option, none, some, List, [], ◌∷◌, ◌++◌,
  if◌then◌else◌, length, list_eq, nat_eq,
}
use real_time_market_data_pi.Base.Assoc.{Assoc, lookup, insert, erase}
use real_time_market_data_pi.Base.Bytes.{Str, str}
use real_time_market_data_pi.Base.Int.{ℤ, pos, ◌+ℤ◌, ltb_ℤ}
use real_time_market_data_pi.Candles.{Candle}
use real_time_market_data_pi.Float.{Float64, float}
use real_time_market_data_pi.Strategy.{buy, sell, Signal}
use real_time_market_data_pi.Strategy.Momentum.{Market, without_last, crossed_up, crossed_down}
use real_time_market_data_pi.Tick.{Time}

-- `AdaptiveArm`
pub record Arm : Type 0 where
  pub fast : ℤ
  pub slow : ℤ

-- `adaptivePos`
pub record OpenPosition (F : Type 0) : Type 0 where
  pub arm : ℕ
  pub entry : F

pub record Adaptive (F : Type 0) : Type 0 where
  pub arms : List Arm
  pub epsilon : F
  pub decay : F
  pub score : Assoc ℕ F
  pub trades : Assoc ℕ ℕ
  pub open_positions : Assoc Str (OpenPosition F)

-- The random numbers, over a state of everything outside the program: `Float64`, and `Intn` of a
-- positive number, which is less than it.
pub record Random (F W : Type 0) : Type 0 where
  pub float64 : W → F × W
  pub intn : ℕ → W → ℕ × W

-- The element at a place, and the first one out of range, where `Intn` does not lead.
unfoldable pub element : ℕ → List ℕ → ℕ → ℕ
element first [] k = first
element first (i ∷ is) zero = i
element first (i ∷ is) (suc k) = element first is k

abbrev pub arm_at : List Arm → ℕ → Option Arm
arm_at [] k = none
arm_at (a ∷ others) zero = some a
arm_at (a ∷ others) (suc k) = arm_at others k

-- `maxSlow`
unfoldable pub max_slow : List Arm → ℤ → ℤ
max_slow [] m = m
max_slow (a ∷ others) m = max_slow others (if ltb_ℤ m a.slow then a.slow else m)

-- `closed[len(closed)-1]`
abbrev last_candle : List Candle → Option Candle
last_candle [] = none
last_candle (b ∷ []) = some b
last_candle (b ∷ c ∷ bs) = last_candle (c ∷ bs)

module _ (fl : Float64) where
  -- `NewAdaptive`
  unfoldable pub new_adaptive : List Arm → fl.F → fl.F → Adaptive fl.F
  new_adaptive arms epsilon decay = record {
    arms = elim arms [
      | [] ↦
          record { fast = pos 2; slow = pos 6 }
          ∷ record { fast = pos 3; slow = pos 9 }
          ∷ record { fast = pos 5; slow = pos 15 }
          ∷ record { fast = pos 8; slow = pos 21 }
          ∷ record { fast = pos 13; slow = pos 34 }
          ∷ []
      | a ∷ others ↦ a ∷ others
    ];
    epsilon = if fl.le epsilon (fl.lit 0 0) then fl.lit 15 2 else epsilon;
    decay = if fl.le decay (fl.lit 0 0) || fl.le (fl.lit 1 0) decay then fl.lit 7 1 else decay;
    score = [];
    trades = [];
    open_positions = [];
  }

  -- What is stored for a missing key.
  abbrev score_of : ℕ → Adaptive fl.F → fl.F
  score_of i a = elim (lookup i a.score) [ none ↦ fl.lit 0 0 | some f ↦ f ]

  abbrev trades_of : ℕ → Adaptive fl.F → ℕ
  trades_of i a = elim (lookup i a.trades) [ none ↦ 0 | some n ↦ n ]

  abbrev arm_numbers : Option Arm → List fl.F
  arm_numbers none = []
  arm_numbers (some arm) = fl.of_int arm.fast ∷ fl.of_int arm.slow ∷ []

  abbrev percent : fl.F → fl.F
  percent f = fl.times f (fl.lit 100 0)

  -- The loop of `pickArm` that exploits.
  unfoldable pub best_of : Adaptive fl.F → ℕ → List ℕ → ℕ
  best_of a best [] = best
  best_of a best (i ∷ is) =
      best_of a (if fl.lt (score_of best a) (score_of i a) then i else best) is

  -- The loop of `evaluateEntry`: the places of the arms that signal a buy, from a place on.
  unfoldable pub eligible_from : ℕ → List Arm → List Candle → List ℕ
  unfolding crossed_up
  eligible_from i [] closed = []
  eligible_from i (a ∷ others) closed =
      let rest = eligible_from (i + 1) others closed in
      if ltb_ℤ (pos (length closed)) (a.slow +ℤ pos 1)
      then rest
      else if crossed_up fl closed a.fast a.slow
      then i ∷ rest
      else rest

  module _ {W : Type 0} (rng : Random fl.F W) (sprintf : Str → List fl.F → Str) where
    -- `pickArm`, of a first eligible arm and the others.
    unfoldable pub pick_arm : Adaptive fl.F → ℕ → List ℕ → W → ℕ × W
    unfolding best_of element
    pick_arm a first others w =
        let (draw, w1) = rng.float64 w in
        let (k, w2) = rng.intn (length (first ∷ others)) w1 in
        if fl.lt draw a.epsilon
        then (element first (first ∷ others) k, w2)
        else (best_of a first others, w1)

    -- `evaluateEntry`
    unfoldable pub evaluate_entry :
        Adaptive fl.F
        → Str
        → List Candle
        → fl.F
        → Time
        → W
        → Option (Signal fl.F) × Adaptive fl.F × W
    unfolding eligible_from pick_arm
    evaluate_entry a id closed last now w = elim (eligible_from 0 a.arms closed) [
      | [] ↦ (none, a, w)
      | first ∷ others ↦
          let (chosen, w') = pick_arm a first others w in
          (
            some (record {
              instrument = id;
              action = buy;
              strength = fl.lit 1 0;
              reason =
                  sprintf
                    (str
                      "arm %d/%d entry at %.2f (score %+.3f%% over %d trades; %d/%d arms eligible)")
                    (arm_numbers (arm_at a.arms chosen)
                      ++ (last
                          ∷ percent (score_of chosen a)
                          ∷ fl.of_int (pos (trades_of chosen a))
                          ∷ fl.of_int (pos (length (first ∷ others)))
                          ∷ fl.of_int (pos (length a.arms))
                          ∷ []));
              time = now;
            }),
            record a {
              open_positions = insert id (record { arm = chosen; entry = last }) a.open_positions;
            },
            w',
          )
    ]

    -- `evaluateExit`; a place that is no arm's does not occur in a position.
    unfoldable pub evaluate_exit :
        Adaptive fl.F
        → Str
        → OpenPosition fl.F
        → List Candle
        → fl.F
        → Time
        → Option (Signal fl.F) × Adaptive fl.F
    unfolding crossed_down
    evaluate_exit a id p closed last now = elim (arm_at a.arms p.arm) [
      | none ↦ (none, a)
      | some arm ↦
          let ret = fl.over (fl.minus last p.entry) p.entry in
          let score =
            fl.plus (fl.times a.decay (score_of p.arm a))
              (fl.times (fl.minus (fl.lit 1 0) a.decay) ret) in
          let trades = trades_of p.arm a + 1 in
          if ltb_ℤ (pos (length closed)) (arm.slow +ℤ pos 1)
          then (none, a)
          else if crossed_down fl closed arm.fast arm.slow
          then (
            some (record {
              instrument = id;
              action = sell;
              strength = fl.lit 1 0;
              reason =
                  sprintf
                    (str
                      "arm %d/%d exit: %.2f -> %.2f (%+.2f%%), arm score now %+.3f%% over %d trades")
                    (arm_numbers (some arm)
                      ++ (p.entry
                          ∷ last
                          ∷ percent ret
                          ∷ percent score
                          ∷ fl.of_int (pos trades)
                          ∷ []));
              time = now;
            }),
            record a {
              score = insert p.arm score a.score;
              trades = insert p.arm trades a.trades;
              open_positions = erase id a.open_positions;
            },
          )
          else (none, a)
    ]

    -- One instrument of `Evaluate`, with the last closed bar.
    unfoldable pub decide :
        Adaptive fl.F
        → Str
        → List Candle
        → fl.F
        → Time
        → W
        → Option (Signal fl.F) × Adaptive fl.F × W
    unfolding evaluate_entry evaluate_exit
    decide a id closed last now w = elim (lookup id a.open_positions) [
      | none ↦ evaluate_entry a id closed last now w
      | some p ↦ let (s, a') = evaluate_exit a id p closed last now in (s, a', w)
    ]

    -- One instrument of `Evaluate`.
    unfoldable pub consider :
        Adaptive fl.F → Str → List Candle → Time → W → Option (Signal fl.F) × Adaptive fl.F × W
    unfolding decide max_slow
    consider a id bars now w =
        let longest = max_slow a.arms (pos 0) in
        let closed = without_last bars in
        if ltb_ℤ (pos (length bars)) (longest +ℤ pos 2)
        then (none, a, w)
        else if ltb_ℤ (pos (length closed)) (longest +ℤ pos 1)
        then (none, a, w)
        else elim (last_candle closed) [
          | none ↦ (none, a, w)
          | some b ↦ decide a id closed (float fl b.closing) now w
        ]

    -- The loop of `Evaluate`.
    unfoldable pub consider_all :
        Adaptive fl.F → Market → List Str → Time → W → List (Signal fl.F) × Adaptive fl.F × W
    unfolding consider
    consider_all a mk [] now w = ([], a, w)
    consider_all a mk (id ∷ ids) now w =
        let bars = mk.candles id (max_slow a.arms (pos 0) +ℤ pos 5) in
        let (s, a1, w1) = consider a id bars now w in
        let (rest, a2, w2) = consider_all a1 mk ids now w1 in
        (elim s [ none ↦ rest | some x ↦ x ∷ rest ], a2, w2)

    -- `Evaluate`
    unfoldable pub evaluate :
        Adaptive fl.F → Market → Time → W → List (Signal fl.F) × Adaptive fl.F × W
    unfolding consider_all
    evaluate a mk now w = consider_all a mk mk.instruments now w
