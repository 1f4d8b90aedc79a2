-- ===== src/Strategy/Momentum.antt =====
-- internal/strategy/momentum.go: crossings of two moving averages.
use real_time_market_data_pi.Base.{
  ℕ, ◌-◌, Bool, ◌&&◌, ◌||◌, Option, none, some, List, [], ◌∷◌, if◌then◌else◌, length, take, drop,
}
use real_time_market_data_pi.Base.Bytes.{Str, str}
use real_time_market_data_pi.Base.Int.{ℤ, pos, ◌+ℤ◌, ◌-ℤ◌, ◌*ℤ◌, leb_ℤ, ltb_ℤ, abs_ℕ}
use real_time_market_data_pi.Candles.{Candle}
use real_time_market_data_pi.Float.{Float64, float}
use real_time_market_data_pi.Strategy.{buy, sell, Signal}
use real_time_market_data_pi.Tick.{Time}

-- `Market`, as the strategies use it.
pub record Market : Type 0 where
  pub instruments : List Str
  pub candles : Str → ℤ → List Candle

pub record Momentum : Type 0 where
  pub fast : ℤ
  pub slow : ℤ
  pub min_bars : ℤ

-- `NewMomentum`; its numbers are counts of bars, far from the bounds of an int.
unfoldable pub new_momentum : ℤ → ℤ → Momentum
new_momentum fast slow =
    let f = if leb_ℤ fast (pos 0) then pos 9 else fast in
    let s = if leb_ℤ slow f then f *ℤ pos 3 else slow in
    record { fast = f; slow = s; min_bars = s +ℤ pos 2 }

-- `bars[:len(bars)-1]`
abbrev pub without_last : List Candle → List Candle
without_last bars = take (length bars - 1) bars

module _ (fl : Float64) where
  unfoldable pub sum_closes : List Candle → fl.F → fl.F
  sum_closes [] sum = sum
  sum_closes (b ∷ bs) sum = sum_closes bs (fl.plus sum (float fl b.closing))

  -- `sma`
  unfoldable pub sma : List Candle → ℤ → ℕ → fl.F
  unfolding sum_closes
  sma bars n back =
      let end = pos (length bars) -ℤ pos back in
      if ltb_ℤ end n || leb_ℤ n (pos 0)
      then fl.lit 0 0
      else fl.over (sum_closes (take (abs_ℕ n) (drop (abs_ℕ (end -ℤ n)) bars)) (fl.lit 0 0))
          (fl.of_int n)

  -- `crossedUp` and `crossedDown`
  unfoldable pub crossed_up : List Candle → ℤ → ℤ → Bool
  unfolding sma
  crossed_up bars fast slow =
      fl.le (sma bars fast 1) (sma bars slow 1) && fl.lt (sma bars slow 0) (sma bars fast 0)

  unfoldable pub crossed_down : List Candle → ℤ → ℤ → Bool
  unfolding sma
  crossed_down bars fast slow =
      fl.le (sma bars slow 1) (sma bars fast 1) && fl.lt (sma bars fast 0) (sma bars slow 0)

  -- `fmt.Sprintf`, of a format and numbers, is a parameter.
  module _ (sprintf : Str → List fl.F → Str) where
    -- One instrument of `Evaluate`.
    unfoldable pub momentum_signal : Momentum → Str → List Candle → Time → Option (Signal fl.F)
    unfolding crossed_up crossed_down
    momentum_signal m id bars now =
        let closed = without_last bars in
        let numbers =
          fl.of_int m.fast ∷ sma closed m.fast 0 ∷ fl.of_int m.slow ∷ sma closed m.slow 0 ∷ [] in
        if ltb_ℤ (pos (length bars)) m.min_bars
        then none
        else if ltb_ℤ (pos (length closed)) (m.slow +ℤ pos 1)
        then none
        else if crossed_up closed m.fast m.slow
        then some (record {
          instrument = id;
          action = buy;
          strength = fl.lit 1 0;
          reason = sprintf (str "fast SMA(%d)=%.2f crossed above slow SMA(%d)=%.2f") numbers;
          time = now;
        })
        else if crossed_down closed m.fast m.slow
        then some (record {
          instrument = id;
          action = sell;
          strength = fl.lit 1 0;
          reason = sprintf (str "fast SMA(%d)=%.2f crossed below slow SMA(%d)=%.2f") numbers;
          time = now;
        })
        else none

    -- The loop of `Evaluate`.
    unfoldable pub momentum_signals : Momentum → Market → List Str → Time → List (Signal fl.F)
    unfolding momentum_signal
    momentum_signals m mk [] now = []
    momentum_signals m mk (id ∷ ids) now =
        let rest = momentum_signals m mk ids now in
        elim (momentum_signal m id (mk.candles id (m.slow +ℤ pos 5)) now) [
          | none ↦ rest
          | some s ↦ s ∷ rest
        ]

    -- `Evaluate`
    unfoldable pub evaluate : Momentum → Market → Time → List (Signal fl.F)
    unfolding momentum_signals
    evaluate m mk now = momentum_signals m mk mk.instruments now
