-- ===== src/Strategy/Reversion.antt =====
-- internal/strategy/meanrev.go: distances from the mean.
use real_time_market_data_pi.Base.{
  ◌-◌, ◌&&◌, Option, none, some, List, [], ◌∷◌, if◌then◌else◌, length, drop,
}
use real_time_market_data_pi.Base.Bytes.{Str, str}
use real_time_market_data_pi.Base.Int.{ℤ, pos, ◌+ℤ◌, ltb_ℤ, abs_ℕ}
use real_time_market_data_pi.Candles.{Candle}
use real_time_market_data_pi.Float.{Float64, float}
use real_time_market_data_pi.Strategy.{buy, sell, Signal}
use real_time_market_data_pi.Strategy.Momentum.{Market, without_last, sum_closes}
use real_time_market_data_pi.Tick.{Time}

-- `MeanReversion`
pub record Reversion (F : Type 0) : Type 0 where
  pub window : ℤ
  pub entry_z : F
  pub exit_z : F

-- `math.Sqrt` and `fmt.Sprintf`, of a format and numbers, are parameters. The letter sigma is left out
-- of the formats.
module _ (fl : Float64) (sqrt : fl.F → fl.F) (sprintf : Str → List fl.F → Str) where
  -- `NewMeanReversion`
  unfoldable pub new_reversion : ℤ → fl.F → fl.F → Reversion fl.F
  new_reversion window entry_z exit_z =
      let entry = if fl.le entry_z (fl.lit 0 0) then fl.lit 2 0 else entry_z in
      record {
        window = if ltb_ℤ window (pos 5) then pos 30 else window;
        entry_z = entry;
        exit_z = if fl.le entry exit_z then fl.lit 5 1 else exit_z;
      }

  unfoldable pub sum_squares : fl.F → List Candle → fl.F → fl.F
  sum_squares mean [] sum = sum
  sum_squares mean (b ∷ bs) sum =
      let d = fl.minus (float fl b.closing) mean in sum_squares mean bs (fl.plus sum (fl.times d d))

  -- `meanStdDev`
  unfoldable pub mean_std_dev : List Candle → fl.F × fl.F
  unfolding sum_closes sum_squares
  mean_std_dev [] = (fl.lit 0 0, fl.lit 0 0)
  mean_std_dev (b ∷ bs) =
      let n = fl.of_int (pos (length (b ∷ bs))) in
      let mean = fl.over (sum_closes fl (b ∷ bs) (fl.lit 0 0)) n in
      (mean, sqrt (fl.over (sum_squares mean (b ∷ bs) (fl.lit 0 0)) n))

  abbrev last_close : List Candle → fl.F
  last_close [] = fl.lit 0 0
  last_close (b ∷ []) = float fl b.closing
  last_close (b ∷ c ∷ bs) = last_close (c ∷ bs)

  -- One instrument of `Evaluate`. The window is positive, so it has a last bar.
  unfoldable pub reversion_signal : Reversion fl.F → Str → List Candle → Time → Option (Signal fl.F)
  unfolding mean_std_dev
  reversion_signal m id bars now =
      let closed = without_last bars in
      let window = drop (length closed - abs_ℕ m.window) closed in
      let (mean, sd) = mean_std_dev window in
      let last = last_close window in
      let z = fl.over (fl.minus last mean) sd in
      let minus : fl.F → fl.F = λ f. fl.minus (fl.lit 0 0) f in
      if ltb_ℤ (pos (length bars)) (m.window +ℤ pos 2)
      then none
      else if ltb_ℤ (pos (length closed)) m.window
      then none
      else if fl.le sd (fl.lit 0 0) && fl.le (fl.lit 0 0) sd
      then none
      else if fl.le z (minus m.entry_z)
      then some (record {
        instrument = id;
        action = buy;
        strength = fl.lit 1 0;
        reason =
            sprintf (str "price %.2f is %.1f below the %d-bar mean %.2f")
              (last ∷ minus z ∷ fl.of_int m.window ∷ mean ∷ []);
        time = now;
      })
      else if fl.le (minus m.exit_z) z
      then some (record {
        instrument = id;
        action = sell;
        strength = fl.lit 1 0;
        reason =
            sprintf (str "price %.2f reverted to %.1f of the %d-bar mean %.2f")
              (last ∷ z ∷ fl.of_int m.window ∷ mean ∷ []);
        time = now;
      })
      else none

  -- The loop of `Evaluate`.
  unfoldable pub reversion_signals : Reversion fl.F → Market → List Str → Time → List (Signal fl.F)
  unfolding reversion_signal
  reversion_signals m mk [] now = []
  reversion_signals m mk (id ∷ ids) now =
      let rest = reversion_signals m mk ids now in
      elim (reversion_signal m id (mk.candles id (m.window +ℤ pos 5)) now) [
        | none ↦ rest
        | some s ↦ s ∷ rest
      ]

  -- `Evaluate`
  unfoldable pub evaluate : Reversion fl.F → Market → Time → List (Signal fl.F)
  unfolding reversion_signals
  evaluate m mk now = reversion_signals m mk mk.instruments now
