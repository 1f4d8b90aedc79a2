-- ===== src/Supervise.antt =====
-- internal/supervise/supervise.go: the loop that restarts a component. Durations are nanoseconds.
pub mod Attempts
use real_time_market_data_pi.Base.{
  ℕ, zero, suc, ◌-◌, Bool, true, false, ◌&&◌, List, [], ◌∷◌, if◌then◌else◌,
}
use real_time_market_data_pi.Base.Int.{ℤ, pos, leb_ℤ, ltb_ℤ}
use real_time_market_data_pi.Float.{Float64}

pub record Policy (F : Type 0) : Type 0 where
  pub initial_delay : ℤ
  pub max_delay : ℤ
  pub jitter : F
  pub reset_after : ℤ
  pub max_attempts : ℤ

-- One call of `fn`, as `Run` sees it: the context has ended, there is no error, the error is a
-- cancellation, or the call failed after so long; then the wait, for which the random number is
-- given, is over or was cut short by the context.
pub data Call (F : Type 0) : Type 0 where
  context_ended returned cancellation : Call F
  failed_waited failed_cut : ℤ → F → Call F

-- How `Run` ended, or the attempts counted so far.
pub data State : Type 0 where
  context_error no_error : State
  gave_up running : ℕ → State

module _ (fl : Float64) where
  unfoldable pub default_policy : Policy fl.F
  default_policy = record {
    initial_delay = pos 1_000_000_000;
    max_delay = pos 120_000_000_000;
    jitter = fl.lit 3 1;
    reset_after = pos 60_000_000_000;
    max_attempts = pos 0;
  }

  -- `backoff`, with the number that `rand.Float64` yields.
  unfoldable pub backoff : Policy fl.F → ℕ → fl.F → ℤ
  backoff p attempt random =
      let least = fl.of_int p.initial_delay in
      let d0 = fl.times least (fl.pow2 (attempt - 1)) in
      let d1 = if fl.lt (fl.of_int p.max_delay) d0 then fl.of_int p.max_delay else d0 in
      let d2 =
        if fl.lt (fl.lit 0 0) p.jitter
        then fl.plus d1
            (fl.times (fl.minus (fl.times random (fl.lit 2 0)) (fl.lit 1 0)) (fl.times d1 p.jitter))
        else d1 in
      fl.trunc (if fl.lt d2 least then least else d2)

  -- The attempts after a failure: a call that lasted starts the count over.
  unfoldable pub count_attempt : Policy fl.F → ℤ → ℕ → ℕ
  count_attempt p lasted attempt = suc (if leb_ℤ p.reset_after lasted then 0 else attempt)

  unfoldable pub exhausted : Policy fl.F → ℕ → Bool
  exhausted p attempt = ltb_ℤ (pos 0) p.max_attempts && leb_ℤ p.max_attempts (pos attempt)

  -- `Run`'s loop, with the delays that it waits.
  unfoldable pub attempts : Policy fl.F → List (Call fl.F) → ℕ → State × List ℤ
  unfolding count_attempt exhausted backoff
  attempts p [] n = (running n, [])
  attempts p (context_ended ∷ cs) n = (context_error, [])
  attempts p (returned ∷ cs) n = (no_error, [])
  attempts p (cancellation ∷ cs) n = (no_error, [])
  attempts p (failed_cut lasted r ∷ cs) n =
      let m = count_attempt p lasted n in
      if exhausted p m then (gave_up m, []) else (context_error, backoff p m r ∷ [])
  attempts p (failed_waited lasted r ∷ cs) n =
      let m = count_attempt p lasted n in
      let (end, delays) = attempts p cs m in
      if exhausted p m then (gave_up m, []) else (end, backoff p m r ∷ delays)

  -- `Run`
  unfoldable pub supervise : Policy fl.F → List (Call fl.F) → State × List ℤ
  unfolding attempts default_policy
  supervise p calls = attempts (if leb_ℤ p.initial_delay (pos 0) then default_policy else p) calls 0
