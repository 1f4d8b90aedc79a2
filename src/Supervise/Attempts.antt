-- ===== src/Supervise/Attempts.antt =====
-- The attempts that `Run` of internal/supervise/supervise.go counts.
use real_time_market_data_pi.Base.{
  ℕ, suc, ◌+◌, ◌<◌, ◌≡◌, ap, inl, inr, true, false, Bool-cases, List, [], ◌∷◌, if◌then◌else◌,
  length, All, ltb, ltb→lt, lt→ltb, ◌∙◌, arith,
}
use real_time_market_data_pi.Base.Int.{ℤ, pos, ◌<ℤ◌, leb_ℤ}
use real_time_market_data_pi.Float.{Float64}
use real_time_market_data_pi.Supervise.{
  Policy, Call, context_ended, returned, cancellation, failed_waited, failed_cut, running, gave_up,
  count_attempt, exhausted, attempts, supervise,
}

module _ (fl : Float64) where
  -- A call that failed before it counted as healthy, and the wait after it was over.
  abbrev pub IsShort : Policy fl.F → Call fl.F → Type 0
  IsShort p (failed_waited lasted r) = lasted <ℤ p.reset_after
  IsShort p _ = 0 < 0

  count-short :
      (p : Policy fl.F) (lasted : ℤ) (n : ℕ)
      → lasted <ℤ p.reset_after
      → count_attempt fl p lasted n ≡ suc n
  unfolding count_attempt
  count-short p lasted n h = ground arith

  -- Without a limit the attempts are counted, and it goes on.
  attempts-unlimited :
      (p : Policy fl.F) (cs : List (Call fl.F)) (n : ℕ)
      → All (IsShort p) cs
      → p.max_attempts ≡ pos 0
      → (attempts fl p cs n).0 ≡ running (n + length cs)
  unfolding attempts exhausted
  attempts-unlimited p [] n h z = ap running (omega arith)
  attempts-unlimited p (context_ended ∷ cs) n h z = elim h.0 [ ]
  attempts-unlimited p (returned ∷ cs) n h z = elim h.0 [ ]
  attempts-unlimited p (cancellation ∷ cs) n h z = elim h.0 [ ]
  attempts-unlimited p (failed_cut lasted r ∷ cs) n h z = elim h.0 [ ]
  attempts-unlimited p (failed_waited lasted r ∷ cs) n h z =
      rw (count-short p lasted n h.0, z)
        (attempts-unlimited p cs (suc n) h.1 z ∙ ap running (omega arith))

  -- With a limit it goes on below the limit, and gives up at it.
  attempts-limited :
      (p : Policy fl.F) (cs : List (Call fl.F)) (n k : ℕ)
      → All (IsShort p) cs
      → p.max_attempts ≡ pos k
      → n < k
      → (attempts fl p cs n).0
        ≡ (if ltb (n + length cs) k then running (n + length cs) else gave_up k)
  unfolding attempts exhausted
  attempts-limited p [] n k h z lt = rw (lt→ltb (n + 0) k (omega arith)) (ap running (omega arith))
  attempts-limited p (context_ended ∷ cs) n k h z lt = elim h.0 [ ]
  attempts-limited p (returned ∷ cs) n k h z lt = elim h.0 [ ]
  attempts-limited p (cancellation ∷ cs) n k h z lt = elim h.0 [ ]
  attempts-limited p (failed_cut lasted r ∷ cs) n k h z lt = elim h.0 [ ]
  attempts-limited p (failed_waited lasted r ∷ cs) n k h z lt = elim (Bool-cases (ltb (suc n) k)) [
    | inl below ↦
        let here : exhausted fl p (suc n) ≡ false = rw z (ground (arith, below)) in
        let later : suc n + length cs ≡ n + suc (length cs) = omega arith in
        rw (count-short p lasted n h.0, here)
          (attempts-limited p cs (suc n) k h.1 z (ltb→lt (suc n) k below)
            ∙ ap (λ i. if ltb i k then running i else gave_up k) later)
    | inr over ↦
        let here : exhausted fl p (suc n) ≡ true = rw z (ground (arith, over, lt)) in
        let at : suc n ≡ k = ground (arith, over, lt) in
        let past : ltb (n + suc (length cs)) k ≡ false = ground (arith, over) in
        rw (count-short p lasted n h.0, here, past) (ap gave_up at)
  ]

  -- A component whose calls all fail before they count as healthy, under a policy with an initial
  -- delay, is restarted after every failure where there is no limit, and with a limit while the
  -- failures are fewer, and given up at exactly that many.
  pub supervise_lem :
      (p : Policy fl.F) (cs : List (Call fl.F))
      → pos 0 <ℤ p.initial_delay
      → All (IsShort p) cs
      → (p.max_attempts ≡ pos 0 → (supervise fl p cs).0 ≡ running (length cs))
        × ((k : ℕ)
            → p.max_attempts ≡ pos (suc k)
            → (supervise fl p cs).0
              ≡ (if ltb (length cs) (suc k) then running (length cs) else gave_up (suc k)))
  unfolding supervise
  supervise_lem p cs d h =
      let own : leb_ℤ p.initial_delay (pos 0) ≡ false = ground arith in
      let n : 0 + length cs ≡ length cs = omega arith in
      (
        λ z. rw own (attempts-unlimited p cs 0 h z ∙ ap running n),
        λ k z. rw own (
            attempts-limited p cs 0 (suc k) h z (omega arith)
            ∙ ap (λ i. if ltb i (suc k) then running i else gave_up (suc k)) n),
      )
