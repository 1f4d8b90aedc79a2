-- ===== src/Persist/Balance.antt =====
-- The counters of internal/consumer/persist/persist.go.
use real_time_market_data_pi.Base.{
  ℕ, ◌+◌, ◌%◌, ◌≤◌, ◌≡◌, refl, inl, inr, Bool-cases, Option, some, List, [], ◌∷◌, ◌++◌, leb, length,
  length-append, arith,
}
use real_time_market_data_pi.Base.Int64.{two64}
use real_time_market_data_pi.Tick.{Tick}
use real_time_market_data_pi.Persist.{
  Stats, Persister, Event, cancelled, unsubscribed, interval, received_tick, count_flush, flush,
  take_tick, run, add64, Config, new_persister,
}

module _ {S : Type 0} (append : List Tick → S → Option ℕ × S) where
  -- Every tick received is stored, a duplicate, or still held, modulo 2^64.
  abbrev pub IsBalanced : Persister S → Type 0
  IsBalanced p =
      (p.counts.stored + p.counts.duplicate + length p.batch) % two64 ≡ p.counts.received % two64

  module _
      (answers : (b : List Tick) (s : S)
        → (n : ℕ) × ((append b s).0 ≡ some n) × (n ≤ length b)) where
    flush_at :
        (n iv : ℕ) (c : Stats) (b : List Tick) (s : S)
        → let p : Persister S = record {
          batch_size = n;
          flush_interval = iv;
          counts = c;
          batch = b;
          store = s;
        } in
          IsBalanced p → IsBalanced (flush append p)
    unfolding flush count_flush
    flush_at n iv c [] s h = h
    flush_at n iv c (t ∷ ts) s h = let (k, e, le) = answers (t ∷ ts) s in rw e (omega (arith, h))

    flush-IsBalanced : (p : Persister S) → IsBalanced p → IsBalanced (flush append p)
    flush-IsBalanced p h = flush_at p.batch_size p.flush_interval p.counts p.batch p.store h

    take_tick-IsBalanced :
        (t : Tick) (p : Persister S) → IsBalanced p → IsBalanced (take_tick append t p)
    unfolding take_tick
    take_tick-IsBalanced t p h =
        let p' : Persister S = record p {
          counts = record p.counts { received = add64 p.counts.received 1 };
          batch = p.batch ++ (t ∷ []);
        } in
        let h' : IsBalanced p' = omega (arith, length-append p.batch (t ∷ []), h) in
        elim (Bool-cases (leb p.batch_size (length p'.batch))) [
          | inl e ↦ rw e (flush-IsBalanced p' h')
          | inr e ↦ rw e h'
        ]

    run_balance : (es : List Event) (p : Persister S) → IsBalanced p → IsBalanced (run append es p)
    unfolding run
    run_balance [] p h = h
    run_balance (cancelled ∷ es) p h = flush-IsBalanced p h
    run_balance (unsubscribed ∷ es) p h = flush-IsBalanced p h
    run_balance (interval ∷ es) p h = run_balance es (flush append p) (flush-IsBalanced p h)
    run_balance (received_tick t ∷ es) p h =
        run_balance es (take_tick append t p) (take_tick-IsBalanced t p h)

    -- With a store that never fails and reports no more rows than it was given, the rows stored,
    -- the duplicates and the ticks still held add up to the ticks received, modulo 2^64.
    pub run-IsBalanced :
        (cfg : Config) (s : S) (es : List Event) → IsBalanced (run append es (new_persister cfg s))
    unfolding new_persister
    run-IsBalanced cfg s es = run_balance es (new_persister cfg s) refl
