-- ===== src/Persist/Lossless.antt =====
-- The batches that `Run` of internal/consumer/persist/persist.go hands to the store.
use real_time_market_data_pi.Base.{
  ℕ, ◌≤◌, ◌<◌, ◌≡◌, refl, sym, ap, ◌∙◌, inl, inr, Bool, true, false, Bool-cases, Option, List, [],
  ◌∷◌, ◌++◌, leb, length, All, length-append, append-nil, append_assoc, subst, All-append, arith,
}
use real_time_market_data_pi.Tick.{Tick}
use real_time_market_data_pi.Persist.{
  Stats, Persister, Event, cancelled, unsubscribed, interval, received_tick, flush, take_tick, run,
  add64, Config, new_persister, default_config,
}

-- The ticks received before the loop ends.
pub ticks_of : List Event → List Tick
ticks_of [] = []
ticks_of (cancelled ∷ es) = []
ticks_of (unsubscribed ∷ es) = []
ticks_of (interval ∷ es) = ticks_of es
ticks_of (received_tick t ∷ es) = t ∷ ticks_of es

-- Whether the loop ends.
abbrev pub stops : List Event → Bool
stops [] = false
stops (cancelled ∷ es) = true
stops (unsubscribed ∷ es) = true
stops (interval ∷ es) = stops es
stops (received_tick t ∷ es) = stops es

abbrev pub concat : List (List Tick) → List Tick
concat [] = []
concat (b ∷ bs) = b ++ concat bs

abbrev pub IsBatch : ℕ → List Tick → Type 0
IsBatch n b = (0 < length b) × (length b ≤ n)

module _ {S : Type 0} (append : List Tick → S → Option ℕ × S) where
  concat-append : (bs cs : List (List Tick)) → concat (bs ++ cs) ≡ concat bs ++ concat cs
  concat-append [] cs = refl
  concat-append (b ∷ bs) cs =
      ap (λ l. b ++ l) (concat-append bs cs) ∙ sym (append_assoc b (concat bs) (concat cs))

  -- The store after appends of the batches in order.
  abbrev pub store_all : List (List Tick) → S → S
  store_all [] s = s
  store_all (b ∷ bs) s = store_all bs (append b s).1

  -- What `p'` has written since `p`, of the ticks that `p` held and then received.
  abbrev Wrote : Persister S → List Tick → Persister S → Type 0
  Wrote p ts p' =
      (bs : List (List Tick)) × (p'.store ≡ store_all bs p.store)
      × (concat bs ++ p'.batch ≡ p.batch ++ ts)
      × All (IsBatch p.batch_size) bs
      × (p'.batch_size ≡ p.batch_size)

  -- With the batch a variable of its own.
  flush_at :
      (n iv : ℕ) (c : Stats) (b : List Tick) (s : S)
      → length b ≤ n
      → let p : Persister S = record {
        batch_size = n;
        flush_interval = iv;
        counts = c;
        batch = b;
        store = s;
      } in
        Wrote p [] (flush append p) × ((flush append p).batch ≡ [])
  unfolding flush
  flush_at n iv c [] s h = (([], refl, refl, tt, refl), refl)
  flush_at n iv c (t ∷ ts) s h =
      (((t ∷ ts) ∷ [], refl, append-nil _, ((omega arith, h), tt), refl), refl)

  flush-Wrote :
      (p : Persister S)
      → length p.batch ≤ p.batch_size
      → Wrote p [] (flush append p) × ((flush append p).batch ≡ [])
  flush-Wrote p h = flush_at p.batch_size p.flush_interval p.counts p.batch p.store h

  store_all-append :
      (bs cs : List (List Tick)) (s : S) → store_all (bs ++ cs) s ≡ store_all cs (store_all bs s)
  store_all-append [] cs s = refl
  store_all-append (b ∷ bs) cs s = store_all-append bs cs (append b s).1

  Wrote-trans :
      (p q r : Persister S) (ts us : List Tick) → Wrote p ts q → Wrote q us r → Wrote p (ts ++ us) r
  Wrote-trans p q r ts us (bs, st, cat, all, size) (cs, st', cat', all', size') = (
    bs ++ cs,
    st' ∙ ap (store_all cs) st ∙ sym (store_all-append bs cs p.store),
    ap (λ l. l ++ r.batch) (concat-append bs cs)
        ∙ append_assoc (concat bs) (concat cs) r.batch
        ∙ ap (λ l. concat bs ++ l) cat'
        ∙ sym (append_assoc (concat bs) q.batch us)
        ∙ ap (λ l. l ++ us) cat
        ∙ append_assoc p.batch ts us,
    All-append (IsBatch p.batch_size) bs cs all (subst (λ n. All (IsBatch n) cs) size all'),
    size' ∙ size,
  )

  take_tick-Wrote :
      (t : Tick) (p : Persister S)
      → length p.batch < p.batch_size
      → Wrote p (t ∷ []) (take_tick append t p)
        × (length (take_tick append t p).batch < (take_tick append t p).batch_size)
  unfolding take_tick
  take_tick-Wrote t p h =
      let p' : Persister S = record p {
        counts = record p.counts { received = add64 p.counts.received 1 };
        batch = p.batch ++ (t ∷ []);
      } in
      let count = length-append p.batch (t ∷ []) in
      let held : Wrote p (t ∷ []) p' = ([], refl, refl, tt, refl) in
      let (wrote, empty) = flush-Wrote p' (omega (arith, count, h)) in
      elim (Bool-cases (leb p.batch_size (length p'.batch))) [
        | inl e ↦ rw e (
          Wrote-trans p p' (flush append p') (t ∷ []) [] held wrote,
          omega (arith, ap length empty, wrote.4, h),
        )
        | inr e ↦ rw e (held, ground (arith, e))
      ]

  -- Until it ends, the loop holds less than a batch; when it ends, nothing.
  abbrev pub Left : Bool → Persister S → Type 0
  Left true p = p.batch ≡ []
  Left false p = length p.batch < p.batch_size

  run-Wrote :
      (es : List Event) (p : Persister S)
      → length p.batch < p.batch_size
      → Wrote p (ticks_of es) (run append es p) × Left (stops es) (run append es p)
  unfolding run ticks_of
  run-Wrote [] p h = (([], refl, sym (append-nil _), tt, refl), h)
  run-Wrote (cancelled ∷ es) p h = flush-Wrote p (omega (arith, h))
  run-Wrote (unsubscribed ∷ es) p h = flush-Wrote p (omega (arith, h))
  run-Wrote (interval ∷ es) p h =
      let q = flush append p in
      let (wrote, empty) = flush-Wrote p (omega (arith, h)) in
      let (rest, left) = run-Wrote es q (omega (arith, ap length empty, wrote.4, h)) in
      (Wrote-trans p q (run append es q) [] (ticks_of es) wrote rest, left)
  run-Wrote (received_tick t ∷ es) p h =
      let q = take_tick append t p in
      let (wrote, small) = take_tick-Wrote t p h in
      let (rest, left) = run-Wrote es q small in
      (Wrote-trans p q (run append es q) (t ∷ []) (ticks_of es) wrote rest, left)

  -- The ticks that a new persister received are those of the batches it handed to the store, in
  -- order, followed by the batch it still holds, which is empty once the loop has ended and less
  -- than a batch before; a batch is not empty and not longer than the batch size.
  pub run_lossless :
      (cfg : Config) (s : S) (es : List Event)
      → let p = run append es (new_persister cfg s) in
        (bs : List (List Tick)) × (p.store ≡ store_all bs s)
        × (concat bs ++ p.batch ≡ ticks_of es)
        × All (IsBatch (new_persister cfg s).batch_size) bs
        × Left (stops es) p
  unfolding new_persister default_config
  run_lossless cfg s es =
      let (wrote, left) = run-Wrote es (new_persister cfg s) (ground arith) in
      (wrote.0, wrote.1, wrote.2, wrote.3, left)
