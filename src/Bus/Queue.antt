-- ===== src/Bus/Queue.antt =====
-- What a delivery of internal/bus/inproc/inproc.go does to the queue of an open subscription.
use real_time_market_data_pi.Base.{
  ℕ, suc, ◌+◌, ◌-◌, ◌≤◌, ◌<◌, ◌≡◌, refl, sym, ap, ◌∙◌, inl, inr, false, Bool-cases, some, List, [],
  ◌∷◌, ◌++◌, ltb, leb, if◌then◌else◌, length, length-append, length-drop, ltb→lt, drop, drop-append,
  last_n, arith,
}
use real_time_market_data_pi.Tick.{Tick}
use real_time_market_data_pi.Bus.Sub.{
  Subscription, add_u64, sent, try_send, evict, deliver_drop_oldest, wants,
}

-- The channel holds no more than its capacity, which is positive, and the high-water mark bounds it.
pub record IsBounded (s : Subscription) : Type 0 where
  pub fits : length s.out ≤ s.capacity
  pub room_for_one : 0 < s.capacity
  pub marked : length s.out ≤ s.high_water

-- The ticks that pass the filter.
unfoldable pub wanted : Subscription → List Tick → List Tick
wanted s [] = []
wanted s (t ∷ ts) = if wants s t then t ∷ wanted s ts else wanted s ts

-- What a delivery leaves alone.
pub record SameConfig (s s' : Subscription) : Type 0 where
  pub same_spec : s'.spec ≡ s.spec
  pub same_capacity : s'.capacity ≡ s.capacity
  pub same_filter : s'.filter ≡ s.filter
  pub same_done : s'.done ≡ s.done

pub wanted-SameConfig :
    (s s' : Subscription) (ts : List Tick) → SameConfig s s' → wanted s' ts ≡ wanted s ts
unfolding wanted wants
wanted-SameConfig s s' [] c = refl
wanted-SameConfig s s' (t ∷ ts) c = rw (c.same_filter, wanted-SameConfig s s' ts c)

pub record Sent (s : Subscription) (t : Tick) (s' : Subscription) : Type 0 where
  pub config : SameConfig s s'
  pub queue : s'.out ≡ s.out ++ (t ∷ [])
  pub counted : s'.delivered ≡ add_u64 s.delivered 1
  pub no_drop : s'.dropped ≡ s.dropped
  pub mark : length s'.out ≤ s'.high_water
  pub mark_grows : s.high_water ≤ s'.high_water

pub sent-Sent : (s : Subscription) (t : Tick) → Sent s t (sent s t)
unfolding sent
sent-Sent s t = elim (Bool-cases (leb (length (s.out ++ (t ∷ []))) s.high_water)) [
  | inl e ↦ rw e (ground arith)
  | inr e ↦ rw e (ground arith)
]

-- The subscription after a drop-oldest delivery.
pub kept : Subscription → Tick → Subscription
kept s t = if ltb (length s.out) s.capacity then sent s t else sent (evict s) t

-- The receive that makes room takes the head.
pub evict_lem :
    (s : Subscription)
    → SameConfig s (evict s)
      × ((evict s).out ≡ drop 1 s.out)
      × ((evict s).high_water ≡ s.high_water)
unfolding evict
evict_lem s = ground arith

pub length-snoc {ℓ} : {A : Type ℓ} (xs : List A) (x : A) → length (xs ++ (x ∷ [])) ≡ length xs + 1
length-snoc xs x = length-append xs (x ∷ [])

-- One delivery to an open subscription within its bounds ends within two rounds of its loop.
pub drop_oldest-kept :
    (n : ℕ) (s : Subscription) (t : Tick)
    → IsBounded s
    → s.done ≡ false
    → deliver_drop_oldest (suc (suc n)) s t ≡ some (kept s t)
unfolding deliver_drop_oldest try_send kept
drop_oldest-kept n s t b d =
    let (c, q, m) = evict_lem s in
    ground (arith, c.same_done, c.same_capacity, q, length-drop 1 s.out, ap length q)

kept_room :
    (s : Subscription) (t : Tick)
    → IsBounded s
    → length s.out < s.capacity
    → (sent s t).out ≡ last_n s.capacity (s.out ++ (t ∷ []))
kept_room s t b r =
    (sent-Sent s t).queue
    ∙ ap (λ k. drop k (s.out ++ (t ∷ []))) {x = 0} (omega (arith, length-snoc s.out t))

kept_full :
    (s : Subscription) (t : Tick)
    → IsBounded s
    → length s.out ≡ s.capacity
    → (sent (evict s) t).out ≡ last_n s.capacity (s.out ++ (t ∷ []))
kept_full s t b r =
    (sent-Sent (evict s) t).queue
    ∙ ap (λ q. q ++ (t ∷ [])) (evict_lem s).1
    ∙ sym (drop-append 1 s.out (t ∷ []) (omega (arith, r, b.room_for_one)))
    ∙ ap (λ k. drop k (s.out ++ (t ∷ []))) {x = 1} (omega (arith, length-snoc s.out t, r))

-- A drop-oldest delivery keeps the newest ticks that the capacity holds.
pub kept-newest :
    (s : Subscription) (t : Tick)
    → IsBounded s
    → (kept s t).out ≡ last_n s.capacity (s.out ++ (t ∷ []))
unfolding kept
kept-newest s t b = elim (Bool-cases (ltb (length s.out) s.capacity)) [
  | inl r ↦ rw (kept, r) (kept_room s t b (ltb→lt _ _ r))
  | inr f ↦ rw (kept, f) (kept_full s t b (ground (arith, b.fits)))
]

pub kept-SameConfig : (s : Subscription) (t : Tick) → SameConfig s (kept s t)
unfolding kept
kept-SameConfig s t =
    ground (arith, (sent-Sent s t).config, (sent-Sent (evict s) t).config, (evict_lem s).0)

pub kept-IsBounded : (s : Subscription) (t : Tick) → IsBounded s → IsBounded (kept s t)
kept-IsBounded s t b =
    let c = kept-SameConfig s t in
    let n = kept-newest s t b in
    record {
      fits = omega (
        arith,
        ap length n,
        c.same_capacity,
        length-drop (length (s.out ++ (t ∷ [])) - s.capacity) (s.out ++ (t ∷ [])),
      );
      room_for_one = rw c.same_capacity b.room_for_one;
      marked = unfold kept in ground (arith, (sent-Sent s t).mark, (sent-Sent (evict s) t).mark);
    }

-- What one delivery does that finds room or makes it.
pub record Ended (s : Subscription) (t : Tick) (s' : Subscription) : Type 0 where
  pub config : SameConfig s s'
  pub queue : s'.out ≡ last_n s.capacity (s.out ++ (t ∷ []))
  pub counted : s'.delivered ≡ add_u64 s.delivered 1
  pub drops :
      s'.dropped ≡ (if ltb (length s.out) s.capacity then s.dropped else add_u64 s.dropped 1)

evict-counters :
    (s : Subscription)
    → 0 < length s.out
    → ((evict s).delivered ≡ s.delivered) × ((evict s).dropped ≡ add_u64 s.dropped 1)
unfolding evict
evict-counters s h = ground arith

kept-Ended : (s : Subscription) (t : Tick) → IsBounded s → Ended s t (kept s t)
unfolding kept
kept-Ended s t b = elim (Bool-cases (ltb (length s.out) s.capacity)) [
  | inl r ↦ record {
    config = kept-SameConfig s t;
    queue = kept-newest s t b;
    counted = rw (kept, r) (sent-Sent s t).counted;
    drops = rw (kept, r) (sent-Sent s t).no_drop;
  }
  | inr f ↦
      let c = evict-counters s (ground (arith, b.room_for_one)) in
      let after = sent-Sent (evict s) t in
      record {
        config = kept-SameConfig s t;
        queue = kept-newest s t b;
        counted = rw (kept, f) (after.counted ∙ ap (λ k. add_u64 k 1) c.0);
        drops = rw (kept, f) (after.no_drop ∙ c.1);
      }
]

-- The loop of a drop-oldest delivery to an open subscription within its bounds ends within two
-- rounds, whatever more it is allowed: the queue is then the newest ticks of what it was with the
-- tick behind it, as many as the capacity is; the tick counts as delivered, and one as dropped
-- exactly where the queue was full; nothing of the subscription's settings changes.
pub drop_oldest_ends :
    (more : ℕ) (s : Subscription) (t : Tick)
    → IsBounded s
    → s.done ≡ false
    → (s' : Subscription) × (deliver_drop_oldest (suc (suc more)) s t ≡ some s') × Ended s t s'
drop_oldest_ends more s t b d = (kept s t, drop_oldest-kept more s t b d, kept-Ended s t b)
