-- ===== src/Bus/Policies.antt =====
-- The delivery policies of internal/bus/inproc/inproc.go over a whole publish.
use real_time_market_data_pi.Base.{
  ◌+◌, ◌-◌, ◌%◌, ◌<◌, ◌≡◌, refl, sym, ap, ◌∙◌, inl, inr, true, false, Bool-cases, none, List, [],
  ◌∷◌, ◌++◌, append_assoc, append-nil, ltb, ltb→lt, length, take, drop, last_n, last_n-append,
  take-append, take_all, take_prefix, arith,
}
use real_time_market_data_pi.Base.Int64.{two64}
use real_time_market_data_pi.Tick.{Tick}
use real_time_market_data_pi.Bus.{Policy}
use real_time_market_data_pi.Bus.Sub.{
  Subscription, Wakeup, add_u64, sent, try_send, deliver_drop_newest, deliver, wants,
}
use real_time_market_data_pi.Bus.Fanout.{deliver_all}
use real_time_market_data_pi.Bus.Queue.{
  IsBounded, SameConfig, wanted, wanted-SameConfig, sent-Sent, kept, drop_oldest-kept, kept-newest,
  kept-SameConfig, kept-IsBounded, length-snoc,
}

-- A subscription that is open and has the policy.
pub record IsOpen (p : Policy) (s : Subscription) : Type 0 where
  pub open_still : s.done ≡ false
  pub policy_is : s.spec.policy ≡ p
  pub bounded : IsBounded s

IsOpen-keep :
    (p : Policy) (s s' : Subscription) → IsOpen p s → SameConfig s s' → IsBounded s' → IsOpen p s'
IsOpen-keep p s s' o c b = record {
  open_still = c.same_done ∙ o.open_still;
  policy_is = ap (λ q. q.policy) c.same_spec ∙ o.policy_is;
  bounded = b;
}

-- A delivery with no error goes on with the next tick.
pub deliver_all_ok :
    (w : Tick → Wakeup) (s s' : Subscription) (t : Tick) (ts : List Tick)
    → deliver (w t) s t ≡ (s', none)
    → deliver_all w s (t ∷ ts) ≡ deliver_all w s' ts
unfolding deliver_all
deliver_all_ok w s s' t ts e = rw (e, deliver_all) (rw e)

-- A tick that the filter passes over changes nothing.
deliver_unwanted :
    (w : Wakeup) (s : Subscription) (t : Tick) → wants s t ≡ false → deliver w s t ≡ (s, none)
unfolding deliver
deliver_unwanted w s t e = rw (deliver, e)

-- A closed subscription takes nothing more, under every policy and filter.
pub deliver_closed :
    (w : Wakeup) (s : Subscription) (t : Tick) → s.done ≡ true → deliver w s t ≡ (s, none)
unfolding deliver
deliver_closed w s t d = ground arith

deliver-oldest :
    (w : Wakeup) (s : Subscription) (t : Tick)
    → IsOpen Policy.drop_oldest s
    → wants s t ≡ true
    → deliver w s t ≡ (kept s t, none)
unfolding deliver
deliver-oldest w s t o e =
    ground (arith, e, o.open_still, o.policy_is, drop_oldest-kept 0 s t o.bounded o.open_still)

-- After any number of ticks, a drop-oldest queue that is open and within its bounds holds the
-- newest wanted ticks in order, as many as its capacity allows, and the publisher gets no error.
pub drop_oldest_newest :
    (w : Tick → Wakeup) (s : Subscription) (ts : List Tick)
    → IsOpen Policy.drop_oldest s
    → ((deliver_all w s ts).0.out ≡ last_n s.capacity (s.out ++ wanted s ts))
      × ((deliver_all w s ts).1 ≡ none)
unfolding deliver_all wanted
drop_oldest_newest w s [] o = (
  rw append-nil (
      sym (
        ap (λ k. drop k s.out) {x = length s.out - s.capacity} {y = 0}
          (omega (arith, o.bounded.fits)))),
  refl,
)
drop_oldest_newest w s (t ∷ ts) o = elim (Bool-cases (wants s t)) [
  | inr skip ↦
      rw (deliver_all_ok w s s t ts (deliver_unwanted (w t) s t skip), skip)
        (drop_oldest_newest w s ts o)
  | inl take_it ↦
      let s' = kept s t in
      let c = kept-SameConfig s t in
      let ih =
        drop_oldest_newest w s' ts
          (IsOpen-keep Policy.drop_oldest s s' o c (kept-IsBounded s t o.bounded)) in
      rw (deliver_all_ok w s s' t ts (deliver-oldest (w t) s t o take_it), take_it)
        (
          ih.0
              ∙ rw (wanted-SameConfig s s' ts c, c.same_capacity, kept-newest s t o.bounded)
                  (last_n-append s.capacity (s.out ++ (t ∷ [])) (wanted s ts)
                    ∙ ap (last_n s.capacity) (append_assoc s.out (t ∷ []) (wanted s ts))),
          ih.1,
        )
]

drop_newest_room :
    (s : Subscription) (t : Tick) → length s.out < s.capacity → deliver_drop_newest s t ≡ sent s t
unfolding deliver_drop_newest try_send
drop_newest_room s t h = ground arith

drop_newest_full :
    (s : Subscription) (t : Tick)
    → ¬ (length s.out < s.capacity)
    → deliver_drop_newest s t ≡ record s { dropped = add_u64 s.dropped 1 }
unfolding deliver_drop_newest try_send
drop_newest_full s t h = ground arith

-- One drop-newest delivery: the oldest stay, and the tick is counted once, as delivered or dropped.
pub record Sampled (s : Subscription) (t : Tick) (s' : Subscription) : Type 0 where
  pub config : SameConfig s s'
  pub bounded : IsBounded s'
  pub oldest : s'.out ≡ take s.capacity (s.out ++ (t ∷ []))
  pub counted : (s'.delivered + s'.dropped) % two64 ≡ (s.delivered + s.dropped + 1) % two64

drop_newest-Sampled :
    (s : Subscription) (t : Tick) → IsBounded s → Sampled s t (deliver_drop_newest s t)
drop_newest-Sampled s t b = elim (Bool-cases (ltb (length s.out) s.capacity)) [
  | inl r ↦
      let w = sent-Sent s t in
      let h : length s.out < s.capacity = ltb→lt _ _ r in
      rw (drop_newest_room s t h) (record {
        config = w.config;
        bounded = record {
          fits = omega (arith, ap length w.queue, length-snoc s.out t, w.config.same_capacity);
          room_for_one = rw w.config.same_capacity b.room_for_one;
          marked = w.mark;
        };
        oldest =
            w.queue
            ∙ sym (take_all s.capacity (s.out ++ (t ∷ [])) (omega (arith, length-snoc s.out t)));
        counted = rw (w.counted, w.no_drop) (omega arith);
      })
  | inr f ↦ rw (drop_newest_full s t (λ p. ground arith)) (record {
    config = record {
      same_spec = refl;
      same_capacity = refl;
      same_filter = refl;
      same_done = refl;
    };
    bounded = record { fits = b.fits; room_for_one = b.room_for_one; marked = b.marked };
    oldest =
        let full : length s.out ≡ s.capacity = ground (arith, b.fits) in
        sym (
          take_prefix s.capacity s.out (t ∷ []) (omega (arith, full))
          ∙ take_all s.capacity s.out (omega (arith, full)));
    counted = omega arith;
  })
]

deliver-newest :
    (w : Wakeup) (s : Subscription) (t : Tick)
    → IsOpen Policy.drop_newest s
    → wants s t ≡ true
    → deliver w s t ≡ (deliver_drop_newest s t, none)
unfolding deliver
deliver-newest w s t o e = ground (arith, e, o.open_still, o.policy_is)

-- After any number of ticks, a drop-newest queue that is open and within its bounds holds the
-- oldest wanted ticks in order, as many as its capacity allows; each wanted tick is counted once,
-- as delivered or dropped, modulo 2^64; and the publisher gets no error.
pub drop_newest_oldest :
    (w : Tick → Wakeup) (s : Subscription) (ts : List Tick)
    → IsOpen Policy.drop_newest s
    → let (s', e) = deliver_all w s ts in
      (s'.out ≡ take s.capacity (s.out ++ wanted s ts))
      × ((s'.delivered + s'.dropped) % two64
          ≡ (s.delivered + s.dropped + length (wanted s ts)) % two64)
      × (e ≡ none)
unfolding deliver_all wanted
drop_newest_oldest w s [] o =
    (rw append-nil (sym (take_all s.capacity s.out o.bounded.fits)), omega arith, refl)
drop_newest_oldest w s (t ∷ ts) o = elim (Bool-cases (wants s t)) [
  | inr skip ↦
      rw (deliver_all_ok w s s t ts (deliver_unwanted (w t) s t skip), skip)
        (drop_newest_oldest w s ts o)
  | inl take_it ↦
      let s' = deliver_drop_newest s t in
      let d = drop_newest-Sampled s t o.bounded in
      let ih =
        drop_newest_oldest w s' ts (IsOpen-keep Policy.drop_newest s s' o d.config d.bounded) in
      rw (deliver_all_ok w s s' t ts (deliver-newest (w t) s t o take_it), take_it)
        (
          ih.0
              ∙ rw (wanted-SameConfig s s' ts d.config, d.config.same_capacity, d.oldest)
                  (take-append s.capacity (s.out ++ (t ∷ [])) (wanted s ts)
                    ∙ ap (take s.capacity) (append_assoc s.out (t ∷ []) (wanted s ts))),
          omega (arith, ih.1, d.counted, ap length (wanted-SameConfig s s' ts d.config)),
          ih.2,
        )
]
