-- ===== src/Command/Pump/Sequenced.antt =====
-- The ticks that `pump` of cmd/mdp/main.go publishes, and their sequence numbers.
use real_time_market_data_pi.Base.{
  ◌%◌, ◌+◌, ◌<◌, ◌≡◌, refl, sym, ap, ap₂, ◌∙◌, inl, inr, Bool, Bool-cases, Option, none, some,
  Option-cases, List, [], ◌∷◌, ◌++◌, append-nil, append_assoc, leb, length, arith, list_eq, nat_eq,
  pair_eq,
}
use real_time_market_data_pi.Base.Assoc.{lookup, insert}
use real_time_market_data_pi.Base.Bytes.{Str}
use real_time_market_data_pi.Base.Int64.{two64}
use real_time_market_data_pi.Tick.{Tick, Time}
use real_time_market_data_pi.Bus.Fanout.{Bus, Waits, publish}
use real_time_market_data_pi.Normalize.{
  RawMessage, Decoders, Decoded, ticks, failed, Sequencer, SeqKey, key_of, last_seq, assign,
  sequence, normalize, no_decoder,
}
use real_time_market_data_pi.Normalize.Sequence.{seqs_of, counted_from, assign_consecutive}
use real_time_market_data_pi.Store.Sqlite.{Sql, RawFrame, append_raw_batch}
use real_time_market_data_pi.Command.Pump.{
  Pump, is_ignored, Event, cancelled, interval, frame, End, count_error, hand_on, flush_raw,
  keep_raw, step, pump_from, frame_of, raw_batch_size,
}

abbrev pub ticks_in : Decoded → List Tick
ticks_in (ticks ts) = ts
ticks_in (failed e) = []

-- The ticks that a frame decodes to.
abbrev pub decoded : Decoders → RawMessage → List Tick
decoded ds m = elim (lookup m.venue ds) [ none ↦ [] | some d ↦ ticks_in (d m) ]

abbrev pub Call : Type 0
Call = Waits × List Tick

abbrev pub publish_each : List Call → Bus → Bus
publish_each [] b = b
publish_each ((w, ts) ∷ cs) b = publish_each cs (publish w ts b).0

abbrev pub published : List Call → List Tick
published [] = []
published ((w, ts) ∷ cs) = ts ++ published cs

assign-append :
    (ts us : List Tick) (s : Sequencer)
    → let (a, s1) = assign ts s in let (b, s2) = assign us s1 in assign (ts ++ us) s ≡ (a ++ b, s2)
unfolding assign
assign-append [] us s = refl
assign-append (t ∷ ts) us s =
    let n = (last_seq (key_of t) s + 1) % two64 in
    ap (λ (r : List Tick × Sequencer). (record t { seq = n } ∷ r.0, r.1))
      (assign-append ts us (insert (key_of t) n s))

sequence-assign :
    (d : Decoded) (s : Sequencer)
    → (ticks_in (sequence d s).0 ≡ (assign (ticks_in d) s).0)
      × ((sequence d s).1 ≡ (assign (ticks_in d) s).1)
unfolding sequence
sequence-assign (failed e) s = unfold assign in (refl, refl)
sequence-assign (ticks []) s = unfold assign in (refl, refl)
sequence-assign (ticks (t ∷ ts)) s = (refl, refl)

normalize-assign :
    (ds : Decoders) (m : RawMessage) (s : Sequencer)
    → (ticks_in (normalize ds m s).0 ≡ (assign (decoded ds m) s).0)
      × ((normalize ds m s).1 ≡ (assign (decoded ds m) s).1)
unfolding normalize
normalize-assign ds m s = go (lookup m.venue ds)
  where
    go :
        (o : Option (RawMessage → Decoded))
        → let r = elim o as (λ _. Decoded × Sequencer) [
          | none ↦ (failed no_decoder, s)
          | some d ↦ sequence (d m) s
        ] in
          let ts = elim o as (λ _. List Tick) [ none ↦ [] | some d ↦ ticks_in (d m) ] in
          (ticks_in r.0 ≡ (assign ts s).0) × (r.1 ≡ (assign ts s).1)
    go none = unfold assign in (refl, refl)
    go (some d) = sequence-assign (d m) s

module _ {D : Type 0} where
  hand_on-publish :
      (w : Waits) (done : Bool) (d : Decoded) (p : Pump D)
      → ((hand_on w done d p).0.bus ≡ (publish w (ticks_in d) p.bus).0)
        × ((hand_on w done d p).0.sequencer ≡ p.sequencer)
  unfolding hand_on count_error
  hand_on-publish w done (failed e) p = elim (Bool-cases (is_ignored e)) [
    | inl q ↦ rw (q, hand_on) (unfold publish in (refl, refl))
    | inr q ↦ rw (q, hand_on) (unfold publish in (refl, refl))
  ]
  hand_on-publish w done (ticks ts) p = elim (Option-cases (publish w ts p.bus).1) [
    | inl e ↦ rw (e, hand_on) (refl, refl)
    | inr (x, e) ↦ rw (e, hand_on) (refl, refl)
  ]

  module _ (sql : Sql D) (day : Time → Str) where
    flush_raw-bus :
        (p : Pump D)
        → ((flush_raw sql day p).bus ≡ p.bus) × ((flush_raw sql day p).sequencer ≡ p.sequencer)
    unfolding flush_raw
    flush_raw-bus p = go p.raw_batch
      where
        go :
            (b : List RawFrame)
            → let q = elim b as (λ _. Pump D) [
              | [] ↦ p
              | f ∷ fs ↦ record p {
                raw_batch = [];
                db = (append_raw_batch sql day (f ∷ fs) p.db).1;
              }
            ] in
              (q.bus ≡ p.bus) × (q.sequencer ≡ p.sequencer)
        go [] = (refl, refl)
        go (f ∷ fs) = (refl, refl)

    keep_raw-bus :
        (store_raw : Bool) (m : RawMessage) (p : Pump D)
        → let q = keep_raw sql day store_raw m p in (q.bus ≡ p.bus) × (q.sequencer ≡ p.sequencer)
    unfolding keep_raw
    keep_raw-bus store_raw m p =
        let q : Pump D = record p { raw_batch = p.raw_batch ++ (frame_of m ∷ []) } in
        let (b, s) = flush_raw-bus q in
        ground
          (arith, b, s, Bool-cases store_raw, Bool-cases (leb raw_batch_size (length q.raw_batch)))

    module _ (decoders : Decoders) (store_raw : Bool) where
      abbrev ticks_of : Event → List Tick
      ticks_of cancelled = []
      ticks_of interval = []
      ticks_of (frame m w done) = decoded decoders m

      -- The ticks that the frames decode to, up to the round that returns.
      abbrev pub received : List Event → Pump D → List Tick
      received [] p = []
      received (e ∷ es) p =
          let (p', end) = step sql day decoders store_raw e p in
          let rest = received es p' in ticks_of e ++ elim end [ none ↦ rest | some r ↦ [] ]

      -- What was published on the way from `p` to `q`, of the ticks decoded.
      abbrev Published : Pump D → List Tick → Pump D → Type 0
      Published p ts q =
          (cs : List Call) × (q.bus ≡ publish_each cs p.bus)
          × (published cs ≡ (assign ts p.sequencer).0)
          × (q.sequencer ≡ (assign ts p.sequencer).1)

      step-Published :
          (e : Event) (p : Pump D)
          → Published p (ticks_of e) (step sql day decoders store_raw e p).0
      unfolding step
      step-Published cancelled p = ([], refl, unfold assign in refl, unfold assign in refl)
      step-Published interval p =
          let (b, s) = flush_raw-bus p in ([], b, unfold assign in refl, unfold assign in s)
      step-Published (frame m w done) p =
          let k = keep_raw sql day store_raw m p in
          let (d, s) = normalize decoders m k.sequencer in
          let (b, q) = keep_raw-bus store_raw m p in
          let (bus, sq) = hand_on-publish w done d (record k { sequencer = s }) in
          let (a, n) = normalize-assign decoders m k.sequencer in
          (
            (w, ticks_in d) ∷ [],
            bus ∙ ap (λ c. (publish w (ticks_in d) c).0) b,
            append-nil (ticks_in d) ∙ a ∙ ap (λ c. (assign (decoded decoders m) c).0) q,
            sq ∙ n ∙ ap (λ c. (assign (decoded decoders m) c).1) q,
          )

      publish_each-append :
          (cs ds : List Call) (b : Bus)
          → publish_each (cs ++ ds) b ≡ publish_each ds (publish_each cs b)
      publish_each-append [] ds b = refl
      publish_each-append ((w, ts) ∷ cs) ds b = publish_each-append cs ds (publish w ts b).0

      published-append : (cs ds : List Call) → published (cs ++ ds) ≡ published cs ++ published ds
      published-append [] ds = refl
      published-append ((w, ts) ∷ cs) ds =
          ap (λ l. ts ++ l) (published-append cs ds)
          ∙ sym (append_assoc ts (published cs) (published ds))

      Published-trans :
          (p q r : Pump D) (ts us : List Tick)
          → Published p ts q
          → Published q us r
          → Published p (ts ++ us) r
      Published-trans p q r ts us (cs, b, out, s) (ds, b', out', s') =
          let e = assign-append ts us p.sequencer in
          (
            cs ++ ds,
            b' ∙ ap (publish_each ds) b ∙ sym (publish_each-append cs ds p.bus),
            published-append cs ds
                ∙ ap₂ (λ l k. l ++ k) out (out' ∙ ap (λ c. (assign us c).0) s)
                ∙ sym (ap (λ (x : List Tick × Sequencer). x.0) e),
            s' ∙ ap (λ c. (assign us c).1) s ∙ sym (ap (λ (x : List Tick × Sequencer). x.1) e),
          )

      Published-bus :
          (p q r : Pump D) (ts : List Tick)
          → Published p ts q
          → (r.bus ≡ q.bus) × (r.sequencer ≡ q.sequencer)
          → Published p ts r
      Published-bus p q r ts (cs, b, out, s) (e, f) = (cs, e ∙ b, out, f ∙ s)

      pump_from-Published :
          (es : List Event) (p : Pump D)
          → Published p (received es p) (pump_from sql day decoders store_raw es p).0
      unfolding pump_from
      pump_from-Published [] p = ([], refl, unfold assign in refl, unfold assign in refl)
      pump_from-Published (e ∷ es) p =
          let (q, end) = step sql day decoders store_raw e p in
          let rest = pump_from sql day decoders store_raw es q in
          let first = step-Published e p in
          elim end
            as (λ o.
              let r = elim o as (λ _. Pump D × Option End) [
                | none ↦ rest
                | some x ↦ (flush_raw sql day q, some x)
              ] in
              let ts = elim o as (λ _. List Tick) [ none ↦ received es q | some _ ↦ [] ] in
              Published p (ticks_of e ++ ts) r.0) [
                | none ↦
                    Published-trans p q rest.0 (ticks_of e) (received es q) first
                      (pump_from-Published es q)
                | some x ↦ Published-trans p q (flush_raw sql day q) (ticks_of e) [] first (
                    Published-bus q q (flush_raw sql day q) []
                      ([], refl, unfold assign in refl, unfold assign in refl) (flush_raw-bus q))
              ]

      -- The ticks that pump publishes, over all its publishes until it returns, are those that the
      -- frames decoded to, and those of a venue and instrument get the sequence numbers that
      -- follow its last one, without a gap, whatever frames failed to decode between them, as long
      -- as the numbers stay below 2^64; the bus is as these publishes leave it.
      pub pump_consecutive :
          (k : SeqKey) (es : List Event) (p : Pump D)
          → last_seq k p.sequencer + length (received es p) < two64
          → (cs : List Call) × ((pump_from sql day decoders store_raw es p).0.bus
              ≡ publish_each cs p.bus)
            × (published cs ≡ (assign (received es p) p.sequencer).0)
            × (seqs_of k (published cs) ≡ counted_from (last_seq k p.sequencer) k (received es p))
      pump_consecutive k es p h =
          let (cs, b, out, s) = pump_from-Published es p in
          (cs, b, out, ap (seqs_of k) out ∙ assign_consecutive k (received es p) p.sequencer h)
