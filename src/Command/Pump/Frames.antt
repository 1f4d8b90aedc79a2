-- ===== src/Command/Pump/Frames.antt =====
-- The frames that `pump` of cmd/mdp/main.go hands to the archive.
use real_time_market_data_pi.Base.{
  ◌≤◌, ◌<◌, ◌≡◌, refl, sym, ap, ◌∙◌, inl, inr, Bool, Bool-cases, Option, none, some, Option-cases,
  List, [], ◌∷◌, ◌++◌, append-nil, append_assoc, All, All-append, leb, length, length-append,
  if◌then◌else◌, arith,
}
use real_time_market_data_pi.Base.Bytes.{Str}
use real_time_market_data_pi.Tick.{Time}
use real_time_market_data_pi.Bus.Fanout.{Bus, Waits, publish}
use real_time_market_data_pi.Normalize.{
  RawMessage, Decoders, Decoded, ticks, failed, Sequencer, normalize,
}
use real_time_market_data_pi.Store.Sqlite.{RawFrame, Sql, append_raw_batch}
use real_time_market_data_pi.Command.Pump.{
  Pump, is_ignored, Event, cancelled, interval, frame, End, raw_batch_size, frame_of, count_error,
  hand_on, flush_raw, keep_raw, step, pump_from, pump,
}

abbrev pub concat : List (List RawFrame) → List RawFrame
concat [] = []
concat (b ∷ bs) = b ++ concat bs

concat-append : (bs cs : List (List RawFrame)) → concat (bs ++ cs) ≡ concat bs ++ concat cs
concat-append [] cs = refl
concat-append (b ∷ bs) cs =
    ap (λ l. b ++ l) (concat-append bs cs) ∙ sym (append_assoc b (concat bs) (concat cs))

abbrev pub IsBatch : List RawFrame → Type 0
IsBatch b = (0 < length b) × (length b ≤ raw_batch_size)

-- The frames of a round, where they are kept.
abbrev pub frames : Bool → RawMessage → List RawFrame
frames store_raw m = if store_raw then frame_of m ∷ [] else []

module _ {D : Type 0} (sql : Sql D) (day : Time → Str) where
  -- The database after batches were handed to it, one transaction each.
  abbrev pub archive : List (List RawFrame) → D → D
  archive [] d = d
  archive (b ∷ bs) d = archive bs (append_raw_batch sql day b d).1

  archive-append :
      (bs cs : List (List RawFrame)) (d : D) → archive (bs ++ cs) d ≡ archive cs (archive bs d)
  archive-append [] cs d = refl
  archive-append (b ∷ bs) cs d = archive-append bs cs (append_raw_batch sql day b d).1

  -- What a pump has archived on the way from `p` to `q`, of the frames that it held and received.
  abbrev Wrote : Pump D → List RawFrame → Pump D → Type 0
  Wrote p fs q =
      (bs : List (List RawFrame)) × (q.db ≡ archive bs p.db)
      × (concat bs ++ q.raw_batch ≡ p.raw_batch ++ fs)
      × All IsBatch bs

  Wrote-trans :
      (p q r : Pump D) (fs gs : List RawFrame) → Wrote p fs q → Wrote q gs r → Wrote p (fs ++ gs) r
  Wrote-trans p q r fs gs (bs, st, cat, all) (cs, st', cat', all') = (
    bs ++ cs,
    st' ∙ ap (archive cs) st ∙ sym (archive-append bs cs p.db),
    ap (λ l. l ++ r.raw_batch) (concat-append bs cs)
        ∙ append_assoc (concat bs) (concat cs) r.raw_batch
        ∙ ap (λ l. concat bs ++ l) cat'
        ∙ sym (append_assoc (concat bs) q.raw_batch gs)
        ∙ ap (λ l. l ++ gs) cat
        ∙ append_assoc p.raw_batch fs gs,
    All-append IsBatch bs cs all all',
  )

  abbrev flush : Pump D → Pump D
  flush p = flush_raw sql day p

  flush_at :
      (b : List RawFrame) (p : Pump D)
      → length b ≤ raw_batch_size
      → let q : Pump D = record p { raw_batch = b } in
        Wrote q [] (flush q) × ((flush q).raw_batch ≡ [])
  unfolding flush_raw
  flush_at [] p h = (([], refl, refl, tt), refl)
  flush_at (f ∷ fs) p h = (((f ∷ fs) ∷ [], refl, append-nil _, ((omega arith, h), tt)), refl)

  flush-Wrote :
      (p : Pump D)
      → length p.raw_batch ≤ raw_batch_size
      → Wrote p [] (flush p) × ((flush p).raw_batch ≡ [])
  flush-Wrote p h = flush_at p.raw_batch p h

  keep_raw-Wrote :
      (store_raw : Bool) (m : RawMessage) (p : Pump D)
      → length p.raw_batch < raw_batch_size
      → let q = keep_raw sql day store_raw m p in
        Wrote p (frames store_raw m) q × (length q.raw_batch < raw_batch_size)
  unfolding keep_raw flush_raw
  keep_raw-Wrote store_raw m p h = elim (Bool-cases store_raw) [
    | inr e ↦ rw e ((([], refl, sym (append-nil _), tt)), h)
    | inl e ↦
        let q : Pump D = record p { raw_batch = p.raw_batch ++ (frame_of m ∷ []) } in
        let count = length-append p.raw_batch (frame_of m ∷ []) in
        let held : Wrote p (frame_of m ∷ []) q = ([], refl, refl, tt) in
        let (wrote, empty) = flush-Wrote q (omega (arith, count, h)) in
        elim (Bool-cases (leb raw_batch_size (length q.raw_batch))) [
          | inl full ↦
              rw (e, full)
                (
                  Wrote-trans p q (flush q) (frame_of m ∷ []) [] held wrote,
                  omega (arith, ap length empty),
                )
          | inr room ↦ rw (e, room) (held, ground (arith, room))
        ]
  ]

  hand_on-frames :
      (w : Waits) (done : Bool) (d : Decoded) (p : Pump D)
      → ((hand_on w done d p).0.raw_batch ≡ p.raw_batch) × ((hand_on w done d p).0.db ≡ p.db)
  unfolding hand_on count_error
  hand_on-frames w done (failed e) p = elim (Bool-cases (is_ignored e)) [
    | inl q ↦ rw (q, hand_on) (refl, refl)
    | inr q ↦ rw (q, hand_on) (refl, refl)
  ]
  hand_on-frames w done (ticks ts) p = elim (Option-cases (publish w ts p.bus).1) [
    | inl e ↦ rw (e, hand_on) (refl, refl)
    | inr (x, e) ↦ rw (e, hand_on) (refl, refl)
  ]

  -- The messages of the rounds up to the one that returns.
  module _ (decoders : Decoders) (store_raw : Bool) where
    -- The frames of one round.
    abbrev pub frames_of : Event → List RawFrame
    frames_of cancelled = []
    frames_of interval = []
    frames_of (frame m w done) = frames store_raw m

    -- The frames of the rounds up to the one that returns.
    abbrev pub received : List Event → Pump D → List RawFrame
    received [] p = []
    received (e ∷ es) p =
        let (p', end) = step sql day decoders store_raw e p in
        let rest = received es p' in frames_of e ++ elim end [ none ↦ rest | some r ↦ [] ]

    abbrev Round : Pump D → List RawFrame → Pump D → Type 0
    Round p fs q = Wrote p fs q × (length q.raw_batch < raw_batch_size)

    step-Round :
        (e : Event) (p : Pump D)
        → length p.raw_batch < raw_batch_size
        → Round p (frames_of e) (step sql day decoders store_raw e p).0
    unfolding step
    step-Round cancelled p h = (([], refl, sym (append-nil _), tt), h)
    step-Round interval p h =
        let (wrote, empty) = flush-Wrote p (omega (arith, h)) in
        (wrote, omega (arith, ap length empty))
    step-Round (frame m w done) p h =
        let k = keep_raw sql day store_raw m p in
        let (d, s) = normalize decoders m k.sequencer in
        let same = hand_on-frames w done d (record k { sequencer = s }) in
        let ((bs, st, cat, all), room) = keep_raw-Wrote store_raw m p h in
        (
          (bs, same.1 ∙ st, ap (λ l. concat bs ++ l) same.0 ∙ cat, all),
          omega (arith, room, ap length same.0),
        )

    -- Nothing is left once the loop has returned.
    abbrev pub Left : Option End → Pump D → Type 0
    Left none p = Unit
    Left (some r) p = p.raw_batch ≡ []

    pump_from-Wrote :
        (es : List Event) (p : Pump D)
        → length p.raw_batch < raw_batch_size
        → let (q, end) = pump_from sql day decoders store_raw es p in
          Wrote p (received es p) q × Left end q
    unfolding pump_from
    pump_from-Wrote [] p h = (([], refl, sym (append-nil _), tt), tt)
    pump_from-Wrote (e ∷ es) p h =
        let (q, end) = step sql day decoders store_raw e p in
        let (wrote, room) = step-Round e p h in
        let ih = pump_from-Wrote es q room in
        let (flushed, empty) = flush-Wrote q (omega (arith, room)) in
        let rest = pump_from sql day decoders store_raw es q in
        elim end
          as (λ o.
            let r = elim o as (λ _. Pump D × Option End) [
              | none ↦ rest
              | some x ↦ (flush q, some x)
            ] in
            let fs = elim o as (λ _. List RawFrame) [ none ↦ received es q | some _ ↦ [] ] in
            Wrote p (frames_of e ++ fs) r.0 × Left r.1 r.0) [
              | none ↦ (Wrote-trans p q rest.0 (frames_of e) (received es q) wrote ih.0, ih.1)
              | some x ↦ (Wrote-trans p q (flush q) (frames_of e) [] wrote flushed, empty)
            ]

    -- Whatever frames arrive, however they decode and whether or not a publish fails, pump hands
    -- the frames received until it returns to the archive in order, when they are to be stored,
    -- and none otherwise, in transactions of 1 to 500 frames; once it has returned, it holds none
    -- back.
    pub pump_archives :
        (es : List Event) (s : Sequencer) (b : Bus) (d : D)
        → let start : Pump D = record {
          raw_batch = [];
          decode_err = 0;
          warned = [];
          sequencer = s;
          bus = b;
          db = d;
        } in
          let (q, end) = pump sql day decoders store_raw es s b d in
          ((bs : List (List RawFrame)) × (q.db ≡ archive bs d)
            × (concat bs ++ q.raw_batch ≡ received es start)
            × All IsBatch bs)
          × Left end q
    unfolding pump
    pump_archives es s b d =
        pump_from-Wrote es
          (record { raw_batch = []; decode_err = 0; warned = []; sequencer = s; bus = b; db = d })
          (omega arith)
