-- ===== src/Venue/Diagnosis.antt =====
-- Why `Stream` of internal/venue/binance/binance.go ends.
use real_time_market_data_pi.Base.{
  ◌≡◌, ◌≢◌, refl, sym, ap, ◌∙◌, Bool, true, false, ◌&&◌, Option, none, some, List, [], ◌∷◌, ◌++◌,
  if◌then◌else◌, arith,
}
use real_time_market_data_pi.Base.Int.{ℤ, pos, leb_ℤ}
use real_time_market_data_pi.Normalize.{RawMessage}
use real_time_market_data_pi.Venue.{
  StreamError, no_pong, context_error, Result, ok, failed, Pinger, pinging, diagnosed, ended, Conn,
  connected, Read, got, broken, read, is_context, read_error, Action, cancel, take, give_up,
  stop_pings, hang_up, reads, pong, on_read, on_silence, ping_step, stream_step, stream_steps,
}

-- While `Stream` runs, the ping loop has published its diagnosis before it closes the connection,
-- and none where there are no pings; and an end by the context is told only when that is done.
pub record IsSound (interval : ℤ) (c : Conn) : Type 0 where
  pub told : c.closed ≡ true → c.result ≡ none → c.ping_err ≡ some (some no_pong)
  pub published : c.pinger ≡ diagnosed → c.result ≡ none → c.ping_err ≡ some (some no_pong)
  pub over : c.closed ≡ true → c.pinger ≡ ended
  pub no_pings : leb_ℤ interval (pos 0) ≡ true → c.ping_err ≢ some (some no_pong)
  pub unblamed : leb_ℤ interval (pos 0) ≡ true → c.result ≢ some no_pong
  pub only_pongs : (e : StreamError) → c.ping_err ≡ some (some e) → e ≡ no_pong
  pub in_context : c.result ≡ some context_error → c.done ≡ true

connected-IsSound : (interval : ℤ) → IsSound interval connected
unfolding connected
connected-IsSound interval = record {
  told = λ h q. cc;
  published = λ h q. cc;
  over = λ h. cc;
  no_pings = λ h e. cc;
  unblamed = λ h e. cc;
  only_pongs = λ e h. cc;
  in_context = λ h. cc;
}

-- The error that a read itself gives.
IsOwn : StreamError → Type 0
IsOwn e = (e ≢ no_pong) × (e ≢ context_error)

read-IsOwn : (done : Bool) (r : Read) (e : StreamError) → read done r ≡ failed e → IsOwn e
unfolding read IsOwn
read-IsOwn done (got true payload now) e h = ground arith
read-IsOwn done (got false payload now) e h = ground arith
read-IsOwn done (broken late of_context) e h = ground arith

-- The error that `Stream` returns after an error of `read`, by the state of the channel.
abbrev reason : Option (Option StreamError) → Bool → StreamError → StreamError
reason o own_end e =
    let own = if own_end then context_error else e in
    elim o [ none ↦ own | some none ↦ own | some (some ping) ↦ ping ]

some_inj : {x y : StreamError} → ◌≡◌ {A = Option StreamError} (some x) (some y) → x ≡ y
some_inj q = cc

reason-no_pong :
    (o : Option (Option StreamError)) (b : Bool) (e : StreamError)
    → IsOwn e
    → o ≢ some (some no_pong)
    → reason o b e ≢ no_pong
unfolding IsOwn
reason-no_pong none true e own n = λ q. cc
reason-no_pong none false e own n = own.0
reason-no_pong (some none) true e own n = λ q. cc
reason-no_pong (some none) false e own n = own.0
reason-no_pong (some (some ping)) b e own n = λ q. n (ap (λ x. some (some x)) q)

reason-context :
    (o : Option (Option StreamError)) (b : Bool) (e : StreamError)
    → IsOwn e
    → ((x : StreamError) → o ≡ some (some x) → x ≡ no_pong)
    → reason o b e ≡ context_error
    → b ≡ true
unfolding IsOwn
reason-context none true e own n q = refl
reason-context none false e own n q = absurd (own.1 q)
reason-context (some none) true e own n q = refl
reason-context (some none) false e own n q = absurd (own.1 q)
reason-context (some (some ping)) b e own n q = absurd (differ (sym (n ping refl) ∙ q))
  where
    differ : no_pong ≡ context_error → ⊥
    differ q = cc

read_error-IsSound :
    (interval : ℤ) (of_context : Bool) (e : StreamError) (c : Conn)
    → IsOwn e
    → IsSound interval c
    → IsSound interval (read_error of_context e c)
unfolding read_error
read_error-IsSound interval of_context e c own h = record {
  told = λ p q. cc;
  published = λ p q. cc;
  over = h.over;
  no_pings = λ p q. cc;
  unblamed =
      λ p q. reason-no_pong c.ping_err (c.done && of_context) e own (h.no_pings p) (some_inj q);
  only_pongs = λ x q. cc;
  in_context = λ q.
      and_left c.done of_context
        (reason-context c.ping_err (c.done && of_context) e own h.only_pongs (some_inj q));
}
  where
    and_left : (a b : Bool) → (a && b) ≡ true → a ≡ true
    and_left true b e = refl
    and_left false b e = e

module _ (interval : ℤ) (c : Conn) (h : IsSound interval c) where
  cancel-IsSound : IsSound interval (record c { done = true })
  cancel-IsSound = record {
    told = h.told;
    published = h.published;
    over = h.over;
    no_pings = h.no_pings;
    unblamed = h.unblamed;
    only_pongs = h.only_pongs;
    in_context = λ q. refl;
  }

  hold-IsSound :
      (held : Option RawMessage) (ms : List RawMessage)
      → IsSound interval (record c { held = held; forwarded = ms })
  hold-IsSound held ms = record {
    told = h.told;
    published = h.published;
    over = h.over;
    no_pings = h.no_pings;
    unblamed = h.unblamed;
    only_pongs = h.only_pongs;
    in_context = h.in_context;
  }

  take-IsSound : IsSound interval (stream_step interval take c)
  unfolding stream_step
  take-IsSound = go c.held
    where
      go :
          (o : Option RawMessage)
          → IsSound interval (elim o as (λ _. Conn) [
            | none ↦ c
            | some m ↦ record c { held = none; forwarded = c.forwarded ++ (m ∷ []) }
          ])
      go none = h
      go (some m) = hold-IsSound none (c.forwarded ++ (m ∷ []))

  give_up-IsSound : IsSound interval (stream_step interval give_up c)
  unfolding stream_step
  give_up-IsSound = go c.held c.done refl
    where
      go :
          (o : Option RawMessage) (b : Bool)
          → c.done ≡ b
          → IsSound interval (elim o as (λ _. Conn) [
            | none ↦ c
            | some m ↦ if b then record c { result = some context_error } else c
          ])
      go none b e = h
      go (some m) false e = h
      go (some m) true e = record {
        told = λ p q. cc;
        published = λ p q. cc;
        over = h.over;
        no_pings = h.no_pings;
        unblamed = λ p q. cc;
        only_pongs = h.only_pongs;
        in_context = λ q. e;
      }

  on_read-IsSound : (r : Read) → IsSound interval (on_read r c)
  unfolding on_read
  on_read-IsSound r = go c.held
    where
      got_message :
          (o : Result RawMessage)
          → read c.done r ≡ o
          → IsSound interval (elim o as (λ _. Conn) [
            | ok m ↦ record c { held = some m }
            | failed e ↦ read_error (is_context r) e c
          ])
      got_message (ok m) q = hold-IsSound (some m) c.forwarded
      got_message (failed e) q =
          read_error-IsSound interval (is_context r) e c (read-IsOwn c.done r e q) h

      go :
          (o : Option RawMessage)
          → IsSound interval (elim o as (λ _. Conn) [
            | some _ ↦ c
            | none ↦ elim (read c.done r) as (λ _. Conn) [
              | ok m ↦ record c { held = some m }
              | failed e ↦ read_error (is_context r) e c
            ]
          ])
      go (some m) = h
      go none = got_message (read c.done r) refl

  finish-IsSound :
      c.pinger ≡ pinging → IsSound interval (record c { pinger = ended; ping_err = some none })
  finish-IsSound e = record {
    told = λ p q. absurd (differ (sym e ∙ h.over p));
    published = λ p q. cc;
    over = λ p. refl;
    no_pings = λ p q. cc;
    unblamed = h.unblamed;
    only_pongs = λ x q. cc;
    in_context = h.in_context;
  }
    where
      differ : pinging ≡ ended → ⊥
      differ q = cc

  diagnose-IsSound :
      c.pinger ≡ pinging
      → leb_ℤ interval (pos 0) ≡ false
      → IsSound interval (record c { pinger = diagnosed; ping_err = some (some no_pong) })
  diagnose-IsSound e n = record {
    told = λ p q. refl;
    published = λ p q. refl;
    over = λ p. absurd (differ (sym e ∙ h.over p));
    no_pings = λ p q. absurd (both n p);
    unblamed = h.unblamed;
    only_pongs = λ x q. cc;
    in_context = h.in_context;
  }
    where
      differ : pinging ≡ ended → ⊥
      differ q = cc

      both : {b : Bool} → b ≡ false → b ≡ true → ⊥
      both p q = cc

  hang_up-IsSound :
      c.pinger ≡ diagnosed → IsSound interval (record c { pinger = ended; closed = true })
  hang_up-IsSound e = record {
    told = λ p q. h.published e q;
    published = λ p q. cc;
    over = λ p. refl;
    no_pings = h.no_pings;
    unblamed = h.unblamed;
    only_pongs = h.only_pongs;
    in_context = h.in_context;
  }

  silence-IsSound :
      c.pinger ≡ pinging → leb_ℤ interval (pos 0) ≡ false → IsSound interval (on_silence c)
  unfolding on_silence
  silence-IsSound e n = go c.done
    where
      go :
          (b : Bool)
          → IsSound interval (
              if b
              then record c { pinger = ended; ping_err = some none }
              else record c { pinger = diagnosed; ping_err = some (some no_pong) })
      go true = finish-IsSound e
      go false = diagnose-IsSound e n

  stop_pings-IsSound : IsSound interval (ping_step interval stop_pings c)
  unfolding ping_step
  stop_pings-IsSound = go c.pinger c.done refl
    where
      go :
          (p : Pinger) (b : Bool)
          → c.pinger ≡ p
          → IsSound interval (elim p as (λ _. Conn) [
            | pinging ↦ if b then record c { pinger = ended; ping_err = some none } else c
            | _ ↦ c
          ])
      go pinging true e = finish-IsSound e
      go pinging false e = h
      go diagnosed b e = h
      go ended b e = h

  closing-IsSound : IsSound interval (ping_step interval hang_up c)
  unfolding ping_step
  closing-IsSound = go c.pinger refl
    where
      go :
          (p : Pinger)
          → c.pinger ≡ p
          → IsSound interval (elim p as (λ _. Conn) [
            | diagnosed ↦ record c { pinger = ended; closed = true }
            | _ ↦ c
          ])
      go pinging e = h
      go diagnosed e = hang_up-IsSound e
      go ended e = h

  pong-IsSound : (answered : Bool) → IsSound interval (ping_step interval (pong answered) c)
  unfolding ping_step
  pong-IsSound answered = go c.pinger (leb_ℤ interval (pos 0)) answered refl refl
    where
      go :
          (p : Pinger) (off answered : Bool)
          → c.pinger ≡ p
          → leb_ℤ interval (pos 0) ≡ off
          → IsSound interval (elim p as (λ _. Conn) [
            | pinging ↦ if off then c else if answered then c else on_silence c
            | _ ↦ c
          ])
      go pinging true answered e n = h
      go pinging false true e n = h
      go pinging false false e n = silence-IsSound e n
      go diagnosed off answered e n = h
      go ended off answered e n = h

  stream_step-IsSound : (a : Action) → IsSound interval (stream_step interval a c)
  unfolding stream_step
  stream_step-IsSound cancel = cancel-IsSound
  stream_step-IsSound take = take-IsSound
  stream_step-IsSound give_up = give_up-IsSound
  stream_step-IsSound (reads r) = on_read-IsSound r
  stream_step-IsSound (pong answered) = pong-IsSound answered
  stream_step-IsSound stop_pings = stop_pings-IsSound
  stream_step-IsSound hang_up = closing-IsSound

pub stream_steps-IsSound :
    (interval : ℤ) (actions : List Action) (c : Conn)
    → IsSound interval c
    → IsSound interval (stream_steps interval actions c)
unfolding stream_steps
stream_steps-IsSound interval [] c h = h
stream_steps-IsSound interval (a ∷ rest) c h =
    let more =
      stream_steps-IsSound interval rest (stream_step interval a c)
        (stream_step-IsSound interval c h a) in
    elim c.result
      as (λ o. IsSound interval (elim o as (λ _. Conn) [
        | some _ ↦ c
        | none ↦ stream_steps interval rest (stream_step interval a c)
      ])) [ some _ ↦ h | none ↦ more ]

on_read-told :
    (r : Read) (e : StreamError) (c : Conn)
    → c.ping_err ≡ some (some no_pong)
    → c.held ≡ none
    → read c.done r ≡ failed e
    → (on_read r c).result ≡ some no_pong
unfolding on_read read_error
on_read-told r e c told free bad =
    ap
      (λ o.
        (elim o as (λ _. Conn) [
          | some _ ↦ c
          | none ↦ elim (read c.done r) as (λ _. Conn) [
            | ok m ↦ record c { held = some m }
            | failed x ↦ read_error (is_context r) x c
          ]
        ]).result)
      free
    ∙ ap
        (λ o.
          (elim o as (λ _. Conn) [
            | ok m ↦ record c { held = some m }
            | failed x ↦ read_error (is_context r) x c
          ]).result)
        bad
    ∙ ap (λ o. some (reason o (c.done && is_context r) e)) told

-- Once the ping loop has closed the connection, an error of any read makes Stream return that no
-- pong came, whatever the error is; where there are no pings, it never returns that; and it
-- returns that the context has ended only when it has.
pub stream_diagnosis :
    (interval : ℤ) (actions : List Action)
    → let c = stream_steps interval actions connected in
      ((r : Read) (e : StreamError)
        → c.closed ≡ true
        → c.result ≡ none
        → c.held ≡ none
        → read c.done r ≡ failed e
        → (on_read r c).result ≡ some no_pong)
      × (leb_ℤ interval (pos 0) ≡ true → c.result ≢ some no_pong)
      × (c.result ≡ some context_error → c.done ≡ true)
stream_diagnosis interval actions =
    let c = stream_steps interval actions connected in
    let h = stream_steps-IsSound interval actions connected (connected-IsSound interval) in
    (
      λ r e closed run free bad. on_read-told r e c (h.told closed run) free bad,
      h.unblamed,
      h.in_context,
    )
