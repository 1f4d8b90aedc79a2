-- ===== src/Api/Stream/Sound.antt =====
-- The fan-out of internal/api/wsapi/wsapi.go over any sequence of requests, ticks and reads.
use real_time_market_data_pi.Base.{
  ℕ, zero, suc, ◌+◌, ◌%◌, ◌≤◌, ◌≡◌, refl, sym, ap, ap₂, subst, ◌∙◌, inl, inr, Bool, true, false,
  Bool-cases, Option, none, some, Option-cases, List, [], ◌∷◌, ◌++◌, All, All-append, length,
  length-append, length-drop, ltb→lt, lt→ltb, if◌then◌else◌, arith,
}
use real_time_market_data_pi.Base.Bytes.{Str}
use real_time_market_data_pi.Base.Int64.{two64}
use real_time_market_data_pi.Tick.{Tick}
use real_time_market_data_pi.Bus.Fanout.{get_elem?, modify}
use real_time_market_data_pi.Api.Stream.{
  Client, Server, Outbound, ServeEvent, Action, cancelled, closed, ready, ping, request, tick,
  serving, client_queue, new_server, new_client, wants, close, has_room, push, evict, send_frame,
  serve_step, take_ticks, Race, offer, offer_all, broadcast, leave, end_round, serve_client, accept,
  act, act_all, stats,
}

-- The queue fits, and a client is listed as long as its handler runs.
pub record IsKept (c : Client) : Type 0 where
  pub fits : length c.out ≤ client_queue
  pub listed_serving : c.listed ≡ c.serving

-- What a client keeps while its queue is read.
record Reads (c c' : Client) : Type 0 where
  same_listed : c'.listed ≡ c.listed
  same_serving : c'.serving ≡ c.serving
  fewer : length c'.out ≤ length c.out

Reads-trans : (a b c : Client) → Reads a b → Reads b c → Reads a c
Reads-trans a b c p q = record {
  same_listed = q.same_listed ∙ p.same_listed;
  same_serving = q.same_serving ∙ p.same_serving;
  fewer = omega (arith, p.fewer, q.fewer);
}

IsKept-Reads : (c c' : Client) → IsKept c → Reads c c' → IsKept c'
IsKept-Reads c c' k r = record {
  fits = omega (arith, k.fits, r.fewer);
  listed_serving = r.same_listed ∙ k.listed_serving ∙ sym r.same_serving;
}

evict-Reads : (c : Client) → Reads c (evict c)
unfolding evict
evict-Reads c = record {
  same_listed = refl;
  same_serving = refl;
  fewer = omega (arith, length-drop 1 c.out);
}

abbrev weight : Bool → ℕ
weight b = if b then 1 else 0

-- The listed clients.
abbrev pub listed_in : List Client → ℕ
listed_in [] = 0
listed_in (c ∷ cs) = (if c.listed then 1 else 0) + listed_in cs

-- The counters and the queues of a server.
pub record IsSound (s : Server) : Type 0 where
  pub no_kick : s.kicked ≡ 0
  pub counted : s.connected ≡ listed_in s.clients % two64
  pub kept : All IsKept s.clients

listed_in-append : (xs ys : List Client) → listed_in (xs ++ ys) ≡ listed_in xs + listed_in ys
listed_in-append [] ys = omega arith
listed_in-append (x ∷ xs) ys = omega (arith, listed_in-append xs ys)

accept-IsSound : (ok : Bool) (raw : Str) (s : Server) → IsSound s → IsSound (accept ok raw s)
unfolding accept new_client
accept-IsSound false raw s h = h
accept-IsSound true raw s h = record {
  no_kick = h.no_kick;
  counted = omega (arith, h.counted, listed_in-append s.clients (new_client raw ∷ []));
  kept =
      All-append IsKept s.clients (new_client raw ∷ []) h.kept
        (record { fits = omega arith; listed_serving = refl }, tt);
}

some-eq : {x y : Client} → ◌≡◌ {A = Option Client} (some x) (some y) → x ≡ y
some-eq e = cc

All-get :
    (cs : List Client) (i : ℕ) (c : Client) → All IsKept cs → get_elem? cs i ≡ some c → IsKept c
All-get [] i c h e = cc
All-get (x ∷ xs) zero c h e = subst IsKept (some-eq e) h.0
All-get (x ∷ xs) (suc i) c h e = All-get xs i c h.1 e

module _ (f : Client → Client) where
  All-modify :
      (cs : List Client) (i : ℕ) (c : Client)
      → All IsKept cs
      → get_elem? cs i ≡ some c
      → (IsKept c → IsKept (f c))
      → All IsKept (modify cs i f)
  All-modify [] i c h e g = tt
  All-modify (x ∷ xs) zero c h e g =
      (subst (λ y. IsKept y → IsKept (f y)) (sym (some-eq e)) g h.0, h.1)
  All-modify (x ∷ xs) (suc i) c h e g = (h.0, All-modify xs i c h.1 e g)

  listed_in-modify :
      (cs : List Client) (i : ℕ) (c : Client)
      → get_elem? cs i ≡ some c
      → listed_in (modify cs i f) + (if c.listed then 1 else 0)
        ≡ listed_in cs + (if (f c).listed then 1 else 0)
  listed_in-modify [] i c e = cc
  listed_in-modify (x ∷ xs) zero c e =
      subst
        (λ y.
          (if (f x).listed then 1 else 0) + listed_in xs + (if y.listed then 1 else 0)
          ≡ (if x.listed then 1 else 0) + listed_in xs + (if (f y).listed then 1 else 0))
        (some-eq e) (omega arith)
  listed_in-modify (x ∷ xs) (suc i) c e = omega (arith, listed_in-modify xs i c e)

module _ (marshal : Outbound → Option Str) where
  serve_step-Reads :
      (e : ServeEvent) (c : Client) {c' : Client} → serve_step marshal e c ≡ some c' → Reads c c'
  unfolding serve_step send_frame
  serve_step-Reads cancelled c {c'} h = cc
  serve_step-Reads closed c {c'} h = record {
    same_listed = ground (arith, h);
    same_serving = ground (arith, h);
    fewer = ground (arith, h);
  }
  serve_step-Reads (ready ok) c {c'} h = record {
    same_listed = ground (arith, h);
    same_serving = ground (arith, h);
    fewer = ground (arith, h);
  }
  serve_step-Reads (ping ok) c {c'} h = record {
    same_listed = ground (arith, h);
    same_serving = ground (arith, h);
    fewer = ground (arith, h);
  }

  take_ticks-Reads : (n : ℕ) (c : Client) → Reads c (take_ticks marshal n c)
  unfolding take_ticks
  take_ticks-Reads zero c = record { same_listed = refl; same_serving = refl; fewer = omega arith }
  take_ticks-Reads (suc n) c = elim (Option-cases (serve_step marshal (ready true) c)) [
    | inl e ↦
        rw (e, take_ticks) (record { same_listed = refl; same_serving = refl; fewer = omega arith })
    | inr (c', e) ↦
        rw (e, take_ticks)
          (Reads-trans c c' (take_ticks marshal n c') (serve_step-Reads (ready true) c e)
            (take_ticks-Reads n c'))
  ]

  -- What an offer does to a client that is within its bounds.
  record Offered (c : Client) (r : Client × Bool) : Type 0 where
    kept : IsKept r.0
    no_kick : r.1 ≡ false
    same_listed : r.0.listed ≡ c.listed

  push-IsKept : (t : Tick) (c : Client) → IsKept c → has_room c ≡ true → IsKept (push t c)
  unfolding push has_room
  push-IsKept t c k h = record {
    fits = omega (arith, length-append c.out (t ∷ []), ltb→lt (length c.out) client_queue h);
    listed_serving = k.listed_serving;
  }

  -- An eviction leaves room, whatever is read besides.
  evict_room : (n : ℕ) (c : Client) → IsKept c → has_room (take_ticks marshal n (evict c)) ≡ true
  unfolding evict has_room
  evict_room n c k =
      lt→ltb _ _ (omega (arith, k.fits, length-drop 1 c.out, (take_ticks-Reads n (evict c)).fewer))

  offer-Offered :
      (race : Race) (t : Tick) (c : Client) → IsKept c → Offered c (offer marshal race t c)
  unfolding offer
  offer-Offered race t c k =
      let c1 = take_ticks marshal race.0 c in
      let c2 = take_ticks marshal race.1 (evict c1) in
      let r = Reads-trans c c1 (evict c1) (take_ticks-Reads race.0 c) (evict-Reads c1) in
      let r2 = Reads-trans c (evict c1) c2 r (take_ticks-Reads race.1 (evict c1)) in
      let room = evict_room race.1 c1 (IsKept-Reads c c1 k (take_ticks-Reads race.0 c)) in
      elim (Bool-cases (wants c t)) [
        | inr e ↦ rw e (record { kept = k; no_kick = refl; same_listed = refl })
        | inl e ↦ elim (Bool-cases (has_room c)) [
          | inl h ↦
              rw (e, h)
                (record {
                  kept = push-IsKept t c k h;
                  no_kick = refl;
                  same_listed = unfold push in refl;
                })
          | inr h ↦
              rw (e, h, room)
                (record {
                  kept = push-IsKept t c2 (IsKept-Reads c c2 k r2) room;
                  no_kick = refl;
                  same_listed = unfold push in r2.same_listed;
                })
        ]
      ]

  record OfferedAll (cs : List Client) (k : ℕ) (r : List Client × ℕ) : Type 0 where
    kept : All IsKept r.0
    no_kick : r.1 ≡ k
    same_listed : listed_in r.0 ≡ listed_in cs

  offer_one :
      (race : Race) (t : Tick) (c : Client) (targeted : Bool)
      → IsKept c
      → Offered c (if targeted then offer marshal race t c else (c, false))
  offer_one race t c true k = offer-Offered race t c k
  offer_one race t c false k = record { kept = k; no_kick = refl; same_listed = refl }

  offer_all-OfferedAll :
      (races : ℕ → Race) (i : ℕ) (t : Tick) (cs : List Client) (k : ℕ)
      → All IsKept cs
      → OfferedAll cs k (offer_all marshal races i t cs k)
  unfolding offer_all
  offer_all-OfferedAll races i t [] k h = record { kept = tt; no_kick = refl; same_listed = refl }
  offer_all-OfferedAll races i t (c ∷ cs) k h =
      let o = offer_one (races i) t c c.listed h.0 in
      let ih = offer_all-OfferedAll races (suc i) t cs k h.1 in
      rw o.no_kick (record {
        kept = (o.kept, ih.kept);
        no_kick = ih.no_kick;
        same_listed = rw (o.same_listed, ih.same_listed) refl;
      })

  broadcast-IsSound :
      (races : ℕ → Race) (t : Tick) (s : Server) → IsSound s → IsSound (broadcast marshal races t s)
  unfolding broadcast
  broadcast-IsSound races t s h =
      let o = offer_all-OfferedAll races 0 t s.clients s.kicked h.kept in
      record {
        no_kick = o.no_kick ∙ h.no_kick;
        counted = h.counted ∙ ap (λ n. n % two64) (sym o.same_listed);
        kept = o.kept;
      }

  end_round-IsSound :
      (i : ℕ) (c : Client) (o : Option Client) (s : Server)
      → IsSound s
      → get_elem? s.clients i ≡ some c
      → c.serving ≡ true
      → ((c' : Client) → o ≡ some c' → Reads c c')
      → IsSound (end_round i o s)
  unfolding end_round leave close
  end_round-IsSound i c (some c') s h g q step =
      let r = step c' refl in
      record {
        no_kick = h.no_kick;
        counted =
            h.counted
            ∙ ap (λ n. n % two64) {x = listed_in s.clients}
                (omega
                  (arith, listed_in-modify (λ _. c') s.clients i c g, ap weight r.same_listed));
        kept = All-modify (λ _. c') s.clients i c h.kept g (λ k. IsKept-Reads c c' k r);
      }
  end_round-IsSound i c none s h g q step = record {
    no_kick = h.no_kick;
    counted =
        let k = All-get s.clients i c h.kept g in
        omega (
          arith,
          h.counted,
          listed_in-modify leave s.clients i c g,
          ap weight (k.listed_serving ∙ q),
        );
    kept =
        All-modify leave s.clients i c h.kept g
          (λ k. record { fits = k.fits; listed_serving = refl });
  }

  IsSound-if :
      (b : Bool) (s s' : Server)
      → IsSound s'
      → (b ≡ true → IsSound s)
      → IsSound (if b then s else s')
  IsSound-if true s s' h' h = h refl
  IsSound-if false s s' h' h = h'

  serve_client-IsSound :
      (i : ℕ) (e : ServeEvent) (s : Server) → IsSound s → IsSound (serve_client marshal i e s)
  unfolding serve_client
  serve_client-IsSound i e s h = elim (Option-cases (get_elem? s.clients i)) [
    | inl g ↦ rw (g, serve_client) h
    | inr (c, g) ↦
        rw (g, serve_client)
          (IsSound-if c.serving (end_round i (serve_step marshal e c) s) s h (λ q.
            end_round-IsSound i c (serve_step marshal e c) s h g q
              (λ c' e'. serve_step-Reads e c e')))
  ]

  act-IsSound : (a : Action) (s : Server) → IsSound s → IsSound (act marshal a s)
  unfolding act
  act-IsSound (request ok raw) s h = accept-IsSound ok raw s h
  act-IsSound (tick races t) s h = broadcast-IsSound races t s h
  act-IsSound (serving i e) s h = serve_client-IsSound i e s h

  act_all-IsSound : (as' : List Action) (s : Server) → IsSound s → IsSound (act_all marshal as' s)
  unfolding act_all
  act_all-IsSound [] s h = h
  act_all-IsSound (a ∷ rest) s h = act_all-IsSound rest (act marshal a s) (act-IsSound a s h)

  -- Whatever requests, ticks and reads a new server sees, and however they interleave, no client
  -- is ever kicked, each queue holds 64 ticks at most, a client is listed exactly as long as its
  -- handler runs, and the reported number of connections is that of the listed clients, modulo
  -- 2^64.
  pub act_all_sound :
      (actions : List Action)
      → let s = act_all marshal actions new_server in
        (stats s ≡ (listed_in s.clients % two64, 0)) × All IsKept s.clients
  unfolding stats new_server
  act_all_sound actions =
      let h =
        act_all-IsSound actions new_server (record { no_kick = refl; counted = refl; kept = tt }) in
      (ap₂ (λ n k. (n, k)) h.counted h.no_kick, h.kept)
