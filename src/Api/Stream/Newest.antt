-- ===== src/Api/Stream/Newest.antt =====
-- What `broadcast` of internal/api/wsapi/wsapi.go leaves in the queues that nobody reads.
use real_time_market_data_pi.Base.{
  ℕ, suc, ◌-◌, ◌≤◌, ◌≡◌, refl, sym, ap, ap₂, ◌∙◌, ◌⊎◌, inl, inr, Bool, true, false, Bool-cases,
  Option, List, [], ◌∷◌, ◌++◌, append_assoc, append-nil, map, All, length, length-append, drop,
  drop-append, last_n, last_n-append, ltb, ltb→lt, lt→ltb, length-drop, if◌then◌else◌, arith,
}
use real_time_market_data_pi.Base.Bytes.{Str}
use real_time_market_data_pi.Tick.{Tick}
use real_time_market_data_pi.Api.Stream.{
  Client, Server, Outbound, Race, client_queue, wants, has_room, push, evict, take_ticks, offer,
  offer_all, broadcast,
}

-- The ticks that the client's filter lets through.
abbrev pub wanted : Client → List Tick → List Tick
wanted c [] = []
wanted c (t ∷ ts) = if wants c t then t ∷ wanted c ts else wanted c ts

-- The client with the newest of what it had and was offered.
abbrev pub newest : List Tick → Client → Client
newest ts c = record c { out = last_n client_queue (c.out ++ wanted c ts) }

abbrev pub reached : List Tick → Client → Client
reached ts c = if c.listed then newest ts c else c

abbrev pub Fits : Client → Type 0
Fits c = length c.out ≤ client_queue

wanted-out :
    (c : Client) (q : List Tick) (ts : List Tick) → wanted (record c { out = q }) ts ≡ wanted c ts
unfolding wants
wanted-out c q [] = refl
wanted-out c q (t ∷ ts) = rw (wanted-out c q ts) refl

last_n_fits : (q : List Tick) → length q ≤ client_queue → last_n client_queue (q ++ []) ≡ q
last_n_fits q h =
    rw append-nil (ap (λ k. drop k q) {x = length q - client_queue} {y = 0} (omega (arith, h)))

wanted-cons :
    (c : Client) (t : Tick) (ts : List Tick) → wanted c (t ∷ []) ++ wanted c ts ≡ wanted c (t ∷ ts)
wanted-cons c t ts = ground (arith, Bool-cases (wants c t))

module _ (marshal : Outbound → Option Str) where
  abbrev pub quiet : ℕ → Race
  quiet i = (0, 0)

  offer_lem :
      (t : Tick) (c : Client) → Fits c → offer marshal (0, 0) t c ≡ (newest (t ∷ []) c, false)
  unfolding offer take_ticks has_room push evict
  offer_lem t c h = elim (Bool-cases (wants c t)) [
    | inr e ↦ rw e (ap (λ q. (record c { out = q }, false)) (sym (last_n_fits c.out h)))
    | inl e ↦ elim (Bool-cases (ltb (length c.out) client_queue)) [
      | inl room ↦
          rw (e, room)
            (ap (λ q. (record c { out = q }, false)) {x = c.out ++ (t ∷ [])}
              (ap (λ k. drop k (c.out ++ (t ∷ []))) {x = 0}
                (omega
                  (arith, ltb→lt (length c.out) client_queue room, length-append c.out (t ∷ [])))))
      | inr full ↦
          let n : length c.out ≡ client_queue = ground (arith, h, full) in
          let k : ltb (length (drop 1 c.out)) client_queue ≡ true =
            lt→ltb _ _ (omega (arith, n, length-drop 1 c.out)) in
          rw (e, full, k)
            (ap (λ q. (record c { out = q }, false))
              (sym (drop-append 1 c.out (t ∷ []) (omega (arith, n)))
                ∙ ap (λ j. drop j (c.out ++ (t ∷ []))) {x = 1}
                    (omega (arith, n, length-append c.out (t ∷ [])))))
    ]
  ]

  offer_all_lem :
      (i : ℕ) (t : Tick) (cs : List Client) (k : ℕ)
      → All Fits cs
      → offer_all marshal quiet i t cs k ≡ (map (reached (t ∷ [])) cs, k)
  unfolding offer_all
  offer_all_lem i t [] k h = refl
  offer_all_lem i t (c ∷ cs) k h = rw (one t c c.listed h.0, offer_all_lem (suc i) t cs k h.1) refl
    where
      one :
          (t : Tick) (c : Client) (b : Bool)
          → Fits c
          → (if b then offer marshal (0, 0) t c else (c, false))
            ≡ (if b then newest (t ∷ []) c else c, false)
      one t c true h = offer_lem t c h
      one t c false h = refl

  -- The ticks broadcast one after the other, with no reads between.
  abbrev pub broadcasts : List Tick → Server → Server
  broadcasts [] s = s
  broadcasts (t ∷ ts) s = broadcasts ts (broadcast marshal quiet t s)

  newest-newest :
      (t : Tick) (ts : List Tick) (c : Client) → newest ts (newest (t ∷ []) c) ≡ newest (t ∷ ts) c
  newest-newest t ts c =
      let first = last_n client_queue (c.out ++ wanted c (t ∷ [])) in
      ap (λ q. record c { out = q })
        {x = last_n client_queue (first ++ wanted (record c { out = first }) ts)}
        (ap (λ w. last_n client_queue (first ++ w)) (wanted-out c first ts)
          ∙ last_n-append client_queue (c.out ++ wanted c (t ∷ [])) (wanted c ts)
          ∙ ap (last_n client_queue) (
              append_assoc c.out (wanted c (t ∷ [])) (wanted c ts)
              ∙ ap (◌++◌ c.out) (wanted-cons c t ts)))

  newest-Fits : (ts : List Tick) (c : Client) → Fits (newest ts c)
  newest-Fits ts c =
      omega
        (arith, length-drop (length (c.out ++ wanted c ts) - client_queue) (c.out ++ wanted c ts))

  reached-Fits : (ts : List Tick) (cs : List Client) → All Fits cs → All Fits (map (reached ts) cs)
  reached-Fits ts [] h = tt
  reached-Fits ts (c ∷ cs) h = (go c.listed h.0, reached-Fits ts cs h.1)
    where
      go : (b : Bool) → Fits c → Fits (if b then newest ts c else c)
      go true h = newest-Fits ts c
      go false h = h

  reached-eq :
      (ts : List Tick) (c : Client) (b : Bool)
      → c.listed ≡ b
      → reached ts c ≡ (if b then newest ts c else c)
  reached-eq ts c b e = ap (λ b. if b then newest ts c else c) e

  reached-reached :
      (t : Tick) (ts : List Tick) (cs : List Client)
      → map (reached ts) (map (reached (t ∷ [])) cs) ≡ map (reached (t ∷ ts)) cs
  reached-reached t ts [] = refl
  reached-reached t ts (c ∷ cs) =
      ap₂ (λ x xs. x ∷ xs) (go (Bool-cases c.listed)) (reached-reached t ts cs)
    where
      go :
          (c.listed ≡ true) ⊎ (c.listed ≡ false)
          → reached ts (reached (t ∷ []) c) ≡ reached (t ∷ ts) c
      go (inl e) =
          ap (reached ts) (reached-eq (t ∷ []) c true e)
          ∙ reached-eq ts (newest (t ∷ []) c) true e
          ∙ newest-newest t ts c
          ∙ sym (reached-eq (t ∷ ts) c true e)
      go (inr e) =
          ap (reached ts) (reached-eq (t ∷ []) c false e)
          ∙ reached-eq ts c false e
          ∙ sym (reached-eq (t ∷ ts) c false e)

  reached_none : (cs : List Client) → All Fits cs → map (reached []) cs ≡ cs
  reached_none [] h = refl
  reached_none (c ∷ cs) h = ap₂ (λ x xs. x ∷ xs) (go c.listed h.0) (reached_none cs h.1)
    where
      go : (b : Bool) → Fits c → (if b then newest [] c else c) ≡ c
      go true h = ap (λ q. record c { out = q }) (last_n_fits c.out h)
      go false h = refl

  -- Where no client reads meanwhile, the queue of each client that is listed and within its bound
  -- holds, after any number of broadcasts, the newest of the ticks it held and was offered through
  -- its filter, in order and 64 at most; the clients change in nothing else, those not listed in
  -- nothing at all, and no client is kicked.
  pub broadcasts_lem :
      (ts : List Tick) (s : Server)
      → All Fits s.clients
      → broadcasts ts s ≡ record s { clients = map (reached ts) s.clients }
  unfolding broadcast
  broadcasts_lem [] s h = ap (λ cs. record s { clients = cs }) (sym (reached_none s.clients h))
  broadcasts_lem (t ∷ ts) s h =
      let s' = record s { clients = map (reached (t ∷ [])) s.clients } in
      ap (broadcasts ts) (
        ap (λ (r : List Client × ℕ). record s { clients = r.0; kicked = r.1 })
          (offer_all_lem 0 t s.clients s.kicked h))
      ∙ broadcasts_lem ts s' (reached-Fits (t ∷ []) s.clients h)
      ∙ ap (λ cs. record s { clients = cs }) (reached-reached t ts s.clients)
