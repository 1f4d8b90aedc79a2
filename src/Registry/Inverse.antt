-- ===== src/Registry/Inverse.antt =====
-- The two maps of internal/instrument/registry.go.
use real_time_market_data_pi.Base.{
  ◌≡◌, refl, sym, ap, ◌∙◌, ◌⊎◌, inl, inr, false, Bool-cases, Option, none, some, Option-cases, List,
  [], ◌∷◌, ◌&&◌, ◌||◌, if◌then◌else◌, same, list_eq, nat_eq, list_beq_iff, arith,
}
use real_time_market_data_pi.Base.Bytes.{Str}
use real_time_market_data_pi.Base.Text.{Unicode}
use real_time_market_data_pi.Base.Assoc.{Assoc, lookup, insert, lookup-insert}
use real_time_market_data_pi.Registry.{
  Mapping, Registry, get2, put2, venue_key, ensure, register_one, register, symbol, canonical,
  new_registry, conflicts, is_blank,
}

inner_of : Str → Assoc Str (Assoc Str Str) → Assoc Str Str
inner_of v m = elim (lookup v m) [ none ↦ [] | some l ↦ l ]

get2-put2 :
    (v k x u j : Str) (m : Assoc Str (Assoc Str Str))
    → get2 u j (put2 v k x m) ≡ (if same v u && same k j then some x else get2 u j m)
unfolding get2 put2 inner_of
get2-put2 v k x u j m = ground (
  arith,
  lookup-insert v u (insert k x (inner_of v m)) m,
  lookup-insert k j x (inner_of v m),
  list_beq_iff v u,
)

some_inj {ℓ} : {A : Type ℓ} {a b : A} → some a ≡ some b → a ≡ b
some_inj h = cc

-- A write that is let through meets no entry, or the entry it would write.
conflicts-free : (o : Option Str) (w : Str) → conflicts o w ≡ false → (o ≡ none) ⊎ (o ≡ some w)
conflicts-free none w h = inl refl
conflicts-free (some a) w h = elim (Bool-cases (same a w)) [
  | inl e ↦ inr (ap some ((list_beq_iff a w).0 e))
  | inr e ↦ absurd (cc)
]

module _ (uc : Unicode) where
  -- Both ways between the maps, and no venue in the one map alone.
  pub record IsInverse (r : Registry) : Type 0 where
    pub there :
        (v id s : Str)
        → get2 v id r.to_venue ≡ some s
        → get2 v (venue_key uc s) r.to_canoni ≡ some id
    pub back :
        (v k id : Str)
        → get2 v k r.to_canoni ≡ some id
        → (s : Str) × (get2 v id r.to_venue ≡ some s) × (venue_key uc s ≡ k)
    pub paired : (v : Str) → lookup v r.to_venue ≡ none → lookup v r.to_canoni ≡ none

  get2-ensure_venue :
      (v u id : Str) (r : Registry) → get2 u id (ensure v r).to_venue ≡ get2 u id r.to_venue
  unfolding ensure get2
  get2-ensure_venue v u id r = elim (Option-cases (lookup v r.to_venue)) [
    | inl e ↦ ground (arith, e, lookup-insert v u [] r.to_venue, list_beq_iff v u)
    | inr (_, e) ↦ rw (ensure, e) refl
  ]

  get2-ensure_canoni :
      (v u k : Str) (r : Registry)
      → IsInverse r
      → get2 u k (ensure v r).to_canoni ≡ get2 u k r.to_canoni
  unfolding ensure get2
  get2-ensure_canoni v u k r inv = elim (Option-cases (lookup v r.to_venue)) [
    | inl e ↦ ground (arith, e, inv.paired v e, lookup-insert v u [] r.to_canoni, list_beq_iff v u)
    | inr (_, e) ↦ rw (ensure, e) refl
  ]

  ensure_paired :
      (v : Str) (r : Registry)
      → IsInverse r
      → (u : Str) → lookup u (ensure v r).to_venue ≡ none
      → lookup u (ensure v r).to_canoni ≡ none
  unfolding ensure
  ensure_paired v r inv u h = elim (Option-cases (lookup v r.to_venue)) [
    | inl e ↦ ground (
      arith,
      e,
      h,
      inv.paired u,
      lookup-insert v u [] r.to_canoni,
      lookup-insert v u [] r.to_venue,
    )
    | inr (_, e) ↦ ground (arith, e, h, inv.paired u)
  ]

  ensure-IsInverse : (v : Str) (r : Registry) → IsInverse r → IsInverse (ensure v r)
  ensure-IsInverse v r inv = record {
    there = λ u id s h.
        get2-ensure_canoni v u (venue_key uc s) r inv
        ∙ inv.there u id s (sym (get2-ensure_venue v u id r) ∙ h);
    back = λ u k id h.
        let (s, p, q) = inv.back u k id (sym (get2-ensure_canoni v u k r inv) ∙ h) in
        (s, get2-ensure_venue v u id r ∙ p, q);
    paired = λ u h. ensure_paired v r inv u h;
  }

  -- The two writes of a registration.
  module _ (v id s : Str) (r : Registry) (inv : IsInverse r)
      (free : (get2 v id r.to_venue ≡ none) ⊎ (get2 v id r.to_venue ≡ some s))
      (free' : (get2 v (venue_key uc s) r.to_canoni ≡ none)
        ⊎ (get2 v (venue_key uc s) r.to_canoni ≡ some id)) where
    written : Registry
    written = record {
      to_venue = put2 v id s r.to_venue;
      to_canoni = put2 v (venue_key uc s) id r.to_canoni;
    }

    written_there :
        (u j t : Str)
        → get2 u j written.to_venue ≡ some t
        → get2 u (venue_key uc t) written.to_canoni ≡ some j
    unfolding written
    written_there u j t h = ground (
      arith,
      get2-put2 v id s u j r.to_venue,
      get2-put2 v (venue_key uc s) id u (venue_key uc t) r.to_canoni,
      inv.there u j t,
      list_beq_iff v u,
      list_beq_iff id j,
      list_beq_iff (venue_key uc s) (venue_key uc t),
    )

    written_back :
        (u k j : Str)
        → get2 u k written.to_canoni ≡ some j
        → (t : Str) × (get2 u j written.to_venue ≡ some t) × (venue_key uc t ≡ k)
    unfolding written
    written_back u k j h = elim (Bool-cases (same v u && same (venue_key uc s) k)) [
      | inl e ↦ (
        s,
        ground (
          arith,
          e,
          h,
          get2-put2 v id s u j r.to_venue,
          get2-put2 v (venue_key uc s) id u k r.to_canoni,
          list_beq_iff id j,
        ),
        ground (arith, e, list_beq_iff (venue_key uc s) k),
      )
      | inr e ↦
          let old : get2 u k r.to_canoni ≡ some j =
            ground (arith, e, h, get2-put2 v (venue_key uc s) id u k r.to_canoni) in
          let (t, p, q) = inv.back u k j old in
          (
            t,
            ground (
              arith,
              e,
              p,
              q,
              get2-put2 v id s u j r.to_venue,
              list_beq_iff v u,
              list_beq_iff id j,
              list_beq_iff (venue_key uc s) k,
            ),
            q,
          )
    ]

    written_paired :
        (u : Str) → lookup u written.to_venue ≡ none → lookup u written.to_canoni ≡ none
    unfolding written put2 inner_of
    written_paired u h =
        let t = lookup-insert v u (insert id s (inner_of v r.to_venue)) r.to_venue in
        let c =
          lookup-insert v u (insert (venue_key uc s) id (inner_of v r.to_canoni)) r.to_canoni in
        elim (Bool-cases (same v u)) [
          | inl e ↦ absurd (ground (arith, e, h, t))
          | inr e ↦ c ∙ (rw e (inv.paired u (ground (arith, e, h, t))))
        ]

    written-IsInverse : IsInverse written
    written-IsInverse = record {
      there = written_there;
      back = written_back;
      paired = written_paired;
    }

  -- The mapping's own texts are not blank whenever something was written; the error paths write nothing
  -- but empty inner maps.
  register_one-IsInverse :
      (m : Mapping) (r : Registry) → IsInverse r → IsInverse (register_one uc m r).1
  unfolding register_one written
  register_one-IsInverse m r inv =
      let r1 = ensure m.venue r in
      let inv1 = ensure-IsInverse m.venue r inv in
      elim (Bool-cases (is_blank m.venue || is_blank m.instrument || is_blank m.symbol)) [
        | inl e ↦ rw e inv
        | inr e ↦ elim (Bool-cases (conflicts (get2 m.venue m.instrument r1.to_venue) m.symbol)) [
          | inl c ↦ rw (e, c) inv1
          | inr c ↦
              elim (Bool-cases
                (conflicts (get2 m.venue (venue_key uc m.symbol) r1.to_canoni) m.instrument)) [
                  | inl d ↦ rw (e, c, d) inv1
                  | inr d ↦
                      rw (e, c, d)
                        (written-IsInverse m.venue m.instrument m.symbol r1 inv1
                          (conflicts-free _ m.symbol c) (conflicts-free _ m.instrument d))
                ]
        ]
      ]

  -- Registration keeps the two directions inverse, whether it succeeds or stops at an error.
  pub register-IsInverse :
      (ms : List Mapping) (r : Registry) → IsInverse r → IsInverse (register uc ms r).1
  unfolding register
  register-IsInverse [] r inv = inv
  register-IsInverse (m ∷ ms) r inv =
      let inv' = register_one-IsInverse m r inv in
      elim (Option-cases (register_one uc m r).0) [
        | inl e ↦ rw (register, e) (register-IsInverse ms (register_one uc m r).1 inv')
        | inr (_, e) ↦ rw (register, e) inv'
      ]

  pub new_registry-IsInverse : IsInverse new_registry
  unfolding new_registry get2
  new_registry-IsInverse = record {
    there = λ v id s h. absurd (cc);
    back = λ v k id h. absurd (cc);
    paired = λ v h. refl;
  }

  -- In a registry built by registrations, failed ones included, the venue's spelling of an
  -- instrument reads back as that instrument, and what a spelling reads as has a spelling there that
  -- differs from it in case only.
  pub canonical-symbol :
      (ms : List Mapping) (v id s : Str)
      → let r = (register uc ms new_registry).1 in
        (symbol v id r ≡ some s → canonical uc v s r ≡ some id)
        × (canonical uc v s r ≡ some id
            → (t : Str) × (symbol v id r ≡ some t) × (venue_key uc t ≡ venue_key uc s))
  unfolding symbol canonical
  canonical-symbol ms v id s =
      let inv = register-IsInverse ms new_registry new_registry-IsInverse in
      (inv.there v id s, inv.back v (venue_key uc s) id)
