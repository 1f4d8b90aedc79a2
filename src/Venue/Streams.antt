-- ===== src/Venue/Streams.antt =====
-- The streams that `streamURL` of internal/venue/binance/binance.go asks for, and the instruments
-- that their trades are decoded to.
use real_time_market_data_pi.Base.{
  ◌-◌, ◌≡◌, refl, sym, subst, true, All, ap, ap₂, ◌∙◌, Option, none, some, List, [], ◌∷◌, ◌++◌, map,
  length, length-append, take, take_prefix, take_all, arith,
}
use real_time_market_data_pi.Base.Bytes.{Str, str}
use real_time_market_data_pi.Base.Text.{Unicode, is_ascii, to_lower, to_upper, to_lower_of}
use real_time_market_data_pi.Registry.{
  Mapping, Registry, new_registry, register, symbol, canonical, venue_key, get2,
}
use real_time_market_data_pi.Registry.Inverse.{canonical-symbol}
use real_time_market_data_pi.Tick.{venue_binance}
use real_time_market_data_pi.Venue.{Result, ok, failed, no_symbol, streams_of}

is_ascii-to_lower : (s : Str) → is_ascii s ≡ true → is_ascii (to_lower s) ≡ true
is_ascii-to_lower [] h = refl
is_ascii-to_lower (c ∷ s) h = ground (arith, is_ascii-to_lower s)

to_upper-to_lower : (s : Str) → to_upper (to_lower s) ≡ to_upper s
to_upper-to_lower [] = refl
to_upper-to_lower (c ∷ s) = ap₂ (λ x l. x ∷ l) (ground arith) (to_upper-to_lower s)

to_lower-to_lower : (s : Str) → to_lower (to_lower s) ≡ to_lower s
to_lower-to_lower [] = refl
to_lower-to_lower (c ∷ s) = ap₂ (λ x l. x ∷ l) (ground arith) (to_lower-to_lower s)

-- The symbol of a stream: its text without `@trade`.
abbrev pub symbol_in : Str → Str
symbol_in stream = take (length stream - 6) stream

symbol_in_lem : (s : Str) → symbol_in (s ++ str "@trade") ≡ s
symbol_in_lem s =
    ap (λ n. take n (s ++ str "@trade")) {y = length s}
      (omega (arith, length-append s (str "@trade")))
    ∙ take_prefix (length s) s (str "@trade") (omega arith)
    ∙ take_all (length s) s (omega arith)

ok_inj : {a b : List Str} → ok a ≡ ok b → a ≡ b
ok_inj e = cc

-- A symbol in lower case with `@trade` behind it.
abbrev pub IsLowered : Str → Type 0
IsLowered stream = stream ≡ to_lower (symbol_in stream) ++ str "@trade"

abbrev pub AsciiText : Option Str → Type 0
AsciiText none = Unit
AsciiText (some s) = is_ascii s ≡ true

-- The venue's symbol of an instrument, where there is one, is an ASCII text.
abbrev pub HasAscii : Registry → Str → Type 0
HasAscii reg id = AsciiText (symbol venue_binance id reg)

module _ (uc : Unicode) where
  venue_key-to_lower : (s : Str) → is_ascii s ≡ true → venue_key uc (to_lower s) ≡ venue_key uc s
  unfolding venue_key
  venue_key-to_lower s h = rw (h, is_ascii-to_lower s h) (to_upper-to_lower s)

  no_streams : (reg : Registry) (ss : List Str) → streams_of uc [] reg ≡ ok ss → ss ≡ []
  unfolding streams_of
  no_streams reg ss h = sym (ok_inj h)

  abbrev Split : Registry → Str → List Str → List Str → Type 0
  Split reg id ids ss =
      (s : Str) × (rest : List Str) × (symbol venue_binance id reg ≡ some s)
      × (streams_of uc ids reg ≡ ok rest)
      × (ss ≡ (to_lower_of uc s ++ str "@trade") ∷ rest)

  streams_of-Split :
      (reg : Registry) (id : Str) (ids ss : List Str)
      → streams_of uc (id ∷ ids) reg ≡ ok ss
      → Split reg id ids ss
  unfolding streams_of
  streams_of-Split reg id ids ss h =
      go (symbol venue_binance id reg) (streams_of uc ids reg) refl refl h
    where
      go :
          (o : Option Str) (r : Result (List Str))
          → symbol venue_binance id reg ≡ o
          → streams_of uc ids reg ≡ r
          → (elim o as (λ _. Result (List Str)) [
            | none ↦ failed (no_symbol id)
            | some s ↦ elim r as (λ _. Result (List Str)) [
              | failed e ↦ failed e
              | ok rest ↦ ok ((to_lower_of uc s ++ str "@trade") ∷ rest)
            ]
          ])
            ≡ ok ss
          → Split reg id ids ss
      go none r p q e = cc
      go (some s) (failed x) p q e = cc
      go (some s) (ok rest) p q e = (s, rest, p, q, sym (ok_inj e))

  canonical-stream :
      (ms : List Mapping) (id s : Str)
      → let reg = (register uc ms new_registry).1 in
        is_ascii s ≡ true
        → symbol venue_binance id reg ≡ some s
        → canonical uc venue_binance (symbol_in (to_lower_of uc s ++ str "@trade")) reg ≡ some id
  unfolding canonical
  canonical-stream ms id s asc h =
      let reg = (register uc ms new_registry).1 in
      ap (λ k. get2 venue_binance (venue_key uc k) reg.to_canoni) {y = to_lower s}
        (symbol_in_lem (to_lower_of uc s) ∙ (rw asc refl))
      ∙ ap (λ k. get2 venue_binance k reg.to_canoni) (venue_key-to_lower s asc)
      ∙ (canonical-symbol uc ms venue_binance id s).0 h

  lowered : (s : Str) → is_ascii s ≡ true → IsLowered (to_lower_of uc s ++ str "@trade")
  lowered s asc = rw asc (
      ap (λ k. k ++ str "@trade")
        (sym (ap to_lower (symbol_in_lem (to_lower s)) ∙ to_lower-to_lower s)))

  -- In a registry built by registrations, failed ones included, where the symbols of the
  -- instruments asked for are ASCII texts: the streams that are asked for are one for each
  -- instrument, in order; each is a symbol in lower case with @trade behind it, and the symbol
  -- reads back as that instrument.
  pub streams_back :
      (ms : List Mapping) (ids ss : List Str)
      → let reg = (register uc ms new_registry).1 in
        All (HasAscii reg) ids
        → streams_of uc ids reg ≡ ok ss
        → (map (λ s. canonical uc venue_binance (symbol_in s) reg) ss ≡ map (λ id. some id) ids)
          × All IsLowered ss
  streams_back ms [] ss a h =
      let none_asked = no_streams (register uc ms new_registry).1 ss h in
      (
        ap (map (λ s. canonical uc venue_binance (symbol_in s) (register uc ms new_registry).1))
            none_asked,
        subst (All IsLowered) (sym none_asked) tt,
      )
  streams_back ms (id ∷ ids) ss a h =
      let reg = (register uc ms new_registry).1 in
      let (s, rest, known, more, whole) = streams_of-Split reg id ids ss h in
      let asc : is_ascii s ≡ true = subst AsciiText known a.0 in
      let (back, low) = streams_back ms ids rest a.1 more in
      (
        ap (map (λ k. canonical uc venue_binance (symbol_in k) reg)) whole
            ∙ ap₂ (λ x l. x ∷ l) (canonical-stream ms id s asc known) back,
        subst (All IsLowered) (sym whole) (lowered s asc, low),
      )
