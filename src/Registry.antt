-- ===== src/Registry.antt =====
-- internal/instrument/registry.go and the table of internal/venue/binance/symbols.go: canonical
-- instruments and the spellings of each venue.
pub mod Inverse
use real_time_market_data_pi.Base.{
  ℕ, ◌-◌, Bool, true, false, not, ◌||◌, Option, none, some, List, [], ◌∷◌, leb, ◌&&◌, if◌then◌else◌,
  same, map, list_eq, nat_eq,
}
use real_time_market_data_pi.Base.Bytes.{Str, str}
use real_time_market_data_pi.Base.Text.{Unicode, to_upper_of}
use real_time_market_data_pi.Base.Assoc.{Assoc, lookup, insert}
use real_time_market_data_pi.Tick.{venue_binance}

pub record Mapping : Type 0 where
  pub venue : Str
  pub instrument : Str
  pub symbol : Str

pub record Registry : Type 0 where
  pub to_venue : Assoc Str (Assoc Str Str)
  pub to_canoni : Assoc Str (Assoc Str Str)

pub data RegistryError : Type 0 where
  incomplete_mapping instrument_taken symbol_taken : RegistryError

unfoldable pub new_registry : Registry
new_registry = record { to_venue = []; to_canoni = [] }

-- `m[v][k]`; a venue that is missing has the nil map.
unfoldable pub get2 : Str → Str → Assoc Str (Assoc Str Str) → Option Str
get2 v k m = elim (lookup v m) [ none ↦ none | some inner ↦ lookup k inner ]

-- `m[v][k] = x`
unfoldable pub put2 : Str → Str → Str → Assoc Str (Assoc Str Str) → Assoc Str (Assoc Str Str)
put2 v k x m =
    let inner : Assoc Str Str = elim (lookup v m) [ none ↦ [] | some l ↦ l ] in
    insert v (insert k x inner) m

-- The inner maps of a venue, made where they are missing.
unfoldable pub ensure : Str → Registry → Registry
ensure v r = elim (lookup v r.to_venue) [
  | none ↦ record { to_venue = insert v [] r.to_venue; to_canoni = insert v [] r.to_canoni }
  | some _ ↦ r
]

abbrev pub is_blank : Str → Bool
is_blank [] = true
is_blank (_ ∷ _) = false

-- `existing, ok := ...; ok && existing != wanted`
abbrev pub conflicts : Option Str → Str → Bool
conflicts none wanted = false
conflicts (some existing) wanted = not (same existing wanted)

unfoldable pub symbol : Str → Str → Registry → Option Str
symbol v id r = get2 v id r.to_venue

module _ (u : Unicode) where
  -- `venueKey`
  unfoldable pub venue_key : Str → Str
  venue_key s = to_upper_of u s

  -- The body of `Register`'s loop.
  unfoldable pub register_one : Mapping → Registry → Option RegistryError × Registry
  register_one m r =
      let key = venue_key m.symbol in
      let r1 = ensure m.venue r in
      if is_blank m.venue || is_blank m.instrument || is_blank m.symbol
      then (some incomplete_mapping, r)
      else if conflicts (get2 m.venue m.instrument r1.to_venue) m.symbol
      then (some instrument_taken, r1)
      else if conflicts (get2 m.venue key r1.to_canoni) m.instrument
      then (some symbol_taken, r1)
      else (
        none,
        record {
          to_venue = put2 m.venue m.instrument m.symbol r1.to_venue;
          to_canoni = put2 m.venue key m.instrument r1.to_canoni;
        },
      )

  -- `Register`: the mappings before the first error stay registered.
  unfoldable pub register : List Mapping → Registry → Option RegistryError × Registry
  register [] r = (none, r)
  register (m ∷ ms) r =
      let (e, r') = register_one m r in
      let rest = register ms r' in elim e [ none ↦ rest | some err ↦ (some err, r') ]

  unfoldable pub canonical : Str → Str → Registry → Option Str
  unfolding venue_key
  canonical v s r = get2 v (venue_key s) r.to_canoni

-- `Symbols`, in one of the orders that the source's map may have.
abbrev pub symbols : List Mapping
symbols =
    map (λ (p : Str × Str). record { venue = venue_binance; instrument = p.0; symbol = p.1 })
      ((str "BTC-USDT", str "BTCUSDT")
        ∷ (str "ETH-USDT", str "ETHUSDT")
        ∷ (str "SOL-USDT", str "SOLUSDT")
        ∷ (str "XRP-USDT", str "XRPUSDT")
        ∷ (str "ADA-USDT", str "ADAUSDT")
        ∷ (str "DOGE-USDT", str "DOGEUSDT")
        ∷ (str "BNB-USDT", str "BNBUSDT")
        ∷ (str "LTC-USDT", str "LTCUSDT")
        ∷ [])
