-- ===== src/Strategy/LanguageModel.antt =====
-- internal/strategy/llm.go: what is read of a language model's answer.
pub mod Prompt
use real_time_market_data_pi.Base.{
  ℕ, ◌+◌, ◌-◌, ◌≡◌, ◌⊎◌, refl, sym, ap, inl, inr, Bool, true, false, ◌||◌, ◌==◌, Bool-cases, Option,
  none, some, Option-cases, List, [], ◌∷◌, ◌++◌, if◌then◌else◌, leb, length, take, drop, All, same,
  list_eq, nat_eq,
}
use real_time_market_data_pi.Base.Bytes.{Str, str}
use real_time_market_data_pi.Base.Text.{to_lower, to_upper, trim_space}
use real_time_market_data_pi.Float.{Float64}
use real_time_market_data_pi.Strategy.{Action, hold, buy, sell, Signal}
use real_time_market_data_pi.Tick.{Time}

-- `strings.Index` and `strings.LastIndex` of a byte.
abbrev index_of : ℕ → Str → Option ℕ
index_of c [] = none
index_of c (d ∷ s) =
    let rest = index_of c s in
    if c == d then some 0 else elim rest [ none ↦ none | some i ↦ some (i + 1) ]

abbrev last_index_of : ℕ → Str → Option ℕ
last_index_of c [] = none
last_index_of c (d ∷ s) =
    let rest = last_index_of c s in
    elim rest [ some i ↦ some (i + 1) | none ↦ if c == d then some 0 else none ]

-- `truncate`
unfoldable pub truncate : Str → ℕ → Str
truncate s n = if leb (length s) n then s else take n s ++ str "..."

-- The object in the text: from the first opening brace to the last closing one.
unfoldable pub object_in : Str → Option Str
object_in text = elim (index_of b'{' text) [
  | none ↦ none
  | some start ↦ elim (last_index_of b'}' text) [
    | none ↦ none
    | some end ↦ if leb end start then none else some (take (end + 1 - start) (drop start text))
  ]
]

-- One entry of the payload.
pub record Entry (F : Type 0) : Type 0 where
  pub instrument : Str
  pub action : Str
  pub strength : F
  pub reason : Str

abbrev pub is_known : Str → List Str → Bool
is_known id [] = false
is_known id (k ∷ ks) = let rest = is_known id ks in if same id k then true else rest

-- The action of an entry; `none` is no trade.
unfoldable pub action_of : Str → Option Action
action_of text =
    let a = to_lower (trim_space text) in
    if same a (str "buy") then some buy else if same a (str "sell") then some sell else none

module _ (fl : Float64) where
  unfoldable pub strength_of : fl.F → fl.F
  strength_of s = if fl.le s (fl.lit 0 0) || fl.lt (fl.lit 1 0) s then fl.lit 1 0 else s

  -- The body of the loop of `parseSignals`.
  unfoldable pub signal_of : List Str → Time → Entry fl.F → Option (Signal fl.F)
  unfolding action_of strength_of truncate
  signal_of known now e =
      let id = to_upper (trim_space e.instrument) in
      if is_known id known
      then elim (action_of e.action) [
        | none ↦ none
        | some action ↦ some (record {
          instrument = id;
          action = action;
          strength = strength_of e.strength;
          reason = truncate e.reason 200;
          time = now;
        })
      ]
      else none

  unfoldable pub signals_of : List Str → Time → List (Entry fl.F) → List (Signal fl.F)
  unfolding signal_of
  signals_of known now [] = []
  signals_of known now (e ∷ es) =
      let rest = signals_of known now es in
      elim (signal_of known now e) [ none ↦ rest | some s ↦ s ∷ rest ]

  -- `parseSignals`, with the decoder of JSON as a parameter; `none` is an error.
  unfoldable pub parse_signals :
      (Str → Option (List (Entry fl.F))) → Str → List Str → Time → Option (List (Signal fl.F))
  unfolding object_in signals_of
  parse_signals decode text known now = elim (object_in text) [
    | none ↦ none
    | some object ↦ elim (decode object) [
      | none ↦ none
      | some entries ↦ some (signals_of known now entries)
    ]
  ]

  -- The end of `Evaluate`: an answer that cannot be read is no trade.
  unfoldable pub signals_or_none :
      (Str → Option (List (Entry fl.F))) → Str → List Str → Time → List (Signal fl.F)
  unfolding parse_signals
  signals_or_none decode text known now = elim (parse_signals decode text known now) [
    | none ↦ []
    | some ss ↦ ss
  ]

  -- A trade of an instrument that is followed, with a strength that was in range or is one.
  abbrev pub IsTrade : List Str → Signal fl.F → Type 0
  IsTrade known s =
      (is_known s.instrument known ≡ true)
      × ((s.action ≡ buy) ⊎ (s.action ≡ sell))
      × ((s.strength ≡ fl.lit 1 0)
          ⊎ ((fl.le s.strength (fl.lit 0 0) ≡ false) × (fl.lt (fl.lit 1 0) s.strength ≡ false)))

  -- An action that is read is a trade.
  action_of-trade : (text : Str) (a : Action) → action_of text ≡ some a → (a ≡ buy) ⊎ (a ≡ sell)
  unfolding action_of
  action_of-trade text a h =
      go (same (to_lower (trim_space text)) (str "buy"))
        (same (to_lower (trim_space text)) (str "sell")) h
    where
      of : Option Action → Action
      of o = elim o [ none ↦ hold | some x ↦ x ]

      go :
          (b c : Bool)
          → (if b then some buy else if c then some sell else none) ≡ some a
          → (a ≡ buy) ⊎ (a ≡ sell)
      go true c q = inl (sym (ap of q))
      go false true q = inr (sym (ap of q))
      go false false q = cc

  strength_of-range :
      (f : fl.F)
      → (strength_of f ≡ fl.lit 1 0)
        ⊎ ((fl.le (strength_of f) (fl.lit 0 0) ≡ false)
            × (fl.lt (fl.lit 1 0) (strength_of f) ≡ false))
  unfolding strength_of
  strength_of-range f = go (fl.le f (fl.lit 0 0)) (fl.lt (fl.lit 1 0) f) refl refl
    where
      go :
          (b c : Bool)
          → fl.le f (fl.lit 0 0) ≡ b
          → fl.lt (fl.lit 1 0) f ≡ c
          → ((if b || c then fl.lit 1 0 else f) ≡ fl.lit 1 0)
            ⊎ ((fl.le (if b || c then fl.lit 1 0 else f) (fl.lit 0 0) ≡ false)
                × (fl.lt (fl.lit 1 0) (if b || c then fl.lit 1 0 else f) ≡ false))
      go true c p q = inl refl
      go false true p q = inl refl
      go false false p q = inr (p, q)

  signals_of-IsTrade :
      (known : List Str) (now : Time) (es : List (Entry fl.F))
      → All (IsTrade known) (signals_of known now es)
  unfolding signals_of signal_of
  signals_of-IsTrade known now [] = tt
  signals_of-IsTrade known now (e ∷ es) =
      let id = to_upper (trim_space e.instrument) in
      elim (Bool-cases (is_known id known)) [
        | inr k ↦ rw (signals_of, signal_of, k) (signals_of-IsTrade known now es)
        | inl k ↦ elim (Option-cases (action_of e.action)) [
          | inl n ↦ rw (signals_of, signal_of, k, n) (signals_of-IsTrade known now es)
          | inr (a, n) ↦
              rw (signals_of, signal_of, k, n)
                (
                  (k, action_of-trade e.action a n, strength_of-range e.strength),
                  signals_of-IsTrade known now es,
                )
        ]
      ]

  -- Whatever the text of the answer of the language model is, each signal read of it is a buy or a
  -- sell of an instrument that is followed, with a strength that was above zero and at most one,
  -- or is one.
  pub signals_or_none-IsTrade :
      (decode : Str → Option (List (Entry fl.F))) (text : Str) (known : List Str) (now : Time)
      → All (IsTrade known) (signals_or_none decode text known now)
  unfolding signals_or_none parse_signals
  signals_or_none-IsTrade decode text known now = elim (Option-cases (object_in text)) [
    | inl o ↦ rw (signals_or_none, o) tt
    | inr (object, o) ↦ elim (Option-cases (decode object)) [
      | inl d ↦ rw (signals_or_none, o, d) tt
      | inr (entries, d) ↦ rw (signals_or_none, o, d) (signals_of-IsTrade known now entries)
    ]
  ]
