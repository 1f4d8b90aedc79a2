-- ===== src/Candles/Ledger.antt =====
-- The history and the bar in progress of one key of internal/consumer/candles/candles.go.
use real_time_market_data_pi.Base.{
  ℕ, zero, suc, ◌-◌, ◌≤◌, ◌<◌, ◌≡◌, refl, ap, ◌∙◌, inl, inr, true, Bool-cases, Option, none, some,
  List, [], ◌∷◌, ◌++◌, if◌then◌else◌, ltb, length, length-drop, drop, last_n, All, All-append, same,
  list_eq, nat_eq, pair_eq, arith,
}
use real_time_market_data_pi.Base.Assoc.{lookup, lookup-insert}
use real_time_market_data_pi.Candles.{Candle, Key, Builder, history_of, retain}

abbrev Ascends : List Candle → Type 0
Ascends [] = Unit
Ascends (c ∷ cs) = All (λ d. c.open_time < d.open_time) cs × Ascends cs

All-drop : (P : Candle → Type 0) (n : ℕ) (cs : List Candle) → All P cs → All P (drop n cs)
All-drop P zero cs h = h
All-drop P (suc n) [] h = tt
All-drop P (suc n) (c ∷ cs) h = All-drop P n cs h.1

Ascends-drop : (n : ℕ) (cs : List Candle) → Ascends cs → Ascends (drop n cs)
Ascends-drop zero cs h = h
Ascends-drop (suc n) [] h = tt
Ascends-drop (suc n) (c ∷ cs) h = Ascends-drop n cs h.1

Ascends-snoc :
    (cs : List Candle) (c : Candle)
    → Ascends cs
    → All (λ d. d.open_time < c.open_time) cs
    → Ascends (cs ++ (c ∷ []))
Ascends-snoc [] c h a = (tt, tt)
Ascends-snoc (d ∷ cs) c h a = (
  All-append (λ e. d.open_time < e.open_time) cs (c ∷ []) h.0 (a.0, tt),
  Ascends-snoc cs c h.1 a.1,
)

All-map :
    (P Q : Candle → Type 0) (cs : List Candle) → ((c : Candle) → P c → Q c) → All P cs → All Q cs
All-map P Q [] f h = tt
All-map P Q (c ∷ cs) f h = (f c h.0, All-map P Q cs f h.1)

trimmed :
    (n : ℕ) (h : List Candle) → (if ltb n (length h) then drop (length h - n) h else h) ≡ last_n n h
trimmed n h = elim (Bool-cases (ltb n (length h))) [
  | inl e ↦ rw e
  | inr e ↦ rw e (ap (λ k. drop k h) {x = 0} (ground arith))
]

-- What `retain` leaves as the history of each key.
pub history_of-retain :
    (k j : Key) (c : Candle) (b : Builder)
    → history_of j (retain k c b)
      ≡ (if same k j then last_n b.history (history_of k b ++ (c ∷ [])) else history_of j b)
unfolding history_of retain
history_of-retain k j c b =
    let h = history_of k b ++ (c ∷ []) in
    let kept = if ltb b.history (length h) then drop (length h - b.history) h else h in
    ap (λ o. elim o [ none ↦ [] | some l ↦ l ]) (lookup-insert k j kept b.finished)
    ∙ (elim (Bool-cases (same k j)) [ inl e ↦ rw e (trimmed b.history h) | inr e ↦ rw e ])

-- The bars of one key: the history within its bound, each bar complete, open times strictly
-- ascending up to the bar in progress.
pub record IsLedger (hist : List Candle) (cur : Option Candle) (bound : ℕ) : Type 0 where
  pub within : length hist ≤ bound
  pub all_complete : All (λ c. c.complete ≡ true) hist
  pub ascending : Ascends hist
  pub before_current : (c : Candle) → cur ≡ some c → All (λ d. d.open_time < c.open_time) hist
  pub none_without : cur ≡ none → hist ≡ []

-- The same for every key.
abbrev pub IsHistory : Builder → Type 0
IsHistory b = (k : Key) → IsLedger (history_of k b) (lookup k b.bars) b.history

some_inj : {c d : Candle} → some c ≡ some d → c ≡ d
some_inj e = cc

-- A new key has its first bar.
pub first-IsLedger :
    (hist : List Candle) (c : Candle) (bound : ℕ)
    → IsLedger hist none bound
    → IsLedger hist (some c) bound
first-IsLedger hist c bound l = record {
  within = l.within;
  all_complete = l.all_complete;
  ascending = l.ascending;
  before_current = λ d e. rw (l.none_without refl) tt;
  none_without = λ e. cc;
}

-- The bar in progress is completed and a later one begins.
pub roll-IsLedger :
    (hist : List Candle) (cur next : Candle) (bound : ℕ)
    → IsLedger hist (some cur) bound
    → cur.open_time < next.open_time
    → IsLedger (last_n bound (hist ++ (record cur { complete = true } ∷ []))) (some next) bound
roll-IsLedger hist cur next bound l h =
    let done : Candle = record cur { complete = true } in
    let all = hist ++ (done ∷ []) in
    let n = length all - bound in
    let before = l.before_current cur refl in
    record {
      within = omega (arith, length-drop n all);
      all_complete =
          All-drop (λ c. c.complete ≡ true) n all
            (All-append (λ c. c.complete ≡ true) hist (done ∷ []) l.all_complete (refl, tt));
      ascending = Ascends-drop n all (Ascends-snoc hist done l.ascending before);
      before_current = λ c e.
          let later : next ≡ c = some_inj e in
          All-drop (λ d. d.open_time < c.open_time) n all
            (rw (← later) (
              All-append (λ d. d.open_time < next.open_time) hist (done ∷ [])
                (All-map (λ d. d.open_time < cur.open_time) (λ d. d.open_time < next.open_time) hist
                  (λ d p. omega arith) before)
                (h, tt)));
      none_without = λ e. cc;
    }

-- The bar in progress changes and keeps its open time.
pub fold-IsLedger :
    (hist : List Candle) (cur next : Candle) (bound : ℕ)
    → IsLedger hist (some cur) bound
    → next.open_time ≡ cur.open_time
    → IsLedger hist (some next) bound
fold-IsLedger hist cur next bound l h = record {
  within = l.within;
  all_complete = l.all_complete;
  ascending = l.ascending;
  before_current = λ c e.
      let later : next ≡ c = some_inj e in
      All-map (λ d. d.open_time < cur.open_time) (λ d. d.open_time < c.open_time) hist
        (λ d p. omega (arith, ap (λ z. z.open_time) later)) (l.before_current cur refl);
  none_without = λ e. cc;
}
