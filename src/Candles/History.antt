-- ===== src/Candles/History.antt =====
-- `Add` and `Run` of internal/consumer/candles/candles.go, on the history of bars.
use real_time_market_data_pi.Base.{
  ℕ, ◌<◌, ◌≡◌, refl, ◌⊎◌, sym, ap, ◌∙◌, inl, inr, true, Bool-cases, none, some, Option-cases, List,
  [], ◌∷◌, ◌++◌, if◌then◌else◌, ltb, lt→ltb, last_n, same, list_eq, nat_eq, pair_eq, pair_beq_iff,
  subst, arith,
}
use real_time_market_data_pi.Base.Assoc.{Assoc, lookup, insert, lookup-insert}
use real_time_market_data_pi.Base.Int.{ℤ}
use real_time_market_data_pi.Tick.{Tick, Time}
use real_time_market_data_pi.Candles.{
  Candle, Key, Builder, bucket, start, fold_in, history_of, retain, add_tick, key_of, new_builder,
  run_ticks,
}
use real_time_market_data_pi.Candles.Ledger.{
  history_of-retain, IsLedger, IsHistory, first-IsLedger, roll-IsLedger, fold-IsLedger,
}

-- The bars in progress with one written anew.
lookup_bars :
    (k j : Key) (c : Candle) (b : Builder)
    → lookup j (insert k c b.bars) ≡ (if same k j then some c else lookup j b.bars)
lookup_bars k j c b = lookup-insert k j c b.bars

IsHistory-update :
    (k : Key) (h' : List Candle) (c' : Candle) (b b' : Builder)
    → IsHistory b
    → ((j : Key) → history_of j b' ≡ (if same k j then h' else history_of j b))
    → b'.history ≡ b.history
    → ((j : Key) → lookup j b'.bars ≡ (if same k j then some c' else lookup j b.bars))
    → IsLedger h' (some c') b.history
    → IsHistory b'
IsHistory-update k h' c' b b' inv hist bound bars l j = elim (Bool-cases (same k j)) [
  | inl e ↦ rw (hist j, bars j, bound, e) l
  | inr e ↦ rw (hist j, bars j, bound, e) (inv j)
]

-- A history that no key changes.
same_history :
    (k j : Key) (b : Builder)
    → history_of j b ≡ (if same k j then history_of k b else history_of j b)
same_history k j b = elim (Bool-cases (same k j)) [
  | inl e ↦ rw e (ap (λ i. history_of i b) (sym ((pair_beq_iff k j).0 e)))
  | inr e ↦ rw e
]

add_tick_first :
    (t : Tick) (b : Builder)
    → lookup (key_of t) b.bars ≡ none
    → add_tick t b
      ≡ record b { bars = insert (key_of t) (start t (bucket t.event_time b.interval)) b.bars }
unfolding add_tick
add_tick_first t b e = rw (e, add_tick)

-- The builder once the bar in progress has been retained and the next one begun.
abbrev rolled : Tick → Candle → Builder → Builder
rolled t cur b =
    let b' = retain (key_of t) (record cur { complete = true }) b in
    record b' { bars = insert (key_of t) (start t (bucket t.event_time b.interval)) b'.bars }

add_tick_roll :
    (t : Tick) (b : Builder) (cur : Candle)
    → lookup (key_of t) b.bars ≡ some cur
    → ltb cur.open_time (bucket t.event_time b.interval) ≡ true
    → add_tick t b ≡ rolled t cur b
unfolding add_tick retain
add_tick_roll t b cur e h = rw (e, add_tick) (rw h)

-- A tick for a bucket before the bar in progress is dropped: the builder is left as it was.
pub add_tick_late :
    (t : Tick) (b : Builder) (cur : Candle)
    → lookup (key_of t) b.bars ≡ some cur
    → bucket t.event_time b.interval < cur.open_time
    → add_tick t b ≡ b
unfolding add_tick retain
add_tick_late t b cur e h = rw (e, add_tick) (ground arith)

add_tick_fold :
    (t : Tick) (b : Builder) (cur : Candle)
    → lookup (key_of t) b.bars ≡ some cur
    → bucket t.event_time b.interval ≡ cur.open_time
    → add_tick t b ≡ record b { bars = insert (key_of t) (fold_in cur t) b.bars }
unfolding add_tick retain
add_tick_fold t b cur e h = rw (e, add_tick) (ground arith)

retain_fields :
    (k : Key) (c : Candle) (b : Builder)
    → ((retain k c b).history ≡ b.history) × ((retain k c b).bars ≡ b.bars)
unfolding retain
retain_fields k c b = (refl, refl)

open_time-start : (t : Tick) (o : Time) → (start t o).open_time ≡ o
unfolding start
open_time-start t o = refl

open_time-fold_in : (c : Candle) (t : Tick) → (fold_in c t).open_time ≡ c.open_time
unfolding fold_in
open_time-fold_in c t = refl

tri : (a b : ℕ) → (a < b) ⊎ (b < a) ⊎ (b ≡ a)
tri a b = ground arith

history_of-bars :
    (j : Key) (b : Builder) (m : Assoc Key Candle)
    → history_of j (record b { bars = m }) ≡ history_of j b
unfolding history_of
history_of-bars j b m = refl

-- A new bar in progress, with the histories as they were.
only_bar :
    (k : Key) (c : Candle) (b : Builder)
    → IsHistory b
    → IsLedger (history_of k b) (some c) b.history
    → IsHistory (record b { bars = insert k c b.bars })
only_bar k c b inv l =
    IsHistory-update k (history_of k b) c b _ inv
      (λ j. history_of-bars j b (insert k c b.bars) ∙ same_history k j b) refl
      (λ j. lookup_bars k j c b) l

rolled-IsHistory :
    (t : Tick) (cur : Candle) (b : Builder)
    → IsHistory b
    → lookup (key_of t) b.bars ≡ some cur
    → cur.open_time < bucket t.event_time b.interval
    → IsHistory (rolled t cur b)
rolled-IsHistory t cur b inv e h =
    let k = key_of t in
    let done : Candle = record cur { complete = true } in
    let next = start t (bucket t.event_time b.interval) in
    let b' = retain k done b in
    let (same_bound, same_bars) = retain_fields k done b in
    IsHistory-update k (last_n b.history (history_of k b ++ (done ∷ []))) next b (rolled t cur b)
      inv (λ j. history_of-bars j b' (insert k next b'.bars) ∙ history_of-retain k j done b)
      same_bound (λ j. ap (λ m. lookup j (insert k next m)) same_bars ∙ lookup_bars k j next b)
      (roll-IsLedger (history_of k b) cur next b.history
        (subst (λ o. IsLedger (history_of k b) o b.history) e (inv k)) (rw open_time-start h))

-- Every tick, early, late or in the bar in progress, keeps each key's history within its bound, its
-- bars complete, and open times strictly ascending up to the bar in progress.
pub add_tick-IsHistory : (t : Tick) (b : Builder) → IsHistory b → IsHistory (add_tick t b)
add_tick-IsHistory t b inv =
    let k = key_of t in
    let opens = bucket t.event_time b.interval in
    elim (Option-cases (lookup k b.bars)) [
      | inl e ↦ rw (add_tick_first t b e) (
          only_bar k (start t opens) b inv (
            first-IsLedger _ (start t opens) b.history
              (subst (λ o. IsLedger (history_of k b) o b.history) e (inv k))))
      | inr (cur, e) ↦ elim (tri cur.open_time opens) [
        | inl later ↦
            rw (add_tick_roll t b cur e (lt→ltb _ _ later)) (rolled-IsHistory t cur b inv e later)
        | inr (inl early) ↦ rw (add_tick_late t b cur e early) inv
        | inr (inr now) ↦ rw (add_tick_fold t b cur e now) (
            only_bar k (fold_in cur t) b inv (
              fold-IsLedger _ cur (fold_in cur t) b.history
                (subst (λ o. IsLedger (history_of k b) o b.history) e (inv k))
                (open_time-fold_in cur t)))
      ]
    ]

new_builder-IsHistory : (interval history : ℤ) → IsHistory (new_builder interval history)
unfolding new_builder history_of
new_builder-IsHistory interval history k = record {
  within = omega arith;
  all_complete = tt;
  ascending = tt;
  before_current = λ c e. tt;
  none_without = λ e. refl;
}

-- Whatever ticks a new builder is given, in whatever order.
pub run_ticks-IsHistory : (ts : List Tick) (b : Builder) → IsHistory b → IsHistory (run_ticks ts b)
unfolding run_ticks
run_ticks-IsHistory [] b inv = inv
run_ticks-IsHistory (t ∷ ts) b inv =
    run_ticks-IsHistory ts (add_tick t b) (add_tick-IsHistory t b inv)

-- After any ticks in any order, each key's history is within the builder's bound, its bars are
-- complete, and open times ascend strictly up to the bar in progress.
pub build-IsHistory :
    (interval history : ℤ) (ts : List Tick)
    → IsHistory (run_ticks ts (new_builder interval history))
build-IsHistory interval history ts =
    run_ticks-IsHistory ts _ (new_builder-IsHistory interval history)
