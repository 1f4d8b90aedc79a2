-- ===== src/Candles/Fold.antt =====
-- `Bucket` and the bar in progress of internal/consumer/candles/candles.go.
use native.Mathlib.Nat.{div-add-mod, mod-lt, mul-mod_right}
use real_time_market_data_pi.Base.{
  ℕ, ◌+◌, ◌%◌, ◌/◌, ◌≤◌, ◌<◌, ◌≡◌, refl, ap, ◌∙◌, inl, inr, Bool-cases, List, [], ◌∷◌, ◌==◌,
  if◌then◌else◌, length, All, arith,
}
use real_time_market_data_pi.Base.Int.{ℤ, ◌≤ℤ◌, ltb_ℤ}
use real_time_market_data_pi.Decimal.{Decimal, IsValid}
use real_time_market_data_pi.Decimal.Arith.{less}
use real_time_market_data_pi.Decimal.Order.{value, less_lem}
use real_time_market_data_pi.Decimal.Sum.{add-IsValid}
use real_time_market_data_pi.Tick.{Tick, Time}
use real_time_market_data_pi.Candles.{Candle, bucket, start, fold_in}

-- For a positive interval, a time lies in its bucket, which starts at a multiple of the interval.
pub bucket_lem :
    (t : Time) (interval : ℕ)
    → 0 < interval
    → (bucket t interval ≤ t)
      × (t < bucket t interval + interval)
      × (bucket t interval % interval ≡ 0)
unfolding bucket
bucket_lem t interval h = elim (Bool-cases (interval == 0)) [
  | inl z ↦ absurd (ground arith)
  | inr nz ↦
      let e = div-add-mod t interval in
      let m = mod-lt t h in
      rw nz (
        omega arith,
        omega (arith, m),
        ap (λ x. x % interval) (omega (arith, e)) ∙ mul-mod_right interval (t / interval),
      )
]

-- Decimals in range, and low ≤ open, close ≤ high by value.
pub record IsBar (c : Candle) : Type 0 where
  pub valid_high : IsValid c.high
  pub valid_low : IsValid c.low
  pub valid_volume : IsValid c.volume
  pub open_low : value c.low ≤ℤ value c.opening
  pub open_high : value c.opening ≤ℤ value c.high
  pub close_low : value c.low ≤ℤ value c.closing
  pub close_high : value c.closing ≤ℤ value c.high
  pub traded : 0 < c.trades

pub start-IsBar :
    (t : Tick) (opens : Time) → IsValid t.price → IsValid t.quantity → IsBar (start t opens)
unfolding start
start-IsBar t opens vp vq = record {
  valid_high = vp;
  valid_low = vp;
  valid_volume = vq;
  open_low = omega arith;
  open_high = omega arith;
  close_low = omega arith;
  close_high = omega arith;
  traded = omega arith;
}

abbrev pub max_ℤ : ℤ → ℤ → ℤ
max_ℤ a b = if ltb_ℤ a b then b else a

abbrev pub min_ℤ : ℤ → ℤ → ℤ
min_ℤ a b = if ltb_ℤ b a then b else a

-- The two comparisons of `Add`, as a maximum and a minimum of values.
raise :
    (h p : Decimal)
    → IsValid h
    → IsValid p
    → let h' = if less h p then p else h in IsValid h' × (value h' ≡ max_ℤ (value h) (value p))
raise h p vh vp = elim (Bool-cases (less h p)) [
  | inl e ↦ rw (← less_lem h p vh vp, e) (vp, refl)
  | inr e ↦ rw (← less_lem h p vh vp, e) (vh, refl)
]

lower :
    (l p : Decimal)
    → IsValid l
    → IsValid p
    → let l' = if less p l then p else l in IsValid l' × (value l' ≡ min_ℤ (value l) (value p))
lower l p vl vp = elim (Bool-cases (less p l)) [
  | inl e ↦ rw (← less_lem p l vp vl, e) (vp, refl)
  | inr e ↦ rw (← less_lem p l vp vl, e) (vl, refl)
]

-- A tick folded in keeps the bar in order: low ≤ open, close ≤ high.
pub fold_in-IsBar :
    (c : Candle) (t : Tick) → IsBar c → IsValid t.price → IsValid t.quantity → IsBar (fold_in c t)
unfolding fold_in
fold_in-IsBar c t b vp vq =
    let (vh, eh) = raise c.high t.price b.valid_high vp in
    let (vl, el) = lower c.low t.price b.valid_low vp in
    record {
      valid_high = vh;
      valid_low = vl;
      valid_volume = add-IsValid c.volume t.quantity b.valid_volume vq;
      open_low = rw el (ground (arith, b.open_low));
      open_high = rw eh (ground (arith, b.open_high));
      close_low = rw el (ground arith);
      close_high = rw eh (ground arith);
      traded = omega arith;
    }

-- The bar that a bucket's ticks make, in order.
pub fold_all : Candle → List Tick → Candle
fold_all c [] = c
fold_all c (t ∷ ts) = fold_all (fold_in c t) ts

-- The highest and the lowest value among a first one and the prices, and the last price.
pub highest : ℤ → List Tick → ℤ
highest h [] = h
highest h (t ∷ ts) = highest (max_ℤ h (value t.price)) ts

pub lowest : ℤ → List Tick → ℤ
lowest l [] = l
lowest l (t ∷ ts) = lowest (min_ℤ l (value t.price)) ts

pub last_price : Decimal → List Tick → Decimal
last_price p [] = p
last_price p (t ∷ ts) = last_price t.price ts

abbrev pub ValidTick : Tick → Type 0
ValidTick t = IsValid t.price × IsValid t.quantity

-- Any ticks in range folded into a bar that is in range and in order give the highest and the
-- lowest value as high and low, the last price as close, the open as it was, one trade more for
-- each, and a bar with low at most and high at least open and close.
pub fold_all_lem :
    (c : Candle) (ts : List Tick)
    → IsBar c
    → All ValidTick ts
    → IsBar (fold_all c ts)
      × (value (fold_all c ts).high ≡ highest (value c.high) ts)
      × (value (fold_all c ts).low ≡ lowest (value c.low) ts)
      × ((fold_all c ts).closing ≡ last_price c.closing ts)
      × ((fold_all c ts).opening ≡ c.opening)
      × ((fold_all c ts).trades ≡ c.trades + length ts)
unfolding fold_all highest lowest last_price fold_in
fold_all_lem c [] b v = (b, refl, refl, refl, refl, omega arith)
fold_all_lem c (t ∷ ts) b ((vp, vq), vs) =
    let c' = fold_in c t in
    let (b', h, l, k, o, n) = fold_all_lem c' ts (fold_in-IsBar c t b vp vq) vs in
    (
      b',
      h ∙ ap (λ z. highest z ts) (raise c.high t.price b.valid_high vp).1,
      l ∙ ap (λ z. lowest z ts) (lower c.low t.price b.valid_low vp).1,
      k,
      o,
      omega (arith, n),
    )
