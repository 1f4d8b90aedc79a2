-- ===== src/Candles.antt =====
-- internal/consumer/candles/candles.go: OHLCV bars over one interval, for each venue and instrument.
pub mod Fold
pub mod Ledger
pub mod History
use real_time_market_data_pi.Base.{
  ℕ, suc, ◌+◌, ◌-◌, ◌%◌, ◌==◌, Bool, true, false, Option, none, some, List, [], ◌∷◌, ◌++◌, ltb,
  if◌then◌else◌, length, drop, list_eq, nat_eq, pair_eq,
}
use real_time_market_data_pi.Base.Bytes.{Str}
use real_time_market_data_pi.Base.Int.{ℤ, pos, leb_ℤ, ltb_ℤ, abs_ℕ}
use real_time_market_data_pi.Base.Assoc.{Assoc, lookup, insert}
use real_time_market_data_pi.Decimal.{Decimal}
use real_time_market_data_pi.Decimal.Arith.{less, add}
use real_time_market_data_pi.Tick.{Tick, Time}

pub record Candle : Type 0 where
  pub instrument : Str
  pub venue : Str
  pub open_time : Time
  pub close_time : Time
  pub opening : Decimal
  pub high : Decimal
  pub low : Decimal
  pub closing : Decimal
  pub volume : Decimal
  pub trades : ℕ
  pub complete : Bool

-- `Truncate` to a positive interval in nanoseconds; an interval of zero leaves the time as it is.
unfoldable pub bucket : Time → ℕ → Time
bucket t interval = if interval == 0 then t else t - t % interval

abbrev pub Key : Type 0
Key = Str × Str

pub record Builder : Type 0 where
  pub interval : ℕ
  pub history : ℕ
  pub bars : Assoc Key Candle
  pub finished : Assoc Key (List Candle)

abbrev pub minute : ℕ
minute = 60_000_000_000

-- `New`
unfoldable pub new_builder : ℤ → ℤ → Builder
new_builder interval history = record {
  interval = if leb_ℤ interval (pos 0) then minute else abs_ℕ interval;
  history = if leb_ℤ history (pos 0) then 500 else abs_ℕ history;
  bars = [];
  finished = [];
}

-- `start`
unfoldable pub start : Tick → Time → Candle
start t opens = record {
  instrument = t.instrument;
  venue = t.venue;
  open_time = opens;
  close_time = t.event_time;
  opening = t.price;
  high = t.price;
  low = t.price;
  closing = t.price;
  volume = t.quantity;
  trades = 1;
  complete = false;
}

-- A missing entry of `done` is the nil slice.
unfoldable pub history_of : Key → Builder → List Candle
history_of k b = elim (lookup k b.finished) [ none ↦ [] | some h ↦ h ]

-- `retain`
unfoldable pub retain : Key → Candle → Builder → Builder
unfolding history_of
retain k c b =
    let h = history_of k b ++ (c ∷ []) in
    let kept = if ltb b.history (length h) then drop (length h - b.history) h else h in
    record b { finished = insert k kept b.finished }

-- The branch of `Add` for a tick of the current bar.
unfoldable pub fold_in : Candle → Tick → Candle
fold_in c t = record c {
  high = if less c.high t.price then t.price else c.high;
  low = if less t.price c.low then t.price else c.low;
  closing = t.price;
  close_time = t.event_time;
  volume = add c.volume t.quantity;
  trades = suc c.trades;
}

abbrev pub key_of : Tick → Key
key_of t = (t.venue, t.instrument)

-- `Add`
unfoldable pub add_tick : Tick → Builder → Builder
unfolding retain
add_tick t b =
    let k = key_of t in
    let opens = bucket t.event_time b.interval in
    elim (lookup k b.bars) [
      | none ↦ record b { bars = insert k (start t opens) b.bars }
      | some cur ↦
          if ltb cur.open_time opens
          then (let b' = retain k (record cur { complete = true }) b in
              record b' { bars = insert k (start t opens) b.bars })
          else if ltb opens cur.open_time
          then b
          else record b { bars = insert k (fold_in cur t) b.bars }
    ]

-- `Recent`, with the limit as a count; zero or less is no limit.
unfoldable pub recent : Str → Str → ℤ → Builder → List Candle
recent venue id limit b =
    let hist = history_of (venue, id) b in
    let n = abs_ℕ limit in
    let cut =
      if ltb_ℤ (pos 0) limit
      then (if ltb n (length hist) then drop (length hist - n) hist else hist)
      else hist in
    elim (lookup (venue, id) b.bars) [ none ↦ cut | some cur ↦ cut ++ (cur ∷ []) ]

-- `Current`
unfoldable pub current : Str → Str → Builder → Option Candle
current venue id b = lookup (venue, id) b.bars

-- The ticks that `Run` reads before it ends, in order.
unfoldable pub run_ticks : List Tick → Builder → Builder
run_ticks [] b = b
run_ticks (t ∷ ts) b = run_ticks ts (add_tick t b)
