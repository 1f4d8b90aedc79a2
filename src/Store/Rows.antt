-- ===== src/Store/Rows.antt =====
-- The rows of internal/store/sqlite/sqlite.go: a tick in columns, and back.
use real_time_market_data_pi.Base.{ℕ, ◌+◌, ◌%◌, ◌≤◌, ◌<◌, ◌≡◌, refl, ◌==◌, if◌then◌else◌, arith}
use real_time_market_data_pi.Base.Bytes.{Str}
use real_time_market_data_pi.Base.Int.{ℤ, pos, ◌+ℤ◌, ◌-ℤ◌, pos_part}
use real_time_market_data_pi.Base.Int64.{wrap, residue, two63, two64}
use real_time_market_data_pi.Decimal.{IsValid}
use real_time_market_data_pi.Normalize.{epoch}
use real_time_market_data_pi.Store.{EquitySnapshot}
use real_time_market_data_pi.Tick.{Tick, Side, unknown_side, buy_side, sell_side, Time}

pub record TickRow : Type 0 where
  pub venue : Str
  pub instrument : Str
  pub trade_id : Str
  pub seq : ℤ
  pub event_ns : ℤ
  pub recv_ns : ℤ
  pub price_u : ℤ
  pub price_s : ℤ
  pub qty_u : ℤ
  pub qty_s : ℤ
  pub side : ℤ
  pub day : Str

-- `UnixNano` and `time.Unix(0, ns)`: nanoseconds since 1970.
unfoldable pub unix_nano : Time → ℤ
unix_nano t = wrap (pos t -ℤ pos epoch)

unfoldable pub of_unix_nano : ℤ → Time
of_unix_nano ns = pos_part (ns +ℤ pos epoch)

-- `int64(t.Side)` and `model.Side(side)`, a `uint8` with three values in use.
unfoldable pub side_code : Side → ℤ
side_code unknown_side = pos 0
side_code buy_side = pos 1
side_code sell_side = pos 2

unfoldable pub side_of : ℤ → Side
side_of z =
    let n = residue z % 256 in
    if n == 1 then buy_side else if n == 2 then sell_side else unknown_side

-- The arguments of the insertion; `day` is the formatting of a date.
unfoldable pub row_of : (Time → Str) → Tick → TickRow
unfolding unix_nano side_code
row_of day t = record {
  venue = t.venue;
  instrument = t.instrument;
  trade_id = t.venue_trade_id;
  seq = wrap (pos t.seq);
  event_ns = unix_nano t.event_time;
  recv_ns = unix_nano t.recv_time;
  price_u = t.price.unscaled;
  price_s = pos t.price.scale;
  qty_u = t.quantity.unscaled;
  qty_s = pos t.quantity.scale;
  side = side_code t.side;
  day = day t.event_time;
}

-- `scanTick`
unfoldable pub scan_tick : TickRow → Tick
unfolding of_unix_nano side_of
scan_tick r = record {
  venue = r.venue;
  instrument = r.instrument;
  seq = residue r.seq;
  event_time = of_unix_nano r.event_ns;
  recv_time = of_unix_nano r.recv_ns;
  price = record { unscaled = r.price_u; scale = residue r.price_s % 256 };
  quantity = record { unscaled = r.qty_u; scale = residue r.qty_s % 256 };
  side = side_of r.side;
  venue_trade_id = r.trade_id;
}

-- The times that `UnixNano` represents: less than 2^63 nanoseconds from the epoch.
abbrev pub IsNear : Time → Type 0
IsNear t = (t < epoch + two63) × (epoch ≤ t + two63)

-- The tick is in the ranges of its fields' types and of the columns.
pub record IsStorable (t : Tick) : Type 0 where
  pub seq_fits : t.seq < two64
  pub event_near : IsNear t.event_time
  pub recv_near : IsNear t.recv_time
  pub price_valid : IsValid t.price
  pub quantity_valid : IsValid t.quantity

of_unix_nano-unix_nano : (t : Time) → IsNear t → of_unix_nano (unix_nano t) ≡ t
unfolding of_unix_nano unix_nano wrap residue ◌-ℤ◌ ◌+ℤ◌
of_unix_nano-unix_nano t h = ground arith

residue-wrap : (n : ℕ) → n < two64 → residue (wrap (pos n)) ≡ n
unfolding residue wrap
residue-wrap n h = ground arith

side_of-side_code : (s : Side) → side_of (side_code s) ≡ s
unfolding side_of side_code residue
side_of-side_code unknown_side = refl
side_of-side_code buy_side = refl
side_of-side_code sell_side = refl

scale_back : (n : ℕ) → n ≤ 18 → residue (pos n) % 256 ≡ n
unfolding residue
scale_back n h = omega arith

-- A tick in the ranges of its columns is read back from its row as it was.
pub scan_tick-row_of : (day : Time → Str) (t : Tick) → IsStorable t → scan_tick (row_of day t) ≡ t
unfolding scan_tick row_of
scan_tick-row_of day t h =
    rw
      (
        residue-wrap t.seq h.seq_fits,
        of_unix_nano-unix_nano t.event_time h.event_near,
        of_unix_nano-unix_nano t.recv_time h.recv_near,
        side_of-side_code t.side,
        scale_back t.price.scale h.price_valid.fine,
        scale_back t.quantity.scale h.quantity_valid.fine,
      )
      refl

-- The row of an account's snapshot.
pub record EquityRow : Type 0 where
  pub strategy : Str
  pub ts_ns : ℤ
  pub equity_u : ℤ
  pub equity_s : ℤ
  pub realized_u : ℤ
  pub realized_s : ℤ
  pub unrealized_u : ℤ
  pub unrealized_s : ℤ
  pub trades : ℤ

-- The arguments of `RecordEquity`'s insertion.
unfoldable pub equity_row : EquitySnapshot → EquityRow
unfolding unix_nano
equity_row s = record {
  strategy = s.strategy;
  ts_ns = unix_nano s.time;
  equity_u = s.equity.unscaled;
  equity_s = pos s.equity.scale;
  realized_u = s.realized_pl.unscaled;
  realized_s = pos s.realized_pl.scale;
  unrealized_u = s.unrealized_pl.unscaled;
  unrealized_s = pos s.unrealized_pl.scale;
  trades = s.trades;
}

-- A row as `EquityHistory` answers it, for the strategy asked for.
unfoldable pub scan_equity : Str → EquityRow → EquitySnapshot
unfolding of_unix_nano residue
scan_equity strategy r = record {
  strategy = strategy;
  time = of_unix_nano r.ts_ns;
  equity = record { unscaled = r.equity_u; scale = residue r.equity_s % 256 };
  realized_pl = record { unscaled = r.realized_u; scale = residue r.realized_s % 256 };
  unrealized_pl = record { unscaled = r.unrealized_u; scale = residue r.unrealized_s % 256 };
  trades = r.trades;
}
