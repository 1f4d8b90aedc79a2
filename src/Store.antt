-- ===== src/Store.antt =====
-- internal/store/store.go: queries and pages of the archive.
pub mod Janitor
pub mod Rows
pub mod Sqlite
pub mod Order
pub mod Paging
pub mod Append
use real_time_market_data_pi.Base.{ℕ, Bool, true, false, ◌&&◌, List, [], ◌∷◌, if◌then◌else◌}
use real_time_market_data_pi.Base.Bytes.{Str}
use real_time_market_data_pi.Base.Int.{ℤ, pos, leb_ℤ, ltb_ℤ, eqb_ℤ, abs_ℕ}
use real_time_market_data_pi.Decimal.{Decimal}
use real_time_market_data_pi.Tick.{Tick, Time}

-- `== ""`
abbrev pub is_blank : Str → Bool
is_blank [] = true
is_blank (_ ∷ _) = false

pub record Cursor : Type 0 where
  pub event_time_ns : ℤ
  pub trade_id : Str

-- `Cursor.IsZero`
unfoldable pub is_zero_cursor : Cursor → Bool
is_zero_cursor c = eqb_ℤ c.event_time_ns (pos 0) && is_blank c.trade_id

pub record InstrumentStat : Type 0 where
  pub venue : Str
  pub instrument : Str
  pub ticks : ℤ
  pub first : Time
  pub last : Time

-- The zero values mean "unbounded"; the time 0 is the zero `time.Time`.
pub record Query : Type 0 where
  pub venue : Str
  pub instrument : Str
  pub from_time : Time
  pub to_time : Time
  pub limit : ℤ
  pub cursor : Cursor
  pub descending : Bool

pub record Page : Type 0 where
  pub ticks : List Tick
  pub next_cursor : Cursor
  pub has_more : Bool

abbrev pub zero_cursor : Cursor
zero_cursor = record { event_time_ns = pos 0; trade_id = [] }

pub record EquitySnapshot : Type 0 where
  pub strategy : Str
  pub time : Time
  pub equity : Decimal
  pub realized_pl : Decimal
  pub unrealized_pl : Decimal
  pub trades : ℤ

abbrev pub default_limit : ℕ
default_limit = 1000

abbrev pub max_limit : ℕ
max_limit = 50_000

-- `NormalizeLimit`
unfoldable pub normalize_limit : ℤ → ℕ
normalize_limit n =
    if leb_ℤ n (pos 0)
    then default_limit
    else if ltb_ℤ (pos max_limit) n
    then max_limit
    else abs_ℕ n
