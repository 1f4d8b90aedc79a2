-- ===== src/Tests/Archive.antt =====
-- Examples for the archive: a table of rows in a list.
use real_time_market_data_pi.Base.{
  ℕ, ◌+◌, ◌≡◌, refl, subst, inl, inr, Bool, true, false, Bool-cases, none, some, List, [], ◌∷◌,
  if◌then◌else◌, same, list_eq, nat_eq, pair_eq, pair_beq_iff, take, All, arith,
}
use real_time_market_data_pi.Base.Bytes.{Str}
use real_time_market_data_pi.Base.Int.{pos}
use real_time_market_data_pi.Base.Int64.{IsInt64}
use real_time_market_data_pi.Normalize.{epoch}
use real_time_market_data_pi.Persist.{
  Config, Event, received_tick, interval, cancelled, run, new_persister,
}
use real_time_market_data_pi.Persist.Lossless.{ticks_of}
use real_time_market_data_pi.Store.{Query, zero_cursor}
use real_time_market_data_pi.Store.Rows.{TickRow, row_of, scan_tick, IsStorable, scan_tick-row_of}
use real_time_market_data_pi.Store.Sqlite.{Sql, TradeKey, trade_key, append}
use real_time_market_data_pi.Store.Order.{keep}
use real_time_market_data_pi.Store.Paging.{IsQueried}
use real_time_market_data_pi.Store.Append.{
  row_key, IsTable, contains, appender, append_idempotent, persister_archives,
}
use real_time_market_data_pi.Tick.{Tick, Time}
use real_time_market_data_pi.Tests.{btc, eth, trade}

abbrev pub Table : Type 0
Table = List TickRow

abbrev has : TradeKey → Table → Bool
has k [] = false
has k (r ∷ rows) = if same (row_key r) k then true else has k rows

abbrev put : TickRow → Table → Table
put r rows = if has (row_key r) rows then rows else r ∷ rows

has-put :
    (k : TradeKey) (r : TickRow) (rows : Table)
    → has k (put r rows) ≡ (if same (row_key r) k then true else has k rows)
has-put k r rows = elim (Bool-cases (has (row_key r) rows)) [
  | inr e ↦ rw e refl
  | inl e ↦ elim (Bool-cases (same (row_key r) k)) [
    | inr q ↦ rw (e, q) refl
    | inl q ↦ rw (e, q) (subst (λ j. has j rows ≡ true) ((pair_beq_iff (row_key r) k).0 q) e)
  ]
]

-- The rows as the queries of the ticks answer them, in either direction.
abbrev pub sql_of : (Bool → Table → Table) → Sql Table
sql_of sorted = record {
  begin = λ d. true;
  prepare = λ d. true;
  commit = λ d. some d;
  insert_tick = λ r d. some (some (if has (row_key r) d then 0 else 1), put r d);
  select_ticks = λ p desc n d. some (take n (keep p (sorted desc d)));
  delete_ticks = λ p d. none;
  insert_raw = λ r d. none;
  delete_raw = λ p d. none;
  incremental_vacuum = λ d. none;
  page_count = λ d. none;
  page_size = λ d. none;
  min_day = λ d. none;
  insert_equity = λ s d. none;
  select_equity = λ p n d. none;
  group_ticks = λ d. none;
  auto_vacuum = λ d. none;
  set_incremental = λ d. none;
  vacuum = λ d. none;
  count_ticks = λ d. none;
  count_raw = λ d. none;
}

abbrev sql : Sql Table
sql = sql_of (λ desc d. d)

sql-IsTable : IsTable sql has put
sql-IsTable = record {
  begins = λ d. refl;
  prepares = λ d. refl;
  commits = λ d. refl;
  inserts = λ r d. refl;
  conflict = λ r d e. rw e refl;
  has-put = has-put;
}

abbrev pub no_day : Time → Str
no_day t = []

-- Two trades, the first one twice.
abbrev twice : List Tick
twice = trade btc 1 (pos 5) ∷ trade eth 2 (pos 6) ∷ trade btc 1 (pos 5) ∷ []

append_idempotent_example :
    let d' = (append sql no_day twice []).2 in
    ((append sql no_day twice []).1 ≡ false)
    × ((k : TradeKey) → has k d' ≡ (if has k [] then true else contains k twice))
    × (append sql no_day twice d' ≡ (0, false, d'))
append_idempotent_example = append_idempotent sql has put sql-IsTable no_day twice []

abbrev cfg : Config
cfg = record { batch_size = pos 2; flush_interval = pos 0 }

abbrev events : List Event
events =
    received_tick (trade btc 1 (pos 5))
    ∷ interval
    ∷ received_tick (trade eth 2 (pos 6))
    ∷ received_tick (trade btc 1 (pos 5))
    ∷ cancelled
    ∷ []

persister_archives_example :
    has
      (trade_key (trade eth 2 (pos 6)))
      (run (appender sql has put sql-IsTable no_day) events (new_persister cfg [])).store
    ≡ (if has (trade_key (trade eth 2 (pos 6))) []
        then true
        else contains (trade_key (trade eth 2 (pos 6))) (ticks_of events))
persister_archives_example =
    persister_archives sql has put sql-IsTable no_day cfg events [] refl
      (trade_key (trade eth 2 (pos 6)))

-- A trade just after 1970.
abbrev early : Tick
early = trade btc (epoch + 7) (pos 5)

early-IsStorable : IsStorable early
early-IsStorable = record {
  seq_fits = ground arith;
  event_near = (ground arith, ground arith);
  recv_near = (ground arith, ground arith);
  price_valid = record { in_range = ground arith; fine = ground arith };
  quantity_valid = record { in_range = ground arith; fine = ground arith };
}

scan_tick-row_of_example : scan_tick (row_of no_day early) ≡ early
scan_tick-row_of_example = scan_tick-row_of no_day early early-IsStorable

abbrev pub row_at : ℕ → TickRow
row_at n = record (row_of no_day early) { event_ns = pos n }

abbrev pub rows : Bool → Table
rows true = row_at 9 ∷ row_at 8 ∷ row_at 7 ∷ []
rows false = row_at 7 ∷ row_at 8 ∷ row_at 9 ∷ []

abbrev pub fixed_sql : Sql Table
fixed_sql = sql_of (λ desc d. rows desc)

pub fixed_sql-IsQueried : IsQueried fixed_sql [] rows
fixed_sql-IsQueried = record {
  answers = λ p desc n. refl;
  int_columns = λ (desc : Bool). elim desc as (λ k. All (λ r. IsInt64 r.event_ns) (rows k)) [
    | true ↦ (ground arith, (ground arith, (ground arith, tt)))
    | false ↦ (ground arith, (ground arith, (ground arith, tt)))
  ];
}

-- All of one instrument, newest first, two at a time.
abbrev query : Query
query = record {
  venue = [];
  instrument = btc;
  from_time = 0;
  to_time = 0;
  limit = pos 2;
  cursor = zero_cursor;
  descending = true;
}
