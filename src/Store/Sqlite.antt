-- ===== src/Store/Sqlite.antt =====
-- internal/store/sqlite/sqlite.go: the archive over an SQL database.
use real_time_market_data_pi.Base.{
  ℕ, zero, suc, ◌+◌, Bool, true, false, ◌&&◌, ◌||◌, ◌==◌, not, Option, none, some, List, [], ◌∷◌,
  map, ltb, if◌then◌else◌, same, list_eq, nat_eq, length, take,
}
use real_time_market_data_pi.Base.Bytes.{Str}
use real_time_market_data_pi.Base.Int.{ℤ, pos, leb_ℤ, ltb_ℤ, eqb_ℤ, abs_ℕ}
use real_time_market_data_pi.Base.Int64.{mul64}
use real_time_market_data_pi.Store.{
  Cursor, is_zero_cursor, zero_cursor, is_blank, Query, Page, normalize_limit, EquitySnapshot,
  InstrumentStat,
}
use real_time_market_data_pi.Store.Rows.{
  TickRow, row_of, scan_tick, unix_nano, of_unix_nano, EquityRow, equity_row, scan_equity,
}
use real_time_market_data_pi.Tick.{Tick, Time}

-- SQLite's order of texts, byte by byte.
unfoldable pub str_ltb : Str → Str → Bool
str_ltb s [] = false
str_ltb [] (_ ∷ _) = true
str_ltb (c ∷ s) (d ∷ t) = let rest = str_ltb s t in ltb c d || (c == d && rest)

-- `ORDER BY event_ts_ns, venue_trade_id`, and the same columns of a cursor.
abbrev pub SortKey : Type 0
SortKey = ℤ × Str

abbrev pub key_of : TickRow → SortKey
key_of r = (r.event_ns, r.trade_id)

abbrev pub cursor_key : Cursor → SortKey
cursor_key c = (c.event_time_ns, c.trade_id)

unfoldable pub key_ltb : SortKey → SortKey → Bool
unfolding str_ltb
key_ltb a b = ltb_ℤ a.0 b.0 || (eqb_ℤ a.0 b.0 && str_ltb a.1 b.1)

-- The key comes later, in the direction of the query.
abbrev pub later : Bool → SortKey → SortKey → Bool
later descending a b = if descending then key_ltb b a else key_ltb a b

-- The conditions on the columns, without the cursor's.
unfoldable pub selects : Query → TickRow → Bool
selects q r =
    (is_blank q.venue || same q.venue r.venue)
    && (is_blank q.instrument || same q.instrument r.instrument)
    && (q.from_time == 0 || leb_ℤ (unix_nano q.from_time) r.event_ns)
    && (q.to_time == 0 || ltb_ℤ r.event_ns (unix_nano q.to_time))

-- The condition of the cursor.
unfoldable pub beyond : Query → TickRow → Bool
beyond q r = is_zero_cursor q.cursor || later q.descending (cursor_key q.cursor) (key_of r)

-- The primary key of the table.
abbrev pub TradeKey : Type 0
TradeKey = Str × (Str × Str)

abbrev pub trade_key : Tick → TradeKey
trade_key t = (t.venue, (t.instrument, t.venue_trade_id))

pub record RawRow : Type 0 where
  pub venue : Str
  pub recv_ns : ℤ
  pub day : Str
  pub payload : Str

pub record RawFrame : Type 0 where
  pub venue : Str
  pub recv_time : Time
  pub payload : Str

-- The statements that the source sends, over a state `D` of the database; `none` is an error.
-- `insert_tick` answers the rows affected, where the driver knows them; `select_ticks` has the WHERE
-- condition, the direction and the LIMIT.
pub record Sql (D : Type 0) : Type 0 where
  pub begin : D → Bool
  pub prepare : D → Bool
  pub commit : D → Option D
  pub insert_tick : TickRow → D → Option (Option ℕ × D)
  pub select_ticks : (TickRow → Bool) → Bool → ℕ → D → Option (List TickRow)
  pub delete_ticks : (TickRow → Bool) → D → Option (ℕ × D)
  pub insert_raw : RawRow → D → Option D
  pub delete_raw : (RawRow → Bool) → D → Option (ℕ × D)
  pub incremental_vacuum : D → Option D
  pub page_count : D → Option ℤ
  pub page_size : D → Option ℤ
  pub min_day : D → Option Str
  pub insert_equity : EquityRow → D → Option D
  pub select_equity : (EquityRow → Bool) → ℕ → D → Option (List EquityRow)
  pub group_ticks : D → Option (List (Str × Str × ℤ × ℤ × ℤ))
  pub auto_vacuum : D → Option ℤ
  pub set_incremental : D → Option D
  pub vacuum : D → Option D
  pub count_ticks : D → Option ℤ
  pub count_raw : D → Option ℤ

-- A count, whether there was an error, and the database.
abbrev pub Answer : Type 0 → Type 0
Answer D = ℕ × Bool × D

module _ {D : Type 0} (sql : Sql D) (day : Time → Str) where
  -- The loop of `Append`: after an error the count so far, and no database.
  unfoldable pub insert_all : List Tick → ℕ → D → ℕ × Option D
  insert_all [] stored d = (stored, some d)
  insert_all (t ∷ ts) stored d = elim (sql.insert_tick (row_of day t) d) [
    | none ↦ (stored, none)
    | some (affected, d') ↦ insert_all ts (elim affected [ none ↦ stored | some n ↦ stored + n ]) d'
  ]

  -- `Append`: without a commit the transaction is rolled back.
  unfoldable pub append : List Tick → D → Answer D
  append [] d = (0, false, d)
  append (t ∷ ts) d =
      let (stored, written) = insert_all (t ∷ ts) 0 d in
      if not (sql.begin d) || not (sql.prepare d) then (0, true, d) else elim written [
        | none ↦ (stored, true, d)
        | some d' ↦ elim (sql.commit d') [ none ↦ (0, true, d) | some d'' ↦ (stored, false, d'') ]
      ]

  abbrev pub raw_row : RawFrame → RawRow
  raw_row f = record {
    venue = f.venue;
    recv_ns = unix_nano f.recv_time;
    day = day f.recv_time;
    payload = f.payload;
  }

  -- `AppendRaw`; true is an error.
  unfoldable pub append_raw : RawFrame → D → Bool × D
  append_raw f d = elim (sql.insert_raw (raw_row f) d) [ none ↦ (true, d) | some d' ↦ (false, d') ]

  unfoldable pub insert_frames : List RawFrame → D → Option D
  insert_frames [] d = some d
  insert_frames (f ∷ fs) d = elim (sql.insert_raw (raw_row f) d) [
    | none ↦ none
    | some d' ↦ insert_frames fs d'
  ]

  -- `AppendRawBatch`
  unfoldable pub append_raw_batch : List RawFrame → D → Bool × D
  unfolding insert_frames
  append_raw_batch [] d = (false, d)
  append_raw_batch (f ∷ fs) d =
      let written = insert_frames (f ∷ fs) d in
      if not (sql.begin d) || not (sql.prepare d) then (true, d) else elim written [
        | none ↦ (true, d)
        | some d' ↦ elim (sql.commit d') [ none ↦ (true, d) | some d'' ↦ (false, d'') ]
      ]

-- The cursor of a page.
abbrev pub last_cursor : List Tick → Cursor
last_cursor [] = zero_cursor
last_cursor (t ∷ []) = record {
  event_time_ns = unix_nano t.event_time;
  trade_id = t.venue_trade_id;
}
last_cursor (t ∷ u ∷ ts) = last_cursor (u ∷ ts)

-- The page of the rows that were fetched, one more than the limit where there are more.
unfoldable pub page_of : ℕ → List TickRow → Page
page_of limit rows =
    let ts = map scan_tick rows in
    if ltb limit (length ts)
    then record {
      ticks = take limit ts;
      next_cursor = last_cursor (take limit ts);
      has_more = true;
    }
    else record { ticks = ts; next_cursor = zero_cursor; has_more = false }

module _ {D : Type 0} (sql : Sql D) where
  -- `Ticks`
  unfoldable pub ticks : Query → D → Option Page
  unfolding page_of
  ticks q d =
      let limit = normalize_limit q.limit in
      elim (sql.select_ticks (λ r. selects q r && beyond q r) q.descending (limit + 1) d) [
        | none ↦ none
        | some rows ↦ some (page_of limit rows)
      ]

  -- `Latest`; `not_found` is `ErrNotFound`.
  unfoldable pub latest : Str → Str → D → Option (Option Tick)
  latest venue id d =
      elim (sql.select_ticks (λ r. same venue r.venue && same id r.instrument) true 1 d) [
        | none ↦ none
        | some [] ↦ some none
        | some (r ∷ _) ↦ some (some (scan_tick r))
      ]

  -- `Prune`; ticks and frames deleted, an error, and the database.
  unfoldable pub prune_raw : Time → D → Option (ℕ × D)
  prune_raw before d =
      if before == 0
      then some (0, d)
      else sql.delete_raw (λ r. ltb_ℤ r.recv_ns (unix_nano before)) d

  unfoldable pub prune_ticks : Time → D → Option (ℕ × D)
  prune_ticks before d =
      if before == 0
      then some (0, d)
      else sql.delete_ticks (λ r. ltb_ℤ r.event_ns (unix_nano before)) d

  unfoldable pub prune : Time → Time → D → (ℕ × ℕ) × Bool × D
  unfolding prune_raw prune_ticks
  prune ticks_before raw_before d = elim (prune_raw raw_before d) [
    | none ↦ ((0, 0), true, d)
    | some (raw, d1) ↦ elim (prune_ticks ticks_before d1) [
      | none ↦ ((0, raw), true, d1)
      | some (n, d2) ↦
          if ltb 0 n || ltb 0 raw
          then elim (sql.incremental_vacuum d2) [
            | none ↦ ((n, raw), true, d2)
            | some d3 ↦ ((n, raw), false, d3)
          ]
          else ((n, raw), false, d2)
    ]
  ]

  -- `SizeBytes`
  unfoldable pub size_bytes : D → Option ℤ
  size_bytes d = elim (sql.page_count d) [
    | none ↦ none
    | some n ↦ elim (sql.page_size d) [ none ↦ none | some m ↦ some (mul64 n m) ]
  ]

  -- One round of `PruneToSize`: stop with an error or without, or the database to go on with. An
  -- error of `MIN(day)` leaves the day empty.
  pub data Round : Type 0 where
    stopped : Bool → ℕ → D → Round
    again : ℕ → D → Round

  unfoldable pub drop_day : Str → D → Round
  drop_day day d = elim (sql.delete_ticks (λ r. same r.day day) d) [
    | none ↦ stopped true 0 d
    | some (n, d1) ↦ elim (sql.incremental_vacuum d1) [
      | none ↦ stopped true n d1
      | some d2 ↦ if n == 0 then stopped false n d2 else again n d2
    ]
  ]

  unfoldable pub prune_round : ℤ → D → Round
  unfolding size_bytes drop_day
  prune_round max_bytes d = elim (size_bytes d) [
    | none ↦ stopped true 0 d
    | some size ↦ if leb_ℤ size max_bytes then stopped false 0 d else elim (sql.min_day d) [
      | none ↦ stopped false 0 d
      | some [] ↦ stopped false 0 d
      | some (c ∷ s) ↦ drop_day (c ∷ s) d
    ]
  ]

  -- `for i := 0; i < 400`
  unfoldable pub prune_rounds : ℕ → ℤ → ℕ → D → Answer D
  unfolding prune_round
  prune_rounds zero max_bytes deleted d = (deleted, false, d)
  prune_rounds (suc i) max_bytes deleted d = elim (prune_round max_bytes d) [
    | stopped e n d' ↦ (deleted + n, e, d')
    | again n d' ↦ prune_rounds i max_bytes (deleted + n) d'
  ]

  -- `PruneToSize`
  unfoldable pub prune_to_size : ℤ → D → Answer D
  unfolding prune_rounds
  prune_to_size max_bytes d =
      if leb_ℤ max_bytes (pos 0) then (0, false, d) else prune_rounds 400 max_bytes 0 d

  -- `RecordEquity`; true is an error.
  unfoldable pub record_equity : EquitySnapshot → D → Bool × D
  record_equity snap d = elim (sql.insert_equity (equity_row snap) d) [
    | none ↦ (true, d)
    | some d' ↦ (false, d')
  ]

  -- The limit of `EquityHistory`.
  unfoldable pub equity_limit : ℤ → ℕ
  equity_limit n =
      if leb_ℤ n (pos 0) then 20_000 else if ltb_ℤ (pos 100_000) n then 100_000 else abs_ℕ n

  -- `EquityHistory`
  unfoldable pub equity_history : Str → Time → ℤ → D → Option (List EquitySnapshot)
  unfolding equity_limit
  equity_history strategy since limit d =
      elim (sql.select_equity
        (λ r. same r.strategy strategy && (since == 0 || leb_ℤ (unix_nano since) r.ts_ns))
        (equity_limit limit) d) [ none ↦ none | some rows ↦ some (map (scan_equity strategy) rows) ]

  -- A group of the ticks in `Instruments`: the count, the first and the last time.
  unfoldable pub stat_of : Str × Str × ℤ × ℤ × ℤ → InstrumentStat
  stat_of (venue, id, n, first_ns, last_ns) = record {
    venue = venue;
    instrument = id;
    ticks = n;
    first = of_unix_nano first_ns;
    last = of_unix_nano last_ns;
  }

  -- `Instruments`
  unfoldable pub instruments : D → Option (List InstrumentStat)
  instruments d = elim (sql.group_ticks d) [ none ↦ none | some groups ↦ some (map stat_of groups) ]

  -- `NeedsVacuum`
  unfoldable pub needs_vacuum : D → Option Bool
  needs_vacuum d = elim (sql.auto_vacuum d) [
    | none ↦ none
    | some mode ↦ some (not (eqb_ℤ mode (pos 2)))
  ]

  -- `Vacuum`; true is an error.
  unfoldable pub vacuum : D → Bool × D
  vacuum d = elim (sql.set_incremental d) [
    | none ↦ (true, d)
    | some d' ↦ elim (sql.vacuum d') [ none ↦ (true, d') | some d'' ↦ (false, d'') ]
  ]

  -- `Counts`; true is an error.
  unfoldable pub counts : D → (ℤ × ℤ) × Bool
  counts d = elim (sql.count_ticks d) [
    | none ↦ ((pos 0, pos 0), true)
    | some n ↦ elim (sql.count_raw d) [ none ↦ ((n, pos 0), true) | some m ↦ ((n, m), false) ]
  ]
