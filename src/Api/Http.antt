-- ===== src/Api/Http.antt =====
-- internal/api/httpapi/httpapi.go: the handlers, with a response as a status and a body. What a
-- response holds is a value; its JSON text is not modelled.
pub mod Follow
use real_time_market_data_pi.Base.{
  ℕ, ◌-◌, ◌/◌, Bool, true, false, ◌||◌, Option, none, some, List, [], ◌∷◌, map, ltb, if◌then◌else◌,
  length, drop, same, list_eq, nat_eq,
}
use real_time_market_data_pi.Base.Bytes.{Str, str}
use real_time_market_data_pi.Base.Int.{ℤ, pos, leb_ℤ, ltb_ℤ, abs_ℕ}
use real_time_market_data_pi.Bus.Fanout.{Bus, all_stats, targets}
use real_time_market_data_pi.Bus
use real_time_market_data_pi.Candles.{Candle, Builder, recent}
use real_time_market_data_pi.Decimal.{Decimal}
use real_time_market_data_pi.Float.{Float64}
use real_time_market_data_pi.Paper.{Fill, Snapshot, Account}
use real_time_market_data_pi.Paper.Report.{snapshot}
use real_time_market_data_pi.Paper.Engine.{Engine, engine_name}
use real_time_market_data_pi.Persist
use real_time_market_data_pi.Store.{
  Query, Page, Cursor, zero_cursor, EquitySnapshot, InstrumentStat, default_limit, is_blank,
}
use real_time_market_data_pi.Tick.{Tick, Time, side_string}

-- `store.Reader`, `store.EquityReader` and what `metrics` asks of a store that has it, over a state
-- `D` of the store; `none` is an error, and an inner `none` is `ErrNotFound`.
pub record Reader (D : Type 0) : Type 0 where
  pub ticks : Query → D → Option Page
  pub latest : Str → Str → D → Option (Option Tick)
  pub instruments : D → Option (List InstrumentStat)

abbrev pub EquityReader : Type 0 → Type 0
EquityReader D = Str → Time → ℤ → D → Option (List EquitySnapshot)

pub record Sizer (D : Type 0) : Type 0 where
  pub size_bytes : D → Option ℤ
  pub counts : D → Option (ℤ × ℤ)

-- The parsers of Go's packages `time` and `strconv`: `time.Parse(time.RFC3339, …)`, `ParseInt` and
-- `Atoi`.
pub record Parsers : Type 0 where
  pub parse_time : Str → Option Time
  pub parse_int : Str → Option ℤ
  pub atoi : Str → Option ℤ

-- `r.URL.Query().Get`: empty where the parameter is missing.
abbrev pub Request : Type 0
Request = Str → Str

-- `Deps`; an engine stands with its strategy's name.
pub record Deps (F D : Type 0) : Type 0 where
  pub store : Reader D
  pub sizer : Option (Sizer D)
  pub bus : Option Bus
  pub candles : Option Builder
  pub paper : List (Str × Engine F)
  pub persister : Option Persist.Stats
  pub history : Option (EquityReader D)
  pub venue : Str
  pub instruments : List Str
  pub started_at : Time

-- The errors that a handler words itself; `store_error` is the store's.
pub data ApiError : Type 0 where
  store_error not_found candles_disabled bad_start bad_end bad_cursor : ApiError
  paper_disabled no_such_strategy history_disabled bad_since : ApiError

pub record Score (F : Type 0) : Type 0 where
  pub name : Str
  pub strategy : Str
  pub account : Snapshot F

pub record Quote : Type 0 where
  pub venue : Str
  pub instrument : Str
  pub price : Decimal
  pub quantity : Decimal
  pub side : Str
  pub event_time : Time
  pub recv_time : Time
  pub seq : ℕ

-- The archive's part of the metrics.
pub record Archive : Type 0 where
  pub bytes : Option ℤ
  pub ticks_and_raw : Option (ℤ × ℤ)

pub record Metrics (F : Type 0) : Type 0 where
  pub uptime : ℕ
  pub subscribers : Option (List Bus.Stats)
  pub persist : Option Persist.Stats
  pub accounts : List (Str × Snapshot F)
  pub archive : Option Archive

pub data Body (F : Type 0) : Type 0 where
  failure : ApiError → Body F
  healthy : ℕ → Body F
  metrics_body : Metrics F → Body F
  listed : List Str → List InstrumentStat → Body F
  quoted : Quote → Body F
  bars : Str → ℕ → List Candle → Body F
  -- the ticks, whether there are more, and the cursor that is told only then
  ticks_page : List Tick → Bool → Option Cursor → Body F
  scores : List (Score F) → Body F
  score : Score F → Body F
  fill_log : Str → List Fill → Body F
  curve : Str → List EquitySnapshot → Body F

pub record Response (F : Type 0) : Type 0 where
  pub code : ℕ
  pub body : Body F

abbrev pub ok : {F : Type 0} → Body F → Response F
ok b = record { code = 200; body = b }

-- `writeError`
abbrev pub write_error : {F : Type 0} → ℕ → ApiError → Response F
write_error code e = record { code = code; body = failure e }

-- `intParam`
unfoldable pub int_param : Parsers → Request → Str → ℤ → ℤ
int_param ps r name def =
    let v = r name in
    if is_blank v
    then def
    else elim (ps.atoi v) [ none ↦ def | some n ↦ if ltb_ℤ n (pos 0) then def else n ]

-- `Fills` of internal/consumer/paper/paper.go
unfoldable pub fills_of : {F : Type 0} → Account F → ℤ → List Fill
fills_of a limit =
    let all = a.book.fills in
    let n =
      if leb_ℤ limit (pos 0) || ltb_ℤ (pos (length all)) limit then length all else abs_ℕ limit in
    drop (length all - n) all

-- An optional time: the zero time where the text is empty.
unfoldable pub time_param : Parsers → Str → Option Time
time_param ps v = if is_blank v then some 0 else ps.parse_time v

-- An optional cursor: none where `cursor_ts` is no integer.
unfoldable pub cursor_param : Parsers → Request → Option Cursor
cursor_param ps r =
    let v = r (str "cursor_ts") in
    if is_blank v then some zero_cursor else elim (ps.parse_int v) [
      | none ↦ none
      | some ns ↦ some (record { event_time_ns = ns; trade_id = r (str "cursor_id") })
    ]

-- What `ticks` makes of its parameters.
pub data Asked : Type 0 where
  refused : ApiError → Asked
  query : Query → Asked

unfoldable pub ask : Str → Request → ℤ → Option Time → Option Time → Option Cursor → Asked
ask venue r limit none end c = refused bad_start
ask venue r limit (some start) none c = refused bad_end
ask venue r limit (some start) (some end) none = refused bad_cursor
ask venue r limit (some start) (some end) (some c) = query (record {
  venue = venue;
  instrument = r (str "instrument");
  from_time = start;
  to_time = end;
  limit = limit;
  cursor = c;
  descending = same (r (str "order")) (str "desc");
})

unfoldable pub query_of : Parsers → Str → Request → Asked
unfolding int_param time_param cursor_param ask
query_of ps venue r =
    ask venue r (int_param ps r (str "limit") (pos default_limit)) (time_param ps (r (str "start")))
      (time_param ps (r (str "end"))) (cursor_param ps r)

module _ (fl : Float64) {D : Type 0} (ps : Parsers) (deps : Deps fl.F D) where
  abbrev F : Type 0
  F = fl.F

  -- `health`, at a time.
  unfoldable pub health : Time → Response F
  health now = ok (healthy ((now - deps.started_at) / 1_000_000_000))

  -- The engine's name, its strategy's and its account's snapshot.
  unfoldable pub score_of : Time → Str × Engine F → Score F
  unfolding engine_name
  score_of now (strategy, e) = record {
    name = engine_name strategy e;
    strategy = strategy;
    account = snapshot fl now e.acct;
  }

  unfoldable pub archive_of : Option (Sizer D) → D → Option Archive
  archive_of none d = none
  archive_of (some s) d = some (record { bytes = s.size_bytes d; ticks_and_raw = s.counts d })

  -- `metrics`
  unfoldable pub metrics : Time → D → Response F
  unfolding score_of archive_of
  metrics now d = ok (
      metrics_body (record {
        uptime = (now - deps.started_at) / 1_000_000_000;
        subscribers = elim deps.bus [
          | none ↦ none
          | some b ↦ some (all_stats (targets b) b.heap).0
        ];
        persist = deps.persister;
        accounts = map (λ p. let s = score_of now p in (s.name, s.account)) deps.paper;
        archive = archive_of deps.sizer d;
      }))

  -- `instruments`
  unfoldable pub instruments : D → Response F
  instruments d = elim (deps.store.instruments d) [
    | none ↦ write_error 500 store_error
    | some stats ↦ ok (listed deps.instruments stats)
  ]

  -- `quote`, of an instrument.
  unfoldable pub quote : Str → D → Response F
  quote id d = elim (deps.store.latest deps.venue id d) [
    | none ↦ write_error 500 store_error
    | some none ↦ write_error 404 not_found
    | some (some t) ↦ ok (
        quoted (record {
          venue = t.venue;
          instrument = t.instrument;
          price = t.price;
          quantity = t.quantity;
          side = side_string t.side;
          event_time = t.event_time;
          recv_time = t.recv_time;
          seq = t.seq;
        }))
  ]

  -- `candlesFor`
  unfoldable pub candles_for : Str → Request → Response F
  unfolding int_param
  candles_for id r = elim deps.candles [
    | none ↦ write_error 404 candles_disabled
    | some b ↦
        ok (bars id b.interval (recent deps.venue id (int_param ps r (str "limit") (pos 100)) b))
  ]

  -- `ticks`
  unfoldable pub ticks : Request → D → Response F
  ticks r d = elim (query_of ps deps.venue r) [
    | refused e ↦ write_error 400 e
    | query q ↦ elim (deps.store.ticks q d) [
      | none ↦ write_error 500 store_error
      | some p ↦
          ok (ticks_page p.ticks p.has_more (if p.has_more then some p.next_cursor else none))
    ]
  ]

  -- `engine`: the first one of the name.
  unfoldable pub find_engine : Str → List (Str × Engine F) → Option (Str × Engine F)
  unfolding engine_name
  find_engine name [] = none
  find_engine name ((s, e) ∷ es) =
      if same (engine_name s e) name then some (s, e) else find_engine name es

  -- `paperAll`
  unfoldable pub paper_all : Time → Response F
  unfolding score_of
  paper_all now = elim deps.paper [
    | [] ↦ write_error 404 paper_disabled
    | p ∷ ps ↦ ok (scores (map (score_of now) (p ∷ ps)))
  ]

  -- `paperOne`
  unfoldable pub paper_one : Str → Time → Response F
  unfolding score_of find_engine
  paper_one name now = elim (find_engine name deps.paper) [
    | none ↦ write_error 404 no_such_strategy
    | some p ↦ ok (score (score_of now p))
  ]

  -- `paperFills`
  unfoldable pub paper_fills : Str → Request → Response F
  unfolding find_engine int_param engine_name fills_of
  paper_fills name r = elim (find_engine name deps.paper) [
    | none ↦ write_error 404 no_such_strategy
    | some (s, e) ↦
        ok (fill_log (engine_name s e) (fills_of e.acct (int_param ps r (str "limit") (pos 100))))
  ]

  -- `paperHistory`
  unfoldable pub paper_history : Str → Request → D → Response F
  unfolding find_engine time_param int_param
  paper_history name r d = elim (find_engine name deps.paper) [
    | none ↦ write_error 404 no_such_strategy
    | some _ ↦ elim deps.history [
      | none ↦ write_error 404 history_disabled
      | some read ↦ elim (time_param ps (r (str "since"))) [
        | none ↦ write_error 400 bad_since
        | some since ↦ elim (read name since (int_param ps r (str "limit") (pos 0)) d) [
          | none ↦ write_error 500 store_error
          | some points ↦ ok (curve name points)
        ]
      ]
    ]
  ]
