-- ===== src/Api/Http/Follow.antt =====
-- A client of `ticks` in internal/api/httpapi/httpapi.go that asks for page after page.
use real_time_market_data_pi.Base.{
  ℕ, zero, suc, ◌+◌, ◌<◌, ◌≡◌, refl, ap, ◌∙◌, inl, inr, Bool, true, false, Bool-cases, Option, none,
  some, Option-cases, subst, ◌&&◌, List, [], ◌∷◌, ◌++◌, map, take, ltb, length, All, same, list_eq,
  nat_eq, if◌then◌else◌, arith,
}
use real_time_market_data_pi.Base.Bytes.{Str, str}
use real_time_market_data_pi.Base.Int.{ℤ, pos}
use real_time_market_data_pi.Base.Int64.{IsInt64, wrap-IsInt64}
use real_time_market_data_pi.Float.{Float64}
use real_time_market_data_pi.Tick.{Tick, Time}
use real_time_market_data_pi.Store.{
  Query, Page, Cursor, is_blank, is_zero_cursor, normalize_limit, default_limit,
}
use real_time_market_data_pi.Store.Order.{Ordered, keep}
use real_time_market_data_pi.Store.Rows.{TickRow, scan_tick, unix_nano}
use real_time_market_data_pi.Store.Sqlite.{Sql, selects, beyond, page_of, last_cursor}
use real_time_market_data_pi.Store.Sqlite
use real_time_market_data_pi.Store.Paging.{IsQueried, cursor_of, all_pages, all_pages_lem}
use real_time_market_data_pi.Api.Http.{
  Reader, Parsers, Request, Deps, Body, ticks_page, time_param, cursor_param, query_of, query,
  ticks, ask, int_param,
}

-- The texts of the cursor's numbers: what is printed is read back.
pub record IsPrinter (ps : Parsers) (print : ℤ → Str) : Type 0 where
  pub reads : (z : ℤ) → IsInt64 z → ps.parse_int (print z) ≡ some z
  pub some_text : (z : ℤ) → is_blank (print z) ≡ false

-- The request for the page behind a cursor.
abbrev pub with_cursor : (ℤ → Str) → Cursor → Request → Request
with_cursor print c r = λ k.
    if same k (str "cursor_ts")
    then print c.event_time_ns
    else if same k (str "cursor_id")
    then c.trade_id
    else r k

-- What a client reads of a response: the ticks, and the cursor where there are more.
abbrev pub page_in : {F : Type 0} → Body F → Option (List Tick × Option Cursor)
page_in (ticks_page ts more c) = some (ts, c)
page_in _ = none

abbrev pub sqlite : {D : Type 0} → Sql D → Reader D
sqlite sql = record {
  ticks = Sqlite.ticks sql;
  latest = Sqlite.latest sql;
  instruments = Sqlite.instruments sql;
}

module _ (fl : Float64) {D : Type 0} (ps : Parsers) (print : ℤ → Str) where
  -- A client that follows the cursors: the ticks of all its pages; `none` where a response is no
  -- page, or the pages outnumber the fuel.
  pub follow : ℕ → Deps fl.F D → Request → D → Option (List Tick)
  follow zero deps r d = none
  follow (suc fuel) deps r d = elim (page_in (ticks fl ps deps r d).body) [
    | none ↦ none
    | some (ts, c) ↦ elim c [
      | none ↦ some ts
      | some next ↦ elim (follow fuel deps (with_cursor print next r) d) [
        | none ↦ none
        | some rest ↦ some (ts ++ rest)
      ]
    ]
  ]

last_cursor-IsInt64 : (ts : List Tick) → IsInt64 (last_cursor ts).event_time_ns
unfolding unix_nano
last_cursor-IsInt64 [] = omega arith
last_cursor-IsInt64 (t ∷ []) = wrap-IsInt64 _
last_cursor-IsInt64 (t ∷ u ∷ ts) = last_cursor-IsInt64 (u ∷ ts)

page_of-IsInt64 :
    (limit : ℕ) (rows : List TickRow) → IsInt64 (page_of limit rows).next_cursor.event_time_ns
unfolding page_of
page_of-IsInt64 limit rows =
    let ts = map scan_tick rows in
    elim (Bool-cases (ltb limit (length ts))) [
      | inl more ↦ rw (more, page_of) (last_cursor-IsInt64 (take limit ts))
      | inr fits ↦ rw (fits, page_of) (omega arith)
    ]

no_page : {p : Page} → ◌≡◌ {A = Option Page} none (some p) → ⊥
no_page e = cc

page_inj : {p p' : Page} → ◌≡◌ {A = Option Page} (some p) (some p') → p ≡ p'
page_inj e = cc

query_inj : {q q' : Query} → query q ≡ query q' → q ≡ q'
query_inj e = cc

ticks-IsInt64 :
    {D : Type 0} (sql : Sql D) (q : Query) (d : D) (p : Page)
    → Sqlite.ticks sql q d ≡ some p
    → IsInt64 p.next_cursor.event_time_ns
unfolding Sqlite.ticks
ticks-IsInt64 sql q d p e =
    let limit = normalize_limit q.limit in
    elim (Option-cases
      (sql.select_ticks (λ r. selects q r && beyond q r) q.descending (limit + 1) d)) [
        | inl n ↦ elim (no_page (rw (n, Sqlite.ticks) at e)) [ ]
        | inr (rows, n) ↦
            subst (λ (x : Page). IsInt64 x.next_cursor.event_time_ns)
              (page_inj (rw (n, Sqlite.ticks) at e)) (page_of-IsInt64 limit rows)
      ]

module _ (ps : Parsers) (print : ℤ → Str) (laws : IsPrinter ps print) where
  cursor_param-with_cursor :
      (c : Cursor) (r : Request)
      → IsInt64 c.event_time_ns
      → cursor_param ps (with_cursor print c r) ≡ some c
  unfolding cursor_param
  cursor_param-with_cursor c r h =
      rw (laws.some_text c.event_time_ns, laws.reads c.event_time_ns h) refl

  -- The request for the next page asks for the same, from the cursor on.
  query_of-with_cursor :
      (venue : Str) (r : Request) (q : Query) (c : Cursor)
      → query_of ps venue r ≡ query q
      → IsInt64 c.event_time_ns
      → query_of ps venue (with_cursor print c r) ≡ query (record q { cursor = c })
  unfolding query_of ask
  query_of-with_cursor venue r q c e h =
      rw (cursor_param-with_cursor c r h)
        (go (time_param ps (r (str "start"))) (time_param ps (r (str "end"))) (cursor_param ps r) e)
    where
      go :
          (start end : Option Time) (c0 : Option Cursor)
          → ask venue r (int_param ps r (str "limit") (pos default_limit)) start end c0 ≡ query q
          → ask venue
              (with_cursor print c r)
              (int_param ps r (str "limit") (pos default_limit))
              start
              end
              (some c)
            ≡ query (record q { cursor = c })
      go none end c0 e = cc
      go (some start) none c0 e = cc
      go (some start) (some end) none e = cc
      go (some start) (some end) (some c0) e =
          ap (λ x. query (record x { cursor = c })) (query_inj e)

module _ (fl : Float64) {D : Type 0} (sql : Sql D) (d : D) (ps : Parsers) (print : ℤ → Str)
    (laws : IsPrinter ps print) (deps : Deps fl.F D) where
  abbrev pub served : Deps fl.F D
  served = record deps { store = sqlite sql }

  abbrev view : Option Page → Option (List Tick × Option Cursor)
  view none = none
  view (some p) = some (p.ticks, if p.has_more then some p.next_cursor else none)

  shown :
      (r : Request) (q : Query) (o : Option Page)
      → query_of ps deps.venue r ≡ query q
      → Sqlite.ticks sql q d ≡ o
      → page_in (ticks fl ps served r d).body ≡ view o
  unfolding ticks
  shown r q none e n = rw (e, ticks) (rw n refl)
  shown r q (some p) e n = rw (e, ticks) (rw n refl)

  -- The rest of a round of the client.
  abbrev go_on :
      (Cursor → Option (List Tick)) → Option (List Tick × Option Cursor) → Option (List Tick)
  go_on more o = elim o [
    | none ↦ none
    | some (ts, c) ↦ elim c [
      | none ↦ some ts
      | some next ↦ elim (more next) [ none ↦ none | some rest ↦ some (ts ++ rest) ]
    ]
  ]

  follow_lem :
      (fuel : ℕ) (r : Request) (q : Query)
      → query_of ps deps.venue r ≡ query q
      → follow fl ps print fuel served r d ≡ all_pages sql fuel q d
  unfolding follow all_pages
  follow_lem zero r q e = refl
  follow_lem (suc fuel) r q e = elim (Option-cases (Sqlite.ticks sql q d)) [
    | inl n ↦
        ap (go_on (λ c. follow fl ps print fuel served (with_cursor print c r) d))
          (shown r q none e n)
        ∙ rw (n, all_pages) refl
    | inr (p, n) ↦
        let more = λ (c : Cursor). follow fl ps print fuel served (with_cursor print c r) d in
        let next =
          follow_lem fuel (with_cursor print p.next_cursor r) (record q { cursor = p.next_cursor })
            (query_of-with_cursor ps print laws deps.venue r q p.next_cursor e
              (ticks-IsInt64 sql q d p n)) in
        ap (go_on more) (shown r q (some p) e n) ∙ elim (Bool-cases p.has_more) [
          | inl m ↦
              rw (n, all_pages)
                (rw m (
                  ap
                    (λ o. elim o as (λ _. Option (List Tick)) [
                      | none ↦ none
                      | some rest ↦ some (p.ticks ++ rest)
                    ])
                    next))
          | inr m ↦ rw (n, all_pages) (rw m refl)
        ]
  ]

  -- Where the database answers each query from a table that stays as it is, in which times are
  -- int64 numbers, and the decimal text of such a number is read back: an HTTP client that asks
  -- for ticks by parameters that are understood and without a cursor, and then follows the cursors
  -- of the responses, gets every tick that its parameters select, once and in order, whatever the
  -- limit, where the keys of the rows selected are strictly ordered and none is the zero cursor,
  -- and there is fuel for more pages than rows.
  pub follow_all :
      (rows : Bool → List TickRow) (db : IsQueried sql d rows) (fuel : ℕ) (r : Request) (q : Query)
      → query_of ps deps.venue r ≡ query q
      → is_zero_cursor q.cursor ≡ true
      → Ordered q.descending (keep (selects q) (rows q.descending))
      → All (λ row. is_zero_cursor (cursor_of row) ≡ false) (keep (selects q) (rows q.descending))
      → length (keep (selects q) (rows q.descending)) < fuel
      → follow fl ps print fuel served r d
        ≡ some (map scan_tick (keep (selects q) (rows q.descending)))
  follow_all rows db fuel r q e z o nz h =
      follow_lem fuel r q e ∙ all_pages_lem sql d rows db fuel q z o nz h
