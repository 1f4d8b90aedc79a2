-- ===== src/Tests/Web.antt =====
-- Examples for the websocket clients and the HTTP queries.
use real_time_market_data_pi.Base.{
  ◌≡◌, ◌%◌, refl, true, none, some, Option, List, [], ◌∷◌, map, All, false, arith, ◌==◌, same,
  list_eq, nat_eq, if◌then◌else◌,
}
use real_time_market_data_pi.Base.Bytes.{Str, str}
use real_time_market_data_pi.Base.Int64.{two64}
use real_time_market_data_pi.Tests.{btc, three_trades, trade}
use real_time_market_data_pi.Base.Int.{ℤ, pos, negsuc}
use real_time_market_data_pi.Base.Int64.{IsInt64, wrap}
use real_time_market_data_pi.Store.{Query, zero_cursor, is_zero_cursor, is_blank}
use real_time_market_data_pi.Store.Rows.{row_of, scan_tick, unix_nano}
use real_time_market_data_pi.Store.Sqlite.{selects, str_ltb, key_ltb}
use real_time_market_data_pi.Store.Order.{keep}
use real_time_market_data_pi.Tick.{venue_binance}
use real_time_market_data_pi.Tests.Archive.{Table, rows, fixed_sql, fixed_sql-IsQueried}
use real_time_market_data_pi.Tests.Flow.{fixed}
use real_time_market_data_pi.Api.Http.{Parsers, Request, Deps, query_of}
use real_time_market_data_pi.Api.Http.Follow.{IsPrinter, sqlite, follow, served, follow_all}
use real_time_market_data_pi.Api.Stream.{
  Server, Outbound, Action, ready, cancelled, request, tick, serving, new_server, act_all, stats,
  parse_filter,
}
use real_time_market_data_pi.Api.Stream.Sound.{IsKept, listed_in, act_all_sound}
use real_time_market_data_pi.Api.Stream.Newest.{broadcasts, reached, broadcasts_lem}

abbrev encode : Outbound → Option Str
encode o = some o.instrument

-- Two clients, one of them filtered, which read now and then.
abbrev clients : List Action
clients =
    request true (str "")
    ∷ request true (str "BTC-USDT,,SOL-USDT")
    ∷ tick (λ i. (0, 1)) (trade btc 61 (pos 10100))
    ∷ serving 1 (ready true)
    ∷ serving 0 cancelled
    ∷ []

filter_names : parse_filter (str "BTC-USDT,,SOL-USDT") ≡ some (btc ∷ str "SOL-USDT" ∷ [])
unfolding parse_filter
filter_names = refl

act_all_sound_example :
    let s = act_all encode clients new_server in
    (stats s ≡ (listed_in s.clients % two64, 0)) × All IsKept s.clients
act_all_sound_example = act_all_sound encode clients

abbrev room : Server
room = record {
  clients =
      record {
        out = [];
        done = false;
        filter = some (btc ∷ []);
        listed = true;
        serving = true;
        written = [];
      }
      ∷ [];
  connected = 1;
  kicked = 0;
}

broadcasts_lem_example :
    broadcasts encode three_trades room
    ≡ record room { clients = map (reached three_trades) room.clients }
broadcasts_lem_example = broadcasts_lem encode three_trades room (omega arith, tt)

-- Texts of numbers: a sign and the number.
abbrev print : ℤ → Str
print (pos n) = b'+' ∷ n ∷ []
print (negsuc n) = b'-' ∷ n ∷ []

abbrev read : Str → Option ℤ
read (s ∷ n ∷ []) = if s == b'+' then some (pos n) else some (negsuc n)
read _ = none

abbrev parsers : Parsers
parsers = record { parse_time = λ s. none; parse_int = read; atoi = read }

print-IsPrinter : IsPrinter parsers print
print-IsPrinter = record { reads = reads; some_text = some_text }
  where
    reads : (z : ℤ) → IsInt64 z → read (print z) ≡ some z
    reads (pos n) h = refl
    reads (negsuc n) h = refl

    some_text : (z : ℤ) → is_blank (print z) ≡ false
    some_text (pos n) = refl
    some_text (negsuc n) = refl

abbrev web_deps : Deps ℤ Table
web_deps = record {
  store = sqlite fixed_sql;
  sizer = none;
  bus = none;
  candles = none;
  paper = [];
  persister = none;
  history = none;
  venue = venue_binance;
  instruments = btc ∷ [];
  started_at = 0;
}

abbrev newest_first : Request
newest_first k =
    if same k (str "instrument")
    then btc
    else if same k (str "limit")
    then print (pos 2)
    else if same k (str "order")
    then str "desc"
    else []

abbrev asked : Query
asked = record {
  venue = venue_binance;
  instrument = btc;
  from_time = 0;
  to_time = 0;
  limit = pos 2;
  cursor = zero_cursor;
  descending = true;
}

follow_all_example :
    follow fixed parsers print 4
      (served fixed fixed_sql [] parsers print print-IsPrinter web_deps)
      newest_first
      []
    ≡ some (map scan_tick (keep (selects asked) (rows true)))
unfolding query_of selects is_zero_cursor row_of unix_nano str_ltb key_ltb wrap
follow_all_example =
    follow_all fixed fixed_sql [] parsers print print-IsPrinter web_deps rows fixed_sql-IsQueried 4
      newest_first asked refl refl ((refl, (refl, tt)), ((refl, tt), (tt, tt)))
      (refl, (refl, (refl, tt))) (ground arith)
