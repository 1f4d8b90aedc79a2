-- ===== src/Tests/Program.antt =====
-- Examples for the program that connects the parts.
use real_time_market_data_pi.Base.{
  ◌≡◌, ◌≢◌, refl, true, false, none, some, List, [], ◌∷◌, ◌++◌, map, All, list_eq, nat_eq, pair_eq,
  arith, length,
}
use real_time_market_data_pi.Base.Bytes.{Str, str}
use real_time_market_data_pi.Base.Int.{pos}
use real_time_market_data_pi.Bus.Sub.{Wakeup}
use real_time_market_data_pi.Bus.Fanout.{new_bus, publish, publish_to}
use real_time_market_data_pi.Normalize.{
  RawMessage, Decoders, Decoded, ticks, failed, bad_envelope, normalize, assign, last_seq,
}
use real_time_market_data_pi.Normalize.Sequence.{seqs_of, counted_from}
use real_time_market_data_pi.Store.Sqlite.{Sql, append_raw_batch}
use real_time_market_data_pi.Command.Flags.{parse_strategies, state_path_for}
use real_time_market_data_pi.Command.Flags.Apart.{IsDistinct, books_apart}
use real_time_market_data_pi.Command.Pump.{
  Pump, Event, cancelled, interval, frame, step, keep_raw, flush_raw, pump, pump_from,
}
use real_time_market_data_pi.Command.Pump.Frames
use real_time_market_data_pi.Command.Pump.Frames.{archive, concat, IsBatch, Left, pump_archives}
use real_time_market_data_pi.Command.Pump.Sequenced
use real_time_market_data_pi.Command.Pump.Sequenced.{
  Call, publish_each, published, pump_consecutive,
}
use real_time_market_data_pi.Tick.{venue_binance}
use real_time_market_data_pi.Tests.{btc, eth, trade, unicode}
use real_time_market_data_pi.Base.Int.{leb_ℤ}
use real_time_market_data_pi.Registry.{
  symbols, new_registry, register, register_one, symbol, canonical, get2, put2, ensure, venue_key,
}
use real_time_market_data_pi.Venue
use real_time_market_data_pi.Venue.{
  Action, reads, take, pong, hang_up, Read, got, StreamError, no_pong, context_error, connected,
  stream_steps, read, on_read, streams_of,
}
use real_time_market_data_pi.Venue.Diagnosis.{stream_diagnosis}
use real_time_market_data_pi.Venue.Streams.{symbol_in, IsLowered, streams_back}
use real_time_market_data_pi.Tests.Archive.{Table, row_at, sql_of, no_day}

-- A database that keeps a row for each frame.
abbrev raw_sql : Sql Table
raw_sql = record (sql_of (λ desc d. d)) { insert_raw = λ r d. some (row_at 1 ∷ d) }

abbrev decode : Str → Decoded
decode [] = failed bad_envelope
decode (c ∷ s) = ticks (trade btc 61 (pos 10100) ∷ [])

abbrev decoders : Decoders
decoders = (venue_binance, λ m. decode m.payload) ∷ []

abbrev message : Str → RawMessage
message payload = record { venue = venue_binance; payload = payload; recv_time = 7 }

abbrev events : List Event
events =
    frame (message (str "a")) (λ i t. Wakeup.closed 0) false
    ∷ frame (message []) (λ i t. Wakeup.closed 0) false
    ∷ interval
    ∷ frame (message (str "b")) (λ i t. Wakeup.closed 0) false
    ∷ cancelled
    ∷ []

abbrev start : Pump Table
start = record {
  raw_batch = [];
  decode_err = 0;
  warned = [];
  sequencer = [];
  bus = new_bus;
  db = [];
}

pump_archives_example :
    let (q, end) = pump raw_sql no_day decoders true events [] new_bus [] in
    ((bs : List (List _)) × (q.db ≡ archive raw_sql no_day bs [])
      × (concat bs ++ q.raw_batch ≡ Frames.received raw_sql no_day decoders true events start)
      × All IsBatch bs)
    × Left raw_sql no_day decoders true end q
pump_archives_example = pump_archives raw_sql no_day decoders true events [] new_bus []

two_ticks : length (Sequenced.received raw_sql no_day decoders true events start) ≡ 2
unfolding new_bus step normalize publish keep_raw flush_raw append_raw_batch assign publish_to
two_ticks = refl

pump_consecutive_example :
    (cs : List Call) × ((pump_from raw_sql no_day decoders true events start).0.bus
      ≡ publish_each cs new_bus)
    × (published cs ≡ (assign (Sequenced.received raw_sql no_day decoders true events start) []).0)
    × (seqs_of (venue_binance, btc) (published cs)
        ≡ counted_from
            (last_seq (venue_binance, btc) [])
            (venue_binance, btc)
            (Sequenced.received raw_sql no_day decoders true events start))
unfolding last_seq
pump_consecutive_example =
    pump_consecutive raw_sql no_day decoders true (venue_binance, btc) events start
      (omega (arith, two_ticks))

abbrev wanted : Str
wanted = str " Adaptive,,momentum "

book_file : state_path_for (str "data/paper.json") (str "llm") ≡ str "data/paper-llm.json"
unfolding state_path_for
book_file = refl

books_apart_example :
    IsDistinct (str "adaptive" ∷ str "momentum" ∷ [])
    × IsDistinct
        (map (state_path_for (str "data/paper.json")) (str "adaptive" ∷ str "momentum" ∷ []))
unfolding parse_strategies
books_apart_example =
    books_apart wanted (str "data/paper.json") (str "adaptive" ∷ str "momentum" ∷ []) refl

-- A connection whose ping is not answered, and that is closed after a first frame.
abbrev silent : List Action
silent = reads (got true (str "frame") 5) ∷ take ∷ pong true ∷ pong false ∷ hang_up ∷ []

stream_diagnosis_example :
    let c = stream_steps (pos 20) silent connected in
    ((r : Read) (e : StreamError)
      → c.closed ≡ true
      → c.result ≡ none
      → c.held ≡ none
      → read c.done r ≡ Venue.failed e
      → (on_read r c).result ≡ some no_pong)
    × (leb_ℤ (pos 20) (pos 0) ≡ true → c.result ≢ some no_pong)
    × (c.result ≡ some context_error → c.done ≡ true)
stream_diagnosis_example = stream_diagnosis (pos 20) silent

streams_back_example :
    let reg = (register unicode symbols new_registry).1 in
    (map
        (λ s. canonical unicode venue_binance (symbol_in s) reg)
        (str "btcusdt@trade" ∷ str "ethusdt@trade" ∷ [])
      ≡ map (λ id. some id) (btc ∷ eth ∷ []))
    × All IsLowered (str "btcusdt@trade" ∷ str "ethusdt@trade" ∷ [])
unfolding streams_of symbol new_registry register_one register get2 put2 ensure venue_key
streams_back_example =
    streams_back unicode symbols (btc ∷ eth ∷ []) (str "btcusdt@trade" ∷ str "ethusdt@trade" ∷ [])
      (refl, (refl, tt)) refl
