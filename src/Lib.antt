-- ===== src/Lib.antt =====
-- Verification of the real-time market data pipeline: trades come in from a venue, are normalized,
-- fanned out by a bus, and consumed by the archive, the candles, the simulated account and the engine
-- that trades with a broker; another engine trades stocks by their quotes, and a bot by chat.
--
-- The parts, and the files of the repository that they model:
--   Base       lists, tests, association lists, integers, machine words and texts shared by all parts;
--              Text is Go's package strings on ASCII text; the registry and the streams take what
--              ToUpper and ToLower make of other texts as an argument, Unicode
--   Decimal    internal/model/decimal.go (Text, Json) and decimal_math.go (Arith): exact decimals
--   Float      internal/model/decimal_math.go, Float and FromFloat, over an interface for float64
--   Tick       internal/model/tick.go
--   Bus        internal/bus/bus.go, and internal/bus/inproc/inproc.go: Sub is one subscription, Fanout
--              the bus over a heap of subscriptions
--   Candles    internal/consumer/candles/candles.go
--   Registry   internal/instrument/registry.go and the table of internal/venue/binance/symbols.go
--   Venue      internal/venue/binance/binance.go: the streams asked for, and the connection as the steps
--              of its two loops
--   Normalize  internal/normalize/normalize.go and binance.go
--   Persist    internal/consumer/persist/persist.go
--   Strategy   internal/strategy/strategy.go, actions and signals; Momentum is momentum.go, Reversion
--              meanrev.go, Adaptive adaptive.go, LanguageModel the answers that llm.go reads
--              and its prompts
--   Paper      internal/consumer/paper/paper.go: Trade is NewAccount and Apply, Report Mark and Snapshot;
--              Engine is engine.go, the loop with its state file
--   Broker     internal/broker/broker.go
--   Live       internal/consumer/live/engine.go: Trade is the handling of signals and the loop
--   Supervise  internal/supervise/supervise.go
--   Store      internal/store/store.go; Janitor is janitor.go, Rows and Sqlite are sqlite/sqlite.go
--   Equity     the orders and positions of internal/broker/alpaca/equity.go, and the interface to them
--   EquityTrader  internal/equitytrader/engine.go
--   Telegram   internal/telegram: Parser is parser.go, Bot is bot.go
--   Alpaca     internal/broker/alpaca/alpaca.go; Orders has what both files of the package send
--   Api        internal/api: Stream is wsapi/wsapi.go, the clients of the live ticks; Http is
--              httpapi/httpapi.go, the handlers
--   Command    cmd/mdp/main.go: Pump is the loop between the venue and the bus, Flags the settings and
--              the names of the accounts and their files, Wiring the start of the engines with real orders
--   Tests      inputs and examples
--
-- The decoder of Normalize makes ticks of decimals; the bus delivers ticks to subscriptions; the
-- persister, the candle builder, the paper engine and the live engine are consumers that read them. The
-- persister appends to the archive, the paper engine records its equity there. The program's pump stands
-- between the frames of the venue and the bus, and archives them undecoded; the websocket server is one
-- more consumer, the HTTP server reads the archive and the accounts. The engines act on the
-- signals of a strategy, and the equity trader and the bot send their orders to the remote broker.
--
-- How the code is represented. A number of Go's int64 is an integer with its wrap-around written out,
-- a uint64 counter a natural number modulo 2^64, big.Int an integer. A time is its nanoseconds since the
-- zero time. A map is an association list in which the first entry of a key counts, a text a list of
-- bytes. A mutex makes each call one step. A channel is the list of what it buffers; a wait of a
-- publisher on a full channel is an argument that says what ended it. The coalescing goroutine is a
-- state machine whose steps are given by the key that the map yields.
--
-- Fuel: the drop-oldest loop has two rounds, enough where no other publisher sends on the channel
-- between them, as in the modelled steps; the printing of a number n has n + 1 rounds. The polls of an
-- order and of the chat have a number of rounds that stands for the end of their context. A reader of
-- all pages of a query needs more rounds than the query has rows, over HTTP too. PruneToSize has the
-- 400 rounds of the source.
--
-- Parameters: encoding/json, float64 arithmetic, math.Sqrt, fmt.Sprintf on floats, regexp, url.Parse,
-- the parsers of times and numbers, the websocket library,
-- the SQL database, the files of the operating system, the client library of the broker, the chat's
-- updates, the strategy of an engine, clocks and random numbers are arguments of the definitions that
-- use them. What a theorem needs of the database (a table with a primary key, and its queries) and of
-- the files (an atomic rename) is a record of hypotheses. Logging, contexts and timers are left out;
-- the timers and the ends of contexts are events of the loops.
--
-- Not modelled: the JSON text of responses, the routes and the listening of the HTTP server, the
-- opening of the database and its settings, the HTTP client of Telegram and the texts of the bot's
-- replies, the rest of the wiring of the main program, its flags and logger, and the test server,
-- which are I/O.
pub mod Base
pub mod Decimal
pub mod Tick
pub mod Bus
pub mod Candles
pub mod Registry
pub mod Normalize
pub mod Venue
pub mod Persist
pub mod Float
pub mod Strategy
pub mod Paper
pub mod Store
pub mod Equity
pub mod EquityTrader
pub mod Telegram
pub mod Alpaca
pub mod Api
pub mod Command
pub mod Broker
pub mod Live
pub mod Supervise
pub mod Tests
