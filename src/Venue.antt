-- ===== src/Venue.antt =====
-- internal/venue/venue.go and internal/venue/binance/binance.go: the connection to the venue, as the
-- steps of its read loop and its ping loop.
pub mod Streams
pub mod Diagnosis
use real_time_market_data_pi.Base.{
  ℕ, ◌&&◌, Bool, true, false, not, Option, none, some, List, [], ◌∷◌, ◌++◌, if◌then◌else◌,
}
use real_time_market_data_pi.Base.Bytes.{Str, str}
use real_time_market_data_pi.Base.Int.{ℤ, pos, leb_ℤ}
use real_time_market_data_pi.Base.Text.{Unicode, to_lower_of}
use real_time_market_data_pi.Normalize.{RawMessage}
use real_time_market_data_pi.Registry.{Registry, symbol}
use real_time_market_data_pi.Tick.{Time, venue_binance}

abbrev pub default_endpoint : Str
default_endpoint = str "wss://stream.binance.com:9443/stream"

pub record Venue : Type 0 where
  pub endpoint : Str
  pub registry : Registry
  pub ping_interval : ℤ
  pub ping_timeout : ℤ
  pub read_timeout : ℤ

abbrev pub VenueOption : Type 0
VenueOption = Venue → Venue

unfoldable pub with_endpoint : Str → VenueOption
with_endpoint u v = record v { endpoint = u }

unfoldable pub with_ping_interval : ℤ → VenueOption
with_ping_interval d v = record v { ping_interval = d }

unfoldable pub with_ping_timeout : ℤ → VenueOption
with_ping_timeout d v = record v { ping_timeout = d }

unfoldable pub with_read_timeout : ℤ → VenueOption
with_read_timeout d v = record v { read_timeout = d }

unfoldable pub apply_all : List VenueOption → Venue → Venue
apply_all [] v = v
apply_all (o ∷ os) v = apply_all os (o v)

-- `New`
unfoldable pub new_venue : Registry → List VenueOption → Venue
unfolding apply_all
new_venue reg opts = apply_all opts (record {
  endpoint = default_endpoint;
  registry = reg;
  ping_interval = pos 20_000_000_000;
  ping_timeout = pos 10_000_000_000;
  read_timeout = pos 300_000_000_000;
})

pub data StreamError : Type 0 where
  no_instruments bad_endpoint dial_failed : StreamError
  no_symbol : Str → StreamError
  no_frame read_failed unexpected_type no_pong context_error : StreamError

-- A value, or an error.
pub data Result (A : Type 0) : Type 0 where
  ok : A → Result A
  failed : StreamError → Result A

-- The loop of `streamURL`.
unfoldable pub streams_of : Unicode → List Str → Registry → Result (List Str)
streams_of u [] reg = ok []
streams_of u (id ∷ ids) reg =
    let rest = streams_of u ids reg in
    elim (symbol venue_binance id reg) [
      | none ↦ failed (no_symbol id)
      | some s ↦ elim rest [
        | failed e ↦ failed e
        | ok ss ↦ ok ((to_lower_of u s ++ str "@trade") ∷ ss)
      ]
    ]

-- `strings.Join` with a slash.
abbrev pub join : List Str → Str
join [] = []
join (s ∷ []) = s
join (s ∷ t ∷ ts) = s ++ (b'/' ∷ join (t ∷ ts))

-- `url.Parse`, the setting of `RawQuery`, and `String`: the text of an endpoint with a raw query;
-- `none` is an error.
module _ (u : Unicode) (with_raw_query : Str → Str → Option Str) where
  -- `streamURL`
  unfoldable pub stream_url : Venue → List Str → Result Str
  unfolding streams_of
  stream_url v [] = failed no_instruments
  stream_url v (id ∷ ids) = elim (streams_of u (id ∷ ids) v.registry) [
    | failed e ↦ failed e
    | ok ss ↦ elim (with_raw_query v.endpoint (str "streams=" ++ join ss)) [
      | none ↦ failed bad_endpoint
      | some u ↦ ok u
    ]
  ]

-- Where the goroutine of the pings is: in its loop, with an error published that it has yet to act
-- on by closing the connection, or at its end.
pub data Pinger : Type 0 where
  pinging diagnosed ended : Pinger

-- The variables of `Stream` once it is connected. `ping_err` is the channel of that name, with room
-- for one; `held` is a message that is read and not yet taken from `out`; `result` is what `Stream`
-- has returned.
pub record Conn : Type 0 where
  pub done : Bool
  pub closed : Bool
  pub pinger : Pinger
  pub ping_err : Option (Option StreamError)
  pub held : Option RawMessage
  pub forwarded : List RawMessage
  pub result : Option StreamError

-- `Stream` behind a dial that succeeded.
unfoldable pub connected : Conn
connected = record {
  done = false;
  closed = false;
  pinger = pinging;
  ping_err = none;
  held = none;
  forwarded = [];
  result = none;
}

-- What `conn.Read` yields: a frame, which is text or not, at a time, or an error, after the read's
-- deadline or not, and as an error of the context or not.
pub data Read : Type 0 where
  got : Bool → Str → Time → Read
  broken : Bool → Bool → Read

-- `read`
unfoldable pub read : Bool → Read → Result RawMessage
read done (broken late of_context) = failed (if not done && late then no_frame else read_failed)
read done (got true payload now) =
    ok (record { venue = venue_binance; payload = payload; recv_time = now })
read done (got false payload now) = failed unexpected_type

-- Whether the error of a read is the context's.
abbrev pub is_context : Read → Bool
is_context (broken late of_context) = of_context
is_context _ = false

-- The end of `Stream` after an error of `read`.
unfoldable pub read_error : Bool → StreamError → Conn → Conn
read_error of_context e c =
    let own = if c.done && of_context then context_error else e in
    let why : StreamError = elim c.ping_err [
      | none ↦ own
      | some none ↦ own
      | some (some ping) ↦ ping
    ] in
    record c { ping_err = none; result = some why }

-- A step of one of the two goroutines, or of their surroundings: the context ends; the consumer takes
-- a message; the read loop reads or sees the end of the context while it waits to hand over; a ping
-- is answered or not; the ping loop sees the end of the context, or closes the connection.
pub data Action : Type 0 where
  cancel take give_up stop_pings hang_up : Action
  reads : Read → Action
  pong : Bool → Action

-- The read loop's step; it reads only when it holds nothing.
unfoldable pub on_read : Read → Conn → Conn
unfolding read read_error
on_read r c = elim c.held [
  | some _ ↦ c
  | none ↦ elim (read c.done r) [
    | ok m ↦ record c { held = some m }
    | failed e ↦ read_error (is_context r) e c
  ]
]

-- A ping without an answer.
unfoldable pub on_silence : Conn → Conn
on_silence c =
    if c.done
    then record c { pinger = ended; ping_err = some none }
    else record c { pinger = diagnosed; ping_err = some (some no_pong) }

-- The steps of the ping loop; a ticker of no interval never fires.
unfoldable pub ping_step : ℤ → Action → Conn → Conn
unfolding on_silence
ping_step interval (pong answered) c = elim c.pinger [
  | pinging ↦ if leb_ℤ interval (pos 0) then c else if answered then c else on_silence c
  | _ ↦ c
]
ping_step interval stop_pings c = elim c.pinger [
  | pinging ↦ if c.done then record c { pinger = ended; ping_err = some none } else c
  | _ ↦ c
]
ping_step interval hang_up c = elim c.pinger [
  | diagnosed ↦ record c { pinger = ended; closed = true }
  | _ ↦ c
]
ping_step interval _ c = c

-- A step while `Stream` runs.
unfoldable pub stream_step : ℤ → Action → Conn → Conn
unfolding on_read ping_step
stream_step interval cancel c = record c { done = true }
stream_step interval take c = elim c.held [
  | none ↦ c
  | some m ↦ record c { held = none; forwarded = c.forwarded ++ (m ∷ []) }
]
stream_step interval give_up c = elim c.held [
  | none ↦ c
  | some m ↦ if c.done then record c { result = some context_error } else c
]
stream_step interval (reads r) c = on_read r c
stream_step interval (pong answered) c = ping_step interval (pong answered) c
stream_step interval stop_pings c = ping_step interval stop_pings c
stream_step interval hang_up c = ping_step interval hang_up c

-- The steps until `Stream` has returned.
unfoldable pub stream_steps : ℤ → List Action → Conn → Conn
stream_steps interval [] c = c
stream_steps interval (a ∷ as') c =
    let rest = stream_steps interval as' (stream_step interval a c) in
    elim c.result [ some _ ↦ c | none ↦ rest ]

module _ (u : Unicode) (with_raw_query : Str → Str → Option Str) where
  -- `Stream`: the error that it returns, or none yet, and what it has forwarded. `dialled` tells
  -- whether the dial succeeds.
  unfoldable pub stream :
      Venue → List Str → (Str → Bool) → List Action → Option StreamError × List RawMessage
  unfolding stream_steps connected
  stream v ids dialled as' = elim (stream_url u with_raw_query v ids) [
    | failed e ↦ (some e, [])
    | ok url ↦
        if dialled url
        then (let c = stream_steps v.ping_interval as' connected in (c.result, c.forwarded))
        else (some dial_failed, [])
  ]
