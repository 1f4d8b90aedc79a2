-- ===== src/Api/Stream.antt =====
-- internal/api/wsapi/wsapi.go: clients, their queues and the fan-out.
pub mod Sound
pub mod Newest
use real_time_market_data_pi.Base.{
  ℕ, zero, suc, ◌+◌, ◌-◌, Bool, true, false, Option, none, some, List, [], ◌∷◌, ◌++◌, ltb, ◌==◌,
  if◌then◌else◌, length, drop, same, list_eq, nat_eq,
}
use real_time_market_data_pi.Base.Bytes.{Str, str}
use real_time_market_data_pi.Base.Int.{pos}
use real_time_market_data_pi.Base.Int64.{two64}
use real_time_market_data_pi.Decimal.{Decimal}
use real_time_market_data_pi.Tick.{Tick, Time, side_string}
use real_time_market_data_pi.Bus.{Policy, SubscriberSpec, BusError}
use real_time_market_data_pi.Bus.Sub.{add_u64}
use real_time_market_data_pi.Bus.Fanout.{Bus, Subscribed, subscribe, get_elem?, modify}

abbrev pub client_queue : ℕ
client_queue = 64

-- `filter` is none for the nil map. `listed` tells whether the client is in `clients`, `serving`
-- whether its handler still runs, and `written` holds the frames that the connection took.
pub record Client : Type 0 where
  pub out : List Tick
  pub done : Bool
  pub filter : Option (List Str)
  pub listed : Bool
  pub serving : Bool
  pub written : List Str

-- The clients stand at the index that their pointer is; `connected` is a 64-bit pattern.
pub record Server : Type 0 where
  pub clients : List Client
  pub connected : ℕ
  pub kicked : ℕ

-- `New`
unfoldable pub new_server : Server
new_server = record { clients = []; connected = 0; kicked = 0 }

pub record Outbound : Type 0 where
  pub venue : Str
  pub instrument : Str
  pub seq : ℕ
  pub price : Decimal
  pub quantity : Decimal
  pub side : Str
  pub event_time : Time

unfoldable pub outbound_of : Tick → Outbound
unfolding side_string
outbound_of t = record {
  venue = t.venue;
  instrument = t.instrument;
  seq = t.seq;
  price = t.price;
  quantity = t.quantity;
  side = side_string t.side;
  event_time = t.event_time;
}

-- A name that ends here, added to the set.
unfoldable pub add_name : Str → List Str → List Str
add_name [] names = names
add_name (c ∷ s) names = (c ∷ s) ∷ names

-- The loop of `parseFilter`, with the bytes since `start`.
unfoldable pub names_from : Str → Str → List Str
unfolding add_name
names_from cur [] = add_name cur []
names_from cur (c ∷ s) = elim (c == b',') [
  | true ↦ add_name cur (names_from [] s)
  | false ↦ names_from (cur ++ (c ∷ [])) s
]

-- `parseFilter`
unfoldable pub parse_filter : Str → Option (List Str)
unfolding names_from
parse_filter raw = elim (names_from [] raw) [ [] ↦ none | n ∷ ns ↦ some (n ∷ ns) ]

-- The handler's client.
unfoldable pub new_client : Str → Client
unfolding parse_filter
new_client raw = record {
  out = [];
  done = false;
  filter = elim raw [ [] ↦ none | c ∷ s ↦ parse_filter (c ∷ s) ];
  listed = true;
  serving = true;
  written = [];
}

abbrev pub member : Str → List Str → Bool
member k [] = false
member k (x ∷ xs) = if same x k then true else member k xs

-- Whether the client's filter lets the tick through.
unfoldable pub wants : Client → Tick → Bool
wants c t = elim c.filter [ none ↦ true | some names ↦ member t.instrument names ]

-- `client.close`
unfoldable pub close : Client → Client
close c = record c { done = true }

-- `case c.out <- t`, where it is ready.
unfoldable pub has_room : Client → Bool
has_room c = ltb (length c.out) client_queue

unfoldable pub push : Tick → Client → Client
push t c = record c { out = c.out ++ (t ∷ []) }

-- `case <-c.out`
unfoldable pub evict : Client → Client
evict c = record c { out = drop 1 c.out }

-- What the select of `serve` finds, with the answers of the connection: a context that is done, a
-- client that is closed, a tick and whether its write succeeds, a ping and whether it is answered.
pub data ServeEvent : Type 0 where
  cancelled closed : ServeEvent
  ready : Bool → ServeEvent
  ping : Bool → ServeEvent

-- The ticks that a client takes during a broadcast: before the eviction and behind it.
abbrev pub Race : Type 0
Race = ℕ × ℕ

-- What the select of `Run` finds.
pub data Feed : Type 0 where
  stopped unsubscribed : Feed
  arrived : (ℕ → Race) → Tick → Feed

-- What happens to a server.
pub data Action : Type 0 where
  request : Bool → Str → Action
  tick : (ℕ → Race) → Tick → Action
  serving : ℕ → ServeEvent → Action

-- The handler's deferred calls: `remove`, which closes too, and the counter.
unfoldable pub leave : Client → Client
unfolding close
leave c = record (close c) { listed = false; serving = false }

-- What the server is after a round of `serve`, `none` where it returned.
unfoldable pub end_round : ℕ → Option Client → Server → Server
unfolding leave
end_round i (some c) s = record s { clients = modify s.clients i (λ _. c) }
end_round i none s = record s {
  clients = modify s.clients i leave;
  connected = add_u64 s.connected (two64 - 1);
}

-- The handler up to `serve`; a request that is not accepted changes nothing.
unfoldable pub accept : Bool → Str → Server → Server
unfolding new_client
accept ok raw s =
    if ok
    then record s {
      clients = s.clients ++ (new_client raw ∷ []);
      connected = add_u64 s.connected 1;
    }
    else s

-- `json.Marshal` is not under src/; `none` is an error.
module _ (marshal : Outbound → Option Str) where
  -- The case of a tick; `none` where `serve` returns.
  unfoldable pub send_frame : Bool → Tick → Client → Option Client
  send_frame ok t c = elim (marshal (outbound_of t)) [
    | none ↦ some c
    | some payload ↦ if ok then some (record c { written = c.written ++ (payload ∷ []) }) else none
  ]

  -- One round of `serve`. A case that is not ready changes nothing.
  unfoldable pub serve_step : ServeEvent → Client → Option Client
  unfolding send_frame
  serve_step cancelled c = none
  serve_step closed c = if c.done then none else some c
  serve_step (ready ok) c = elim c.out [
    | [] ↦ some c
    | t ∷ ts ↦ send_frame ok t (record c { out = ts })
  ]
  serve_step (ping ok) c = if ok then some c else none

  -- `serve` takes ticks while another goroutine works. A round that ends it commutes with the
  -- broadcast, which has its own list of targets.
  unfoldable pub take_ticks : ℕ → Client → Client
  unfolding serve_step
  take_ticks zero c = c
  take_ticks (suc n) c = elim (serve_step (ready true) c) [ none ↦ c | some c' ↦ take_ticks n c' ]

  -- The body of `broadcast`'s loop, and whether the client was kicked.
  unfoldable pub offer : Race → Tick → Client → Client × Bool
  offer race t c =
      let c' = take_ticks race.1 (evict (take_ticks race.0 c)) in
      if wants c t
      then (if has_room c
          then (push t c, false)
          else if has_room c'
          then (push t c', false)
          else (close c', true))
      else (c, false)

  -- `broadcast`'s loop over the targets, with the counter.
  unfoldable pub offer_all : (ℕ → Race) → ℕ → Tick → List Client → ℕ → List Client × ℕ
  offer_all races i t [] k = ([], k)
  offer_all races i t (c ∷ cs) k =
      let (c', kick) : Client × Bool = if c.listed then offer (races i) t c else (c, false) in
      let (cs', k') = offer_all races (suc i) t cs (if kick then add_u64 k 1 else k) in
      (c' ∷ cs', k')

  unfoldable pub broadcast : (ℕ → Race) → Tick → Server → Server
  broadcast races t s =
      let (cs, k) = offer_all races 0 t s.clients s.kicked in record s { clients = cs; kicked = k }

  -- The loop of `Run`.
  unfoldable pub fan_out : List Feed → Server → Server
  fan_out [] s = s
  fan_out (stopped ∷ fs) s = s
  fan_out (unsubscribed ∷ fs) s = s
  fan_out (arrived races t ∷ fs) s = fan_out fs (broadcast races t s)

  unfoldable pub serve_client : ℕ → ServeEvent → Server → Server
  unfolding end_round
  serve_client i e s = elim (get_elem? s.clients i) [
    | none ↦ s
    | some c ↦ if c.serving then end_round i (serve_step e c) s else s
  ]

  unfoldable pub act : Action → Server → Server
  act (request ok raw) s = accept ok raw s
  act (tick races t) s = broadcast races t s
  act (serving i e) s = serve_client i e s

  unfoldable pub act_all : List Action → Server → Server
  act_all [] s = s
  act_all (a ∷ as') s = act_all as' (act a s)

-- `Run` subscribes with this, and has no loop where that is refused.
unfoldable pub fanout_spec : SubscriberSpec
fanout_spec = record {
  name = str "websocket-fanout";
  capacity = pos 2048;
  policy = Policy.coalesce;
  instruments = [];
}

-- `Stats`
unfoldable pub stats : Server → ℕ × ℕ
stats s = (s.connected, s.kicked)
