-- ===== src/Bus/Sub.antt =====
-- The subscription of internal/bus/inproc/inproc.go. A channel is the list of what it buffers, oldest
-- first; a call that touches the subscription is one step.
use real_time_market_data_pi.Base.{
  ℕ, zero, suc, ◌+◌, ◌%◌, Bool, true, false, Option, none, some, List, [], ◌∷◌, ◌++◌, ltb, leb,
  if◌then◌else◌, length, drop, same,
}
use real_time_market_data_pi.Base.Bytes.{Str}
use real_time_market_data_pi.Base.Assoc.{Assoc, lookup, insert, erase}
use real_time_market_data_pi.Base.Int64.{two64}
use real_time_market_data_pi.Base.{list_eq, nat_eq}
use real_time_market_data_pi.Tick.{Tick}
use real_time_market_data_pi.Bus.{Policy, SubscriberSpec, BusError, cancelled, Stats}

-- Where the goroutine of `coalesceLoop` stands.
pub data LoopState : Type 0 where
  asleep draining stopped : LoopState
  sending : Tick → LoopState

-- `subscription`: `wake` and `done` say whether the wake channel holds a token and `done` is closed.
pub record Subscription : Type 0 where
  pub spec : SubscriberSpec
  pub capacity : ℕ
  pub filter : Option (List Str)
  pub out : List Tick
  pub done : Bool
  pub pending : Assoc Str Tick
  pub wake : Bool
  pub loop : LoopState
  pub delivered : ℕ
  pub dropped : ℕ
  pub coalesced : ℕ
  pub blocked_ns : ℕ
  pub high_water : ℕ

-- `atomic.Uint64.Add`
abbrev pub add_u64 : ℕ → ℕ → ℕ
add_u64 a b = (a + b) % two64

-- `recordDepth`
unfoldable pub record_depth : Subscription → ℕ → Subscription
record_depth s d = if leb d s.high_water then s else record s { high_water = d }

-- The subscription once a tick is in `out`, counted.
unfoldable pub sent : Subscription → Tick → Subscription
unfolding record_depth
sent s t =
    let s' = record s { out = s.out ++ (t ∷ []); delivered = add_u64 s.delivered 1 } in
    record_depth s' (length s'.out)

-- A send on `out` that does not wait; `none` where there is no room.
unfoldable pub try_send : Subscription → Tick → Option Subscription
try_send s t = if ltb (length s.out) s.capacity then some (sent s t) else none

-- Membership in the filter map.
unfoldable pub contains : Str → List Str → Bool
contains id [] = false
contains id (j ∷ l) = if same j id then true else contains id l

unfoldable pub wants : Subscription → Tick → Bool
wants s t = elim s.filter [ none ↦ true | some ids ↦ contains t.instrument ids ]

-- What ends the wait of a blocked publisher, after so many nanoseconds: the consumer has read some
-- ticks (one more than the number), the subscription is closed, or the context is cancelled.
pub data Wakeup : Type 0 where
  room : ℕ → ℕ → Wakeup
  closed : ℕ → Wakeup
  gave_up : ℕ → Wakeup

abbrev pub waited : Subscription → ℕ → Subscription
waited s ns = record s { blocked_ns = add_u64 s.blocked_ns ns }

unfoldable pub deliver_blocking : Wakeup → Subscription → Tick → Subscription × Option BusError
unfolding try_send
deliver_blocking w s t = elim (try_send s t) [
  | some s' ↦ (s', none)
  | none ↦ elim w [
    | Wakeup.room ns n ↦ elim (try_send (record s { out = drop (suc n) s.out }) t) [
      | some s' ↦ (waited s' ns, none)
      | none ↦ (waited s ns, none)
    ]
    | Wakeup.closed ns ↦ (waited (record s { done = true }) ns, none)
    | Wakeup.gave_up ns ↦ (waited s ns, some cancelled)
  ]
]

unfoldable pub deliver_drop_newest : Subscription → Tick → Subscription
unfolding try_send
deliver_drop_newest s t = elim (try_send s t) [
  | some s' ↦ s'
  | none ↦ record s { dropped = add_u64 s.dropped 1 }
]

-- The receive that makes room: nothing where the consumer was faster.
unfoldable pub evict : Subscription → Subscription
evict s = elim s.out [ [] ↦ s | _ ∷ rest ↦ record s { out = rest; dropped = add_u64 s.dropped 1 } ]

-- The loop of `deliverDropOldest`, on fuel; `none` means that the fuel ran out.
unfoldable pub deliver_drop_oldest : ℕ → Subscription → Tick → Option Subscription
deliver_drop_oldest zero s t = none
deliver_drop_oldest (suc fuel) s t = elim (try_send s t) [
  | some s' ↦ some s'
  | none ↦
      let s1 = evict s in
      let rest = deliver_drop_oldest fuel s1 t in if s1.done then some s1 else rest
]

unfoldable pub deliver_coalesce : Subscription → Tick → Subscription
deliver_coalesce s t =
    let count : ℕ = elim (lookup t.instrument s.pending) [
      | none ↦ s.coalesced
      | some _ ↦ add_u64 s.coalesced 1
    ] in
    record s { pending = insert t.instrument t s.pending; coalesced = count; wake = true }

-- One step of `coalesceLoop`; `none` where it waits. `range` over the map yields a key that is not
-- determined: it is the argument, and a key that is not pending is no step.
unfoldable pub coalesce_step : Str → Subscription → Option Subscription
unfolding try_send
coalesce_step id s = elim s.loop [
  | LoopState.asleep ↦
      if s.wake then some (record s { wake = false; loop = LoopState.draining }) else none
  | LoopState.draining ↦ elim s.pending [
    | [] ↦ some (record s { loop = LoopState.asleep })
    | _ ∷ _ ↦ elim (lookup id s.pending) [
      | none ↦ none
      | some t ↦ some (record s { pending = erase id s.pending; loop = LoopState.sending t })
    ]
  ]
  | LoopState.sending t ↦ try_send (record s { loop = LoopState.draining }) t
  | LoopState.stopped ↦ none
]

-- The loop returns where it waits on `done`, asleep or with a tick in hand.
unfoldable pub coalesce_stop : Subscription → Option Subscription
coalesce_stop s =
    let stop : Option Subscription = some (record s { loop = LoopState.stopped }) in
    if s.done
    then elim s.loop [ LoopState.asleep ↦ stop | LoopState.sending _ ↦ stop | _ ↦ none ]
    else none

-- Two rounds of the drop-oldest loop are enough where nobody else sends.
abbrev pub drop_oldest_fuel : ℕ
drop_oldest_fuel = 2

unfoldable pub deliver : Wakeup → Subscription → Tick → Subscription × Option BusError
deliver w s t =
    if wants s t
    then (if s.done then (s, none) else elim s.spec.policy [
      | Policy.block ↦ deliver_blocking w s t
      | Policy.drop_newest ↦ (deliver_drop_newest s t, none)
      | Policy.drop_oldest ↦ elim (deliver_drop_oldest drop_oldest_fuel s t) [
        | some s' ↦ (s', none)
        | none ↦ (s, none)
      ]
      | Policy.coalesce ↦ (deliver_coalesce s t, none)
      | Policy.unknown _ ↦ (s, none)
    ])
    else (s, none)

-- The consumer's receive from `Ticks()`.
unfoldable pub receive : Subscription → Option (Tick × Subscription)
receive s = elim s.out [ [] ↦ none | t ∷ rest ↦ some (t, record s { out = rest }) ]

-- `shutdown`
unfoldable pub shutdown : Subscription → Subscription
shutdown s = record s { done = true }

-- `subscription.Stats`, with the depth that it records.
unfoldable pub stats : Subscription → Stats × Subscription
unfolding record_depth
stats s =
    let depth : ℕ = elim s.spec.policy [
      | Policy.coalesce ↦ length s.out + length s.pending
      | _ ↦ length s.out
    ] in
    let s' = record_depth s depth in
    (
      record {
        name = s.spec.name;
        policy = s.spec.policy;
        capacity = s.capacity;
        depth = depth;
        high_water = s'.high_water;
        delivered = s.delivered;
        dropped = s.dropped;
        coalesced = s.coalesced;
        blocked_nanos = s.blocked_ns;
      },
      s',
    )
