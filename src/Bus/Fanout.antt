-- ===== src/Bus/Fanout.antt =====
-- The bus of internal/bus/inproc/inproc.go over a heap of subscriptions: `subs` holds the index of
-- each registered one, and a handle is such an index, so that it outlives its registration.
use real_time_market_data_pi.Base.{
  ℕ, zero, suc, Bool, true, false, Option, none, some, List, [], ◌∷◌, ◌++◌, if◌then◌else◌, length,
  map, list_eq, nat_eq,
}
use real_time_market_data_pi.Base.Bytes.{Str}
use real_time_market_data_pi.Base.Int.{pos, eqb_ℤ, abs_ℕ}
use real_time_market_data_pi.Base.Assoc.{Assoc, lookup, insert, erase}
use real_time_market_data_pi.Tick.{Tick}
use real_time_market_data_pi.Bus.{
  Policy, SubscriberSpec, default_capacity, BusError, bus_closed, already_registered, validate,
  Stats,
}
use real_time_market_data_pi.Bus.Sub.{Subscription, LoopState, Wakeup, deliver, shutdown, stats}

pub record Bus : Type 0 where
  pub subs : Assoc Str ℕ
  pub heap : List Subscription
  pub closed : Bool

abbrev pub get_elem? {ℓ} : {A : Type ℓ} → List A → ℕ → Option A
get_elem? [] i = none
get_elem? (x ∷ xs) zero = some x
get_elem? (x ∷ xs) (suc i) = get_elem? xs i

abbrev pub modify {ℓ} : {A : Type ℓ} → List A → ℕ → (A → A) → List A
modify [] i f = []
modify (x ∷ xs) zero f = f x ∷ xs
modify (x ∷ xs) (suc i) f = x ∷ modify xs i f

-- `New`
unfoldable pub new_bus : Bus
new_bus = record { subs = []; heap = []; closed = false }

-- The subscription that `Subscribe` builds.
unfoldable pub new_subscription : SubscriberSpec → Subscription
new_subscription spec = record {
  spec = spec;
  capacity = if eqb_ℤ spec.capacity (pos 0) then default_capacity else abs_ℕ spec.capacity;
  filter = elim spec.instruments [ [] ↦ none | id ∷ ids ↦ some (id ∷ ids) ];
  out = [];
  done = false;
  pending = [];
  wake = false;
  loop = elim spec.policy [ Policy.coalesce ↦ LoopState.asleep | _ ↦ LoopState.stopped ];
  delivered = 0;
  dropped = 0;
  coalesced = 0;
  blocked_ns = 0;
  high_water = 0;
}

pub data Subscribed : Type 0 where
  subscribed : ℕ → Subscribed
  refused : BusError → Subscribed

unfoldable pub subscribe : SubscriberSpec → Bus → Subscribed × Bus
unfolding validate new_subscription
subscribe spec b = elim (validate spec) [
  | some e ↦ (Subscribed.refused e, b)
  | none ↦ if b.closed then (Subscribed.refused bus_closed, b) else elim (lookup spec.name b.subs) [
    | some _ ↦ (Subscribed.refused already_registered, b)
    | none ↦ (
      Subscribed.subscribed (length b.heap),
      record b {
        subs = insert spec.name (length b.heap) b.subs;
        heap = b.heap ++ (new_subscription spec ∷ []);
      },
    )
  ]
]

-- What ends each wait of a blocked publisher, by subscription and tick.
abbrev pub Waits : Type 0
Waits = ℕ → Tick → Wakeup

-- The ticks of one publish, to one subscription, up to the first error.
unfoldable pub deliver_all :
    (Tick → Wakeup) → Subscription → List Tick → Subscription × Option BusError
deliver_all w s [] = (s, none)
deliver_all w s (t ∷ ts) =
    let (s', e) = deliver (w t) s t in
    let rest = deliver_all w s' ts in elim e [ none ↦ rest | some err ↦ (s', some err) ]

unfoldable pub publish_to :
    Waits → List ℕ → List Tick → List Subscription → List Subscription × Option BusError
publish_to w [] ts heap = (heap, none)
publish_to w (i ∷ ids) ts heap = elim (get_elem? heap i) [
  | none ↦ publish_to w ids ts heap
  | some s ↦
      let (s', e) = deliver_all (w i) s ts in
      let heap' = modify heap i (λ _. s') in
      let rest = publish_to w ids ts heap' in elim e [ none ↦ rest | some err ↦ (heap', some err) ]
]

-- The targets in the order that the map happens to have.
abbrev pub targets : Bus → List ℕ
targets b = map (λ p. p.1) b.subs

unfoldable pub publish : Waits → List Tick → Bus → Bus × Option BusError
publish w [] b = (b, none)
publish w (t ∷ ts) b =
    let (heap, e) = publish_to w (targets b) (t ∷ ts) b.heap in (record b { heap = heap }, e)

-- `Bus.Close`
unfoldable pub shutdown_all : List ℕ → List Subscription → List Subscription
shutdown_all [] heap = heap
shutdown_all (i ∷ ids) heap = shutdown_all ids (modify heap i shutdown)

unfoldable pub close_bus : Bus → Bus
close_bus b = record { subs = []; heap = shutdown_all (targets b) b.heap; closed = true }

-- `Bus.remove`
unfoldable pub remove : Str → Bus → Bus
remove name b = record b { subs = erase name b.subs }

-- `subscription.Close`, on a handle: the registration goes by name.
unfoldable pub close_subscription : ℕ → Bus → Bus
unfolding remove
close_subscription i b = elim (get_elem? b.heap i) [
  | none ↦ b
  | some s ↦ record (remove s.spec.name b) { heap = modify b.heap i shutdown }
]

-- `Bus.Stats`
unfoldable pub all_stats : List ℕ → List Subscription → List Stats × List Subscription
all_stats [] heap = ([], heap)
all_stats (i ∷ ids) heap = elim (get_elem? heap i) [
  | none ↦ all_stats ids heap
  | some s ↦
      let (st, s') = stats s in
      let (rest, heap') = all_stats ids (modify heap i (λ _. s')) in (st ∷ rest, heap')
]
