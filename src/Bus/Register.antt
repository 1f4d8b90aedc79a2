-- ===== src/Bus/Register.antt =====
-- `Subscribe`, `Close` and the registration by name of internal/bus/inproc/inproc.go.
use real_time_market_data_pi.Base.{
  ℕ, zero, suc, ◌<◌, ◌≡◌, ◌≢◌, refl, ap, ◌∙◌, ◌↔◌, true, false, none, some, List, [], ◌∷◌, ◌++◌,
  length, same, list_eq, nat_eq, arith,
}
use real_time_market_data_pi.Base.Int.{pos, ◌≤ℤ◌}
use real_time_market_data_pi.Base.Bytes.{Str}
use real_time_market_data_pi.Base.Assoc.{
  lookup, lookup-erase, lookup-insert_self, lookup-erase_self,
}
use real_time_market_data_pi.Bus.{
  Policy, SubscriberSpec, BusError, bus_closed, already_registered, validate, policy_valid,
}
use real_time_market_data_pi.Bus.Sub.{Subscription, shutdown}
use real_time_market_data_pi.Bus.Fanout.{
  Bus, Subscribed, get_elem?, modify, new_subscription, subscribe, close_subscription,
}
use real_time_market_data_pi.Bus.Queue.{IsBounded}

-- A spec is accepted if and only if it has a name, a known policy and a capacity of zero or more.
pub validate_iff :
    (s : SubscriberSpec)
    → (validate s ≡ none) ↔ ((s.name ≢ []) × (policy_valid s.policy ≡ true) × (pos 0 ≤ℤ s.capacity))
unfolding validate
validate_iff s = (to s.name s.policy s, λ h. ground arith)
  where
    to :
        (n : Str) (p : Policy) (s : SubscriberSpec)
        → validate s ≡ none
        → (s.name ≢ []) × (policy_valid s.policy ≡ true) × (pos 0 ≤ℤ s.capacity)
    to n p s e = (λ q. ground arith, ground arith, ground arith)

get_elem?-snoc :
    (heap : List Subscription) (s : Subscription)
    → get_elem? (heap ++ (s ∷ [])) (length heap) ≡ some s
get_elem?-snoc [] s = refl
get_elem?-snoc (x ∷ xs) s = get_elem?-snoc xs s

get_elem?-append :
    (heap : List Subscription) (s : Subscription) (i : ℕ)
    → i < length heap
    → get_elem? (heap ++ (s ∷ [])) i ≡ get_elem? heap i
get_elem?-append [] s i h = elim h [ ]
get_elem?-append (x ∷ xs) s zero h = refl
get_elem?-append (x ∷ xs) s (suc i) h = get_elem?-append xs s i (omega arith)

-- A valid spec under a new name on an open bus is registered: the handle is fresh, leads to an
-- empty open queue, and no other handle changes.
pub subscribe_new :
    (spec : SubscriberSpec) (b : Bus)
    → validate spec ≡ none
    → b.closed ≡ false
    → lookup spec.name b.subs ≡ none
    → let (r, b') = subscribe spec b in
      (r ≡ Subscribed.subscribed (length b.heap))
      × (get_elem? b'.heap (length b.heap) ≡ some (new_subscription spec))
      × (lookup spec.name b'.subs ≡ some (length b.heap))
      × ((i : ℕ) → i < length b.heap → get_elem? b'.heap i ≡ get_elem? b.heap i)
unfolding subscribe
subscribe_new spec b v o n =
    rw (subscribe, v, o, n)
      (
        refl,
        get_elem?-snoc b.heap _,
        lookup-insert_self spec.name (length b.heap) b.subs,
        λ i h. get_elem?-append b.heap _ i h,
      )

-- In every other case the bus is left as it was, with the first reason that applies.
pub subscribe_refused :
    (spec : SubscriberSpec) (b : Bus)
    → ((e : BusError) → validate spec ≡ some e → subscribe spec b ≡ (Subscribed.refused e, b))
      × (validate spec ≡ none
          → b.closed ≡ true
          → subscribe spec b ≡ (Subscribed.refused bus_closed, b))
      × ((i : ℕ)
          → validate spec ≡ none
          → b.closed ≡ false
          → lookup spec.name b.subs ≡ some i
          → subscribe spec b ≡ (Subscribed.refused already_registered, b))
unfolding subscribe
subscribe_refused spec b = (λ e v. rw (subscribe, v), λ v c. ground arith, λ i v c n. ground arith)

-- What Subscribe builds of a valid spec is an empty queue within a positive capacity.
pub new_subscription-IsBounded :
    (spec : SubscriberSpec) → validate spec ≡ none → IsBounded (new_subscription spec)
unfolding new_subscription
new_subscription-IsBounded spec v =
    let h = ((validate_iff spec).0 v).2 in
    record { fits = omega arith; room_for_one = ground (arith, h); marked = omega arith }

get_elem?-modify_self :
    (heap : List Subscription) (i : ℕ) (f : Subscription → Subscription) (s : Subscription)
    → get_elem? heap i ≡ some s
    → get_elem? (modify heap i f) i ≡ some (f s)
get_elem?-modify_self [] i f s e = cc
get_elem?-modify_self (x ∷ xs) zero f s e = ground arith
get_elem?-modify_self (x ∷ xs) (suc i) f s e = get_elem?-modify_self xs i f s e

get_elem?-modify_other :
    (heap : List Subscription) (i j : ℕ) (f : Subscription → Subscription)
    → i ≢ j
    → get_elem? (modify heap i f) j ≡ get_elem? heap j
get_elem?-modify_other [] i j f n = refl
get_elem?-modify_other (x ∷ xs) zero zero f n = absurd (n refl)
get_elem?-modify_other (x ∷ xs) zero (suc j) f n = refl
get_elem?-modify_other (x ∷ xs) (suc i) zero f n = refl
get_elem?-modify_other (x ∷ xs) (suc i) (suc j) f n =
    get_elem?-modify_other xs i j f (λ e. n (ap suc e))

-- Closing a handle shuts its subscription down and frees its name; each other handle keeps its
-- subscription and each other name its registration.
pub close_subscription_lem :
    (i : ℕ) (b : Bus) (s : Subscription)
    → get_elem? b.heap i ≡ some s
    → let b' = close_subscription i b in
      (get_elem? b'.heap i ≡ some (shutdown s))
      × (lookup s.spec.name b'.subs ≡ none)
      × ((j : ℕ) → i ≢ j → get_elem? b'.heap j ≡ get_elem? b.heap j)
      × ((k : Str) → same s.spec.name k ≡ false → lookup k b'.subs ≡ lookup k b.subs)
unfolding close_subscription
close_subscription_lem i b s e =
    rw (e, close_subscription)
      (
        get_elem?-modify_self b.heap i shutdown s e,
        lookup-erase_self s.spec.name b.subs,
        λ j n. get_elem?-modify_other b.heap i j shutdown n,
        λ k n. lookup-erase s.spec.name k b.subs ∙ rw n,
      )

-- A handle that is closed while its name is registered for another, open subscription takes that
-- registration away and leaves the other subscription open.
pub close_stale :
    (i j : ℕ) (b : Bus) (s t : Subscription)
    → i ≢ j
    → get_elem? b.heap i ≡ some s
    → get_elem? b.heap j ≡ some t
    → lookup s.spec.name b.subs ≡ some j
    → t.done ≡ false
    → let b' = close_subscription i b in
      (lookup s.spec.name b'.subs ≡ none) × (get_elem? b'.heap j ≡ some t)
close_stale i j b s t ne es et reg d =
    let c = close_subscription_lem i b s es in (c.1, c.2 j ne ∙ et)
