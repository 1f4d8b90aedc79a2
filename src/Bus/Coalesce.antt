-- ===== src/Bus/Coalesce.antt =====
-- The coalescing policy of internal/bus/inproc/inproc.go: deliveries and the steps of its loop.
use real_time_market_data_pi.Base.{
  ◌≡◌, refl, ap, ◌⊎◌, inl, inr, Bool, Bool-cases, Option, none, some, Option-cases, List, [], ◌∷◌,
  ◌++◌, if◌then◌else◌, same, list_eq, nat_eq, list_beq_iff, subst, arith, sym, ◌∙◌,
}
use real_time_market_data_pi.Base.Bytes.{Str}
use real_time_market_data_pi.Base.Assoc.{lookup, erase, lookup-insert, lookup-erase}
use real_time_market_data_pi.Tick.{Tick}
use real_time_market_data_pi.Bus.Sub.{
  Subscription, LoopState, sent, try_send, deliver_coalesce, coalesce_step,
}
use real_time_market_data_pi.Bus.Queue.{sent-Sent}

abbrev str_same : Str → Str → Bool
str_same a b = same a b

some_inj : {t u : Tick} → some t ≡ some u → t ≡ u
some_inj e = cc

abbrev or_else : Option Tick → Option Tick → Option Tick
or_else (some t) o = some t
or_else none o = o

-- The last tick of an instrument in the channel.
last_for : Str → List Tick → Option Tick
last_for id [] = none
last_for id (t ∷ ts) = or_else (last_for id ts) (if str_same t.instrument id then some t else none)

in_hand : Str → LoopState → Option Tick
in_hand id (LoopState.sending t) = if str_same t.instrument id then some t else none
in_hand id LoopState.asleep = none
in_hand id LoopState.draining = none
in_hand id LoopState.stopped = none

-- The latest tick of an instrument that the consumer has or will get: pending, in the loop's hand,
-- or in the channel.
pub newest : Str → Subscription → Option Tick
newest id s = or_else (lookup id s.pending) (or_else (in_hand id s.loop) (last_for id s.out))

-- Each pending tick stands under its own instrument.
abbrev pub IsKeyed : Subscription → Type 0
IsKeyed s = (k : Str) (t : Tick) → lookup k s.pending ≡ some t → t.instrument ≡ k

last_for-snoc :
    (id : Str) (ts : List Tick) (t : Tick)
    → last_for id (ts ++ (t ∷ [])) ≡ (if str_same t.instrument id then some t else last_for id ts)
unfolding last_for
last_for-snoc id [] t = refl
last_for-snoc id (u ∷ ts) t = ground (arith, last_for-snoc id ts t)

-- A coalescing delivery makes its tick the newest of its instrument and leaves the newest tick of
-- each other instrument.
pub deliver_coalesce-newest :
    (s : Subscription) (t : Tick) (id : Str)
    → newest id (deliver_coalesce s t) ≡ (if str_same t.instrument id then some t else newest id s)
unfolding deliver_coalesce newest
deliver_coalesce-newest s t id =
    rw (lookup-insert t.instrument id t s.pending)
      (elim (Bool-cases (str_same t.instrument id)) [ inl e ↦ rw e | inr e ↦ rw e ])

pub deliver_coalesce-IsKeyed :
    (s : Subscription) (t : Tick) → IsKeyed s → IsKeyed (deliver_coalesce s t)
unfolding deliver_coalesce
deliver_coalesce-IsKeyed s t keyed k u e =
    let found = sym (lookup-insert t.instrument k t s.pending) ∙ e in
    elim (Bool-cases (str_same t.instrument k)) [
      | inl p ↦
          subst (λ z. z.instrument ≡ k) (some_inj (rw p at found))
            ((list_beq_iff t.instrument k).0 p)
      | inr n ↦ keyed k u (rw n at found)
    ]

take_step :
    (id j : Str) (s : Subscription) (t : Tick)
    → IsKeyed s
    → s.loop ≡ LoopState.draining
    → lookup id s.pending ≡ some t
    → newest j (record s { pending = erase id s.pending; loop = LoopState.sending t }) ≡ newest j s
unfolding newest in_hand
take_step id j s t keyed l e =
    let h = ap (λ z. str_same z j) (keyed id t e) in
    rw (lookup-erase id j s.pending, l, h)
      (elim (Bool-cases (str_same id j)) [
        | inl p ↦ rw (p, ← (list_beq_iff id j).0 p, e)
        | inr n ↦ rw n
      ])

sent_fields :
    (s : Subscription) (t : Tick) → ((sent s t).pending ≡ s.pending) × ((sent s t).loop ≡ s.loop)
unfolding sent
sent_fields s t = ground arith

send_step :
    (j : Str) (s : Subscription) (t : Tick)
    → s.loop ≡ LoopState.sending t
    → newest j (sent (record s { loop = LoopState.draining }) t) ≡ newest j s
unfolding newest in_hand
send_step j s t l =
    let s1 = record s { loop = LoopState.draining } in
    let (p, q) = sent_fields s1 t in
    rw (p, q, (sent-Sent s1 t).queue, last_for-snoc, l)
      (elim (Bool-cases (str_same t.instrument j)) [ inl e ↦ rw e | inr e ↦ rw e ])

Loop-cases :
    (l : LoopState)
    → (l ≡ LoopState.asleep)
      ⊎ (l ≡ LoopState.draining)
      ⊎ (l ≡ LoopState.stopped)
      ⊎ ((t : Tick) × (l ≡ LoopState.sending t))
Loop-cases LoopState.asleep = inl refl
Loop-cases LoopState.draining = inr (inl refl)
Loop-cases LoopState.stopped = inr (inr (inl refl))
Loop-cases (LoopState.sending t) = inr (inr (inr (t, refl)))

step_asleep :
    (id j : Str) (s : Subscription) {s' : Subscription}
    → s.loop ≡ LoopState.asleep
    → coalesce_step id s ≡ some s'
    → newest j s' ≡ newest j s
unfolding coalesce_step newest in_hand
step_asleep id j s {s'} l e = ground arith

step_drained :
    (id j : Str) (s : Subscription) {s' : Subscription}
    → s.loop ≡ LoopState.draining
    → lookup id s.pending ≡ none
    → coalesce_step id s ≡ some s'
    → newest j s' ≡ newest j s
unfolding coalesce_step newest in_hand
step_drained id j s {s'} l n e = ground arith

step_take :
    (id : Str) (s : Subscription) (t : Tick) {s' : Subscription}
    → s.loop ≡ LoopState.draining
    → lookup id s.pending ≡ some t
    → coalesce_step id s ≡ some s'
    → s' ≡ record s { pending = erase id s.pending; loop = LoopState.sending t }
unfolding coalesce_step
step_take id s t {s'} l n e = ground arith

step_send :
    (id : Str) (s : Subscription) (t : Tick) {s' : Subscription}
    → s.loop ≡ LoopState.sending t
    → coalesce_step id s ≡ some s'
    → s' ≡ sent (record s { loop = LoopState.draining }) t
unfolding coalesce_step try_send
step_send id s t {s'} l e = ground arith

-- Where each pending tick stands under its own instrument, every step of the coalescing loop,
-- whatever key the map yields, leaves the newest tick of each instrument what it was.
pub coalesce_step-newest :
    (id j : Str) (s : Subscription) {s' : Subscription}
    → IsKeyed s
    → coalesce_step id s ≡ some s'
    → newest j s' ≡ newest j s
coalesce_step-newest id j s {s'} keyed e = elim (Loop-cases s.loop) [
  | inl l ↦ step_asleep id j s l e
  | inr (inl l) ↦ elim (Option-cases (lookup id s.pending)) [
    | inl n ↦ step_drained id j s l n e
    | inr (t, n) ↦ ap (newest j) (step_take id s t l n e) ∙ take_step id j s t keyed l n
  ]
  | inr (inr (inl l)) ↦ absurd (unfold coalesce_step in ground arith)
  | inr (inr (inr (t, l))) ↦ ap (newest j) (step_send id s t l e) ∙ send_step j s t l
]
