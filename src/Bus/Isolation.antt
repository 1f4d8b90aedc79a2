-- ===== src/Bus/Isolation.antt =====
-- `Publish` of internal/bus/inproc/inproc.go on several subscriptions.
use real_time_market_data_pi.Base.{
  ℕ, zero, suc, ◌≡◌, ◌≢◌, refl, sym, ap, ◌∙◌, inl, inr, Bool, true, false, Bool-cases, Option, none,
  some, Option-cases, List, [], ◌∷◌, ◌==◌, ==_iff, if◌then◌else◌, arith,
}
use real_time_market_data_pi.Tick.{Tick}
use real_time_market_data_pi.Bus.{Policy}
use real_time_market_data_pi.Bus.Sub.{
  Subscription, Wakeup, try_send, evict, deliver_drop_newest, deliver_drop_oldest, drop_oldest_fuel,
  deliver_coalesce, deliver,
}
use real_time_market_data_pi.Bus.Fanout.{
  Bus, Waits, get_elem?, modify, deliver_all, publish_to, publish, targets,
}
use real_time_market_data_pi.Bus.Queue.{sent-Sent, evict_lem}
use real_time_market_data_pi.Bus.Policies.{deliver_all_ok}

deliver-no_error :
    (w : Wakeup) (s : Subscription) (t : Tick)
    → s.spec.policy ≢ Policy.block
    → (deliver w s t).1 ≡ none
unfolding deliver
deliver-no_error w s t nb = ground arith

drop_oldest-spec :
    (f : ℕ) (s : Subscription) (t : Tick) {s' : Subscription}
    → deliver_drop_oldest f s t ≡ some s'
    → s'.spec ≡ s.spec
unfolding deliver_drop_oldest try_send
drop_oldest-spec zero s t {s'} e = cc
drop_oldest-spec (suc f) s t {s'} e = ground (
  arith,
  (sent-Sent s t).config.same_spec,
  (evict_lem s).0.same_spec,
  drop_oldest-spec f (evict s) t {s' = s'},
)

deliver-spec :
    (w : Wakeup) (s : Subscription) (t : Tick)
    → s.spec.policy ≢ Policy.block
    → (deliver w s t).0.spec ≡ s.spec
unfolding deliver deliver_drop_newest try_send deliver_coalesce
deliver-spec w s t nb = elim (Option-cases (deliver_drop_oldest drop_oldest_fuel s t)) [
  | inl e ↦ ground (arith, (sent-Sent s t).config.same_spec)
  | inr (s', e) ↦
      ground (arith, (sent-Sent s t).config.same_spec, drop_oldest-spec drop_oldest_fuel s t e)
]

-- A publish to one subscription that does not block has no error.
deliver_all-no_error :
    (w : Tick → Wakeup) (s : Subscription) (ts : List Tick)
    → s.spec.policy ≢ Policy.block
    → (deliver_all w s ts).1 ≡ none
deliver_all-no_error w s [] nb = unfold deliver_all in refl
deliver_all-no_error w s (t ∷ ts) nb =
    let s' = (deliver (w t) s t).0 in
    rw (deliver_all_ok w s s' t ts (ap (λ e. (s', e)) (deliver-no_error (w t) s t nb)))
      (deliver_all-no_error w s' ts (rw (deliver-spec (w t) s t nb) nb))

-- What a publish does to one subscription.
abbrev pub alone : Waits → ℕ → List Tick → Subscription → Subscription
alone w i ts s = (deliver_all (w i) s ts).0

abbrev pub mem : ℕ → List ℕ → Bool
mem i [] = false
mem i (j ∷ l) = if i == j then true else mem i l

-- No index stands twice.
abbrev pub IsDistinct : List ℕ → Type 0
IsDistinct [] = Unit
IsDistinct (i ∷ l) = (mem i l ≡ false) × IsDistinct l

-- No subscription of the heap at such an index blocks.
abbrev pub NoneBlocks : List ℕ → List Subscription → Type 0
NoneBlocks [] heap = Unit
NoneBlocks (i ∷ ids) heap =
    ((s : Subscription) → get_elem? heap i ≡ some s → s.spec.policy ≢ Policy.block)
    × NoneBlocks ids heap

get_elem?-modify :
    (heap : List Subscription) (i j : ℕ) (f : Subscription → Subscription)
    → get_elem? (modify heap j f) i ≡ (
        if i == j
        then elim (get_elem? heap i) [ none ↦ none | some s ↦ some (f s) ]
        else get_elem? heap i)
get_elem?-modify [] i j f = ground arith
get_elem?-modify (x ∷ xs) zero zero f = refl
get_elem?-modify (x ∷ xs) zero (suc j) f = ground arith
get_elem?-modify (x ∷ xs) (suc i) zero f = ground arith
get_elem?-modify (x ∷ xs) (suc i) (suc j) f = ground (arith, get_elem?-modify xs i j f)

get_elem?-modify_ne :
    (heap : List Subscription) (i j : ℕ) (f : Subscription → Subscription)
    → (i == j) ≡ false
    → get_elem? (modify heap j f) i ≡ get_elem? heap i
get_elem?-modify_ne heap i j f n = get_elem?-modify heap i j f ∙ rw n

NoneBlocks-modify :
    (ids : List ℕ) (heap : List Subscription) (j : ℕ) (f : Subscription → Subscription)
    → mem j ids ≡ false
    → NoneBlocks ids heap
    → NoneBlocks ids (modify heap j f)
NoneBlocks-modify [] heap j f m nb = tt
NoneBlocks-modify (i ∷ ids) heap j f m nb = (
  λ s e. nb.0 s (sym (get_elem?-modify_ne heap i j f (ground arith)) ∙ e),
  NoneBlocks-modify ids heap j f (ground arith) nb.1,
)

publish_to_here :
    (w : Waits) (i : ℕ) (ids : List ℕ) (ts : List Tick) (heap : List Subscription)
    (s : Subscription)
    → get_elem? heap i ≡ some s
    → s.spec.policy ≢ Policy.block
    → publish_to w (i ∷ ids) ts heap ≡ publish_to w ids ts (modify heap i (λ _. alone w i ts s))
unfolding publish_to
publish_to_here w i ids ts heap s e nb =
    rw (e, publish_to) (rw (deliver_all-no_error (w i) s ts nb))

publish_to_absent :
    (w : Waits) (i : ℕ) (ids : List ℕ) (ts : List Tick) (heap : List Subscription)
    → get_elem? heap i ≡ none
    → publish_to w (i ∷ ids) ts heap ≡ publish_to w ids ts heap
unfolding publish_to
publish_to_absent w i ids ts heap e = rw (e, publish_to)

abbrev Isolated : Waits → List ℕ → List Tick → List Subscription → Type 0
Isolated w ids ts heap =
    ((publish_to w ids ts heap).1 ≡ none)
    × ((i : ℕ) (s : Subscription)
        → get_elem? heap i ≡ some s
        → get_elem? (publish_to w ids ts heap).0 i ≡ some (if mem i ids then alone w i ts s else s))

none_not_some : {s : Subscription} {o : Option Subscription} → o ≡ none → o ≡ some s → ⊥
none_not_some a b = cc

some_inj : {s t : Subscription} → some s ≡ some t → s ≡ t
some_inj e = cc

publish_to-Isolated :
    (w : Waits) (ids : List ℕ) (ts : List Tick) (heap : List Subscription)
    → IsDistinct ids
    → NoneBlocks ids heap
    → Isolated w ids ts heap
publish_to-Isolated w [] ts heap d nb = unfold publish_to in (refl, λ i s e. e)
publish_to-Isolated w (j ∷ ids) ts heap d nb = elim (Option-cases (get_elem? heap j)) [
  | inl absent ↦
      let ih = publish_to-Isolated w ids ts heap d.1 nb.1 in
      rw (publish_to_absent w j ids ts heap absent) (
        ih.0,
        λ i s e. elim (Bool-cases (i == j)) [
          | inl p ↦ absurd (none_not_some absent (ap (get_elem? heap) (sym ((==_iff i j).0 p)) ∙ e))
          | inr n ↦ rw n (ih.1 i s e)
        ],
      )
  | inr (u, here) ↦
      let f = λ (_ : Subscription). alone w j ts u in
      let ih =
        publish_to-Isolated w ids ts (modify heap j f) d.1
          (NoneBlocks-modify ids heap j f d.0 nb.1) in
      rw (publish_to_here w j ids ts heap u here (nb.0 u here)) (
        ih.0,
        λ i s e. elim (Bool-cases (i == j)) [
          | inl p ↦
              let q : i ≡ j = (==_iff i j).0 p in
              let same : s ≡ u = some_inj (sym e ∙ ap (get_elem? heap) q ∙ here) in
              let now = get_elem?-modify heap i j f ∙ rw (p, e) in
              rw (p, same, q) (rw (q, d.0) at (ih.1 i (f s) now))
          | inr n ↦ rw n (ih.1 i s (get_elem?-modify_ne heap i j f n ∙ e))
        ],
      )
]

-- Where no registered subscription blocks and none is registered twice, a publish gives no error
-- and leaves each registered subscription as if the ticks had been delivered to it alone, and each
-- other one as it was.
pub publish_isolation :
    (w : Waits) (b : Bus) (ts : List Tick)
    → IsDistinct (targets b)
    → NoneBlocks (targets b) b.heap
    → ((publish w ts b).1 ≡ none)
      × ((i : ℕ) (s : Subscription)
          → get_elem? b.heap i ≡ some s
          → get_elem? (publish w ts b).0.heap i
            ≡ some (if mem i (targets b) then alone w i ts s else s))
unfolding publish
publish_isolation w b [] d nb = (refl, λ i s e. e ∙ nothing i s)
  where
    nothing :
        (i : ℕ) (s : Subscription) → some s ≡ some (if mem i (targets b) then alone w i [] s else s)
    nothing i s = elim (Bool-cases (mem i (targets b))) [
      | inl p ↦ unfold deliver_all in rw p
      | inr p ↦ rw p
    ]
publish_isolation w b (t ∷ ts) d nb = publish_to-Isolated w (targets b) (t ∷ ts) b.heap d nb
