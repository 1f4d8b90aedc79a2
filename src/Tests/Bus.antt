-- ===== src/Tests/Bus.antt =====
-- Examples for the bus.
use real_time_market_data_pi.Base.{
  ◌≡◌, ◌%◌, ◌+◌, ℕ, refl, true, false, none, some, [], ◌∷◌, length, last_n, take, if◌then◌else◌,
  list_eq, nat_eq, list_beq_iff, arith,
}
use real_time_market_data_pi.Base.Bytes.{str}
use real_time_market_data_pi.Base.Int.{pos}
use real_time_market_data_pi.Base.Int64.{two64}
use real_time_market_data_pi.Base.Assoc.{lookup, insert}
use real_time_market_data_pi.Tick.{Tick}
use real_time_market_data_pi.Bus.{Policy, SubscriberSpec, validate, policy_valid}
use real_time_market_data_pi.Bus.Sub.{
  Subscription, LoopState, Wakeup, deliver_drop_oldest, coalesce_step,
}
use real_time_market_data_pi.Bus.Fanout.{
  Bus, Waits, deliver_all, publish, targets, get_elem?, close_subscription,
}
use real_time_market_data_pi.Bus.Queue.{IsBounded, wanted, Ended, drop_oldest_ends}
use real_time_market_data_pi.Bus.Policies.{IsOpen, drop_oldest_newest, drop_newest_oldest}
use real_time_market_data_pi.Bus.Coalesce.{newest, IsKeyed, coalesce_step-newest}
use real_time_market_data_pi.Bus.Isolation.{publish_isolation, alone, mem}
use real_time_market_data_pi.Bus.Register.{close_stale}
use real_time_market_data_pi.Tests.{btc, eth, trade, three_trades}

abbrev no_wait : Tick → Wakeup
no_wait t = Wakeup.room 0 0

abbrev spec_of : Policy → SubscriberSpec
spec_of p = record { name = str "s"; capacity = pos 2; policy = p; instruments = [] }

abbrev sub_of : Policy → Subscription
sub_of p = record {
  spec = spec_of p;
  capacity = 2;
  filter = none;
  out = [];
  done = false;
  pending = [];
  wake = false;
  loop = LoopState.asleep;
  delivered = 0;
  dropped = 0;
  coalesced = 0;
  blocked_ns = 0;
  high_water = 0;
}

sub_of-IsBounded : (p : Policy) → IsBounded (sub_of p)
sub_of-IsBounded p = record { fits = omega arith; room_for_one = omega arith; marked = omega arith }

sub_of-IsOpen : (p : Policy) → IsOpen p (sub_of p)
sub_of-IsOpen p = record { open_still = refl; policy_is = refl; bounded = sub_of-IsBounded p }

drop_oldest_newest_example :
    ((deliver_all no_wait (sub_of Policy.drop_oldest) three_trades).0.out
      ≡ last_n 2 (wanted (sub_of Policy.drop_oldest) three_trades))
    × ((deliver_all no_wait (sub_of Policy.drop_oldest) three_trades).1 ≡ none)
drop_oldest_newest_example =
    drop_oldest_newest no_wait (sub_of Policy.drop_oldest) three_trades
      (sub_of-IsOpen Policy.drop_oldest)

drop_newest_oldest_example :
    let (s', e) = deliver_all no_wait (sub_of Policy.drop_newest) three_trades in
    (s'.out ≡ take 2 (wanted (sub_of Policy.drop_newest) three_trades))
    × ((s'.delivered + s'.dropped) % two64
        ≡ (0 + 0 + length (wanted (sub_of Policy.drop_newest) three_trades)) % two64)
    × (e ≡ none)
drop_newest_oldest_example =
    drop_newest_oldest no_wait (sub_of Policy.drop_newest) three_trades
      (sub_of-IsOpen Policy.drop_newest)

abbrev closed_sub : Subscription
closed_sub = record (sub_of Policy.block) { done = true }

-- A queue that is full.
abbrev full_sub : Subscription
full_sub = record (sub_of Policy.drop_oldest) {
  out = trade btc 1 (pos 1) ∷ trade eth 1 (pos 2) ∷ [];
  high_water = 2;
}

drop_oldest_ends_example :
    (s' : Subscription) × (deliver_drop_oldest 2 full_sub (trade btc 2 (pos 3)) ≡ some s')
    × Ended full_sub (trade btc 2 (pos 3)) s'
drop_oldest_ends_example =
    drop_oldest_ends 0 full_sub (trade btc 2 (pos 3))
      (record { fits = omega arith; room_for_one = omega arith; marked = omega arith }) refl

abbrev draining_sub : Subscription
draining_sub = record (sub_of Policy.coalesce) {
  pending = insert btc (trade btc 2 (pos 7)) [];
  loop = LoopState.draining;
}

abbrev sending_sub : Subscription
sending_sub = record (sub_of Policy.coalesce) { loop = LoopState.sending (trade btc 2 (pos 7)) }

draining_sub-IsKeyed : IsKeyed draining_sub
draining_sub-IsKeyed k t e = ground (arith, list_beq_iff btc k)

draining_sub-step : coalesce_step btc draining_sub ≡ some sending_sub
unfolding coalesce_step
draining_sub-step = refl

coalesce_step-newest_example : newest btc sending_sub ≡ newest btc draining_sub
coalesce_step-newest_example =
    coalesce_step-newest btc btc draining_sub draining_sub-IsKeyed draining_sub-step

-- Two subscribers, the first of them lossy and the second coalescing.
abbrev two_subs : Bus
two_subs = record {
  subs = (str "a", 0) ∷ (str "b", 1) ∷ [];
  heap = sub_of Policy.drop_oldest ∷ draining_sub ∷ [];
  closed = false;
}

abbrev waits : Waits
waits i = no_wait

publish_isolation_example :
    ((publish waits three_trades two_subs).1 ≡ none)
    × ((i : ℕ) (s : Subscription)
        → get_elem? two_subs.heap i ≡ some s
        → get_elem? (publish waits three_trades two_subs).0.heap i
          ≡ some (if mem i (targets two_subs) then alone waits i three_trades s else s))
publish_isolation_example =
    publish_isolation waits two_subs three_trades (refl, (refl, tt))
      ((λ s e. ground arith), ((λ s e. ground arith), tt))

spec_of-valid : validate (spec_of Policy.coalesce) ≡ none
unfolding validate policy_valid
spec_of-valid = refl

-- The first subscription stands under its own name, the second under the name of the first.
abbrev renamed : Bus
renamed = record {
  subs = (str "s", 1) ∷ [];
  heap = closed_sub ∷ sub_of Policy.block ∷ [];
  closed = false;
}

close_stale_example :
    let b' = close_subscription 0 renamed in
    (lookup (str "s") b'.subs ≡ none) × (get_elem? b'.heap 1 ≡ some (sub_of Policy.block))
close_stale_example =
    close_stale 0 1 renamed closed_sub (sub_of Policy.block) (λ e. ground arith) refl refl refl refl
