-- ===== src/Bus.antt =====
-- internal/bus/bus.go: policies, subscriber specs and statistics.
pub mod Sub
pub mod Fanout
pub mod Queue
pub mod Policies
pub mod Coalesce
pub mod Isolation
pub mod Register
use real_time_market_data_pi.Base.{
  ℕ, Bool, true, false, Option, none, some, List, [], ◌∷◌, if◌then◌else◌,
}
use real_time_market_data_pi.Base.Bytes.{Str}
use real_time_market_data_pi.Base.Int.{ℤ, pos, ltb_ℤ}

-- `Policy` is a string in the source; `unknown` is any other text.
pub data Policy : Type 0 where
  block drop_newest drop_oldest coalesce : Policy
  unknown : Str → Policy

-- `Policy.Valid`
unfoldable pub policy_valid : Policy → Bool
policy_valid Policy.block = true
policy_valid Policy.drop_newest = true
policy_valid Policy.drop_oldest = true
policy_valid Policy.coalesce = true
policy_valid (Policy.unknown _) = false

pub record SubscriberSpec : Type 0 where
  pub name : Str
  pub capacity : ℤ
  pub policy : Policy
  pub instruments : List Str

abbrev pub default_capacity : ℕ
default_capacity = 1024

pub data BusError : Type 0 where
  no_name unknown_policy negative_capacity bus_closed already_registered cancelled : BusError

abbrev pub is_empty_name : Str → Bool
is_empty_name [] = true
is_empty_name (_ ∷ _) = false

-- `Validate`; `none` is no error.
unfoldable pub validate : SubscriberSpec → Option BusError
unfolding policy_valid
validate s =
    if is_empty_name s.name
    then some no_name
    else if policy_valid s.policy
    then (if ltb_ℤ s.capacity (pos 0) then some negative_capacity else none)
    else some unknown_policy

pub record Stats : Type 0 where
  pub name : Str
  pub policy : Policy
  pub capacity : ℕ
  pub depth : ℕ
  pub high_water : ℕ
  pub delivered : ℕ
  pub dropped : ℕ
  pub coalesced : ℕ
  pub blocked_nanos : ℕ
