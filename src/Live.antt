-- ===== src/Live.antt =====
-- internal/consumer/live/engine.go: the engine that trades with a broker.
pub mod Trade
pub mod Positions
use real_time_market_data_pi.Base.{
  ℕ, suc, ◌-◌, Bool, true, false, not, ◌&&◌, ◌||◌, Option, none, some, List, [], ◌∷◌, ◌++◌,
  if◌then◌else◌, same, length, drop, list_eq, nat_eq, ◌==◌,
}
use real_time_market_data_pi.Base.Bytes.{Str, str}
use real_time_market_data_pi.Base.Int.{ℤ, pos, leb_ℤ, ltb_ℤ, abs_ℕ}
use real_time_market_data_pi.Base.Assoc.{Assoc, lookup, insert}
use real_time_market_data_pi.Broker.{
  Broker, Order, OrderSide, buy_order, sell_order, Execution, Balance,
}
use real_time_market_data_pi.Decimal.{Decimal, zero_decimal, is_zero}
use real_time_market_data_pi.Float.{Float64, float, from_float, clamp01}
use real_time_market_data_pi.Strategy.{Action, hold, buy, sell, Signal}
use real_time_market_data_pi.Tick.{Tick}

-- `Config`, with the interval in nanoseconds.
pub record Config (F : Type 0) : Type 0 where
  pub name : Str
  pub eval_interval : ℤ
  pub max_position_fraction : F

pub record Engine (F : Type 0) : Type 0 where
  pub cfg : Config F
  pub venue : Str
  pub last : Assoc Str Tick
  pub insts : List Str
  pub held : Assoc Str Bool
  pub fill_log : List Execution
  pub failures : ℕ

-- `e.held[id]`; a missing key is false.
unfoldable pub is_held : Str → Assoc Str Bool → Bool
is_held id m = elim (lookup id m) [ none ↦ false | some b ↦ b ]

-- The text before the first dash; `none` where there is no dash.
unfoldable pub base_of : Str → Option Str
base_of [] = none
base_of (c ∷ s) =
    let rest = base_of s in
    if c == b'-' then some [] else elim rest [ none ↦ none | some b ↦ some (c ∷ b) ]

-- `matchesAsset`
unfoldable pub matches_asset : Str → Str → Bool
unfolding base_of
matches_asset id asset = elim (base_of id) [ none ↦ false | some b ↦ same b asset ]

-- The inner loop of `syncHeldPositions`: whether some balance stands for the instrument.
unfoldable pub holds_any : Str → List Balance → Bool
unfolding matches_asset
holds_any id [] = false
holds_any id (b ∷ bs) =
    let rest = holds_any id bs in
    if not (is_zero b.free) && matches_asset id b.asset then true else rest

unfoldable pub held_now : List Str → List Balance → Assoc Str Bool → Assoc Str Bool
unfolding holds_any
held_now [] bs m = m
held_now (id ∷ ids) bs m = held_now ids bs (if holds_any id bs then insert id true m else m)

-- `totalUSD`
unfoldable pub total_usd : List Balance → Decimal
total_usd [] = zero_decimal
total_usd (b ∷ bs) = let rest = total_usd bs in if same b.asset (str "USD") then b.free else rest

-- The loop of `sell`: the last balance that matches.
unfoldable pub free_of : Str → List Balance → Decimal → Decimal
unfolding matches_asset
free_of id [] qty = qty
free_of id (b ∷ bs) qty = free_of id bs (if matches_asset id b.asset then b.free else qty)

abbrev pub is_buy : OrderSide → Bool
is_buy buy_order = true
is_buy sell_order = false

module _ {F : Type 0} where
  unfoldable pub last_tick : Str → Engine F → Option Tick
  last_tick id e = lookup id e.last

  -- `Name`, with the strategy's name.
  unfoldable pub engine_name : Str → Engine F → Str
  engine_name strategy e = elim e.cfg.name [ [] ↦ strategy | c ∷ s ↦ c ∷ s ]

  -- `Fills`
  unfoldable pub executions : ℤ → Engine F → List Execution
  executions limit e =
      let n = length e.fill_log in
      let count = if leb_ℤ limit (pos 0) || ltb_ℤ (pos n) limit then n else abs_ℕ limit in
      drop (n - count) e.fill_log

  -- The branch of `Run` for a tick.
  unfoldable pub see_tick : Tick → Engine F → Engine F
  see_tick t e = record e { last = insert t.instrument t e.last }

-- What `Run`'s select may see.
pub data Event : Type 0 where
  cancelled unsubscribed evaluation : Event
  new_tick : Tick → Event
