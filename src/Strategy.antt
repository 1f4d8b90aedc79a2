-- ===== src/Strategy.antt =====
-- internal/strategy/strategy.go: what a strategy decides.
pub mod Momentum
pub mod Reversion
pub mod Adaptive
pub mod LanguageModel
use real_time_market_data_pi.Base.Bytes.{Str}
use real_time_market_data_pi.Tick.{Time}

-- `Action`; any other text counts as `hold`.
pub data Action : Type 0 where
  hold buy sell : Action

pub record Signal (F : Type 0) : Type 0 where
  pub instrument : Str
  pub action : Action
  pub strength : F
  pub reason : Str
  pub time : Time
