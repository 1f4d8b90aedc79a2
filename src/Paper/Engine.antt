-- ===== src/Paper/Engine.antt =====
-- internal/consumer/paper/engine.go: a strategy that trades on the simulated account. Durations are
-- nanoseconds.
pub mod File
pub mod Books
pub mod Prices
use real_time_market_data_pi.Base.{
  ℕ, Bool, true, false, ◌||◌, Option, none, some, List, [], ◌∷◌, ◌++◌, map, if◌then◌else◌, list_eq,
  nat_eq,
}
use real_time_market_data_pi.Base.Bytes.{Str, str}
use real_time_market_data_pi.Base.Int.{ℤ, pos, leb_ℤ, ltb_ℤ}
use real_time_market_data_pi.Base.Assoc.{Assoc, lookup, insert}
use real_time_market_data_pi.Candles.{Candle}
use real_time_market_data_pi.Decimal.{Decimal}
use real_time_market_data_pi.Float.{Float64}
use real_time_market_data_pi.Paper.{Account, Book, save, restore}
use real_time_market_data_pi.Paper.Report.{mark, snapshot}
use real_time_market_data_pi.Paper.Trade.{apply}
use real_time_market_data_pi.Store.{EquitySnapshot, is_blank}
use real_time_market_data_pi.Strategy.{hold, buy, sell, Signal}
use real_time_market_data_pi.Tick.{Tick, Time}

-- `EngineConfig`; `has_history` is a `History` that is not nil.
pub record EngineConfig : Type 0 where
  pub name : Str
  pub eval_interval : ℤ
  pub fill_latency : ℤ
  pub mark_interval : ℤ
  pub state_path : Str
  pub save_interval : ℤ
  pub has_history : Bool
  pub history_interval : ℤ

unfoldable pub default_engine_config : EngineConfig
default_engine_config = record {
  name = [];
  eval_interval = pos 15_000_000_000;
  fill_latency = pos 500_000_000;
  mark_interval = pos 5_000_000_000;
  state_path = [];
  save_interval = pos 30_000_000_000;
  has_history = false;
  history_interval = pos 300_000_000_000;
}

pub record Engine (F : Type 0) : Type 0 where
  pub cfg : EngineConfig
  pub acct : Account F
  pub venue : Str
  pub last : Assoc Str Tick
  pub insts : List Str

-- `if d <= 0 { d = default }`
abbrev or_default : ℤ → ℤ → ℤ
or_default d default = if leb_ℤ d (pos 0) then default else d

-- What the engine uses of other code, over a state of the world: the clock, the wait before a fill
-- (true is a cancelled context), the strategy, the recorder of equity and the operating system's
-- files, where true is a success and `none` an error; and the encoder and decoder of the book, to and
-- from the bytes `B` of a file.
pub record World (F B W : Type 0) : Type 0 where
  pub now : W → Time × W
  pub wait : ℤ → W → Bool × W
  pub strategy_name : Str
  pub evaluate : Engine F → W → Option (List (Signal F)) × W
  pub record_equity : EquitySnapshot → W → Bool × W
  pub encode : Book F → Option B
  pub decode : B → Option (Book F)
  pub dir_of : Str → Str
  pub mkdir_all : Str → W → Bool × W
  pub write_file : Str → B → W → Bool × W
  pub rename : Str → Str → W → Bool × W
  pub read_file : Str → W → Option B × W

-- `prices`
unfoldable pub prices_of : Assoc Str Tick → Assoc Str Decimal
prices_of last = map (λ (entry : Str × Tick). (entry.0, entry.1.price)) last

module _ {F : Type 0} where
  -- `NewEngine`
  unfoldable pub new_engine : EngineConfig → Account F → Str → List Str → Engine F
  unfolding default_engine_config
  new_engine c acct venue insts =
      let d = default_engine_config in
      record {
        cfg = record c {
          eval_interval = or_default c.eval_interval d.eval_interval;
          mark_interval = or_default c.mark_interval d.mark_interval;
          save_interval = or_default c.save_interval d.save_interval;
          history_interval = or_default c.history_interval d.history_interval;
        };
        acct = acct;
        venue = venue;
        last = [];
        insts = insts;
      }

  -- `Last`
  unfoldable pub last_tick : Str → Engine F → Option Tick
  last_tick id e = lookup id e.last

  -- The branch of `Run` for a tick.
  unfoldable pub see_tick : Tick → Engine F → Engine F
  see_tick t e = record e { last = insert t.instrument t e.last }

  -- `Name`, with the strategy's name.
  unfoldable pub engine_name : Str → Engine F → Str
  engine_name strategy e = if is_blank e.cfg.name then strategy else e.cfg.name

-- What the select of `Run` may see.
pub data Event : Type 0 where
  cancelled unsubscribed mark_time save_time history_time eval_time : Event
  new_tick : Tick → Event

module _ (fl : Float64) {B W : Type 0} (os : World fl.F B W) where
  -- `save`
  unfoldable pub save_state : Engine fl.F → W → W
  unfolding save
  save_state e w =
      let path = e.cfg.state_path in
      if is_blank path then w else elim (os.encode (save e.acct)) [
        | none ↦ w
        | some b ↦
            let tmp = path ++ str ".tmp" in
            let (made, w1) = os.mkdir_all (os.dir_of path) w in
            let (written, w2) = os.write_file tmp b w1 in
            if made then if written then (os.rename tmp path w2).1 else w2 else w1
      ]

  -- `restore`
  unfoldable pub restore_state : Engine fl.F → W → Engine fl.F × W
  restore_state e w =
      if is_blank e.cfg.state_path
      then (e, w)
      else let (answer, w') = os.read_file e.cfg.state_path w in
        (
          elim answer [ none ↦ e | some b ↦ record e { acct = (restore (os.decode b) e.acct).1 } ],
          w',
        )

  -- `recordHistory`
  unfoldable pub record_history : Engine fl.F → W → W
  record_history e w =
      let (now, w1) = os.now w in
      let snap = snapshot fl now e.acct in
      if e.cfg.has_history
      then (os.record_equity
          (record {
            strategy = engine_name os.strategy_name e;
            time = now;
            equity = snap.equity;
            realized_pl = snap.realized_pl;
            unrealized_pl = snap.unrealized_pl;
            trades = pos snap.trades;
          })
          w1).1
      else w

  -- The wait before a fill; true where the context was cancelled in it.
  unfoldable pub await_fill : Engine fl.F → W → Bool × W
  await_fill e w =
      if ltb_ℤ (pos 0) e.cfg.fill_latency then os.wait e.cfg.fill_latency w else (false, w)

  -- A signal that is not to hold, after the wait.
  unfoldable pub fill_signal : Signal fl.F → Engine fl.F → W → Engine fl.F × W
  unfolding last_tick
  fill_signal sig e w = elim (last_tick sig.instrument e) [
    | none ↦ (e, w)
    | some t ↦
        let (now, w') = os.now w in (record e { acct = (apply fl sig t.price now e.acct).1 }, w')
  ]

  -- The loop of `evaluate`.
  unfoldable pub fill_all : List (Signal fl.F) → Engine fl.F → W → Engine fl.F × W
  unfolding await_fill fill_signal
  fill_all [] e w = (e, w)
  fill_all (sig ∷ sigs) e w =
      let (stopped, w1) = await_fill e w in
      let (e', w2) = fill_signal sig e w1 in
      elim sig.action [
        | hold ↦ fill_all sigs e w
        | _ ↦ elim stopped [ true ↦ (e, w1) | false ↦ fill_all sigs e' w2 ]
      ]

  -- `evaluate`
  unfoldable pub evaluate : Engine fl.F → W → Engine fl.F × W
  unfolding fill_all
  evaluate e w =
      let (answer, w') = os.evaluate e w in
      elim answer [ none ↦ (e, w') | some sigs ↦ fill_all sigs e w' ]

  unfoldable pub mark_prices : Engine fl.F → Engine fl.F
  unfolding prices_of
  mark_prices e = record e { acct = mark fl (prices_of e.last) e.acct }

  -- The loop of `Run`.
  unfoldable pub loop : List Event → Engine fl.F → W → Engine fl.F × W
  unfolding see_tick mark_prices save_state record_history evaluate
  loop [] e w = (e, w)
  loop (cancelled ∷ es) e w = (e, w)
  loop (unsubscribed ∷ es) e w = (e, w)
  loop (new_tick t ∷ es) e w = loop es (see_tick t e) w
  loop (mark_time ∷ es) e w = loop es (mark_prices e) w
  loop (save_time ∷ es) e w = loop es e (save_state e w)
  loop (history_time ∷ es) e w = loop es e (record_history e w)
  loop (eval_time ∷ es) e w = let (e', w') = evaluate e w in loop es e' w'

  -- `Run`
  unfoldable pub run : List Event → Engine fl.F → W → Engine fl.F × W
  unfolding restore_state loop
  run es e w =
      let (e1, w1) = restore_state e w in
      let (e2, w2) = loop es e1 (record_history e1 w1) in (e2, save_state e2 w2)
