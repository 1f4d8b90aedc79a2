-- ===== src/Command/Pump.antt =====
-- `pump` of cmd/mdp/main.go: raw frames are decoded, published and archived.
pub mod Frames
pub mod Sequenced
use real_time_market_data_pi.Base.{
  ℕ, ◌+◌, ◌%◌, ◌==◌, Bool, true, false, ◌||◌, Option, none, some, List, [], ◌∷◌, ◌++◌, leb,
  if◌then◌else◌, length,
}
use real_time_market_data_pi.Tick.{Tick, Time}
use real_time_market_data_pi.Base.Bytes.{Str}
use real_time_market_data_pi.Bus.{BusError}
use real_time_market_data_pi.Bus.Fanout.{Bus, Waits, publish}
use real_time_market_data_pi.Normalize.{
  RawMessage, Decoders, Decoded, ticks, failed, NormalizeError, ignored, Sequencer, normalize,
}
use real_time_market_data_pi.Store.Sqlite.{RawFrame, Sql, append_raw_batch}

-- The variables of `pump`, the bus, the database and the normalizer's sequencer; `warned` holds the
-- totals at which a failed decoding is logged.
pub record Pump (D : Type 0) : Type 0 where
  pub raw_batch : List RawFrame
  pub decode_err : ℕ
  pub warned : List ℕ
  pub sequencer : Sequencer
  pub bus : Bus
  pub db : D

-- What the select finds: a context that is done, the ticker, or a frame. With a frame come what
-- ends the waits of its publish and whether the context is done by then.
pub data Event : Type 0 where
  cancelled interval : Event
  frame : RawMessage → Waits → Bool → Event

-- How `pump` returns.
pub data End : Type 0 where
  no_error : End
  publish_error : BusError → End

abbrev pub raw_batch_size : ℕ
raw_batch_size = 500

unfoldable pub frame_of : RawMessage → RawFrame
frame_of m = record { venue = m.venue; recv_time = m.recv_time; payload = m.payload }

abbrev pub is_ignored : NormalizeError → Bool
is_ignored ignored = true
is_ignored _ = false

module _ {D : Type 0} where
  -- A decoding that failed: counted, and logged while it is rare.
  unfoldable pub count_error : Pump D → Pump D
  count_error p =
      let n = p.decode_err + 1 in
      record p {
        decode_err = n;
        warned = if leb n 10 || n % 100 == 0 then p.warned ++ (n ∷ []) else p.warned;
      }

  -- The end of a frame's case, behind `Normalize`.
  unfoldable pub hand_on : Waits → Bool → Decoded → Pump D → Pump D × Option End
  unfolding count_error
  hand_on w done (failed e) p = (if is_ignored e then p else count_error p, none)
  hand_on w done (ticks ts) p =
      let (b, e) = publish w ts p.bus in
      let p' = record p { bus = b } in
      elim e [
        | none ↦ (p', none)
        | some err ↦ (p', some (if done then no_error else publish_error err))
      ]

  -- `day` is the day that a row is filed under, from Go's package `time`.
  module _ (sql : Sql D) (day : Time → Str) where
    -- `flushRaw`: an error is logged, and the frames are given up.
    unfoldable pub flush_raw : Pump D → Pump D
    flush_raw p = elim p.raw_batch [
      | [] ↦ p
      | f ∷ fs ↦ record p { raw_batch = []; db = (append_raw_batch sql day (f ∷ fs) p.db).1 }
    ]

    -- `if storeRaw { … }`
    unfoldable pub keep_raw : Bool → RawMessage → Pump D → Pump D
    keep_raw store_raw m p =
        let p' = record p { raw_batch = p.raw_batch ++ (frame_of m ∷ []) } in
        if store_raw
        then (if leb raw_batch_size (length p'.raw_batch) then flush_raw p' else p')
        else p

    module _ (decoders : Decoders) (store_raw : Bool) where
      -- One round of the loop.
      unfoldable pub step : Event → Pump D → Pump D × Option End
      unfolding hand_on
      step cancelled p = (p, some no_error)
      step interval p = (flush_raw p, none)
      step (frame m w done) p =
          let p' = keep_raw store_raw m p in
          let (d, s) = normalize decoders m p'.sequencer in
          hand_on w done d (record p' { sequencer = s })

      -- The loop, and the deferred flush when it returns.
      unfoldable pub pump_from : List Event → Pump D → Pump D × Option End
      pump_from [] p = (p, none)
      pump_from (e ∷ es) p =
          let (p', end) = step e p in
          let rest = pump_from es p' in elim end [ none ↦ rest | some r ↦ (flush_raw p', some r) ]

      unfoldable pub pump : List Event → Sequencer → Bus → D → Pump D × Option End
      pump es s b d =
          pump_from es
            (record { raw_batch = []; decode_err = 0; warned = []; sequencer = s; bus = b; db = d })
