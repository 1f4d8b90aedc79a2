-- ===== src/Store/Janitor.antt =====
-- internal/store/janitor.go: the retention of the archive. Durations are nanoseconds.
use real_time_market_data_pi.Base.{
  ℕ, ◌-◌, ◌&&◌, ◌==◌, Option, none, some, List, [], ◌∷◌, if◌then◌else◌,
}
use real_time_market_data_pi.Base.Int.{ℤ, pos, leb_ℤ, ltb_ℤ, eqb_ℤ, abs_ℕ}
use real_time_market_data_pi.Tick.{Time}

-- `Pruner`, over a state of the store; `none` is an error.
pub record Pruner (W : Type 0) : Type 0 where
  pub prune : Time → Time → W → Option (ℕ × ℕ) × W
  pub prune_to_size : ℤ → W → Option ℕ × W

pub record RetentionConfig : Type 0 where
  pub ticks : ℤ
  pub raw : ℤ
  pub max_bytes : ℤ
  pub interval : ℤ

-- `NewJanitor`
unfoldable pub new_janitor : RetentionConfig → RetentionConfig
new_janitor cfg = record cfg {
  interval = if leb_ℤ cfg.interval (pos 0) then pos 3_600_000_000_000 else cfg.interval;
}

-- The cutoff of one kind of data: the zero time keeps it forever.
unfoldable pub cutoff : Time → ℤ → Time
cutoff now age = if ltb_ℤ (pos 0) age then now - abs_ℕ age else 0

module _ {W : Type 0} (st : Pruner W) where
  -- The part of `once` that works by size.
  unfoldable pub by_size : RetentionConfig → W → W
  by_size cfg w = if ltb_ℤ (pos 0) cfg.max_bytes then (st.prune_to_size cfg.max_bytes w).1 else w

  -- `once`, at a time; after an error by age nothing is done by size.
  unfoldable pub once : RetentionConfig → Time → W → W
  unfolding by_size cutoff
  once cfg now w =
      let ticks_before = cutoff now cfg.ticks in
      let raw_before = cutoff now cfg.raw in
      let (answer, w') = st.prune ticks_before raw_before w in
      if ticks_before == 0 && raw_before == 0
      then by_size cfg w
      else elim answer [ none ↦ w' | some _ ↦ by_size cfg w' ]

  unfoldable pub passes : RetentionConfig → List Time → W → W
  unfolding once
  passes cfg [] w = w
  passes cfg (now ∷ times) w = passes cfg times (once cfg now w)

  -- `Run`, with the times of its passes, the one at the start included.
  unfoldable pub run : RetentionConfig → List Time → W → W
  unfolding passes
  run cfg times w =
      if eqb_ℤ cfg.ticks (pos 0) && eqb_ℤ cfg.raw (pos 0) && eqb_ℤ cfg.max_bytes (pos 0)
      then w
      else passes cfg times w
