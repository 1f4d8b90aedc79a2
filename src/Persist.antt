-- ===== src/Persist.antt =====
-- internal/consumer/persist/persist.go: the consumer that writes ticks to the store in batches.
pub mod Lossless
pub mod Balance
use real_time_market_data_pi.Base.{
  ℕ, suc, ◌+◌, ◌-◌, ◌%◌, Option, none, some, List, [], ◌∷◌, ◌++◌, leb, if◌then◌else◌, length,
}
use real_time_market_data_pi.Base.Int.{ℤ, pos, leb_ℤ, abs_ℕ}
use real_time_market_data_pi.Base.Int64.{two64}
use real_time_market_data_pi.Tick.{Tick}

-- `Config`, with the interval in nanoseconds.
pub record Config : Type 0 where
  pub batch_size : ℤ
  pub flush_interval : ℤ

unfoldable pub default_config : Config
default_config = record { batch_size = pos 500; flush_interval = pos 250_000_000 }

pub record Stats : Type 0 where
  pub received : ℕ
  pub stored : ℕ
  pub duplicate : ℕ
  pub flushes : ℕ
  pub errors : ℕ

-- The persister, with the batch that `Run` holds and the store it writes to.
pub record Persister (S : Type 0) : Type 0 where
  pub batch_size : ℕ
  pub flush_interval : ℕ
  pub counts : Stats
  pub batch : List Tick
  pub store : S

-- `New`
unfoldable pub new_persister : {S : Type 0} → Config → S → Persister S
unfolding default_config
new_persister cfg store = record {
  batch_size =
      abs_ℕ (if leb_ℤ cfg.batch_size (pos 0) then default_config.batch_size else cfg.batch_size);
  flush_interval = abs_ℕ (
      if leb_ℤ cfg.flush_interval (pos 0)
      then default_config.flush_interval
      else cfg.flush_interval);
  counts = record { received = 0; stored = 0; duplicate = 0; flushes = 0; errors = 0 };
  batch = [];
  store = store;
}

-- What `Run`'s select may see.
pub data Event : Type 0 where
  cancelled unsubscribed interval : Event
  received_tick : Tick → Event

abbrev pub add64 : ℕ → ℕ → ℕ
add64 m n = (m + n) % two64

-- The store is behind an interface: `none` is an error, `some n` counts the rows stored.
module _ {S : Type 0} (append : List Tick → S → Option ℕ × S) where
  -- The counters behind one `Append`; `uint64(len(batch) - stored)` may wrap.
  unfoldable pub count_flush : Option ℕ → ℕ → Stats → Stats
  count_flush none size s = record s { flushes = add64 s.flushes 1; errors = add64 s.errors 1 }
  count_flush (some n) size s = record s {
    flushes = add64 s.flushes 1;
    stored = add64 s.stored n;
    duplicate = add64 s.duplicate (size + (two64 - n % two64));
  }

  -- `flush`
  unfoldable pub flush : Persister S → Persister S
  unfolding count_flush
  flush p = elim p.batch [
    | [] ↦ p
    | t ∷ ts ↦
        let (answer, store') = append p.batch p.store in
        record p {
          counts = count_flush answer (length p.batch) p.counts;
          batch = [];
          store = store';
        }
  ]

  -- The branch of `Run` for a tick.
  unfoldable pub take_tick : Tick → Persister S → Persister S
  unfolding flush
  take_tick t p =
      let p' = record p {
        counts = record p.counts { received = add64 p.counts.received 1 };
        batch = p.batch ++ (t ∷ []);
      } in
      if leb p.batch_size (length p'.batch) then flush p' else p'

  -- `Run` on the events in the order it selects them.
  unfoldable pub run : List Event → Persister S → Persister S
  unfolding flush take_tick
  run [] p = p
  run (cancelled ∷ es) p = flush p
  run (unsubscribed ∷ es) p = flush p
  run (interval ∷ es) p = run es (flush p)
  run (received_tick t ∷ es) p = run es (take_tick t p)
