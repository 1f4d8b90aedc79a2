-- ===== src/Store/Append.antt =====
-- `Append` of internal/store/sqlite/sqlite.go, on the keys of the archive.
use native.Mathlib.Nat.{zero-add}
use real_time_market_data_pi.Base.{
  ℕ, ◌+◌, ◌≡◌, refl, sym, ap, ap₂, subst, ◌∙◌, inl, inr, Bool, true, false, Bool-cases, Option,
  none, some, List, [], ◌∷◌, ◌++◌, append-nil, if◌then◌else◌, same, same_refl, list_eq, nat_eq,
  pair_eq, arith,
}
use real_time_market_data_pi.Base.Bytes.{Str}
use real_time_market_data_pi.Persist.{Config, Event, run, new_persister}
use real_time_market_data_pi.Persist.Lossless.{
  run_lossless, ticks_of, stops, store_all, concat, Left,
}
use real_time_market_data_pi.Store.Rows.{TickRow, row_of}
use real_time_market_data_pi.Store.Sqlite.{Sql, append, insert_all, TradeKey, trade_key}
use real_time_market_data_pi.Tick.{Tick, Time}

abbrev pub row_key : TickRow → TradeKey
row_key r = (r.venue, (r.instrument, r.trade_id))

-- `INSERT … ON CONFLICT (venue, instrument, venue_trade_id) DO NOTHING` and transactions, on a
-- database that works: `has` says whether a key is in the table, `put` is the database with the row.
pub record IsTable {D : Type 0} (sql : Sql D) (has : TradeKey → D → Bool) (put : TickRow → D → D)
    : Type 0 where
  pub begins : (d : D) → sql.begin d ≡ true
  pub prepares : (d : D) → sql.prepare d ≡ true
  pub commits : (d : D) → sql.commit d ≡ some d
  pub inserts :
      (r : TickRow) (d : D)
      → sql.insert_tick r d ≡ some (some (if has (row_key r) d then 0 else 1), put r d)
  pub conflict : (r : TickRow) (d : D) → has (row_key r) d ≡ true → put r d ≡ d
  pub has-put :
      (k : TradeKey) (r : TickRow) (d : D)
      → has k (put r d) ≡ (if same (row_key r) k then true else has k d)

-- Whether some tick has the key.
abbrev pub contains : TradeKey → List Tick → Bool
contains k [] = false
contains k (t ∷ ts) = if same (trade_key t) k then true else contains k ts

module _ {D : Type 0} (sql : Sql D) (has : TradeKey → D → Bool) (put : TickRow → D → D)
    (table : IsTable sql has put) (day : Time → Str) where
  abbrev put_all : List Tick → D → D
  put_all [] d = d
  put_all (t ∷ ts) d = put_all ts (put (row_of day t) d)

  -- The ticks whose key is not there yet.
  abbrev fresh : List Tick → D → ℕ
  fresh [] d = 0
  fresh (t ∷ ts) d = (if has (trade_key t) d then 0 else 1) + fresh ts (put (row_of day t) d)

  key_row : (t : Tick) → row_key (row_of day t) ≡ trade_key t
  unfolding row_of
  key_row t = refl

  insert_all_lem :
      (ts : List Tick) (n : ℕ) (d : D)
      → insert_all sql day ts n d ≡ (n + fresh ts d, some (put_all ts d))
  unfolding insert_all
  insert_all_lem [] n d = ap (λ k. (k, some d)) {x = n} (omega arith)
  insert_all_lem (t ∷ ts) n d =
      let m : ℕ = if has (trade_key t) d then 0 else 1 in
      let d' = put (row_of day t) d in
      let rest = fresh ts d' in
      rw (table.inserts (row_of day t) d, insert_all, key_row t)
        (insert_all_lem ts (n + m) d'
          ∙ ap (λ k. (k, some (put_all ts d'))) {x = n + m + rest} {y = n + (m + rest)}
              (omega arith))

  append_lem : (ts : List Tick) (d : D) → append sql day ts d ≡ (fresh ts d, false, put_all ts d)
  unfolding append
  append_lem [] d = refl
  append_lem (t ∷ ts) d =
      rw
        (
          table.begins d,
          table.prepares d,
          insert_all_lem (t ∷ ts) 0 d,
          table.commits (put_all (t ∷ ts) d),
        )
        (ap (λ k. (k, false, put_all (t ∷ ts) d))
          (ap (λ (p : ℕ × Option D). p.0) (insert_all_lem (t ∷ ts) 0 d)
            ∙ zero-add (fresh (t ∷ ts) d)))

  has-put_all :
      (k : TradeKey) (ts : List Tick) (d : D)
      → has k (put_all ts d) ≡ (if has k d then true else contains k ts)
  has-put_all k [] d = elim (Bool-cases (has k d)) [ inl e ↦ rw e | inr e ↦ rw e ]
  has-put_all k (t ∷ ts) d =
      has-put_all k ts (put (row_of day t) d)
      ∙ ap (λ b. if b then true else contains k ts)
          (table.has-put k (row_of day t) d
            ∙ ap (λ j. if same j k then true else has k d) (key_row t))
      ∙ ground (arith, Bool-cases (same (trade_key t) k), Bool-cases (has k d))

  -- Ticks that are all there already.
  abbrev Known : List Tick → D → Type 0
  Known [] d = Unit
  Known (t ∷ ts) d = (has (trade_key t) d ≡ true) × Known ts d

  Known-again : (ts : List Tick) (d : D) → Known ts d → (fresh ts d ≡ 0) × (put_all ts d ≡ d)
  Known-again [] d h = (refl, refl)
  Known-again (t ∷ ts) d h =
      let stays : put (row_of day t) d ≡ d =
        table.conflict (row_of day t) d (rw (key_row t) (h.0)) in
      let (f, p) = Known-again ts d h.1 in (rw (h.0, stays) (omega (arith, f)), rw stays p)

  Known-contains :
      (ts us : List Tick) (d : D)
      → ((k : TradeKey) → contains k ts ≡ true → contains k us ≡ true)
      → Known ts (put_all us d)
  Known-contains [] us d h = tt
  Known-contains (t ∷ ts) us d h =
      let there : contains (trade_key t) us ≡ true =
        h (trade_key t) (rw (same_refl (trade_key t))) in
      (
        has-put_all (trade_key t) us d
            ∙ rw there (elim (Bool-cases (has (trade_key t) d)) [ inl e ↦ rw e | inr e ↦ rw e ]),
        Known-contains ts us d (λ k e. h k (ground (arith, e))),
      )

  -- On a database that works, Append succeeds, the archive then has the keys that it had and those
  -- of the ticks, and the same ticks appended again change nothing and count as stored zero times.
  pub append_idempotent :
      (ts : List Tick) (d : D)
      → let d' = (append sql day ts d).2 in
        ((append sql day ts d).1 ≡ false)
        × ((k : TradeKey) → has k d' ≡ (if has k d then true else contains k ts))
        × (append sql day ts d' ≡ (0, false, d'))
  append_idempotent ts d =
      let (none_new, same_db) = Known-again ts (put_all ts d) (Known-contains ts ts d (λ k e. e)) in
      rw (append_lem ts d) (
        refl,
        λ k. has-put_all k ts d,
        append_lem ts (put_all ts d) ∙ ap₂ (λ n e. (n, false, e)) none_new same_db,
      )

  -- `Append` as the interface `store.Appender` has it.
  abbrev pub appender : List Tick → D → Option ℕ × D
  appender ts d = let (n, e, d') = append sql day ts d in (if e then none else some n, d')

  store_all_lem : (bs : List (List Tick)) (d : D) → store_all appender bs d ≡ put_all (concat bs) d
  store_all_lem [] d = refl
  store_all_lem (b ∷ bs) d =
      rw (append_lem b d) (store_all_lem bs (put_all b d) ∙ sym (put_all-append b (concat bs) d))
    where
      put_all-append :
          (ts us : List Tick) (d : D) → put_all (ts ++ us) d ≡ put_all us (put_all ts d)
      put_all-append [] us d = refl
      put_all-append (t ∷ ts) us d = put_all-append ts us (put (row_of day t) d)

  -- The persister in front of an archive that works: once its loop has ended, the archive has the
  -- trades that it had and exactly those of the ticks received, whatever the batches and the
  -- flushes.
  pub persister_archives :
      (cfg : Config) (es : List Event) (d : D)
      → stops es ≡ true
      → (k : TradeKey)
      → has k (run appender es (new_persister cfg d)).store
        ≡ (if has k d then true else contains k (ticks_of es))
  persister_archives cfg es d stopped k =
      let p = run appender es (new_persister cfg d) in
      let (bs, stored, all, _, held) = run_lossless appender cfg d es in
      let empty : p.batch ≡ [] = subst (λ b. Left appender b p) stopped held in
      let ticks : concat bs ≡ ticks_of es =
        sym (append-nil (concat bs)) ∙ ap (λ l. concat bs ++ l) (sym empty) ∙ all in
      ap (has k) (stored ∙ store_all_lem bs d)
      ∙ has-put_all k (concat bs) d
      ∙ ap (λ l. if has k d then true else contains k l) ticks
