-- ===== src/Store/Paging.antt =====
-- `Ticks` of internal/store/sqlite/sqlite.go, page after page.
use real_time_market_data_pi.Base.{
  ℕ, zero, suc, ◌+◌, ◌≤◌, ◌<◌, ◌≡◌, refl, sym, ap, ap₂, subst, ◌∙◌, inl, inr, Bool, true, false,
  ◌&&◌, ◌||◌, Bool-cases, Option, none, some, List, [], ◌∷◌, ◌++◌, append_assoc, map, length, take,
  take_all, length-take, All, ltb, ltb→lt, arith,
}
use real_time_market_data_pi.Base.Int.{ℤ, pos, negsuc, ◌+ℤ◌, ◌-ℤ◌}
use real_time_market_data_pi.Base.Int64.{IsInt64, wrap, residue}
use real_time_market_data_pi.Store.{Cursor, Query, is_zero_cursor, zero_cursor, normalize_limit}
use real_time_market_data_pi.Store.Rows.{TickRow, scan_tick, unix_nano, of_unix_nano}
use real_time_market_data_pi.Store.Sqlite.{
  Sql, selects, beyond, ticks, page_of, last_cursor, key_of, cursor_key, later,
}
use real_time_market_data_pi.Store.Order.{
  Ordered, keep, keep-keep, All-split, All-intro, All-keep, keep-All, cut_at, keep-later,
}
use real_time_market_data_pi.Tick.{Tick}

-- `SELECT … WHERE … ORDER BY … LIMIT`: the first rows that meet the condition, of the table in
-- either order. The time column holds 64-bit integers.
pub record IsQueried {D : Type 0} (sql : Sql D) (d : D) (rows : Bool → List TickRow) : Type 0 where
  pub answers :
      (p : TickRow → Bool) (desc : Bool) (n : ℕ)
      → sql.select_ticks p desc n d ≡ some (take n (keep p (rows desc)))
  pub int_columns : (desc : Bool) → All (λ r. IsInt64 r.event_ns) (rows desc)

abbrev pub cursor_of : TickRow → Cursor
cursor_of r = record { event_time_ns = r.event_ns; trade_id = r.trade_id }

unix_nano-of_unix_nano : (z : ℤ) → IsInt64 z → unix_nano (of_unix_nano z) ≡ z
unfolding unix_nano of_unix_nano wrap residue ◌-ℤ◌ ◌+ℤ◌
unix_nano-of_unix_nano (pos n) h = ground arith
unix_nano-of_unix_nano (negsuc n) h = ground arith

-- The limits are positive.
normalize_limit_pos : (n : ℤ) → 0 < normalize_limit n
unfolding normalize_limit
normalize_limit_pos (pos n) = ground arith
normalize_limit_pos (negsuc n) = ground arith

module _ {D : Type 0} (sql : Sql D) where
  -- A reader that follows the cursors: the ticks of all pages; `none` on an error, or where the
  -- pages outnumber the fuel.
  unfoldable pub all_pages : ℕ → Query → D → Option (List Tick)
  all_pages zero q d = none
  all_pages (suc fuel) q d = elim (ticks sql q d) [
    | none ↦ none
    | some p ↦ elim p.has_more [
      | false ↦ some p.ticks
      | true ↦ elim (all_pages fuel (record q { cursor = p.next_cursor }) d) [
        | none ↦ none
        | some rest ↦ some (p.ticks ++ rest)
      ]
    ]
  ]

length-map {ℓ κ} :
    {A : Type ℓ} {B : Type κ} (f : A → B) (xs : List A) → length (map f xs) ≡ length xs
length-map f [] = refl
length-map f (x ∷ xs) = ap suc (length-map f xs)

take-map {ℓ κ} :
    {A : Type ℓ} {B : Type κ} (f : A → B) (n : ℕ) (xs : List A)
    → take n (map f xs) ≡ map f (take n xs)
take-map f zero xs = refl
take-map f (suc n) [] = refl
take-map f (suc n) (x ∷ xs) = ap (λ l. f x ∷ l) (take-map f n xs)

take-take {ℓ} : {A : Type ℓ} (n : ℕ) (xs : List A) → take n (take (suc n) xs) ≡ take n xs
take-take zero xs = refl
take-take (suc n) [] = refl
take-take (suc n) (x ∷ xs) = ap (λ l. x ∷ l) (take-take n xs)

map-append {ℓ κ} :
    {A : Type ℓ} {B : Type κ} (f : A → B) (xs ys : List A) → map f (xs ++ ys) ≡ map f xs ++ map f ys
map-append f [] ys = refl
map-append f (x ∷ xs) ys = ap (λ l. f x ∷ l) (map-append f xs ys)

regroup {ℓ} :
    {A : Type ℓ} (p a b : List A) (x : A) → (p ++ a) ++ (x ∷ b) ≡ (p ++ (a ++ (x ∷ []))) ++ b
regroup p a b x =
    append_assoc p a (x ∷ b)
    ∙ ap (λ l. p ++ l) (sym (append_assoc a (x ∷ []) b))
    ∙ sym (append_assoc p (a ++ (x ∷ [])) b)

-- The cursor after some ticks is the key of the last one's row.
last_cursor-map :
    (a : List TickRow) (x : TickRow)
    → IsInt64 x.event_ns
    → last_cursor (map scan_tick (a ++ (x ∷ []))) ≡ cursor_of x
unfolding scan_tick
last_cursor-map [] x h =
    ap (λ z. record { event_time_ns = z; trade_id = x.trade_id })
      (unix_nano-of_unix_nano x.event_ns h)
last_cursor-map (r ∷ []) x h = last_cursor-map [] x h
last_cursor-map (r ∷ s ∷ a) x h = last_cursor-map (s ∷ a) x h

page_of-last :
    (limit : ℕ) (rs : List TickRow)
    → length rs ≤ limit
    → page_of limit rs
      ≡ record { ticks = map scan_tick rs; next_cursor = zero_cursor; has_more = false }
unfolding page_of
page_of-last limit rs h =
    let none_left : ltb limit (length (map scan_tick rs)) ≡ false =
      ground (arith, length-map scan_tick rs) in
    rw none_left

page_of-more :
    (limit : ℕ) (rs : List TickRow)
    → limit < length rs
    → page_of limit rs ≡ record {
      ticks = map scan_tick (take limit rs);
      next_cursor = last_cursor (map scan_tick (take limit rs));
      has_more = true;
    }
unfolding page_of
page_of-more limit rs h =
    let more : ltb limit (length (map scan_tick rs)) ≡ true =
      ground (arith, length-map scan_tick rs) in
    rw (more, take-map scan_tick limit rs)

module _ {D : Type 0} (sql : Sql D) (d : D) (rows : Bool → List TickRow)
    (db : IsQueried sql d rows) where
  -- What a query has left to show.
  abbrev left : Query → List TickRow
  left q = keep (λ r. selects q r && beyond q r) (rows q.descending)

  fetched :
      (q : Query)
      → ticks sql q d
        ≡ some (page_of (normalize_limit q.limit) (take (suc (normalize_limit q.limit)) (left q)))
  unfolding ticks
  fetched q =
      let n = normalize_limit q.limit in
      rw (db.answers (λ r. selects q r && beyond q r) q.descending (n + 1), ticks)
        (ap (λ k. some (page_of n (take k (left q)))) {x = n + 1} {y = suc n} (omega arith))

  -- The last page.
  ticks_last :
      (q : Query)
      → length (left q) ≤ normalize_limit q.limit
      → ticks sql q d
        ≡ some
            (record { ticks = map scan_tick (left q); next_cursor = zero_cursor; has_more = false })
  ticks_last q h =
      let n = normalize_limit q.limit in
      fetched q
      ∙ ap (λ rs. some (page_of n rs)) (take_all (suc n) (left q) (omega arith))
      ∙ ap some (page_of-last n (left q) h)

  ticks_more :
      (q : Query)
      → normalize_limit q.limit < length (left q)
      → ticks sql q d
        ≡ some (record {
          ticks = map scan_tick (take (normalize_limit q.limit) (left q));
          next_cursor = last_cursor (map scan_tick (take (normalize_limit q.limit) (left q)));
          has_more = true;
        })
  ticks_more q h =
      let n = normalize_limit q.limit in
      fetched q
      ∙ ap some
          (page_of-more n (take (suc n) (left q)) (omega (arith, length-take (suc n) (left q))))
      ∙ ap
          (λ rs. some (record {
            ticks = map scan_tick rs;
            next_cursor = last_cursor (map scan_tick rs);
            has_more = true;
          }))
          (take-take n (left q))

  -- The rows of a query, whatever its cursor.
  abbrev chosen : Query → List TickRow
  chosen q = keep (selects q) (rows q.descending)

  -- With the cursor at a row, what is left are the rows after it.
  left_after :
      (q : Query) (a : List TickRow) (x : TickRow) (b : List TickRow)
      → chosen q ≡ a ++ (x ∷ b)
      → Ordered q.descending (a ++ (x ∷ b))
      → is_zero_cursor (cursor_of x) ≡ false
      → left (record q { cursor = cursor_of x }) ≡ b
  unfolding beyond selects
  left_after q a x b e o nz =
      ap
        (λ z.
          keep (λ r. selects q r && (z || later q.descending (key_of x) (key_of r)))
            (rows q.descending))
        nz
      ∙ keep-keep (selects q) (λ r. later q.descending (key_of x) (key_of r)) (rows q.descending)
      ∙ ap (keep (λ r. later q.descending (key_of x) (key_of r))) e
      ∙ keep-later q.descending a x b o

  -- The pages from a query on, where what it has left is the end of the rows chosen.
  pages_from :
      (fuel : ℕ) (q : Query) (before : List TickRow)
      → chosen q ≡ before ++ left q
      → Ordered q.descending (chosen q)
      → All (λ r. is_zero_cursor (cursor_of r) ≡ false) (chosen q)
      → All (λ r. IsInt64 r.event_ns) (chosen q)
      → length (left q) < fuel
      → all_pages sql fuel q d ≡ some (map scan_tick (left q))
  unfolding all_pages selects
  pages_from zero q before e o nz int h = elim h [ ]
  pages_from (suc fuel) q before e o nz int h =
      let n = normalize_limit q.limit in
      elim (Bool-cases (ltb n (length (left q)))) [
        | inr fits ↦ rw (all_pages, ticks_last q (ground (arith, fits)))
        | inl more ↦
            let big = ltb→lt n (length (left q)) more in
            let (a, x, b, whole, first, short) =
              cut_at n (left q) big (normalize_limit_pos q.limit) in
            let at : chosen q ≡ (before ++ a) ++ (x ∷ b) =
              e ∙ ap (λ l. before ++ l) whole ∙ sym (append_assoc before a (x ∷ b)) in
            let nonzero = (All-split _ (before ++ a) (x ∷ b) (subst (All _) at nz)).1.0 in
            let small =
              (All-split _ (before ++ a) (x ∷ b)
                (subst (All (λ r. IsInt64 r.event_ns)) at int)).1.0 in
            let q' : Query = record q { cursor = cursor_of x } in
            let rest : left q' ≡ b =
              left_after q (before ++ a) x b at (subst (Ordered q.descending) at o) nonzero in
            let ih =
              pages_from fuel q' (before ++ (a ++ (x ∷ [])))
                (at ∙ regroup before a b x ∙ ap (λ l. (before ++ (a ++ (x ∷ []))) ++ l) (sym rest))
                o nz int (omega (arith, ap length rest, short, h)) in
            let shown : ticks sql q d
                ≡ some (record {
                  ticks = map scan_tick (take n (left q));
                  next_cursor = cursor_of x;
                  has_more = true;
                }) =
              ticks_more q big
              ∙ ap
                  (λ c. some (record {
                    ticks = map scan_tick (take n (left q));
                    next_cursor = c;
                    has_more = true;
                  }))
                  (ap (λ l. last_cursor (map scan_tick l)) first ∙ last_cursor-map a x small) in
            rw (all_pages, shown, ih)
              (ap some (
                ap₂ (λ u v. map scan_tick u ++ map scan_tick v) first rest
                ∙ sym (map-append scan_tick (a ++ (x ∷ [])) b)
                ∙ ap (map scan_tick) (append_assoc a (x ∷ []) b ∙ sym whole)))
      ]

  -- Where the database answers each query from a table that stays as it is, in which times are
  -- int64 numbers: a reader that starts a query with no cursor and follows the cursors of its
  -- pages gets every tick that the query selects, once and in order, whatever the limit, where the
  -- keys of the rows selected are strictly ordered and none is the zero cursor, and there is fuel
  -- for more pages than rows.
  pub all_pages_lem :
      (fuel : ℕ) (q : Query)
      → is_zero_cursor q.cursor ≡ true
      → Ordered q.descending (keep (selects q) (rows q.descending))
      → All (λ r. is_zero_cursor (cursor_of r) ≡ false) (keep (selects q) (rows q.descending))
      → length (keep (selects q) (rows q.descending)) < fuel
      → all_pages sql fuel q d ≡ some (map scan_tick (keep (selects q) (rows q.descending)))
  unfolding beyond
  all_pages_lem fuel q z o nz h =
      let whole : left q ≡ chosen q =
        ap
          (λ c.
            keep (λ r. selects q r && (c || later q.descending (cursor_key q.cursor) (key_of r)))
              (rows q.descending))
          z
        ∙ keep-keep (selects q) (λ r. true) (rows q.descending)
        ∙ keep-All (λ r. true) (chosen q) (All-intro _ (chosen q) (λ r. refl)) in
      pages_from fuel q [] (sym whole) o nz
        (All-keep _ (selects q) (rows q.descending) (db.int_columns q.descending))
        (omega (arith, ap length whole, h))
      ∙ ap (λ l. some (map scan_tick l)) whole
