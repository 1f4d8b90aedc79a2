-- ===== src/Paper/Engine/File.antt =====
-- `save` and `restore` of internal/consumer/paper/engine.go, on the state file.
use real_time_market_data_pi.Base.{
  ◌≡◌, ◌⊎◌, refl, sym, ap, ◌∙◌, inl, inr, Bool, true, false, ◌||◌, not, Bool-cases, Option, none,
  some, Option-cases, [], ◌∷◌, ◌++◌, same, list_eq, nat_eq, arith,
}
use real_time_market_data_pi.Base.Bytes.{Str, str}
use real_time_market_data_pi.Base.Int.{ℤ}
use real_time_market_data_pi.Float.{Float64}
use real_time_market_data_pi.Paper.{Book, save, restore}
use real_time_market_data_pi.Paper.Engine.{Engine, World, save_state, restore_state}
use real_time_market_data_pi.Store.{EquitySnapshot, is_blank}

-- The temporary file is another file.
pub tmp-other : (s : Str) → same (s ++ str ".tmp") s ≡ false
tmp-other [] = refl
tmp-other (c ∷ s) = ground (arith, tmp-other s)

module _ (fl : Float64) {B W : Type 0} (os : World fl.F B W) where
  -- POSIX files: `content` is what a reader of the path would get. An operation that answers false
  -- stands for one that failed and for one that a crash cut short: a write may then leave
  -- anything in its own file, a rename leaves its target as it was. Nothing else that the engine
  -- uses writes files.
  pub record IsFileSystem (content : Str → W → Option B) : Type 0 where
    pub makes : (p q : Str) (w : W) → content q (os.mkdir_all p w).1 ≡ content q w
    pub writes :
        (p : Str) (b : B) (w : W)
        → (os.write_file p b w).0 ≡ true
        → content p (os.write_file p b w).1 ≡ some b
    pub writes_own :
        (p q : Str) (b : B) (w : W)
        → same p q ≡ false
        → content q (os.write_file p b w).1 ≡ content q w
    pub renames :
        (p q : Str) (w : W)
        → (os.rename p q w).0 ≡ true
        → content q (os.rename p q w).1 ≡ content p w
    pub renames_not :
        (p q : Str) (w : W)
        → (os.rename p q w).0 ≡ false
        → content q (os.rename p q w).1 ≡ content q w
    pub reads : (p : Str) (w : W) → os.read_file p w ≡ (content p w, w)
    pub now_keeps : (p : Str) (w : W) → content p (os.now w).1 ≡ content p w
    pub wait_keeps : (n : ℤ) (p : Str) (w : W) → content p (os.wait n w).1 ≡ content p w
    pub evaluate_keeps :
        (e : Engine fl.F) (p : Str) (w : W) → content p (os.evaluate e w).1 ≡ content p w
    pub record_keeps :
        (s : EquitySnapshot) (p : Str) (w : W) → content p (os.record_equity s w).1 ≡ content p w

  -- Whether some step of a save fails, or a crash cuts it short.
  abbrev pub save_fails : Str → Book fl.F → W → Bool
  save_fails path book w = elim (os.encode book) [
    | none ↦ true
    | some b ↦
        let tmp = path ++ str ".tmp" in
        let (made, w1) = os.mkdir_all (os.dir_of path) w in
        let (written, w2) = os.write_file tmp b w1 in
        not made || not written || not (os.rename tmp path w2).0
  ]

  module _ (content : Str → W → Option B) (fs : IsFileSystem content) where
    -- After a save the state file is as it was, and then a step failed, or holds the book.
    pub save_state_atomic :
        (e : Engine fl.F) (w : W)
        → is_blank e.cfg.state_path ≡ false
        → ((save_fails e.cfg.state_path (save e.acct) w ≡ true)
            × (content e.cfg.state_path (save_state fl os e w) ≡ content e.cfg.state_path w))
          ⊎ ((b : B) × (os.encode (save e.acct) ≡ some b)
              × (content e.cfg.state_path (save_state fl os e w) ≡ some b))
    unfolding save_state
    save_state_atomic e w h = elim (Option-cases (os.encode (save e.acct))) [
      | inl q ↦ rw (h, save_fails, q) (inl (refl, refl))
      | inr (b, q) ↦
          let path = e.cfg.state_path in
          let tmp = path ++ str ".tmp" in
          let w1 = (os.mkdir_all (os.dir_of path) w).1 in
          let w2 = (os.write_file tmp b w1).1 in
          let same1 : content path w1 ≡ content path w = fs.makes (os.dir_of path) path w in
          let same2 : content path w2 ≡ content path w =
            fs.writes_own tmp path b w1 (tmp-other path) ∙ same1 in
          elim (Bool-cases (os.mkdir_all (os.dir_of path) w).0) [
            | inr m ↦ rw (h, save_fails, q, m) (inl (refl, same1))
            | inl m ↦ elim (Bool-cases (os.write_file tmp b w1).0) [
              | inr n ↦ rw (h, save_fails, q, m, n) (inl (refl, same2))
              | inl n ↦ elim (Bool-cases (os.rename tmp path w2).0) [
                | inr r ↦
                    rw (h, save_fails, q, m, n, r)
                      (inl (refl, fs.renames_not tmp path w2 r ∙ same2))
                | inl r ↦
                    rw (h, save_fails, q, m, n, r)
                      (inr (b, refl, fs.renames tmp path w2 r ∙ fs.writes tmp b w1 n))
              ]
            ]
          ]
    ]

    -- What a restart reads.
    restore_state_lem :
        (e : Engine fl.F) (w : W)
        → is_blank e.cfg.state_path ≡ false
        → (restore_state fl os e w).0 ≡ elim (content e.cfg.state_path w) [
          | none ↦ e
          | some b ↦ record e { acct = (restore (os.decode b) e.acct).1 }
        ]
    unfolding restore_state
    restore_state_lem e w h = rw (h, fs.reads e.cfg.state_path w)

    -- Where any step of a save may fail or be cut short by a crash, and a written book is read
    -- back as it was: a restart with the same state file, where one is set, restores the book of
    -- the last save, whole, or, where a step of the save failed, what it would have restored
    -- without it.
    pub save_restored :
        (e e0 : Engine fl.F) (w : W)
        → is_blank e.cfg.state_path ≡ false
        → e0.cfg.state_path ≡ e.cfg.state_path
        → ((book : Book fl.F) (b : B) → os.encode book ≡ some b → os.decode b ≡ some book)
        → ((save_fails e.cfg.state_path e.acct.book w ≡ true)
            × ((restore_state fl os e0 (save_state fl os e w)).0 ≡ (restore_state fl os e0 w).0))
          ⊎ ((restore_state fl os e0 (save_state fl os e w)).0
              ≡ record e0 { acct = record e0.acct { book = e.acct.book } })
    unfolding save restore
    save_restored e e0 w h p codec =
        let path = e.cfg.state_path in
        let h0 : is_blank e0.cfg.state_path ≡ false = ap is_blank p ∙ h in
        let after = restore_state_lem e0 (save_state fl os e w) h0 in
        let load : Option B → Engine fl.F = λ c. elim c [
          | none ↦ e0
          | some b ↦ record e0 { acct = (restore (os.decode b) e0.acct).1 }
        ] in
        elim (save_state_atomic e w h) [
          | inl (failed, kept) ↦ inl (
            failed,
            after
                ∙ ap load (
                    ap (λ q. content q (save_state fl os e w)) p
                    ∙ kept
                    ∙ ap (λ q. content q w) (sym p))
                ∙ sym (restore_state_lem e0 w h0),
          )
          | inr (b, coded, stored) ↦ inr (
              after
              ∙ ap load (ap (λ q. content q (save_state fl os e w)) p ∙ stored)
              ∙ ap (λ d. record e0 { acct = (restore d e0.acct).1 }) (codec e.acct.book b coded))
        ]
