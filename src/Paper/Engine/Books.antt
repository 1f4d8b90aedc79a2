-- ===== src/Paper/Engine/Books.antt =====
-- `Run` of internal/consumer/paper/engine.go, on the account's book and the saved one.
use real_time_market_data_pi.Base.{
  ◌≡◌, refl, sym, ap, subst, ◌∙◌, inl, inr, Bool, true, false, Bool-cases, Option, none, some,
  Option-cases, List, [], ◌∷◌, list_eq, nat_eq, if◌then◌else◌,
}
use real_time_market_data_pi.Base.Bytes.{Str}
use real_time_market_data_pi.Base.Int.{pos, ltb_ℤ}
use real_time_market_data_pi.Base.Assoc.{lookup}
use real_time_market_data_pi.Decimal.{Decimal}
use real_time_market_data_pi.Float.{Float64}
use real_time_market_data_pi.Paper.{Book, save, restore}
use real_time_market_data_pi.Paper.Log.{IsReplay}
use real_time_market_data_pi.Paper.Replay.{act-IsReplay, mark-IsReplay}
use real_time_market_data_pi.Paper.Engine.{
  Engine, World, Event, cancelled, unsubscribed, mark_time, save_time, history_time, eval_time,
  new_tick, save_state, restore_state, record_history, await_fill, fill_signal, fill_all, evaluate,
  loop, run, last_tick, see_tick, mark_prices, prices_of,
}
use real_time_market_data_pi.Paper.Engine.File.{IsFileSystem, save_state_atomic}
use real_time_market_data_pi.Store.{is_blank}
use real_time_market_data_pi.Strategy.{Signal, Action, hold, buy, sell}

module _ (fl : Float64) {B W : Type 0} (os : World fl.F B W) (content : Str → W → Option B)
    (start : Decimal) where
  -- The account's book replays from the starting cash, and so does the book of the state file.
  pub record IsSound (e : Engine fl.F) (w : W) : Type 0 where
    pub account : IsReplay start e.acct.book
    pub file :
        (b : B) (book : Book fl.F)
        → content e.cfg.state_path w ≡ some b
        → os.decode b ≡ some book
        → IsReplay start book

  module _ (fs : IsFileSystem fl os content)
      (codec : (book : Book fl.F) (b : B) → os.encode book ≡ some b → os.decode b ≡ some book) where
    -- Where the state file is as it was.
    kept-IsSound :
        (e : Engine fl.F) (w w' : W)
        → content e.cfg.state_path w' ≡ content e.cfg.state_path w
        → IsSound e w
        → IsSound e w'
    kept-IsSound e w w' k s = record {
      account = s.account;
      file = λ b book c d. s.file b book (sym k ∙ c) d;
    }

    save-IsSound : (e : Engine fl.F) (w : W) → IsSound e w → IsSound e (save_state fl os e w)
    unfolding save_state save
    save-IsSound e w s = elim (Bool-cases (is_blank e.cfg.state_path)) [
      | inl h ↦ rw h s
      | inr h ↦ elim (save_state_atomic fl os content fs e w h) [
        | inl (_, k) ↦ kept-IsSound e w (save_state fl os e w) k s
        | inr (b, coded, stored) ↦ record {
          account = s.account;
          file = λ b' book c d.
              subst (λ (o : Option (Book fl.F)). elim o [ none ↦ Unit | some x ↦ IsReplay start x ])
                (sym (codec e.acct.book b coded)
                  ∙ ap (λ (o : Option B). elim o [ none ↦ none | some x ↦ os.decode x ])
                      (sym stored ∙ c)
                  ∙ d)
                s.account;
        }
      ]
    ]

    if-kept :
        (p : Str) (b : Bool) (w w1 : W)
        → content p w1 ≡ content p w
        → content p (if b then w1 else w) ≡ content p w
    if-kept p true w w1 h = h
    if-kept p false w w1 h = refl

    record-kept :
        (e : Engine fl.F) (w : W)
        → content e.cfg.state_path (record_history fl os e w) ≡ content e.cfg.state_path w
    unfolding record_history
    record-kept e w =
        if-kept e.cfg.state_path e.cfg.has_history w _
          (fs.record_keeps _ e.cfg.state_path (os.now w).1 ∙ fs.now_keeps e.cfg.state_path w)

    record-IsSound : (e : Engine fl.F) (w : W) → IsSound e w → IsSound e (record_history fl os e w)
    record-IsSound e w s = kept-IsSound e w (record_history fl os e w) (record-kept e w) s

    restore-IsSound :
        (e : Engine fl.F) (w : W)
        → IsSound e w
        → IsSound (restore_state fl os e w).0 (restore_state fl os e w).1
    unfolding restore_state restore
    restore-IsSound e w s = elim (Bool-cases (is_blank e.cfg.state_path)) [
      | inl h ↦ rw h s
      | inr h ↦
          rw (h, fs.reads e.cfg.state_path w)
            (elim (Option-cases (content e.cfg.state_path w)) [
              | inl c ↦ rw c s
              | inr (b, c) ↦ elim (Option-cases (os.decode b)) [
                | inl d ↦ rw (c, d) s
                | inr (book, d) ↦ rw (c, d) (record { account = s.file b book c d; file = s.file })
              ]
            ])
    ]

    await-kept :
        (e : Engine fl.F) (w : W)
        → content e.cfg.state_path (await_fill fl os e w).1 ≡ content e.cfg.state_path w
    unfolding await_fill
    await-kept e w = elim (Bool-cases (ltb_ℤ (pos 0) e.cfg.fill_latency)) [
      | inl h ↦ rw h (fs.wait_keeps e.cfg.fill_latency e.cfg.state_path w)
      | inr h ↦ rw h refl
    ]

    fill_signal-IsSound :
        (sig : Signal fl.F) (e : Engine fl.F) (w : W)
        → IsSound e w
        → IsSound (fill_signal fl os sig e w).0 (fill_signal fl os sig e w).1
    unfolding fill_signal last_tick
    fill_signal-IsSound sig e w s = elim (Option-cases (lookup sig.instrument e.last)) [
      | inl h ↦ rw (fill_signal, h) s
      | inr (t, h) ↦
          rw (fill_signal, h)
            (record {
              account = act-IsReplay fl start sig sig.action t.price (os.now w).0 e.acct s.account;
              file = (kept-IsSound e w (os.now w).1 (fs.now_keeps e.cfg.state_path w) s).file;
            })
    ]

    -- The engine and the world together.
    abbrev Both : Engine fl.F × W → Type 0
    Both p = IsSound p.0 p.1

    choose-Both :
        (act : Action) (stopped : Bool) (held waited filled : Engine fl.F × W)
        → Both held
        → Both waited
        → Both filled
        → Both (elim act [ hold ↦ held | _ ↦ elim stopped [ true ↦ waited | false ↦ filled ] ])
    choose-Both hold stopped held waited filled a b c = a
    choose-Both buy true held waited filled a b c = b
    choose-Both buy false held waited filled a b c = c
    choose-Both sell true held waited filled a b c = b
    choose-Both sell false held waited filled a b c = c

    fill_all-Both :
        (sigs : List (Signal fl.F)) (e : Engine fl.F) (w : W)
        → IsSound e w
        → Both (fill_all fl os sigs e w)
    unfolding fill_all
    fill_all-Both [] e w s = s
    fill_all-Both (sig ∷ sigs) e w s =
        let held = fill_all-Both sigs e w s in
        let waited = kept-IsSound e w (await_fill fl os e w).1 (await-kept e w) s in
        let filled =
          fill_all-Both sigs _ _ (fill_signal-IsSound sig e (await_fill fl os e w).1 waited) in
        choose-Both sig.action (await_fill fl os e w).0 _ _ _ held waited filled

    evaluate-Both : (e : Engine fl.F) (w : W) → IsSound e w → Both (evaluate fl os e w)
    unfolding evaluate
    evaluate-Both e w s =
        let asked =
          kept-IsSound e w (os.evaluate e w).1 (fs.evaluate_keeps e e.cfg.state_path w) s in
        elim (Option-cases (os.evaluate e w).0) [
          | inl h ↦ rw (evaluate, h) asked
          | inr (sigs, h) ↦ rw (evaluate, h) (fill_all-Both sigs e (os.evaluate e w).1 asked)
        ]

    loop-Both : (es : List Event) (e : Engine fl.F) (w : W) → IsSound e w → Both (loop fl os es e w)
    unfolding loop see_tick mark_prices
    loop-Both [] e w s = s
    loop-Both (cancelled ∷ es) e w s = s
    loop-Both (unsubscribed ∷ es) e w s = s
    loop-Both (new_tick t ∷ es) e w s =
        loop-Both es (see_tick t e) w (record { account = s.account; file = s.file })
    loop-Both (mark_time ∷ es) e w s = loop-Both es (mark_prices fl os e) w (record {
      account = mark-IsReplay fl start (prices_of e.last) e.acct s.account;
      file = s.file;
    })
    loop-Both (save_time ∷ es) e w s = loop-Both es e (save_state fl os e w) (save-IsSound e w s)
    loop-Both (history_time ∷ es) e w s =
        loop-Both es e (record_history fl os e w) (record-IsSound e w s)
    loop-Both (eval_time ∷ es) e w s = loop-Both es _ _ (evaluate-Both e w s)

    -- Where the files are those of an operating system, of which any operation may fail, and a
    -- written book is read back as it was: Run keeps both books sound, whatever the strategy
    -- signals, the ticks, the timers and the failures are. If the book of the account and the one
    -- of the state file replay from the starting cash before, both do when it returns, so also
    -- after any number of restarts.
    pub run-IsSound :
        (es : List Event) (e : Engine fl.F) (w : W)
        → IsSound e w
        → let (e', w') = run fl os es e w in IsSound e' w'
    unfolding run
    run-IsSound es e w s =
        let restored = restore-IsSound e w s in
        save-IsSound _ _ (loop-Both es _ _ (record-IsSound _ _ restored))
