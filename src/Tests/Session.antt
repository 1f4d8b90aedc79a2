-- ===== src/Tests/Session.antt =====
-- Examples for the paper engine: books in files of a list.
use real_time_market_data_pi.Base.{
  ◌≡◌, ◌⊎◌, refl, ◌∙◌, Bool, true, false, Option, none, some, List, [], ◌∷◌, ap, sym, list_eq,
  nat_eq, if◌then◌else◌,
}
use real_time_market_data_pi.Base.Assoc.{Assoc, lookup, insert, lookup-insert, lookup-insert_self}
use real_time_market_data_pi.Base.Bytes.{Str, str}
use real_time_market_data_pi.Base.Int.{ℤ, pos}
use real_time_market_data_pi.Paper.{Book}
use real_time_market_data_pi.Paper.Trade.{default_config, new_account}
use real_time_market_data_pi.Paper.Engine.{
  Engine, World, default_engine_config, new_engine, Event, new_tick, mark_time, save_time,
  history_time, eval_time, cancelled, run, evaluate, see_tick, save_state, restore_state,
}
use real_time_market_data_pi.Paper.Engine.File.{IsFileSystem, save_fails, save_restored}
use real_time_market_data_pi.Paper.Engine.Books.{IsSound, run-IsSound}
use real_time_market_data_pi.Paper.Engine.Prices.{IsFilled, evaluate-IsFilled}
use real_time_market_data_pi.Paper.Log.{IsReplay}
use real_time_market_data_pi.Strategy.{sell}
use real_time_market_data_pi.Tick.{venue_binance}
use real_time_market_data_pi.Tests.{btc, trade}
use real_time_market_data_pi.Tests.Flow.{fixed, buy_btc}

abbrev Files : Type 0
Files = Assoc Str (Book ℤ)

abbrev put : Str → Files → Option (Book ℤ) → Bool × Files
put q w none = (false, w)
put q w (some b) = (true, insert q b w)

put_done :
    (q : Str) (w : Files) (o : Option (Book ℤ)) → (put q w o).0 ≡ true → lookup q (put q w o).1 ≡ o
put_done q w none h = cc
put_done q w (some b) h = lookup-insert_self q b w

put_failed :
    (q : Str) (w : Files) (o : Option (Book ℤ))
    → (put q w o).0 ≡ false
    → lookup q (put q w o).1 ≡ lookup q w
put_failed q w none h = refl
put_failed q w (some b) h = cc

-- A strategy that buys and sells, and files that hold books.
abbrev world : World ℤ (Book ℤ) Files
world = record {
  now = λ w. (5, w);
  wait = λ n w. (false, w);
  strategy_name = str "s";
  evaluate = λ e w. (some (buy_btc ∷ record buy_btc { action = sell } ∷ []), w);
  record_equity = λ s w. (false, w);
  encode = λ b. some b;
  decode = λ b. some b;
  dir_of = λ p. [];
  mkdir_all = λ p w. (true, w);
  write_file = λ p b w. (true, insert p b w);
  rename = λ p q w. put q w (lookup p w);
  read_file = λ p w. (lookup p w, w);
}

world-IsFileSystem : IsFileSystem fixed world (λ p w. lookup p w)
world-IsFileSystem = record {
  makes = λ p q w. refl;
  writes = λ p b w h. lookup-insert_self p b w;
  writes_own = λ p q b w h. lookup-insert p q b w ∙ ap (λ c. if c then some b else lookup q w) h;
  renames = λ p q w h. put_done q w (lookup p w) h;
  renames_not = λ p q w h. put_failed q w (lookup p w) h;
  reads = λ p w. refl;
  now_keeps = λ p w. refl;
  wait_keeps = λ n p w. refl;
  evaluate_keeps = λ e p w. refl;
  record_keeps = λ s p w. refl;
}

abbrev engine : Engine ℤ
engine = see_tick (trade btc 1 (pos 10_000)) (
    new_engine (record default_engine_config { state_path = str "a" })
      (new_account fixed (default_config fixed)) venue_binance (btc ∷ []))

no_file : (b book : Book ℤ) → none ≡ some b → IsReplay engine.acct.cfg.starting_cash book
no_file b book c = cc

start-IsSound : IsSound fixed world (λ p w. lookup p w) engine.acct.cfg.starting_cash engine []
unfolding see_tick new_engine new_account
start-IsSound = record {
  account = record { totals = refl; held = λ id. refl; orderly = λ id. tt };
  file = λ b book c d. no_file b book c;
}

abbrev events : List Event
events =
    new_tick (trade btc 2 (pos 10_050))
    ∷ eval_time
    ∷ mark_time
    ∷ save_time
    ∷ history_time
    ∷ cancelled
    ∷ []

run-IsSound_example :
    let (e', w') = run fixed world events engine [] in
    IsSound fixed world (λ p w. lookup p w) engine.acct.cfg.starting_cash e' w'
run-IsSound_example =
    run-IsSound fixed world (λ p w. lookup p w) engine.acct.cfg.starting_cash world-IsFileSystem
      (λ book b h. sym h) events engine [] start-IsSound

evaluate-IsFilled_example : IsFilled fixed world engine (evaluate fixed world engine []).0
evaluate-IsFilled_example = evaluate-IsFilled fixed world engine []

-- The engine after its evaluation, and one that starts with its file.
abbrev traded : Engine ℤ
traded = (evaluate fixed world engine []).0

save_restored_example :
    ((save_fails fixed world (str "a") traded.acct.book [] ≡ true)
      × ((restore_state fixed world engine (save_state fixed world traded [])).0
          ≡ (restore_state fixed world engine []).0))
    ⊎ ((restore_state fixed world engine (save_state fixed world traded [])).0
        ≡ record engine { acct = record engine.acct { book = traded.acct.book } })
unfolding see_tick new_engine evaluate
save_restored_example =
    save_restored fixed world (λ p w. lookup p w) world-IsFileSystem traded engine [] refl refl
      (λ book b h. sym h)
