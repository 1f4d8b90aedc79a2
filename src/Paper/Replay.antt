-- ===== src/Paper/Replay.antt =====
-- `Apply`, `Mark` and the saved book of internal/consumer/paper/paper.go, on the trade log.
use real_time_market_data_pi.Base.{
  ◌≡◌, refl, ap, ◌∙◌, inl, inr, not, ◌||◌, Bool-cases, none, some, Option-cases, List, [], ◌∷◌,
  same, list_eq, nat_eq,
}
use real_time_market_data_pi.Base.Bytes.{Str}
use real_time_market_data_pi.Base.Assoc.{Assoc, lookup, lookup-insert, lookup-erase}
use real_time_market_data_pi.Decimal.{Decimal, is_zero, is_negative}
use real_time_market_data_pi.Decimal.Arith.{add}
use real_time_market_data_pi.Float.{Float64}
use real_time_market_data_pi.Strategy.{Action, hold, buy, sell, Signal}
use real_time_market_data_pi.Tick.{Time}
use real_time_market_data_pi.Paper.{Config, Position, Account, exceeds, record_fill, save, restore}
use real_time_market_data_pi.Paper.Trade.{
  new_account, Entry, entry, open_position, apply_buy, close_position, apply_sell, apply, positive,
}
use real_time_market_data_pi.Paper.Report.{mark}
use real_time_market_data_pi.Paper.Log.{quantity_of, IsReplay, snoc-IsReplay}

module _ (fl : Float64) (start : Decimal) where
  open-IsReplay :
      (sig : Signal fl.F) (now : Time) (e : Entry fl) (a : Account fl.F)
      → lookup sig.instrument a.book.positions ≡ none
      → e.total ≡ add e.notional e.fee
      → IsReplay start a.book
      → IsReplay start (open_position fl sig now e a).1.book
  unfolding open_position record_fill
  open-IsReplay sig now e a free paid r =
      snoc-IsReplay start a.book _ _ r refl (rw paid refl)
        (λ id.
          ap quantity_of (lookup-insert sig.instrument id _ a.book.positions)
          ∙ elim (Bool-cases (same sig.instrument id)) [ inl q ↦ rw q refl | inr q ↦ rw q refl ])
        (rw free refl)

  close-IsReplay :
      (sig : Signal fl.F) (ref_price : Decimal) (now : Time) (p : Position) (a : Account fl.F)
      → lookup sig.instrument a.book.positions ≡ some p
      → IsReplay start a.book
      → IsReplay start (close_position fl sig ref_price now p a).1.book
  unfolding close_position record_fill
  close-IsReplay sig ref_price now p a found r =
      snoc-IsReplay start a.book _ _ r refl refl
        (λ id.
          ap quantity_of (lookup-erase sig.instrument id a.book.positions)
          ∙ elim (Bool-cases (same sig.instrument id)) [ inl q ↦ rw q refl | inr q ↦ rw q refl ])
        (rw found refl)

  buy-IsReplay :
      (sig : Signal fl.F) (ref_price : Decimal) (now : Time) (a : Account fl.F)
      → IsReplay start a.book
      → IsReplay start (apply_buy fl sig ref_price now a).1.book
  unfolding apply_buy entry
  buy-IsReplay sig ref_price now a r =
      elim (Option-cases (lookup sig.instrument a.book.positions)) [
        | inr (_, found) ↦ rw (apply_buy, found) r
        | inl free ↦
            let e = entry fl sig ref_price a in
            elim (Bool-cases (
              not (positive fl e.budget)
              || not (positive fl e.qty)
              || exceeds e.total a.book.cash)) [
                | inl q ↦ rw (apply_buy, free, q) r
                | inr q ↦ rw (apply_buy, free, q) (open-IsReplay sig now e a free refl r)
              ]
      ]

  sell-IsReplay :
      (sig : Signal fl.F) (ref_price : Decimal) (now : Time) (a : Account fl.F)
      → IsReplay start a.book
      → IsReplay start (apply_sell fl sig ref_price now a).1.book
  unfolding apply_sell
  sell-IsReplay sig ref_price now a r =
      elim (Option-cases (lookup sig.instrument a.book.positions)) [
        | inl free ↦ rw (apply_sell, free) r
        | inr (p, found) ↦ rw (apply_sell, found) (close-IsReplay sig ref_price now p a found r)
      ]

  pub act-IsReplay :
      (sig : Signal fl.F) (act : Action) (ref_price : Decimal) (now : Time) (a : Account fl.F)
      → IsReplay start a.book
      → IsReplay start (apply fl (record sig { action = act }) ref_price now a).1.book
  unfolding apply
  act-IsReplay sig hold ref_price now a r =
      elim (Bool-cases (is_zero ref_price || is_negative ref_price)) [
        | inl q ↦ rw q r
        | inr q ↦ rw q r
      ]
  act-IsReplay sig buy ref_price now a r =
      elim (Bool-cases (is_zero ref_price || is_negative ref_price)) [
        | inl q ↦ rw q r
        | inr q ↦ rw q (buy-IsReplay (record sig { action = buy }) ref_price now a r)
      ]
  act-IsReplay sig sell ref_price now a r =
      elim (Bool-cases (is_zero ref_price || is_negative ref_price)) [
        | inl q ↦ rw q r
        | inr q ↦ rw q (sell-IsReplay (record sig { action = sell }) ref_price now a r)
      ]

  pub mark-IsReplay :
      (prices : Assoc Str Decimal) (a : Account fl.F)
      → IsReplay start a.book
      → IsReplay start (mark fl prices a).book
  unfolding mark
  mark-IsReplay prices a r = record { totals = r.totals; held = r.held; orderly = r.orderly }

-- What is done to an account; `restart` saves its book and restores it into a new account, of any
-- configuration.
pub data Step (F : Type 0) : Type 0 where
  signal : Signal F → Decimal → Time → Step F
  prices : Assoc Str Decimal → Step F
  restart : Config F → Step F

module _ (fl : Float64) where
  unfoldable pub step : Step fl.F → Account fl.F → Account fl.F
  step (signal sig ref_price now) a = (apply fl sig ref_price now a).1
  step (prices ps) a = mark fl ps a
  step (restart cfg) a = (restore (some (save a)) (new_account fl cfg)).1

  unfoldable pub steps : List (Step fl.F) → Account fl.F → Account fl.F
  steps [] a = a
  steps (x ∷ xs) a = steps xs (step x a)

  steps_from :
      (start : Decimal) (xs : List (Step fl.F)) (a : Account fl.F)
      → IsReplay start a.book
      → IsReplay start (steps xs a).book
  unfolding step steps restore save
  steps_from start [] a r = r
  steps_from start (signal sig ref_price now ∷ xs) a r =
      steps_from start xs _ (act-IsReplay fl start sig sig.action ref_price now a r)
  steps_from start (prices ps ∷ xs) a r = steps_from start xs _ (mark-IsReplay fl start ps a r)
  steps_from start (restart cfg ∷ xs) a r = steps_from start xs (step (restart cfg) a) r

  -- After any signals, marks and restarts of a new account, over any float arithmetic, where a
  -- restart saves the book and restores it into another new account, of any configuration,
  -- replaying its fills from the first starting cash gives its cash, fees, profit, wins and losses
  -- and its holdings, and entries and exits of an instrument alternate, an exit being of all that
  -- was held.
  pub steps-IsReplay :
      (cfg : Config fl.F) (xs : List (Step fl.F))
      → let a = new_account fl cfg in IsReplay a.cfg.starting_cash (steps xs a).book
  unfolding new_account
  steps-IsReplay cfg xs =
      let a = new_account fl cfg in
      steps_from a.cfg.starting_cash xs a
        (record { totals = refl; held = λ id. refl; orderly = λ id. tt })
