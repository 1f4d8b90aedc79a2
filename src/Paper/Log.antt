-- ===== src/Paper/Log.antt =====
-- The trade log of internal/consumer/paper/paper.go and what it says of the book.
use real_time_market_data_pi.Base.{
  ℕ, suc, ◌≡◌, refl, subst, sym, ap, ◌∙◌, true, Option, none, some, List, [], ◌∷◌, ◌++◌,
  if◌then◌else◌, same, list_eq, nat_eq, list_beq_iff,
}
use real_time_market_data_pi.Base.Bytes.{Str}
use real_time_market_data_pi.Base.Assoc.{lookup}
use real_time_market_data_pi.Decimal.{Decimal, zero_decimal, is_negative}
use real_time_market_data_pi.Decimal.Arith.{add, sub}
use real_time_market_data_pi.Strategy.{hold, buy, sell}
use real_time_market_data_pi.Paper.{Fill, Position, Book}

-- The running totals of a book.
pub record Totals : Type 0 where
  pub cash : Decimal
  pub fees : Decimal
  pub realized : Decimal
  pub wins : ℕ
  pub losses : ℕ

abbrev pub totals_of : {F : Type 0} → Book F → Totals
totals_of b = record {
  cash = b.cash;
  fees = b.fees;
  realized = b.realized;
  wins = b.wins;
  losses = b.losses;
}

-- What one fill does to them: an entry pays notional and fee, an exit earns notional less fee and
-- is a loss where its profit is negative.
abbrev pub settle : Totals → Fill → Totals
settle t f = elim f.side [
  | hold ↦ t
  | buy ↦ record t { cash = sub t.cash (add f.notional f.fee); fees = add t.fees f.fee }
  | sell ↦ record t {
    cash = add t.cash (sub f.notional f.fee);
    fees = add t.fees f.fee;
    realized = add t.realized f.realized_pl;
    wins = if is_negative f.realized_pl then t.wins else suc t.wins;
    losses = if is_negative f.realized_pl then suc t.losses else t.losses;
  }
]

abbrev pub replay : List Fill → Totals → Totals
replay [] t = t
replay (f ∷ fs) t = replay fs (settle t f)

replay-snoc :
    (fs : List Fill) (f : Fill) (t : Totals) → replay (fs ++ (f ∷ [])) t ≡ settle (replay fs t) f
replay-snoc [] f t = refl
replay-snoc (g ∷ fs) f t = replay-snoc fs f (settle t g)

-- The quantity held of one instrument after a fill.
abbrev pub holding : Str → Option Decimal → Fill → Option Decimal
holding id h f =
    if same f.instrument id
    then elim f.side [ hold ↦ h | buy ↦ some f.quantity | sell ↦ none ]
    else h

abbrev pub held_after : Str → List Fill → Option Decimal → Option Decimal
held_after id [] h = h
held_after id (f ∷ fs) h = held_after id fs (holding id h f)

held_after-snoc :
    (id : Str) (fs : List Fill) (f : Fill) (h : Option Decimal)
    → held_after id (fs ++ (f ∷ [])) h ≡ holding id (held_after id fs h) f
held_after-snoc id [] f h = refl
held_after-snoc id (g ∷ fs) f h = held_after-snoc id fs f (holding id h g)

-- Entries and exits of an instrument alternate, and an exit is of the whole quantity held.
abbrev IsLegal : Option Decimal → Fill → Type 0
IsLegal h f = elim f.side [ hold ↦ Unit | buy ↦ h ≡ none | sell ↦ h ≡ some f.quantity ]

abbrev pub IsOrderly : Str → List Fill → Option Decimal → Type 0
IsOrderly id [] h = Unit
IsOrderly id (f ∷ fs) h =
    (same f.instrument id ≡ true → IsLegal h f) × IsOrderly id fs (holding id h f)

IsOrderly-snoc :
    (id : Str) (fs : List Fill) (f : Fill) (h : Option Decimal)
    → IsOrderly id fs h
    → (same f.instrument id ≡ true → IsLegal (held_after id fs h) f)
    → IsOrderly id (fs ++ (f ∷ [])) h
IsOrderly-snoc id [] f h o l = (l, tt)
IsOrderly-snoc id (g ∷ fs) f h o l = (o.0, IsOrderly-snoc id fs f (holding id h g) o.1 l)

abbrev pub quantity_of : Option Position → Option Decimal
quantity_of none = none
quantity_of (some p) = some p.quantity

pub record IsReplay {F : Type 0} (start : Decimal) (b : Book F) : Type 0 where
  pub totals :
      totals_of b
      ≡ replay b.fills (record {
        cash = start;
        fees = zero_decimal;
        realized = zero_decimal;
        wins = 0;
        losses = 0;
      })
  pub held : (id : Str) → quantity_of (lookup id b.positions) ≡ held_after id b.fills none
  pub orderly : (id : Str) → IsOrderly id b.fills none

-- One more fill, with what it does to the totals and to the positions.
pub snoc-IsReplay :
    {F : Type 0} (start : Decimal) (b b' : Book F) (f : Fill)
    → IsReplay start b
    → b'.fills ≡ b.fills ++ (f ∷ [])
    → totals_of b' ≡ settle (totals_of b) f
    → ((id : Str)
        → quantity_of (lookup id b'.positions) ≡ holding id (quantity_of (lookup id b.positions)) f)
    → IsLegal (quantity_of (lookup f.instrument b.positions)) f
    → IsReplay start b'
snoc-IsReplay start b b' f r more tot pos legal =
    let zero_totals : Totals = record {
      cash = start;
      fees = zero_decimal;
      realized = zero_decimal;
      wins = 0;
      losses = 0;
    } in
    record {
      totals =
          tot
          ∙ ap (λ t. settle t f) r.totals
          ∙ sym (replay-snoc b.fills f zero_totals)
          ∙ ap (λ fs. replay fs zero_totals) (sym more);
      held = λ id.
          pos id
          ∙ ap (λ h. holding id h f) (r.held id)
          ∙ sym (held_after-snoc id b.fills f none)
          ∙ ap (λ fs. held_after id fs none) (sym more);
      orderly = λ id.
          subst (λ fs. IsOrderly id fs none) (sym more)
            (IsOrderly-snoc id b.fills f none (r.orderly id) (λ e.
              subst (λ h. IsLegal h f) (r.held id)
                (subst (λ i. IsLegal (quantity_of (lookup i b.positions)) f)
                  ((list_beq_iff f.instrument id).0 e) legal)));
    }
