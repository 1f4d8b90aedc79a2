-- ===== src/Base/Text.antt =====
-- Go's package `strings` on ASCII text, which symbols and commands are.
use Prim.Native.Nat.{ℕ, ◌+◌, ◌-◌}
use mathlib.Core.Bool.{Bool, true, ◌&&◌, ◌||◌}
use mathlib.Core.List.{List, [], ◌∷◌, map}
use real_time_market_data_pi.Base.Bytes.{Str}
use real_time_market_data_pi.Base.Eq.{same, list_eq, nat_eq}
use real_time_market_data_pi.Base.Tests.{◌==◌, leb, if◌then◌else◌}

abbrev lower_byte : ℕ → ℕ
lower_byte c = if leb b'A' c && leb c b'Z' then c + 32 else c

abbrev upper_byte : ℕ → ℕ
upper_byte c = if leb b'a' c && leb c b'z' then c - 32 else c

-- `ToLower`, `ToUpper` and `EqualFold`, on ASCII text.
abbrev pub to_lower : Str → Str
to_lower s = map lower_byte s

abbrev pub to_upper : Str → Str
to_upper s = map upper_byte s

-- What `ToUpper` and `ToLower` of Go make of a text that is not all ASCII.
pub record Unicode : Type 0 where
  pub upper : Str → Str
  pub lower : Str → Str

abbrev pub is_ascii : Str → Bool
is_ascii [] = true
is_ascii (c ∷ s) = leb c 127 && is_ascii s

-- `ToUpper` and `ToLower` on every text.
abbrev pub to_upper_of : Unicode → Str → Str
to_upper_of u s = if is_ascii s then to_upper s else u.upper s

abbrev pub to_lower_of : Unicode → Str → Str
to_lower_of u s = if is_ascii s then to_lower s else u.lower s

abbrev pub equal_fold : Str → Str → Bool
equal_fold s t = same (to_lower s) (to_lower t)

abbrev pub is_space : ℕ → Bool
is_space c = c == 32 || (leb 9 c && leb c 13)

abbrev pub trim_left : (ℕ → Bool) → Str → Str
trim_left p [] = []
trim_left p (c ∷ s) = let rest = trim_left p s in if p c then rest else c ∷ s

abbrev pub trim_right : (ℕ → Bool) → Str → Str
trim_right p [] = []
trim_right p (c ∷ s) =
    let rest = trim_right p s in elim rest [ [] ↦ if p c then [] else c ∷ [] | d ∷ t ↦ c ∷ d ∷ t ]

-- `Trim`, of the bytes that pass a test.
abbrev pub trim : (ℕ → Bool) → Str → Str
trim p s = trim_right p (trim_left p s)

-- `TrimSpace`
abbrev pub trim_space : Str → Str
trim_space s = trim is_space s

-- `Split` at a byte.
abbrev pub split : ℕ → Str → List Str
split sep [] = [] ∷ []
split sep (c ∷ s) = elim (split sep s) [
  | [] ↦ []
  | p ∷ ps ↦ if c == sep then [] ∷ p ∷ ps else (c ∷ p) ∷ ps
]
