-- ===== src/Decimal/Json.antt =====
-- `MarshalJSON` and `UnmarshalJSON` of internal/model/decimal.go.
use real_time_market_data_pi.Base.{
  ℕ, zero, suc, ◌≡◌, refl, ◌≢◌, ◌∙◌, ap, [], ◌∷◌, ◌++◌, Bool, true, false, if◌then◌else◌, ◌==◌, All,
  All-append, arith, same, list_eq, nat_eq, take, drop, length, ◌-◌,
}
use real_time_market_data_pi.Base.Bytes.{Str, str}
use real_time_market_data_pi.Base.Text.{trim, trim_left, trim_right, trim_space, is_space}
use real_time_market_data_pi.Base.Int64.{IsInt64, min_int64}
use real_time_market_data_pi.Decimal.{Decimal, IsValid, zero_decimal}
use real_time_market_data_pi.Decimal.Text.{
  Parsed, ok, parse, to_string, format_nat, format_int, pad, with_point,
}
use real_time_market_data_pi.Base.Int.{ℤ, pos, negsuc}
use real_time_market_data_pi.Decimal.Digits.{IsDigit, format_nat-Writes, pad-Writes}
use real_time_market_data_pi.Decimal.RoundTrip.{
  parse-to_string, All-take, All-drop, to_string-pos, to_string-negsuc, to_string-zero,
}

abbrev quote : ℕ
quote = 34

abbrev is_quote : ℕ → Bool
is_quote c = c == quote

unfoldable pub marshal_json : Decimal → Str
marshal_json d = quote ∷ (to_string d ++ (quote ∷ []))

unfoldable pub unmarshal_json : Str → Parsed
unmarshal_json b =
    let s = trim_space b in if same s (str "null") then ok zero_decimal else parse (trim is_quote s)

-- Bytes that trimming keeps.
IsKept : (ℕ → Bool) → ℕ → Type 0
IsKept p c = p c ≡ false

keep_cons :
    (c d : ℕ) (s : Str) (b : Bool)
    → (elim (s ++ (d ∷ [])) as (λ _. Str) [ [] ↦ if b then [] else c ∷ [] | e ∷ t ↦ c ∷ e ∷ t ])
      ≡ c ∷ (s ++ (d ∷ []))
keep_cons c d [] b = refl
keep_cons c d (e ∷ s) b = refl

cut_cons :
    (c : ℕ) (s : Str) (b : Bool)
    → b ≡ false
    → (elim s as (λ _. Str) [ [] ↦ if b then [] else c ∷ [] | e ∷ t ↦ c ∷ e ∷ t ]) ≡ c ∷ s
cut_cons c [] b h = rw h refl
cut_cons c (e ∷ s) b h = refl

trim_right-kept :
    (p : ℕ → Bool) (d : ℕ) (s : Str) → p d ≡ false → trim_right p (s ++ (d ∷ [])) ≡ s ++ (d ∷ [])
trim_right-kept p d [] h = rw h refl
trim_right-kept p d (c ∷ s) h = rw (trim_right-kept p d s h) (keep_cons c d s (p c))

trim_right-cut :
    (p : ℕ → Bool) (q : ℕ) (s : Str)
    → p q ≡ true
    → All (IsKept p) s
    → trim_right p (s ++ (q ∷ [])) ≡ s
unfolding IsKept
trim_right-cut p q [] h a = rw h refl
trim_right-cut p q (c ∷ s) h a = rw (trim_right-cut p q s h a.1) (cut_cons c s (p c) a.0)

trim_left-kept :
    (p : ℕ → Bool) (q : ℕ) (s : Str)
    → p q ≡ true
    → All (IsKept p) s
    → trim_right p (trim_left p (s ++ (q ∷ []))) ≡ s
unfolding IsKept
trim_left-kept p q [] h a = rw h refl
trim_left-kept p q (c ∷ s) h a = rw a.0 (trim_right-cut p q (c ∷ s) h a)

-- A text in quotes loses them, and nothing else.
trim_quoted : (s : Str) → All (IsKept is_quote) s → trim is_quote (quote ∷ (s ++ (quote ∷ []))) ≡ s
trim_quoted s a = trim_left-kept is_quote quote s refl a

trim_space_quoted :
    (s : Str) → trim_space (quote ∷ (s ++ (quote ∷ []))) ≡ quote ∷ (s ++ (quote ∷ []))
trim_space_quoted s = trim_right-kept is_space quote (quote ∷ s) refl

unmarshal_quoted :
    (s : Str) → All (IsKept is_quote) s → unmarshal_json (quote ∷ (s ++ (quote ∷ []))) ≡ parse s
unfolding unmarshal_json
unmarshal_quoted s a = rw (trim_space_quoted s) (ap parse (trim_quoted s a))

digits-kept : (s : Str) → All IsDigit s → All (IsKept is_quote) s
unfolding IsKept
digits-kept [] a = tt
digits-kept (c ∷ s) a = (ground arith, digits-kept s a.1)

with_point-kept : (k : ℕ) (s : Str) → All IsDigit s → All (IsKept is_quote) (with_point k s)
unfolding with_point IsKept
with_point-kept k s a =
    let n = length s - k in
    All-append (IsKept is_quote) (take n s) (b'.' ∷ drop n s) (digits-kept _ (All-take n s a))
      (refl, digits-kept _ (All-drop n s a))

point_text-kept : (k n : ℕ) → All (IsKept is_quote) (with_point k (pad k (format_nat n)))
point_text-kept k n =
    with_point-kept k _ (pad-Writes n k (format_nat n) (format_nat-Writes n)).digits

format_nat-kept : (n : ℕ) → All (IsKept is_quote) (format_nat n)
format_nat-kept n = digits-kept (format_nat n) (format_nat-Writes n).digits

text-kept :
    (u : ℤ) (k : ℕ)
    → IsInt64 u
    → u ≢ min_int64
    → All (IsKept is_quote) (to_string (record { unscaled = u; scale = k }))
unfolding IsKept format_int
text-kept (pos n) zero h ne = rw to_string-zero (format_nat-kept n)
text-kept (negsuc n) zero h ne = rw to_string-zero (refl, format_nat-kept (suc n))
text-kept (pos n) (suc k) h ne = rw to_string-pos (point_text-kept (suc k) n)
text-kept (negsuc n) (suc k) h ne =
    rw (to_string-negsuc n k (ground arith)) (refl, point_text-kept (suc k) (suc n))

unmarshal_json-marshal_json :
    (d : Decimal) → IsValid d → d.unscaled ≢ min_int64 → unmarshal_json (marshal_json d) ≡ ok d
unfolding marshal_json
unmarshal_json-marshal_json d v ne =
    unmarshal_quoted (to_string d) (text-kept d.unscaled d.scale v.in_range ne)
    ∙ parse-to_string d v ne

-- The text of a decimal is parsed, and its JSON is read, to the same decimal, scale included, for
-- each decimal in range whose unscaled value is not the smallest int64.
pub texts_back :
    (d : Decimal)
    → IsValid d
    → d.unscaled ≢ min_int64
    → (parse (to_string d) ≡ ok d) × (unmarshal_json (marshal_json d) ≡ ok d)
texts_back d v ne = (parse-to_string d v ne, unmarshal_json-marshal_json d v ne)
