-- ===== src/Decimal/RoundTrip.antt =====
-- `String` and `ParseDecimal` of internal/model/decimal.go together.
use native.Mathlib.Nat.{mod-eq_of_lt}
use real_time_market_data_pi.Base.{
  ℕ, zero, suc, ◌-◌, ◌≤◌, ◌<◌, ◌≡◌, refl, ◌≢◌, subst, ◌∙◌, ap, [], ◌∷◌, ◌++◌, Bool, true, false,
  append-nil, lt→ltb, ltb, if◌then◌else◌, arith, length, take, drop, All, length-take, length-drop,
  take-append-drop,
}
use real_time_market_data_pi.Base.Bytes.{Str}
use real_time_market_data_pi.Base.Int.{ℤ, pos, negsuc}
use real_time_market_data_pi.Base.Int.{neg}
use real_time_market_data_pi.Base.Int64.{two63, neg64, IsInt64, wrap, min_int64}
use real_time_market_data_pi.Decimal.{Decimal, max_scale, IsValid}
use real_time_market_data_pi.Decimal.Text.{
  ok, parse_int, parse_unsigned, parse_parts, parse, format_nat, format_int, pad, with_point,
  to_string,
}
use real_time_market_data_pi.Decimal.Digits.{
  IsDigit, all_digits_lem, contains_point_lem, cut_none, cut_point, Writes, format_nat-Writes,
  pad-Writes, length-pad,
}

ltb_of_le : (m n : ℕ) → m ≤ n → ltb n m ≡ false
ltb_of_le m n h = ground arith

signed : Bool → ℕ → ℤ
signed negative n = if negative then neg64 (pos n) else pos n

-- The checks pass on digits, at least one before the point.
parse_parts-ok :
    (negative has_point : Bool) (n : ℕ) (s t : Str)
    → Writes n (s ++ t)
    → n < two63
    → All IsDigit t
    → 0 < length s
    → length t ≤ max_scale
    → parse_parts negative (s, t, has_point)
      ≡ ok (record { unscaled = signed negative n; scale = length t })
unfolding parse_parts parse_int signed
parse_parts-ok negative has_point n [] t w h dt ne fine = elim ne [ ]
parse_parts-ok negative true n (c ∷ s) t w h dt ne fine = rw (
  contains_point_lem t dt,
  ltb_of_le (length t) max_scale fine,
  all_digits_lem (c ∷ (s ++ t)) w.digits,
  w.value,
  lt→ltb n two63 h,
  mod-eq_of_lt small,
)
  where
    small : length t < 256
    small = omega arith
parse_parts-ok negative false n (c ∷ s) t w h dt ne fine = rw (
  ltb_of_le (length t) max_scale fine,
  all_digits_lem (c ∷ (s ++ t)) w.digits,
  w.value,
  lt→ltb n two63 h,
  mod-eq_of_lt small,
)
  where
    small : length t < 256
    small = omega arith

-- A text without a sign in front: a digit opens it.
opens : (c : ℕ) (s : Str) → IsDigit c → parse (c ∷ s) ≡ parse_unsigned false (c ∷ s)
unfolding parse
opens c s h = ground arith

-- The text of a number, and the same with the point put in.
record Reads (negative : Bool) (n scale : ℕ) (text : Str) : Type 0 where
  first : (c : ℕ) × (s : Str) × (text ≡ c ∷ s) × IsDigit c
  body : parse_unsigned negative text ≡ ok (record { unscaled = signed negative n; scale = scale })

plain-Reads : (negative : Bool) (n : ℕ) (s : Str) → Writes n s → n < two63 → Reads negative n 0 s
unfolding parse_unsigned
plain-Reads negative n [] w h = elim w.some_digit [ ]
plain-Reads negative n (c ∷ s) w h = record {
  first = (c, s, refl, w.digits.0);
  body =
      ap (parse_parts negative) (cut_none (c ∷ s) w.digits)
      ∙ parse_parts-ok negative false n (c ∷ s) [] (rw append-nil w) h tt (omega arith)
          (omega arith);
}

point-Reads :
    (negative : Bool) (n : ℕ) (s t : Str)
    → Writes n (s ++ t)
    → n < two63
    → All IsDigit s
    → All IsDigit t
    → 0 < length s
    → length t ≤ max_scale
    → Reads negative n (length t) (s ++ (b'.' ∷ t))
unfolding parse_unsigned
point-Reads negative n [] t w h ds dt ne fine = elim ne [ ]
point-Reads negative n (c ∷ s) t w h ds dt ne fine = record {
  first = (c, s ++ (b'.' ∷ t), refl, ds.0);
  body =
      ap (parse_parts negative) (cut_point (c ∷ s) t ds)
      ∙ parse_parts-ok negative true n (c ∷ s) t w h dt ne fine;
}

pub All-take : (k : ℕ) (s : Str) → All IsDigit s → All IsDigit (take k s)
All-take zero s h = tt
All-take (suc k) [] h = tt
All-take (suc k) (c ∷ s) h = (h.0, All-take k s h.1)

pub All-drop : (k : ℕ) (s : Str) → All IsDigit s → All IsDigit (drop k s)
All-drop zero s h = h
All-drop (suc k) [] h = tt
All-drop (suc k) (c ∷ s) h = All-drop k s h.1

with_point-Reads :
    (negative : Bool) (n scale : ℕ)
    → n < two63
    → scale ≤ max_scale
    → Reads negative n scale (with_point scale (pad scale (format_nat n)))
unfolding with_point
with_point-Reads negative n scale h fine =
    subst (λ k. Reads negative n k (take split p ++ (b'.' ∷ drop split p))) counted
      (point-Reads negative n (take split p) (drop split p) (rw (take-append-drop split p) written)
        h (All-take split p written.digits) (All-drop split p written.digits)
        (omega (arith, length-take split p, enough)) (omega (arith, counted)))
  where
    written_plain : Writes n (format_nat n)
    written_plain = format_nat-Writes n

    p : Str
    p = pad scale (format_nat n)

    written : Writes n p
    written = pad-Writes n scale (format_nat n) written_plain

    enough : scale < length p
    enough = length-pad scale (format_nat n) written_plain.some_digit

    split : ℕ
    split = length p - scale

    counted : length (drop split p) ≡ scale
    counted = omega (arith, length-drop split p, enough)

parse-minus : (s : Str) → parse (b'-' ∷ s) ≡ parse_unsigned true s
unfolding parse
parse-minus s = refl

parse-Reads :
    (n scale : ℕ) (text : Str)
    → Reads false n scale text
    → parse text ≡ ok (record { unscaled = pos n; scale = scale })
unfolding signed
parse-Reads n scale text r = let (c, s, e, d) = r.first in rw e (opens c s d ∙ (rw e at r.body))

neg64_pos : (n : ℕ) → suc n < two63 → neg64 (pos (suc n)) ≡ negsuc n
unfolding wrap neg
neg64_pos n h = ground arith

neg64_negsuc : (n : ℕ) → suc n < two63 → neg64 (negsuc n) ≡ pos (suc n)
unfolding wrap neg
neg64_negsuc n h = ground arith

abbrev pub point_text : ℕ → ℕ → Str
point_text scale n = with_point scale (pad scale (format_nat n))

pub to_string-pos :
    (n k : ℕ) → to_string (record { unscaled = pos n; scale = suc k }) ≡ point_text (suc k) n
unfolding to_string format_int
to_string-pos n k = ground arith

pub to_string-negsuc :
    (n k : ℕ)
    → suc n < two63
    → to_string (record { unscaled = negsuc n; scale = suc k }) ≡ b'-' ∷ point_text (suc k) (suc n)
unfolding to_string format_int
to_string-negsuc n k h = rw (neg64_negsuc n h) (ground arith)

pub to_string-zero : (u : ℤ) → to_string (record { unscaled = u; scale = 0 }) ≡ format_int u
unfolding to_string
to_string-zero u = refl

parse-format_int :
    (u : ℤ)
    → IsInt64 u
    → u ≢ min_int64
    → parse (format_int u) ≡ ok (record { unscaled = u; scale = 0 })
unfolding format_int signed
parse-format_int (pos n) h nm =
    parse-Reads n 0 (format_nat n) (plain-Reads false n _ (format_nat-Writes n) (omega arith))
parse-format_int (negsuc n) h nm =
    parse-minus (format_nat (suc n))
    ∙ (plain-Reads true (suc n) _ (format_nat-Writes (suc n)) (below n h nm)).body
    ∙ ap (λ z. ok (record { unscaled = z; scale = 0 })) (neg64_pos n (below n h nm))
  where
    below : (n : ℕ) → IsInt64 (negsuc n) → negsuc n ≢ min_int64 → suc n < two63
    below n h nm = ground arith

parse-point_text :
    (u : ℤ) (k : ℕ)
    → IsInt64 u
    → suc k ≤ max_scale
    → u ≢ min_int64
    → parse (to_string (record { unscaled = u; scale = suc k }))
      ≡ ok (record { unscaled = u; scale = suc k })
unfolding signed
parse-point_text (pos n) k h f nm =
    rw to_string-pos (parse-Reads n (suc k) _ (with_point-Reads false n (suc k) (omega arith) f))
parse-point_text (negsuc n) k h f nm = rw (to_string-negsuc n k below) (
    parse-minus (point_text (suc k) (suc n))
    ∙ (with_point-Reads true (suc n) (suc k) below f).body
    ∙ ap (λ z. ok (record { unscaled = z; scale = suc k })) (neg64_pos n below))
  where
    below : suc n < two63
    below = ground arith

parse-text :
    (u : ℤ) (k : ℕ)
    → IsInt64 u
    → k ≤ max_scale
    → u ≢ min_int64
    → parse (to_string (record { unscaled = u; scale = k }))
      ≡ ok (record { unscaled = u; scale = k })
parse-text u zero h f nm = rw to_string-zero (parse-format_int u h nm)
parse-text u (suc k) h f nm = parse-point_text u k h f nm

-- The text of a decimal is parsed to the same decimal, scale included, for each decimal in range
-- whose unscaled value is not the smallest int64.
pub parse-to_string :
    (d : Decimal) → IsValid d → d.unscaled ≢ min_int64 → parse (to_string d) ≡ ok d
parse-to_string d v ne = parse-text d.unscaled d.scale v.in_range v.fine ne
