-- ===== src/Decimal/Text.antt =====
-- `ParseDecimal` and `String` of internal/model/decimal.go, with the parts of `strings` and
-- `strconv` that they call.
use real_time_market_data_pi.Base.{
  ℕ, zero, suc, ◌+◌, ◌-◌, ◌*◌, ◌/◌, ◌%◌, [], ◌∷◌, ◌++◌, Bool, true, false, not, ◌&&◌, ltb, leb,
  ◌==◌, if◌then◌else◌, Option, none, some, length, take, drop, replicate,
}
use real_time_market_data_pi.Base.Bytes.{Str}
use real_time_market_data_pi.Base.Int.{ℤ, pos, negsuc, ltb_ℤ}
use real_time_market_data_pi.Base.Int64.{two63, neg64}
use real_time_market_data_pi.Decimal.{Decimal, max_scale}

pub data DecimalError : Type 0 where
  empty_decimal decimal_syntax decimal_range decimal_too_fine : DecimalError

pub data Parsed : Type 0 where
  ok : Decimal → Parsed
  err : DecimalError → Parsed

-- `s == ""`
abbrev pub is_empty : Str → Bool
is_empty [] = true
is_empty (_ ∷ _) = false

abbrev pub is_digit : ℕ → Bool
is_digit c = leb b'0' c && leb c b'9'

unfoldable pub all_digits : Str → Bool
all_digits [] = true
all_digits (c ∷ s) = if is_digit c then all_digits s else false

-- `strings.Cut(s, ".")`: before, after, found.
unfoldable pub cut : Str → Str × Str × Bool
cut [] = ([], [], false)
cut (c ∷ s) =
    let (before, after, found) = cut s in
    if c == b'.' then ([], s, true) else (c ∷ before, after, found)

-- `strings.Contains(s, ".")`
unfoldable pub contains_point : Str → Bool
contains_point [] = false
contains_point (c ∷ s) = if c == b'.' then true else contains_point s

-- The value of a run of digits.
unfoldable pub digits_value : ℕ → Str → ℕ
digits_value acc [] = acc
digits_value acc (c ∷ s) = digits_value (acc * 10 + (c - b'0')) s

-- `strconv.ParseInt(s, 10, 64)` on digits: a range error from 2^63 on.
unfoldable pub parse_int : Str → Option ℕ
parse_int s = let n = digits_value 0 s in if ltb n two63 then some n else none

-- The checks on the two parts of the text behind the sign.
unfoldable pub parse_parts : Bool → Str × Str × Bool → Parsed
parse_parts negative (int_part, frac_part, has_point) =
    if has_point && contains_point frac_part
    then err decimal_syntax
    else if is_empty int_part && is_empty frac_part
    then err decimal_syntax
    else if ltb max_scale (length frac_part)
    then err decimal_too_fine
    else if is_empty (int_part ++ frac_part)
    then err decimal_syntax
    else if not (all_digits (int_part ++ frac_part))
    then err decimal_syntax
    else elim (parse_int (int_part ++ frac_part)) [
      | none ↦ err decimal_range
      | some n ↦ ok (record {
        unscaled = if negative then neg64 (pos n) else pos n;
        scale = length frac_part % 256;
      })
    ]

unfoldable pub parse_unsigned : Bool → Str → Parsed
parse_unsigned negative s = if is_empty s then err decimal_syntax else parse_parts negative (cut s)

unfoldable pub parse : Str → Parsed
parse [] = err empty_decimal
parse (c ∷ s) =
    if c == b'-'
    then parse_unsigned true s
    else if c == b'+'
    then parse_unsigned false s
    else parse_unsigned false (c ∷ s)

-- The decimal digits of a number, before those of `acc`.
unfoldable pub digits_from : ℕ → ℕ → Str → Str
digits_from zero n acc = acc
digits_from (suc fuel) n acc =
    let rest = digits_from fuel (n / 10) ((n % 10 + b'0') ∷ acc) in
    if ltb n 10 then (n + b'0') ∷ acc else rest

unfoldable pub format_nat : ℕ → Str
unfolding digits_from
format_nat n = digits_from (suc n) n []

-- `strconv.FormatInt(z, 10)`
unfoldable pub format_int : ℤ → Str
format_int (pos n) = format_nat n
format_int (negsuc n) = b'-' ∷ format_nat (suc n)

-- `strings.Repeat("0", scale-len+1) + digits`, where there are too few digits.
unfoldable pub pad : ℕ → Str → Str
pad scale digits =
    if leb (length digits) scale
    then replicate (scale - length digits + 1) b'0' ++ digits
    else digits

-- The digits with a point before the last `scale` of them.
unfoldable pub with_point : ℕ → Str → Str
with_point scale digits =
    let split = length digits - scale in take split digits ++ (b'.' ∷ drop split digits)

-- `String`
unfoldable pub to_string : Decimal → Str
to_string d =
    let negative = ltb_ℤ d.unscaled (pos 0) in
    let mag = if negative then neg64 d.unscaled else d.unscaled in
    let text = with_point d.scale (pad d.scale (format_int mag)) in
    if d.scale == 0 then format_int d.unscaled else if negative then b'-' ∷ text else text
