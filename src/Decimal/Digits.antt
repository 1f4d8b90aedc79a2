-- ===== src/Decimal/Digits.antt =====
-- The digits that `String` writes and `ParseDecimal` reads, of internal/model/decimal.go.

use real_time_market_data_pi.Base.{
  ℕ, zero, suc, ◌+◌, ◌-◌, ◌/◌, ◌%◌, ◌≤◌, ◌<◌, ◌≡◌, refl, ◌∙◌, [], ◌∷◌, ◌++◌, true, false,
  Bool-cases, inl, inr, leb, arith, length, replicate, All, All-append, length-append,
  length-replicate,
}
use real_time_market_data_pi.Base.Bytes.{Str}
use real_time_market_data_pi.Decimal.Text.{
  all_digits, cut, contains_point, digits_value, digits_from, format_nat, pad,
}

abbrev pub IsDigit : ℕ → Type 0
IsDigit c = (b'0' ≤ c) × (c ≤ b'9')

pub all_digits_lem : (s : Str) → All IsDigit s → all_digits s ≡ true
unfolding all_digits
all_digits_lem [] h = refl
all_digits_lem (c ∷ s) h = ground (arith, all_digits_lem s h.1)

pub contains_point_lem : (s : Str) → All IsDigit s → contains_point s ≡ false
unfolding contains_point
contains_point_lem [] h = refl
contains_point_lem (c ∷ s) h = ground (arith, contains_point_lem s h.1)

pub cut_none : (s : Str) → All IsDigit s → cut s ≡ (s, [], false)
unfolding cut
cut_none [] h = refl
cut_none (c ∷ s) h = ground (arith, cut_none s h.1)

pub cut_point : (s t : Str) → All IsDigit s → cut (s ++ (b'.' ∷ t)) ≡ (s, t, true)
unfolding cut
cut_point [] t h = refl
cut_point (c ∷ s) t h = ground (arith, cut_point s t h.1)

digits_from-IsDigit : (f n : ℕ) (acc : Str) → All IsDigit acc → All IsDigit (digits_from f n acc)
unfolding digits_from
digits_from-IsDigit zero n acc h = h
digits_from-IsDigit (suc f) n acc h =
    ground (arith, digits_from-IsDigit f (n / 10) ((n % 10 + b'0') ∷ acc))

digits_value-digits_from :
    (f n : ℕ) (acc : Str) → n < f → digits_value 0 (digits_from f n acc) ≡ digits_value n acc
unfolding digits_from digits_value
digits_value-digits_from zero n acc h = elim h [ ]
digits_value-digits_from (suc f) n acc h =
    ground (arith, digits_value-digits_from f (n / 10) ((n % 10 + b'0') ∷ acc))

digits_value-zeros : (k : ℕ) (s : Str) → digits_value 0 (replicate k b'0' ++ s) ≡ digits_value 0 s
unfolding digits_value
digits_value-zeros zero s = refl
digits_value-zeros (suc k) s = digits_value-zeros k s

length-digits_from : (f n : ℕ) (acc : Str) → 0 < f → 0 < length (digits_from f n acc)
unfolding digits_from
length-digits_from zero n acc h = elim h [ ]
length-digits_from (suc zero) n acc h = ground arith
length-digits_from (suc (suc f)) n acc h =
    ground (arith, length-digits_from (suc f) (n / 10) ((n % 10 + b'0') ∷ acc))

replicate-IsDigit : (k : ℕ) → All IsDigit (replicate k b'0')
replicate-IsDigit zero = tt
replicate-IsDigit (suc k) = ((omega arith, omega arith), replicate-IsDigit k)

-- What is written of a number: digits, at least one, that are read as the number.
pub record Writes (n : ℕ) (s : Str) : Type 0 where
  pub digits : All IsDigit s
  pub value : digits_value 0 s ≡ n
  pub some_digit : 0 < length s

pub format_nat-Writes : (n : ℕ) → Writes n (format_nat n)
unfolding format_nat digits_value
format_nat-Writes n = record {
  digits = digits_from-IsDigit (suc n) n [] tt;
  value = digits_value-digits_from (suc n) n [] (omega arith);
  some_digit = length-digits_from (suc n) n [] (omega arith);
}

pub pad-Writes : (n k : ℕ) (s : Str) → Writes n s → Writes n (pad k s)
unfolding pad
pad-Writes n k s w = elim (Bool-cases (leb (length s) k)) [
  | inr enough ↦ rw enough w
  | inl short ↦ rw short (record {
    digits =
        All-append IsDigit (replicate (k - length s + 1) b'0') s
          (replicate-IsDigit (k - length s + 1)) w.digits;
    value = digits_value-zeros (k - length s + 1) s ∙ w.value;
    some_digit = omega (arith, length-append (replicate (k - length s + 1) b'0') s, w.some_digit);
  })
]

pub length-pad : (k : ℕ) (s : Str) → 0 < length s → k < length (pad k s)
unfolding pad
length-pad k s h =
    let zero_byte : ℕ = b'0' in
    ground (
      arith,
      length-append (replicate (k - length s + 1) zero_byte) s,
      length-replicate (k - length s + 1) zero_byte,
    )
