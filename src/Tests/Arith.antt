-- ===== src/Tests/Arith.antt =====
-- Examples for the arithmetic.
use real_time_market_data_pi.Base.{◌≡◌, ◌↔◌, refl, false, arith}
use real_time_market_data_pi.Base.Bytes.{str}
use real_time_market_data_pi.Base.Int.{pos, negsuc, compare_ℤ, ◌+ℤ◌, ◌*ℤ◌}
use real_time_market_data_pi.Base.Int64.{IsInt64, max_int64}
use real_time_market_data_pi.Decimal.{Decimal, IsValid, zero_decimal}
use real_time_market_data_pi.Decimal.Text.{ok, parse, to_string}
use real_time_market_data_pi.Decimal.Arith.{
  cmp, add, overflows_mul, big_at, max_scale_of, pow10_big,
}
use real_time_market_data_pi.Decimal.Order.{value, cmp-compare_value}
use real_time_market_data_pi.Decimal.Json.{marshal_json, unmarshal_json, texts_back}
use real_time_market_data_pi.Decimal.Sum.{exact_sum, value-add}
use real_time_market_data_pi.Decimal.Shorten.{shorten, add_never_wraps}
use real_time_market_data_pi.Decimal.Overflow.{overflows_mul-exact}
use real_time_market_data_pi.Tests.{dec}

abbrev price : Decimal
price = dec (pos 10150) 2

abbrev size : Decimal
size = dec (negsuc 4) 3

price-IsValid : IsValid price
price-IsValid = record { in_range = ground arith; fine = ground arith }

size-IsValid : IsValid size
size-IsValid = record { in_range = ground arith; fine = ground arith }

sum_fits : IsInt64 (exact_sum price size)
unfolding big_at max_scale_of pow10_big ◌+ℤ◌ ◌*ℤ◌
sum_fits = ground arith

product_fits : IsInt64 (pos 10150 *ℤ negsuc 4)
unfolding ◌*ℤ◌
product_fits = ground arith

json_null : unmarshal_json (str " null") ≡ ok zero_decimal
unfolding unmarshal_json
json_null = refl

json_number : unmarshal_json (str "1.50") ≡ parse (str "1.50")
unfolding unmarshal_json
json_number = refl

texts_back_example :
    (parse (to_string size) ≡ ok size) × (unmarshal_json (marshal_json size) ≡ ok size)
texts_back_example = texts_back size size-IsValid (λ e. ground arith)

cmp-compare_value_example : cmp price size ≡ compare_ℤ (value price) (value size)
cmp-compare_value_example = cmp-compare_value price size price-IsValid size-IsValid

value-add_example : value (add price size) ≡ value price +ℤ value size
value-add_example = value-add price size price-IsValid size-IsValid sum_fits

-- A sum that has no room for its two places: one of them is rounded away.
abbrev large : Decimal
large = dec max_int64 2

large-IsValid : IsValid large
large-IsValid = record { in_range = ground arith; fine = ground arith }

add_never_wraps_example :
    (add large large ≡ shorten (exact_sum large large) (max_scale_of large large))
    × IsValid (add large large)
add_never_wraps_example = add_never_wraps large large large-IsValid large-IsValid

overflows_mul-exact_example :
    (overflows_mul (pos 10150) (negsuc 4) ≡ false) ↔ IsInt64 (pos 10150 *ℤ negsuc 4)
overflows_mul-exact_example =
    overflows_mul-exact (pos 10150) (negsuc 4) price-IsValid.in_range (λ e. ground arith)
