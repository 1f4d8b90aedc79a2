-- ===== src/Base/Int64.antt =====
-- Go's `int64`: integers from -2^63 to 2^63 - 1 whose operations wrap around.
use real_time_market_data_pi.Base.Tests.{ltb, leb, if◌then◌else◌}
use real_time_market_data_pi.Base.Int.{ℤ, pos, negsuc, pos_part, neg_part, ◌+ℤ◌, ◌*ℤ◌, neg, quo}
use Prim.Native.Nat.{ℕ, ◌-◌, ◌%◌, ◌≤◌, ◌<◌}
use mathlib.Core.Path.{◌≡◌}
use mathlib.Core.Logic.{◌↔◌}
use mathlib.Core.Bool.{Bool, true, ◌&&◌}
use native.Mathlib.Omega.{arith}

-- 2^63 and 2^64
abbrev pub two63 : ℕ
two63 = 0x8000_0000_0000_0000

abbrev pub two64 : ℕ
two64 = 0x1_0000_0000_0000_0000

abbrev pub max_int64 : ℤ
max_int64 = pos 0x7fff_ffff_ffff_ffff

abbrev pub min_int64 : ℤ
min_int64 = negsuc 0x7fff_ffff_ffff_ffff

abbrev pub IsInt64 : ℤ → Type 0
IsInt64 z = (pos_part z < two63) × (neg_part z ≤ two63)

-- `v.IsInt64()`
abbrev pub is_int64 : ℤ → Bool
is_int64 z = ltb (pos_part z) two63 && leb (neg_part z) two63

-- The residue of an integer modulo 2^64.
unfoldable pub residue : ℤ → ℕ
residue (pos n) = n % two64
residue (negsuc n) = two64 - 1 - n % two64

-- The `int64` with the same residue.
unfoldable pub wrap : ℤ → ℤ
unfolding residue
wrap z = let m = residue z in if ltb m two63 then pos m else negsuc (two64 - 1 - m)

abbrev pub add64 : ℤ → ℤ → ℤ
add64 a b = wrap (a +ℤ b)

abbrev pub mul64 : ℤ → ℤ → ℤ
mul64 a b = wrap (a *ℤ b)

abbrev pub neg64 : ℤ → ℤ
neg64 a = wrap (neg a)

abbrev pub quo64 : ℤ → ℤ → ℤ
quo64 a b = wrap (quo a b)

pub wrap-IsInt64 : (z : ℤ) → IsInt64 (wrap z)
unfolding wrap
wrap-IsInt64 (pos n) = ground arith
wrap-IsInt64 (negsuc n) = ground arith

pub wrap_id : (z : ℤ) → IsInt64 z → wrap z ≡ z
unfolding wrap
wrap_id (pos n) h = ground arith
wrap_id (negsuc n) h = ground arith

pub is_int64_iff : (z : ℤ) → (is_int64 z ≡ true) ↔ IsInt64 z
is_int64_iff (pos n) = (λ h. ground arith, λ h. ground arith)
is_int64_iff (negsuc n) = (λ h. ground arith, λ h. ground arith)
