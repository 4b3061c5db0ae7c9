-- ===== src/Prelude/Int.antt =====
-- The integers over the native numbers, and `i64` as the integers of 64 bits in two's complement.
use Prim.Native.Nat.{ℕ, suc, ◌-◌, ◌<◌, compare, Ordering}
use mathlib.Core.Path.{◌≡◌, ap}
use native.Mathlib.Omega.{arith}
use nutdb.Prelude.Tests.{ltb, if◌then◌else◌}

-- `negsuc n` is `-1 - n`.
pub data ℤ : Type 0 where
  pos : ℕ → ℤ
  negsuc : ℕ → ℤ

-- `2 ^ 63` and `2 ^ 64`
abbrev pub i64_end : ℕ
i64_end = 9223372036854775808

abbrev pub u64_count : ℕ
u64_count = 18446744073709551616

abbrev pub IsI64 : ℤ → Type 0
IsI64 (pos n) = n < i64_end
IsI64 (negsuc n) = n < i64_end

-- The bits of an `i64`, as a `u64`, and back.
unfoldable pub to_bits : ℤ → ℕ
to_bits (pos n) = n
to_bits (negsuc n) = u64_count - suc n

unfoldable pub from_bits : ℕ → ℤ
from_bits u = if ltb u i64_end then pos u else negsuc (u64_count - suc u)

pub from_bits-to_bits : (z : ℤ) → IsI64 z → from_bits (to_bits z) ≡ z
unfolding from_bits to_bits
from_bits-to_bits (pos n) h = ground arith
from_bits-to_bits (negsuc n) h =
    let back : u64_count - suc (u64_count - suc n) ≡ n = omega arith in
    ground (arith, ap negsuc back)

pub to_bits-lt : (z : ℤ) → IsI64 z → to_bits z < u64_count
unfolding to_bits
to_bits-lt (pos n) h = omega arith
to_bits-lt (negsuc n) h = omega arith

abbrev pub compare_int : ℤ → ℤ → Ordering
compare_int (pos a) (pos b) = compare a b
compare_int (pos a) (negsuc b) = Ordering.gt
compare_int (negsuc a) (pos b) = Ordering.lt
compare_int (negsuc a) (negsuc b) = compare b a
