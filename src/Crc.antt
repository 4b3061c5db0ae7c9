-- ===== src/Crc.antt =====
-- src/crc.rs: CRC-32 (IEEE 802.3), bit by bit. A `u32` is a number below 2 ^ 32.
use Prim.Native.Nat.{bit_and, bit_xor}
use nutdb.Prelude.{ℕ, zero, suc, ◌-◌, ◌/◌, ◌%◌, ◌^◌, ◌<◌, ◌≡◌, refl, List, [], ◌∷◌, arith}

abbrev pub polynomial : ℕ
polynomial = 0xEDB8_8320

-- One round of the inner loop. The mask is `(crc & 1).wrapping_neg()`.
unfoldable pub crc_bit : ℕ → ℕ
crc_bit crc =
    let mask = (2 ^ 32 - bit_and crc 1) % 2 ^ 32 in bit_xor (crc / 2) (bit_and polynomial mask)

-- `for _ in 0..8`
unfoldable pub crc_bits : ℕ → ℕ → ℕ
unfolding crc_bit
crc_bits zero crc = crc
crc_bits (suc k) crc = crc_bits k (crc_bit crc)

-- `for &byte in data`
unfoldable pub crc_loop : ℕ → List ℕ → ℕ
unfolding crc_bits
crc_loop crc [] = crc
crc_loop crc (byte ∷ bytes) = crc_loop (crc_bits 8 (bit_xor crc byte)) bytes

-- `!crc` is the complement in 32 bits.
unfoldable pub crc32 : List ℕ → ℕ
unfolding crc_loop
crc32 bytes = 2 ^ 32 - 1 - crc_loop 0xFFFF_FFFF bytes

pub crc32-lt : (bytes : List ℕ) → crc32 bytes < 2 ^ 32
unfolding crc32
crc32-lt bytes = omega arith

-- The source's test vectors, "", "a" and "123456789", and the flipped bit of "hello world".
known_vectors :
    (crc32 [] ≡ 0)
    × (crc32 (0x61 ∷ []) ≡ 0xE8B7_BE43)
    × (crc32 (0x31 ∷ 0x32 ∷ 0x33 ∷ 0x34 ∷ 0x35 ∷ 0x36 ∷ 0x37 ∷ 0x38 ∷ 0x39 ∷ []) ≡ 0xCBF4_3926)
unfolding crc32
known_vectors = (refl, refl, refl)
