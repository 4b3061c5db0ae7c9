-- ===== src/Page/Buffer.antt =====
-- The buffer of a page of src/page.rs: writes at an offset, and `u16` fields.
use nutdb.Prelude.{
  ℕ, zero, suc, ◌+◌, ◌-◌, ◌*◌, ◌/◌, ◌%◌, ◌≤◌, ◌≡◌, refl, ap, [], ◌∷◌, arith, length, leb, ltb, ◌&&◌,
  if◌then◌else◌,
}
use nutdb.Bytes.{Bytes}

-- `bytes[index]`, which is in range wherever a page is read.
unfoldable pub byte_at : Bytes → ℕ → ℕ
byte_at [] index = 0
byte_at (b ∷ bytes) zero = b
byte_at (b ∷ bytes) (suc index) = byte_at bytes index

unfoldable pub overlay : Bytes → Bytes → Bytes
overlay [] bytes = bytes
overlay (n ∷ new) [] = []
overlay (n ∷ new) (b ∷ bytes) = n ∷ overlay new bytes

-- `bytes[offset..offset + new.len()].copy_from_slice(new)`
unfoldable pub write_at : ℕ → Bytes → Bytes → Bytes
write_at zero new bytes = overlay new bytes
write_at (suc offset) new [] = []
write_at (suc offset) new (b ∷ bytes) = b ∷ write_at offset new bytes

unfoldable pub get_u16 : Bytes → ℕ → ℕ
get_u16 bytes offset = byte_at bytes offset + 256 * byte_at bytes (offset + 1)

unfoldable pub put_u16 : ℕ → ℕ → Bytes → Bytes
put_u16 offset value bytes = write_at offset (value % 256 ∷ value / 256 % 256 ∷ []) bytes

length-overlay : (new bytes : Bytes) → length (overlay new bytes) ≡ length bytes
unfolding overlay
length-overlay [] bytes = refl
length-overlay (n ∷ new) [] = refl
length-overlay (n ∷ new) (b ∷ bytes) = omega (arith, length-overlay new bytes)

pub length-write_at :
    (offset : ℕ) (new bytes : Bytes) → length (write_at offset new bytes) ≡ length bytes
unfolding write_at
length-write_at zero new bytes = length-overlay new bytes
length-write_at (suc offset) new [] = refl
length-write_at (suc offset) new (b ∷ bytes) = omega (arith, length-write_at offset new bytes)

byte_at-overlay :
    (new bytes : Bytes) (i : ℕ)
    → length new ≤ length bytes
    → byte_at (overlay new bytes) i
      ≡ (if ltb i (length new) then byte_at new i else byte_at bytes i)
unfolding overlay byte_at
byte_at-overlay [] bytes i h = ground arith
byte_at-overlay (n ∷ new) [] i h = absurd (omega (arith, h))
byte_at-overlay (n ∷ new) (b ∷ bytes) zero h = ground arith
byte_at-overlay (n ∷ new) (b ∷ bytes) (suc i) h =
    ground (arith, byte_at-overlay new bytes i (omega (arith, h)))

no_less : (i : ℕ) → i - 0 ≡ i
no_less i = omega arith

one_less : (i offset : ℕ) → suc i - suc offset ≡ i - offset
one_less i offset = omega arith

-- A write changes the bytes that it covers, and no others.
pub byte_at-write_at :
    (offset : ℕ) (new bytes : Bytes) (i : ℕ)
    → offset + length new ≤ length bytes
    → byte_at (write_at offset new bytes) i ≡ (
        if leb offset i && ltb i (offset + length new)
        then byte_at new (i - offset)
        else byte_at bytes i)
unfolding write_at byte_at
byte_at-write_at zero new bytes i h =
    ground (arith, byte_at-overlay new bytes i (omega (arith, h)), ap (byte_at new) (no_less i))
byte_at-write_at (suc offset) new [] i h = absurd (omega (arith, h))
byte_at-write_at (suc offset) new (b ∷ bytes) zero h = ground arith
byte_at-write_at (suc offset) new (b ∷ bytes) (suc i) h = ground (
  arith,
  byte_at-write_at offset new bytes i (omega (arith, h)),
  ap (byte_at new) (one_less i offset),
)
