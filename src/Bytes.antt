-- ===== src/Bytes.antt =====
-- Byte strings: the little-endian encodings of unsigned integers (`to_le_bytes`,
-- `from_le_bytes`), the cursor of the decoders, and UTF-8 validation.
mod Decoding
mod Utf8
unfoldable pub use Decoding.*
unfoldable pub use Utf8.*
use mathlib.Core.Path.{ap₂}
use native.Mathlib.Nat.{pow-suc}
use nutdb.Prelude.{
  ℕ, zero, suc, ◌+◌, ◌*◌, ◌/◌, ◌%◌, ◌^◌, ◌≤◌, ◌<◌, ◌≡◌, refl, List, [], ◌∷◌, arith, length, All,
}

abbrev pub IsByte : ℕ → Type 0
IsByte b = b < 256

abbrev pub Bytes : Type 0
Bytes = List ℕ

-- The `w` low bytes of `n`, lowest first.
unfoldable pub to_le_bytes : ℕ → ℕ → Bytes
to_le_bytes zero n = []
to_le_bytes (suc w) n = n % 256 ∷ to_le_bytes w (n / 256)

unfoldable pub from_le_bytes : Bytes → ℕ
from_le_bytes [] = 0
from_le_bytes (b ∷ bs) = b + 256 * from_le_bytes bs

pub length-to_le_bytes : (w n : ℕ) → length (to_le_bytes w n) ≡ w
unfolding to_le_bytes
length-to_le_bytes zero n = refl
length-to_le_bytes (suc w) n = omega (arith, length-to_le_bytes w (n / 256))

pub to_le_bytes-IsByte : (w n : ℕ) → All IsByte (to_le_bytes w n)
unfolding to_le_bytes
to_le_bytes-IsByte zero n = tt
to_le_bytes-IsByte (suc w) n = (omega arith, to_le_bytes-IsByte w (n / 256))

pub from_le_bytes-to_le_bytes : (w n : ℕ) → n < 256 ^ w → from_le_bytes (to_le_bytes w n) ≡ n
unfolding to_le_bytes from_le_bytes
from_le_bytes-to_le_bytes zero n h = omega arith
from_le_bytes-to_le_bytes (suc w) n h =
    omega (arith, from_le_bytes-to_le_bytes w (n / 256) (omega arith))

pub to_le_bytes-from_le_bytes :
    (w : ℕ) (bs : Bytes) → length bs ≡ w → All IsByte bs → to_le_bytes w (from_le_bytes bs) ≡ bs
unfolding to_le_bytes from_le_bytes
to_le_bytes-from_le_bytes zero [] l h = refl
to_le_bytes-from_le_bytes zero (b ∷ bs) l h = absurd (omega arith)
to_le_bytes-from_le_bytes (suc w) [] l h = absurd (omega arith)
to_le_bytes-from_le_bytes (suc w) (b ∷ bs) l h =
    let e : (b + 256 * from_le_bytes bs) / 256 ≡ from_le_bytes bs = omega arith in
    ap₂ ◌∷◌ (omega arith) (rw e (to_le_bytes-from_le_bytes w bs (omega arith) h.1))

pow-pos : (w : ℕ) → 0 < 256 ^ w
pow-pos zero = omega arith
pow-pos (suc w) = omega (arith, pow-pos w, pow-suc 256 w)

pub from_le_bytes-lt :
    (w : ℕ) (bs : Bytes) → length bs ≤ w → All IsByte bs → from_le_bytes bs < 256 ^ w
unfolding from_le_bytes
from_le_bytes-lt w [] l h = pow-pos w
from_le_bytes-lt zero (b ∷ bs) l h = absurd (omega arith)
from_le_bytes-lt (suc w) (b ∷ bs) l h =
    omega (arith, from_le_bytes-lt w bs (omega arith) h.1, pow-suc 256 w)
