-- ===== src/Prelude/Io.antt =====
-- `std::io::Error` by its kind and its message (the fixed part of a formatted one), and
-- `io::Result`. `panicked` is a panic, which unwinds as an error does: no code here catches it.
use Prim.Native.String.{String}

pub data ErrorKind : Type 0 where
  invalid_data invalid_input other would_block not_connected not_found write_zero panicked :
      ErrorKind

pub record Error : Type 0 where
  pub kind : ErrorKind
  pub message : String

pub data Result {ℓ} (A : Type ℓ) : Type ℓ where
  ok : A → Result A
  err : Error → Result A

infixl 5 ◌>>=◌ ◌>>◌
abbrev pub ◌>>=◌ {ℓ κ} : {A : Type ℓ} {B : Type κ} → Result A → (A → Result B) → Result B
ok a >>= f = f a
err e >>= f = err e

abbrev pub ◌>>◌ {ℓ κ} : {A : Type ℓ} {B : Type κ} → Result A → Result B → Result B
m >> k = m >>= λ _. k

-- the local function `invalid` of most files
abbrev pub invalid {ℓ} : {A : Type ℓ} → String → Result A
invalid m = err (record { kind = ErrorKind.invalid_data; message = m })

abbrev pub input {ℓ} : {A : Type ℓ} → String → Result A
input m = err (record { kind = ErrorKind.invalid_input; message = m })

-- A panic, such as an index out of range, or a stack that overflows.
abbrev pub panic {ℓ} : {A : Type ℓ} → String → Result A
panic m = err (record { kind = ErrorKind.panicked; message = m })
