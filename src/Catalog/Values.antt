-- ===== src/Catalog/Values.antt =====
-- The values of src/catalog.rs: their types, their bytes, and bytes in hexadecimal.
use nutdb.Prelude.{
  ℕ, ◌+◌, ◌*◌, ◌/◌, ◌%◌, ◌-◌, Bool, true, false, not, ◌&&◌, none, some, [], ◌∷◌, leb, ◌==◌,
  if◌then◌else◌, length, get_elem?,
}
use nutdb.Prelude.Io.{Result, ok, invalid, input, ◌>>=◌}
use nutdb.Prelude.Int.{to_bits, from_bits}
use nutdb.Prelude.Order.{bytes_order}
use nutdb.Bytes.{Bytes, to_le_bytes, from_le_bytes, from_utf8}
use nutdb.Sql.Ast.{DataType, Value, null, integer, text, boolean}

-- `DIGITS[index]`; the index is below 16.
abbrev pub digits : Bytes
digits = 48 ∷ 49 ∷ 50 ∷ 51 ∷ 52 ∷ 53 ∷ 54 ∷ 55 ∷ 56 ∷ 57 ∷ 97 ∷ 98 ∷ 99 ∷ 100 ∷ 101 ∷ 102 ∷ []

unfoldable pub hex_digit : ℕ → ℕ
hex_digit index = elim (get_elem? digits index) [ none ↦ 0 | some c ↦ c ]

-- `byte >> 4` is `byte / 16`, and `byte & 0x0f` is `byte % 16`.
unfoldable pub hex : Bytes → Bytes
hex [] = []
hex (byte ∷ bytes) = hex_digit (byte / 16) ∷ hex_digit (byte % 16) ∷ hex bytes

unfoldable pub digit : ℕ → Result ℕ
digit byte =
    if leb 48 byte && leb byte 57
    then ok (byte - 48)
    else if leb 97 byte && leb byte 102
    then ok (byte - 97 + 10)
    else invalid "catalog: invalid hex"

-- The pairs of `chunks_exact(2)`, decoded; `(high << 4) | low` is `high * 16 + low`.
unfoldable pub unhex_pairs : Bytes → Result Bytes
unhex_pairs [] = ok []
unhex_pairs (_ ∷ []) = ok []
unhex_pairs (a ∷ b ∷ rest) = do
  high ← digit a
  low ← digit b
  bytes ← unhex_pairs rest
  ok ((high * 16 + low) ∷ bytes)

unfoldable pub unhex : Bytes → Result Bytes
unhex value =
    if not (length value % 2 == 0) then invalid "catalog: odd hex length" else unhex_pairs value

unfoldable pub encode_value : Value → Bytes
encode_value null = 78 ∷ []
encode_value (integer value) = 73 ∷ to_le_bytes 8 (to_bits value)
encode_value (text value) = 84 ∷ value
encode_value (boolean value) = 66 ∷ (if value then 1 else 0) ∷ []

unfoldable pub decode_boolean : Bytes → Result Value
decode_boolean (byte ∷ []) =
    if leb byte 1 then ok (boolean (byte == 1)) else invalid "catalog: malformed row value"
decode_boolean _ = invalid "catalog: malformed row value"

-- The arms of the `match` by the tag, with the bytes after it.
unfoldable pub decode_tagged : ℕ → Bytes → Result Value
decode_tagged tag rest =
    if tag == 78 && length rest == 0
    then ok null
    else if tag == 73 && length rest == 8
    then ok (integer (from_bits (from_le_bytes rest)))
    else if tag == 84
    then (from_utf8 "catalog: row text is not UTF-8" rest >>= λ value. ok (text value))
    else if tag == 66
    then decode_boolean rest
    else invalid "catalog: malformed row value"

unfoldable pub decode_value : Bytes → Result Value
decode_value [] = invalid "catalog: malformed row value"
decode_value (tag ∷ rest) = decode_tagged tag rest

unfoldable pub is_null : Value → Bool
is_null null = true
is_null _ = false

-- `matches!` on a value that is not null, and its column's type.
unfoldable pub has_type : Value → DataType → Bool
has_type (integer _) DataType.integer = true
has_type (text _) DataType.text = true
has_type (boolean _) DataType.boolean = true
has_type _ _ = false

unfoldable pub check_type : Value → DataType → Result (Unit {0})
check_type value data_type =
    if is_null value
    then ok tt
    else if has_type value data_type
    then ok tt
    else input "sql: value has the wrong column type"
