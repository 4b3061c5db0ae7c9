-- ===== src/Catalog/Rows.antt =====
-- Rows and values as src/catalog.rs writes and reads them.
use nutdb.Prelude.{
  ℕ, ◌*◌, ◌/◌, ◌%◌, ◌<◌, ◌≡◌, ◌≢◌, refl, sym, ap, ◌∙◌, true, false, List, [], ◌∷◌, arith, length,
  map, All, all_below,
}
use nutdb.Prelude.Io.{ok, ◌>>=◌}
use nutdb.Prelude.Int.{IsI64, from_bits-to_bits, to_bits-lt, to_bits}
use nutdb.Bytes.{
  Bytes, IsByte, length-to_le_bytes, from_le_bytes-to_le_bytes, to_le_bytes-IsByte, is_utf8,
  from_utf8, is_utf8-IsByte,
}
use nutdb.Sql.Ast.{ColumnDef, Value, null, integer, text, boolean}
use nutdb.Catalog.{Schema, collect, check_types, encode_row, decode_row}
use nutdb.Catalog.Values.{
  hex_digit, hex, digit, unhex_pairs, unhex, encode_value, decode_boolean, decode_tagged,
  decode_value, check_type,
}
use nutdb.Catalog.Strings.{split-join, Without}

-- An `i64` in its range, and text that is UTF-8.
abbrev pub IsValue : Value → Type 0
IsValue null = Unit
IsValue (integer value) = IsI64 value
IsValue (text value) = is_utf8 value ≡ true
IsValue (boolean value) = Unit

-- Every digit is read back, and so none is a colon.
digit-hex_digit : (n : ℕ) → n < 16 → digit (hex_digit n) ≡ ok n
unfolding digit hex_digit
digit-hex_digit n h =
    all_below (λ n. digit (hex_digit n) ≡ ok n) 16 n
      (
        refl,
        (
          refl,
          (
            refl,
            (
              refl,
              (
                refl,
                (
                  refl,
                  (
                    refl,
                    (refl, (refl, (refl, (refl, (refl, (refl, (refl, (refl, (refl, tt))))))))),
                  ),
                ),
              ),
            ),
          ),
        ),
      )
      h

hex_digit-ne : (n : ℕ) → n < 16 → hex_digit n ≢ 58
unfolding digit
hex_digit-ne n h e = ground (arith, sym (ap digit e) ∙ digit-hex_digit n h)

unhex_pairs-hex : (bytes : Bytes) → All IsByte bytes → unhex_pairs (hex bytes) ≡ ok bytes
unfolding unhex_pairs hex
unhex_pairs-hex [] h = refl
unhex_pairs-hex (b ∷ bytes) h =
    rw
      (
        digit-hex_digit (b / 16) (omega (arith, h.0)),
        digit-hex_digit (b % 16) (omega (arith, h.0)),
        unhex_pairs-hex bytes h.1,
      )
      (ap (λ n. ok (n ∷ bytes)) (omega arith))

length-hex : (bytes : Bytes) → length (hex bytes) ≡ 2 * length bytes
unfolding hex
length-hex [] = refl
length-hex (b ∷ bytes) = omega (arith, length-hex bytes)

-- Hexadecimal text is decoded to the bytes that it was made of.
pub unhex-hex : (bytes : Bytes) → All IsByte bytes → unhex (hex bytes) ≡ ok bytes
unfolding unhex
unhex-hex bytes h = ground (arith, length-hex bytes, unhex_pairs-hex bytes h)

pub encode_value-IsByte : (value : Value) → IsValue value → All IsByte (encode_value value)
unfolding encode_value
encode_value-IsByte null h = (omega arith, tt)
encode_value-IsByte (integer value) h = (omega arith, to_le_bytes-IsByte 8 _)
encode_value-IsByte (text value) h = (omega arith, is_utf8-IsByte value h)
encode_value-IsByte (boolean true) h = (omega arith, (omega arith, tt))
encode_value-IsByte (boolean false) h = (omega arith, (omega arith, tt))

pub decode_value-encode_value :
    (value : Value) → IsValue value → decode_value (encode_value value) ≡ ok value
unfolding decode_value encode_value decode_tagged decode_boolean from_utf8
decode_value-encode_value null h = refl
decode_value-encode_value (integer value) h =
    rw
      (
        length-to_le_bytes 8 (to_bits value),
        from_le_bytes-to_le_bytes 8 (to_bits value) (to_bits-lt value h),
        from_bits-to_bits value h,
      )
      refl
decode_value-encode_value (text value) h = rw (h) refl
decode_value-encode_value (boolean true) h = refl
decode_value-encode_value (boolean false) h = refl

hex-Without : (bytes : Bytes) → All IsByte bytes → Without 58 (hex bytes)
unfolding hex
hex-Without [] h = tt
hex-Without (b ∷ bytes) h = (
  hex_digit-ne (b / 16) (omega (arith, h.0)),
  (hex_digit-ne (b % 16) (omega (arith, h.0)), hex-Without bytes h.1),
)

parts-Without :
    (row : List Value)
    → All IsValue row
    → All (Without 58) (map (λ value. hex (encode_value value)) row)
parts-Without [] h = tt
parts-Without (value ∷ row) h =
    (hex-Without (encode_value value) (encode_value-IsByte value h.0), parts-Without row h.1)

collect_values :
    (row : List Value)
    → All IsValue row
    → collect (λ part. unhex part >>= decode_value) (map (λ value. hex (encode_value value)) row)
      ≡ ok row
collect_values [] h = refl
collect_values (value ∷ row) h =
    rw
      (
        unhex-hex (encode_value value) (encode_value-IsByte value h.0),
        decode_value-encode_value value h.0,
        collect_values row h.1,
      )
      refl

-- A row that fits the columns of a schema.
abbrev pub Fits : List Value → List ColumnDef → Type 0
Fits [] [] = Unit
Fits (value ∷ row) (column ∷ columns) =
    (check_type value column.data_type ≡ ok tt) × Fits row columns
Fits _ _ = ⊥

Fits-check_types :
    (row : List Value) (columns : List ColumnDef)
    → Fits row columns
    → (check_types row columns ≡ ok tt) × (length row ≡ length columns)
unfolding check_types
Fits-check_types [] [] h = (refl, refl)
Fits-check_types [] (column ∷ columns) h = absurd h
Fits-check_types (value ∷ row) [] h = absurd h
Fits-check_types (value ∷ row) (column ∷ columns) h =
    let rest = Fits-check_types row columns h.1 in (rw (h.0, rest.0) refl, omega (arith, rest.1))

-- A row that fits its schema, and has a value at least, is decoded as it was encoded.
pub decode_row-encode_row :
    (schema : Schema) (value : Value) (row : List Value)
    → All IsValue (value ∷ row)
    → Fits (value ∷ row) schema.columns
    → decode_row (encode_row (value ∷ row)) schema ≡ ok (value ∷ row)
unfolding decode_row encode_row
decode_row-encode_row schema value row h fits =
    let (types, count) = Fits-check_types (value ∷ row) schema.columns fits in
    ground (
      arith,
      split-join 58 (hex (encode_value value)) (map (λ value. hex (encode_value value)) row)
          (parts-Without (value ∷ row) h),
      collect_values (value ∷ row) h,
      types,
      count,
    )
