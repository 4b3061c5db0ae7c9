-- ===== src/Catalog/Keys.antt =====
-- The keys of the rows of src/catalog.rs.
use nutdb.Prelude.{
  ◌≡◌, ◌↔◌, sym, ap, ◌∙◌, some, [], ◌∷◌, ◌++◌, arith, if◌then◌else◌, drop, drop-append, length,
  append_assoc,
}
use nutdb.Prelude.Io.{ok, input}
use nutdb.Bytes.{Bytes}
use nutdb.Sql.Ast.{Value}
use nutdb.Catalog.{Schema, row_prefix, row_key_for_primary}
use nutdb.Catalog.Values.{hex, unhex, encode_value, decode_value, is_null, has_type, check_type}
use nutdb.Catalog.Strings.{split, split_parts, Without}
use nutdb.Catalog.Rows.{IsValue, unhex-hex, encode_value-IsByte, decode_value-encode_value}
use nutdb.Catalog.Schemas.{IsValid, primary_index-IsValid}

-- With a valid schema a key is computed without a panic: a value that is null or has not the type
-- of the primary column is refused, and any other gives the prefix of the table and the value.
pub row_key_for_primary_lem :
    (schema : Schema) (v : IsValid schema) (primary : Value)
    → row_key_for_primary schema primary
      ≡ some (
          if is_null primary
          then input "sql: primary key cannot be NULL"
          else if has_type primary v.key_column.data_type
          then ok (row_prefix schema.name ++ hex (encode_value primary))
          else input "sql: value has the wrong column type")
unfolding row_key_for_primary check_type
row_key_for_primary_lem schema v primary = ground (arith, primary_index-IsValid schema v, v.at_key)

-- What a key is made of.
row_key_for_primary_shape :
    (schema : Schema) (primary : Value) (key : Bytes)
    → row_key_for_primary schema primary ≡ some (ok key)
    → key ≡ row_prefix schema.name ++ hex (encode_value primary)
unfolding row_key_for_primary
row_key_for_primary_shape schema primary key h = ground arith

append_cancel : (front xs ys : Bytes) → front ++ xs ≡ front ++ ys → xs ≡ ys
append_cancel front xs ys e =
    sym (drop-append front xs) ∙ ap (drop (length front)) e ∙ drop-append front ys

-- Two rows of a table have the same key only if they have the same primary value.
pub row_key_for_primary-inj :
    (schema : Schema) (v w : Value) (key : Bytes)
    → IsValue v
    → IsValue w
    → row_key_for_primary schema v ≡ some (ok key)
    → row_key_for_primary schema w ≡ some (ok key)
    → v ≡ w
row_key_for_primary-inj schema v w key hv hw e f =
    let shapes =
      sym (row_key_for_primary_shape schema v key e) ∙ row_key_for_primary_shape schema w key f in
    let hexes = append_cancel (row_prefix schema.name) _ _ shapes in
    let bytes =
      sym (unhex-hex (encode_value v) (encode_value-IsByte v hv))
      ∙ ap unhex hexes
      ∙ unhex-hex (encode_value w) (encode_value-IsByte w hw) in
    let same_bytes : encode_value v ≡ encode_value w = ground arith in
    let values =
      sym (decode_value-encode_value v hv)
      ∙ ap decode_value same_bytes
      ∙ decode_value-encode_value w hw in
    ground arith

-- A key of a row begins with the prefix of a table exactly if the row is of that table, provided
-- that neither name has a colon.
pub row_key_for_primary_prefix :
    (schema : Schema) (primary : Value) (key table : Bytes)
    → Without 58 schema.name
    → Without 58 table
    → row_key_for_primary schema primary ≡ some (ok key)
    → ((rest : Bytes) × (key ≡ row_prefix table ++ rest)) ↔ (table ≡ schema.name)
unfolding row_prefix
row_key_for_primary_prefix schema primary key table hn ht e =
    let shape = row_key_for_primary_shape schema primary key e in
    (
      λ (rest, begins). same_table rest (sym begins ∙ shape),
      λ same_table. (
        hex (encode_value primary),
        shape ∙ ap (λ n. row_prefix n ++ hex (encode_value primary)) (sym same_table),
      ),
    )
  where
    same_table :
        (rest : Bytes)
        → row_prefix table ++ rest ≡ row_prefix schema.name ++ hex (encode_value primary)
        → table ≡ schema.name
    same_table rest e' =
        let value = hex (encode_value primary) in
        let cut : table ++ 58 ∷ [] ++ rest ≡ (schema.name ++ 58 ∷ []) ++ value = ap (drop 6) e' in
        let flat : table ++ 58 ∷ rest ≡ schema.name ++ 58 ∷ value =
          sym (append_assoc table (58 ∷ []) rest)
          ∙ cut
          ∙ append_assoc schema.name (58 ∷ []) value in
        let parts =
          sym (split_parts 58 table rest ht)
          ∙ ap (split 58) flat
          ∙ split_parts 58 schema.name value hn in
        ground arith
