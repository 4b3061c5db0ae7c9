-- ===== src/Catalog.antt =====
-- src/catalog.rs: the schemas of the tables and the encoding of their rows. A `String` is its
-- UTF-8 bytes, and splitting one at an ASCII character splits its bytes.
pub mod Strings
pub mod Values
pub mod Rows
pub mod Schemas
pub mod Stored
pub mod Keys
mod Examples
use nutdb.Prelude.{
  ℕ, zero, suc, ◌+◌, ◌*◌, ◌/◌, ◌%◌, ◌-◌, Bool, true, false, not, ◌&&◌, ◌||◌, Option, none, some,
  List, [], ◌∷◌, ◌++◌, leb, ◌==◌, if◌then◌else◌, length, get_elem?, drop, map,
}
use nutdb.Prelude.Io.{Error, Result, ok, err, invalid, input, ◌>>=◌, ◌>>◌}
use nutdb.Prelude.Int.{ℤ, to_bits, from_bits}
use nutdb.Prelude.Order.{same, bytes_order}
use nutdb.Bytes.{Bytes, to_le_bytes, from_le_bytes, from_utf8}
use nutdb.Sql.Ast.{ColumnDef, DataType, Value, null, integer, text, boolean}
use nutdb.Txn.Ops
use nutdb.Txn.Ops.{Inner, Transaction, TxnError}
use nutdb.Catalog.Strings.{join, split, lines}
use nutdb.Catalog.Values.{
  digits, hex_digit, hex, digit, unhex_pairs, unhex, encode_value, decode_boolean, decode_tagged,
  decode_value, is_null, has_type, check_type,
}

pub record Schema : Type 0 where
  pub name : Bytes
  pub columns : List ColumnDef

abbrev pub any {ℓ} : {A : Type ℓ} → (A → Bool) → List A → Bool
any p [] = false
any p (x ∷ xs) = p x || any p xs

abbrev pub position {ℓ} : {A : Type ℓ} → (A → Bool) → List A → Option ℕ
position p [] = none
position p (x ∷ xs) =
    if p x then some 0 else elim (position p xs) [ none ↦ none | some i ↦ some (suc i) ]

-- `iter().map(step).collect::<io::Result<Vec<_>>>()`: the first error ends it.
abbrev pub collect {ℓ} : {A B : Type ℓ} → (A → Result B) → List A → Result (List B)
collect step [] = ok []
collect step (x ∷ xs) = step x >>= λ y. collect step xs >>= λ ys. ok (y ∷ ys)

abbrev pub same_name : Bytes → ColumnDef → Bool
same_name name column = same ⦃o = bytes_order⦄ column.name name

-- How many columns are marked as primary key.
unfoldable pub primary_keys : List ColumnDef → ℕ
primary_keys [] = 0
primary_keys (column ∷ columns) = (if column.primary_key then 1 else 0) + primary_keys columns

-- The loop of `validate` over the columns that follow the `earlier` ones.
unfoldable pub has_duplicate : List ColumnDef → List ColumnDef → Bool
has_duplicate earlier [] = false
has_duplicate earlier (column ∷ columns) =
    any (same_name column.name) earlier || has_duplicate (earlier ++ column ∷ []) columns

unfoldable pub validate : Schema → Result (Unit {0})
validate schema = elim schema.columns [
  | [] ↦ input "catalog: table needs at least one column"
  | column ∷ columns ↦
      if not (primary_keys (column ∷ columns) == 1)
      then input "catalog: table needs exactly one primary key"
      else if has_duplicate [] (column ∷ columns)
      then input "catalog: duplicate column"
      else ok tt
]

-- `none` is the panic of `expect`, which a validated schema does not meet.
unfoldable pub primary_index : Schema → Option ℕ
primary_index schema = position (λ (c : ColumnDef). c.primary_key) schema.columns

unfoldable pub column_index : Schema → Bytes → Option ℕ
column_index schema name = position (same_name name) schema.columns

-- `__CATALOG:` and `__ROW:`
abbrev pub catalog_prefix : Bytes
catalog_prefix = 95 ∷ 95 ∷ 67 ∷ 65 ∷ 84 ∷ 65 ∷ 76 ∷ 79 ∷ 71 ∷ 58 ∷ []

abbrev pub row_prefix_start : Bytes
row_prefix_start = 95 ∷ 95 ∷ 82 ∷ 79 ∷ 87 ∷ 58 ∷ []

unfoldable pub catalog_key : Bytes → Bytes
catalog_key table = catalog_prefix ++ table

unfoldable pub row_prefix : Bytes → Bytes
row_prefix table = row_prefix_start ++ (table ++ 58 ∷ [])

unfoldable pub encode_row : List Value → Bytes
encode_row row = join 58 (map (λ value. hex (encode_value value)) row)

-- The loop over the values zipped with the columns.
unfoldable pub check_types : List Value → List ColumnDef → Result (Unit {0})
check_types (value ∷ values) (column ∷ columns) =
    check_type value column.data_type >> check_types values columns
check_types _ _ = ok tt

unfoldable pub decode_row : Bytes → Schema → Result (List Value)
decode_row encoded schema = do
  values ← collect (λ part. unhex part >>= decode_value) (split 58 encoded)
  if not (length values == length schema.columns)
      then invalid "catalog: row column count mismatch"
      else check_types values schema.columns >> ok values

unfoldable pub kind_letter : DataType → Bytes
kind_letter DataType.integer = 73 ∷ []
kind_letter DataType.text = 84 ∷ []
kind_letter DataType.boolean = 66 ∷ []

-- `{name}|{kind}|{flag}`
unfoldable pub encode_column : ColumnDef → Bytes
encode_column column =
    column.name
    ++ 124 ∷ (kind_letter column.data_type ++ 124 ∷ (if column.primary_key then 49 else 48) ∷ [])

unfoldable pub encode_schema : Schema → Bytes
encode_schema schema = join 10 (map encode_column schema.columns)

unfoldable pub decode_kind : Bytes → Result DataType
decode_kind kind =
    if same ⦃o = bytes_order⦄ kind (73 ∷ [])
    then ok DataType.integer
    else if same ⦃o = bytes_order⦄ kind (84 ∷ [])
    then ok DataType.text
    else if same ⦃o = bytes_order⦄ kind (66 ∷ [])
    then ok DataType.boolean
    else invalid "catalog: unknown column type"

unfoldable pub decode_flag : Bytes → Result Bool
decode_flag flag =
    if same ⦃o = bytes_order⦄ flag (48 ∷ [])
    then ok false
    else if same ⦃o = bytes_order⦄ flag (49 ∷ [])
    then ok true
    else invalid "catalog: malformed primary-key flag"

unfoldable pub decode_fields : List Bytes → Result ColumnDef
decode_fields (name ∷ kind ∷ flag ∷ []) = do
  data_type ← decode_kind kind
  primary_key ← decode_flag flag
  ok (record { name = name; data_type = data_type; primary_key = primary_key })
decode_fields _ = invalid "catalog: malformed schema"

unfoldable pub decode_schema : Bytes → Bytes → Result Schema
decode_schema name encoded = do
  columns ← collect (λ line. decode_fields (split 124 line)) (lines encoded)
  let schema : Schema = record { name = name; columns = columns }
  validate schema
  ok schema

-- What may panic: `none` is the panic.
unfoldable pub row_key_for_primary : Schema → Value → Option (Result Bytes)
row_key_for_primary schema primary =
    if is_null primary
    then some (input "sql: primary key cannot be NULL")
    else elim (primary_index schema) [
      | none ↦ none
      | some index ↦ elim (get_elem? schema.columns index) [
        | none ↦ none
        | some column ↦ some (
            check_type primary column.data_type
            >> ok (row_prefix schema.name ++ hex (encode_value primary)))
      ]
    ]

unfoldable pub row_key : Schema → List Value → Option (Result Bytes)
row_key schema row = elim (primary_index schema) [
  | none ↦ none
  | some index ↦ elim (get_elem? row index) [
    | none ↦ some (input "sql: row does not match schema")
    | some primary ↦
        if is_null primary
        then some (input "sql: primary key cannot be NULL")
        else row_key_for_primary schema primary
  ]
]

unfoldable pub txn_error {ℓ} : {A : Type ℓ} → TxnError → Result A
txn_error (TxnError.io error) = err error
txn_error (TxnError.conflict key) = input "write conflict on key"
txn_error TxnError.finished = input "transaction is already finished"

-- `map_err(txn_error)`
unfoldable pub map_err {ℓ} : {A : Type ℓ} → Ops.Outcome A → Result A
map_err (Ops.failed error) = txn_error error
map_err (Ops.done a) = ok a

unfoldable pub load_schema : Inner → Transaction → Bytes → Result Schema
load_schema inner txn table = do
  found ← map_err (Ops.get inner txn (catalog_key table))
  elim found [ none ↦ input "sql: unknown table" | some encoded ↦ decode_schema table encoded ]

-- A schema that is not valid leaves the transaction as it is.
unfoldable pub save_schema : Schema → Inner → Transaction → Result (Unit {0}) × Inner × Transaction
save_schema schema inner txn = elim (validate schema) [
  | err error ↦ (err error, inner, txn)
  | ok _ ↦
      let (result, inner', txn') =
        Ops.set (catalog_key schema.name) (encode_schema schema) inner txn in
      (map_err result, inner', txn')
]
