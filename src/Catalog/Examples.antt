-- ===== src/Catalog/Examples.antt =====
-- A table of src/catalog.rs, its rows and its keys.
use nutdb.Prelude.{◌≡◌, ◌↔◌, refl, true, false, some, List, [], ◌∷◌, ◌++◌, arith}
use nutdb.Prelude.Int.{negsuc, to_bits}
use nutdb.Prelude.Io.{ok}
use nutdb.Bytes.{Bytes, is_utf8, to_le_bytes}
use nutdb.Wal.{append}
use nutdb.Sql.Ast.{DataType, Value, null, integer, text}
use nutdb.Txn.Codec
use nutdb.Txn.Ops
use nutdb.Txn.Ops.{Inner, Transaction}
use nutdb.Catalog.{
  Schema, validate, has_duplicate, primary_keys, encode_row, decode_row, row_key_for_primary,
  primary_index, row_prefix, save_schema, load_schema, map_err, catalog_key, encode_schema,
  encode_column, kind_letter,
}
use nutdb.Catalog.Values.{check_type, has_type, is_null, hex, hex_digit, encode_value}
use nutdb.Catalog.Strings.{join}
use nutdb.Catalog.Rows.{decode_row-encode_row}
use nutdb.Catalog.Schemas.{IsValid, validate-IsValid}
use nutdb.Catalog.Stored.{Named, load_schema-save_schema}
use nutdb.Catalog.Keys.{row_key_for_primary-inj, row_key_for_primary_prefix}

-- `T (ID INTEGER PRIMARY KEY, A TEXT, B BOOLEAN)`
abbrev table_t : Schema
table_t = record {
  name = 84 ∷ [];
  columns =
      record { name = 73 ∷ 68 ∷ []; data_type = DataType.integer; primary_key = true }
      ∷ record { name = 65 ∷ []; data_type = DataType.text; primary_key = false }
      ∷ record { name = 66 ∷ []; data_type = DataType.boolean; primary_key = false }
      ∷ [];
}

-- `(-2, 'ü', NULL)`
abbrev row_one : List Value
row_one = text (195 ∷ 188 ∷ []) ∷ null ∷ []

validate-IsValid_example : (validate table_t ≡ ok tt) ↔ IsValid table_t
validate-IsValid_example = validate-IsValid table_t

decode_row-encode_row_example :
    decode_row (encode_row (integer (negsuc 1) ∷ row_one)) table_t
    ≡ ok (integer (negsuc 1) ∷ row_one)
unfolding check_type has_type is_null is_utf8
decode_row-encode_row_example =
    decode_row-encode_row table_t (integer (negsuc 1)) row_one (omega arith, (refl, (tt, tt)))
      (refl, (refl, (refl, tt)))

-- The key of `-2`
abbrev key_two : Bytes
key_two =
    95 ∷ 95 ∷ 82 ∷ 79 ∷ 87 ∷ 58 ∷ 84 ∷ 58 ∷ 52 ∷ 57 ∷ 102 ∷ 101 ∷ 102 ∷ 102 ∷ 102 ∷ 102 ∷ 102 ∷ 102
    ∷ 102 ∷ 102 ∷ 102 ∷ 102 ∷ 102 ∷ 102 ∷ 102 ∷ 102 ∷ []

key_runs : row_key_for_primary table_t (integer (negsuc 1)) ≡ some (ok key_two)
unfolding row_key_for_primary primary_index check_type has_type is_null row_prefix hex hex_digit
    encode_value to_le_bytes to_bits
key_runs = refl

row_key_for_primary-inj_example : ◌≡◌ {A = Value} (integer (negsuc 1)) (integer (negsuc 1))
row_key_for_primary-inj_example =
    row_key_for_primary-inj table_t (integer (negsuc 1)) (integer (negsuc 1)) key_two (omega arith)
      (omega arith) key_runs key_runs

-- The row is none of the table `TA`.
row_key_for_primary_prefix_example :
    ((rest : Bytes) × (key_two ≡ row_prefix (84 ∷ 65 ∷ []) ++ rest))
    ↔ (◌≡◌ {A = Bytes} (84 ∷ 65 ∷ []) (84 ∷ []))
row_key_for_primary_prefix_example =
    row_key_for_primary_prefix table_t (integer (negsuc 1)) key_two (84 ∷ 65 ∷ []) (omega arith, tt)
      (omega arith, (omega arith, tt)) key_runs

abbrev empty_store : Inner
empty_store = record {
  wal = record { file = []; synced = 0 };
  versions = [];
  active = (1, 0) ∷ [];
  next_txn = 2;
  commit_ts = 0;
}

abbrev create : Transaction
create = record { id = 1; snapshot = 0; writes = []; finished = false }

saved_runs : save_schema table_t empty_store create ≡ (
  ok tt,
  (save_schema table_t empty_store create).1,
  (save_schema table_t empty_store create).2,
)
unfolding save_schema validate primary_keys has_duplicate map_err Ops.set Ops.write Ops.log_record
    Codec.encode Codec.put_u64 Codec.put_string append catalog_key encode_schema join encode_column
    kind_letter to_le_bytes
saved_runs = refl

load_schema-save_schema_example :
    load_schema
      (save_schema table_t empty_store create).1
      (save_schema table_t empty_store create).2
      table_t.name
    ≡ ok table_t
load_schema-save_schema_example =
    load_schema-save_schema table_t empty_store (save_schema table_t empty_store create).1 create
      (save_schema table_t empty_store create).2 named saved_runs
  where
    named : Named table_t.columns
    named = (
      ((omega arith, (omega arith, tt)), (omega arith, (omega arith, tt))),
      (((omega arith, tt), (omega arith, tt)), (((omega arith, tt), (omega arith, tt)), tt)),
    )
