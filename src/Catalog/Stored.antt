-- ===== src/Catalog/Stored.antt =====
-- Schemas as src/catalog.rs keeps them in the store.
use nutdb.Prelude.{
  ℕ, ◌≡◌, ◌≢◌, refl, sym, ap, ◌∙◌, Bool, true, false, some, List, [], ◌∷◌, ◌++◌, arith, map,
  if◌then◌else◌, All, All-append, append_assoc,
}
use nutdb.Prelude.Io.{ok}
use nutdb.Prelude.Order.{bytes_order, same, same_iff}
use nutdb.Prelude.TreeMap
use nutdb.Bytes.{Bytes}
use nutdb.Sql.Ast.{ColumnDef, DataType}
use nutdb.Txn.Ops
use nutdb.Txn.Ops.{Inner, Transaction, TxnError}
use nutdb.Catalog.{
  Schema, collect, encode_column, encode_schema, kind_letter, decode_kind, decode_flag,
  decode_fields, decode_schema, validate, save_schema, load_schema, catalog_key, map_err, txn_error,
}
use nutdb.Catalog.Strings.{join, split, split-join, lines, lines-join, lines_of, Without, IsLine}

-- The name has neither the mark between the fields nor a line feed.
abbrev pub IsName : Bytes → Type 0
IsName name = Without 124 name × Without 10 name

flag : Bool → ℕ
flag primary_key = if primary_key then 49 else 48

unfoldable fields : ColumnDef → List Bytes
unfolding flag
fields c = c.name ∷ kind_letter c.data_type ∷ (flag c.primary_key ∷ []) ∷ []

kind_letter-Without :
    (b : ℕ) (kind : DataType) → b ≢ 73 → b ≢ 84 → b ≢ 66 → Without b (kind_letter kind)
unfolding kind_letter
kind_letter-Without b DataType.integer i t o = (λ e. i (sym e), tt)
kind_letter-Without b DataType.text i t o = (λ e. t (sym e), tt)
kind_letter-Without b DataType.boolean i t o = (λ e. o (sym e), tt)

decode_kind-kind_letter : (kind : DataType) → decode_kind (kind_letter kind) ≡ ok kind
unfolding decode_kind kind_letter
decode_kind-kind_letter DataType.integer = refl
decode_kind-kind_letter DataType.text = refl
decode_kind-kind_letter DataType.boolean = refl

flag-ne : (key : Bool) (b : ℕ) → b ≢ 48 → b ≢ 49 → flag key ≢ b
unfolding flag
flag-ne true b z o e = o (sym e)
flag-ne false b z o e = z (sym e)

decode_flag_flag : (key : Bool) → decode_flag (flag key ∷ []) ≡ ok key
unfolding decode_flag flag
decode_flag_flag true = refl
decode_flag_flag false = refl

split-encode_column : (c : ColumnDef) → IsName c.name → split 124 (encode_column c) ≡ fields c
unfolding encode_column fields join flag
split-encode_column c name =
    split-join 124 c.name (kind_letter c.data_type ∷ (flag c.primary_key ∷ []) ∷ []) (
      name.0,
      (
        kind_letter-Without 124 c.data_type (omega arith) (omega arith) (omega arith),
        ((flag-ne c.primary_key 124 (omega arith) (omega arith), tt), tt),
      ),
    )

decode_fields-fields : (c : ColumnDef) → decode_fields (fields c) ≡ ok c
unfolding decode_fields fields
decode_fields-fields c =
    rw (decode_kind-kind_letter c.data_type, decode_flag_flag c.primary_key) refl

encode_column-IsLine : (c : ColumnDef) → IsName c.name → IsLine (encode_column c)
unfolding encode_column flag
encode_column-IsLine c name =
    let front = c.name ++ 124 ∷ (kind_letter c.data_type ++ 124 ∷ []) in
    let last = flag c.primary_key in
    let whole : encode_column c ≡ front ++ last ∷ [] =
      ap (λ t. c.name ++ 124 ∷ t)
        (sym (append_assoc (kind_letter c.data_type) (124 ∷ []) (last ∷ [])))
      ∙ sym (append_assoc c.name (124 ∷ (kind_letter c.data_type ++ 124 ∷ [])) (last ∷ [])) in
    let kind = kind_letter-Without 10 c.data_type (omega arith) (omega arith) (omega arith) in
    (
      front,
      last,
      whole,
      flag-ne c.primary_key 13 (omega arith) (omega arith),
      All-append (λ b. b ≢ 10) c.name (124 ∷ (kind_letter c.data_type ++ 124 ∷ last ∷ [])) name.1
          (
            omega arith,
            All-append (λ b. b ≢ 10) (kind_letter c.data_type) (124 ∷ last ∷ []) kind
                (omega arith, (flag-ne c.primary_key 10 (omega arith) (omega arith), tt)),
          ),
    )

-- All names of a schema are such.
abbrev pub Named : List ColumnDef → Type 0
Named columns = All (λ (c : ColumnDef). IsName c.name) columns

columns-IsLine : (columns : List ColumnDef) → Named columns → All IsLine (map encode_column columns)
columns-IsLine [] h = tt
columns-IsLine (c ∷ columns) h = (encode_column-IsLine c h.0, columns-IsLine columns h.1)

collect_columns :
    (columns : List ColumnDef)
    → Named columns
    → collect (λ line. decode_fields (split 124 line)) (map encode_column columns) ≡ ok columns
collect_columns [] h = refl
collect_columns (c ∷ columns) h =
    rw (split-encode_column c h.0, decode_fields-fields c, collect_columns columns h.1) refl

lines_columns :
    (columns : List ColumnDef)
    → Named columns
    → lines (join 10 (map encode_column columns)) ≡ map encode_column columns
unfolding lines join lines_of split
lines_columns [] h = refl
lines_columns (c ∷ columns) h =
    lines-join (encode_column c) (map encode_column columns) (columns-IsLine (c ∷ columns) h)

-- A valid schema whose names have no bar and no line feed is decoded as it was encoded.
pub decode_schema-encode_schema :
    (schema : Schema)
    → validate schema ≡ ok tt
    → Named schema.columns
    → decode_schema schema.name (encode_schema schema) ≡ ok schema
unfolding decode_schema encode_schema
decode_schema-encode_schema schema valid named =
    rw (lines_columns schema.columns named, collect_columns schema.columns named, valid) refl

-- A write that succeeds is read again by the transaction that made it.
get-set :
    (key value : Bytes) (inner inner' : Inner) (txn txn' : Transaction)
    → Ops.set key value inner txn ≡ (Ops.done tt, inner', txn')
    → Ops.get inner' txn' key ≡ Ops.done (some value)
unfolding Ops.set Ops.write Ops.get
get-set key value inner inner' txn txn' h =
    let same_key : same ⦃o = bytes_order⦄ key key ≡ true =
      (same_iff ⦃o = bytes_order⦄ key key).1 refl in
    ground
      (arith, h, TreeMap.get-insert ⦃o = bytes_order⦄ key key (some value) txn.writes, same_key)

map_err-done : (r : Ops.Outcome (Unit {0})) → map_err r ≡ ok tt → r ≡ Ops.done tt
unfolding map_err txn_error
map_err-done (Ops.failed (TxnError.io e)) h = ground arith
map_err-done (Ops.failed (TxnError.conflict key)) h = ground arith
map_err-done (Ops.failed TxnError.finished) h = ground arith
map_err-done (Ops.done tt) h = refl

-- If saving a schema succeeds, the same transaction loads it again, provided that its names have
-- no bar and no line feed.
pub load_schema-save_schema :
    (schema : Schema) (inner inner' : Inner) (txn txn' : Transaction)
    → Named schema.columns
    → save_schema schema inner txn ≡ (ok tt, inner', txn')
    → load_schema inner' txn' schema.name ≡ ok schema
unfolding save_schema load_schema map_err
load_schema-save_schema schema inner inner' txn txn' named saved =
    let valid : validate schema ≡ ok tt = ground arith in
    let fine =
      map_err-done (Ops.set (catalog_key schema.name) (encode_schema schema) inner txn).0
        (ground arith) in
    let written : Ops.set (catalog_key schema.name) (encode_schema schema) inner txn
        ≡ (Ops.done tt, inner', txn') =
      ground arith in
    rw (get-set (catalog_key schema.name) (encode_schema schema) inner inner' txn txn' written)
      (decode_schema-encode_schema schema valid named)
