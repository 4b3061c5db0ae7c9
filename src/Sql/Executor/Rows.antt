-- ===== src/Sql/Executor/Rows.antt =====
-- The reading half of src/sql/executor.rs: rows, their order and their projection.
use nutdb.Prelude.{
  ℕ, zero, suc, Bool, true, false, Option, none, some, List, [], ◌∷◌, if◌then◌else◌, get_elem?,
  length, map, take,
}
use Prim.Native.Nat.{Ordering}
use nutdb.Prelude.Io
use nutdb.Prelude.Io.{Result, ok, err, input}
use nutdb.Prelude.Int.{compare_int}
use nutdb.Prelude.Order.{compare_bytes}
use nutdb.Bytes.{Bytes}
use nutdb.Sql.Ast.{ColumnDef, Projection, Select, SqlResult, Value, null, integer, text, boolean}
use nutdb.Sql.Plan.{Plan, full_scan, primary_key, plan_select}
use nutdb.Sql.Filter.{Eval, ◌>>=◌, compare_bool, filter_rows}
use nutdb.Catalog.{
  Schema, collect, column_index, load_schema, map_err, row_key_for_primary, row_prefix, decode_row,
}
use nutdb.Catalog.Values.{is_null}
use nutdb.Txn.Ops
use nutdb.Txn.Ops.{Inner, Transaction}
use nutdb.Txn.Scan.{scan_prefix}

unfoldable pub decode_pair : Schema → Bytes × Bytes → Result (Bytes × List Value)
decode_pair schema (key, encoded) = Io.◌>>=◌ (decode_row encoded schema) λ row. ok (key, row)

unfoldable pub all_rows : Inner → Transaction → Schema → Result (List (Bytes × List Value))
all_rows inner txn schema =
    Io.◌>>=◌ (map_err (scan_prefix inner txn (row_prefix schema.name)))
      λ pairs. collect (decode_pair schema) pairs

unfoldable pub row_of : Option Bytes → Schema → Result (List (List Value))
row_of none schema = ok []
row_of (some encoded) schema = Io.◌>>=◌ (decode_row encoded schema) λ row. ok (row ∷ [])

unfoldable pub access_rows : Inner → Transaction → Schema → Plan → Eval (List (List Value))
access_rows inner txn schema plan = elim plan.access [
  | full_scan ↦ some (Io.◌>>=◌ (all_rows inner txn schema) λ rows. ok (map (λ pair. pair.1) rows))
  | primary_key value ↦
      if is_null value
      then some (ok [])
      else (row_key_for_primary schema value >>= λ key.
          some (map_err (Ops.get inner txn key)) >>= λ found. some (row_of found schema))
]

-- The derived order of `Value`, in which `Null` is first.
unfoldable pub rank : Value → ℕ
rank null = 0
rank (integer _) = 1
rank (text _) = 2
rank (boolean _) = 3

unfoldable pub compare_for_sort : Value → Value → Ordering
compare_for_sort (integer a) (integer b) = compare_int a b
compare_for_sort (text a) (text b) = compare_bytes a b
compare_for_sort (boolean a) (boolean b) = compare_bool a b
compare_for_sort a b = Prim.Native.Nat.compare (rank a) (rank b)

-- Whether a row with the value `a` stays before one with `b`.
unfoldable pub stays_before : Bool → Value → Value → Bool
stays_before true a b = elim (compare_for_sort a b) [ Ordering.gt ↦ false | _ ↦ true ]
stays_before false a b = elim (compare_for_sort a b) [ Ordering.lt ↦ false | _ ↦ true ]

-- `sort_by` keeps the order of rows that compare as equal.
unfoldable pub insert_sorted :
    Bool → Value × List Value → List (Value × List Value) → List (Value × List Value)
insert_sorted ascending row [] = row ∷ []
insert_sorted ascending row (other ∷ rows) =
    let later = insert_sorted ascending row rows in
    if stays_before ascending row.0 other.0 then row ∷ other ∷ rows else other ∷ later

unfoldable pub sort_keyed : Bool → List (Value × List Value) → List (Value × List Value)
sort_keyed ascending [] = []
sort_keyed ascending (row ∷ rows) = insert_sorted ascending row (sort_keyed ascending rows)

-- The values of rows, each in one place; `none` is the panic of an index.
unfoldable pub pick : List ℕ → List Value → Option (List Value)
pick [] row = some []
pick (index ∷ indexes) row = elim (get_elem? row index) [
  | none ↦ none
  | some value ↦ elim (pick indexes row) [ none ↦ none | some values ↦ some (value ∷ values) ]
]

unfoldable pub pick_all : List ℕ → List (List Value) → Option (List (List Value))
pick_all indexes [] = some []
pick_all indexes (row ∷ rows) = elim (pick indexes row) [
  | none ↦ none
  | some values ↦ elim (pick_all indexes rows) [ none ↦ none | some more ↦ some (values ∷ more) ]
]

unfoldable pub keyed : ℕ → List (List Value) → Option (List (Value × List Value))
keyed index [] = some []
keyed index (row ∷ rows) = elim (get_elem? row index) [
  | none ↦ none
  | some value ↦ elim (keyed index rows) [ none ↦ none | some more ↦ some ((value, row) ∷ more) ]
]

unfoldable pub sort_rows :
    Option (Bytes × Bool) → Schema → List (List Value) → Eval (List (List Value))
sort_rows none schema rows = some (ok rows)
sort_rows (some (name, ascending)) schema rows = elim (column_index schema name) [
  | none ↦ some (input "sql: unknown ORDER BY column")
  | some index ↦ elim (keyed index rows) [
    | none ↦ none
    | some pairs ↦ some (ok (map (λ pair. pair.1) (sort_keyed ascending pairs)))
  ]
]

unfoldable pub truncate : Option ℕ → List (List Value) → List (List Value)
truncate none rows = rows
truncate (some limit) rows = take limit rows

unfoldable pub column_indexes : Schema → List Bytes → Result (List ℕ)
column_indexes schema names =
    collect
      (λ name. elim (column_index schema name) [
        | none ↦ input "sql: unknown column"
        | some index ↦ ok index
      ])
      names

-- `(from..from + count)`
unfoldable pub indexes_from : ℕ → ℕ → List ℕ
indexes_from from zero = []
indexes_from from (suc count) = from ∷ indexes_from (suc from) count

unfoldable pub projection : Schema → Projection → Result (List Bytes × List ℕ)
projection schema Projection.all =
    ok (map (λ (c : ColumnDef). c.name) schema.columns, indexes_from 0 (length schema.columns))
projection schema (Projection.columns names) =
    Io.◌>>=◌ (column_indexes schema names) λ indexes. ok (names, indexes)

unfoldable pub project : Schema → Projection → List (List Value) → Eval SqlResult
project schema shown rows = some (projection schema shown) >>= λ (names, indexes).
    elim (pick_all indexes rows) [
      | none ↦ none
      | some picked ↦ some (ok (SqlResult.rows names picked))
    ]

unfoldable pub planned : Select → Schema → Eval Plan
planned select schema = elim (plan_select select schema) [
  | none ↦ none
  | some plan ↦ some (ok plan)
]

unfoldable pub select_rows : Inner → Transaction → Select → Eval SqlResult
select_rows inner txn select = some (load_schema inner txn select.table) >>= λ schema.
    planned select schema >>= λ plan. access_rows inner txn schema plan >>= λ rows.
    filter_rows select.filter schema rows >>= λ kept.
    sort_rows select.order_by schema kept >>= λ sorted.
    project schema select.projection (truncate select.limit sorted)
