-- ===== src/Sql/Executor.antt =====
-- src/sql/executor.rs: the statements over the transactions of Txn. A statement works on a
-- `Session`: the store, and the transaction that it passes around.
pub mod Rows
pub mod Engine
pub mod Keeps
pub mod Failed
mod Examples
use nutdb.Prelude.{
  ℕ, suc, Bool, true, false, not, Option, none, some, List, [], ◌∷◌, ◌+◌, ◌==◌, if◌then◌else◌,
  get_elem?, set, length, replicate,
}
use nutdb.Prelude.Io
use nutdb.Prelude.Io.{Result, ok, err, input}
use nutdb.Prelude.Order.{same, bytes_order}
use nutdb.Bytes.{Bytes}
use nutdb.Sql.Ast.{ColumnDef, Expr, Select, SqlResult, Statement, Value, null}
use nutdb.Sql.Filter
use nutdb.Sql.Filter.{Eval, matches_filter}
use nutdb.Sql.Executor.Rows.{all_rows, select_rows}
use nutdb.Sql.Plan.{Plan}
use nutdb.Catalog.{
  Schema, validate, column_index, load_schema, save_schema, map_err, catalog_key, row_key,
  encode_row,
}
use nutdb.Catalog.Values.{check_type}
use nutdb.Txn.Ops
use nutdb.Txn.Ops.{Inner, Transaction}

pub record Session : Type 0 where
  pub inner : Inner
  pub txn : Transaction

-- A step of a statement; what was written before an error stays in the transaction.
abbrev pub Step : Type 0 → Type 0
Step A = Session → Eval A × Session

module _ {A : Type 0} where
  unfoldable pub pure : A → Step A
  pure a s = (some (ok a), s)

  unfoldable pub lift : Eval A → Step A
  lift e s = (e, s)

module _ {A B : Type 0} where
  abbrev pub continue : Eval A × Session → (A → Step B) → Eval B × Session
  continue (none, s) f = (none, s)
  continue (some (err e), s) f = (some (err e), s)
  continue (some (ok a), s) f = f a s

  infixl 5 ◌>>=◌ ◌>>◌
  abbrev pub ◌>>=◌ : Step A → (A → Step B) → Step B
  ◌>>=◌ m f s = continue (m s) f

  abbrev pub ◌>>◌ : Step A → Step B → Step B
  m >> n = m >>= λ _. n

unfoldable pub get_key : Bytes → Step (Option Bytes)
get_key key s = (some (map_err (Ops.get s.inner s.txn key)), s)

unfoldable pub set_key : Bytes → Bytes → Step (Unit {0})
set_key key value s =
    let (result, inner, txn) = Ops.set key value s.inner s.txn in
    (some (map_err result), record { inner = inner; txn = txn })

unfoldable pub delete_key : Bytes → Step (Unit {0})
delete_key key s =
    let (result, inner, txn) = Ops.delete key s.inner s.txn in
    (some (map_err result), record { inner = inner; txn = txn })

unfoldable pub save : Schema → Step (Unit {0})
save schema s =
    let (result, inner, txn) = save_schema schema s.inner s.txn in
    (some result, record { inner = inner; txn = txn })

unfoldable pub load : Bytes → Step Schema
load table s = (some (load_schema s.inner s.txn table), s)

unfoldable pub scan : Schema → Step (List (Bytes × List Value))
scan schema s = (some (all_rows s.inner s.txn schema), s)

unfoldable pub create_table : Bytes → List ColumnDef → Step SqlResult
create_table table columns = do
  let schema : Schema = record { name = table; columns = columns }
  lift (some (validate schema))
  found ← get_key (catalog_key table)
  elim found [
    | some encoded ↦ lift (some (input "sql: table already exists"))
    | none ↦ save schema >> pure (SqlResult.affected 0)
  ]

-- A value for the column at an index; `none` is the panic of an index.
unfoldable pub checked : Schema → Bytes → Value → Eval ℕ
checked schema name value = elim (column_index schema name) [
  | none ↦ some (input "sql: unknown column")
  | some index ↦ elim (get_elem? schema.columns index) [
    | none ↦ none
    | some column ↦ some (Io.◌>>=◌ (check_type value column.data_type) λ _. ok index)
  ]
]

unfoldable pub unassigned : Schema → Bytes → List Bool → Eval (Unit {0})
unassigned schema name assigned = elim (column_index schema name) [
  | none ↦ some (input "sql: unknown column")
  | some index ↦ elim (get_elem? assigned index) [
    | none ↦ none
    | some true ↦ some (input "sql: duplicate INSERT column")
    | some false ↦ some (ok tt)
  ]
]

-- The loop of `insert` over the columns and their values.
unfoldable pub insert_values :
    Schema → List Bytes → List Value → List Value → List Bool → Eval (List Value)
insert_values schema (name ∷ names) (value ∷ values) row assigned =
    Filter.◌>>=◌ (unassigned schema name assigned) λ _.
      Filter.◌>>=◌ (checked schema name value)
        λ index. insert_values schema names values (set row index value) (set assigned index true)
insert_values schema _ _ row assigned = some (ok row)

unfoldable pub insert : Bytes → List Bytes → List Value → Step SqlResult
insert table names values = do
  schema ← load table
  lift (
      some (
        if length names == length values
        then ok tt
        else input "sql: INSERT column/value count mismatch"))
  let size = length schema.columns
  row ← lift (insert_values schema names values (replicate size null) (replicate size false))
  key ← lift (row_key schema row)
  found ← get_key key
  elim found [
    | some encoded ↦ lift (some (input "sql: duplicate primary key"))
    | none ↦ set_key key (encode_row row) >> pure (SqlResult.affected 1)
  ]

-- The loop over the assignments of an `UPDATE`.
unfoldable pub assign_all : Schema → List (Bytes × Value) → List Value → Eval (List Value)
assign_all schema [] row = some (ok row)
assign_all schema ((name, value) ∷ assignments) row =
    Filter.◌>>=◌ (checked schema name value)
      λ index. assign_all schema assignments (set row index value)

-- The old key of a row is freed if its new key is another, which must be unused.
unfoldable pub move_key : Bytes → Bytes → Step (Unit {0})
move_key old_key new_key =
    if same ⦃o = bytes_order⦄ new_key old_key
    then pure tt
    else (get_key new_key >>= λ found. elim found [
      | some encoded ↦ lift (some (input "sql: duplicate primary key"))
      | none ↦ delete_key old_key
    ])

unfoldable pub update_row : Schema → List (Bytes × Value) → Bytes → List Value → Step (Unit {0})
update_row schema assignments old_key row = do
  changed ← lift (assign_all schema assignments row)
  new_key ← lift (row_key schema changed)
  move_key old_key new_key
  set_key new_key (encode_row changed)

unfoldable pub delete_row : Bytes → List Value → Step (Unit {0})
delete_row key row = delete_key key

-- The loop of `update` and `delete` over the rows, with what is done on each that matches.
unfoldable pub on_matching :
    (Bytes → List Value → Step (Unit {0}))
    → Option Expr
    → Schema
    → List (Bytes × List Value)
    → ℕ
    → Step SqlResult
on_matching action filter schema [] affected = pure (SqlResult.affected affected)
on_matching action filter schema ((key, row) ∷ rows) affected =
    lift (matches_filter filter row schema) >>= λ matched.
    (if matched then action key row else pure tt) >>= λ _.
    on_matching action filter schema rows (if matched then suc affected else affected)

unfoldable pub update : Bytes → List (Bytes × Value) → Option Expr → Step SqlResult
update table assignments filter = do
  schema ← load table
  rows ← scan schema
  on_matching (update_row schema assignments) filter schema rows 0

unfoldable pub delete : Bytes → Option Expr → Step SqlResult
delete table filter = do
  schema ← load table
  rows ← scan schema
  on_matching delete_row filter schema rows 0
