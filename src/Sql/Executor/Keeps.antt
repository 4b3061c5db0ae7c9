-- ===== src/Sql/Executor/Keeps.antt =====
-- Before its commit, a statement of src/sql/executor.rs changes no committed data.
use nutdb.Prelude.{
  ℕ, suc, ◌≡◌, refl, ◌∙◌, Bool, true, false, Option, none, some, List, [], ◌∷◌, arith,
  if◌then◌else◌,
}
use nutdb.Prelude.Io.{ok, err}
use nutdb.Bytes.{Bytes}
use nutdb.Sql.Ast.{ColumnDef, Expr, Select, SqlResult, Statement, Value}
use nutdb.Sql.Filter.{Eval}
use nutdb.Catalog.{Schema, save_schema, catalog_key, encode_schema}
use nutdb.Txn.Ops
use nutdb.Txn.Ops.{Inner, Transaction}
use nutdb.Sql.Executor.{
  Session, Step, pure, lift, continue, ◌>>=◌, get_key, set_key, delete_key, save, load, scan,
  create_table, insert, move_key, update_row, delete_row, on_matching, update, delete,
}
use nutdb.Sql.Executor.Engine.{select_data, explain_data, execute_data}

-- The same committed versions, up to the same timestamp.
abbrev pub Same : Inner → Inner → Type 0
Same after before = (after.versions ≡ before.versions) × (after.commit_ts ≡ before.commit_ts)

unfoldable pub Keeps : {A : Type 0} → Step A → Type 0
Keeps p = (s : Session) → Same (p s).1.inner s.inner

module _ {A : Type 0} where
  Keeps-pure : (a : A) → Keeps (pure a)
  unfolding Keeps pure
  Keeps-pure a s = (refl, refl)

  Keeps-lift : (e : Eval A) → Keeps (lift e)
  unfolding Keeps lift
  Keeps-lift e s = (refl, refl)

module _ {A B : Type 0} where
  continue-Same :
      (r : Eval A × Session) (f : A → Step B) (before : Inner)
      → Same r.1.inner before
      → ((a : A) → Keeps (f a))
      → Same (continue r f).1.inner before
  unfolding Keeps
  continue-Same (none, s) f before h k = h
  continue-Same (some (err e), s) f before h k = h
  continue-Same (some (ok a), s) f before h k = ((k a s).0 ∙ h.0, (k a s).1 ∙ h.1)

  Keeps-bind : (p : Step A) (f : A → Step B) → Keeps p → ((a : A) → Keeps (f a)) → Keeps (p >>= f)
  unfolding Keeps
  Keeps-bind p f h k s = continue-Same (p s) f s.inner (h s) k

if-Keeps : {A : Type 0} (b : Bool) (p q : Step A) → Keeps p → Keeps q → Keeps (if b then p else q)
if-Keeps true p q h k = h
if-Keeps false p q h k = k

get_key-Keeps : (key : Bytes) → Keeps (get_key key)
unfolding Keeps get_key
get_key-Keeps key s = (refl, refl)

load-Keeps : (table : Bytes) → Keeps (load table)
unfolding Keeps load
load-Keeps table s = (refl, refl)

scan-Keeps : (schema : Schema) → Keeps (scan schema)
unfolding Keeps scan
scan-Keeps schema s = (refl, refl)

set-Same :
    (key value : Bytes) (inner : Inner) (txn : Transaction)
    → Same (Ops.set key value inner txn).1 inner
unfolding Ops.set Ops.write
set-Same key value inner txn = ground arith

delete-Same :
    (key : Bytes) (inner : Inner) (txn : Transaction) → Same (Ops.delete key inner txn).1 inner
unfolding Ops.delete Ops.write
delete-Same key inner txn = ground arith

set_key-Keeps : (key value : Bytes) → Keeps (set_key key value)
unfolding Keeps set_key
set_key-Keeps key value s = set-Same key value s.inner s.txn

delete_key-Keeps : (key : Bytes) → Keeps (delete_key key)
unfolding Keeps delete_key
delete_key-Keeps key s = delete-Same key s.inner s.txn

save_schema-Same :
    (schema : Schema) (inner : Inner) (txn : Transaction)
    → Same (save_schema schema inner txn).1 inner
unfolding save_schema
save_schema-Same schema inner txn =
    ground (arith, set-Same (catalog_key schema.name) (encode_schema schema) inner txn)

save-Keeps : (schema : Schema) → Keeps (save schema)
unfolding Keeps save
save-Keeps schema s = save_schema-Same schema s.inner s.txn

-- A key that is found is an error, and otherwise the step is taken.
unless-Keeps :
    {A : Type 0} (found : Option Bytes) (e : Eval A) (p : Step A)
    → Keeps p
    → Keeps (elim found [ some encoded ↦ lift e | none ↦ p ])
unless-Keeps none e p h = h
unless-Keeps (some x) e p h = Keeps-lift e

create_table-Keeps : (table : Bytes) (columns : List ColumnDef) → Keeps (create_table table columns)
unfolding create_table
create_table-Keeps table columns = Keeps-bind _ _ (Keeps-lift _) λ _.
    Keeps-bind _ _ (get_key-Keeps _) λ found.
      unless-Keeps found _ _
        (Keeps-bind _ _ (save-Keeps _) (λ _. Keeps-pure (SqlResult.affected 0)))

insert-Keeps :
    (table : Bytes) (names : List Bytes) (values : List Value) → Keeps (insert table names values)
unfolding insert
insert-Keeps table names values = Keeps-bind _ _ (load-Keeps table) λ schema.
    Keeps-bind _ _ (Keeps-lift _) λ _. Keeps-bind _ _ (Keeps-lift _) λ row.
      Keeps-bind _ _ (Keeps-lift _) λ key. Keeps-bind _ _ (get_key-Keeps key) λ found.
        unless-Keeps found _ _
          (Keeps-bind _ _ (set_key-Keeps key _) (λ _. Keeps-pure (SqlResult.affected 1)))

move_key-Keeps : (old_key new_key : Bytes) → Keeps (move_key old_key new_key)
unfolding move_key
move_key-Keeps old_key new_key = if-Keeps _ _ _ (Keeps-pure tt) (
    Keeps-bind _ _ (get_key-Keeps new_key)
      λ found. unless-Keeps found _ _ (delete_key-Keeps old_key))

update_row-Keeps :
    (schema : Schema) (assignments : List (Bytes × Value)) (key : Bytes) (row : List Value)
    → Keeps (update_row schema assignments key row)
unfolding update_row
update_row-Keeps schema assignments key row = Keeps-bind _ _ (Keeps-lift _) λ changed.
    Keeps-bind _ _ (Keeps-lift _)
      λ new_key. Keeps-bind _ _ (move_key-Keeps key new_key) λ _. set_key-Keeps new_key _

delete_row-Keeps : (key : Bytes) (row : List Value) → Keeps (delete_row key row)
unfolding delete_row
delete_row-Keeps key row = delete_key-Keeps key

on_matching-Keeps :
    (action : Bytes → List Value → Step (Unit {0})) (filter : Option Expr) (schema : Schema)
    (rows : List (Bytes × List Value)) (affected : ℕ)
    → ((key : Bytes) (row : List Value) → Keeps (action key row))
    → Keeps (on_matching action filter schema rows affected)
unfolding on_matching
on_matching-Keeps action filter schema [] affected h = Keeps-pure (SqlResult.affected affected)
on_matching-Keeps action filter schema ((key, row) ∷ rows) affected h =
    Keeps-bind _ _ (Keeps-lift _) λ matched.
      Keeps-bind _ _ (if-Keeps matched _ _ (h key row) (Keeps-pure tt)) λ _.
        on_matching-Keeps action filter schema rows (if matched then suc affected else affected) h

update-Keeps :
    (table : Bytes) (assignments : List (Bytes × Value)) (filter : Option Expr)
    → Keeps (update table assignments filter)
unfolding update
update-Keeps table assignments filter = Keeps-bind _ _ (load-Keeps table) λ schema.
    Keeps-bind _ _ (scan-Keeps schema)
      λ rows. on_matching-Keeps _ filter schema rows 0 (update_row-Keeps schema assignments)

delete-Keeps : (table : Bytes) (filter : Option Expr) → Keeps (delete table filter)
unfolding delete
delete-Keeps table filter = Keeps-bind _ _ (load-Keeps table) λ schema.
    Keeps-bind _ _ (scan-Keeps schema)
      λ rows. on_matching-Keeps _ filter schema rows 0 delete_row-Keeps

select_data-Keeps : (select : Select) → Keeps (select_data select)
unfolding Keeps select_data
select_data-Keeps select s = (refl, refl)

explain_data-Keeps : (select : Select) → Keeps (explain_data select)
unfolding explain_data
explain_data-Keeps select =
    Keeps-bind _ _ (load-Keeps _) λ schema. Keeps-bind _ _ (Keeps-lift _) λ plan. Keeps-pure _

-- No statement changes committed data before its commit.
pub execute_data-Keeps : (statement : Statement) → Keeps (execute_data statement)
unfolding execute_data
execute_data-Keeps (Statement.create_table table columns) = create_table-Keeps table columns
execute_data-Keeps (Statement.insert table names values) = insert-Keeps table names values
execute_data-Keeps (Statement.select select) = select_data-Keeps select
execute_data-Keeps (Statement.update table assignments filter) =
    update-Keeps table assignments filter
execute_data-Keeps (Statement.delete table filter) = delete-Keeps table filter
execute_data-Keeps (Statement.explain select) = explain_data-Keeps select
execute_data-Keeps Statement.begin = Keeps-lift _
execute_data-Keeps Statement.commit = Keeps-lift _
execute_data-Keeps Statement.rollback = Keeps-lift _
