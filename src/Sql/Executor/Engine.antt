-- ===== src/Sql/Executor/Engine.antt =====
-- `SqlEngine` of src/sql/executor.rs: statements in a transaction of their own or in the active
-- one.
use nutdb.Prelude.{Option, none, some, List, [], ◌∷◌}
use nutdb.Prelude.Io.{ok, err, input}
use nutdb.Bytes.{Bytes}
use nutdb.Sql.Ast.{SqlResult, Select, Statement}
use nutdb.Sql.Plan.{show_plan}
use nutdb.Sql.Filter
use nutdb.Sql.Filter.{Eval}
use nutdb.Sql.Parser.Statements.{parse}
use nutdb.Sql.Executor.{
  Session, Step, pure, lift, ◌>>=◌, load, create_table, insert, update, delete,
}
use nutdb.Sql.Executor.Rows.{select_rows, planned}
use nutdb.Catalog.{txn_error}
use nutdb.Txn.Ops
use nutdb.Txn.Ops.{Inner, Transaction, Outcome, done, failed}

pub record SqlEngine : Type 0 where
  pub store : Inner
  pub active : Option Transaction

unfoldable pub select_data : Select → Step SqlResult
select_data select s = (select_rows s.inner s.txn select, s)

unfoldable pub explain_data : Select → Step SqlResult
explain_data select = do
  schema ← load select.table
  plan ← lift (planned select schema)
  pure (SqlResult.explain (show_plan plan))

unfoldable pub execute_data : Statement → Step SqlResult
execute_data (Statement.create_table table columns) = create_table table columns
execute_data (Statement.insert table columns values) = insert table columns values
execute_data (Statement.select select) = select_data select
execute_data (Statement.update table assignments filter) = update table assignments filter
execute_data (Statement.delete table filter) = delete table filter
execute_data (Statement.explain select) = explain_data select
execute_data Statement.begin = lift (some (input "sql: internal transaction dispatch error"))
execute_data Statement.commit = lift (some (input "sql: internal transaction dispatch error"))
execute_data Statement.rollback = lift (some (input "sql: internal transaction dispatch error"))

-- What an outcome of the store says to the client; the store is passed on.
unfoldable pub answer {ℓ} : {A : Type ℓ} → Outcome A → SqlResult → Eval SqlResult
answer (done a) result = some (ok result)
answer (failed e) result = some (txn_error e)

-- The end of a transaction that a statement was given for itself.
unfoldable pub end_own : Eval SqlResult × Session → Eval SqlResult × SqlEngine
end_own (none, s) = (none, record { store = s.inner; active = none })
end_own (some (ok result), s) =
    let (outcome, inner) = Ops.commit s.txn s.inner in
    (answer outcome result, record { store = inner; active = none })
end_own (some (err e), s) =
    let (outcome, inner) = Ops.abort s.txn s.inner in
    (some (err e), record { store = inner; active = none })

unfoldable pub keep_active : Eval SqlResult × Session → Eval SqlResult × SqlEngine
keep_active (result, s) = (result, record { store = s.inner; active = some s.txn })

-- The transaction that `begin` gave, or its error.
unfoldable pub run_own : Step SqlResult → Outcome Transaction × Inner → Eval SqlResult × SqlEngine
run_own operation (failed e, inner) = (some (txn_error e), record { store = inner; active = none })
run_own operation (done txn, inner) = end_own (operation (record { inner = inner; txn = txn }))

unfoldable pub with_transaction : Step SqlResult → SqlEngine → Eval SqlResult × SqlEngine
with_transaction operation engine = elim engine.active [
  | some txn ↦ keep_active (operation (record { inner = engine.store; txn = txn }))
  | none ↦ run_own operation (Ops.begin engine.store)
]

unfoldable pub begun : Outcome Transaction × Inner → Eval SqlResult × SqlEngine
begun (failed e, inner) = (some (txn_error e), record { store = inner; active = none })
begun (done txn, inner) = (some (ok SqlResult.begun), record { store = inner; active = some txn })

unfoldable pub execute_statement : Statement → SqlEngine → Eval SqlResult × SqlEngine
execute_statement Statement.begin engine = elim engine.active [
  | some txn ↦ (some (input "sql: transaction already active"), engine)
  | none ↦ begun (Ops.begin engine.store)
]
execute_statement Statement.commit engine = elim engine.active [
  | none ↦ (some (input "sql: no active transaction"), engine)
  | some txn ↦
      let (outcome, inner) = Ops.commit txn engine.store in
      (answer outcome SqlResult.committed, record { store = inner; active = none })
]
execute_statement Statement.rollback engine = elim engine.active [
  | none ↦ (some (input "sql: no active transaction"), engine)
  | some txn ↦
      let (outcome, inner) = Ops.abort txn engine.store in
      (answer outcome SqlResult.rolled_back, record { store = inner; active = none })
]
execute_statement other engine = with_transaction (execute_data other) engine

-- The loop of `execute`: the first error ends it.
unfoldable pub execute_all : List Statement → SqlEngine → Eval (List SqlResult) × SqlEngine
execute_all [] engine = (some (ok []), engine)
execute_all (statement ∷ statements) engine =
    let (result, engine') = execute_statement statement engine in
    let (results, engine'') = execute_all statements engine' in
    elim result [
      | none ↦ (none, engine')
      | some (err e) ↦ (some (err e), engine')
      | some (ok r) ↦ (Filter.◌>>=◌ results (λ rs. some (ok (r ∷ rs))), engine'')
    ]

unfoldable pub execute : Bytes → SqlEngine → Eval (List SqlResult) × SqlEngine
execute source engine = elim (parse source) [
  | none ↦ (none, engine)
  | some (err e) ↦ (some (err e), engine)
  | some (ok statements) ↦ execute_all statements engine
]
