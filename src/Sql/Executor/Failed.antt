-- ===== src/Sql/Executor/Failed.antt =====
-- What a statement of src/sql/executor.rs that fails leaves in the store.
use nutdb.Prelude.{ℕ, ◌≡◌, refl, sym, ap, ◌∙◌, Option, none, some, arith}
use mathlib.Core.Path.{subst}
use nutdb.Prelude.Io.{Error, ok, err}
use nutdb.Sql.Ast.{SqlResult, Statement}
use nutdb.Sql.Filter.{Eval}
use nutdb.Txn.Ops
use nutdb.Txn.Ops.{Inner, Transaction, Outcome, TxnError, done, failed}
use nutdb.Txn.Commit.{commit_failed}
use nutdb.Catalog.{txn_error}
use nutdb.Sql.Executor.{Session, Step}
use nutdb.Sql.Executor.Engine.{
  SqlEngine, answer, end_own, keep_active, run_own, with_transaction, begun, execute_statement,
}
use nutdb.Sql.Executor.Keeps.{Same, Keeps, execute_data-Keeps}

begin-Same : (inner : Inner) → Same (Ops.begin inner).1 inner
unfolding Ops.begin
begin-Same inner = ground arith

abort-Same : (txn : Transaction) (inner : Inner) → Same (Ops.abort txn inner).1 inner
unfolding Ops.abort Ops.finish Ops.ended Ops.drop_txn
abort-Same txn inner = ground arith

-- The committed data of before, and no transaction that was not there.
abbrev Unchanged : Option Transaction → Inner → SqlEngine → Type 0
Unchanged active before engine = Same engine.store before × (active ≡ none → engine.active ≡ none)

commit-answer :
    (active : Option Transaction) (txn : Transaction) (inner before : Inner) (result : SqlResult)
    (e : Error) (engine : SqlEngine) (o : Outcome ℕ × Inner)
    → Same inner before
    → Ops.commit txn inner ≡ o
    → ◌≡◌ {A = Eval SqlResult × SqlEngine}
        (answer o.0 result, record { store = o.1; active = none })
        (some (err e), engine)
    → Unchanged active before engine
unfolding answer
commit-answer active txn inner before result e engine (done ts, inner') same c h = ground (arith, h)
commit-answer active txn inner before result e engine (failed x, inner') same c h =
    let (ts, versions) = commit_failed txn inner inner' x c in
    let store : inner' ≡ engine.store = ap (λ r. r.1.store) h in
    (
      (
        ap (λ (i : Inner). i.versions) (sym store) ∙ versions ∙ same.0,
        ap (λ (i : Inner). i.commit_ts) (sym store) ∙ ts ∙ same.1,
      ),
      λ _. ap (λ r. r.1.active) (sym h),
    )

-- The engine of a failed step, given what its store is.
Unchanged-of :
    (active : Option Transaction) (before inner : Inner) (r : Eval SqlResult) (e : Error)
    (engine : SqlEngine) (now : Option Transaction)
    → Same inner before
    → (active ≡ none → now ≡ none)
    → ◌≡◌ {A = Eval SqlResult × SqlEngine}
        (r, record { store = inner; active = now })
        (some (err e), engine)
    → Unchanged active before engine
Unchanged-of active before inner r e engine now same closed h =
    subst (Unchanged active before) (ap (λ r. r.1) h) (same, closed)

end_own_failed :
    (active : Option Transaction) (before : Inner) (r : Eval SqlResult × Session) (e : Error)
    (engine : SqlEngine)
    → Same r.1.inner before
    → end_own r ≡ (some (err e), engine)
    → Unchanged active before engine
unfolding end_own
end_own_failed active before (none, s) e engine same h =
    Unchanged-of active before s.inner none e engine none same (λ _. refl) h
end_own_failed active before (some (ok result), s) e engine same h =
    commit-answer active s.txn s.inner before result e engine (Ops.commit s.txn s.inner) same refl h
end_own_failed active before (some (err f), s) e engine same h =
    let aborted = abort-Same s.txn s.inner in
    Unchanged-of active before (Ops.abort s.txn s.inner).1 (some (err f)) e engine none
      (aborted.0 ∙ same.0, aborted.1 ∙ same.1) (λ _. refl) h

run_own_failed :
    (active : Option Transaction) (before : Inner) (operation : Step SqlResult)
    (o : Outcome Transaction × Inner) (e : Error) (engine : SqlEngine)
    → Keeps operation
    → Same o.1 before
    → run_own operation o ≡ (some (err e), engine)
    → Unchanged active before engine
unfolding run_own Keeps
run_own_failed active before operation (failed x, inner) e engine keeps same h =
    Unchanged-of active before inner (some (txn_error x)) e engine none same (λ _. refl) h
run_own_failed active before operation (done txn, inner) e engine keeps same h =
    let kept = keeps (record { inner = inner; txn = txn }) in
    end_own_failed active before (operation (record { inner = inner; txn = txn })) e engine
      (kept.0 ∙ same.0, kept.1 ∙ same.1) h

keep_active_failed :
    (txn : Transaction) (before : Inner) (r : Eval SqlResult × Session) (e : Error)
    (engine : SqlEngine)
    → Same r.1.inner before
    → keep_active r ≡ (some (err e), engine)
    → Unchanged (some txn) before engine
unfolding keep_active
keep_active_failed txn before (r, s) e engine same h =
    Unchanged-of (some txn) before s.inner r e engine (some s.txn) same (λ c. ground (arith, c)) h

with_transaction_failed :
    (operation : Step SqlResult) (store : Inner) (active : Option Transaction) (e : Error)
    (engine : SqlEngine)
    → Keeps operation
    → with_transaction operation (record { store = store; active = active })
      ≡ (some (err e), engine)
    → Unchanged active store engine
unfolding with_transaction Keeps
with_transaction_failed operation store none e engine keeps h =
    run_own_failed none store operation (Ops.begin store) e engine keeps (begin-Same store) h
with_transaction_failed operation store (some txn) e engine keeps h =
    let session : Session = record { inner = store; txn = txn } in
    keep_active_failed txn store (operation session) e engine (keeps session) h

begun_failed :
    (before : Inner) (o : Outcome Transaction × Inner) (e : Error) (engine : SqlEngine)
    → Same o.1 before
    → begun o ≡ (some (err e), engine)
    → Unchanged none before engine
unfolding begun
begun_failed before (failed x, inner) e engine same h =
    Unchanged-of none before inner (some (txn_error x)) e engine none same (λ _. refl) h
begun_failed before (done txn, inner) e engine same h = ground (arith, h)

statement_failed :
    (statement : Statement) (store : Inner) (active : Option Transaction) (e : Error)
    (engine : SqlEngine)
    → execute_statement statement (record { store = store; active = active })
      ≡ (some (err e), engine)
    → Unchanged active store engine
unfolding execute_statement
statement_failed Statement.begin store none e engine h =
    begun_failed store (Ops.begin store) e engine (begin-Same store) h
statement_failed Statement.begin store (some txn) e engine h =
    Unchanged-of (some txn) store store _ e engine (some txn) (refl, refl) (λ c. c) h
statement_failed Statement.commit store none e engine h =
    Unchanged-of none store store _ e engine none (refl, refl) (λ c. c) h
statement_failed Statement.commit store (some txn) e engine h =
    commit-answer (some txn) txn store store SqlResult.committed e engine (Ops.commit txn store)
      (refl, refl) refl h
statement_failed Statement.rollback store none e engine h =
    Unchanged-of none store store _ e engine none (refl, refl) (λ c. c) h
statement_failed Statement.rollback store (some txn) e engine h =
    Unchanged-of (some txn) store (Ops.abort txn store).1 _ e engine none (abort-Same txn store)
      (λ _. refl) h
statement_failed (Statement.create_table table columns) store active e engine h =
    with_transaction_failed _ store active e engine
      (execute_data-Keeps (Statement.create_table table columns)) h
statement_failed (Statement.insert table names values) store active e engine h =
    with_transaction_failed _ store active e engine
      (execute_data-Keeps (Statement.insert table names values)) h
statement_failed (Statement.select select) store active e engine h =
    with_transaction_failed _ store active e engine (execute_data-Keeps (Statement.select select)) h
statement_failed (Statement.update table assignments filter) store active e engine h =
    with_transaction_failed _ store active e engine
      (execute_data-Keeps (Statement.update table assignments filter)) h
statement_failed (Statement.delete table filter) store active e engine h =
    with_transaction_failed _ store active e engine
      (execute_data-Keeps (Statement.delete table filter)) h
statement_failed (Statement.explain select) store active e engine h =
    with_transaction_failed _ store active e engine (execute_data-Keeps (Statement.explain select))
      h

-- A statement that fails leaves the committed versions and their timestamp as they were, and no
-- transaction active where none was.
pub execute_statement_failed :
    (statement : Statement) (engine engine' : SqlEngine) (e : Error)
    → execute_statement statement engine ≡ (some (err e), engine')
    → (engine'.store.versions ≡ engine.store.versions)
      × (engine'.store.commit_ts ≡ engine.store.commit_ts)
      × (engine.active ≡ none → engine'.active ≡ none)
execute_statement_failed statement engine engine' e h =
    let (same, closed) = statement_failed statement engine.store engine.active e engine' h in
    (same.0, same.1, closed)
