-- ===== src/Txn/Ops.antt =====
-- `MvccStore` and `Transaction` of src/txn.rs. The lock of the store makes each method one step; a
-- poisoned lock is not modelled. A `u64` is a number, and `checked_add` fails at 2 ^ 64.
use nutdb.Prelude.{
  ℕ, ◌+◌, ◌^◌, Bool, false, Option, none, some, [], ◌∷◌, ltb, if◌then◌else◌, String,
}
use nutdb.Prelude.Io
use nutdb.Prelude.Io.{Error, ErrorKind}
use nutdb.Prelude.Order.{bytes_order, nat_order}
use nutdb.Prelude.TreeMap
use nutdb.Prelude.TreeMap.{TreeMap}
use nutdb.Bytes.{Bytes}
use nutdb.Wal
use nutdb.Wal.{Wal}
use nutdb.Txn.Codec.{TxnRecord, encode}
use nutdb.Txn.Versions.{Versions, Writes, visible_value, latest_change, apply_versions}

pub record Inner : Type 0 where
  pub wal : Wal
  pub versions : Versions
  pub active : TreeMap ℕ ℕ
  pub next_txn : ℕ
  pub commit_ts : ℕ

-- The transaction itself; the store that it points to is passed beside it.
pub record Transaction : Type 0 where
  pub id : ℕ
  pub snapshot : ℕ
  pub writes : Writes
  pub finished : Bool

pub data TxnError : Type 0 where
  io : Error → TxnError
  conflict : Bytes → TxnError
  finished : TxnError

pub data Outcome {ℓ} (A : Type ℓ) : Type ℓ where
  done : A → Outcome A
  failed : TxnError → Outcome A

abbrev pub u64_end : ℕ
u64_end = 2 ^ 64

unfoldable pub exhausted : String → TxnError
exhausted message = io (record { kind = ErrorKind.invalid_data; message = message })

-- `wal.append(&record.encode()?)?`
unfoldable pub log_record : TxnRecord → Wal → Io.Result Wal
log_record r wal = Io.◌>>=◌ (encode r) λ payload. Wal.append payload wal

-- `begin`: the id is taken before the record is written, and stays taken if that fails.
unfoldable pub begin : Inner → Outcome Transaction × Inner
begin inner =
    if ltb (inner.next_txn + 1) u64_end
    then (let id = inner.next_txn in
        let snapshot = inner.commit_ts in
        let taken = record inner { next_txn = id + 1 } in
        elim (log_record (TxnRecord.begin id snapshot) inner.wal) [
          | Io.err e ↦ (failed (io e), taken)
          | Io.ok wal ↦ (
            done (record { id = id; snapshot = snapshot; writes = []; finished = false }),
            record taken { wal = Wal.sync wal; active = TreeMap.insert id snapshot inner.active },
          )
        ])
    else (failed (exhausted "mvcc: transaction id exhausted"), inner)

unfoldable pub get_at : Inner → Bytes → ℕ → Option Bytes
get_at inner key snapshot = visible_value inner.versions key snapshot

unfoldable pub get : Inner → Transaction → Bytes → Outcome (Option Bytes)
get inner t key = if t.finished then failed finished else elim (TreeMap.get key t.writes) [
  | some value ↦ done value
  | none ↦ done (get_at inner key t.snapshot)
]

-- `set` and `delete` log the write before they keep it.
unfoldable pub write :
    TxnRecord
    → Bytes
    → Option Bytes
    → Inner
    → Transaction
    → Outcome (Unit {0}) × Inner × Transaction
write r key value inner t =
    if t.finished then (failed finished, inner, t) else elim (log_record r inner.wal) [
      | Io.err e ↦ (failed (io e), inner, t)
      | Io.ok wal ↦ (
        done tt,
        record inner { wal = wal },
        record t { writes = TreeMap.insert key value t.writes },
      )
    ]

unfoldable pub set : Bytes → Bytes → Inner → Transaction → Outcome (Unit {0}) × Inner × Transaction
unfolding write
set key value inner t = write (TxnRecord.set t.id key value) key (some value) inner t

unfoldable pub delete : Bytes → Inner → Transaction → Outcome (Unit {0}) × Inner × Transaction
unfolding write
delete key inner t = write (TxnRecord.delete t.id key) key none inner t

-- The first written key, in key order, that changed after the snapshot.
unfoldable pub find_conflict : Versions → Writes → ℕ → Option Bytes
find_conflict versions [] snapshot = none
find_conflict versions ((key, value) ∷ writes) snapshot =
    if ltb snapshot (latest_change versions key)
    then some key
    else find_conflict versions writes snapshot

-- Logs and syncs the record that ends a transaction, and takes it off the active ones.
unfoldable pub finish : TxnRecord → Transaction → Inner → Io.Result Inner
finish r t inner =
    Io.◌>>=◌ (log_record r inner.wal)
      λ wal. Io.ok (record inner { wal = Wal.sync wal; active = TreeMap.remove t.id inner.active })

-- `Drop`: a transaction that is not finished is taken off the active ones.
unfoldable pub drop_txn : Transaction → Inner → Inner
drop_txn t inner =
    if t.finished then inner else record inner { active = TreeMap.remove t.id inner.active }

-- An error that leaves the method before `finished` is set drops an unfinished transaction.
unfoldable pub ended {ℓ} :
    {A : Type ℓ}
    → Io.Result Inner
    → (Inner → Outcome A × Inner)
    → Transaction
    → Inner
    → Outcome A × Inner
unfolding drop_txn
ended (Io.ok inner') k t inner = k inner'
ended (Io.err e) k t inner = (failed (io e), drop_txn t inner)

-- `commit` and `abort` take the transaction by value.
unfoldable pub commit : Transaction → Inner → Outcome ℕ × Inner
unfolding find_conflict finish ended
commit t inner =
    if t.finished
    then (failed finished, inner)
    else elim (find_conflict inner.versions t.writes t.snapshot) [
      | some key ↦
          ended (finish (TxnRecord.abort t.id) t inner) (λ inner'. (failed (conflict key), inner'))
            t inner
      | none ↦
          let timestamp = inner.commit_ts + 1 in
          if ltb timestamp u64_end
          then ended (finish (TxnRecord.commit t.id timestamp) t inner)
              (λ inner'. (
                done timestamp,
                record inner' {
                  versions = apply_versions inner.versions t.writes timestamp;
                  commit_ts = timestamp;
                },
              ))
              t inner
          else (failed (exhausted "mvcc: commit timestamp exhausted"), drop_txn t inner)
    ]

unfoldable pub abort : Transaction → Inner → Outcome (Unit {0}) × Inner
unfolding finish ended
abort t inner =
    if t.finished
    then (failed finished, inner)
    else ended (finish (TxnRecord.abort t.id) t inner) (λ inner'. (done tt, inner')) t inner
