-- ===== src/Txn/Recover.antt =====
-- `MvccStore::open` of src/txn.rs: the store that the records of the log describe.
use nutdb.Prelude.{ℕ, ◌+◌, Bool, Option, none, some, List, [], ◌∷◌, ltb, leb, if◌then◌else◌, max}
use mathlib.Core.Option
use nutdb.Prelude.Io.{Result, ok, err, invalid, ◌>>=◌}
use nutdb.Prelude.Order.{bytes_order, nat_order}
use nutdb.Prelude.TreeMap
use nutdb.Prelude.TreeMap.{TreeMap, IsSorted, get-insert, get-remove, insert-IsSorted}
use nutdb.Bytes.{Bytes}
use nutdb.Wal.{Wal, Source, replay, truncate_path}
use nutdb.Txn.Codec.{TxnRecord, decode}
use nutdb.Txn.Versions.{Versions, Writes, apply_versions}
use nutdb.Txn.Ops.{Inner, u64_end}

-- The local variables of the loop over the records.
pub record Progress : Type 0 where
  pub versions : Versions
  pub pending : TreeMap ℕ Writes
  pub begun : TreeMap ℕ ℕ
  pub max_txn : ℕ
  pub commit_ts : ℕ

abbrev pub no_progress : Progress
no_progress = record { versions = []; pending = []; begun = []; max_txn = 0; commit_ts = 0 }

-- `pending.entry(txn).or_default()`, and `pending.remove(&txn).unwrap_or_default()`
unfoldable pub writes_of : ℕ → TreeMap ℕ Writes → Writes
writes_of txn pending = elim (TreeMap.get txn pending) [ none ↦ [] | some writes ↦ writes ]

unfoldable pub ensure_begun {ℓ} : {A : Type ℓ} → TreeMap ℕ ℕ → ℕ → Result A → Result A
ensure_begun begun txn next = elim (TreeMap.get txn begun) [
  | some snapshot ↦ next
  | none ↦ invalid "mvcc: record references unknown transaction"
]

unfoldable pub recover_write : ℕ → Bytes → Option Bytes → Progress → Result Progress
recover_write txn key value p = ensure_begun p.begun txn (
    ok (record p {
      pending = TreeMap.insert txn (TreeMap.insert key value (writes_of txn p.pending)) p.pending;
    }))

unfoldable pub recover_commit : ℕ → ℕ → Progress → Result Progress
recover_commit txn timestamp p = ensure_begun p.begun txn (
    if leb timestamp p.commit_ts
    then invalid "mvcc: commit timestamps are not increasing"
    else ok (record p {
      versions = apply_versions p.versions (writes_of txn p.pending) timestamp;
      pending = TreeMap.remove txn p.pending;
      begun = TreeMap.remove txn p.begun;
      commit_ts = timestamp;
    }))

unfoldable pub recover_record : TxnRecord → Progress → Result Progress
recover_record (TxnRecord.begin txn snapshot) p = ok (record p {
  max_txn = max p.max_txn txn;
  begun = TreeMap.insert txn snapshot p.begun;
  pending = TreeMap.insert txn (writes_of txn p.pending) p.pending;
})
recover_record (TxnRecord.set txn key value) p = recover_write txn key (some value) p
recover_record (TxnRecord.delete txn key) p = recover_write txn key none p
recover_record (TxnRecord.commit txn timestamp) p = recover_commit txn timestamp p
recover_record (TxnRecord.abort txn) p =
    ok (record p { pending = TreeMap.remove txn p.pending; begun = TreeMap.remove txn p.begun })

unfoldable pub recover_records : List Bytes → Progress → Result Progress
recover_records [] p = ok p
recover_records (payload ∷ payloads) p = elim (decode payload) [
  | err e ↦ err e
  | ok r ↦ recover_record r p >>= λ q. recover_records payloads q
]

-- A missing log file is created empty; a torn one is cut.
unfoldable pub recover_wal : Bool → ℕ → Option Wal → Wal
recover_wal truncated valid_bytes none = record { file = []; synced = 0 }
recover_wal truncated valid_bytes (some wal) =
    if truncated then truncate_path valid_bytes wal else wal

unfoldable pub open_mvcc : Source → Option Wal → Result Inner
open_mvcc src disk =
    let found = replay src (Option.map (λ (w : Wal). w.file) disk) in
    recover_records found.records no_progress >>= λ p.
    if ltb (p.max_txn + 1) u64_end
    then ok (record {
      wal = recover_wal found.truncated found.valid_bytes disk;
      versions = p.versions;
      active = [];
      next_txn = p.max_txn + 1;
      commit_ts = p.commit_ts;
    })
    else invalid "mvcc: transaction id exhausted"
