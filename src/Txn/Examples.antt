-- ===== src/Txn/Examples.antt =====
-- A store of one key with one version, and a transaction that writes the key.
use nutdb.Prelude.{
  false, ℕ, ◌+◌, ◌≤◌, ◌<◌, ◌≡◌, ◌≢◌, refl, inl, inr, Bool-cases, some, none, [], ◌∷◌, arith, ltb,
  if◌then◌else◌,
}
use nutdb.Prelude.Order.{bytes_order, nat_order, same}
use nutdb.Prelude.TreeMap
use nutdb.Prelude.TreeMap.{TreeMap, IsSorted}
use nutdb.Bytes.{Bytes, to_le_bytes}
use nutdb.Wal.{append}
use nutdb.Txn.Codec
use nutdb.Txn.Codec.{TxnRecord}
use nutdb.Txn.Versions.{Chain, chain_of, latest_change}
use nutdb.Txn.Snapshot.{IsValid}
use nutdb.Txn.Ops.{
  Inner, Transaction, done, failed, conflict, commit, write, get, get_at, log_record,
}
use nutdb.Txn.Commit.{
  commit_keeps_snapshots, commit_is_atomic, commit_loses_no_update, commit_conflict, get-write,
}
use nutdb.Txn.Chain.{IsUntouched}
use nutdb.Txn.Consistent.{Step, IsConsistent, Step-IsConsistent}
use nutdb.Txn.Versions.{chain_of, apply_versions, write_chain, close_last, push_version}
use nutdb.Bytes.{from_le_bytes, is_utf8, from_utf8}
use nutdb.Txn.Recover.{
  recover_records, recover_record, recover_write, recover_commit, ensure_begun, writes_of,
  recover_wal, no_progress, open_mvcc,
}
use nutdb.Txn.Recovered.{open_mvcc-IsConsistent}
use nutdb.Prelude.{◌++◌, ◌^◌, length, List, false, All}
use nutdb.Prelude.Io.{ok}
use nutdb.Wal.{replay}
use nutdb.Wal.Replay.{log}
use nutdb.Wal.Repair.{durable, replay-log_clean}
use nutdb.Wal.Examples.{whole_reads}
use nutdb.Txn.Scan.{
  scan_prefix, collect_rows, range_from, is_before, merge_writes, starts_with, collect_row,
  write_row,
}
use nutdb.Txn.Scanned.{scan_prefix-get}
use nutdb.Txn.Versions.{visible_value, find_visible, visible_at}
use nutdb.Txn.Gc.{gc, IsLive, gc_keeps_reads, gc_keeps_conflicts}

abbrev account : Bytes
account = 97 ∷ []

abbrev chain : ℕ → Chain
chain ts = record { value = 1 ∷ []; created_at = ts; deleted_at = none } ∷ []

-- The key was written at `ts`, the newest timestamp; transaction 3 began at timestamp 1.
abbrev bank : ℕ → Inner
bank ts = record {
  wal = record { file = []; synced = 0 };
  versions = (account, chain ts) ∷ [];
  active = (3, 1) ∷ [];
  next_txn = 4;
  commit_ts = ts;
}

abbrev deposit : Transaction
deposit = record { id = 3; snapshot = 1; writes = (account, some (2 ∷ [])) ∷ []; finished = false }

bank-IsValid : (ts : ℕ) → IsValid ts (bank ts).versions
unfolding chain_of TreeMap.get
bank-IsValid ts key = elim (Bool-cases (same account key)) [
  | inl e ↦ rw e (omega arith, inl refl)
  | inr e ↦ rw e tt
]

commit_keeps_snapshots_example :
    get_at (commit deposit (bank 1)).1 account 1 ≡ get_at (bank 1) account 1
commit_keeps_snapshots_example =
    commit_keeps_snapshots deposit (bank 1) account 1 (tt, tt) (omega arith)

deposit_done : commit deposit (bank 1) ≡ (done 2, (commit deposit (bank 1)).1)
unfolding commit log_record Codec.encode append to_le_bytes Codec.put_u64 latest_change TreeMap.get
deposit_done = refl

deposit_conflict :
    commit deposit (bank 2) ≡ (failed (conflict account), (commit deposit (bank 2)).1)
unfolding commit log_record Codec.encode append to_le_bytes Codec.put_u64 latest_change TreeMap.get
deposit_conflict = refl

commit_is_atomic_example :
    (2 ≡ (bank 1).commit_ts + 1)
    × ((commit deposit (bank 1)).1.commit_ts ≡ 2)
    × (get_at (commit deposit (bank 1)).1 account 2 ≡ some (2 ∷ []))
unfolding TreeMap.get
commit_is_atomic_example =
    commit_is_atomic deposit (bank 1) (commit deposit (bank 1)).1 2 account (tt, tt)
      (bank-IsValid 1) deposit_done

commit_loses_no_update_example :
    All (IsUntouched deposit.snapshot) (chain_of account (bank 1).versions)
    × (get_at (bank 1) account deposit.snapshot ≡ get_at (bank 1) account (bank 1).commit_ts)
unfolding TreeMap.get
commit_loses_no_update_example =
    commit_loses_no_update deposit (bank 1) (commit deposit (bank 1)).1 2 account (some (2 ∷ []))
      (bank-IsValid 1) (omega arith) deposit_done refl

commit_conflict_example :
    (TreeMap.get account deposit.writes ≢ none)
    × (deposit.snapshot < latest_change (bank 2).versions account)
    × ((commit deposit (bank 2)).1.versions ≡ (bank 2).versions)
    × ((commit deposit (bank 2)).1.commit_ts ≡ (bank 2).commit_ts)
    × (TreeMap.get deposit.id (commit deposit (bank 2)).1.active ≡ none)
commit_conflict_example =
    commit_conflict deposit (bank 2) (commit deposit (bank 2)).1 account deposit_conflict

abbrev deletion : TxnRecord
deletion = TxnRecord.delete 3 account

delete_done : write deletion account none (bank 1) deposit ≡ (
  done tt,
  (write deletion account none (bank 1) deposit).1,
  (write deletion account none (bank 1) deposit).2,
)
unfolding write log_record Codec.encode Codec.put_string append to_le_bytes Codec.put_u64
delete_done = refl

get-write_example :
    get
      (write deletion account none (bank 1) deposit).1
      (write deletion account none (bank 1) deposit).2
      account
    ≡ (if same account account then done none else get (bank 1) deposit account)
get-write_example =
    get-write deletion (bank 1) (write deletion account none (bank 1) deposit).1 deposit
      (write deletion account none (bank 1) deposit).2 account account none delete_done

bank-active : (id t : ℕ) → TreeMap.get id (bank 2).active ≡ some t → t ≤ (bank 2).commit_ts
unfolding TreeMap.get
bank-active id t e = ground arith

bank-IsLive : IsLive (bank 2) 1
unfolding TreeMap.get
bank-IsLive = inr (3, refl)

gc_keeps_reads_example : get_at (gc (bank 2)).1 account 1 ≡ get_at (bank 2) account 1
gc_keeps_reads_example = gc_keeps_reads (bank 2) 1 (tt, tt) bank-active bank-IsLive account

gc_keeps_conflicts_example :
    ltb 1 (latest_change (gc (bank 2)).1.versions account)
    ≡ ltb 1 (latest_change (bank 2).versions account)
gc_keeps_conflicts_example =
    gc_keeps_conflicts (bank 2) 1 (tt, tt) bank-active bank-IsLive account (bank-IsValid 2)

bank-old : (id t : ℕ) → TreeMap.get id (bank 1).active ≡ some t → t ≤ (bank 1).commit_ts
unfolding TreeMap.get
bank-old id t e = ground arith

bank-IsConsistent : IsConsistent (bank 1)
bank-IsConsistent = record { valid = bank-IsValid 1; sorted = (tt, tt); old = bank-old }

Step-IsConsistent_example : IsConsistent (commit deposit (bank 1)).1
Step-IsConsistent_example =
    Step-IsConsistent (bank 1) (commit deposit (bank 1)).1 (Step.commits deposit (bank 1) (tt, tt))
      bank-IsConsistent

-- The log of a transaction that sets the key and commits.
abbrev history : List Bytes
history =
    (0x10 ∷ (to_le_bytes 8 1 ++ to_le_bytes 8 0))
    ∷ (0x11 ∷ (to_le_bytes 8 1 ++ (to_le_bytes 4 1 ++ 97 ∷ []) ++ (to_le_bytes 4 1 ++ 98 ∷ [])))
    ∷ (0x13 ∷ (to_le_bytes 8 1 ++ to_le_bytes 8 5))
    ∷ []

abbrev reopened : Inner
reopened = record {
  wal = durable (log history);
  versions = (account, record { value = 98 ∷ []; created_at = 5; deleted_at = none } ∷ []) ∷ [];
  active = [];
  next_txn = 2;
  commit_ts = 5;
}

history_read :
    replay whole_reads (some (log history))
    ≡ record { records = history; truncated = false; valid_bytes = length (log history) }
unfolding to_le_bytes
history_read = replay-log_clean whole_reads history (omega arith, (omega arith, (omega arith, tt)))

history_recovered :
    recover_records history no_progress
    ≡ ok (record {
      versions = reopened.versions;
      pending = [];
      begun = [];
      max_txn = 1;
      commit_ts = 5;
    })
unfolding recover_records recover_record recover_write recover_commit ensure_begun writes_of
    to_le_bytes from_le_bytes Codec.decode Codec.decode_body Codec.read_u8 Codec.read_u64
    Codec.read_string is_utf8 apply_versions write_chain close_last push_version chain_of
    TreeMap.get TreeMap.insert TreeMap.remove from_utf8
history_recovered = refl

history_opened : open_mvcc whole_reads (some (durable (log history))) ≡ ok reopened
unfolding open_mvcc recover_wal
history_opened = rw (history_read, history_recovered) refl

open_mvcc-IsConsistent_example :
    IsConsistent reopened × (reopened.active ≡ []) × (reopened.next_txn < 2 ^ 64)
open_mvcc-IsConsistent_example =
    open_mvcc-IsConsistent whole_reads (some (durable (log history))) reopened history_opened

abbrev deposit_rows : TreeMap Bytes Bytes
deposit_rows = (account, 2 ∷ []) ∷ []

scan_runs : scan_prefix (bank 1) deposit (97 ∷ []) ≡ done deposit_rows
unfolding scan_prefix collect_rows range_from is_before merge_writes starts_with collect_row
    write_row visible_value find_visible visible_at TreeMap.get TreeMap.insert
scan_runs = refl

read_runs : get (bank 1) deposit account ≡ done (some (2 ∷ []))
unfolding get TreeMap.get
read_runs = refl

scan_prefix-get_example :
    TreeMap.get ⦃o = bytes_order⦄ account deposit_rows
    ≡ (if starts_with (97 ∷ []) account then some (2 ∷ []) else none)
scan_prefix-get_example =
    scan_prefix-get (bank 1) deposit (97 ∷ []) account deposit_rows (some (2 ∷ [])) (tt, tt)
      scan_runs read_runs
