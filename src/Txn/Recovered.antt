-- ===== src/Txn/Recovered.antt =====
-- The store that `MvccStore::open` of src/txn.rs recovers is consistent.
use nutdb.Prelude.{
  ℕ, ◌+◌, ◌^◌, ◌<◌, ◌≡◌, refl, inl, inr, Bool-cases, Option, none, some, List, [], ◌∷◌, arith, ltb,
  leb, if◌then◌else◌,
}
use mathlib.Core.Path.{subst}
use mathlib.Core.Option
use nutdb.Prelude.Io.{Result, ok, err, invalid, ◌>>=◌}
use nutdb.Prelude.Order.{bytes_order, nat_order, same}
use nutdb.Prelude.TreeMap
use nutdb.Prelude.TreeMap.{TreeMap, IsSorted, get-insert, get-remove, insert-IsSorted}
use nutdb.Bytes.{Bytes}
use nutdb.Wal.{Wal, Source, replay}
use nutdb.Txn.Codec.{TxnRecord, decode}
use nutdb.Txn.Versions.{Writes, chain_of}
use nutdb.Txn.Snapshot.{IsValid}
use nutdb.Txn.Ops.{Inner, u64_end}
use nutdb.Txn.Recover.{
  Progress, no_progress, writes_of, ensure_begun, recover_write, recover_commit, recover_record,
  recover_records, open_mvcc,
}
use nutdb.Txn.Consistent.{IsConsistent, apply_versions-IsValid, apply_versions-IsSorted}

ok-injective {ℓ} : {A : Type ℓ} (a b : A) → ok a ≡ ok b → a ≡ b
ok-injective a b e = cc

-- The invariant of the loop of recovery.
record IsRecovered (p : Progress) : Type 0 where
  pub valid : IsValid p.commit_ts p.versions
  pub sorted : IsSorted p.versions
  pub pending : (txn : ℕ) → IsSorted (writes_of txn p.pending)

writes_of-insert :
    (txn other : ℕ) (writes : Writes) (pending : TreeMap ℕ Writes)
    → writes_of other (TreeMap.insert txn writes pending)
      ≡ (if same txn other then writes else writes_of other pending)
unfolding writes_of
writes_of-insert txn other writes pending = ground (arith, get-insert txn other writes pending)

writes_of-remove :
    (txn other : ℕ) (pending : TreeMap ℕ Writes)
    → writes_of other (TreeMap.remove txn pending)
      ≡ (if same txn other then [] else writes_of other pending)
unfolding writes_of
writes_of-remove txn other pending = ground (arith, get-remove txn other pending)

insert-pending :
    (txn : ℕ) (writes : Writes) (pending : TreeMap ℕ Writes)
    → IsSorted writes
    → ((other : ℕ) → IsSorted (writes_of other pending))
    → (other : ℕ) → IsSorted (writes_of other (TreeMap.insert txn writes pending))
insert-pending txn writes pending h k other =
    rw (writes_of-insert txn other writes pending)
      (elim (Bool-cases (same txn other)) [ inl e ↦ rw e h | inr e ↦ rw e (k other) ])

remove-pending :
    (txn : ℕ) (pending : TreeMap ℕ Writes)
    → ((other : ℕ) → IsSorted (writes_of other pending))
    → (other : ℕ) → IsSorted (writes_of other (TreeMap.remove txn pending))
remove-pending txn pending k other =
    rw (writes_of-remove txn other pending)
      (elim (Bool-cases (same txn other)) [ inl e ↦ rw e tt | inr e ↦ rw e (k other) ])

begun_ok :
    {A : Type 0} (begun : TreeMap ℕ ℕ) (txn : ℕ) (next : Result A) (a : A)
    → ensure_begun begun txn next ≡ ok a
    → next ≡ ok a
unfolding ensure_begun
begun_ok begun txn next a e = ground (arith, e)

recover_write-IsRecovered :
    (txn : ℕ) (key : Bytes) (value : Option Bytes) (p q : Progress)
    → IsRecovered p
    → recover_write txn key value p ≡ ok q
    → IsRecovered q
unfolding recover_write
recover_write-IsRecovered txn key value p q h e =
    let same_q = begun_ok p.begun txn _ q e in
    subst IsRecovered (ok-injective _ q same_q) (record {
      valid = h.valid;
      sorted = h.sorted;
      pending =
          insert-pending txn (TreeMap.insert key value (writes_of txn p.pending)) p.pending
            (insert-IsSorted key value (writes_of txn p.pending) (h.pending txn)) h.pending;
    })

later_commit :
    (timestamp : ℕ) (p next q : Progress)
    → (if leb timestamp p.commit_ts
        then invalid "mvcc: commit timestamps are not increasing"
        else ok next)
      ≡ ok q
    → (p.commit_ts < timestamp) × (next ≡ q)
later_commit timestamp p next q e = ground (arith, e)

recover_commit-IsRecovered :
    (txn timestamp : ℕ) (p q : Progress)
    → IsRecovered p
    → recover_commit txn timestamp p ≡ ok q
    → IsRecovered q
unfolding recover_commit
recover_commit-IsRecovered txn timestamp p q h e =
    let (later, same_q) = later_commit timestamp p _ q (begun_ok p.begun txn _ q e) in
    subst IsRecovered same_q (record {
      valid =
          apply_versions-IsValid p.commit_ts timestamp p.versions (writes_of txn p.pending) later
            (h.pending txn) h.valid;
      sorted = apply_versions-IsSorted timestamp p.versions (writes_of txn p.pending) h.sorted;
      pending = remove-pending txn p.pending h.pending;
    })

recover_record-IsRecovered :
    (r : TxnRecord) (p q : Progress) → IsRecovered p → recover_record r p ≡ ok q → IsRecovered q
unfolding recover_record
recover_record-IsRecovered (TxnRecord.begin txn snapshot) p q h e =
    subst IsRecovered (ok-injective _ q e) (record {
      valid = h.valid;
      sorted = h.sorted;
      pending = insert-pending txn (writes_of txn p.pending) p.pending (h.pending txn) h.pending;
    })
recover_record-IsRecovered (TxnRecord.set txn key value) p q h e =
    recover_write-IsRecovered txn key (some value) p q h e
recover_record-IsRecovered (TxnRecord.delete txn key) p q h e =
    recover_write-IsRecovered txn key none p q h e
recover_record-IsRecovered (TxnRecord.commit txn timestamp) p q h e =
    recover_commit-IsRecovered txn timestamp p q h e
recover_record-IsRecovered (TxnRecord.abort txn) p q h e =
    subst IsRecovered (ok-injective _ q e) (record {
      valid = h.valid;
      sorted = h.sorted;
      pending = remove-pending txn p.pending h.pending;
    })

bound_ok {ℓ} :
    {A B : Type ℓ} (r : Result A) (f : A → Result B) (b : B)
    → (r >>= f) ≡ ok b
    → (a : A) × (r ≡ ok a) × (f a ≡ ok b)
bound_ok (ok a) f b e = (a, refl, e)
bound_ok (err x) f b e = ground (arith, e)

first_record :
    (payload : Bytes) (payloads : List Bytes) (p q : Progress)
    → recover_records (payload ∷ payloads) p ≡ ok q
    → (r : TxnRecord) × (m : Progress) × (recover_record r p ≡ ok m)
      × (recover_records payloads m ≡ ok q)
unfolding recover_records
first_record payload payloads p q e = go (decode payload) e
  where
    go :
        (d : Result TxnRecord)
        → elim d as (λ _. Result Progress) [
          | err x ↦ err x
          | ok r ↦ recover_record r p >>= λ m. recover_records payloads m
        ]
          ≡ ok q
        → (r : TxnRecord) × (m : Progress) × (recover_record r p ≡ ok m)
          × (recover_records payloads m ≡ ok q)
    go (ok r) f =
        let (m, one, rest) = bound_ok (recover_record r p) (λ m. recover_records payloads m) q f in
        (r, m, one, rest)
    go (err x) f = ground (arith, f)

recover_records-IsRecovered :
    (payloads : List Bytes) (p q : Progress)
    → IsRecovered p
    → recover_records payloads p ≡ ok q
    → IsRecovered q
recover_records-IsRecovered [] p q h e =
    subst IsRecovered (ok-injective p q (unfold recover_records in e)) h
recover_records-IsRecovered (payload ∷ payloads) p q h e =
    let (r, m, one, rest) = first_record payload payloads p q e in
    recover_records-IsRecovered payloads m q (recover_record-IsRecovered r p m h one) rest

none_ne_some : (s : ℕ) → ¬ (none ≡ some s)
none_ne_some s e = cc

opened :
    (next_txn : ℕ) (next inner : Inner)
    → (if ltb next_txn u64_end then ok next else invalid "mvcc: transaction id exhausted")
      ≡ ok inner
    → (next_txn < 2 ^ 64) × (next ≡ inner)
opened next_txn next inner e = ground (arith, e)

no_progress-IsRecovered : IsRecovered no_progress
unfolding chain_of writes_of TreeMap.get
no_progress-IsRecovered = record { valid = λ key. tt; sorted = tt; pending = λ txn. tt }

-- Whatever the log holds, a store that opens is consistent and has no active transaction, and its
-- next id fits 64 bits.
pub open_mvcc-IsConsistent :
    (src : Source) (disk : Option Wal) (inner : Inner)
    → open_mvcc src disk ≡ ok inner
    → IsConsistent inner × (inner.active ≡ []) × (inner.next_txn < 2 ^ 64)
unfolding open_mvcc
open_mvcc-IsConsistent src disk inner e =
    let payloads = (replay src (Option.map (λ (w : Wal). w.file) disk)).records in
    let (p, run, rest) = bound_ok (recover_records payloads no_progress) _ inner e in
    let h = recover_records-IsRecovered payloads no_progress p no_progress-IsRecovered run in
    let (bound, same_inner) = opened (p.max_txn + 1) _ inner rest in
    subst (λ (i : Inner). IsConsistent i × (i.active ≡ []) × (i.next_txn < 2 ^ 64)) same_inner
      (
        record {
          valid = h.valid;
          sorted = h.sorted;
          old = λ id s e. absurd (none_ne_some s (unfold TreeMap.get in e));
        },
        refl,
        bound,
      )
