-- ===== src/Txn/Consistent.antt =====
-- The invariant of `MvccStore` in src/txn.rs, and the operations that keep it.
use nutdb.Prelude.{
  ℕ, ◌≤◌, ◌<◌, ◌≡◌, refl, sym, ap, ◌⊎◌, inl, inr, Option, none, some, [], ◌∷◌, arith, Bool-cases,
  true, length, ◌==◌,
}
use mathlib.Core.Path.{subst}
use nutdb.Prelude.Order.{bytes_order, nat_order}
use nutdb.Prelude.TreeMap
use nutdb.Prelude.TreeMap.{TreeMap, IsSorted, get-insert, get-remove, insert-IsSorted, Above}
use nutdb.Bytes.{Bytes}
use nutdb.Txn.Codec.{TxnRecord}
use nutdb.Txn.Gc.{is_kept, retain, retain_all, watermark_of, gc, chain_of-retain_all}
use nutdb.Txn.Versions.{Version, Chain, Versions, Writes, chain_of, write_chain, apply_versions}
use nutdb.Txn.Chain.{IsChain}
use nutdb.Txn.Snapshot.{IsValid, IsChain-mono, chain_of-apply, write_chain-IsChain}
use nutdb.Txn.Ops.{Inner, Transaction, Outcome, begin, commit, abort, drop_txn, write, done, failed}
use nutdb.Txn.Commit.{commit_done, commit_failed}

pub apply_versions-IsValid :
    (c ts : ℕ) (vs : Versions) (writes : Writes)
    → c < ts
    → IsSorted writes
    → IsValid c vs
    → IsValid ts (apply_versions vs writes ts)
apply_versions-IsValid c ts vs writes later sorted valid key =
    rw (chain_of-apply vs writes ts key sorted) (go (TreeMap.get key writes))
  where
    go :
        (w : Option (Option Bytes))
        → IsChain ts (elim w [
          | none ↦ chain_of key vs
          | some value ↦ write_chain ts value (chain_of key vs)
        ])
    go none = IsChain-mono c ts (chain_of key vs) (valid key) (omega arith)
    go (some value) = write_chain-IsChain c ts later value (chain_of key vs) (valid key)

pub apply_versions-IsSorted :
    (ts : ℕ) (vs : Versions) (writes : Writes)
    → IsSorted vs
    → IsSorted (apply_versions vs writes ts)
unfolding apply_versions
apply_versions-IsSorted ts vs [] h = h
apply_versions-IsSorted ts vs ((key, value) ∷ writes) h =
    apply_versions-IsSorted ts (TreeMap.insert key (write_chain ts value (chain_of key vs)) vs)
      writes (insert-IsSorted key (write_chain ts value (chain_of key vs)) vs h)

-- The invariant of the open store: the chain of every key is in order and ends no later than the
-- newest timestamp, the keys are sorted, and no active snapshot is newer.
pub record IsConsistent (inner : Inner) : Type 0 where
  pub valid : IsValid inner.commit_ts inner.versions
  pub sorted : IsSorted inner.versions
  pub old : (id s : ℕ) → TreeMap.get id inner.active ≡ some s → s ≤ inner.commit_ts

-- A change that keeps the data and the newest timestamp, and adds no active transaction but one at
-- that timestamp.
keeps-IsConsistent :
    (before after : Inner)
    → after.versions ≡ before.versions
    → after.commit_ts ≡ before.commit_ts
    → ((id s : ℕ)
        → TreeMap.get id after.active ≡ some s
        → (s ≡ before.commit_ts) ⊎ (TreeMap.get id before.active ≡ some s))
    → IsConsistent before
    → IsConsistent after
keeps-IsConsistent before after v c active h = record {
  valid =
      subst (λ d. IsValid d after.versions) (sym c)
        (subst (IsValid before.commit_ts) (sym v) h.valid);
  sorted = subst (λ m. IsSorted m) (sym v) h.sorted;
  old = λ id s e. elim (active id s e) [
    | inl now ↦ omega (arith, now, c)
    | inr known ↦ (let le = h.old id s known in omega (arith, le, c))
  ];
}

begin-same :
    (inner : Inner)
    → ((begin inner).1.versions ≡ inner.versions) × ((begin inner).1.commit_ts ≡ inner.commit_ts)
unfolding begin
begin-same inner = ground arith

begin-active :
    (inner : Inner) (id s : ℕ)
    → TreeMap.get id (begin inner).1.active ≡ some s
    → (s ≡ inner.commit_ts) ⊎ (TreeMap.get id inner.active ≡ some s)
unfolding begin
begin-active inner id s e =
    ground (arith, e, get-insert inner.next_txn id inner.commit_ts inner.active)

write-same :
    (r : TxnRecord) (key : Bytes) (value : Option Bytes) (inner : Inner) (t : Transaction)
    → ((write r key value inner t).1.versions ≡ inner.versions)
      × ((write r key value inner t).1.commit_ts ≡ inner.commit_ts)
      × ((write r key value inner t).1.active ≡ inner.active)
unfolding write
write-same r key value inner t = ground arith

drop-same :
    (t : Transaction) (inner : Inner)
    → ((drop_txn t inner).versions ≡ inner.versions)
      × ((drop_txn t inner).commit_ts ≡ inner.commit_ts)
unfolding drop_txn
drop-same t inner = ground arith

drop-active :
    (t : Transaction) (inner : Inner) (id s : ℕ)
    → TreeMap.get id (drop_txn t inner).active ≡ some s
    → TreeMap.get id inner.active ≡ some s
unfolding drop_txn
drop-active t inner id s e = ground (arith, e, get-remove t.id id inner.active)

abort-same :
    (t : Transaction) (inner : Inner)
    → ((abort t inner).1.versions ≡ inner.versions)
      × ((abort t inner).1.commit_ts ≡ inner.commit_ts)
unfolding abort
abort-same t inner = ground arith

abort-active :
    (t : Transaction) (inner : Inner) (id s : ℕ)
    → TreeMap.get id (abort t inner).1.active ≡ some s
    → TreeMap.get id inner.active ≡ some s
unfolding abort drop_txn
abort-active t inner id s e = ground (arith, e, get-remove t.id id inner.active)

commit-active :
    (t : Transaction) (inner : Inner) (id s : ℕ)
    → TreeMap.get id (commit t inner).1.active ≡ some s
    → TreeMap.get id inner.active ≡ some s
unfolding commit drop_txn
commit-active t inner id s e = ground (arith, e, get-remove t.id id inner.active)

commit-IsConsistent :
    (t : Transaction) (inner : Inner)
    → IsSorted t.writes
    → IsConsistent inner
    → IsConsistent (commit t inner).1
commit-IsConsistent t inner sorted h = go (commit t inner) refl
  where
    go : (r : Outcome ℕ × Inner) → commit t inner ≡ r → IsConsistent r.1
    go (done ts, inner') e =
        let (_, next, newest, versions) = commit_done t inner inner' ts e in
        let valid =
          apply_versions-IsValid inner.commit_ts ts inner.versions t.writes (omega (arith, next))
            sorted h.valid in
        record {
          valid =
              subst (λ d. IsValid d inner'.versions) (sym newest)
                (subst (IsValid ts) (sym versions) valid);
          sorted =
              subst (λ m. IsSorted m) (sym versions)
                (apply_versions-IsSorted ts inner.versions t.writes h.sorted);
          old = λ id s k.
              let le = h.old id s (
                commit-active t inner id s (
                  subst (λ (p : Outcome ℕ × Inner). TreeMap.get id p.1.active ≡ some s) (sym e)
                    k)) in
              omega (arith, le, next, newest);
        }
    go (failed x, inner') e =
        let (newest, versions) = commit_failed t inner inner' x e in
        keeps-IsConsistent inner inner' versions newest
          (λ id s k. inr (
            commit-active t inner id s
              (subst (λ (p : Outcome ℕ × Inner). TreeMap.get id p.1.active ≡ some s) (sym e) k)))
          h

-- A version that ends before the watermark follows only such versions.
kept-next :
    (w c : ℕ) (v x : Version) (vs : Chain)
    → IsChain c (v ∷ x ∷ vs)
    → is_kept w v ≡ true
    → is_kept w x ≡ true
unfolding is_kept
kept-next w c v x [] h k = ground arith
kept-next w c v x (y ∷ vs) h k = ground arith

retain-kept :
    (w c : ℕ) (v : Version) (vs : Chain)
    → IsChain c (v ∷ vs)
    → is_kept w v ≡ true
    → retain w (v ∷ vs) ≡ v ∷ vs
unfolding retain
retain-kept w c v [] h k = rw k refl
retain-kept w c v (x ∷ vs) h k =
    rw k (ap (λ l. v ∷ l) (retain-kept w c x vs h.1 (kept-next w c v x vs h k)))

retain-IsChain : (w c : ℕ) (chain : Chain) → IsChain c chain → IsChain c (retain w chain)
unfolding retain
retain-IsChain w c [] h = tt
retain-IsChain w c (v ∷ []) h = elim (Bool-cases (is_kept w v)) [ inl e ↦ rw e h | inr e ↦ rw e tt ]
retain-IsChain w c (v ∷ x ∷ vs) h = elim (Bool-cases (is_kept w v)) [
  | inl e ↦ subst (IsChain c) (sym (retain-kept w c v (x ∷ vs) h e)) h
  | inr e ↦ rw e (retain-IsChain w c (x ∷ vs) h.1)
]

retain_all-Above :
    (w : ℕ) (key : Bytes) (vs : Versions) → Above key vs → Above key (retain_all w vs)
unfolding retain_all
retain_all-Above w key [] h = tt
retain_all-Above w key ((k, chain) ∷ vs) h = elim (Bool-cases (length (retain w chain) == 0)) [
  | inl e ↦ rw e (retain_all-Above w key vs h.1)
  | inr e ↦ rw e (h.0, retain_all-Above w key vs h.1)
]

retain_all-IsSorted : (w : ℕ) (vs : Versions) → IsSorted vs → IsSorted (retain_all w vs)
unfolding retain_all
retain_all-IsSorted w [] h = tt
retain_all-IsSorted w ((k, chain) ∷ vs) h = elim (Bool-cases (length (retain w chain) == 0)) [
  | inl e ↦ rw e (retain_all-IsSorted w vs h.1)
  | inr e ↦ rw e (retain_all-Above w k vs h.0, retain_all-IsSorted w vs h.1)
]

gc-IsConsistent : (inner : Inner) → IsConsistent inner → IsConsistent (gc inner).1
unfolding gc
gc-IsConsistent inner h =
    let w = watermark_of inner in
    record {
      valid = λ key.
          subst (IsChain inner.commit_ts) (sym (chain_of-retain_all w inner.versions key h.sorted))
            (retain-IsChain w inner.commit_ts (chain_of key inner.versions) (h.valid key));
      sorted = retain_all-IsSorted w inner.versions h.sorted;
      old = h.old;
    }

-- One step of the store under its lock, by any transaction.
pub data Step : Inner → Inner → Type 0 where
  begins : (inner : Inner) → Step inner (begin inner).1
  writes :
      (r : TxnRecord) (key : Bytes) (value : Option Bytes) (inner : Inner) (t : Transaction)
      → Step inner (write r key value inner t).1
  commits : (t : Transaction) (inner : Inner) → IsSorted t.writes → Step inner (commit t inner).1
  aborts : (t : Transaction) (inner : Inner) → Step inner (abort t inner).1
  drops : (t : Transaction) (inner : Inner) → Step inner (drop_txn t inner)
  collects : (inner : Inner) → Step inner (gc inner).1

-- Beginning a transaction, a write, a commit, an abort, a drop and a garbage collection keep the
-- store consistent, whether or not they succeed and whatever the transaction, if its writes are a
-- sorted map.
pub Step-IsConsistent :
    (before after : Inner) → Step before after → IsConsistent before → IsConsistent after
Step-IsConsistent before after (begins inner) h =
    keeps-IsConsistent inner (begin inner).1 (begin-same inner).0 (begin-same inner).1
      (begin-active inner) h
Step-IsConsistent before after (writes r key value inner t) h =
    let same = write-same r key value inner t in
    keeps-IsConsistent inner (write r key value inner t).1 same.0 same.1
      (λ id s e. inr (subst (λ m. TreeMap.get id m ≡ some s) same.2 e)) h
Step-IsConsistent before after (commits t inner sorted) h = commit-IsConsistent t inner sorted h
Step-IsConsistent before after (aborts t inner) h =
    keeps-IsConsistent inner (abort t inner).1 (abort-same t inner).0 (abort-same t inner).1
      (λ id s e. inr (abort-active t inner id s e)) h
Step-IsConsistent before after (drops t inner) h =
    keeps-IsConsistent inner (drop_txn t inner) (drop-same t inner).0 (drop-same t inner).1
      (λ id s e. inr (drop-active t inner id s e)) h
Step-IsConsistent before after (collects inner) h = gc-IsConsistent inner h
