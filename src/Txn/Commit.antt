-- ===== src/Txn/Commit.antt =====
-- `commit` of src/txn.rs: snapshot isolation.
use nutdb.Prelude.{
  ℕ, ◌+◌, ◌≤◌, ◌<◌, ◌≡◌, ◌≢◌, refl, sym, ap, ◌∙◌, inl, inr, Option, none, some, [], ◌∷◌, arith,
  if◌then◌else◌, Option-cases, All,
}
use nutdb.Prelude.Order.{bytes_order, nat_order, same, same_iff}
use nutdb.Prelude.TreeMap
use nutdb.Prelude.TreeMap.{TreeMap, IsSorted, get-insert, get-remove}
use nutdb.Bytes.{Bytes}
use nutdb.Txn.Codec.{TxnRecord}
use nutdb.Txn.Versions.{
  Versions, Writes, chain_of, chain_change, latest_change, write_chain, apply_versions,
}
use nutdb.Txn.Chain.{
  seen, seen-write_chain_before, seen-write_chain, seen_late, seen_unchanged, IsUntouched,
  chain_change-IsUntouched,
}
use nutdb.Txn.Snapshot.{IsValid, visible_value-seen, chain_of-apply}
use nutdb.Txn.Ops.{
  Inner, Transaction, TxnError, Outcome, done, failed, conflict, find_conflict, commit, get_at, get,
  write, exhausted,
}

-- What a commit does to the data, by its outcome.
abbrev pub Committed : Transaction → Inner → ℕ → Inner → Type 0
Committed t inner ts inner' =
    (find_conflict inner.versions t.writes t.snapshot ≡ none)
    × (ts ≡ inner.commit_ts + 1)
    × (inner'.commit_ts ≡ ts)
    × (inner'.versions ≡ apply_versions inner.versions t.writes ts)

pub commit_done :
    (t : Transaction) (inner inner' : Inner) (ts : ℕ)
    → commit t inner ≡ (done ts, inner')
    → Committed t inner ts inner'
unfolding commit
commit_done t inner inner' ts e = ground arith

pub commit_failed :
    (t : Transaction) (inner inner' : Inner) (x : TxnError)
    → commit t inner ≡ (failed x, inner')
    → (inner'.commit_ts ≡ inner.commit_ts) × (inner'.versions ≡ inner.versions)
unfolding commit
commit_failed t inner inner' x e = ground arith

pub get_at-seen :
    (inner : Inner) (key : Bytes) (s : ℕ)
    → get_at inner key s ≡ seen s (chain_of key inner.versions)
unfolding get_at
get_at-seen inner key s = visible_value-seen inner.versions key s

seen-apply_before :
    (vs : Versions) (writes : Writes) (ts s : ℕ) (key : Bytes)
    → IsSorted writes
    → s < ts
    → seen s (chain_of key (apply_versions vs writes ts)) ≡ seen s (chain_of key vs)
seen-apply_before vs writes ts s key sorted h =
    rw (chain_of-apply vs writes ts key sorted) (written (TreeMap.get key writes))
  where
    written :
        (w : Option (Option Bytes))
        → seen s (elim w [
          | none ↦ chain_of key vs
          | some value ↦ write_chain ts value (chain_of key vs)
        ])
          ≡ seen s (chain_of key vs)
    written none = refl
    written (some value) = seen-write_chain_before s ts value (chain_of key vs) h

seen-apply :
    (vs : Versions) (writes : Writes) (c ts : ℕ) (key : Bytes)
    → IsSorted writes
    → IsValid c vs
    → c < ts
    → seen ts (chain_of key (apply_versions vs writes ts))
      ≡ elim (TreeMap.get key writes) [ none ↦ seen c (chain_of key vs) | some value ↦ value ]
seen-apply vs writes c ts key sorted valid h =
    rw (chain_of-apply vs writes ts key sorted) (written (TreeMap.get key writes))
  where
    written :
        (w : Option (Option Bytes))
        → seen ts (elim w [
          | none ↦ chain_of key vs
          | some value ↦ write_chain ts value (chain_of key vs)
        ])
          ≡ elim w [ none ↦ seen c (chain_of key vs) | some value ↦ value ]
    written none = seen_late c ts (chain_of key vs) (valid key) (omega arith)
    written (some value) = seen-write_chain c ts value (chain_of key vs) (valid key) h

-- Snapshot isolation: whatever the outcome of a commit, a snapshot from before it reads every key
-- as it read it before.
pub commit_keeps_snapshots :
    (t : Transaction) (inner : Inner) (key : Bytes) (s : ℕ)
    → IsSorted t.writes
    → s ≤ inner.commit_ts
    → get_at (commit t inner).1 key s ≡ get_at inner key s
commit_keeps_snapshots t inner key s sorted h = go (commit t inner) refl
  where
    go : (r : Outcome ℕ × Inner) → commit t inner ≡ r → get_at r.1 key s ≡ get_at inner key s
    go (done ts, inner') e =
        let (_, later, _, versions) = commit_done t inner inner' ts e in
        get_at-seen inner' key s
        ∙ ap (λ v. seen s (chain_of key v)) versions
        ∙ seen-apply_before inner.versions t.writes ts s key sorted (omega arith)
        ∙ sym (get_at-seen inner key s)
    go (failed x, inner') e =
        let (_, versions) = commit_failed t inner inner' x e in
        get_at-seen inner' key s
        ∙ ap (λ v. seen s (chain_of key v)) versions
        ∙ sym (get_at-seen inner key s)

-- Atomicity: a successful commit returns the next timestamp, and at that timestamp every key that
-- the transaction wrote reads what it wrote last (nothing for a delete), and every other key what
-- the newest snapshot read before.
pub commit_is_atomic :
    (t : Transaction) (inner inner' : Inner) (ts : ℕ) (key : Bytes)
    → IsSorted t.writes
    → IsValid inner.commit_ts inner.versions
    → commit t inner ≡ (done ts, inner')
    → (ts ≡ inner.commit_ts + 1)
      × (inner'.commit_ts ≡ ts)
      × (get_at inner' key ts ≡ elim (TreeMap.get key t.writes) [
        | none ↦ get_at inner key inner.commit_ts
        | some value ↦ value
      ])
commit_is_atomic t inner inner' ts key sorted valid e =
    let (_, next, newest, versions) = commit_done t inner inner' ts e in
    (
      next,
      newest,
      get_at-seen inner' key ts
          ∙ ap (λ v. seen ts (chain_of key v)) versions
          ∙ seen-apply inner.versions t.writes inner.commit_ts ts key sorted valid (omega arith)
          ∙ ap
              (λ o. elim (TreeMap.get key t.writes) as (λ _. Option Bytes) [
                | none ↦ o
                | some value ↦ value
              ])
              (sym (get_at-seen inner key inner.commit_ts)),
    )

pub latest_change-chain :
    (vs : Versions) (key : Bytes) → latest_change vs key ≡ chain_change (chain_of key vs)
unfolding latest_change chain_change chain_of
latest_change-chain vs key = elim (Option-cases (TreeMap.get key vs)) [
  | inl o ↦ rw (o, latest_change, chain_of) refl
  | inr (chain, o) ↦ rw (o, latest_change, chain_of)
]

-- No conflict is found only if no written key changed after the snapshot.
find_conflict-none :
    (vs : Versions) (writes : Writes) (s : ℕ) (key : Bytes) (value : Option Bytes)
    → find_conflict vs writes s ≡ none
    → TreeMap.get key writes ≡ some value
    → latest_change vs key ≤ s
unfolding find_conflict TreeMap.get
find_conflict-none vs [] s key value e g = cc
find_conflict-none vs ((k, v) ∷ writes) s key value e g =
    ground (arith, same_iff k key, find_conflict-none vs writes s key value)

-- No lost update: when a commit succeeds, no version of a key that the transaction wrote began or
-- ended after the transaction's snapshot, and the key reads at that snapshot what it reads at the
-- newest timestamp from before the commit.
pub commit_loses_no_update :
    (t : Transaction) (inner inner' : Inner) (ts : ℕ) (key : Bytes) (value : Option Bytes)
    → IsValid inner.commit_ts inner.versions
    → t.snapshot ≤ inner.commit_ts
    → commit t inner ≡ (done ts, inner')
    → TreeMap.get key t.writes ≡ some value
    → All (IsUntouched t.snapshot) (chain_of key inner.versions)
      × (get_at inner key t.snapshot ≡ get_at inner key inner.commit_ts)
commit_loses_no_update t inner inner' ts key value valid old e w =
    let (clear, _, _, _) = commit_done t inner inner' ts e in
    let chain = chain_of key inner.versions in
    let unchanged : chain_change chain ≤ t.snapshot = omega (
      arith,
      latest_change-chain inner.versions key,
      find_conflict-none inner.versions t.writes t.snapshot key value clear w,
    ) in
    (
      chain_change-IsUntouched inner.commit_ts t.snapshot chain (valid key) unchanged,
      get_at-seen inner key t.snapshot
          ∙ seen_unchanged inner.commit_ts t.snapshot chain (valid key) unchanged old
          ∙ sym (get_at-seen inner key inner.commit_ts),
    )

-- What a transaction writes it reads back, and it reads the other keys as before.
pub get-write :
    (r : TxnRecord) (inner inner' : Inner) (t t' : Transaction) (key j : Bytes)
    (value : Option Bytes)
    → write r key value inner t ≡ (done tt, inner', t')
    → get inner' t' j ≡ (if same key j then done value else get inner t j)
unfolding write get get_at
get-write r inner inner' t t' key j value e = ground (arith, get-insert key j value t.writes)

find_conflict-some :
    (vs : Versions) (writes : Writes) (s : ℕ) (key : Bytes)
    → find_conflict vs writes s ≡ some key
    → (TreeMap.get key writes ≢ none) × (s < latest_change vs key)
unfolding find_conflict TreeMap.get
find_conflict-some vs [] s key e = cc
find_conflict-some vs ((k, v) ∷ writes) s key e =
    ground (arith, same_iff k key, find_conflict-some vs writes s key)

conflict_found :
    (t : Transaction) (inner inner' : Inner) (key : Bytes)
    → commit t inner ≡ (failed (conflict key), inner')
    → (find_conflict inner.versions t.writes t.snapshot ≡ some key)
      × (inner'.active ≡ TreeMap.remove t.id inner.active)
unfolding commit exhausted
conflict_found t inner inner' key e = ground arith

-- A commit that reports a conflict names a key that the transaction wrote and that changed after
-- its snapshot, changes no data, and takes the transaction off the active ones.
pub commit_conflict :
    (t : Transaction) (inner inner' : Inner) (key : Bytes)
    → commit t inner ≡ (failed (conflict key), inner')
    → (TreeMap.get key t.writes ≢ none)
      × (t.snapshot < latest_change inner.versions key)
      × (inner'.versions ≡ inner.versions)
      × (inner'.commit_ts ≡ inner.commit_ts)
      × (TreeMap.get t.id inner'.active ≡ none)
commit_conflict t inner inner' key e =
    let (found, removed) = conflict_found t inner inner' key e in
    let (written, changed) = find_conflict-some inner.versions t.writes t.snapshot key found in
    let (ts, versions) = commit_failed t inner inner' (conflict key) e in
    (
      written,
      changed,
      versions,
      ts,
      ap (TreeMap.get t.id) removed
          ∙ get-remove t.id t.id inner.active
          ∙ ground (arith, same_iff t.id t.id),
    )
