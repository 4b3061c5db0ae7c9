-- ===== src/Txn/Scanned.antt =====
-- `scan_prefix` of src/txn.rs returns what `get` reads, key by key.
use nutdb.Prelude.{
  ◌≡◌, sym, ap, ◌∙◌, inl, inr, Option, none, some, [], ◌∷◌, arith, if◌then◌else◌, Bool-cases,
}
use nutdb.Prelude.Order.{bytes_order, same, same_iff}
use nutdb.Prelude.TreeMap
use nutdb.Prelude.TreeMap.{TreeMap, IsSorted, Above, get-insert, get-remove, get-Above}
use nutdb.Bytes.{Bytes}
use nutdb.Txn.Versions.{Writes}
use nutdb.Txn.Ops.{Inner, Transaction, done, get, get_at}
use nutdb.Txn.Scan.{starts_with, collect_rows, range_from, write_row, merge_writes, scan_prefix}
use nutdb.Txn.Collected.{collected_visible}
use nutdb.Txn.Prefixes.{FromPrefix, range_from-FromPrefix, FromPrefix-tail, get-past}

get-write_row :
    (value : Option Bytes) (key j : Bytes) (rows : TreeMap Bytes Bytes)
    → TreeMap.get j (write_row value key rows)
      ≡ (if same ⦃o = bytes_order⦄ key j then value else TreeMap.get j rows)
unfolding write_row
get-write_row none key j rows = get-remove ⦃o = bytes_order⦄ key j rows
get-write_row (some v) key j rows = get-insert ⦃o = bytes_order⦄ key j v rows

-- What a key with the prefix has after the loop: what the transaction wrote, if it did, and
-- otherwise what it had before. Other keys keep what they had.
get-merge_writes :
    (prefix : Bytes) (writes : Writes) (rows : TreeMap Bytes Bytes) (j : Bytes)
    → IsSorted ⦃o = bytes_order⦄ writes
    → FromPrefix prefix writes
    → TreeMap.get j (merge_writes prefix writes rows) ≡ (
        if starts_with prefix j
        then elim (TreeMap.get j writes) [ none ↦ TreeMap.get j rows | some value ↦ value ]
        else TreeMap.get j rows)
unfolding merge_writes TreeMap.get
get-merge_writes prefix [] rows j sorted from = ground arith
get-merge_writes prefix ((k, value) ∷ writes) rows j sorted from =
    let next =
      get-merge_writes prefix writes (write_row value k rows) j sorted.1
        (FromPrefix-tail prefix k writes from sorted.0) in
    let written = get-write_row value k j rows in
    elim (Bool-cases (starts_with prefix k)) [
      | inr without ↦ elim (Bool-cases (starts_with prefix j)) [
        | inl h ↦
            let past = get-past prefix k j value writes from sorted.0 without h in
            ground (arith, without, h, past)
        | inr h ↦ ground (arith, without, h)
      ]
      | inl has ↦ elim (Bool-cases (same ⦃o = bytes_order⦄ k j)) [
        | inl e ↦
            let eq : k ≡ j = (same_iff ⦃o = bytes_order⦄ k j).0 e in
            let none_later : TreeMap.get ⦃o = bytes_order⦄ j writes ≡ none =
              ap (λ x. TreeMap.get ⦃o = bytes_order⦄ x writes) (sym eq)
              ∙ get-Above ⦃o = bytes_order⦄ k writes sorted.0 in
            ground (arith, has, e, ap (starts_with prefix) eq, none_later, next, written)
        | inr e ↦ ground (arith, has, e, next, written)
      ]
    ]

-- A scan by a transaction returns, under the keys with the prefix, what the transaction reads
-- there, and nothing under other keys.
pub scan_prefix-get :
    (inner : Inner) (t : Transaction) (prefix key : Bytes) (rows : TreeMap Bytes Bytes)
    (value : Option Bytes)
    → IsSorted ⦃o = bytes_order⦄ t.writes
    → scan_prefix inner t prefix ≡ done rows
    → get inner t key ≡ done value
    → TreeMap.get key rows ≡ (if starts_with prefix key then value else none)
unfolding scan_prefix get get_at
scan_prefix-get inner t prefix key rows value sorted scanned read =
    let (range_sorted, from, reads) = range_from-FromPrefix prefix t.writes sorted in
    let collected = collect_rows inner.versions t.snapshot prefix inner.versions [] in
    let merged =
      get-merge_writes prefix (range_from prefix t.writes) collected key range_sorted from in
    let visible = collected_visible inner.versions t.snapshot prefix key in
    elim (Bool-cases (starts_with prefix key)) [
      | inl h ↦ ground (arith, scanned, read, h, merged, visible, reads key h)
      | inr h ↦ ground (arith, scanned, read, h, merged, visible)
    ]
