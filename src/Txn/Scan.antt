-- ===== src/Txn/Scan.antt =====
-- `Transaction::scan_prefix` of src/txn.rs.
use nutdb.Prelude.{ℕ, Bool, true, false, ◌&&◌, Option, none, some, [], ◌∷◌, ◌==◌, if◌then◌else◌}
use Prim.Native.Nat.{Ordering}
use nutdb.Prelude.Order.{bytes_order, compare_bytes}
use nutdb.Prelude.TreeMap
use nutdb.Prelude.TreeMap.{TreeMap}
use nutdb.Bytes.{Bytes}
use nutdb.Txn.Versions.{Versions, Writes, visible_value}
use nutdb.Txn.Ops.{Inner, Transaction, Outcome, done, failed, finished}

-- `key.starts_with(prefix)`
unfoldable pub starts_with : Bytes → Bytes → Bool
starts_with [] key = true
starts_with (p ∷ prefix) [] = false
starts_with (p ∷ prefix) (k ∷ key) = p == k && starts_with prefix key

-- The row of a key that is visible, put among the rows.
unfoldable pub collect_row : Option Bytes → Bytes → TreeMap Bytes Bytes → TreeMap Bytes Bytes
collect_row none key rows = rows
collect_row (some value) key rows = TreeMap.insert key value rows

-- The loop over the keys that have versions.
unfoldable pub collect_rows :
    Versions → ℕ → Bytes → Versions → TreeMap Bytes Bytes → TreeMap Bytes Bytes
collect_rows versions snapshot prefix [] rows = rows
collect_rows versions snapshot prefix ((key, chain) ∷ rest) rows =
    collect_rows versions snapshot prefix rest (
      if starts_with prefix key
      then collect_row (visible_value versions key snapshot) key rows
      else rows)

-- The key is less than the first that a range begins with.
unfoldable pub is_before : Bytes → Bytes → Bool
is_before key prefix = elim (compare_bytes key prefix) [ Ordering.lt ↦ true | _ ↦ false ]

-- `range(prefix..)`
unfoldable pub range_from : Bytes → Writes → Writes
range_from prefix [] = []
range_from prefix ((key, value) ∷ writes) =
    let rest = range_from prefix writes in
    if is_before key prefix then rest else (key, value) ∷ writes

unfoldable pub write_row : Option Bytes → Bytes → TreeMap Bytes Bytes → TreeMap Bytes Bytes
write_row (some value) key rows = TreeMap.insert key value rows
write_row none key rows = TreeMap.remove key rows

-- The loop over the transaction's own writes, which ends at the first key without the prefix.
unfoldable pub merge_writes : Bytes → Writes → TreeMap Bytes Bytes → TreeMap Bytes Bytes
merge_writes prefix [] rows = rows
merge_writes prefix ((key, value) ∷ writes) rows =
    let rest = merge_writes prefix writes (write_row value key rows) in
    if starts_with prefix key then rest else rows

unfoldable pub scan_prefix : Inner → Transaction → Bytes → Outcome (TreeMap Bytes Bytes)
scan_prefix inner t prefix =
    if t.finished
    then failed finished
    else done (
        merge_writes prefix (range_from prefix t.writes)
          (collect_rows inner.versions t.snapshot prefix inner.versions []))
