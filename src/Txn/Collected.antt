-- ===== src/Txn/Collected.antt =====
-- The rows that `scan_prefix` of src/txn.rs collects from the versions.
use nutdb.Prelude.{
  ℕ, ◌≡◌, ap, inl, inr, Option, none, some, [], ◌∷◌, arith, if◌then◌else◌, Bool-cases,
}
use nutdb.Prelude.Order.{bytes_order, same, same_iff}
use nutdb.Prelude.TreeMap
use nutdb.Prelude.TreeMap.{TreeMap, IsSorted, Above, get-insert, get-remove, get-Above}
use nutdb.Bytes.{Bytes}
use nutdb.Txn.Versions.{Versions, visible_value}
use nutdb.Txn.Scan.{starts_with, collect_row, collect_rows}

get-collect_row :
    (value : Option Bytes) (key j : Bytes) (rows : TreeMap Bytes Bytes)
    → TreeMap.get j (collect_row value key rows) ≡ (
        if same ⦃o = bytes_order⦄ key j
        then elim value [ none ↦ TreeMap.get j rows | some v ↦ some v ]
        else TreeMap.get j rows)
unfolding collect_row
get-collect_row none key j rows = ground arith
get-collect_row (some v) key j rows = get-insert ⦃o = bytes_order⦄ key j v rows

-- The first value there is.
or_else : Option Bytes → Option Bytes → Option Bytes
or_else none other = other
or_else (some v) other = some v

-- The visible value of a key that has versions in `rest`.
visible_in : Versions → ℕ → Versions → Bytes → Option Bytes
visible_in versions snapshot rest j = elim (TreeMap.get j rest) [
  | none ↦ none
  | some c ↦ visible_value versions j snapshot
]

-- What a key has among the rows after the loop: its visible value, if it has the prefix and
-- versions, and otherwise what it had before.
get-collect_rows :
    (versions : Versions) (snapshot : ℕ) (prefix : Bytes) (rest : Versions)
    (rows : TreeMap Bytes Bytes) (j : Bytes)
    → TreeMap.get j (collect_rows versions snapshot prefix rest rows)
      ≡ or_else
          (if starts_with prefix j then visible_in versions snapshot rest j else none)
          (TreeMap.get j rows)
unfolding collect_rows TreeMap.get or_else visible_in
get-collect_rows versions snapshot prefix [] rows j = ground arith
get-collect_rows versions snapshot prefix ((k, c) ∷ rest) rows j =
    elim (Bool-cases (same ⦃o = bytes_order⦄ k j)) [
      | inl e ↦
          let eq : k ≡ j = (same_iff ⦃o = bytes_order⦄ k j).0 e in
          ground (
            arith,
            e,
            ap (starts_with prefix) eq,
            ap (λ x. visible_value versions x snapshot) eq,
            get-collect_rows versions snapshot prefix rest
                (if starts_with prefix k
                  then collect_row (visible_value versions k snapshot) k rows
                  else rows)
                j,
            get-collect_row (visible_value versions k snapshot) k j rows,
          )
      | inr e ↦ ground (
        arith,
        e,
        get-collect_rows versions snapshot prefix rest
            (if starts_with prefix k
              then collect_row (visible_value versions k snapshot) k rows
              else rows)
            j,
        get-collect_row (visible_value versions k snapshot) k j rows,
      )
    ]

visible_in_all :
    (versions : Versions) (snapshot : ℕ) (j : Bytes)
    → visible_in versions snapshot versions j ≡ visible_value versions j snapshot
unfolding visible_in visible_value
visible_in_all versions snapshot j = ground arith

-- A key has nothing among no rows.
pub collected_visible :
    (versions : Versions) (snapshot : ℕ) (prefix j : Bytes)
    → TreeMap.get ⦃o = bytes_order⦄ j (collect_rows versions snapshot prefix versions [])
      ≡ (if starts_with prefix j then visible_value versions j snapshot else none)
unfolding or_else TreeMap.get
collected_visible versions snapshot prefix j = ground (
  arith,
  get-collect_rows versions snapshot prefix versions [] j,
  visible_in_all versions snapshot j,
)
