-- ===== src/Txn/Versions.antt =====
-- src/version.rs, and the functions of src/txn.rs on the chains of versions of the keys.
use nutdb.Prelude.{
  ℕ, Bool, true, ◌&&◌, Option, none, some, List, [], ◌∷◌, ◌++◌, ltb, leb, if◌then◌else◌, max,
}
use nutdb.Prelude.Order.{bytes_order}
use nutdb.Prelude.TreeMap
use nutdb.Prelude.TreeMap.{TreeMap}
use nutdb.Bytes.{Bytes}

pub record Version : Type 0 where
  pub value : Bytes
  pub created_at : ℕ
  pub deleted_at : Option ℕ

unfoldable pub visible_at : Version → ℕ → Bool
visible_at v snapshot =
    leb v.created_at snapshot
    && elim v.deleted_at [ none ↦ true | some deleted ↦ ltb snapshot deleted ]

unfoldable pub last_modified : Version → ℕ
last_modified v =
    max (elim v.deleted_at [ none ↦ v.created_at | some deleted ↦ deleted ]) v.created_at

abbrev pub Chain : Type 0
Chain = List Version

abbrev pub Versions : Type 0
Versions = TreeMap Bytes Chain

-- The values that a transaction wrote, `none` for a delete.
abbrev pub Writes : Type 0
Writes = TreeMap Bytes (Option Bytes)

-- `chain.iter().rev().find(|version| version.visible_at(snapshot))`
unfoldable pub find_visible : ℕ → Chain → Option Version
unfolding visible_at
find_visible snapshot [] = none
find_visible snapshot (v ∷ vs) = elim (find_visible snapshot vs) [
  | some w ↦ some w
  | none ↦ if visible_at v snapshot then some v else none
]

unfoldable pub chain_of : Bytes → Versions → Chain
chain_of key versions = elim (TreeMap.get key versions) [ none ↦ [] | some chain ↦ chain ]

unfoldable pub visible_value : Versions → Bytes → ℕ → Option Bytes
visible_value versions key snapshot = elim (TreeMap.get key versions) [
  | none ↦ none
  | some chain ↦ elim (find_visible snapshot chain) [ none ↦ none | some v ↦ some v.value ]
]

-- `chain.last().map(Version::last_modified)`, and 0 for no version
unfoldable pub chain_change : Chain → ℕ
unfolding last_modified
chain_change [] = 0
chain_change (v ∷ []) = last_modified v
chain_change (v ∷ w ∷ vs) = chain_change (w ∷ vs)

unfoldable pub latest_change : Versions → Bytes → ℕ
unfolding chain_change
latest_change versions key = elim (TreeMap.get key versions) [
  | none ↦ 0
  | some chain ↦ chain_change chain
]

-- `if let Some(current) = chain.last_mut()`
unfoldable pub close_last : ℕ → Chain → Chain
close_last timestamp [] = []
close_last timestamp (v ∷ []) = elim v.deleted_at [
  | none ↦ record v { deleted_at = some timestamp } ∷ []
  | some deleted ↦ v ∷ []
]
close_last timestamp (v ∷ w ∷ vs) = v ∷ close_last timestamp (w ∷ vs)

unfoldable pub push_version : ℕ → Option Bytes → Chain → Chain
push_version timestamp none chain = chain
push_version timestamp (some value) chain =
    chain ++ record { value = value; created_at = timestamp; deleted_at = none } ∷ []

-- One round of the loop of `apply_versions`.
unfoldable pub write_chain : ℕ → Option Bytes → Chain → Chain
write_chain timestamp value chain = push_version timestamp value (close_last timestamp chain)

unfoldable pub apply_versions : Versions → Writes → ℕ → Versions
apply_versions versions [] timestamp = versions
apply_versions versions ((key, value) ∷ writes) timestamp =
    apply_versions
      (TreeMap.insert key (write_chain timestamp value (chain_of key versions)) versions) writes
      timestamp
