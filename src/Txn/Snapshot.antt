-- ===== src/Txn/Snapshot.antt =====
-- Writes of src/txn.rs to all keys at once: the invariant of the versions, and what snapshots see
-- before and after a commit.
use nutdb.Prelude.{
  ℕ, ◌≤◌, ◌<◌, ◌≡◌, refl, sym, ◌∙◌, inl, inr, Option, none, some, [], ◌∷◌, ◌++◌, arith,
  if◌then◌else◌, Option-cases,
}
use nutdb.Prelude.Order.{bytes_order, same, same_iff}
use nutdb.Prelude.TreeMap
use nutdb.Prelude.TreeMap.{TreeMap, get-insert, get-Above, IsSorted}
use nutdb.Bytes.{Bytes}
use nutdb.Txn.Versions.{
  Version, Chain, Versions, Writes, chain_of, visible_value, find_visible, close_last, push_version,
  write_chain, apply_versions,
}
use nutdb.Txn.Chain.{IsChain, seen}

pub IsChain-mono : (c d : ℕ) (chain : Chain) → IsChain c chain → c ≤ d → IsChain d chain
IsChain-mono c d [] h l = tt
IsChain-mono c d (v ∷ []) (b, inl e) l = (omega arith, inl e)
IsChain-mono c d (v ∷ []) (b, inr (x, e, lt, le)) l = (omega arith, inr (x, e, lt, omega arith))
IsChain-mono c d (v ∷ w ∷ vs) h l = (h.0, IsChain-mono c d (w ∷ vs) h.1 l)

none_ne_some : (d : ℕ) → ¬ (none ≡ some d)
none_ne_some d e = cc

abbrev born : ℕ → Bytes → Version
born ts value = record { value = value; created_at = ts; deleted_at = none }

abbrev ended_at : ℕ → Version → Version
ended_at ts v = record v { deleted_at = some ts }

-- The last version has an end.
abbrev IsClosed : Chain → Type 0
IsClosed [] = Unit
IsClosed (v ∷ []) = (d : ℕ) × (v.deleted_at ≡ some d)
IsClosed (v ∷ w ∷ vs) = IsClosed (w ∷ vs)

module _ (c ts : ℕ) (later : c < ts) where
  close_last-IsChain : (chain : Chain) → IsChain c chain → IsChain ts (close_last ts chain)
  unfolding close_last
  close_last-IsChain [] h = tt
  close_last-IsChain (v ∷ []) (b, e) = elim (Option-cases v.deleted_at) [
    | inl o ↦ rw (o, close_last) (omega arith, inr (ts, refl, omega arith, omega arith))
    | inr (d, o) ↦ rw (o, close_last) (IsChain-mono c ts (v ∷ []) (b, e) (omega arith))
  ]
  close_last-IsChain (v ∷ w ∷ []) (h, (b, e)) = elim (Option-cases w.deleted_at) [
    | inl o ↦ rw (o, close_last) (h, (omega arith, inr (ts, refl, omega arith, omega arith)))
    | inr (d, o) ↦ rw (o, close_last) (h, IsChain-mono c ts (w ∷ []) (b, e) (omega arith))
  ]
  close_last-IsChain (v ∷ w ∷ x ∷ vs) h = (h.0, close_last-IsChain (w ∷ x ∷ vs) h.1)

  close_last-IsClosed : (chain : Chain) → IsClosed (close_last ts chain)
  unfolding close_last
  close_last-IsClosed [] = tt
  close_last-IsClosed (v ∷ []) = elim (Option-cases v.deleted_at) [
    | inl o ↦ rw (o, close_last) (ts, refl)
    | inr (d, o) ↦ rw (o, close_last) (d, o)
  ]
  close_last-IsClosed (v ∷ w ∷ []) = elim (Option-cases w.deleted_at) [
    | inl o ↦ rw (o, close_last) (ts, refl)
    | inr (d, o) ↦ rw (o, close_last) (d, o)
  ]
  close_last-IsClosed (v ∷ w ∷ x ∷ vs) = close_last-IsClosed (w ∷ x ∷ vs)

  push-IsChain :
      (value : Bytes) (chain : Chain)
      → IsChain ts chain
      → IsClosed chain
      → IsChain ts (chain ++ born ts value ∷ [])
  push-IsChain value [] h k = (omega arith, inl refl)
  push-IsChain value (v ∷ []) (b, inl e) (d, k) = absurd (none_ne_some d (sym e ∙ k))
  push-IsChain value (v ∷ []) (b, inr (x, e, lt, le)) k = ((x, e, lt, le), (omega arith, inl refl))
  push-IsChain value (v ∷ w ∷ vs) h k = (h.0, push-IsChain value (w ∷ vs) h.1 k)

  pub write_chain-IsChain :
      (value : Option Bytes) (chain : Chain)
      → IsChain c chain
      → IsChain ts (write_chain ts value chain)
  unfolding write_chain push_version
  write_chain-IsChain none chain h = close_last-IsChain chain h
  write_chain-IsChain (some x) chain h =
      push-IsChain x (close_last ts chain) (close_last-IsChain chain h) (close_last-IsClosed chain)

-- The invariant of a store whose newest commit is `c`.
abbrev pub IsValid : ℕ → Versions → Type 0
IsValid c versions = (key : Bytes) → IsChain c (chain_of key versions)

pub visible_value-seen :
    (vs : Versions) (key : Bytes) (s : ℕ) → visible_value vs key s ≡ seen s (chain_of key vs)
unfolding visible_value seen chain_of
visible_value-seen vs key s = elim (Option-cases (TreeMap.get key vs)) [
  | inl o ↦ rw (o, visible_value, chain_of, seen) (unfold find_visible in refl)
  | inr (chain, o) ↦ rw (o, visible_value, chain_of, seen)
]

chain_of-insert :
    (k j : Bytes) (chain : Chain) (vs : Versions)
    → chain_of j (TreeMap.insert k chain vs) ≡ (if same k j then chain else chain_of j vs)
unfolding chain_of
chain_of-insert k j chain vs = ground (arith, get-insert k j chain vs)

-- A commit changes the chains of the keys that it writes, and no other.
pub chain_of-apply :
    (vs : Versions) (writes : Writes) (ts : ℕ) (key : Bytes)
    → IsSorted writes
    → chain_of key (apply_versions vs writes ts) ≡ elim (TreeMap.get key writes) [
      | none ↦ chain_of key vs
      | some value ↦ write_chain ts value (chain_of key vs)
    ]
unfolding apply_versions TreeMap.get
chain_of-apply vs [] ts key h = refl
chain_of-apply vs ((k, value) ∷ writes) ts key h = ground (
  arith,
  chain_of-insert k key (write_chain ts value (chain_of k vs)) vs,
  same_iff k key,
  get-Above k writes h.0,
  chain_of-apply (TreeMap.insert k (write_chain ts value (chain_of k vs)) vs) writes ts key h.1,
)
