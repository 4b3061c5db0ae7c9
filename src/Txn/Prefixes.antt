-- ===== src/Txn/Prefixes.antt =====
-- The keys with a prefix among sorted ones, for `scan_prefix` of src/txn.rs.
use nutdb.Prelude.{
  ◌≡◌, ◌≢◌, refl, sym, ap, ◌∙◌, inl, inr, true, false, Option, none, some, [], ◌∷◌, arith,
  Bool-cases, Option-cases,
}
use Prim.Native.Nat.{Ordering}
use nutdb.Prelude.Order.{
  bytes_order, compare_bytes, compare_bytes-eq, compare_bytes-gt, compare_bytes_trans, same,
  same_iff,
}
use nutdb.Prelude.TreeMap
use nutdb.Prelude.TreeMap.{TreeMap, IsSorted, Above, get-insert, get-remove, get-Above}
use nutdb.Bytes.{Bytes}
use nutdb.Txn.Versions.{Writes}
use nutdb.Txn.Scan.{starts_with, is_before, range_from}

-- The keys with a prefix stand together: none without it lies between the prefix and one with it.
starts_with_gap :
    (prefix k j : Bytes)
    → compare_bytes prefix k ≢ Ordering.gt
    → compare_bytes k j ≡ Ordering.lt
    → starts_with prefix j ≡ true
    → starts_with prefix k ≡ true
unfolding starts_with
starts_with_gap [] k j low less h = refl
starts_with_gap (p ∷ prefix) [] j low less h = absurd (low refl)
starts_with_gap (p ∷ prefix) (x ∷ k) [] low less h = ground arith
starts_with_gap (p ∷ prefix) (x ∷ k) (y ∷ j) low less h =
    ground (arith, starts_with_gap prefix k j, low, less, h)

-- A key with the prefix is not before it.
starts_with_low :
    (prefix k : Bytes) → starts_with prefix k ≡ true → compare_bytes k prefix ≢ Ordering.lt
unfolding starts_with
starts_with_low [] [] h e = ground arith
starts_with_low [] (x ∷ k) h e = ground arith
starts_with_low (p ∷ prefix) [] h e = ground arith
starts_with_low (p ∷ prefix) (x ∷ k) h e = ground (arith, starts_with_low prefix k, h, e)

-- Not before the prefix, and later keys are not either.
low_next :
    (prefix k j : Bytes)
    → compare_bytes prefix k ≢ Ordering.gt
    → compare_bytes k j ≡ Ordering.lt
    → compare_bytes prefix j ≢ Ordering.gt
low_next prefix k j low less e = ground (
  arith,
  low,
  compare_bytes_trans prefix k j,
  compare_bytes-eq prefix k,
  ap (λ x. compare_bytes x j),
)

-- The writes from the prefix on are sorted, begin no earlier, and hold every key with the prefix.
abbrev pub FromPrefix : Bytes → Writes → Type 0
FromPrefix prefix [] = Unit
FromPrefix prefix ((k, value) ∷ writes) = compare_bytes prefix k ≢ Ordering.gt

-- A key that the range leaves out does not have the prefix.
get-before :
    (prefix k j : Bytes) (value : Option Bytes) (writes : Writes)
    → is_before k prefix ≡ true
    → starts_with prefix j ≡ true
    → TreeMap.get j ((k, value) ∷ writes) ≡ TreeMap.get j writes
unfolding is_before TreeMap.get
get-before prefix k j value writes less h = elim (Bool-cases (same ⦃o = bytes_order⦄ k j)) [
  | inl e ↦
      let eq : k ≡ j = (same_iff ⦃o = bytes_order⦄ k j).0 e in
      absurd (starts_with_low prefix k (ap (starts_with prefix) eq ∙ h) (ground (arith, less)))
  | inr e ↦ rw e refl
]

pub range_from-FromPrefix :
    (prefix : Bytes) (writes : Writes)
    → IsSorted ⦃o = bytes_order⦄ writes
    → IsSorted ⦃o = bytes_order⦄ (range_from prefix writes)
      × FromPrefix prefix (range_from prefix writes)
      × ((j : Bytes)
          → starts_with prefix j ≡ true
          → TreeMap.get j (range_from prefix writes) ≡ TreeMap.get j writes)
unfolding range_from is_before
range_from-FromPrefix prefix [] sorted = (tt, tt, λ j h. refl)
range_from-FromPrefix prefix ((k, value) ∷ writes) sorted = elim (Bool-cases (is_before k prefix)) [
  | inl less ↦
      let (rest, from, reads) = range_from-FromPrefix prefix writes sorted.1 in
      rw less (rest, from, λ j h. reads j h ∙ sym (get-before prefix k j value writes less h))
  | inr kept ↦ rw kept (sorted, λ e. ground (arith, kept, compare_bytes-gt prefix k e), λ j h. refl)
]

-- A key of a sorted map is above those before it.
get-Above_lt :
    (k j : Bytes) (m : Writes) (value : Option Bytes)
    → Above ⦃o = bytes_order⦄ k m
    → TreeMap.get j m ≡ some value
    → compare_bytes k j ≡ Ordering.lt
unfolding TreeMap.get
get-Above_lt k j [] value above h = ground arith
get-Above_lt k j ((i, w) ∷ m) value above h = elim (Bool-cases (same ⦃o = bytes_order⦄ i j)) [
  | inl e ↦ ap (compare_bytes k) (sym ((same_iff ⦃o = bytes_order⦄ i j).0 e)) ∙ above.0
  | inr e ↦ get-Above_lt k j m value above.1 (ground (arith, e, h))
]

pub FromPrefix-tail :
    (prefix k : Bytes) (writes : Writes)
    → compare_bytes prefix k ≢ Ordering.gt
    → Above ⦃o = bytes_order⦄ k writes
    → FromPrefix prefix writes
FromPrefix-tail prefix k [] low above = tt
FromPrefix-tail prefix k ((i, w) ∷ writes) low above = low_next prefix k i low above.0

-- After a key without the prefix no key has it.
pub get-past :
    (prefix k j : Bytes) (value : Option Bytes) (writes : Writes)
    → compare_bytes prefix k ≢ Ordering.gt
    → Above ⦃o = bytes_order⦄ k writes
    → starts_with prefix k ≡ false
    → starts_with prefix j ≡ true
    → TreeMap.get j ((k, value) ∷ writes) ≡ none
unfolding TreeMap.get
get-past prefix k j value writes low above without h =
    elim (Bool-cases (same ⦃o = bytes_order⦄ k j)) [
      | inl e ↦
          let eq : k ≡ j = (same_iff ⦃o = bytes_order⦄ k j).0 e in
          ground (arith, ap (starts_with prefix) eq, without, h)
      | inr e ↦ elim (Option-cases (TreeMap.get ⦃o = bytes_order⦄ j writes)) [
        | inl f ↦ rw (e) f
        | inr (w, f) ↦
            let less = get-Above_lt k j writes w above f in
            ground (arith, starts_with_gap prefix k j low less h, without)
      ]
    ]
