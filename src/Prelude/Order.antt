-- ===== src/Prelude/Order.antt =====
-- Rust's `Ord` for the keys of a map, and its two instances: numbers, and byte strings in
-- lexicographic order (the order of Rust's `str`).
use Prim.Native.Nat.{ℕ, compare, Ordering}
use Prim.Native.Nat.Ordering.{lt, eq, gt}
use mathlib.Core.Path.{◌≡◌, refl}
use mathlib.Core.Bool.{Bool, true, false}
use mathlib.Core.Logic.{◌↔◌}
use mathlib.Core.List.{List, [], ◌∷◌}
use native.Mathlib.Omega.{arith}

pub record Order {ℓ} (K : Type ℓ) : Type ℓ where
  pub cmp : K → K → Ordering
  pub cmp_refl : (a : K) → cmp a a ≡ eq
  pub cmp_eq : (a b : K) → cmp a b ≡ eq → a ≡ b
  pub cmp_gt : (a b : K) → cmp a b ≡ gt → cmp b a ≡ lt
  pub cmp_trans : (a b c : K) → cmp a b ≡ lt → cmp b c ≡ lt → cmp a c ≡ lt

-- `a == b` on keys.
abbrev pub same {ℓ} : {K : Type ℓ} ⦃o : Order K⦄ → K → K → Bool
same ⦃o⦄ a b = elim (o.cmp a b) [ eq ↦ true | _ ↦ false ]

module _ {ℓ} {K : Type ℓ} ⦃o : Order K⦄ where
  pub same_iff : (a b : K) → (same a b ≡ true) ↔ (a ≡ b)
  same_iff a b = (λ h. ground (arith, o.cmp_eq a b), λ h. ground (arith, o.cmp_refl a))

pub compare_refl : (a : ℕ) → compare a a ≡ eq
compare_refl a = ground arith

pub compare-eq : (a b : ℕ) → compare a b ≡ eq → a ≡ b
compare-eq a b h = ground arith

pub compare-gt : (a b : ℕ) → compare a b ≡ gt → compare b a ≡ lt
compare-gt a b h = ground arith

pub compare_trans : (a b c : ℕ) → compare a b ≡ lt → compare b c ≡ lt → compare a c ≡ lt
compare_trans a b c h k = ground arith

instance abbrev pub nat_order : Order ℕ
nat_order = record {
  cmp = compare;
  cmp_refl = compare_refl;
  cmp_eq = compare-eq;
  cmp_gt = compare-gt;
  cmp_trans = compare_trans;
}

abbrev pub compare_bytes : List ℕ → List ℕ → Ordering
compare_bytes [] [] = eq
compare_bytes [] (y ∷ ys) = lt
compare_bytes (x ∷ xs) [] = gt
compare_bytes (x ∷ xs) (y ∷ ys) = elim (compare x y) [
  | lt ↦ lt
  | eq ↦ compare_bytes xs ys
  | gt ↦ gt
]

pub compare_bytes_refl : (a : List ℕ) → compare_bytes a a ≡ eq
compare_bytes_refl [] = refl
compare_bytes_refl (x ∷ xs) = ground (arith, compare_bytes_refl xs)

pub compare_bytes-eq : (a b : List ℕ) → compare_bytes a b ≡ eq → a ≡ b
compare_bytes-eq [] [] h = refl
compare_bytes-eq [] (y ∷ ys) h = ground arith
compare_bytes-eq (x ∷ xs) [] h = ground arith
compare_bytes-eq (x ∷ xs) (y ∷ ys) h = ground (arith, compare_bytes-eq xs ys)

pub compare_bytes-gt : (a b : List ℕ) → compare_bytes a b ≡ gt → compare_bytes b a ≡ lt
compare_bytes-gt [] [] h = ground arith
compare_bytes-gt [] (y ∷ ys) h = ground arith
compare_bytes-gt (x ∷ xs) [] h = refl
compare_bytes-gt (x ∷ xs) (y ∷ ys) h = ground (arith, compare_bytes-gt xs ys)

pub compare_bytes_trans :
    (a b c : List ℕ) → compare_bytes a b ≡ lt → compare_bytes b c ≡ lt → compare_bytes a c ≡ lt
compare_bytes_trans [] [] c h k = ground arith
compare_bytes_trans [] (y ∷ ys) [] h k = ground arith
compare_bytes_trans [] (y ∷ ys) (z ∷ zs) h k = refl
compare_bytes_trans (x ∷ xs) [] c h k = ground arith
compare_bytes_trans (x ∷ xs) (y ∷ ys) [] h k = ground arith
compare_bytes_trans (x ∷ xs) (y ∷ ys) (z ∷ zs) h k = ground (arith, compare_bytes_trans xs ys zs)

instance abbrev pub bytes_order : Order (List ℕ)
bytes_order = record {
  cmp = compare_bytes;
  cmp_refl = compare_bytes_refl;
  cmp_eq = compare_bytes-eq;
  cmp_gt = compare_bytes-gt;
  cmp_trans = compare_bytes_trans;
}
