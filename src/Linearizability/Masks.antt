-- ===== src/Linearizability/Masks.antt =====
-- The mask of src/linearizability.rs as the set of operations still to be ordered.
use nutdb.Prelude.{
  ℕ, zero, suc, ◌+◌, ◌<◌, ◌≡◌, refl, ap, Bool, true, false, List, [], ◌∷◌, arith, ltb, ◌==◌,
  if◌then◌else◌, set, replicate, All, ==_iff, Bool-cases, inl, inr,
}
use mathlib.Core.Path.{subst}
use nutdb.Linearizability.{is_used, all_used}
use nutdb.Linearizability.Spec.{count}

pub is_used-set :
    (used : List Bool) (k i : ℕ)
    → is_used (set used k true) i ≡ (if k == i then true else is_used used i)
unfolding is_used
is_used-set [] k i = ground arith
is_used-set (u ∷ used) zero zero = refl
is_used-set (u ∷ used) zero (suc i) = ground arith
is_used-set (u ∷ used) (suc k) zero = ground arith
is_used-set (u ∷ used) (suc k) (suc i) = ground (arith, is_used-set used k i)

pub all_used-is_used : (used : List Bool) (i : ℕ) → all_used used ≡ true → is_used used i ≡ true
unfolding all_used is_used
all_used-is_used [] i h = refl
all_used-is_used (u ∷ used) zero h = ground arith
all_used-is_used (u ∷ used) (suc i) h = ground (arith, all_used-is_used used i)

pub is_used-all_used : (used : List Bool) → ((i : ℕ) → is_used used i ≡ true) → all_used used ≡ true
unfolding all_used is_used
is_used-all_used [] h = refl
is_used-all_used (u ∷ used) h = ground (arith, h 0, is_used-all_used used (λ i. h (suc i)))

-- How many operations are left.
pub unused : List Bool → ℕ
unused [] = 0
unused (u ∷ used) = (if u then 0 else 1) + unused used

pub unused-set :
    (used : List Bool) (k : ℕ) → is_used used k ≡ false → unused (set used k true) + 1 ≡ unused used
unfolding unused is_used
unused-set [] k h = ground arith
unused-set (u ∷ used) zero h = ground arith
unused-set (u ∷ used) (suc k) h = ground (arith, unused-set used k)

pub unused-replicate : (n : ℕ) → unused (replicate n false) ≡ n
unfolding unused
unused-replicate zero = refl
unused-replicate (suc n) = omega (arith, unused-replicate n)

-- The order lists the operations left, each once.
abbrev pub Covers : List Bool → List ℕ → Type 0
Covers used order = (i : ℕ) → count i order ≡ (if is_used used i then 0 else 1)

pub Covers-nil : (used : List Bool) → all_used used ≡ true → Covers used []
unfolding count
Covers-nil used h i = rw (all_used-is_used used i h) refl

pub Covers-done : (used : List Bool) → Covers used [] → all_used used ≡ true
unfolding count
Covers-done used h = is_used-all_used used (λ i. ground (arith, h i))

pub Covers-cons :
    (used : List Bool) (k : ℕ) (order : List ℕ)
    → is_used used k ≡ false
    → Covers (set used k true) order
    → Covers used (k ∷ order)
unfolding count
Covers-cons used k order h c i = elim (Bool-cases (k == i)) [
  | inl e ↦
      (let same : k ≡ i = (==_iff k i).0 e in
        ground (arith, e, c i, is_used-set used k i, ap (is_used used) same))
  | inr e ↦ ground (arith, c i, is_used-set used k i)
]

pub Covers-uncons :
    (used : List Bool) (k : ℕ) (order : List ℕ)
    → Covers used (k ∷ order)
    → (is_used used k ≡ false) × Covers (set used k true) order
unfolding count
Covers-uncons used k order c = (ground (arith, c k), λ i. ground (arith, c i, is_used-set used k i))

pub All-of_count :
    (P : ℕ → Type 0) (order : List ℕ) → ((i : ℕ) → 0 < count i order → P i) → All P order
unfolding count
All-of_count P [] h = tt
All-of_count P (k ∷ order) h =
    (h k (ground arith), All-of_count P order (λ i p. h i (ground arith)))

pub count-All : (P : ℕ → Type 0) (order : List ℕ) (i : ℕ) → All P order → 0 < count i order → P i
unfolding count
count-All P [] i h p = absurd (omega arith)
count-All P (k ∷ order) i h p = elim (Bool-cases (k == i)) [
  | inl e ↦ subst P ((==_iff k i).0 e) h.0
  | inr e ↦ count-All P order i h.1 (ground arith)
]

-- An order of a fresh mask lists each of `n` operations once, and nothing else.
pub is_used-replicate :
    (n i : ℕ) → is_used (replicate n false) i ≡ (if ltb i n then false else true)
unfolding is_used
is_used-replicate zero i = ground arith
is_used-replicate (suc n) zero = ground arith
is_used-replicate (suc n) (suc i) = ground (arith, is_used-replicate n i)
