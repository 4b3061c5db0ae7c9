-- ===== src/Prelude/TreeMap.antt =====
-- `std::collections::BTreeMap` (and `HashMap`, where the source never iterates): an association
-- list in ascending key order.
use Prim.Native.Nat.Ordering.{lt, eq, gt}
use mathlib.Core.Path.{◌≡◌, refl}
use mathlib.Core.Option.{Option, none, some}
use mathlib.Core.List.{List, [], ◌∷◌}
use native.Mathlib.Omega.{arith}
use nutdb.Prelude.Tests.{if◌then◌else◌}
use nutdb.Prelude.Order.{Order, same}

abbrev pub TreeMap {ℓ κ} : Type ℓ → Type κ → Type (ℓ ⊔ κ)
TreeMap K V = List (K × V)

module _ {ℓ κ} {K : Type ℓ} {V : Type κ} where
  unfoldable pub keys : TreeMap K V → List K
  keys [] = []
  keys ((k, v) ∷ m) = k ∷ keys m

module _ {ℓ κ} {K : Type ℓ} {V : Type κ} ⦃o : Order K⦄ where
  unfoldable pub get : K → TreeMap K V → Option V
  get k [] = none
  get k ((j, v) ∷ m) = if same j k then some v else get k m

  unfoldable pub insert : K → V → TreeMap K V → TreeMap K V
  insert k v [] = (k, v) ∷ []
  insert k v ((j, w) ∷ m) = elim (o.cmp k j) [
    | lt ↦ (k, v) ∷ (j, w) ∷ m
    | eq ↦ (k, v) ∷ m
    | gt ↦ (j, w) ∷ insert k v m
  ]

  unfoldable pub remove : K → TreeMap K V → TreeMap K V
  remove k [] = []
  remove k ((j, w) ∷ m) = let rest = remove k m in if same j k then rest else (j, w) ∷ rest

  pub get-insert :
      (k j : K) (v : V) (m : TreeMap K V)
      → get j (insert k v m) ≡ (if same k j then some v else get j m)
  unfolding get insert
  get-insert k j v [] = refl
  get-insert k j v ((i, w) ∷ m) = ground (
    arith,
    get-insert k j v m,
    o.cmp_eq k j,
    o.cmp_eq k i,
    o.cmp_eq i j,
    o.cmp_refl j,
    o.cmp_refl k,
  )

  pub get-remove :
      (k j : K) (m : TreeMap K V) → get j (remove k m) ≡ (if same k j then none else get j m)
  unfolding get remove
  get-remove k j [] = ground arith
  get-remove k j ((i, w) ∷ m) = ground (
    arith,
    get-remove k j m,
    o.cmp_eq k j,
    o.cmp_eq i k,
    o.cmp_eq i j,
    o.cmp_refl j,
    o.cmp_refl k,
  )

  -- Every key of the map is greater than `k`.
  abbrev pub Above : K → TreeMap K V → Type 0
  Above k [] = Unit
  Above k ((j, v) ∷ m) = (o.cmp k j ≡ lt) × Above k m

  abbrev pub IsSorted : TreeMap K V → Type 0
  IsSorted [] = Unit
  IsSorted ((k, v) ∷ m) = Above k m × IsSorted m

  pub get-Above : (k : K) (m : TreeMap K V) → Above k m → get k m ≡ none
  unfolding get
  get-Above k [] h = refl
  get-Above k ((j, v) ∷ m) h = ground (arith, get-Above k m h.1, o.cmp_eq j k, o.cmp_refl k)

  Above-lt : (i k : K) (m : TreeMap K V) → o.cmp i k ≡ lt → Above k m → Above i m
  Above-lt i k [] l h = tt
  Above-lt i k ((j, v) ∷ m) l h = (o.cmp_trans i k j l h.0, Above-lt i k m l h.1)

  Above-insert :
      (i k : K) (v : V) (m : TreeMap K V) → o.cmp i k ≡ lt → Above i m → Above i (insert k v m)
  unfolding insert
  Above-insert i k v [] l h = (l, tt)
  Above-insert i k v ((j, w) ∷ m) l h = ground (arith, Above-insert i k v m l h.1)

  pub insert-IsSorted : (k : K) (v : V) (m : TreeMap K V) → IsSorted m → IsSorted (insert k v m)
  unfolding insert
  insert-IsSorted k v [] h = (tt, tt)
  insert-IsSorted k v ((j, w) ∷ m) h = ground (
    arith,
    insert-IsSorted k v m h.1,
    o.cmp_eq k j,
    o.cmp_gt k j,
    Above-lt k j m,
    Above-insert j k v m,
  )

  Above-remove : (i k : K) (m : TreeMap K V) → Above i m → Above i (remove k m)
  unfolding remove
  Above-remove i k [] h = tt
  Above-remove i k ((j, w) ∷ m) h = ground (arith, Above-remove i k m h.1)

  pub remove-IsSorted : (k : K) (m : TreeMap K V) → IsSorted m → IsSorted (remove k m)
  unfolding remove
  remove-IsSorted k [] h = tt
  remove-IsSorted k ((j, w) ∷ m) h = ground (arith, remove-IsSorted k m h.1, Above-remove j k m h.0)
