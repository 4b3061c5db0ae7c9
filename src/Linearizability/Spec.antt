-- ===== src/Linearizability/Spec.antt =====
-- What it means that a register history of src/linearizability.rs is linearizable.
use nutdb.Prelude.{
  ℕ, ◌+◌, ◌<◌, ◌≤◌, ◌≡◌, ◌⊎◌, Option, none, some, List, [], ◌∷◌, ◌==◌, if◌then◌else◌, length,
  get_elem?, All,
}
use nutdb.Bytes.{Bytes}
use nutdb.Linearizability.{Operation, Outcome, HistoryEntry, write, read, ok, fail, info}

unfoldable pub count : ℕ → List ℕ → ℕ
count i [] = 0
count i (j ∷ js) = (if j == i then 1 else 0) + count i js

-- The states of the register that an operation may leave, if it takes effect in a state.
abbrev pub Effect : Operation → Outcome → Option Bytes → Option Bytes → Type 0
Effect operation fail before after = after ≡ before
Effect (write value) (ok observed) before after = after ≡ some value
Effect read (ok observed) before after = (observed ≡ before) × (after ≡ before)
Effect (write value) info before after = (after ≡ before) ⊎ (after ≡ some value)
Effect read info before after = after ≡ before

-- Every operation of the order sees the state that the ones before it left.
abbrev pub Legal : List HistoryEntry → Option Bytes → List ℕ → Type 0
Legal history state [] = Unit
Legal history state (i ∷ order) =
    (e : HistoryEntry) × (after : Option Bytes) × (get_elem? history i ≡ some e)
    × Effect e.operation e.outcome state after
    × Legal history after order

-- Operation `i` may stand before operation `j`.
abbrev pub MayPrecede : List HistoryEntry → ℕ → ℕ → Type 0
MayPrecede history i j =
    (e f : HistoryEntry)
    → get_elem? history i ≡ some e
    → get_elem? history j ≡ some f
    → ¬ (f.complete < e.invoke)

-- No operation stands before one that had completed when it was invoked.
abbrev pub IsTimely : List HistoryEntry → List ℕ → Type 0
IsTimely history [] = Unit
IsTimely history (i ∷ order) = All (MayPrecede history i) order × IsTimely history order

-- An order of all operations, each once, that real time allows and that explains every result.
pub record Linearization (history : List HistoryEntry) : Type 0 where
  pub order : List ℕ
  pub complete : (i : ℕ) → i < length history → count i order ≡ 1
  pub bounded : (i : ℕ) → length history ≤ i → count i order ≡ 0
  pub timely : IsTimely history order
  pub legal : Legal history none order
