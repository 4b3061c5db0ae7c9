-- ===== src/Linearizability.antt =====
-- src/linearizability.rs: a checker of register histories. A `String` is its UTF-8 bytes.
pub mod Spec
pub mod Masks
pub mod Steps
pub mod Correct
mod Examples
use nutdb.Prelude.{
  ℕ, zero, suc, Bool, true, false, not, ◌&&◌, ◌||◌, Option, none, some, List, [], ◌∷◌, ltb, ◌==◌,
  if◌then◌else◌, length, get_elem?, set, replicate,
}
use nutdb.Prelude.Order.{same, bytes_order}
use nutdb.Bytes.{Bytes}

pub data Operation : Type 0 where
  write : Bytes → Operation
  read : Operation

pub data Outcome : Type 0 where
  ok : Option Bytes → Outcome
  fail : Outcome
  info : Outcome

pub record HistoryEntry : Type 0 where
  pub id : ℕ
  pub invoke : ℕ
  pub complete : ℕ
  pub operation : Operation
  pub outcome : Outcome

-- `used[index]`; the mask has an entry for every operation, so the index is never out of range.
unfoldable pub is_used : List Bool → ℕ → Bool
is_used used index = elim (get_elem? used index) [ none ↦ true | some u ↦ u ]

-- `used.iter().all(|used| *used)`
unfoldable pub all_used : List Bool → Bool
all_used [] = true
all_used (u ∷ used) = u && all_used used

-- `observed == &state`
unfoldable pub same_value : Option Bytes → Option Bytes → Bool
same_value none none = true
same_value none (some y) = false
same_value (some x) none = false
same_value (some x) (some y) = same ⦃o = bytes_order⦄ x y

-- The rest of the loop of `has_unordered_predecessor`, from `index` on.
unfoldable pub precedes : List Bool → ℕ → HistoryEntry → ℕ → List HistoryEntry → Bool
precedes used candidate entry index [] = false
precedes used candidate entry index (other ∷ others) =
    not (is_used used index) && not (index == candidate) && ltb other.complete entry.invoke
    || precedes used candidate entry (suc index) others

unfoldable pub has_unordered_predecessor : List HistoryEntry → List Bool → ℕ → HistoryEntry → Bool
has_unordered_predecessor history used candidate entry = precedes used candidate entry 0 history

-- The `match` on an entry that is taken next; `search` is the search for the others.
unfoldable pub succeeds : (Option Bytes → Bool) → Operation → Outcome → Option Bytes → Bool
unfolding same_value
succeeds search operation fail state = search state
succeeds search (write value) (ok observed) state = search (some value)
succeeds search read (ok observed) state = if same_value observed state then search state else false
succeeds search (write value) info state = search state || search (some value)
succeeds search read info state = search state

-- One round of the loop of `search`.
unfoldable pub take_next :
    (List Bool → Option Bytes → Bool)
    → List HistoryEntry
    → List Bool
    → Option Bytes
    → ℕ
    → HistoryEntry
    → Bool
take_next search history used state index entry =
    not (is_used used index)
    && not (has_unordered_predecessor history used index entry)
    && succeeds (search (set used index true)) entry.operation entry.outcome state

-- The loop of `search`, from `index` on.
unfoldable pub take_any :
    (List Bool → Option Bytes → Bool)
    → List HistoryEntry
    → List Bool
    → Option Bytes
    → ℕ
    → List HistoryEntry
    → Bool
take_any search history used state index [] = false
take_any search history used state index (entry ∷ entries) =
    take_next search history used state index entry
    || take_any search history used state (suc index) entries

-- Each call marks one more operation, so one round more than there are operations is enough.
unfoldable pub search : ℕ → List HistoryEntry → List Bool → Option Bytes → Bool
search zero history used state = false
search (suc fuel) history used state =
    all_used used || take_any (search fuel history) history used state 0 history

unfoldable pub is_linearizable : List HistoryEntry → Bool
is_linearizable history =
    search (suc (length history)) history (replicate (length history) false) none
