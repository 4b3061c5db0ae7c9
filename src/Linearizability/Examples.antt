-- ===== src/Linearizability/Examples.antt =====
-- Histories on which the checker of src/linearizability.rs is run.
use nutdb.Prelude.{◌≡◌, ◌↔◌, refl, true, false, none, some, List, [], ◌∷◌}
use nutdb.Linearizability.{
  HistoryEntry, write, read, ok, fail, info, is_linearizable, search, take_any, take_next, is_used,
  all_used, has_unordered_predecessor, precedes, succeeds,
}
use nutdb.Linearizability.Spec.{Linearization}
use nutdb.Linearizability.Correct.{is_linearizable-Linearization}

-- A write that times out and overlaps with two reads, of which the later one misses it, and a
-- failed write.
abbrev stale_read : List HistoryEntry
stale_read =
    record { id = 0; invoke = 0; complete = 9; operation = write (120 ∷ []); outcome = info }
    ∷ record { id = 1; invoke = 1; complete = 2; operation = read; outcome = ok (some (120 ∷ [])) }
    ∷ record { id = 2; invoke = 1; complete = 3; operation = write (121 ∷ []); outcome = fail }
    ∷ record { id = 3; invoke = 4; complete = 5; operation = read; outcome = ok none }
    ∷ []

-- The same with the last read invoked before the other one completes.
abbrev overlapping_reads : List HistoryEntry
overlapping_reads =
    record { id = 0; invoke = 0; complete = 9; operation = write (120 ∷ []); outcome = info }
    ∷ record { id = 1; invoke = 1; complete = 6; operation = read; outcome = ok (some (120 ∷ [])) }
    ∷ record { id = 2; invoke = 1; complete = 3; operation = write (121 ∷ []); outcome = fail }
    ∷ record { id = 3; invoke = 4; complete = 5; operation = read; outcome = ok none }
    ∷ []

is_linearizable_runs :
    (is_linearizable stale_read ≡ false) × (is_linearizable overlapping_reads ≡ true)
unfolding is_linearizable search take_any take_next is_used all_used has_unordered_predecessor
    precedes succeeds
is_linearizable_runs = (refl, refl)

is_linearizable-Linearization_example :
    (is_linearizable overlapping_reads ≡ true) ↔ Linearization overlapping_reads
is_linearizable-Linearization_example = is_linearizable-Linearization overlapping_reads
