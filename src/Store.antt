-- ===== src/Store.antt =====
-- src/store.rs: the durable key-value store. What a crash leaves is a `Disk`: the log file and
-- the page files. A panic of the index ends a method as an error does.
pub mod Trees
pub mod Durable
pub mod Crash
mod Examples
use nutdb.Prelude.{
  ℕ, ◌≡◌, Bool, true, false, Option, none, some, List, [], ◌∷◌, ◌||◌, if◌then◌else◌, length, map,
}
use nutdb.Prelude.Io.{ErrorKind, Error, Result, ok, err}
use nutdb.Prelude.Io
use nutdb.Prelude.Exec.{Exec, pure, raise, ◌>>=◌, ◌>>◌}
use mathlib.Core.Option
use nutdb.Bytes.{Bytes}
use nutdb.Wal
use nutdb.Wal.{Wal, Source, replay, truncate_path}
use nutdb.Command.{Command, set, delete, checkpoint, encode, decode}
use nutdb.Btree
use nutdb.Btree.{BtreeIndex}
use nutdb.Btree.Pages.{PageFiles, load, save}

pub record Recovery : Type 0 where
  pub records_replayed : ℕ
  pub truncated : Bool
  pub valid_bytes : ℕ

-- A missing log file is empty once `Wal::open` has created it; so may the page files be.
pub record Disk : Type 0 where
  pub wal : Option Wal
  pub pages : PageFiles

pub record Store : Type 0 where
  pub wal : Wal
  pub pages : PageFiles
  pub tree : BtreeIndex
  pub recovery : Recovery

-- The flag of `delete` is dropped.
unfoldable pub apply_memory : Command → BtreeIndex → Result BtreeIndex
apply_memory (set key value) t = Btree.insert key value t
apply_memory (delete key) t =
    Io.◌>>=◌ (Btree.delete key t) λ (deleted : Bool × BtreeIndex). ok deleted.1
apply_memory checkpoint t = ok t

unfoldable pub apply_records : List Bytes → BtreeIndex → Result BtreeIndex
unfolding apply_memory
apply_records [] t = ok t
apply_records (r ∷ rs) t =
    Io.◌>>=◌ (decode r) λ c. Io.◌>>=◌ (apply_memory c t) λ t'. apply_records rs t'

-- `Wal::open` creates a log file that is missing.
unfoldable pub repair : Bool → ℕ → Option Wal → Wal
repair truncated valid_bytes none = record { file = []; synced = 0 }
repair truncated valid_bytes (some wal) = if truncated then truncate_path valid_bytes wal else wal

unfoldable pub open_store : Source → Disk → Result Store
open_store src disk = Io.◌>>=◌ (load disk.pages) λ t.
    let found = replay src (Option.map (λ (w : Wal). w.file) disk.wal) in
    Io.◌>>=◌ (apply_records found.records t) λ t'. ok (record {
      wal = repair found.truncated found.valid_bytes disk.wal;
      pages = disk.pages;
      tree = t';
      recovery = record {
        records_replayed = length found.records;
        truncated = found.truncated;
        valid_bytes = found.valid_bytes;
      };
    })

append_wal : Bytes → Exec Store (Unit {0})
append_wal payload s = elim (Wal.append payload s.wal) [
  | ok wal ↦ (ok tt, record s { wal = wal })
  | err e ↦ (err e, s)
]

sync_wal : Exec Store (Unit {0})
sync_wal s = (ok tt, record s { wal = Wal.sync s.wal })

reset_wal : Exec Store (Unit {0})
reset_wal s = (ok tt, record s { wal = Wal.reset s.wal })

mutate : Command → Exec Store (Unit {0})
mutate c s = elim (apply_memory c s.tree) [
  | ok t ↦ (ok tt, record s { tree = t })
  | err e ↦ (err e, s)
]

-- Steps one after the other, up to the first error.
unfoldable pub run_all : List (Exec Store (Unit {0})) → Exec Store (Unit {0})
run_all [] = pure tt
run_all (step ∷ steps) = do step; run_all steps

-- The statements of `apply`.
unfoldable pub apply_steps : Command → List (Exec Store (Unit {0}))
unfolding append_wal sync_wal mutate
apply_steps c = append_wal (encode c) ∷ sync_wal ∷ mutate c ∷ []

unfoldable pub apply : Command → Exec Store (Unit {0})
unfolding run_all apply_steps
apply c = run_all (apply_steps c)

abbrev is_checkpoint : Command → Bool
is_checkpoint (set key value) = false
is_checkpoint (delete key) = false
is_checkpoint checkpoint = true

any_checkpoint : List Command → Bool
any_checkpoint [] = false
any_checkpoint (c ∷ cs) = is_checkpoint c || any_checkpoint cs

unfoldable pub append_all : List Command → Exec Store (Unit {0})
unfolding append_wal
append_all [] = pure tt
append_all (c ∷ cs) = do append_wal (encode c); append_all cs

unfoldable pub mutate_all : List Command → Exec Store (Unit {0})
unfolding mutate
mutate_all [] = pure tt
mutate_all (c ∷ cs) = do mutate c; mutate_all cs

unfoldable pub apply_batch : List Command → Exec Store (Unit {0})
unfolding any_checkpoint append_all sync_wal mutate_all
apply_batch commands =
    if any_checkpoint commands
    then raise (record {
      kind = ErrorKind.invalid_input;
      message = "store: checkpoint is not a user mutation";
    })
    else (do append_all commands; sync_wal; mutate_all commands)

save_pages : Exec Store (Unit {0})
save_pages s = elim (save s.tree s.pages) [
  | ok files ↦ (ok tt, record s { pages = files })
  | err e ↦ (err e, s)
]

-- The errors of the four stages gain a prefix in the source, and keep their kinds.
unfoldable pub checkpoint_store : Exec Store (Unit {0})
unfolding save_pages append_wal sync_wal reset_wal
checkpoint_store = do save_pages; append_wal (encode checkpoint); sync_wal; reset_wal

unfoldable pub get : Bytes → Store → Result (Option Bytes)
get key s = Btree.get s.tree key

unfoldable pub contains : Bytes → Store → Result Bool
contains key s =
    Io.◌>>=◌ (Btree.get s.tree key)
      λ held. elim held as (λ _. Result Bool) [ none ↦ ok false | some value ↦ ok true ]

unfoldable pub len : Store → ℕ
len s = s.tree.len

unfoldable pub range : Bytes → Bytes → Store → Result (List (Bytes × Bytes))
range start stop s = Btree.range start stop s.tree

unfoldable pub set_all : List (Bytes × Bytes) → List Command
set_all [] = []
set_all ((key, value) ∷ entries) = set key value ∷ set_all entries

unfoldable pub set_batch : List (Bytes × Bytes) → Exec Store (Unit {0})
unfolding apply_batch set_all
set_batch entries = apply_batch (set_all entries)
