-- ===== src/Store/Examples.antt =====
-- Runs of the store on an empty disk.
use nutdb.Prelude.{
  ℕ, false, ◌^◌, ◌<◌, ◌≡◌, refl, ◌⊎◌, Option, some, none, [], ◌∷◌, ◌++◌, arith, length,
}
use nutdb.Prelude.Io.{ok}
use nutdb.Bytes.{to_le_bytes}
use nutdb.Wal.{frame, append}
use nutdb.Wal.Repair.{durable}
use nutdb.Wal.Examples.{whole_reads}
use nutdb.Wal.Replay.{log, length-frame}
use nutdb.Command.{encode, push_bytes}
use nutdb.Command.Examples.{set_text, set_text-IsText}
use nutdb.Btree
use nutdb.Btree.{BtreeIndex}
use nutdb.Btree.Pages.{PageFiles, load}
use nutdb.Store.{Store, Disk, apply_memory, apply_steps, run_all, open_store}
use nutdb.Store.Durable.{IsDurable}
use nutdb.Store.Crash.{crashed, reached, open_store-crashed}

abbrev no_files : PageFiles
no_files = record { path = none; backup = none }

abbrev empty_tree : BtreeIndex
empty_tree = record {
  nodes = record { keys = []; values = []; children = [] } ∷ [];
  root = 0;
  len = 0;
}

abbrev empty_store : Store
empty_store = record {
  wal = durable [];
  pages = no_files;
  tree = empty_tree;
  recovery = record { records_replayed = 0; truncated = false; valid_bytes = 0 };
}

empty-loaded : load no_files ≡ ok empty_tree
unfolding load Btree.new
empty-loaded = refl

empty_store-IsDurable : IsDurable empty_store []
unfolding log
empty_store-IsDurable = record {
  wal = refl;
  readable = tt;
  fit = tt;
  base = empty_tree;
  loaded = empty-loaded;
  replayed = refl;
}

set_text-short : length (encode set_text) < 2 ^ 32
unfolding encode push_bytes to_le_bytes
set_text-short = omega arith

abbrev one_entry : BtreeIndex
one_entry = record {
  nodes = record { keys = (0xC3 ∷ 0xA9 ∷ []) ∷ []; values = (98 ∷ []) ∷ []; children = [] } ∷ [];
  root = 0;
  len = 1;
}

set_text-changes : apply_memory set_text empty_tree ≡ ok one_entry
unfolding apply_memory Btree.insert Btree.replace Btree.grow_root Btree.insert_non_full
    Btree.at_index Btree.search Btree.is_leaf Btree.vacant Btree.insert_in_leaf Btree.insert_at
    Btree.put_node
set_text-changes = refl

-- The crash is behind the write, and keeps five bytes of it.
open_store-crashed_example :
    (u : Store) × (open_store whole_reads (crashed 5 (reached (some 1) set_text empty_store))
      ≡ ok u)
    × ((u.tree ≡ empty_tree)
          × IsDurable u []
          × (5 < length ([] ++ frame (encode set_text)))
          × ((count : ℕ) × (◌≡◌ {A = Option ℕ} (some 1) (some count)) × (count < 2))
        ⊎ (u.tree ≡ one_entry)
          × IsDurable u (set_text ∷ [])
          × (5 ≡ length ([] ++ frame (encode set_text))))
unfolding run_all apply_steps append encode push_bytes to_le_bytes
open_store-crashed_example =
    open_store-crashed set_text empty_store one_entry set_text-short set_text-changes []
      empty_store-IsDurable set_text-IsText whole_reads (some 1) 5 (omega arith)
      (omega (arith, length-frame (encode set_text)))

-- A log of one record with two bytes of another behind it.
abbrev torn_disk : Disk
torn_disk = record {
  wal = some (durable (log (encode set_text ∷ []) ++ 0 ∷ 0 ∷ []));
  pages = no_files;
}
