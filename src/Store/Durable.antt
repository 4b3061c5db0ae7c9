-- ===== src/Store/Durable.antt =====
-- The durability invariant of src/store.rs, and what opening a store after a crash restores.
use mathlib.Core.Option
use nutdb.Prelude.{
  ◌≡◌, refl, ap, ◌∙◌, true, some, List, [], ◌∷◌, ◌++◌, arith, length, All, map, append-nil,
}
use nutdb.Prelude.Io.{ok}
use nutdb.Bytes.{Bytes, IsByte}
use nutdb.Wal.{Wal, Source, replay, truncate_path}
use nutdb.Wal.Replay.{IsTorn, nonempty, log, replay-log}
use nutdb.Wal.Recovery.{Fits}
use nutdb.Wal.Repair.{set_len_front, durable}
use nutdb.Command.{Command, encode}
use nutdb.Btree.{BtreeIndex}
use nutdb.Btree.Pages.{load}
use nutdb.Store.{Disk, Store, repair, open_store}
use nutdb.Store.Trees.{replay_tree, Readable, apply_records-encode}

-- A disk that holds page files and a log of commands with a torn tail, and the tree that it stands
-- for: the one in the pages with the commands applied to it.
pub record Holds (disk : Disk) (commands : List Command) (tree : BtreeIndex) : Type 0 where
  pub wal : Wal
  pub tail : Bytes
  pub on_disk : wal.synced ≡ length wal.file
  pub logged : disk.wal ≡ some wal
  pub file : wal.file ≡ log (map encode commands) ++ tail
  pub torn : IsTorn tail
  pub bytes : All IsByte tail
  pub readable : All Readable commands
  pub fit : All Fits (map encode commands)
  pub base : BtreeIndex
  pub loaded : load disk.pages ≡ ok base
  pub replayed : replay_tree commands base ≡ ok tree

-- An open store whose tree the synced log and the page files on its disk reproduce.
pub record IsDurable (s : Store) (commands : List Command) : Type 0 where
  pub wal : s.wal ≡ durable (log (map encode commands))
  pub readable : All Readable commands
  pub fit : All Fits (map encode commands)
  pub base : BtreeIndex
  pub loaded : load s.pages ≡ ok base
  pub replayed : replay_tree commands base ≡ ok s.tree

repair_lem :
    (front tail : Bytes) (wal : Wal)
    → wal.file ≡ front ++ tail
    → wal.synced ≡ length wal.file
    → repair (nonempty tail) (length front) (some wal) ≡ durable front
unfolding repair truncate_path
repair_lem front [] wal e d =
    let same_file : wal.file ≡ front = e ∙ append-nil front in
    λ i. record { file = same_file i; synced = (d ∙ ap length same_file) i }
repair_lem front (b ∷ tail) wal e d =
    let cut : nonempty (b ∷ tail) ≡ true = ground arith in
    ap (λ t. repair t (length front) (some wal)) cut
    ∙ ap durable (set_len_front front (b ∷ tail) wal.file (length front) e refl)

pub open_store-IsDurable :
    (src : Source) (disk : Disk) (commands : List Command) (tree : BtreeIndex)
    → Holds disk commands tree
    → (s : Store) × (open_store src disk ≡ ok s) × (s.tree ≡ tree) × IsDurable s commands
unfolding open_store
open_store-IsDurable src disk commands tree h =
    let front = log (map encode commands) in
    let found : replay src (Option.map (λ (w : Wal). w.file) disk.wal) ≡ record {
      records = map encode commands;
      truncated = nonempty h.tail;
      valid_bytes = length front;
    } =
      ap (λ w. replay src (Option.map (λ (w : Wal). w.file) w)) h.logged
      ∙ ap (λ t. replay src (some t)) h.file
      ∙ replay-log src (map encode commands) h.tail h.fit h.bytes h.torn in
    let run = apply_records-encode commands h.base h.readable ∙ h.replayed in
    (
      record {
        wal = durable front;
        pages = disk.pages;
        tree = tree;
        recovery = record {
          records_replayed = length (map encode commands);
          truncated = nonempty h.tail;
          valid_bytes = length front;
        };
      },
      rw (h.loaded, found, run, h.logged) (rw (repair_lem front h.tail h.wal h.file h.on_disk)),
      refl,
      record {
        wal = refl;
        readable = h.readable;
        fit = h.fit;
        base = h.base;
        loaded = h.loaded;
        replayed = h.replayed;
      },
    )
