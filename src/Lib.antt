-- ===== src/Lib.antt =====
-- Verification of nutdb: a key-value store with a write-ahead log and page snapshots, a
-- multi-version store with transactions on the same log, a catalog and SQL engine on top of it, and
-- Raft nodes that keep their state in such a log.
--
-- Parts and files (source paths from the repository's root):
-- Prelude: names and lemmas that the rest shares. Prelude.Io is `io::Error` and `io::Result`,
--   Prelude.Exec a method on `&mut self` that may fail (an error keeps what was assigned before
--   it), Prelude.TreeMap `BTreeMap` as a sorted association list.
-- Bytes: bytes as numbers, little-endian integers, UTF-8, and the cursors of the decoders.
-- Crc: src/crc.rs, function `crc32`.
-- Wal: src/wal.rs. A `Wal` is the bytes of its file and the number of them that are durable;
--   `append`, `sync`, `reset`, `truncate_path`, `replay` and `read_exact_or_eof` are the functions
--   of these names. Wal.Read, Wal.Replay, Wal.Recovery and Wal.Repair prove what replay finds in
--   a whole log, in any file, and after a crash.
-- Command: src/command.rs, the commands in the log of the store, and their round trip.
-- Store: src/store.rs. `open_store`, `apply` (behind `set` and `delete`), `apply_batch`,
--   `checkpoint_store` and `get` are `Store::open`, `apply`, `apply_batch`, `checkpoint` and
--   `get`, on the tree of Btree. Store.Trees is what commands make of a tree, Store.Durable the
--   invariant, Store.Crash what crashes leave. The theorems compare trees, by equality.
-- Txn: src/txn.rs, src/version.rs and src/gc.rs. Txn.Codec is `TxnRecord`, Txn.Versions the
--   chains of versions, Txn.Ops `MvccStore` and `Transaction`, with the store passed beside the
--   transaction, Txn.Scan its `scan_prefix`, Txn.Recover `MvccStore::open`. Txn.Chain and
--   Txn.Snapshot hold the invariant of the chains, Txn.Consistent and Txn.Recovered that of the
--   store, Txn.Commit and Txn.Gc the laws of `commit` and `gc`, Txn.Scanned that of the scan.
-- Raft: src/raft/rpc.rs and src/raft/state.rs. Raft.Node and Raft.Append are the methods of
--   `RaftNode`, Raft.Open its `open`, Raft.Persist its record on disk; Raft.Votes, Raft.Terms,
--   Raft.Logs, Raft.Commit, Raft.RoundTrip and Raft.Restart what a node promises. The log of the store and the
--   log of a node are both a `Wal`.
-- Catalog: src/catalog.rs, schemas and rows as text under the keys of the store. Catalog.Strings
--   holds the string functions that it uses, Catalog.Values the bytes of values; Catalog.Schemas,
--   Catalog.Stored, Catalog.Rows and Catalog.Keys what is kept and found again.
-- Sql: src/sql. Sql.Ast is the syntax, Sql.Lexer and Sql.Parser (with Sql.Parser.Exprs and
--   Sql.Parser.Statements) the functions of `lex` and of `Parser`, Sql.Plan the planner, Sql.Filter
--   the evaluation of expressions, Sql.Executor (with Rows and Engine) `SqlEngine` over Txn and
--   Catalog. Sql.Parser.Uses holds rules on how many tokens a method takes, which
--   Sql.Parser.Steps, Nested, Ends and Total apply to the methods; Sql.Executor.Keeps and Failed
--   are about what statements leave in the store.
-- Btree: src/btree.rs. `BtreeIndex` is the array of nodes, and the operations go through it by
--   position; Btree.Pages is `save` and `load`, on Page and on Btree.Pager, which is src/pager.rs.
--   A panic, an index out of range and an endless descent are errors of a kind of their own.
-- Page: src/page.rs. A `SlottedPage` is its bytes; Page.Buffer writes and reads them, Page.Space
--   is about the bounds of the free space.
-- Linearizability: src/linearizability.rs, function `is_linearizable`, and in
--   Linearizability.Spec what it is to decide.
--
-- Each Examples module has concrete states on which the theorems are applied.
--
-- Bounds and fuel: integers are natural numbers, with the bounds of their widths where the source
-- tests or wraps them. `fill` has as many rounds as bytes are wanted, and `replay` one more than
-- the file has bytes: each round but the last consumes a byte, and the theorems on them hold
-- without a condition on fuel. The lexer has one round more than bytes, a loop of the parser one
-- more than tokens are left, and its expressions one level of parentheses more; `none` stands for
-- a lack of fuel or a panic, and `parse` never gives it. The search of the checker of histories is
-- as deep as the history is long. A descent in the tree of the index has as many levels as there
-- are nodes, which is enough where no node is its own descendant; `panicked` stands for more.
--
-- Not modelled: failures of the operating system (a write, a sync or a rename that returns an
-- error), poisoned locks and threads (each method under a lock is one step), paths and handles of
-- files, the texts that `format!` adds to a message, the depth of the stack elsewhere. The method
-- `keys` of the index, the cluster driver and its transport, the server, the client,
-- the command line and the benchmarks have no model here. That the index behaves as a map and that
-- `load` restores what `save` wrote is not proved, so nothing is claimed of `checkpoint`.

pub mod Prelude
pub mod Bytes
pub mod Crc
pub mod Wal
pub mod Command
pub mod Page
pub mod Btree
pub mod Store
pub mod Txn
pub mod Raft
pub mod Catalog
pub mod Linearizability
pub mod Sql
