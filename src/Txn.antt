-- ===== src/Txn.antt =====
-- src/txn.rs, src/version.rs and src/gc.rs: multi-version storage and its transactions.
pub mod Codec
pub mod Versions
pub mod Chain
pub mod Snapshot
pub mod Ops
pub mod Scan
pub mod Collected
pub mod Prefixes
pub mod Scanned
pub mod Commit
pub mod Gc
pub mod Recover
pub mod Consistent
pub mod Recovered
mod Examples
