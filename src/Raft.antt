-- ===== src/Raft.antt =====
-- src/raft/: consensus. The state machine of a node and the record that makes it durable.
pub mod Rpc
pub mod Persist
pub mod Node
pub mod Append
pub mod Open
pub mod RoundTrip
pub mod Restart
pub mod Effects
pub mod Votes
pub mod Merge
pub mod Logs
pub mod Commit
pub mod Terms
mod Examples
