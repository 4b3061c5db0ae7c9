-- ===== src/Raft/Rpc.antt =====
-- src/raft/rpc.rs: the messages. Log indices start at 1; index 0 stands before the first entry.
use nutdb.Prelude.{ℕ, Bool, List}
use nutdb.Bytes.{Bytes}

pub record Entry : Type 0 where
  pub term : ℕ
  pub command : Bytes

pub record RequestVote : Type 0 where
  pub term : ℕ
  pub candidate_id : ℕ
  pub last_log_index : ℕ
  pub last_log_term : ℕ

pub record VoteResponse : Type 0 where
  pub term : ℕ
  pub granted : Bool

pub record AppendEntries : Type 0 where
  pub term : ℕ
  pub leader_id : ℕ
  pub prev_log_index : ℕ
  pub prev_log_term : ℕ
  pub entries : List Entry
  pub leader_commit : ℕ

pub record AppendResponse : Type 0 where
  pub term : ℕ
  pub success : Bool
  pub match_index : ℕ
