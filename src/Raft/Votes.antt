-- ===== src/Raft/Votes.antt =====
-- Elections in src/raft/state.rs: what a node promises when it votes.
use nutdb.Prelude.{ℕ, ◌≤◌, ◌≡◌, sym, ◌∙◌, ◌⊎◌, ◌||◌, Bool, true, false, some, arith}
use mathlib.Core.Path.{subst}
use nutdb.Prelude.Io.{ok}
use nutdb.Prelude.Order.{nat_order}
use nutdb.Wal.{Wal}
use nutdb.Raft.Rpc.{RequestVote, VoteResponse}
use nutdb.Raft.Node.{
  RaftNode, persisted, persist_if, is_none, voted_is, up_to_date, grants, is_new_vote, cast_vote,
  decide_vote, request_vote, adopt_term, last_log_index, last_log_term,
}
use nutdb.Raft.Effects.{SameState, persist_if-SameState, continue-pure}

abbrev pub KeepsVote : RaftNode → RaftNode → Type 0
KeepsVote before after =
    (before.current_term ≤ after.current_term)
    × (after.current_term ≡ before.current_term
        → (vote : ℕ) → before.voted_for ≡ some vote
        → after.voted_for ≡ some vote)

-- `cast_vote` changes the vote alone, and to a granted one.
cast_vote-KeepsVote :
    (request : RequestVote) (node : RaftNode) → KeepsVote node (cast_vote request node)
unfolding cast_vote is_new_vote grants is_none voted_is
cast_vote-KeepsVote request node = ground arith

abbrev answer : RequestVote → RaftNode → VoteResponse
answer request node = record {
  term = (cast_vote request node).current_term;
  granted = grants request node;
}

decide_vote-SameState :
    (request : RequestVote) (changed : Bool) (node : RaftNode)
    → SameState (cast_vote request node) (decide_vote request changed node).1
unfolding decide_vote
decide_vote-SameState request changed node =
    subst (λ after. SameState (cast_vote request node) after)
      (sym (
        continue-pure (persist_if (changed || is_new_vote request node) (cast_vote request node))
          (answer request node)))
      (persist_if-SameState (changed || is_new_vote request node) (cast_vote request node))

decide_vote-KeepsVote :
    (request : RequestVote) (changed : Bool) (node : RaftNode)
    → KeepsVote node (decide_vote request changed node).1
decide_vote-KeepsVote request changed node =
    let same_state = decide_vote-SameState request changed node in
    let kept = cast_vote-KeepsVote request node in
    (
      ground (arith, same_state, kept),
      λ e vote h. same_state.1 ∙ kept.1 (sym same_state.0 ∙ e) vote h,
    )

-- `request_vote` keeps the vote within a term, whether or not the state could be written.
pub request_vote-KeepsVote :
    (request : RequestVote) (node : RaftNode) → KeepsVote node (request_vote request node).1
unfolding request_vote adopt_term
request_vote-KeepsVote request node =
    let new = decide_vote-KeepsVote request true (adopt_term request.term node) in
    let old = decide_vote-KeepsVote request false node in ground arith

-- The last record of the log file, synced, holds the term, the vote and the log of the node.
abbrev pub IsSaved : RaftNode → Type 0
IsSaved node = (wal : Wal) × (persisted (record node { wal = wal }) ≡ ok node.wal)

-- What a vote rests on: it is recorded, the log of the candidate is up to date, the state with the
-- vote is on disk, and it was written now unless node, vote and file are as before.
abbrev pub Granted : RequestVote → RaftNode → RaftNode → Type 0
Granted request before after =
    (after.voted_for ≡ some request.candidate_id)
    × (after.current_term ≡ request.term)
    × (after.log ≡ before.log)
    × (up_to_date request.last_log_term request.last_log_index (last_log_term before)
          (last_log_index before)
        ≡ true)
    × IsSaved after
    × ((after ≡ before) ⊎ (persisted (record after { wal = before.wal }) ≡ ok after.wal))
