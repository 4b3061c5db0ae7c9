-- ===== src/Raft/Examples.antt =====
-- Nodes with short logs.
use nutdb.Prelude.{ℕ, ◌≤◌, ◌≡◌, refl, true, some, [], ◌∷◌}
use nutdb.Prelude.Io.{ok}
use nutdb.Bytes.{to_le_bytes}
use nutdb.Wal.{append}
use nutdb.Raft.Rpc.{Entry, RequestVote, VoteResponse, AppendEntries, AppendResponse}
use nutdb.Raft.Persist.{encode, encode_vote, encode_log}
use nutdb.Raft.Node.{RaftNode, Role, request_vote, persist, persist_if, persisted, keep_wal, modify}
use nutdb.Raft.Append.{
  append_entries, advance_commit, accept_append, append_in_term, merge_entries, prev_mismatch,
  follow, cut, merge_entry,
}
use nutdb.Raft.Votes.{KeepsVote}
use nutdb.Raft.Terms.{NodeStep, NodeStep-KeepsVote}
use nutdb.Raft.Logs.{Accepted, PrevMatches, append_entries_log}
use nutdb.Raft.Commit.{Found, advance_commit_lem}
use nutdb.Prelude.{◌++◌, ◌<◌, ◌^◌, arith}
use nutdb.Bytes.{Bytes}
use nutdb.Wal.{Wal, frame, sync}
use nutdb.Wal.Replay.{log}
use nutdb.Wal.Repair.{durable}
use nutdb.Wal.Examples.{whole_reads}
use nutdb.Raft.Persist.{PersistentState, default_state, decode}
use nutdb.Raft.RoundTrip.{HasWidths, decode-encode_state}
use nutdb.Raft.Open.{open_node, last_state}
use nutdb.Raft.Restart.{state_of, IsRestarted, persisted-IsRestarted}

abbrev entry : ℕ → ℕ → Entry
entry term byte = record { term = term; command = byte ∷ [] }

-- Node 1 of term 2 leads, with two entries.
abbrev node : RaftNode
node = record {
  id = 1;
  wal = record { file = []; synced = 0 };
  current_term = 2;
  voted_for = some 1;
  log = entry 1 7 ∷ entry 2 8 ∷ [];
  commit_index = 0;
  last_applied = 0;
  role = Role.leader;
  leader_id = some 1;
  election_timeout_ms = 200;
}

abbrev ballot : RequestVote
ballot = record { term = 3; candidate_id = 2; last_log_index = 2; last_log_term = 2 }

abbrev yes_vote : VoteResponse
yes_vote = record { term = 3; granted = true }

NodeStep-KeepsVote_example : KeepsVote node (request_vote ballot node).1
NodeStep-KeepsVote_example =
    NodeStep-KeepsVote node (request_vote ballot node).1 (NodeStep.votes ballot node)

-- The leader of term 3 replaces the second entry.
abbrev replacement : AppendEntries
replacement = record {
  term = 3;
  leader_id = 2;
  prev_log_index = 1;
  prev_log_term = 1;
  entries = entry 3 9 ∷ [];
  leader_commit = 1;
}

abbrev success : AppendResponse
success = record { term = 3; success = true; match_index = 2 }

replacement_accepted :
    append_entries replacement node ≡ (ok success, (append_entries replacement node).1)
unfolding append_entries append_in_term accept_append merge_entries persist_if persist persisted
    encode encode_vote encode_log append to_le_bytes prev_mismatch follow cut merge_entry keep_wal
    modify
replacement_accepted = refl

append_entries_log_example :
    Accepted replacement node (append_entries replacement node).1 success
    × PrevMatches replacement node
    × (node.current_term ≤ replacement.term)
append_entries_log_example =
    append_entries_log replacement node (append_entries replacement node).1 success
      replacement_accepted refl

advance_commit_lem_example :
    Found (2 ∷ 0 ∷ []) node 2 (advance_commit (2 ∷ 0 ∷ []) node).commit_index
advance_commit_lem_example = advance_commit_lem (2 ∷ 0 ∷ []) node refl

abbrev stored : PersistentState
stored = state_of node

node-HasWidths : HasWidths stored
node-HasWidths = (omega arith, λ vote e. node-vote vote e, (omega arith, (omega arith, tt)))
  where
    node-vote : (vote : ℕ) → some 1 ≡ some vote → vote < 2 ^ 64
    node-vote vote e = ground (arith, e)

abbrev stored_bytes : Bytes
stored_bytes =
    0x52
    ∷ 1
    ∷ (to_le_bytes 8 2
        ++ (1 ∷ to_le_bytes 8 1)
        ++ (to_le_bytes 4 2
            ++ (to_le_bytes 8 1
                ++ (to_le_bytes 4 1 ++ 7 ∷ (to_le_bytes 8 2 ++ (to_le_bytes 4 1 ++ 8 ∷ []))))))

decode-encode_state_example : decode stored_bytes ≡ ok stored
unfolding encode encode_vote encode_log to_le_bytes
decode-encode_state_example = decode-encode_state stored stored_bytes node-HasWidths refl

abbrev written_log : Wal
written_log = durable (frame stored_bytes)

node_written : persisted node ≡ ok written_log
unfolding persisted encode encode_vote encode_log append sync to_le_bytes frame
node_written = refl

persisted-IsRestarted_example :
    (after : RaftNode) × (open_node 1 whole_reads (some written_log) 5 ≡ ok after)
    × IsRestarted node written_log after
unfolding log last_state
persisted-IsRestarted_example =
    persisted-IsRestarted whole_reads node written_log [] default_state 5 refl tt refl
      node-HasWidths node_written

-- The node whose state is in its log file votes again.
abbrev saved_node : RaftNode
saved_node = record node { wal = written_log }
