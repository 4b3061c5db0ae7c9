-- ===== src/Raft/Node.antt =====
-- `RaftNode` of src/raft/state.rs. A method returns its result or its error and the node as it then
-- is: what was assigned before an error stays. `term` stands for `current_term`.
use nutdb.Prelude.{
  ℕ, ◌+◌, ◌^◌, Bool, true, false, not, ◌&&◌, ◌||◌, Option, none, some, List, [], ◌∷◌, ltb, leb,
  ◌==◌, if◌then◌else◌, length, String,
}
use nutdb.Prelude.Io.{ErrorKind, Error, Result, ok, err}
use nutdb.Prelude.Io
use nutdb.Prelude.Exec.{Exec, pure, raise, ◌>>◌}
use nutdb.Prelude.Order.{bytes_order}
use nutdb.Wal
use nutdb.Wal.{Wal}
use nutdb.Raft.Rpc.{Entry, RequestVote, VoteResponse}
use nutdb.Raft.Persist.{encode}

pub data Role : Type 0 where
  follower candidate leader : Role

pub record RaftNode : Type 0 where
  pub id : ℕ
  pub wal : Wal
  pub current_term : ℕ
  pub voted_for : Option ℕ
  pub log : List Entry
  pub commit_index : ℕ
  pub last_applied : ℕ
  pub role : Role
  pub leader_id : Option ℕ
  pub election_timeout_ms : ℕ

unfoldable pub last_log_index : RaftNode → ℕ
last_log_index node = length node.log

unfoldable pub last_term : List Entry → ℕ
last_term [] = 0
last_term (e ∷ []) = e.term
last_term (e ∷ f ∷ es) = last_term (f ∷ es)

unfoldable pub last_log_term : RaftNode → ℕ
last_log_term node = last_term node.log

-- What `persist` writes to the log of the node, and then syncs.
unfoldable pub persisted : RaftNode → Result Wal
persisted node =
    Io.◌>>=◌
      (encode
        (record { current_term = node.current_term; voted_for = node.voted_for; log = node.log }))
      λ payload. Io.◌>>=◌ (Wal.append payload node.wal) λ wal. ok (Wal.sync wal)

unfoldable pub keep_wal : RaftNode → Result Wal → Result (Unit {0}) × RaftNode
keep_wal node (ok wal) = (ok tt, record node { wal = wal })
keep_wal node (err e) = (err e, node)

unfoldable pub persist : Exec RaftNode (Unit {0})
persist node = keep_wal node (persisted node)

unfoldable pub persist_if : Bool → Exec RaftNode (Unit {0})
persist_if true = persist
persist_if false = pure tt

unfoldable pub modify : (RaftNode → RaftNode) → Exec RaftNode (Unit {0})
modify f node = (ok tt, f node)

unfoldable pub raft_error : {A : Type 0} → ErrorKind → String → Exec RaftNode A
raft_error kind message = raise (record { kind = kind; message = message })

unfoldable pub start_election : Exec RaftNode RequestVote
start_election node =
    if ltb (node.current_term + 1) (2 ^ 64)
    then (let next = record node {
      current_term = node.current_term + 1;
      role = Role.candidate;
      leader_id = none;
      voted_for = some node.id;
    } in
        (do
          persist
          pure (record {
            term = next.current_term;
            candidate_id = next.id;
            last_log_index = last_log_index next;
            last_log_term = last_log_term next;
          }))
          next)
    else raft_error ErrorKind.invalid_data "raft: term exhausted" node

unfoldable pub become_leader : RaftNode → RaftNode
become_leader node = record node { role = Role.leader; leader_id = some node.id }

-- A node that learns of a newer term.
unfoldable pub adopt_term : ℕ → RaftNode → RaftNode
adopt_term term node = record node {
  current_term = term;
  voted_for = none;
  role = Role.follower;
  leader_id = none;
}

unfoldable pub observe_term : ℕ → Exec RaftNode (Unit {0})
unfolding adopt_term
observe_term term node =
    if ltb node.current_term term then persist (adopt_term term node) else (ok tt, node)

-- `(request.last_log_term, request.last_log_index) >= (self.last_log_term(), …)`
unfoldable pub up_to_date : ℕ → ℕ → ℕ → ℕ → Bool
up_to_date term index my_term my_index = ltb my_term term || (term == my_term) && leb my_index index

unfoldable pub voted_is : Option ℕ → ℕ → Bool
voted_is none node_id = false
voted_is (some vote) node_id = vote == node_id

unfoldable pub is_none : Option ℕ → Bool
is_none none = true
is_none (some vote) = false

unfoldable pub grants : RequestVote → RaftNode → Bool
unfolding up_to_date voted_is is_none last_log_index last_log_term
grants request node =
    (is_none node.voted_for || voted_is node.voted_for request.candidate_id)
    && up_to_date request.last_log_term request.last_log_index (last_log_term node)
        (last_log_index node)

unfoldable pub is_new_vote : RequestVote → RaftNode → Bool
is_new_vote request node = grants request node && not (voted_is node.voted_for request.candidate_id)

unfoldable pub cast_vote : RequestVote → RaftNode → RaftNode
cast_vote request node =
    if is_new_vote request node then record node { voted_for = some request.candidate_id } else node

-- The vote, once the node is in the term of the request; `changed` says if that is new.
unfoldable pub decide_vote : RequestVote → Bool → Exec RaftNode VoteResponse
decide_vote request changed node =
    (do
      persist_if (changed || is_new_vote request node)
      pure (record { term = (cast_vote request node).current_term; granted = grants request node }))
      (cast_vote request node)

unfoldable pub request_vote : RequestVote → Exec RaftNode VoteResponse
unfolding decide_vote adopt_term persist_if
request_vote request node =
    if ltb request.term node.current_term
    then (ok (record { term = node.current_term; granted = false }), node)
    else if ltb node.current_term request.term
    then decide_vote request true (adopt_term request.term node)
    else decide_vote request false node
