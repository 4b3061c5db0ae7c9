-- ===== src/Raft/Terms.antt =====
-- The term and the vote of a node of src/raft/state.rs, across all its methods.
use nutdb.Prelude.{
  ℕ, ◌+◌, ◌^◌, ◌<◌, ◌≡◌, none, ltb, refl, ◌∙◌, inl, inr, Bool, true, false, some, List, arith,
  Bool-cases,
}
use nutdb.Prelude.Order.{nat_order}
use nutdb.Prelude.Io.{Result, ok, err}
use nutdb.Prelude.Exec.{Exec, continue, pure}
use nutdb.Bytes.{Bytes}
use nutdb.Raft.Rpc.{Entry, RequestVote, AppendEntries}
use nutdb.Raft.Node.{
  RaftNode, persist_if, persist, start_election, become_leader, observe_term, adopt_term,
  request_vote, last_log_index, last_log_term, Role, modify, raft_error,
}
use nutdb.Raft.Append.{
  append_entries, append_in_term, accept_append, reject_append, follow, raise_commit, prev_mismatch,
  append_as_leader, is_leader, advance_commit, take_applied,
}
use nutdb.Raft.Effects.{persist_if-SameState}
use nutdb.Raft.Votes.{KeepsVote, request_vote-KeepsVote}

-- A method of a node, whether or not it succeeds.
pub data NodeStep : RaftNode → RaftNode → Type 0 where
  elects : (node : RaftNode) → NodeStep node (start_election node).1
  wins : (node : RaftNode) → NodeStep node (become_leader node)
  observes : (term : ℕ) (node : RaftNode) → NodeStep node (observe_term term node).1
  votes : (request : RequestVote) (node : RaftNode) → NodeStep node (request_vote request node).1
  appends :
      (request : AppendEntries) (node : RaftNode) → NodeStep node (append_entries request node).1
  leads : (command : Bytes) (node : RaftNode) → NodeStep node (append_as_leader command node).1
  commits : (replicated : List ℕ) (node : RaftNode) → NodeStep node (advance_commit replicated node)
  applies :
      (entries : List Entry) (node after : RaftNode)
      → take_applied node ≡ some (entries, after)
      → NodeStep node after

-- The term and the vote of two nodes are the same.
abbrev SameVote : RaftNode → RaftNode → Type 0
SameVote before after =
    (after.current_term ≡ before.current_term) × (after.voted_for ≡ before.voted_for)

SameVote-KeepsVote : (before after : RaftNode) → SameVote before after → KeepsVote before after
SameVote-KeepsVote before after same = let term = same.0 in (omega arith, λ e vote h. same.1 ∙ h)

-- What follows a write of the state, if it keeps the vote, keeps it with the write too.
then-SameVote :
    {A : Type 0} (node : RaftNode) (p : Result (Unit {0}) × RaftNode) (rest : Exec RaftNode A)
    → SameVote node p.1
    → ((n : RaftNode) → SameVote n (rest n).1)
    → SameVote node (continue p (λ _. rest)).1
then-SameVote node (ok u, n) rest same kept = ((kept n).0 ∙ same.0, (kept n).1 ∙ same.1)
then-SameVote node (err e, n) rest same kept = same

written-SameVote :
    {A : Type 0} (b : Bool) (node : RaftNode) (rest : Exec RaftNode A)
    → ((n : RaftNode) → SameVote n (rest n).1)
    → SameVote node (continue (persist_if b node) (λ _. rest)).1
written-SameVote b node rest kept =
    let same = persist_if-SameState b node in
    then-SameVote node (persist_if b node) rest (same.0, same.1) kept

raise_commit-SameVote : (index : ℕ) (node : RaftNode) → SameVote node (raise_commit index node)
unfolding raise_commit
raise_commit-SameVote index node = ground arith

append_in_term-SameVote :
    (request : AppendEntries) (changed : Bool) (node : RaftNode)
    → SameVote node (append_in_term request changed node).1
unfolding append_in_term accept_append reject_append follow modify
append_in_term-SameVote request changed node =
    elim (Bool-cases (prev_mismatch request (follow request node))) [
      | inl e ↦ rw e (written-SameVote changed (follow request node) _ (λ n. (refl, refl)))
      | inr e ↦ rw e (written-SameVote _ _ _ (λ n. raise_commit-SameVote request.leader_commit n))
    ]

KeepsVote-later :
    (before after : RaftNode) → before.current_term < after.current_term → KeepsVote before after
KeepsVote-later before after later = (omega arith, λ e vote h. absurd (omega (arith, e)))

append_entries-KeepsVote :
    (request : AppendEntries) (node : RaftNode) → KeepsVote node (append_entries request node).1
unfolding append_entries reject_append
append_entries-KeepsVote request node = elim (Bool-cases (ltb request.term node.current_term)) [
  | inl stale ↦ rw stale (
      SameVote-KeepsVote node (reject_append false node).1
        (written-SameVote false node _ (λ n. (refl, refl))))
  | inr e ↦ elim (Bool-cases (ltb node.current_term request.term)) [
    | inl new ↦
        let adopted : RaftNode = record node { current_term = request.term; voted_for = none } in
        let same = append_in_term-SameVote request true adopted in
        rw (e, new)
          (KeepsVote-later node (append_in_term request true adopted).1
            (ground (arith, same.0, new)))
    | inr old ↦
        rw (e, old)
          (SameVote-KeepsVote node (append_in_term request false node).1
            (append_in_term-SameVote request false node))
  ]
]

start_election-KeepsVote : (node : RaftNode) → KeepsVote node (start_election node).1
unfolding start_election persist_if raft_error
start_election-KeepsVote node = elim (Bool-cases (ltb (node.current_term + 1) (2 ^ 64))) [
  | inl e ↦
      let next : RaftNode = record node {
        current_term = node.current_term + 1;
        role = Role.candidate;
        leader_id = none;
        voted_for = some node.id;
      } in
      let request : RequestVote = record {
        term = next.current_term;
        candidate_id = next.id;
        last_log_index = last_log_index next;
        last_log_term = last_log_term next;
      } in
      let same = written-SameVote true next (pure request) (λ n. (refl, refl)) in
      rw e (
        KeepsVote-later node (continue (persist_if true next) (λ _. pure request)).1
          (ground (arith, same.0)))
  | inr e ↦ rw e (SameVote-KeepsVote node node (refl, refl))
]

observe_term-KeepsVote : (term : ℕ) (node : RaftNode) → KeepsVote node (observe_term term node).1
unfolding observe_term persist_if
observe_term-KeepsVote term node = elim (Bool-cases (ltb node.current_term term)) [
  | inl e ↦
      let same = persist_if-SameState true (adopt_term term node) in
      rw e (
        KeepsVote-later node (persist (adopt_term term node)).1
          (unfold adopt_term in ground (arith, same.0, e)))
  | inr e ↦ rw e (SameVote-KeepsVote node node (refl, refl))
]

append_as_leader-SameVote :
    (command : Bytes) (node : RaftNode) → SameVote node (append_as_leader command node).1
unfolding append_as_leader persist_if raft_error
append_as_leader-SameVote command node = elim (Bool-cases (is_leader node.role)) [
  | inl e ↦ rw e (written-SameVote true _ _ (λ n. (refl, refl)))
  | inr e ↦ rw e (refl, refl)
]

advance_commit-SameVote :
    (replicated : List ℕ) (node : RaftNode) → SameVote node (advance_commit replicated node)
unfolding advance_commit
advance_commit-SameVote replicated node = ground arith

take_applied-SameVote :
    (entries : List Entry) (node after : RaftNode)
    → take_applied node ≡ some (entries, after)
    → SameVote node after
unfolding take_applied
take_applied-SameVote entries node after e = ground arith

-- Whatever method of a node is called, and whether or not it succeeds, the term does not decrease,
-- and within a term a vote is neither taken back nor changed.
pub NodeStep-KeepsVote : (before after : RaftNode) → NodeStep before after → KeepsVote before after
unfolding become_leader
NodeStep-KeepsVote before after (elects node) = start_election-KeepsVote node
NodeStep-KeepsVote before after (wins node) =
    SameVote-KeepsVote node (become_leader node) (refl, refl)
NodeStep-KeepsVote before after (observes term node) = observe_term-KeepsVote term node
NodeStep-KeepsVote before after (votes request node) = request_vote-KeepsVote request node
NodeStep-KeepsVote before after (appends request node) = append_entries-KeepsVote request node
NodeStep-KeepsVote before after (leads command node) =
    SameVote-KeepsVote node (append_as_leader command node).1
      (append_as_leader-SameVote command node)
NodeStep-KeepsVote before after (commits replicated node) =
    SameVote-KeepsVote node (advance_commit replicated node)
      (advance_commit-SameVote replicated node)
NodeStep-KeepsVote before after (applies entries node after' e) =
    SameVote-KeepsVote node after' (take_applied-SameVote entries node after' e)
