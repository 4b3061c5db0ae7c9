-- ===== src/Raft/Append.antt =====
-- The replication methods of `RaftNode` in src/raft/state.rs.
use nutdb.Prelude.{
  ℕ, zero, suc, ◌+◌, ◌-◌, ◌*◌, Bool, true, false, not, ◌&&◌, ◌||◌, Option, none, some, List, [],
  ◌∷◌, ◌++◌, ltb, leb, ◌==◌, if◌then◌else◌, length, take, get_elem?, min,
}
use nutdb.Prelude.Io.{ErrorKind}
use nutdb.Prelude.Exec.{Exec, pure, ◌>>◌}
use nutdb.Prelude.Order.{same, bytes_order}
use nutdb.Bytes.{Bytes}
use nutdb.Raft.Rpc.{Entry, AppendEntries, AppendResponse}
use nutdb.Raft.Node.{Role, RaftNode, last_log_index, persist, persist_if, modify, raft_error}

unfoldable pub same_entry : Entry → Entry → Bool
same_entry e f = (e.term == f.term) && same ⦃o = bytes_order⦄ e.command f.command

unfoldable pub merge_entry : ℕ → Entry → List Entry → Bool → List Entry × Bool
unfolding same_entry
merge_entry index incoming log changed = elim (get_elem? log index) [
  | some e ↦
      if same_entry e incoming then (log, changed) else (take index log ++ incoming ∷ [], true)
  | none ↦ (log ++ incoming ∷ [], true)
]

-- The loop over the entries of the request, from `index` on, with `persistent_changed`.
unfoldable pub merge_entries : ℕ → List Entry → List Entry × Bool → List Entry × Bool
merge_entries index [] merged = merged
merge_entries index (incoming ∷ es) (log, changed) =
    merge_entries (suc index) es (merge_entry index incoming log changed)

unfoldable pub cut : ℕ → List Entry × Bool → List Entry × Bool
cut index (log, changed) = if ltb index (length log) then (take index log, true) else (log, changed)

unfoldable pub term_differs : ℕ → Option Entry → Bool
term_differs term none = false
term_differs term (some e) = not (e.term == term)

unfoldable pub prev_mismatch : AppendEntries → RaftNode → Bool
unfolding last_log_index term_differs
prev_mismatch request node =
    ltb (last_log_index node) request.prev_log_index
    || ltb 0 request.prev_log_index
      && term_differs request.prev_log_term (get_elem? node.log (request.prev_log_index - 1))

unfoldable pub reject_append : Bool → Exec RaftNode AppendResponse
unfolding last_log_index
reject_append changed node =
    (do
      persist_if changed
      pure
          (record { term = node.current_term; success = false; match_index = last_log_index node }))
      node

unfoldable pub raise_commit : ℕ → RaftNode → RaftNode
unfolding last_log_index
raise_commit leader_commit node =
    if ltb node.commit_index leader_commit
    then record node { commit_index = min leader_commit (last_log_index node) }
    else node

-- `prev_log_index` matched: the entries are taken over.
unfoldable pub accept_append : AppendEntries → Bool → Exec RaftNode AppendResponse
accept_append request changed node =
    let merged =
      cut (request.prev_log_index + length request.entries)
        (merge_entries request.prev_log_index request.entries (node.log, changed)) in
    (do
      persist_if merged.1
      modify (raise_commit request.leader_commit)
      pure (record {
        term = node.current_term;
        success = true;
        match_index = request.prev_log_index + length request.entries;
      }))
      (record node { log = merged.0 })

unfoldable pub follow : AppendEntries → RaftNode → RaftNode
follow request node = record node { role = Role.follower; leader_id = some request.leader_id }

unfoldable pub append_in_term : AppendEntries → Bool → Exec RaftNode AppendResponse
append_in_term request changed node =
    let next = follow request node in
    if prev_mismatch request next
    then reject_append changed next
    else accept_append request changed next

unfoldable pub append_entries : AppendEntries → Exec RaftNode AppendResponse
append_entries request node =
    if ltb request.term node.current_term
    then reject_append false node
    else if ltb node.current_term request.term
    then append_in_term request true (record node { current_term = request.term; voted_for = none })
    else append_in_term request false node

unfoldable pub is_leader : Role → Bool
is_leader Role.leader = true
is_leader Role.candidate = false
is_leader Role.follower = false

unfoldable pub append_as_leader : Bytes → Exec RaftNode ℕ
append_as_leader command node =
    if is_leader node.role
    then (let entry : Entry = record { term = node.current_term; command = command } in
        let next : RaftNode = record node { log = node.log ++ entry ∷ [] } in
        (do persist; pure (last_log_index next)) next)
    else raft_error ErrorKind.other "raft: not leader" node

-- `replicated.iter().filter(|index| **index >= candidate).count()`
unfoldable pub count_from : ℕ → List ℕ → ℕ
count_from bound [] = 0
count_from bound (index ∷ indices) =
    let rest = count_from bound indices in if leb bound index then suc rest else rest

unfoldable pub has_majority : List ℕ → ℕ → Bool
has_majority replicated bound = ltb (length replicated + 1) ((1 + count_from bound replicated) * 2)

unfoldable pub has_term : ℕ → Option Entry → Bool
has_term term none = false
has_term term (some e) = e.term == term

-- The candidates from `bound` down to the one above the commit index.
unfoldable pub find_commit : List ℕ → RaftNode → ℕ → ℕ
unfolding has_majority has_term
find_commit replicated node zero = node.commit_index
find_commit replicated node (suc index) =
    let below = find_commit replicated node index in
    if leb (suc index) node.commit_index
    then node.commit_index
    else if has_majority replicated (suc index)
        && has_term node.current_term (get_elem? node.log index)
    then suc index
    else below

unfoldable pub advance_commit : List ℕ → RaftNode → RaftNode
advance_commit replicated node =
    if is_leader node.role
    then record node { commit_index = find_commit replicated node (last_log_index node) }
    else node

-- The entries that `take_applied` collects; none stands for the panic on a missing index.
unfoldable pub take_entries : ℕ → ℕ → List Entry → Option (List Entry)
take_entries zero index log = some []
take_entries (suc count) index log = elim (get_elem? log index) [
  | none ↦ none
  | some e ↦ elim (take_entries count (suc index) log) [ none ↦ none | some es ↦ some (e ∷ es) ]
]

unfoldable pub take_applied : RaftNode → Option (List Entry × RaftNode)
take_applied node =
    if ltb node.last_applied node.commit_index
    then elim (take_entries (node.commit_index - node.last_applied) node.last_applied node.log) [
      | none ↦ none
      | some es ↦ some (es, record node { last_applied = node.commit_index })
    ]
    else some ([], node)
