-- ===== src/Raft/Logs.antt =====
-- The replicated log in src/raft/state.rs: `append_entries` and `advance_commit`.
use nutdb.Prelude.{
  ℕ, ◌+◌, ◌-◌, ◌≤◌, ◌<◌, ◌≡◌, refl, sym, ap, ◌∙◌, ◌⊎◌, inl, inr, Bool, true, false, ◌&&◌, Option,
  none, some, ◌++◌, arith, ltb, if◌then◌else◌, Bool-cases, length, take, get_elem?, length-append,
  length-take,
}
use nutdb.Prelude.Order.{bytes_order, nat_order}
use nutdb.Prelude.Io.{Result, ok, err}
use nutdb.Prelude.Exec.{continue, pure}
use nutdb.Raft.Rpc.{Entry, AppendEntries, AppendResponse}
use nutdb.Raft.Effects.{persist_if-SameState, continue_done, term_cases}
use nutdb.Prelude.{or_false}
use nutdb.Raft.Node.{RaftNode, last_log_index, persist_if, modify}
use nutdb.Raft.Append.{
  merge_entries, cut, term_differs, prev_mismatch, reject_append, raise_commit, accept_append,
  follow, append_in_term, append_entries,
}
use nutdb.Raft.Merge.{get_elem?-none, merge_entries-take, cut-take}

raise_commit-log : (commit : ℕ) (node : RaftNode) → (raise_commit commit node).log ≡ node.log
unfolding raise_commit
raise_commit-log commit node = ground arith

accepted :
    (p : Result (Unit {0}) × RaftNode) (commit : ℕ) (a r : AppendResponse) (after : RaftNode)
    → continue p (λ _ s. continue (modify (raise_commit commit) s) (λ _. pure a)) ≡ (ok r, after)
    → (after.log ≡ p.1.log) × (a ≡ r)
unfolding modify
accepted (ok tt, node) commit a r after e =
    let log = raise_commit-log commit node in ground (arith, e, log)
accepted (err x, node) commit a r after e = ground (arith, e)

-- What a follower holds after it has accepted the request.
abbrev pub Accepted : AppendEntries → RaftNode → RaftNode → AppendResponse → Type 0
Accepted request before after r =
    (request.prev_log_index ≤ length before.log)
    × (after.log ≡ take request.prev_log_index before.log ++ request.entries)
    × (r.match_index ≡ length after.log)

accept_append-Accepted :
    (request : AppendEntries) (changed : Bool) (node after : RaftNode) (r : AppendResponse)
    → request.prev_log_index ≤ length node.log
    → accept_append request changed node ≡ (ok r, after)
    → Accepted request node after r
unfolding accept_append
accept_append-Accepted request changed node after r h e =
    let merged = merge_entries request.prev_log_index request.entries (node.log, changed) in
    let final = cut (request.prev_log_index + length request.entries) merged in
    let done =
      accepted (persist_if final.1 (record node { log = final.0 })) request.leader_commit _ r after
        e in
    let kept = persist_if-SameState final.1 (record node { log = final.0 }) in
    let log : after.log ≡ take request.prev_log_index node.log ++ request.entries =
      done.0
      ∙ kept.2
      ∙ cut-take _ merged.0 merged.1
      ∙ (merge_entries-take request.prev_log_index request.entries node.log changed h).0 in
    let size = length-append (take request.prev_log_index node.log) request.entries in
    let short = length-take request.prev_log_index node.log in
    (
      h,
      log,
      ap (λ a. a.match_index) (sym done.1)
          ∙ (let n = ap length log in omega (arith, n, size, short, h)),
    )

reject_append-success :
    (changed : Bool) (node after : RaftNode) (r : AppendResponse)
    → reject_append changed node ≡ (ok r, after)
    → r.success ≡ false
unfolding reject_append
reject_append-success changed node after r e =
    ap (λ a. a.success) (sym (continue_done (persist_if changed node) _ r after e).1)

prev_mismatch-bound :
    (request : AppendEntries) (node : RaftNode)
    → prev_mismatch request node ≡ false
    → request.prev_log_index ≤ length node.log
unfolding prev_mismatch last_log_index
prev_mismatch-bound request node h =
    let both = or_false (ltb (length node.log) request.prev_log_index) _ h in ground (arith, both.0)

-- The entry before the new ones has the index and the term that the leader names.
abbrev pub PrevMatches : AppendEntries → RaftNode → Type 0
PrevMatches request node =
    (request.prev_log_index ≡ 0)
    ⊎ ((e : Entry) × (get_elem? node.log (request.prev_log_index - 1) ≡ some e)
        × (e.term ≡ request.prev_log_term))

term_differs-false :
    (request : AppendEntries) (found : Option Entry)
    → term_differs request.prev_log_term found ≡ false
    → (found ≡ none) ⊎ ((e : Entry) × (found ≡ some e) × (e.term ≡ request.prev_log_term))
unfolding term_differs
term_differs-false request none h = inl refl
term_differs-false request (some e) h = inr (e, refl, ground (arith, h))

prev_mismatch-PrevMatches :
    (request : AppendEntries) (node : RaftNode)
    → prev_mismatch request node ≡ false
    → PrevMatches request node
unfolding prev_mismatch last_log_index
prev_mismatch-PrevMatches request node h =
    let both = or_false (ltb (length node.log) request.prev_log_index) _ h in
    let bound : request.prev_log_index ≤ length node.log = ground (arith, both.0) in
    elim (Bool-cases (ltb 0 request.prev_log_index)) [
      | inl later ↦
          elim (term_differs-false request (get_elem? node.log (request.prev_log_index - 1)) (
            ap
              (λ b.
                b
                && term_differs request.prev_log_term
                    (get_elem? node.log (request.prev_log_index - 1)))
              (sym later)
            ∙ both.1)) [
              | inl missing ↦
                  (let past = get_elem?-none (request.prev_log_index - 1) node.log missing in
                    ground (arith, past, bound, later))
              | inr match ↦ inr match
            ]
      | inr first ↦ inl (ground (arith, first))
    ]

append_in_term-Accepted :
    (request : AppendEntries) (changed : Bool) (node after : RaftNode) (r : AppendResponse)
    → append_in_term request changed node ≡ (ok r, after)
    → r.success ≡ true
    → Accepted request node after r × PrevMatches request node
unfolding append_in_term follow
append_in_term-Accepted request changed node after r e s =
    elim (Bool-cases (prev_mismatch request (follow request node))) [
      | inl bad ↦
          (let no = reject_append-success changed (follow request node) after r (
              ap
                (λ b.
                  if b
                  then reject_append changed (follow request node)
                  else accept_append request changed (follow request node))
                (sym bad)
              ∙ e) in
            ground (arith, s, no))
      | inr good ↦ (
        accept_append-Accepted request changed (follow request node) after r
            (prev_mismatch-bound request (follow request node) good)
            (ap
                (λ b.
                  if b
                  then reject_append changed (follow request node)
                  else accept_append request changed (follow request node))
                (sym good)
              ∙ e),
        prev_mismatch-PrevMatches request (follow request node) good,
      )
    ]

append_entries-new :
    (request : AppendEntries) (node : RaftNode)
    → node.current_term < request.term
    → append_entries request node
      ≡ append_in_term request true (record node { current_term = request.term; voted_for = none })
unfolding append_entries
append_entries-new request node h = ground arith

append_entries-same :
    (request : AppendEntries) (node : RaftNode)
    → node.current_term ≡ request.term
    → append_entries request node ≡ append_in_term request false node
unfolding append_entries
append_entries-same request node h = ground arith

append_entries-stale :
    (request : AppendEntries) (node : RaftNode)
    → request.term < node.current_term
    → append_entries request node ≡ reject_append false node
unfolding append_entries
append_entries-stale request node h = ground arith

-- A success means: the request is of the follower's term or a newer one, the entry before the new
-- ones was there with the leader's term, and the follower's log is now its first `prev_log_index`
-- entries with the request's entries behind them, nothing else, its length the match index.
pub append_entries_log :
    (request : AppendEntries) (node after : RaftNode) (r : AppendResponse)
    → append_entries request node ≡ (ok r, after)
    → r.success ≡ true
    → Accepted request node after r × PrevMatches request node × (node.current_term ≤ request.term)
append_entries_log request node after r e s = elim (term_cases request.term node.current_term) [
  | inl stale ↦
      (let no =
          reject_append-success false node after r
            (sym (append_entries-stale request node stale) ∙ e) in
        ground (arith, s, no))
  | inr (inl new) ↦
      (let d =
          append_in_term-Accepted request true
            (record node { current_term = request.term; voted_for = none }) after r
            (sym (append_entries-new request node new) ∙ e) s in
        (d.0, d.1, omega (arith, new)))
  | inr (inr old) ↦
      (let d =
          append_in_term-Accepted request false node after r
            (sym (append_entries-same request node (sym old)) ∙ e) s in
        (d.0, d.1, omega (arith, old)))
]
