-- ===== src/Raft/Commit.antt =====
-- `advance_commit` of src/raft/state.rs.
use mathlib.Core.Path.{subst}
use nutdb.Prelude.{
  ℕ, zero, suc, ◌+◌, ◌*◌, ◌≤◌, ◌<◌, ◌≡◌, refl, ◌⊎◌, inl, inr, Bool, true, false, ◌&&◌, Option, none,
  some, List, [], ◌∷◌, arith, leb, Bool-cases, length, get_elem?,
}
use nutdb.Raft.Rpc.{Entry}
use nutdb.Raft.Node.{RaftNode, Role, last_log_index}
use nutdb.Raft.Append.{count_from, find_commit, advance_commit, has_majority, has_term, is_leader}
use nutdb.Prelude.{and_true}

-- Of the indices that the other nodes hold, `n` reach an index.
pub data Reaching (index : ℕ) : List ℕ → ℕ → Type 0 where
  nobody : Reaching index [] 0
  reaches :
      {i n : ℕ} {is : List ℕ} → index ≤ i → Reaching index is n → Reaching index (i ∷ is) (suc n)
  lacks : {i n : ℕ} {is : List ℕ} → i < index → Reaching index is n → Reaching index (i ∷ is) n

count_from-Reaching :
    (index : ℕ) (replicated : List ℕ) → Reaching index replicated (count_from index replicated)
unfolding count_from
count_from-Reaching index [] = nobody
count_from-Reaching index (i ∷ is) = elim (Bool-cases (leb index i)) [
  | inl e ↦ rw e (reaches (ground (arith, e)) (count_from-Reaching index is))
  | inr e ↦ rw e (lacks (ground (arith, e)) (count_from-Reaching index is))
]

Reaching-count_from :
    (index : ℕ) (replicated : List ℕ) (n : ℕ)
    → Reaching index replicated n
    → n ≡ count_from index replicated
unfolding count_from
Reaching-count_from index [] n nobody = refl
Reaching-count_from index (i ∷ is) (suc n) (reaches le h) =
    ground (arith, le, Reaching-count_from index is n h)
Reaching-count_from index (i ∷ is) n (lacks lt h) =
    ground (arith, lt, Reaching-count_from index is n h)

-- What a leader needs to take `suc position` as the commit index: a majority holds the entry at
-- the position, and it is of the leader's own term.
abbrev pub Committable : List ℕ → RaftNode → ℕ → Type 0
Committable replicated node position =
    ((n : ℕ) × Reaching (suc position) replicated n × (length replicated + 1 < (1 + n) * 2))
    × ((e : Entry) × (get_elem? node.log position ≡ some e) × (e.term ≡ node.current_term))

has_term-true :
    (term : ℕ) (found : Option Entry)
    → has_term term found ≡ true
    → (e : Entry) × (found ≡ some e) × (e.term ≡ term)
unfolding has_term
has_term-true term none h = ground arith
has_term-true term (some e) h = (e, refl, ground (arith, h))

-- The test of the loop.
abbrev committable : List ℕ → RaftNode → ℕ → Bool
committable replicated node position =
    has_majority replicated (suc position)
    && has_term node.current_term (get_elem? node.log position)

committable-true :
    (replicated : List ℕ) (node : RaftNode) (position : ℕ)
    → committable replicated node position ≡ true
    → Committable replicated node position
unfolding has_majority
committable-true replicated node position h =
    let both = and_true (has_majority replicated (suc position)) _ h in
    (
      (
        count_from (suc position) replicated,
        count_from-Reaching (suc position) replicated,
        ground (arith, both.0),
      ),
      has_term-true node.current_term (get_elem? node.log position) both.1,
    )

Committable-committable :
    (replicated : List ℕ) (node : RaftNode) (position : ℕ)
    → Committable replicated node position
    → committable replicated node position ≡ true
unfolding has_majority has_term
Committable-committable replicated node position h =
    let entry = h.1 in
    let (n, reaching, majority) = h.0 in
    let counted = Reaching-count_from (suc position) replicated n reaching in
    rw entry.1 (ground (arith, counted, majority, entry.2))

-- The result of the search from `bound` down: the commit index as it was, or the last one that
-- passes.
abbrev pub Found : List ℕ → RaftNode → ℕ → ℕ → Type 0
Found replicated node bound result =
    ((result ≡ node.commit_index)
      ⊎ ((position : ℕ) × (result ≡ suc position)
          × (node.commit_index ≤ position)
          × Committable replicated node position))
    × ((position : ℕ)
        → node.commit_index ≤ position
        → position < bound
        → Committable replicated node position
        → position < result)

last_or_earlier : (a b : ℕ) → a < suc b → (a < b) ⊎ (a ≡ b)
last_or_earlier a b h = ground arith

earlier :
    (replicated : List ℕ) (node : RaftNode) (index result position : ℕ)
    → committable replicated node index ≡ false
    → position < suc index
    → Committable replicated node position
    → (position < index → Committable replicated node position → position < result)
    → position < result
earlier replicated node index result position failed l c rest =
    elim (last_or_earlier position index l) [
      | inl before ↦ rest before c
      | inr at ↦
          (let passed =
              Committable-committable replicated node index
                (subst (Committable replicated node) at c) in
            ground (arith, passed, failed))
    ]

find_commit-Found :
    (replicated : List ℕ) (node : RaftNode) (bound : ℕ)
    → Found replicated node bound (find_commit replicated node bound)
unfolding find_commit
find_commit-Found replicated node zero = (inl refl, λ position k l c. omega (arith, l))
find_commit-Found replicated node (suc index) =
    let rest = find_commit-Found replicated node index in
    elim (Bool-cases (leb (suc index) node.commit_index)) [
      | inl done ↦ rw done (inl refl, λ position k l c. ground (arith, k, l, done))
      | inr more ↦ elim (Bool-cases (committable replicated node index)) [
        | inl passed ↦
            rw (more, passed)
              (
                inr (
                  index,
                  refl,
                  ground (arith, more),
                  committable-true replicated node index passed,
                ),
                λ position k l c. l,
              )
        | inr failed ↦
            rw (more, failed)
              (
                rest.0,
                λ position k l c.
                    earlier replicated node index _ position failed l c (rest.1 position k),
              )
      ]
    ]

-- On a leader the new commit index is the old one, or the index of an entry above it that is of
-- the leader's own term and that a majority holds; and no such entry of the log is left above it.
pub advance_commit_lem :
    (replicated : List ℕ) (node : RaftNode)
    → node.role ≡ Role.leader
    → Found replicated node (length node.log) (advance_commit replicated node).commit_index
unfolding advance_commit is_leader last_log_index find_commit
advance_commit_lem replicated node h = rw h (find_commit-Found replicated node (length node.log))
