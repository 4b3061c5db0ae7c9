-- ===== src/Raft/Effects.antt =====
-- What `persist` of src/raft/state.rs leaves as it is, and how its error ends a method.
use nutdb.Prelude.{ℕ, ◌<◌, ◌≡◌, refl, sym, ap, ◌⊎◌, inl, inr, Bool, true, false, arith}
use nutdb.Prelude.Io.{Result, ok, err}
use nutdb.Prelude.Exec.{continue, pure}
use nutdb.Wal.{Wal}
use nutdb.Prelude.Order.{nat_order}
use nutdb.Raft.Node.{RaftNode, persist, keep_wal, persisted, persist_if}

-- `persist` writes the log of the node and nothing else of it.
abbrev pub SameState : RaftNode → RaftNode → Type 0
SameState before after =
    (after.current_term ≡ before.current_term)
    × (after.voted_for ≡ before.voted_for)
    × (after.log ≡ before.log)
    × (after.commit_index ≡ before.commit_index)
    × (after.last_applied ≡ before.last_applied)

keep_wal-SameState : (node : RaftNode) (r : Result Wal) → SameState node (keep_wal node r).1
unfolding keep_wal
keep_wal-SameState node (ok wal) = (refl, refl, refl, refl, refl)
keep_wal-SameState node (err e) = (refl, refl, refl, refl, refl)

pub persist_if-SameState : (b : Bool) (node : RaftNode) → SameState node (persist_if b node).1
unfolding persist_if persist
persist_if-SameState true node = keep_wal-SameState node (persisted node)
persist_if-SameState false node = (refl, refl, refl, refl, refl)

pub continue-pure :
    {A : Type 0} (r : Result (Unit {0}) × RaftNode) (a : A) → (continue r (λ _. pure a)).1 ≡ r.1
continue-pure (ok u, node) a = refl
continue-pure (err e, node) a = refl

pub continue_done :
    {A : Type 0} (p : Result (Unit {0}) × RaftNode) (a r : A) (after : RaftNode)
    → continue p (λ _. pure a) ≡ (ok r, after)
    → (p ≡ (ok tt, after)) × (a ≡ r)
continue_done (ok tt, node) a r after e = ground (arith, e)
continue_done (err x, node) a r after e = ground (arith, e)

keep_wal_done :
    (r : Result Wal) (node after : RaftNode) → keep_wal node r ≡ (ok tt, after) → r ≡ ok after.wal
unfolding keep_wal
keep_wal_done (ok wal) node after e = ground (arith, e)
keep_wal_done (err x) node after e = ground (arith, e)

pub persist_if_done :
    (b : Bool) (node after : RaftNode)
    → persist_if b node ≡ (ok tt, after)
    → ((b ≡ false) × (after ≡ node)) ⊎ (persisted node ≡ ok after.wal)
unfolding persist_if persist
persist_if_done true node after e = inr (keep_wal_done (persisted node) node after e)
persist_if_done false node after e = inl (refl, sym (ap (λ p. p.1) e))

pub persisted-cong :
    (a b : RaftNode)
    → a.current_term ≡ b.current_term
    → a.voted_for ≡ b.voted_for
    → a.log ≡ b.log
    → a.wal ≡ b.wal
    → persisted a ≡ persisted b
unfolding persisted
persisted-cong a b t v l w = rw (t, v, l, w) refl

pub term_cases : (a b : ℕ) → (a < b) ⊎ (b < a) ⊎ (a ≡ b)
term_cases a b = ground arith
