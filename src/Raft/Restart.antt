-- ===== src/Raft/Restart.antt =====
-- What `persist` of src/raft/state.rs has written, `open` finds again.
use Prim.Native.Nat.{bit_xor}
use nutdb.Prelude.{
  ℕ, ◌+◌, ◌%◌, ◌≡◌, refl, sym, ap, ◌∙◌, none, some, List, [], ◌∷◌, ◌++◌, arith, All, All-append,
}
use nutdb.Prelude.Io.{Result, ok, err, ◌>>=◌}
use nutdb.Bytes.{Bytes}
use nutdb.Wal
use nutdb.Wal.{Wal, Source, append, replay}
use nutdb.Wal.Replay.{log}
use nutdb.Wal.Recovery.{Fits}
use nutdb.Wal.Repair.{durable, replay-log_clean, log-append, log_one}
use nutdb.Raft.Persist.{PersistentState, default_state, encode, decode}
use nutdb.Raft.RoundTrip.{HasWidths, decode-encode_state}
use nutdb.Raft.Node.{RaftNode, Role, persisted}
use nutdb.Raft.Open.{last_state, node_wal, open_node, mix}

-- The state that `persist` writes.
abbrev pub state_of : RaftNode → PersistentState
state_of node = record {
  current_term = node.current_term;
  voted_for = node.voted_for;
  log = node.log;
}

last_state-append :
    (rs : List Bytes) (r : Bytes) (state old new : PersistentState)
    → last_state rs state ≡ ok old
    → decode r ≡ ok new
    → last_state (rs ++ r ∷ []) state ≡ ok new
unfolding last_state
last_state-append [] r state old new h e = rw e refl
last_state-append (x ∷ rs) r state old new h e =
    go (λ next k. last_state-append rs r next old new k e) (decode x) h
  where
    go :
        ((next : PersistentState)
          → last_state rs next ≡ ok old
          → last_state (rs ++ r ∷ []) next ≡ ok new)
        → (d : Result PersistentState) → (d >>= λ next. last_state rs next) ≡ ok old
        → (d >>= λ next. last_state (rs ++ r ∷ []) next) ≡ ok new
    go more (ok next) k = more next k
    go more (err y) k = ground (arith, k)

persisted_lem :
    (node : RaftNode) (wal : Wal)
    → persisted node ≡ ok wal
    → (payload : Bytes) × (encode (state_of node) ≡ ok payload)
      × Fits payload
      × (wal ≡ durable (node.wal.file ++ Wal.frame payload))
unfolding persisted append Wal.sync
persisted_lem node wal e = go (encode (state_of node)) e
  where
    go :
        (r : Result Bytes)
        → (r >>= λ payload. append payload node.wal >>= λ w. ok (Wal.sync w)) ≡ ok wal
        → (payload : Bytes) × (r ≡ ok payload)
          × Fits payload
          × (wal ≡ durable (node.wal.file ++ Wal.frame payload))
    go (ok payload) e =
        let both : Fits payload × (wal ≡ durable (node.wal.file ++ Wal.frame payload)) =
          ground (arith, e) in
        (payload, refl, both.0, both.1)
    go (err x) e = ground (arith, e)

-- A node after a restart: what is volatile is reset.
abbrev pub IsRestarted : RaftNode → Wal → RaftNode → Type 0
IsRestarted before wal after =
    (after.id ≡ before.id)
    × (after.current_term ≡ before.current_term)
    × (after.voted_for ≡ before.voted_for)
    × (after.log ≡ before.log)
    × (after.wal ≡ wal)
    × (after.commit_index ≡ 0)
    × (after.role ≡ Role.follower)

abbrev restarted : RaftNode → Wal → ℕ → RaftNode
restarted node wal seed = record node {
  wal = wal;
  commit_index = 0;
  last_applied = 0;
  role = Role.follower;
  leader_id = none;
  election_timeout_ms = 150 + mix (bit_xor seed node.id) % 151;
}

-- A node whose log file holds whole records that decode, and whose state `persist` has written,
-- opens again from that file with the same term, the same vote and the same log, as a follower
-- that has committed nothing yet.
pub persisted-IsRestarted :
    (src : Source) (node : RaftNode) (wal : Wal) (ps : List Bytes) (old : PersistentState)
    (seed : ℕ)
    → node.wal.file ≡ log ps
    → All Fits ps
    → last_state ps default_state ≡ ok old
    → HasWidths (state_of node)
    → persisted node ≡ ok wal
    → (after : RaftNode) × (open_node node.id src (some wal) seed ≡ ok after)
      × IsRestarted node wal after
unfolding open_node node_wal
persisted-IsRestarted src node wal ps old seed file fit readable widths e =
    let (payload, written, fits, kept) = persisted_lem node wal e in
    let all : All Fits (ps ++ payload ∷ []) = All-append Fits ps (payload ∷ []) fit (fits, tt) in
    let bytes : wal.file ≡ log (ps ++ payload ∷ []) =
      ap (λ (w : Wal). w.file) kept
      ∙ ap (λ f. f ++ Wal.frame payload) file
      ∙ ap (λ t. log ps ++ t) (sym (log_one payload))
      ∙ sym (log-append ps (payload ∷ [])) in
    let found =
      ap (λ f. replay src (some f)) bytes ∙ replay-log_clean src (ps ++ payload ∷ []) all in
    let state =
      last_state-append ps payload default_state old (state_of node) readable
        (decode-encode_state (state_of node) payload widths written) in
    rw (found, state) (restarted node wal seed, refl, (refl, refl, refl, refl, refl, refl, refl))
