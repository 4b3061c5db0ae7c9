-- ===== src/Raft/Open.antt =====
-- `RaftNode::open` of src/raft/state.rs: a node starts from the last record of its log file.
use Prim.Native.Nat.{bit_xor}
use nutdb.Prelude.{
  ℕ, ◌+◌, ◌*◌, ◌/◌, ◌%◌, ◌^◌, Bool, Option, none, some, List, [], ◌∷◌, if◌then◌else◌,
}
use mathlib.Core.Option
use nutdb.Prelude.Io.{Result, ok, ◌>>=◌}
use nutdb.Bytes.{Bytes}
use nutdb.Wal.{Wal, Source, replay, truncate_path}
use nutdb.Raft.Persist.{PersistentState, default_state, decode}
use nutdb.Raft.Node.{RaftNode, Role}

-- `value >> n` divides by 2 ^ n, and `wrapping_mul` keeps 64 bits.
unfoldable pub mix : ℕ → ℕ
mix value =
    let a = bit_xor value (value / 2 ^ 30) in
    let b = a * 0xbf58_476d_1ce4_e5b9 % 2 ^ 64 in
    let c = bit_xor b (b / 2 ^ 27) in
    let d = c * 0x94d0_49bb_1331_11eb % 2 ^ 64 in bit_xor d (d / 2 ^ 31)

unfoldable pub last_state : List Bytes → PersistentState → Result PersistentState
last_state [] state = ok state
last_state (r ∷ rs) state = decode r >>= λ next. last_state rs next

unfoldable pub node_wal : Bool → ℕ → Option Wal → Wal
node_wal truncated valid_bytes none = record { file = []; synced = 0 }
node_wal truncated valid_bytes (some wal) = if truncated then truncate_path valid_bytes wal else wal

unfoldable pub open_node : ℕ → Source → Option Wal → ℕ → Result RaftNode
open_node id src disk seed =
    let found = replay src (Option.map (λ (w : Wal). w.file) disk) in
    last_state found.records default_state >>= λ state. ok (record {
      id = id;
      wal = node_wal found.truncated found.valid_bytes disk;
      current_term = state.current_term;
      voted_for = state.voted_for;
      log = state.log;
      commit_index = 0;
      last_applied = 0;
      role = Role.follower;
      leader_id = none;
      election_timeout_ms = 150 + mix (bit_xor seed id) % 151;
    })
