-- ===== src/Raft/Persist.antt =====
-- `PersistentState` of src/raft/state.rs, its encoding and its decoder.
use nutdb.Prelude.{
  ℕ, zero, suc, ◌^◌, Option, none, some, List, [], ◌∷◌, ◌++◌, ltb, ◌==◌, if◌then◌else◌, length,
}
use nutdb.Prelude.Io.{Result, ok, invalid, ◌>>=◌}
use nutdb.Bytes.{Bytes, to_le_bytes, from_le_bytes, Cursor, slice, move}
use nutdb.Raft.Rpc.{Entry}

pub record PersistentState : Type 0 where
  pub current_term : ℕ
  pub voted_for : Option ℕ
  pub log : List Entry

abbrev pub default_state : PersistentState
default_state = record { current_term = 0; voted_for = none; log = [] }

unfoldable pub encode_vote : Option ℕ → Bytes
encode_vote (some node) = 1 ∷ to_le_bytes 8 node
encode_vote none = 0 ∷ to_le_bytes 8 0

unfoldable pub encode_log : List Entry → Result Bytes
encode_log [] = ok []
encode_log (entry ∷ log) =
    let rest = encode_log log in
    if ltb (length entry.command) (2 ^ 32)
    then (do
      bytes ← rest
      ok (
          to_le_bytes 8 entry.term
          ++ (to_le_bytes 4 (length entry.command) ++ (entry.command ++ bytes))))
    else invalid "raft: command too large"

unfoldable pub encode : PersistentState → Result Bytes
encode state =
    if ltb (length state.log) (2 ^ 32)
    then (do
      bytes ← encode_log state.log
      ok (
          0x52
          ∷ 1
          ∷ (to_le_bytes 8 state.current_term
              ++ (encode_vote state.voted_for ++ (to_le_bytes 4 (length state.log) ++ bytes)))))
    else invalid "raft: log too large to encode"

-- `Cursor::take`: the bytes that the offset moves over.
unfoldable pub take_bytes : ℕ → Cursor → Result (Bytes × Cursor)
take_bytes len c = elim (slice len c) [
  | none ↦ invalid "raft: state length exceeds record"
  | some bytes ↦ ok (bytes, move len c)
]

-- `u8`, `u32` and `u64` of the cursor, by their width in bytes.
unfoldable pub take_uint : ℕ → Cursor → Result (ℕ × Cursor)
take_uint width c = do (bytes, c) ← take_bytes width c; ok (from_le_bytes bytes, c)

unfoldable pub decode_vote : ℕ → ℕ → Result (Option ℕ)
decode_vote has_vote vote =
    if has_vote == 0
    then ok none
    else if has_vote == 1
    then ok (some vote)
    else invalid "raft: invalid vote flag"

unfoldable pub decode_entry : Cursor → Result (Entry × Cursor)
decode_entry c = do
  (term, c) ← take_uint 8 c
  (len, c) ← take_uint 4 c
  (command, c) ← take_bytes len c
  ok (record { term = term; command = command }, c)

-- `for _ in 0..count`
unfoldable pub decode_log : ℕ → Cursor → Result (List Entry × Cursor)
decode_log zero c = ok ([], c)
decode_log (suc count) c = do
  (entry, c) ← decode_entry c
  (log, c) ← decode_log count c
  ok (entry ∷ log, c)

unfoldable pub decode_version : Cursor → Result (Unit {0} × Cursor)
decode_version c = do
  (version, c) ← take_uint 1 c
  if version == 1 then ok (tt, c) else invalid "raft: bad persistent state header"

-- The header: the second byte is read only if the first is the tag.
unfoldable pub decode_header : Cursor → Result (Unit {0} × Cursor)
decode_header c = do
  (tag, c) ← take_uint 1 c
  if tag == 0x52 then decode_version c else invalid "raft: bad persistent state header"

unfoldable pub decode_fields : Cursor → Result (PersistentState × Cursor)
decode_fields c = do
  (_, c) ← decode_header c
  (current_term, c) ← take_uint 8 c
  (has_vote, c) ← take_uint 1 c
  (vote, c) ← take_uint 8 c
  voted_for ← decode_vote has_vote vote
  (count, c) ← take_uint 4 c
  (log, c) ← decode_log count c
  ok (record { current_term = current_term; voted_for = voted_for; log = log }, c)

unfoldable pub decode : Bytes → Result PersistentState
decode bytes = do
  (state, c) ← decode_fields (record { bytes = bytes; offset = 0 })
  if c.offset == length bytes then ok state else invalid "raft: trailing persistent state bytes"
