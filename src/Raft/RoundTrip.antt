-- ===== src/Raft/RoundTrip.antt =====
-- What `PersistentState::encode` of src/raft/state.rs writes, `decode` reads back.
use nutdb.Prelude.{
  ℕ, ◌^◌, ◌<◌, ◌≡◌, refl, sym, Option, none, some, List, [], ◌∷◌, ◌++◌, arith, ltb, if◌then◌else◌,
  length, All,
}
use mathlib.Core.Path.{subst}
use nutdb.Prelude.Io.{Result, ok, err, invalid, ◌>>=◌}
use nutdb.Bytes.{
  Bytes, to_le_bytes, length-to_le_bytes, from_le_bytes-to_le_bytes, Cursor, move, At, At-start,
  At-move, At-end, slice-At, Reads, Reads-bind, Reads-ok,
}
use nutdb.Raft.Rpc.{Entry}
use nutdb.Raft.Persist.{
  PersistentState, encode_vote, encode_log, encode, take_bytes, take_uint, decode_vote,
  decode_entry, decode_log, decode_version, decode_header, decode_fields, decode,
}

take_bytes-Reads :
    {total : ℕ} (c : Cursor) (len : ℕ) (s rest : Bytes)
    → length s ≡ len
    → At total c (s ++ rest)
    → Reads total (take_bytes len c) s rest
unfolding take_bytes
take_bytes-Reads c len s rest e at =
    (move len c, rw (take_bytes, slice-At c len s rest e at) refl, At-move c len s rest e at)

take_uint-Reads :
    {total : ℕ} (c : Cursor) (width n : ℕ) (rest : Bytes)
    → n < 256 ^ width
    → At total c (to_le_bytes width n ++ rest)
    → Reads total (take_uint width c) n rest
unfolding take_uint
take_uint-Reads {total} c width n rest fits at =
    Reads-bind (take_bytes width c) _
      (take_bytes-Reads c width (to_le_bytes width n) rest (length-to_le_bytes width n) at)
      λ d end. (d, rw (from_le_bytes-to_le_bytes width n fits) refl, end)

decode_entry-Reads :
    {total : ℕ} (c : Cursor) (e : Entry) (rest : Bytes)
    → e.term < 2 ^ 64
    → length e.command < 2 ^ 32
    → At total c (to_le_bytes 8 e.term ++ (to_le_bytes 4 (length e.command) ++ (e.command ++ rest)))
    → Reads total (decode_entry c) e rest
unfolding decode_entry
decode_entry-Reads c e rest term len at =
    Reads-bind _ _ (take_uint-Reads c 8 e.term _ term at) λ d at.
      Reads-bind _ _ (take_uint-Reads d 4 (length e.command) _ len at) λ d at.
        Reads-bind _ _ (take_bytes-Reads d (length e.command) e.command rest refl at)
          λ d at. Reads-ok e at

-- The terms of the log fit their fields.
abbrev pub HasTerms : List Entry → Type 0
HasTerms log = All (λ (e : Entry). e.term < 2 ^ 64) log

ok-injective : (a b : Bytes) → ok a ≡ ok b → a ≡ b
ok-injective a b e = cc

encoded_cons :
    (e : Entry) (log : List Entry) (bytes : Bytes)
    → encode_log (e ∷ log) ≡ ok bytes
    → (rest : Bytes) × (encode_log log ≡ ok rest)
      × (length e.command < 2 ^ 32)
      × (bytes ≡ to_le_bytes 8 e.term ++ (to_le_bytes 4 (length e.command) ++ (e.command ++ rest)))
unfolding encode_log
encoded_cons e log bytes h = go (encode_log log) h
  where
    go :
        (r : Result Bytes)
        → (if ltb (length e.command) (2 ^ 32)
            then (r >>= λ b.
                ok (to_le_bytes 8 e.term ++ (to_le_bytes 4 (length e.command) ++ (e.command ++ b))))
            else invalid "raft: command too large")
          ≡ ok bytes
        → (rest : Bytes) × (r ≡ ok rest)
          × (length e.command < 2 ^ 32)
          × (bytes
              ≡ to_le_bytes 8 e.term ++ (to_le_bytes 4 (length e.command) ++ (e.command ++ rest)))
    go (ok b) h =
        let both : (length e.command < 2 ^ 32)
            × (bytes
                ≡ to_le_bytes 8 e.term ++ (to_le_bytes 4 (length e.command) ++ (e.command ++ b))) =
          ground (arith, h) in
        (b, refl, both.0, both.1)
    go (err x) h = ground (arith, h)

decode_log-Reads :
    {total : ℕ} (c : Cursor) (log : List Entry) (bytes : Bytes)
    → HasTerms log
    → encode_log log ≡ ok bytes
    → At total c bytes
    → Reads total (decode_log (length log) c) log []
unfolding decode_log encode_log
decode_log-Reads {total} c [] bytes terms h at =
    Reads-ok [] (subst (At total c) (sym (ok-injective [] bytes h)) at)
decode_log-Reads c (e ∷ log) bytes terms h at =
    let (rest, more, len, split) = encoded_cons e log bytes h in
    Reads-bind _ _ (decode_entry-Reads c e rest terms.0 len (rw (← split) at)) λ d at.
      Reads-bind _ _ (decode_log-Reads d log rest terms.1 more at) λ d at. Reads-ok (e ∷ log) at

-- The numbers of the state fit their fields.
abbrev pub HasWidths : PersistentState → Type 0
HasWidths state =
    (state.current_term < 2 ^ 64)
    × ((vote : ℕ) → state.voted_for ≡ some vote → vote < 2 ^ 64)
    × HasTerms state.log

-- The vote as its two fields.
vote_flag : Option ℕ → ℕ
vote_flag none = 0
vote_flag (some vote) = 1

vote_value : Option ℕ → ℕ
vote_value none = 0
vote_value (some vote) = vote

encode_vote_lem :
    (v : Option ℕ) (rest : Bytes)
    → encode_vote v ++ rest ≡ to_le_bytes 1 (vote_flag v) ++ (to_le_bytes 8 (vote_value v) ++ rest)
unfolding encode_vote vote_flag vote_value
encode_vote_lem none rest = unfold to_le_bytes in refl
encode_vote_lem (some vote) rest = unfold to_le_bytes in refl

decode_vote_lem : (v : Option ℕ) → decode_vote (vote_flag v) (vote_value v) ≡ ok v
unfolding decode_vote vote_flag vote_value
decode_vote_lem none = refl
decode_vote_lem (some vote) = refl

vote_flag-lt : (v : Option ℕ) → vote_flag v < 256
unfolding vote_flag
vote_flag-lt none = omega arith
vote_flag-lt (some vote) = omega arith

vote_value-lt :
    (v : Option ℕ) → ((vote : ℕ) → v ≡ some vote → vote < 2 ^ 64) → vote_value v < 2 ^ 64
unfolding vote_value
vote_value-lt none h = omega arith
vote_value-lt (some vote) h = h vote refl

encoded :
    (state : PersistentState) (bytes : Bytes)
    → encode state ≡ ok bytes
    → (rest : Bytes) × (encode_log state.log ≡ ok rest)
      × (length state.log < 2 ^ 32)
      × (bytes
          ≡ 0x52
            ∷ 1
            ∷ (to_le_bytes 8 state.current_term
                ++ (encode_vote state.voted_for ++ (to_le_bytes 4 (length state.log) ++ rest))))
unfolding encode
encoded state bytes h = go (encode_log state.log) h
  where
    go :
        (r : Result Bytes)
        → (if ltb (length state.log) (2 ^ 32)
            then (r >>= λ rest. ok (
                0x52
                ∷ 1
                ∷ (to_le_bytes 8 state.current_term
                    ++ (encode_vote state.voted_for
                        ++ (to_le_bytes 4 (length state.log) ++ rest)))))
            else invalid "raft: log too large to encode")
          ≡ ok bytes
        → (rest : Bytes) × (r ≡ ok rest)
          × (length state.log < 2 ^ 32)
          × (bytes
              ≡ 0x52
                ∷ 1
                ∷ (to_le_bytes 8 state.current_term
                    ++ (encode_vote state.voted_for ++ (to_le_bytes 4 (length state.log) ++ rest))))
    go (ok rest) h =
        let both : (length state.log < 2 ^ 32)
            × (bytes
                ≡ 0x52
                  ∷ 1
                  ∷ (to_le_bytes 8 state.current_term
                      ++ (encode_vote state.voted_for
                          ++ (to_le_bytes 4 (length state.log) ++ rest)))) =
          ground (arith, h) in
        (rest, refl, both.0, both.1)
    go (err x) h = ground (arith, h)

decode_header-Reads :
    {total : ℕ} (c : Cursor) (rest : Bytes)
    → At total c (0x52 ∷ 1 ∷ rest)
    → Reads total (decode_header c) tt rest
unfolding decode_header decode_version
decode_header-Reads c rest at =
    Reads-bind _ _ (take_uint-Reads c 1 0x52 (1 ∷ rest) (omega arith) (unfold to_le_bytes in at))
      λ d at.
        Reads-bind _ _ (take_uint-Reads d 1 1 rest (omega arith) (unfold to_le_bytes in at))
          λ d at. Reads-ok tt at

decode_fields-Reads :
    {total : ℕ} (c : Cursor) (state : PersistentState) (rest : Bytes)
    → HasWidths state
    → length state.log < 2 ^ 32
    → encode_log state.log ≡ ok rest
    → At total c (
        0x52
        ∷ 1
        ∷ (to_le_bytes 8 state.current_term
            ++ (encode_vote state.voted_for ++ (to_le_bytes 4 (length state.log) ++ rest))))
    → Reads total (decode_fields c) state []
unfolding decode_fields
decode_fields-Reads c state rest (term, vote, terms) len log at =
    Reads-bind _ _ (decode_header-Reads c _ at) λ d at.
      Reads-bind _ _ (take_uint-Reads d 8 state.current_term _ term at) λ d at.
        Reads-bind _ _
          (take_uint-Reads d 1 (vote_flag state.voted_for) _ (vote_flag-lt state.voted_for)
            (subst (At _ d) (encode_vote_lem state.voted_for _) at))
          λ d at.
            Reads-bind _ _
              (take_uint-Reads d 8 (vote_value state.voted_for) _
                (vote_value-lt state.voted_for vote) at)
              λ d at. rw (decode_vote_lem state.voted_for) (
                Reads-bind _ _ (take_uint-Reads d 4 (length state.log) rest len at) λ d at.
                  Reads-bind _ _ (decode_log-Reads d state.log rest terms log at)
                    λ d at. Reads-ok state at)

-- Every state that `encode` accepts, with numbers that fit 64 bits, is read back as it was.
pub decode-encode_state :
    (state : PersistentState) (bytes : Bytes)
    → HasWidths state
    → encode state ≡ ok bytes
    → decode bytes ≡ ok state
unfolding decode
decode-encode_state state bytes (term, vote, terms) h =
    let (rest, log, len, split) = encoded state bytes h in
    let (c, e, end) =
      decode_fields-Reads (record { bytes = bytes; offset = 0 }) state rest (term, vote, terms) len
        log
        (subst (At (length bytes) (record { bytes = bytes; offset = 0 })) split (At-start bytes)) in
    rw e (ground (arith, At-end c end))
