-- ===== src/Txn/Codec.antt =====
-- `TxnRecord` of src/txn.rs, its encoding and its decoder.
use nutdb.Prelude.{
  ℕ, ◌^◌, Option, none, some, ◌∷◌, ◌++◌, ltb, ◌==◌, if◌then◌else◌, length, get_elem?, String,
}
use nutdb.Prelude.Io.{Result, ok, invalid, input, ◌>>=◌}
use nutdb.Bytes.{Bytes, to_le_bytes, from_le_bytes, Cursor, slice, move, from_utf8}

pub data TxnRecord : Type 0 where
  begin : ℕ → ℕ → TxnRecord
  set : ℕ → Bytes → Bytes → TxnRecord
  delete : ℕ → Bytes → TxnRecord
  commit : ℕ → ℕ → TxnRecord
  abort : ℕ → TxnRecord

unfoldable pub put_u64 : ℕ → Bytes
put_u64 value = to_le_bytes 8 value

unfoldable pub put_string : Bytes → Result Bytes
put_string value =
    if ltb (length value) (2 ^ 32)
    then ok (to_le_bytes 4 (length value) ++ value)
    else input "mvcc: string too large"

unfoldable pub encode : TxnRecord → Result Bytes
encode (begin txn snapshot) = ok (0x10 ∷ (put_u64 txn ++ put_u64 snapshot))
encode (set txn key value) = do
  k ← put_string key
  v ← put_string value
  ok (0x11 ∷ (put_u64 txn ++ (k ++ v)))
encode (delete txn key) = do k ← put_string key; ok (0x12 ∷ (put_u64 txn ++ k))
encode (commit txn commit_ts) = ok (0x13 ∷ (put_u64 txn ++ put_u64 commit_ts))
encode (abort txn) = ok (0x14 ∷ put_u64 txn)

or_short {ℓ} : {A : Type ℓ} → String → Option A → Result A
or_short message none = invalid message
or_short message (some a) = ok a

unfoldable pub read_u8 : Cursor → Result (ℕ × Cursor)
unfolding or_short
read_u8 c = do
  value ← or_short "mvcc: short record" (get_elem? c.bytes c.offset)
  ok (value, move 1 c)

unfoldable pub read_u64 : Cursor → Result (ℕ × Cursor)
unfolding or_short
read_u64 c = do bytes ← or_short "mvcc: short u64" (slice 8 c); ok (from_le_bytes bytes, move 8 c)

unfoldable pub read_string : Cursor → Result (Bytes × Cursor)
unfolding or_short
read_string c = do
  bytes ← or_short "mvcc: short string length" (slice 4 c)
  let len = from_le_bytes bytes
  text ← or_short "mvcc: string exceeds record" (slice len (move 4 c))
  value ← from_utf8 "mvcc: string is not UTF-8" text
  ok (value, move len (move 4 c))

unfoldable pub decode_body : ℕ → ℕ → Cursor → Result (TxnRecord × Cursor)
decode_body tag txn c =
    if tag == 0x10
    then (do (snapshot, c) ← read_u64 c; ok (begin txn snapshot, c))
    else if tag == 0x11
    then (do (key, c) ← read_string c; (value, c) ← read_string c; ok (set txn key value, c))
    else if tag == 0x12
    then (do (key, c) ← read_string c; ok (delete txn key, c))
    else if tag == 0x13
    then (do (commit_ts, c) ← read_u64 c; ok (commit txn commit_ts, c))
    else if tag == 0x14
    then ok (abort txn, c)
    else invalid "mvcc: unknown record tag"

unfoldable pub decode : Bytes → Result TxnRecord
decode bytes = do
  (tag, c) ← read_u8 (record { bytes = bytes; offset = 0 })
  (txn, c) ← read_u64 c
  (r, c) ← decode_body tag txn c
  if c.offset == length bytes then ok r else invalid "mvcc: trailing record bytes"
