-- ===== src/Command.antt =====
-- src/command.rs: the mutations written to the log, their encoding and its decoder. A `String`
-- is its UTF-8 bytes.
pub mod RoundTrip
pub mod Examples
use nutdb.Prelude.{
  ℕ, ◌+◌, ◌%◌, ◌^◌, ◌≡◌, Option, none, some, List, [], ◌∷◌, ◌++◌, ◌==◌, if◌then◌else◌, length,
  get_elem?, String,
}
use nutdb.Prelude.Io.{Result, ok, invalid, ◌>>=◌}
use nutdb.Bytes.{Bytes, to_le_bytes, from_le_bytes, Cursor, slice, move, is_utf8, from_utf8}

abbrev pub tag_set : ℕ
tag_set = 0x01

abbrev pub tag_delete : ℕ
tag_delete = 0x02

abbrev pub tag_checkpoint : ℕ
tag_checkpoint = 0x03

pub data Command : Type 0 where
  set : Bytes → Bytes → Command
  delete : Bytes → Command
  checkpoint : Command

-- `bytes.len() as u32` wraps.
unfoldable pub push_bytes : Bytes → Bytes
push_bytes bytes = to_le_bytes 4 (length bytes % 2 ^ 32) ++ bytes

unfoldable pub encode : Command → Bytes
encode (set key value) = tag_set ∷ (push_bytes key ++ push_bytes value)
encode (delete key) = tag_delete ∷ push_bytes key
encode checkpoint = tag_checkpoint ∷ []

or_end {ℓ} : {A : Type ℓ} → String → Option A → Result A
or_end message none = invalid message
or_end message (some a) = ok a

unfoldable pub take_u8 : Cursor → Result (ℕ × Cursor)
unfolding or_end
take_u8 c = do
  byte ← or_end "unexpected end of command" (get_elem? c.bytes c.offset)
  ok (byte, move 1 c)

unfoldable pub take_u32 : Cursor → Result (ℕ × Cursor)
unfolding or_end
take_u32 c = do
  bytes ← or_end "unexpected end of command" (slice 4 c)
  ok (from_le_bytes bytes, move 4 c)

unfoldable pub take_string : Cursor → Result (Bytes × Cursor)
unfolding or_end
take_string c = do
  (len, c) ← take_u32 c
  bytes ← or_end "command length exceeds record" (slice len c)
  text ← from_utf8 "key or value is not valid UTF-8" bytes
  ok (text, move len c)

unfoldable pub decode_body : ℕ → Cursor → Result (Command × Cursor)
decode_body tag c =
    if tag == tag_set
    then (do (key, c) ← take_string c; (value, c) ← take_string c; ok (set key value, c))
    else if tag == tag_delete
    then (do (key, c) ← take_string c; ok (delete key, c))
    else if tag == tag_checkpoint
    then ok (checkpoint, c)
    else invalid "unknown command tag"

unfoldable pub decode : Bytes → Result Command
decode bytes = do
  (tag, c) ← take_u8 (record { bytes = bytes; offset = 0 })
  (command, c) ← decode_body tag c
  if c.offset == length bytes then ok command else invalid "trailing bytes after command"
