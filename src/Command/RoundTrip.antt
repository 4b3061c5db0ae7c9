-- ===== src/Command/RoundTrip.antt =====
-- What `encode` of src/command.rs writes, `decode` reads back.
use nutdb.Prelude.{
  ℕ, ◌%◌, ◌^◌, ◌≤◌, ◌<◌, ◌≡◌, refl, true, [], ◌∷◌, ◌++◌, arith, length, length-append, append_assoc,
  append-nil, All, All-append,
}
use nutdb.Prelude.Io.{ok}
use nutdb.Bytes.{
  Bytes, to_le_bytes, length-to_le_bytes, from_le_bytes-to_le_bytes, Cursor, move, At, At-start,
  At-move, At-end, slice-At, get_elem?-At, Reads, Reads-bind, Reads-ok, is_utf8, from_utf8,
  is_utf8-IsByte, to_le_bytes-IsByte, IsByte,
}
use nutdb.Wal.{Wal, append}
use nutdb.Command.{
  Command, set, delete, checkpoint, push_bytes, encode, take_u8, take_u32, take_string, decode_body,
  decode,
}

-- Every `String` of the command is UTF-8.
abbrev pub IsText : Command → Type 0
IsText (set key value) = (is_utf8 key ≡ true) × (is_utf8 value ≡ true)
IsText (delete key) = is_utf8 key ≡ true
IsText checkpoint = Unit

take_u8-Reads :
    {total : ℕ} (c : Cursor) (b : ℕ) (rest : Bytes)
    → At total c (b ∷ rest)
    → Reads total (take_u8 c) b rest
unfolding take_u8
take_u8-Reads c b rest at = (move 1 c, rw (get_elem?-At c at), At-move c 1 (b ∷ []) rest refl at)

take_u32-Reads :
    {total : ℕ} (c : Cursor) (n : ℕ) (rest : Bytes)
    → n < 2 ^ 32
    → At total c (to_le_bytes 4 n ++ rest)
    → Reads total (take_u32 c) n rest
unfolding take_u32
take_u32-Reads c n rest fits at = (
  move 4 c,
  rw (
    slice-At c 4 (to_le_bytes 4 n) rest (length-to_le_bytes 4 n) at,
    from_le_bytes-to_le_bytes 4 n fits,
  ),
  At-move c 4 (to_le_bytes 4 n) rest (length-to_le_bytes 4 n) at,
)

take_string-Reads :
    {total : ℕ} (c : Cursor) (s rest : Bytes)
    → length s < 2 ^ 32
    → is_utf8 s ≡ true
    → At total c (push_bytes s ++ rest)
    → Reads total (take_string c) s rest
unfolding take_string from_utf8 push_bytes
take_string-Reads {total} c s rest fits text at =
    let at' : At total c (to_le_bytes 4 (length s % 2 ^ 32) ++ (s ++ rest)) =
      rw (← append_assoc) at in
    let len : length s ≡ length s % 2 ^ 32 = omega arith in
    Reads-bind (take_u32 c) _ (take_u32-Reads c (length s % 2 ^ 32) (s ++ rest) (omega arith) at')
      λ d at'. (
        move (length s % 2 ^ 32) d,
        rw (slice-At d _ s rest len at', text),
        At-move d _ s rest len at',
      )

-- Every `String` of the command fits its 32-bit length field.
abbrev pub HasLengths : Command → Type 0
HasLengths (set key value) = (length key < 2 ^ 32) × (length value < 2 ^ 32)
HasLengths (delete key) = length key < 2 ^ 32
HasLengths checkpoint = Unit

set-Reads :
    {total : ℕ} (c : Cursor) (key value : Bytes)
    → IsText (set key value)
    → HasLengths (set key value)
    → At total c (push_bytes key ++ push_bytes value)
    → Reads total (decode_body 1 c) (set key value) []
unfolding decode_body
set-Reads c key value (tk, tv) (lk, lv) at =
    Reads-bind _ _ (take_string-Reads c key (push_bytes value) lk tk at) λ d at'.
      Reads-bind _ _ (take_string-Reads d value [] lv tv (rw (append-nil (push_bytes value)) at'))
        λ e end. Reads-ok (set key value) end

delete-Reads :
    {total : ℕ} (c : Cursor) (key : Bytes)
    → is_utf8 key ≡ true
    → length key < 2 ^ 32
    → At total c (push_bytes key)
    → Reads total (decode_body 2 c) (delete key) []
unfolding decode_body
delete-Reads c key text len at =
    Reads-bind _ _ (take_string-Reads c key [] len text (rw (append-nil (push_bytes key)) at))
      λ e end. Reads-ok (delete key) end

-- Reading the tag and then the body to the end of the bytes is decoding.
decode-Reads :
    (tag : ℕ) (body : Bytes) (cmd : Command)
    → ((c : Cursor)
        → At (length (tag ∷ body)) c body
        → Reads (length (tag ∷ body)) (decode_body tag c) cmd [])
    → decode (tag ∷ body) ≡ ok cmd
unfolding decode
decode-Reads tag body cmd k =
    let (c, e, at) = take_u8-Reads _ tag body (At-start (tag ∷ body)) in
    let (d, e', end) = k c at in rw (e, e') (ground (arith, At-end d end))

pub decode-encode_short :
    (cmd : Command) → IsText cmd → HasLengths cmd → decode (encode cmd) ≡ ok cmd
unfolding encode
decode-encode_short (set key value) t l = decode-Reads 1 _ _ λ c at. set-Reads c key value t l at
decode-encode_short (delete key) t l = decode-Reads 2 _ _ λ c at. delete-Reads c key t l at
decode-encode_short checkpoint t l =
    decode-Reads 3 [] _ λ c at. unfold decode_body in Reads-ok checkpoint at

appended_fits :
    (bytes : Bytes) (wal wal' : Wal) → append bytes wal ≡ ok wal' → length bytes < 2 ^ 32
unfolding append
appended_fits bytes wal wal' e = ground arith

length-push_bytes : (s : Bytes) → length s ≤ length (push_bytes s)
unfolding push_bytes
length-push_bytes s = omega (arith, length-append (to_le_bytes 4 (length s % 2 ^ 32)) s)

pub encode-HasLengths : (cmd : Command) → length (encode cmd) < 2 ^ 32 → HasLengths cmd
unfolding encode
encode-HasLengths (set key value) h =
    let sum = length-append (push_bytes key) (push_bytes value) in
    (
      omega (arith, sum, length-push_bytes key, length-push_bytes value),
      omega (arith, sum, length-push_bytes key, length-push_bytes value),
    )
encode-HasLengths (delete key) h = omega (arith, length-push_bytes key)
encode-HasLengths checkpoint h = tt

-- Every command of UTF-8 strings that the log accepts is read back as it was: its lengths fit
-- their fields, although `push_bytes` does not check them, since the log refuses longer records.
pub decode-encode :
    (cmd : Command) (wal wal' : Wal)
    → IsText cmd
    → append (encode cmd) wal ≡ ok wal'
    → decode (encode cmd) ≡ ok cmd
decode-encode cmd wal wal' text e =
    decode-encode_short cmd text (encode-HasLengths cmd (appended_fits (encode cmd) wal wal' e))

push_bytes-IsByte : (s : Bytes) → is_utf8 s ≡ true → All IsByte (push_bytes s)
unfolding push_bytes
push_bytes-IsByte s text =
    All-append IsByte _ s (to_le_bytes-IsByte 4 (length s % 2 ^ 32)) (is_utf8-IsByte s text)

-- An encoded command of UTF-8 strings is made of bytes.
pub encode-IsByte : (cmd : Command) → IsText cmd → All IsByte (encode cmd)
unfolding encode
encode-IsByte (set key value) (k, v) =
    (omega arith, All-append IsByte _ _ (push_bytes-IsByte key k) (push_bytes-IsByte value v))
encode-IsByte (delete key) k = (omega arith, push_bytes-IsByte key k)
encode-IsByte checkpoint _ = omega arith
