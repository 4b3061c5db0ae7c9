-- ===== src/Sql/Lexer.antt =====
-- src/sql/lexer.rs. The source text is its UTF-8 bytes; where the code keeps an offset into them,
-- the model keeps the bytes from the offset on, `rest`.
pub mod Tokens
pub mod Positions
pub mod Literals
use nutdb.Prelude.{
  ℕ, zero, suc, ◌+◌, ◌*◌, ◌-◌, Bool, true, false, ◌&&◌, ◌||◌, Option, none, some, List, [], ◌∷◌,
  ◌++◌, leb, ltb, ◌==◌, if◌then◌else◌, length, map, String,
}
use nutdb.Prelude.Io.{Result, ok, err, input, ◌>>=◌}
use nutdb.Prelude.Int.{ℤ, pos, negsuc, i64_end}
use nutdb.Bytes.{Bytes}

pub data TokenKind : Type 0 where
  word : Bytes → TokenKind
  integer : ℤ → TokenKind
  string : Bytes → TokenKind
  comma left_paren right_paren star semicolon eq ne lt le gt ge end : TokenKind

pub record Token : Type 0 where
  pub kind : TokenKind
  pub pos : ℕ

-- The position is in the text of the error, of which the fixed part is kept.
unfoldable pub error {ℓ} : {A : Type ℓ} → ℕ → String → Result A
error position message = input message

unfoldable pub is_ascii_whitespace : ℕ → Bool
is_ascii_whitespace byte = byte == 32 || byte == 9 || byte == 10 || byte == 12 || byte == 13

unfoldable pub is_ascii_digit : ℕ → Bool
is_ascii_digit byte = leb 48 byte && leb byte 57

unfoldable pub is_ascii_alphabetic : ℕ → Bool
is_ascii_alphabetic byte = leb 65 byte && leb byte 90 || leb 97 byte && leb byte 122

unfoldable pub is_word_byte : ℕ → Bool
is_word_byte byte = is_ascii_alphabetic byte || is_ascii_digit byte || byte == 95

unfoldable pub to_ascii_uppercase : ℕ → ℕ
to_ascii_uppercase byte = if leb 97 byte && leb byte 122 then byte - 32 else byte

-- The bytes that a `while` loop passes, and those after them.
unfoldable pub span : (ℕ → Bool) → Bytes → Bytes × Bytes
span test [] = ([], [])
span test (byte ∷ rest) =
    let (front, back) = span test rest in
    if test byte then (byte ∷ front, back) else ([], byte ∷ rest)

-- The loop over a string literal, after its first quote; `quote` says that a quote has just been
-- read, which ends the literal if no other follows. A character is pushed byte by byte: the bytes
-- of a character after its first are no quotes.
unfoldable pub read_string : ℕ → Bool → Bytes → Result (Bytes × Bytes)
read_string position false [] = error position "unterminated string literal"
read_string position true [] = ok ([], [])
read_string position false (byte ∷ rest) =
    let more = read_string position (byte == 39) rest in
    if byte == 39 then more else (more >>= λ (value, back). ok (byte ∷ value, back))
read_string position true (byte ∷ rest) =
    let more = read_string position false rest in
    if byte == 39 then (more >>= λ (value, back). ok (39 ∷ value, back)) else ok ([], byte ∷ rest)

-- The digits of a number, highest first, after those of `value`.
unfoldable pub decimal : ℕ → Bytes → ℕ
decimal value [] = value
decimal value (byte ∷ bytes) = decimal (value * 10 + (byte - 48)) bytes

-- `str::parse::<i64>` on digits, and on digits after a minus sign; `none` is out of range.
unfoldable pub parse_i64 : Bool → Bytes → Option ℤ
parse_i64 false digits =
    let value = decimal 0 digits in if ltb value i64_end then some (pos value) else none
parse_i64 true digits =
    let value = decimal 0 digits in
    if leb value i64_end then some (if value == 0 then pos 0 else negsuc (value - 1)) else none

unfoldable pub lex_digits : ℕ → Bool → Bytes → Result (TokenKind × Bytes)
lex_digits position minus rest =
    let (digits, back) = span is_ascii_digit rest in
    elim (parse_i64 minus digits) [
      | none ↦ error position "integer literal out of range"
      | some value ↦ ok (integer value, back)
    ]

-- What follows a minus sign.
unfoldable pub lex_minus : ℕ → Bytes → Result (TokenKind × Bytes)
lex_minus position [] = error position "expected digits after '-'"
lex_minus position (byte ∷ rest) =
    if is_ascii_digit byte
    then lex_digits position true (byte ∷ rest)
    else error position "expected digits after '-'"

-- `bytes.get(offset + 1) == Some(&b'=')`
unfoldable pub before_equals : Bytes → Option Bytes
before_equals [] = none
before_equals (byte ∷ rest) = if byte == 61 then some rest else none

-- A comparison that may go on with `=`.
unfoldable pub lex_comparison : ℕ → Bytes → Option (TokenKind × Bytes)
lex_comparison byte rest = elim (before_equals rest) [
  | some back ↦
      if byte == 33
      then some (ne, back)
      else if byte == 60
      then some (le, back)
      else if byte == 62
      then some (ge, back)
      else none
  | none ↦ if byte == 60 then some (lt, rest) else if byte == 62 then some (gt, rest) else none
]

unfoldable pub punctuation : ℕ → Option TokenKind
punctuation byte =
    if byte == 44
    then some comma
    else if byte == 40
    then some left_paren
    else if byte == 41
    then some right_paren
    else if byte == 42
    then some star
    else if byte == 59
    then some semicolon
    else if byte == 61
    then some eq
    else none

unfoldable pub lex_other : ℕ → ℕ → Bytes → Result (TokenKind × Bytes)
lex_other position byte rest =
    if byte == 39
    then (read_string position false rest >>= λ (value, back). ok (string value, back))
    else if byte == 45
    then lex_minus position rest
    else if is_ascii_digit byte
    then lex_digits position false (byte ∷ rest)
    else if is_ascii_alphabetic byte || byte == 95
    then (let (letters, back) = span is_word_byte rest in
        ok (word (map to_ascii_uppercase (byte ∷ letters)), back))
    else error position "unexpected character"

-- The `match` on the first byte of a token.
unfoldable pub lex_token : ℕ → ℕ → Bytes → Result (TokenKind × Bytes)
lex_token position byte rest = elim (punctuation byte) [
  | some kind ↦ ok (kind, rest)
  | none ↦ elim (lex_comparison byte rest) [
    | some token ↦ ok token
    | none ↦ lex_other position byte rest
  ]
]

-- One round of the loop of `lex`: white space gives no token.
unfoldable pub lex_round : ℕ → ℕ → Bytes → Result (Option Token × Bytes)
lex_round position byte rest =
    if is_ascii_whitespace byte
    then ok (none, rest)
    else (lex_token position byte rest >>= λ (kind, back).
        ok (some (record { kind = kind; pos = position }), back))

unfoldable pub push : Option Token → List Token → List Token
push none tokens = tokens
push (some token) tokens = token ∷ tokens

-- The loop, on a source of `total` bytes; `none` is out of fuel.
unfoldable pub lex_loop : ℕ → ℕ → Bytes → Option (Result (List Token))
lex_loop zero total rest = none
lex_loop (suc fuel) total [] = some (ok (record { kind = end; pos = total } ∷ []))
lex_loop (suc fuel) total (byte ∷ rest) = elim (lex_round (total - suc (length rest)) byte rest) [
  | err e ↦ some (err e)
  | ok (token, back) ↦ elim (lex_loop fuel total back) [
    | none ↦ none
    | some more ↦ some (more >>= λ tokens. ok (push token tokens))
  ]
]

-- Each round takes a byte, so one round more than there are bytes is enough.
unfoldable pub lex : Bytes → Option (Result (List Token))
lex source = lex_loop (suc (length source)) (length source) source
