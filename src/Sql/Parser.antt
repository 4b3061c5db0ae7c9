-- ===== src/Sql/Parser.antt =====
-- The `Parser` of src/sql/parser.rs: its tokens and how they are taken. Where the code keeps an
-- offset into the tokens, the model keeps the tokens from the offset on.
pub mod Exprs
pub mod Statements
pub mod Uses
pub mod Steps
pub mod Nested
pub mod Ends
pub mod Total
use nutdb.Prelude.{
  ℕ, zero, suc, ◌+◌, Bool, true, false, not, Option, none, some, List, [], ◌∷◌, ◌==◌, if◌then◌else◌,
  length, String,
}
use Prim.Native.Nat.{Ordering}
use nutdb.Prelude.Io.{Result, ok, err}
use nutdb.Prelude.Int.{compare_int}
use nutdb.Prelude.Order.{same, bytes_order}
use nutdb.Bytes.{Bytes}
use nutdb.Sql.Lexer.{
  TokenKind, Token, word, integer, string, comma, left_paren, right_paren, star, semicolon, eq, ne,
  lt, le, gt, ge, end, error,
}

-- A method of the parser. `none` is a panic (an index that is out of range) or a loop that is out
-- of fuel.
abbrev pub Parse {ℓ} : Type ℓ → Type ℓ
Parse A = List Token → Option (Result (A × List Token))

module _ {ℓ} {A : Type ℓ} where
  abbrev pub pure : A → Parse A
  pure a tokens = some (ok (a, tokens))

module _ {ℓ κ} {A : Type ℓ} {B : Type κ} where
  abbrev pub continue :
      Option (Result (A × List Token)) → (A → Parse B) → Option (Result (B × List Token))
  continue none f = none
  continue (some (err e)) f = some (err e)
  continue (some (ok (a, tokens))) f = f a tokens

  infixl 5 ◌>>=◌ ◌>>◌
  abbrev pub ◌>>=◌ : Parse A → (A → Parse B) → Parse B
  ◌>>=◌ m f tokens = continue (m tokens) f

  abbrev pub ◌>>◌ : Parse A → Parse B → Parse B
  m >> n = m >>= λ _. n

-- `tokens[offset]`
unfoldable pub peek : Parse Token
peek [] = none
peek (token ∷ tokens) = some (ok (token, token ∷ tokens))

-- `offset += 1`
unfoldable pub step_over : Parse (Unit {0})
step_over [] = none
step_over (token ∷ tokens) = some (ok (tt, tokens))

unfoldable pub tag : TokenKind → ℕ
tag (word _) = 0
tag (integer _) = 1
tag (string _) = 2
tag comma = 3
tag left_paren = 4
tag right_paren = 5
tag star = 6
tag semicolon = 7
tag eq = 8
tag ne = 9
tag lt = 10
tag le = 11
tag gt = 12
tag ge = 13
tag end = 14

-- `==` on `TokenKind`
unfoldable pub same_kind : TokenKind → TokenKind → Bool
same_kind (word a) (word b) = same ⦃o = bytes_order⦄ a b
same_kind (integer a) (integer b) = elim (compare_int a b) [ Ordering.eq ↦ true | _ ↦ false ]
same_kind (string a) (string b) = same ⦃o = bytes_order⦄ a b
same_kind a b = tag a == tag b

unfoldable pub is_word : Bytes → TokenKind → Bool
is_word expected_word (word candidate) = same ⦃o = bytes_order⦄ candidate expected_word
is_word expected_word _ = false

unfoldable pub at_end : Parse Bool
at_end = do token ← peek; pure (same_kind token.kind end)

unfoldable pub advance : Parse Token
advance = do token ← peek; ended ← at_end; if ended then pure token else step_over >> pure token

unfoldable pub fail {ℓ} : {A : Type ℓ} → ℕ → String → Parse A
fail position message tokens = some (error position message)

unfoldable pub expected {ℓ} : {A : Type ℓ} → String → Parse A
expected description = do token ← peek; fail token.pos description

unfoldable pub check_word : Bytes → Parse Bool
check_word expected_word = do token ← peek; pure (is_word expected_word token.kind)

unfoldable pub consume_word : Bytes → Parse Bool
consume_word expected_word = do
  found ← check_word expected_word
  if found then step_over >> pure true else pure false

unfoldable pub expect_word : Bytes → Parse (Unit {0})
expect_word expected_word = do
  found ← consume_word expected_word
  if found then pure tt else expected "expected a key word"

unfoldable pub consume_simple : TokenKind → Parse Bool
consume_simple kind = do
  token ← peek
  if same_kind token.kind kind then step_over >> pure true else pure false

unfoldable pub expect_simple : TokenKind → String → Parse (Unit {0})
expect_simple kind description = do
  found ← consume_simple kind
  if found then pure tt else expected description

unfoldable pub word_of : ℕ → TokenKind → Parse Bytes
word_of position (word w) = pure w
word_of position _ = fail position "expected an identifier"

-- The method `word`, which `identifier` calls.
unfoldable pub identifier : Parse Bytes
identifier = do token ← advance; word_of token.pos token.kind

-- What a round of a loop says.
pub data Next {ℓ} (A : Type ℓ) : Type ℓ where
  again : A → Next A
  stop : A → Next A

-- A loop of at most so many rounds.
unfoldable pub repeat {ℓ} : {A : Type ℓ} → (A → Parse (Next A)) → ℕ → A → Parse A
repeat round zero a = λ tokens. none
repeat round (suc fuel) a =
    round a >>= λ next. elim next [ again b ↦ repeat round fuel b | stop b ↦ pure b ]

-- Every round but the last takes a token, so one round more than there are tokens is enough.
unfoldable pub loop {ℓ} : {A : Type ℓ} → (A → Parse (Next A)) → A → Parse A
loop round a tokens = repeat round (suc (length tokens)) a tokens

-- `if !self.consume_simple(&TokenKind::Comma) { break; }`
unfoldable pub while_comma {ℓ} : {A : Type ℓ} → A → Parse (Next A)
while_comma a = do found ← consume_simple comma; pure (if found then again a else stop a)
