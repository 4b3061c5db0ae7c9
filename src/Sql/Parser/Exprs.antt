-- ===== src/Sql/Parser/Exprs.antt =====
-- Literals and expressions of src/sql/parser.rs.
use nutdb.Prelude.{ℕ, zero, suc, Bool, true, false, ◌||◌, Option, none, some, length, if◌then◌else◌}
use nutdb.Prelude.Order.{same, bytes_order}
use nutdb.Bytes.{Bytes}
use nutdb.Sql.Ast.{Value, Expr, BinaryOp, column, literal, binary}
use nutdb.Sql.Lexer
use nutdb.Sql.Lexer.{TokenKind, Token, word, string, left_paren, right_paren}
use nutdb.Sql.Words.{null_word, true_word, false_word, or_word, and_word}
use nutdb.Sql.Parser.{
  Parse, pure, ◌>>=◌, ◌>>◌, peek, step_over, advance, fail, expected, consume_word, consume_simple,
  expect_simple, identifier, Next, again, stop, loop,
}

abbrev pub is_text : Bytes → Bytes → Bool
is_text a b = same ⦃o = bytes_order⦄ a b

unfoldable pub word_value : ℕ → Bytes → Parse Value
word_value position w =
    if is_text w null_word
    then pure Value.null
    else if is_text w true_word
    then pure (Value.boolean true)
    else if is_text w false_word
    then pure (Value.boolean false)
    else fail position "expected a literal value"

unfoldable pub literal_of : ℕ → TokenKind → Parse Value
literal_of position (Lexer.integer value) = pure (Value.integer value)
literal_of position (string value) = pure (Value.text value)
literal_of position (word w) = word_value position w
literal_of position _ = fail position "expected a literal value"

unfoldable pub parse_literal : Parse Value
parse_literal = do token ← advance; literal_of token.pos token.kind

unfoldable pub comparison_of : TokenKind → Option BinaryOp
comparison_of Lexer.eq = some BinaryOp.eq
comparison_of Lexer.ne = some BinaryOp.ne
comparison_of Lexer.lt = some BinaryOp.lt
comparison_of Lexer.le = some BinaryOp.le
comparison_of Lexer.gt = some BinaryOp.gt
comparison_of Lexer.ge = some BinaryOp.ge
comparison_of _ = none

-- The operand alone, or with the operator that follows it and what `right_of` reads.
unfoldable pub operate : Expr → (BinaryOp → Parse Expr) → Option BinaryOp → Parse Expr
operate left right_of none = pure left
operate left right_of (some op) = step_over >> right_of op

-- The `match` of `primary` on the token that it looks at.
unfoldable pub primary_of : TokenKind → Parse Expr
primary_of (Lexer.integer _) = parse_literal >>= λ value. pure (literal value)
primary_of (string _) = parse_literal >>= λ value. pure (literal value)
primary_of (word w) =
    if is_text w null_word || is_text w true_word || is_text w false_word
    then (parse_literal >>= λ value. pure (literal value))
    else (identifier >>= λ name. pure (column name))
primary_of _ = expected "expected column, literal, or parenthesized expression"

-- The methods over a parser for what stands in parentheses.
module _ (inner : Parse Expr) where
  unfoldable pub primary : Parse Expr
  primary = do
    found ← consume_simple left_paren
    if found
        then (inner >>= λ e. expect_simple right_paren "expected ')'" >> pure e)
        else (peek >>= λ token. primary_of token.kind)

  unfoldable pub comparison : Parse Expr
  comparison = do
    left ← primary
    token ← peek
    operate left (λ op. primary >>= λ right. pure (binary op left right)) (comparison_of token.kind)

  unfoldable pub and_round : Expr → Parse (Next Expr)
  and_round left = do
    found ← consume_word and_word
    if found
        then (comparison >>= λ right. pure (again (binary BinaryOp.and left right)))
        else pure (stop left)

  unfoldable pub and_expr : Parse Expr
  and_expr = comparison >>= loop and_round

  unfoldable pub or_round : Expr → Parse (Next Expr)
  or_round left = do
    found ← consume_word or_word
    if found
        then (and_expr >>= λ right. pure (again (binary BinaryOp.or left right)))
        else pure (stop left)

  unfoldable pub or_expr : Parse Expr
  or_expr = and_expr >>= loop or_round

-- Expressions with fewer levels of parentheses than the fuel.
unfoldable pub nested : ℕ → Parse Expr
nested zero = λ tokens. none
nested (suc fuel) = or_expr (nested fuel)

-- Every parenthesis takes a token, so one level more than there are tokens is enough.
unfoldable pub expr : Parse Expr
expr tokens = nested (suc (length tokens)) tokens
