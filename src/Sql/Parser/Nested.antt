-- ===== src/Sql/Parser/Nested.antt =====
-- Literals and expressions of src/sql/parser.rs take a token at least, and come to an end.
use nutdb.Prelude.{
  ℕ, zero, suc, ◌-◌, ◌<◌, refl, sym, true, false, ◌||◌, Option, none, some, [], ◌∷◌, arith, length,
}
use mathlib.Core.Path.{subst}
use nutdb.Bytes.{Bytes}
use nutdb.Sql.Ast.{Value, Expr, BinaryOp, column, literal, binary}
use nutdb.Sql.Lexer
use nutdb.Sql.Lexer.{TokenKind, Token, word, string, left_paren, right_paren, end, error}
use nutdb.Sql.Words.{null_word, true_word, false_word, or_word, and_word}
use nutdb.Sql.Parser.{
  Parse, pure, ◌>>=◌, peek, step_over, tag, same_kind, fail, consume_word, consume_simple,
  expect_simple, identifier, again, stop,
}
use nutdb.Sql.Parser.Exprs.{
  is_text, word_value, literal_of, parse_literal, comparison_of, operate, primary_of, primary,
  comparison, and_round, and_expr, or_round, or_expr, nested, expr,
}
use nutdb.Sql.Parser.Uses.{
  Leaves, Leaves-mono, Uses, Uses-pure, Uses_mono, Uses-if, Uses-fail, Uses-then, Uses-eats,
  Uses-found, Uses-found_less, Uses-spends, Uses_zero, free, one, if_again, small_again,
}
use nutdb.Sql.Parser.Steps.{
  consume_simple-Uses, consume_word-Uses, expected-Uses, expect_simple-Uses, identifier-Uses,
  Uses-advance, loop-Uses,
}

word_value-Uses : (n position : ℕ) (w : Bytes) → Uses n free (word_value position w)
unfolding word_value
word_value-Uses n position w =
    Uses-if n free (is_text w null_word) _ _ (Uses-pure n free Value.null refl) (
      Uses-if n free (is_text w true_word) _ _ (Uses-pure n free (Value.boolean true) refl) (
        Uses-if n free (is_text w false_word) _ _ (Uses-pure n free (Value.boolean false) refl)
          (Uses-fail n free position "expected a literal value")))

pub parse_literal-Uses : (n : ℕ) → Uses n one parse_literal
unfolding parse_literal literal_of fail error
parse_literal-Uses n =
    Uses-advance n literal_of
      (λ position k. elim k as (λ k. Uses n free (literal_of position k)) [
        | Lexer.integer value ↦ Uses-pure n free (Value.integer value) refl
        | string value ↦ Uses-pure n free (Value.text value) refl
        | word w ↦ word_value-Uses n position w
        | _ ↦ Uses-fail {0} {A = Value} n free position "expected a literal value"
      ])
      (λ position tokens. (_, refl))

literal-Uses : (n : ℕ) → Uses n one (parse_literal >>= λ value. pure (literal value))
literal-Uses n =
    Uses-eats n one parse_literal _ (λ b. omega arith) (parse_literal-Uses n)
      (λ value. Uses-pure n free (literal value) refl)

primary_of-Uses : (n : ℕ) (k : TokenKind) → Uses n one (primary_of k)
unfolding primary_of
primary_of-Uses n k = elim k as (λ k. Uses n one (primary_of k)) [
  | Lexer.integer value ↦ literal-Uses n
  | string value ↦ literal-Uses n
  | word w ↦
      Uses-if n one (is_text w null_word || is_text w true_word || is_text w false_word) _ _
        (literal-Uses n)
        (Uses-eats n one identifier _ (λ b. omega arith) (identifier-Uses n)
          (λ name. Uses-pure n free (column name) refl))
  | _ ↦ expected-Uses {0} {A = Expr} n one "expected column, literal, or parenthesized expression"
]

peek-Uses : (n : ℕ) → Uses n free peek
unfolding peek Uses
peek-Uses n [] ends h = ends
peek-Uses n (t ∷ tokens) ends h = (ends, omega arith)

primary-Uses : (n : ℕ) (inner : Parse Expr) → Uses (n - 1) free inner → Uses n one (primary inner)
unfolding primary same_kind tag
primary-Uses n inner u =
    Uses-found_less n one (consume_simple left_paren) _ (λ b. omega arith)
      (consume_simple-Uses n left_paren refl)
      (Uses-then (n - 1) free inner _ u λ e.
        Uses-then (n - 1) free (expect_simple right_paren "expected ')'") _
          (Uses-spends (n - 1) _ (expect_simple-Uses (n - 1) right_paren "expected ')'" refl))
          (λ _. Uses-pure (n - 1) free e refl))
      (Uses-then n one peek _ (peek-Uses n) (λ token. primary_of-Uses n token.kind))

-- What follows an operand; an operator that is taken is not `End`.
operator-Uses :
    (n : ℕ) (left : Expr) (right_of : BinaryOp → Parse Expr)
    → ((op : BinaryOp) → Uses n free (right_of op))
    → Uses n free (peek >>= λ token. operate left right_of (comparison_of token.kind))
unfolding peek step_over comparison_of operate Uses
operator-Uses n left right_of u [] ends h = ends
operator-Uses n left right_of u (t ∷ []) ends h =
    subst (λ k. Leaves 1 free (operate left right_of (comparison_of k) (t ∷ []))) (sym ends)
      (ends, omega arith)
operator-Uses n left right_of u (t ∷ v ∷ tokens) ends h = taken (comparison_of t.kind)
  where
    taken :
        (o : Option BinaryOp)
        → Leaves (suc (suc (length tokens))) free (operate left right_of o (t ∷ v ∷ tokens))
    taken none = (ends, omega arith)
    taken (some op) =
        Leaves-mono (suc (length tokens)) (suc (suc (length tokens))) free free
          (right_of op (v ∷ tokens)) (omega arith) (λ a. omega arith)
          (u op (v ∷ tokens) ends (omega (arith, h)))

module _ (n : ℕ) (inner : Parse Expr) (u : Uses (n - 1) free inner) where
  comparison-Uses : Uses n one (comparison inner)
  unfolding comparison
  comparison-Uses =
      Uses-eats n one (primary inner) _ (λ b. omega arith) (primary-Uses n inner u)
        λ left. operator-Uses n left _ λ op.
          Uses-then n free (primary inner) _ (Uses-spends n _ (primary-Uses n inner u))
            (λ right. Uses-pure n free (binary op left right) refl)

  and_round-Uses : (left : Expr) → Uses n if_again (and_round inner left)
  unfolding and_round
  and_round-Uses left =
      Uses-found n if_again (consume_word and_word) _ small_again (consume_word-Uses n and_word)
        (Uses-then n free (comparison inner) _ (Uses-spends n _ comparison-Uses)
          (λ right. Uses-pure n free (again (binary BinaryOp.and left right)) refl))
        (Uses-pure n if_again (stop left) refl)

  and_expr-Uses : Uses n one (and_expr inner)
  unfolding and_expr
  and_expr-Uses =
      Uses-eats n one (comparison inner) _ (λ b. omega arith) comparison-Uses
        (loop-Uses n (and_round inner) and_round-Uses)

  or_round-Uses : (left : Expr) → Uses n if_again (or_round inner left)
  unfolding or_round
  or_round-Uses left =
      Uses-found n if_again (consume_word or_word) _ small_again (consume_word-Uses n or_word)
        (Uses-then n free (and_expr inner) _ (Uses-spends n _ and_expr-Uses)
          (λ right. Uses-pure n free (again (binary BinaryOp.or left right)) refl))
        (Uses-pure n if_again (stop left) refl)

  or_expr-Uses : Uses n one (or_expr inner)
  unfolding or_expr
  or_expr-Uses =
      Uses-eats n one (and_expr inner) _ (λ b. omega arith) and_expr-Uses
        (loop-Uses n (or_round inner) or_round-Uses)

nested-Uses : (n fuel : ℕ) → n < fuel → Uses n one (nested fuel)
unfolding nested
nested-Uses n zero h = absurd (omega arith)
nested-Uses zero (suc fuel) h = Uses_zero one (nested (suc fuel))
nested-Uses (suc n) (suc fuel) h = or_expr-Uses (suc n) (nested fuel) (
    Uses_mono n (suc n - 1) one free (nested fuel) (omega arith) (λ b. omega arith)
      (nested-Uses n fuel (omega (arith, h))))

pub expr-Uses : (n : ℕ) → Uses n one expr
unfolding expr Uses
expr-Uses n tokens ends h =
    nested-Uses (length tokens) (suc (length tokens)) (omega arith) tokens ends (omega arith)
