-- ===== src/Sql/Parser/Ends.antt =====
-- Parsing as src/sql/parser.rs does it comes to an end without a panic.
use nutdb.Prelude.{
  ℕ, ◌≡◌, refl, Bool, true, false, Option, none, some, List, [], ◌∷◌, ◌++◌, arith, if◌then◌else◌,
}
use nutdb.Prelude.Int.{pos, negsuc}
use nutdb.Bytes.{Bytes}
use nutdb.Sql.Ast.{ColumnDef, DataType, Value, Projection, Statement}
use nutdb.Sql.Lexer
use nutdb.Sql.Lexer.{
  TokenKind, Token, comma, left_paren, right_paren, star, semicolon, end, error, lex,
}
use nutdb.Sql.Parser.{
  Parse, pure, ◌>>=◌, ◌>>◌, fail, check_word, consume_simple, expect_simple, identifier, again,
  stop, tag, same_kind,
}
use nutdb.Sql.Parser.Exprs.{parse_literal}
use nutdb.Sql.Parser.Statements.{
  data_type_of, primary_key_flag, column_round, create_table, identifier_round, identifier_list,
  until_round, identifier_list_until_word, value_round, insert, where_clause, projection, direction,
  order_clause, limit_of, limit_clause, select_after_keyword, assignment_round, update, delete,
}
use nutdb.Sql.Parser.Uses.{
  Uses, Uses-pure, Uses_mono, Uses-if, Uses-fail, Uses-then, Uses-eats, Uses-found, Uses-spends,
  free, one, if_found, if_again, small_again,
}
use nutdb.Sql.Parser.Steps.{
  consume_simple-Uses, check_word-Uses, consume_word-Uses, expected-Uses, expect_word-Uses,
  expect_simple-Uses, identifier-Uses, Uses-advance, while_comma-Uses, loop-Uses,
}
use nutdb.Sql.Parser.Nested.{parse_literal-Uses, expr-Uses}

module _ {ℓ κ} {A : Type ℓ} {B : Type κ} where
  -- The first method takes a token, and the rest is at liberty.
  pub then_free :
      (n : ℕ) (p : Parse A) (f : A → Parse B)
      → Uses n one p
      → ((a : A) → Uses n free (f a))
      → Uses n free (p >>= f)
  then_free n p f u v = Uses-then n free p f (Uses-spends n p u) v

  pub first :
      (n : ℕ) (p : Parse A) (f : A → Parse B)
      → Uses n one p
      → ((a : A) → Uses n free (f a))
      → Uses n one (p >>= f)
  first n p f u v = Uses-eats n one p f (λ b. omega arith) u v

-- A part that is read if its key word comes.
optional-Uses {ℓ} :
    {A : Type ℓ} (n : ℕ) (p : Parse Bool) (q r : Parse A)
    → Uses n if_found p
    → Uses n free q
    → Uses n free r
    → Uses n free (p >>= λ found. if found then q else r)
optional-Uses n p q r u v w = Uses-found n free p _ (λ b. omega arith) u v w

module _ (n : ℕ) where
  data_type_of-Uses : (name : Bytes) → Uses n free (data_type_of name)
  unfolding data_type_of
  data_type_of-Uses name = Uses-if n free _ _ _ (Uses-pure n free DataType.integer refl) (
      Uses-if n free _ _ _ (Uses-pure n free DataType.text refl) (
        Uses-if n free _ _ _ (Uses-pure n free DataType.boolean refl)
          (expected-Uses n free "expected INT, TEXT, or BOOLEAN")))

  primary_key_flag-Uses : Uses n free primary_key_flag
  unfolding primary_key_flag
  primary_key_flag-Uses =
      optional-Uses n _ _ _ (consume_word-Uses n _)
        (then_free n _ _ (expect_word-Uses n _) (λ _. Uses-pure n free true refl))
        (Uses-pure n free false refl)

  column_round-Uses : (columns : List ColumnDef) → Uses n if_again (column_round columns)
  unfolding column_round
  column_round-Uses columns =
      Uses-eats n if_again identifier _ small_again (identifier-Uses n) λ name.
        then_free n identifier _ (identifier-Uses n) λ type_name.
          Uses-then n free _ _ (data_type_of-Uses type_name) λ kind.
            Uses-then n free _ _ primary_key_flag-Uses λ key.
              Uses_mono n n if_again free _ (omega arith) (λ b. omega arith) (while_comma-Uses n _)

  pub create_table-Uses : Uses n free create_table
  unfolding create_table same_kind tag
  create_table-Uses = then_free n _ _ (identifier-Uses n) λ table.
      then_free n _ _ (expect_simple-Uses n left_paren "expected '('" refl) λ _.
        Uses-then n free _ _ (loop-Uses n column_round column_round-Uses []) λ columns.
          then_free n _ _ (expect_simple-Uses n right_paren "expected ')'" refl)
            λ _. Uses-pure n free (Statement.create_table table columns) refl

  names_round-Uses :
      (p : Parse Bool) (names : List Bytes)
      → Uses n free p
      → Uses n if_again (
          identifier >>= λ name. p >>= λ found.
          if found
          then pure (stop (names ++ name ∷ []))
          else expect_simple comma "expected ','" >> pure (again (names ++ name ∷ [])))
  unfolding same_kind tag
  names_round-Uses p names u =
      Uses-eats n if_again identifier _ small_again (identifier-Uses n) λ name.
        Uses-then n free p _ u λ found.
          Uses-if n free found _ _ (Uses-pure n free (stop (names ++ name ∷ [])) refl) (
            then_free n _ _ (expect_simple-Uses n comma "expected ','" refl)
              (λ _. Uses-pure n free (again (names ++ name ∷ [])) refl))

  pub consumed_free : (p : Parse Bool) → Uses n if_found p → Uses n free p
  consumed_free p u = Uses_mono n n if_found free p (omega arith) (λ b. omega arith) u

  identifier_list-Uses :
      (last : TokenKind) → same_kind end last ≡ false → Uses n free (identifier_list last)
  unfolding identifier_list identifier_round
  identifier_list-Uses last other =
      loop-Uses n (identifier_round last)
        (λ names.
          names_round-Uses (consume_simple last) names
            (consumed_free _ (consume_simple-Uses n last other)))
        []

  identifier_list_until_word-Uses : (last : Bytes) → Uses n free (identifier_list_until_word last)
  unfolding identifier_list_until_word until_round
  identifier_list_until_word-Uses last =
      loop-Uses n (until_round last)
        (λ names. names_round-Uses (check_word last) names (check_word-Uses n last)) []

  value_round-Uses : (values : List Value) → Uses n if_again (value_round values)
  unfolding value_round
  value_round-Uses values =
      Uses-eats n if_again parse_literal _ small_again (parse_literal-Uses n) λ value.
        Uses_mono n n if_again free _ (omega arith) (λ b. omega arith) (while_comma-Uses n _)

  pub insert-Uses : Uses n free insert
  unfolding insert same_kind tag
  insert-Uses = then_free n _ _ (identifier-Uses n) λ table.
      then_free n _ _ (expect_simple-Uses n left_paren "expected '('" refl) λ _.
        Uses-then n free _ _ (identifier_list-Uses right_paren refl) λ columns.
          then_free n _ _ (expect_word-Uses n _) λ _.
            then_free n _ _ (expect_simple-Uses n left_paren "expected '('" refl) λ _.
              Uses-then n free _ _ (loop-Uses n value_round value_round-Uses []) λ values.
                then_free n _ _ (expect_simple-Uses n right_paren "expected ')'" refl)
                  λ _. Uses-pure n free (Statement.insert table columns values) refl

  where_clause-Uses : Uses n free where_clause
  unfolding where_clause
  where_clause-Uses =
      optional-Uses n _ _ _ (consume_word-Uses n _)
        (then_free n _ _ (expr-Uses n) (λ filter. Uses-pure n free (some filter) refl))
        (Uses-pure n free none refl)

  projection-Uses : Uses n free projection
  unfolding projection same_kind tag
  projection-Uses =
      optional-Uses n _ _ _ (consume_simple-Uses n star refl) (Uses-pure n free Projection.all refl)
        (Uses-then n free _ _ (identifier_list_until_word-Uses _)
          (λ names. Uses-pure n free (Projection.columns names) refl))

  direction-Uses : Uses n free direction
  unfolding direction
  direction-Uses = optional-Uses n _ _ _ (consume_word-Uses n _) (Uses-pure n free false refl) (
      Uses-then n free _ _ (consumed_free _ (consume_word-Uses n _))
        (λ _. Uses-pure n free true refl))

  order_clause-Uses : Uses n free order_clause
  unfolding order_clause
  order_clause-Uses =
      optional-Uses n _ _ _ (consume_word-Uses n _)
        (Uses-then n free _ _
          (then_free n _ _ (expect_word-Uses n _) (λ _. Uses-spends n _ (identifier-Uses n)))
          λ name.
            Uses-then n free _ _ direction-Uses
              λ ascending. Uses-pure n free (some (name, ascending)) refl)
        (Uses-pure n free none refl)

  limit_of-Uses : (position : ℕ) (k : TokenKind) → Uses n free (limit_of position k)
  unfolding limit_of
  limit_of-Uses position k = elim k as (λ k. Uses n free (limit_of position k)) [
    | Lexer.integer z ↦ elim z as (λ z. Uses n free (limit_of position (Lexer.integer z))) [
      | pos value ↦ Uses-pure n free (some value) refl
      | negsuc value ↦
          Uses-fail {0} {A = Option ℕ} n free position "LIMIT expects a nonnegative integer"
    ]
    | _ ↦ Uses-fail {0} {A = Option ℕ} n free position "LIMIT expects a nonnegative integer"
  ]

  limit_clause-Uses : Uses n free limit_clause
  unfolding limit_clause limit_of fail error
  limit_clause-Uses =
      optional-Uses n _ _ _ (consume_word-Uses n _)
        (Uses-spends n _ (Uses-advance n limit_of limit_of-Uses (λ position tokens. (_, refl))))
        (Uses-pure n free none refl)

  pub select_after_keyword-Uses : Uses n free select_after_keyword
  unfolding select_after_keyword
  select_after_keyword-Uses = Uses-then n free _ _ projection-Uses λ columns.
      then_free n _ _ (expect_word-Uses n _) λ _. then_free n _ _ (identifier-Uses n) λ table.
        Uses-then n free _ _ where_clause-Uses λ filter.
          Uses-then n free _ _ order_clause-Uses
            λ order_by. Uses-then n free _ _ limit_clause-Uses λ limit. Uses-pure n free _ refl

  assignment_round-Uses :
      (assignments : List (Bytes × Value)) → Uses n if_again (assignment_round assignments)
  unfolding assignment_round same_kind tag
  assignment_round-Uses assignments =
      Uses-eats n if_again identifier _ small_again (identifier-Uses n) λ name.
        then_free n _ _ (expect_simple-Uses n Lexer.eq "expected '='" refl) λ _.
          then_free n _ _ (parse_literal-Uses n) λ value.
            Uses_mono n n if_again free _ (omega arith) (λ b. omega arith) (while_comma-Uses n _)

  pub update-Uses : Uses n free update
  unfolding update
  update-Uses = then_free n _ _ (identifier-Uses n) λ table.
      then_free n _ _ (expect_word-Uses n _) λ _.
        Uses-then n free _ _ (loop-Uses n assignment_round assignment_round-Uses []) λ assignments.
          Uses-then n free _ _ where_clause-Uses
            λ filter. Uses-pure n free (Statement.update table assignments filter) refl

  pub delete-Uses : Uses n free delete
  unfolding delete
  delete-Uses = then_free n _ _ (identifier-Uses n) λ table.
      Uses-then n free _ _ where_clause-Uses
        λ filter. Uses-pure n free (Statement.delete table filter) refl
