-- ===== src/Sql/Parser/Statements.antt =====
-- The statements of src/sql/parser.rs, and `parse`.
use nutdb.Prelude.{
  ℕ, Bool, true, false, not, ◌&&◌, ◌||◌, Option, none, some, List, [], ◌∷◌, ◌++◌, if◌then◌else◌,
}
use nutdb.Prelude.Io.{Result, ok, err}
use nutdb.Prelude.Int.{pos}
use nutdb.Bytes.{Bytes}
use nutdb.Sql.Ast.{ColumnDef, DataType, Value, Expr, Projection, Select, Statement}
use nutdb.Sql.Lexer
use nutdb.Sql.Lexer.{TokenKind, Token, comma, left_paren, right_paren, star, semicolon, error, lex}
use nutdb.Sql.Words.{
  asc_word, begin_word, bool_word, boolean_word, by_word, commit_word, create_word, delete_word,
  desc_word, explain_word, from_word, insert_word, int_word, integer_word, into_word, key_word,
  limit_word, order_word, primary_word, rollback_word, select_word, set_word, table_word, text_word,
  update_word, values_word, where_word,
}
use nutdb.Sql.Parser.{
  Parse, pure, ◌>>=◌, ◌>>◌, at_end, advance, fail, expected, check_word, consume_word, expect_word,
  consume_simple, expect_simple, identifier, Next, again, stop, loop, while_comma,
}
use nutdb.Sql.Parser.Exprs.{is_text, parse_literal, expr}

unfoldable pub data_type_of : Bytes → Parse DataType
data_type_of name =
    if is_text name int_word || is_text name integer_word
    then pure DataType.integer
    else if is_text name text_word
    then pure DataType.text
    else if is_text name bool_word || is_text name boolean_word
    then pure DataType.boolean
    else expected "expected INT, TEXT, or BOOLEAN"

unfoldable pub primary_key_flag : Parse Bool
primary_key_flag = do
  found ← consume_word primary_word
  if found then expect_word key_word >> pure true else pure false

unfoldable pub column_round : List ColumnDef → Parse (Next (List ColumnDef))
column_round columns = do
  name ← identifier
  type_name ← identifier
  data_type ← data_type_of type_name
  primary_key ← primary_key_flag
  while_comma
      (columns ++ record { name = name; data_type = data_type; primary_key = primary_key } ∷ [])

unfoldable pub create_table : Parse Statement
create_table = do
  table ← identifier
  expect_simple left_paren "expected '('"
  columns ← loop column_round []
  expect_simple right_paren "expected ')'"
  pure (Statement.create_table table columns)

unfoldable pub identifier_round : TokenKind → List Bytes → Parse (Next (List Bytes))
identifier_round last names = do
  name ← identifier
  found ← consume_simple last
  if found
      then pure (stop (names ++ name ∷ []))
      else expect_simple comma "expected ','" >> pure (again (names ++ name ∷ []))

unfoldable pub identifier_list : TokenKind → Parse (List Bytes)
identifier_list last = loop (identifier_round last) []

unfoldable pub until_round : Bytes → List Bytes → Parse (Next (List Bytes))
until_round last names = do
  name ← identifier
  found ← check_word last
  if found
      then pure (stop (names ++ name ∷ []))
      else expect_simple comma "expected ','" >> pure (again (names ++ name ∷ []))

unfoldable pub identifier_list_until_word : Bytes → Parse (List Bytes)
identifier_list_until_word last = loop (until_round last) []

unfoldable pub value_round : List Value → Parse (Next (List Value))
value_round values = do value ← parse_literal; while_comma (values ++ value ∷ [])

unfoldable pub insert : Parse Statement
insert = do
  table ← identifier
  expect_simple left_paren "expected '('"
  columns ← identifier_list right_paren
  expect_word values_word
  expect_simple left_paren "expected '('"
  values ← loop value_round []
  expect_simple right_paren "expected ')'"
  pure (Statement.insert table columns values)

unfoldable pub where_clause : Parse (Option Expr)
where_clause = do
  found ← consume_word where_word
  if found then (expr >>= λ filter. pure (some filter)) else pure none

unfoldable pub projection : Parse Projection
projection = do
  found ← consume_simple star
  if found
      then pure Projection.all
      else (identifier_list_until_word from_word >>= λ names. pure (Projection.columns names))

unfoldable pub direction : Parse Bool
direction = do
  descending ← consume_word desc_word
  if descending then pure false else (consume_word asc_word >> pure true)

unfoldable pub order_clause : Parse (Option (Bytes × Bool))
order_clause = do
  found ← consume_word order_word
  if found
      then (expect_word by_word >> identifier >>= λ name.
          direction >>= λ ascending. pure (some (name, ascending)))
      else pure none

unfoldable pub limit_of : ℕ → TokenKind → Parse (Option ℕ)
limit_of position (Lexer.integer (pos value)) = pure (some value)
limit_of position _ = fail position "LIMIT expects a nonnegative integer"

unfoldable pub limit_clause : Parse (Option ℕ)
limit_clause = do
  found ← consume_word limit_word
  if found then (advance >>= λ token. limit_of token.pos token.kind) else pure none

unfoldable pub select_after_keyword : Parse Select
select_after_keyword = do
  columns ← projection
  expect_word from_word
  table ← identifier
  filter ← where_clause
  order_by ← order_clause
  limit ← limit_clause
  pure (record {
    table = table;
    projection = columns;
    filter = filter;
    order_by = order_by;
    limit = limit;
  })

unfoldable pub assignment_round : List (Bytes × Value) → Parse (Next (List (Bytes × Value)))
assignment_round assignments = do
  name ← identifier
  expect_simple Lexer.eq "expected '='"
  value ← parse_literal
  while_comma (assignments ++ (name, value) ∷ [])

unfoldable pub update : Parse Statement
update = do
  table ← identifier
  expect_word set_word
  assignments ← loop assignment_round []
  filter ← where_clause
  pure (Statement.update table assignments filter)

unfoldable pub delete : Parse Statement
delete = do table ← identifier; filter ← where_clause; pure (Statement.delete table filter)

-- The statement if its key word comes next, and otherwise `other`.
unfoldable pub on_word : Bytes → Parse Statement → Parse Statement → Parse Statement
on_word key parser other = do found ← consume_word key; if found then parser else other

unfoldable pub statement : Parse Statement
statement = on_word create_word (expect_word table_word >> create_table) (
    on_word insert_word (expect_word into_word >> insert) (
      on_word select_word (select_after_keyword >>= λ s. pure (Statement.select s)) (
        on_word update_word update (
          on_word delete_word (expect_word from_word >> delete) (
            on_word begin_word (pure Statement.begin) (
              on_word commit_word (pure Statement.commit) (
                on_word rollback_word (pure Statement.rollback) (
                  on_word explain_word
                    (expect_word select_word >> select_after_keyword >>= λ s.
                      pure (Statement.explain s))
                    (expected
                      "expected CREATE, INSERT, SELECT, UPDATE, DELETE, or transaction command")))))))))

-- What must follow a statement.
unfoldable pub separator : List Statement → Parse (Next (List Statement))
separator statements = do
  found ← consume_simple semicolon
  ended ← at_end
  if not found && not ended
      then expected "expected ';' between statements"
      else pure (again statements)

-- A round of the loop of `parse`, before the end.
unfoldable pub next_round : List Statement → Parse (Next (List Statement))
next_round statements = do
  skipped ← consume_simple semicolon
  if skipped then pure (again statements) else (statement >>= λ s. separator (statements ++ s ∷ []))

unfoldable pub statement_round : List Statement → Parse (Next (List Statement))
statement_round statements = do
  ended ← at_end
  if ended then pure (stop statements) else next_round statements

unfoldable pub statements : Parse (List Statement)
statements = do
  found ← loop statement_round []
  elim found [ [] ↦ fail 0 "expected a statement" | s ∷ rest ↦ pure (s ∷ rest) ]

unfoldable pub result_of {ℓ} : {A : Type ℓ} → Option (Result (A × List Token)) → Option (Result A)
result_of none = none
result_of (some (err e)) = some (err e)
result_of (some (ok (a, tokens))) = some (ok a)

-- The tokens that the lexer gave, parsed.
unfoldable pub parse_tokens : Option (Result (List Token)) → Option (Result (List Statement))
parse_tokens none = none
parse_tokens (some (err e)) = some (err e)
parse_tokens (some (ok tokens)) = result_of (statements tokens)

unfoldable pub parse : Bytes → Option (Result (List Statement))
parse source = parse_tokens (lex source)
