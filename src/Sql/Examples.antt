-- ===== src/Sql/Examples.antt =====
-- A source that src/sql lexes and parses.
use nutdb.Prelude.{◌+◌, ◌≡◌, refl, none, some, List, [], ◌∷◌, ◌++◌, length}
use nutdb.Prelude.Io.{Result, ok}
use nutdb.Prelude.Int.{pos, negsuc}
use nutdb.Bytes.{Bytes}
use nutdb.Sql.Ast.{Value, BinaryOp, Projection, Statement, column, literal, binary}
use nutdb.Prelude.{true}
use nutdb.Sql.Ast.{DataType, Select}
use nutdb.Sql.Plan.{primary_key, plan_select, access_of, primary_equality, equated}
use nutdb.Sql.Filter.{matches_filter, eval, column_value, apply, compare, order_of, holds, is_true}
use nutdb.Sql.Lookup.{plan_select-row_key}
use nutdb.Catalog.{
  Schema, primary_index, column_index, validate, primary_keys, has_duplicate, row_key,
  row_key_for_primary,
}
use nutdb.Catalog.Values.{is_null}
use nutdb.Catalog.Schemas.{IsValid, validate-IsValid}
use nutdb.Sql.Lexer
use nutdb.Sql.Lexer.{Token, word, integer, ge, semicolon, string, end, lex}
use nutdb.Sql.Lexer.Tokens.{lex_ends}
use nutdb.Sql.Lexer.Positions.{Placed, lex-Placed}
use nutdb.Sql.Lexer.Literals.{escape, lex-escape}
use nutdb.Sql.Parser
use nutdb.Sql.Parser.Exprs
use nutdb.Sql.Parser.Statements
use nutdb.Sql.Parser.Statements.{parse}
use nutdb.Sql.Parser.Total.{parse_ends}

-- `SELECT A FROM T WHERE A>=-1;`
abbrev query : Bytes
query =
    83 ∷ 69 ∷ 76 ∷ 69 ∷ 67 ∷ 84 ∷ 32 ∷ 65 ∷ 32 ∷ 70 ∷ 82 ∷ 79 ∷ 77 ∷ 32 ∷ 84 ∷ 32 ∷ 87 ∷ 72 ∷ 69
    ∷ 82 ∷ 69 ∷ 32 ∷ 65 ∷ 62 ∷ 61 ∷ 45 ∷ 49 ∷ 59 ∷ []

-- `a >=-1`
abbrev condition : Bytes
condition = 97 ∷ 32 ∷ 62 ∷ 61 ∷ 45 ∷ 49 ∷ []

abbrev condition_tokens : List Token
condition_tokens =
    record { kind = word (65 ∷ []); pos = 0 }
    ∷ record { kind = ge; pos = 2 }
    ∷ record { kind = integer (negsuc 0); pos = 4 }
    ∷ record { kind = end; pos = 6 }
    ∷ []

condition_runs : lex condition ≡ some (ok condition_tokens)
unfolding Lexer.error Lexer.is_ascii_whitespace Lexer.is_ascii_digit Lexer.is_ascii_alphabetic
    Lexer.is_word_byte Lexer.to_ascii_uppercase Lexer.span Lexer.read_string Lexer.decimal
    Lexer.parse_i64 Lexer.lex_digits Lexer.lex_minus Lexer.before_equals Lexer.lex_comparison
    Lexer.punctuation Lexer.lex_other Lexer.lex_token Lexer.lex_round Lexer.push Lexer.lex_loop
    Lexer.lex
condition_runs = refl

parse_runs :
    parse query
    ≡ some (
        ok (
          Statement.select (record {
            table = 84 ∷ [];
            projection = Projection.columns ((65 ∷ []) ∷ []);
            filter =
                some (binary BinaryOp.ge (column (65 ∷ [])) (literal (Value.integer (negsuc 0))));
            order_by = none;
            limit = none;
          })
          ∷ []))
unfolding Lexer.error Lexer.is_ascii_whitespace Lexer.is_ascii_digit Lexer.is_ascii_alphabetic
    Lexer.is_word_byte Lexer.to_ascii_uppercase Lexer.span Lexer.read_string Lexer.decimal
    Lexer.parse_i64 Lexer.lex_digits Lexer.lex_minus Lexer.before_equals Lexer.lex_comparison
    Lexer.punctuation Lexer.lex_other Lexer.lex_token Lexer.lex_round Lexer.push Lexer.lex_loop
    Lexer.lex Parser.peek Parser.step_over Parser.tag Parser.same_kind Parser.is_word Parser.at_end
    Parser.advance Parser.fail Parser.expected Parser.check_word Parser.consume_word
    Parser.expect_word Parser.consume_simple Parser.expect_simple Parser.word_of Parser.identifier
    Parser.repeat Parser.loop Parser.while_comma Exprs.word_value Exprs.literal_of
    Exprs.parse_literal Exprs.comparison_of Exprs.operate Exprs.primary_of Exprs.primary
    Exprs.comparison Exprs.and_round Exprs.and_expr Exprs.or_round Exprs.or_expr Exprs.nested
    Exprs.expr Statements.data_type_of Statements.primary_key_flag Statements.column_round
    Statements.create_table Statements.identifier_round Statements.identifier_list
    Statements.until_round Statements.identifier_list_until_word Statements.value_round
    Statements.insert Statements.where_clause Statements.projection Statements.direction
    Statements.order_clause Statements.limit_of Statements.limit_clause
    Statements.select_after_keyword Statements.assignment_round Statements.update Statements.delete
    Statements.on_word Statements.statement Statements.separator Statements.next_round
    Statements.statement_round Statements.statements Statements.result_of Statements.parse_tokens
    Statements.parse
parse_runs = refl

lex_ends_example : (r : Result (List Token)) × (lex condition ≡ some r)
lex_ends_example = lex_ends condition

lex-Placed_example : Placed 0 (length condition) condition_tokens
lex-Placed_example = lex-Placed condition condition_tokens condition_runs

lex-escape_example :
    lex (39 ∷ (escape (105 ∷ 39 ∷ 109 ∷ []) ++ 39 ∷ []))
    ≡ some (
        ok (
          record { kind = string (105 ∷ 39 ∷ 109 ∷ []); pos = 0 }
          ∷ record { kind = end; pos = length (escape (105 ∷ 39 ∷ 109 ∷ [])) + 2 }
          ∷ []))
lex-escape_example = lex-escape (105 ∷ 39 ∷ 109 ∷ [])

parse_ends_example : (out : Result (List Statement)) × (parse query ≡ some out)
parse_ends_example = parse_ends query

-- `SELECT * FROM T WHERE ID = 1` on a table of one column
abbrev one_column : Schema
one_column = record {
  name = 84 ∷ [];
  columns = record { name = 73 ∷ 68 ∷ []; data_type = DataType.integer; primary_key = true } ∷ [];
}

abbrev by_key : Select
by_key = record {
  table = 84 ∷ [];
  projection = Projection.all;
  filter = some (binary BinaryOp.eq (column (73 ∷ 68 ∷ [])) (literal (Value.integer (pos 1))));
  order_by = none;
  limit = none;
}

plan_runs :
    plan_select by_key one_column
    ≡ some (record { access = primary_key (Value.integer (pos 1)); select = by_key })
unfolding plan_select primary_index access_of primary_equality equated
plan_runs = refl

matches_runs : matches_filter by_key.filter (Value.integer (pos 1) ∷ []) one_column ≡ some (ok true)
unfolding matches_filter eval column_value column_index apply compare is_null order_of holds is_true
matches_runs = refl

one_column-IsValid : IsValid one_column
unfolding validate primary_keys has_duplicate
one_column-IsValid = (validate-IsValid one_column).0 refl

plan_select-row_key_example :
    row_key one_column (Value.integer (pos 1) ∷ [])
    ≡ row_key_for_primary one_column (Value.integer (pos 1))
plan_select-row_key_example =
    plan_select-row_key one_column one_column-IsValid by_key
      (record { access = primary_key (Value.integer (pos 1)); select = by_key })
      (Value.integer (pos 1)) (Value.integer (pos 1) ∷ []) plan_runs refl matches_runs
