-- ===== src/Sql/Parser/Total.antt =====
-- `parse` of src/sql/parser.rs comes to an end without a panic on every source.
use nutdb.Prelude.{
  ℕ, suc, ◌≡◌, refl, ap, ◌∙◌, not, ◌&&◌, Option, none, some, List, [], ◌∷◌, ◌++◌, arith, length,
}
use nutdb.Prelude.Io.{Result, ok, err}
use nutdb.Bytes.{Bytes}
use nutdb.Sql.Ast.{Statement}
use nutdb.Sql.Lexer.{Token, semicolon}
use nutdb.Sql.Lexer.Tokens.{lex_ends}
use nutdb.Sql.Lexer.Positions.{Placed, lex-Placed}
use nutdb.Sql.Parser.{Parse, pure, fail, consume_word, consume_simple, again, stop, tag, same_kind}
use nutdb.Sql.Parser.Statements.{
  on_word, statement, separator, next_round, statement_round, statements, result_of, parse_tokens,
  parse,
}
use nutdb.Sql.Parser.Uses.{
  Ends, Leaves, Uses, Uses-pure, Uses-if, Uses-fail, Uses-then, Uses-eats, Uses-found, free, one,
  if_again, small_again,
}
use nutdb.Sql.Parser.Steps.{
  consume_simple-Uses, at_end-Uses, consume_word-Uses, expected-Uses, expect_word-Uses, loop-Uses,
}
use nutdb.Sql.Parser.Ends.{
  then_free, consumed_free, create_table-Uses, insert-Uses, select_after_keyword-Uses, update-Uses,
  delete-Uses,
}

module _ (n : ℕ) where
  on_word-Uses :
      (key : Bytes) (p other : Parse Statement)
      → Uses n free p
      → Uses n one other
      → Uses n one (on_word key p other)
  unfolding on_word
  on_word-Uses key p other u v =
      Uses-found n one (consume_word key) _ (λ b. omega arith) (consume_word-Uses n key) u v

  statement-Uses : Uses n one statement
  unfolding statement
  statement-Uses =
      on_word-Uses _ _ _ (then_free n _ _ (expect_word-Uses n _) (λ _. create_table-Uses n)) (
        on_word-Uses _ _ _ (then_free n _ _ (expect_word-Uses n _) (λ _. insert-Uses n)) (
          on_word-Uses _ _ _
            (Uses-then n free _ _ (select_after_keyword-Uses n)
              (λ s. Uses-pure n free (Statement.select s) refl))
            (on_word-Uses _ _ _ (update-Uses n) (
              on_word-Uses _ _ _ (then_free n _ _ (expect_word-Uses n _) (λ _. delete-Uses n)) (
                on_word-Uses _ _ _ (Uses-pure n free Statement.begin refl) (
                  on_word-Uses _ _ _ (Uses-pure n free Statement.commit refl) (
                    on_word-Uses _ _ _ (Uses-pure n free Statement.rollback refl) (
                      on_word-Uses _ _ _
                        (Uses-then n free _ _
                          (then_free n _ _ (expect_word-Uses n _)
                            (λ _. select_after_keyword-Uses n))
                          (λ s. Uses-pure n free (Statement.explain s) refl))
                        (expected-Uses n one
                          "expected CREATE, INSERT, SELECT, UPDATE, DELETE, or transaction command")))))))))

  separator-Uses : (done : List Statement) → Uses n free (separator done)
  unfolding separator same_kind tag
  separator-Uses done =
      Uses-then n free _ _ (consumed_free n _ (consume_simple-Uses n semicolon refl)) λ found.
        Uses-then n free _ _ (at_end-Uses n) λ ended.
          Uses-if n free (not found && not ended) _ _
            (expected-Uses n free "expected ';' between statements")
            (Uses-pure n free (again done) refl)

  next_round-Uses : (done : List Statement) → Uses n if_again (next_round done)
  unfolding next_round same_kind tag
  next_round-Uses done =
      Uses-found n if_again (consume_simple semicolon) _ small_again
        (consume_simple-Uses n semicolon refl) (Uses-pure n free (again done) refl)
        (Uses-eats n if_again statement _ small_again statement-Uses
          (λ s. separator-Uses (done ++ s ∷ [])))

  statement_round-Uses : (done : List Statement) → Uses n if_again (statement_round done)
  unfolding statement_round
  statement_round-Uses done = Uses-then n if_again _ _ (at_end-Uses n) λ ended.
      Uses-if n if_again ended _ _ (Uses-pure n if_again (stop done) refl) (next_round-Uses done)

  statements-Uses : Uses n free statements
  unfolding statements
  statements-Uses =
      Uses-then n free _ _ (loop-Uses n statement_round statement_round-Uses []) λ found.
        elim found
          as (λ found.
            Uses n free
              (elim found [ [] ↦ fail 0 "expected a statement" | s ∷ rest ↦ pure (s ∷ rest) ])) [
                | [] ↦ Uses-fail n free 0 "expected a statement"
                | s ∷ rest ↦ Uses-pure n free (s ∷ rest) refl
              ]

Placed-Ends : (least total : ℕ) (tokens : List Token) → Placed least total tokens → Ends tokens
Placed-Ends least total [] p = p
Placed-Ends least total (t ∷ []) p = p.0
Placed-Ends least total (t ∷ u ∷ tokens) p = Placed-Ends (suc t.pos) total (u ∷ tokens) p.2

result_of-Leaves :
    (n : ℕ) (r : Option (Result (List Statement × List Token)))
    → Leaves n free r
    → (out : Result (List Statement)) × (result_of r ≡ some out)
unfolding result_of
result_of-Leaves n none l = absurd l
result_of-Leaves n (some (err e)) l = (err e, refl)
result_of-Leaves n (some (ok (s, tokens))) l = (ok s, refl)

parse_tokens-Ends :
    (r : Result (List Token))
    → ((tokens : List Token) → r ≡ ok tokens → Ends tokens)
    → (out : Result (List Statement)) × (parse_tokens (some r) ≡ some out)
unfolding parse_tokens Uses
parse_tokens-Ends (err e) ends = (err e, refl)
parse_tokens-Ends (ok tokens) ends =
    result_of-Leaves (length tokens) (statements tokens)
      (statements-Uses (length tokens) tokens (ends tokens refl) (omega arith))

-- The parser comes to an end on every source, with statements or an error, and never reads past
-- its last token.
pub parse_ends : (source : Bytes) → (out : Result (List Statement)) × (parse source ≡ some out)
unfolding parse
parse_ends source =
    let (r, h) = lex_ends source in
    let (out, e) =
      parse_tokens-Ends r λ tokens f.
        Placed-Ends 0 (length source) tokens (lex-Placed source tokens (h ∙ ap some f)) in
    (out, ap parse_tokens h ∙ e)
