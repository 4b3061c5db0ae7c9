-- ===== src/Sql/Lexer/Literals.antt =====
-- String literals as src/sql/lexer.rs reads them.
use nutdb.Prelude.{
  ℕ, suc, ◌+◌, ◌-◌, ◌≡◌, refl, sym, ap, inl, inr, false, none, some, [], ◌∷◌, ◌++◌, arith, ◌==◌,
  if◌then◌else◌, length, length-append, Bool-cases, ==_iff,
}
use mathlib.Core.Path.{ap₂}
use nutdb.Prelude.Io.{ok}
use nutdb.Bytes.{Bytes}
use nutdb.Sql.Lexer.{
  string, end, read_string, lex_round, lex_token, lex_other, punctuation, lex_comparison,
  is_ascii_whitespace, push, lex_loop, lex,
}

-- A string with its quotes doubled, as a literal holds it.
unfoldable pub escape : Bytes → Bytes
escape [] = []
escape (byte ∷ bytes) = if byte == 39 then 39 ∷ 39 ∷ escape bytes else byte ∷ escape bytes

read_string-escape :
    (position : ℕ) (value : Bytes)
    → read_string position false (escape value ++ 39 ∷ []) ≡ ok (value, [])
unfolding read_string escape
read_string-escape position [] = refl
read_string-escape position (byte ∷ value) = elim (Bool-cases (byte == 39)) [
  | inl e ↦
      rw (e, read_string-escape position value)
        (ap (λ b. ok (b ∷ value, [])) (sym ((==_iff byte 39).0 e)))
  | inr e ↦ rw (e, e, read_string-escape position value) refl
]

lex_comparison_quote : (rest : Bytes) → lex_comparison 39 rest ≡ none
unfolding lex_comparison
lex_comparison_quote rest = ground arith

lex_round-escape :
    (position : ℕ) (value : Bytes)
    → lex_round position 39 (escape value ++ 39 ∷ [])
      ≡ ok (some (record { kind = string value; pos = position }), [])
unfolding lex_round lex_token lex_other punctuation is_ascii_whitespace
lex_round-escape position value =
    ground
      (arith, lex_comparison_quote (escape value ++ 39 ∷ []), read_string-escape position value)

-- A string between quotes, with the quotes in it doubled, is read as that string.
pub lex-escape :
    (value : Bytes)
    → lex (39 ∷ (escape value ++ 39 ∷ []))
      ≡ some (
          ok (
            record { kind = string value; pos = 0 }
            ∷ record { kind = end; pos = length (escape value) + 2 }
            ∷ []))
unfolding lex lex_loop push
lex-escape value =
    let quoted = escape value ++ 39 ∷ [] in
    let start : suc (length quoted) - suc (length quoted) ≡ 0 = omega arith in
    let size : suc (length quoted) ≡ length (escape value) + 2 =
      omega (arith, length-append (escape value) (39 ∷ [])) in
    rw (lex, lex_loop, lex_round-escape (suc (length quoted) - suc (length quoted)) value)
      (ap₂
        (λ p n.
          some (ok (record { kind = string value; pos = p } ∷ record { kind = end; pos = n } ∷ [])))
        start size)
