-- ===== src/Sql/Lexer/Positions.antt =====
-- Where the tokens of src/sql/lexer.rs stand in the source.
use nutdb.Prelude.{
  ℕ, zero, suc, ◌-◌, ◌≤◌, ◌<◌, ◌≡◌, refl, sym, Option, none, some, List, [], ◌∷◌, arith, length,
}
use mathlib.Core.Path.{subst}
use nutdb.Prelude.Io.{Result, ok, err, ◌>>=◌}
use nutdb.Bytes.{Bytes}
use nutdb.Sql.Lexer.{Token, end, lex_round, push, lex_loop, lex}
use nutdb.Sql.Lexer.Tokens.{Within, lex_round-Within}

-- Tokens at ascending positions of the source, from `least` on, and `End` after its last byte.
abbrev pub Placed : ℕ → ℕ → List Token → Type 0
Placed least total [] = ⊥
Placed least total (t ∷ []) = (t.kind ≡ end) × (t.pos ≡ total)
Placed least total (t ∷ u ∷ tokens) =
    (least ≤ t.pos) × (t.pos < total) × Placed (suc t.pos) total (u ∷ tokens)

Placed-le :
    (least least' total : ℕ) (tokens : List Token)
    → least' ≤ least
    → Placed least total tokens
    → Placed least' total tokens
Placed-le least least' total [] h p = p
Placed-le least least' total (t ∷ []) h p = p
Placed-le least least' total (t ∷ u ∷ tokens) h (low, high, rest) =
    (omega (arith, h, low), high, rest)

Placed-push :
    (least total position : ℕ) (token : Option Token) (tokens : List Token)
    → ((t : Token) → token ≡ some t → t.pos ≡ position)
    → position < total
    → least ≤ position
    → Placed (suc position) total tokens
    → Placed least total (push token tokens)
unfolding push
Placed-push least total position none tokens at high low p =
    Placed-le (suc position) least total tokens (omega (arith, low)) p
Placed-push least total position (some t) [] at high low p = absurd p
Placed-push least total position (some t) (u ∷ tokens) at high low p =
    let here = at t refl in
    (
      omega (arith, low, here),
      omega (arith, high, here),
      Placed-le (suc position) (suc t.pos) total (u ∷ tokens) (omega (arith, here)) p,
    )

-- What a round of the loop did that gave tokens.
record Round (m : Result (Option Token × Bytes)) (next : Bytes → Option (Result (List Token)))
    (tokens : List Token) : Type 0 where
  pub token : Option Token
  pub back : Bytes
  pub tail : List Token
  pub taken : m ≡ ok (token, back)
  pub rest : next back ≡ some (ok tail)
  pub pushed : tokens ≡ push token tail

round_of :
    (m : Result (Option Token × Bytes)) (next : Bytes → Option (Result (List Token)))
    (tokens : List Token)
    → elim m [
      | err e ↦ some (err e)
      | ok (token, back) ↦ elim (next back) [
        | none ↦ none
        | some more ↦ some (more >>= λ tokens. ok (push token tokens))
      ]
    ]
      ≡ some (ok tokens)
    → Round m next tokens
round_of (err e) next tokens h = ground arith
round_of (ok (token, back)) next tokens h = pushed_of (next back) refl h
  where
    pushed_of :
        (r : Option (Result (List Token)))
        → next back ≡ r
        → elim r [ none ↦ none | some more ↦ some (more >>= λ tokens. ok (push token tokens)) ]
          ≡ some (ok tokens)
        → Round (ok (token, back)) next tokens
    pushed_of none e h = ground arith
    pushed_of (some (err f)) e h = ground arith
    pushed_of (some (ok tail)) e h = record {
      token = token;
      back = back;
      tail = tail;
      taken = refl;
      rest = e;
      pushed = ground arith;
    }

lex_round_pos :
    (position byte : ℕ) (rest back : Bytes) (token : Option Token) (t : Token)
    → lex_round position byte rest ≡ ok (token, back)
    → token ≡ some t
    → t.pos ≡ position
unfolding lex_round
lex_round_pos position byte rest back token t h e = ground arith

lex_loop-Placed :
    (fuel total : ℕ) (rest : Bytes) (tokens : List Token)
    → length rest ≤ total
    → lex_loop fuel total rest ≡ some (ok tokens)
    → Placed (total - length rest) total tokens
unfolding lex_loop
lex_loop-Placed zero total rest tokens fits h = ground arith
lex_loop-Placed (suc fuel) total [] tokens fits h =
    let only : record { kind = end; pos = total } ∷ [] ≡ tokens = ground arith in
    subst (Placed (total - 0) total) only (refl, refl)
lex_loop-Placed (suc fuel) total (byte ∷ rest) tokens fits h =
    let position = total - suc (length rest) in
    let r = round_of (lex_round position byte rest) (lex_loop fuel total) tokens h in
    let shorter : length r.back ≤ length rest =
      subst (Within (length rest)) r.taken (lex_round-Within position byte rest) in
    let tail = lex_loop-Placed fuel total r.back r.tail (omega (arith, fits, shorter)) r.rest in
    subst (Placed position total) (sym r.pushed) (
      Placed-push position total position r.token r.tail
        (λ t. lex_round_pos position byte rest r.back r.token t r.taken) (omega (arith, fits))
        (omega arith)
        (Placed-le (total - length r.back) (suc position) total r.tail
          (omega (arith, fits, shorter)) tail))

-- The tokens of a source stand at ascending positions within it, and the last is `End`, at its
-- length.
pub lex-Placed :
    (source : Bytes) (tokens : List Token)
    → lex source ≡ some (ok tokens)
    → Placed 0 (length source) tokens
unfolding lex
lex-Placed source tokens h =
    Placed-le (length source - length source) 0 (length source) tokens (omega arith)
      (lex_loop-Placed (suc (length source)) (length source) source tokens (omega arith) h)
