-- ===== src/Sql/Parser/Steps.antt =====
-- What the smallest methods and the loops of src/sql/parser.rs take.
use nutdb.Prelude.{
  ℕ, zero, suc, ◌≤◌, ◌<◌, ◌≡◌, refl, sym, ap, Bool, true, false, Option, none, some, List, [], ◌∷◌,
  arith, if◌then◌else◌, length, String, Bool-cases, inl, inr, ◌⊎◌,
}
use mathlib.Core.Path.{subst}
use nutdb.Prelude.Io.{Error, Result, ok, err}
use nutdb.Bytes.{Bytes}
use nutdb.Sql.Lexer.{TokenKind, Token, word, comma, end, error}
use nutdb.Sql.Parser.{
  Parse, pure, continue, ◌>>=◌, peek, step_over, tag, same_kind, is_word, at_end, advance, fail,
  expected, check_word, consume_word, expect_word, consume_simple, expect_simple, word_of,
  identifier, Next, again, stop, repeat, loop, while_comma,
}
use nutdb.Sql.Parser.Uses.{
  Ends, Leaves, Leaves-mono, Uses, Uses-pure, Uses-fail, free, one, if_found, if_again, Uses-found,
  small_again,
}

Leaves-if {ℓ} :
    {A : Type ℓ} (n : ℕ) (cost : A → ℕ) (b : Bool) (p q : Parse A) (tokens : List Token)
    → (b ≡ true → Leaves n cost (p tokens))
    → (b ≡ false → Leaves n cost (q tokens))
    → Leaves n cost ((if b then p else q) tokens)
Leaves-if n cost true p q tokens h k = h refl
Leaves-if n cost false p q tokens h k = k refl

same_kind-end : (k : TokenKind) → same_kind k end ≡ true → k ≡ end
unfolding same_kind tag
same_kind-end k = elim k as (λ k. same_kind k end ≡ true → k ≡ end) [
  | end ↦ λ h. refl
  | _ ↦ λ h. ground (arith, h)
]

pub consume_simple-Uses :
    (n : ℕ) (kind : TokenKind) → same_kind end kind ≡ false → Uses n if_found (consume_simple kind)
unfolding consume_simple peek step_over Uses
consume_simple-Uses n kind other [] ends h = ends
consume_simple-Uses n kind other (t ∷ []) ends h =
    Leaves-if 1 if_found (same_kind t.kind kind) _ _ (t ∷ [])
      (λ e. ground (arith, e, other, ap (λ k. same_kind k kind) ends)) (λ _. (ends, omega arith))
consume_simple-Uses n kind other (t ∷ u ∷ tokens) ends h =
    Leaves-if (suc (suc (length tokens))) if_found (same_kind t.kind kind) _ _ (t ∷ u ∷ tokens)
      (λ _. (ends, omega arith)) (λ _. (ends, omega arith))

pub check_word-Uses : (n : ℕ) (w : Bytes) → Uses n free (check_word w)
unfolding check_word peek Uses
check_word-Uses n w [] ends h = ends
check_word-Uses n w (t ∷ tokens) ends h = (ends, omega arith)

pub at_end-Uses : (n : ℕ) → Uses n free at_end
unfolding at_end peek Uses
at_end-Uses n [] ends h = ends
at_end-Uses n (t ∷ tokens) ends h = (ends, omega arith)

pub consume_word-Uses : (n : ℕ) (w : Bytes) → Uses n if_found (consume_word w)
unfolding consume_word check_word peek step_over is_word Uses
consume_word-Uses n w [] ends h = ends
consume_word-Uses n w (t ∷ []) ends h =
    Leaves-if 1 if_found (is_word w t.kind) _ _ (t ∷ [])
      (λ e. ground (arith, e, ap (is_word w) ends)) (λ _. (ends, omega arith))
consume_word-Uses n w (t ∷ u ∷ tokens) ends h =
    Leaves-if (suc (suc (length tokens))) if_found (is_word w t.kind) _ _ (t ∷ u ∷ tokens)
      (λ _. (ends, omega arith)) (λ _. (ends, omega arith))

pub expected-Uses {ℓ} :
    {A : Type ℓ} (n : ℕ) (cost : A → ℕ) (description : String) → Uses n cost (expected description)
unfolding expected peek fail error Uses
expected-Uses n cost description [] ends h = ends
expected-Uses n cost description (t ∷ tokens) ends h = tt

pub expect_word-Uses : (n : ℕ) (w : Bytes) → Uses n one (expect_word w)
unfolding expect_word
expect_word-Uses n w =
    Uses-found n one (consume_word w) _ (λ b. omega arith) (consume_word-Uses n w)
      (Uses-pure {0} n free tt refl) (expected-Uses n one "expected a key word")

pub expect_simple-Uses :
    (n : ℕ) (kind : TokenKind) (description : String)
    → same_kind end kind ≡ false
    → Uses n one (expect_simple kind description)
unfolding expect_simple
expect_simple-Uses n kind description other =
    Uses-found n one (consume_simple kind) _ (λ b. omega arith) (consume_simple-Uses n kind other)
      (Uses-pure {0} n free tt refl) (expected-Uses n one description)

-- `End` stays, and every other token is taken.
advance_cases :
    (t : Token) (tokens : List Token)
    → Ends (t ∷ tokens)
    → ((t.kind ≡ end) × (advance (t ∷ tokens) ≡ some (ok (t, t ∷ tokens))))
      ⊎ (Ends tokens × (advance (t ∷ tokens) ≡ some (ok (t, tokens))))
unfolding advance at_end peek step_over same_kind tag
advance_cases t [] ends =
    let ended : same_kind t.kind end ≡ true = ap (λ k. same_kind k end) ends in
    inl (ends, rw ended refl)
advance_cases t (u ∷ tokens) ends = elim (Bool-cases (same_kind t.kind end)) [
  | inl e ↦ inl (same_kind-end t.kind e, rw e refl)
  | inr e ↦ inr (ends, rw e refl)
]

-- What is done with the next token, if `End` is refused.
pub Uses-advance {ℓ} :
    {A : Type ℓ} (n : ℕ) (f : ℕ → TokenKind → Parse A)
    → ((position : ℕ) (k : TokenKind) → Uses n free (f position k))
    → ((position : ℕ) (tokens : List Token) → (e : Error) × (f position end tokens ≡ some (err e)))
    → Uses n one (advance >>= λ token. f token.pos token.kind)
unfolding Uses
Uses-advance n f safe refuses [] ends h = absurd ends
Uses-advance n f safe refuses (t ∷ tokens) ends h =
    let size = suc (length tokens) in
    let next = λ (token : Token). f token.pos token.kind in
    elim (advance_cases t tokens ends) [
      | inl (last, e) ↦
          let (error, refused) = refuses t.pos (t ∷ tokens) in
          subst (λ r. Leaves size one (continue r next)) (sym e)
            (subst (λ k. Leaves size one (f t.pos k (t ∷ tokens))) (sym last)
              (subst (Leaves size one) (sym refused) tt))
      | inr (ends', e) ↦
          subst (λ r. Leaves size one (continue r next)) (sym e)
            (Leaves-mono (length tokens) size free one (f t.pos t.kind tokens) (omega arith)
              (λ a. omega arith) (safe t.pos t.kind tokens ends' (omega (arith, h))))
    ]

pub identifier-Uses : (n : ℕ) → Uses n one identifier
unfolding identifier word_of fail error
identifier-Uses n =
    Uses-advance n word_of
      (λ position k. elim k as (λ k. Uses n free (word_of position k)) [
        | word w ↦ Uses-pure n free w refl
        | _ ↦ Uses-fail {0} {A = Bytes} n free position "expected an identifier"
      ])
      (λ position tokens. (_, refl))

pub while_comma-Uses {ℓ} : {A : Type ℓ} (n : ℕ) (a : A) → Uses n if_again (while_comma a)
unfolding while_comma same_kind tag
while_comma-Uses n a =
    Uses-found n if_again (consume_simple comma) _ small_again (consume_simple-Uses n comma refl)
      (Uses-pure n free (again a) refl) (Uses-pure n if_again (stop a) refl)

module _ {ℓ} {A : Type ℓ} (n : ℕ) (round : A → Parse (Next A)) where
  -- A round on tokens that the fuel bounds, if the rounds after it leave what they should.
  repeat-next :
      (k fuel : ℕ) (r : Option (Result (Next A × List Token)))
      → k ≤ n
      → k ≤ fuel
      → Leaves k if_again r
      → ((b : A) (tokens : List Token)
          → Ends tokens
          → length tokens ≤ n
          → length tokens < fuel
          → Leaves (length tokens) free (repeat round fuel b tokens))
      → Leaves k free
          (continue r (λ next. elim next [ again b ↦ repeat round fuel b | stop b ↦ pure b ]))
  repeat-next k fuel none fits enough l ih = l
  repeat-next k fuel (some (err e)) fits enough l ih = tt
  repeat-next k fuel (some (ok (stop b, tokens))) fits enough (ends, size) ih = (ends, size)
  repeat-next k fuel (some (ok (again b, tokens))) fits enough (ends, size) ih =
      Leaves-mono (length tokens) k free free (repeat round fuel b tokens) (omega (arith, size))
        (λ a. omega arith)
        (ih b tokens ends (omega (arith, size, fits)) (omega (arith, size, enough)))

  repeat-Uses :
      ((a : A) → Uses n if_again (round a))
      → (fuel : ℕ) (a : A) (tokens : List Token) → Ends tokens
      → length tokens ≤ n
      → length tokens < fuel
      → Leaves (length tokens) free (repeat round fuel a tokens)
  unfolding repeat Uses
  repeat-Uses u zero a tokens ends fits enough = absurd (omega (arith, enough))
  repeat-Uses u (suc fuel) a tokens ends fits enough =
      repeat-next (length tokens) fuel (round a tokens) fits (omega (arith, enough))
        (u a tokens ends fits) (repeat-Uses u fuel)

  -- A loop whose rounds take a token each, but for the last, comes to an end.
  pub loop-Uses : ((a : A) → Uses n if_again (round a)) → (a : A) → Uses n free (loop round a)
  unfolding loop Uses
  loop-Uses u a tokens ends fits =
      repeat-Uses u (suc (length tokens)) a tokens ends fits (omega arith)
