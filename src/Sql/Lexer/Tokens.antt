-- ===== src/Sql/Lexer/Tokens.antt =====
-- The loop of src/sql/lexer.rs ends, and where its tokens stand.
use nutdb.Prelude.{
  ℕ, zero, suc, ◌-◌, ◌≤◌, ◌<◌, ◌≡◌, refl, inl, inr, Bool, true, false, ◌||◌, Option, none, some,
  List, [], ◌∷◌, arith, ◌==◌, if◌then◌else◌, length, Bool-cases, Option-cases,
}
use nutdb.Prelude.Io.{Result, ok, err, ◌>>=◌}
use nutdb.Bytes.{Bytes}
use nutdb.Sql.Lexer.{
  TokenKind, Token, end, error, is_ascii_whitespace, is_ascii_digit, is_ascii_alphabetic,
  is_word_byte, span, read_string, parse_i64, lex_digits, lex_minus, before_equals, lex_comparison,
  punctuation, lex_other, lex_token, lex_round, push, lex_loop, lex, string, integer,
}

-- What a step leaves of the source, if it succeeds, has at most `n` bytes.
abbrev pub Within {ℓ} : {A : Type ℓ} → ℕ → Result (A × Bytes) → Type 0
Within n (ok (a, back)) = length back ≤ n
Within n (err e) = Unit

Within-if {ℓ} :
    {A : Type ℓ} (n : ℕ) (b : Bool) (x y : Result (A × Bytes))
    → (b ≡ true → Within n x)
    → (b ≡ false → Within n y)
    → Within n (if b then x else y)
Within-if n true x y h k = h refl
Within-if n false x y h k = k refl

Within-bind {ℓ κ} :
    {A : Type ℓ} {B : Type κ} (n : ℕ) (m : Result (A × Bytes)) (f : A → B)
    → Within n m
    → Within n (m >>= λ (a, back). ok (f a, back))
Within-bind n (ok (a, back)) f h = h
Within-bind n (err e) f h = tt

Within-option {ℓ κ} :
    {A : Type ℓ} {B : Type κ} (n : ℕ) (o : Option B) (x : Result (A × Bytes))
    (f : B → Result (A × Bytes))
    → Within n x
    → ((b : B) → o ≡ some b → Within n (f b))
    → Within n (elim o [ none ↦ x | some b ↦ f b ])
Within-option n none x f h k = h
Within-option n (some b) x f h k = k b refl

span_le : (test : ℕ → Bool) (rest : Bytes) → length (span test rest).1 ≤ length rest
unfolding span
span_le test [] = omega arith
span_le test (byte ∷ rest) = elim (Bool-cases (test byte)) [
  | inl e ↦ rw e (omega (arith, span_le test rest))
  | inr e ↦ rw e (omega arith)
]

Within-suc {ℓ} : {A : Type ℓ} (n : ℕ) (m : Result (A × Bytes)) → Within n m → Within (suc n) m
Within-suc n (ok (a, back)) h = omega (arith, h)
Within-suc n (err e) h = tt

read_string-Within :
    (position : ℕ) (quote : Bool) (rest : Bytes)
    → Within (length rest) (read_string position quote rest)
unfolding read_string error
read_string-Within position false [] = tt
read_string-Within position true [] = omega arith
read_string-Within position false (byte ∷ rest) =
    let more =
      Within-suc (length rest) (read_string position (byte == 39) rest)
        (read_string-Within position (byte == 39) rest) in
    Within-if (suc (length rest)) (byte == 39) _ _ (λ _. more)
      (λ _.
        Within-bind (suc (length rest)) (read_string position (byte == 39) rest)
          (λ value. byte ∷ value) more)
read_string-Within position true (byte ∷ rest) =
    let more =
      Within-suc (length rest) (read_string position false rest)
        (read_string-Within position false rest) in
    Within-if (suc (length rest)) (byte == 39) _ _
      (λ _.
        Within-bind (suc (length rest)) (read_string position false rest) (λ value. 39 ∷ value)
          more)
      (λ _. omega arith)

lex_digits-Within :
    (position : ℕ) (minus : Bool) (rest : Bytes) (n : ℕ)
    → length (span is_ascii_digit rest).1 ≤ n
    → Within n (lex_digits position minus rest)
unfolding lex_digits error
lex_digits-Within position minus rest n h =
    let (digits, back) = span is_ascii_digit rest in
    Within-option n (parse_i64 minus digits) (error position "integer literal out of range")
      (λ value. ok (integer value, back)) tt (λ value _. h)

lex_minus-Within : (position : ℕ) (rest : Bytes) → Within (length rest) (lex_minus position rest)
unfolding lex_minus error
lex_minus-Within position [] = tt
lex_minus-Within position (byte ∷ rest) =
    Within-if (suc (length rest)) (is_ascii_digit byte) _ _
      (λ _.
        lex_digits-Within position true (byte ∷ rest) (suc (length rest))
          (span_le is_ascii_digit (byte ∷ rest)))
      (λ _. tt)

span-taken :
    (test : ℕ → Bool) (byte : ℕ) (rest : Bytes)
    → test byte ≡ true
    → length (span test (byte ∷ rest)).1 ≤ length rest
unfolding span
span-taken test byte rest h = rw h (span_le test rest)

lex_other-Within :
    (position byte : ℕ) (rest : Bytes) → Within (length rest) (lex_other position byte rest)
unfolding lex_other error
lex_other-Within position byte rest =
    let n = length rest in
    Within-if n (byte == 39) _ _
      (λ _.
        Within-bind n (read_string position false rest) string
          (read_string-Within position false rest))
      λ _.
        Within-if n (byte == 45) _ _ (λ _. lex_minus-Within position rest)
          λ _.
            Within-if n (is_ascii_digit byte) _ _
              (λ d.
                lex_digits-Within position false (byte ∷ rest) n
                  (span-taken is_ascii_digit byte rest d))
              λ _.
                Within-if n (is_ascii_alphabetic byte || byte == 95) _ _
                  (λ _. span_le is_word_byte rest) (λ _. tt)

before_equals_le : (rest back : Bytes) → before_equals rest ≡ some back → length back ≤ length rest
unfolding before_equals
before_equals_le [] back h = ground arith
before_equals_le (byte ∷ rest) back h = ground arith

lex_comparison_le :
    (byte : ℕ) (rest back : Bytes) (kind : TokenKind)
    → lex_comparison byte rest ≡ some (kind, back)
    → length back ≤ length rest
unfolding lex_comparison
lex_comparison_le byte rest back kind h = elim (Option-cases (before_equals rest)) [
  | inl e ↦ ground arith
  | inr (back', e) ↦ ground (arith, before_equals_le rest back' e)
]

lex_token-Within :
    (position byte : ℕ) (rest : Bytes) → Within (length rest) (lex_token position byte rest)
unfolding lex_token
lex_token-Within position byte rest =
    let n = length rest in
    Within-option n (punctuation byte) _ _
      (Within-option n (lex_comparison byte rest) _ _ (lex_other-Within position byte rest)
        (λ (kind, back) e. lex_comparison_le byte rest back kind e))
      (λ kind _. omega arith)

pub lex_round-Within :
    (position byte : ℕ) (rest : Bytes) → Within (length rest) (lex_round position byte rest)
unfolding lex_round
lex_round-Within position byte rest =
    Within-if (length rest) (is_ascii_whitespace byte) _ _ (λ _. omega arith)
      (λ _.
        Within-bind (length rest) (lex_token position byte rest)
          (λ kind. some (record { kind = kind; pos = position }))
          (lex_token-Within position byte rest))

ends_round :
    (n : ℕ) (m : Result (Option Token × Bytes)) (next : Bytes → Option (Result (List Token)))
    → Within n m
    → ((back : Bytes) → length back ≤ n → (r : Result (List Token)) × (next back ≡ some r))
    → (r : Result (List Token)) × (elim m [
      | err e ↦ some (err e)
      | ok (token, back) ↦ elim (next back) [
        | none ↦ none
        | some more ↦ some (more >>= λ tokens. ok (push token tokens))
      ]
    ]
        ≡ some r)
ends_round n (err e) next w h = (err e, refl)
ends_round n (ok (token, back)) next w h =
    let (more, e) = h back w in (more >>= (λ tokens. ok (push token tokens)), rw e refl)

pub lex_loop_ends :
    (fuel total : ℕ) (rest : Bytes)
    → length rest < fuel
    → (r : Result (List Token)) × (lex_loop fuel total rest ≡ some r)
unfolding lex_loop
lex_loop_ends zero total rest h = absurd (omega arith)
lex_loop_ends (suc fuel) total [] h = (ok (record { kind = end; pos = total } ∷ []), refl)
lex_loop_ends (suc fuel) total (byte ∷ rest) h =
    let position = total - suc (length rest) in
    ends_round (length rest) (lex_round position byte rest) (lex_loop fuel total)
      (lex_round-Within position byte rest)
      (λ back shorter. lex_loop_ends fuel total back (omega (arith, h, shorter)))

-- The lexer ends on every source, with tokens or with an error.
pub lex_ends : (source : Bytes) → (r : Result (List Token)) × (lex source ≡ some r)
unfolding lex
lex_ends source = lex_loop_ends (suc (length source)) (length source) source (omega arith)
