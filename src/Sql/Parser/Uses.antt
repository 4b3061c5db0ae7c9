-- ===== src/Sql/Parser/Uses.antt =====
-- How many tokens the methods of src/sql/parser.rs take: the rules by which they neither panic nor
-- run out of fuel.
use nutdb.Prelude.{
  ℕ, ◌+◌, ◌-◌, ◌≤◌, ◌≡◌, Bool, true, false, Option, none, some, List, [], ◌∷◌, arith, if◌then◌else◌,
  length, String,
}
use nutdb.Prelude.Io.{Result, ok, err}
use nutdb.Sql.Lexer.{Token, end, error}
use nutdb.Sql.Parser.{Parse, pure, continue, ◌>>=◌, fail, Next, again, stop}

-- The tokens end with `End`.
abbrev pub Ends : List Token → Type 0
Ends [] = ⊥
Ends (t ∷ []) = t.kind ≡ end
Ends (t ∷ u ∷ tokens) = Ends (u ∷ tokens)

-- An error, or a result and the tokens left, which are at least `cost` less than `n`.
abbrev pub Leaves {ℓ} : {A : Type ℓ} → ℕ → (A → ℕ) → Option (Result (A × List Token)) → Type 0
Leaves n cost none = ⊥
Leaves n cost (some (err e)) = Unit
Leaves n cost (some (ok (a, tokens))) = Ends tokens × (length tokens + cost a ≤ n)

-- On at most `n` tokens a method neither panics nor runs out of fuel, and takes at least `cost` of
-- them if it succeeds.
unfoldable pub Uses {ℓ} : {A : Type ℓ} → ℕ → (A → ℕ) → Parse A → Type 0
Uses n cost p =
    (tokens : List Token) → Ends tokens → length tokens ≤ n → Leaves (length tokens) cost (p tokens)

module _ {ℓ} {A : Type ℓ} where
  pub Uses-pure : (n : ℕ) (cost : A → ℕ) (a : A) → cost a ≡ 0 → Uses n cost (pure a)
  unfolding Uses
  Uses-pure n cost a free tokens ends h = (ends, omega (arith, free))

  pub Leaves-mono :
      (n m : ℕ) (cost cost' : A → ℕ) (r : Option (Result (A × List Token)))
      → n ≤ m
      → ((a : A) → cost' a ≤ cost a + (m - n))
      → Leaves n cost r
      → Leaves m cost' r
  Leaves-mono n m cost cost' none h c l = l
  Leaves-mono n m cost cost' (some (err e)) h c l = tt
  Leaves-mono n m cost cost' (some (ok (a, tokens))) h c (ends, size) =
      (ends, omega (arith, c a, size, h))

  pub Uses_mono :
      (n m : ℕ) (cost cost' : A → ℕ) (p : Parse A)
      → m ≤ n
      → ((a : A) → cost' a ≤ cost a)
      → Uses n cost p
      → Uses m cost' p
  unfolding Uses
  Uses_mono n m cost cost' p h c u tokens ends fits =
      Leaves-mono (length tokens) (length tokens) cost cost' (p tokens) (omega arith)
        (λ a. omega (arith, c a)) (u tokens ends (omega (arith, fits, h)))

  pub Uses-if :
      (n : ℕ) (cost : A → ℕ) (b : Bool) (p q : Parse A)
      → Uses n cost p
      → Uses n cost q
      → Uses n cost (if b then p else q)
  Uses-if n cost true p q u v = u
  Uses-if n cost false p q u v = v

  pub Uses-fail :
      (n : ℕ) (cost : A → ℕ) (position : ℕ) (message : String) → Uses n cost (fail position message)
  unfolding fail error Uses
  Uses-fail n cost position message tokens ends h = tt

module _ {ℓ κ} {A : Type ℓ} {B : Type κ} where
  Leaves-continue :
      (n k : ℕ) (cost : A → ℕ) (cost' : B → ℕ) (r : Option (Result (A × List Token)))
      (f : A → Parse B)
      → k ≤ n
      → Leaves k cost r
      → ((a : A) → Uses (n - cost a) (λ b. cost' b - cost a) (f a))
      → Leaves k cost' (continue r f)
  unfolding Uses
  Leaves-continue n k cost cost' none f h l u = l
  Leaves-continue n k cost cost' (some (err e)) f h l u = tt
  Leaves-continue n k cost cost' (some (ok (a, tokens))) f h (ends, size) u =
      Leaves-mono (length tokens) k (λ b. cost' b - cost a) cost' (f a tokens) (omega (arith, size))
        (λ b. omega (arith, size)) (u a tokens ends (omega (arith, h, size)))

  -- What the second method may rest on is less by what the first took.
  pub Uses-bind :
      (n : ℕ) (cost : A → ℕ) (cost' : B → ℕ) (p : Parse A) (f : A → Parse B)
      → Uses n cost p
      → ((a : A) → Uses (n - cost a) (λ b. cost' b - cost a) (f a))
      → Uses n cost' (p >>= f)
  unfolding Uses
  Uses-bind n cost cost' p f u v tokens ends h =
      Leaves-continue n (length tokens) cost cost' (p tokens) f h (u tokens ends h) v

abbrev pub free {ℓ} : {A : Type ℓ} → A → ℕ
free a = 0

abbrev pub one {ℓ} : {A : Type ℓ} → A → ℕ
one a = 1

-- The cost of a token that is taken only if the test holds.
abbrev pub if_found : Bool → ℕ
if_found b = if b then 1 else 0

-- A round that goes on has taken a token.
abbrev pub if_again {ℓ} : {A : Type ℓ} → Next A → ℕ
if_again (again a) = 1
if_again (stop a) = 0

pub small_again {ℓ} : {A : Type ℓ} (x : Next A) → if_again x ≤ 1
small_again (again a) = omega arith
small_again (stop a) = omega arith

module _ {ℓ κ} {A : Type ℓ} {B : Type κ} where
  pub Uses-then :
      (n : ℕ) (cost : B → ℕ) (p : Parse A) (f : A → Parse B)
      → Uses n free p
      → ((a : A) → Uses n cost (f a))
      → Uses n cost (p >>= f)
  Uses-then n cost p f u v =
      Uses-bind n free cost p f u
        λ a. Uses_mono n (n - 0) cost (λ b. cost b - 0) (f a) (omega arith) (λ b. omega arith) (v a)

  -- The first method takes the token that the whole is to take.
  pub Uses-eats :
      (n : ℕ) (cost : B → ℕ) (p : Parse A) (f : A → Parse B)
      → ((b : B) → cost b ≤ 1)
      → Uses n one p
      → ((a : A) → Uses n free (f a))
      → Uses n cost (p >>= f)
  Uses-eats n cost p f small u v = Uses-bind n one cost p f u λ a.
      Uses_mono n (n - 1) free (λ b. cost b - 1) (f a) (omega arith) (λ b. omega (arith, small b))
        (v a)

module _ {κ} {B : Type κ} where
  pub Uses-found_less :
      (n : ℕ) (cost : B → ℕ) (p : Parse Bool) (f : Bool → Parse B)
      → ((b : B) → cost b ≤ 1)
      → Uses n if_found p
      → Uses (n - 1) free (f true)
      → Uses n cost (f false)
      → Uses n cost (p >>= f)
  Uses-found_less n cost p f small u v w = Uses-bind n if_found cost p f u λ found.
      elim found as (λ found. Uses (n - if_found found) (λ b. cost b - if_found found) (f found)) [
        | true ↦
            Uses_mono (n - 1) (n - 1) free (λ b. cost b - 1) (f true) (omega arith)
              (λ b. omega (arith, small b)) v
        | false ↦
            Uses_mono n (n - 0) cost (λ b. cost b - 0) (f false) (omega arith) (λ b. omega arith) w
      ]

  -- A token is taken if it is found.
  pub Uses-found :
      (n : ℕ) (cost : B → ℕ) (p : Parse Bool) (f : Bool → Parse B)
      → ((b : B) → cost b ≤ 1)
      → Uses n if_found p
      → Uses n free (f true)
      → Uses n cost (f false)
      → Uses n cost (p >>= f)
  Uses-found n cost p f small u v w =
      Uses-found_less n cost p f small u
        (Uses_mono n (n - 1) free free (f true) (omega arith) (λ b. omega arith) v) w

module _ {ℓ} {A : Type ℓ} where
  pub Uses-spends : (n : ℕ) (p : Parse A) → Uses n one p → Uses n free p
  Uses-spends n p u = Uses_mono n n one free p (omega arith) (λ a. omega arith) u

  pub Uses_zero : (cost : A → ℕ) (p : Parse A) → Uses 0 cost p
  unfolding Uses
  Uses_zero cost p [] ends h = absurd ends
  Uses_zero cost p (t ∷ tokens) ends h = absurd (omega (arith, h))
