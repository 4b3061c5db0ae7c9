-- ===== src/Bytes/Utf8.antt =====
-- `String::from_utf8` and `str::from_utf8` of the standard library: a string is its bytes, and
-- is valid if it is a sequence of the well-formed code units of the Unicode standard
-- (table 3-7).
use nutdb.Prelude.{
  ℕ, zero, suc, ◌≤◌, ◌<◌, ◌≡◌, refl, sym, ap, ◌∙◌, Bool, true, false, ◌&&◌, List, [], ◌∷◌, arith,
  leb, if◌then◌else◌, String, All,
}
use native.Mathlib.Decide.{dec_lt}
use nutdb.Prelude.Io.{Result, ok, invalid}

-- What the next byte may be: the first of a character, or one in a range with more to follow.
pub data State : Type 0 where
  start : State
  within : ℕ → ℕ → ℕ → State
  bad : State

in_range : ℕ → ℕ → ℕ → Bool
in_range lo hi b = leb lo b && leb b hi

first : ℕ → State
unfolding in_range
first b =
    if leb b 0x7f
    then start
    else if in_range 0xc2 0xdf b
    then within 0x80 0xbf 0
    else if b_is 0xe0
    then within 0xa0 0xbf 1
    else if b_is 0xed
    then within 0x80 0x9f 1
    else if in_range 0xe1 0xef b
    then within 0x80 0xbf 1
    else if b_is 0xf0
    then within 0x90 0xbf 2
    else if in_range 0xf1 0xf3 b
    then within 0x80 0xbf 2
    else if b_is 0xf4
    then within 0x80 0x8f 2
    else bad
  where
    b_is : ℕ → Bool
    b_is v = in_range v v b

next : State → ℕ → State
unfolding first
next start b = first b
next (within lo hi zero) b = if in_range lo hi b then start else bad
next (within lo hi (suc k)) b = if in_range lo hi b then within 0x80 0xbf k else bad
next bad b = bad

accepts : State → List ℕ → Bool
unfolding next
accepts start [] = true
accepts _ [] = false
accepts s (b ∷ bs) = accepts (next s b) bs

unfoldable pub is_utf8 : List ℕ → Bool
unfolding accepts
is_utf8 = accepts start

unfoldable pub from_utf8 : String → List ℕ → Result (List ℕ)
from_utf8 message bs = if is_utf8 bs then ok bs else invalid message

-- "ключ" is valid; an overlong slash, a lone surrogate and a cut character are not.
is_utf8_runs :
    (is_utf8 (0xd0 ∷ 0xba ∷ 0xd0 ∷ 0xbb ∷ 0xd1 ∷ 0x8e ∷ 0xd1 ∷ 0x87 ∷ []) ≡ true)
    × (is_utf8 (0xc0 ∷ 0xaf ∷ []) ≡ false)
    × (is_utf8 (0xed ∷ 0xa0 ∷ 0x80 ∷ []) ≡ false)
    × (is_utf8 (0xf0 ∷ 0x9f ∷ 0x98 ∷ []) ≡ false)
unfolding is_utf8
is_utf8_runs = (refl, refl, refl, refl)

-- A state whose range lies below 256.
abbrev Low : State → Type 0
Low start = Unit {0}
Low (within lo hi k) = hi < 256
Low bad = Unit {0}

next-Low : (s : State) (b : ℕ) → Low s → Low (next s b)
unfolding next
next-Low start b h = ground arith
next-Low (within lo hi zero) b h = ground arith
next-Low (within lo hi (suc k)) b h = ground arith
next-Low bad b h = tt

next_large : (s : State) (b : ℕ) → Low s → 256 ≤ b → next s b ≡ bad
unfolding next
next_large start b h l = ground arith
next_large (within lo hi zero) b h l = ground arith
next_large (within lo hi (suc k)) b h l = ground arith
next_large bad b h l = refl

accepts_bad : (bs : List ℕ) → accepts bad bs ≡ false
unfolding accepts
accepts_bad [] = refl
accepts_bad (b ∷ bs) = accepts_bad bs

accepts_step : (s : State) (b : ℕ) (bs : List ℕ) → accepts s (b ∷ bs) ≡ accepts (next s b) bs
unfolding accepts
accepts_step start b bs = refl
accepts_step (within lo hi k) b bs = refl
accepts_step bad b bs = refl

accepts-IsByte : (s : State) (bs : List ℕ) → Low s → accepts s bs ≡ true → All (λ b. b < 256) bs
accepts-IsByte s [] l h = tt
accepts-IsByte s (b ∷ bs) l h =
    let h' : accepts (next s b) bs ≡ true = sym (accepts_step s b bs) ∙ h in
    (
      elim (dec_lt b 256) [
        | yes p ↦ p
        | no p ↦
            let e = next_large s b l (omega arith) in
            cc (h', ap (λ t. accepts t bs) e, accepts_bad bs)
      ],
      accepts-IsByte (next s b) bs (next-Low s b l) h',
    )

-- A valid string is made of bytes.
pub is_utf8-IsByte : (bs : List ℕ) → is_utf8 bs ≡ true → All (λ b. b < 256) bs
unfolding is_utf8
is_utf8-IsByte bs h = accepts-IsByte start bs tt h
