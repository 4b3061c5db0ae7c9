-- ===== src/Bytes/Decoding.antt =====
-- The cursor of the decoders: bytes and an offset. `slice` is `bytes.get(offset..offset + len)`,
-- which also stands for `checked_add(len).filter(end <= bytes.len())`: an offset and a length
-- that overflow a `usize` exceed every buffer.
use nutdb.Prelude.{
  ℕ, ◌+◌, ◌≡◌, refl, sym, ap, ◌∙◌, Option, none, some, List, [], ◌∷◌, ◌++◌, arith, leb,
  if◌then◌else◌, length, take, drop, get_elem?, take-append, drop-append, drop-drop, length-append,
  zero, suc,
}
use nutdb.Prelude.Io.{Result, ok, ◌>>=◌}

pub record Cursor : Type 0 where
  pub bytes : List ℕ
  pub offset : ℕ

abbrev pub slice : ℕ → Cursor → Option (List ℕ)
slice len c =
    if leb (c.offset + len) (length c.bytes) then some (take len (drop c.offset c.bytes)) else none

abbrev pub move : ℕ → Cursor → Cursor
move len c = record c { offset = c.offset + len }

-- The cursor stands in `total` bytes before `rest`, which runs to their end.
pub record At (total : ℕ) (c : Cursor) (rest : List ℕ) : Type 0 where
  pub size : length c.bytes ≡ total
  pub left : drop c.offset c.bytes ≡ rest
  pub fits : c.offset + length rest ≡ length c.bytes

pub At-start : (bytes : List ℕ) → At (length bytes) (record { bytes = bytes; offset = 0 }) bytes
At-start bytes = record { size = refl; left = refl; fits = omega arith }

pub At-move :
    {total : ℕ} (c : Cursor) (n : ℕ) (front rest : List ℕ)
    → length front ≡ n
    → At total c (front ++ rest)
    → At total (move n c) rest
At-move c n front rest len h = record {
  size = h.size;
  left =
      sym (drop-drop c.offset n c.bytes)
      ∙ ap (drop n) h.left
      ∙ ap (λ k. drop k (front ++ rest)) (sym len)
      ∙ drop-append front rest;
  fits = omega (arith, h.fits, length-append front rest);
}

pub slice-At :
    {total : ℕ} (c : Cursor) (n : ℕ) (front rest : List ℕ)
    → length front ≡ n
    → At total c (front ++ rest)
    → slice n c ≡ some front
slice-At c n front rest len h = ground (
  arith,
  h.left,
  h.fits,
  ap (λ k. take k (front ++ rest)) len,
  take-append front rest,
  length-append front rest,
)

-- A read that gives `a` and leaves the cursor before `rest`.
abbrev pub Reads {ℓ} : ℕ → {A : Type ℓ} → Result (A × Cursor) → A → List ℕ → Type ℓ
Reads total m a rest = (c : Cursor) × (m ≡ ok (a, c)) × At total c rest

pub Reads-bind {ℓ κ} :
    {A : Type ℓ} {B : Type κ} (m : Result (A × Cursor)) (f : A × Cursor → Result (B × Cursor))
    {total : ℕ} {a : A} {b : B} {rest rest' : List ℕ}
    → Reads total m a rest
    → ((c : Cursor) → At total c rest → Reads total (f (a, c)) b rest')
    → Reads total (m >>= f) b rest'
Reads-bind m f (c, e, at) k = rw e (k c at)

pub Reads-ok {ℓ} :
    {A : Type ℓ} {total : ℕ} (a : A) {c : Cursor} {rest : List ℕ}
    → At total c rest
    → Reads total (ok (a, c)) a rest
Reads-ok a {c} at = (c, refl, at)

-- At the end of the bytes the offset is their number.
pub At-end : {total : ℕ} (c : Cursor) → At total c [] → c.offset ≡ total
At-end c at = omega (arith, at.fits, at.size)

get_elem?-drop {ℓ} :
    {A : Type ℓ} (n : ℕ) (xs : List A) {x : A} {rest : List A}
    → drop n xs ≡ x ∷ rest
    → get_elem? xs n ≡ some x
get_elem?-drop zero [] e = ground arith
get_elem?-drop (suc n) [] e = ground arith
get_elem?-drop zero (x ∷ xs) e = ground arith
get_elem?-drop (suc n) (x ∷ xs) e = get_elem?-drop n xs e

-- The next byte is `bytes.get(offset)`.
pub get_elem?-At :
    {total : ℕ} (c : Cursor) {b : ℕ} {rest : List ℕ}
    → At total c (b ∷ rest)
    → get_elem? c.bytes c.offset ≡ some b
get_elem?-At c at = get_elem?-drop c.offset c.bytes at.left
