-- ===== src/Catalog/Strings.antt =====
-- The string functions of the standard library that src/catalog.rs uses, on bytes.
use nutdb.Prelude.{
  ℕ, ◌≡◌, ◌≢◌, refl, ap, ◌∙◌, List, [], ◌∷◌, ◌++◌, arith, ◌==◌, if◌then◌else◌, All, All-mono,
  ==_refl, ==_false,
}
use mathlib.Core.Path.{ap₂}
use nutdb.Bytes.{Bytes}

-- `[_]::join(separator)`
unfoldable pub join : ℕ → List Bytes → Bytes
join separator [] = []
join separator (part ∷ []) = part
join separator (part ∷ part' ∷ parts) = part ++ separator ∷ join separator (part' ∷ parts)

-- A byte before the parts of a split, which are never none.
unfoldable pub onto_first : ℕ → List Bytes → List Bytes
onto_first b [] = (b ∷ []) ∷ []
onto_first b (part ∷ parts) = (b ∷ part) ∷ parts

-- `str::split(separator)`
unfoldable pub split : ℕ → Bytes → List Bytes
split separator [] = [] ∷ []
split separator (b ∷ bs) =
    let parts = split separator bs in if b == separator then [] ∷ parts else onto_first b parts

-- `strip_suffix('\r')`
unfoldable pub strip_return : Bytes → Bytes
strip_return [] = []
strip_return (b ∷ []) = if b == 13 then [] else b ∷ []
strip_return (b ∷ b' ∷ bs) = b ∷ strip_return (b' ∷ bs)

-- The lines among the parts between line feeds: each of them but the last had a line feed, and the
-- last counts if it is not empty.
unfoldable pub lines_of : List Bytes → List Bytes
lines_of [] = []
lines_of ([] ∷ []) = []
lines_of ((b ∷ bs) ∷ []) = (b ∷ bs) ∷ []
lines_of (part ∷ part' ∷ parts) = strip_return part ∷ lines_of (part' ∷ parts)

-- `str::lines`
unfoldable pub lines : Bytes → List Bytes
lines bs = lines_of (split 10 bs)

-- A string without a byte.
abbrev pub Without : ℕ → Bytes → Type 0
Without b = All (λ c. c ≢ b)

split_part :
    (separator : ℕ) (part : Bytes) → Without separator part → split separator part ≡ part ∷ []
unfolding split onto_first
split_part separator [] h = refl
split_part separator (b ∷ bs) h = rw (split_part separator bs h.1, ==_false b separator h.0) refl

pub split_parts :
    (separator : ℕ) (part rest : Bytes)
    → Without separator part
    → split separator (part ++ separator ∷ rest) ≡ part ∷ split separator rest
unfolding split onto_first
split_parts separator [] rest h = rw (==_refl separator) refl
split_parts separator (b ∷ bs) rest h =
    rw (split_parts separator bs rest h.1, ==_false b separator h.0) refl

-- What is joined, comes apart at the separator.
pub split-join :
    (separator : ℕ) (part : Bytes) (parts : List Bytes)
    → All (Without separator) (part ∷ parts)
    → split separator (join separator (part ∷ parts)) ≡ part ∷ parts
unfolding join
split-join separator part [] h = split_part separator part h.0
split-join separator part (part' ∷ parts) h =
    split_parts separator part _ h.0 ∙ ap (λ t. part ∷ t) (split-join separator part' parts h.1)

-- A line that ends with another character than a carriage return keeps all.
strip_return-append : (bs : Bytes) (b : ℕ) → b ≢ 13 → strip_return (bs ++ b ∷ []) ≡ bs ++ b ∷ []
unfolding strip_return
strip_return-append [] b h = rw (==_false b 13 h) refl
strip_return-append (c ∷ []) b h = ap (λ t. c ∷ t) (strip_return-append [] b h)
strip_return-append (c ∷ c' ∷ bs) b h = ap (λ t. c ∷ t) (strip_return-append (c' ∷ bs) b h)

-- A line that is not empty and does not end with a carriage return.
abbrev pub IsLine : Bytes → Type 0
IsLine line =
    (front : Bytes) × (last : ℕ) × (line ≡ front ++ last ∷ []) × (last ≢ 13) × Without 10 line

strip_return-IsLine : (line : Bytes) → IsLine line → strip_return line ≡ line
strip_return-IsLine line (front, last, e, n, w) = rw (e) (strip_return-append front last n)

lines_of-IsLine : (line : Bytes) → IsLine line → lines_of (line ∷ []) ≡ line ∷ []
unfolding lines_of
lines_of-IsLine [] ([], last, e, n, w) = ground arith
lines_of-IsLine [] (f ∷ front, last, e, n, w) = ground arith
lines_of-IsLine (b ∷ bs) l = refl

lines_of-All :
    (line : Bytes) (rest : List Bytes)
    → All IsLine (line ∷ rest)
    → lines_of (line ∷ rest) ≡ line ∷ rest
unfolding lines_of strip_return
lines_of-All line [] h = lines_of-IsLine line h.0
lines_of-All [] (line' ∷ rest) h = ap (λ t. [] ∷ t) (lines_of-All line' rest h.1)
lines_of-All (b ∷ bs) (line' ∷ rest) h =
    ap₂ ◌∷◌ (strip_return-IsLine (b ∷ bs) h.0) (lines_of-All line' rest h.1)

-- Lines that are joined are read again as they were.
pub lines-join :
    (line : Bytes) (rest : List Bytes)
    → All IsLine (line ∷ rest)
    → lines (join 10 (line ∷ rest)) ≡ line ∷ rest
unfolding lines
lines-join line rest h =
    rw (split-join 10 line rest (All-mono (λ l i. i.4) (line ∷ rest) h)) (lines_of-All line rest h)
