-- ===== src/Catalog/Schemas.antt =====
-- Which schemas `validate` of src/catalog.rs accepts, and how they are kept.
use nutdb.Prelude.{
  ℕ, zero, suc, ◌≡◌, ◌≢◌, ◌↔◌, refl, sym, ap, inl, inr, true, false, some, List, [], ◌∷◌, ◌++◌,
  arith, get_elem?, All, All-append, All-append_inv, All-mono, All-zip, Bool-cases, or_false,
}
use nutdb.Prelude.Io.{ok}
use nutdb.Prelude.Order.{same_iff, bytes_order}
use nutdb.Sql.Ast.{ColumnDef}
use nutdb.Catalog.{
  Schema, any, same_name, primary_keys, has_duplicate, validate, primary_index, position,
}

-- Every column from here on has another name than those before it.
abbrev pub Distinct : List ColumnDef → Type 0
Distinct [] = Unit
Distinct (c ∷ columns) = All (λ (d : ColumnDef). d.name ≢ c.name) columns × Distinct columns

-- One column is the primary key, and no two have the same name.
pub record IsValid (schema : Schema) : Type 0 where
  pub key : ℕ
  pub key_column : ColumnDef
  pub at_key : get_elem? schema.columns key ≡ some key_column
  pub is_key : key_column.primary_key ≡ true
  pub only_key :
      (j : ℕ) (d : ColumnDef) → get_elem? schema.columns j ≡ some d → d.primary_key ≡ true → j ≡ key
  pub distinct : Distinct schema.columns

none-primary_keys :
    (columns : List ColumnDef)
    → ((j : ℕ) (d : ColumnDef) → get_elem? columns j ≡ some d → d.primary_key ≡ false)
    → primary_keys columns ≡ 0
unfolding primary_keys
none-primary_keys [] h = refl
none-primary_keys (c ∷ columns) h =
    ground (arith, h 0 c refl, none-primary_keys columns (λ j. h (suc j)))

primary_keys-none :
    (columns : List ColumnDef) (j : ℕ) (d : ColumnDef)
    → primary_keys columns ≡ 0
    → get_elem? columns j ≡ some d
    → d.primary_key ≡ false
unfolding primary_keys
primary_keys-none [] j d h at = ground arith
primary_keys-none (c ∷ columns) zero d h at = ground arith
primary_keys-none (c ∷ columns) (suc j) d h at = primary_keys-none columns j d (ground arith) at

primary_keys-one :
    (columns : List ColumnDef)
    → primary_keys columns ≡ 1
    → (k : ℕ) × (c : ColumnDef) × (get_elem? columns k ≡ some c)
      × (c.primary_key ≡ true)
      × ((j : ℕ) (d : ColumnDef) → get_elem? columns j ≡ some d → d.primary_key ≡ true → j ≡ k)
unfolding primary_keys
primary_keys-one [] h = absurd (omega arith)
primary_keys-one (c ∷ columns) h = elim (Bool-cases c.primary_key) [
  | inl e ↦ (0, c, refl, e, only e)
  | inr e ↦
      let (k, d, at, key, rest) = primary_keys-one columns (ground arith) in
      (suc k, d, at, key, later e k rest)
]
  where
    only :
        c.primary_key ≡ true
        → (j : ℕ) (d : ColumnDef) → get_elem? (c ∷ columns) j ≡ some d
        → d.primary_key ≡ true
        → j ≡ 0
    only e zero d at p = refl
    only e (suc j) d at p =
        let none_left : primary_keys columns ≡ 0 = ground (arith, h, e) in
        ground (arith, primary_keys-none columns j d none_left at, p)

    later :
        c.primary_key ≡ false
        → (k : ℕ)
        → ((j : ℕ) (d : ColumnDef) → get_elem? columns j ≡ some d → d.primary_key ≡ true → j ≡ k)
        → (j : ℕ) (d : ColumnDef) → get_elem? (c ∷ columns) j ≡ some d
        → d.primary_key ≡ true
        → j ≡ suc k
    later e k rest zero d at p = ground (arith, at, e, p)
    later e k rest (suc j) d at p = ap suc (rest j d at p)

one-primary_keys :
    (columns : List ColumnDef) (k : ℕ) (c : ColumnDef)
    → get_elem? columns k ≡ some c
    → c.primary_key ≡ true
    → ((j : ℕ) (d : ColumnDef) → get_elem? columns j ≡ some d → d.primary_key ≡ true → j ≡ k)
    → primary_keys columns ≡ 1
unfolding primary_keys
one-primary_keys [] k c at key only = ground arith
one-primary_keys (b ∷ columns) zero c at key only =
    let none_left = none-primary_keys columns λ j d at'. elim (Bool-cases d.primary_key) [
      | inl e ↦ absurd (omega (arith, only (suc j) d at' e))
      | inr e ↦ e
    ] in
    ground (arith, at, key, none_left)
one-primary_keys (b ∷ columns) (suc k) c at key only =
    let other : b.primary_key ≡ false = elim (Bool-cases b.primary_key) [
      | inl e ↦ absurd (omega (arith, only 0 b refl e))
      | inr e ↦ e
    ] in
    ground (
      arith,
      other,
      one-primary_keys columns k c at key λ j d at' e. omega (arith, only (suc j) d at' e),
    )

-- No earlier column has the name of this one.
abbrev IsNew : List ColumnDef → ColumnDef → Type 0
IsNew earlier c = All (λ (d : ColumnDef). c.name ≢ d.name) earlier

any_same-IsNew :
    (earlier : List ColumnDef) (c : ColumnDef)
    → any (same_name c.name) earlier ≡ false
    → IsNew earlier c
any_same-IsNew [] c h = tt
any_same-IsNew (d ∷ earlier) c h =
    let (here, rest) = or_false (same_name c.name d) (any (same_name c.name) earlier) h in
    (
      λ e. ground (arith, (same_iff ⦃o = bytes_order⦄ d.name c.name).1 (sym e), here),
      any_same-IsNew earlier c rest,
    )

IsNew-any_same :
    (earlier : List ColumnDef) (c : ColumnDef)
    → IsNew earlier c
    → any (same_name c.name) earlier ≡ false
IsNew-any_same [] c h = refl
IsNew-any_same (d ∷ earlier) c h = elim (Bool-cases (same_name c.name d)) [
  | inl e ↦ absurd (h.0 (sym ((same_iff ⦃o = bytes_order⦄ d.name c.name).0 e)))
  | inr e ↦ rw (e) (IsNew-any_same earlier c h.1)
]

has_duplicate-Distinct :
    (earlier columns : List ColumnDef)
    → has_duplicate earlier columns ≡ false
    → All (IsNew earlier) columns × Distinct columns
unfolding has_duplicate
has_duplicate-Distinct earlier [] h = (tt, tt)
has_duplicate-Distinct earlier (c ∷ columns) h =
    let (here, rest) = or_false (any (same_name c.name) earlier) _ h in
    let (new, distinct) = has_duplicate-Distinct (earlier ++ c ∷ []) columns rest in
    let split = λ (d : ColumnDef) (n : IsNew (earlier ++ c ∷ []) d).
      All-append_inv (λ (e : ColumnDef). d.name ≢ e.name) earlier (c ∷ []) n in
    (
      (any_same-IsNew earlier c here, All-mono (λ d n. (split d n).0) columns new),
      (All-mono (λ d n. (split d n).1.0) columns new, distinct),
    )

Distinct-has_duplicate :
    (earlier columns : List ColumnDef)
    → All (IsNew earlier) columns
    → Distinct columns
    → has_duplicate earlier columns ≡ false
unfolding has_duplicate
Distinct-has_duplicate earlier [] new distinct = refl
Distinct-has_duplicate earlier (c ∷ columns) new distinct =
    let new' =
      All-zip
        (λ (d : ColumnDef) n apart.
          All-append (λ (e : ColumnDef). d.name ≢ e.name) earlier (c ∷ []) n (apart, tt))
        columns new.1 distinct.0 in
    rw (IsNew-any_same earlier c new.0)
      (Distinct-has_duplicate (earlier ++ c ∷ []) columns new' distinct.1)

All-IsNew : (columns : List ColumnDef) → All (IsNew []) columns
All-IsNew [] = tt
All-IsNew (c ∷ columns) = (tt, All-IsNew columns)

validate_passed :
    (schema : Schema)
    → validate schema ≡ ok tt
    → (primary_keys schema.columns ≡ 1) × (has_duplicate [] schema.columns ≡ false)
unfolding validate
validate_passed schema h = (ground arith, ground arith)

validate_passes :
    (schema : Schema)
    → primary_keys schema.columns ≡ 1
    → has_duplicate [] schema.columns ≡ false
    → validate schema ≡ ok tt
unfolding validate primary_keys
validate_passes schema one apart = ground arith

-- A schema is accepted exactly if one column, and no other, is the primary key, and if no two
-- columns have the same name.
pub validate-IsValid : (schema : Schema) → (validate schema ≡ ok tt) ↔ IsValid schema
validate-IsValid schema = (
  λ h.
      let (one, apart) = validate_passed schema h in
      let (k, c, at, key, only) = primary_keys-one schema.columns one in
      record {
        key = k;
        key_column = c;
        at_key = at;
        is_key = key;
        only_key = only;
        distinct = (has_duplicate-Distinct [] schema.columns apart).1;
      },
  λ v.
      validate_passes schema
        (one-primary_keys schema.columns v.key v.key_column v.at_key v.is_key v.only_key)
        (Distinct-has_duplicate [] schema.columns (All-IsNew schema.columns) v.distinct),
)

-- The column that is marked is found at its place.
pub primary_index-IsValid :
    (schema : Schema) (v : IsValid schema) → primary_index schema ≡ some v.key
unfolding primary_index
primary_index-IsValid schema v =
    position_first schema.columns v.key v.key_column v.at_key v.is_key v.only_key
  where
    position_first :
        (columns : List ColumnDef) (k : ℕ) (c : ColumnDef)
        → get_elem? columns k ≡ some c
        → c.primary_key ≡ true
        → ((j : ℕ) (d : ColumnDef) → get_elem? columns j ≡ some d → d.primary_key ≡ true → j ≡ k)
        → position (λ (c : ColumnDef). c.primary_key) columns ≡ some k
    position_first [] k c at key only = ground arith
    position_first (b ∷ columns) zero c at key only = ground (arith, at, key)
    position_first (b ∷ columns) (suc k) c at key only =
        let rest =
          position_first columns k c at key λ j d at' e. omega (arith, only (suc j) d at' e) in
        elim (Bool-cases b.primary_key) [
          | inl e ↦ absurd (omega (arith, only 0 b refl e))
          | inr e ↦ rw (e, rest) refl
        ]
