-- ===== src/Sql/Lookup.antt =====
-- Why the lookup that src/sql/plan.rs chooses misses no row.
use nutdb.Prelude.{
  ℕ, zero, suc, ◌≡◌, ◌≢◌, refl, sym, ap, ◌∙◌, inl, inr, ◌⊎◌, Bool, true, false, ◌||◌, Option, none,
  some, List, [], ◌∷◌, arith, get_elem?, All, Bool-cases,
}
use Prim.Native.Nat.{Ordering}
use mathlib.Core.Path.{subst, ap₂}
use nutdb.Prelude.Io.{ok, err}
use nutdb.Prelude.Int.{ℤ, pos, negsuc, compare_int}
use nutdb.Prelude.Order.{same, same_iff, bytes_order, compare_bytes-eq, compare-eq}
use nutdb.Bytes.{Bytes}
use nutdb.Sql.Ast.{
  BinaryOp, ColumnDef, Expr, Select, Value, null, integer, text, boolean, column, literal, binary,
}
use nutdb.Sql.Plan.{Plan, primary_key, equated, primary_equality, access_of, plan_select}
use nutdb.Sql.Filter.{
  Eval, ◌>>=◌, compare_bool, order_of, holds, compare, column_value, apply, eval, is_true,
  matches_filter,
}
use nutdb.Catalog.{Schema, position, same_name, column_index, row_key, row_key_for_primary}
use nutdb.Catalog.Values.{is_null}
use nutdb.Catalog.Schemas.{IsValid, Distinct, primary_index-IsValid}

All-get_elem? {ℓ κ} :
    {A : Type ℓ} (P : A → Type κ) (xs : List A) (k : ℕ) (x : A)
    → All P xs
    → get_elem? xs k ≡ some x
    → P x
All-get_elem? P [] k x all at = ground arith
All-get_elem? P (y ∷ xs) zero x all at = subst P (ground arith) all.0
All-get_elem? P (y ∷ xs) (suc k) x all at = All-get_elem? P xs k x all.1 at

-- A column of a schema without duplicates is found by its name.
position-Distinct :
    (columns : List ColumnDef) (k : ℕ) (c : ColumnDef)
    → Distinct columns
    → get_elem? columns k ≡ some c
    → position (same_name c.name) columns ≡ some k
position-Distinct [] k c distinct at = ground arith
position-Distinct (b ∷ columns) zero c distinct at =
    let same_column : b ≡ c = ground arith in
    rw ((same_iff ⦃o = bytes_order⦄ b.name c.name).1 (ap (λ (d : ColumnDef). d.name) same_column))
      refl
position-Distinct (b ∷ columns) (suc k) c distinct at =
    let apart = All-get_elem? (λ (d : ColumnDef). d.name ≢ b.name) columns k c distinct.0 at in
    let rest = position-Distinct columns k c distinct.1 at in
    elim (Bool-cases (same ⦃o = bytes_order⦄ b.name c.name)) [
      | inl e ↦ absurd (apart (sym ((same_iff ⦃o = bytes_order⦄ b.name c.name).0 e)))
      | inr e ↦ rw (e, rest) refl
    ]

compare_int-eq : (a b : ℤ) → compare_int a b ≡ Ordering.eq → a ≡ b
compare_int-eq (pos a) (pos b) h = ap pos (compare-eq a b h)
compare_int-eq (pos a) (negsuc b) h = ground arith
compare_int-eq (negsuc a) (pos b) h = ground arith
compare_int-eq (negsuc a) (negsuc b) h = ap negsuc (sym (compare-eq b a h))

compare_bool-eq : (a b : Bool) → compare_bool a b ≡ Ordering.eq → a ≡ b
unfolding compare_bool
compare_bool-eq true true h = refl
compare_bool-eq true false h = ground arith
compare_bool-eq false true h = ground arith
compare_bool-eq false false h = refl

order_of-eq : (a b : Value) → order_of a b ≡ some Ordering.eq → a ≡ b
unfolding order_of
order_of-eq (integer a) (integer b) h = ap integer (compare_int-eq a b (ground arith))
order_of-eq (text a) (text b) h = ap text (compare_bytes-eq a b (ground arith))
order_of-eq (boolean a) (boolean b) h = ap boolean (compare_bool-eq a b (ground arith))
order_of-eq null b h = ground arith
order_of-eq (integer a) null h = ground arith
order_of-eq (integer a) (text b) h = ground arith
order_of-eq (integer a) (boolean b) h = ground arith
order_of-eq (text a) null h = ground arith
order_of-eq (text a) (integer b) h = ground arith
order_of-eq (text a) (boolean b) h = ground arith
order_of-eq (boolean a) null h = ground arith
order_of-eq (boolean a) (integer b) h = ground arith
order_of-eq (boolean a) (text b) h = ground arith

-- An equation that is true equates equal values that are not null.
compare-true :
    (a b : Value) (w : Value)
    → compare BinaryOp.eq a b ≡ some (ok w)
    → is_true w ≡ true
    → (a ≡ b) × (is_null a ≡ false)
unfolding compare holds is_true
compare-true a b w h t = elim (Bool-cases (is_null a || is_null b)) [
  | inl e ↦ ground arith
  | inr e ↦ (order_of-eq a b (ground arith), ground arith)
]

-- The filters that are answered by a lookup.
equated_sides :
    (left right : Expr) (name : Bytes) (value : Value)
    → equated left right name ≡ some value
    → ((left ≡ column name) × (right ≡ literal value))
      ⊎ ((left ≡ literal value) × (right ≡ column name))
unfolding equated
equated_sides (column a) (literal w) name value h =
    let found : same ⦃o = bytes_order⦄ a name ≡ true = ground arith in
    inl (ap column ((same_iff ⦃o = bytes_order⦄ a name).0 found), ap literal (ground arith))
equated_sides (literal w) (column a) name value h =
    let found : same ⦃o = bytes_order⦄ a name ≡ true = ground arith in
    inr (ap literal (ground arith), ap column ((same_iff ⦃o = bytes_order⦄ a name).0 found))
equated_sides (column a) (column b) name value h = ground arith
equated_sides (column a) (binary op l r) name value h = ground arith
equated_sides (literal w) (literal u) name value h = ground arith
equated_sides (literal w) (binary op l r) name value h = ground arith
equated_sides (binary op l r) right name value h = ground arith

record Equation (filter : Option Expr) (name : Bytes) (value : Value) : Type 0 where
  pub left : Expr
  pub right : Expr
  pub shape : filter ≡ some (binary BinaryOp.eq left right)
  pub sides :
      ((left ≡ column name) × (right ≡ literal value))
      ⊎ ((left ≡ literal value) × (right ≡ column name))

access_of-Equation :
    (filter : Option Expr) (name : Bytes) (value : Value)
    → access_of filter name ≡ primary_key value
    → Equation filter name value
unfolding access_of primary_equality
access_of-Equation none name value h = ground arith
access_of-Equation (some (column a)) name value h = ground arith
access_of-Equation (some (literal w)) name value h = ground arith
access_of-Equation (some (binary op left right)) name value h =
    elim op
        as (λ op.
          access_of (some (binary op left right)) name ≡ primary_key value
          → Equation (some (binary op left right)) name value) [
            | BinaryOp.eq ↦ λ h. record {
              left = left;
              right = right;
              shape = refl;
              sides = equated_sides left right name value (ground (arith, h));
            }
            | _ ↦ λ h. ground (arith, h)
          ]
      h

-- Both steps of an evaluation that comes out true.
record Steps (m : Eval Value) (f : Value → Eval Value) : Type 0 where
  pub operand : Value
  pub outcome : Value
  pub first : m ≡ some (ok operand)
  pub second : f operand ≡ some (ok outcome)
  pub holds_true : is_true outcome ≡ true

Steps-of :
    (m : Eval Value) (f : Value → Eval Value)
    → ((m >>= f) >>= λ w. some (ok (is_true w))) ≡ some (ok true)
    → Steps m f
Steps-of none f h = ground arith
Steps-of (some (err e)) f h = ground arith
Steps-of (some (ok a)) f h = outcome_of (f a) refl h
  where
    outcome_of :
        (r : Eval Value)
        → f a ≡ r
        → (r >>= λ w. some (ok (is_true w))) ≡ some (ok true)
        → Steps (some (ok a)) f
    outcome_of none e h = ground arith
    outcome_of (some (err g)) e h = ground arith
    outcome_of (some (ok w)) e h = record {
      operand = a;
      outcome = w;
      first = refl;
      second = e;
      holds_true = ground arith;
    }

module _ (schema : Schema) (v : IsValid schema) (row : List Value) (value : Value) where
  column_value-key :
      (a : Value)
      → column_value v.key_column.name row schema ≡ some (ok a)
      → get_elem? row v.key ≡ some a
  unfolding column_value column_index
  column_value-key a h =
      let found = position-Distinct schema.columns v.key v.key_column v.distinct v.at_key in
      ground (arith, found, h)

  -- A row on which such a filter is true has the value as its primary key.
  matched_key :
      (left right : Expr)
      → ((left ≡ column v.key_column.name) × (right ≡ literal value))
        ⊎ ((left ≡ literal value) × (right ≡ column v.key_column.name))
      → matches_filter (some (binary BinaryOp.eq left right)) row schema ≡ some (ok true)
      → (get_elem? row v.key ≡ some value) × (is_null value ≡ false)
  unfolding matches_filter eval apply
  matched_key left right (inl (l, r)) h =
      let filter =
        λ (l : Expr) (r : Expr). matches_filter (some (binary BinaryOp.eq l r)) row schema in
      let steps =
        Steps-of (column_value v.key_column.name row schema) (λ a. compare BinaryOp.eq a value)
          (ap₂ filter (sym l) (sym r) ∙ h) in
      let equal = compare-true steps.operand value steps.outcome steps.second steps.holds_true in
      (
        column_value-key steps.operand steps.first ∙ ap some equal.0,
        sym (ap is_null equal.0) ∙ equal.1,
      )
  matched_key left right (inr (l, r)) h =
      let filter =
        λ (l : Expr) (r : Expr). matches_filter (some (binary BinaryOp.eq l r)) row schema in
      let steps =
        Steps-of (column_value v.key_column.name row schema) (λ b. compare BinaryOp.eq value b)
          (ap₂ filter (sym l) (sym r) ∙ h) in
      let equal = compare-true value steps.operand steps.outcome steps.second steps.holds_true in
      (column_value-key steps.operand steps.first ∙ ap some (sym equal.0), equal.1)

-- If the plan of a `SELECT` is a lookup, every row that its filter accepts has the key that is
-- looked up.
pub plan_select-row_key :
    (schema : Schema) (v : IsValid schema) (select : Select) (plan : Plan) (value : Value)
    (row : List Value)
    → plan_select select schema ≡ some plan
    → plan.access ≡ primary_key value
    → matches_filter select.filter row schema ≡ some (ok true)
    → row_key schema row ≡ row_key_for_primary schema value
unfolding plan_select row_key
plan_select-row_key schema v select plan value row planned lookup matched =
    let index = primary_index-IsValid schema v in
    let access : plan.access ≡ access_of select.filter v.key_column.name =
      ground (arith, index, v.at_key) in
    let e = access_of-Equation select.filter v.key_column.name value (sym access ∙ lookup) in
    let key =
      matched_key schema v row value e.left e.right e.sides
        (ap (λ f. matches_filter f row schema) (sym e.shape) ∙ matched) in
    ground (arith, index, key.0, key.1)
