-- ===== src/Sql/Filter.antt =====
-- Filters as src/sql/executor.rs evaluates them, with three truth values.
use nutdb.Prelude.{
  Bool, true, false, ◌||◌, Option, none, some, List, [], ◌∷◌, if◌then◌else◌, get_elem?,
}
use Prim.Native.Nat.{Ordering}
use nutdb.Prelude.Io.{Result, ok, err, input}
use nutdb.Prelude.Int.{compare_int}
use nutdb.Prelude.Order.{compare_bytes}
use nutdb.Bytes.{Bytes}
use nutdb.Sql.Ast.{BinaryOp, Expr, Value, null, integer, text, boolean, column, literal, binary}
use nutdb.Catalog.{Schema, column_index}
use nutdb.Catalog.Values.{is_null}

-- A method that may panic: `none` is a panic.
abbrev pub Eval {ℓ} : Type ℓ → Type ℓ
Eval A = Option (Result A)

infixl 5 ◌>>=◌
abbrev pub ◌>>=◌ {ℓ κ} : {A : Type ℓ} {B : Type κ} → Eval A → (A → Eval B) → Eval B
none >>= f = none
some (err e) >>= f = some (err e)
some (ok a) >>= f = f a

unfoldable pub compare_bool : Bool → Bool → Ordering
compare_bool false true = Ordering.lt
compare_bool true false = Ordering.gt
compare_bool _ _ = Ordering.eq

-- The order of two values of one type that are not null.
unfoldable pub order_of : Value → Value → Option Ordering
order_of (integer a) (integer b) = some (compare_int a b)
order_of (text a) (text b) = some (compare_bytes a b)
order_of (boolean a) (boolean b) = some (compare_bool a b)
order_of _ _ = none

-- `none` is `unreachable!`: the code calls `compare` with the other operators only.
unfoldable pub holds : BinaryOp → Ordering → Option Bool
holds BinaryOp.eq order = some (elim order [ Ordering.eq ↦ true | _ ↦ false ])
holds BinaryOp.ne order = some (elim order [ Ordering.eq ↦ false | _ ↦ true ])
holds BinaryOp.lt order = some (elim order [ Ordering.lt ↦ true | _ ↦ false ])
holds BinaryOp.le order = some (elim order [ Ordering.gt ↦ false | _ ↦ true ])
holds BinaryOp.gt order = some (elim order [ Ordering.gt ↦ true | _ ↦ false ])
holds BinaryOp.ge order = some (elim order [ Ordering.lt ↦ false | _ ↦ true ])
holds BinaryOp.and order = none
holds BinaryOp.or order = none

unfoldable pub compare : BinaryOp → Value → Value → Eval Value
compare op left right =
    if is_null left || is_null right then some (ok null) else elim (order_of left right) [
      | none ↦ some (input "sql: cannot compare different types")
      | some order ↦ elim (holds op order) [ none ↦ none | some b ↦ some (ok (boolean b)) ]
    ]

unfoldable pub truth : Value → Eval (Option Bool)
truth (boolean value) = some (ok (some value))
truth null = some (ok none)
truth _ = some (input "sql: AND/OR expects boolean values")

unfoldable pub and_value : Option Bool → Option Bool → Value
and_value (some false) _ = boolean false
and_value (some true) (some b) = boolean b
and_value (some true) none = null
and_value none (some false) = boolean false
and_value none _ = null

unfoldable pub or_value : Option Bool → Option Bool → Value
or_value (some true) _ = boolean true
or_value (some false) (some b) = boolean b
or_value (some false) none = null
or_value none (some true) = boolean true
or_value none _ = null

unfoldable pub logic_and : Value → Value → Eval Value
logic_and left right = truth left >>= λ a. truth right >>= λ b. some (ok (and_value a b))

unfoldable pub logic_or : Value → Value → Eval Value
logic_or left right = truth left >>= λ a. truth right >>= λ b. some (ok (or_value a b))

unfoldable pub column_value : Bytes → List Value → Schema → Eval Value
column_value name row schema = elim (column_index schema name) [
  | none ↦ some (input "sql: unknown column")
  | some index ↦ elim (get_elem? row index) [ none ↦ none | some value ↦ some (ok value) ]
]

unfoldable pub apply : BinaryOp → Value → Value → Eval Value
apply BinaryOp.and left right = logic_and left right
apply BinaryOp.or left right = logic_or left right
apply op left right = compare op left right

unfoldable pub eval : Expr → List Value → Schema → Eval Value
eval (literal value) row schema = some (ok value)
eval (column name) row schema = column_value name row schema
eval (binary op left right) row schema =
    eval left row schema >>= λ a. eval right row schema >>= λ b. apply op a b

unfoldable pub is_true : Value → Bool
is_true (boolean b) = b
is_true _ = false

unfoldable pub matches_filter : Option Expr → List Value → Schema → Eval Bool
matches_filter none row schema = some (ok true)
matches_filter (some filter) row schema =
    eval filter row schema >>= λ value. some (ok (is_true value))

-- The rows that `FilterSource` yields, one after the other.
unfoldable pub filter_rows : Option Expr → Schema → List (List Value) → Eval (List (List Value))
filter_rows filter schema [] = some (ok [])
filter_rows filter schema (row ∷ rows) = matches_filter filter row schema >>= λ matched.
    filter_rows filter schema rows >>= λ kept. some (ok (if matched then row ∷ kept else kept))
