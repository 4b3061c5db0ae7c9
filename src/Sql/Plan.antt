-- ===== src/Sql/Plan.antt =====
-- src/sql/plan.rs: how the rows of a `SELECT` are reached.
use nutdb.Prelude.{ℕ, Bool, Option, none, some, [], ◌∷◌, ◌++◌, get_elem?, if◌then◌else◌}
use nutdb.Prelude.Int.{pos}
use nutdb.Prelude.Order.{same, bytes_order}
use nutdb.Bytes.{Bytes}
use nutdb.Sql.Ast.{BinaryOp, Expr, Select, Value, column, literal, binary, show_int, show_value}
use nutdb.Catalog.{Schema, primary_index}

pub data Access : Type 0 where
  full_scan : Access
  primary_key : Value → Access

pub record Plan : Type 0 where
  pub access : Access
  pub select : Select

-- The `match` on the two sides of an equation.
unfoldable pub equated : Expr → Expr → Bytes → Option Value
equated (column name) (literal value) primary =
    if same ⦃o = bytes_order⦄ name primary then some value else none
equated (literal value) (column name) primary =
    if same ⦃o = bytes_order⦄ name primary then some value else none
equated _ _ primary = none

unfoldable pub primary_equality : Expr → Bytes → Option Value
primary_equality (binary BinaryOp.eq left right) primary = equated left right primary
primary_equality _ primary = none

unfoldable pub access_of : Option Expr → Bytes → Access
access_of none primary = full_scan
access_of (some expr) primary = elim (primary_equality expr primary) [
  | none ↦ full_scan
  | some value ↦ primary_key value
]

-- `none` is a panic, which a valid schema excludes.
unfoldable pub plan_select : Select → Schema → Option Plan
plan_select select schema = elim (primary_index schema) [
  | none ↦ none
  | some index ↦ elim (get_elem? schema.columns index) [
    | none ↦ none
    | some primary ↦
        some (record { access = access_of select.filter primary.name; select = select })
  ]
]

-- `Scan(table={table})` and `IndexLookup(table={table}, primary_key={value})`
unfoldable pub show_access : Access → Bytes → Bytes
show_access full_scan table =
    (83 ∷ 99 ∷ 97 ∷ 110 ∷ 40 ∷ 116 ∷ 97 ∷ 98 ∷ 108 ∷ 101 ∷ 61 ∷ []) ++ table ++ 41 ∷ []
show_access (primary_key value) table =
    (73 ∷ 110 ∷ 100 ∷ 101 ∷ 120 ∷ 76 ∷ 111 ∷ 111 ∷ 107 ∷ 117 ∷ 112 ∷ 40 ∷ 116 ∷ 97 ∷ 98 ∷ 108 ∷ 101
      ∷ 61 ∷ [])
    ++ table
    ++ (44 ∷ 32 ∷ 112 ∷ 114 ∷ 105 ∷ 109 ∷ 97 ∷ 114 ∷ 121 ∷ 95 ∷ 107 ∷ 101 ∷ 121 ∷ 61 ∷ [])
    ++ show_value value
    ++ 41 ∷ []

-- ` -> Filter`
unfoldable pub show_filter : Option Expr → Bytes
show_filter none = []
show_filter (some filter) = 32 ∷ 45 ∷ 62 ∷ 32 ∷ 70 ∷ 105 ∷ 108 ∷ 116 ∷ 101 ∷ 114 ∷ []

-- ` -> Sort({column} ASC)`
unfoldable pub show_order : Option (Bytes × Bool) → Bytes
show_order none = []
show_order (some (name, ascending)) =
    (32 ∷ 45 ∷ 62 ∷ 32 ∷ 83 ∷ 111 ∷ 114 ∷ 116 ∷ 40 ∷ [])
    ++ name
    ++ (if ascending then 32 ∷ 65 ∷ 83 ∷ 67 ∷ 41 ∷ [] else 32 ∷ 68 ∷ 69 ∷ 83 ∷ 67 ∷ 41 ∷ [])

-- ` -> Limit({limit})`
unfoldable pub show_limit : Option ℕ → Bytes
show_limit none = []
show_limit (some limit) =
    (32 ∷ 45 ∷ 62 ∷ 32 ∷ 76 ∷ 105 ∷ 109 ∷ 105 ∷ 116 ∷ 40 ∷ []) ++ show_int (pos limit) ++ 41 ∷ []

-- `Display` of `Plan`
unfoldable pub show_plan : Plan → Bytes
show_plan plan =
    show_access plan.access plan.select.table
    ++ show_filter plan.select.filter
    ++ (32 ∷ 45 ∷ 62 ∷ 32 ∷ 80 ∷ 114 ∷ 111 ∷ 106 ∷ 101 ∷ 99 ∷ 116 ∷ [])
    ++ show_order plan.select.order_by
    ++ show_limit plan.select.limit
