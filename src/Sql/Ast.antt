-- ===== src/Sql/Ast.antt =====
-- src/sql/ast.rs: the values and the statements of the SQL dialect. A `String` is its UTF-8 bytes,
-- and an `i64` an integer.
use nutdb.Prelude.{
  ℕ, zero, suc, ◌+◌, ◌/◌, ◌%◌, Bool, true, false, Option, List, [], ◌∷◌, ◌++◌, ltb, if◌then◌else◌,
}
use nutdb.Prelude.Int.{ℤ, pos, negsuc}
use nutdb.Bytes.{Bytes}

pub data DataType : Type 0 where
  integer text boolean : DataType

pub data Value : Type 0 where
  null : Value
  integer : ℤ → Value
  text : Bytes → Value
  boolean : Bool → Value

pub record ColumnDef : Type 0 where
  pub name : Bytes
  pub data_type : DataType
  pub primary_key : Bool

pub data BinaryOp : Type 0 where
  eq ne lt le gt ge and or : BinaryOp

pub data Expr : Type 0 where
  column : Bytes → Expr
  literal : Value → Expr
  binary : BinaryOp → Expr → Expr → Expr

pub data Projection : Type 0 where
  all : Projection
  columns : List Bytes → Projection

pub record Select : Type 0 where
  pub table : Bytes
  pub projection : Projection
  pub filter : Option Expr
  pub order_by : Option (Bytes × Bool)
  pub limit : Option ℕ

pub data Statement : Type 0 where
  create_table : Bytes → List ColumnDef → Statement
  insert : Bytes → List Bytes → List Value → Statement
  select : Select → Statement
  update : Bytes → List (Bytes × Value) → Option Expr → Statement
  delete : Bytes → Option Expr → Statement
  begin commit rollback : Statement
  explain : Select → Statement

pub data SqlResult : Type 0 where
  affected : ℕ → SqlResult
  rows : List Bytes → List (List Value) → SqlResult
  begun committed rolled_back : SqlResult
  explain : Bytes → SqlResult

-- The decimal digits of a number, on fuel for their count.
unfoldable pub show_digits : ℕ → ℕ → Bytes
show_digits zero n = []
show_digits (suc fuel) n =
    let rest = show_digits fuel (n / 10) in
    if ltb n 10 then (48 + n) ∷ [] else rest ++ (48 + n % 10) ∷ []

-- A number has fewer digits than its successor counts.
unfoldable pub show_int : ℤ → Bytes
show_int (pos n) = show_digits (suc n) n
show_int (negsuc n) = 45 ∷ show_digits (suc (suc n)) (suc n)

-- `Display` of `Value`
unfoldable pub show_value : Value → Bytes
show_value null = 78 ∷ 85 ∷ 76 ∷ 76 ∷ []
show_value (integer value) = show_int value
show_value (text value) = value
show_value (boolean true) = 116 ∷ 114 ∷ 117 ∷ 101 ∷ []
show_value (boolean false) = 102 ∷ 97 ∷ 108 ∷ 115 ∷ 101 ∷ []
