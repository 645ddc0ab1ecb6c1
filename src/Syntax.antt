-- ===== src/Syntax.antt =====
-- src/ast.rs: the types of the language and the syntax tree. An `f32` is its bit pattern.
pub mod Expr
pub mod Stmt
pub mod Value
pub mod Names
use speck.Base.{ℕ, Text, Bool, true, false, ◌||◌, Option, none, some, List}
use speck.Base.Int.{ℤ}
use speck.Diagnostic.{Span}

pub data ArrayLength : Type 0 where
  literal : ℤ → Span → ArrayLength
  constant : Text → Span → ArrayLength
  resolved : ℕ → ArrayLength
  invalid : ArrayLength

pub data ValueType : Type 0 where
  i32 f32 bool : ValueType
  struct : Text → ValueType
  array : ValueType → ArrayLength → ValueType

pub data ReturnType : Type 0 where
  value : ValueType → ReturnType
  void : ReturnType

pub data AssignOp : Type 0 where
  set add subtract multiply divide remainder : AssignOp

pub data UnaryOp : Type 0 where
  negate not : UnaryOp

pub data BinaryOp : Type 0 where
  add subtract multiply divide remainder : BinaryOp
  equal not_equal less less_equal greater greater_equal : BinaryOp
  logical_and logical_or : BinaryOp

pub data FunctionKind : Type 0 where
  named start update draw : FunctionKind

pub record StructField : Type 0 where
  pub name : Text
  pub ty : ValueType
  pub span : Span

pub record StructDecl : Type 0 where
  pub name : Text
  pub fields : List StructField
  pub span : Span

pub record SoundAsset : Type 0 where
  pub name : Text
  pub path : Text
  pub handle : ℤ
  pub pcm : List ℕ
  pub span : Span

pub record Param : Type 0 where
  pub name : Text
  pub ty : ValueType
  pub span : Span

-- `ArrayLength::span`
pub length_span : ArrayLength → Option Span
length_span (literal n span) = some span
length_span (constant name span) = some span
length_span (resolved n) = none
length_span invalid = none

-- `ValueType::is_numeric`
pub is_numeric : ValueType → Bool
is_numeric i32 = true
is_numeric f32 = true
is_numeric _ = false

-- `ValueType::resolved_array`
unfoldable pub resolved_array : ValueType → Option (ValueType × ℕ)
resolved_array (array element (resolved n)) = some (element, n)
resolved_array _ = none

is_invalid : ArrayLength → Bool
is_invalid invalid = true
is_invalid _ = false

-- `ValueType::has_invalid_array_length`
pub has_invalid_array_length : ValueType → Bool
unfolding is_invalid
has_invalid_array_length (array element length) =
    is_invalid length || has_invalid_array_length element
has_invalid_array_length _ = false

-- `ReturnType::value_type`
pub value_type : ReturnType → Option ValueType
value_type (value ty) = some ty
value_type void = none
