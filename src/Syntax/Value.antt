-- ===== src/Syntax/Value.antt =====
-- `ConstantValue` of src/ast.rs. An `f32` is its bit pattern.
use speck.Base.{ℕ, zero, suc, Text, Bool}
use speck.Base.Int.{ℤ}
use speck.Syntax.{ValueType, ArrayLength}

mutual
  pub data ConstantValue : Type 0 where
    i32 : ℤ → ConstantValue
    f32 : ℕ → ConstantValue
    bool : Bool → ConstantValue
    struct : Text → NamedValues → ConstantValue
    array : ValueType → Values → ConstantValue

  pub data Values : Type 0 where
    nil : Values
    cons : ConstantValue → Values → Values

  pub data NamedValues : Type 0 where
    end : NamedValues
    named : Text → ConstantValue → NamedValues → NamedValues

unfoldable pub length_values : Values → ℕ
length_values nil = zero
length_values (cons v vs) = suc (length_values vs)

-- `ConstantValue::ty`
unfoldable pub type_of : ConstantValue → ValueType
unfolding length_values
type_of (i32 n) = ValueType.i32
type_of (f32 bits) = ValueType.f32
type_of (bool b) = ValueType.bool
type_of (struct name fields) = ValueType.struct name
type_of (array element values) =
    ValueType.array element (ArrayLength.resolved (length_values values))
