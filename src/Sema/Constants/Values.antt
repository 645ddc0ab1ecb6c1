-- ===== src/Sema/Constants/Values.antt =====
-- Operations on evaluated constants: `convert_constant` and `evaluate_binary` of
-- src/sema/constants.rs, `unary_value`, `index_value` and `boolean_error` of
-- src/sema/constants/evaluation.rs.
use speck.Base.{
  ℕ, Text, text, ◌++◌, Bool, true, false, not, ◌&&◌, ◌||◌, Option, none, some, if◌then◌else◌,
}
use speck.Base.Decimal.{show_ℕ, show_ℤ}
use speck.Base.Int.{
  ℤ, pos, negsuc, neg, ◌+ℤ◌, ◌-ℤ◌, ◌*ℤ◌, leb_ℤ, ltb_ℤ, same_ℤ, quotient, remainder,
}
use speck.Diagnostic.{Span, Diagnostic, new_diagnostic}
use speck.F32
use speck.Result.{Result, ok, err}
use speck.Syntax.{UnaryOp, BinaryOp, ValueType}
use speck.Syntax.Value.{
  ConstantValue, i32, f32, bool, struct, array, Values, nil, cons, length_values,
}

-- `i32::MIN` and `i32::MAX`
abbrev pub i32_min : ℤ
i32_min = negsuc 0x7fffffff

abbrev pub i32_max : ℤ
i32_max = pos 0x7fffffff

unfoldable pub in_i32 : ℤ → Bool
in_i32 n = leb_ℤ i32_min n && leb_ℤ n i32_max

abbrev pub overflow : Text
overflow = text "constant-expression overflow"

-- `checked_add` and the like, with the mathematical result.
unfoldable pub checked : ℤ → Result Text ConstantValue
unfolding in_i32
checked n = if in_i32 n then ok (i32 n) else err overflow

unfoldable pub convert_constant : ValueType → ConstantValue → Result Text ConstantValue
unfolding F32.of_i32 F32.safe_f32_to_i32
convert_constant ValueType.i32 (i32 n) = ok (i32 n)
convert_constant ValueType.f32 (f32 bits) = ok (f32 bits)
convert_constant ValueType.f32 (i32 n) = ok (f32 (F32.of_i32 n))
convert_constant ValueType.i32 (f32 bits) = ok (i32 (F32.safe_f32_to_i32 bits))
convert_constant _ (bool b) = err (text "cannot convert `bool` to a numeric type")
convert_constant ValueType.bool _ = err (text "numeric conversions may only target `i32` or `f32`")
convert_constant (ValueType.array _ _) _ = err (text "arrays cannot be converted to numeric types")
convert_constant _ (array _ _) = err (text "arrays cannot be converted to numeric types")
convert_constant (ValueType.struct _) _ =
    err (text "struct values cannot be converted to numeric types")
convert_constant _ (struct _ _) = err (text "struct values cannot be converted to numeric types")

-- The three families of `evaluate_binary`.
unfoldable pub i32_binary : ℤ → BinaryOp → ℤ → Result Text ConstantValue
unfolding checked
i32_binary a BinaryOp.add b = checked (a +ℤ b)
i32_binary a BinaryOp.subtract b = checked (a -ℤ b)
i32_binary a BinaryOp.multiply b = checked (a *ℤ b)
i32_binary a BinaryOp.divide b =
    if same_ℤ b (pos 0)
    then err (text "division by zero in constant expression")
    else checked (quotient a b)
i32_binary a BinaryOp.remainder b =
    if same_ℤ b (pos 0)
    then err (text "remainder by zero in constant expression")
    else if same_ℤ a i32_min && same_ℤ b (negsuc 0)
    then err overflow
    else checked (remainder a b)
i32_binary a BinaryOp.equal b = ok (bool (same_ℤ a b))
i32_binary a BinaryOp.not_equal b = ok (bool (not (same_ℤ a b)))
i32_binary a BinaryOp.less b = ok (bool (ltb_ℤ a b))
i32_binary a BinaryOp.less_equal b = ok (bool (leb_ℤ a b))
i32_binary a BinaryOp.greater b = ok (bool (ltb_ℤ b a))
i32_binary a BinaryOp.greater_equal b = ok (bool (leb_ℤ b a))
i32_binary a _ b = err (text "Boolean operator requires `bool`")

unfoldable pub finite_f32 : ℕ → Result Text ConstantValue
unfolding F32.is_finite
finite_f32 bits = if F32.is_finite bits then ok (f32 bits) else err overflow

unfoldable pub f32_binary : ℕ → BinaryOp → ℕ → Result Text ConstantValue
unfolding finite_f32 F32.add F32.subtract F32.multiply F32.divide F32.equal F32.less
f32_binary a BinaryOp.remainder b = err (text "remainder requires `i32` operands")
f32_binary a BinaryOp.divide b =
    if F32.equal b 0
    then err (text "division by zero in constant expression")
    else finite_f32 (F32.divide a b)
f32_binary a BinaryOp.add b = finite_f32 (F32.add a b)
f32_binary a BinaryOp.subtract b = finite_f32 (F32.subtract a b)
f32_binary a BinaryOp.multiply b = finite_f32 (F32.multiply a b)
f32_binary a BinaryOp.equal b = ok (bool (F32.equal a b))
f32_binary a BinaryOp.not_equal b = ok (bool (not (F32.equal a b)))
f32_binary a BinaryOp.less b = ok (bool (F32.less a b))
f32_binary a BinaryOp.less_equal b = ok (bool (F32.less a b || F32.equal a b))
f32_binary a BinaryOp.greater b = ok (bool (F32.less b a))
f32_binary a BinaryOp.greater_equal b = ok (bool (F32.less b a || F32.equal b a))
f32_binary a _ b = err (text "Boolean operator requires `bool`")

abbrev pub same_bool : Bool → Bool → Bool
same_bool true b = b
same_bool false b = not b

unfoldable pub bool_binary : Bool → BinaryOp → Bool → Result Text ConstantValue
bool_binary a BinaryOp.equal b = ok (bool (same_bool a b))
bool_binary a BinaryOp.not_equal b = ok (bool (not (same_bool a b)))
bool_binary a BinaryOp.logical_and b = ok (bool (a && b))
bool_binary a BinaryOp.logical_or b = ok (bool (a || b))
bool_binary a _ b = err (text "operator is not valid for `bool` constants")

unfoldable pub evaluate_binary :
    ConstantValue → BinaryOp → ConstantValue → Result Text ConstantValue
unfolding i32_binary f32_binary bool_binary
evaluate_binary (i32 a) op (i32 b) = i32_binary a op b
evaluate_binary (f32 a) op (f32 b) = f32_binary a op b
evaluate_binary (bool a) op (bool b) = bool_binary a op b
evaluate_binary _ op _ = err (text "constant-expression operands must have the same type")

unfoldable pub unary_value : UnaryOp → ConstantValue → Result Text ConstantValue
unfolding checked F32.is_finite F32.negate
unary_value UnaryOp.negate (i32 n) = checked (neg n)
unary_value UnaryOp.negate (f32 bits) =
    if F32.is_finite bits then ok (f32 (F32.negate bits)) else err overflow
unary_value UnaryOp.not (bool b) = ok (bool (not b))
unary_value UnaryOp.negate _ = err (text "unary `-` requires a numeric constant")
unary_value UnaryOp.not _ = err (text "unary `!` requires `bool`")

unfoldable pub boolean_error : BinaryOp → Span → Diagnostic
boolean_error BinaryOp.logical_and span =
    new_diagnostic (text "`&&` requires `bool` constants") span
boolean_error _ span = new_diagnostic (text "`||` requires `bool` constants") span

-- `elements.into_iter().nth(index)`
unfoldable pub nth_value : Values → ℕ → Option ConstantValue
nth_value nil i = none
nth_value (cons v vs) ℕ.zero = some v
nth_value (cons v vs) (ℕ.suc i) = nth_value vs i

-- `usize::try_from(index)` fails on a negative index.
unfoldable pub nth_signed : Values → ℤ → Option ConstantValue
unfolding nth_value
nth_signed vs (pos i) = nth_value vs i
nth_signed vs (negsuc i) = none

unfoldable pub index_value : ConstantValue → ConstantValue → Span → Result Diagnostic ConstantValue
unfolding nth_signed length_values
index_value (array element vs) (i32 i) span = elim (nth_signed vs i) [
  | some v ↦ ok v
  | none ↦ err (
      new_diagnostic
        (text "constant index "
          ++ show_ℤ i
          ++ text " is out of bounds for length "
          ++ show_ℕ (length_values vs))
        span)
]
index_value base (i32 i) span = err (new_diagnostic (text "only arrays can be indexed") span)
index_value base index span = err (new_diagnostic (text "array index must be i32") span)
