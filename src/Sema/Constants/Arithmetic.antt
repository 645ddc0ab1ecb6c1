-- ===== src/Sema/Constants/Arithmetic.antt =====
-- What integer expressions mean, by exact arithmetic on integers: an independent description of what
-- src/sema/constants.rs and src/sema/constants/evaluation.rs compute, with the bounds of `i32`.
pub mod Operators
pub mod Returns
use mathlib.Core.Path.{subst₂}
use speck.Base.{
  ℕ, Text, Bool, true, false, ◌&&◌, Option, none, some, ◌≡◌, ◌≢◌, ◌⊎◌, ◌↔◌, refl, sym, ap, ◌∙◌,
  subst, if◌then◌else◌, if_both, arith, Bool-cases, inl, inr, ==_iff, ◌==◌, ◌+◌, leb, List, ◌<◌,
}
use speck.Base.Int.{
  ℤ, pos, negsuc, ◌+ℤ◌, ◌-ℤ◌, ◌*ℤ◌, ◌≤ℤ◌, leb_ℤ, same_ℤ, quotient, remainder, neg, pos_part,
  neg_part,
}
use speck.Diagnostic.{Span, Diagnostic}
use speck.Result.Inversion.{and_then_ok, map_err_ok}
use speck.Result.{Result, ok, err, and_then, map_err}
use speck.Sema.Constants.Evaluation.{at, is_logical, resume}
use speck.Sema.Constants.Reference.{eval}
use speck.Sema.Constants.Resume.{answer, resume-eval}
use speck.Sema.Constants.Tasks.{Structs, literal_i32, is_minimum, new}
use speck.Sema.Constants.Values.{
  in_i32, i32_min, i32_max, checked, i32_binary, evaluate_binary, unary_value, overflow,
}
use speck.Sema.Constants.Weight.{weight}
use speck.Syntax.{ValueType, UnaryOp, BinaryOp}
use speck.Syntax.Expr.{
  i32, f32, bool, array_literal, struct_literal, variable, index, field, unary, binary, call,
  conversion, Expr, expr,
}
use speck.Syntax.Value.{ConstantValue}

-- -2147483648 ≤ n ≤ 2147483647
abbrev pub InRange : ℤ → Type 0
InRange n = (i32_min ≤ℤ n) × (n ≤ℤ i32_max)

-- `n` is the exact result of the operator, which fits: a quotient is rounded towards zero, a
-- remainder has the dividend's sign, neither has the divisor 0, and no remainder is taken where the
-- quotient does not fit.
pub data Computes (a b n : ℤ) : BinaryOp → Type 0 where
  sum : n ≡ a +ℤ b → InRange n → Computes a b n BinaryOp.add
  difference : n ≡ a -ℤ b → InRange n → Computes a b n BinaryOp.subtract
  product : n ≡ a *ℤ b → InRange n → Computes a b n BinaryOp.multiply
  ratio : b ≢ pos 0 → n ≡ quotient a b → InRange n → Computes a b n BinaryOp.divide
  rest :
      b ≢ pos 0
      → ¬ ((a ≡ i32_min) × (b ≡ negsuc 0))
      → n ≡ remainder a b
      → InRange n
      → Computes a b n BinaryOp.remainder

pub data IsArithmeticOp : BinaryOp → Type 0 where
  adds : IsArithmeticOp BinaryOp.add
  subtracts : IsArithmeticOp BinaryOp.subtract
  multiplies : IsArithmeticOp BinaryOp.multiply
  divides : IsArithmeticOp BinaryOp.divide
  leaves : IsArithmeticOp BinaryOp.remainder

-- An expression of integer literals, names, negation and the five operators of arithmetic.
pub data IsArithmetic : Expr → Type 0 where
  integer : {n : ℤ} {span : Span} → IsArithmetic (expr (i32 n) span)
  reference : {key : Text} {span : Span} → IsArithmetic (expr (variable key) span)
  negation :
      {operand : Expr} {span : Span}
      → IsArithmetic operand
      → IsArithmetic (expr (unary UnaryOp.negate operand) span)
  operation :
      {left right : Expr} {op : BinaryOp} {span : Span}
      → IsArithmetic left
      → IsArithmeticOp op
      → IsArithmetic right
      → IsArithmetic (expr (binary left op right) span)

-- The expression has the value `n`, which fits, as do the values of its operands; only the literal
-- of `-2147483648` has an operand that does not.
pub data Exact {E : Type 0} (lookup : Text → Span → Result E ConstantValue)
    : Expr → ℤ → Type 0 where
  literal : {n : ℤ} {span : Span} → InRange n → Exact lookup (expr (i32 n) span) n
  named :
      {n : ℤ} {key : Text} {span : Span}
      → lookup key span ≡ ok (ConstantValue.i32 n)
      → Exact lookup (expr (variable key) span) n
  minimum :
      {n : ℤ} {operand : Expr} {span inner : Span}
      → operand ≡ expr (i32 (pos 2147483648)) inner
      → n ≡ i32_min
      → Exact lookup (expr (unary UnaryOp.negate operand) span) n
  negated :
      {n m : ℤ} {operand : Expr} {span : Span}
      → Exact lookup operand m
      → n ≡ neg m
      → InRange n
      → Exact lookup (expr (unary UnaryOp.negate operand) span) n
  computed :
      {n a b : ℤ} {left right : Expr} {op : BinaryOp} {span : Span}
      → Exact lookup left a
      → Exact lookup right b
      → Computes a b n op
      → Exact lookup (expr (binary left op right) span) n

-- A returned value is the exact one; an error is returned only where there is none.
abbrev pub Settles :
    {E : Type 0} → (Text → Span → Result E ConstantValue) → Expr → Result E ConstantValue → Type 0
Settles lookup e (ok v) = (n : ℤ) × (v ≡ ConstantValue.i32 n) × Exact lookup e n
Settles lookup e (err x) = (n : ℤ) → ¬ Exact lookup e n
