-- ===== src/Sema/Constants/Arithmetic/Returns.antt =====
-- src/sema/constants/evaluation.rs evaluates integer expressions by exact arithmetic.
use mathlib.Core.Path.{subst₂}
use speck.Base.{
  ℕ, Text, true, Option, none, some, ◌≡◌, refl, sym, ap, ◌∙◌, subst, arith, Bool-cases, inl, inr,
  ==_iff, ◌<◌,
}
use speck.Base.Int.{ℤ, pos, negsuc, neg}
use speck.Diagnostic.{Span, Diagnostic}
use speck.Result.Inversion.{and_then_ok, map_err_ok}
use speck.Result.{Result, ok, err}
use speck.Sema.Constants.Evaluation.{at, resume}
use speck.Sema.Constants.Reference.{eval}
use speck.Sema.Constants.Resume.{answer, resume-eval}
use speck.Sema.Constants.Tasks.{Structs, literal_i32, is_minimum, new}
use speck.Sema.Constants.Values.{in_i32, i32_min, checked, i32_binary, evaluate_binary, unary_value}
use speck.Sema.Constants.Weight.{weight}
use speck.Syntax.{ValueType, UnaryOp, BinaryOp}
use speck.Syntax.Expr.{
  i32, f32, bool, array_literal, struct_literal, variable, index, field, unary, binary, call,
  conversion, Expr, expr,
}
use speck.Syntax.Value.{ConstantValue}
use speck.Sema.Constants.Arithmetic.{
  InRange, IsArithmeticOp, IsArithmetic, Exact, Settles, integer, reference, negation, operation,
  literal, named, minimum, negated, computed,
}
use speck.Sema.Constants.Arithmetic.Operators.{
  in_i32_iff, if_ok, checked-InRange, checked-ok, i32_binary-Computes, i32_binary-ok, not_logical,
  Computes-IsArithmeticOp,
}

is_minimum-literal :
    (operand : Expr)
    → is_minimum UnaryOp.negate operand ≡ true
    → (inner : Span) × (operand ≡ expr (i32 (pos 2147483648)) inner)
unfolding is_minimum
is_minimum-literal (expr (i32 (pos n)) span) h =
    (span, ap (λ m. expr (i32 (pos m)) span) ((==_iff n 2147483648).0 h))
is_minimum-literal (expr (i32 (negsuc n)) span) h = absurd (cc h)
is_minimum-literal (expr (f32 _) span) h = absurd (cc h)
is_minimum-literal (expr (bool _) span) h = absurd (cc h)
is_minimum-literal (expr (array_literal _) span) h = absurd (cc h)
is_minimum-literal (expr (struct_literal _ _) span) h = absurd (cc h)
is_minimum-literal (expr (variable _) span) h = absurd (cc h)
is_minimum-literal (expr (index _ _) span) h = absurd (cc h)
is_minimum-literal (expr (field _ _ _) span) h = absurd (cc h)
is_minimum-literal (expr (unary _ _) span) h = absurd (cc h)
is_minimum-literal (expr (binary _ _ _) span) h = absurd (cc h)
is_minimum-literal (expr (call _ _) span) h = absurd (cc h)
is_minimum-literal (expr (conversion _ _) span) h = absurd (cc h)

at_ok : {A : Type 0} (span : Span) (r : Result Text A) {a : A} → at span r ≡ ok a → r ≡ ok a
unfolding at
at_ok span (ok a) h = cc h
at_ok span (err message) h = absurd (cc h)

large_literal :
    {E : Type 0} (lookup : Text → Span → Result E ConstantValue) {operand : Expr} {m : ℤ}
    {inner : Span}
    → operand ≡ expr (i32 (pos 2147483648)) inner
    → ¬ Exact lookup operand m
large_literal lookup e (literal {n} fits) =
    let same : n ≡ pos 2147483648 = cc e in
    let large : InRange (pos 2147483648) = subst InRange same fits in omega (arith, large.1)
large_literal lookup e (named _) = cc e
large_literal lookup e (minimum _ _) = cc e
large_literal lookup e (negated _ _ _) = cc e
large_literal lookup e (computed _ _ _) = cc e

module _ {E : Type 0} (from : Diagnostic → E) (structs : Structs)
    (lookup : Text → Span → Result E ConstantValue) where
  minimum_value :
      (operand : Expr) (span inner : Span) (expected : Option ValueType)
      → operand ≡ expr (i32 (pos 2147483648)) inner
      → eval from structs lookup (expr (unary UnaryOp.negate operand) span) expected
        ≡ ok (ConstantValue.i32 i32_min)
  unfolding eval is_minimum
  minimum_value operand span inner expected e =
      subst
        (λ o.
          eval from structs lookup (expr (unary UnaryOp.negate o) span) expected
          ≡ ok (ConstantValue.i32 i32_min))
        (sym e) refl

  Exact-eval :
      {e : Expr} {n : ℤ} (expected : Option ValueType)
      → Exact lookup e n
      → eval from structs lookup e expected ≡ ok (ConstantValue.i32 n)
  unfolding eval literal_i32 at evaluate_binary unary_value
  Exact-eval expected (literal {n} fits) = rw ((in_i32_iff n).1 fits) refl
  Exact-eval expected (named h) = h
  Exact-eval expected (minimum {n} {operand} {span} {inner} e m) =
      minimum_value operand span inner expected e ∙ ap (λ k. ok (ConstantValue.i32 k)) (sym m)
  Exact-eval expected (negated {n} {m} {operand} {span} x e fits) =
      elim (Bool-cases (is_minimum UnaryOp.negate operand)) [
        | inl large ↦ absurd (large_literal lookup (is_minimum-literal operand large).1 x)
        | inr small ↦
            rw (eval, small, Exact-eval none x)
              (rw (ap checked (sym e) ∙ checked-InRange n fits) refl)
      ]
  Exact-eval expected (computed {n} {a} {b} l r c) =
      rw
        (
          eval,
          Exact-eval none l,
          not_logical (Computes-IsArithmeticOp c),
          Exact-eval none r,
          i32_binary-Computes a b n c,
        )
        refl

  module _
      (integers : (name : Text) (span : Span) (v : ConstantValue)
        → lookup name span ≡ ok v
        → (n : ℤ) × (v ≡ ConstantValue.i32 n)) where
    negated-Exact :
        {operand : Expr} {span : Span} {v : ConstantValue} (w : ConstantValue)
        → (m : ℤ) × (w ≡ ConstantValue.i32 m) × Exact lookup operand m
        → at span (unary_value UnaryOp.negate w) ≡ ok v
        → (n : ℤ) × (v ≡ ConstantValue.i32 n)
          × Exact lookup (expr (unary UnaryOp.negate operand) span) n
    unfolding unary_value
    negated-Exact {operand} {span} {v} w (m, e, x) h =
        let same : at span (checked (neg m)) ≡ ok v =
          subst (λ u. at span (unary_value UnaryOp.negate u) ≡ ok v) e h in
        let found = checked-ok (neg m) (at_ok span (checked (neg m)) same) in
        (neg m, found.0, negated x refl found.1)

    computed-Exact :
        {left right : Expr} {op : BinaryOp} {span : Span} {v : ConstantValue} (l r : ConstantValue)
        → IsArithmeticOp op
        → (a : ℤ) × (l ≡ ConstantValue.i32 a) × Exact lookup left a
        → (b : ℤ) × (r ≡ ConstantValue.i32 b) × Exact lookup right b
        → at span (evaluate_binary l op r) ≡ ok v
        → (n : ℤ) × (v ≡ ConstantValue.i32 n) × Exact lookup (expr (binary left op right) span) n
    unfolding evaluate_binary
    computed-Exact {op = op} {span = span} {v = v} l r i (a, e, x) (b, f, y) h =
        let same : at span (i32_binary a op b) ≡ ok v =
          subst₂ (λ u w. at span (evaluate_binary u op w) ≡ ok v) e f h in
        let found = i32_binary-ok a b i (at_ok span (i32_binary a op b) same) in
        (found.0, found.1, computed x y found.2)

    eval-Exact :
        {e : Expr} {v : ConstantValue} (expected : Option ValueType)
        → IsArithmetic e
        → eval from structs lookup e expected ≡ ok v
        → (n : ℤ) × (v ≡ ConstantValue.i32 n) × Exact lookup e n
    unfolding eval literal_i32
    eval-Exact expected (integer {n} {span}) h =
        let found =
          if_ok (in_i32 n) (ConstantValue.i32 n) _ (map_err_ok from (literal_i32 n span) h) in
        (n, found.1, literal ((in_i32_iff n).0 found.0))
    eval-Exact expected (reference {key} {span}) h =
        let found = integers key span _ h in (found.0, found.1, named (h ∙ ap ok found.1))
    eval-Exact {v = v} expected (negation {operand} {span} i) h =
        elim (Bool-cases (is_minimum UnaryOp.negate operand)) [
          | inl large ↦
              let shape = is_minimum-literal operand large in
              let value : ok (ConstantValue.i32 i32_min) ≡ ok v =
                sym (minimum_value operand span shape.0 expected shape.1) ∙ h in
              (i32_min, cc value, minimum shape.1 refl)
          | inr small ↦
              let value =
                and_then_ok (eval from structs lookup operand none) _ (rw (eval, small) at h) in
              negated-Exact value.0 (eval-Exact none i value.1)
                (map_err_ok from (at span (unary_value UnaryOp.negate value.0)) value.2)
        ]
    eval-Exact expected (operation {left} {right} {op} {span} i o j) h =
        let l = and_then_ok (eval from structs lookup left none) _ h in
        let r = and_then_ok (eval from structs lookup right none) _ (rw (not_logical o) at l.2) in
        computed-Exact l.0 r.0 o (eval-Exact none i l.1) (eval-Exact none j r.1)
          (map_err_ok from (at span (evaluate_binary l.0 op r.0)) r.2)

    eval-Settles :
        {e : Expr} (expected : Option ValueType) (r : Result E ConstantValue)
        → IsArithmetic e
        → eval from structs lookup e expected ≡ r
        → Settles lookup e r
    eval-Settles expected (ok v) i h = eval-Exact expected i h
    eval-Settles expected (err x) i h = λ n exact. cc (h, Exact-eval expected exact)

    -- Where every name that a lookup finds is an integer, evaluating an expression of integer
    -- literals, names, negation and the five operators of arithmetic returns: the value that exact
    -- arithmetic on integers gives it, if that value and those of all its operands fit in 32 bits
    -- (`-2147483648` counts as one literal), no divisor is 0, no remainder of -2147483648 by -1 is
    -- taken and every name is found; and an error otherwise. So overflow is always reported.
    pub resume-exact :
        {e : Expr} (expected : Option ValueType) (fuel : ℕ)
        → IsArithmetic e
        → weight structs e < fuel
        → (r : Result E ConstantValue) × (answer (resume from structs lookup fuel (new e expected))
            ≡ some r)
          × Settles lookup e r
    resume-exact {e} expected fuel i enough = (
      eval from structs lookup e expected,
      resume-eval from structs lookup e expected fuel enough,
      eval-Settles expected (eval from structs lookup e expected) i refl,
    )
