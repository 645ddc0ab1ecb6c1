-- ===== src/Parser/Limits.antt =====
-- src/parser/limits.rs: the limit on nesting, and the check of a new expression against it.
pub mod Height
pub mod Blocks
use speck.Base.{ℕ, zero, suc, ◌+◌, List, [], ◌∷◌, Text, text, ltb, if◌then◌else◌}
use speck.Diagnostic.{Span, Diagnostic, new_diagnostic}
use speck.Outcome.{Outcome, ok, fail, exhausted}
use speck.Syntax.Expr.{ExprKind, Expr, expr, Exprs, nil, cons, Fields, end, initializer}

abbrev pub max_nesting : ℕ
max_nesting = 80

unfoldable pub exceeded : Span → Diagnostic
exceeded span = new_diagnostic (text "source nesting exceeds limit of 80") span

abbrev pub Pending : Type 0
Pending = List (Expr × ℕ)

-- `pending.extend(…)`: the last element ends on top of the stack, which is the list's head.
unfoldable pub extend : Exprs → ℕ → Pending → Pending
extend nil depth pending = pending
extend (cons e es) depth pending = extend es depth ((e, depth) ∷ pending)

unfoldable pub extend_fields : Fields → ℕ → Pending → Pending
extend_fields end depth pending = pending
extend_fields (initializer name e span rest) depth pending =
    extend_fields rest depth ((e, depth) ∷ pending)

-- The `match` of the loop's body: the children of an expression, one deeper.
unfoldable pub push_children : ExprKind → ℕ → Pending → Pending
push_children (ExprKind.unary op operand) depth pending = (operand, depth) ∷ pending
push_children (ExprKind.field base name span) depth pending = (base, depth) ∷ pending
push_children (ExprKind.binary left op right) depth pending =
    (right, depth) ∷ (left, depth) ∷ pending
push_children (ExprKind.index base i) depth pending = (i, depth) ∷ (base, depth) ∷ pending
push_children (ExprKind.array_literal elements) depth pending = extend elements depth pending
push_children (ExprKind.call name args) depth pending = extend args depth pending
push_children (ExprKind.conversion target args) depth pending = extend args depth pending
push_children (ExprKind.struct_literal name fields) depth pending =
    extend_fields fields depth pending
push_children _ depth pending = pending

-- `while let Some((expression, depth)) = pending.pop()`, with fuel for the rounds.
unfoldable pub check_pending : ℕ → Pending → Outcome (Unit {0})
check_pending fuel [] = ok tt
check_pending zero (top ∷ pending) = exhausted
check_pending (suc fuel) ((expr kind span, depth) ∷ pending) =
    let rest = check_pending fuel (push_children kind (depth + 1) pending) in
    if ltb max_nesting depth then fail (exceeded span) else rest

-- The number of expressions in an expression: one round of the loop for each.
unfoldable mutual
  pub size : Expr → ℕ
  size (expr kind span) = suc (size_kind kind)

  pub size_kind : ExprKind → ℕ
  size_kind (ExprKind.i32 n) = 0
  size_kind (ExprKind.f32 bits) = 0
  size_kind (ExprKind.bool b) = 0
  size_kind (ExprKind.variable name) = 0
  size_kind (ExprKind.array_literal es) = size_all es
  size_kind (ExprKind.struct_literal name fields) = size_fields fields
  size_kind (ExprKind.index base i) = size base + size i
  size_kind (ExprKind.field base name span) = size base
  size_kind (ExprKind.unary op operand) = size operand
  size_kind (ExprKind.binary left op right) = size left + size right
  size_kind (ExprKind.call name args) = size_all args
  size_kind (ExprKind.conversion target args) = size_all args

  pub size_all : Exprs → ℕ
  size_all nil = 0
  size_all (cons e es) = size e + size_all es

  pub size_fields : Fields → ℕ
  size_fields end = 0
  size_fields (initializer name e span rest) = size e + size_fields rest

-- `check_expression`
unfoldable pub check_expression : Expr → ℕ → Outcome (Unit {0})
unfolding check_pending
check_expression e nesting = check_pending (size e) ((e, nesting) ∷ [])
