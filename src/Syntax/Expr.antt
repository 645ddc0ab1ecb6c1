-- ===== src/Syntax/Expr.antt =====
-- Expressions of src/ast.rs. Their lists are types of the block.
use speck.Base.{ℕ, Text, Bool}
use speck.Base.Int.{ℤ}
use speck.Diagnostic.{Span}
use speck.Syntax.{ValueType, UnaryOp, BinaryOp}

mutual
  pub data ExprKind : Type 0 where
    i32 : ℤ → ExprKind
    f32 : ℕ → ExprKind
    bool : Bool → ExprKind
    array_literal : Exprs → ExprKind
    struct_literal : Text → Fields → ExprKind
    variable : Text → ExprKind
    index : Expr → Expr → ExprKind
    field : Expr → Text → Span → ExprKind
    unary : UnaryOp → Expr → ExprKind
    binary : Expr → BinaryOp → Expr → ExprKind
    call : Text → Exprs → ExprKind
    conversion : ValueType → Exprs → ExprKind

  pub data Expr : Type 0 where
    expr : ExprKind → Span → Expr

  pub data Exprs : Type 0 where
    nil : Exprs
    cons : Expr → Exprs → Exprs

  -- The `FieldInitializer`s of a struct literal: name, value and span.
  pub data Fields : Type 0 where
    end : Fields
    initializer : Text → Expr → Span → Fields → Fields

abbrev pub span_of : Expr → Span
span_of (expr kind span) = span

-- `expression.span = …`
abbrev pub with_span : Expr → Span → Expr
with_span (expr kind old) span = expr kind span

-- `Vec::push` on a list of expressions, and on a list of field initializers.
pub push : Exprs → Expr → Exprs
push nil e = cons e nil
push (cons x xs) e = cons x (push xs e)

pub push_field : Fields → Text → Expr → Span → Fields
push_field end name e span = initializer name e span end
push_field (initializer n x s rest) name e span = initializer n x s (push_field rest name e span)
