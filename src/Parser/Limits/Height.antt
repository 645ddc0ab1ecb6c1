-- ===== src/Parser/Limits/Height.antt =====
-- The work list of src/parser/limits.rs decides a bound on the height of the expression tree.
use speck.Base.{
  ℕ, zero, suc, ◌+◌, ◌≤◌, max, [], ◌∷◌, ◌≡◌, refl, ◌⊎◌, inl, inr, ◌↔◌, arith, All, ltb, ltb→lt,
  Bool-cases,
}
use speck.Diagnostic.{Span}
use speck.Outcome.{Outcome, ok, fail}
use speck.Parser.Limits.{
  max_nesting, exceeded, Pending, extend, extend_fields, push_children, check_pending, size,
  size_kind, size_all, size_fields, check_expression,
}
use speck.Syntax.Expr.{ExprKind, Expr, expr, Exprs, nil, cons, Fields, end, initializer}

-- The edges on the longest way from an expression down.
unfoldable mutual
  pub height : Expr → ℕ
  height (expr kind span) = height_kind kind

  pub height_kind : ExprKind → ℕ
  height_kind (ExprKind.i32 n) = 0
  height_kind (ExprKind.f32 bits) = 0
  height_kind (ExprKind.bool b) = 0
  height_kind (ExprKind.variable name) = 0
  height_kind (ExprKind.array_literal es) = height_all es
  height_kind (ExprKind.struct_literal name fields) = height_fields fields
  height_kind (ExprKind.index base i) = suc (max (height base) (height i))
  height_kind (ExprKind.field base name span) = suc (height base)
  height_kind (ExprKind.unary op operand) = suc (height operand)
  height_kind (ExprKind.binary left op right) = suc (max (height left) (height right))
  height_kind (ExprKind.call name args) = height_all args
  height_kind (ExprKind.conversion target args) = height_all args

  pub height_all : Exprs → ℕ
  height_all nil = 0
  height_all (cons e es) = max (suc (height e)) (height_all es)

  pub height_fields : Fields → ℕ
  height_fields end = 0
  height_fields (initializer name e span rest) = max (suc (height e)) (height_fields rest)

-- An expression at a depth does not reach below the limit.
abbrev pub Within : Expr × ℕ → Type 0
Within (e, depth) = depth + height e ≤ max_nesting

abbrev total : Pending → ℕ
total [] = 0
total ((e, depth) ∷ pending) = size e + total pending

extend-total : (es : Exprs) (d : ℕ) (p : Pending) → total (extend es d p) ≡ size_all es + total p
unfolding extend size
extend-total nil d p = omega arith
extend-total (cons e es) d p = omega (arith, extend-total es d ((e, d) ∷ p))

extend_fields-total :
    (fs : Fields) (d : ℕ) (p : Pending) → total (extend_fields fs d p) ≡ size_fields fs + total p
unfolding extend_fields size
extend_fields-total end d p = omega arith
extend_fields-total (initializer n e s fs) d p =
    omega (arith, extend_fields-total fs d ((e, d) ∷ p))

push_children-total :
    (kind : ExprKind) (d : ℕ) (p : Pending)
    → total (push_children kind d p) ≡ size_kind kind + total p
unfolding push_children size
push_children-total (ExprKind.unary op e) d p = omega arith
push_children-total (ExprKind.field e name span) d p = omega arith
push_children-total (ExprKind.binary a op b) d p = omega arith
push_children-total (ExprKind.index a b) d p = omega arith
push_children-total (ExprKind.array_literal es) d p = extend-total es d p
push_children-total (ExprKind.call name es) d p = extend-total es d p
push_children-total (ExprKind.conversion ty es) d p = extend-total es d p
push_children-total (ExprKind.struct_literal name fs) d p = extend_fields-total fs d p
push_children-total _ d p = omega arith

module _ (n : ℕ) (small : n ≤ max_nesting) where
  extend-Within :
      (es : Exprs) (p : Pending)
      → All Within (extend es (n + 1) p) ↔ ((n + height_all es ≤ max_nesting) × All Within p)
  unfolding extend height
  extend-Within nil p = (λ h. (omega arith, h), λ h. h.1)
  extend-Within (cons e es) p =
      let ih = extend-Within es ((e, n + 1) ∷ p) in
      (λ h. let (a, b) = ih.0 h in (omega arith, b.1), λ h. ih.1 (omega arith, (omega arith, h.1)))

  extend_fields-Within :
      (fs : Fields) (p : Pending)
      → All Within (extend_fields fs (n + 1) p)
        ↔ ((n + height_fields fs ≤ max_nesting) × All Within p)
  unfolding extend_fields height
  extend_fields-Within end p = (λ h. (omega arith, h), λ h. h.1)
  extend_fields-Within (initializer name e span fs) p =
      let ih = extend_fields-Within fs ((e, n + 1) ∷ p) in
      (λ h. let (a, b) = ih.0 h in (omega arith, b.1), λ h. ih.1 (omega arith, (omega arith, h.1)))

  push_children-Within :
      (kind : ExprKind) (p : Pending)
      → All Within (push_children kind (n + 1) p)
        ↔ ((n + height_kind kind ≤ max_nesting) × All Within p)
  unfolding push_children height
  push_children-Within (ExprKind.unary op e) p = (λ h. (omega arith, h.1), λ h. (omega arith, h.1))
  push_children-Within (ExprKind.field e name span) p =
      (λ h. (omega arith, h.1), λ h. (omega arith, h.1))
  push_children-Within (ExprKind.binary a op b) p =
      (λ h. (omega arith, h.1.1), λ h. (omega arith, (omega arith, h.1)))
  push_children-Within (ExprKind.index a b) p =
      (λ h. (omega arith, h.1.1), λ h. (omega arith, (omega arith, h.1)))
  push_children-Within (ExprKind.array_literal es) p = extend-Within es p
  push_children-Within (ExprKind.call name es) p = extend-Within es p
  push_children-Within (ExprKind.conversion ty es) p = extend-Within es p
  push_children-Within (ExprKind.struct_literal name fs) p = extend_fields-Within fs p
  push_children-Within _ p = (λ h. (omega arith, h), λ h. h.1)

-- The check passes exactly when `P` holds; else it reports the limit at some span.
abbrev pub Decides : Type 0 → Outcome (Unit {0}) → Type 0
Decides P r = (r ≡ ok tt) × P ⊎ ((span : Span) × (r ≡ fail (exceeded span)) × (¬ P))

Decides-map : {P Q : Type 0} {r : Outcome (Unit {0})} → P ↔ Q → Decides P r → Decides Q r
Decides-map e (inl (h, p)) = inl (h, e.0 p)
Decides-map e (inr (span, h, np)) = inr (span, h, λ q. np (e.1 q))

check_pending-Decides :
    (fuel : ℕ) (p : Pending) → total p ≤ fuel → Decides (All Within p) (check_pending fuel p)
unfolding check_pending size height
check_pending-Decides fuel [] le = inl (refl, tt)
check_pending-Decides zero ((expr kind span, d) ∷ p) le = absurd (omega arith)
check_pending-Decides (suc fuel) ((expr kind span, d) ∷ p) le =
    elim (Bool-cases (ltb max_nesting d)) [
      | inl deep ↦
          rw deep (inr (span, refl, λ h. absurd (omega (arith, ltb→lt max_nesting d deep))))
      | inr fine ↦ rw fine (
          Decides-map (push_children-Within d (ground arith) kind p) (
            check_pending-Decides fuel (push_children kind (d + 1) p)
              (omega (arith, push_children-total kind (d + 1) p))))
    ]

-- `check_expression` passes exactly when no subexpression lies below the limit, counting from the
-- nesting of the expression itself; otherwise it reports the limit, at some span. Its rounds end.
pub check_expression-Decides :
    (e : Expr) (nesting : ℕ)
    → Decides (nesting + height e ≤ max_nesting) (check_expression e nesting)
unfolding check_expression
check_expression-Decides e nesting =
    Decides-map (λ h. h.0, λ h. (h, tt))
      (check_pending-Decides (size e) ((e, nesting) ∷ []) (omega arith))
