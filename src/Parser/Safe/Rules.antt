-- ===== src/Parser/Safe/Rules.antt =====
-- What the parsers of expressions and statements promise, and the rules they share.
use speck.Base.{ℕ, suc, ◌+◌, ◌≤◌, List, ◌≡◌, ap, subst, arith, length, inl, inr}
use speck.Diagnostic.{SourceId, Span}
use speck.Lexer.Token.{Token}
use speck.Outcome.{Outcome, ok, and_then}
use speck.Parser.Expression.{checked}
use speck.Parser.Limits.Height.{height, check_expression-Decides, Decides}
use speck.Parser.Limits.{max_nesting, check_expression}
use speck.Parser.Safe.{At, Ensures, returns, fails, Keeps}
use speck.Parser.State.{Parser, M, with_fuel}
use speck.Syntax.Expr.{ExprKind, Expr, expr, span_of}

-- An expression of the file, within the limit at nesting `n`.
pub record IsBounded (k : SourceId) (n : ℕ) (e : Expr) : Type 0 where
  pub from : (span_of e).source ≡ k
  pub within : n + height e ≤ max_nesting

-- The parser moves past a token at least, and its value has the property.
abbrev pub Consumes : {A : Type 0} → List Token → (A → Type 0) → ℕ → ℕ → M A → Type 0
Consumes toks P n v m =
    (c : ℕ) (s : Parser) → At toks n v c s → Ensures (Keeps toks P n v (suc c)) (m s)

-- The parser does not move back, and its value has the property.
abbrev pub Preserves : {A : Type 0} → List Token → (A → Type 0) → ℕ → ℕ → M A → Type 0
Preserves toks P n v m = (c : ℕ) (s : Parser) → At toks n v c s → Ensures (Keeps toks P n v c) (m s)

module _ {k : SourceId} {toks : List Token} where
  checked_outcome :
      {n v c : ℕ} (kind : ExprKind) (span : Span) (s : Parser) (r : Outcome (Unit {0}))
      → span.source ≡ k
      → At toks n v c s
      → Decides (s.nesting + height (expr kind span) ≤ max_nesting) r
      → Ensures (Keeps toks (IsBounded k n) n v c) (and_then r λ _. ok (expr kind span, s))
  checked_outcome {n} kind span s r from p (inl (e, fits)) = rw e (
      returns (
        record {
          from = from;
          within = subst (λ m. m + height (expr kind span) ≤ max_nesting) p.same_nesting fits;
        },
        p,
      ))
  checked_outcome kind span s r from p (inr (at, e, no_fit)) = rw e fails

  pub checked-Safe :
      {n v c : ℕ} (kind : ExprKind) (span : Span) (s : Parser)
      → span.source ≡ k
      → At toks n v c s
      → Ensures (Keeps toks (IsBounded k n) n v c) (checked kind span s)
  unfolding checked
  checked-Safe kind span s from p =
      checked_outcome kind span s (check_expression (expr kind span) s.nesting) from p
        (check_expression-Decides (expr kind span) s.nesting)

-- A loop that consumes a token a round has rounds enough.
pub with_fuel-Safe :
    {toks : List Token} {A : Type 0} {P : A → Parser → Type 0} {n v c : ℕ} (loop : ℕ → M A)
    (s : Parser)
    → At toks n v c s
    → ((fuel : ℕ) → length toks ≤ c + fuel → Ensures P (loop fuel s))
    → Ensures P (with_fuel loop s)
with_fuel-Safe loop s p h = h (length s.tokens) (omega (arith, ap length p.same_tokens))

-- A deeper expression is a shallower one too.
pub raise : {k : SourceId} {n : ℕ} {e : Expr} → IsBounded k (suc n) e → IsBounded k n e
raise b = record { from = b.from; within = omega (arith, b.within) }
