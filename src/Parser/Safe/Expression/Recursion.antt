-- ===== src/Parser/Safe/Expression/Recursion.antt =====
-- `unary`, and the recursion of expressions through `nested`.
use speck.Base.{ℕ, zero, suc, ◌+◌, ◌<◌, List, Option, none, some, ◌≡◌, refl, arith, subst, sym}
use speck.Diagnostic.{SourceId, Span}
use speck.Lexer.Token.{Token, TokenKind}
use speck.Parser.Expression.{
  unary_operator, unary_of, unary, Entry, or_entry, unary_entry, entry_of, parse_entry, expression,
}
use speck.Parser.Limits.{max_nesting}
use speck.Parser.Safe.Expression.Levels.{logical_or-Safe}
use speck.Parser.Safe.Expression.Primary.{postfix-Safe}
use speck.Parser.Safe.Primitives.{current-Safe, take-Safe, merged-Safe, nested-Safe}
use speck.Parser.Safe.Rules.{IsBounded, Consumes, checked-Safe, raise}
use speck.Parser.Safe.{IsFile, At, Ensures, returns, Keeps, Anything, ◌⟫◌, weaken, branch}
use speck.Parser.State.{Parser, M, nested}
use speck.Syntax.Expr.{Expr, span_of}
use speck.Syntax.{UnaryOp}

module _ {k : SourceId} {toks : List Token} (file : IsFile k toks) where
  unary_operator-Safe :
      {n v c : ℕ} (s : Parser)
      → At toks n v c s
      → Ensures (Keeps toks Anything n v c) (unary_operator s)
  unfolding unary_operator
  unary_operator-Safe s p = take-Safe file TokenKind.minus s refl p ⟫ λ minus s₁ (p₁, _).
      branch minus _ _ (λ _. returns (tt, p₁))
        (λ _. take-Safe file TokenKind.bang s₁ refl p₁ ⟫ λ bang s₂ (p₂, _).
          branch bang _ _ (λ _. returns (tt, p₂)) (λ _. returns (tt, p₂)))

  module _ (n v : ℕ) (expression operand : M Expr)
      (expressions : Consumes toks (IsBounded k n) n v expression)
      (operands : Consumes toks (IsBounded k n) n v operand) where
    unary_of-Safe :
        (c : ℕ) (start : Span) (o : Option UnaryOp) (s : Parser)
        → start.source ≡ k
        → At toks n v c s
        → Ensures (Keeps toks (IsBounded k n) n v (suc c)) (unary_of expression operand start o s)
    unfolding unary_of
    unary_of-Safe c start none s from p = postfix-Safe file n v expression expressions c s p
    unary_of-Safe c start (some op) s from p = operands c s p ⟫ λ inner s₁ (b, p₁).
        merged-Safe file start (span_of inner) s₁ from b.from p₁ ⟫ λ span s₂ (h, p₂).
        checked-Safe _ span s₂ h p₂

    unary-Safe : Consumes toks (IsBounded k n) n v (unary expression operand)
    unfolding unary
    unary-Safe c s p = current-Safe file s p ⟫ λ t s₁ (fits, same).
        unary_operator-Safe s₁ (subst (At toks n v c) (sym same) p) ⟫ λ o s₂ (_, p₂).
        unary_of-Safe c t.span o s₂ fits.from p₂

    entry_of-Safe :
        (entry : Entry) → Consumes toks (IsBounded k n) n v (entry_of expression operand entry)
    unfolding entry_of
    entry_of-Safe or_entry = logical_or-Safe file n v _ unary-Safe
    entry_of-Safe unary_entry = unary-Safe

  nested_expression :
      {n v : ℕ} (parse : M Expr)
      → (n < max_nesting → Consumes toks (IsBounded k (suc n)) (suc n) v parse)
      → Consumes toks (IsBounded k n) n v (nested parse)
  nested_expression parse deeper c s p =
      nested-Safe file parse s p λ s' lt q. weaken (λ a s'' (b, r). (raise b, r)) (deeper lt c s' q)

  -- The fuel outlasts the nesting that is left.
  parse_entry-Safe :
      (depth : ℕ) (entry : Entry) (n v : ℕ)
      → max_nesting < n + depth
      → Consumes toks (IsBounded k n) n v (parse_entry depth entry)
  unfolding parse_entry
  parse_entry-Safe zero entry n v deep c s p = absurd (omega (arith, p.shallow))
  parse_entry-Safe (suc depth) entry n v deep c s p =
      entry_of-Safe n v _ _
        (nested_expression (parse_entry depth or_entry)
          (λ _. parse_entry-Safe depth or_entry (suc n) v (omega arith)))
        (nested_expression (parse_entry depth unary_entry)
          (λ _. parse_entry-Safe depth unary_entry (suc n) v (omega arith)))
        entry c s p

  pub expression-Safe : (n v : ℕ) → Consumes toks (IsBounded k n) n v expression
  unfolding expression
  expression-Safe n v =
      nested_expression (parse_entry (max_nesting + 1) or_entry)
        (λ _. parse_entry-Safe (max_nesting + 1) or_entry (suc n) v (omega arith))
