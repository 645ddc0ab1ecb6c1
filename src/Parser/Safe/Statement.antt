-- ===== src/Parser/Safe/Statement.antt =====
-- The parsers of statements and blocks are safe, and what they return lies within the limit.
use speck.Base.{ℕ, suc, false, List, Option, none, some, ◌≡◌, refl, sym, subst, arith}
use speck.Diagnostic.{SourceId, Span}
use speck.Lexer.Token.{Token, TokenKind}
use speck.Parser.Limits.Blocks.{MayBelow, KindWithin, StmtWithin, BlockWithin}
use speck.Parser.Safe.Expression.Recursion.{expression-Safe}
use speck.Parser.Safe.Primitives.{
  current-Safe, at-Safe, advance-Safe, expect-Safe, identifier-Safe, let_else-Safe,
  optional_semicolon-Safe, merged-Safe, bind_value-Safe, unwrap_or-from,
}
use speck.Parser.Safe.Rules.{IsBounded, Consumes, Preserves}
use speck.Parser.Safe.Types.{parse_value_type-Safe}
use speck.Parser.Safe.{is_eof, IsFile, At, returns, Anything, ◌⟫◌, relax, lower, branch}
use speck.Parser.State.{unwrap_or}
use speck.Parser.Statement.{
  let_statement, assign_op, at_assignment_operator, assignment_statement, return_value, option_span,
  return_statement, expression_statement,
}
use speck.Syntax.Expr.{Expr, span_of}
use speck.Syntax.{AssignOp}
use speck.Syntax.Stmt.{Block}

-- A block with the span of its brace, and an optional value.
abbrev pub BlockOf : SourceId → ℕ → Block × Span → Type 0
BlockOf k n (b, span) = BlockWithin n b × (span.source ≡ k)

abbrev ValueOf : SourceId → ℕ → Option Expr → Type 0
ValueOf k n none = Unit
ValueOf k n (some e) = IsBounded k n e

module _ {k : SourceId} {toks : List Token} (file : IsFile k toks) (n v : ℕ) where
  -- Statements stand in a scope.
  pub let_statement-Safe : Consumes toks (StmtWithin n) n (suc v) let_statement
  unfolding let_statement KindWithin
  let_statement-Safe c s p = expect-Safe file TokenKind.let_word _ s refl p ⟫ λ first s₁ (f, p₁).
      identifier-Safe file _ s₁ p₁ ⟫ λ (name, _) s₂ (_, p₂).
      expect-Safe file TokenKind.colon _ s₂ refl p₂ ⟫ λ _ s₃ (_, p₃).
      parse_value_type-Safe file s₃ p₃ ⟫ λ ty s₄ (_, p₄).
      expect-Safe file TokenKind.equal _ s₄ refl p₄ ⟫ λ _ s₅ (_, p₅).
      expression-Safe file n (suc v) _ s₅ p₅ ⟫ λ init s₆ (b, p₆).
      optional_semicolon-Safe file s₆ p₆ ⟫ λ semicolon s₇ (h, p₇).
      bind_value-Safe file name s₇ p₇ ⟫ λ _ s₈ (_, p₈).
      merged-Safe file first.span _ s₈ f.from
        (unwrap_or-from file semicolon (span_of init) h b.from) p₈
      ⟫ λ span s₉ (_, p₉). returns (b.within, relax (suc c) p₉ (omega arith))

  at_assignment-Safe : Preserves toks Anything n v at_assignment_operator
  unfolding at_assignment_operator
  at_assignment-Safe c s p =
      current-Safe file s p ⟫ λ t s₁ (_, same). returns (tt, subst (At toks n v c) (sym same) p)

  assign_not_eof :
      (kind : TokenKind) {op : AssignOp} → assign_op kind ≡ some op → is_eof kind ≡ false
  unfolding assign_op
  assign_not_eof TokenKind.eof h = cc
  assign_not_eof _ h = refl

  assignment_statement-Safe :
      (target : Expr)
      → IsBounded k n target
      → Consumes toks (StmtWithin n) n v (assignment_statement target)
  unfolding assignment_statement KindWithin
  assignment_statement-Safe target bt c s p = advance-Safe file s p ⟫ λ t s₁ (_, p₁, _).
      let_else-Safe file (assign_op t.kind) _ s₁ ⟫ λ op s₂ (_, same).
      expression-Safe file n v c s₂ (subst (At toks n v c) (sym same) p₁) ⟫ λ value s₃ (b, p₃).
      optional_semicolon-Safe file s₃ p₃ ⟫ λ semicolon s₄ (h, p₄).
      merged-Safe file (span_of target) _ s₄ bt.from
        (unwrap_or-from file semicolon (span_of value) h b.from) p₄
      ⟫ λ span s₅ (_, p₅). returns ((bt.within, b.within), p₅)

  return_value-Safe : Preserves toks (ValueOf k n) n v return_value
  unfolding return_value
  return_value-Safe c s p = at-Safe file TokenKind.right_brace s p ⟫ λ closed s₁ (_, p₁).
      branch closed _ _ (λ _. returns (tt, p₁)) (λ _. at-Safe file TokenKind.semicolon s₁ p₁)
      ⟫ λ ended s₂ (_, p₂).
          branch ended _ _ (λ _. returns (tt, p₂))
            (λ _. expression-Safe file n v c s₂ p₂ ⟫ λ value s₃ (b, p₃).
              returns (b, relax c p₃ (omega arith)))

  value_within : (o : Option Expr) → ValueOf k n o → MayBelow n o
  value_within none h = tt
  value_within (some e) h = h.within

  value_span :
      (o : Option Expr) (span : Span)
      → ValueOf k n o
      → span.source ≡ k
      → (unwrap_or (option_span o) span).source ≡ k
  value_span none span h e = e
  value_span (some x) span h e = h.from

  pub return_statement-Safe : Consumes toks (StmtWithin n) n v return_statement
  unfolding return_statement KindWithin
  return_statement-Safe c s p = expect-Safe file TokenKind.return _ s refl p ⟫ λ first s₁ (f, p₁).
      return_value-Safe (suc c) s₁ p₁ ⟫ λ value s₂ (b, p₂).
      optional_semicolon-Safe file s₂ p₂ ⟫ λ semicolon s₃ (h, p₃).
      merged-Safe file first.span _ s₃ f.from
        (unwrap_or-from file semicolon _ h (value_span value first.span b f.from)) p₃
      ⟫ λ span s₄ (_, p₄). returns (value_within value b, p₄)

  pub expression_statement-Safe : Consumes toks (StmtWithin n) n v expression_statement
  unfolding expression_statement KindWithin
  expression_statement-Safe c s p = expression-Safe file n v c s p ⟫ λ e s₁ (b, p₁).
      at_assignment-Safe (suc c) s₁ p₁ ⟫ λ assigned s₂ (_, p₂).
      branch assigned _ _
        (λ _. lower (suc c) (omega arith) (assignment_statement-Safe e b (suc c) s₂ p₂))
        (λ _. optional_semicolon-Safe file s₂ p₂ ⟫ λ semicolon s₃ (h, p₃).
          merged-Safe file (span_of e) _ s₃ b.from
            (unwrap_or-from file semicolon (span_of e) h b.from) p₃
          ⟫ λ span s₄ (_, p₄). returns (b.within, p₄))
