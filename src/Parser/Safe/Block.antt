-- ===== src/Parser/Safe/Block.antt =====
-- Blocks, and the statements that hold blocks.
use speck.Base.{ℕ, zero, suc, ◌+◌, ◌≤◌, ◌<◌, Text, List, [], ◌≡◌, refl, arith, length}
use speck.Diagnostic.{SourceId, Span}
use speck.Lexer.Token.{Token, TokenKind}
use speck.Parser.Limits.Blocks.{Below, KindWithin, StmtWithin, BlockWithin, push-BlockWithin}
use speck.Parser.Limits.{max_nesting}
use speck.Parser.Safe.Expression.Primary.{at_end-Safe}
use speck.Parser.Safe.Expression.Recursion.{expression-Safe}
use speck.Parser.Safe.Primitives.{
  at-Safe, take-Safe, expect-Safe, identifier-Safe, merged-Safe, nested-Safe, push_scope-Safe,
  pop_scope-Safe,
}
use speck.Parser.Safe.Rules.{Consumes, with_fuel-Safe}
use speck.Parser.Safe.Statement.{
  BlockOf, let_statement-Safe, return_statement-Safe, expression_statement-Safe,
}
use speck.Parser.Safe.{IsFile, At, Ensures, returns, Keeps, ◌⟫◌, relax, lower, branch}
use speck.Parser.State.{Parser, M, nested}
use speck.Parser.Statement.{
  with_bindings, else_branch, if_statement, while_statement, for_statement, when_at, statement,
  statement_loop, block_contents, nested_contents, parse_block,
}
use speck.Syntax.Expr.{Expr}
use speck.Syntax.Stmt.{Stmt, Block, nil, push}

module _ {k : SourceId} {toks : List Token} (file : IsFile k toks) where
  -- A parser of nested blocks, in any scope.
  abbrev pub Blocks : ℕ → M (Block × Span) → Type 0
  Blocks n block = (v : ℕ) → Consumes toks (BlockOf k (suc n)) n v block

  pub with_bindings-Safe :
      (n v : ℕ) (block : M (Block × Span)) (bindings : List Text)
      → Blocks n block
      → Consumes toks (BlockOf k (suc n)) n v (with_bindings block bindings)
  unfolding with_bindings
  with_bindings-Safe n v block bindings blocks c s p =
      push_scope-Safe file bindings s p ⟫ λ _ s₁ (_, p₁).
      blocks (suc v) c s₁ p₁ ⟫ λ result s₂ (b, p₂).
      pop_scope-Safe file s₂ p₂ ⟫ λ _ s₃ (_, p₃). returns (b, p₃)

  module _ (n v : ℕ) (block : M (Block × Span)) (blocks : Blocks n block) where
    else_branch-Safe :
        (c : ℕ) (condition : Expr) (body : Block) (then_end start : Span) (s : Parser)
        → Below n condition
        → BlockWithin (suc n) body
        → then_end.source ≡ k
        → start.source ≡ k
        → At toks n v c s
        → Ensures
            (Keeps toks (StmtWithin n) n v c)
            (else_branch block condition body then_end start s)
    unfolding else_branch KindWithin
    else_branch-Safe c condition body then_end start s hc hb from_end from p =
        take-Safe file TokenKind.else_word s refl p ⟫ λ otherwise s₁ (p₁, _).
        branch otherwise _ _
          (λ _. blocks v c s₁ p₁ ⟫ λ (other, close) s₂ (b, p₂).
            merged-Safe file start close s₂ from b.1 p₂ ⟫ λ span s₃ (_, p₃).
            returns ((hc, hb, b.0), relax c p₃ (omega arith)))
          (λ _. merged-Safe file start then_end s₁ from from_end p₁ ⟫ λ span s₂ (_, p₂).
            returns ((hc, hb), p₂))

    if_statement-Safe : Consumes toks (StmtWithin n) n v (if_statement block)
    unfolding if_statement
    if_statement-Safe c s p = expect-Safe file TokenKind.if_word _ s refl p ⟫ λ first s₁ (f, p₁).
        expression-Safe file n v _ s₁ p₁ ⟫ λ condition s₂ (h, p₂).
        blocks v _ s₂ p₂ ⟫ λ (body, close) s₃ (b, p₃).
        lower (suc c) (omega arith)
          (else_branch-Safe _ condition body close first.span s₃ h.within b.0 b.1 f.from p₃)

    while_statement-Safe : Consumes toks (StmtWithin n) n v (while_statement block)
    unfolding while_statement KindWithin
    while_statement-Safe c s p = expect-Safe file TokenKind.while _ s refl p ⟫ λ first s₁ (f, p₁).
        expression-Safe file n v _ s₁ p₁ ⟫ λ condition s₂ (h, p₂).
        blocks v _ s₂ p₂ ⟫ λ (body, close) s₃ (b, p₃).
        merged-Safe file first.span close s₃ f.from b.1 p₃ ⟫ λ span s₄ (_, p₄).
        returns ((h.within, b.0), relax (suc c) p₄ (omega arith))

    for_statement-Safe : Consumes toks (StmtWithin n) n v (for_statement block)
    unfolding for_statement KindWithin
    for_statement-Safe c s p = expect-Safe file TokenKind.for _ s refl p ⟫ λ first s₁ (f, p₁).
        identifier-Safe file _ s₁ p₁ ⟫ λ (name, name_span) s₂ (_, p₂).
        expect-Safe file TokenKind.in_word _ s₂ refl p₂ ⟫ λ _ s₃ (_, p₃).
        expression-Safe file n v _ s₃ p₃ ⟫ λ low s₄ (l, p₄).
        expect-Safe file TokenKind.dot_dot _ s₄ refl p₄ ⟫ λ _ s₅ (_, p₅).
        expression-Safe file n v _ s₅ p₅ ⟫ λ upper s₆ (u, p₆).
        with_bindings-Safe n v block _ blocks _ s₆ p₆ ⟫ λ (body, close) s₇ (b, p₇).
        merged-Safe file first.span close s₇ f.from b.1 p₇ ⟫ λ span s₈ (_, p₈).
        returns ((l.within, u.within, b.0), relax (suc c) p₈ (omega arith))

    when_at-Safe :
        (kind : TokenKind) (parse otherwise : M Stmt)
        → Consumes toks (StmtWithin n) n v parse
        → Consumes toks (StmtWithin n) n v otherwise
        → Consumes toks (StmtWithin n) n v (when_at kind parse otherwise)
    unfolding when_at
    when_at-Safe kind parse otherwise h k c s p =
        at-Safe file kind s p ⟫ λ here s₁ (_, p₁). branch here _ _ (λ _. h c s₁ p₁) (λ _. k c s₁ p₁)

  module _ (n v : ℕ) (block : M (Block × Span)) (blocks : Blocks n block) where
    statement-Safe : Consumes toks (StmtWithin n) n (suc v) (statement block)
    unfolding statement
    statement-Safe =
        when_at-Safe n (suc v) block blocks TokenKind.let_word _ _ (let_statement-Safe file n v) (
          when_at-Safe n (suc v) block blocks TokenKind.if_word _ _
            (if_statement-Safe n (suc v) block blocks)
            (when_at-Safe n (suc v) block blocks TokenKind.while _ _
              (while_statement-Safe n (suc v) block blocks)
              (when_at-Safe n (suc v) block blocks TokenKind.for _ _
                (for_statement-Safe n (suc v) block blocks)
                (when_at-Safe n (suc v) block blocks TokenKind.return _ _
                  (return_statement-Safe file n (suc v))
                  (expression_statement-Safe file n (suc v))))))

    statement_loop-Safe :
        (fuel c : ℕ) (statements : Block) (s : Parser)
        → length toks ≤ c + fuel
        → BlockWithin n statements
        → At toks n (suc v) c s
        → Ensures (Keeps toks (BlockWithin n) n (suc v) c) (statement_loop block fuel statements s)
    unfolding statement_loop
    statement_loop-Safe zero c statements s enough h p = absurd (omega (arith, p.low, p.high))
    statement_loop-Safe (suc fuel) c statements s enough h p =
        at_end-Safe file TokenKind.right_brace s p ⟫ λ ended s₁ (_, p₁).
        branch ended _ _ (λ _. returns (h, p₁))
          (λ _. statement-Safe c s₁ p₁ ⟫ λ next s₂ (k, p₂). lower c (omega arith) (
            statement_loop-Safe fuel (suc c) (push statements next) s₂ (omega arith)
              (push-BlockWithin n statements next h k) p₂))

    block_contents-Safe : Consumes toks (BlockOf k n) n v (block_contents block)
    unfolding block_contents KindWithin
    block_contents-Safe c s p = expect-Safe file TokenKind.left_brace _ s refl p ⟫ λ _ s₁ (_, p₁).
        push_scope-Safe file [] s₁ p₁ ⟫ λ _ s₂ (_, p₂).
        with_fuel-Safe (λ fuel. statement_loop block fuel nil) s₂ p₂
          (λ fuel enough. statement_loop-Safe fuel (suc c) nil s₂ enough p₂.shallow p₂)
        ⟫ λ statements s₃ (h, p₃).
            expect-Safe file TokenKind.right_brace _ s₃ refl p₃ ⟫ λ t s₄ (f, p₄).
            pop_scope-Safe file s₄ p₄ ⟫ λ _ s₅ (_, p₅).
            returns ((h, f.from), relax (suc c) p₅ (omega arith))

  -- The fuel outlasts the nesting that is left.
  nested_contents-Safe :
      (depth n v : ℕ)
      → max_nesting < n + depth
      → Consumes toks (BlockOf k n) n v (nested_contents depth)
  unfolding nested_contents
  nested_contents-Safe zero n v deep c s p = absurd (omega (arith, p.shallow))
  nested_contents-Safe (suc depth) n v deep c s p =
      block_contents-Safe n v (nested (nested_contents depth))
        (λ v' c' s' p'.
          nested-Safe file (nested_contents depth) s' p'
            λ s'' lt q. nested_contents-Safe depth (suc n) v' (omega arith) c' s'' q)
        c s p

  pub parse_block-Safe : (n : ℕ) → Blocks n parse_block
  unfolding parse_block
  parse_block-Safe n v c s p =
      nested-Safe file (nested_contents (max_nesting + 1)) s p
        λ s' lt q. nested_contents-Safe (max_nesting + 1) (suc n) v (omega arith) c s' q
