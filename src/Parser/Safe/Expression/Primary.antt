-- ===== src/Parser/Safe/Expression/Primary.antt =====
-- Operands: from `unary` down to `primary`, and the recursion through `nested`.
use speck.Base.{ℕ, zero, suc, ◌+◌, ◌≤◌, Text, false, List, ◌≡◌, refl, arith, length}
use speck.Diagnostic.{SourceId, Span}
use speck.Lexer.Token.{Token, TokenKind}
use speck.Parser.Expression.{
  argument_loop, arguments, element_loop, array_literal, conversion, at_end, initializer_loop,
  struct_literal, looks_like_struct_literal, call_or_variable, named_expression, parenthesized,
  primary_of, primary, index_of, field_of, postfix_loop, postfix,
}
use speck.Parser.Limits.Height.{height}
use speck.Parser.Safe.Primitives.{
  at-Safe, advance-Safe, take-Safe, expect-Safe, identifier-Safe, merged-Safe,
}
use speck.Parser.Safe.Rules.{IsBounded, Consumes, checked-Safe, with_fuel-Safe}
use speck.Parser.Safe.Types.{qualified_name-Safe}
use speck.Parser.Safe.{
  is_eof, IsFile, At, Ensures, returns, fails, Keeps, Anything, ◌⟫◌, relax, lower, branch,
}
use speck.Parser.State.{Parser, M}
use speck.Syntax.Expr.{Expr, expr, Exprs, nil, push, Fields, end, span_of, with_span}
use speck.Syntax.{ValueType}

module _ {k : SourceId} {toks : List Token} (file : IsFile k toks) where
  pub at_end-Safe :
      {n v c : ℕ} (kind : TokenKind) (s : Parser)
      → At toks n v c s
      → Ensures (Keeps toks Anything n v c) (at_end kind s)
  unfolding at_end
  at_end-Safe kind s p = at-Safe file kind s p ⟫ λ closed s₁ (_, p₁).
      branch closed _ _ (λ _. returns (tt, p₁)) (λ _. at-Safe file TokenKind.eof s₁ p₁)

  looks_like-Safe :
      {n v c : ℕ} (name : Text) (s : Parser)
      → At toks n v c s
      → Ensures (Keeps toks Anything n v c) (looks_like_struct_literal name s)
  unfolding looks_like_struct_literal
  looks_like-Safe name s p =
      at-Safe file TokenKind.left_brace s p ⟫ λ brace s₁ (_, p₁). returns (tt, p₁)

-- `expression` is the parser for nested expressions.
module _ {k : SourceId} {toks : List Token} (file : IsFile k toks) (n v : ℕ) (expression : M Expr)
    (expressions : Consumes toks (IsBounded k n) n v expression) where
  abbrev Yields : {A : Type 0} → (A → Type 0) → ℕ → M A → Parser → Type 0
  Yields P c m s = At toks n v c s → Ensures (Keeps toks P n v c) (m s)

  argument_loop-Safe :
      (fuel c : ℕ) (args : Exprs) (s : Parser)
      → length toks ≤ c + fuel
      → Yields Anything c (argument_loop expression fuel args) s
  unfolding argument_loop
  argument_loop-Safe zero c args s enough p = absurd (omega (arith, p.low, p.high))
  argument_loop-Safe (suc fuel) c args s enough p = lower c (omega arith) (
      expressions c s p ⟫ λ arg s₁ (_, p₁).
      take-Safe file TokenKind.comma s₁ refl p₁ ⟫ λ more s₂ (p₂, _).
      branch more _ _ (λ _. argument_loop-Safe fuel (suc c) (push args arg) s₂ (omega arith) p₂)
        (λ _. returns (tt, p₂)))

  arguments-Safe :
      (c : ℕ) (s : Parser)
      → Yields (λ (x : Exprs × Span). x.1.source ≡ k) c (arguments expression) s
  unfolding arguments
  arguments-Safe c s p = at-Safe file TokenKind.right_paren s p ⟫ λ closed s₁ (_, p₁).
      branch closed _ _ (λ _. returns (tt, p₁))
        (λ _.
          with_fuel-Safe (λ fuel. argument_loop expression fuel nil) s₁ p₁
            λ fuel enough. argument_loop-Safe fuel c nil s₁ enough p₁)
      ⟫ λ args s₂ (_, p₂). expect-Safe file TokenKind.right_paren _ s₂ refl p₂ ⟫ λ t s₃ (fits, p₃).
          returns (fits.from, relax c p₃ (omega arith))

  element_loop-Safe :
      (fuel c : ℕ) (elements : Exprs) (s : Parser)
      → length toks ≤ c + fuel
      → Yields Anything c (element_loop expression fuel elements) s
  unfolding element_loop
  element_loop-Safe zero c elements s enough p = absurd (omega (arith, p.low, p.high))
  element_loop-Safe (suc fuel) c elements s enough p = lower c (omega arith) (
      expressions c s p ⟫ λ element s₁ (_, p₁).
      take-Safe file TokenKind.comma s₁ refl p₁ ⟫ λ more s₂ (p₂, _).
      branch more _ _
        (λ _. at-Safe file TokenKind.right_bracket s₂ p₂ ⟫ λ closed s₃ (_, p₃).
          branch closed _ _ (λ _. returns (tt, p₃))
            (λ _. element_loop-Safe fuel (suc c) (push elements element) s₃ (omega arith) p₃))
        (λ _. returns (tt, p₂)))

  array_literal-Safe :
      (c : ℕ) (start : Span) (s : Parser)
      → start.source ≡ k
      → Yields (IsBounded k n) c (array_literal expression start) s
  unfolding array_literal
  array_literal-Safe c start s from p =
      at-Safe file TokenKind.right_bracket s p ⟫ λ closed s₁ (_, p₁).
      branch closed _ _ (λ _. returns (tt, p₁))
        (λ _.
          with_fuel-Safe (λ fuel. element_loop expression fuel nil) s₁ p₁
            λ fuel enough. element_loop-Safe fuel c nil s₁ enough p₁)
      ⟫ λ elements s₂ (_, p₂).
          expect-Safe file TokenKind.right_bracket _ s₂ refl p₂ ⟫ λ t s₃ (fits, p₃).
          merged-Safe file start t.span s₃ from fits.from p₃ ⟫ λ span s₄ (h, p₄).
          checked-Safe _ span s₄ h (relax c p₄ (omega arith))

  conversion-Safe :
      (c : ℕ) (target : ValueType) (start : Span) (s : Parser)
      → start.source ≡ k
      → Yields (IsBounded k n) c (conversion expression target start) s
  unfolding conversion
  conversion-Safe c target start s from p =
      expect-Safe file TokenKind.left_paren _ s refl p ⟫ λ _ s₁ (_, p₁).
      arguments-Safe (suc c) s₁ p₁ ⟫ λ (args, close) s₂ (h₂, p₂).
      merged-Safe file start close s₂ from h₂ p₂ ⟫ λ span s₃ (h, p₃).
      checked-Safe _ span s₃ h (relax c p₃ (omega arith))

  initializer_loop-Safe :
      (fuel c : ℕ) (fields : Fields) (s : Parser)
      → length toks ≤ c + fuel
      → Yields Anything c (initializer_loop expression fuel fields) s
  unfolding initializer_loop
  initializer_loop-Safe zero c fields s enough p = absurd (omega (arith, p.low, p.high))
  initializer_loop-Safe (suc fuel) c fields s enough p =
      at_end-Safe file TokenKind.right_brace s p ⟫ λ ended s₁ (_, p₁).
      branch ended _ _ (λ _. returns (tt, p₁))
        (λ _. identifier-Safe file _ s₁ p₁ ⟫ λ (name, start) s₂ (from, p₂).
          expect-Safe file TokenKind.colon _ s₂ refl p₂ ⟫ λ _ s₃ (_, p₃).
          expressions _ s₃ p₃ ⟫ λ value s₄ (b, p₄).
          merged-Safe file start (span_of value) s₄ from b.from p₄ ⟫ λ span s₅ (_, p₅).
          take-Safe file TokenKind.comma s₅ refl p₅ ⟫ λ _ s₆ (p₆, _).
          lower c (omega arith) (initializer_loop-Safe fuel _ _ s₆ (omega arith) p₆))

  struct_literal-Safe :
      (c : ℕ) (name : Text) (start : Span) (s : Parser)
      → start.source ≡ k
      → Yields (IsBounded k n) c (struct_literal expression name start) s
  unfolding struct_literal
  struct_literal-Safe c name start s from p =
      expect-Safe file TokenKind.left_brace _ s refl p ⟫ λ _ s₁ (_, p₁).
      with_fuel-Safe (λ fuel. initializer_loop expression fuel end) s₁ p₁
        (λ fuel enough. initializer_loop-Safe fuel (suc c) end s₁ enough p₁)
      ⟫ λ fields s₂ (_, p₂).
          expect-Safe file TokenKind.right_brace _ s₂ refl p₂ ⟫ λ t s₃ (fits, p₃).
          merged-Safe file start t.span s₃ from fits.from p₃ ⟫ λ span s₄ (h, p₄).
          checked-Safe _ span s₄ h (relax c p₄ (omega arith))

  call_or_variable-Safe :
      (c : ℕ) (name : Text) (start name_span : Span) (s : Parser)
      → start.source ≡ k
      → name_span.source ≡ k
      → Yields (IsBounded k n) c (call_or_variable expression name start name_span) s
  unfolding call_or_variable
  call_or_variable-Safe c name start name_span s from from' p =
      take-Safe file TokenKind.left_paren s refl p ⟫ λ called s₁ (p₁, _).
      branch called _ _
        (λ _. arguments-Safe c s₁ p₁ ⟫ λ (args, close) s₂ (h₂, p₂).
          merged-Safe file start close s₂ from h₂ p₂ ⟫ λ span s₃ (h, p₃).
          checked-Safe _ span s₃ h p₃)
        (λ _. checked-Safe _ name_span s₁ from' p₁)

  named_expression-Safe :
      (c : ℕ) (name : Text) (start : Span) (s : Parser)
      → start.source ≡ k
      → Yields (IsBounded k n) c (named_expression expression name start) s
  unfolding named_expression
  named_expression-Safe c name start s from p =
      qualified_name-Safe file name start s from p ⟫ λ (name', name_span) s₁ (from', p₁).
      looks_like-Safe file name' s₁ p₁ ⟫ λ literal s₂ (_, p₂).
      branch literal _ _ (λ _. struct_literal-Safe c name' name_span s₂ from' p₂)
        (λ _. call_or_variable-Safe c name' start name_span s₂ from from' p₂)

  with_span-IsBounded :
      (e : Expr) (span : Span)
      → IsBounded k n e
      → span.source ≡ k
      → IsBounded k n (with_span e span)
  unfolding height
  with_span-IsBounded (expr kind old) span b from = record { from = from; within = b.within }

  parenthesized-Safe :
      (c : ℕ) (start : Span) (s : Parser)
      → start.source ≡ k
      → Yields (IsBounded k n) c (parenthesized expression start) s
  unfolding parenthesized
  parenthesized-Safe c start s from p = expressions c s p ⟫ λ inner s₁ (b, p₁).
      expect-Safe file TokenKind.right_paren _ s₁ refl p₁ ⟫ λ t s₂ (fits, p₂).
      merged-Safe file start t.span s₂ from fits.from p₂ ⟫ λ span s₃ (h, p₃).
      returns (with_span-IsBounded inner span b h, relax c p₃ (omega arith))

  primary_of-Safe :
      (c : ℕ) (kind : TokenKind) (span : Span) (s : Parser)
      → span.source ≡ k
      → (is_eof kind ≡ false → At toks n v c s)
      → Ensures (Keeps toks (IsBounded k n) n v c) (primary_of expression kind span s)
  unfolding primary_of
  primary_of-Safe c (TokenKind.integer m) span s from p = checked-Safe _ span s from (p refl)
  primary_of-Safe c (TokenKind.float bits) span s from p = checked-Safe _ span s from (p refl)
  primary_of-Safe c TokenKind.true_word span s from p = checked-Safe _ span s from (p refl)
  primary_of-Safe c TokenKind.false_word span s from p = checked-Safe _ span s from (p refl)
  primary_of-Safe c TokenKind.left_bracket span s from p = array_literal-Safe c span s from (p refl)
  primary_of-Safe c (TokenKind.identifier name) span s from p =
      named_expression-Safe c name span s from (p refl)
  primary_of-Safe c TokenKind.i32 span s from p =
      conversion-Safe c ValueType.i32 span s from (p refl)
  primary_of-Safe c TokenKind.f32 span s from p =
      conversion-Safe c ValueType.f32 span s from (p refl)
  primary_of-Safe c TokenKind.left_paren span s from p = parenthesized-Safe c span s from (p refl)
  primary_of-Safe c _ span s from p = fails

  primary-Safe : Consumes toks (IsBounded k n) n v (primary expression)
  unfolding primary
  primary-Safe c s p = advance-Safe file s p ⟫ λ t s₁ (fits, _, past).
      primary_of-Safe (suc c) t.kind t.span s₁ fits.from past

  index_of-Safe :
      (c : ℕ) (base : Expr) (s : Parser)
      → IsBounded k n base
      → Yields (IsBounded k n) c (index_of expression base) s
  unfolding index_of
  index_of-Safe c base s b p = expressions c s p ⟫ λ i s₁ (_, p₁).
      expect-Safe file TokenKind.right_bracket _ s₁ refl p₁ ⟫ λ t s₂ (fits, p₂).
      merged-Safe file (span_of base) t.span s₂ b.from fits.from p₂ ⟫ λ span s₃ (h, p₃).
      checked-Safe _ span s₃ h (relax c p₃ (omega arith))

  field_of-Safe :
      (c : ℕ) (base : Expr) (s : Parser)
      → IsBounded k n base
      → Yields (IsBounded k n) c (field_of base) s
  unfolding field_of
  field_of-Safe c base s b p = identifier-Safe file _ s p ⟫ λ (name, name_span) s₁ (from, p₁).
      merged-Safe file (span_of base) name_span s₁ b.from from p₁ ⟫ λ span s₂ (h, p₂).
      checked-Safe _ span s₂ h (relax c p₂ (omega arith))

  postfix_loop-Safe :
      (fuel c : ℕ) (base : Expr) (s : Parser)
      → length toks ≤ c + fuel
      → IsBounded k n base
      → Yields (IsBounded k n) c (postfix_loop expression fuel base) s
  unfolding postfix_loop
  postfix_loop-Safe zero c base s enough b p = absurd (omega (arith, p.low, p.high))
  postfix_loop-Safe (suc fuel) c base s enough b p =
      take-Safe file TokenKind.left_bracket s refl p ⟫ λ bracket s₁ (p₁, taken).
      branch bracket _ _
        (λ yes₁. index_of-Safe (suc c) base s₁ b (taken yes₁) ⟫ λ whole s₂ (w, p₂).
          lower c (omega arith) (postfix_loop-Safe fuel (suc c) whole s₂ (omega arith) w p₂))
        (λ _. take-Safe file TokenKind.dot s₁ refl p₁ ⟫ λ dot s₂ (p₂, taken').
          branch dot _ _
            (λ yes₂. field_of-Safe (suc c) base s₂ b (taken' yes₂) ⟫ λ whole s₃ (w, p₃).
              lower c (omega arith) (postfix_loop-Safe fuel (suc c) whole s₃ (omega arith) w p₃))
            (λ _. returns (b, p₂)))

  pub postfix-Safe : Consumes toks (IsBounded k n) n v (postfix expression)
  unfolding postfix
  postfix-Safe c s p = primary-Safe c s p ⟫ λ base s₁ (b, p₁).
      with_fuel-Safe (λ fuel. postfix_loop expression fuel base) s₁ p₁
        λ fuel enough. postfix_loop-Safe fuel (suc c) base s₁ enough b p₁
