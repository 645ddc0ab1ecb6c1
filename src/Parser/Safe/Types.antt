-- ===== src/Parser/Safe/Types.antt =====
-- The parsers of types and of qualified names are safe.
use speck.Base.{ℕ, zero, suc, ◌+◌, ◌-◌, ◌<◌, ◌^◌, false, List, Text, ◌≡◌, refl, arith}
use speck.Base.Int.{ℤ, pos, negsuc, leb_ℤ}
use speck.Diagnostic.{SourceId, Span}
use speck.Lexer.Token.{Token, TokenKind}
use speck.Parser.Limits.{max_nesting}
use speck.Parser.Safe.Primitives.{
  at-Safe, error-Safe, advance-Safe, take-Safe, expect-Safe, identifier-Safe, integer_token-Safe,
  merged-Safe, nested-Safe, Spanned,
}
use speck.Parser.Safe.{
  is_eof, IsNonNegative, IsFile, At, Ensures, returns, fails, Keeps, Anything, ◌⟫◌, relax, branch,
}
use speck.Parser.State.{Parser, M, nested}
use speck.Parser.Types.{
  qualified_end, qualified_rest, qualified_name, negated, constant_length, length_of,
  negative_length, array_length, type_of_token, value_type, parse_value_type, parse_return_type,
}
use speck.Syntax.{ValueType}

module _ {k : SourceId} {toks : List Token} (file : IsFile k toks) where
  qualified_rest-Safe :
      {n v c : ℕ} (name : Text) (start : Span) (s : Parser)
      → start.source ≡ k
      → At toks n v c s
      → Ensures (Keeps toks (Spanned file) n v c) (qualified_rest name start s)
  unfolding qualified_rest qualified_end
  qualified_rest-Safe {c} name start s from p =
      identifier-Safe file _ s p ⟫ λ (member, end) s₁ (h₁, p₁).
      at-Safe file TokenKind.colon_colon s₁ p₁ ⟫ λ again s₂ (_, p₂).
      branch again _ _ (λ _. error-Safe file _ s₂ p₂)
        (λ _. merged-Safe file start end s₂ from h₁ p₂ ⟫ λ span s₃ (h₃, p₃).
          returns (h₃, relax c p₃ (omega arith)))

  pub qualified_name-Safe :
      {n v c : ℕ} (name : Text) (start : Span) (s : Parser)
      → start.source ≡ k
      → At toks n v c s
      → Ensures (Keeps toks (Spanned file) n v c) (qualified_name name start s)
  unfolding qualified_name
  qualified_name-Safe name start s from p =
      take-Safe file TokenKind.colon_colon s refl p ⟫ λ taken s₁ (p₁, _).
      branch taken _ _ (λ _. qualified_rest-Safe name start s₁ from p₁) (λ _. returns (from, p₁))

  negated-Safe :
      {n v c : ℕ} (m : ℤ) (s : Parser)
      → IsNonNegative m
      → At toks n v c s
      → Ensures (Keeps toks Anything n v c) (negated m s)
  unfolding negated
  negated-Safe (pos m) s h p =
      let fits : leb_ℤ (pos m) (negsuc (2 ^ 63 - 1)) ≡ false = ground arith in
      rw fits (returns (tt, p))
  negated-Safe (negsuc m) s h p = absurd h

  negative_length-Safe :
      {n v c : ℕ} (s : Parser)
      → At toks n v c s
      → Ensures (Keeps toks Anything n v c) (negative_length s)
  unfolding negative_length
  negative_length-Safe {c} s p = integer_token-Safe file _ s p ⟫ λ (m, span) s₁ (h₁, p₁).
      negated-Safe m s₁ h₁.0 p₁ ⟫ λ m' s₂ (_, p₂). returns (tt, relax c p₂ (omega arith))

  length_of-Safe :
      {n v c : ℕ} (kind : TokenKind) (span : Span) (s : Parser)
      → span.source ≡ k
      → At toks n v c s
      → Ensures (Keeps toks Anything n v c) (length_of kind span s)
  unfolding length_of constant_length
  length_of-Safe (TokenKind.integer m) span s from p = returns (tt, p)
  length_of-Safe (TokenKind.identifier name) span s from p =
      qualified_name-Safe name span s from p ⟫ λ _ s₁ (_, p₁). returns (tt, p₁)
  length_of-Safe _ span s from p = fails

  array_length-Safe :
      {n v c : ℕ} (s : Parser)
      → At toks n v c s
      → Ensures (Keeps toks Anything n v c) (array_length s)
  unfolding array_length
  array_length-Safe s p = take-Safe file TokenKind.minus s refl p ⟫ λ minus s₁ (p₁, _).
      branch minus _ _ (λ _. negative_length-Safe s₁ p₁)
        (λ _. advance-Safe file s₁ p₁ ⟫ λ t s₂ (fits, p₂, _).
          length_of-Safe t.kind t.span s₂ fits.from p₂)

  -- A type begins with a token that is not the end token.
  type_of_token-Safe :
      {n v c : ℕ} (element : M ValueType) (kind : TokenKind) (span : Span) (s : Parser)
      → ((d : ℕ) (s : Parser)
          → At toks n v d s
          → Ensures (Keeps toks Anything n v (suc d)) (element s))
      → span.source ≡ k
      → (is_eof kind ≡ false → At toks n v c s)
      → Ensures (Keeps toks Anything n v c) (type_of_token element kind span s)
  unfolding type_of_token
  type_of_token-Safe element TokenKind.i32 span s below from p = returns (tt, p refl)
  type_of_token-Safe element TokenKind.f32 span s below from p = returns (tt, p refl)
  type_of_token-Safe element TokenKind.bool span s below from p = returns (tt, p refl)
  type_of_token-Safe element (TokenKind.identifier name) span s below from p =
      qualified_name-Safe name span s from (p refl) ⟫ λ _ s₁ (_, p₁). returns (tt, p₁)
  type_of_token-Safe {c} element TokenKind.left_bracket span s below from p =
      below c s (p refl) ⟫ λ ty s₁ (_, p₁).
      expect-Safe file TokenKind.semicolon _ s₁ refl p₁ ⟫ λ _ s₂ (_, p₂).
      array_length-Safe s₂ p₂ ⟫ λ length s₃ (_, p₃).
      expect-Safe file TokenKind.right_bracket _ s₃ refl p₃ ⟫ λ _ s₄ (_, p₄).
      returns (tt, relax c p₄ (omega arith))
  type_of_token-Safe element _ span s below from p = fails

  value_type-Safe :
      (depth : ℕ) {n v c : ℕ} (s : Parser)
      → max_nesting < n + depth
      → At toks n v c s
      → Ensures (Keeps toks Anything n v (suc c)) (value_type depth s)
  unfolding value_type
  value_type-Safe zero s deep p = absurd (omega (arith, p.shallow))
  value_type-Safe (suc depth) s deep p = advance-Safe file s p ⟫ λ t s₁ (fits, p₁, past).
      type_of_token-Safe (nested (value_type depth)) t.kind t.span s₁
        (λ d s' q.
          nested-Safe file (value_type depth) s' q
            λ s'' lt q'. value_type-Safe depth s'' (omega arith) q')
        fits.from past

  pub parse_value_type-Safe :
      {n v c : ℕ} (s : Parser)
      → At toks n v c s
      → Ensures (Keeps toks Anything n v (suc c)) (parse_value_type s)
  unfolding parse_value_type
  parse_value_type-Safe s p =
      nested-Safe file (value_type (max_nesting + 1)) s p
        λ s' lt q. value_type-Safe (max_nesting + 1) s' (omega arith) q

  pub parse_return_type-Safe :
      {n v c : ℕ} (s : Parser)
      → At toks n v c s
      → Ensures (Keeps toks Anything n v c) (parse_return_type s)
  unfolding parse_return_type
  parse_return_type-Safe {c} s p = take-Safe file TokenKind.void s refl p ⟫ λ taken s₁ (p₁, _).
      branch taken _ _ (λ _. returns (tt, p₁))
        (λ _. parse_value_type-Safe s₁ p₁ ⟫ λ ty s₂ (_, p₂). returns (tt, relax c p₂ (omega arith)))
