-- ===== src/Parser/Safe/Declaration.antt =====
-- The parsers of top-level declarations are safe, and what they return lies within the limit.
use speck.Base.{ℕ, zero, suc, ◌+◌, ◌≤◌, Text, false, List, [], ◌≡◌, refl, arith, length, ◌&&◌}
use speck.Base.Int.{pos, leb_ℤ}
use speck.Diagnostic.{SourceId, Span}
use speck.Lexer.Token.{Token, TokenKind}
use speck.Parser.Declaration.{
  field_loop, parse_struct, parse_sound, parse_constant, parse_global, parse_callback, parse_start,
  parse_draw, parse_update, param_loop, parse_params, parse_named_function, at_name,
  resolution_dimension, checked_resolution, parse_resolution,
}
use speck.Parser.Limits.Blocks.{Below, BlockWithin}
use speck.Parser.Safe.Block.{with_bindings-Safe, parse_block-Safe}
use speck.Parser.Safe.Expression.Primary.{at_end-Safe}
use speck.Parser.Safe.Expression.Recursion.{expression-Safe}
use speck.Parser.Safe.Primitives.{
  current-Safe, at-Safe, advance-Safe, take-Safe, expect-Safe, identifier-Safe, string_token-Safe,
  integer_token-Safe, optional_semicolon-Safe, merged-Safe, unwrap_or-from, same_state,
}
use speck.Parser.Safe.Rules.{Consumes, Preserves, with_fuel-Safe}
use speck.Parser.Safe.Types.{parse_value_type-Safe, parse_return_type-Safe}
use speck.Parser.Safe.{
  is_eof, IsFile, At, Ensures, returns, fails, Keeps, Anything, ◌⟫◌, relax, lower, branch,
}
use speck.Parser.Statement.{parse_block}
use speck.Parser.State.{Parser}
use speck.Resolution.Limits.{InLimits, IsChecked, new_resolution-IsChecked}
use speck.Resolution.{Checked, new_resolution, valid, rejected, max_dimension}
use speck.Syntax.Expr.{span_of}
use speck.Syntax.Stmt.{Constant, Global, Function}
use speck.Syntax.{StructField, Param, FunctionKind}

abbrev pub ConstantWithin : Constant → Type 0
ConstantWithin x = Below 0 x.init

abbrev pub GlobalWithin : Global → Type 0
GlobalWithin x = Below 0 x.init

abbrev pub FunctionWithin : Function → Type 0
FunctionWithin f = BlockWithin 1 f.body

-- Top-level declarations stand at nesting 0, outside of all scopes.
module _ {k : SourceId} {toks : List Token} (file : IsFile k toks) where
  field_loop-Safe :
      (fuel c : ℕ) (fields : List StructField) (s : Parser)
      → length toks ≤ c + fuel
      → At toks 0 0 c s
      → Ensures (Keeps toks Anything 0 0 c) (field_loop fuel fields s)
  unfolding field_loop
  field_loop-Safe zero c fields s enough p = absurd (omega (arith, p.low, p.high))
  field_loop-Safe (suc fuel) c fields s enough p =
      at_end-Safe file TokenKind.right_brace s p ⟫ λ ended s₁ (_, p₁).
      branch ended _ _ (λ _. returns (tt, p₁))
        (λ _. identifier-Safe file _ s₁ p₁ ⟫ λ (name, span) s₂ (_, p₂).
          expect-Safe file TokenKind.colon _ s₂ refl p₂ ⟫ λ _ s₃ (_, p₃).
          parse_value_type-Safe file s₃ p₃ ⟫ λ ty s₄ (_, p₄).
          take-Safe file TokenKind.comma s₄ refl p₄ ⟫ λ _ s₅ (p₅, _).
          lower c (omega arith) (field_loop-Safe fuel _ _ s₅ (omega arith) p₅))

  pub parse_struct-Safe : Consumes toks Anything 0 0 parse_struct
  unfolding parse_struct
  parse_struct-Safe c s p = expect-Safe file TokenKind.struct _ s refl p ⟫ λ first s₁ (f, p₁).
      identifier-Safe file _ s₁ p₁ ⟫ λ (name, _) s₂ (_, p₂).
      expect-Safe file TokenKind.left_brace _ s₂ refl p₂ ⟫ λ _ s₃ (_, p₃).
      with_fuel-Safe (λ fuel. field_loop fuel []) s₃ p₃
        (λ fuel enough. field_loop-Safe fuel _ [] s₃ enough p₃)
      ⟫ λ fields s₄ (_, p₄). expect-Safe file TokenKind.right_brace _ s₄ refl p₄ ⟫ λ t s₅ (g, p₅).
          merged-Safe file first.span t.span s₅ f.from g.from p₅ ⟫ λ span s₆ (_, p₆).
          returns (tt, relax (suc c) p₆ (omega arith))

  -- The word `sound` is an identifier, which is passed before the name is read.
  pub parse_sound-Safe : Consumes toks Anything 0 0 parse_sound
  unfolding parse_sound
  parse_sound-Safe c s p = advance-Safe file s p ⟫ λ first s₁ (f, p₁, _).
      identifier-Safe file _ s₁ p₁ ⟫ λ (name, _) s₂ (_, p₂).
      expect-Safe file TokenKind.equal _ s₂ refl p₂ ⟫ λ _ s₃ (_, p₃).
      string_token-Safe file _ s₃ p₃ ⟫ λ (path, path_span) s₄ (from, p₄).
      optional_semicolon-Safe file s₄ p₄ ⟫ λ semicolon s₅ (h, p₅).
      merged-Safe file first.span _ s₅ f.from (unwrap_or-from file semicolon path_span h from) p₅
      ⟫ λ span s₆ (_, p₆). returns (tt, relax (suc c) p₆ (omega arith))

  pub parse_constant-Safe : Consumes toks ConstantWithin 0 0 parse_constant
  unfolding parse_constant
  parse_constant-Safe c s p = expect-Safe file TokenKind.const _ s refl p ⟫ λ first s₁ (f, p₁).
      identifier-Safe file _ s₁ p₁ ⟫ λ (name, _) s₂ (_, p₂).
      expect-Safe file TokenKind.colon _ s₂ refl p₂ ⟫ λ _ s₃ (_, p₃).
      parse_value_type-Safe file s₃ p₃ ⟫ λ ty s₄ (_, p₄).
      expect-Safe file TokenKind.equal _ s₄ refl p₄ ⟫ λ _ s₅ (_, p₅).
      expression-Safe file 0 0 _ s₅ p₅ ⟫ λ init s₆ (b, p₆).
      optional_semicolon-Safe file s₆ p₆ ⟫ λ semicolon s₇ (h, p₇).
      merged-Safe file first.span _ s₇ f.from
        (unwrap_or-from file semicolon (span_of init) h b.from) p₇
      ⟫ λ span s₈ (_, p₈). returns (b.within, relax (suc c) p₈ (omega arith))

  pub parse_global-Safe : Consumes toks GlobalWithin 0 0 parse_global
  unfolding parse_global
  parse_global-Safe c s p = expect-Safe file TokenKind.let_word _ s refl p ⟫ λ first s₁ (f, p₁).
      identifier-Safe file _ s₁ p₁ ⟫ λ (name, _) s₂ (_, p₂).
      expect-Safe file TokenKind.colon _ s₂ refl p₂ ⟫ λ _ s₃ (_, p₃).
      parse_value_type-Safe file s₃ p₃ ⟫ λ ty s₄ (_, p₄).
      expect-Safe file TokenKind.equal _ s₄ refl p₄ ⟫ λ _ s₅ (_, p₅).
      expression-Safe file 0 0 _ s₅ p₅ ⟫ λ init s₆ (b, p₆).
      optional_semicolon-Safe file s₆ p₆ ⟫ λ semicolon s₇ (h, p₇).
      merged-Safe file first.span _ s₇ f.from
        (unwrap_or-from file semicolon (span_of init) h b.from) p₇
      ⟫ λ span s₈ (_, p₈). returns (b.within, relax (suc c) p₈ (omega arith))

  parse_callback-Safe :
      (word : TokenKind) (message name : Text) (kind : FunctionKind)
      → is_eof word ≡ false
      → Consumes toks FunctionWithin 0 0 (parse_callback word message name kind)
  unfolding parse_callback
  parse_callback-Safe word message name kind inner c s p =
      expect-Safe file word message s inner p ⟫ λ first s₁ (f, p₁).
      with_bindings-Safe file 0 0 parse_block [] (parse_block-Safe file 0) _ s₁ p₁
      ⟫ λ (body, close) s₂ (b, p₂).
          merged-Safe file first.span close s₂ f.from b.1 p₂ ⟫ λ span s₃ (_, p₃).
          returns (b.0, relax (suc c) p₃ (omega arith))

  pub parse_start-Safe : Consumes toks FunctionWithin 0 0 parse_start
  unfolding parse_start
  parse_start-Safe = parse_callback-Safe TokenKind.start _ _ _ refl

  pub parse_draw-Safe : Consumes toks FunctionWithin 0 0 parse_draw
  unfolding parse_draw
  parse_draw-Safe = parse_callback-Safe TokenKind.draw _ _ _ refl

  pub parse_update-Safe : Consumes toks FunctionWithin 0 0 parse_update
  unfolding parse_update
  parse_update-Safe c s p = expect-Safe file TokenKind.update _ s refl p ⟫ λ first s₁ (f, p₁).
      expect-Safe file TokenKind.left_paren _ s₁ refl p₁ ⟫ λ _ s₂ (_, p₂).
      identifier-Safe file _ s₂ p₂ ⟫ λ (name, name_span) s₃ (_, p₃).
      expect-Safe file TokenKind.colon _ s₃ refl p₃ ⟫ λ _ s₄ (_, p₄).
      parse_value_type-Safe file s₄ p₄ ⟫ λ ty s₅ (_, p₅).
      expect-Safe file TokenKind.right_paren _ s₅ refl p₅ ⟫ λ _ s₆ (_, p₆).
      with_bindings-Safe file 0 0 parse_block _ (parse_block-Safe file 0) _ s₆ p₆
      ⟫ λ (body, close) s₇ (b, p₇).
          merged-Safe file first.span close s₇ f.from b.1 p₇ ⟫ λ span s₈ (_, p₈).
          returns (b.0, relax (suc c) p₈ (omega arith))

  param_loop-Safe :
      (fuel c : ℕ) (params : List Param) (s : Parser)
      → length toks ≤ c + fuel
      → At toks 0 0 c s
      → Ensures (Keeps toks Anything 0 0 c) (param_loop fuel params s)
  unfolding param_loop
  param_loop-Safe zero c params s enough p = absurd (omega (arith, p.low, p.high))
  param_loop-Safe (suc fuel) c params s enough p = lower c (omega arith) (
      identifier-Safe file _ s p ⟫ λ (name, span) s₁ (_, p₁).
      expect-Safe file TokenKind.colon _ s₁ refl p₁ ⟫ λ _ s₂ (_, p₂).
      parse_value_type-Safe file s₂ p₂ ⟫ λ ty s₃ (_, p₃).
      take-Safe file TokenKind.comma s₃ refl p₃ ⟫ λ more s₄ (p₄, _).
      branch more _ _ (λ _. param_loop-Safe fuel _ _ s₄ (omega arith) p₄) (λ _. returns (tt, p₄)))

  parse_params-Safe : Preserves toks Anything 0 0 parse_params
  unfolding parse_params
  parse_params-Safe c s p = at-Safe file TokenKind.right_paren s p ⟫ λ closed s₁ (_, p₁).
      branch closed _ _ (λ _. returns (tt, p₁))
        (λ _.
          with_fuel-Safe (λ fuel. param_loop fuel []) s₁ p₁
            λ fuel enough. param_loop-Safe fuel c [] s₁ enough p₁)

  pub parse_named_function-Safe : Consumes toks FunctionWithin 0 0 parse_named_function
  unfolding parse_named_function
  parse_named_function-Safe c s p = expect-Safe file TokenKind.fn _ s refl p ⟫ λ first s₁ (f, p₁).
      identifier-Safe file _ s₁ p₁ ⟫ λ (name, _) s₂ (_, p₂).
      expect-Safe file TokenKind.left_paren _ s₂ refl p₂ ⟫ λ _ s₃ (_, p₃).
      parse_params-Safe _ s₃ p₃ ⟫ λ params s₄ (_, p₄).
      expect-Safe file TokenKind.right_paren _ s₄ refl p₄ ⟫ λ _ s₅ (_, p₅).
      expect-Safe file TokenKind.arrow _ s₅ refl p₅ ⟫ λ _ s₆ (_, p₆).
      parse_return_type-Safe file s₆ p₆ ⟫ λ ty s₇ (_, p₇).
      with_bindings-Safe file 0 0 parse_block _ (parse_block-Safe file 0) _ s₇ p₇
      ⟫ λ (body, close) s₈ (b, p₈).
          merged-Safe file first.span close s₈ f.from b.1 p₈ ⟫ λ span s₉ (_, p₉).
          returns (b.0, relax (suc c) p₉ (omega arith))

  pub at_name-Safe : (word : Text) → Preserves toks Anything 0 0 (at_name word)
  unfolding at_name
  at_name-Safe word c s p =
      current-Safe file s p ⟫ λ t s₁ (_, same). returns (tt, same_state file p same)

  resolution_dimension-Safe : (name : Text) → Consumes toks Anything 0 0 (resolution_dimension name)
  unfolding resolution_dimension
  resolution_dimension-Safe name c s p = integer_token-Safe file _ s p ⟫ λ (m, span) s₁ (_, p₁).
      branch (leb_ℤ (pos 1) m && leb_ℤ m (pos max_dimension)) _ _ (λ _. returns (tt, p₁))
        (λ _. fails)

  checked_resolution-Safe :
      (width height : ℕ) (r : Checked) (span : Span)
      → IsChecked width height r
      → Preserves toks InLimits 0 0 (checked_resolution r span)
  unfolding checked_resolution
  checked_resolution-Safe width height (valid r) span h c s p = returns (h.2, p)
  checked_resolution-Safe width height (rejected name dimension) span h c s p = fails

  pub parse_resolution-Safe : Consumes toks InLimits 0 0 parse_resolution
  unfolding parse_resolution
  parse_resolution-Safe c s p = advance-Safe file s p ⟫ λ first s₁ (f, p₁, _).
      expect-Safe file TokenKind.left_paren _ s₁ refl p₁ ⟫ λ _ s₂ (_, p₂).
      resolution_dimension-Safe _ _ s₂ p₂ ⟫ λ width s₃ (_, p₃).
      expect-Safe file TokenKind.comma _ s₃ refl p₃ ⟫ λ _ s₄ (_, p₄).
      resolution_dimension-Safe _ _ s₄ p₄ ⟫ λ height s₅ (_, p₅).
      expect-Safe file TokenKind.right_paren _ s₅ refl p₅ ⟫ λ t s₆ (g, p₆).
      merged-Safe file first.span t.span s₆ f.from g.from p₆ ⟫ λ span s₇ (_, p₇).
      lower (suc c) (omega arith) (
        checked_resolution-Safe width height (new_resolution width height) span
          (new_resolution-IsChecked width height) _ s₇ p₇)
