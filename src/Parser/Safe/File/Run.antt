-- ===== src/Parser/Safe/File/Run.antt =====
-- `Parser::run` of src/parser.rs is safe, and so is the loop of `import_headers`.
use speck.Base.{
  ℕ, zero, suc, ◌+◌, ◌≤◌, ◌<◌, ◌&&◌, not, Text, Bool, true, false, List, [], ◌∷◌, refl, ap, ◌∙◌,
  arith, length, length-append, All, if◌then◌else◌,
}
use speck.Diagnostic.{SourceId, Span}
use speck.Lexer.Token.{Token, TokenKind}
use speck.Parser.Declaration.{at_sound_declaration, at_resolution, parse_resolution}
use speck.Parser.File.{
  new_parser, header_loop, is_root_word, when, parse_declaration, root_check, declaration,
  declaration_loop, empty_program, root_header, header, run,
}
use speck.Parser.Limits.Blocks.{ProgramWithin}
use speck.Parser.Safe.Declaration.{at_name-Safe, parse_resolution-Safe}
use speck.Parser.Safe.Primitives.{
  current-Safe, at-Safe, error-Safe, take-Safe, expect-Safe, string_token-Safe, same_state,
}
use speck.Parser.Safe.Rules.{Preserves, with_fuel-Safe}
use speck.Parser.Safe.{IsFile, At, Ensures, returns, Keeps, Anything, ◌⟫◌, relax, lower, branch}
use speck.Parser.State.{Parser, M, return, at, with_fuel}
use speck.Resolution.Limits.{InLimits, default_resolution-InLimits}
use speck.Resolution.{Resolution, default_resolution}
use speck.Syntax.Stmt.{Program}
use speck.Parser.Safe.File.Imports.{ImportFrom, header_loop-Safe}
use speck.Parser.Safe.File.Additions.{
  Adds, add_import-Safe, add_struct-Safe, add_sound-Safe, add_constant-Safe, add_global-Safe,
  add_start-Safe, add_update-Safe, add_draw-Safe, add_function-Safe,
}

module _ {k : SourceId} {toks : List Token} (file : IsFile k toks) where
  when-Safe :
      (test : M Bool) (parse otherwise : M Program)
      → Preserves toks Anything 0 0 test
      → Adds toks parse
      → Adds toks otherwise
      → Adds toks (when test parse otherwise)
  unfolding when
  when-Safe test parse otherwise t h k c s p =
      t c s p ⟫ λ here s₁ (_, p₁). branch here _ _ (λ _. h c s₁ p₁) (λ _. k c s₁ p₁)

  at_word : (kind : TokenKind) → Preserves toks Anything 0 0 (at kind)
  at_word kind c s p = at-Safe file kind s p

  parse_declaration-Safe : (p : Program) → ProgramWithin p → Adds toks (parse_declaration p)
  unfolding parse_declaration at_sound_declaration
  parse_declaration-Safe p h =
      when-Safe _ _ _ (at_word TokenKind.import_word) (add_import-Safe file p h) (
        when-Safe _ _ _ (at_word TokenKind.struct) (add_struct-Safe file p h) (
          when-Safe _ _ _ (at_name-Safe file _) (add_sound-Safe file p h) (
            when-Safe _ _ _ (at_word TokenKind.const) (add_constant-Safe file p h) (
              when-Safe _ _ _ (at_word TokenKind.let_word) (add_global-Safe file p h) (
                when-Safe _ _ _ (at_word TokenKind.start) (add_start-Safe file p h) (
                  when-Safe _ _ _ (at_word TokenKind.update) (add_update-Safe file p h) (
                    when-Safe _ _ _ (at_word TokenKind.draw) (add_draw-Safe file p h) (
                      when-Safe _ _ _ (at_word TokenKind.fn) (add_function-Safe file p h)
                        λ c s q. error-Safe file _ s q))))))))

  root_check-Safe : (root : Bool) (p : Program) → ProgramWithin p → Adds toks (root_check root p)
  unfolding root_check
  root_check-Safe root p h c s q = current-Safe file s q ⟫ λ t s₁ (_, same).
      branch (not root && is_root_word t.kind) _ _
        (λ _. error-Safe file _ s₁ (same_state file q same))
        (λ _. parse_declaration-Safe p h c s₁ (same_state file q same))

  declaration-Safe : (root : Bool) (p : Program) → ProgramWithin p → Adds toks (declaration root p)
  unfolding declaration at_resolution
  declaration-Safe root p h c s q = at_name-Safe file _ c s q ⟫ λ second s₁ (_, q₁).
      branch second _ _ (λ _. error-Safe file _ s₁ q₁) (λ _. root_check-Safe root p h c s₁ q₁)

  declaration_loop-Safe :
      (root : Bool) (fuel c : ℕ) (p : Program) (s : Parser)
      → length toks ≤ c + fuel
      → ProgramWithin p
      → At toks 0 0 c s
      → Ensures (Keeps toks ProgramWithin 0 0 c) (declaration_loop root fuel p s)
  unfolding declaration_loop
  declaration_loop-Safe root zero c p s enough h q = absurd (omega (arith, q.low, q.high))
  declaration_loop-Safe root (suc fuel) c p s enough h q =
      at-Safe file TokenKind.eof s q ⟫ λ ended s₁ (_, q₁).
      branch ended _ _ (λ _. returns (h, q₁))
        (λ _. declaration-Safe root p h c s₁ q₁ ⟫ λ p' s₂ (h', q₂).
          lower c (omega arith) (declaration_loop-Safe root fuel (suc c) p' s₂ (omega arith) h' q₂))

  empty_program-Within :
      (title : Text) (span : Span) (r : Resolution)
      → InLimits r
      → ProgramWithin (empty_program title span r)
  empty_program-Within title span r h = record {
    resolution = h;
    bodies = tt;
    constants = tt;
    globals = tt;
  }

  resolution-Safe :
      (sized : Bool)
      → Preserves toks InLimits 0 0 (if sized then parse_resolution else return default_resolution)
  resolution-Safe true c s p = lower c (omega arith) (parse_resolution-Safe file c s p)
  resolution-Safe false c s p = returns (default_resolution-InLimits, p)

  root_header-Safe : Preserves toks ProgramWithin 0 0 root_header
  unfolding root_header at_resolution
  root_header-Safe c s p = expect-Safe file TokenKind.game _ s refl p ⟫ λ _ s₁ (_, p₁).
      string_token-Safe file _ s₁ p₁ ⟫ λ (title, span) s₂ (_, p₂).
      at_name-Safe file _ _ s₂ p₂ ⟫ λ sized s₃ (_, p₃).
      resolution-Safe sized _ s₃ p₃ ⟫ λ r s₄ (h, p₄).
      take-Safe file TokenKind.semicolon s₄ refl p₄ ⟫ λ _ s₅ (p₅, _).
      returns (empty_program-Within title span r h, relax c p₅ (omega arith))

  header-Safe : (root : Bool) → Preserves toks ProgramWithin 0 0 (header root)
  unfolding header
  header-Safe true c s p = root_header-Safe c s p
  header-Safe false c s p = current-Safe file s p ⟫ λ t s' (_, same). returns (
    empty_program-Within [] t.span default_resolution default_resolution-InLimits,
    same_state file p same,
  )

  pub run-Safe : (root : Bool) → Preserves toks ProgramWithin 0 0 (run root)
  unfolding run
  run-Safe root c s p = header-Safe root c s p ⟫ λ program s₁ (h, p₁).
      with_fuel-Safe (λ fuel. declaration_loop root fuel program) s₁ p₁
        λ fuel enough. declaration_loop-Safe root fuel c program s₁ enough h p₁

  pub import_loop-Safe :
      Preserves toks (All (ImportFrom k)) 0 0 (with_fuel (λ fuel. header_loop fuel 0 []))
  import_loop-Safe c s p =
      with_fuel-Safe (λ fuel. header_loop fuel 0 []) s p
        λ fuel enough. header_loop-Safe file fuel 0 c [] s enough tt p

  nonempty : 0 < length toks
  nonempty = omega (arith, ap length file.split ∙ length-append file.front (file.last ∷ []))

  -- The state in front of the tokens.
  pub new_parser-At :
      (names : List Text) → At toks 0 0 0 (record (new_parser toks) { struct_names = names })
  unfolding new_parser
  new_parser-At names = record {
    same_tokens = refl;
    same_nesting = refl;
    same_scopes = refl;
    shallow = omega arith;
    low = omega arith;
    high = nonempty;
  }
