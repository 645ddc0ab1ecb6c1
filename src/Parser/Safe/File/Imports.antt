-- ===== src/Parser/Safe/File/Imports.antt =====
-- Import headers of src/parser.rs are read safely.
use speck.Base.{
  ℕ, zero, suc, ◌+◌, ◌≤◌, ◌==◌, ◌&&◌, false, List, some, ◌≡◌, refl, sym, ◌∙◌, subst, arith, length,
  get_elem?, All, All-concat, if◌then◌else◌,
}
use speck.Diagnostic.{SourceId}
use speck.Lexer.Token.{Token, TokenKind}
use speck.Parser.File.{parse_import, header_loop, Import}
use speck.Parser.Safe.Primitives.{
  token_here, current-Safe, take-Safe, expect-Safe, identifier-Safe, string_token-Safe, merged-Safe,
  eof_test, advance_past, same_state,
}
use speck.Parser.Safe.Rules.{Consumes}
use speck.Parser.Safe.{is_eof, Fits, IsFile, At, Ensures, returns, Keeps, ◌⟫◌, relax, lower, branch}
use speck.Parser.State.{Parser, M, ◌>>=◌, return, at, current, discriminant}

-- An import declared in the file.
abbrev pub ImportFrom : SourceId → Import → Type 0
ImportFrom k i = i.span.source ≡ k

module _ {k : SourceId} {toks : List Token} (file : IsFile k toks) where
  pub parse_import-Safe : Consumes toks (ImportFrom k) 0 0 parse_import
  unfolding parse_import
  parse_import-Safe c s p = expect-Safe file TokenKind.import_word _ s refl p ⟫ λ first s₁ (f, p₁).
      string_token-Safe file _ s₁ p₁ ⟫ λ (path, _) s₂ (_, p₂).
      expect-Safe file TokenKind.as_word _ s₂ refl p₂ ⟫ λ _ s₃ (_, p₃).
      identifier-Safe file _ s₃ p₃ ⟫ λ (alias, close) s₄ (from, p₄).
      take-Safe file TokenKind.semicolon s₄ refl p₄ ⟫ λ _ s₅ (p₅, _).
      merged-Safe file first.span close s₅ f.from from p₅ ⟫ λ span s₆ (h, p₆).
      returns (h, relax (suc c) p₆ (omega arith))

  -- A test for the end token, and a parser that runs if it fails, with a token there to pass.
  unless_ended-Safe :
      {A : Type 0} {P : A → Parser → Type 0} {c : ℕ} (x : A) (m : M A) (s : Parser)
      → At toks 0 0 c s
      → P x s
      → ((t : Token)
          → get_elem? s.tokens s.cursor ≡ some t
          → Fits k t
          → is_eof t.kind ≡ false
          → Ensures P (m s))
      → Ensures P ((at TokenKind.eof >>= λ ended. if ended then return x else m) s)
  unfolding at current
  unless_ended-Safe {P = P} x m s p hx hm =
      let (t, e, fits) = token_here file s p in
      rw (e, current)
        (branch {P = P} (discriminant t.kind == discriminant TokenKind.eof) (return x) m
          (λ _. returns hx) (λ h. hm t e fits (sym (eof_test t.kind) ∙ h)))

  -- The test leaves the state as it is.
  at-Same :
      {c : ℕ} (kind : TokenKind) (s : Parser)
      → At toks 0 0 c s
      → Ensures (λ here s'. s' ≡ s) (at kind s)
  unfolding at
  at-Same kind s p = current-Safe file s p ⟫ λ t s' (_, same). returns same

  pub header_loop-Safe :
      (fuel depth c : ℕ) (imports : List Import) (s : Parser)
      → length toks ≤ c + fuel
      → All (ImportFrom k) imports
      → At toks 0 0 c s
      → Ensures (Keeps toks (All (ImportFrom k)) 0 0 c) (header_loop fuel depth imports s)
  unfolding header_loop
  header_loop-Safe zero depth c imports s enough h p = absurd (omega (arith, p.low, p.high))
  header_loop-Safe (suc fuel) depth c imports s enough h p =
      unless_ended-Safe imports _ s p (h, p)
        λ t e fits inner. at-Same TokenKind.import_word s p ⟫ λ here s₁ same.
          branch (depth == 0 && here) _ _
            (λ _. parse_import-Safe c s₁ (same_state file p same) ⟫ λ i s₂ (from, p₂).
              lower c (omega arith) (
                header_loop-Safe fuel depth (suc c) _ s₂ (omega arith)
                  (All-concat (ImportFrom k) imports h from) p₂))
            (λ _.
              advance_past file t s₁
                (subst (λ s'. get_elem? s'.tokens s'.cursor ≡ some t) (sym same) e) fits inner
                (same_state file p same)
              ⟫ λ t' s₂ (_, p₂).
                  lower c (omega arith)
                    (header_loop-Safe fuel _ (suc c) imports s₂ (omega arith) h p₂))
