-- ===== src/Parser/Safe/Primitives/Words.antt =====
-- Names, texts, numbers, semicolons and merged spans of src/parser.rs are read safely.
use speck.Base.{ℕ, suc, false, List, Option, none, some, Text, ◌≡◌, refl, sym, ◌∙◌, subst, if_both}
use mathlib.Core.Option.{some-injective}
use speck.Base.Int.{ℤ}
use speck.Diagnostic.{SourceId, Span, Diagnostic}
use speck.Lexer.Token.{Token, TokenKind}
use speck.Merge.{merge-same}
use speck.Parser.State.{
  Parser, M, let_else, identifier_of, string_of, integer_of, identifier, string_token,
  integer_token, optional_semicolon, merged, unwrap_or,
}
use speck.Parser.Safe.{
  is_eof, IsNonNegative, IsPlain, IsFile, At, Ensures, returns, fails, Keeps, ◌⟫◌,
}
use speck.Parser.Safe.Primitives.Tokens.{same_state, at-Safe, advance-Safe}

module _ {k : SourceId} {toks : List Token} (file : IsFile k toks) where
  pub let_else-Safe :
      {A : Type 0} (o : Option A) (d : Diagnostic) (s : Parser)
      → Ensures (λ a s'. (o ≡ some a) × (s' ≡ s)) (let_else o d s)
  unfolding let_else
  let_else-Safe none d s = fails
  let_else-Safe (some a) d s = returns (refl, refl)

  identifier_not_eof :
      (kind : TokenKind) {name : Text} → identifier_of kind ≡ some name → is_eof kind ≡ false
  unfolding identifier_of
  identifier_not_eof TokenKind.eof h = cc
  identifier_not_eof _ h = refl

  string_not_eof :
      (kind : TokenKind) {value : Text} → string_of kind ≡ some value → is_eof kind ≡ false
  unfolding string_of
  string_not_eof TokenKind.eof h = cc
  string_not_eof _ h = refl

  integer-IsPlain :
      (kind : TokenKind) {n : ℤ}
      → integer_of kind ≡ some n
      → IsPlain kind
      → (is_eof kind ≡ false) × IsNonNegative n
  unfolding integer_of
  integer-IsPlain (TokenKind.integer m) {n} h p =
      (refl, subst IsNonNegative (some-injective m n h) p)
  integer-IsPlain _ h p = absurd (cc h)

  -- A name or text with its span.
  abbrev pub Spanned : {A : Type 0} → A × Span → Type 0
  Spanned (a, span) = span.source ≡ k

  abbrev pub SpannedNumber : ℤ × Span → Type 0
  SpannedNumber (n, span) = IsNonNegative n × (span.source ≡ k)

  pub identifier-Safe :
      {n v c : ℕ} (message : Text) (s : Parser)
      → At toks n v c s
      → Ensures (Keeps toks Spanned n v (suc c)) (identifier message s)
  unfolding identifier
  identifier-Safe message s p = advance-Safe file s p ⟫ λ t s' (fits, _, past).
      let_else-Safe (identifier_of t.kind) _ s' ⟫ λ name s'' (e, same).
      returns (fits.from, same_state file (past (identifier_not_eof t.kind e)) same)

  pub string_token-Safe :
      {n v c : ℕ} (message : Text) (s : Parser)
      → At toks n v c s
      → Ensures (Keeps toks Spanned n v (suc c)) (string_token message s)
  unfolding string_token
  string_token-Safe message s p = advance-Safe file s p ⟫ λ t s' (fits, _, past).
      let_else-Safe (string_of t.kind) _ s' ⟫ λ value s'' (e, same).
      returns (fits.from, same_state file (past (string_not_eof t.kind e)) same)

  pub integer_token-Safe :
      {n v c : ℕ} (message : Text) (s : Parser)
      → At toks n v c s
      → Ensures (Keeps toks SpannedNumber n v (suc c)) (integer_token message s)
  unfolding integer_token
  integer_token-Safe message s p = advance-Safe file s p ⟫ λ t s' (fits, _, past).
      let_else-Safe (integer_of t.kind) _ s' ⟫ λ n s'' (e, same).
      let (inner, sign) = integer-IsPlain t.kind e fits.plain in
      returns ((sign, fits.from), same_state file (past inner) same)

  -- A span that may be missing.
  abbrev pub MaySpan : Option Span → Type 0
  MaySpan none = Unit
  MaySpan (some span) = span.source ≡ k

  pub unwrap_or-from :
      (o : Option Span) (span : Span) → MaySpan o → span.source ≡ k → (unwrap_or o span).source ≡ k
  unwrap_or-from none span h e = e
  unwrap_or-from (some other) span h e = h

  pub optional_semicolon-Safe :
      {n v c : ℕ} (s : Parser)
      → At toks n v c s
      → Ensures (Keeps toks MaySpan n v c) (optional_semicolon s)
  unfolding optional_semicolon
  optional_semicolon-Safe {n} {v} {c} s p = at-Safe file TokenKind.semicolon s p ⟫ λ here s' (_, q).
      if_both (λ (m : M (Option Span)). Ensures (Keeps toks MaySpan n v c) (m s')) here
        (λ _. advance-Safe file s' q ⟫ λ t s'' (fits, r, _). returns (fits.from, r))
        (λ _. returns (tt, q))

  pub merged-Safe :
      {n v c : ℕ} (a b : Span) (s : Parser)
      → a.source ≡ k
      → b.source ≡ k
      → At toks n v c s
      → Ensures (Keeps toks (λ span. span.source ≡ k) n v c) (merged a b s)
  unfolding merged
  merged-Safe a b s ha hb p = rw (merge-same a b (ha ∙ sym hb)) (returns (ha, p))
