-- ===== src/Parser/Safe.antt =====
-- What every function of the parser keeps to: it reads the given tokens, whose last one is the end
-- token; it leaves the nesting and the number of scopes as they were, and never moves back; it does
-- not panic, and no loop runs out of rounds.
pub mod Primitives
pub mod Rules
pub mod Types
pub mod Expression
pub mod Statement
pub mod Block
pub mod Declaration
pub mod File
use speck.Base.{
  ℕ, zero, suc, ◌+◌, ◌-◌, ◌≤◌, ◌<◌, ◌^◌, Bool, true, false, List, [], ◌∷◌, ◌++◌, Option, none, some,
  Text, ◌≡◌, ◌≢◌, refl, sym, ap, ◌∙◌, subst, ◌⊎◌, inl, inr, arith, length, length-append, get_elem?,
  get_elem?_total, get_elem?-append_end, lt-length_of_get_elem?, All, All-get_elem?, Bool-cases,
  Option-cases, if_both, ◌==◌, ==_iff, if◌then◌else◌,
}
use mathlib.Core.Option.{some-injective}
use speck.Base.Int.{ℤ, pos, negsuc}
use speck.Diagnostic.{SourceId, Span, Diagnostic}
use speck.Lexer.Token.{Token, TokenKind}
use speck.Merge.{merge, merge-same}
use speck.Outcome.{Outcome, ok, fail, panic, exhausted, and_then}
use speck.Parser.Limits.{max_nesting, exceeded}
use speck.Parser.State.{
  Parser, M, ◌>>=◌, ◌>>◌, return, error, let_else, discriminant, current, at, step_over, advance,
  take, error_here, expect, identifier_of, string_of, integer_of, identifier, string_token,
  integer_token, optional_semicolon, leave, nested, merged, unwrap_or, push_scope, pop_scope,
  bind_value, with_fuel, insert_binding,
}

abbrev pub is_eof : TokenKind → Bool
is_eof TokenKind.eof = true
is_eof _ = false

abbrev pub IsNonNegative : ℤ → Type 0
IsNonNegative (pos n) = Unit
IsNonNegative (negsuc n) = ⊥

-- What the lexer gives of a token: its file, and no negative literal.
abbrev pub IsPlain : TokenKind → Type 0
IsPlain (TokenKind.integer n) = IsNonNegative n
IsPlain _ = Unit

pub record Fits (k : SourceId) (t : Token) : Type 0 where
  pub from : t.span.source ≡ k
  pub plain : IsPlain t.kind

-- The tokens of one file, with the end token last.
pub record IsFile (k : SourceId) (toks : List Token) : Type 0 where
  pub front : List Token
  pub last : Token
  pub split : toks ≡ front ++ last ∷ []
  pub ends : last.kind ≡ TokenKind.eof
  pub fits : All (Fits k) toks

-- A state inside the tokens, at or behind the token `c`, with nesting `n` and `v` scopes.
pub record At (toks : List Token) (n v c : ℕ) (s : Parser) : Type 0 where
  pub same_tokens : s.tokens ≡ toks
  pub same_nesting : s.nesting ≡ n
  pub same_scopes : length s.value_scopes ≡ v
  pub shallow : n ≤ max_nesting
  pub low : c ≤ s.cursor
  pub high : s.cursor < length toks

-- The outcome is a reported diagnostic, or a value and a state with the property.
pub data Ensures {A : Type 0} (P : A → Parser → Type 0) : Outcome (A × Parser) → Type 0 where
  returns : {a : A} {s : Parser} → P a s → Ensures P (ok (a, s))
  fails : {d : Diagnostic} → Ensures P (fail d)

-- The property `P` of the value, and a state at or behind `c`.
abbrev pub Keeps : {A : Type 0} → List Token → (A → Type 0) → ℕ → ℕ → ℕ → A → Parser → Type 0
Keeps toks P n v c a s = P a × At toks n v c s

abbrev pub Anything : {A : Type 0} → A → Type 0
Anything a = Unit

module _ {A : Type 0} {P : A → Parser → Type 0} where
  infixl 1 ◌⟫◌
  pub ◌⟫◌ :
      {B : Type 0} {Q : B → Parser → Type 0} {r : Outcome (A × Parser)} {f : A → M B}
      → Ensures P r
      → ((a : A) (s' : Parser) → P a s' → Ensures Q (f a s'))
      → Ensures Q (and_then r (λ (a, s'). f a s'))
  returns h ⟫ k = k _ _ h
  fails ⟫ k = fails

  pub weaken :
      {Q : A → Parser → Type 0} {r : Outcome (A × Parser)}
      → ((a : A) (s : Parser) → P a s → Q a s)
      → Ensures P r
      → Ensures Q r
  weaken g (returns h) = returns (g _ _ h)
  weaken g fails = fails

-- The bound on the cursor may be lowered.
pub relax :
    {toks : List Token} {n v c : ℕ} {s : Parser} (c' : ℕ)
    → At toks n v c s
    → c' ≤ c
    → At toks n v c' s
relax c' p le = record {
  same_tokens = p.same_tokens;
  same_nesting = p.same_nesting;
  same_scopes = p.same_scopes;
  shallow = p.shallow;
  low = omega arith;
  high = p.high;
}

-- Both branches of a test are safe.
pub branch :
    {A : Type 0} {P : A → Parser → Type 0} {s : Parser} (b : Bool) (x y : M A)
    → (b ≡ true → Ensures P (x s))
    → (b ≡ false → Ensures P (y s))
    → Ensures P ((if b then x else y) s)
branch true x y f g = f refl
branch false x y f g = g refl

-- A result behind `c` is one behind an earlier place.
pub lower :
    {A : Type 0} {P : A → Type 0} {toks : List Token} {n v c : ℕ} {r : Outcome (A × Parser)}
    (c' : ℕ)
    → c' ≤ c
    → Ensures (Keeps toks P n v c) r
    → Ensures (Keeps toks P n v c') r
lower c' le h = weaken (λ a s (x, p). (x, relax c' p le)) h
