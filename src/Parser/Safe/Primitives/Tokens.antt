-- ===== src/Parser/Safe/Primitives/Tokens.antt =====
-- The operations of src/parser.rs on the token at the cursor are safe.
use speck.Base.{
  ℕ, suc, ◌+◌, ◌≤◌, ◌<◌, Bool, true, false, List, [], ◌∷◌, some, Text, ◌≡◌, refl, sym, ap, ◌∙◌,
  subst, inl, inr, arith, length, length-append, get_elem?, get_elem?_total, get_elem?-append_end,
  lt-length_of_get_elem?, All-get_elem?, Bool-cases, if_both, ◌==◌, ==_iff,
}
use mathlib.Core.Option.{some-injective}
use speck.Diagnostic.{SourceId}
use speck.Lexer.Token.{Token, TokenKind}
use speck.Parser.State.{
  Parser, M, discriminant, current, at, step_over, advance, take, error_here, expect,
}
use speck.Parser.Safe.{
  is_eof, Fits, IsFile, At, Ensures, returns, fails, Keeps, Anything, ◌⟫◌, relax,
}

is_eof_of_discriminant : (kind : TokenKind) → discriminant kind ≡ 0 → is_eof kind ≡ true
unfolding discriminant
is_eof_of_discriminant TokenKind.eof h = refl
is_eof_of_discriminant _ h = absurd (omega arith)

discriminant_of_eof : (kind : TokenKind) → is_eof kind ≡ true → discriminant kind ≡ 0
unfolding discriminant
discriminant_of_eof TokenKind.eof h = refl
discriminant_of_eof _ h = cc

pub eof_test : (kind : TokenKind) → (discriminant kind == discriminant TokenKind.eof) ≡ is_eof kind
unfolding discriminant
eof_test TokenKind.eof = refl
eof_test _ = refl

-- Only the end token matches a kind that is the end token's.
not_eof :
    (a b : TokenKind)
    → is_eof a ≡ false
    → (discriminant b == discriminant a) ≡ true
    → is_eof b ≡ false
not_eof a b ha e = elim (Bool-cases (is_eof b)) [
  | inr h ↦ h
  | inl h ↦
      let same : discriminant b ≡ discriminant a = (==_iff (discriminant b) (discriminant a)).0 e in
      cc (is_eof_of_discriminant a (sym same ∙ discriminant_of_eof b h))
]

module _ {k : SourceId} {toks : List Token} (file : IsFile k toks) where
  -- Behind a token that is not the end token there is another one.
  more_behind :
      (i : ℕ) (t : Token) → get_elem? toks i ≡ some t → is_eof t.kind ≡ false → i + 1 < length toks
  more_behind i t e h = elim (Bool-cases (i == length file.front)) [
    | inl at_last ↦
        let last_is : some file.last ≡ some t =
          sym (get_elem?-append_end file.front file.last)
          ∙ ap (λ xs. get_elem? xs (length file.front)) (sym file.split)
          ∙ ap (get_elem? toks) (sym ((==_iff i (length file.front)).0 at_last))
          ∙ e in
        absurd (cc (some-injective file.last t last_is, file.ends))
    | inr before ↦
        let n : length toks ≡ length file.front + 1 =
          ap length file.split ∙ length-append file.front (file.last ∷ []) in
        let inside = lt-length_of_get_elem? toks i e in ground (arith, n, inside)
  ]

  -- The token at the cursor.
  pub token_here :
      {n v c : ℕ} (s : Parser)
      → At toks n v c s
      → (t : Token) × (get_elem? s.tokens s.cursor ≡ some t) × Fits k t
  token_here s p =
      let (t, e) = get_elem?_total toks s.cursor p.high in
      (
        t,
        subst (λ xs. get_elem? xs s.cursor ≡ some t) (sym p.same_tokens) e,
        All-get_elem? (Fits k) toks s.cursor file.fits e,
      )

  pub current-Safe :
      {n v c : ℕ} (s : Parser) → At toks n v c s → Ensures (λ t s'. Fits k t × (s' ≡ s)) (current s)
  unfolding current
  current-Safe s p = let (t, e, fits) = token_here s p in rw (e, current) (returns (fits, refl))

  pub same_state : {n v c : ℕ} {s s' : Parser} → At toks n v c s → s' ≡ s → At toks n v c s'
  same_state {n} {v} {c} p e = subst (At toks n v c) (sym e) p

  pub at-Safe :
      {n v c : ℕ} (kind : TokenKind) (s : Parser)
      → At toks n v c s
      → Ensures (Keeps toks Anything n v c) (at kind s)
  unfolding at
  at-Safe kind s p = current-Safe s p ⟫ λ t s' (fits, e). returns (tt, same_state p e)

  pub error-Safe :
      {A : Type 0} {P : A → Parser → Type 0} {n v c : ℕ} (message : Text) (s : Parser)
      → At toks n v c s
      → Ensures P (error_here message s)
  unfolding error_here
  error-Safe message s p = current-Safe s p ⟫ λ t s' h. fails

  -- A token, and the state behind it, unless it is the end token.
  abbrev pub Steps : ℕ → ℕ → ℕ → Token → Parser → Type 0
  Steps n v c t s = Fits k t × At toks n v c s × (is_eof t.kind ≡ false → At toks n v (suc c) s)

  -- The step of `advance` on the token at the cursor.
  step_over-Safe :
      {n v c : ℕ} (t : Token) (s : Parser)
      → get_elem? s.tokens s.cursor ≡ some t
      → Fits k t
      → At toks n v c s
      → Ensures (Steps n v c) (step_over t s)
  unfolding step_over
  step_over-Safe {n} {v} {c} t s e fits p =
      if_both (Ensures (Steps n v c)) (discriminant t.kind == discriminant TokenKind.eof)
        (λ last. returns (fits, p, λ h. absurd (cc (eof_test t.kind))))
        (λ inner.
          let h =
            more_behind s.cursor t (subst (λ xs. get_elem? xs s.cursor ≡ some t) p.same_tokens e)
              (cc (eof_test t.kind)) in
          returns (fits, moved p (omega arith) h, λ _. moved p (omega arith) h))
    where
      moved :
          {c' : ℕ}
          → At toks n v c s
          → c' ≤ s.cursor + 1
          → s.cursor + 1 < length toks
          → At toks n v c' (record s { cursor = s.cursor + 1 })
      moved q low high = record {
        same_tokens = q.same_tokens;
        same_nesting = q.same_nesting;
        same_scopes = q.same_scopes;
        shallow = q.shallow;
        low = low;
        high = high;
      }

  pub advance-Safe : {n v c : ℕ} (s : Parser) → At toks n v c s → Ensures (Steps n v c) (advance s)
  unfolding advance current
  advance-Safe s p =
      let (t, e, fits) = token_here s p in rw (e, current) (step_over-Safe t s e fits p)

  -- The same, where the token at the cursor is known not to be the end token.
  pub advance_past :
      {n v c : ℕ} (t : Token) (s : Parser)
      → get_elem? s.tokens s.cursor ≡ some t
      → Fits k t
      → is_eof t.kind ≡ false
      → At toks n v c s
      → Ensures (Keeps toks (Fits k) n v (suc c)) (advance s)
  unfolding advance current step_over
  advance_past {n} {v} {c} t s e fits h p =
      let other : (discriminant t.kind == discriminant TokenKind.eof) ≡ false =
        eof_test t.kind ∙ h in
      let high =
        more_behind s.cursor t (subst (λ xs. get_elem? xs s.cursor ≡ some t) p.same_tokens e) h in
      rw (e, current, other)
        (returns (
          fits,
          record {
            same_tokens = p.same_tokens;
            same_nesting = p.same_nesting;
            same_scopes = p.same_scopes;
            shallow = p.shallow;
            low = omega (arith, p.low);
            high = high;
          },
        ))

  pub take-Safe :
      {n v c : ℕ} (kind : TokenKind) (s : Parser)
      → is_eof kind ≡ false
      → At toks n v c s
      → Ensures (λ b s'. At toks n v c s' × (b ≡ true → At toks n v (suc c) s')) (take kind s)
  unfolding take at current
  take-Safe {n} {v} {c} kind s inner p =
      let (t, e, fits) = token_here s p in
      rw (e, current)
        (if_both
          (λ (m : M Bool).
            Ensures (λ b s'. At toks n v c s' × (b ≡ true → At toks n v (suc c) s')) (m s))
          (discriminant t.kind == discriminant kind)
          (λ here. advance_past t s e fits (not_eof kind t.kind inner here) p ⟫ λ t' s' (_, q).
            returns (relax c q (omega arith), λ _. q))
          (λ _. returns (p, λ h. absurd (cc h))))

  pub expect-Safe :
      {n v c : ℕ} (kind : TokenKind) (message : Text) (s : Parser)
      → is_eof kind ≡ false
      → At toks n v c s
      → Ensures (Keeps toks (Fits k) n v (suc c)) (expect kind message s)
  unfolding expect at current
  expect-Safe {n} {v} {c} kind message s inner p =
      let (t, e, fits) = token_here s p in
      rw (e, current)
        (if_both (λ (m : M Token). Ensures (Keeps toks (Fits k) n v (suc c)) (m s))
          (discriminant t.kind == discriminant kind)
          (λ here. advance_past t s e fits (not_eof kind t.kind inner here) p)
          (λ _. error-Safe message s p))
