-- ===== src/Lexer/Total.antt =====
-- Each round of `Lexer::run` reads one blank, comment, token or unexpected character; the loop
-- comes to the end of the source.
use speck.Base.{
  ℕ, zero, suc, ◌+◌, ◌≤◌, true, false, Option, List, [], ◌∷◌, ◌++◌, some, Text, text, ◌≡◌, ◌≢◌,
  subst, refl, sym, ap, ◌∙◌, arith, length, get_elem?, ◌==◌, ==_iff, if_both, Option-cases, inl,
  inr, le-length_of_get_elem?,
}
use speck.Diagnostic.{Diagnostic}
use speck.Lexer.Literals.{string-Advances, number-Advances, identifier-Advances}
use speck.Lexer.Number.{is_digit}
use speck.Lexer.Run.{is_blank, lex_byte, lex_loop, finish, Lexed, tokens, errors, lex}
use speck.Lexer.Scan.{Lexer, new_lexer, is_letter, is_byte}
use speck.Lexer.Sound.{
  state, Advances, simple-Advances, guarded-Advances, blank-Advances, unexpected-Advances,
  slash-Advances,
}
use speck.Lexer.Reading.{token_at, BeginsNothing, symbol_bytes, contains, Reads, nothing}
use speck.Lexer.Spelling.{spelling}
use speck.Lexer.Token.{Token, TokenKind}

and-BeginsNothing : (next : Option ℕ) → is_byte b'&' next ≡ false → BeginsNothing b'&' next
unfolding BeginsNothing is_letter is_digit text
and-BeginsNothing next m = (refl, refl, refl, refl, refl, m, refl)

or-BeginsNothing : (next : Option ℕ) → is_byte b'|' next ≡ false → BeginsNothing b'|' next
unfolding BeginsNothing is_letter is_digit text
or-BeginsNothing next m = (refl, refl, refl, refl, refl, refl, m)

byte-BeginsNothing :
    (b : ℕ) (next : Option ℕ)
    → is_blank b ≡ false
    → is_letter b ≡ false
    → is_digit b ≡ false
    → (b == b'"') ≡ false
    → contains b symbol_bytes ≡ false
    → (b == b'&') ≡ false
    → (b == b'|') ≡ false
    → BeginsNothing b next
unfolding BeginsNothing
byte-BeginsNothing b next blank letter digit quote symbols amp bar =
    (blank, letter, digit, quote, symbols, rw amp refl, rw bar refl)

module _ {B : Text} {i : ℕ} {ts : List Token} {ds : List Diagnostic} (byte : ℕ)
    (before : Reads B i ts ds) (here : get_elem? B i ≡ some byte) where
  hit : {c : ℕ} → (byte == c) ≡ true → get_elem? B i ≡ some c
  hit {c} h = here ∙ ap some ((==_iff byte c).0 h)

  pub lex_byte-Advances : Advances B i (lex_byte byte i (state B (i + 1) ts ds))
  unfolding lex_byte spelling text
  lex_byte-Advances =
      let P : Lexer → Type 0 = Advances B i in
      if_both P (is_blank byte) (blank-Advances byte before here) λ blank.
        if_both P (byte == b'(')
          (λ h. simple-Advances b'(' before (hit h) TokenKind.left_paren refl tt)
          λ lparen.
            if_both P (byte == b')')
              (λ h. simple-Advances b')' before (hit h) TokenKind.right_paren refl tt)
              λ rparen.
                if_both P (byte == b'{')
                  (λ h. simple-Advances b'{' before (hit h) TokenKind.left_brace refl tt)
                  λ lbrace.
                    if_both P (byte == b'}')
                      (λ h. simple-Advances b'}' before (hit h) TokenKind.right_brace refl tt)
                      λ rbrace.
                        if_both P (byte == b'[')
                          (λ h. simple-Advances b'[' before (hit h) TokenKind.left_bracket refl tt)
                          λ lbracket.
                            if_both P (byte == b']')
                              (λ h.
                                simple-Advances b']' before (hit h) TokenKind.right_bracket refl tt)
                              λ rbracket.
                                if_both P (byte == b'.')
                                  (λ h.
                                    guarded-Advances b'.' before (hit h) b'.' TokenKind.dot_dot refl
                                      tt
                                      λ m. simple-Advances b'.' before (hit h) TokenKind.dot refl m)
                                  λ dot.
                                    if_both P (byte == b':')
                                      (λ h.
                                        guarded-Advances b':' before (hit h) b':'
                                          TokenKind.colon_colon refl tt
                                          λ m.
                                            simple-Advances b':' before (hit h) TokenKind.colon refl
                                              m)
                                      λ colon.
                                        if_both P (byte == b',')
                                          (λ h.
                                            simple-Advances b',' before (hit h) TokenKind.comma refl
                                              tt)
                                          λ comma.
                                            if_both P (byte == b';')
                                              (λ h.
                                                simple-Advances b';' before (hit h)
                                                  TokenKind.semicolon refl tt)
                                              λ semicolon.
                                                if_both P (byte == b'+')
                                                  (λ h.
                                                    guarded-Advances b'+' before (hit h) b'='
                                                      TokenKind.plus_equal refl tt
                                                      λ m.
                                                        simple-Advances b'+' before (hit h)
                                                          TokenKind.plus refl m)
                                                  λ plus.
                                                    if_both P (byte == b'*')
                                                      (λ h.
                                                        guarded-Advances b'*' before (hit h) b'='
                                                          TokenKind.star_equal refl tt
                                                          λ m.
                                                            simple-Advances b'*' before (hit h)
                                                            TokenKind.star refl m)
                                                      λ star.
                                                        if_both P (byte == b'-')
                                                          (λ h.
                                                            guarded-Advances b'-' before (hit h)
                                                            b'>' TokenKind.arrow refl tt
                                                            λ m.
                                                            guarded-Advances b'-' before (hit h)
                                                            b'=' TokenKind.minus_equal refl tt
                                                            λ n.
                                                            simple-Advances b'-' before (hit h)
                                                            TokenKind.minus refl (m, n))
                                                          λ minus.
                                                            if_both P (byte == b'/')
                                                            (λ h. slash-Advances before (hit h))
                                                            λ slash.
                                                            if_both P (byte == b'%')
                                                            (λ h.
                                                            guarded-Advances b'%' before (hit h)
                                                            b'=' TokenKind.percent_equal refl tt
                                                            λ m.
                                                            simple-Advances b'%' before (hit h)
                                                            TokenKind.percent refl m)
                                                            λ percent.
                                                            if_both P (byte == b'!')
                                                            (λ h.
                                                            guarded-Advances b'!' before (hit h)
                                                            b'=' TokenKind.bang_equal refl tt
                                                            λ m.
                                                            simple-Advances b'!' before (hit h)
                                                            TokenKind.bang refl m)
                                                            λ bang.
                                                            if_both P (byte == b'=')
                                                            (λ h.
                                                            guarded-Advances b'=' before (hit h)
                                                            b'=' TokenKind.equal_equal refl tt
                                                            λ m.
                                                            simple-Advances b'=' before (hit h)
                                                            TokenKind.equal refl m)
                                                            λ equal.
                                                            if_both P (byte == b'<')
                                                            (λ h.
                                                            guarded-Advances b'<' before (hit h)
                                                            b'=' TokenKind.less_equal refl tt
                                                            λ m.
                                                            simple-Advances b'<' before (hit h)
                                                            TokenKind.less refl m)
                                                            λ less.
                                                            if_both P (byte == b'>')
                                                            (λ h.
                                                            guarded-Advances b'>' before (hit h)
                                                            b'=' TokenKind.greater_equal refl tt
                                                            λ m.
                                                            simple-Advances b'>' before (hit h)
                                                            TokenKind.greater refl m)
                                                            λ greater.
                                                            if_both P (byte == b'&')
                                                            (λ h.
                                                            guarded-Advances b'&' before (hit h)
                                                            b'&' TokenKind.and_and refl tt
                                                            λ m.
                                                            unexpected-Advances b'&' before (hit h)
                                                            (and-BeginsNothing _ m))
                                                            λ amp.
                                                            if_both P (byte == b'|')
                                                            (λ h.
                                                            guarded-Advances b'|' before (hit h)
                                                            b'|' TokenKind.or_or refl tt
                                                            λ m.
                                                            unexpected-Advances b'|' before (hit h)
                                                            (or-BeginsNothing _ m))
                                                            λ bar.
                                                            if_both P (byte == b'"')
                                                            (λ h.
                                                            string-Advances byte before here
                                                            ((==_iff byte b'"').0 h))
                                                            λ quote.
                                                            if_both P (is_digit byte)
                                                            (number-Advances byte before here)
                                                            λ digit.
                                                            if_both P (is_letter byte)
                                                            (identifier-Advances byte before here)
                                                            λ letter.
                                                            unexpected-Advances byte before here (
                                                            byte-BeginsNothing byte _ blank letter
                                                            digit quote
                                                            (rw
                                                            (
                                                            lparen, rparen, lbrace, rbrace,
                                                            lbracket, rbracket, dot, colon, comma,
                                                            semicolon, plus, minus, star, slash,
                                                            percent, bang, equal, less, greater,
                                                            )
                                                            refl)
                                                            amp bar)

-- What the loop leaves: the source read to its end.
record IsRead (B : Text) (s : Lexer) : Type 0 where
  at_end : s.cursor ≡ length B
  reads : Reads B (length B) s.tokens s.diagnostics

lex_loop-IsRead :
    (fuel : ℕ) (s : Lexer)
    → Reads s.bytes s.cursor s.tokens s.diagnostics
    → s.cursor ≤ length s.bytes
    → length s.bytes ≤ s.cursor + fuel
    → IsRead s.bytes (lex_loop fuel s)
unfolding lex_loop
lex_loop-IsRead zero s r le enough =
    let e : s.cursor ≡ length s.bytes = omega arith in
    record { at_end = e; reads = subst (λ n. Reads s.bytes n s.tokens s.diagnostics) e r }
lex_loop-IsRead (suc fuel) s r le enough = elim (Option-cases (get_elem? s.bytes s.cursor)) [
  | inl e ↦
      let e' : s.cursor ≡ length s.bytes =
        omega (arith, le-length_of_get_elem? s.bytes s.cursor e) in
      rw (e, lex_loop)
        (record { at_end = e'; reads = subst (λ n. Reads s.bytes n s.tokens s.diagnostics) e' r })
  | inr (byte, e) ↦
      let s' = lex_byte byte s.cursor (record s { cursor = s.cursor + 1 }) in
      let a : Advances s.bytes s.cursor s' = lex_byte-Advances byte r e in
      let n : length s'.bytes ≡ length s.bytes = ap length a.same_bytes in
      rw (e, lex_loop)
        (subst (λ B. IsRead B (lex_loop fuel s')) a.same_bytes
          (lex_loop-IsRead fuel s'
            (subst (λ B. Reads B s'.cursor s'.tokens s'.diagnostics) (sym a.same_bytes) a.reads)
            (omega (arith, n, a.within)) (omega (arith, n, a.past))))
]

-- What `lex` returns for a source of `n` bytes: the tokens that the source reads as with no report,
-- and the end token; or the reports, of which there is one at least.
abbrev pub IsLexed : Text → Lexed → Type 0
IsLexed source (tokens ts) =
    (front : List Token) × (ts
      ≡ front ++ token_at TokenKind.eof (length source) (length source) ∷ [])
    × Reads source (length source) front []
IsLexed source (errors ds) = (ts : List Token) × Reads source (length source) ts ds × (ds ≢ [])

finish-IsLexed : (B : Text) (s : Lexer) → IsRead B s → IsLexed B (finish s)
unfolding finish
finish-IsLexed B s r = go s.diagnostics refl
  where
    go : (ds : List Diagnostic) → s.diagnostics ≡ ds → IsLexed B (finish s)
    go [] e =
        rw (e, r.at_end) (s.tokens, refl, subst (λ ds. Reads B (length B) s.tokens ds) e r.reads)
    go (d ∷ ds) e = rw e (s.tokens, subst (λ ds. Reads B (length B) s.tokens ds) e r.reads, λ z. cc)

-- The lexer reads every source from its first byte to its last as blanks, comments, tokens and
-- reported places. Words are read to their last letter, digit or underscore, numbers to the last
-- digit and with their fraction, symbols as the longest one; a token is spelled as its kind says. A
-- place is reported only where a string has no end on its line, a number is 2^63 or more, or nothing
-- begins with a character, which is then passed over whole; the message says which. Without a report
-- the tokens are returned, with the end token behind them, and else the reports.
pub lex-IsLexed : (source : Text) → IsLexed source (lex source)
unfolding lex
lex-IsLexed source =
    finish-IsLexed source (lex_loop (length source) (new_lexer source))
      (lex_loop-IsRead (length source) (new_lexer source) nothing (omega arith) (omega arith))
