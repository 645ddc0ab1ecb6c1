-- ===== src/Lexer/Reading.antt =====
-- What src/lexer.rs makes of a source: an independent description of it as blanks, comments, tokens and
-- reported places from left to right.
use speck.Base.{
  ℕ, ◌+◌, ◌≤◌, ◌<◌, ◌^◌, Bool, true, false, List, [], ◌∷◌, ◌++◌, Option, some, Text, text, ◌&&◌,
  ◌||◌, ◌==◌, ◌≡◌, ◌≢◌, length, get_elem?, slice, All,
}
use speck.Diagnostic.{new_span, Diagnostic}
use speck.Lexer.Number.{is_digit, decimal}
use speck.Lexer.Run.{is_blank}
use speck.Lexer.Scan.{is_byte, is_word_byte, is_letter, not_newline, in_string, is_continuation}
use speck.Lexer.Token.{TokenKind, Token}
use speck.Lexer.Spelling.{
  Ends, IsCommentByte, IsContinuation, IsDigit, IsQuotable, IsWord, Spells, Stops, WholeEnds,
}

abbrev pub symbol_bytes : Text
symbol_bytes = text "(){}[].:,;+*-/%!=<>"

abbrev pub contains : ℕ → Text → Bool
contains b [] = false
contains b (c ∷ cs) = b == c || contains b cs

-- No blank, comment, token or string begins with the byte and the next one.
unfoldable pub BeginsNothing : ℕ → Option ℕ → Type 0
BeginsNothing b next =
    (is_blank b ≡ false)
    × (is_letter b ≡ false)
    × (is_digit b ≡ false)
    × ((b == b'"') ≡ false)
    × (contains b symbol_bytes ≡ false)
    × ((b == b'&' && is_byte b'&' next) ≡ false)
    × ((b == b'|' && is_byte b'|' next) ≡ false)

-- The bytes from `i` up to `j` are reported with the message, and for what.
pub data Faulty (B : Text) (i j : ℕ) : Text → Type 0 where
  unterminated :
      get_elem? B i ≡ some b'"'
      → All IsQuotable (slice B (i + 1) j)
      → Ends in_string (get_elem? B j)
      → get_elem? B j ≢ some b'"'
      → Faulty B i j (text "unterminated string literal")
  too_large :
      All IsDigit (slice B i j)
      → WholeEnds (get_elem? B j) (get_elem? B (j + 1))
      → 2 ^ 63 ≤ decimal 0 (slice B i j)
      → Faulty B i j (text "numeric literal is out of range")
  unknown :
      (b : ℕ)
      → get_elem? B i ≡ some b
      → BeginsNothing b (get_elem? B (i + 1))
      → All IsContinuation (slice B (i + 1) j)
      → Ends is_continuation (get_elem? B j)
      → Faulty B i j (text "unexpected character `" ++ slice B i j ++ text "`")

abbrev pub token_at : TokenKind → ℕ → ℕ → Token
token_at kind i j = record { kind = kind; span = new_span i j }

-- The source `B` from its start up to a place, with the tokens and the diagnostics read so far.
pub data Reads (B : Text) : ℕ → List Token → List Diagnostic → Type 0 where
  nothing : Reads B 0 [] []
  blank :
      {i : ℕ} {ts : List Token} {ds : List Diagnostic} (b : ℕ)
      → Reads B i ts ds
      → get_elem? B i ≡ some b
      → is_blank b ≡ true
      → Reads B (i + 1) ts ds
  comment :
      {i : ℕ} {ts : List Token} {ds : List Diagnostic} (j : ℕ)
      → Reads B i ts ds
      → i + 2 ≤ j
      → j ≤ length B
      → slice B i (i + 2) ≡ text "//"
      → All IsCommentByte (slice B (i + 2) j)
      → Ends not_newline (get_elem? B j)
      → Reads B j ts ds
  word :
      {i : ℕ} {ts : List Token} {ds : List Diagnostic} (kind : TokenKind) (j : ℕ)
      → Reads B i ts ds
      → i < j
      → j ≤ length B
      → IsWord (slice B i j)
      → Spells kind (slice B i j)
      → Ends is_word_byte (get_elem? B j)
      → Reads B j (ts ++ token_at kind i j ∷ []) ds
  token :
      {i : ℕ} {ts : List Token} {ds : List Diagnostic} (kind : TokenKind) (j : ℕ)
      → Reads B i ts ds
      → i < j
      → j ≤ length B
      → Spells kind (slice B i j)
      → Stops kind (get_elem? B j) (get_elem? B (j + 1))
      → Reads B j (ts ++ token_at kind i j ∷ []) ds
  reported :
      {i : ℕ} {ts : List Token} {ds : List Diagnostic} (d : Diagnostic) (j : ℕ)
      → Reads B i ts ds
      → i < j
      → j ≤ length B
      → d.span ≡ new_span i j
      → Faulty B i j d.message
      → Reads B j ts (ds ++ d ∷ [])
