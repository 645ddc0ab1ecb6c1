-- ===== src/Lexer/Scan.antt =====
-- The `Lexer` struct of src/lexer.rs and its methods.
use speck.Base.{
  ℕ, suc, ◌+◌, Bool, ◌&&◌, ◌||◌, not, true, false, List, [], ◌∷◌, ◌++◌, Option, none, some, Text,
  text, find, leb, ◌==◌, if◌then◌else◌, get_elem?, drop, slice,
}
use speck.Base.Int.{ℤ}
use speck.Diagnostic.{new_span, Diagnostic, new_diagnostic}
use speck.Lexer.Number.{is_digit, parse_i64, parse_f32}
use speck.Lexer.Token.{TokenKind, Token, keywords}

pub record Lexer : Type 0 where
  pub bytes : Text
  pub cursor : ℕ
  pub tokens : List Token
  pub diagnostics : List Diagnostic

-- `Lexer::new`
abbrev pub new_lexer : Text → Lexer
new_lexer source = record { bytes = source; cursor = 0; tokens = []; diagnostics = [] }

abbrev pub byte_at : Lexer → ℕ → Option ℕ
byte_at s i = get_elem? s.bytes i

-- `self.tokens.push(Token { kind, span: Span::new(start, end) })`
abbrev pub push_token : TokenKind → ℕ → ℕ → Lexer → Lexer
push_token kind start end s = record s {
  tokens = s.tokens ++ record { kind = kind; span = new_span start end } ∷ [];
}

abbrev pub report : Text → ℕ → ℕ → Lexer → Lexer
report message start end s = record s {
  diagnostics = s.diagnostics ++ new_diagnostic message (new_span start end) ∷ [];
}

-- `Lexer::simple` and `Lexer::push`
unfoldable pub simple : TokenKind → ℕ → Lexer → Lexer
simple kind start s = push_token kind start (start + 1) s

unfoldable pub push : TokenKind → ℕ → Lexer → Lexer
push kind start s = push_token kind start s.cursor s

-- `Lexer::take`: the test for `Some(&expected)`, and the cursor past it.
abbrev pub is_byte : ℕ → Option ℕ → Bool
is_byte expected none = false
is_byte expected (some b) = b == expected

unfoldable pub take : ℕ → Lexer → Bool × Lexer
take expected s =
    if is_byte expected (byte_at s s.cursor)
    then (true, record s { cursor = s.cursor + 1 })
    else (false, s)

-- The number of bytes in front for which a test holds: the rounds of a `while` over the cursor.
unfoldable pub span_while : (ℕ → Bool) → Text → ℕ
span_while test [] = 0
span_while test (b ∷ bs) = if test b then suc (span_while test bs) else 0

-- `while self.bytes.get(self.cursor).is_some_and(test) { self.cursor += 1; }`
abbrev pub skip_while : (ℕ → Bool) → Lexer → Lexer
skip_while test s = record s { cursor = s.cursor + span_while test (drop s.cursor s.bytes) }

abbrev pub not_newline : ℕ → Bool
not_newline b = not (b == b'\n')

-- `Lexer::line_comment`
unfoldable pub line_comment : Lexer → Lexer
line_comment s = skip_while not_newline s

abbrev pub in_string : ℕ → Bool
in_string b = not (b == b'"') && not (b == b'\n')

-- `Lexer::string`. The scan stops at a quote, at a newline, which is reported and left unread, or
-- at the end of the source, which is reported.
unfoldable pub close_string : Option ℕ → ℕ → ℕ → Lexer → Lexer
close_string none start value_start s = report (text "unterminated string literal") start s.cursor s
close_string (some b) start value_start s =
    if b == b'"'
    then push (TokenKind.string (slice s.bytes value_start s.cursor)) start
        (record s { cursor = s.cursor + 1 })
    else report (text "unterminated string literal") start s.cursor s

unfoldable pub lex_string : ℕ → Lexer → Lexer
unfolding close_string push span_while
lex_string start s =
    let s' = skip_while in_string s in close_string (byte_at s' s'.cursor) start s.cursor s'

abbrev pub digit_at : Option ℕ → Bool
digit_at none = false
digit_at (some b) = is_digit b

-- `Lexer::number`
unfoldable pub integer_token : Option ℤ → ℕ → Lexer → Lexer
integer_token (some n) start s = push (TokenKind.integer n) start s
integer_token none start s = report (text "numeric literal is out of range") start s.cursor s

-- The digits behind the point at `point`, and the token.
unfoldable pub lex_fraction : ℕ → ℕ → Lexer → Lexer
unfolding push span_while is_digit
lex_fraction start point s =
    let s' = skip_while is_digit (record s { cursor = point + 1 }) in
    push
      (TokenKind.float
        (parse_f32 (slice s.bytes start point) (slice s.bytes (point + 1) s'.cursor)))
      start s'

unfoldable pub lex_number : ℕ → Lexer → Lexer
unfolding integer_token lex_fraction
lex_number start s =
    let s' = skip_while is_digit s in
    if is_byte b'.' (byte_at s' s'.cursor) && digit_at (byte_at s' (s'.cursor + 1))
    then lex_fraction start s'.cursor s'
    else integer_token (parse_i64 (slice s.bytes start s'.cursor)) start s'

unfoldable pub is_letter : ℕ → Bool
is_letter b = leb b'a' b && leb b b'z' || leb b'A' b && leb b b'Z' || b == b'_'

abbrev pub is_word_byte : ℕ → Bool
is_word_byte b = is_letter b || is_digit b

-- The kind of a word: a keyword, or an identifier.
unfoldable pub word_kind : Text → TokenKind
unfolding find
word_kind word = elim (find word keywords) [ some kind ↦ kind | none ↦ TokenKind.identifier word ]

-- `Lexer::identifier`
unfoldable pub lex_identifier : ℕ → Lexer → Lexer
unfolding word_kind push span_while is_letter is_digit
lex_identifier start s =
    let s' = skip_while is_word_byte s in push (word_kind (slice s.bytes start s'.cursor)) start s'

-- The bytes 0x80 to 0xBF continue a character.
unfoldable pub is_continuation : ℕ → Bool
is_continuation b = leb 0x80 b && leb b 0xbf

-- The last arm of `Lexer::run`: the cursor moves past the character at `start`.
unfoldable pub unexpected : ℕ → Lexer → Lexer
unfolding is_continuation span_while
unexpected start s =
    let s' = skip_while is_continuation s in
    report (text "unexpected character `" ++ slice s.bytes start s'.cursor ++ text "`") start
      s'.cursor s'
