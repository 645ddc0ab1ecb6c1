-- ===== src/Lexer/Run.antt =====
-- `Lexer::run` and `lex` of src/lexer.rs.
use speck.Base.{
  ℕ, zero, suc, ◌+◌, Bool, ◌||◌, List, [], ◌∷◌, none, some, Text, ◌==◌, if◌then◌else◌, length, map,
}
use speck.Diagnostic.{SourceId, Diagnostic}
use speck.Lexer.Number.{is_digit}
use speck.Lexer.Scan.{
  Lexer, new_lexer, byte_at, push_token, simple, push, take, line_comment, lex_string, lex_number,
  is_letter, lex_identifier, unexpected,
}
use speck.Lexer.Token.{Token, TokenKind}

-- An arm `byte if self.take(expected) => self.push(kind, start)`, with the arms behind it.
unfoldable pub guarded : ℕ → TokenKind → ℕ → Lexer → Lexer → Lexer
unfolding take push
guarded expected kind start s otherwise =
    let (taken, s') = take expected s in if taken then push kind start s' else otherwise

abbrev pub is_blank : ℕ → Bool
is_blank b = b == b' ' || b == b'\t' || b == b'\r' || b == b'\n'

-- `b'/' if self.take(b'/') => self.line_comment()`, and the two arms behind it.
unfoldable pub lex_slash : ℕ → Lexer → Lexer
unfolding take
lex_slash start s =
    let (taken, s') = take b'/' s in
    if taken
    then line_comment s'
    else guarded b'=' TokenKind.slash_equal start s (simple TokenKind.slash start s)

-- The arms of the `match byte`, in the source's order; `s` is past `byte`, which is at `start`.
unfoldable pub lex_byte : ℕ → ℕ → Lexer → Lexer
lex_byte byte start s =
    if is_blank byte
    then s
    else if byte == b'('
    then simple TokenKind.left_paren start s
    else if byte == b')'
    then simple TokenKind.right_paren start s
    else if byte == b'{'
    then simple TokenKind.left_brace start s
    else if byte == b'}'
    then simple TokenKind.right_brace start s
    else if byte == b'['
    then simple TokenKind.left_bracket start s
    else if byte == b']'
    then simple TokenKind.right_bracket start s
    else if byte == b'.'
    then guarded b'.' TokenKind.dot_dot start s (simple TokenKind.dot start s)
    else if byte == b':'
    then guarded b':' TokenKind.colon_colon start s (simple TokenKind.colon start s)
    else if byte == b','
    then simple TokenKind.comma start s
    else if byte == b';'
    then simple TokenKind.semicolon start s
    else if byte == b'+'
    then guarded b'=' TokenKind.plus_equal start s (simple TokenKind.plus start s)
    else if byte == b'*'
    then guarded b'=' TokenKind.star_equal start s (simple TokenKind.star start s)
    else if byte == b'-'
    then guarded b'>' TokenKind.arrow start s
        (guarded b'=' TokenKind.minus_equal start s (simple TokenKind.minus start s))
    else if byte == b'/'
    then lex_slash start s
    else if byte == b'%'
    then guarded b'=' TokenKind.percent_equal start s (simple TokenKind.percent start s)
    else if byte == b'!'
    then guarded b'=' TokenKind.bang_equal start s (simple TokenKind.bang start s)
    else if byte == b'='
    then guarded b'=' TokenKind.equal_equal start s (simple TokenKind.equal start s)
    else if byte == b'<'
    then guarded b'=' TokenKind.less_equal start s (simple TokenKind.less start s)
    else if byte == b'>'
    then guarded b'=' TokenKind.greater_equal start s (simple TokenKind.greater start s)
    else if byte == b'&'
    then guarded b'&' TokenKind.and_and start s (unexpected start s)
    else if byte == b'|'
    then guarded b'|' TokenKind.or_or start s (unexpected start s)
    else if byte == b'"'
    then lex_string start s
    else if is_digit byte
    then lex_number start s
    else if is_letter byte
    then lex_identifier start s
    else unexpected start s

-- `while self.cursor < self.bytes.len()`: `advance` reads the byte at the cursor. The fuel bounds
-- the rounds.
unfoldable pub lex_loop : ℕ → Lexer → Lexer
lex_loop zero s = s
lex_loop (suc fuel) s = elim (byte_at s s.cursor) [
  | none ↦ s
  | some byte ↦ lex_loop fuel (lex_byte byte s.cursor (record s { cursor = s.cursor + 1 }))
]

-- `Ok(tokens)`, or `Err(diagnostics)`.
pub data Lexed : Type 0 where
  tokens : List Token → Lexed
  errors : List Diagnostic → Lexed

-- What follows the loop: the `Eof` token, and the choice of the result.
unfoldable pub finish : Lexer → Lexed
finish s =
    let s' = push_token TokenKind.eof s.cursor s.cursor s in
    elim s'.diagnostics [ [] ↦ tokens s'.tokens | d ∷ ds ↦ errors (d ∷ ds) ]

-- `lex`: one round for each byte is enough.
unfoldable pub lex : Text → Lexed
unfolding lex_loop lex_byte finish
lex source = finish (lex_loop (length source) (new_lexer source))

-- `lex_in`: the spans of tokens and diagnostics name the file.
abbrev pub in_file : SourceId → Token → Token
in_file id t = record {
  kind = t.kind;
  span = record { source = id; start = t.span.start; end = t.span.end };
}

abbrev pub report_in_file : SourceId → Diagnostic → Diagnostic
report_in_file id d = record {
  message = d.message;
  span = record { source = id; start = d.span.start; end = d.span.end };
}

unfoldable pub lex_in : Text → SourceId → Lexed
lex_in source id = elim (lex source) [
  | tokens ts ↦ tokens (map (in_file id) ts)
  | errors ds ↦ errors (map (report_in_file id) ds)
]
