-- ===== src/Lexer/Spelling.antt =====
-- What src/lexer.rs reads as what: an independent description of tokens by their text and of where
-- they stop.
use speck.Base.{
  ℕ, ◌<◌, ◌^◌, Bool, true, false, [], ◌∷◌, ◌++◌, Option, none, some, Text, text, find, ◌&&◌, ◌≡◌,
  ◌≢◌, All,
}
use speck.Base.Int.{pos}
use speck.Lexer.Number.{is_digit, decimal, parse_f32}
use speck.Lexer.Scan.{
  is_byte, is_word_byte, is_letter, not_newline, in_string, digit_at, is_continuation,
}
use speck.Lexer.Token.{TokenKind, keywords}

-- The text of the tokens that have only one.
unfoldable pub spelling : TokenKind → Text
spelling TokenKind.game = text "game"
spelling TokenKind.import_word = text "import"
spelling TokenKind.as_word = text "as"
spelling TokenKind.let_word = text "let"
spelling TokenKind.const = text "const"
spelling TokenKind.start = text "start"
spelling TokenKind.update = text "update"
spelling TokenKind.draw = text "draw"
spelling TokenKind.fn = text "fn"
spelling TokenKind.struct = text "struct"
spelling TokenKind.return = text "return"
spelling TokenKind.if_word = text "if"
spelling TokenKind.else_word = text "else"
spelling TokenKind.while = text "while"
spelling TokenKind.for = text "for"
spelling TokenKind.in_word = text "in"
spelling TokenKind.true_word = text "true"
spelling TokenKind.false_word = text "false"
spelling TokenKind.i32 = text "i32"
spelling TokenKind.f32 = text "f32"
spelling TokenKind.bool = text "bool"
spelling TokenKind.void = text "void"
spelling TokenKind.left_paren = text "("
spelling TokenKind.right_paren = text ")"
spelling TokenKind.left_brace = text "{"
spelling TokenKind.right_brace = text "}"
spelling TokenKind.left_bracket = text "["
spelling TokenKind.right_bracket = text "]"
spelling TokenKind.dot = text "."
spelling TokenKind.dot_dot = text ".."
spelling TokenKind.colon = text ":"
spelling TokenKind.colon_colon = text "::"
spelling TokenKind.comma = text ","
spelling TokenKind.semicolon = text ";"
spelling TokenKind.plus = text "+"
spelling TokenKind.plus_equal = text "+="
spelling TokenKind.minus = text "-"
spelling TokenKind.minus_equal = text "-="
spelling TokenKind.star = text "*"
spelling TokenKind.star_equal = text "*="
spelling TokenKind.slash = text "/"
spelling TokenKind.slash_equal = text "/="
spelling TokenKind.percent = text "%"
spelling TokenKind.percent_equal = text "%="
spelling TokenKind.bang = text "!"
spelling TokenKind.equal = text "="
spelling TokenKind.equal_equal = text "=="
spelling TokenKind.bang_equal = text "!="
spelling TokenKind.less = text "<"
spelling TokenKind.less_equal = text "<="
spelling TokenKind.greater = text ">"
spelling TokenKind.greater_equal = text ">="
spelling TokenKind.and_and = text "&&"
spelling TokenKind.or_or = text "||"
spelling TokenKind.arrow = text "->"
spelling _ = []

abbrev pub IsDigit : ℕ → Type 0
IsDigit b = is_digit b ≡ true

abbrev pub IsWordByte : ℕ → Type 0
IsWordByte b = is_word_byte b ≡ true

abbrev pub IsContinuation : ℕ → Type 0
IsContinuation b = is_continuation b ≡ true

abbrev pub IsQuotable : ℕ → Type 0
IsQuotable b = in_string b ≡ true

-- `word` is a text of the token.
abbrev pub Spells : TokenKind → Text → Type 0
Spells (TokenKind.identifier name) word =
    (word ≡ name) × All IsWordByte word × (find word keywords ≡ none)
Spells (TokenKind.string value) word = (word ≡ b'"' ∷ (value ++ b'"' ∷ [])) × All IsQuotable value
Spells (TokenKind.integer n) word =
    All IsDigit word × (n ≡ pos (decimal 0 word)) × (decimal 0 word < 2 ^ 63)
Spells (TokenKind.float bits) word =
    (whole : Text) × (fraction : Text) × (word ≡ whole ++ (b'.' ∷ fraction))
    × (whole ≢ [])
    × All IsDigit whole
    × All IsDigit fraction
    × (fraction ≢ [])
    × (bits ≡ parse_f32 whole fraction)
Spells kind word = word ≡ spelling kind

-- No test holds of the next byte.
abbrev pub Ends : (ℕ → Bool) → Option ℕ → Type 0
Ends test none = Unit
Ends test (some b) = test b ≡ false

-- Digits stop: the next byte is no digit, and no point with a digit behind it.
abbrev pub WholeEnds : Option ℕ → Option ℕ → Type 0
WholeEnds next after = Ends is_digit next × ((is_byte b'.' next && digit_at after) ≡ false)

-- The next two bytes do not make the symbol or literal longer. Words and the end of the source are
-- no symbols.
abbrev pub Stops : TokenKind → Option ℕ → Option ℕ → Type 0
Stops TokenKind.dot next after = is_byte b'.' next ≡ false
Stops TokenKind.colon next after = is_byte b':' next ≡ false
Stops TokenKind.plus next after = is_byte b'=' next ≡ false
Stops TokenKind.minus next after = (is_byte b'>' next ≡ false) × (is_byte b'=' next ≡ false)
Stops TokenKind.star next after = is_byte b'=' next ≡ false
Stops TokenKind.slash next after = (is_byte b'/' next ≡ false) × (is_byte b'=' next ≡ false)
Stops TokenKind.percent next after = is_byte b'=' next ≡ false
Stops TokenKind.bang next after = is_byte b'=' next ≡ false
Stops TokenKind.equal next after = is_byte b'=' next ≡ false
Stops TokenKind.less next after = is_byte b'=' next ≡ false
Stops TokenKind.greater next after = is_byte b'=' next ≡ false
Stops (TokenKind.integer n) next after = WholeEnds next after
Stops (TokenKind.float bits) next after = Ends is_digit next
Stops TokenKind.game next after = ⊥
Stops TokenKind.import_word next after = ⊥
Stops TokenKind.as_word next after = ⊥
Stops TokenKind.let_word next after = ⊥
Stops TokenKind.const next after = ⊥
Stops TokenKind.start next after = ⊥
Stops TokenKind.update next after = ⊥
Stops TokenKind.draw next after = ⊥
Stops TokenKind.fn next after = ⊥
Stops TokenKind.struct next after = ⊥
Stops TokenKind.return next after = ⊥
Stops TokenKind.if_word next after = ⊥
Stops TokenKind.else_word next after = ⊥
Stops TokenKind.while next after = ⊥
Stops TokenKind.for next after = ⊥
Stops TokenKind.in_word next after = ⊥
Stops TokenKind.true_word next after = ⊥
Stops TokenKind.false_word next after = ⊥
Stops TokenKind.i32 next after = ⊥
Stops TokenKind.f32 next after = ⊥
Stops TokenKind.bool next after = ⊥
Stops TokenKind.void next after = ⊥
Stops (TokenKind.identifier name) next after = ⊥
Stops TokenKind.eof next after = ⊥
Stops _ next after = Unit

-- A text of word bytes that begins with a letter.
abbrev pub IsWord : Text → Type 0
IsWord [] = ⊥
IsWord (b ∷ bs) = (is_letter b ≡ true) × All IsWordByte bs

abbrev pub IsCommentByte : ℕ → Type 0
IsCommentByte b = not_newline b ≡ true
