-- ===== src/Lexer/Token.antt =====
-- `Token` and `TokenKind` of src/lexer.rs. A `Float` carries the bit pattern of its `f32`.
use speck.Base.{ℕ, Text, text, List, [], ◌∷◌}
use speck.Base.Int.{ℤ}
use speck.Diagnostic.{Span}

pub data TokenKind : Type 0 where
  identifier : Text → TokenKind
  string : Text → TokenKind
  integer : ℤ → TokenKind
  float : ℕ → TokenKind
  game import_word as_word let_word const start update draw fn struct : TokenKind
  return if_word else_word while for in_word true_word false_word : TokenKind
  i32 f32 bool void : TokenKind
  left_paren right_paren left_brace right_brace left_bracket right_bracket : TokenKind
  dot dot_dot colon colon_colon comma semicolon : TokenKind
  plus plus_equal minus minus_equal star star_equal slash slash_equal : TokenKind
  percent percent_equal bang equal equal_equal bang_equal : TokenKind
  less less_equal greater greater_equal and_and or_or arrow eof : TokenKind

pub record Token : Type 0 where
  pub kind : TokenKind
  pub span : Span

-- The words that `Lexer::identifier` matches, in its order.
abbrev pub keywords : List (Text × TokenKind)
keywords =
    (text "game", game)
    ∷ (text "import", import_word)
    ∷ (text "as", as_word)
    ∷ (text "let", let_word)
    ∷ (text "const", const)
    ∷ (text "start", start)
    ∷ (text "update", update)
    ∷ (text "draw", draw)
    ∷ (text "fn", fn)
    ∷ (text "struct", struct)
    ∷ (text "return", return)
    ∷ (text "if", if_word)
    ∷ (text "else", else_word)
    ∷ (text "while", while)
    ∷ (text "for", for)
    ∷ (text "in", in_word)
    ∷ (text "true", true_word)
    ∷ (text "false", false_word)
    ∷ (text "i32", i32)
    ∷ (text "f32", f32)
    ∷ (text "bool", bool)
    ∷ (text "void", void)
    ∷ []
