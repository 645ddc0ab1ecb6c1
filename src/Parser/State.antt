-- ===== src/Parser/State.antt =====
-- The `Parser` struct of src/parser.rs and its primitive operations. A parser is a function from
-- the state to an outcome with the new state; after `Err` the state is not used again.
use speck.Base.{
  ℕ, ◌+◌, ◌-◌, Bool, true, false, List, [], ◌∷◌, Option, none, some, Text, ◌==◌, if◌then◌else◌,
  get_elem?, length,
}
use speck.Base.Int.{ℤ}
use speck.Diagnostic.{Span, Diagnostic, new_diagnostic}
use speck.Lexer.Token.{Token, TokenKind}
use speck.Merge.{merge}
use speck.Outcome.{Outcome, ok, fail, panic, and_then}
use speck.Parser.Limits.{max_nesting, exceeded}

-- `value_scopes` has the innermost scope first.
pub record Parser : Type 0 where
  pub tokens : List Token
  pub cursor : ℕ
  pub nesting : ℕ
  pub struct_names : List Text
  pub value_scopes : List (List Text)

abbrev pub M : Type 0 → Type 0
M A = Parser → Outcome (A × Parser)

infixl 5 ◌>>=◌ ◌>>◌
abbrev pub ◌>>=◌ : {A B : Type 0} → M A → (A → M B) → M B
◌>>=◌ m f s = and_then (m s) λ (a, s'). f a s'

abbrev pub ◌>>◌ : {A B : Type 0} → M A → M B → M B
◌>>◌ m k = m >>= λ _. k

abbrev pub return : {A : Type 0} → A → M A
return a s = ok (a, s)

abbrev pub error : {A : Type 0} → Diagnostic → M A
error d s = fail d

-- `let PATTERN = value else { return Err(d) }`
unfoldable pub let_else : {A : Type 0} → Option A → Diagnostic → M A
let_else none d s = fail d
let_else (some a) d s = ok (a, s)

-- The number of a constructor, as `std::mem::discriminant` tells them apart.
unfoldable pub discriminant : TokenKind → ℕ
discriminant TokenKind.eof = 0
discriminant (TokenKind.identifier name) = 1
discriminant (TokenKind.string value) = 2
discriminant (TokenKind.integer n) = 3
discriminant (TokenKind.float bits) = 4
discriminant TokenKind.game = 5
discriminant TokenKind.import_word = 6
discriminant TokenKind.as_word = 7
discriminant TokenKind.let_word = 8
discriminant TokenKind.const = 9
discriminant TokenKind.start = 10
discriminant TokenKind.update = 11
discriminant TokenKind.draw = 12
discriminant TokenKind.fn = 13
discriminant TokenKind.struct = 14
discriminant TokenKind.return = 15
discriminant TokenKind.if_word = 16
discriminant TokenKind.else_word = 17
discriminant TokenKind.while = 18
discriminant TokenKind.for = 19
discriminant TokenKind.in_word = 20
discriminant TokenKind.true_word = 21
discriminant TokenKind.false_word = 22
discriminant TokenKind.i32 = 23
discriminant TokenKind.f32 = 24
discriminant TokenKind.bool = 25
discriminant TokenKind.void = 26
discriminant TokenKind.left_paren = 27
discriminant TokenKind.right_paren = 28
discriminant TokenKind.left_brace = 29
discriminant TokenKind.right_brace = 30
discriminant TokenKind.left_bracket = 31
discriminant TokenKind.right_bracket = 32
discriminant TokenKind.dot = 33
discriminant TokenKind.dot_dot = 34
discriminant TokenKind.colon = 35
discriminant TokenKind.colon_colon = 36
discriminant TokenKind.comma = 37
discriminant TokenKind.semicolon = 38
discriminant TokenKind.plus = 39
discriminant TokenKind.plus_equal = 40
discriminant TokenKind.minus = 41
discriminant TokenKind.minus_equal = 42
discriminant TokenKind.star = 43
discriminant TokenKind.star_equal = 44
discriminant TokenKind.slash = 45
discriminant TokenKind.slash_equal = 46
discriminant TokenKind.percent = 47
discriminant TokenKind.percent_equal = 48
discriminant TokenKind.bang = 49
discriminant TokenKind.equal = 50
discriminant TokenKind.equal_equal = 51
discriminant TokenKind.bang_equal = 52
discriminant TokenKind.less = 53
discriminant TokenKind.less_equal = 54
discriminant TokenKind.greater = 55
discriminant TokenKind.greater_equal = 56
discriminant TokenKind.and_and = 57
discriminant TokenKind.or_or = 58
discriminant TokenKind.arrow = 59

-- `Parser::current`: an index past the tokens panics.
unfoldable pub current : M Token
current s = elim (get_elem? s.tokens s.cursor) [ none ↦ panic | some t ↦ ok (t, s) ]

-- `Parser::at`
unfoldable pub at : TokenKind → M Bool
at kind = do t ← current; return (discriminant t.kind == discriminant kind)

unfoldable pub step_over : Token → M Token
step_over t s =
    if discriminant t.kind == discriminant TokenKind.eof
    then ok (t, s)
    else ok (t, record s { cursor = s.cursor + 1 })

-- `Parser::advance`: the end token is never passed.
unfoldable pub advance : M Token
advance = do t ← current; step_over t

-- `Parser::take`
unfoldable pub take : TokenKind → M Bool
take kind = do here ← at kind; if here then (advance >> return true) else return false

-- `Parser::error_here`
unfoldable pub error_here : {A : Type 0} → Text → M A
error_here message = do t ← current; error (new_diagnostic message t.span)

-- `Parser::expect`
unfoldable pub expect : TokenKind → Text → M Token
expect kind message = do here ← at kind; if here then advance else error_here message

unfoldable pub identifier_of : TokenKind → Option Text
identifier_of (TokenKind.identifier name) = some name
identifier_of _ = none

unfoldable pub string_of : TokenKind → Option Text
string_of (TokenKind.string value) = some value
string_of _ = none

unfoldable pub integer_of : TokenKind → Option ℤ
integer_of (TokenKind.integer n) = some n
integer_of _ = none

-- `Parser::identifier`
unfoldable pub identifier : Text → M (Text × Span)
identifier message = do
  t ← advance
  name ← let_else (identifier_of t.kind) (new_diagnostic message t.span)
  return (name, t.span)

-- `let token = self.advance(); let TokenKind::String(value) = token.kind else { … }`
unfoldable pub string_token : Text → M (Text × Span)
string_token message = do
  t ← advance
  value ← let_else (string_of t.kind) (new_diagnostic message t.span)
  return (value, t.span)

-- `let token = self.advance(); let TokenKind::Integer(value) = token.kind else { … }`
unfoldable pub integer_token : Text → M (ℤ × Span)
integer_token message = do
  t ← advance
  n ← let_else (integer_of t.kind) (new_diagnostic message t.span)
  return (n, t.span)

-- `Parser::optional_semicolon`
unfoldable pub optional_semicolon : M (Option Span)
optional_semicolon = do
  here ← at TokenKind.semicolon
  if here then (advance >>= λ t. return (some t.span)) else return none

-- `Parser::nested`
unfoldable pub leave : {A : Type 0} → A → M A
leave a s = ok (a, record s { nesting = s.nesting - 1 })

unfoldable pub nested : {A : Type 0} → M A → M A
nested parse s =
    if s.nesting == max_nesting
    then (current >>= λ t. error (exceeded t.span)) s
    else (parse >>= leave) (record s { nesting = s.nesting + 1 })

-- `Span::merge`, inside a parser.
unfoldable pub merged : Span → Span → M Span
merged a b s = and_then (merge a b) λ span. ok (span, s)

abbrev pub unwrap_or : {A : Type 0} → Option A → A → A
unwrap_or none a = a
unwrap_or (some b) a = b

-- `self.value_scopes.push(scope)` and `self.value_scopes.pop()`
unfoldable pub push_scope : List Text → M (Unit {0})
push_scope scope s = ok (tt, record s { value_scopes = scope ∷ s.value_scopes })

abbrev pub tail_scopes : List (List Text) → List (List Text)
tail_scopes [] = []
tail_scopes (scope ∷ scopes) = scopes

unfoldable pub pop_scope : M (Unit {0})
pop_scope s = ok (tt, record s { value_scopes = tail_scopes s.value_scopes })

-- `self.value_scopes.last_mut().expect(…).insert(name)`
unfoldable pub insert_binding : Text → List (List Text) → Outcome (List (List Text))
insert_binding name [] = panic
insert_binding name (scope ∷ scopes) = ok ((name ∷ scope) ∷ scopes)

unfoldable pub bind_value : Text → M (Unit {0})
bind_value name s =
    and_then (insert_binding name s.value_scopes)
      λ scopes. ok (tt, record s { value_scopes = scopes })

-- A loop that consumes a token in each round takes the number of tokens as its fuel.
abbrev pub with_fuel : {A : Type 0} → (ℕ → M A) → M A
with_fuel loop s = loop (length s.tokens) s
