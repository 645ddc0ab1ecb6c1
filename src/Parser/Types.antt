-- ===== src/Parser/Types.antt =====
-- Types and qualified names in src/parser.rs.
use speck.Base.{ℕ, zero, suc, ◌+◌, ◌++◌, ◌-◌, ◌^◌, Text, text, if◌then◌else◌}
use speck.Base.Int.{ℤ, neg, leb_ℤ, negsuc}
use speck.Diagnostic.{Span, new_diagnostic}
use speck.Lexer.Token.{TokenKind}
use speck.Outcome.{ok, panic, exhausted}
use speck.Parser.Limits.{max_nesting}
use speck.Parser.State.{
  M, ◌>>=◌, ◌>>◌, return, error, at, advance, take, error_here, expect, identifier, integer_token,
  nested, merged,
}
use speck.Syntax.{ArrayLength, ValueType, ReturnType}

-- `Parser::qualified_name`: behind `::`, and whole.
unfoldable pub qualified_end : Text → Span → Text → Span → M (Text × Span)
qualified_end name start member end = do
  again ← at TokenKind.colon_colon
  if again
      then error_here (
          text
            "qualified names use one import alias and one declaration; imports are not reexported")
      else (merged start end >>= λ span. return (name ++ text "::" ++ member, span))

unfoldable pub qualified_rest : Text → Span → M (Text × Span)
qualified_rest name start = do
  (member, end) ← identifier (text "expected a declaration name after `::`")
  qualified_end name start member end

unfoldable pub qualified_name : Text → Span → M (Text × Span)
qualified_name name start = do
  separated ← take TokenKind.colon_colon
  if separated then qualified_rest name start else return (name, start)

-- `-value` on an `i64`: the least value has no negation.
unfoldable pub negated : ℤ → M ℤ
negated n s = if leb_ℤ n (negsuc (2 ^ 63 - 1)) then panic else ok (neg n, s)

unfoldable pub constant_length : Text × Span → M ArrayLength
constant_length (name, span) = return (ArrayLength.constant name span)

-- The length behind an array type's `;`.
unfoldable pub length_of : TokenKind → Span → M ArrayLength
length_of (TokenKind.integer n) span = return (ArrayLength.literal n span)
length_of (TokenKind.identifier name) span = qualified_name name span >>= constant_length
length_of _ span = error (
    new_diagnostic (text "array length must be a positive integer literal or an `i32` constant")
      span)

unfoldable pub negative_length : M ArrayLength
negative_length = do
  (n, span) ← integer_token (text "expected an integer literal after `-` in array length")
  m ← negated n
  return (ArrayLength.literal m span)

unfoldable pub array_length : M ArrayLength
array_length = do
  minus ← take TokenKind.minus
  if minus then negative_length else (advance >>= λ t. length_of t.kind t.span)

-- `Parser::value_type` on the token it advanced past; `element` parses the type of an array's
-- elements.
unfoldable pub type_of_token : M ValueType → TokenKind → Span → M ValueType
type_of_token element TokenKind.i32 span = return ValueType.i32
type_of_token element TokenKind.f32 span = return ValueType.f32
type_of_token element TokenKind.bool span = return ValueType.bool
type_of_token element (TokenKind.identifier name) span =
    qualified_name name span >>= λ (name', _). return (ValueType.struct name')
type_of_token element TokenKind.left_bracket span = do
  ty ← element
  expect TokenKind.semicolon (text "expected `;` between the array element type and length")
  length ← array_length
  expect TokenKind.right_bracket (text "expected `]` after array type")
  return (ValueType.array ty length)
type_of_token element TokenKind.void span =
    error (new_diagnostic (text "`void` is only valid as a function return type") span)
type_of_token element _ span =
    error (new_diagnostic (text "expected a scalar, struct, or fixed array type") span)

-- `Parser::value_type`, on fuel for the nesting of element types.
unfoldable pub value_type : ℕ → M ValueType
value_type zero s = exhausted
value_type (suc depth) s =
    (advance >>= λ t. type_of_token (nested (value_type depth)) t.kind t.span) s

-- `Parser::parse_value_type`. The nesting limit stops the recursion before the fuel does.
unfoldable pub parse_value_type : M ValueType
parse_value_type = nested (value_type (max_nesting + 1))

-- `Parser::parse_return_type`
unfoldable pub parse_return_type : M ReturnType
parse_return_type = do
  none_returned ← take TokenKind.void
  if none_returned
      then return ReturnType.void
      else (parse_value_type >>= λ ty. return (ReturnType.value ty))
