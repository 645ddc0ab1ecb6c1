-- ===== src/Parser/Expression.antt =====
-- src/parser/expression.rs. The levels of precedence are functions of the parser for the level
-- below; the nested expressions and operands that recur are parsers `expression` and `operand`.
use speck.Base.{
  ℕ, zero, suc, ◌+◌, Bool, true, false, ◌&&◌, ◌||◌, not, List, [], ◌∷◌, Option, none, some, Text,
  text, contains, if◌then◌else◌, get_elem?, ◌==◌,
}
use speck.Diagnostic.{Span, new_diagnostic}
use speck.Lexer.Token.{Token, TokenKind}
use speck.Outcome.{ok, exhausted, and_then}
use speck.Parser.Limits.{max_nesting, check_expression}
use speck.Parser.State.{
  M, ◌>>=◌, ◌>>◌, return, error, discriminant, current, at, advance, take, expect, identifier,
  identifier_of, nested, merged, with_fuel,
}
use speck.Parser.Types.{qualified_name}
use speck.Syntax.Expr.{
  ExprKind, Expr, expr, Exprs, nil, push, Fields, end, push_field, span_of, with_span,
}
use speck.Syntax.{ValueType, UnaryOp, BinaryOp}

-- `Parser::checked`
unfoldable pub checked : ExprKind → Span → M Expr
checked kind span s =
    and_then (check_expression (expr kind span) s.nesting) λ _. ok (expr kind span, s)

-- `Parser::binary`
unfoldable pub binary : Expr → BinaryOp → Expr → M Expr
binary left op right = do
  span ← merged (span_of left) (span_of right)
  checked (ExprKind.binary left op right) span

-- `if self.take(&kind) { Some(op) } else { … }`
unfoldable pub operator : TokenKind → BinaryOp → M (Option BinaryOp) → M (Option BinaryOp)
operator kind op otherwise = do taken ← take kind; if taken then return (some op) else otherwise

unfoldable pub or_operator : M (Option BinaryOp)
or_operator = operator TokenKind.or_or BinaryOp.logical_or (return none)

unfoldable pub and_operator : M (Option BinaryOp)
and_operator = operator TokenKind.and_and BinaryOp.logical_and (return none)

unfoldable pub equality_operator : M (Option BinaryOp)
equality_operator =
    operator TokenKind.equal_equal BinaryOp.equal
      (operator TokenKind.bang_equal BinaryOp.not_equal (return none))

unfoldable pub comparison_operator : M (Option BinaryOp)
comparison_operator = operator TokenKind.less BinaryOp.less (
    operator TokenKind.less_equal BinaryOp.less_equal (
      operator TokenKind.greater BinaryOp.greater
        (operator TokenKind.greater_equal BinaryOp.greater_equal (return none))))

unfoldable pub term_operator : M (Option BinaryOp)
term_operator =
    operator TokenKind.plus BinaryOp.add (operator TokenKind.minus BinaryOp.subtract (return none))

unfoldable pub factor_operator : M (Option BinaryOp)
factor_operator = operator TokenKind.star BinaryOp.multiply (
    operator TokenKind.slash BinaryOp.divide
      (operator TokenKind.percent BinaryOp.remainder (return none)))

-- The loop of a level: operators and operands are folded to the left. One round, behind the test
-- for an operator; `again` is the next round.
unfoldable pub binary_step : (Expr → M Expr) → M Expr → Expr → Option BinaryOp → M Expr
binary_step again operand left none = return left
binary_step again operand left (some op) = do
  right ← operand
  whole ← binary left op right
  again whole

unfoldable pub binary_loop : M (Option BinaryOp) → M Expr → ℕ → Expr → M Expr
binary_loop read_operator operand zero left s = exhausted
binary_loop read_operator operand (suc fuel) left s =
    (read_operator >>= binary_step (binary_loop read_operator operand fuel) operand left) s

unfoldable pub level : M (Option BinaryOp) → M Expr → M Expr
level read_operator operand = do
  first ← operand
  with_fuel (λ fuel. binary_loop read_operator operand fuel first)

-- `Parser::logical_or` and the levels below it, down to `Parser::factor`.
unfoldable pub factor : M Expr → M Expr
factor unary = level factor_operator unary

unfoldable pub term : M Expr → M Expr
term unary = level term_operator (factor unary)

unfoldable pub comparison : M Expr → M Expr
comparison unary = level comparison_operator (term unary)

unfoldable pub equality : M Expr → M Expr
equality unary = level equality_operator (comparison unary)

unfoldable pub logical_and : M Expr → M Expr
logical_and unary = level and_operator (equality unary)

unfoldable pub logical_or : M Expr → M Expr
logical_or unary = level or_operator (logical_and unary)

-- `Parser::arguments`: the loop behind the first test for `)`.
unfoldable pub argument_loop : M Expr → ℕ → Exprs → M Exprs
argument_loop expression zero args s = exhausted
argument_loop expression (suc fuel) args s =
    (expression >>= λ arg. take TokenKind.comma >>= λ more.
    if more then argument_loop expression fuel (push args arg) else return (push args arg))
      s

unfoldable pub arguments : M Expr → M (Exprs × Span)
arguments expression = do
  closed ← at TokenKind.right_paren
  args ← if closed then return nil else with_fuel (λ fuel. argument_loop expression fuel nil)
  t ← expect TokenKind.right_paren (text "expected `)` after arguments")
  return (args, t.span)

-- `Parser::array_literal`: a comma may stand before the `]`.
unfoldable pub element_loop : M Expr → ℕ → Exprs → M Exprs
element_loop expression zero elements s = exhausted
element_loop expression (suc fuel) elements s =
    (expression >>= λ element. take TokenKind.comma >>= λ more.
    if more
    then (at TokenKind.right_bracket >>= λ closed.
        if closed
        then return (push elements element)
        else element_loop expression fuel (push elements element))
    else return (push elements element))
      s

unfoldable pub array_literal : M Expr → Span → M Expr
array_literal expression start = do
  closed ← at TokenKind.right_bracket
  elements ← if closed then return nil else with_fuel (λ fuel. element_loop expression fuel nil)
  t ← expect TokenKind.right_bracket (text "expected `]` after array literal")
  span ← merged start t.span
  checked (ExprKind.array_literal elements) span

-- `Parser::conversion`, on the type that the token names.
unfoldable pub conversion : M Expr → ValueType → Span → M Expr
conversion expression target start = do
  expect TokenKind.left_paren (text "expected `(` after numeric conversion type")
  (args, close) ← arguments expression
  span ← merged start close
  checked (ExprKind.conversion target args) span

-- `while !self.at(&close) && !self.at(&TokenKind::Eof)`
unfoldable pub at_end : TokenKind → M Bool
at_end close = do closed ← at close; if closed then return true else at TokenKind.eof

-- `Parser::struct_literal`
unfoldable pub initializer_loop : M Expr → ℕ → Fields → M Fields
initializer_loop expression zero fields s = exhausted
initializer_loop expression (suc fuel) fields s =
    (at_end TokenKind.right_brace >>= λ ended. if ended then return fields else (do
      (name, start) ← identifier (text "expected a field initializer name")
      expect TokenKind.colon (text "expected `:` after field initializer name")
      value ← expression
      span ← merged start (span_of value)
      take TokenKind.comma
      initializer_loop expression fuel (push_field fields name value span)))
      s

unfoldable pub struct_literal : M Expr → Text → Span → M Expr
struct_literal expression name start = do
  expect TokenKind.left_brace (text "expected `{` after struct type name")
  fields ← with_fuel (λ fuel. initializer_loop expression fuel end)
  t ← expect TokenKind.right_brace (text "expected `}` after struct literal")
  span ← merged start t.span
  checked (ExprKind.struct_literal name fields) span

-- `Parser::is_value_binding`
unfoldable pub is_value_binding : List (List Text) → Text → Bool
is_value_binding [] name = false
is_value_binding (scope ∷ scopes) name = contains scope name || is_value_binding scopes name

-- The two tokens behind the cursor are a name and a colon.
unfoldable pub is_identifier : Option Token → Bool
is_identifier none = false
is_identifier (some t) = elim (identifier_of t.kind) [ none ↦ false | some name ↦ true ]

unfoldable pub is_colon : Option Token → Bool
is_colon none = false
is_colon (some t) = discriminant t.kind == discriminant TokenKind.colon

-- `Parser::looks_like_struct_literal`
unfoldable pub looks_like_struct_literal : Text → M Bool
looks_like_struct_literal name s =
    (at TokenKind.left_brace >>= λ brace. return (
        brace
        && not (is_value_binding s.value_scopes name)
        && (contains s.struct_names name
            || is_identifier (get_elem? s.tokens (s.cursor + 1))
              && is_colon (get_elem? s.tokens (s.cursor + 2)))))
      s

-- `Parser::named_expression`, behind its name.
unfoldable pub call_or_variable : M Expr → Text → Span → Span → M Expr
call_or_variable expression name start name_span = do
  called ← take TokenKind.left_paren
  if called
      then (do
        (args, close) ← arguments expression
        span ← merged start close
        checked (ExprKind.call name args) span)
      else checked (ExprKind.variable name) name_span

unfoldable pub named_expression : M Expr → Text → Span → M Expr
named_expression expression name' start = do
  (name, name_span) ← qualified_name name' start
  literal ← looks_like_struct_literal name
  if literal
      then struct_literal expression name name_span
      else call_or_variable expression name start name_span

-- `Parser::primary`, on the token it advanced past.
unfoldable pub parenthesized : M Expr → Span → M Expr
parenthesized expression start = do
  inner ← expression
  t ← expect TokenKind.right_paren (text "expected `)` after expression")
  span ← merged start t.span
  return (with_span inner span)

unfoldable pub primary_of : M Expr → TokenKind → Span → M Expr
primary_of expression (TokenKind.integer n) span = checked (ExprKind.i32 n) span
primary_of expression (TokenKind.float bits) span = checked (ExprKind.f32 bits) span
primary_of expression TokenKind.true_word span = checked (ExprKind.bool true) span
primary_of expression TokenKind.false_word span = checked (ExprKind.bool false) span
primary_of expression TokenKind.left_bracket span = array_literal expression span
primary_of expression (TokenKind.identifier name) span = named_expression expression name span
primary_of expression TokenKind.i32 span = conversion expression ValueType.i32 span
primary_of expression TokenKind.f32 span = conversion expression ValueType.f32 span
primary_of expression TokenKind.left_paren span = parenthesized expression span
primary_of expression _ span = error (new_diagnostic (text "expected an expression") span)

unfoldable pub primary : M Expr → M Expr
primary expression = advance >>= λ t. primary_of expression t.kind t.span

-- `Parser::postfix`
unfoldable pub index_of : M Expr → Expr → M Expr
index_of expression base = do
  i ← expression
  t ← expect TokenKind.right_bracket (text "expected `]` after array index")
  span ← merged (span_of base) t.span
  checked (ExprKind.index base i) span

unfoldable pub field_of : Expr → M Expr
field_of base = do
  (name, name_span) ← identifier (text "expected a field name after `.`")
  span ← merged (span_of base) name_span
  checked (ExprKind.field base name name_span) span

unfoldable pub postfix_loop : M Expr → ℕ → Expr → M Expr
postfix_loop expression zero base s = exhausted
postfix_loop expression (suc fuel) base s =
    (take TokenKind.left_bracket >>= λ bracket.
    if bracket
    then (index_of expression base >>= λ whole. postfix_loop expression fuel whole)
    else (take TokenKind.dot >>= λ dot.
        if dot
        then (field_of base >>= λ whole. postfix_loop expression fuel whole)
        else return base))
      s

unfoldable pub postfix : M Expr → M Expr
postfix expression = do
  base ← primary expression
  with_fuel (λ fuel. postfix_loop expression fuel base)

-- `Parser::unary`
unfoldable pub unary_operator : M (Option UnaryOp)
unary_operator = do
  minus ← take TokenKind.minus
  if minus
      then return (some UnaryOp.negate)
      else (take TokenKind.bang >>= λ bang. if bang then return (some UnaryOp.not) else return none)

unfoldable pub unary_of : M Expr → M Expr → Span → Option UnaryOp → M Expr
unary_of expression operand start none = postfix expression
unary_of expression operand start (some op) = do
  inner ← operand
  span ← merged start (span_of inner)
  checked (ExprKind.unary op inner) span

unfoldable pub unary : M Expr → M Expr → M Expr
unary expression operand = do
  t ← current
  op ← unary_operator
  unary_of expression operand t.span op

-- The two parsers that `nested` is called on in expressions.
pub data Entry : Type 0 where
  or_entry unary_entry : Entry

unfoldable pub entry_of : M Expr → M Expr → Entry → M Expr
entry_of expression operand or_entry = logical_or (unary expression operand)
entry_of expression operand unary_entry = unary expression operand

-- The recursion of the expression parser, on fuel for its nesting.
unfoldable pub parse_entry : ℕ → Entry → M Expr
parse_entry zero entry s = exhausted
parse_entry (suc depth) entry s =
    entry_of (nested (parse_entry depth or_entry)) (nested (parse_entry depth unary_entry)) entry s

-- `Parser::expression`. The nesting limit stops the recursion before the fuel does.
unfoldable pub expression : M Expr
expression = nested (parse_entry (max_nesting + 1) or_entry)
