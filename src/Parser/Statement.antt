-- ===== src/Parser/Statement.antt =====
-- Blocks and statements in src/parser.rs.
use speck.Base.{
  ℕ, zero, suc, ◌+◌, Bool, true, false, List, [], ◌∷◌, Option, none, some, Text, text,
  if◌then◌else◌,
}
use speck.Diagnostic.{Span, new_diagnostic}
use speck.Lexer.Token.{TokenKind}
use speck.Outcome.{exhausted}
use speck.Parser.Expression.{expression, at_end}
use speck.Parser.Limits.{max_nesting}
use speck.Parser.State.{
  M, ◌>>=◌, ◌>>◌, return, current, at, advance, take, expect, identifier, optional_semicolon,
  nested, merged, unwrap_or, push_scope, pop_scope, bind_value, with_fuel, let_else,
}
use speck.Parser.Types.{parse_value_type}
use speck.Syntax.Expr.{Expr, span_of}
use speck.Syntax.Stmt.{StmtKind, Stmt, stmt, Block, nil, push}
use speck.Syntax.{AssignOp}

-- `Parser::let_statement`
unfoldable pub let_statement : M Stmt
let_statement = do
  first ← expect TokenKind.let_word (text "expected `let`")
  (name, _) ← identifier (text "expected a local variable name")
  expect TokenKind.colon (text "expected `:` after variable name")
  ty ← parse_value_type
  expect TokenKind.equal (text "expected `=` before initializer")
  init ← expression
  semicolon ← optional_semicolon
  bind_value name
  span ← merged first.span (unwrap_or semicolon (span_of init))
  return (stmt (StmtKind.let_local name ty init) span)

-- `Parser::at_assignment_operator`, and the operator of `Parser::assignment_statement`.
unfoldable pub assign_op : TokenKind → Option AssignOp
assign_op TokenKind.equal = some AssignOp.set
assign_op TokenKind.plus_equal = some AssignOp.add
assign_op TokenKind.minus_equal = some AssignOp.subtract
assign_op TokenKind.star_equal = some AssignOp.multiply
assign_op TokenKind.slash_equal = some AssignOp.divide
assign_op TokenKind.percent_equal = some AssignOp.remainder
assign_op _ = none

unfoldable pub at_assignment_operator : M Bool
at_assignment_operator = do
  t ← current
  return (elim (assign_op t.kind) [ none ↦ false | some op ↦ true ])

-- `Parser::assignment_statement`
unfoldable pub assignment_statement : Expr → M Stmt
assignment_statement target = do
  t ← advance
  op ← let_else (assign_op t.kind) (new_diagnostic (text "expected an assignment operator") t.span)
  value ← expression
  semicolon ← optional_semicolon
  span ← merged (span_of target) (unwrap_or semicolon (span_of value))
  return (stmt (StmtKind.assign target op value) span)

-- `Parser::return_statement`: the value, and the statement's last span.
unfoldable pub return_value : M (Option Expr)
return_value = do
  closed ← at TokenKind.right_brace
  ended ← if closed then return true else at TokenKind.semicolon
  if ended then return none else (expression >>= λ value. return (some value))

abbrev pub option_span : Option Expr → Option Span
option_span none = none
option_span (some e) = some (span_of e)

unfoldable pub return_statement : M Stmt
return_statement = do
  first ← expect TokenKind.return (text "expected `return`")
  value ← return_value
  semicolon ← optional_semicolon
  span ← merged first.span (unwrap_or semicolon (unwrap_or (option_span value) first.span))
  return (stmt (StmtKind.return value) span)

-- The last alternative of `Parser::statement`: an expression, or an assignment to one.
unfoldable pub expression_statement : M Stmt
expression_statement = do
  e ← expression
  assigned ← at_assignment_operator
  if assigned then assignment_statement e else (do
    semicolon ← optional_semicolon
    span ← merged (span_of e) (unwrap_or semicolon (span_of e))
    return (stmt (StmtKind.expr e) span))

-- `Parser::block_with_bindings`
unfoldable pub with_bindings : M (Block × Span) → List Text → M (Block × Span)
with_bindings block bindings = do push_scope bindings; result ← block; pop_scope; return result

-- `Parser::if_statement`, `while_statement` and `for_statement`; `block` parses a nested block.
unfoldable pub else_branch : M (Block × Span) → Expr → Block → Span → Span → M Stmt
else_branch block condition then_block then_end start = do
  otherwise ← take TokenKind.else_word
  if otherwise
      then (do
        (else_block, close) ← block
        span ← merged start close
        return (stmt (StmtKind.if_else condition then_block else_block) span))
      else (do
        span ← merged start then_end
        return (stmt (StmtKind.if_then condition then_block) span))

unfoldable pub if_statement : M (Block × Span) → M Stmt
if_statement block = do
  first ← expect TokenKind.if_word (text "expected `if`")
  condition ← expression
  (then_block, then_end) ← block
  else_branch block condition then_block then_end first.span

unfoldable pub while_statement : M (Block × Span) → M Stmt
while_statement block = do
  first ← expect TokenKind.while (text "expected `while`")
  condition ← expression
  (body, close) ← block
  span ← merged first.span close
  return (stmt (StmtKind.while condition body) span)

unfoldable pub for_statement : M (Block × Span) → M Stmt
for_statement block = do
  first ← expect TokenKind.for (text "expected `for`")
  (name, name_span) ← identifier (text "expected a loop variable after `for`")
  expect TokenKind.in_word (text "expected `in` after loop variable")
  lower ← expression
  expect TokenKind.dot_dot (text "expected `..` between range bounds")
  upper ← expression
  (body, close) ← with_bindings block (name ∷ [])
  span ← merged first.span close
  return (stmt (StmtKind.for_range name name_span lower upper body) span)

-- `if self.at(&kind) { return … }`
unfoldable pub when_at : TokenKind → M Stmt → M Stmt → M Stmt
when_at kind parse otherwise = do here ← at kind; if here then parse else otherwise

-- `Parser::statement`
unfoldable pub statement : M (Block × Span) → M Stmt
statement block = when_at TokenKind.let_word let_statement (
    when_at TokenKind.if_word (if_statement block) (
      when_at TokenKind.while (while_statement block) (
        when_at TokenKind.for (for_statement block)
          (when_at TokenKind.return return_statement expression_statement))))

-- `Parser::block_contents`
unfoldable pub statement_loop : M (Block × Span) → ℕ → Block → M Block
statement_loop block zero statements s = exhausted
statement_loop block (suc fuel) statements s =
    (at_end TokenKind.right_brace >>= λ ended.
    if ended
    then return statements
    else (statement block >>= λ next. statement_loop block fuel (push statements next)))
      s

unfoldable pub block_contents : M (Block × Span) → M (Block × Span)
block_contents block = do
  expect TokenKind.left_brace (text "expected `{` to begin block")
  push_scope []
  statements ← with_fuel (λ fuel. statement_loop block fuel nil)
  t ← expect TokenKind.right_brace (text "expected `}` to close block")
  pop_scope
  return (statements, t.span)

-- The recursion of blocks, on fuel for their nesting.
unfoldable pub nested_contents : ℕ → M (Block × Span)
nested_contents zero s = exhausted
nested_contents (suc depth) s = block_contents (nested (nested_contents depth)) s

-- `Parser::block`
unfoldable pub parse_block : M (Block × Span)
parse_block = nested (nested_contents (max_nesting + 1))
