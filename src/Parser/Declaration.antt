-- ===== src/Parser/Declaration.antt =====
-- Top-level declarations in src/parser.rs.
use speck.Base.{
  ℕ, zero, suc, ◌%◌, ◌^◌, ◌++◌, Bool, false, ◌&&◌, List, [], ◌∷◌, Option, none, some, Text, text,
  same_text, if◌then◌else◌, map,
}
use speck.Base.Decimal.{show_ℤ}
use speck.Base.Int.{pos, leb_ℤ, pos_part}
use speck.Diagnostic.{Span, new_diagnostic}
use speck.Lexer.Token.{TokenKind}
use speck.Outcome.{exhausted}
use speck.Parser.Expression.{expression, at_end}
use speck.Parser.Statement.{parse_block, with_bindings}
use speck.Parser.State.{
  M, ◌>>=◌, ◌>>◌, return, error, current, at, advance, take, expect, identifier, identifier_of,
  string_token, integer_token, optional_semicolon, merged, unwrap_or, with_fuel,
}
use speck.Parser.Types.{parse_value_type, parse_return_type}
use speck.Resolution.{Resolution, Checked, new_resolution, max_dimension, valid, rejected}
use speck.Syntax.Expr.{span_of}
use speck.Syntax.Stmt.{Constant, Global, Function}
use speck.Syntax.{StructField, StructDecl, SoundAsset, Param, ReturnType, FunctionKind}

-- `Parser::parse_struct`
unfoldable pub field_loop : ℕ → List StructField → M (List StructField)
field_loop zero fields s = exhausted
field_loop (suc fuel) fields s =
    (at_end TokenKind.right_brace >>= λ ended. if ended then return fields else (do
      (name, span) ← identifier (text "expected a field name")
      expect TokenKind.colon (text "expected `:` after field name")
      ty ← parse_value_type
      take TokenKind.comma
      field_loop fuel (fields ++ record { name = name; ty = ty; span = span } ∷ [])))
      s

unfoldable pub parse_struct : M StructDecl
parse_struct = do
  first ← expect TokenKind.struct (text "expected `struct`")
  (name, _) ← identifier (text "expected a struct name")
  expect TokenKind.left_brace (text "expected `{` after the struct name")
  fields ← with_fuel (λ fuel. field_loop fuel [])
  t ← expect TokenKind.right_brace (text "expected `}` after struct fields")
  span ← merged first.span t.span
  return (record { name = name; fields = fields; span = span })

-- `Parser::parse_sound`
unfoldable pub parse_sound : M SoundAsset
parse_sound = do
  first ← advance
  (name, _) ← identifier (text "expected a sound name")
  expect TokenKind.equal (text "expected `=` before sound asset path")
  (path, path_span) ← string_token (text "expected a quoted WAV file path after `=`")
  semicolon ← optional_semicolon
  span ← merged first.span (unwrap_or semicolon path_span)
  return (record { name = name; path = path; handle = pos 0; pcm = []; span = span })

-- `Parser::parse_constant` and `Parser::parse_global`
unfoldable pub parse_constant : M Constant
parse_constant = do
  first ← expect TokenKind.const (text "expected `const`")
  (name, _) ← identifier (text "expected a constant name")
  expect TokenKind.colon (text "expected `:` after constant name")
  ty ← parse_value_type
  expect TokenKind.equal (text "expected `=` before constant initializer")
  init ← expression
  semicolon ← optional_semicolon
  span ← merged first.span (unwrap_or semicolon (span_of init))
  return (record { name = name; ty = ty; init = init; value = none; span = span })

unfoldable pub parse_global : M Global
parse_global = do
  first ← expect TokenKind.let_word (text "expected `let`")
  (name, _) ← identifier (text "expected a global variable name")
  expect TokenKind.colon (text "expected `:` after variable name")
  ty ← parse_value_type
  expect TokenKind.equal (text "expected `=` before global initializer")
  init ← expression
  semicolon ← optional_semicolon
  span ← merged first.span (unwrap_or semicolon (span_of init))
  return (record { name = name; ty = ty; init = init; value = none; span = span })

-- `Parser::parse_start` and `Parser::parse_draw`
unfoldable pub parse_callback : TokenKind → Text → Text → FunctionKind → M Function
parse_callback word message name kind = do
  first ← expect word message
  (body, close) ← with_bindings parse_block []
  span ← merged first.span close
  return (record {
    name = name;
    kind = kind;
    params = [];
    return_type = ReturnType.void;
    body = body;
    span = span;
  })

unfoldable pub parse_start : M Function
parse_start =
    parse_callback TokenKind.start (text "expected `start`") (text "start") FunctionKind.start

unfoldable pub parse_draw : M Function
parse_draw = parse_callback TokenKind.draw (text "expected `draw`") (text "draw") FunctionKind.draw

-- `Parser::parse_update`
unfoldable pub parse_update : M Function
parse_update = do
  first ← expect TokenKind.update (text "expected `update`")
  expect TokenKind.left_paren (text "expected `(` after `update`")
  (name, name_span) ← identifier (text "expected the frame-delta parameter name")
  expect TokenKind.colon (text "expected `:` after the frame-delta parameter name")
  ty ← parse_value_type
  expect TokenKind.right_paren (text "expected `)` after the frame-delta parameter")
  (body, close) ← with_bindings parse_block (name ∷ [])
  span ← merged first.span close
  return (record {
    name = text "update";
    kind = FunctionKind.update;
    params = record { name = name; ty = ty; span = name_span } ∷ [];
    return_type = ReturnType.void;
    body = body;
    span = span;
  })

-- `Parser::parse_named_function`: the loop over its parameters, and the function.
unfoldable pub param_loop : ℕ → List Param → M (List Param)
param_loop zero params s = exhausted
param_loop (suc fuel) params s =
    (identifier (text "expected a parameter name") >>= λ (name, span).
    expect TokenKind.colon (text "expected `:` after parameter name") >>= λ _.
    parse_value_type >>= λ ty.
    let params' = params ++ record { name = name; ty = ty; span = span } ∷ [] in
    take TokenKind.comma >>= λ more. if more then param_loop fuel params' else return params')
      s

abbrev pub param_name : Param → Text
param_name p = p.name

unfoldable pub parse_params : M (List Param)
parse_params = do
  closed ← at TokenKind.right_paren
  if closed then return [] else with_fuel (λ fuel. param_loop fuel [])

unfoldable pub parse_named_function : M Function
parse_named_function = do
  first ← expect TokenKind.fn (text "expected `fn`")
  (name, _) ← identifier (text "expected a function name")
  expect TokenKind.left_paren (text "expected `(` after function name")
  params ← parse_params
  expect TokenKind.right_paren (text "expected `)` after parameters")
  expect TokenKind.arrow (text "expected `->` and a return type after parameters")
  return_type ← parse_return_type
  (body, close) ← with_bindings parse_block (map param_name params)
  span ← merged first.span close
  return (record {
    name = name;
    kind = FunctionKind.named;
    params = params;
    return_type = return_type;
    body = body;
    span = span;
  })

-- `Parser::at_sound_declaration` and `Parser::at_resolution`
unfoldable pub is_name : Text → Option Text → Bool
is_name word none = false
is_name word (some name) = same_text name word

unfoldable pub at_name : Text → M Bool
at_name word = do t ← current; return (is_name word (identifier_of t.kind))

unfoldable pub at_sound_declaration : M Bool
at_sound_declaration = at_name (text "sound")

unfoldable pub at_resolution : M Bool
at_resolution = at_name (text "resolution")

-- `Parser::resolution_dimension`: a value in range fits a `u16`.
unfoldable pub resolution_dimension : Text → M ℕ
resolution_dimension name = do
  (n, span) ←
      integer_token (
        text "resolution " ++ name ++ text " must be a positive integer literal between 1 and 4096")
  if leb_ℤ (pos 1) n && leb_ℤ n (pos max_dimension)
      then return (pos_part n % 2 ^ 16)
      else error (
          new_diagnostic
            (text "resolution " ++ name ++ text " must be between 1 and 4096, found " ++ show_ℤ n)
            span)

unfoldable pub checked_resolution : Checked → Span → M Resolution
checked_resolution (valid r) span = return r
checked_resolution (rejected name dimension) span = error (
    new_diagnostic
      (text "resolution "
        ++ name
        ++ text " must be between 1 and 4096, found "
        ++ show_ℤ (pos dimension))
      span)

-- `Parser::parse_resolution`
unfoldable pub parse_resolution : M Resolution
parse_resolution = do
  first ← advance
  expect TokenKind.left_paren (text "expected `(` after `resolution`")
  width ← resolution_dimension (text "width")
  expect TokenKind.comma (text "expected `,` between resolution dimensions")
  height ← resolution_dimension (text "height")
  t ← expect TokenKind.right_paren (text "expected `)` after resolution dimensions")
  span ← merged first.span t.span
  checked_resolution (new_resolution width height) span
