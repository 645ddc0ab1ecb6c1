-- ===== src/Parser/File.antt =====
-- `Parser::run`, import headers and the entry points of src/parser.rs.
use speck.Base.{
  ℕ, zero, suc, ◌+◌, ◌-◌, ◌++◌, Bool, true, false, ◌&&◌, not, List, [], ◌∷◌, none, some, Text, text,
  ◌==◌, if◌then◌else◌,
}
use speck.Diagnostic.{Span, new_diagnostic}
use speck.Lexer.Token.{Token, TokenKind}
use speck.Outcome.{Outcome, ok, fail, exhausted, and_then}
use speck.Parser.Declaration.{
  parse_struct, parse_sound, parse_constant, parse_global, parse_start, parse_update, parse_draw,
  parse_named_function, at_sound_declaration, at_resolution, parse_resolution,
}
use speck.Parser.State.{
  Parser, M, ◌>>=◌, ◌>>◌, return, discriminant, current, at, advance, take, error_here, expect,
  identifier, identifier_of, string_token, merged, with_fuel,
}
use speck.Resolution.{Resolution, default_resolution}
use speck.Syntax.Stmt.{Program}

pub record Import : Type 0 where
  pub path : Text
  pub alias : Text
  pub span : Span

-- `Parser::parse_import`
unfoldable pub parse_import : M Import
parse_import = do
  first ← expect TokenKind.import_word (text "expected `import`")
  (path, _) ← string_token (text "expected a quoted file path after `import`")
  expect TokenKind.as_word (text "expected `as` after import path")
  (alias, close) ← identifier (text "expected an import alias after `as`")
  take TokenKind.semicolon
  span ← merged first.span close
  return (record { path = path; alias = alias; span = span })

-- `declared_struct_names`: the names behind the word `struct`, in pairs of neighbours.
unfoldable pub struct_name : Token → Token → List Text
struct_name a b =
    if discriminant a.kind == discriminant TokenKind.struct
    then elim (identifier_of b.kind) [ none ↦ [] | some name ↦ name ∷ [] ]
    else []

unfoldable pub declared_struct_names : List Token → List Text
declared_struct_names [] = []
declared_struct_names (a ∷ []) = []
declared_struct_names (a ∷ b ∷ rest) = struct_name a b ++ declared_struct_names (b ∷ rest)

-- `Parser::new`
unfoldable pub new_parser : List Token → Parser
new_parser tokens = record {
  tokens = tokens;
  cursor = 0;
  nesting = 0;
  struct_names = declared_struct_names tokens;
  value_scopes = [];
}

-- The brace depth behind a token, in `import_headers`.
unfoldable pub brace_depth : TokenKind → ℕ → ℕ
brace_depth TokenKind.left_brace depth = depth + 1
brace_depth TokenKind.right_brace depth = depth - 1
brace_depth _ depth = depth

-- `import_headers`: the imports outside of braces.
unfoldable pub header_loop : ℕ → ℕ → List Import → M (List Import)
header_loop zero depth imports s = exhausted
header_loop (suc fuel) depth imports s =
    (at TokenKind.eof >>= λ ended.
    if ended
    then return imports
    else (at TokenKind.import_word >>= λ import_here.
        if depth == 0 && import_here
        then (parse_import >>= λ i. header_loop fuel depth (imports ++ i ∷ []))
        else (advance >>= λ t. header_loop fuel (brace_depth t.kind depth) imports)))
      s

unfoldable pub import_headers : List Token → Outcome (List Import)
import_headers tokens =
    and_then (with_fuel (λ fuel. header_loop fuel 0 []) (new_parser tokens))
      λ (imports, s). ok imports

-- The words that an imported file may not begin a declaration with.
unfoldable pub is_root_word : TokenKind → Bool
is_root_word TokenKind.game = true
is_root_word TokenKind.start = true
is_root_word TokenKind.update = true
is_root_word TokenKind.draw = true
is_root_word _ = false

-- One declaration of the loop in `Parser::run`, added to the program so far.
unfoldable pub add_import : Program → M Program
add_import p = do parse_import; return p

unfoldable pub add_struct : Program → M Program
add_struct p = do x ← parse_struct; return (record p { structs = p.structs ++ x ∷ [] })

unfoldable pub add_sound : Program → M Program
add_sound p = do x ← parse_sound; return (record p { sounds = p.sounds ++ x ∷ [] })

unfoldable pub add_constant : Program → M Program
add_constant p = do x ← parse_constant; return (record p { constants = p.constants ++ x ∷ [] })

unfoldable pub add_global : Program → M Program
add_global p = do x ← parse_global; return (record p { globals = p.globals ++ x ∷ [] })

unfoldable pub add_start : Program → M Program
add_start p = do x ← parse_start; return (record p { functions = p.functions ++ x ∷ [] })

unfoldable pub add_update : Program → M Program
add_update p = do x ← parse_update; return (record p { functions = p.functions ++ x ∷ [] })

unfoldable pub add_draw : Program → M Program
add_draw p = do x ← parse_draw; return (record p { functions = p.functions ++ x ∷ [] })

unfoldable pub add_function : Program → M Program
add_function p = do
  x ← parse_named_function
  return (record p { functions = p.functions ++ x ∷ [] })

-- `else if test { … }`
unfoldable pub when : M Bool → M Program → M Program → M Program
when test parse otherwise = do here ← test; if here then parse else otherwise

unfoldable pub parse_declaration : Program → M Program
parse_declaration p = when (at TokenKind.import_word) (add_import p) (
    when (at TokenKind.struct) (add_struct p) (
      when at_sound_declaration (add_sound p) (
        when (at TokenKind.const) (add_constant p) (
          when (at TokenKind.let_word) (add_global p) (
            when (at TokenKind.start) (add_start p) (
              when (at TokenKind.update) (add_update p) (
                when (at TokenKind.draw) (add_draw p) (
                  when (at TokenKind.fn) (add_function p) (
                    error_here (
                      text
                        "expected a top-level `struct`, `sound`, `const`, `let`, `fn`, `start`, `update`, or `draw` declaration"))))))))))

unfoldable pub resolution_message : Bool → Text
resolution_message true =
    text "resolution may be declared only once, immediately after the game title"
resolution_message false =
    text "imported files cannot declare resolution; set it in the game header"

-- The two refusals in front of a declaration, and the declaration.
unfoldable pub root_check : Bool → Program → M Program
root_check root p = do
  t ← current
  if not root && is_root_word t.kind
      then error_here (text "imported files cannot declare `game`, `start`, `update`, or `draw`")
      else parse_declaration p

unfoldable pub declaration : Bool → Program → M Program
declaration root p = do
  second ← at_resolution
  if second then error_here (resolution_message root) else root_check root p

unfoldable pub declaration_loop : Bool → ℕ → Program → M Program
declaration_loop root zero p s = exhausted
declaration_loop root (suc fuel) p s =
    (at TokenKind.eof >>= λ ended.
    if ended then return p else (declaration root p >>= λ p'. declaration_loop root fuel p'))
      s

abbrev pub empty_program : Text → Span → Resolution → Program
empty_program title span resolution = record {
  resolution = resolution;
  title = title;
  title_span = span;
  structs = [];
  sounds = [];
  constants = [];
  globals = [];
  functions = [];
}

-- The header of `Parser::run`: the game's title and resolution, in the root file only.
unfoldable pub root_header : M Program
root_header = do
  expect TokenKind.game (text "expected `game` at the start of the file")
  (title, span) ← string_token (text "expected a quoted game title after `game`")
  sized ← at_resolution
  resolution ← if sized then parse_resolution else return default_resolution
  take TokenKind.semicolon
  return (empty_program title span resolution)

unfoldable pub header : Bool → M Program
header true = root_header
header false = do t ← current; return (empty_program [] t.span default_resolution)

-- `Parser::run`
unfoldable pub run : Bool → M Program
run root = do p ← header root; with_fuel (λ fuel. declaration_loop root fuel p)

-- `parse_file`
unfoldable pub parse_file : List Token → Bool → List Text → Outcome Program
parse_file tokens root imported_structs =
    let s = new_parser tokens in
    and_then (run root (record s { struct_names = s.struct_names ++ imported_structs }))
      λ (p, s'). ok p

-- `parse`
unfoldable pub without_imports : List Import → List Token → Outcome Program
without_imports [] tokens = parse_file tokens true []
without_imports (i ∷ imports) tokens =
    fail (new_diagnostic (text "imports require a file path; use file-based analysis") i.span)

unfoldable pub parse : List Token → Outcome Program
parse tokens = and_then (import_headers tokens) λ imports. without_imports imports tokens
