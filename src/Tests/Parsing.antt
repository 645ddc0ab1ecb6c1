-- ===== src/Tests/Parsing.antt =====
-- Runs of src/parser.rs on a few tokens.
use speck.Base.{ℕ, Text, text, List, [], ◌∷◌, Option, none, some, ◌≡◌, refl}
use speck.Base.Int.{pos}
use speck.Diagnostic.{new_span}
use speck.Lexer.Reading.{token_at}
use speck.Lexer.Token.{Token, TokenKind}
use speck.Outcome.{Outcome, ok, fail, panic, exhausted}
use speck.Parser.File.{parse}
use speck.Syntax.Expr.{Expr, expr, ExprKind}
use speck.Syntax.Stmt.{Program, Global}
use speck.Syntax.{BinaryOp}

-- `game "G" let x: i32 = 1 + 2 * 3`
abbrev sum_tokens : List Token
sum_tokens =
    token_at TokenKind.game 0 4
    ∷ token_at (TokenKind.string (text "G")) 5 8
    ∷ token_at TokenKind.let_word 9 12
    ∷ token_at (TokenKind.identifier (text "x")) 13 14
    ∷ token_at TokenKind.colon 14 15
    ∷ token_at TokenKind.i32 16 19
    ∷ token_at TokenKind.equal 20 21
    ∷ token_at (TokenKind.integer (pos 1)) 22 23
    ∷ token_at TokenKind.plus 24 25
    ∷ token_at (TokenKind.integer (pos 2)) 26 27
    ∷ token_at TokenKind.star 28 29
    ∷ token_at (TokenKind.integer (pos 3)) 30 31
    ∷ token_at TokenKind.eof 31 31
    ∷ []

abbrev first_init : List Global → Option Expr
first_init [] = none
first_init (g ∷ gs) = some g.init

abbrev init_of : Outcome Program → Option Expr
init_of (ok p) = first_init p.globals
init_of (fail d) = none
init_of panic = none
init_of exhausted = none

-- Multiplication binds more tightly than addition.
product_in_sum :
    init_of (parse sum_tokens)
    ≡ some (
        expr
          (ExprKind.binary (expr (ExprKind.i32 (pos 1)) (new_span 22 23)) BinaryOp.add (
            expr
              (ExprKind.binary
                (expr (ExprKind.i32 (pos 2)) (new_span 26 27))
                BinaryOp.multiply
                (expr (ExprKind.i32 (pos 3)) (new_span 30 31)))
              (new_span 26 31)))
          (new_span 22 31))
unfolding speck.Parser.State.let_else speck.Parser.State.discriminant speck.Parser.State.current
    speck.Parser.State.at speck.Parser.State.step_over speck.Parser.State.advance
    speck.Parser.State.take speck.Parser.State.error_here speck.Parser.State.expect
    speck.Parser.State.identifier_of speck.Parser.State.string_of speck.Parser.State.integer_of
    speck.Parser.State.identifier speck.Parser.State.string_token speck.Parser.State.integer_token
    speck.Parser.State.optional_semicolon speck.Parser.State.leave speck.Parser.State.nested
    speck.Parser.State.merged speck.Parser.State.push_scope speck.Parser.State.pop_scope
    speck.Parser.State.insert_binding speck.Parser.State.bind_value speck.Parser.Types.qualified_end
    speck.Parser.Types.qualified_rest speck.Parser.Types.qualified_name speck.Parser.Types.negated
    speck.Parser.Types.constant_length speck.Parser.Types.length_of
    speck.Parser.Types.negative_length speck.Parser.Types.array_length
    speck.Parser.Types.type_of_token speck.Parser.Types.value_type
    speck.Parser.Types.parse_value_type speck.Parser.Types.parse_return_type
    speck.Parser.Expression.checked speck.Parser.Expression.binary speck.Parser.Expression.operator
    speck.Parser.Expression.or_operator speck.Parser.Expression.and_operator
    speck.Parser.Expression.equality_operator speck.Parser.Expression.comparison_operator
    speck.Parser.Expression.term_operator speck.Parser.Expression.factor_operator
    speck.Parser.Expression.binary_step speck.Parser.Expression.binary_loop
    speck.Parser.Expression.level speck.Parser.Expression.factor speck.Parser.Expression.term
    speck.Parser.Expression.comparison speck.Parser.Expression.equality
    speck.Parser.Expression.logical_and speck.Parser.Expression.logical_or
    speck.Parser.Expression.argument_loop speck.Parser.Expression.arguments
    speck.Parser.Expression.element_loop speck.Parser.Expression.array_literal
    speck.Parser.Expression.conversion speck.Parser.Expression.at_end
    speck.Parser.Expression.initializer_loop speck.Parser.Expression.struct_literal
    speck.Parser.Expression.is_value_binding speck.Parser.Expression.is_identifier
    speck.Parser.Expression.is_colon speck.Parser.Expression.looks_like_struct_literal
    speck.Parser.Expression.call_or_variable speck.Parser.Expression.named_expression
    speck.Parser.Expression.parenthesized speck.Parser.Expression.primary_of
    speck.Parser.Expression.primary speck.Parser.Expression.index_of
    speck.Parser.Expression.field_of speck.Parser.Expression.postfix_loop
    speck.Parser.Expression.postfix speck.Parser.Expression.unary_operator
    speck.Parser.Expression.unary_of speck.Parser.Expression.unary speck.Parser.Expression.entry_of
    speck.Parser.Expression.parse_entry speck.Parser.Expression.expression
    speck.Parser.Statement.let_statement speck.Parser.Statement.assign_op
    speck.Parser.Statement.at_assignment_operator speck.Parser.Statement.assignment_statement
    speck.Parser.Statement.return_value speck.Parser.Statement.return_statement
    speck.Parser.Statement.expression_statement speck.Parser.Statement.with_bindings
    speck.Parser.Statement.else_branch speck.Parser.Statement.if_statement
    speck.Parser.Statement.while_statement speck.Parser.Statement.for_statement
    speck.Parser.Statement.when_at speck.Parser.Statement.statement
    speck.Parser.Statement.statement_loop speck.Parser.Statement.block_contents
    speck.Parser.Statement.nested_contents speck.Parser.Statement.parse_block
    speck.Parser.Declaration.field_loop speck.Parser.Declaration.parse_struct
    speck.Parser.Declaration.parse_sound speck.Parser.Declaration.parse_constant
    speck.Parser.Declaration.parse_global speck.Parser.Declaration.parse_callback
    speck.Parser.Declaration.parse_start speck.Parser.Declaration.parse_draw
    speck.Parser.Declaration.parse_update speck.Parser.Declaration.param_loop
    speck.Parser.Declaration.parse_params speck.Parser.Declaration.parse_named_function
    speck.Parser.Declaration.is_name speck.Parser.Declaration.at_name
    speck.Parser.Declaration.at_sound_declaration speck.Parser.Declaration.at_resolution
    speck.Parser.Declaration.resolution_dimension speck.Parser.Declaration.checked_resolution
    speck.Parser.Declaration.parse_resolution speck.Parser.File.parse_import
    speck.Parser.File.struct_name speck.Parser.File.declared_struct_names
    speck.Parser.File.new_parser speck.Parser.File.brace_depth speck.Parser.File.header_loop
    speck.Parser.File.import_headers speck.Parser.File.is_root_word speck.Parser.File.add_import
    speck.Parser.File.add_struct speck.Parser.File.add_sound speck.Parser.File.add_constant
    speck.Parser.File.add_global speck.Parser.File.add_start speck.Parser.File.add_update
    speck.Parser.File.add_draw speck.Parser.File.add_function speck.Parser.File.when
    speck.Parser.File.parse_declaration speck.Parser.File.resolution_message
    speck.Parser.File.root_check speck.Parser.File.declaration speck.Parser.File.declaration_loop
    speck.Parser.File.root_header speck.Parser.File.header speck.Parser.File.run
    speck.Parser.File.parse_file speck.Parser.File.without_imports speck.Parser.File.parse
    speck.Parser.Limits.exceeded speck.Parser.Limits.extend speck.Parser.Limits.extend_fields
    speck.Parser.Limits.push_children speck.Parser.Limits.check_pending
    speck.Parser.Limits.check_expression speck.Merge.merge speck.Resolution.new_resolution
    speck.Parser.Limits.size speck.Base.text speck.Base.same_text speck.Base.contains
product_in_sum = refl
