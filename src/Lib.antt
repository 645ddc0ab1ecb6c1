-- ===== src/Lib.antt =====
-- The front end of the Speck compiler, from the bytes of a source file to its syntax tree, and the
-- evaluation of constants.
--
-- The program. `analyze` (src/checked.rs) and the module loader (src/modules.rs) read a source with
-- `lexer::lex` or `lexer::lex_in`, read its import headers with `parser::import_headers`, and parse
-- its tokens with `parser::parse` or `parser::parse_file`; semantic analysis and code generation
-- work on the tree. The lexer collects all its reports and returns either tokens or reports; the
-- parser stops at its first one. Semantic analysis (src/sema.rs) first resolves the array lengths of
-- the declared types, then evaluates the constants: an initializer that needs a constant without a
-- value is suspended, and the scheduler of src/sema/constants/dependencies.rs evaluates that first.
--
-- The files.
--   Base: bytes and texts as lists of numbers, Boolean tests, lists measured by native numbers,
--     integers, decimal digits.
--   Diagnostic, Merge, Resolution: src/diagnostic.rs, `SourceId` of src/source.rs,
--     src/resolution.rs. A file's identity is its index; the assertion of `Span::merge` is the
--     outcome `panic`.
--   Audio: `validate` of src/audio_assets.rs; Spec describes WAV files as sequences of chunks,
--     Chunks proves that the loop reads them so, Sound what `validate` accepts, Complete that it
--     accepts all of them.
--   Source: the location of an offset in src/source.rs and in `Diagnostic::render`; Lines has the
--     starts of lines, Position compares the two, Total shows that neither panics on a `str`.
--   Syntax: src/ast.rs. A vector of expressions, of field initializers or of statements is a type
--     of the mutual block that it belongs to.
--   Lexer: src/lexer.rs. Scan has the state and the methods, Run the loop and its match, Number the
--     parsers of numbers; Spelling and Reading describe independently how a source reads as tokens
--     and what is reported; Literals, Spans, Sound and Total prove that the loop reads it so, Order
--     what follows for the spans.
--   Parser: src/parser.rs, src/parser/expression.rs and src/parser/limits.rs. State has the
--     `Parser` struct and its primitives, and Types, Expression, Statement, Declaration and File
--     the methods; Limits has the work list of the nesting check. Safe is the invariant of all
--     parsers, proved function by function in its children, and Total draws it together for the
--     entry points.
--   FrontEnd: the lexer and the parser together.
--   Builtins: src/builtins.rs, with the generated table of keys as a parameter.
--   F32: the `f32` arithmetic of constant expressions on bit patterns; Finite shows that negation
--     and the conversion of integers keep to finite values.
--   Sema.Constants: src/sema/constants.rs and src/sema/constants/. Values, Depth and Messages have
--     the operations on evaluated values, the depth check and the texts; Tasks and Evaluation the
--     machine of tasks that `Evaluation::resume` runs; Cache, Schedule and Evaluator the cached
--     values, the scheduler of declarations and the entry points. Reference evaluates by recursion
--     on the expression; Steps and Correct compare runs of the machine with it, Weight bounds their
--     rounds, Rounds, Resume, Suspend and Determined draw the conclusions for `resume`. Tables,
--     Consistent, Scheduled, Frames and Sound follow the cache through the scheduler; Stacks,
--     Unvisited and Total show that it ends. Bounded and Range follow the sizes of values and the
--     finiteness of floats; Arithmetic describes integer expressions by exact arithmetic, which
--     Operators and Returns compare with the evaluation; Predefined compares the test of a
--     predefined name with the first cache.
--   Sema.TypeResolution: src/sema/type_resolution.rs from `resolve_program_types` on, with the
--     evaluator of length constants as a parameter; Sized says what it leaves of the lengths.
--   Sema.CachedType: the helpers of the same file that read the lengths of a type from the cache.
--
-- How the code is rendered. A parser is a function from the state to an `Outcome`: `Ok` with the new
-- state, `Err` with a diagnostic, a panic (an index out of range, a failed `expect` or `assert!`, an
-- overflowing negation), or a loop of the model that ran out of rounds. The parser's recursion
-- through `nested` is open: an expression or a block parser takes the parser of what is nested in it.
-- `discriminant` numbers the kinds of tokens as `Parser::at` compares them. An `f32` is the pattern
-- of its bits, from the nearest value with ties to even. A character of the source is a lead byte
-- with the continuation bytes behind it. A set of names is a list of them; the innermost scope
-- comes first.
--
-- Fuel. The lexer's loop takes one round for each byte of the source, a loop of the parser one for
-- each token, the nesting check one for each subexpression, the WAV reader one for each byte, and
-- nested parsers 81 levels, one more than `MAX_NESTING`, the depth check of values one for each
-- value; each is proved to be enough where the entry points are proved total. The machine that
-- evaluates an expression takes a round for each unit of the expression's weight (Weight), in
-- which a struct literal counts an initializer for each declared field. The scheduler's loop takes
-- at most two rounds for each declaration and two more (Total).
--
-- Not modelled: the list of files in the source map and the rendered text of diagnostics, the
-- module loader and the resolution of names between modules, the reading of asset files, the
-- evaluation of length constants, type checking, code generation, the toolchain, the command line,
-- the development server, the C runtime and the editor files. Memory is not modelled: a vector
-- grows without bound.
pub mod Base
pub mod Diagnostic
pub mod Outcome
pub mod Merge
pub mod Resolution
pub mod Result
pub mod F32
pub mod Builtins
pub mod Sema
pub mod Audio
pub mod Source
pub mod Syntax
pub mod Lexer
pub mod Parser
pub mod FrontEnd
mod Tests
