-- ===== src/Tests.antt =====
-- Runs of the model on small sources, and the properties at concrete inputs.
mod Parsing
mod Constants
mod Types
use speck.Base.{
  ℕ, zero, suc, slice, arith, subst, Text, text, true, List, [], ◌∷◌, ◌+◌, ◌++◌, ◌≤◌, All, length,
  map, same_text, ◌≡◌, refl,
}
use speck.Base.Int.{pos}
use speck.Diagnostic.{Diagnostic, new_span}
use speck.Lexer.Number.{is_digit, decimal, parse_i64}
use speck.Lexer.Run.{
  tokens, errors, lex, lex_in, in_file, lex_loop, lex_byte, finish, guarded, lex_slash,
}
use speck.Lexer.Scan.{
  simple, push, take, span_while, line_comment, close_string, lex_string, integer_token,
  lex_fraction, lex_number, is_letter, word_kind, lex_identifier, is_continuation, unexpected,
}
use speck.Lexer.Token.{Token, TokenKind}
use speck.Lexer.Reading.{token_at}
use speck.Audio.Sound.{Returns, validate-IsWav}
use speck.Audio.Complete.{validate-accepts}
use speck.Audio.Spec.{IsWav}
use speck.Audio.{validate}
use mathlib.Core.Option.{some-injective}
use speck.Source.{
  location, rendered_location, count_newlines, count_chars, clamp, behind, rfind_newline,
}
use speck.Source.Total.{IsStr, IsFloor, location-total}
use speck.Source.Position.{location-rendered}
use speck.Outcome.{ok}
use speck.FrontEnd.{parse-lex-Within, parse_file-lex_in-Within, import_headers-lex_in-From}
use speck.Lexer.Order.{InOrder, PointsInto, lex-InOrder, lex-PointsInto}
use speck.Lexer.Total.{IsLexed, lex-IsLexed}
use speck.Parser.File.{parse, parse_file, import_headers}
use speck.Parser.Limits.Blocks.{ProgramWithin}
use speck.Parser.Limits.Height.{height, Decides, check_expression-Decides}
use speck.Parser.Limits.{max_nesting, check_expression}
use speck.Parser.Safe.File.{ImportFrom}
use speck.Parser.Total.{Succeeds}
use speck.Resolution.Limits.{IsChecked, new_resolution-IsChecked, payload_bytes-bounds}
use speck.Resolution.{new_resolution, payload_bytes, valid}
use speck.Syntax.Expr.{Expr, expr, ExprKind}
use speck.Syntax.{UnaryOp}

-- `game "G" let x: i32 = 7`
abbrev game_source : Text
game_source = text "game \"G\" let x: i32 = 7"

abbrev game_tokens : List Token
game_tokens =
    token_at TokenKind.game 0 4
    ∷ token_at (TokenKind.string (text "G")) 5 8
    ∷ token_at TokenKind.let_word 9 12
    ∷ token_at (TokenKind.identifier (text "x")) 13 14
    ∷ token_at TokenKind.colon 14 15
    ∷ token_at TokenKind.i32 16 19
    ∷ token_at TokenKind.equal 20 21
    ∷ token_at (TokenKind.integer (pos 7)) 22 23
    ∷ token_at TokenKind.eof 23 23
    ∷ []

lex-game : lex game_source ≡ tokens game_tokens
unfolding lex lex_loop lex_byte finish guarded lex_slash simple push take span_while line_comment
    close_string lex_string integer_token lex_fraction lex_number is_letter word_kind lex_identifier
    is_continuation unexpected is_digit decimal parse_i64 text same_text
lex-game = refl

-- The same source as the file 3.
abbrev game_file : List Token
game_file = map (in_file 3) game_tokens

lex_in-game : lex_in game_source 3 ≡ tokens game_file
unfolding lex_in lex lex_loop lex_byte finish guarded lex_slash simple push take span_while
    line_comment close_string lex_string integer_token lex_fraction lex_number is_letter word_kind
    lex_identifier is_continuation unexpected is_digit decimal parse_i64 text same_text
lex_in-game = refl

-- A source with an unexpected byte.
abbrev odd_source : Text
odd_source = text "x @"

abbrev odd_report : Diagnostic
odd_report = record { message = text "unexpected character `@`"; span = new_span 2 3 }

lex-odd : lex odd_source ≡ errors (odd_report ∷ [])
unfolding lex lex_loop lex_byte finish guarded lex_slash simple push take span_while line_comment
    close_string lex_string integer_token lex_fraction lex_number is_letter word_kind lex_identifier
    is_continuation unexpected is_digit decimal parse_i64 text same_text
lex-odd = refl

-- `-7`
abbrev minus_seven : Expr
minus_seven =
    expr (ExprKind.unary UnaryOp.negate (expr (ExprKind.i32 (pos 7)) (new_span 1 2))) (new_span 0 2)

parse-lex-Within_example : Succeeds ProgramWithin (parse game_tokens)
parse-lex-Within_example = parse-lex-Within game_source lex-game

parse_file-lex_in-Within_example :
    Succeeds ProgramWithin (parse_file game_file true (text "shapes::Point" ∷ []))
parse_file-lex_in-Within_example =
    parse_file-lex_in-Within game_source 3 true (text "shapes::Point" ∷ []) lex_in-game

import_headers-lex_in-From_example : Succeeds (All (ImportFrom 3)) (import_headers game_file)
import_headers-lex_in-From_example = import_headers-lex_in-From game_source 3 lex_in-game

lex-IsLexed_example : IsLexed game_source (lex game_source)
lex-IsLexed_example = lex-IsLexed game_source

check_expression-Decides_example :
    Decides (79 + height minus_seven ≤ max_nesting) (check_expression minus_seven 79)
check_expression-Decides_example = check_expression-Decides minus_seven 79

lex-InOrder_example :
    (front : List Token) × (game_tokens
      ≡ front ++ token_at TokenKind.eof (length game_source) (length game_source) ∷ [])
    × InOrder 0 front (length game_source)
lex-InOrder_example = lex-InOrder game_source lex-game

lex-PointsInto_example : All (PointsInto (length odd_source)) (odd_report ∷ [])
lex-PointsInto_example = lex-PointsInto odd_source lex-odd

new_resolution-IsChecked_example : IsChecked 320 4097 (new_resolution 320 4097)
new_resolution-IsChecked_example = new_resolution-IsChecked 320 4097

new_resolution-hd : new_resolution 1280 720 ≡ valid (record { width = 1280; height = 720 })
unfolding new_resolution
new_resolution-hd = refl

payload_bytes-bounds_example :
    (3 ≤ payload_bytes (record { width = 1280; height = 720 }))
    × (payload_bytes (record { width = 1280; height = 720 }) ≤ 50331648)
payload_bytes-bounds_example = payload_bytes-bounds 1280 720 new_resolution-hd

-- A WAV file of one sample, 0x0201.
abbrev wav_file : Text
wav_file =
    text "RIFF"
    ++ (38 ∷ 0 ∷ 0 ∷ 0 ∷ [])
    ++ text "WAVEfmt "
    ++ (16 ∷ 0 ∷ 0 ∷ 0 ∷ 1 ∷ 0 ∷ 1 ∷ 0 ∷ 0x80 ∷ 0xbb ∷ 0 ∷ 0 ∷ 0x00 ∷ 0x77 ∷ 1 ∷ 0 ∷ 2 ∷ 0 ∷ 16 ∷ 0
        ∷ [])
    ++ text "data"
    ++ (2 ∷ 0 ∷ 0 ∷ 0 ∷ 1 ∷ 2 ∷ [])

validate-wav : validate wav_file ≡ speck.Audio.ok (1 ∷ 2 ∷ [])
unfolding validate text same_text speck.Audio.not_wave speck.Audio.index_range
    speck.Audio.little_u32 speck.Audio.ok_or speck.Audio.get_range speck.Audio.wrong_size
    speck.Audio.checked_add speck.Audio.from_le_bytes speck.Audio.chunk_loop speck.Audio.read_chunk
    speck.Audio.note_chunk speck.Audio.finish speck.Audio.check_format speck.Audio.little_u16
    speck.Audio.take_samples
validate-wav = refl

validate-IsWav_example : Returns (IsWav wav_file) (validate wav_file)
validate-IsWav_example = validate-IsWav wav_file

-- `é`, a newline and `x`.
abbrev two_lines : Text
two_lines = 0xc3 ∷ 0xa9 ∷ b'\n' ∷ b'x' ∷ []

two_lines-IsStr : IsStr two_lines
unfolding is_continuation
two_lines-IsStr zero b c h lt e = absurd (omega (arith, some-injective _ _ h))
two_lines-IsStr (suc zero) b c h lt e = absurd (omega (arith, some-injective _ _ h))
two_lines-IsStr (suc (suc zero)) b c h lt e = ground (arith, some-injective _ _ e)
two_lines-IsStr (suc (suc (suc zero))) b c h lt e = absurd (cc e)
two_lines-IsStr (suc (suc (suc (suc i)))) b c h lt e = absurd (cc h)

location_in_character : location two_lines 1 ≡ ok (1, 1)
unfolding location speck.Source.minus_one speck.Source.partition_point speck.Source.line_starts
    clamp speck.Source.floor_boundary speck.Source.is_char_boundary is_continuation
    speck.Source.start_of speck.Source.line_starts_from speck.Source.str_slice count_chars
location_in_character = refl

location-rendered_example : location two_lines 4 ≡ rendered_location two_lines 4
location-rendered_example = location-rendered two_lines 4

location-total_example :
    (at : ℕ) × IsFloor two_lines 4 at
    × (location two_lines 4
        ≡ ok (
          count_newlines (speck.Base.take at two_lines) + 1,
          count_chars (slice two_lines (behind (rfind_newline (speck.Base.take at two_lines))) at)
              + 1,
        ))
location-total_example = location-total two_lines two_lines-IsStr 4

wav_file-IsWav : IsWav wav_file (1 ∷ 2 ∷ [])
wav_file-IsWav = subst (Returns (IsWav wav_file)) validate-wav (validate-IsWav wav_file)

validate-accepts_example : validate wav_file ≡ speck.Audio.ok (1 ∷ 2 ∷ [])
unfolding text
validate-accepts_example = validate-accepts wav_file (1 ∷ 2 ∷ []) (omega arith) wav_file-IsWav
