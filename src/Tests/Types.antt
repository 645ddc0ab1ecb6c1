-- ===== src/Tests/Types.antt =====
-- Runs of src/sema/type_resolution.rs on a program with one global array.
use speck.Base.{ℕ, Text, [], ◌∷◌, none, ◌≡◌, refl}
use speck.Base.Int.{ℤ, pos}
use speck.Diagnostic.{Span, Diagnostic, new_span}
use speck.Resolution.{default_resolution}
use speck.Result.{Result, ok}
use speck.Sema.CachedType.{asked, cached, resolve_cached_type, resolve_cached_type-agrees}
use speck.Sema.TypeResolution.{Resolving, resolve_program_types, resolve_value_type}
use speck.Sema.TypeResolution.Sized.{
  OpenLength, SizedLength, ProgramLengths, resolve_program_types-Sized,
}
use speck.Syntax.Expr.{Expr, expr, ExprKind}
use speck.Syntax.Stmt.{Program, Global}
use speck.Syntax.{ArrayLength, ValueType}

abbrev here : Span
here = new_span 0 1

-- `let g: [i32; N] = []` in a game.
abbrev array_global : Global
array_global = record {
  name = b'g' ∷ [];
  ty = ValueType.array ValueType.i32 (ArrayLength.constant (b'N' ∷ []) here);
  init = expr (ExprKind.array_literal speck.Syntax.Expr.nil) here;
  value = none;
  span = here;
}

abbrev array_program : Program
array_program = record {
  resolution = default_resolution;
  title = [];
  title_span = here;
  structs = [];
  sounds = [];
  constants = [];
  globals = array_global ∷ [];
  functions = [];
}

-- Each length constant is 3.
abbrev three : ℕ → Text → Span → Result Diagnostic ℤ × ℕ
three s name span = (ok (pos 3), s)

abbrev start : Resolving ℕ
start = record { evaluator = 0; diagnostics = [] }

array_program-Open : ProgramLengths OpenLength array_program
unfolding speck.Sema.TypeResolution.Sized.Lengths OpenLength
array_program-Open = record {
  structs = tt;
  constants = tt;
  globals = ((tt, tt), tt);
  functions = tt;
}

resolve_program_types-Sized_example :
    ProgramLengths SizedLength (resolve_program_types three array_program start).0
resolve_program_types-Sized_example =
    resolve_program_types-Sized three array_program start array_program-Open

abbrev three_of : Text → Span → Result Diagnostic ℤ
three_of name span = ok (pos 3)

abbrev named_array : ValueType
named_array = ValueType.array ValueType.i32 (ArrayLength.constant (b'N' ∷ []) here)

abbrev sized_array : ValueType
sized_array = ValueType.array ValueType.i32 (ArrayLength.resolved 3)

named_array-cached : resolve_cached_type (cached three_of) named_array ≡ ok sized_array
unfolding resolve_cached_type
named_array-cached = refl

resolve_cached_type-agrees_example :
    resolve_value_type (asked three_of) named_array start ≡ (sized_array, start)
resolve_cached_type-agrees_example =
    resolve_cached_type-agrees three_of named_array start named_array-cached
