-- ===== src/Sema/Constants/Messages.antt =====
-- The messages of src/sema/constants.rs and of `expand` in src/sema/constants/evaluation.rs.
use speck.Base.{ℕ, Text, text, ◌++◌}
use speck.Base.Decimal.{show_ℕ}
use speck.Diagnostic.{Span, Diagnostic, new_diagnostic}
use speck.Syntax.{ValueType}
use speck.Syntax.Names.{type_name}

unfoldable pub missing_initializer : Text → Text → Span → Diagnostic
missing_initializer field name span =
    new_diagnostic
      (text "missing initializer for field `" ++ field ++ text "` of `" ++ name ++ text "`") span

unfoldable pub array_length_mismatch : ℕ → ℕ → Span → Diagnostic
array_length_mismatch expected found span =
    new_diagnostic
      (text "expected array length "
        ++ show_ℕ expected
        ++ text ", found "
        ++ show_ℕ found
        ++ text " elements")
      span

unfoldable pub struct_mismatch : Text → Text → Span → Diagnostic
struct_mismatch expected found span =
    new_diagnostic
      (text "expected struct `"
        ++ expected
        ++ text "`, found struct literal `"
        ++ found
        ++ text "`")
      span

unfoldable pub unknown_struct : Text → Span → Diagnostic
unknown_struct name span = new_diagnostic (text "unknown struct type `" ++ name ++ text "`") span

unfoldable pub no_field : Text → Text → Span → Diagnostic
no_field struct field span =
    new_diagnostic (text "type `" ++ struct ++ text "` has no field named `" ++ field ++ text "`")
      span

unfoldable pub cannot_call : Text → Span → Diagnostic
cannot_call name span =
    new_diagnostic (text "constant expressions cannot call function `" ++ name ++ text "`") span

unfoldable pub conversion_count : ValueType → ℕ → Span → Diagnostic
conversion_count target found span =
    new_diagnostic
      (text "conversion to `"
        ++ type_name target
        ++ text "` expects 1 argument, but received "
        ++ show_ℕ found)
      span
