-- ===== src/Sema/CachedType.antt =====
-- The resolution of the types of length constants in src/sema/type_resolution.rs, once every length
-- that they need is cached: `require_length_type`, `length_value`, `collect_lengths`,
-- `resolve_cached_type` and `struct_name`.
use speck.Base.{Text, text, ◌++◌, Option, none, some, List, [], ◌∷◌, find, if◌then◌else◌, ◌≡◌, refl}
use speck.Base.Int.{ℤ}
use speck.Diagnostic.{Span, Diagnostic, new_diagnostic}
use speck.Result.Inversion.{and_then_ok, map_err_ok}
use speck.Result.{Result, ok, err, and_then, map_err}
use speck.Sema.Constants.Cache.{Definitions, EvaluationError, diagnostic, ConstantValues, lookup}
use speck.Sema.TypeResolution.{Resolving, sized, settle_length, resolve_length, resolve_value_type}
use speck.Syntax.{ArrayLength, literal, constant, resolved, invalid, ValueType}
use speck.Syntax.Names.{same_type}
use speck.Syntax.Value.{ConstantValue}

unfoldable pub wrong_length_type : Text → Span → Diagnostic
wrong_length_type name span =
    new_diagnostic (text "array length constant `" ++ name ++ text "` must have type `i32`") span

unfoldable pub require_length_type : Text → Span → Definitions → Result {0, 0} Diagnostic Unit
unfolding find same_type wrong_length_type
require_length_type name span definitions = elim (find name definitions) [
  | none ↦ ok tt
  | some d ↦ if same_type d.ty ValueType.i32 then ok tt else err (wrong_length_type name span)
]

unfoldable pub length_value : ConstantValue → Text → Span → Result Diagnostic ℤ
length_value (ConstantValue.i32 n) name span = ok n
length_value _ name span = err (
    new_diagnostic (text "array length constant `" ++ name ++ text "` must evaluate to `i32`") span)

-- The closure `constant` of `PreparedTypes::resume`.
unfoldable pub cached_length : Definitions → ConstantValues → Text → Span → Result EvaluationError ℤ
unfolding require_length_type length_value lookup
cached_length definitions cache name span =
    and_then (map_err diagnostic (require_length_type name span definitions))
      (λ _. and_then (lookup cache name span) (λ v. map_err diagnostic (length_value v name span)))

-- The lengths of a type behind those that were collected, the innermost first.
unfoldable pub collect_lengths : ValueType → List ArrayLength → List ArrayLength
collect_lengths (ValueType.array element length) lengths =
    collect_lengths element lengths ++ length ∷ []
collect_lengths _ lengths = lengths

-- The name of the struct that arrays nest.
unfoldable pub struct_name : ValueType → Option Text
struct_name (ValueType.array element length) = struct_name element
struct_name (ValueType.struct name) = some name
struct_name _ = none

module _ (find_length : Text → Span → Result EvaluationError ℤ) where
  unfoldable pub resolve_cached_length : ArrayLength → Result EvaluationError ArrayLength
  unfolding sized
  resolve_cached_length (literal n span) = map_err diagnostic (sized n span)
  resolve_cached_length (constant name span) =
      and_then (find_length name span) (λ n. map_err diagnostic (sized n span))
  resolve_cached_length (resolved n) = ok (resolved n)
  resolve_cached_length invalid = ok invalid

  unfoldable pub resolve_cached_type : ValueType → Result EvaluationError ValueType
  unfolding resolve_cached_length
  resolve_cached_type (ValueType.array element length) =
      and_then (resolve_cached_type element) (λ inner.
        and_then (resolve_cached_length length) (λ outer. ok (ValueType.array inner outer)))
  resolve_cached_type ty = ok ty

-- One source of answers, as the two phases ask it.
abbrev pub asked {ℓ} :
    {S : Type ℓ} → (Text → Span → Result Diagnostic ℤ) → S → Text → Span → Result Diagnostic ℤ × S
asked answer s name span = (answer name span, s)

abbrev pub cached : (Text → Span → Result Diagnostic ℤ) → Text → Span → Result EvaluationError ℤ
cached answer name span = map_err diagnostic (answer name span)

module _ {S : Type 0} (answer : Text → Span → Result Diagnostic ℤ) where
  cached_length_agrees :
      (length : ArrayLength) (s : Resolving S) {settled : ArrayLength}
      → resolve_cached_length (cached answer) length ≡ ok settled
      → resolve_length (asked answer) length s ≡ (settled, s)
  unfolding resolve_cached_length resolve_length settle_length
  cached_length_agrees (literal n span) s h =
      rw (resolve_length, map_err_ok diagnostic (sized n span) h, settle_length) refl
  cached_length_agrees (constant name span) s h =
      let found =
        and_then_ok (cached answer name span) (λ n. map_err diagnostic (sized n span)) h in
      rw
        (
          resolve_length,
          map_err_ok diagnostic (answer name span) found.1,
          map_err_ok diagnostic (sized found.0 span) found.2,
          settle_length,
        )
        refl
  cached_length_agrees (resolved n) s h = cc h
  cached_length_agrees invalid s h = cc h

  -- A type that `resolve_cached_type` resolves from cached lengths is what `resolve_value_type` makes
  -- of it from the same answers, which then reports nothing.
  pub resolve_cached_type-agrees :
      (ty : ValueType) (s : Resolving S) {settled : ValueType}
      → resolve_cached_type (cached answer) ty ≡ ok settled
      → resolve_value_type (asked answer) ty s ≡ (settled, s)
  unfolding resolve_cached_type resolve_value_type
  resolve_cached_type-agrees (ValueType.array element length) s h =
      let inner = and_then_ok (resolve_cached_type (cached answer) element) _ h in
      let outer = and_then_ok (resolve_cached_length (cached answer) length) _ inner.2 in
      rw (resolve_cached_type-agrees element s inner.1, cached_length_agrees length s outer.1)
        (cc outer.2)
  resolve_cached_type-agrees ValueType.i32 s h = cc h
  resolve_cached_type-agrees ValueType.f32 s h = cc h
  resolve_cached_type-agrees ValueType.bool s h = cc h
  resolve_cached_type-agrees (ValueType.struct name) s h = cc h
