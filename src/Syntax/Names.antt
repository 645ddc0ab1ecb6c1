-- ===== src/Syntax/Names.antt =====
-- How src/ast.rs writes types in messages, and its derived equality of types.
use speck.Base.{
  Text, text, ◌++◌, ◌≡◌, ◌↔◌, Bool, true, false, ◌&&◌, ◌==◌, same_text, same_text_iff, arith,
}
use speck.Base.Decimal.{show_ℕ, show_ℤ}
use speck.Base.Int.{ℤ, pos, negsuc}
use speck.Diagnostic.{Span}
use speck.Syntax.{
  ArrayLength, literal, constant, resolved, invalid, ValueType, i32, f32, bool, struct, array,
  ReturnType, value, void,
}

-- `ArrayLength::display`
unfoldable pub display : ArrayLength → Text
display (literal n span) = show_ℤ n
display (constant name span) = name
display (resolved n) = show_ℕ n
display invalid = text "<invalid>"

-- `ValueType::name`
unfoldable pub type_name : ValueType → Text
unfolding display
type_name i32 = text "i32"
type_name f32 = text "f32"
type_name bool = text "bool"
type_name (struct name) = name
type_name (array element length) =
    text "[" ++ type_name element ++ text "; " ++ display length ++ text "]"

-- `ReturnType::name`
unfoldable pub return_name : ReturnType → Text
unfolding type_name
return_name (value ty) = type_name ty
return_name void = text "void"

same_int : ℤ → ℤ → Bool
same_int (pos m) (pos n) = m == n
same_int (negsuc m) (negsuc n) = m == n
same_int _ _ = false

same_span : Span → Span → Bool
same_span a b = a.source == b.source && a.start == b.start && a.end == b.end

-- `==` on lengths and on types
unfoldable pub same_length : ArrayLength → ArrayLength → Bool
unfolding same_int same_span
same_length (literal m s) (literal n t) = same_int m n && same_span s t
same_length (constant a s) (constant b t) = same_text a b && same_span s t
same_length (resolved m) (resolved n) = m == n
same_length invalid invalid = true
same_length _ _ = false

unfoldable pub same_type : ValueType → ValueType → Bool
unfolding same_length
same_type i32 i32 = true
same_type f32 f32 = true
same_type bool bool = true
same_type (struct a) (struct b) = same_text a b
same_type (array a m) (array b n) = same_type a b && same_length m n
same_type _ _ = false

same_int_iff : (a b : ℤ) → (same_int a b ≡ true) ↔ (a ≡ b)
unfolding same_int
same_int_iff (pos m) (pos n) = ground arith
same_int_iff (negsuc m) (negsuc n) = ground arith
same_int_iff _ _ = ground arith

same_span_iff : (a b : Span) → (same_span a b ≡ true) ↔ (a ≡ b)
unfolding same_span
same_span_iff a b =
    let record { source = x; start = y; end = z } = a in
    let record { source = u; start = v; end = w } = b in ground arith

same_length_iff : (a b : ArrayLength) → (same_length a b ≡ true) ↔ (a ≡ b)
unfolding same_length
same_length_iff (literal m s) (literal n t) = ground (arith, same_int_iff m n, same_span_iff s t)
same_length_iff (constant a s) (constant b t) = ground (arith, same_text_iff a b, same_span_iff s t)
same_length_iff _ _ = ground arith

-- The derived equality of types decides their equality.
pub same_type_iff : (a b : ValueType) → (same_type a b ≡ true) ↔ (a ≡ b)
unfolding same_type
same_type_iff (struct a) (struct b) = ground (arith, same_text_iff a b)
same_type_iff (array a m) (array b n) = ground (arith, same_type_iff a b, same_length_iff m n)
same_type_iff _ _ = ground arith
