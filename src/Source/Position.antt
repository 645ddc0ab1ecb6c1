-- ===== src/Source/Position.antt =====
-- `SourceFile::location` of src/source.rs and `Diagnostic::render` of src/diagnostic.rs find the
-- same place, which is the one that the text in front of it gives.
use speck.Base.{
  ℕ, zero, suc, ◌+◌, ◌-◌, true, [], ◌∷◌, Text, leb, ◌≡◌, refl, sym, ap, ◌∙◌, arith, take,
  Bool-cases, inl, inr,
}
use speck.Outcome.{Outcome, ok, and_then}
use speck.Source.Lines.{last_start, partition_point-lines, get_elem?-lines, last_start-behind}
use speck.Source.{
  line_starts, line_starts_from, partition_point, minus_one, start_of, location, rfind_newline,
  behind, count_newlines, rendered_location, is_char_boundary, str_slice, count_chars,
  floor_boundary, clamp,
}

pub boundary_zero : (source : Text) → is_char_boundary source 0 ≡ true
unfolding is_char_boundary
boundary_zero [] = refl
boundary_zero (b ∷ bs) = refl

floor_boundary-lands :
    (source : Text) (n : ℕ) → is_char_boundary source (floor_boundary source n) ≡ true
unfolding floor_boundary
floor_boundary-lands source zero = boundary_zero source
floor_boundary-lands source (suc n) = elim (Bool-cases (is_char_boundary source (suc n))) [
  | inl h ↦ rw h h
  | inr h ↦ rw h (floor_boundary-lands source n)
]

pub clamp-lands :
    (source : Text) (offset : ℕ) → is_char_boundary source (clamp source offset) ≡ true
unfolding clamp
clamp-lands source offset = floor_boundary-lands source _

-- The place behind a number of bytes: its line, and its column behind the line's start.
abbrev pub place_behind : Text → ℕ → Outcome (ℕ × ℕ)
place_behind source at =
    and_then (str_slice source (last_start 0 0 (take at source)) at)
      λ front. ok (count_newlines (take at source) + 1, count_chars front + 1)

str_slice-front :
    (source : Text) (at : ℕ)
    → is_char_boundary source at ≡ true
    → str_slice source 0 at ≡ ok (take at source)
unfolding str_slice
str_slice-front source at h =
    let e : at - 0 ≡ at = omega arith in
    let low : leb 0 at ≡ true = ground arith in
    rw (boundary_zero source, h, low) (ap (λ n. ok (take n source)) e)

rendered-place_behind :
    (source : Text) (at : ℕ)
    → is_char_boundary source at ≡ true
    → and_then (str_slice source 0 at) (λ front.
      and_then
        (str_slice source (behind (rfind_newline front)) at)
        λ line_front. ok (count_newlines front + 1, count_chars line_front + 1))
      ≡ place_behind source at
rendered-place_behind source at h =
    rw (str_slice-front source at h, ← last_start-behind (take at source)) refl

partition_point-all :
    (source : Text) (at : ℕ)
    → partition_point at (line_starts source) ≡ suc (count_newlines (take at source))
unfolding line_starts partition_point
partition_point-all source at =
    let low : leb 0 at ≡ true = ground arith in
    let e : 0 + at ≡ at = omega arith in
    rw low (
      ap suc (
        ap (λ n. partition_point n (line_starts_from 0 source)) (sym e)
        ∙ partition_point-lines 0 at source))

start_of-all :
    (source : Text) (at : ℕ)
    → start_of (line_starts source) (count_newlines (take at source))
      ≡ ok (last_start 0 0 (take at source))
unfolding start_of line_starts
start_of-all source at = rw (get_elem?-lines 0 0 at source, start_of) refl

pub location-place_behind :
    (source : Text) (offset : ℕ)
    → location source offset ≡ place_behind source (clamp source offset)
unfolding location minus_one
location-place_behind source offset =
    rw (partition_point-all source (clamp source offset), start_of-all source (clamp source offset))
      refl

-- The line and the column that `SourceFile::location` computes from the line starts are those that
-- `Diagnostic::render` prints for the offset, which it finds by a search of the text in front of it.
pub location-rendered :
    (source : Text) (offset : ℕ) → location source offset ≡ rendered_location source offset
unfolding rendered_location
location-rendered source offset =
    location-place_behind source offset
    ∙ sym (rendered-place_behind source (clamp source offset) (clamp-lands source offset))
