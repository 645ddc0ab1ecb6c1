-- ===== src/Source.antt =====
-- `SourceFile` of src/source.rs, and the place that `Diagnostic::render` of src/diagnostic.rs prints.
pub mod Lines
pub mod Position
pub mod Total
use speck.Base.{
  ℕ, zero, suc, ◌+◌, ◌-◌, ◌==◌, Bool, true, false, ◌&&◌, ◌||◌, not, List, [], ◌∷◌, Option, none,
  some, Text, leb, if◌then◌else◌, length, get_elem?, slice,
}
use speck.Lexer.Scan.{is_continuation}
use speck.Outcome.{Outcome, ok, panic, and_then}

-- `str::is_char_boundary`
unfoldable pub is_char_boundary : Text → ℕ → Bool
is_char_boundary source i = elim (get_elem? source i) [
  | none ↦ i == length source
  | some b ↦ i == 0 || not (is_continuation b)
]

-- `&source[start..end]`
unfoldable pub str_slice : Text → ℕ → ℕ → Outcome Text
str_slice source start end =
    if leb start end && is_char_boundary source start && is_char_boundary source end
    then ok (slice source start end)
    else panic

-- `source.chars().count()`: the bytes that begin a character.
unfoldable pub count_chars : Text → ℕ
count_chars [] = 0
count_chars (b ∷ bs) = if is_continuation b then count_chars bs else suc (count_chars bs)

abbrev pub newline : ℕ
newline = b'\n'

-- `while !source.is_char_boundary(offset) { offset -= 1; }`
unfoldable pub floor_boundary : Text → ℕ → ℕ
floor_boundary source zero = zero
floor_boundary source (suc n) =
    let rest = floor_boundary source n in if is_char_boundary source (suc n) then suc n else rest

-- `offset.min(source.len())`, moved to a boundary.
unfoldable pub clamp : Text → ℕ → ℕ
clamp source offset =
    floor_boundary source (if leb offset (length source) then offset else length source)

-- The starts of the lines behind the first one, as `SourceMap::add` collects them; and all of them.
unfoldable pub line_starts_from : ℕ → Text → List ℕ
line_starts_from i [] = []
line_starts_from i (b ∷ bs) =
    let rest = line_starts_from (i + 1) bs in if b == newline then (i + 1) ∷ rest else rest

unfoldable pub line_starts : Text → List ℕ
line_starts source = 0 ∷ line_starts_from 0 source

-- `slice::partition_point` of `*start <= offset`, on a list that is sorted.
unfoldable pub partition_point : ℕ → List ℕ → ℕ
partition_point offset [] = 0
partition_point offset (start ∷ starts) =
    if leb start offset then suc (partition_point offset starts) else 0

-- A subtraction of 1, which panics at 0.
unfoldable pub minus_one : ℕ → Outcome ℕ
minus_one zero = panic
minus_one (suc n) = ok n

-- `self.line_starts[line]`
unfoldable pub start_of : List ℕ → ℕ → Outcome ℕ
start_of starts line = elim (get_elem? starts line) [ none ↦ panic | some start ↦ ok start ]

-- `SourceFile::location`
unfoldable pub location : Text → ℕ → Outcome (ℕ × ℕ)
location source offset =
    let at = clamp source offset in
    and_then (minus_one (partition_point at (line_starts source))) λ line.
      and_then (start_of (line_starts source) line)
        λ start. and_then (str_slice source start at) λ front. ok (line + 1, count_chars front + 1)

-- `source.rfind('\n')`
unfoldable pub rfind_newline : Text → Option ℕ
rfind_newline [] = none
rfind_newline (b ∷ bs) = elim (rfind_newline bs) [
  | some i ↦ some (i + 1)
  | none ↦ if b == newline then some 0 else none
]

-- `.map_or(0, |index| index + 1)`
unfoldable pub behind : Option ℕ → ℕ
behind none = 0
behind (some i) = i + 1

-- `.bytes().filter(|byte| *byte == b'\n').count()`
unfoldable pub count_newlines : Text → ℕ
count_newlines [] = 0
count_newlines (b ∷ bs) = if b == newline then suc (count_newlines bs) else count_newlines bs

-- The line number and the column of `Diagnostic::render`.
unfoldable pub rendered_location : Text → ℕ → Outcome (ℕ × ℕ)
rendered_location source offset =
    let start = clamp source offset in
    and_then (str_slice source 0 start) λ front.
      and_then (str_slice source (behind (rfind_newline front)) start)
        λ line_front. ok (count_newlines front + 1, count_chars line_front + 1)
