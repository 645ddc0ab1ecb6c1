-- ===== src/Source/Lines.antt =====
-- The lines of a source, from the starts that `SourceMap::add` of src/source.rs collects and by a
-- search from the back.
use speck.Base.{
  ℕ, zero, suc, ◌+◌, ◌≤◌, ◌==◌, true, false, [], ◌∷◌, Option, none, some, Text, ◌≡◌, refl, ap, ◌∙◌,
  arith, get_elem?, take, if◌then◌else◌, Bool-cases, ◌⊎◌, inl, inr,
}
use speck.Source.{newline, line_starts_from, partition_point, rfind_newline, count_newlines, behind}

-- The start of the line at the end of a text that begins at `i`, in a line that starts at `start`.
unfoldable pub last_start : ℕ → ℕ → Text → ℕ
last_start start i [] = start
last_start start i (b ∷ bs) =
    let here = last_start (i + 1) (i + 1) bs in
    let before = last_start start (i + 1) bs in if b == newline then here else before

starts_behind : (i at : ℕ) (bs : Text) → at ≤ i → partition_point at (line_starts_from i bs) ≡ 0
unfolding partition_point line_starts_from
starts_behind i at [] h = refl
starts_behind i at (b ∷ bs) h = elim (Bool-cases (b == newline)) [
  | inl e ↦ rw e (ground arith)
  | inr e ↦ rw e (starts_behind (i + 1) at bs (omega arith))
]

-- As many line starts are at or before a place as there are newlines before it.
pub partition_point-lines :
    (i n : ℕ) (bs : Text)
    → partition_point (i + n) (line_starts_from i bs) ≡ count_newlines (take n bs)
unfolding partition_point line_starts_from count_newlines
partition_point-lines i zero bs = starts_behind i (i + 0) bs (omega arith)
partition_point-lines i (suc n) [] = refl
partition_point-lines i (suc n) (b ∷ bs) =
    let e : i + suc n ≡ i + 1 + n = omega arith in
    let rest =
      ap (λ at. partition_point at (line_starts_from (i + 1) bs)) e
      ∙ partition_point-lines (i + 1) n bs in
    elim (Bool-cases (b == newline)) [ inl h ↦ rw h (ground (arith, rest)) | inr h ↦ rw h rest ]

-- The last of those starts is where the place's line starts.
pub get_elem?-lines :
    (start i n : ℕ) (bs : Text)
    → get_elem? (start ∷ line_starts_from i bs) (count_newlines (take n bs))
      ≡ some (last_start start i (take n bs))
unfolding line_starts_from count_newlines last_start
get_elem?-lines start i zero bs = refl
get_elem?-lines start i (suc n) [] = refl
get_elem?-lines start i (suc n) (b ∷ bs) = elim (Bool-cases (b == newline)) [
  | inl h ↦ rw h (get_elem?-lines (i + 1) (i + 1) n bs)
  | inr h ↦ rw h (get_elem?-lines start (i + 1) n bs)
]

abbrev found_start : ℕ → ℕ → Option ℕ → ℕ
found_start start i none = start
found_start start i (some j) = i + j + 1

-- The line's start is behind the last newline.
pub last_start-rfind :
    (start i : ℕ) (bs : Text) → last_start start i bs ≡ found_start start i (rfind_newline bs)
unfolding last_start rfind_newline
last_start-rfind start i [] = refl
last_start-rfind start i (b ∷ bs) =
    go (rfind_newline bs) refl (Bool-cases (b == newline)) (last_start-rfind (i + 1) (i + 1) bs)
      (last_start-rfind start (i + 1) bs)
  where
    go :
        (r : Option ℕ)
        → rfind_newline bs ≡ r
        → ((b == newline) ≡ true) ⊎ ((b == newline) ≡ false)
        → last_start (i + 1) (i + 1) bs ≡ found_start (i + 1) (i + 1) (rfind_newline bs)
        → last_start start (i + 1) bs ≡ found_start start (i + 1) (rfind_newline bs)
        → last_start start i (b ∷ bs) ≡ found_start start i (rfind_newline (b ∷ bs))
    go none e (inl h) here before =
        rw (e, h) (here ∙ ap (found_start (i + 1) (i + 1)) e ∙ omega arith)
    go (some j) e (inl h) here before =
        rw (e, h) (here ∙ ap (found_start (i + 1) (i + 1)) e ∙ omega arith)
    go none e (inr h) here before = rw (e, h) (before ∙ ap (found_start start (i + 1)) e)
    go (some j) e (inr h) here before =
        rw (e, h) (before ∙ ap (found_start start (i + 1)) e ∙ omega arith)

pub last_start-behind : (bs : Text) → last_start 0 0 bs ≡ behind (rfind_newline bs)
unfolding behind
last_start-behind bs = last_start-rfind 0 0 bs ∙ go (rfind_newline bs)
  where
    go : (r : Option ℕ) → found_start 0 0 r ≡ behind r
    go none = refl
    go (some j) = omega arith
