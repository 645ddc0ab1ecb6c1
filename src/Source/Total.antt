-- ===== src/Source/Total.antt =====
-- Locations in UTF-8 text: `SourceFile::location` of src/source.rs does not panic.
use speck.Base.{
  ℕ, zero, suc, ◌+◌, ◌≤◌, ◌<◌, ◌==◌, ==_iff, true, false, [], ◌∷◌, Option, none, some, Text, leb,
  ◌≡◌, refl, sym, ap, ◌∙◌, subst, ◌||◌, arith, length, get_elem?, lt-length_of_get_elem?,
  le-length_of_get_elem?, take, slice, not, if◌then◌else◌, if_both, Option-cases, Bool-cases, inl,
  inr, ◌⊎◌,
}
use speck.Lexer.Scan.{is_continuation}
use speck.Outcome.{ok}
use speck.Source.Position.{location-place_behind, clamp-lands, boundary_zero}
use speck.Source.Lines.{last_start, last_start-behind}
use speck.Source.{
  floor_boundary, newline, location, rfind_newline, behind, count_newlines, is_char_boundary,
  str_slice, count_chars, clamp,
}

-- What a `str` keeps to: no ASCII byte is continued.
abbrev pub IsStr : Text → Type 0
IsStr source =
    (i b c : ℕ)
    → get_elem? source i ≡ some b
    → b < 0x80
    → get_elem? source (i + 1) ≡ some c
    → is_continuation c ≡ false

-- A newline in front of a place.
record IsNewline (source : Text) (at j : ℕ) : Type 0 where
  here : get_elem? source j ≡ some newline
  before : j < at

-- What a search for the last newline in front of a place finds.
abbrev IsLast : Text → ℕ → Option ℕ → Type 0
IsLast source at none = Unit
IsLast source at (some j) = IsNewline source at j

step_IsLast :
    (b : ℕ) (bs : Text) (at : ℕ) (r : Option ℕ)
    → IsLast bs at r
    → IsLast
        (b ∷ bs)
        (suc at)
        (elim r [ some i ↦ some (i + 1) | none ↦ if b == newline then some 0 else none ])
step_IsLast b bs at (some i) h =
    let e : suc i ≡ i + 1 = omega arith in
    record { here = ap (get_elem? (b ∷ bs)) (sym e) ∙ h.here; before = omega (arith, h.before) }
step_IsLast b bs at none h =
    if_both (IsLast (b ∷ bs) (suc at)) (b == newline)
      (λ e. record { here = ap some ((==_iff b newline).0 e); before = omega arith }) (λ _. tt)

rfind_newline-IsLast : (source : Text) (at : ℕ) → IsLast source at (rfind_newline (take at source))
unfolding rfind_newline
rfind_newline-IsLast source zero = tt
rfind_newline-IsLast [] (suc at) = tt
rfind_newline-IsLast (b ∷ bs) (suc at) =
    step_IsLast b bs at (rfind_newline (take at bs)) (rfind_newline-IsLast bs at)

-- A character of the source may begin at `at`, or the source ends there: the byte that stands there,
-- if any, does not continue a character (0x80 to 0xBF).
abbrev pub IsCharStart : Text → ℕ → Type 0
IsCharStart source at = (b : ℕ) → get_elem? source at ≡ some b → b < 0x80 ⊎ 0xbf < b

-- `at` is the last place within the source, and not behind the offset, where a character may begin;
-- the start of the source is always one.
pub record IsFloor (source : Text) (offset at : ℕ) : Type 0 where
  within : at ≤ length source
  reached : at ≤ offset
  starts : (at ≡ 0) ⊎ IsCharStart source at
  nearest : (j : ℕ) → at < j → j ≤ offset → j ≤ length source → ¬ IsCharStart source j

outside_continuation : (b : ℕ) → is_continuation b ≡ false → (b < 0x80) ⊎ (0xbf < b)
unfolding is_continuation
outside_continuation b h = elim (Bool-cases (leb 0x80 b)) [
  | inl low ↦ inr (ground (arith, h, low))
  | inr high ↦ inl (ground (arith, high))
]

inside_continuation : (b : ℕ) → is_continuation b ≡ true → (b < 0x80) ⊎ (0xbf < b) → ⊥
unfolding is_continuation
inside_continuation b h (inl low) = ground (arith, h, low)
inside_continuation b h (inr high) = ground (arith, h, high)

module _ (source : Text) (n : ℕ) where
  boundary-IsCharStart : is_char_boundary source (suc n) ≡ true → IsCharStart source (suc n)
  unfolding is_char_boundary
  boundary-IsCharStart h b e =
      let inside : (suc n == 0 || not (is_continuation b)) ≡ true = rw (e, is_char_boundary) at h in
      outside_continuation b (ground (arith, inside))

  not-boundary :
      suc n ≤ length source → is_char_boundary source (suc n) ≡ false → ¬ IsCharStart source (suc n)
  unfolding is_char_boundary
  not-boundary le h begins = elim (Option-cases (get_elem? source (suc n))) [
    | inl e ↦
        let at_end : suc n ≡ length source =
          omega (arith, le, le-length_of_get_elem? source (suc n) e) in
        let missed : (suc n == length source) ≡ false = rw (e, is_char_boundary) at h in
        absurd (cc (missed, (==_iff (suc n) (length source)).1 at_end))
    | inr (b, e) ↦
        let missed : (suc n == 0 || not (is_continuation b)) ≡ false =
          rw (e, is_char_boundary) at h in
        inside_continuation b (ground (arith, missed)) (begins b e)
  ]

module _ (source : Text) where
  floor_boundary-IsFloor : (n : ℕ) → n ≤ length source → IsFloor source n (floor_boundary source n)
  unfolding floor_boundary
  floor_boundary-IsFloor zero le = record {
    within = omega arith;
    reached = omega arith;
    starts = inl refl;
    nearest = λ j past reached inside. absurd (omega (arith, past, reached));
  }
  floor_boundary-IsFloor (suc n) le = elim (Bool-cases (is_char_boundary source (suc n))) [
    | inl h ↦
        rw (h, floor_boundary)
          (record {
            within = le;
            reached = omega arith;
            starts = inr (boundary-IsCharStart source n h);
            nearest = λ j past reached inside. absurd (omega (arith, past, reached));
          })
    | inr h ↦ rw (h, floor_boundary) (back h (floor_boundary-IsFloor n (omega (arith, le))))
  ]
    where
      back :
          is_char_boundary source (suc n) ≡ false
          → IsFloor source n (floor_boundary source n)
          → IsFloor source (suc n) (floor_boundary source n)
      back h f = record {
        within = f.within;
        reached = omega (arith, f.reached);
        starts = f.starts;
        nearest = λ j past reached inside. elim (Bool-cases (j == suc n)) [
          | inl e ↦
              subst (λ k. ¬ IsCharStart source k) (sym ((==_iff j (suc n)).0 e))
                (not-boundary source n le h)
          | inr e ↦ f.nearest j past (ground (arith, reached, e)) inside
        ];
      }

  clamp-IsFloor : (offset : ℕ) → IsFloor source offset (clamp source offset)
  unfolding clamp
  clamp-IsFloor offset = elim (Bool-cases (leb offset (length source))) [
    | inl h ↦ rw (h, clamp) (floor_boundary-IsFloor offset (ground (arith, h)))
    | inr h ↦
        let f = floor_boundary-IsFloor (length source) (omega arith) in
        let over : length source ≤ offset = ground (arith, h) in
        rw (h, clamp)
          (record {
            within = f.within;
            reached = omega (arith, over, f.reached);
            starts = f.starts;
            nearest = λ j past reached inside. f.nearest j past inside inside;
          })
  ]

module _ (source : Text) (valid : IsStr source) where
  -- The start of a line is at or before a place in it, on a boundary.
  behind-lands :
      (at : ℕ) (r : Option ℕ)
      → IsLast source at r
      → (behind r ≤ at) × (is_char_boundary source (behind r) ≡ true)
  unfolding behind is_char_boundary
  behind-lands at none h = (omega arith, boundary_zero source)
  behind-lands at (some j) h =
      (omega (arith, h.before), go (Option-cases (get_elem? source (j + 1))))
    where
      go :
          ((get_elem? source (j + 1) ≡ none) ⊎ ((c : ℕ) × (get_elem? source (j + 1) ≡ some c)))
          → is_char_boundary source (j + 1) ≡ true
      go (inl e) =
          let at_end : j + 1 ≡ length source = omega (
            arith,
            le-length_of_get_elem? source (j + 1) e,
            lt-length_of_get_elem? source j h.here,
          ) in
          rw (e, is_char_boundary) ((==_iff (j + 1) (length source)).1 at_end)
      go (inr (c, e)) =
          rw (e, is_char_boundary, valid j newline c h.here (omega arith) e) (ground arith)

  str_slice-line :
      (at : ℕ)
      → is_char_boundary source at ≡ true
      → str_slice source (last_start 0 0 (take at source)) at
        ≡ ok (slice source (behind (rfind_newline (take at source))) at)
  unfolding str_slice
  str_slice-line at h =
      let (low, lands) =
        behind-lands at (rfind_newline (take at source)) (rfind_newline-IsLast source at) in
      let test : leb (behind (rfind_newline (take at source))) at ≡ true = ground (arith, low) in
      rw (last_start-behind (take at source), test, lands, h) refl

  -- In a source in which no ASCII byte is continued, every offset has a location: the source is not
  -- sliced inside a character, and no line index is out of range. It is the location of the last
  -- place within the source and not behind the offset at which a character may begin: the line is
  -- one more than the newlines in front of that place, and the column one more than the characters
  -- between the last of these newlines, or the start of the source, and that place.
  pub location-total :
      (offset : ℕ)
      → (at : ℕ) × IsFloor source offset at
        × (location source offset
            ≡ ok (
              count_newlines (take at source) + 1,
              count_chars (slice source (behind (rfind_newline (take at source))) at) + 1,
            ))
  location-total offset = (
    clamp source offset,
    clamp-IsFloor source offset,
    location-place_behind source offset
        ∙ rw (str_slice-line (clamp source offset) (clamp-lands source offset)) refl,
  )
