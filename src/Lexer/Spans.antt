-- ===== src/Lexer/Spans.antt =====
-- Slices of a source, and what the scanning loops of src/lexer.rs pass over.
use speck.Base.{
  ℕ, zero, suc, ◌+◌, ◌-◌, ◌≤◌, ◌<◌, Bool, true, [], ◌∷◌, ◌++◌, some, Text, ◌≡◌, refl, sym, ap, ◌∙◌,
  arith, length, get_elem?, take, drop, slice, length-drop, drop-get_elem?, All, Bool-cases, inl,
  inr,
}
use speck.Lexer.Scan.{span_while}
use speck.Lexer.Spelling.{Ends}

pub slice-add : (B : Text) (i n : ℕ) → slice B i (i + n) ≡ take n (drop i B)
slice-add B i n = let e : i + n - i ≡ n = omega arith in ap (λ k. take k (drop i B)) e

pub slice_cons :
    (B : Text) (i j : ℕ) {b : ℕ}
    → get_elem? B i ≡ some b
    → i < j
    → slice B i j ≡ b ∷ slice B (i + 1) j
slice_cons B i j {b} h lt =
    let e : j - i ≡ suc (j - (i + 1)) = omega arith in
    let f : suc i ≡ i + 1 = omega arith in
    ap (λ k. take k (drop i B)) e
    ∙ ap (take (suc (j - (i + 1)))) (drop-get_elem? B i h)
    ∙ ap (λ k. b ∷ take (j - (i + 1)) (drop k B)) f

pub slice_empty : (B : Text) (i : ℕ) → slice B i i ≡ []
slice_empty B i = let e : i - i ≡ 0 = omega arith in ap (λ k. take k (drop i B)) e

pub slice_one : (B : Text) (i : ℕ) {b : ℕ} → get_elem? B i ≡ some b → slice B i (i + 1) ≡ b ∷ []
slice_one B i {b} h = slice_cons B i (i + 1) h (omega arith) ∙ ap (◌∷◌ b) (slice_empty B (i + 1))

pub slice_two :
    (B : Text) (i : ℕ) {b c : ℕ}
    → get_elem? B i ≡ some b
    → get_elem? B (i + 1) ≡ some c
    → slice B i (i + 2) ≡ b ∷ c ∷ []
slice_two B i {b} {c} h k =
    let e : i + 1 + 1 ≡ i + 2 = omega arith in
    slice_cons B i (i + 2) h (omega arith)
    ∙ ap (λ j. b ∷ slice B (i + 1) j) (sym e)
    ∙ ap (◌∷◌ b) (slice_one B (i + 1) k)

take-append : (xs : Text) (m n : ℕ) → take (m + n) xs ≡ take m xs ++ take n (drop m xs)
take-append xs zero n = let e : 0 + n ≡ n = omega arith in ap (λ k. take k xs) e
take-append [] (suc m) zero = let e : suc m + 0 ≡ suc m = omega arith in ap (λ k. take k []) e
take-append [] (suc m) (suc n) =
    let e : suc m + suc n ≡ suc (m + suc n) = omega arith in ap (λ k. take k []) e
take-append (x ∷ xs) (suc m) n =
    let e : suc m + n ≡ suc (m + n) = omega arith in
    ap (λ k. take k (x ∷ xs)) e ∙ ap (◌∷◌ x) (take-append xs m n)

drop-drop : (xs : Text) (m n : ℕ) → drop n (drop m xs) ≡ drop (m + n) xs
drop-drop xs zero n = let e : n ≡ 0 + n = omega arith in ap (λ k. drop k xs) e
drop-drop [] (suc m) zero = let e : suc m ≡ suc m + 0 = omega arith in ap (λ k. drop k []) e
drop-drop [] (suc m) (suc n) =
    let e : suc (m + suc n) ≡ suc m + suc n = omega arith in ap (λ k. drop k []) e
drop-drop (x ∷ xs) (suc m) n =
    let e : suc m + n ≡ suc (m + n) = omega arith in
    drop-drop xs m n ∙ ap (λ k. drop k (x ∷ xs)) (sym e)

-- A slice in two parts.
pub slice_split : (B : Text) (i j k : ℕ) → i ≤ j → j ≤ k → slice B i k ≡ slice B i j ++ slice B j k
slice_split B i j k h l =
    let e : k - i ≡ (j - i) + (k - j) = omega arith in
    let f : i + (j - i) ≡ j = omega arith in
    ap (λ n. take n (drop i B)) e
    ∙ take-append (drop i B) (j - i) (k - j)
    ∙ ap (λ xs. slice B i j ++ take (k - j) xs) (drop-drop B i (j - i))
    ∙ ap (λ n. slice B i j ++ take (k - j) (drop n B)) f

pub get_elem?-drop : (B : Text) (c n : ℕ) → get_elem? (drop c B) n ≡ get_elem? B (c + n)
get_elem?-drop B zero n = ap (get_elem? B) (omega arith)
get_elem?-drop [] (suc c) n = refl
get_elem?-drop (b ∷ B) (suc c) n =
    let e : suc c + n ≡ suc (c + n) = omega arith in
    get_elem?-drop B c n ∙ ap (get_elem? (b ∷ B)) (sym e)

module _ (test : ℕ → Bool) where
  span_while-le : (xs : Text) → span_while test xs ≤ length xs
  unfolding span_while
  span_while-le [] = omega arith
  span_while-le (x ∷ xs) = ground (arith, span_while-le xs)

  All-span_while : (xs : Text) → All (λ b. test b ≡ true) (take (span_while test xs) xs)
  unfolding span_while
  All-span_while [] = tt
  All-span_while (x ∷ xs) = elim (Bool-cases (test x)) [
    | inl h ↦ rw h (h, All-span_while xs)
    | inr h ↦ rw h tt
  ]

  Ends-span_while : (xs : Text) → Ends test (get_elem? xs (span_while test xs))
  unfolding span_while
  Ends-span_while [] = tt
  Ends-span_while (x ∷ xs) = elim (Bool-cases (test x)) [
    | inl h ↦ rw h (Ends-span_while xs)
    | inr h ↦ rw h h
  ]

  -- The cursor behind a scan from `c`: the bytes passed meet the test, the next one does not.
  pub scan_end : (B : Text) (c : ℕ) → c ≤ length B → c + span_while test (drop c B) ≤ length B
  scan_end B c h = omega (arith, span_while-le (drop c B), length-drop c B)

  pub scan_All :
      (B : Text) (c : ℕ) → All (λ b. test b ≡ true) (slice B c (c + span_while test (drop c B)))
  scan_All B c = rw slice-add (All-span_while (drop c B))

  -- A scan that finds a byte of the test in front passes over it.
  pub scan_past :
      (B : Text) (c : ℕ) {b : ℕ}
      → get_elem? B c ≡ some b
      → test b ≡ true
      → c < c + span_while test (drop c B)
  unfolding span_while
  scan_past B c h t = rw (drop-get_elem? B c h, span_while, t) (omega arith)

  pub scan_Ends : (B : Text) (c : ℕ) → Ends test (get_elem? B (c + span_while test (drop c B)))
  scan_Ends B c = rw (← get_elem?-drop B c _) (Ends-span_while (drop c B))
