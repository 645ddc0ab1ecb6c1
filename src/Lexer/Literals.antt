-- ===== src/Lexer/Literals.antt =====
-- Strings, numbers and words of src/lexer.rs are read as Spelling and Reading describe them.
use speck.Base.{
  ℕ, ◌+◌, ◌≤◌, ◌<◌, ◌^◌, Bool, true, false, ◌≢◌, ◌&&◌, List, [], ◌∷◌, ◌++◌, Option, some, none,
  Text, find, same_text, same_text_iff, ◌≡◌, refl, sym, ap, ◌∙◌, arith, length, get_elem?, drop,
  slice, All, ◌==◌, ==_iff, if◌then◌else◌, if_both, Bool-cases, inl, inr, Option-cases,
  lt-length_of_get_elem?,
}
use mathlib.Core.Path.{subst, subst₂}
use mathlib.Core.Option.{some-injective}
use speck.Base.Int.{ℤ, pos}
use speck.Diagnostic.{Diagnostic}
use speck.Lexer.Number.{is_digit, decimal, parse_i64}
use speck.Lexer.Scan.{
  is_byte, digit_at, push, in_string, close_string, lex_string, integer_token, lex_fraction,
  span_while, lex_number, lex_identifier, word_kind, is_word_byte, is_letter,
}
use speck.Lexer.Sound.{state, Advances, is_byte-true}
use speck.Lexer.Spans.{slice_cons, slice_one, slice_split, scan_end, scan_All, scan_Ends, scan_past}
use speck.Lexer.Reading.{unterminated, too_large, Reads, word, token, reported}
use speck.Lexer.Spelling.{WholeEnds, Spells, spelling, IsDigit, IsWordByte, Ends}
use speck.Lexer.Token.{Token, TokenKind, keywords}

-- What a table search returns stands in the table under the name.
find_sound {ℓ κ} :
    {A : Type ℓ} (P : Text → A → Type κ) (name : Text) (table : List (Text × A)) {a : A}
    → All (λ (entry : Text × A). P entry.0 entry.1) table
    → find name table ≡ some a
    → P name a
unfolding find
find_sound P name [] h e = cc
find_sound P name ((key, b) ∷ table) {a} h e =
    let step : (if same_text name key then some b else find name table) ≡ some a = e in
    elim (Bool-cases (same_text name key)) [
      | inl same ↦
          subst₂ P (sym ((same_text_iff name key).0 same)) (some-injective b a (rw same at step))
            h.0
      | inr other ↦ find_sound P name table h.1 (rw other at step)
    ]

keywords_spelled : All (λ (entry : Text × TokenKind). Spells entry.1 entry.0) keywords
unfolding spelling
keywords_spelled = (
  refl,
  (
    refl,
    (
      refl,
      (
        refl,
        (
          refl,
          (
            refl,
            (
              refl,
              (
                refl,
                (
                  refl,
                  (
                    refl,
                    (
                      refl,
                      (
                        refl,
                        (
                          refl,
                          (
                            refl,
                            (refl, (refl, (refl, (refl, (refl, (refl, (refl, (refl, tt)))))))),
                          ),
                        ),
                      ),
                    ),
                  ),
                ),
              ),
            ),
          ),
        ),
      ),
    ),
  ),
)

parse_i64_lem :
    (digits : Text) {n : ℤ}
    → parse_i64 digits ≡ some n
    → (n ≡ pos (decimal 0 digits)) × (decimal 0 digits < 2 ^ 63)
unfolding parse_i64
parse_i64_lem digits h = ground arith

parse_i64_large : (digits : Text) → parse_i64 digits ≡ none → 2 ^ 63 ≤ decimal 0 digits
unfolding parse_i64
parse_i64_large digits h = ground arith

not_quote : (c : ℕ) → (c == b'"') ≡ false → c ≢ b'"'
not_quote c h e = cc (h, (==_iff c b'"').1 e)

word_kind-some : (w : Text) {kind : TokenKind} → find w keywords ≡ some kind → word_kind w ≡ kind
unfolding word_kind
word_kind-some w e = ground arith

word_kind-none : (w : Text) → find w keywords ≡ none → word_kind w ≡ TokenKind.identifier w
unfolding word_kind
word_kind-none w e = ground arith

-- A word is spelled as its kind says.
word_kind_spelled : (w : Text) → All IsWordByte w → Spells (word_kind w) w
word_kind_spelled w bytes = elim (Option-cases (find w keywords)) [
  | inl e ↦ subst (λ k. Spells k w) (sym (word_kind-none w e)) (refl, bytes, e)
  | inr (kind, e) ↦
      subst (λ k. Spells k w) (sym (word_kind-some w e))
        (find_sound (λ name k. Spells k name) w keywords keywords_spelled e)
]

and_true : (a b : Bool) → a && b ≡ true → (a ≡ true) × (b ≡ true)
and_true a b h = ground arith

module _ {B : Text} {i : ℕ} {ts : List Token} {ds : List Diagnostic} (b : ℕ)
    (before : Reads B i ts ds) (here : get_elem? B i ≡ some b) where
  bound : i + 1 ≤ length B
  bound = omega (arith, lt-length_of_get_elem? B i here)

  -- The text of a string token, from its quote at `i` to its quote at `j`.
  quoted :
      (j c : ℕ)
      → get_elem? B j ≡ some c
      → c ≡ b'"'
      → b ≡ b'"'
      → i < j
      → slice B i (j + 1) ≡ b'"' ∷ (slice B (i + 1) j ++ b'"' ∷ [])
  quoted j c next e q lt = cc (
    slice_cons B i (j + 1) here (omega arith),
    slice_split B (i + 1) j (j + 1) (omega arith) (omega arith),
    slice_one B j next,
  )

  close-Advances :
      (j : ℕ) (o : Option ℕ)
      → b ≡ b'"'
      → i < j
      → j ≤ length B
      → get_elem? B j ≡ o
      → All (λ c. in_string c ≡ true) (slice B (i + 1) j)
      → Ends in_string o
      → Advances B i (close_string o i (i + 1) (state B j ts ds))
  unfolding close_string push
  close-Advances j none q lt le next body ends = record {
    same_bytes = refl;
    reads =
        reported _ j before lt le refl
          (unterminated (here ∙ ap some q) body (rw next tt) (λ e. cc (next, e)));
    past = lt;
    within = le;
  }
  close-Advances j (some c) q lt le next body ends = elim (Bool-cases (c == b'"')) [
    | inr newline ↦ rw newline (record {
      same_bytes = refl;
      reads = reported _ j before lt le refl (
          unterminated (here ∙ ap some q) body (rw next ends)
            (λ e. not_quote c newline (some-injective c b'"' (sym next ∙ e))));
      past = lt;
      within = le;
    })
    | inl quote ↦ rw quote (record {
      same_bytes = refl;
      reads =
          token _ (j + 1) before (omega arith) (omega (arith, lt-length_of_get_elem? B j next))
            (quoted j c next ((==_iff c b'"').0 quote) q lt, body) tt;
      past = omega arith;
      within = omega (arith, lt-length_of_get_elem? B j next);
    })
  ]

  pub string-Advances : b ≡ b'"' → Advances B i (lex_string i (state B (i + 1) ts ds))
  unfolding lex_string
  string-Advances q =
      let j = scan_end in_string B (i + 1) bound in
      close-Advances _ _ q (omega arith) j refl (scan_All in_string B (i + 1))
        (scan_Ends in_string B (i + 1))

  integer-Advances :
      (j : ℕ)
      → i < j
      → j ≤ length B
      → All IsDigit (slice B i j)
      → WholeEnds (get_elem? B j) (get_elem? B (j + 1))
      → (o : Option ℤ) → parse_i64 (slice B i j) ≡ o
      → Advances B i (integer_token o i (state B j ts ds))
  unfolding integer_token push
  integer-Advances j lt le digits ends none e = record {
    same_bytes = refl;
    reads =
        reported _ j before lt le refl (too_large digits ends (parse_i64_large (slice B i j) e));
    past = lt;
    within = le;
  }
  integer-Advances j lt le digits ends (some n) e = record {
    same_bytes = refl;
    reads =
        let (value, small) = parse_i64_lem (slice B i j) e in
        token (TokenKind.integer n) j before lt le (digits, value, small) ends;
    past = lt;
    within = le;
  }

  -- A scan of digits from behind `b`, with `b` itself.
  All-from :
      (P : ℕ → Type 0) (j : ℕ) → P b → i < j → All P (slice B (i + 1) j) → All P (slice B i j)
  All-from P j p lt h = rw (slice_cons B i j here lt) (p, h)

  fraction_text :
      (j k : ℕ)
      → i < j
      → get_elem? B j ≡ some b'.'
      → j < k
      → slice B i k ≡ slice B i j ++ (b'.' ∷ slice B (j + 1) k)
  fraction_text j k lt point past =
      slice_split B i j k (omega arith) (omega arith)
      ∙ ap (◌++◌ (slice B i j)) (slice_cons B j k point past)

  fraction-Advances :
      (j : ℕ)
      → i < j
      → All IsDigit (slice B i j)
      → get_elem? B j ≡ some b'.'
      → digit_at (get_elem? B (j + 1)) ≡ true
      → Advances B i (lex_fraction i j (state B j ts ds))
  unfolding lex_fraction push
  fraction-Advances j lt digits point more = elim (Option-cases (get_elem? B (j + 1))) [
    | inl e ↦ absurd (no_digit (rw e at more))
    | inr (d, e) ↦
        let le : j + 1 ≤ length B = omega (arith, lt-length_of_get_elem? B j point) in
        let k = j + 1 + span_while is_digit (drop (j + 1) B) in
        let end = scan_end is_digit B (j + 1) le in
        let behind = scan_past is_digit B (j + 1) e (rw e at more) in
        record {
          same_bytes = refl;
          reads =
              token _ _ before (omega arith) end
                (
                  slice B i j,
                  slice B (j + 1) _,
                  fraction_text j k lt point (omega arith),
                  (λ z. cc (slice_cons B i j here lt)),
                  digits,
                  scan_All is_digit B (j + 1),
                  (λ z. cc (slice_cons B (j + 1) k e behind)),
                  refl,
                )
                (scan_Ends is_digit B (j + 1));
          past = omega arith;
          within = end;
        }
  ]
    where
      no_digit : digit_at none ≡ true → ⊥
      no_digit h = cc

  pub number-Advances : is_digit b ≡ true → Advances B i (lex_number i (state B (i + 1) ts ds))
  unfolding lex_number
  number-Advances digit =
      let end = scan_end is_digit B (i + 1) bound in
      let digits = All-from IsDigit _ digit (omega arith) (scan_All is_digit B (i + 1)) in
      let j = i + 1 + span_while is_digit (drop (i + 1) B) in
      if_both (Advances B i) (is_byte b'.' (get_elem? B j) && digit_at (get_elem? B (j + 1)))
        (λ h.
          let (point, more) =
            and_true (is_byte b'.' (get_elem? B j)) (digit_at (get_elem? B (j + 1))) h in
          fraction-Advances j (omega arith) digits (is_byte-true b'.' (get_elem? B j) point) more)
        (λ h. integer-Advances j (omega arith) end digits (scan_Ends is_digit B (i + 1), h) _ refl)

  pub identifier-Advances :
      is_letter b ≡ true → Advances B i (lex_identifier i (state B (i + 1) ts ds))
  unfolding lex_identifier push
  identifier-Advances letter =
      let j = i + 1 + span_while is_word_byte (drop (i + 1) B) in
      let end = scan_end is_word_byte B (i + 1) bound in
      let bytes = scan_All is_word_byte B (i + 1) in
      let first : is_word_byte b ≡ true = rw letter in
      record {
        same_bytes = refl;
        reads =
            word _ j before (omega arith) end
              (rw (slice_cons B i j here (omega arith)) (letter, bytes))
              (word_kind_spelled (slice B i j) (All-from IsWordByte j first (omega arith) bytes))
              (scan_Ends is_word_byte B (i + 1));
        past = omega arith;
        within = end;
      }
