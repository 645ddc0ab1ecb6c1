-- ===== src/Lexer/Sound.antt =====
-- The lexer of src/lexer.rs reads every source from left to right, as Reading describes it.
use speck.Base.{
  ℕ, ◌+◌, ◌≤◌, ◌<◌, true, false, List, [], ◌∷◌, Option, some, none, Text, text, ◌≡◌, refl, ap,
  arith, length, get_elem?, slice, ==_iff, Bool-cases, inl, inr, lt-length_of_get_elem?,
}
use speck.Diagnostic.{Diagnostic}
use speck.Lexer.Run.{guarded, is_blank, lex_slash}
use speck.Lexer.Scan.{
  Lexer, is_byte, simple, unexpected, line_comment, is_continuation, not_newline,
}
use speck.Lexer.Spans.{slice_one, slice_two, scan_end, scan_All, scan_Ends}
use speck.Lexer.Reading.{Reads, blank, comment, token, reported, BeginsNothing, unknown}
use speck.Lexer.Spelling.{Spells, Stops, spelling}
use speck.Lexer.Token.{Token, TokenKind}

abbrev pub state : Text → ℕ → List Token → List Diagnostic → Lexer
state B c ts ds = record { bytes = B; cursor = c; tokens = ts; diagnostics = ds }

-- One round of the loop, from `i`: the source is kept, the cursor moves on and stays within it.
pub record Advances (B : Text) (i : ℕ) (s : Lexer) : Type 0 where
  pub same_bytes : s.bytes ≡ B
  pub reads : Reads B s.cursor s.tokens s.diagnostics
  pub past : i < s.cursor
  pub within : s.cursor ≤ length B

pub is_byte-true : (c : ℕ) (o : Option ℕ) → is_byte c o ≡ true → o ≡ some c
is_byte-true c none h = cc
is_byte-true c (some x) h = ap some ((==_iff x c).0 h)

-- The round has read the byte `b` at `i`.
module _ {B : Text} {i : ℕ} {ts : List Token} {ds : List Diagnostic} (b : ℕ)
    (before : Reads B i ts ds) (here : get_elem? B i ≡ some b) where
  pub simple-Advances :
      (kind : TokenKind)
      → Spells kind (b ∷ [])
      → Stops kind (get_elem? B (i + 1)) (get_elem? B (i + 1 + 1))
      → Advances B i (simple kind i (state B (i + 1) ts ds))
  unfolding simple
  simple-Advances kind spells ends = record {
    same_bytes = refl;
    reads =
        token kind (i + 1) before (omega arith) (omega (arith, lt-length_of_get_elem? B i here))
          (rw (slice_one B i here) spells) ends;
    past = omega arith;
    within = omega (arith, lt-length_of_get_elem? B i here);
  }

  -- The guard passes and a symbol of two bytes is read, or the later arms see the same state.
  pub guarded-Advances :
      (expected : ℕ) (kind : TokenKind) {other : Lexer}
      → Spells kind (b ∷ expected ∷ [])
      → Stops kind (get_elem? B (i + 2)) (get_elem? B (i + 2 + 1))
      → (is_byte expected (get_elem? B (i + 1)) ≡ false → Advances B i other)
      → Advances B i (guarded expected kind i (state B (i + 1) ts ds) other)
  unfolding guarded
  guarded-Advances expected kind spells ends later =
      elim (Bool-cases (is_byte expected (get_elem? B (i + 1)))) [
        | inr missed ↦ rw missed (later missed)
        | inl hit ↦
            let next = is_byte-true expected (get_elem? B (i + 1)) hit in
            let two : i + 2 ≡ i + 1 + 1 = omega arith in
            let bound = lt-length_of_get_elem? B (i + 1) next in
            rw (hit, ← two)
              (record {
                same_bytes = refl;
                reads =
                    token kind (i + 2) before (omega arith) (omega arith)
                      (rw (slice_two B i here next) spells) ends;
                past = omega arith;
                within = omega arith;
              })
      ]

  pub comment-Advances :
      slice B i (i + 2) ≡ text "//"
      → i + 2 ≤ length B
      → Advances B i (line_comment (state B (i + 2) ts ds))
  unfolding line_comment
  comment-Advances slashes le =
      let bound = scan_end not_newline B (i + 2) le in
      record {
        same_bytes = refl;
        reads =
            comment _ before (omega arith) bound slashes (scan_All not_newline B (i + 2))
              (scan_Ends not_newline B (i + 2));
        past = omega arith;
        within = bound;
      }

  pub blank-Advances : is_blank b ≡ true → Advances B i (state B (i + 1) ts ds)
  blank-Advances h = record {
    same_bytes = refl;
    reads = blank b before here h;
    past = omega arith;
    within = omega (arith, lt-length_of_get_elem? B i here);
  }

  pub unexpected-Advances :
      BeginsNothing b (get_elem? B (i + 1)) → Advances B i (unexpected i (state B (i + 1) ts ds))
  unfolding unexpected
  unexpected-Advances begins =
      let bound =
        scan_end is_continuation B (i + 1) (omega (arith, lt-length_of_get_elem? B i here)) in
      record {
        same_bytes = refl;
        reads = reported _ _ before (omega arith) bound refl (
            unknown b here begins (scan_All is_continuation B (i + 1))
              (scan_Ends is_continuation B (i + 1)));
        past = omega arith;
        within = bound;
      }

module _ {B : Text} {i : ℕ} {ts : List Token} {ds : List Diagnostic} (before : Reads B i ts ds)
    (here : get_elem? B i ≡ some b'/') where
  pub slash-Advances : Advances B i (lex_slash i (state B (i + 1) ts ds))
  unfolding lex_slash spelling text
  slash-Advances = elim (Bool-cases (is_byte b'/' (get_elem? B (i + 1)))) [
    | inr missed ↦ rw missed (
        guarded-Advances b'/' before here b'=' TokenKind.slash_equal refl tt
          λ m. simple-Advances b'/' before here TokenKind.slash refl (missed, m))
    | inl hit ↦
        let next = is_byte-true b'/' (get_elem? B (i + 1)) hit in
        let two : i + 2 ≡ i + 1 + 1 = omega arith in
        let bound = lt-length_of_get_elem? B (i + 1) next in
        rw (hit, ← two)
          (comment-Advances b'/' before here (slice_two B i here next) (omega (arith, bound)))
  ]
