-- ===== src/Lexer/Order.antt =====
-- The spans of the tokens and diagnostics of src/lexer.rs.
use speck.Base.{
  ℕ, ◌+◌, ◌≤◌, ◌<◌, List, [], ◌∷◌, ◌++◌, Text, ◌≡◌, subst, arith, length, All, All-concat,
}
use speck.Diagnostic.{Diagnostic}
use speck.Lexer.Run.{tokens, errors, lex}
use speck.Lexer.Reading.{token_at, Reads, nothing, blank, comment, word, token, reported}
use speck.Lexer.Token.{Token, TokenKind}
use speck.Lexer.Total.{IsLexed, lex-IsLexed}

-- Spans that follow one another from `lo` to `hi`, each with a byte at least.
abbrev pub InOrder : ℕ → List Token → ℕ → Type 0
InOrder lo [] hi = lo ≤ hi
InOrder lo (t ∷ ts) hi =
    (lo ≤ t.span.start) × (t.span.start < t.span.end) × InOrder t.span.end ts hi

InOrder-mono :
    (lo : ℕ) (ts : List Token) (hi hi' : ℕ) → InOrder lo ts hi → hi ≤ hi' → InOrder lo ts hi'
InOrder-mono lo [] hi hi' h le = omega arith
InOrder-mono lo (t ∷ ts) hi hi' h le = (h.0, h.1, InOrder-mono t.span.end ts hi hi' h.2 le)

InOrder-concat :
    (lo : ℕ) (ts : List Token) (kind : TokenKind) (i j : ℕ)
    → InOrder lo ts i
    → i < j
    → InOrder lo (ts ++ token_at kind i j ∷ []) j
InOrder-concat lo [] kind i j h lt = omega arith
InOrder-concat lo (t ∷ ts) kind i j h lt = (h.0, h.1, InOrder-concat t.span.end ts kind i j h.2 lt)

Reads-InOrder :
    {B : Text} {i : ℕ} {ts : List Token} {ds : List Diagnostic} → Reads B i ts ds → InOrder 0 ts i
Reads-InOrder nothing = omega arith
Reads-InOrder (blank {i} {ts} b r here _) =
    InOrder-mono 0 ts i (i + 1) (Reads-InOrder r) (omega arith)
Reads-InOrder (comment {i} {ts} j r lt _ _ _ _) =
    InOrder-mono 0 ts i j (Reads-InOrder r) (omega arith)
Reads-InOrder (word {i} {ts} kind j r lt _ _ _ _) =
    InOrder-concat 0 ts kind i j (Reads-InOrder r) lt
Reads-InOrder (token {i} {ts} kind j r lt _ _ _) = InOrder-concat 0 ts kind i j (Reads-InOrder r) lt
Reads-InOrder (reported {i} {ts} d j r lt _ _ _) =
    InOrder-mono 0 ts i j (Reads-InOrder r) (omega arith)

-- A report of a place in a source of `n` bytes.
abbrev pub PointsInto : ℕ → Diagnostic → Type 0
PointsInto n d = (d.span.start < d.span.end) × (d.span.end ≤ n)

Reads-PointsInto :
    {B : Text} {i : ℕ} {ts : List Token} {ds : List Diagnostic}
    → Reads B i ts ds
    → All (PointsInto (length B)) ds
Reads-PointsInto nothing = tt
Reads-PointsInto (blank b r _ _) = Reads-PointsInto r
Reads-PointsInto (comment j r _ _ _ _ _) = Reads-PointsInto r
Reads-PointsInto (word kind j r _ _ _ _ _) = Reads-PointsInto r
Reads-PointsInto (token kind j r _ _ _ _) = Reads-PointsInto r
Reads-PointsInto {B} (reported {ds = ds} d j r lt le e _) =
    All-concat (PointsInto (length B)) ds (Reads-PointsInto r) (rw e (lt, le))

-- The spans of the tokens are nonempty, in order and without overlap, and lie in the source; the end
-- token stands at the end of the source.
pub lex-InOrder :
    (source : Text) {ts : List Token}
    → lex source ≡ tokens ts
    → (front : List Token) × (ts
        ≡ front ++ token_at TokenKind.eof (length source) (length source) ∷ [])
      × InOrder 0 front (length source)
lex-InOrder source e =
    let (front, split, r) = subst (IsLexed source) e (lex-IsLexed source) in
    (front, split, Reads-InOrder r)

-- Every report of the lexer is of a nonempty place in the source.
pub lex-PointsInto :
    (source : Text) {ds : List Diagnostic}
    → lex source ≡ errors ds
    → All (PointsInto (length source)) ds
lex-PointsInto source e =
    let (_, r, _) = subst (IsLexed source) e (lex-IsLexed source) in Reads-PointsInto r
