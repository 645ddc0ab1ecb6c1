-- ===== src/FrontEnd.antt =====
-- The lexer and the parser together, as `analyze` of src/checked.rs and `load` of src/modules.rs
-- call them.
use speck.Base.{
  ℕ, Bool, List, [], ◌∷◌, ◌++◌, Text, ◌≡◌, refl, sym, ap, ◌∙◌, subst, length, map, All, All-concat,
}
use speck.Diagnostic.{SourceId, default_source, Diagnostic}
use speck.Lexer.Run.{Lexed, tokens, errors, lex, lex_in, in_file, report_in_file}
use speck.Lexer.Reading.{token_at, Reads, nothing, blank, comment, word, token, reported}
use speck.Lexer.Spelling.{Spells}
use speck.Lexer.Token.{Token, TokenKind}
use speck.Lexer.Total.{IsLexed, lex-IsLexed}
use speck.Parser.File.{parse, parse_file, import_headers}
use speck.Parser.Limits.Blocks.{ProgramWithin}
use speck.Parser.Safe.{IsFile, Fits, IsPlain, IsNonNegative}
use speck.Parser.Safe.File.{ImportFrom}
use speck.Parser.Total.{Succeeds, parse_file-Within, import_headers-From, parse-Within}

IsPlain-of_Spells : (kind : TokenKind) (w : Text) → Spells kind w → IsPlain kind
IsPlain-of_Spells (TokenKind.integer n) w (_, e, _) = subst IsNonNegative (sym e) tt
IsPlain-of_Spells _ w h = tt

token_at-Fits :
    (kind : TokenKind) (i j : ℕ) → IsPlain kind → Fits default_source (token_at kind i j)
token_at-Fits kind i j h = record { from = refl; plain = h }

Reads-Fits :
    {B : Text} {i : ℕ} {ts : List Token} {ds : List Diagnostic}
    → Reads B i ts ds
    → All (Fits default_source) ts
Reads-Fits nothing = tt
Reads-Fits (blank b r _ _) = Reads-Fits r
Reads-Fits (comment j r _ _ _ _ _) = Reads-Fits r
Reads-Fits (word {i} {ts} kind j r _ _ _ spells _) =
    All-concat (Fits default_source) ts (Reads-Fits r)
      (token_at-Fits kind i j (IsPlain-of_Spells kind _ spells))
Reads-Fits (token {i} {ts} kind j r _ _ spells _) =
    All-concat (Fits default_source) ts (Reads-Fits r)
      (token_at-Fits kind i j (IsPlain-of_Spells kind _ spells))
Reads-Fits (reported d j r _ _ _ _) = Reads-Fits r

IsFile-of_IsLexed :
    (source : Text) (ts : List Token) → IsLexed source (tokens ts) → IsFile default_source ts
IsFile-of_IsLexed source ts (front, split, r) =
    let last = token_at TokenKind.eof (length source) (length source) in
    record {
      front = front;
      last = last;
      split = split;
      ends = refl;
      fits = subst (All (Fits default_source)) (sym split) (
          All-concat (Fits default_source) front (Reads-Fits r)
            (token_at-Fits TokenKind.eof _ _ tt));
    }

lex-IsFile : (source : Text) {ts : List Token} → lex source ≡ tokens ts → IsFile default_source ts
lex-IsFile source {ts} e =
    IsFile-of_IsLexed source ts (subst (IsLexed source) e (lex-IsLexed source))

in_file-Fits :
    (id : SourceId) (ts : List Token)
    → All (Fits default_source) ts
    → All (Fits id) (map (in_file id) ts)
in_file-Fits id [] h = tt
in_file-Fits id (t ∷ ts) (h, hs) = (record { from = refl; plain = h.plain }, in_file-Fits id ts hs)

map-in_file-append :
    (id : SourceId) (xs ys : List Token)
    → map (in_file id) (xs ++ ys) ≡ map (in_file id) xs ++ map (in_file id) ys
map-in_file-append id [] ys = refl
map-in_file-append id (x ∷ xs) ys = ap (◌∷◌ (in_file id x)) (map-in_file-append id xs ys)

in_file-IsFile :
    (id : SourceId) (ts : List Token) → IsFile default_source ts → IsFile id (map (in_file id) ts)
in_file-IsFile id ts file = record {
  front = map (in_file id) file.front;
  last = in_file id file.last;
  split = ap (map (in_file id)) file.split ∙ map-in_file-append id file.front (file.last ∷ []);
  ends = file.ends;
  fits = in_file-Fits id ts file.fits;
}

-- What `lex_in` returns is the tokens of its file.
abbrev IsLexedIn : SourceId → Lexed → Type 0
IsLexedIn id (tokens ts) = IsFile id ts
IsLexedIn id (errors ds) = Unit

lex_in-IsLexedIn : (source : Text) (id : SourceId) → IsLexedIn id (lex_in source id)
unfolding lex_in
lex_in-IsLexedIn source id = go (lex source) (lex-IsLexed source)
  where
    go :
        (l : Lexed)
        → IsLexed source l
        → IsLexedIn id (elim l [
          | tokens ts ↦ tokens (map (in_file id) ts)
          | errors ds ↦ errors (map (report_in_file id) ds)
        ])
    go (tokens ts) h = in_file-IsFile id ts (IsFile-of_IsLexed source ts h)
    go (errors ds) h = tt

pub lex_in-IsFile :
    (source : Text) (id : SourceId) {ts : List Token} → lex_in source id ≡ tokens ts → IsFile id ts
lex_in-IsFile source id e = subst (IsLexedIn id) e (lex_in-IsLexedIn source id)

-- On the tokens of a source, `parse` returns a program or a diagnostic: it reads no token past the
-- end, merges no spans of different files, binds no name outside of a scope, overflows at no
-- negation, and each of its loops ends. The blocks and expressions of a returned program are nested
-- at most 80 deep, and its resolution is from 1 to 4096 both ways.
pub parse-lex-Within :
    (source : Text) {ts : List Token} → lex source ≡ tokens ts → Succeeds ProgramWithin (parse ts)
parse-lex-Within source e = parse-Within (lex-IsFile source e)

-- On the tokens that `lex_in` gives of a file, root or imported and whatever structs it imports,
-- `parse_file` returns a program or a diagnostic: it does not panic, and each of its loops ends. The
-- blocks and expressions of a returned program are nested at most 80 deep, and its resolution is
-- from 1 to 4096 both ways.
pub parse_file-lex_in-Within :
    (source : Text) (id : SourceId) {ts : List Token} (root : Bool) (imported_structs : List Text)
    → lex_in source id ≡ tokens ts
    → Succeeds ProgramWithin (parse_file ts root imported_structs)
parse_file-lex_in-Within source id root imported_structs e =
    parse_file-Within (lex_in-IsFile source id e) root imported_structs

-- On the tokens that `lex_in` gives of a file, `import_headers` returns imports whose spans are
-- of that file, or a diagnostic: it does not panic, and its loop ends.
pub import_headers-lex_in-From :
    (source : Text) (id : SourceId) {ts : List Token}
    → lex_in source id ≡ tokens ts
    → Succeeds (All (ImportFrom id)) (import_headers ts)
import_headers-lex_in-From source id e = import_headers-From (lex_in-IsFile source id e)
