-- ===== src/Parser/Total.antt =====
-- The entry points of src/parser.rs on the tokens of one file: they come to an end, they do not
-- panic, and what they return is within the limits.
use speck.Base.{Text, Bool, List, [], ◌∷◌, All}
use speck.Diagnostic.{SourceId}
use speck.Lexer.Token.{Token}
use speck.Outcome.{Outcome, ok, fail, panic, exhausted, and_then}
use speck.Parser.File.{Import, parse, parse_file, import_headers, without_imports}
use speck.Parser.Limits.Blocks.{ProgramWithin}
use speck.Parser.Safe.File.{ImportFrom, run-Safe, import_loop-Safe, new_parser-At}
use speck.Parser.Safe.{IsFile, Ensures, returns, fails}
use speck.Parser.State.{Parser}

-- An outcome is a value with the property, or a diagnostic: not a panic, not an endless loop.
abbrev pub Succeeds : {A : Type 0} → (A → Type 0) → Outcome A → Type 0
Succeeds P (ok a) = P a
Succeeds P (fail d) = Unit
Succeeds P panic = ⊥
Succeeds P exhausted = ⊥

value_of_Ensures :
    {A : Type 0} {P : A → Type 0} {Q : A → Parser → Type 0} {r : Outcome (A × Parser)}
    → ((a : A) (s : Parser) → Q a s → P a)
    → Ensures Q r
    → Succeeds P (and_then r λ (a, s). ok a)
value_of_Ensures f (returns h) = f _ _ h
value_of_Ensures f fails = tt

module _ {k : SourceId} {toks : List Token} (file : IsFile k toks) where
  pub parse_file-Within :
      (root : Bool) (imported_structs : List Text)
      → Succeeds ProgramWithin (parse_file toks root imported_structs)
  unfolding parse_file
  parse_file-Within root imported_structs =
      value_of_Ensures {P = ProgramWithin} (λ a s h. h.0)
        (run-Safe file root 0 _ (new_parser-At file _))

  pub import_headers-From : Succeeds (All (ImportFrom k)) (import_headers toks)
  unfolding import_headers
  import_headers-From =
      value_of_Ensures {P = All (ImportFrom k)} (λ a s h. h.0)
        (import_loop-Safe file 0 _ (new_parser-At file _))

  without_imports-Within :
      (imports : List Import) → Succeeds ProgramWithin (without_imports imports toks)
  unfolding without_imports
  without_imports-Within [] = parse_file-Within _ _
  without_imports-Within (i ∷ imports) = tt

  after_headers :
      (r : Outcome (List Import))
      → Succeeds (All (ImportFrom k)) r
      → Succeeds ProgramWithin (and_then r λ imports. without_imports imports toks)
  after_headers (ok imports) h = without_imports-Within imports
  after_headers (fail d) h = tt
  after_headers panic h = absurd h
  after_headers exhausted h = absurd h

  pub parse-Within : Succeeds ProgramWithin (parse toks)
  unfolding parse
  parse-Within = after_headers (import_headers toks) import_headers-From
