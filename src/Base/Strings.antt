-- ===== src/Base/Strings.antt =====
-- Text as a list of bytes: names, paths and messages.
use Prim.Native.Char.{code}
use Prim.Native.String.{String}
use Prim.Native.Nat.{ℕ}
use mathlib.Core.Path.{◌≡◌, refl}
use mathlib.Core.Logic.{◌↔◌}
use mathlib.Core.Bool.{Bool, true, false, ◌&&◌, ◌||◌}
use mathlib.Core.Option.{Option, none, some}
use mathlib.Core.List.{List, [], ◌∷◌}
use native.Mathlib.Omega.{arith}
use speck.Base.Tests.{◌==◌, if◌then◌else◌}

abbrev pub Text : Type 0
Text = List ℕ

-- The bytes of an ASCII literal.
unfoldable pub text : String → Text
text String.[] = []
text (String.◌∷◌ c s) = code c ∷ text s

unfoldable pub same_text : Text → Text → Bool
same_text [] [] = true
same_text (x ∷ xs) (y ∷ ys) = x == y && same_text xs ys
same_text _ _ = false

pub same_text_iff : (a b : Text) → (same_text a b ≡ true) ↔ (a ≡ b)
unfolding same_text
same_text_iff (x ∷ a) (y ∷ b) = ground (arith, same_text_iff a b)
same_text_iff _ _ = ground arith

-- A `HashSet<String>` as the list of its elements.
unfoldable pub contains : List Text → Text → Bool
contains [] name = false
contains (x ∷ xs) name = same_text x name || contains xs name

pub contains-cons :
    (x : Text) (xs : List Text) (name : Text)
    → contains (x ∷ xs) name ≡ (same_text x name || contains xs name)
unfolding contains
contains-cons x xs name = refl

-- The first entry of a table under a name.
unfoldable pub find {ℓ} : {A : Type ℓ} → Text → List (Text × A) → Option A
find name [] = none
find name ((key, a) ∷ table) = if same_text name key then some a else find name table
