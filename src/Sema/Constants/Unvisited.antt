-- ===== src/Sema/Constants/Unvisited.antt =====
-- The declarations that the scheduler of src/sema/constants/dependencies.rs has not come to: the
-- measure of its rounds.
use speck.Base.{
  ℕ, ◌+◌, ◌≤◌, ◌<◌, Text, Bool, true, false, ◌||◌, Option, none, some, List, [], ◌∷◌, ◌≡◌, refl,
  sym, ◌∙◌, ap, find, same_text, same_text_iff, if◌then◌else◌, Bool-cases, inl, inr, arith, ◌≢◌,
  All,
}
use speck.Sema.Constants.Cache.{ConstantDefinition, Definitions, ConstantValues, insert_value}
use speck.Sema.Constants.Tasks.{Evaluation}
use speck.Sema.Constants.Schedule.{Frame}
use speck.Sema.Constants.Tables.{same_text_refl, same_text_other}
use speck.Syntax.Value.{ConstantValue}

-- The declarations that do not pass the test.
unfoldable pub count : (Text → Bool) → Definitions → ℕ
count seen [] = 0
count seen ((key, definition) ∷ definitions) = (if seen key then 0 else 1) + count seen definitions

count_mono_entry :
    (a b : Bool) → (a ≡ true → b ≡ true) → (if b then 0 else 1) ≤ (if a then 0 else 1)
count_mono_entry true true h = omega arith
count_mono_entry true false h = absurd (cc (h refl))
count_mono_entry false true h = omega arith
count_mono_entry false false h = omega arith

pub count_mono :
    (f g : Text → Bool) (definitions : Definitions)
    → ((key : Text) → f key ≡ true → g key ≡ true)
    → count g definitions ≤ count f definitions
unfolding count
count_mono f g [] h = omega arith
count_mono f g ((key, d) ∷ definitions) h =
    omega (arith, count_mono_entry (f key) (g key) (h key), count_mono f g definitions h)

-- A declaration that newly passes the test counts.
pub count-less :
    (f g : Text → Bool) (definitions : Definitions) (name : Text) {definition : ConstantDefinition}
    → ((key : Text) → f key ≡ true → g key ≡ true)
    → find name definitions ≡ some definition
    → f name ≡ false
    → g name ≡ true
    → count g definitions < count f definitions
unfolding count find
count-less f g [] name h e before after = absurd (cc e)
count-less f g ((key, d) ∷ definitions) name h e before after =
    elim (Bool-cases (same_text name key)) [
      | inl q ↦
          let same = (same_text_iff name key).0 q in
          let unseen = ap f (sym same) ∙ before in
          let now = ap g (sym same) ∙ after in
          rw (unseen, now) (omega (arith, count_mono f g definitions h))
      | inr q ↦ omega (
        arith,
        count_mono_entry (f key) (g key) (h key),
        count-less f g definitions name h (rw q at e) before after,
      )
    ]

unfoldable pub is_cached : Option ConstantValue → Bool
is_cached none = false
is_cached (some v) = true

unfoldable pub named : Text → List (Frame Evaluation) → Bool
named key [] = false
named key (f ∷ pending) = same_text f.name key || named key pending

-- A name with a value, or of a frame.
unfoldable pub seen : ConstantValues → List (Frame Evaluation) → Text → Bool
unfolding is_cached named find
seen cache pending key = is_cached (find key cache.values) || named key pending

pub same_text_sym : (x y : Text) → same_text x y ≡ true → same_text y x ≡ true
same_text_sym x y h = (same_text_iff y x).1 (sym ((same_text_iff x y).0 h))

pub is_cached-insert :
    (key name : Text) (v : ConstantValue) (values : List (Text × ConstantValue))
    → is_cached (find key ((name, v) ∷ values))
      ≡ (same_text key name || is_cached (find key values))
unfolding is_cached find
is_cached-insert key name v values = pick (same_text key name)
  where
    pick :
        (b : Bool)
        → is_cached (if b then some v else find key values) ≡ (b || is_cached (find key values))
    pick true = refl
    pick false = refl

-- A settled declaration stays seen.
pub seen-settle :
    (cache : ConstantValues) (current : Frame Evaluation) (pending : List (Frame Evaluation))
    (v : ConstantValue) (key : Text)
    → seen cache (current ∷ pending) key ≡ true
    → seen (insert_value cache current.name v) pending key ≡ true
unfolding seen named
seen-settle cache current pending v key h =
    ground
      (arith, h, is_cached-insert key current.name v cache.values, same_text_sym current.name key)

named-apart :
    (key : Text) (pending : List (Frame Evaluation))
    → All (λ (f : Frame Evaluation). f.name ≢ key) pending
    → named key pending ≡ false
unfolding named
named-apart key [] apart = refl
named-apart key (f ∷ pending) apart =
    ground (arith, same_text_other f.name key apart.0, named-apart key pending apart.1)

-- A name without a value or a frame is not seen, and with a frame it is.
pub unseen :
    (cache : ConstantValues) (pending : List (Frame Evaluation)) (key : Text)
    → find key cache.values ≡ none
    → All (λ (f : Frame Evaluation). f.name ≢ key) pending
    → seen cache pending key ≡ false
unfolding seen is_cached
unseen cache pending key free apart = rw (seen, free, named-apart key pending apart) refl

pub seen-top :
    (cache : ConstantValues) (f : Frame Evaluation) (pending : List (Frame Evaluation))
    → seen cache (f ∷ pending) f.name ≡ true
unfolding seen named
seen-top cache f pending = ground (arith, same_text_refl f.name)

pub seen-push :
    (cache : ConstantValues) (f : Frame Evaluation) (pending : List (Frame Evaluation)) (key : Text)
    → seen cache pending key ≡ true
    → seen cache (f ∷ pending) key ≡ true
unfolding seen named
seen-push cache f pending key h = ground (arith, h)
