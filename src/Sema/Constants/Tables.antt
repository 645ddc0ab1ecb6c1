-- ===== src/Sema/Constants/Tables.antt =====
-- The tables of src/sema/constants/dependencies.rs: what a lookup says of the cached values, and
-- entries under other names.
use speck.Base.{
  ℕ, Text, true, false, Option, none, some, List, [], ◌∷◌, ◌≡◌, refl, sym, ◌∙◌, ap, ◌≢◌, inl, inr,
  find, same_text, same_text_iff, Bool-cases,
}
use speck.Diagnostic.{Span, Diagnostic}
use speck.Result.{ok, err}
use speck.Sema.Constants.Cache.{dependency, ConstantValues, look_up_value, look_further}
use speck.Sema.Constants.Evaluator.{Globals, constant_lookup, unless_global}
use speck.Sema.Constants.Schedule.{remove}
use speck.Syntax.{ValueType}
use speck.Syntax.Value.{ConstantValue}

pub same_text_other : (a b : Text) → a ≢ b → same_text a b ≡ false
same_text_other a b h = elim (Bool-cases (same_text a b)) [
  | inl e ↦ absurd (h ((same_text_iff a b).0 e))
  | inr e ↦ e
]

pub same_text_refl : (a : Text) → same_text a a ≡ true
same_text_refl a = (same_text_iff a a).1 refl

pub find_other {ℓ} :
    {A : Type ℓ} (name key : Text) (a : A) (table : List (Text × A))
    → key ≢ name
    → find name ((key, a) ∷ table) ≡ find name table
unfolding find
find_other name key a table h = rw (same_text_other name key (λ e. h (sym e))) refl

pub find_same {ℓ} :
    {A : Type ℓ} (name : Text) (a : A) (table : List (Text × A))
    → find name ((name, a) ∷ table) ≡ some a
unfolding find
find_same name a table = rw (same_text_refl name) refl

pub find-remove :
    (name key : Text) (table : List (Text × ℕ))
    → key ≢ name
    → find name (remove key table) ≡ find name table
unfolding find remove
find-remove name key [] h = refl
find-remove name key ((k, n) ∷ table) h = elim (Bool-cases (same_text k key)) [
  | inl e ↦
      rw (e, same_text_other name k (λ q. h (sym (q ∙ (same_text_iff k key).0 e))))
        (find-remove name key table h)
  | inr e ↦ rw (e, find-remove name key table h) refl
]

-- A later cache has the values of the earlier one.
unfoldable pub Extends : ConstantValues → ConstantValues → Type 0
Extends cache later =
    (name : Text) (v : ConstantValue)
    → find name cache.values ≡ some v
    → find name later.values ≡ some v

found_value :
    (name : Text) (span : Span) (failures : List (Text × Diagnostic)) (global : Option ValueType)
    (cached : Option ConstantValue) (failure : Option Diagnostic) {v : ConstantValue}
    → find name failures ≡ failure
    → unless_global name span global (look_up_value name span failures cached) ≡ ok v
    → (global ≡ none) × (cached ≡ some v)
unfolding unless_global look_up_value look_further
found_value name span failures (some ty) cached failure e h = absurd (cc h)
found_value name span failures none (some w) failure e h = (refl, cc h)
found_value name span failures none none none e h = absurd (cc (h, ap (look_further name span) e))
found_value name span failures none none (some d) e h =
    absurd (cc (h, ap (look_further name span) e))

missing_value :
    (name : Text) (span : Span) (failures : List (Text × Diagnostic)) (global : Option ValueType)
    (cached : Option ConstantValue) (failure : Option Diagnostic) {needed : Text} {used : Span}
    → find name failures ≡ failure
    → unless_global name span global (look_up_value name span failures cached)
      ≡ err (dependency needed used)
    → (name ≡ needed) × (cached ≡ none)
unfolding unless_global look_up_value look_further
missing_value name span failures (some ty) cached failure e h = absurd (cc h)
missing_value name span failures none (some w) failure e h = absurd (cc h)
missing_value name span failures none none none e h = (cc (h, ap (look_further name span) e), refl)
missing_value name span failures none none (some d) e h =
    absurd (cc (h, ap (look_further name span) e))

-- More values in the cache only add to what a lookup finds.
pub constant_lookup-Extends :
    (globals : Globals) (cache later : ConstantValues)
    → Extends cache later
    → (name : Text) (span : Span) (v : ConstantValue)
    → constant_lookup globals cache name span ≡ ok v
    → constant_lookup globals later name span ≡ ok v
unfolding Extends constant_lookup
constant_lookup-Extends globals cache later more name span v h =
    let found =
      found_value name span cache.failures (find name globals) (find name cache.values)
        (find name cache.failures) refl h in
    rw (constant_lookup, found.0, more name v found.1) refl

-- A name that a lookup asks for has no value.
pub constant_lookup-missing :
    (globals : Globals) (cache : ConstantValues) (name : Text) (span : Span) {needed : Text}
    {used : Span}
    → constant_lookup globals cache name span ≡ err (dependency needed used)
    → (name ≡ needed) × (find name cache.values ≡ none)
unfolding constant_lookup
constant_lookup-missing globals cache name span h =
    missing_value name span cache.failures (find name globals) (find name cache.values)
      (find name cache.failures) refl h
