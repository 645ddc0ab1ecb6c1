-- ===== src/Sema/Constants/Predefined.antt =====
-- `is_predefined_constant` of src/builtins.rs against the cache that an evaluation starts with.
use speck.Base.{
  Text, true, ◌||◌, Option, none, some, List, [], ◌∷◌, ◌≡◌, refl, ◌∙◌, ap, ◌↔◌, find, same_text,
  arith,
}
use speck.Base.Int.{ℤ}
use speck.Builtins.{builtin_constants, has_name, is_predefined_constant}
use speck.Diagnostic.{Span, Diagnostic}
use speck.Resolution.{Resolution, default_resolution}
use speck.Result.{ok}
use speck.Sema.Constants.Cache.{collect, new_values, lookup, look_up_value, look_further}
use speck.Sema.Constants.Unvisited.{is_cached, is_cached-insert, same_text_sym}
use speck.Syntax.Value.{ConstantValue}

-- The names do not depend on the resolution.
has_name-builtin_constants :
    (keys : List (Text × ℤ)) (r q : Resolution) (name : Text)
    → has_name (builtin_constants keys r) name ≡ has_name (builtin_constants keys q) name
unfolding has_name builtin_constants
has_name-builtin_constants [] r q name = refl
has_name-builtin_constants ((key, n) ∷ keys) r q name =
    ap (λ b. same_text key name || b) (has_name-builtin_constants keys r q name)

is_cached-collect :
    (name : Text) (entries table : List (Text × ConstantValue))
    → is_cached (find name (collect entries table))
      ≡ (has_name entries name || is_cached (find name table))
unfolding collect has_name
is_cached-collect name [] table = refl
is_cached-collect name ((key, v) ∷ entries) table =
    is_cached-collect name entries ((key, v) ∷ table)
    ∙ ground
        (arith, is_cached-insert name key v table, same_text_sym name key, same_text_sym key name)

found_iff :
    (name : Text) (span : Span) (failures : List (Text × Diagnostic)) (o : Option ConstantValue)
    → find name failures ≡ none
    → (is_cached o ≡ true) ↔ ((v : ConstantValue) × (look_up_value name span failures o ≡ ok v))
unfolding is_cached look_up_value look_further
found_iff name span failures (some v) h = (λ e. (v, refl), λ e. refl)
found_iff name span failures none h =
    (λ e. absurd (cc e), λ e. absurd (cc (e.1, ap (look_further name span) h)))

-- A name is a predefined constant exactly when a lookup in a new cache finds it, whatever the
-- resolution of the game is.
pub is_predefined_constant_iff :
    (keys : List (Text × ℤ)) (resolution : Resolution) (name : Text) (span : Span)
    → (is_predefined_constant keys name ≡ true)
      ↔ ((v : ConstantValue) × (lookup (new_values keys resolution) name span ≡ ok v))
unfolding is_predefined_constant lookup new_values find is_cached
is_predefined_constant_iff keys resolution name span =
    let same = is_cached-collect name (builtin_constants keys resolution) [] in
    let names = has_name-builtin_constants keys resolution default_resolution name in
    let found =
      found_iff name span [] (find name (collect (builtin_constants keys resolution) [])) refl in
    (λ h. found.0 (same ∙ ground (arith, names, h)), λ h. ground (arith, names, same, found.1 h))
