-- ===== src/Sema/Constants/Consistent.antt =====
-- The cache of src/sema/constants.rs: each value is what its declaration's initializer evaluates to
-- under the cache, of the declared type, whatever suspensions led there.
use speck.Base.{
  Text, none, some, List, ◌≡◌, sym, ◌∙◌, ap, ◌⊎◌, inl, inr, find, same_text, same_text_iff,
  Bool-cases, subst,
}
use mathlib.Core.Option.{some-injective}
use speck.Diagnostic.{Diagnostic}
use speck.Result.{Result, ok}
use speck.Sema.Constants.Cache.{
  ConstantDefinition, Definitions, EvaluationError, diagnostic, ConstantValues, insert_value,
}
use speck.Sema.Constants.Determined.{eval-extends}
use speck.Sema.Constants.Tasks.{Structs}
use speck.Sema.Constants.Evaluator.{Globals, constant_lookup}
use speck.Sema.Constants.Reference.{eval}
use speck.Sema.Constants.Tables.{
  Extends, constant_lookup-Extends, find_other, find_same, same_text_refl,
}
use speck.Syntax.Value.{ConstantValue, type_of}

pub Extends-insert :
    (cache : ConstantValues) (name : Text) (v : ConstantValue)
    → find name cache.values ≡ none
    → Extends cache (insert_value cache name v)
unfolding Extends
Extends-insert cache name v h other w e =
    find_other other name v cache.values (λ q. absurd (cc (h, e, ap (λ n. find n cache.values) q)))
    ∙ e

pub Extends-trans : (a b c : ConstantValues) → Extends a b → Extends b c → Extends a c
unfolding Extends
Extends-trans a b c h k name v e = k name v (h name v e)

module _ (globals : Globals) (structs : Structs) where
  -- What the initializer of a declaration comes to under a cache.
  unfoldable pub meaning :
      ConstantValues → ConstantDefinition → Result EvaluationError ConstantValue
  unfolding eval constant_lookup
  meaning cache definition =
      eval diagnostic structs (constant_lookup globals cache) definition.init (some definition.ty)

module _ (globals : Globals) (structs : Structs) (builtins : List (Text × ConstantValue))
    (definitions : Definitions) where
  unfoldable pub Defined : ConstantValues → Text → ConstantValue → Type 0
  Defined cache name v =
      (definition : ConstantDefinition) × (find name definitions ≡ some definition)
      × (meaning globals structs cache definition ≡ ok v)
      × (type_of v ≡ definition.ty)

  -- Every value is a builtin's, or its declaration's.
  unfoldable pub Consistent : ConstantValues → Type 0
  Consistent cache =
      (name : Text) (v : ConstantValue)
      → find name cache.values ≡ some v
      → (find name builtins ≡ some v) ⊎ Defined cache name v

  meaning-Extends :
      (cache later : ConstantValues) (definition : ConstantDefinition) {v : ConstantValue}
      → Extends cache later
      → meaning globals structs cache definition ≡ ok v
      → meaning globals structs later definition ≡ ok v
  unfolding meaning
  meaning-Extends cache later definition more h =
      eval-extends diagnostic structs (constant_lookup globals cache)
        (constant_lookup globals later) (constant_lookup-Extends globals cache later more)
        definition.init (some definition.ty) h

  pub Defined-Extends :
      (cache later : ConstantValues) (name : Text) (v : ConstantValue)
      → Extends cache later
      → Defined cache name v
      → Defined later name v
  unfolding Defined
  Defined-Extends cache later name v more d =
      (d.0, d.1, meaning-Extends cache later d.0 more d.2, d.3)

  pub Consistent-insert :
      (cache : ConstantValues) (name : Text) (v : ConstantValue)
      → Consistent cache
      → find name cache.values ≡ none
      → Defined cache name v
      → Consistent (insert_value cache name v)
  unfolding Consistent
  Consistent-insert cache name v good free d other w h = elim (Bool-cases (same_text other name)) [
    | inl e ↦
        let same = (same_text_iff other name).0 e in
        let value = some-injective _ _ (
          sym (find_same name v cache.values)
          ∙ sym (ap (λ n. find n (insert_value cache name v).values) same)
          ∙ h) in
        inr (
          subst (λ n. Defined (insert_value cache name v) n w) (sym same)
            (subst (λ u. Defined (insert_value cache name v) name u) value
              (Defined-Extends cache (insert_value cache name v) name v
                (Extends-insert cache name v free) d)))
    | inr e ↦
        elim (good other w (
          sym (
            find_other other name v cache.values
              (λ q. absurd (cc (e, same_text_refl other, ap (λ n. same_text other n) q))))
          ∙ h)) [
            | inl b ↦ inl b
            | inr k ↦ inr (
                Defined-Extends cache (insert_value cache name v) other w
                  (Extends-insert cache name v free) k)
          ]
  ]

  -- Failures do not touch the values.
  pub Consistent-failures :
      (cache : ConstantValues) (failures : List (Text × Diagnostic))
      → Consistent cache
      → Consistent (record { values = cache.values; failures = failures })
  unfolding Consistent Extends
  Consistent-failures cache failures good name v h = elim (good name v h) [
    | inl b ↦ inl b
    | inr d ↦ inr (
        Defined-Extends cache (record { values = cache.values; failures = failures }) name v
          (λ n w e. e) d)
  ]
