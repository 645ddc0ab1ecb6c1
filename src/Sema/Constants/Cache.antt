-- ===== src/Sema/Constants/Cache.antt =====
-- `ConstantValues` of src/sema/constants/dependencies.rs: the values and the failures of
-- declarations.
use speck.Base.{Text, Bool, true, false, Option, none, some, List, [], ◌∷◌, find}
use speck.Base.Int.{ℤ}
use speck.Builtins.{builtin_constants}
use speck.Diagnostic.{Span, Diagnostic}
use speck.Resolution.{Resolution}
use speck.Result.{Result, ok, err}
use speck.Syntax.{ValueType}
use speck.Syntax.Expr.{Expr}
use speck.Syntax.Value.{ConstantValue}

-- `ConstantDefinition` of src/sema/constants.rs
pub record ConstantDefinition : Type 0 where
  pub ty : ValueType
  pub init : Expr
  pub span : Span

abbrev pub Definitions : Type 0
Definitions = List (Text × ConstantDefinition)

pub data EvaluationError : Type 0 where
  diagnostic : Diagnostic → EvaluationError
  dependency : Text → Span → EvaluationError

-- The later entry of a name stands first.
pub record ConstantValues : Type 0 where
  pub values : List (Text × ConstantValue)
  pub failures : List (Text × Diagnostic)

-- `collect` into a table, whose later entries replace the earlier.
unfoldable pub collect {ℓ} : {A : Type ℓ} → List (Text × A) → List (Text × A) → List (Text × A)
collect [] table = table
collect (entry ∷ entries) table = collect entries (entry ∷ table)

-- `ConstantValues::new`
unfoldable pub new_values : List (Text × ℤ) → Resolution → ConstantValues
unfolding builtin_constants collect
new_values keys resolution = record {
  values = collect (builtin_constants keys resolution) [];
  failures = [];
}

-- `ConstantValues::failed`
unfoldable pub failed : ConstantValues → Text → Bool
unfolding find
failed cache name = elim (find name cache.failures) [ some d ↦ true | none ↦ false ]

unfoldable pub look_further : Text → Span → Option Diagnostic → Result EvaluationError ConstantValue
look_further name span (some d) = err (EvaluationError.diagnostic d)
look_further name span none = err (EvaluationError.dependency name span)

unfoldable pub look_up_value :
    Text
    → Span
    → List (Text × Diagnostic)
    → Option ConstantValue
    → Result EvaluationError ConstantValue
unfolding look_further find
look_up_value name span failures (some v) = ok v
look_up_value name span failures none = look_further name span (find name failures)

-- `ConstantValues::lookup`
unfoldable pub lookup : ConstantValues → Text → Span → Result EvaluationError ConstantValue
unfolding look_up_value find
lookup cache name span = look_up_value name span cache.failures (find name cache.values)

-- `self.values.insert(…)`
abbrev pub insert_value : ConstantValues → Text → ConstantValue → ConstantValues
insert_value cache name v = record { values = (name, v) ∷ cache.values; failures = cache.failures }
