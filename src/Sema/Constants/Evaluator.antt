-- ===== src/Sema/Constants/Evaluator.antt =====
-- `ConstantEvaluator` and the other entry points of src/sema/constants.rs.
use speck.Base.{ℕ, Text, text, ◌++◌, Option, none, some, List, [], find, contains, if◌then◌else◌}
use speck.Diagnostic.{Span, Diagnostic, new_diagnostic}
use speck.Result.{Result, ok, err}
use speck.Sema.Constants.Cache.{
  ConstantDefinition, Definitions, EvaluationError, diagnostic, dependency, ConstantValues, lookup,
}
use speck.Sema.Constants.Evaluation.{Next, running, returned, stopped, resume}
use speck.Sema.Constants.Tasks.{Evaluation, Structs, new}
use speck.Sema.Constants.Schedule.{Attempt, settled, waits, failed, Progress, Phase, evaluate}
use speck.Syntax.{ValueType}
use speck.Syntax.Expr.{Expr, span_of}
use speck.Syntax.Names.{same_type, type_name}
use speck.Syntax.Value.{ConstantValue, type_of}

-- A `HashMap<String, ValueType>`
abbrev pub Globals : Type 0
Globals = List (Text × ValueType)

unfoldable pub type_mismatch : Text → ConstantDefinition → ValueType → ValueType → Diagnostic
type_mismatch name definition declared actual =
    new_diagnostic
      (text "constant `"
        ++ name
        ++ text "` has declared type `"
        ++ type_name declared
        ++ text "`, but its initializer evaluates to `"
        ++ type_name actual
        ++ text "`")
      (span_of definition.init)

unfoldable pub validate_constant_type :
    Text → ConstantDefinition → ValueType → ConstantValue → Result Diagnostic ConstantValue
unfolding same_type type_of type_mismatch
validate_constant_type name definition ty v =
    if same_type (type_of v) ty then ok v else err (type_mismatch name definition ty (type_of v))

unfoldable pub mutable_global : Text → Text → Span → Diagnostic
mutable_global what name span =
    new_diagnostic (what ++ text " cannot reference mutable global `" ++ name ++ text "`") span

-- A mutable global has no constant value.
unfoldable pub unless_global :
    Text
    → Span
    → Option ValueType
    → Result EvaluationError ConstantValue
    → Result EvaluationError ConstantValue
unfolding mutable_global
unless_global name span (some ty) found =
    err (diagnostic (mutable_global (text "constant expressions") name span))
unless_global name span none found = found

-- The lookup of `evaluate_named`: a global shadows the cache.
unfoldable pub constant_lookup :
    Globals → ConstantValues → Text → Span → Result EvaluationError ConstantValue
unfolding unless_global lookup find
constant_lookup globals cache name span =
    unless_global name span (find name globals) (lookup cache name span)

-- The value of an initializer that has the declared type.
unfoldable pub validated : Result Diagnostic ConstantValue → Attempt Evaluation
validated (ok v) = settled v
validated (err d) = failed d

unfoldable pub attempted : Text → ConstantDefinition → Next EvaluationError → Attempt Evaluation
unfolding validated validate_constant_type
attempted name definition (returned v s) =
    validated (validate_constant_type name definition definition.ty v)
attempted name definition (stopped (diagnostic d) s) = failed d
attempted name definition (stopped (dependency needed span) s) = waits needed span s
attempted name definition (running s) = Attempt.exhausted
attempted name definition Next.panicked = Attempt.panicked
attempted name definition Next.exhausted = Attempt.exhausted

unfoldable pub invalid_initializer : Text → Span → Diagnostic
invalid_initializer name span =
    new_diagnostic (text "constant `" ++ name ++ text "` has an invalid initializer") span

unfoldable pub initialize : ConstantDefinition → Evaluation
unfolding new
initialize definition = new definition.init (some definition.ty)

module _ (globals : Globals) (structs : Structs) (invalid : List Text) (fuel : ℕ) where
  -- The initializer closure of `evaluate_named`, with fuel for `resume`.
  unfoldable pub initializer :
      Text → ConstantDefinition → Evaluation → ConstantValues → Attempt Evaluation
  unfolding attempted resume constant_lookup contains invalid_initializer
  initializer name definition s cache =
      if contains invalid name
      then failed (invalid_initializer name definition.span)
      else attempted name definition
          (resume diagnostic structs (constant_lookup globals cache) fuel s)

  -- `ConstantEvaluator::evaluate_named` (`self.definitions[name]`), with fuel for the scheduler.
  unfoldable pub evaluate_named : Definitions → ℕ → ConstantValues → Text → Progress Evaluation
  unfolding evaluate initializer initialize find
  evaluate_named definitions rounds cache name = elim (find name definitions) [
    | none ↦ Progress.panicked
    | some definition ↦
        evaluate definitions Phase.constant initialize initializer name rounds cache definition.span
  ]

-- The lookup of a global's initializer.
unfoldable pub initializer_lookup :
    List (Text × ConstantValue) → Globals → Text → Span → Result Diagnostic ConstantValue
unfolding find mutable_global
initializer_lookup constants globals name span = elim (find name constants) [
  | some v ↦ ok v
  | none ↦ (elim (find name globals) [
    | some ty ↦ err (mutable_global (text "global initializers") name span)
    | none ↦ err (new_diagnostic (text "`" ++ name ++ text "` is not a compile-time constant") span)
  ])
]

-- `evaluate_initializer` before its diagnostic is cut down to its message.
unfoldable pub evaluate_initializer :
    ℕ → Expr → ValueType → List (Text × ConstantValue) → Globals → Structs → Next Diagnostic
unfolding resume new initializer_lookup
evaluate_initializer fuel e expected constants globals structs =
    resume (λ d. d) structs (initializer_lookup constants globals) fuel (new e (some expected))

-- `evaluate_expression`
unfoldable pub evaluate_expression :
    {E : Type 0} → (Diagnostic → E) → ℕ → Expr → (Text → Span → Result E ConstantValue) → Next E
unfolding resume new
evaluate_expression from fuel e find_value = resume from [] find_value fuel (new e none)
