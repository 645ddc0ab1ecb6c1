-- ===== src/Sema/Constants/Evaluation.antt =====
-- `Evaluation` of src/sema/constants/evaluation.rs: an expression is evaluated on a stack of tasks
-- and a stack of values, and a failed lookup leaves the state for a later `resume`.
use speck.Base.{
  ℕ, zero, suc, ◌-◌, Text, text, same_text, Bool, true, false, not, Option, none, some, List, [],
  ◌∷◌, length, ltb, if◌then◌else◌,
}
use speck.Diagnostic.{Span, Diagnostic, new_diagnostic}
use speck.Outcome.{Outcome}
use speck.Result.{Result, ok, err}
use speck.Sema.Constants.Messages.{no_field}
use speck.Sema.Constants.Depth.{check_aggregate_depth, nesting_error, Check}
use speck.Sema.Constants.Values.{
  convert_constant, evaluate_binary, unary_value, boolean_error, index_value,
}
use speck.Syntax.{ValueType, BinaryOp}
use speck.Syntax.Expr.{variable, Expr, expr}
use speck.Syntax.Value.{ConstantValue, Values, NamedValues}
use speck.Sema.Constants.Tasks.{Task, Evaluation, state, Structs, expand}

pub data Next (E : Type 0) : Type 0 where
  running : Evaluation → Next E
  returned : ConstantValue → Evaluation → Next E
  stopped : E → Evaluation → Next E
  panicked exhausted : Next E

-- `split_off`: the top values, back in the order of their evaluation, and the others.
unfoldable pub split_off : ℕ → List ConstantValue → Values → Values × List ConstantValue
split_off zero values taken = (taken, values)
split_off (suc n) [] taken = (taken, [])
split_off (suc n) (v ∷ values) taken = split_off n values (Values.cons v taken)

unfoldable pub zip : List Text → Values → NamedValues
zip (name ∷ names) (Values.cons v vs) = NamedValues.named name v (zip names vs)
zip _ _ = NamedValues.end

unfoldable pub find_value : NamedValues → Text → Option ConstantValue
find_value NamedValues.end name = none
find_value (NamedValues.named key v rest) name =
    let later = find_value rest name in if same_text key name then some v else later

unfoldable pub field_value : ConstantValue → Text → Span → Result Diagnostic ConstantValue
unfolding find_value no_field
field_value (ConstantValue.struct name fields) key span = elim (find_value fields key) [
  | some v ↦ ok v
  | none ↦ err (no_field name key span)
]
field_value _ key span = err (new_diagnostic (text "only struct values have fields") span)

unfoldable pub is_logical : BinaryOp → Bool
is_logical BinaryOp.logical_and = true
is_logical BinaryOp.logical_or = true
is_logical _ = false

unfoldable pub is_or : BinaryOp → Bool
is_or BinaryOp.logical_or = true
is_or _ = false

-- A message at a span.
unfoldable pub at {ℓ} : {A : Type ℓ} → Span → Result Text A → Result Diagnostic A
at span (ok a) = ok a
at span (err message) = err (new_diagnostic message span)

-- The errors of the source of declarations' values, which take in diagnostics.
module _ {E : Type 0} (from : Diagnostic → E) where
  -- `self.values.push(…?)`
  unfoldable pub push_value :
      List Task → List ConstantValue → Result Diagnostic ConstantValue → Next E
  push_value tasks values (ok v) = running (state tasks (v ∷ values))
  push_value tasks values (err d) = stopped (from d) (state tasks values)

  -- `check_aggregate_depth(…)?` in front of building the aggregate.
  unfoldable pub admit : Check → List Task → Span → List ConstantValue → Evaluation → Next E
  unfolding nesting_error
  admit Check.within tasks span values built = running built
  admit Check.exceeded tasks span values built =
      stopped (from (nesting_error span)) (state tasks values)
  admit Check.exhausted tasks span values built = exhausted

  unfoldable pub finish_aggregate :
      List Task → ℕ → Span → List ConstantValue → (Values → ConstantValue) → Next E
  finish_aggregate tasks start span values make =
      let parts = split_off (length values - start) values Values.nil in
      if ltb (length values) start
      then panicked
      else admit (check_aggregate_depth parts.0) tasks span values
          (state tasks (make parts.0 ∷ parts.1))

  unfoldable pub start_boolean :
      BinaryOp → Expr → Span → List Task → ConstantValue → List ConstantValue → Next E
  unfolding is_or boolean_error
  start_boolean op right span tasks (ConstantValue.bool left) values =
      if (if is_or op then left else not left)
      then running (state tasks (ConstantValue.bool left ∷ values))
      else running (state (Task.expression right none ∷ Task.boolean_right op span ∷ tasks) values)
  start_boolean op right span tasks left values =
      stopped (from (boolean_error op span)) (state tasks values)

  unfoldable pub expanded : List Task → List ConstantValue → Outcome Evaluation → Next E
  expanded tasks values (Outcome.ok s) = running s
  expanded tasks values (Outcome.fail d) = stopped (from d) (state tasks values)
  expanded tasks values Outcome.panic = panicked
  expanded tasks values Outcome.exhausted = exhausted

  -- A task on top that needs no lookup, with the others and the values.
  unfoldable pub run_task : Structs → Task → List Task → List ConstantValue → Next E
  unfolding push_value finish_aggregate start_boolean expanded expand zip field_value at is_logical
      boolean_error convert_constant evaluate_binary unary_value index_value
  run_task structs (Task.expression (expr kind span) expected) tasks values =
      expanded tasks values (expand structs kind span expected tasks values)
  run_task structs (Task.array element start span) tasks values =
      finish_aggregate tasks start span values (ConstantValue.array element)
  run_task structs (Task.struct name fields start span) tasks values =
      finish_aggregate tasks start span values (λ vs. ConstantValue.struct name (zip fields vs))
  run_task structs (Task.index span) tasks (i ∷ base ∷ values) =
      push_value tasks values (index_value base i span)
  run_task structs (Task.field name span) tasks (base ∷ values) =
      push_value tasks values (field_value base name span)
  run_task structs (Task.unary op span) tasks (v ∷ values) =
      push_value tasks values (at span (unary_value op v))
  run_task structs (Task.conversion target span) tasks (v ∷ values) =
      push_value tasks values (at span (convert_constant target v))
  run_task structs (Task.binary_left op right span) tasks (left ∷ values) =
      if is_logical op
      then start_boolean op right span tasks left values
      else running
          (state (Task.expression right none ∷ Task.binary_finish op span ∷ tasks) (left ∷ values))
  run_task structs (Task.binary_left op right span) tasks [] =
      if is_logical op
      then panicked
      else running (state (Task.expression right none ∷ Task.binary_finish op span ∷ tasks) [])
  run_task structs (Task.binary_finish op span) tasks (right ∷ left ∷ values) =
      push_value tasks values (at span (evaluate_binary left op right))
  run_task structs (Task.boolean_right op span) tasks (ConstantValue.bool b ∷ values) =
      running (state tasks (ConstantValue.bool b ∷ values))
  run_task structs (Task.boolean_right op span) tasks values =
      stopped (from (boolean_error op span)) (state tasks values)
  run_task structs _ tasks values = panicked

-- Where declarations' values come from.
module _ {E : Type 0} (from : Diagnostic → E) (structs : Structs)
    (lookup : Text → Span → Result E ConstantValue) where
  unfoldable pub use_variable :
      Text → Span → Option ValueType → List Task → List ConstantValue → Next E
  use_variable name span expected tasks values = elim (lookup name span) [
    | ok v ↦ running (state tasks (v ∷ values))
    | err x ↦
        stopped x (state (Task.expression (expr (variable name) span) expected ∷ tasks) values)
  ]

  -- At the end one value is left (`debug_assert_eq!`).
  unfoldable pub step : List Task → List ConstantValue → Next E
  unfolding run_task use_variable
  step [] (v ∷ []) = returned v (state [] [])
  step [] values = panicked
  step (Task.expression (expr (variable name) span) expected ∷ tasks) values =
      use_variable name span expected tasks values
  step (task ∷ tasks) values = run_task from structs task tasks values

  -- `Evaluation::resume`, one task a round.
  unfoldable pub resume : ℕ → Evaluation → Next E
  unfolding step
  resume zero s = running s
  resume (suc fuel) s = elim (step s.tasks s.values) [
    | running next ↦ resume fuel next
    | returned v next ↦ returned v next
    | stopped x next ↦ stopped x next
    | panicked ↦ panicked
    | exhausted ↦ exhausted
  ]
