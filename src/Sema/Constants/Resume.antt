-- ===== src/Sema/Constants/Resume.antt =====
-- `Evaluation::resume` of src/sema/constants/evaluation.rs against the recursive evaluation, from
-- the start and after a suspension.
use speck.Base.{
  ℕ, zero, suc, Text, Option, none, some, List, [], ◌∷◌, ◌≡◌, refl, sym, ◌∙◌, ap, ◌<◌, arith, subst,
}
use speck.Diagnostic.{Span, Diagnostic}
use speck.Result.{Result, ok, err}
use speck.Sema.Constants.Correct.{eval-Comes}
use speck.Sema.Constants.Evaluation.{
  Next, running, returned, stopped, panicked, exhausted, step, resume, use_variable,
}
use speck.Sema.Constants.Tasks.{Task, Structs, Evaluation, state, new}
use speck.Sema.Constants.Reference.{eval}
use speck.Sema.Constants.Rounds.{View, looks_up, fixed, view}
use speck.Sema.Constants.Weight.{weight, tasks_weight, Lighter}
use speck.Sema.Constants.Steps.{Comes, arrived, halted, next}
use speck.Syntax.{ValueType}
use speck.Syntax.Expr.{variable, Expr, expr}
use speck.Syntax.Value.{ConstantValue}

-- What `resume` returned, if it did.
unfoldable pub answer : {E : Type 0} → Next E → Option (Result E ConstantValue)
answer (returned v s) = some (ok v)
answer (stopped x s) = some (err x)
answer _ = none

module _ {E : Type 0} (from : Diagnostic → E) (structs : Structs)
    (lookup : Text → Span → Result E ConstantValue) where
  pub round :
      (tasks : List Task) (values : List ConstantValue) (fuel : ℕ) {now : Next E}
      → step from structs lookup tasks values ≡ now
      → resume from structs lookup (suc fuel) (state tasks values) ≡ elim now [
        | running s ↦ resume from structs lookup fuel s
        | returned v s ↦ returned v s
        | stopped x s ↦ stopped x s
        | panicked ↦ panicked
        | exhausted ↦ exhausted
      ]
  unfolding resume
  round tasks values fuel h = rw (h, resume) refl

  -- A round at a variable, by what the lookup gives.
  pub variable_round :
      (name : Text) (span : Span) (expected : Option ValueType) (tasks : List Task)
      (values : List ConstantValue) {found : Result E ConstantValue}
      → lookup name span ≡ found
      → step from structs lookup
          (Task.expression (expr (variable name) span) expected ∷ tasks)
          values
        ≡ elim found [
          | ok v ↦ running (state tasks (v ∷ values))
          | err x ↦
              stopped x
                (state (Task.expression (expr (variable name) span) expected ∷ tasks) values)
        ]
  unfolding step use_variable
  variable_round name span expected tasks values h = rw (h, use_variable) refl

  looked_up :
      {s : Evaluation} (waiting : Evaluation) (next_state : ConstantValue → Evaluation)
      (found : Result E ConstantValue)
      → elim found [ ok v ↦ running (next_state v) | err y ↦ stopped y waiting ] ≡ running s
      → (v : ConstantValue) × (next_state v ≡ s)
  looked_up waiting next_state (ok v) h = (v, cc h)
  looked_up waiting next_state (err y) h = absurd (cc h)

  -- Each round that goes on makes the tasks lighter.
  pub step-lighter :
      {s : Evaluation} (tasks : List Task) (values : List ConstantValue)
      → View from structs tasks values
      → step from structs lookup tasks values ≡ running s
      → tasks_weight structs s.tasks < tasks_weight structs tasks
  unfolding Lighter tasks_weight
  step-lighter {s = s} tasks values (fixed (running t) d light same) h =
      subst {A = Evaluation} (λ u. tasks_weight structs u.tasks < tasks_weight structs tasks)
        {x = t} {y = s} (cc (h, same lookup)) light
  step-lighter tasks values (fixed (stopped y t) d light same) h = absurd (cc (h, same lookup))
  step-lighter tasks values (fixed (returned v t) d light same) h = absurd (cc (h, same lookup))
  step-lighter tasks values (fixed panicked d light same) h = absurd (cc (h, same lookup))
  step-lighter tasks values (fixed exhausted d light same) h = absurd (cc (h, same lookup))
  step-lighter _ values (looks_up name span expected tasks _) h =
      let found =
        looked_up (state (Task.expression (expr (variable name) span) expected ∷ tasks) values)
          (λ v. state tasks (v ∷ values)) (lookup name span)
          (sym (variable_round name span expected tasks values refl) ∙ h) in
      subst {A = Evaluation}
        (λ u.
          tasks_weight structs u.tasks
          < tasks_weight structs (Task.expression (expr (variable name) span) expected ∷ tasks))
        found.1 (omega arith)

  pub answer_of_Comes :
      {r : Result E ConstantValue} {tasks : List Task} {values : List ConstantValue} (fuel : ℕ)
      → Comes from structs lookup (λ v. v ∷ []) [] r tasks values
      → tasks_weight structs tasks < fuel
      → answer (resume from structs lookup fuel (state tasks values)) ≡ some r
  unfolding answer step
  answer_of_Comes zero c enough = absurd (omega (arith, enough))
  answer_of_Comes (suc fuel) (arrived v) enough = ap answer (round [] (v ∷ []) fuel refl)
  answer_of_Comes {tasks = tasks} {values = values} (suc fuel) (halted s h) enough =
      ap answer (round tasks values fuel h)
  answer_of_Comes {tasks = tasks} {values = values} (suc fuel) (next s h c) enough =
      ap answer (round tasks values fuel h)
      ∙ answer_of_Comes fuel c
          (omega (arith, enough, step-lighter tasks values (view from structs tasks values) h))

  -- With a round for each unit of the expression's weight and one more, evaluating a constant
  -- expression returns, with what the evaluation by recursion on the expression returns, be it a
  -- value or an error: it neither runs on nor lacks an operand on its stack.
  pub resume-eval :
      (e : Expr) (expected : Option ValueType) (fuel : ℕ)
      → weight structs e < fuel
      → answer (resume from structs lookup fuel (new e expected))
        ≡ some (eval from structs lookup e expected)
  unfolding new tasks_weight
  resume-eval e expected fuel enough =
      answer_of_Comes fuel (eval-Comes from structs lookup e expected [] []) (omega (arith, enough))
