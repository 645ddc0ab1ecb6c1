-- ===== src/Sema/Constants/Determined.antt =====
-- Runs of src/sema/constants/evaluation.rs have one result, which a lookup that knows more keeps.
use speck.Base.{ℕ, zero, suc, Text, Option, List, [], ◌∷◌, ◌≡◌, refl, sym, ◌∙◌, ◌≢◌}
use speck.Diagnostic.{Span, Diagnostic}
use speck.Result.{Result, ok, err}
use speck.Sema.Constants.Correct.{eval-Comes}
use speck.Sema.Constants.Evaluation.{
  Next, running, returned, stopped, panicked, exhausted, step, resume,
}
use speck.Sema.Constants.Tasks.{Task, Structs, Evaluation, state}
use speck.Sema.Constants.Reference.{eval}
use speck.Sema.Constants.Resume.{round, variable_round}
use speck.Sema.Constants.Rounds.{Diagnoses, View, looks_up, fixed, view}
use speck.Sema.Constants.Steps.{Comes, arrived, halted, next}
use speck.Sema.Constants.Suspend.{Comes-after, step-extends}
use speck.Syntax.{ValueType}
use speck.Syntax.Expr.{variable, Expr, expr}
use speck.Syntax.Value.{ConstantValue}

module _ {E : Type 0} (from : Diagnostic → E) (structs : Structs)
    (lookup : Text → Span → Result E ConstantValue) where
  abbrev Run : Result E ConstantValue → List Task → List ConstantValue → Type 0
  Run r tasks values = Comes from structs lookup (λ v. v ∷ []) [] r tasks values

  Run-returned :
      {r : Result E ConstantValue} {tasks : List Task} {values : List ConstantValue}
      {v : ConstantValue} {s : Evaluation}
      → Run r tasks values
      → step from structs lookup tasks values ≡ returned v s
      → r ≡ ok v
  unfolding step
  Run-returned (arrived w) h = cc h
  Run-returned (halted s k) h = absurd (cc (h, k))
  Run-returned (next s k c) h = absurd (cc (h, k))

  Run-stopped :
      {r : Result E ConstantValue} {tasks : List Task} {values : List ConstantValue} {x : E}
      {s : Evaluation}
      → Run r tasks values
      → step from structs lookup tasks values ≡ stopped x s
      → r ≡ err x
  unfolding step
  Run-stopped (arrived w) h = absurd (cc h)
  Run-stopped (halted s k) h = cc (h, k)
  Run-stopped (next s k c) h = absurd (cc (h, k))

  -- What `resume` returns is the result of the run.
  result_round :
      {r : Result E ConstantValue} {v : ConstantValue} {t : Evaluation} (fuel : ℕ)
      (tasks : List Task) (values : List ConstantValue)
      → ((s : Evaluation)
          → Run r s.tasks s.values
          → resume from structs lookup fuel s ≡ returned v t
          → r ≡ ok v)
      → Run r tasks values
      → resume from structs lookup (suc fuel) (state tasks values) ≡ returned v t
      → (now : Next E) → step from structs lookup tasks values ≡ now
      → r ≡ ok v
  result_round fuel tasks values go_on c h (running s) e =
      go_on s (Comes-after from structs lookup e c)
        (sym (round from structs lookup tasks values fuel e) ∙ h)
  result_round fuel tasks values go_on c h (returned w s) e =
      Run-returned c e ∙ cc (round from structs lookup tasks values fuel e, h)
  result_round fuel tasks values go_on c h (stopped x s) e =
      absurd (cc (round from structs lookup tasks values fuel e, h))
  result_round fuel tasks values go_on c h panicked e =
      absurd (cc (round from structs lookup tasks values fuel e, h))
  result_round fuel tasks values go_on c h exhausted e =
      absurd (cc (round from structs lookup tasks values fuel e, h))

  pub resume-returned :
      {r : Result E ConstantValue} {v : ConstantValue} {t : Evaluation} (fuel : ℕ)
      (tasks : List Task) (values : List ConstantValue)
      → Comes from structs lookup (λ v. v ∷ []) [] r tasks values
      → resume from structs lookup fuel (state tasks values) ≡ returned v t
      → r ≡ ok v
  unfolding resume
  resume-returned zero tasks values c h = absurd (cc h)
  resume-returned (suc fuel) tasks values c h =
      result_round fuel tasks values (λ s d k. resume-returned fuel s.tasks s.values d k) c h
        (step from structs lookup tasks values) refl

  Run-unique :
      {r q : Result E ConstantValue} {tasks : List Task} {values : List ConstantValue}
      → Run r tasks values
      → Run q tasks values
      → r ≡ q
  unfolding step
  Run-unique (arrived v) d = sym (Run-returned d refl)
  Run-unique (halted s h) d = sym (Run-stopped d h)
  Run-unique (next s h c) d = Run-unique c (Comes-after from structs lookup h d)

module _ {E : Type 0} (from : Diagnostic → E) (structs : Structs)
    (earlier later : Text → Span → Result E ConstantValue)
    (extends : (name : Text) (span : Span) (v : ConstantValue)
      → earlier name span ≡ ok v
      → later name span ≡ ok v) where
  Comes-extends :
      {v : ConstantValue} {r : Result E ConstantValue} {tasks : List Task}
      {values : List ConstantValue}
      → r ≡ ok v
      → Comes from structs earlier (λ v. v ∷ []) [] r tasks values
      → Comes from structs later (λ v. v ∷ []) [] r tasks values
  Comes-extends e (arrived v) = arrived v
  Comes-extends e (halted s h) = absurd (cc e)
  Comes-extends {tasks = tasks} {values = values} e (next s h c) =
      next s
        (step-extends from structs earlier later extends tasks values
          (view from structs tasks values) h)
        (Comes-extends e c)

  -- An expression with a value keeps it when more declarations have theirs.
  pub eval-extends :
      (e : Expr) (expected : Option ValueType) {v : ConstantValue}
      → eval from structs earlier e expected ≡ ok v
      → eval from structs later e expected ≡ ok v
  eval-extends e expected h =
      Run-unique from structs later (eval-Comes from structs later e expected [] [])
        (Comes-extends h (eval-Comes from structs earlier e expected [] []))
      ∙ h

module _ {E : Type 0} (from : Diagnostic → E) (structs : Structs)
    (lookup : Text → Span → Result E ConstantValue) where
  -- An error that is no diagnostic is a lookup's.
  Missed : E → Type 0
  Missed x = (name : Text) × (span : Span) × (lookup name span ≡ err x)

  Missed-variable :
      {x : E} {s : Evaluation} (name : Text) (span : Span) (waiting : Evaluation)
      (next_state : ConstantValue → Evaluation) (found : Result E ConstantValue)
      → lookup name span ≡ found
      → elim found [ ok v ↦ running (next_state v) | err y ↦ stopped y waiting ] ≡ stopped x s
      → Missed x
  unfolding Missed
  Missed-variable name span waiting next_state (ok v) e h = absurd (cc h)
  Missed-variable name span waiting next_state (err y) e h = (name, span, cc (e, h))

  step-Missed :
      {x : E} {s : Evaluation} (tasks : List Task) (values : List ConstantValue)
      → View from structs tasks values
      → step from structs lookup tasks values ≡ stopped x s
      → ((d : Diagnostic) → x ≢ from d)
      → Missed x
  unfolding Diagnoses
  step-Missed tasks values (fixed (stopped y t) d light same) h other =
      absurd (other d.0 (cc (h, same lookup, d.1)))
  step-Missed tasks values (fixed (running t) d light same) h other = absurd (cc (h, same lookup))
  step-Missed tasks values (fixed (returned v t) d light same) h other =
      absurd (cc (h, same lookup))
  step-Missed tasks values (fixed panicked d light same) h other = absurd (cc (h, same lookup))
  step-Missed tasks values (fixed exhausted d light same) h other = absurd (cc (h, same lookup))
  step-Missed _ values (looks_up name span expected tasks _) h other =
      Missed-variable name span
        (state (Task.expression (expr (variable name) span) expected ∷ tasks) values)
        (λ v. state tasks (v ∷ values)) (lookup name span) refl
        (sym (variable_round from structs lookup name span expected tasks values refl) ∙ h)

  Missed-round :
      {x : E} {t : Evaluation} (fuel : ℕ) (tasks : List Task) (values : List ConstantValue)
      → ((s : Evaluation) → resume from structs lookup fuel s ≡ stopped x t → Missed x)
      → resume from structs lookup (suc fuel) (state tasks values) ≡ stopped x t
      → ((d : Diagnostic) → x ≢ from d)
      → (now : Next E) → step from structs lookup tasks values ≡ now
      → Missed x
  Missed-round fuel tasks values go_on h other (running s) e =
      go_on s (sym (round from structs lookup tasks values fuel e) ∙ h)
  Missed-round fuel tasks values go_on h other (stopped y s) e =
      step-Missed tasks values (view from structs tasks values)
        (e ∙ sym (round from structs lookup tasks values fuel e) ∙ h) other
  Missed-round fuel tasks values go_on h other (returned w s) e =
      absurd (cc (round from structs lookup tasks values fuel e, h))
  Missed-round fuel tasks values go_on h other panicked e =
      absurd (cc (round from structs lookup tasks values fuel e, h))
  Missed-round fuel tasks values go_on h other exhausted e =
      absurd (cc (round from structs lookup tasks values fuel e, h))

  pub resume-missed :
      {x : E} {t : Evaluation} (fuel : ℕ) (s : Evaluation)
      → resume from structs lookup fuel s ≡ stopped x t
      → ((d : Diagnostic) → x ≢ from d)
      → (name : Text) × (span : Span) × (lookup name span ≡ err x)
  unfolding resume Missed
  resume-missed zero s h other = absurd (cc h)
  resume-missed (suc fuel) s h other =
      Missed-round fuel s.tasks s.values (λ t k. resume-missed fuel t k other) h other
        (step from structs lookup s.tasks s.values) refl
