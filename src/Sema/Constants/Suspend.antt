-- ===== src/Sema/Constants/Suspend.antt =====
-- A lookup that fails leaves the evaluation of src/sema/constants/evaluation.rs where a later
-- `resume` goes on.
use speck.Base.{
  ℕ, zero, suc, ◌+◌, Text, Option, some, List, [], ◌∷◌, ◌≡◌, refl, sym, ◌∙◌, ap, ◌≢◌, ◌<◌, ◌≤◌,
  subst, arith,
}
use speck.Diagnostic.{Span, Diagnostic}
use speck.Result.{Result, ok, err}
use speck.Sema.Constants.Correct.{eval-Comes}
use speck.Sema.Constants.Evaluation.{
  Next, running, returned, stopped, panicked, exhausted, step, resume,
}
use speck.Sema.Constants.Tasks.{Task, Structs, Evaluation, state, new}
use speck.Sema.Constants.Reference.{eval}
use speck.Sema.Constants.Resume.{answer, answer_of_Comes, round, variable_round, step-lighter}
use speck.Sema.Constants.Rounds.{Diagnoses, View, looks_up, fixed, view}
use speck.Sema.Constants.Steps.{Comes, arrived, halted, next}
use speck.Sema.Constants.Weight.{weight, tasks_weight}
use speck.Syntax.{ValueType}
use speck.Syntax.Expr.{variable, Expr, expr}
use speck.Syntax.Value.{ConstantValue}

module _ {E : Type 0} (from : Diagnostic → E) (structs : Structs)
    (lookup : Text → Span → Result E ConstantValue) where
  -- A round leads to one state.
  pub Comes-after :
      {r : Result E ConstantValue} {tasks : List Task} {values : List ConstantValue}
      {s : Evaluation}
      → step from structs lookup tasks values ≡ running s
      → Comes from structs lookup (λ v. v ∷ []) [] r tasks values
      → Comes from structs lookup (λ v. v ∷ []) [] r s.tasks s.values
  unfolding step
  Comes-after h (arrived v) = absurd (cc h)
  Comes-after h (halted s k) = absurd (cc (h, k))
  Comes-after {r = r} h (next s k c) =
      subst {A = Evaluation} (λ t. Comes from structs lookup (λ v. v ∷ []) [] r t.tasks t.values)
        (cc (h, k)) c

  stop-variable :
      {x : E} {s : Evaluation} (waiting : Evaluation) (next_state : ConstantValue → Evaluation)
      (found : Result E ConstantValue)
      → elim found [ ok v ↦ running (next_state v) | err y ↦ stopped y waiting ] ≡ stopped x s
      → s ≡ waiting
  stop-variable waiting next_state (ok v) h = absurd (cc h)
  stop-variable waiting next_state (err y) h = cc h

  -- A stop that is no diagnostic leaves the state as it was.
  step-suspends :
      {x : E} {s : Evaluation} (tasks : List Task) (values : List ConstantValue)
      → View from structs tasks values
      → step from structs lookup tasks values ≡ stopped x s
      → ((d : Diagnostic) → x ≢ from d)
      → s ≡ state tasks values
  unfolding Diagnoses
  step-suspends tasks values (fixed (stopped y t) d light same) h other =
      absurd (other d.0 (cc (h, same lookup, d.1)))
  step-suspends tasks values (fixed (running t) d light same) h other = absurd (cc (h, same lookup))
  step-suspends tasks values (fixed (returned v t) d light same) h other =
      absurd (cc (h, same lookup))
  step-suspends tasks values (fixed panicked d light same) h other = absurd (cc (h, same lookup))
  step-suspends tasks values (fixed exhausted d light same) h other = absurd (cc (h, same lookup))
  step-suspends _ values (looks_up name span expected tasks _) h other =
      stop-variable (state (Task.expression (expr (variable name) span) expected ∷ tasks) values)
        (λ v. state tasks (v ∷ values)) (lookup name span)
        (sym (variable_round from structs lookup name span expected tasks values refl) ∙ h)

  lighter_round :
      {x : E} {s : Evaluation} (fuel : ℕ) (tasks : List Task) (values : List ConstantValue)
      → ((t : Evaluation)
          → resume from structs lookup fuel t ≡ stopped x s
          → tasks_weight structs s.tasks ≤ tasks_weight structs t.tasks)
      → resume from structs lookup (suc fuel) (state tasks values) ≡ stopped x s
      → ((d : Diagnostic) → x ≢ from d)
      → (now : Next E) → step from structs lookup tasks values ≡ now
      → tasks_weight structs s.tasks ≤ tasks_weight structs tasks
  lighter_round fuel tasks values go_on h other (running t) e = omega (
    arith,
    go_on t (sym (round from structs lookup tasks values fuel e) ∙ h),
    step-lighter from structs lookup tasks values (view from structs tasks values) e,
  )
  lighter_round {s = s} fuel tasks values go_on h other (stopped y t) e =
      let same =
        step-suspends tasks values (view from structs tasks values)
          (e ∙ sym (round from structs lookup tasks values fuel e) ∙ h) other in
      omega (arith, ap (λ (u : Evaluation). tasks_weight structs u.tasks) same)
  lighter_round fuel tasks values go_on h other (returned v t) e =
      absurd (cc (round from structs lookup tasks values fuel e, h))
  lighter_round fuel tasks values go_on h other panicked e =
      absurd (cc (round from structs lookup tasks values fuel e, h))
  lighter_round fuel tasks values go_on h other exhausted e =
      absurd (cc (round from structs lookup tasks values fuel e, h))

  -- What a suspension leaves to do is no more than there was.
  pub lighter_stop :
      {x : E} {s : Evaluation} (fuel : ℕ) (t : Evaluation)
      → resume from structs lookup fuel t ≡ stopped x s
      → ((d : Diagnostic) → x ≢ from d)
      → tasks_weight structs s.tasks ≤ tasks_weight structs t.tasks
  unfolding resume
  lighter_stop zero t h other = absurd (cc h)
  lighter_stop (suc fuel) t h other =
      lighter_round fuel t.tasks t.values (λ u k. lighter_stop fuel u k other) h other
        (step from structs lookup t.tasks t.values) refl

module _ {E : Type 0} (from : Diagnostic → E) (structs : Structs)
    (earlier later : Text → Span → Result E ConstantValue) where
  -- How a stop came about: so many rounds went on and led to the state that is left, the next one
  -- stopped; and from that state a later run is the rest of a run from the start that has these
  -- rounds behind it.
  abbrev pub StopsAfter : Evaluation → E → Evaluation → ℕ → Type 0
  StopsAfter t x s rounds =
      (resume from structs earlier rounds t ≡ running s)
      × (resume from structs earlier (suc rounds) t ≡ stopped x s)
      × ((more : ℕ)
          → resume from structs later (rounds + more) t ≡ resume from structs later more s)

module _ {E : Type 0} (from : Diagnostic → E) (structs : Structs)
    (earlier later : Text → Span → Result E ConstantValue)
    (extends : (name : Text) (span : Span) (v : ConstantValue)
      → earlier name span ≡ ok v
      → later name span ≡ ok v) where
  found-extends :
      {s : Evaluation} (waiting : Evaluation) (next_state : ConstantValue → Evaluation)
      (found : Result E ConstantValue)
      → elim found [ ok v ↦ running (next_state v) | err y ↦ stopped y waiting ] ≡ running s
      → (v : ConstantValue) × (found ≡ ok v) × (next_state v ≡ s)
  found-extends waiting next_state (ok v) h = (v, refl, cc h)
  found-extends waiting next_state (err y) h = absurd (cc h)

  -- A round that goes on does so with every lookup that knows more.
  pub step-extends :
      {s : Evaluation} (tasks : List Task) (values : List ConstantValue)
      → View from structs tasks values
      → step from structs earlier tasks values ≡ running s
      → step from structs later tasks values ≡ running s
  step-extends tasks values (fixed now d light same) h = same later ∙ sym (same earlier) ∙ h
  step-extends _ values (looks_up name span expected tasks _) h =
      let found =
        found-extends (state (Task.expression (expr (variable name) span) expected ∷ tasks) values)
          (λ v. state tasks (v ∷ values)) (earlier name span)
          (sym (variable_round from structs earlier name span expected tasks values refl) ∙ h) in
      variable_round from structs later name span expected tasks values
        (extends name span found.0 found.1)
      ∙ ap running found.2

  suspends_round :
      {r : Result E ConstantValue} {x : E} {s : Evaluation} (fuel : ℕ) (tasks : List Task)
      (values : List ConstantValue)
      → ((t : Evaluation)
          → Comes from structs later (λ v. v ∷ []) [] r t.tasks t.values
          → resume from structs earlier fuel t ≡ stopped x s
          → Comes from structs later (λ v. v ∷ []) [] r s.tasks s.values)
      → Comes from structs later (λ v. v ∷ []) [] r tasks values
      → resume from structs earlier (suc fuel) (state tasks values) ≡ stopped x s
      → ((d : Diagnostic) → x ≢ from d)
      → (now : Next E) → step from structs earlier tasks values ≡ now
      → Comes from structs later (λ v. v ∷ []) [] r s.tasks s.values
  suspends_round fuel tasks values go_on c h other (running t) e =
      go_on t
        (Comes-after from structs later
          (step-extends tasks values (view from structs tasks values) e) c)
        (sym (round from structs earlier tasks values fuel e) ∙ h)
  suspends_round {r = r} {x = x} {s = s} fuel tasks values go_on c h other (stopped y t) e =
      let stop = sym (round from structs earlier tasks values fuel e) ∙ h in
      let same =
        step-suspends from structs earlier tasks values (view from structs tasks values) (e ∙ stop)
          other in
      subst {A = Evaluation} (λ t. Comes from structs later (λ v. v ∷ []) [] r t.tasks t.values)
        (sym same) c
  suspends_round fuel tasks values go_on c h other (returned v t) e =
      absurd (cc (round from structs earlier tasks values fuel e, h))
  suspends_round fuel tasks values go_on c h other panicked e =
      absurd (cc (round from structs earlier tasks values fuel e, h))
  suspends_round fuel tasks values go_on c h other exhausted e =
      absurd (cc (round from structs earlier tasks values fuel e, h))

  pub Comes-suspends :
      {r : Result E ConstantValue} {x : E} {s : Evaluation} (fuel : ℕ) (tasks : List Task)
      (values : List ConstantValue)
      → Comes from structs later (λ v. v ∷ []) [] r tasks values
      → resume from structs earlier fuel (state tasks values) ≡ stopped x s
      → ((d : Diagnostic) → x ≢ from d)
      → Comes from structs later (λ v. v ∷ []) [] r s.tasks s.values
  unfolding resume
  Comes-suspends zero tasks values c h other = absurd (cc h)
  Comes-suspends (suc fuel) tasks values c h other =
      suspends_round fuel tasks values (λ t d k. Comes-suspends fuel t.tasks t.values d k other) c h
        other (step from structs earlier tasks values) refl

  stops_round :
      {x : E} {s : Evaluation} (fuel : ℕ) (tasks : List Task) (values : List ConstantValue)
      → ((t : Evaluation)
          → resume from structs earlier fuel t ≡ stopped x s
          → (rounds : ℕ) × StopsAfter from structs earlier later t x s rounds)
      → resume from structs earlier (suc fuel) (state tasks values) ≡ stopped x s
      → ((d : Diagnostic) → x ≢ from d)
      → (now : Next E) → step from structs earlier tasks values ≡ now
      → (rounds : ℕ) × StopsAfter from structs earlier later (state tasks values) x s rounds
  unfolding resume
  stops_round {s = s} fuel tasks values go_on h other (running t) e =
      let went = go_on t (sym (round from structs earlier tasks values fuel e) ∙ h) in
      (
        suc went.0,
        (
          round from structs earlier tasks values went.0 e ∙ went.1.0,
          round from structs earlier tasks values (suc went.0) e ∙ went.1.1,
          λ more.
              let sum : suc went.0 + more ≡ suc (went.0 + more) = omega arith in
              ap (λ n. resume from structs later n (state tasks values)) sum
              ∙ round from structs later tasks values (went.0 + more)
                  (step-extends tasks values (view from structs tasks values) e)
              ∙ went.1.2 more,
        ),
      )
  stops_round {s = s} fuel tasks values go_on h other (stopped y t) e =
      let stop = sym (round from structs earlier tasks values fuel e) ∙ h in
      let same =
        step-suspends from structs earlier tasks values (view from structs tasks values) (e ∙ stop)
          other in
      (
        0,
        (
          ap running (sym same),
          round from structs earlier tasks values 0 e ∙ stop,
          λ more.
              let sum : 0 + more ≡ more = omega arith in
              ap (λ n. resume from structs later n (state tasks values)) sum
              ∙ ap (resume from structs later more) (sym same),
        ),
      )
  stops_round fuel tasks values go_on h other (returned v t) e = absurd (cc (e, h))
  stops_round fuel tasks values go_on h other panicked e = absurd (cc (e, h))
  stops_round fuel tasks values go_on h other exhausted e = absurd (cc (e, h))

  stops :
      {x : E} {s : Evaluation} (fuel : ℕ) (t : Evaluation)
      → resume from structs earlier fuel t ≡ stopped x s
      → ((d : Diagnostic) → x ≢ from d)
      → (rounds : ℕ) × StopsAfter from structs earlier later t x s rounds
  unfolding resume
  stops zero t h other = absurd (cc h)
  stops (suc fuel) t h other =
      stops_round fuel t.tasks t.values (λ u k. stops fuel u k other) h other
        (step from structs earlier t.tasks t.values) refl

  -- Where an evaluation stopped with an error that is no diagnostic, so at a lookup, going on from
  -- its state with a lookup that keeps the found values and may find more loses and repeats nothing.
  -- The run did so many rounds, left the state that they led to, and stopped in the next one; and for
  -- every further number of rounds, too small ones included, a run from that state gives what a run
  -- from the start with the later lookup gives in that number and the rounds done before. With a
  -- round for each unit of the expression's weight and one more it returns what evaluation by
  -- recursion on the expression does.
  pub resume-suspended :
      (e : Expr) (expected : Option ValueType) (before after : ℕ) {x : E} {s : Evaluation}
      → resume from structs earlier before (new e expected) ≡ stopped x s
      → ((d : Diagnostic) → x ≢ from d)
      → weight structs e < after
      → ((rounds : ℕ) × StopsAfter from structs earlier later (new e expected) x s rounds)
        × (answer (resume from structs later after s) ≡ some (eval from structs later e expected))
  unfolding new tasks_weight
  resume-suspended e expected before after h other enough = (
    stops before (new e expected) h other,
    answer_of_Comes from structs later after
        (Comes-suspends before _ [] (eval-Comes from structs later e expected [] []) h other)
        (omega (arith, enough, lighter_stop from structs earlier before (new e expected) h other)),
  )
