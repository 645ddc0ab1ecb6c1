-- ===== src/Tests/Constants.antt =====
-- Runs of src/sema/constants.rs and src/sema/constants/ on small declarations.
use mathlib.Core.Option.{some-injective}
use speck.Base.{
  ◌↔◌, text, Bool, true, false, subst, same_text, ℕ, Text, text, List, [], ◌∷◌, Option, none, some,
  ◌≡◌, refl, find, ◌<◌, arith, suc, ltb, if◌then◌else◌,
}
use speck.Base.Int.{ℤ, pos}
use speck.Diagnostic.{Span, Diagnostic, new_span}
use speck.Result.{Result, ok}
use speck.Builtins.{is_predefined_constant}
use speck.Resolution.{default_resolution}
use speck.Sema.Constants.Predefined.{is_predefined_constant_iff}
use speck.Sema.Constants.Bounded.{Holds, Bounded}
use speck.Sema.Constants.Arithmetic.{Settles, integer, reference, operation, adds, multiplies}
use speck.Sema.Constants.Arithmetic.Returns.{resume-exact}
use speck.Sema.Constants.Range.{resume-Bounded}
use speck.Sema.Constants.Cache.{
  new_values, ConstantDefinition, Definitions, diagnostic, dependency, ConstantValues, lookup,
}
use speck.Sema.Constants.Consistent.{Consistent}
use speck.Sema.Constants.Depth.{
  Check, max_depth, nesting_values, check_aggregate_depth, check_aggregate_depth_lem,
}
use speck.Sema.Constants.Evaluation.{resume, stopped}
use speck.Sema.Constants.Tasks.{new, state, Task, Evaluation}
use speck.Sema.Constants.Evaluator.{evaluate_named}
use speck.Sema.Constants.Reference.{eval}
use speck.Sema.Constants.Resume.{answer, resume-eval}
use speck.Sema.Constants.Schedule.{finished}
use speck.Sema.Constants.Sound.{Returned, evaluate_named-Consistent}
use speck.Sema.Constants.Weight.{weight}
use speck.Sema.Constants.Total.{evaluate_named-total}
use speck.Sema.Constants.Suspend.{StopsAfter, resume-suspended}
use speck.Syntax.Expr.{Expr, expr, ExprKind}
use speck.Syntax.Value.{ConstantValue, Values}
use speck.Syntax.{BinaryOp, ValueType}

abbrev here : Span
here = new_span 0 1

abbrev a : Text
a = b'A' ∷ []

abbrev b : Text
b = b'B' ∷ []

-- `B * 2 + 1`
abbrev twice_and_one : Expr
twice_and_one =
    expr
      (ExprKind.binary
        (expr
          (ExprKind.binary (expr (ExprKind.variable b) here) BinaryOp.multiply
            (expr (ExprKind.i32 (pos 2)) here))
          here)
        BinaryOp.add (expr (ExprKind.i32 (pos 1)) here))
      here

-- `const A: i32 = B * 2 + 1` and `const B: i32 = 20`
abbrev two_constants : Definitions
two_constants =
    (a, record { ty = ValueType.i32; init = twice_and_one; span = here })
    ∷ (b, record { ty = ValueType.i32; init = expr (ExprKind.i32 (pos 20)) here; span = here })
    ∷ []

abbrev empty_cache : ConstantValues
empty_cache = record { values = []; failures = [] }

abbrev full_cache : ConstantValues
full_cache = record {
  values = (a, ConstantValue.i32 (pos 41)) ∷ (b, ConstantValue.i32 (pos 20)) ∷ [];
  failures = [];
}

empty_cache-Consistent : Consistent [] [] [] two_constants empty_cache
unfolding Consistent find
empty_cache-Consistent name v h = absurd (cc h)

-- A waits for B, which is evaluated, and goes on.
evaluated :
    evaluate_named [] [] [] 10 two_constants 4 empty_cache a
    ≡ finished (ok (ConstantValue.i32 (pos 41))) full_cache
unfolding evaluate_named speck.Base.same_text
evaluated = refl

evaluate_named-Consistent_example :
    Consistent [] [] [] two_constants full_cache
    × Returned a (ok (ConstantValue.i32 (pos 41))) full_cache
evaluate_named-Consistent_example =
    evaluate_named-Consistent [] [] [] two_constants [] 10 4 empty_cache a empty_cache-Consistent
      evaluated

light : weight [] twice_and_one < 10
unfolding weight
light = omega arith

resume-eval_example :
    answer (resume diagnostic [] (lookup full_cache) 10 (new twice_and_one none))
    ≡ some (eval diagnostic [] (lookup full_cache) twice_and_one none)
resume-eval_example = resume-eval diagnostic [] (lookup full_cache) twice_and_one none 10 light

answer_41 :
    eval diagnostic [] (lookup full_cache) twice_and_one none ≡ ok (ConstantValue.i32 (pos 41))
unfolding eval lookup speck.Base.same_text
answer_41 = refl

-- The state where A waits for B.
abbrev waiting : Evaluation
waiting =
    state
      (Task.expression (expr (ExprKind.variable b) here) none
        ∷ Task.binary_left BinaryOp.multiply (expr (ExprKind.i32 (pos 2)) here) here
        ∷ Task.binary_left BinaryOp.add (expr (ExprKind.i32 (pos 1)) here) here
        ∷ [])
      []

suspended :
    resume diagnostic [] (lookup empty_cache) 4 (new twice_and_one none)
    ≡ stopped (dependency b here) waiting
unfolding resume lookup new
suspended = refl

empty_cache-extends :
    (key : Text) (span : Span) (v : ConstantValue)
    → lookup empty_cache key span ≡ ok v
    → lookup full_cache key span ≡ ok v
unfolding lookup
empty_cache-extends key span v h = absurd (cc h)

resume-suspended_example :
    ((rounds : ℕ) × StopsAfter diagnostic []
        (lookup empty_cache)
        (lookup full_cache)
        (new twice_and_one none)
        (dependency b here)
        waiting
        rounds)
    × (answer (resume diagnostic [] (lookup full_cache) 10 waiting)
        ≡ some (eval diagnostic [] (lookup full_cache) twice_and_one none))
resume-suspended_example =
    resume-suspended diagnostic [] (lookup empty_cache) (lookup full_cache) empty_cache-extends
      twice_and_one none 4 10 suspended (λ d. cc) light

abbrev one_array : Values
one_array = Values.cons (ConstantValue.array ValueType.i32 Values.nil) Values.nil

check_aggregate_depth_lem_example :
    check_aggregate_depth one_array
    ≡ (if ltb max_depth (suc (nesting_values one_array)) then Check.exceeded else Check.within)
check_aggregate_depth_lem_example = check_aggregate_depth_lem one_array

two_light :
    (x y : Bool) {d : ConstantDefinition}
    → (if x
        then some (record { ty = ValueType.i32; init = twice_and_one; span = here })
        else (if y
            then some (record {
              ty = ValueType.i32;
              init = expr (ExprKind.i32 (pos 20)) here;
              span = here;
            })
            else none))
      ≡ some d
    → weight [] d.init < 10
unfolding weight
two_light true y h =
    subst (λ (d : ConstantDefinition). weight [] d.init < 10) (some-injective _ _ h) (omega arith)
two_light false true h =
    subst (λ (d : ConstantDefinition). weight [] d.init < 10) (some-injective _ _ h) (omega arith)
two_light false false h = absurd (cc h)

two_constants-light :
    (other : Text) (d : ConstantDefinition)
    → find other two_constants ≡ some d
    → weight [] d.init < 10
unfolding find
two_constants-light other d h = two_light (same_text other a) (same_text other b) h

evaluate_named-total_example :
    (r : Result Diagnostic ConstantValue) × (later : ConstantValues) × (evaluate_named [] [] [] 10
        two_constants 6 empty_cache a
      ≡ finished r later)
    × Consistent [] [] [] two_constants later
    × Returned a r later
unfolding find same_text
evaluate_named-total_example =
    evaluate_named-total [] [] [] two_constants [] 10 6 empty_cache a
      (record { ty = ValueType.i32; init = twice_and_one; span = here }) empty_cache-Consistent refl
      two_constants-light (omega arith)

abbrev twenty : Text → Span → Result Diagnostic ConstantValue
twenty key span = ok (ConstantValue.i32 (pos 20))

twenty-Bounded : (key : Text) (span : Span) → Holds Bounded (twenty key span)
unfolding Holds Bounded
twenty-Bounded key span = (refl, omega arith)

resume-Bounded_example :
    (r : Result Diagnostic ConstantValue) × (answer
        (resume (λ d. d) [] twenty 10 (new twice_and_one none))
      ≡ some r)
    × Holds Bounded r
resume-Bounded_example =
    resume-Bounded (λ d. d) [] twenty twenty-Bounded twice_and_one none 10 light

twenty-integers :
    (key : Text) (span : Span) (v : ConstantValue)
    → twenty key span ≡ ok v
    → (n : ℤ) × (v ≡ ConstantValue.i32 n)
twenty-integers key span v h = (pos 20, cc h)

resume-exact_example :
    (r : Result Diagnostic ConstantValue) × (answer
        (resume (λ d. d) [] twenty 10 (new twice_and_one none))
      ≡ some r)
    × Settles twenty twice_and_one r
resume-exact_example =
    resume-exact (λ d. d) [] twenty twenty-integers none 10
      (operation (operation reference multiplies integer) adds integer) light

is_predefined_constant_iff_example :
    (is_predefined_constant [] (text "FRAMEBUFFER_WIDTH") ≡ true) ↔ (
      (v : ConstantValue) × (lookup
          (new_values [] default_resolution)
          (text "FRAMEBUFFER_WIDTH")
          here
        ≡ ok v))
is_predefined_constant_iff_example =
    is_predefined_constant_iff [] default_resolution (text "FRAMEBUFFER_WIDTH") here
