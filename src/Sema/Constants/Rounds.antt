-- ===== src/Sema/Constants/Rounds.antt =====
-- The rounds of `resume` in src/sema/constants/evaluation.rs: which of them depend on the lookup, and
-- the errors that the others stop with.
use speck.Base.{ℕ, Text, not, Option, List, [], ◌∷◌, ◌≡◌, refl, length, ltb, if◌then◌else◌, if_both}
use speck.Diagnostic.{Span, Diagnostic}
use speck.Outcome.{Outcome}
use speck.Result.{Result, ok, err}
use speck.Sema.Constants.Depth.{Check}
use speck.Sema.Constants.Evaluation.{
  Next, returned, stopped, panicked, step, run_task, push_value, admit, finish_aggregate,
  start_boolean, expanded, field_value, at, zip, is_logical, is_or,
}
use speck.Sema.Constants.Tasks.{Task, Structs, Evaluation, expand}
use speck.Sema.Constants.Values.{index_value, unary_value, convert_constant, evaluate_binary}
use speck.Sema.Constants.Weight.{Lighter, Lighter-run_task, tasks_weight}
use speck.Syntax.{ValueType, BinaryOp}
use speck.Syntax.Expr.{ExprKind, variable, Expr, expr}
use speck.Syntax.Value.{ConstantValue, Values}

module _ {E : Type 0} (from : Diagnostic → E) where
  -- A stop is with a diagnostic.
  unfoldable pub Diagnoses : Next E → Type 0
  Diagnoses (stopped x s) = (d : Diagnostic) × (x ≡ from d)
  Diagnoses _ = Unit

  Diagnoses-push_value :
      (tasks : List Task) (values : List ConstantValue) (r : Result Diagnostic ConstantValue)
      → Diagnoses (push_value from tasks values r)
  unfolding Diagnoses push_value
  Diagnoses-push_value tasks values (ok v) = tt
  Diagnoses-push_value tasks values (err d) = (d, refl)

  Diagnoses-admit :
      (c : Check) (tasks : List Task) (span : Span) (values : List ConstantValue)
      (built : Evaluation)
      → Diagnoses (admit from c tasks span values built)
  unfolding Diagnoses admit
  Diagnoses-admit Check.within tasks span values built = tt
  Diagnoses-admit Check.exceeded tasks span values built = (_, refl)
  Diagnoses-admit Check.exhausted tasks span values built = tt

  Diagnoses-finish_aggregate :
      (tasks : List Task) (start : ℕ) (span : Span) (values : List ConstantValue)
      (make : Values → ConstantValue)
      → Diagnoses (finish_aggregate from tasks start span values make)
  unfolding Diagnoses finish_aggregate
  Diagnoses-finish_aggregate tasks start span values make =
      if_both Diagnoses (ltb (length values) start) (λ e. tt)
        (λ e. Diagnoses-admit _ tasks span values _)

  Diagnoses-start_boolean :
      (op : BinaryOp) (right : Expr) (span : Span) (tasks : List Task) (left : ConstantValue)
      (values : List ConstantValue)
      → Diagnoses (start_boolean from op right span tasks left values)
  unfolding Diagnoses start_boolean
  Diagnoses-start_boolean op right span tasks (ConstantValue.bool left) values =
      if_both Diagnoses (if is_or op then left else not left) (λ e. tt) (λ e. tt)
  Diagnoses-start_boolean op right span tasks (ConstantValue.i32 n) values = (_, refl)
  Diagnoses-start_boolean op right span tasks (ConstantValue.f32 n) values = (_, refl)
  Diagnoses-start_boolean op right span tasks (ConstantValue.struct name fields) values = (_, refl)
  Diagnoses-start_boolean op right span tasks (ConstantValue.array ty vs) values = (_, refl)

  Diagnoses-expanded :
      (tasks : List Task) (values : List ConstantValue) (o : Outcome Evaluation)
      → Diagnoses (expanded from tasks values o)
  unfolding Diagnoses expanded
  Diagnoses-expanded tasks values (Outcome.ok s) = tt
  Diagnoses-expanded tasks values (Outcome.fail d) = (d, refl)
  Diagnoses-expanded tasks values Outcome.panic = tt
  Diagnoses-expanded tasks values Outcome.exhausted = tt

  -- Only a lookup stops with another error.
  Diagnoses-run_task :
      (structs : Structs) (task : Task) (tasks : List Task) (values : List ConstantValue)
      → Diagnoses (run_task from structs task tasks values)
  unfolding Diagnoses run_task
  Diagnoses-run_task structs (Task.expression (expr kind span) expected) tasks values =
      Diagnoses-expanded tasks values (expand structs kind span expected tasks values)
  Diagnoses-run_task structs (Task.array element start span) tasks values =
      Diagnoses-finish_aggregate tasks start span values (λ vs. ConstantValue.array element vs)
  Diagnoses-run_task structs (Task.struct name fields start span) tasks values =
      Diagnoses-finish_aggregate tasks start span values
        (λ vs. ConstantValue.struct name (zip fields vs))
  Diagnoses-run_task structs (Task.index span) tasks [] = tt
  Diagnoses-run_task structs (Task.index span) tasks (i ∷ []) = tt
  Diagnoses-run_task structs (Task.index span) tasks (i ∷ base ∷ values) =
      Diagnoses-push_value tasks values (index_value base i span)
  Diagnoses-run_task structs (Task.field name span) tasks [] = tt
  Diagnoses-run_task structs (Task.field name span) tasks (v ∷ values) =
      Diagnoses-push_value tasks values (field_value v name span)
  Diagnoses-run_task structs (Task.unary op span) tasks [] = tt
  Diagnoses-run_task structs (Task.unary op span) tasks (v ∷ values) =
      Diagnoses-push_value tasks values (at span (unary_value op v))
  Diagnoses-run_task structs (Task.conversion target span) tasks [] = tt
  Diagnoses-run_task structs (Task.conversion target span) tasks (v ∷ values) =
      Diagnoses-push_value tasks values (at span (convert_constant target v))
  Diagnoses-run_task structs (Task.binary_left op right span) tasks [] =
      if_both Diagnoses (is_logical op) (λ e. tt) (λ e. tt)
  Diagnoses-run_task structs (Task.binary_left op right span) tasks (left ∷ values) =
      if_both Diagnoses (is_logical op)
        (λ e. Diagnoses-start_boolean op right span tasks left values) (λ e. tt)
  Diagnoses-run_task structs (Task.binary_finish op span) tasks [] = tt
  Diagnoses-run_task structs (Task.binary_finish op span) tasks (r ∷ []) = tt
  Diagnoses-run_task structs (Task.binary_finish op span) tasks (r ∷ l ∷ values) =
      Diagnoses-push_value tasks values (at span (evaluate_binary l op r))
  Diagnoses-run_task structs (Task.boolean_right op span) tasks [] = (_, refl)
  Diagnoses-run_task structs (Task.boolean_right op span) tasks (ConstantValue.bool b ∷ values) = tt
  Diagnoses-run_task structs (Task.boolean_right op span) tasks (ConstantValue.i32 n ∷ values) =
      (_, refl)
  Diagnoses-run_task structs (Task.boolean_right op span) tasks (ConstantValue.f32 n ∷ values) =
      (_, refl)
  Diagnoses-run_task structs (Task.boolean_right op span) tasks
        (ConstantValue.struct name fields ∷ values) =
      (_, refl)
  Diagnoses-run_task structs (Task.boolean_right op span) tasks
        (ConstantValue.array ty vs ∷ values) =
      (_, refl)

module _ {E : Type 0} (from : Diagnostic → E) (structs : Structs) where
  -- A round looks a variable up, or does the same whatever the lookup is.
  pub data View : List Task → List ConstantValue → Type 0 where
    looks_up :
        (name : Text) (span : Span) (expected : Option ValueType) (tasks : List Task)
        (values : List ConstantValue)
        → View (Task.expression (expr (variable name) span) expected ∷ tasks) values
    fixed :
        {tasks : List Task} {values : List ConstantValue} (now : Next E)
        → Diagnoses from now
        → Lighter structs (tasks_weight structs tasks) now
        → ((lookup : Text → Span → Result E ConstantValue)
            → step from structs lookup tasks values ≡ now)
        → View tasks values

  works :
      (task : Task) (tasks : List Task) (values : List ConstantValue)
      → ((lookup : Text → Span → Result E ConstantValue)
          → step from structs lookup (task ∷ tasks) values
            ≡ run_task from structs task tasks values)
      → View (task ∷ tasks) values
  unfolding tasks_weight
  works task tasks values h =
      fixed (run_task from structs task tasks values)
        (Diagnoses-run_task from structs task tasks values)
        (Lighter-run_task structs from task tasks values) h

  View-expression :
      (kind : ExprKind) (span : Span) (expected : Option ValueType) (tasks : List Task)
      (values : List ConstantValue)
      → View (Task.expression (expr kind span) expected ∷ tasks) values
  unfolding step
  View-expression (variable name) span expected tasks values =
      looks_up name span expected tasks values
  View-expression (ExprKind.i32 n) span expected tasks values = works _ tasks values (λ l. refl)
  View-expression (ExprKind.f32 n) span expected tasks values = works _ tasks values (λ l. refl)
  View-expression (ExprKind.bool n) span expected tasks values = works _ tasks values (λ l. refl)
  View-expression (ExprKind.array_literal es) span expected tasks values =
      works _ tasks values (λ l. refl)
  View-expression (ExprKind.struct_literal name fields) span expected tasks values =
      works _ tasks values (λ l. refl)
  View-expression (ExprKind.index base i) span expected tasks values =
      works _ tasks values (λ l. refl)
  View-expression (ExprKind.field base name s) span expected tasks values =
      works _ tasks values (λ l. refl)
  View-expression (ExprKind.unary op e) span expected tasks values =
      works _ tasks values (λ l. refl)
  View-expression (ExprKind.binary l op r) span expected tasks values =
      works _ tasks values (λ l. refl)
  View-expression (ExprKind.call name args) span expected tasks values =
      works _ tasks values (λ l. refl)
  View-expression (ExprKind.conversion target args) span expected tasks values =
      works _ tasks values (λ l. refl)

  pub view : (tasks : List Task) (values : List ConstantValue) → View tasks values
  unfolding step Diagnoses Lighter
  view [] [] = fixed panicked tt tt (λ l. refl)
  view [] (v ∷ []) = fixed (returned v _) tt tt (λ l. refl)
  view [] (v ∷ w ∷ values) = fixed panicked tt tt (λ l. refl)
  view (Task.expression (expr kind span) expected ∷ tasks) values =
      View-expression kind span expected tasks values
  view (Task.array element start span ∷ tasks) values = works _ tasks values (λ l. refl)
  view (Task.struct name fields start span ∷ tasks) values = works _ tasks values (λ l. refl)
  view (Task.index span ∷ tasks) values = works _ tasks values (λ l. refl)
  view (Task.field name span ∷ tasks) values = works _ tasks values (λ l. refl)
  view (Task.unary op span ∷ tasks) values = works _ tasks values (λ l. refl)
  view (Task.binary_left op right span ∷ tasks) values = works _ tasks values (λ l. refl)
  view (Task.binary_finish op span ∷ tasks) values = works _ tasks values (λ l. refl)
  view (Task.boolean_right op span ∷ tasks) values = works _ tasks values (λ l. refl)
  view (Task.conversion target span ∷ tasks) values = works _ tasks values (λ l. refl)
