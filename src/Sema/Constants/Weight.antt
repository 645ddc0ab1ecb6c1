-- ===== src/Sema/Constants/Weight.antt =====
-- How many rounds `Evaluation::resume` of src/sema/constants/evaluation.rs takes: each round makes
-- the stack of tasks lighter.
use speck.Base.{
  ℕ, ◌+◌, ◌<◌, Text, Bool, true, false, not, Option, none, some, List, [], ◌∷◌, ◌≡◌, refl, sym, ◌∙◌,
  ap, arith, length, ltb, if◌then◌else◌, if_both, find, same_text, subst,
}
use mathlib.Core.Option.{some-injective}
use speck.Diagnostic.{Span, Diagnostic}
use speck.Result.{Result, ok, err}
use speck.Sema.Constants.Depth.{Check}
use speck.Sema.Constants.Evaluation.{
  Next, running, run_task, push_value, admit, finish_aggregate, start_boolean, expanded,
  field_value, at, zip, is_logical, is_or,
}
use speck.Sema.Constants.Tasks.{
  Task, Structs, Evaluation, state, expand, expand_struct, pushed, push_elements, push_fields,
  find_initializer, is_minimum, array_shape, struct_shape, length_exprs, literal_i32, literal_f32,
  field_names,
}
use speck.Sema.Constants.Steps.{push_field-inversion}
use speck.Sema.Constants.Values.{index_value, unary_value, convert_constant, evaluate_binary}
use speck.Syntax.{ValueType, BinaryOp, StructField, StructDecl}
use speck.Syntax.Expr.{
  i32, f32, bool, array_literal, struct_literal, variable, index, field, unary, binary, call,
  conversion, Expr, expr, ExprKind, Exprs, nil, cons, Fields, end, initializer,
}
use speck.Syntax.Value.{ConstantValue, Values}

-- A struct literal's initializers count once for each declared field.
unfoldable pub declared_weight : (Text → ℕ) → List StructField → ℕ
declared_weight init [] = 0
declared_weight init (f ∷ declared) = init f.name + declared_weight init declared

unfoldable pub struct_weight : Option StructDecl → (Text → ℕ) → ℕ
unfolding declared_weight
struct_weight none init = 1
struct_weight (some declaration) init = 2 + declared_weight init declaration.fields

module _ (structs : Structs) where
  unfoldable mutual
    unfolding struct_weight find

    pub weight : Expr → ℕ
    weight (expr (array_literal es) span) = 2 + weights es
    weight (expr (struct_literal name fields) span) =
        struct_weight (find name structs) (field_weight fields)
    weight (expr (index base i) span) = 2 + weight base + weight i
    weight (expr (field base name s) span) = 2 + weight base
    weight (expr (conversion target args) span) = 2 + weights args
    weight (expr (unary op operand) span) = 2 + weight operand
    weight (expr (binary left op right) span) = 3 + weight left + weight right
    weight (expr _ span) = 1

    pub weights : Exprs → ℕ
    weights nil = 0
    weights (cons e es) = weight e + weights es

    pub field_weight : Fields → Text → ℕ
    field_weight end name = 0
    field_weight (initializer key e s rest) name =
        let first = weight e in
        let later = field_weight rest name in if same_text key name then first else later

  unfoldable pub task_weight : Task → ℕ
  unfolding weight
  task_weight (Task.expression e expected) = weight e
  task_weight (Task.binary_left op right span) = 2 + weight right
  task_weight _ = 1

  unfoldable pub tasks_weight : List Task → ℕ
  unfolding task_weight
  tasks_weight [] = 0
  tasks_weight (t ∷ tasks) = task_weight t + tasks_weight tasks

  elements_weight :
      (es : Exprs) (element : ValueType) (tasks : List Task)
      → tasks_weight (push_elements es element tasks) ≡ weights es + tasks_weight tasks
  unfolding tasks_weight push_elements
  elements_weight nil element tasks = omega arith
  elements_weight (cons e es) element tasks = omega (arith, elements_weight es element tasks)

  chosen_weight :
      (b : Bool) (first : Expr) {chosen : Expr} {later : Option Expr} {n : ℕ}
      → (if b then some first else later) ≡ some chosen
      → (later ≡ some chosen → weight chosen ≡ n)
      → weight chosen ≡ (if b then weight first else n)
  chosen_weight true first h k = sym (ap weight (some-injective _ _ h))
  chosen_weight false first h k = k h

  initializer_weight :
      (fields : Fields) (name : Text) {e : Expr}
      → find_initializer fields name ≡ some e
      → weight e ≡ field_weight fields name
  unfolding find_initializer weight
  initializer_weight end name h = absurd (cc h)
  initializer_weight (initializer key x s rest) name h =
      chosen_weight (same_text key name) x h (λ k. initializer_weight rest name k)

  fields_weight :
      (name : Text) (span : Span) (fields : Fields) (declared : List StructField)
      (tasks pending : List Task)
      → push_fields name span fields declared tasks ≡ ok pending
      → tasks_weight pending ≡ declared_weight (field_weight fields) declared + tasks_weight tasks
  unfolding push_fields declared_weight tasks_weight
  fields_weight name span fields [] tasks pending h =
      ap tasks_weight {y = tasks} (cc h) ∙ omega arith
  fields_weight name span fields (f ∷ declared) tasks pending h =
      let inv =
        push_field-inversion (find_initializer fields f.name) f.ty _
          (push_fields name span fields declared tasks) h in
      ap tasks_weight inv.4
      ∙ omega (
        arith,
        initializer_weight fields f.name inv.2,
        fields_weight name span fields declared tasks inv.1 inv.3,
      )

  module _ {E : Type 0} where
    -- A round that goes on has less left to do than `n`.
    unfoldable pub Lighter : ℕ → Next E → Type 0
    unfolding tasks_weight
    Lighter n (running s) = tasks_weight s.tasks < n
    Lighter n _ = Unit

  module _ {E : Type 0} (from : Diagnostic → E) where
    Lighter-push_value :
        (n : ℕ) (tasks : List Task) (values : List ConstantValue)
        (r : Result Diagnostic ConstantValue)
        → tasks_weight tasks < n
        → Lighter n (push_value from tasks values r)
    unfolding Lighter push_value
    Lighter-push_value n tasks values (ok v) h = h
    Lighter-push_value n tasks values (err d) h = tt

    Lighter-admit :
        (n : ℕ) (c : Check) (tasks : List Task) (span : Span) (values : List ConstantValue)
        (built : Evaluation)
        → tasks_weight built.tasks < n
        → Lighter n (admit from c tasks span values built)
    unfolding Lighter admit
    Lighter-admit n Check.within tasks span values built h = h
    Lighter-admit n Check.exceeded tasks span values built h = tt
    Lighter-admit n Check.exhausted tasks span values built h = tt

    Lighter-finish_aggregate :
        (n : ℕ) (tasks : List Task) (start : ℕ) (span : Span) (values : List ConstantValue)
        (make : Values → ConstantValue)
        → tasks_weight tasks < n
        → Lighter n (finish_aggregate from tasks start span values make)
    unfolding Lighter finish_aggregate
    Lighter-finish_aggregate n tasks start span values make h =
        if_both (Lighter n) (ltb (length values) start) (λ e. tt)
          (λ e. Lighter-admit n _ tasks span values _ h)

    Lighter-start_boolean :
        (op : BinaryOp) (right : Expr) (span : Span) (tasks : List Task) (left : ConstantValue)
        (values : List ConstantValue)
        → Lighter
            (2 + weight right + tasks_weight tasks)
            (start_boolean from op right span tasks left values)
    unfolding Lighter start_boolean
    Lighter-start_boolean op right span tasks (ConstantValue.bool left) values =
        if_both (Lighter (2 + weight right + tasks_weight tasks))
          (if is_or op then left else not left) (λ e. omega arith) (λ e. omega arith)
    Lighter-start_boolean op right span tasks (ConstantValue.i32 n) values = tt
    Lighter-start_boolean op right span tasks (ConstantValue.f32 n) values = tt
    Lighter-start_boolean op right span tasks (ConstantValue.struct name fields) values = tt
    Lighter-start_boolean op right span tasks (ConstantValue.array ty vs) values = tt

    Lighter-pushed :
        {A : Type 0} (n : ℕ) (tasks : List Task) (values : List ConstantValue)
        (r : Result Diagnostic A) (f : A → Evaluation)
        → ((a : A) → r ≡ ok a → tasks_weight (f a).tasks < n)
        → Lighter n (expanded from tasks values (pushed r f))
    unfolding Lighter expanded
    Lighter-pushed n tasks values (ok a) f h = h a refl
    Lighter-pushed n tasks values (err d) f h = tt

    Lighter-expand_struct :
        (found : Option StructDecl) (shape : Result Diagnostic StructDecl) (fields : Fields)
        (name : Text) (span : Span) (tasks : List Task) (values : List ConstantValue)
        → ((declaration : StructDecl) → shape ≡ ok declaration → found ≡ some declaration)
        → Lighter
            (struct_weight found (field_weight fields) + tasks_weight tasks)
            (expanded from tasks values (expand_struct shape fields name span tasks values))
    unfolding Lighter expanded expand_struct struct_weight
    Lighter-expand_struct found (err d) fields name span tasks values h = tt
    Lighter-expand_struct none (ok declaration) fields name span tasks values h =
        absurd (cc (h declaration refl))
    Lighter-expand_struct (some other) (ok declaration) fields name span tasks values h =
        subst {A = StructDecl}
          (λ d. Lighter (2 + declared_weight (field_weight fields) d.fields + tasks_weight tasks) (
            expanded from tasks values
              (expand_struct (ok declaration) fields name span tasks values)))
          (some-injective _ _ (sym (h declaration refl)))
          (Lighter-pushed _ tasks values
            (push_fields name span fields declaration.fields
              (Task.struct name (field_names declaration.fields) (length values) span ∷ tasks))
            (λ pending. state pending values)
            (λ pending e.
              omega (arith, fields_weight name span fields declaration.fields _ pending e)))

    found_shape :
        (same : Bool) (found : Option StructDecl) (d e : Diagnostic) {declaration : StructDecl}
        → (if same then elim found [ some x ↦ ok x | none ↦ err d ] else err e) ≡ ok declaration
        → found ≡ some declaration
    found_shape true (some x) d e h = cc h
    found_shape true none d e h = absurd (cc h)
    found_shape false found d e h = absurd (cc h)

    shape_found :
        (expected : Option ValueType) (name : Text) (span : Span) (declaration : StructDecl)
        → struct_shape structs expected name span ≡ ok declaration
        → find name structs ≡ some declaration
    unfolding struct_shape
    shape_found (some (ValueType.struct other)) name span declaration h =
        found_shape (same_text name other) (find name structs) _ _ h
    shape_found (some ValueType.i32) name span declaration h = absurd (cc h)
    shape_found (some ValueType.f32) name span declaration h = absurd (cc h)
    shape_found (some ValueType.bool) name span declaration h = absurd (cc h)
    shape_found (some (ValueType.array ty n)) name span declaration h = absurd (cc h)
    shape_found none name span declaration h = absurd (cc h)

    Lighter-expand :
        (kind : ExprKind) (span : Span) (expected : Option ValueType) (tasks : List Task)
        (values : List ConstantValue)
        → Lighter
            (weight (expr kind span) + tasks_weight tasks)
            (expanded from tasks values (expand structs kind span expected tasks values))
    unfolding Lighter expanded expand weight
    Lighter-expand (i32 n) span expected tasks values =
        Lighter-pushed _ tasks values (literal_i32 n span) _ (λ a e. omega arith)
    Lighter-expand (f32 n) span expected tasks values =
        Lighter-pushed _ tasks values (literal_f32 n span) _ (λ a e. omega arith)
    Lighter-expand (bool b) span expected tasks values = omega arith
    Lighter-expand (array_literal es) span expected tasks values =
        Lighter-pushed _ tasks values (array_shape expected (length_exprs es) span) _ (λ element e.
          omega
            (arith, elements_weight es element (Task.array element (length values) span ∷ tasks)))
    Lighter-expand (struct_literal name fields) span expected tasks values =
        Lighter-expand_struct (find name structs) (struct_shape structs expected name span) fields
          name span tasks values (shape_found expected name span)
    Lighter-expand (variable name) span expected tasks values = tt
    Lighter-expand (index base i) span expected tasks values = omega arith
    Lighter-expand (field base name s) span expected tasks values = omega arith
    Lighter-expand (call name args) span expected tasks values = tt
    Lighter-expand (conversion target nil) span expected tasks values = tt
    Lighter-expand (conversion target (cons arg nil)) span expected tasks values = omega arith
    Lighter-expand (conversion target (cons arg (cons more rest))) span expected tasks values = tt
    Lighter-expand (unary op operand) span expected tasks values =
        if_both
          (λ o. Lighter (2 + weight operand + tasks_weight tasks) (expanded from tasks values o))
          (is_minimum op operand) (λ e. omega arith) (λ e. omega arith)
    Lighter-expand (binary left op right) span expected tasks values = omega arith

    pub Lighter-run_task :
        (task : Task) (tasks : List Task) (values : List ConstantValue)
        → Lighter (task_weight task + tasks_weight tasks) (run_task from structs task tasks values)
    unfolding Lighter run_task task_weight
    Lighter-run_task (Task.expression (expr kind span) expected) tasks values =
        Lighter-expand kind span expected tasks values
    Lighter-run_task (Task.array element start span) tasks values =
        Lighter-finish_aggregate _ tasks start span values (λ vs. ConstantValue.array element vs)
          (omega arith)
    Lighter-run_task (Task.struct name fields start span) tasks values =
        Lighter-finish_aggregate _ tasks start span values
          (λ vs. ConstantValue.struct name (zip fields vs)) (omega arith)
    Lighter-run_task (Task.index span) tasks [] = tt
    Lighter-run_task (Task.index span) tasks (i ∷ []) = tt
    Lighter-run_task (Task.index span) tasks (i ∷ base ∷ values) =
        Lighter-push_value _ tasks values (index_value base i span) (omega arith)
    Lighter-run_task (Task.field name span) tasks [] = tt
    Lighter-run_task (Task.field name span) tasks (v ∷ values) =
        Lighter-push_value _ tasks values (field_value v name span) (omega arith)
    Lighter-run_task (Task.unary op span) tasks [] = tt
    Lighter-run_task (Task.unary op span) tasks (v ∷ values) =
        Lighter-push_value _ tasks values (at span (unary_value op v)) (omega arith)
    Lighter-run_task (Task.conversion target span) tasks [] = tt
    Lighter-run_task (Task.conversion target span) tasks (v ∷ values) =
        Lighter-push_value _ tasks values (at span (convert_constant target v)) (omega arith)
    Lighter-run_task (Task.binary_left op right span) tasks [] =
        if_both (Lighter (2 + weight right + tasks_weight tasks)) (is_logical op) (λ e. tt)
          (λ e. omega arith)
    Lighter-run_task (Task.binary_left op right span) tasks (left ∷ values) =
        if_both (Lighter (2 + weight right + tasks_weight tasks)) (is_logical op)
          (λ e. Lighter-start_boolean op right span tasks left values) (λ e. omega arith)
    Lighter-run_task (Task.binary_finish op span) tasks [] = tt
    Lighter-run_task (Task.binary_finish op span) tasks (r ∷ []) = tt
    Lighter-run_task (Task.binary_finish op span) tasks (r ∷ l ∷ values) =
        Lighter-push_value _ tasks values (at span (evaluate_binary l op r)) (omega arith)
    Lighter-run_task (Task.boolean_right op span) tasks [] = tt
    Lighter-run_task (Task.boolean_right op span) tasks (ConstantValue.bool b ∷ values) =
        omega arith
    Lighter-run_task (Task.boolean_right op span) tasks (ConstantValue.i32 n ∷ values) = tt
    Lighter-run_task (Task.boolean_right op span) tasks (ConstantValue.f32 n ∷ values) = tt
    Lighter-run_task (Task.boolean_right op span) tasks
          (ConstantValue.struct name fields ∷ values) =
        tt
    Lighter-run_task (Task.boolean_right op span) tasks (ConstantValue.array ty vs ∷ values) = tt
