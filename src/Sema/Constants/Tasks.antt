-- ===== src/Sema/Constants/Tasks.antt =====
-- The tasks of src/sema/constants/evaluation.rs, and `expand`, which turns an expression into tasks.
use speck.Base.{
  ℕ, suc, Text, text, same_text, find, Bool, false, Option, none, some, List, [], ◌∷◌, length, ◌==◌,
  if◌then◌else◌,
}
use speck.Base.Int.{ℤ, pos}
use speck.Diagnostic.{Span, Diagnostic, new_diagnostic}
use speck.F32
use speck.Outcome.{Outcome}
use speck.Result.{Result, ok, err}
use speck.Sema.Constants.Messages.{
  missing_initializer, array_length_mismatch, struct_mismatch, unknown_struct, cannot_call,
  conversion_count,
}
use speck.Sema.Constants.Values.{in_i32, i32_min}
use speck.Syntax.{ValueType, resolved_array, UnaryOp, BinaryOp, StructField, StructDecl}
use speck.Syntax.Expr.{
  ExprKind, i32, f32, bool, array_literal, struct_literal, variable, binary, call, Expr, expr,
  Exprs, nil, cons, Fields, end, initializer, span_of,
}
use speck.Syntax.Value.{ConstantValue}

pub data Task : Type 0 where
  expression : Expr → Option ValueType → Task
  array : ValueType → ℕ → Span → Task
  struct : Text → List Text → ℕ → Span → Task
  index : Span → Task
  field : Text → Span → Task
  unary : UnaryOp → Span → Task
  binary_left : BinaryOp → Expr → Span → Task
  binary_finish : BinaryOp → Span → Task
  boolean_right : BinaryOp → Span → Task
  conversion : ValueType → Span → Task

-- Both stacks have their top first.
pub record Evaluation : Type 0 where
  pub tasks : List Task
  pub values : List ConstantValue

abbrev pub state : List Task → List ConstantValue → Evaluation
state tasks values = record { tasks = tasks; values = values }

-- `Evaluation::new`
unfoldable pub new : Expr → Option ValueType → Evaluation
new e expected = state (Task.expression e expected ∷ []) []

-- A `HashMap<String, StructDecl>`
abbrev pub Structs : Type 0
Structs = List (Text × StructDecl)

unfoldable pub length_exprs : Exprs → ℕ
length_exprs nil = 0
length_exprs (cons e es) = suc (length_exprs es)

-- The tasks of array elements, in front of the others.
unfoldable pub push_elements : Exprs → ValueType → List Task → List Task
push_elements nil ty tasks = tasks
push_elements (cons e es) ty tasks = Task.expression e (some ty) ∷ push_elements es ty tasks

-- The first initializer of a name.
unfoldable pub find_initializer : Fields → Text → Option Expr
find_initializer end name = none
find_initializer (initializer key e span rest) name =
    let later = find_initializer rest name in if same_text key name then some e else later

-- A field's initializer in front of the later fields' tasks, or the first field that has none.
unfoldable pub push_field :
    Option Expr
    → ValueType
    → Diagnostic
    → Result Diagnostic (List Task)
    → Result Diagnostic (List Task)
push_field none ty missing rest = err missing
push_field (some e) ty missing (ok rest) = ok (Task.expression e (some ty) ∷ rest)
push_field (some e) ty missing (err d) = err d

-- The initializers of the declared fields, in their order, as tasks in front of the others.
unfoldable pub push_fields :
    Text → Span → Fields → List StructField → List Task → Result Diagnostic (List Task)
unfolding find_initializer missing_initializer push_field
push_fields name span fields [] tasks = ok tasks
push_fields name span fields (f ∷ declared) tasks =
    push_field (find_initializer fields f.name) f.ty (missing_initializer f.name name span)
      (push_fields name span fields declared tasks)

-- The element type that an array literal of so many elements is given.
unfoldable pub array_shape : Option ValueType → ℕ → Span → Result Diagnostic ValueType
unfolding resolved_array array_length_mismatch
array_shape none found span =
    err (new_diagnostic (text "array literal requires an explicit array type annotation") span)
array_shape (some ty) found span = elim (resolved_array ty) [
  | none ↦
      err (new_diagnostic (text "array literal requires an explicit array type annotation") span)
  | some shape ↦
      if found == shape.1 then ok shape.0 else err (array_length_mismatch shape.1 found span)
]

-- The declaration of a struct literal.
unfoldable pub struct_shape :
    Structs → Option ValueType → Text → Span → Result Diagnostic StructDecl
unfolding find struct_mismatch unknown_struct
struct_shape structs (some (ValueType.struct expected)) name span =
    if same_text name expected
    then (elim (find name structs) [
      | some declaration ↦ ok declaration
      | none ↦ err (unknown_struct name span)
    ])
    else err (struct_mismatch expected name span)
struct_shape structs _ name span =
    err (new_diagnostic (text "struct literal requires a matching struct type annotation") span)

-- The literals.
unfoldable pub literal_i32 : ℤ → Span → Result Diagnostic ConstantValue
unfolding in_i32
literal_i32 n span =
    if in_i32 n
    then ok (ConstantValue.i32 n)
    else err (new_diagnostic (text "integer literal does not fit in `i32`") span)

unfoldable pub literal_f32 : ℕ → Span → Result Diagnostic ConstantValue
unfolding F32.is_finite
literal_f32 bits span =
    if F32.is_finite bits
    then ok (ConstantValue.f32 bits)
    else err (new_diagnostic (text "floating-point constant must be finite") span)

-- `-2147483648`, whose literal alone is out of range.
unfoldable pub is_minimum : UnaryOp → Expr → Bool
is_minimum UnaryOp.negate (expr (i32 (pos n)) span) = n == 2147483648
is_minimum _ _ = false

unfoldable pub field_names : List StructField → List Text
field_names [] = []
field_names (f ∷ fields) = f.name ∷ field_names fields

abbrev pub pushed {ℓ} : {A : Type ℓ} → Result Diagnostic A → (A → Evaluation) → Outcome Evaluation
pushed (ok a) f = Outcome.ok (f a)
pushed (err d) f = Outcome.fail d

unfoldable pub expand_struct :
    Result Diagnostic StructDecl
    → Fields
    → Text
    → Span
    → List Task
    → List ConstantValue
    → Outcome Evaluation
unfolding push_fields field_names
expand_struct (err d) fields name span tasks values = Outcome.fail d
expand_struct (ok declaration) fields name span tasks values =
    pushed
      (push_fields name span fields declaration.fields
        (Task.struct name (field_names declaration.fields) (length values) span ∷ tasks))
      (λ pending. state pending values)

-- A variable does not come here (`unreachable!`).
unfoldable pub expand :
    Structs
    → ExprKind
    → Span
    → Option ValueType
    → List Task
    → List ConstantValue
    → Outcome Evaluation
unfolding array_shape struct_shape literal_i32 literal_f32 is_minimum push_elements length_exprs
    expand_struct cannot_call conversion_count
expand structs (i32 n) span expected tasks values =
    pushed (literal_i32 n span) (λ v. state tasks (v ∷ values))
expand structs (f32 bits) span expected tasks values =
    pushed (literal_f32 bits span) (λ v. state tasks (v ∷ values))
expand structs (bool b) span expected tasks values =
    Outcome.ok (state tasks (ConstantValue.bool b ∷ values))
expand structs (array_literal elements) span expected tasks values =
    pushed (array_shape expected (length_exprs elements) span) (λ element.
      state (push_elements elements element (Task.array element (length values) span ∷ tasks))
        values)
expand structs (struct_literal name fields) span expected tasks values =
    expand_struct (struct_shape structs expected name span) fields name span tasks values
expand structs (variable name) span expected tasks values = Outcome.panic
expand structs (ExprKind.index base i) span expected tasks values =
    Outcome.ok
      (state (Task.expression base none ∷ Task.expression i none ∷ Task.index span ∷ tasks) values)
expand structs (ExprKind.field base name name_span) span expected tasks values =
    Outcome.ok (state (Task.expression base none ∷ Task.field name span ∷ tasks) values)
expand structs (call name args) span expected tasks values = Outcome.fail (cannot_call name span)
expand structs (ExprKind.conversion target (cons arg nil)) span expected tasks values =
    Outcome.ok
      (state (Task.expression arg none ∷ Task.conversion target (span_of arg) ∷ tasks) values)
expand structs (ExprKind.conversion target args) span expected tasks values =
    Outcome.fail (conversion_count target (length_exprs args) span)
expand structs (ExprKind.unary op operand) span expected tasks values =
    if is_minimum op operand
    then Outcome.ok (state tasks (ConstantValue.i32 i32_min ∷ values))
    else Outcome.ok (state (Task.expression operand none ∷ Task.unary op span ∷ tasks) values)
expand structs (binary left op right) span expected tasks values =
    Outcome.ok (state (Task.expression left none ∷ Task.binary_left op right span ∷ tasks) values)
