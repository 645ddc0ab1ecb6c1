-- ===== src/Sema/Constants/Correct.antt =====
-- The task stack of src/sema/constants/evaluation.rs evaluates as the recursive evaluation does.
use speck.Base.{
  List, [], ◌∷◌, Text, ◌≡◌, refl, sym, ◌∙◌, if◌then◌else◌, Option, none, some, length, subst,
  same_text, not, Bool, true, false,
}
use mathlib.Core.Option.{some-injective}
use speck.Diagnostic.{Span, Diagnostic}
use speck.Result.{Result, ok, map_err}
use speck.Sema.Constants.Evaluation.{step, zip, is_logical, is_or, start_boolean, field_value, at}
use speck.Sema.Constants.Tasks.{
  Task, Structs, state, literal_i32, array_shape, struct_shape, length_exprs, push_elements,
  is_minimum, expand_struct, push_fields, find_initializer, field_names, literal_f32,
}
use speck.Sema.Constants.Reference.{
  short_circuit, eval_declared, boolean_value, eval, eval_elements, eval_initializer,
}
use speck.Sema.Constants.Steps.{
  Comes, arrived, halted, next, Comes-bind, Comes-push_value, Comes-literal, Comes-if, Comes-shape,
  Comes-struct_shape, Comes-push_fields, push_field-inversion, push_fields-require_fields,
  Comes-finish, Comes-variable, onto,
}
use speck.Sema.Constants.Values.{
  i32_min, index_value, unary_value, evaluate_binary, convert_constant,
}
use speck.Syntax.{ValueType, BinaryOp, StructField}
use speck.Syntax.Expr.{
  i32, f32, bool, array_literal, struct_literal, variable, index, field, unary, binary, call,
  conversion, Expr, expr, Exprs, nil, cons, Fields, end, initializer, span_of,
}
use speck.Syntax.Value.{ConstantValue, Values}

module _ {E : Type 0} (from : Diagnostic → E) (structs : Structs)
    (lookup : Text → Span → Result E ConstantValue) where
  abbrev Evaluates :
      Result E ConstantValue → List Task → List ConstantValue → Task → List ConstantValue → Type 0
  Evaluates r tasks values task top =
      Comes from structs lookup (λ v. v ∷ values) tasks r (task ∷ tasks) top

  boolean_right-Comes :
      (op : BinaryOp) (span : Span) (tasks : List Task) (values : List ConstantValue)
      (v : ConstantValue)
      → Evaluates
          (map_err from (boolean_value op span v))
          tasks
          values
          (Task.boolean_right op span)
          (v ∷ values)
  unfolding boolean_value step
  boolean_right-Comes op span tasks values (ConstantValue.bool b) = next _ refl (arrived _)
  boolean_right-Comes op span tasks values (ConstantValue.i32 n) = halted _ refl
  boolean_right-Comes op span tasks values (ConstantValue.f32 n) = halted _ refl
  boolean_right-Comes op span tasks values (ConstantValue.struct name fields) = halted _ refl
  boolean_right-Comes op span tasks values (ConstantValue.array ty vs) = halted _ refl

  -- `&&` and `||` with the left operand on the stack.
  boolean-Comes :
      (op : BinaryOp) (right : Expr) (span : Span) (tasks : List Task) (values : List ConstantValue)
      (r : Result E ConstantValue) (l : ConstantValue) {current : List Task}
      {top : List ConstantValue}
      → step from structs lookup current top ≡ start_boolean from op right span tasks l values
      → ((vs : List ConstantValue)
          → Evaluates r (Task.boolean_right op span ∷ tasks) vs (Task.expression right none) vs)
      → Comes from structs lookup
          (λ v. v ∷ values)
          tasks
          (short_circuit from structs lookup op span l r)
          current
          top
  unfolding short_circuit start_boolean
  boolean-Comes op right span tasks values r (ConstantValue.bool left) h k =
      Comes-if from structs lookup (if is_or op then left else not left)
        (λ e. next (state tasks (ConstantValue.bool left ∷ values)) (h ∙ (rw e refl)) (arrived _))
        (λ e.
          next (state (Task.expression right none ∷ Task.boolean_right op span ∷ tasks) values)
            (h ∙ (rw e refl))
            (Comes-bind from structs lookup _ (k values)
              (λ v. boolean_right-Comes op span tasks values v)))
  boolean-Comes op right span tasks values r (ConstantValue.i32 n) h k = halted _ h
  boolean-Comes op right span tasks values r (ConstantValue.f32 n) h k = halted _ h
  boolean-Comes op right span tasks values r (ConstantValue.struct name fields) h k = halted _ h
  boolean-Comes op right span tasks values r (ConstantValue.array ty vs) h k = halted _ h

  -- The chosen initializer evaluates, the first or a later one.
  chosen-Comes :
      (b : Bool) {first chosen : Expr} {later : Option Expr} {ty : ValueType}
      {r q : Result E ConstantValue} {tasks : List Task} {values : List ConstantValue}
      → (if b then some first else later) ≡ some chosen
      → Evaluates r tasks values (Task.expression first (some ty)) values
      → (later ≡ some chosen → Evaluates q tasks values (Task.expression chosen (some ty)) values)
      → Evaluates (if b then r else q) tasks values (Task.expression chosen (some ty)) values
  chosen-Comes true {ty = ty} {r = r} {tasks = tasks} {values = values} h first later =
      subst (λ e. Evaluates r tasks values (Task.expression e (some ty)) values)
        (some-injective _ _ h) first
  chosen-Comes false h first later = later h

  -- The pushed fields evaluate in their declared order.
  declared-Comes :
      (name : Text) (span : Span) (fields : Fields)
      (init : Text → ValueType → Result E ConstantValue)
      → ((key : Text) (ty : ValueType) (e : Expr)
          → find_initializer fields key ≡ some e
          → (tasks : List Task) (values : List ConstantValue)
          → Evaluates (init key ty) tasks values (Task.expression e (some ty)) values)
      → (declared : List StructField) (tasks pending : List Task) (values : List ConstantValue)
      → push_fields name span fields declared tasks ≡ ok pending
      → Comes from structs lookup
          (λ vs. onto vs values)
          tasks
          (eval_declared from structs lookup init declared)
          pending
          values
  unfolding push_fields eval_declared onto
  declared-Comes name span fields init run [] tasks pending values h =
      subst (λ p. Comes from structs lookup (λ vs. onto vs values) tasks (ok Values.nil) p values)
        (cc h) (arrived _)
  declared-Comes name span fields init run (f ∷ declared) tasks pending values h =
      let inv =
        push_field-inversion (find_initializer fields f.name) f.ty _
          (push_fields name span fields declared tasks) h in
      subst
        (λ p.
          Comes from structs lookup (λ vs. onto vs values) tasks
            (eval_declared from structs lookup init (f ∷ declared)) p values)
        (sym inv.4)
        (Comes-bind from structs lookup _ (run f.name f.ty inv.0 inv.2 inv.1 values) (λ v.
          Comes-bind from structs lookup _
            (declared-Comes name span fields init run declared tasks inv.1 (v ∷ values) inv.3)
            (λ vs. arrived _)))

  mutual
    unfolding eval step onto push_elements find_initializer expand_struct

    pub eval-Comes :
        (e : Expr) (expected : Option ValueType) (tasks : List Task) (values : List ConstantValue)
        → Evaluates
            (eval from structs lookup e expected)
            tasks
            values
            (Task.expression e expected)
            values
    eval-Comes (expr (i32 n) span) expected tasks values =
        Comes-literal from structs lookup (literal_i32 n span) refl
    eval-Comes (expr (f32 bits) span) expected tasks values =
        Comes-literal from structs lookup (literal_f32 bits span) refl
    eval-Comes (expr (bool b) span) expected tasks values = next _ refl (arrived _)
    eval-Comes (expr (array_literal elements) span) expected tasks values =
        Comes-shape from structs lookup (array_shape expected (length_exprs elements) span) _ _ refl
          (λ element.
            Comes-bind from structs lookup _ (elements-Comes elements element _ values) (λ vs.
              Comes-finish from structs lookup tasks span values (ConstantValue.array element) vs
                refl))
    eval-Comes (expr (struct_literal name fields) span) expected tasks values =
        Comes-struct_shape from structs lookup fields name span
          (struct_shape structs expected name span) _ refl
          (λ declaration h.
            rw
              (sym (
                push_fields-require_fields name span fields declaration.fields
                  (Task.struct name (field_names declaration.fields) (length values) span ∷ tasks)))
              (Comes-push_fields from structs lookup _ _ h (λ pending e.
                Comes-bind from structs lookup _
                  (declared-Comes name span fields
                    (eval_initializer from structs lookup fields name span)
                    (λ key ty x f. initializer-Comes fields name span key ty x f) declaration.fields
                    _ pending values e)
                  (λ vs.
                    Comes-finish from structs lookup tasks span values
                      (λ ws. ConstantValue.struct name (zip (field_names declaration.fields) ws)) vs
                      refl))))
    eval-Comes (expr (variable name) span) expected tasks values =
        Comes-variable from structs lookup name span expected tasks _ values _ _ refl refl
    eval-Comes (expr (index base i) span) expected tasks values = next _ refl (
        Comes-bind from structs lookup _ (eval-Comes base none _ values) (λ v.
          Comes-bind from structs lookup _ (eval-Comes i none _ (v ∷ values))
            (λ w. Comes-push_value from structs lookup (index_value v w span) refl)))
    eval-Comes (expr (field base name name_span) span) expected tasks values = next _ refl (
        Comes-bind from structs lookup _ (eval-Comes base none _ values)
          (λ v. Comes-push_value from structs lookup (field_value v name span) refl))
    eval-Comes (expr (call name args) span) expected tasks values = halted _ refl
    eval-Comes (expr (conversion target nil) span) expected tasks values = halted _ refl
    eval-Comes (expr (conversion target (cons arg nil)) span) expected tasks values = next _ refl (
        Comes-bind from structs lookup _ (eval-Comes arg none _ values) (λ v.
          Comes-push_value from structs lookup (at (span_of arg) (convert_constant target v)) refl))
    eval-Comes (expr (conversion target (cons arg (cons more rest))) span) expected tasks values =
        halted _ refl
    eval-Comes (expr (unary op operand) span) expected tasks values =
        Comes-if from structs lookup (is_minimum op operand)
          (λ e. next (state tasks (ConstantValue.i32 i32_min ∷ values)) (rw e refl) (arrived _))
          (λ e.
            next (state (Task.expression operand none ∷ Task.unary op span ∷ tasks) values)
              (rw e refl)
              (Comes-bind from structs lookup _ (eval-Comes operand none _ values)
                (λ v. Comes-push_value from structs lookup (at span (unary_value op v)) refl)))
    eval-Comes (expr (binary left op right) span) expected tasks values = next _ refl (
        Comes-bind from structs lookup _ (eval-Comes left none _ values) (λ l.
          Comes-if from structs lookup (is_logical op)
            (λ e.
              boolean-Comes op right span tasks values (eval from structs lookup right none) l
                (rw e refl) (λ vs. eval-Comes right none _ vs))
            (λ e.
              next
                (state (Task.expression right none ∷ Task.binary_finish op span ∷ tasks)
                  (l ∷ values))
                (rw e refl)
                (Comes-bind from structs lookup _ (eval-Comes right none _ (l ∷ values)) (λ r.
                  Comes-push_value from structs lookup (at span (evaluate_binary l op r)) refl)))))

    elements-Comes :
        (es : Exprs) (element : ValueType) (tasks : List Task) (values : List ConstantValue)
        → Comes from structs lookup
            (λ vs. onto vs values)
            tasks
            (eval_elements from structs lookup es element)
            (push_elements es element tasks)
            values
    elements-Comes nil element tasks values = arrived _
    elements-Comes (cons e es) element tasks values =
        Comes-bind from structs lookup _ (eval-Comes e (some element) _ values) (λ v.
          Comes-bind from structs lookup _ (elements-Comes es element tasks (v ∷ values))
            (λ vs. arrived _))

    initializer-Comes :
        (fields : Fields) (name : Text) (span : Span) (key : Text) (ty : ValueType) (e : Expr)
        → find_initializer fields key ≡ some e
        → (tasks : List Task) (values : List ConstantValue)
        → Evaluates
            (eval_initializer from structs lookup fields name span key ty)
            tasks
            values
            (Task.expression e (some ty))
            values
    initializer-Comes end name span key ty e h tasks values = absurd (cc h)
    initializer-Comes (initializer k x s rest) name span key ty e h tasks values =
        chosen-Comes (same_text k key) h (eval-Comes x (some ty) tasks values)
          (λ l. initializer-Comes rest name span key ty e l tasks values)
