-- ===== src/Sema/Constants/Steps.antt =====
-- Runs of the task stack of src/sema/constants/evaluation.rs: where the rounds from a state lead.
use speck.Base.{
  ℕ, suc, ◌+◌, List, [], ◌∷◌, Text, Option, length, ◌-◌, ltb, ◌≡◌, refl, ◌∙◌, ap, arith, Bool, true,
  false, if_both, none, some, if◌then◌else◌,
}
use speck.Diagnostic.{Span, Diagnostic}
use speck.Result.{Result, ok, err, and_then, map_err}
use speck.Sema.Constants.Evaluation.{
  running, stopped, step, push_value, expanded, split_off, admit, use_variable, finish_aggregate,
}
use speck.Sema.Constants.Tasks.{
  Task, Structs, Evaluation, state, expand_struct, push_fields, push_field, find_initializer,
  pushed,
}
use speck.Sema.Constants.Messages.{missing_initializer}
use speck.Sema.Constants.Reference.{fitting, require_fields}
use speck.Syntax.{ValueType, StructField, StructDecl}
use speck.Syntax.Expr.{Expr, Fields, expr, variable}
use speck.Syntax.Value.{ConstantValue, Values, nil, cons, length_values}
use speck.Sema.Constants.Depth.{check_aggregate_depth_lem, nesting_values, nesting_error, max_depth}

-- Values pushed one after another.
unfoldable pub onto : Values → List ConstantValue → List ConstantValue
onto nil values = values
onto (cons v vs) values = onto vs (v ∷ values)

append : Values → Values → Values
append nil ws = ws
append (cons v vs) ws = cons v (append vs ws)

append_nil : (vs : Values) → append vs nil ≡ vs
unfolding append
append_nil nil = refl
append_nil (cons v vs) = ap (cons v) (append_nil vs)

length-onto :
    (vs : Values) (values : List ConstantValue)
    → length (onto vs values) ≡ length_values vs + length values
unfolding onto length_values
length-onto nil values = omega arith
length-onto (cons v vs) values = omega (arith, length-onto vs (v ∷ values))

split_off-onto_k :
    (vs : Values) (k : ℕ) (values : List ConstantValue) (taken : Values)
    → split_off (length_values vs + k) (onto vs values) taken ≡ split_off k values (append vs taken)
unfolding onto append split_off length_values
split_off-onto_k nil k values taken = ap (λ n. split_off n values taken) (omega arith)
split_off-onto_k (cons v vs) k values taken =
    ap (λ n. split_off n (onto vs (v ∷ values)) taken) (omega arith)
    ∙ split_off-onto_k vs (suc k) (v ∷ values) taken

-- What was pushed since a height of the stack comes off in its order.
split_off-onto :
    (vs : Values) (values : List ConstantValue)
    → split_off (length (onto vs values) - length values) (onto vs values) nil ≡ (vs, values)
unfolding split_off
split_off-onto vs values =
    ap (λ n. split_off n (onto vs values) nil) (omega (arith, length-onto vs values))
    ∙ split_off-onto_k vs 0 values nil
    ∙ ap (λ ws. (ws, values)) (append_nil vs)

-- Whether the tasks of declared fields could be pushed.
unfoldable pub forget : Result Diagnostic (List Task) → Result {0, 0} Diagnostic Unit
forget (ok tasks) = ok tt
forget (err d) = err d

forget-push_field :
    (found : Option Expr) (ty : ValueType) (missing : Diagnostic)
    (rest : Result Diagnostic (List Task))
    → forget (push_field found ty missing rest)
      ≡ elim found [ none ↦ err missing | some e ↦ forget rest ]
unfolding forget push_field
forget-push_field none ty missing rest = refl
forget-push_field (some e) ty missing (ok rest) = refl
forget-push_field (some e) ty missing (err d) = refl

pub push_fields-require_fields :
    (name : Text) (span : Span) (fields : Fields) (declared : List StructField) (tasks : List Task)
    → forget (push_fields name span fields declared tasks)
      ≡ require_fields name span fields declared
unfolding push_fields require_fields forget
push_fields-require_fields name span fields [] tasks = refl
push_fields-require_fields name span fields (f ∷ declared) tasks =
    forget-push_field (find_initializer fields f.name) f.ty _
      (push_fields name span fields declared tasks)
    ∙ ap
        (λ r. elim (find_initializer fields f.name) [
          | none ↦ err (missing_initializer f.name name span)
          | some e ↦ r
        ])
        (push_fields-require_fields name span fields declared tasks)

-- A pushed field has an initializer, and the later fields were pushed.
pub push_field-inversion :
    (found : Option Expr) (ty : ValueType) (missing : Diagnostic)
    (rest : Result Diagnostic (List Task)) {pending : List Task}
    → push_field found ty missing rest ≡ ok pending
    → (e : Expr) × (later : List Task) × (found ≡ some e)
      × (rest ≡ ok later)
      × (pending ≡ Task.expression e (some ty) ∷ later)
unfolding push_field
push_field-inversion none ty missing rest h = absurd (cc h)
push_field-inversion (some e) ty missing (ok rest) h = (e, rest, refl, refl, cc h)
push_field-inversion (some e) ty missing (err d) h = absurd (cc h)

module _ {E : Type 0} (from : Diagnostic → E) (structs : Structs)
    (lookup : Text → Span → Result E ConstantValue) where
  -- The rounds from a state work off its tasks down to `tasks` and leave the values that `place`
  -- says, or stop with the result's error.
  pub data Comes {A : Type 0} (place : A → List ConstantValue) (tasks : List Task)
      : Result E A → List Task → List ConstantValue → Type 0 where
    arrived : (a : A) → Comes place tasks (ok a) tasks (place a)
    halted :
        {x : E} {current : List Task} {values : List ConstantValue} (s : Evaluation)
        → step from structs lookup current values ≡ stopped x s
        → Comes place tasks (err x) current values
    next :
        {r : Result E A} {current : List Task} {values : List ConstantValue} (s : Evaluation)
        → step from structs lookup current values ≡ running s
        → Comes place tasks r s.tasks s.values
        → Comes place tasks r current values

  -- One run after another.
  pub Comes-bind :
      {A B : Type 0} {place : A → List ConstantValue} {last : B → List ConstantValue}
      {tasks later current : List Task} {values : List ConstantValue} {r : Result E A}
      (f : A → Result E B)
      → Comes place tasks r current values
      → ((a : A) → Comes last later (f a) tasks (place a))
      → Comes last later (and_then r f) current values
  Comes-bind f (arrived a) k = k a
  Comes-bind f (halted s h) k = halted s h
  Comes-bind f (next s h c) k = next s h (Comes-bind f c k)

  pub Comes-push_value :
      {tasks current : List Task} {values top : List ConstantValue}
      (r : Result Diagnostic ConstantValue)
      → step from structs lookup current top ≡ push_value from tasks values r
      → Comes (λ v. v ∷ values) tasks (map_err from r) current top
  unfolding push_value
  Comes-push_value (ok v) h = next _ h (arrived v)
  Comes-push_value (err d) h = halted _ h

  pub Comes-literal :
      {tasks current : List Task} {values top : List ConstantValue}
      (r : Result Diagnostic ConstantValue)
      → step from structs lookup current top
        ≡ expanded from tasks values (pushed r (λ v. state tasks (v ∷ values)))
      → Comes (λ v. v ∷ values) tasks (map_err from r) current top
  unfolding expanded
  Comes-literal (ok v) h = next _ h (arrived v)
  Comes-literal (err d) h = halted _ h

  pub Comes-if :
      {A : Type 0} {place : A → List ConstantValue} {tasks current : List Task}
      {top : List ConstantValue} (b : Bool) {r q : Result E A}
      → (b ≡ true → Comes place tasks r current top)
      → (b ≡ false → Comes place tasks q current top)
      → Comes place tasks (if b then r else q) current top
  Comes-if {place = place} {tasks = tasks} {current = current} {top = top} b =
      if_both (λ r. Comes place tasks r current top) b

  finish_lem :
      (tasks : List Task) (span : Span) (values : List ConstantValue)
      (make : Values → ConstantValue) (vs : Values)
      → finish_aggregate from tasks (length values) span (onto vs values) make ≡ (
          if ltb max_depth (suc (nesting_values vs))
          then stopped (from (nesting_error span)) (state tasks (onto vs values))
          else running (state tasks (make vs ∷ values)))
  unfolding finish_aggregate admit
  finish_lem tasks span values make vs =
      rw (finish_aggregate, split_off-onto vs values, check_aggregate_depth_lem vs, admit) ground
        (arith, length-onto vs values)

  choose :
      (b : Bool) {tasks current : List Task} {values top : List ConstantValue} (d : Diagnostic)
      (s : Evaluation) (make : Values → ConstantValue) (vs : Values)
      → step from structs lookup current top
        ≡ (if b then stopped (from d) s else running (state tasks (make vs ∷ values)))
      → Comes
          (λ v. v ∷ values)
          tasks
          (and_then (map_err from (if b then err d else ok vs)) (λ ws. ok (make ws)))
          current
          top
  choose true d s make vs h = halted _ h
  choose false d s make vs h = next _ h (arrived (make vs))

  -- The children of an aggregate on the stack become the aggregate, or nest too deep.
  pub Comes-finish :
      {current : List Task} (tasks : List Task) (span : Span) (values : List ConstantValue)
      (make : Values → ConstantValue) (vs : Values)
      → step from structs lookup current (onto vs values)
        ≡ finish_aggregate from tasks (length values) span (onto vs values) make
      → Comes
          (λ v. v ∷ values)
          tasks
          (and_then (map_err from (fitting vs span)) (λ ws. ok (make ws)))
          current
          (onto vs values)
  unfolding fitting
  Comes-finish tasks span values make vs h =
      choose (ltb max_depth (suc (nesting_values vs))) (nesting_error span)
        (state tasks (onto vs values)) make vs (h ∙ finish_lem tasks span values make vs)

  -- The elements of an array, once the literal has its element type.
  pub Comes-shape :
      {A : Type 0} {tasks current : List Task} {values top : List ConstantValue}
      (shape : Result Diagnostic A) (next_state : A → Evaluation)
      (rest : A → Result E ConstantValue)
      → step from structs lookup current top ≡ expanded from tasks values (pushed shape next_state)
      → ((a : A)
          → Comes (λ v. v ∷ values) tasks (rest a) (next_state a).tasks (next_state a).values)
      → Comes (λ v. v ∷ values) tasks (and_then (map_err from shape) rest) current top
  unfolding expanded
  Comes-shape (ok a) next_state rest h k = next _ h (k a)
  Comes-shape (err d) next_state rest h k = halted _ h

  pub Comes-variable :
      (name : Text) (span : Span) (expected : Option ValueType) (tasks current : List Task)
      (values top : List ConstantValue) (found : Result E ConstantValue)
      → lookup name span ≡ found
      → step from structs lookup current top
        ≡ use_variable from structs lookup name span expected tasks values
      → Comes (λ v. v ∷ values) tasks found current top
  unfolding use_variable
  Comes-variable name span expected tasks current values top (ok v) e h =
      next (state tasks (v ∷ values)) (h ∙ (rw (use_variable, e) refl)) (arrived v)
  Comes-variable name span expected tasks current values top (err x) e h =
      halted (state (Task.expression (expr (variable name) span) expected ∷ tasks) values)
        (h ∙ (rw (use_variable, e) refl))

  pub Comes-struct_shape :
      {tasks current : List Task} {values top : List ConstantValue} (fields : Fields) (name : Text)
      (span : Span) (shape : Result Diagnostic StructDecl)
      (rest : StructDecl → Result E ConstantValue)
      → step from structs lookup current top
        ≡ expanded from tasks values (expand_struct shape fields name span tasks values)
      → ((declaration : StructDecl)
          → step from structs lookup current top
            ≡ expanded from tasks values
                (expand_struct (ok declaration) fields name span tasks values)
          → Comes (λ v. v ∷ values) tasks (rest declaration) current top)
      → Comes (λ v. v ∷ values) tasks (and_then (map_err from shape) rest) current top
  unfolding expanded expand_struct
  Comes-struct_shape fields name span (ok declaration) rest h k = k declaration h
  Comes-struct_shape fields name span (err d) rest h k = halted _ h

  pub Comes-push_fields :
      {tasks current : List Task} {values top : List ConstantValue}
      (r : Result Diagnostic (List Task)) (rest : Result E ConstantValue)
      → step from structs lookup current top
        ≡ expanded from tasks values (pushed r (λ pending. state pending values))
      → ((pending : List Task) → r ≡ ok pending → Comes (λ v. v ∷ values) tasks rest pending values)
      → Comes
          (λ v. v ∷ values)
          tasks
          (and_then {A = Unit} (map_err from (forget r)) (λ _. rest))
          current
          top
  unfolding expanded forget
  Comes-push_fields (ok pending) rest h k = next _ h (k pending refl)
  Comes-push_fields (err d) rest h k = halted _ h
