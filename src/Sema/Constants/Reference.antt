-- ===== src/Sema/Constants/Reference.antt =====
-- What a constant expression evaluates to, by recursion on the expression: the meaning that the
-- task stack of src/sema/constants/evaluation.rs is compared with.
use speck.Base.{suc, Text, not, Option, none, some, List, [], ◌∷◌, same_text, ltb, if◌then◌else◌}
use speck.Diagnostic.{Span, Diagnostic}
use speck.Result.{Result, ok, err, and_then, map_err}
use speck.Sema.Constants.Depth.{nesting_values, nesting_error, max_depth}
use speck.Sema.Constants.Evaluation.{field_value, zip, at, is_logical, is_or}
use speck.Sema.Constants.Tasks.{
  Structs, array_shape, struct_shape, literal_i32, literal_f32, is_minimum, length_exprs,
  find_initializer, field_names,
}
use speck.Sema.Constants.Messages.{missing_initializer, cannot_call, conversion_count}
use speck.Sema.Constants.Values.{
  i32_min, convert_constant, evaluate_binary, unary_value, boolean_error, index_value,
}
use speck.Syntax.{ValueType, BinaryOp, StructField}
use speck.Syntax.Expr.{
  i32, f32, bool, array_literal, struct_literal, variable, index, field, unary, binary, call,
  conversion, Expr, expr, Exprs, nil, cons, Fields, end, initializer, span_of,
}
use speck.Syntax.Value.{ConstantValue, Values}

-- An aggregate's children, unless it would nest too deep.
unfoldable pub fitting : Values → Span → Result Diagnostic Values
unfolding nesting_values nesting_error
fitting vs span =
    if ltb max_depth (suc (nesting_values vs)) then err (nesting_error span) else ok vs

-- Every declared field has an initializer.
unfoldable pub require_fields :
    Text → Span → Fields → List StructField → Result {0, 0} Diagnostic Unit
unfolding find_initializer missing_initializer
require_fields name span fields [] = ok tt
require_fields name span fields (f ∷ declared) = elim (find_initializer fields f.name) [
  | none ↦ err (missing_initializer f.name name span)
  | some e ↦ require_fields name span fields declared
]

unfoldable pub boolean_value : BinaryOp → Span → ConstantValue → Result Diagnostic ConstantValue
unfolding boolean_error
boolean_value op span (ConstantValue.bool b) = ok (ConstantValue.bool b)
boolean_value op span _ = err (boolean_error op span)

module _ {E : Type 0} (from : Diagnostic → E) (structs : Structs)
    (lookup : Text → Span → Result E ConstantValue) where
  unfoldable pub eval_declared :
      (Text → ValueType → Result E ConstantValue) → List StructField → Result E Values
  eval_declared init [] = ok Values.nil
  eval_declared init (f ∷ declared) =
      and_then (init f.name f.ty)
        (λ v. and_then (eval_declared init declared) (λ vs. ok (Values.cons v vs)))

  -- `&&` and `||` look at the right operand only when the left one does not decide.
  unfoldable pub short_circuit :
      BinaryOp → Span → ConstantValue → Result E ConstantValue → Result E ConstantValue
  unfolding is_or boolean_value boolean_error
  short_circuit op span (ConstantValue.bool left) right =
      if (if is_or op then left else not left)
      then ok (ConstantValue.bool left)
      else and_then right (λ v. map_err from (boolean_value op span v))
  short_circuit op span left right = err (from (boolean_error op span))

  unfoldable mutual
    unfolding array_shape struct_shape literal_i32 literal_f32 is_minimum length_exprs field_names
        require_fields eval_declared short_circuit fitting cannot_call conversion_count field_value
        zip at is_logical convert_constant evaluate_binary unary_value index_value
        missing_initializer

    pub eval : Expr → Option ValueType → Result E ConstantValue
    eval (expr (i32 n) span) expected = map_err from (literal_i32 n span)
    eval (expr (f32 bits) span) expected = map_err from (literal_f32 bits span)
    eval (expr (bool b) span) expected = ok (ConstantValue.bool b)
    eval (expr (array_literal elements) span) expected =
        and_then (map_err from (array_shape expected (length_exprs elements) span)) (λ element.
          and_then (eval_elements elements element) (λ vs.
            and_then (map_err from (fitting vs span)) (λ vs. ok (ConstantValue.array element vs))))
    eval (expr (struct_literal name fields) span) expected =
        and_then (map_err from (struct_shape structs expected name span)) (λ declaration.
          and_then (map_err from (require_fields name span fields declaration.fields)) (λ _.
            and_then (eval_declared (eval_initializer fields name span) declaration.fields) (λ vs.
              and_then (map_err from (fitting vs span))
                (λ vs. ok (ConstantValue.struct name (zip (field_names declaration.fields) vs))))))
    eval (expr (variable name) span) expected = lookup name span
    eval (expr (index base i) span) expected =
        and_then (eval base none)
          (λ v. and_then (eval i none) (λ w. map_err from (index_value v w span)))
    eval (expr (field base name name_span) span) expected =
        and_then (eval base none) (λ v. map_err from (field_value v name span))
    eval (expr (call name args) span) expected = err (from (cannot_call name span))
    eval (expr (conversion target (cons arg nil)) span) expected =
        and_then (eval arg none) (λ v. map_err from (at (span_of arg) (convert_constant target v)))
    eval (expr (conversion target args) span) expected =
        err (from (conversion_count target (length_exprs args) span))
    eval (expr (unary op operand) span) expected =
        if is_minimum op operand
        then ok (ConstantValue.i32 i32_min)
        else and_then (eval operand none) (λ v. map_err from (at span (unary_value op v)))
    eval (expr (binary left op right) span) expected = and_then (eval left none) (λ l.
        if is_logical op
        then short_circuit op span l (eval right none)
        else and_then (eval right none) (λ r. map_err from (at span (evaluate_binary l op r))))

    pub eval_elements : Exprs → ValueType → Result E Values
    eval_elements nil element = ok Values.nil
    eval_elements (cons e es) element =
        and_then (eval e (some element))
          (λ v. and_then (eval_elements es element) (λ vs. ok (Values.cons v vs)))

    -- The first initializer of a field, of a literal `name { … }` at `span`.
    pub eval_initializer : Fields → Text → Span → Text → ValueType → Result E ConstantValue
    eval_initializer end name span key ty = err (from (missing_initializer key name span))
    eval_initializer (initializer k e s rest) name span key ty =
        let first = eval e (some ty) in
        let later = eval_initializer rest name span key ty in
        if same_text k key then first else later
