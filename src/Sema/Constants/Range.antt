-- ===== src/Sema/Constants/Range.antt =====
-- The evaluation of src/sema/constants/evaluation.rs stores only finite floats, `i32` integers and
-- aggregates within the depth limit.
use speck.Base.{
  ℕ, ◌<◌, Text, not, Option, none, some, List, [], ◌∷◌, ◌≡◌, refl, if◌then◌else◌, if_both, arith,
  same_text,
}
use speck.Diagnostic.{Span, Diagnostic}
use speck.Result.{Result, ok, and_then, map_err}
use speck.Sema.Constants.Depth.{nesting}
use speck.Sema.Constants.Evaluation.{field_value, zip, at, is_logical, is_or}
use speck.Sema.Constants.Tasks.{
  new, Structs, array_shape, struct_shape, literal_i32, literal_f32, is_minimum, length_exprs,
  field_names,
}
use speck.Sema.Constants.Reference.{
  fitting, require_fields, boolean_value, eval_declared, short_circuit, eval, eval_elements,
  eval_initializer,
}
use speck.Sema.Constants.Values.{convert_constant, evaluate_binary, unary_value, index_value}
use speck.Syntax.{ValueType, BinaryOp, StructField}
use speck.Syntax.Expr.{
  i32, f32, bool, array_literal, struct_literal, variable, index, field, unary, binary, call,
  conversion, Expr, expr, Exprs, nil, cons, Fields, end, initializer, span_of,
}
use speck.Syntax.Value.{ConstantValue, Values}
use speck.Sema.Constants.Bounded.{
  Scalars, ScalarsOf, Bounded, Holds, Holds-and_then, Holds-map_err, Holds-at,
  evaluate_binary-Bounded, unary_value-Bounded, convert_constant-Bounded, index_value-Bounded,
  field_value-Bounded, Fits, fitting-Fits, zip-Scalars, literal_i32-Bounded, literal_f32-Bounded,
  boolean_value-Bounded, Holds-true,
}
use speck.Sema.Constants.Evaluation.{resume}
use speck.Sema.Constants.Resume.{answer, resume-eval}
use speck.Sema.Constants.Weight.{weight}

module _ {E : Type 0} (from : Diagnostic → E) (structs : Structs)
    (lookup : Text → Span → Result E ConstantValue)
    (found : (name : Text) (span : Span) → Holds Bounded (lookup name span)) where
  short_circuit-Bounded :
      (op : BinaryOp) (span : Span) (l : ConstantValue) (r : Result E ConstantValue)
      → Holds Bounded r
      → Holds Bounded (short_circuit from structs lookup op span l r)
  unfolding Holds Bounded short_circuit
  short_circuit-Bounded op span (ConstantValue.bool left) r h =
      if_both (λ (q : Result E ConstantValue). Holds Bounded q)
        (if is_or op then left else not left) (λ e. (tt, omega arith))
        (λ e. Holds-and_then Bounded Bounded r _ h (λ v k.
          Holds-map_err Bounded from (boolean_value op span v) (boolean_value-Bounded op span v)))
  short_circuit-Bounded op span (ConstantValue.i32 n) r h = tt
  short_circuit-Bounded op span (ConstantValue.f32 n) r h = tt
  short_circuit-Bounded op span (ConstantValue.struct n vs) r h = tt
  short_circuit-Bounded op span (ConstantValue.array n vs) r h = tt

  declared-Scalars :
      (init : Text → ValueType → Result E ConstantValue) (declared : List StructField)
      → ((key : Text) (ty : ValueType) → Holds Bounded (init key ty))
      → Holds ScalarsOf (eval_declared from structs lookup init declared)
  unfolding Holds Bounded eval_declared
  declared-Scalars init [] h = tt
  declared-Scalars init (f ∷ declared) h =
      Holds-and_then Bounded ScalarsOf (init f.name f.ty) _ (h f.name f.ty) (λ v k.
        Holds-and_then ScalarsOf ScalarsOf (eval_declared from structs lookup init declared) _
          (declared-Scalars init declared h) (λ vs l. (k.0, l)))

  aggregate-Bounded :
      (vs : Values) (span : Span) (make : Values → ConstantValue)
      → ScalarsOf vs
      → ((ws : Values) → Fits ws → Bounded (make ws))
      → Holds Bounded (and_then (map_err from (fitting vs span)) (λ ws. ok (make ws)))
  unfolding Holds
  aggregate-Bounded vs span make h k =
      Holds-and_then Fits Bounded (map_err from (fitting vs span)) _
        (Holds-map_err Fits from (fitting vs span) (fitting-Fits vs span h)) k

  mutual
    unfolding eval Holds Bounded Scalars nesting Fits

    eval-Bounded :
        (e : Expr) (expected : Option ValueType)
        → Holds Bounded (eval from structs lookup e expected)
    eval-Bounded (expr (i32 n) span) expected =
        Holds-map_err Bounded from (literal_i32 n span) (literal_i32-Bounded n span)
    eval-Bounded (expr (f32 n) span) expected =
        Holds-map_err Bounded from (literal_f32 n span) (literal_f32-Bounded n span)
    eval-Bounded (expr (bool b) span) expected = (tt, omega arith)
    eval-Bounded (expr (array_literal es) span) expected =
        Holds-and_then (λ _. Unit {0}) Bounded
          (map_err from (array_shape expected (length_exprs es) span)) _ (Holds-true _)
          (λ element _.
            Holds-and_then ScalarsOf Bounded (eval_elements from structs lookup es element) _
              (elements-Scalars es element)
              (λ vs h. aggregate-Bounded vs span (ConstantValue.array element) h (λ ws k. k)))
    eval-Bounded (expr (struct_literal name fields) span) expected =
        Holds-and_then (λ _. Unit {0}) Bounded
          (map_err from (struct_shape structs expected name span)) _ (Holds-true _)
          (λ declaration _.
            Holds-and_then {A = Unit} (λ _. Unit {0}) Bounded
              (map_err from (require_fields name span fields declaration.fields)) _ (Holds-true _)
              (λ _ _.
                Holds-and_then ScalarsOf Bounded
                  (eval_declared from structs lookup
                    (eval_initializer from structs lookup fields name span) declaration.fields)
                  _
                  (declared-Scalars (eval_initializer from structs lookup fields name span)
                    declaration.fields (λ key ty. initializer-Bounded fields name span key ty))
                  (λ vs h.
                    aggregate-Bounded vs span
                      (λ ws. ConstantValue.struct name (zip (field_names declaration.fields) ws)) h
                      (λ ws k.
                        let z = zip-Scalars (field_names declaration.fields) ws k.0 in
                        (z.0, omega (arith, z.1, k.1))))))
    eval-Bounded (expr (variable name) span) expected = found name span
    eval-Bounded (expr (index base i) span) expected =
        Holds-and_then Bounded Bounded (eval from structs lookup base none) _
          (eval-Bounded base none)
          (λ v h.
            Holds-and_then Bounded Bounded (eval from structs lookup i none) _ (eval-Bounded i none)
              (λ w k.
                Holds-map_err Bounded from (index_value v w span) (index_value-Bounded v w span h)))
    eval-Bounded (expr (field base name name_span) span) expected =
        Holds-and_then Bounded Bounded (eval from structs lookup base none) _
          (eval-Bounded base none)
          (λ v h.
            Holds-map_err Bounded from (field_value v name span)
              (field_value-Bounded v name span h))
    eval-Bounded (expr (call name args) span) expected = tt
    eval-Bounded (expr (conversion target nil) span) expected = tt
    eval-Bounded (expr (conversion target (cons arg nil)) span) expected =
        Holds-and_then Bounded Bounded (eval from structs lookup arg none) _ (eval-Bounded arg none)
          (λ v h. Holds-map_err Bounded from (at (span_of arg) (convert_constant target v)) (
            Holds-at Bounded (span_of arg) (convert_constant target v)
              (convert_constant-Bounded target v h)))
    eval-Bounded (expr (conversion target (cons arg (cons more rest))) span) expected = tt
    eval-Bounded (expr (unary op operand) span) expected =
        if_both (λ (r : Result E ConstantValue). Holds Bounded r) (is_minimum op operand)
          (λ e. (refl, omega arith))
          (λ e.
            Holds-and_then Bounded Bounded (eval from structs lookup operand none) _
              (eval-Bounded operand none)
              (λ v h.
                Holds-map_err Bounded from (at span (unary_value op v))
                  (Holds-at Bounded span (unary_value op v) (unary_value-Bounded op v))))
    eval-Bounded (expr (binary left op right) span) expected =
        Holds-and_then Bounded Bounded (eval from structs lookup left none) _
          (eval-Bounded left none)
          (λ l h.
            if_both (λ (r : Result E ConstantValue). Holds Bounded r) (is_logical op)
              (λ e.
                short_circuit-Bounded op span l (eval from structs lookup right none)
                  (eval-Bounded right none))
              (λ e.
                Holds-and_then Bounded Bounded (eval from structs lookup right none) _
                  (eval-Bounded right none)
                  (λ r k. Holds-map_err Bounded from (at span (evaluate_binary l op r)) (
                    Holds-at Bounded span (evaluate_binary l op r)
                      (evaluate_binary-Bounded l op r)))))

    elements-Scalars :
        (es : Exprs) (element : ValueType)
        → Holds ScalarsOf (eval_elements from structs lookup es element)
    elements-Scalars nil element = tt
    elements-Scalars (cons e es) element =
        Holds-and_then Bounded ScalarsOf (eval from structs lookup e (some element)) _
          (eval-Bounded e (some element))
          (λ v h.
            Holds-and_then ScalarsOf ScalarsOf (eval_elements from structs lookup es element) _
              (elements-Scalars es element) (λ vs k. (h.0, k)))

    initializer-Bounded :
        (fields : Fields) (name : Text) (span : Span) (key : Text) (ty : ValueType)
        → Holds Bounded (eval_initializer from structs lookup fields name span key ty)
    initializer-Bounded end name span key ty = tt
    initializer-Bounded (initializer k e s rest) name span key ty =
        if_both (λ (r : Result E ConstantValue). Holds Bounded r) (same_text k key)
          (λ q. eval-Bounded e (some ty)) (λ q. initializer-Bounded rest name span key ty)

  -- Where the values that a lookup finds have only finite floats, integers of 32 bits and aggregates
  -- at most 128 deep, evaluating any expression returns an error or such a value: no literal,
  -- operator, conversion, index or field makes an infinity, no number, or a value that is too large.
  pub resume-Bounded :
      (e : Expr) (expected : Option ValueType) (fuel : ℕ)
      → weight structs e < fuel
      → (r : Result E ConstantValue) × (answer (resume from structs lookup fuel (new e expected))
          ≡ some r)
        × Holds Bounded r
  resume-Bounded e expected fuel enough = (
    eval from structs lookup e expected,
    resume-eval from structs lookup e expected fuel enough,
    eval-Bounded e expected,
  )
