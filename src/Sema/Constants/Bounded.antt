-- ===== src/Sema/Constants/Bounded.antt =====
-- What the values of src/sema/constants.rs and src/sema/constants/evaluation.rs keep: integers of
-- type `i32`, and aggregates within the depth limit.
use speck.Base.{
  ℕ, suc, ◌≤◌, Text, Bool, true, false, Option, none, some, List, [], ◌∷◌, ◌≡◌, refl, ltb, leb,
  ◌&&◌, if◌then◌else◌, if_both, arith, same_text,
}
use speck.Base.Int.{ℤ, pos, negsuc, same_ℤ, ◌+ℤ◌, ◌-ℤ◌, ◌*ℤ◌, quotient, remainder, neg}
use speck.Diagnostic.{Span, Diagnostic}
use speck.F32
use speck.F32.Finite.{is_finite-negate, is_finite-of_i32}
use speck.Result.{Result, ok, err, and_then, map_err}
use speck.Sema.Constants.Depth.{max_depth, nesting, nesting_values, nesting_named}
use speck.Sema.Constants.Evaluation.{field_value, find_value, zip, at}
use speck.Sema.Constants.Tasks.{literal_i32, literal_f32}
use speck.Sema.Constants.Reference.{fitting, boolean_value}
use speck.Sema.Constants.Values.{
  in_i32, i32_min, checked, convert_constant, i32_binary, finite_f32, f32_binary, bool_binary,
  evaluate_binary, unary_value, nth_value, nth_signed, index_value,
}
use speck.Syntax.{ValueType, UnaryOp, BinaryOp}
use speck.Syntax.Value.{ConstantValue, Values, NamedValues}

-- Every integer in a value is an `i32`, and every float is finite.
unfoldable mutual
  unfolding in_i32 F32.is_finite

  pub Scalars : ConstantValue → Type 0
  Scalars (ConstantValue.i32 n) = in_i32 n ≡ true
  Scalars (ConstantValue.f32 bits) = F32.is_finite bits ≡ true
  Scalars (ConstantValue.array element vs) = ScalarsOf vs
  Scalars (ConstantValue.struct name fields) = ScalarsNamed fields
  Scalars _ = Unit

  pub ScalarsOf : Values → Type 0
  ScalarsOf Values.nil = Unit
  ScalarsOf (Values.cons v vs) = Scalars v × ScalarsOf vs

  pub ScalarsNamed : NamedValues → Type 0
  ScalarsNamed NamedValues.end = Unit
  ScalarsNamed (NamedValues.named name v vs) = Scalars v × ScalarsNamed vs

-- A value that the evaluator may store.
unfoldable pub Bounded : ConstantValue → Type 0
unfolding Scalars nesting
Bounded v = Scalars v × (nesting v ≤ max_depth)

-- A property of the value, if there is one.
unfoldable pub Holds {ℓ κ} : {E : Type 0} {A : Type ℓ} → (A → Type κ) → Result E A → Type κ
Holds P (ok a) = P a
Holds P (err x) = Unit

pub Holds-and_then :
    {E A B : Type 0} (P : A → Type 0) (Q : B → Type 0) (r : Result E A) (f : A → Result E B)
    → Holds P r
    → ((a : A) → P a → Holds Q (f a))
    → Holds Q (and_then r f)
unfolding Holds
Holds-and_then P Q (ok a) f h k = k a h
Holds-and_then P Q (err x) f h k = tt

pub Holds-map_err :
    {D E A : Type 0} (P : A → Type 0) (from : D → E) (r : Result D A)
    → Holds P r
    → Holds P (map_err from r)
unfolding Holds
Holds-map_err P from (ok a) h = h
Holds-map_err P from (err x) h = tt

pub Holds-at :
    {A : Type 0} (P : A → Type 0) (span : Span) (r : Result Text A)
    → Holds P r
    → Holds P (at span r)
unfolding Holds at
Holds-at P span (ok a) h = h
Holds-at P span (err x) h = tt

checked-Bounded : (n : ℤ) → Holds Bounded (checked n)
unfolding Holds Bounded checked
checked-Bounded n = if_both (Holds Bounded) (in_i32 n) (λ e. (e, omega arith)) (λ e. tt)

i32_binary-Bounded : (a : ℤ) (op : BinaryOp) (b : ℤ) → Holds Bounded (i32_binary a op b)
unfolding Holds Bounded i32_binary
i32_binary-Bounded a BinaryOp.add b = checked-Bounded (a +ℤ b)
i32_binary-Bounded a BinaryOp.subtract b = checked-Bounded (a -ℤ b)
i32_binary-Bounded a BinaryOp.multiply b = checked-Bounded (a *ℤ b)
i32_binary-Bounded a BinaryOp.divide b =
    if_both (Holds Bounded) (same_ℤ b (pos 0)) (λ e. tt) (λ e. checked-Bounded (quotient a b))
i32_binary-Bounded a BinaryOp.remainder b =
    if_both (Holds Bounded) (same_ℤ b (pos 0)) (λ e. tt)
      (λ e.
        if_both (Holds Bounded) (same_ℤ a i32_min && same_ℤ b (negsuc 0)) (λ e. tt)
          (λ e. checked-Bounded (remainder a b)))
i32_binary-Bounded a BinaryOp.logical_and b = tt
i32_binary-Bounded a BinaryOp.logical_or b = tt
i32_binary-Bounded a _ b = (tt, omega arith)

finite_f32-Bounded : (bits : ℕ) → Holds Bounded (finite_f32 bits)
unfolding Holds Bounded finite_f32
finite_f32-Bounded bits =
    if_both (Holds Bounded) (F32.is_finite bits) (λ e. (e, omega arith)) (λ e. tt)

f32_binary-Bounded : (a : ℕ) (op : BinaryOp) (b : ℕ) → Holds Bounded (f32_binary a op b)
unfolding Holds Bounded f32_binary
f32_binary-Bounded a BinaryOp.remainder b = tt
f32_binary-Bounded a BinaryOp.divide b =
    if_both (Holds Bounded) (F32.equal b 0) (λ e. tt) (λ e. finite_f32-Bounded _)
f32_binary-Bounded a BinaryOp.add b = finite_f32-Bounded _
f32_binary-Bounded a BinaryOp.subtract b = finite_f32-Bounded _
f32_binary-Bounded a BinaryOp.multiply b = finite_f32-Bounded _
f32_binary-Bounded a BinaryOp.logical_and b = tt
f32_binary-Bounded a BinaryOp.logical_or b = tt
f32_binary-Bounded a _ b = (tt, omega arith)

bool_binary-Bounded : (a : Bool) (op : BinaryOp) (b : Bool) → Holds Bounded (bool_binary a op b)
unfolding Holds Bounded bool_binary
bool_binary-Bounded a BinaryOp.equal b = (tt, omega arith)
bool_binary-Bounded a BinaryOp.not_equal b = (tt, omega arith)
bool_binary-Bounded a BinaryOp.logical_and b = (tt, omega arith)
bool_binary-Bounded a BinaryOp.logical_or b = (tt, omega arith)
bool_binary-Bounded a _ b = tt

pub evaluate_binary-Bounded :
    (l : ConstantValue) (op : BinaryOp) (r : ConstantValue) → Holds Bounded (evaluate_binary l op r)
unfolding Holds Bounded evaluate_binary
evaluate_binary-Bounded (ConstantValue.i32 a) op (ConstantValue.i32 b) = i32_binary-Bounded a op b
evaluate_binary-Bounded (ConstantValue.f32 a) op (ConstantValue.f32 b) = f32_binary-Bounded a op b
evaluate_binary-Bounded (ConstantValue.bool a) op (ConstantValue.bool b) =
    bool_binary-Bounded a op b
evaluate_binary-Bounded _ op _ = tt

pub unary_value-Bounded : (op : UnaryOp) (v : ConstantValue) → Holds Bounded (unary_value op v)
unfolding Holds Bounded unary_value
unary_value-Bounded UnaryOp.negate (ConstantValue.i32 n) = checked-Bounded (neg n)
unary_value-Bounded UnaryOp.negate (ConstantValue.f32 bits) =
    if_both (Holds Bounded) (F32.is_finite bits) (λ e. (is_finite-negate bits e, omega arith))
      (λ e. tt)
unary_value-Bounded UnaryOp.not (ConstantValue.bool b) = (tt, omega arith)
unary_value-Bounded UnaryOp.negate _ = tt
unary_value-Bounded UnaryOp.not _ = tt

clamp_units-Scalars : (negative : Bool) (n : ℕ) → in_i32 (F32.clamp_units negative n) ≡ true
unfolding in_i32 F32.clamp_units
clamp_units-Scalars true n =
    if_both (λ m. in_i32 m ≡ true) (leb 2147483648 n) (λ e. refl) (λ e. ground (arith, e))
clamp_units-Scalars false n =
    if_both (λ m. in_i32 m ≡ true) (leb 2147483648 n) (λ e. refl) (λ e. ground (arith, e))

safe_f32_to_i32-Scalars : (x : F32.Float) → in_i32 (F32.safe_f32_to_i32_float x) ≡ true
unfolding F32.safe_f32_to_i32_float in_i32
safe_f32_to_i32-Scalars (F32.finite s m) = clamp_units-Scalars s _
safe_f32_to_i32-Scalars (F32.infinite true) = refl
safe_f32_to_i32-Scalars (F32.infinite false) = refl
safe_f32_to_i32-Scalars F32.nan = refl

pub convert_constant-Bounded :
    (target : ValueType) (v : ConstantValue) → Bounded v → Holds Bounded (convert_constant target v)
unfolding Holds Bounded convert_constant F32.safe_f32_to_i32
convert_constant-Bounded ValueType.i32 (ConstantValue.i32 n) h = h
convert_constant-Bounded ValueType.f32 (ConstantValue.f32 bits) h = h
convert_constant-Bounded ValueType.f32 (ConstantValue.i32 n) h =
    (is_finite-of_i32 n h.0, omega arith)
convert_constant-Bounded ValueType.i32 (ConstantValue.f32 bits) h =
    (safe_f32_to_i32-Scalars (F32.decode bits), omega arith)
convert_constant-Bounded ValueType.bool (ConstantValue.i32 k) h = tt
convert_constant-Bounded ValueType.bool (ConstantValue.f32 k) h = tt
convert_constant-Bounded ValueType.bool (ConstantValue.bool k) h = tt
convert_constant-Bounded ValueType.bool (ConstantValue.array e vs) h = tt
convert_constant-Bounded ValueType.bool (ConstantValue.struct k vs) h = tt
convert_constant-Bounded (ValueType.array ty n) (ConstantValue.i32 k) h = tt
convert_constant-Bounded (ValueType.array ty n) (ConstantValue.f32 k) h = tt
convert_constant-Bounded (ValueType.array ty n) (ConstantValue.bool k) h = tt
convert_constant-Bounded (ValueType.array ty n) (ConstantValue.array e vs) h = tt
convert_constant-Bounded (ValueType.array ty n) (ConstantValue.struct k vs) h = tt
convert_constant-Bounded (ValueType.struct m) (ConstantValue.i32 k) h = tt
convert_constant-Bounded (ValueType.struct m) (ConstantValue.f32 k) h = tt
convert_constant-Bounded (ValueType.struct m) (ConstantValue.bool k) h = tt
convert_constant-Bounded (ValueType.struct m) (ConstantValue.array e vs) h = tt
convert_constant-Bounded (ValueType.struct m) (ConstantValue.struct k vs) h = tt
convert_constant-Bounded _ _ h = tt

-- A component that was found nests no deeper than `n`.
Found : ℕ → Option ConstantValue → Type 0
Found n none = Unit
Found n (some v) = Scalars v × (nesting v ≤ n)

Found-deeper : {m n : ℕ} (o : Option ConstantValue) → m ≤ n → Found m o → Found n o
unfolding Found
Found-deeper none h k = tt
Found-deeper (some w) h k = (k.0, omega (arith, h, k.1))

nth_value-Found : (vs : Values) (i : ℕ) → ScalarsOf vs → Found (nesting_values vs) (nth_value vs i)
unfolding nth_value ScalarsOf nesting_values Found
nth_value-Found Values.nil i h = tt
nth_value-Found (Values.cons v vs) ℕ.zero h = (h.0, omega arith)
nth_value-Found (Values.cons v vs) (ℕ.suc i) h =
    Found-deeper (nth_value vs i) (omega arith) (nth_value-Found vs i h.1)

Found-if :
    (n : ℕ) (b : Bool) (v : ConstantValue) (o : Option ConstantValue)
    → Found n (some v)
    → Found n o
    → Found n (if b then some v else o)
Found-if n b v o h k = if_both (Found n) b (λ e. h) (λ e. k)

find_value-Found :
    (vs : NamedValues) (name : Text)
    → ScalarsNamed vs
    → Found (nesting_named vs) (find_value vs name)
unfolding find_value ScalarsNamed nesting_named Found
find_value-Found NamedValues.end name h = tt
find_value-Found (NamedValues.named key v vs) name h =
    Found-if _ (same_text key name) v (find_value vs name) (h.0, omega arith)
      (Found-deeper (find_value vs name) (omega arith) (find_value-Found vs name h.1))

found-Bounded :
    {n : ℕ} (o : Option ConstantValue) (d : Diagnostic)
    → suc n ≤ max_depth
    → Found n o
    → Holds Bounded
        (elim o as (λ _. Result Diagnostic ConstantValue) [ some v ↦ ok v | none ↦ err d ])
unfolding Holds Bounded Found
found-Bounded none d h k = tt
found-Bounded (some v) d h k = (k.0, omega (arith, h, k.1))

pub index_value-Bounded :
    (base i : ConstantValue) (span : Span) → Bounded base → Holds Bounded (index_value base i span)
unfolding Holds Bounded index_value nth_signed
index_value-Bounded (ConstantValue.array element vs) (ConstantValue.i32 (pos i)) span h =
    found-Bounded (nth_value vs i) _ h.1 (nth_value-Found vs i h.0)
index_value-Bounded (ConstantValue.array element vs) (ConstantValue.i32 (negsuc i)) span h = tt
index_value-Bounded (ConstantValue.i32 n) (ConstantValue.i32 i) span h = tt
index_value-Bounded (ConstantValue.f32 n) (ConstantValue.i32 i) span h = tt
index_value-Bounded (ConstantValue.bool n) (ConstantValue.i32 i) span h = tt
index_value-Bounded (ConstantValue.struct n vs) (ConstantValue.i32 i) span h = tt
index_value-Bounded (ConstantValue.i32 k) (ConstantValue.f32 i) span h = tt
index_value-Bounded (ConstantValue.i32 k) (ConstantValue.bool i) span h = tt
index_value-Bounded (ConstantValue.i32 k) (ConstantValue.struct i ws) span h = tt
index_value-Bounded (ConstantValue.i32 k) (ConstantValue.array i ws) span h = tt
index_value-Bounded (ConstantValue.f32 k) (ConstantValue.f32 i) span h = tt
index_value-Bounded (ConstantValue.f32 k) (ConstantValue.bool i) span h = tt
index_value-Bounded (ConstantValue.f32 k) (ConstantValue.struct i ws) span h = tt
index_value-Bounded (ConstantValue.f32 k) (ConstantValue.array i ws) span h = tt
index_value-Bounded (ConstantValue.bool k) (ConstantValue.f32 i) span h = tt
index_value-Bounded (ConstantValue.bool k) (ConstantValue.bool i) span h = tt
index_value-Bounded (ConstantValue.bool k) (ConstantValue.struct i ws) span h = tt
index_value-Bounded (ConstantValue.bool k) (ConstantValue.array i ws) span h = tt
index_value-Bounded (ConstantValue.struct k vs) (ConstantValue.f32 i) span h = tt
index_value-Bounded (ConstantValue.struct k vs) (ConstantValue.bool i) span h = tt
index_value-Bounded (ConstantValue.struct k vs) (ConstantValue.struct i ws) span h = tt
index_value-Bounded (ConstantValue.struct k vs) (ConstantValue.array i ws) span h = tt
index_value-Bounded (ConstantValue.array k vs) (ConstantValue.f32 i) span h = tt
index_value-Bounded (ConstantValue.array k vs) (ConstantValue.bool i) span h = tt
index_value-Bounded (ConstantValue.array k vs) (ConstantValue.struct i ws) span h = tt
index_value-Bounded (ConstantValue.array k vs) (ConstantValue.array i ws) span h = tt

pub field_value-Bounded :
    (base : ConstantValue) (name : Text) (span : Span)
    → Bounded base
    → Holds Bounded (field_value base name span)
unfolding Holds Bounded field_value
field_value-Bounded (ConstantValue.struct key vs) name span h =
    found-Bounded (find_value vs name) _ h.1 (find_value-Found vs name h.0)
field_value-Bounded (ConstantValue.i32 n) name span h = tt
field_value-Bounded (ConstantValue.f32 n) name span h = tt
field_value-Bounded (ConstantValue.bool n) name span h = tt
field_value-Bounded (ConstantValue.array ty vs) name span h = tt

-- Children that an aggregate may take.
unfoldable pub Fits : Values → Type 0
Fits vs = ScalarsOf vs × (suc (nesting_values vs) ≤ max_depth)

le_of_ltb : (m n : ℕ) → ltb m n ≡ false → n ≤ m
le_of_ltb m n h = ground (arith, h)

pub fitting-Fits : (vs : Values) (span : Span) → ScalarsOf vs → Holds Fits (fitting vs span)
unfolding Holds Fits fitting
fitting-Fits vs span h =
    if_both (λ (r : Result Diagnostic Values). Holds Fits r)
      (ltb max_depth (suc (nesting_values vs))) (λ e. tt)
      (λ e. (h, le_of_ltb max_depth (suc (nesting_values vs)) e))

pub zip-Scalars :
    (names : List Text) (vs : Values)
    → ScalarsOf vs
    → ScalarsNamed (zip names vs) × (nesting_named (zip names vs) ≤ nesting_values vs)
unfolding zip Scalars nesting
zip-Scalars [] Values.nil h = (tt, omega arith)
zip-Scalars [] (Values.cons v vs) h = (tt, omega arith)
zip-Scalars (n ∷ names) Values.nil h = (tt, omega arith)
zip-Scalars (n ∷ names) (Values.cons v vs) h =
    let rest = zip-Scalars names vs h.1 in ((h.0, rest.0), omega (arith, rest.1))

pub literal_i32-Bounded : (n : ℤ) (span : Span) → Holds Bounded (literal_i32 n span)
unfolding Holds Bounded literal_i32
literal_i32-Bounded n span =
    if_both (λ (r : Result Diagnostic ConstantValue). Holds Bounded r) (in_i32 n)
      (λ e. (e, omega arith)) (λ e. tt)

pub literal_f32-Bounded : (bits : ℕ) (span : Span) → Holds Bounded (literal_f32 bits span)
unfolding Holds Bounded literal_f32
literal_f32-Bounded bits span =
    if_both (λ (r : Result Diagnostic ConstantValue). Holds Bounded r) (F32.is_finite bits)
      (λ e. (e, omega arith)) (λ e. tt)

pub boolean_value-Bounded :
    (op : BinaryOp) (span : Span) (v : ConstantValue) → Holds Bounded (boolean_value op span v)
unfolding Holds Bounded boolean_value
boolean_value-Bounded op span (ConstantValue.bool b) = (tt, omega arith)
boolean_value-Bounded op span (ConstantValue.i32 b) = tt
boolean_value-Bounded op span (ConstantValue.f32 b) = tt
boolean_value-Bounded op span (ConstantValue.struct b vs) = tt
boolean_value-Bounded op span (ConstantValue.array b vs) = tt

pub Holds-true : {E A : Type 0} (r : Result E A) → Holds {A = A} (λ _. Unit {0}) r
unfolding Holds
Holds-true (ok a) = tt
Holds-true (err x) = tt
