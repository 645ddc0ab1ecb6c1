-- ===== src/Sema/Constants/Arithmetic/Operators.antt =====
-- `checked_add` and the other operators of src/sema/constants.rs compute what exact arithmetic does.
use speck.Base.{
  Bool, true, false, ◌&&◌, ◌≡◌, ◌≢◌, ◌↔◌, refl, sym, ap, ◌∙◌, if◌then◌else◌, arith, Bool-cases, inl,
  inr,
}
use speck.Base.Int.{ℤ, pos, negsuc, same_ℤ}
use speck.Result.{Result, ok, err}
use speck.Sema.Constants.Evaluation.{is_logical}
use speck.Sema.Constants.Values.{in_i32, i32_min, checked, i32_binary, overflow}
use speck.Syntax.{BinaryOp}
use speck.Syntax.Value.{ConstantValue}
use speck.Sema.Constants.Arithmetic.{
  InRange, Computes, IsArithmeticOp, sum, difference, product, ratio, rest, adds, subtracts,
  multiplies, divides, leaves,
}

pub in_i32_iff : (n : ℤ) → (in_i32 n ≡ true) ↔ InRange n
unfolding in_i32
in_i32_iff (pos n) = ground arith
in_i32_iff (negsuc n) = ground arith

pub checked-InRange : (n : ℤ) → InRange n → checked n ≡ ok (ConstantValue.i32 n)
unfolding checked
checked-InRange n h = rw ((in_i32_iff n).1 h) refl

pub if_ok :
    {E : Type 0} (test : Bool) (x : ConstantValue) (error : E) {v : ConstantValue}
    → (if test then ok x else err error) ≡ ok v
    → (test ≡ true) × (v ≡ x)
if_ok true x error h = (refl, cc h)
if_ok false x error h = absurd (cc h)

guarded_ok :
    {E : Type 0} (test : Bool) (r : Result E ConstantValue) (error : E) {v : ConstantValue}
    → (if test then err error else r) ≡ ok v
    → (test ≡ false) × (r ≡ ok v)
guarded_ok true r error h = absurd (cc h)
guarded_ok false r error h = (refl, h)

pub checked-ok :
    (n : ℤ) {v : ConstantValue} → checked n ≡ ok v → (v ≡ ConstantValue.i32 n) × InRange n
unfolding checked
checked-ok n h =
    let found = if_ok (in_i32 n) (ConstantValue.i32 n) overflow h in
    (found.1, (in_i32_iff n).0 found.0)

same_ℤ_iff : (a b : ℤ) → (same_ℤ a b ≡ true) ↔ (a ≡ b)
same_ℤ_iff (pos a) (pos b) = (
  λ h. let e : a ≡ b = ground (arith, h) in ap pos e,
  λ h. let e : a ≡ b = cc h in ground (arith, e),
)
same_ℤ_iff (pos a) (negsuc b) = (λ h. absurd (ground (arith, h)), λ h. absurd (cc h))
same_ℤ_iff (negsuc a) (pos b) = (λ h. absurd (ground (arith, h)), λ h. absurd (cc h))
same_ℤ_iff (negsuc a) (negsuc b) = (
  λ h. let e : a ≡ b = ground (arith, h) in ap negsuc e,
  λ h. let e : a ≡ b = cc h in ground (arith, e),
)

same_ℤ-false : (a b : ℤ) → a ≢ b → same_ℤ a b ≡ false
same_ℤ-false a b h = elim (Bool-cases (same_ℤ a b)) [
  | inl e ↦ absurd (h ((same_ℤ_iff a b).0 e))
  | inr e ↦ e
]

same_ℤ_distinct : (a b : ℤ) → same_ℤ a b ≡ false → a ≢ b
same_ℤ_distinct a b h e = cc (h, (same_ℤ_iff a b).1 e)

both_false : (a b : Bool) → ¬ ((a ≡ true) × (b ≡ true)) → a && b ≡ false
both_false true true h = absurd (h (refl, refl))
both_false true false h = refl
both_false false b h = refl

false_both : (a b : Bool) → a && b ≡ false → ¬ ((a ≡ true) × (b ≡ true))
false_both a b h (e, f) = cc (h, e, f)

pub i32_binary-Computes :
    {op : BinaryOp} (a b n : ℤ) → Computes a b n op → i32_binary a op b ≡ ok (ConstantValue.i32 n)
unfolding i32_binary
i32_binary-Computes a b n (sum e fits) = ap checked (sym e) ∙ checked-InRange n fits
i32_binary-Computes a b n (difference e fits) = ap checked (sym e) ∙ checked-InRange n fits
i32_binary-Computes a b n (product e fits) = ap checked (sym e) ∙ checked-InRange n fits
i32_binary-Computes a b n (ratio nonzero e fits) =
    rw (same_ℤ-false b (pos 0) nonzero) (ap checked (sym e) ∙ checked-InRange n fits)
i32_binary-Computes a b n (rest nonzero exists e fits) =
    let no_overflow : same_ℤ a i32_min && same_ℤ b (negsuc 0) ≡ false =
      both_false (same_ℤ a i32_min) (same_ℤ b (negsuc 0))
        (λ (x, y). exists ((same_ℤ_iff a i32_min).0 x, (same_ℤ_iff b (negsuc 0)).0 y)) in
    rw (same_ℤ-false b (pos 0) nonzero, no_overflow) (ap checked (sym e) ∙ checked-InRange n fits)

checked-Computes :
    (op : BinaryOp) (a b n : ℤ) {v : ConstantValue}
    → checked n ≡ ok v
    → (InRange n → Computes a b n op)
    → (m : ℤ) × (v ≡ ConstantValue.i32 m) × Computes a b m op
checked-Computes op a b n h computes = let found = checked-ok n h in (n, found.0, computes found.1)

pub i32_binary-ok :
    {op : BinaryOp} (a b : ℤ) {v : ConstantValue}
    → IsArithmeticOp op
    → i32_binary a op b ≡ ok v
    → (n : ℤ) × (v ≡ ConstantValue.i32 n) × Computes a b n op
unfolding i32_binary
i32_binary-ok a b adds h = checked-Computes BinaryOp.add a b _ h (sum refl)
i32_binary-ok a b subtracts h = checked-Computes BinaryOp.subtract a b _ h (difference refl)
i32_binary-ok a b multiplies h = checked-Computes BinaryOp.multiply a b _ h (product refl)
i32_binary-ok a b divides h =
    let divisor = guarded_ok (same_ℤ b (pos 0)) _ _ h in
    checked-Computes BinaryOp.divide a b _ divisor.1
      (ratio (same_ℤ_distinct b (pos 0) divisor.0) refl)
i32_binary-ok a b leaves h =
    let divisor = guarded_ok (same_ℤ b (pos 0)) _ _ h in
    let minimum = guarded_ok (same_ℤ a i32_min && same_ℤ b (negsuc 0)) _ _ divisor.1 in
    checked-Computes BinaryOp.remainder a b _ minimum.1 (
      rest (same_ℤ_distinct b (pos 0) divisor.0)
        (λ (x, y).
          false_both _ _ minimum.0 ((same_ℤ_iff a i32_min).1 x, (same_ℤ_iff b (negsuc 0)).1 y))
        refl)

pub not_logical : {op : BinaryOp} → IsArithmeticOp op → is_logical op ≡ false
unfolding is_logical
not_logical adds = refl
not_logical subtracts = refl
not_logical multiplies = refl
not_logical divides = refl
not_logical leaves = refl

pub Computes-IsArithmeticOp : {op : BinaryOp} {a b n : ℤ} → Computes a b n op → IsArithmeticOp op
Computes-IsArithmeticOp (sum _ _) = adds
Computes-IsArithmeticOp (difference _ _) = subtracts
Computes-IsArithmeticOp (product _ _) = multiplies
Computes-IsArithmeticOp (ratio _ _ _) = divides
Computes-IsArithmeticOp (rest _ _ _ _) = leaves
