-- ===== src/F32/Finite.antt =====
-- Which bit patterns of src/sema/constants.rs are finite `f32` values: negations and integers.
use speck.Base.{
  ℕ, zero, suc, ◌+◌, ◌-◌, ◌*◌, ◌/◌, ◌%◌, ◌^◌, ◌≤◌, ◌<◌, true, false, leb, ltb, ◌==◌, ==_iff, ◌≡◌,
  refl, ap, ◌∙◌, arith, if_both, Bool-cases, inl, inr,
}
use native.Mathlib.Nat.{div-lt_iff_lt-mul, one-le-pow}
use native.Mathlib.Omega.{pow_step}
use speck.Base.Int.{ℤ, pos, negsuc}
use speck.Sema.Constants.Values.{in_i32}
use speck.F32
use speck.Lexer.Number.{nearest_f32, round_half_even}

exponent_finite : (bits : ℕ) → bits / 2 ^ 23 % 2 ^ 8 < 255 → F32.is_finite bits ≡ true
unfolding F32.is_finite
exponent_finite bits h = ground (arith, h)

finite_exponent : (bits : ℕ) → F32.is_finite bits ≡ true → bits / 2 ^ 23 % 2 ^ 8 < 255
unfolding F32.is_finite
finite_exponent bits h = ground (arith, h)

pub is_finite-negate :
    (bits : ℕ) → F32.is_finite bits ≡ true → F32.is_finite (F32.negate bits) ≡ true
unfolding F32.negate
is_finite-negate bits h =
    let e = finite_exponent bits h in
    if_both (λ n. F32.is_finite n ≡ true) (leb (2 ^ 31) bits)
      (λ low. exponent_finite (bits - 2 ^ 31) (ground (arith, e, low)))
      (λ high. exponent_finite (bits + 2 ^ 31) (ground (arith, e, high)))

round_half_even-le : (n d : ℕ) → round_half_even n d ≤ n / d + 1
unfolding round_half_even
round_half_even-le n d = ground arith

power_up : (e : ℕ) → 2 ^ (e + 24) ≡ 2 ^ 24 * 2 ^ e
power_up zero = refl
power_up (suc e) =
    let first : suc e + 24 ≡ suc (e + 24) = omega arith in
    let both : 2 ^ suc (e + 24) ≡ 2 * 2 ^ (e + 24) = pow_step 2 (e + 24) in
    let one : 2 ^ suc e ≡ 2 * 2 ^ e = pow_step 2 e in
    let before = power_up e in ap (λ k. 2 ^ k) first ∙ omega (arith, both, one, before)

last_exponent :
    (exponent n : ℕ)
    → n < 2 ^ 32
    → exponent ≤ 157
    → ltb (n * 2 ^ 149) (1 * 2 ^ (exponent + 24)) ≡ false
    → exponent + 1 ≤ 157
last_exponent exponent n small low missed = elim (Bool-cases (exponent == 157)) [
  | inl e ↦
      let same : exponent ≡ 157 = (==_iff exponent 157).0 e in
      let over : ltb (n * 2 ^ 149) (1 * 2 ^ (157 + 24)) ≡ false = rw same at missed in
      absurd (ground (arith, over, small))
  | inr e ↦ ground (arith, low, e)
]

-- A value below 2 ^ 32 is found at an exponent of 157 at most.
nearest_f32-le :
    (fuel exponent n : ℕ)
    → n < 2 ^ 32
    → exponent ≤ 157
    → 157 < exponent + fuel
    → nearest_f32 fuel exponent n 1 ≤ 159 * 2 ^ 23
unfolding nearest_f32
nearest_f32-le zero exponent n small low enough = absurd (omega (arith, low, enough))
nearest_f32-le (suc fuel) exponent n small low enough =
    if_both (λ r. r ≤ 159 * 2 ^ 23) (ltb (n * 2 ^ 149) (1 * 2 ^ (exponent + 24)))
      (λ found.
        let one : 1 * 2 ^ exponent ≡ 2 ^ exponent = omega arith in
        let power : 1 * 2 ^ (exponent + 24) ≡ 2 ^ 24 * 2 ^ exponent =
          omega (arith, power_up exponent) in
        let positive : 0 < 1 * 2 ^ exponent = omega (arith, one-le-pow exponent 2 (omega arith)) in
        let fits : n * 2 ^ 149 < 2 ^ 24 * (1 * 2 ^ exponent) = ground (arith, found, power, one) in
        let digits : n * 2 ^ 149 / (1 * 2 ^ exponent) < 2 ^ 24 =
          (div-lt_iff_lt-mul positive).1 fits in
        omega (arith, low, digits, round_half_even-le (n * 2 ^ 149) (1 * 2 ^ exponent)))
      (λ missed.
        nearest_f32-le fuel (exponent + 1) n small (last_exponent exponent n small low missed)
          (omega (arith, enough)))

pub is_finite-of_i32 : (n : ℤ) → in_i32 n ≡ true → F32.is_finite (F32.of_i32 n) ≡ true
unfolding F32.of_i32 F32.round in_i32
is_finite-of_i32 (pos n) h =
    exponent_finite _
      (omega (arith, nearest_f32-le 254 0 n (ground (arith, h)) (omega arith) (omega arith)))
is_finite-of_i32 (negsuc n) h =
    exponent_finite _
      (omega (arith, nearest_f32-le 254 0 (n + 1) (ground (arith, h)) (omega arith) (omega arith)))
