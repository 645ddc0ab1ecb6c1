-- ===== src/F32.antt =====
-- The `f32` arithmetic of constant expressions (`+`, `-`, `*`, `/`, comparisons, `is_finite` and
-- the conversions of src/sema/constants.rs), on bit patterns. A finite value is a sign and a
-- number of units of 2 ^ -149, and each result is rounded to the nearest, ties to even.
use speck.Base.{
  ℕ, ◌+◌, ◌-◌, ◌*◌, ◌/◌, ◌%◌, ◌^◌, Bool, true, false, not, ◌&&◌, leb, ◌==◌, if◌then◌else◌,
}
use speck.Base.Int.{ℤ, pos, negsuc, neg, ◌+ℤ◌, ltb_ℤ, same_ℤ}
use speck.Lexer.Number.{nearest_f32}
pub mod Finite

pub data Float : Type 0 where
  finite : Bool → ℕ → Float
  infinite : Bool → Float
  nan : Float

unfoldable pub decode : ℕ → Float
decode bits =
    let negative = leb (2 ^ 31) bits in
    let exponent = bits / 2 ^ 23 % 2 ^ 8 in
    let fraction = bits % 2 ^ 23 in
    if exponent == 255
    then (if fraction == 0 then infinite negative else nan)
    else if exponent == 0
    then finite negative fraction
    else finite negative ((2 ^ 23 + fraction) * 2 ^ (exponent - 1))

-- The bits of the value nearest (-1) ^ sign * n / d.
unfoldable pub round : Bool → ℕ → ℕ → ℕ
unfolding nearest_f32
round negative n d = (if negative then 2 ^ 31 else 0) + nearest_f32 254 0 n d

-- The pattern that a computation of no value gives. Only its being no number is used.
abbrev pub nan_bits : ℕ
nan_bits = 0x7fc00000

abbrev pub signed : Bool → ℕ → ℤ
signed negative n = if negative then neg (pos n) else pos n

-- `f32::is_finite` and `f32::is_nan`
unfoldable pub is_finite : ℕ → Bool
is_finite bits = not (bits / 2 ^ 23 % 2 ^ 8 == 255)

-- `-value`
unfoldable pub negate : ℕ → ℕ
negate bits = if leb (2 ^ 31) bits then bits - 2 ^ 31 else bits + 2 ^ 31

round_units : ℤ → ℕ
unfolding round
round_units (pos n) = round false n (2 ^ 149)
round_units (negsuc n) = round true (n + 1) (2 ^ 149)

-- A sum of zeros is negative only when both are.
add_float : Float → Float → ℕ
unfolding round_units round
add_float (finite s m) (finite t n) =
    if m + n == 0 then (if s && t then 2 ^ 31 else 0) else round_units (signed s m +ℤ signed t n)
add_float (finite s m) (infinite t) = (if t then 2 ^ 31 else 0) + 0x7f800000
add_float (infinite s) (finite t n) = (if s then 2 ^ 31 else 0) + 0x7f800000
add_float (infinite true) (infinite true) = 2 ^ 31 + 0x7f800000
add_float (infinite false) (infinite false) = 0x7f800000
add_float _ _ = nan_bits

unfoldable pub add : ℕ → ℕ → ℕ
unfolding add_float decode
add a b = add_float (decode a) (decode b)

unfoldable pub subtract : ℕ → ℕ → ℕ
unfolding add negate
subtract a b = add a (negate b)

differ : Bool → Bool → Bool
differ true b = not b
differ false b = b

multiply_float : Float → Float → ℕ
unfolding round differ
multiply_float (finite s m) (finite t n) = round (differ s t) (m * n) (2 ^ 149 * 2 ^ 149)
multiply_float (finite s m) (infinite t) =
    if m == 0 then nan_bits else (if differ s t then 2 ^ 31 else 0) + 0x7f800000
multiply_float (infinite s) (finite t n) =
    if n == 0 then nan_bits else (if differ s t then 2 ^ 31 else 0) + 0x7f800000
multiply_float (infinite s) (infinite t) = (if differ s t then 2 ^ 31 else 0) + 0x7f800000
multiply_float _ _ = nan_bits

unfoldable pub multiply : ℕ → ℕ → ℕ
unfolding multiply_float decode
multiply a b = multiply_float (decode a) (decode b)

divide_float : Float → Float → ℕ
unfolding round differ
divide_float (finite s m) (finite t n) =
    if n == 0
    then (if m == 0 then nan_bits else (if differ s t then 2 ^ 31 else 0) + 0x7f800000)
    else round (differ s t) m n
divide_float (finite s m) (infinite t) = if differ s t then 2 ^ 31 else 0
divide_float (infinite s) (finite t n) = (if differ s t then 2 ^ 31 else 0) + 0x7f800000
divide_float _ _ = nan_bits

unfoldable pub divide : ℕ → ℕ → ℕ
unfolding divide_float decode
divide a b = divide_float (decode a) (decode b)

equal_float : Float → Float → Bool
equal_float (finite s m) (finite t n) = same_ℤ (signed s m) (signed t n)
equal_float (infinite true) (infinite true) = true
equal_float (infinite false) (infinite false) = true
equal_float _ _ = false

less_float : Float → Float → Bool
less_float (finite s m) (finite t n) = ltb_ℤ (signed s m) (signed t n)
less_float (finite s m) (infinite t) = not t
less_float (infinite s) (finite t n) = s
less_float (infinite true) (infinite false) = true
less_float _ _ = false

-- `==` and `<` of two values; `>` swaps them.
unfoldable pub equal : ℕ → ℕ → Bool
unfolding equal_float decode
equal a b = equal_float (decode a) (decode b)

unfoldable pub less : ℕ → ℕ → Bool
unfolding less_float decode
less a b = less_float (decode a) (decode b)

-- `value as f32` of an integer.
unfoldable pub of_i32 : ℤ → ℕ
unfolding round
of_i32 (pos n) = round false n 1
of_i32 (negsuc n) = round true (n + 1) 1

unfoldable pub clamp_units : Bool → ℕ → ℤ
clamp_units true n = if leb (2 ^ 31) n then negsuc 0x7fffffff else neg (pos n)
clamp_units false n = if leb (2 ^ 31) n then pos 0x7fffffff else pos n

-- `safe_f32_to_i32` of src/sema/constants.rs: no number gives 0, and the value is truncated within
-- the range of `i32`.
unfoldable pub safe_f32_to_i32_float : Float → ℤ
unfolding clamp_units
safe_f32_to_i32_float (finite s m) = clamp_units s (m / 2 ^ 149)
safe_f32_to_i32_float (infinite true) = negsuc 0x7fffffff
safe_f32_to_i32_float (infinite false) = pos 0x7fffffff
safe_f32_to_i32_float nan = pos 0

unfoldable pub safe_f32_to_i32 : ℕ → ℤ
unfolding safe_f32_to_i32_float decode
safe_f32_to_i32 bits = safe_f32_to_i32_float (decode bits)
