-- ===== src/Lexer/Number.antt =====
-- `str::parse` for the literals that the lexer meets: `i64` from decimal digits, and `f32` from
-- digits, a point and digits, rounded to the nearest value, ties to even.
use speck.Base.{
  ℕ, zero, suc, ◌+◌, ◌-◌, ◌*◌, ◌/◌, ◌%◌, ◌^◌, Bool, ◌&&◌, [], ◌∷◌, Option, none, some, Text, ◌≡◌,
  refl, ltb, leb, if◌then◌else◌, length,
}
use speck.Base.Int.{ℤ, pos}

-- `u8::is_ascii_digit`
unfoldable pub is_digit : ℕ → Bool
is_digit b = leb b'0' b && leb b b'9'

-- The number that decimal digits write, after `acc`.
unfoldable pub decimal : ℕ → Text → ℕ
decimal acc [] = acc
decimal acc (b ∷ bs) = decimal (acc * 10 + (b - b'0')) bs

-- `text.parse::<i64>()`
unfoldable pub parse_i64 : Text → Option ℤ
unfolding decimal
parse_i64 digits = if ltb (decimal 0 digits) (2 ^ 63) then some (pos (decimal 0 digits)) else none

-- n / d to the nearest integer, ties to even.
unfoldable pub round_half_even : ℕ → ℕ → ℕ
round_half_even n d =
    let q = n / d in
    let twice = 2 * (n % d) in if ltb twice d then q else if ltb d twice then q + 1 else q + q % 2

-- The bits of the `f32` nearest n / d. The exponent is the least at which the significand has at
-- most 24 bits; the units of the significand are 2 ^ (exponent - 149).
unfoldable pub nearest_f32 : ℕ → ℕ → ℕ → ℕ → ℕ
unfolding round_half_even
nearest_f32 zero exponent n d = 0x7f800000
nearest_f32 (suc fuel) exponent n d =
    let rest = nearest_f32 fuel (exponent + 1) n d in
    if ltb (n * 2 ^ 149) (d * 2 ^ (exponent + 24))
    then exponent * 2 ^ 23 + round_half_even (n * 2 ^ 149) (d * 2 ^ exponent)
    else rest

-- `text.parse::<f32>()` on the digits before and after the point. Exponents run up to 253: beyond,
-- and where rounding carries past the largest one, the value is infinity.
unfoldable pub parse_f32 : Text → Text → ℕ
unfolding decimal nearest_f32
parse_f32 whole fraction =
    nearest_f32 254 0 (decimal (decimal 0 whole) fraction) (10 ^ length fraction)

one_and_a_half : parse_f32 (b'1' ∷ []) (b'5' ∷ []) ≡ 0x3fc00000
unfolding parse_f32
one_and_a_half = refl
