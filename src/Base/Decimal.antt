-- ===== src/Base/Decimal.antt =====
-- Decimal text, as `to_string` and `format!` write integers.
use Prim.Native.Nat.{ℕ, zero, suc, ◌+◌, ◌/◌, ◌%◌}
use mathlib.Core.List.{[], ◌∷◌}
use speck.Base.Int.{ℤ, pos, negsuc}
use speck.Base.Strings.{Text}
use speck.Base.Tests.{ltb, if◌then◌else◌}

-- The digits of `n` in front of `after`. A number has no more digits than its value and one.
unfoldable pub digits_onto : ℕ → ℕ → Text → Text
digits_onto zero n after = after
digits_onto (suc fuel) n after =
    let rest = digits_onto fuel (n / 10) ((b'0' + n % 10) ∷ after) in
    if ltb n 10 then (b'0' + n) ∷ after else rest

unfoldable pub show_ℕ : ℕ → Text
show_ℕ n = digits_onto (suc n) n []

unfoldable pub show_ℤ : ℤ → Text
show_ℤ (pos n) = show_ℕ n
show_ℤ (negsuc n) = b'-' ∷ show_ℕ (suc n)
