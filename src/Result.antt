-- ===== src/Result.antt =====
-- Rust's `Result` with an error type of the caller's.
pub mod Inversion

pub data Result {ℓ κ} (E : Type ℓ) (A : Type κ) : Type (ℓ ⊔ κ) where
  ok : A → Result E A
  err : E → Result E A

-- The `?` operator.
abbrev pub and_then {ℓ κ ν} :
    {E : Type ℓ} {A : Type κ} {B : Type ν} → Result E A → (A → Result E B) → Result E B
and_then (ok a) f = f a
and_then (err x) f = err x

-- `Result::map_err`
abbrev pub map_err {ℓ κ ν} :
    {E : Type ℓ} {F : Type κ} {A : Type ν} → (E → F) → Result E A → Result F A
map_err f (ok a) = ok a
map_err f (err x) = err (f x)
