-- ===== src/Outcome.antt =====
-- What a call of the compiler's code comes to: a value, a reported diagnostic (`Result::Err`),
-- a Rust panic (a failed index, `expect` or `assert!`), or a model loop that ran out of fuel.
use speck.Diagnostic.{Diagnostic}

pub data Outcome {ℓ} (A : Type ℓ) : Type ℓ where
  ok : A → Outcome A
  fail : Diagnostic → Outcome A
  panic : Outcome A
  exhausted : Outcome A

-- The `?` operator.
abbrev pub and_then {ℓ κ} : {A : Type ℓ} {B : Type κ} → Outcome A → (A → Outcome B) → Outcome B
and_then (ok a) f = f a
and_then (fail d) f = fail d
and_then panic f = panic
and_then exhausted f = exhausted
