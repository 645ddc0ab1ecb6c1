-- ===== src/Result/Inversion.antt =====
-- What a Rust `Result` that is `Ok` came from, behind the `?` operator and `map_err`.
use speck.Base.{◌≡◌, refl}
use speck.Result.{Result, ok, err, and_then, map_err}

pub and_then_ok :
    {E A B : Type 0} (r : Result E A) (f : A → Result E B) {b : B}
    → and_then r f ≡ ok b
    → (a : A) × (r ≡ ok a) × (f a ≡ ok b)
and_then_ok (ok a) f h = (a, refl, h)
and_then_ok (err x) f h = absurd (cc h)

pub map_err_ok :
    {D E A : Type 0} (from : D → E) (r : Result D A) {a : A} → map_err from r ≡ ok a → r ≡ ok a
map_err_ok from (ok a) h = cc h
map_err_ok from (err x) h = absurd (cc h)
