-- ===== src/Resolution/Limits.antt =====
-- What `Resolution::new` of src/resolution.rs lets through.
use speck.Base.{ℕ, ◌*◌, ◌≤◌, text, ◌≡◌, refl, ◌⊎◌, inl, inr, arith, if_both, true, false, subst}
use native.Mathlib.Nat.{mul-le-mul}
use speck.Resolution.{
  max_dimension, Resolution, Checked, valid, rejected, in_range, new_resolution, payload_bytes,
  default_resolution,
}

abbrev pub IsDimension : ℕ → Type 0
IsDimension n = (1 ≤ n) × (n ≤ max_dimension)

abbrev pub InLimits : Resolution → Type 0
InLimits r = IsDimension r.width × IsDimension r.height

-- What `Resolution::new` returns for a width and a height: they are taken if both are dimensions;
-- else the first that is not one is named.
abbrev pub IsChecked : ℕ → ℕ → Checked → Type 0
IsChecked width height (valid r) = (r.width ≡ width) × (r.height ≡ height) × InLimits r
IsChecked width height (rejected name dimension) =
    ((name ≡ text "width") × (dimension ≡ width) × ¬ IsDimension width)
    ⊎ ((name ≡ text "height") × (dimension ≡ height) × IsDimension width × ¬ IsDimension height)

IsDimension-of_test : (n : ℕ) → in_range n ≡ true → IsDimension n
IsDimension-of_test n h = ground arith

test_of_no-IsDimension : (n : ℕ) → in_range n ≡ false → ¬ IsDimension n
test_of_no-IsDimension n h (low, high) = ground arith

-- `Resolution::new` gives the two numbers back exactly if both lie in 1 to 4096; else it names the
-- width if that is out of range, and the height if only that is.
pub new_resolution-IsChecked :
    (width height : ℕ) → IsChecked width height (new_resolution width height)
unfolding new_resolution
new_resolution-IsChecked width height =
    if_both (IsChecked width height) (in_range width)
      (λ w.
        if_both (IsChecked width height) (in_range height)
          (λ h. (refl, refl, (IsDimension-of_test width w, IsDimension-of_test height h)))
          (λ h. inr (refl, refl, IsDimension-of_test width w, test_of_no-IsDimension height h)))
      (λ w. inl (refl, refl, test_of_no-IsDimension width w))

pub default_resolution-InLimits : InLimits default_resolution
default_resolution-InLimits = ((omega arith, omega arith), (omega arith, omega arith))

-- The packed RGB8 framebuffer of a resolution that `Resolution::new` returned has between 3 and
-- 50,331,648 bytes, which a 32-bit number holds.
pub payload_bytes-bounds :
    (width height : ℕ) {r : Resolution}
    → new_resolution width height ≡ valid r
    → (3 ≤ payload_bytes r) × (payload_bytes r ≤ 50331648)
unfolding payload_bytes
payload_bytes-bounds width height {r} e =
    let (_, _, ((w, w'), (h, h'))) =
      subst (IsChecked width height) e (new_resolution-IsChecked width height) in
    let low : 1 * 1 ≤ r.width * r.height = mul-le-mul w h in
    let high : r.width * r.height ≤ 4096 * 4096 = mul-le-mul w' h' in
    (omega (arith, low), omega (arith, high))
