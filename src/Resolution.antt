-- ===== src/Resolution.antt =====
-- src/resolution.rs: the framebuffer's dimensions, checked when a value is built.
pub mod Limits
use speck.Base.{ℕ, ◌*◌, ◌≤◌, Text, text, Bool, ◌&&◌, leb, if◌then◌else◌, ◌≡◌, refl, ◌⊎◌, arith}

abbrev pub max_dimension : ℕ
max_dimension = 4096

-- Dimensions are `u16` values.
pub record Resolution : Type 0 where
  pub width : ℕ
  pub height : ℕ

abbrev pub default_resolution : Resolution
default_resolution = record { width = 320; height = 180 }

pub data Checked : Type 0 where
  valid : Resolution → Checked
  rejected : Text → ℕ → Checked

-- `(1..=MAX_DIMENSION).contains(&dimension)`
abbrev pub in_range : ℕ → Bool
in_range dimension = leb 1 dimension && leb dimension max_dimension

-- `Resolution::new`: the name and the value of the first dimension out of range, or the resolution.
unfoldable pub new_resolution : ℕ → ℕ → Checked
new_resolution width height =
    if in_range width
    then if in_range height
      then valid (record { width = width; height = height })
      else rejected (text "height") height
    else rejected (text "width") width

-- `Resolution::payload_bytes`
unfoldable pub payload_bytes : Resolution → ℕ
payload_bytes r = r.width * r.height * 3
