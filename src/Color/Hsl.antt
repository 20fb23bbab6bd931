-- ===== src/Color/Hsl.antt =====
-- internal/color/hsl.go: hue, saturation and lightness or value, and back.
use wavelen.Prelude.{ℕ, Bytes, Option, some, if◌then◌else◌, ◌==◌, nat_eq}
use wavelen.Color.Floats.{Arithmetic, ◌⊕◌, ◌⊖◌, ◌⊗◌, ◌⊘◌}
use wavelen.Color.Oklab.{Triple, after, channels, srgb_to_hex}

module _ {R : Type 0} ⦃arithmetic : Arithmetic R⦄ where
  open arithmetic use {literal, less, equals, minimum, maximum, absolute, modulo, whole}

  -- `hueDegrees`
  unfoldable pub hue_degrees : R → R → R → R → R → R
  hue_degrees red green blue high span =
      let hue =
        (if equals high red
          then modulo ((green ⊖ blue) ⊘ span) (literal 6 0)
          else if equals high green
          then (blue ⊖ red) ⊘ span ⊕ literal 2 0
          else (red ⊖ green) ⊘ span ⊕ literal 4 0) in
      let degrees = hue ⊗ literal 60 0 in
      if less degrees (literal 0 0) then degrees ⊕ literal 360 0 else degrees

  unfoldable pub hsl_of : Triple R → Triple R
  hsl_of (red, green, blue) =
      let high = maximum (maximum red green) blue in
      let low = minimum (minimum red green) blue in
      let span = high ⊖ low in
      let lightness = (high ⊕ low) ⊘ literal 2 0 in
      let saturation =
        minimum (span ⊘ (literal 1 0 ⊖ absolute (literal 2 0 ⊗ lightness ⊖ literal 1 0)))
          (literal 1 0) in
      if equals span (literal 0 0)
      then (literal 0 0, literal 0 0, lightness)
      else (hue_degrees red green blue high span, saturation, lightness)

  unfoldable pub hsv_of : Triple R → Triple R
  hsv_of (red, green, blue) =
      let high = maximum (maximum red green) blue in
      let span = high ⊖ minimum (minimum red green) blue in
      if equals span (literal 0 0)
      then (literal 0 0, literal 0 0, high)
      else (hue_degrees red green blue high span, span ⊘ high, high)

  -- `hexToHSL`
  unfoldable pub hex_to_hsl : Bytes → Option (Triple R)
  hex_to_hsl h = after (channels h) λ c. some (hsl_of c)

  -- `hexToHSV`
  unfoldable pub hex_to_hsv : Bytes → Option (Triple R)
  hex_to_hsv h = after (channels h) λ c. some (hsv_of c)

  -- The switch of `hslToHex` on the sixth of the wheel.
  unfoldable pub sector_channels : ℕ → R → R → Triple R
  sector_channels sector chroma second =
      if sector == 0
      then (chroma, second, literal 0 0)
      else if sector == 1
      then (second, chroma, literal 0 0)
      else if sector == 2
      then (literal 0 0, chroma, second)
      else if sector == 3
      then (literal 0 0, second, chroma)
      else if sector == 4
      then (second, literal 0 0, chroma)
      else (chroma, literal 0 0, second)

  -- `hslToHex`
  unfoldable pub hsl_to_hex : R → R → R → Bytes
  hsl_to_hex angle saturation lightness =
      let hue = modulo (modulo angle (literal 360 0) ⊕ literal 360 0) (literal 360 0) in
      let chroma = (literal 1 0 ⊖ absolute (literal 2 0 ⊗ lightness ⊖ literal 1 0)) ⊗ saturation in
      let second =
        chroma
        ⊗ (literal 1 0 ⊖ absolute (modulo (hue ⊘ literal 60 0) (literal 2 0) ⊖ literal 1 0)) in
      let base = lightness ⊖ chroma ⊘ literal 2 0 in
      let c = sector_channels (whole (hue ⊘ literal 60 0)) chroma second in
      srgb_to_hex (c.0 ⊕ base) (c.1 ⊕ base) (c.2 ⊕ base)
