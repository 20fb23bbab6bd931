-- ===== src/Color/Oklab.antt =====
-- internal/color/oklab.go, with the normalized channels of hex.go: from a code to OkLab and back.
-- A result is `none` where the program would index past the end of a short code.
pub mod Channels
use wavelen.Prelude.{ℕ, Bytes, Bool, ◌&&◌, Option, none, some, if◌then◌else◌}
use wavelen.Color.Hex.{channel_byte, hex_of_bytes}
use wavelen.Color.Floats.{Arithmetic, ◌⊕◌, ◌⊖◌, ◌⊗◌, ◌⊘◌}

-- The value of a step that may panic, passed on.
module _ {A B : Type 0} where
  abbrev pub after : Option A → (A → Option B) → Option B
  after none f = none
  after (some a) f = f a

-- Three channels, or the coordinates in OkLab.
abbrev pub Triple : Type 0 → Type 0
Triple R = R × R × R

module _ {R : Type 0} ⦃arithmetic : Arithmetic R⦄ where
  open arithmetic use {literal, leq, minimum, maximum, cbrt, power, round, whole, negated}

  -- `channelNormalized`
  unfoldable pub channel_normalized : Bytes → ℕ → Option R
  channel_normalized h i = after (channel_byte h i) λ c. some (literal c 0 ⊘ literal 255 0)

  abbrev pub r_norm : Bytes → Option R
  r_norm h = channel_normalized h 1

  abbrev pub g_norm : Bytes → Option R
  g_norm h = channel_normalized h 3

  abbrev pub b_norm : Bytes → Option R
  b_norm h = channel_normalized h 5

  unfoldable pub channels : Bytes → Option (Triple R)
  channels h = after (r_norm h) λ r. after (g_norm h) λ g. after (b_norm h) λ b. some (r, g, b)

  -- `srgbToLinear`
  unfoldable pub srgb_to_linear : R → R
  srgb_to_linear c =
      if leq c (literal 4045 5)
      then c ⊘ literal 1292 2
      else power ((c ⊕ literal 55 3) ⊘ literal 1055 3) (literal 24 1)

  -- `srgbFromLinear`
  unfoldable pub srgb_from_linear : R → R
  srgb_from_linear c =
      if leq c (literal 31308 7)
      then c ⊗ literal 1292 2
      else literal 1055 3 ⊗ power c (literal 1 0 ⊘ literal 24 1) ⊖ literal 55 3

  -- The cone responses of linear channels, and OkLab from them: the formulas that `hexToOklab`
  -- and `perceptualSortKey` write out.
  unfoldable pub oklab_of : R → R → R → Triple R
  oklab_of red green blue =
      let long = cbrt (
        literal 4122214708 10 ⊗ red
        ⊕ literal 5363325363 10 ⊗ green
        ⊕ literal 514459929 10 ⊗ blue) in
      let med = cbrt (
        literal 2119034982 10 ⊗ red
        ⊕ literal 6806995451 10 ⊗ green
        ⊕ literal 1073969566 10 ⊗ blue) in
      let short = cbrt (
        literal 883024619 10 ⊗ red
        ⊕ literal 2817188376 10 ⊗ green
        ⊕ literal 6299787005 10 ⊗ blue) in
      (
        literal 2104542553 10 ⊗ long ⊕ literal 7936177850 10 ⊗ med ⊖ literal 40720468 10 ⊗ short,
        literal 19779984951 10 ⊗ long
            ⊖ literal 24285922050 10 ⊗ med
            ⊕ literal 4505937099 10 ⊗ short,
        literal 259040371 10 ⊗ long ⊕ literal 7827717662 10 ⊗ med ⊖ literal 8086757660 10 ⊗ short,
      )

  -- `hexToOklab`
  unfoldable pub hex_to_oklab : Bytes → Option (Triple R)
  hex_to_oklab h =
      after (channels h)
        λ c. some (oklab_of (srgb_to_linear c.0) (srgb_to_linear c.1) (srgb_to_linear c.2))

  -- `fits`, with `gamutEpsilon`
  unfoldable pub fits : R → Bool
  fits c = leq (negated (literal 1 9)) c && leq c (literal 1 0 ⊕ literal 1 9)

  -- `oklabToLinear`: the channels, and whether sRGB shows the color.
  unfoldable pub oklab_to_linear : R → R → R → Triple R × Bool
  oklab_to_linear lightness a b =
      let l = lightness ⊕ literal 3963377774 10 ⊗ a ⊕ literal 2158037573 10 ⊗ b in
      let m = lightness ⊖ literal 1055613458 10 ⊗ a ⊖ literal 638541728 10 ⊗ b in
      let s = lightness ⊖ literal 894841775 10 ⊗ a ⊖ literal 12914855480 10 ⊗ b in
      let long = l ⊗ l ⊗ l in
      let med = m ⊗ m ⊗ m in
      let short = s ⊗ s ⊗ s in
      let red =
        literal 40767416621 10 ⊗ long
        ⊖ literal 33077115913 10 ⊗ med
        ⊕ literal 2309699292 10 ⊗ short in
      let green =
        negated (literal 12684380046 10) ⊗ long
        ⊕ literal 26097574011 10 ⊗ med
        ⊖ literal 3413193965 10 ⊗ short in
      let blue =
        negated (literal 41960863 10) ⊗ long
        ⊖ literal 7034186147 10 ⊗ med
        ⊕ literal 17076147010 10 ⊗ short in
      ((red, green, blue), (fits red && fits green) && fits blue)

  -- `quantize`
  unfoldable pub quantize : R → ℕ
  quantize c = whole (round (minimum (maximum c (literal 0 0)) (literal 1 0) ⊗ literal 255 0))

  -- `srgbToHex`
  unfoldable pub srgb_to_hex : R → R → R → Bytes
  srgb_to_hex red green blue = hex_of_bytes (quantize red) (quantize green) (quantize blue)

  -- `linearToHex`
  unfoldable pub linear_to_hex : Triple R → Bytes
  linear_to_hex (red, green, blue) =
      srgb_to_hex (srgb_from_linear red) (srgb_from_linear green) (srgb_from_linear blue)
