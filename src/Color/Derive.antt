-- ===== src/Color/Derive.antt =====
-- internal/color/derive.go: rotations of the hue, ramps and tones. A result is `none` where the
-- program would index past the end of a code.
pub mod Normalized
use wavelen.Prelude.{
  ℕ, zero, suc, ◌-◌, Bytes, Bool, true, false, not, Option, none, some, List, [], ◌∷◌, length, map,
  if◌then◌else◌, ◌==◌, nat_eq,
}
use wavelen.Color.Hex.{hex_len}
use wavelen.Color.Floats.{Arithmetic, ◌⊕◌, ◌⊖◌, ◌⊗◌, ◌⊘◌}
use wavelen.Color.Oklab.{Triple, after, hex_to_oklab}
use wavelen.Color.Hsl.{hex_to_hsl, hsl_to_hex}
use wavelen.Color.Gamut.{range_from, max_chroma_at, color_at, fit_to_srgb}

-- `rampSteps` and `toneSteps`
abbrev pub ramp_steps : ℕ
ramp_steps = 7

-- `Space`
abbrev pub Space : Type 0
Space = Bytes

unfoldable pub repeated : ℕ → Bytes → List Bytes
repeated zero h = []
repeated (suc n) h = h ∷ repeated n h

module _ {R : Type 0} ⦃arithmetic : Arithmetic R⦄ where
  open arithmetic use {literal, less, minimum, hypot, atan2, cosine, sine, pi}

  -- `chroma < neutralChroma`
  unfoldable pub is_neutral : R → R → Bool
  is_neutral a b = less (hypot a b) (literal 2 2)

  -- `rotateOkLCh`
  unfoldable pub rotate_oklch : Bytes → R → Option Bytes
  rotate_oklch h deg =
      if not (length h == hex_len)
      then some h
      else after (hex_to_oklab h) λ c.
        if is_neutral c.1 c.2
        then some h
        else some (fit_to_srgb c.0 (hypot c.1 c.2) (atan2 c.2 c.1 ⊕ deg ⊗ pi ⊘ literal 180 0))

  -- `rotateHSL`
  unfoldable pub rotate_hsl : Bytes → R → Option Bytes
  rotate_hsl h deg =
      if not (length h == hex_len)
      then some h
      else after (hex_to_oklab h) λ c.
        if is_neutral c.1 c.2
        then some h
        else after (hex_to_hsl h) λ s. some (hsl_to_hex (s.0 ⊕ deg) s.1 s.2)

  -- `unitHue`
  unfoldable pub unit_hue : R → R → R × R
  unit_hue a b = (cosine (atan2 b a), sine (atan2 b a))

  -- A step of the ramp, from `rampDarkest` by `rampLightStep`.
  unfoldable pub ramp_color : R → R → R → ℕ → Bytes
  ramp_color chroma cos sin i =
      let lightness = literal 3 1 ⊕ literal 1 1 ⊗ literal i 0 in
      color_at lightness (minimum chroma (max_chroma_at lightness cos sin)) cos sin

  unfoldable pub ramp_of : Triple R → List Bytes
  ramp_of c =
      let hue = unit_hue c.1 c.2 in
      map (ramp_color (hypot c.1 c.2) hue.0 hue.1) (range_from 0 ramp_steps)

  unfoldable pub tones_of : Bytes → Triple R → List Bytes
  tones_of h c =
      let hue = unit_hue c.1 c.2 in
      let step = max_chroma_at c.0 hue.0 hue.1 ⊘ literal (ramp_steps - 1) 0 in
      if is_neutral c.1 c.2
      then repeated ramp_steps h
      else map (λ i. color_at c.0 (step ⊗ literal i 0) hue.0 hue.1) (range_from 0 ramp_steps)

-- Which values are computed with is not seen in the result.
module _ (R : Type 0) ⦃arithmetic : Arithmetic R⦄ where
  open arithmetic use {literal}

  -- `ramp`
  unfoldable pub ramp : Bytes → Option (List Bytes)
  ramp h =
      if not (length h == hex_len)
      then some (repeated ramp_steps h)
      else after (hex_to_oklab {R = R} h) λ c. some (ramp_of c)

  -- `tones`: a code of another length leaves the coordinates at 0.
  unfoldable pub tones : Bytes → Option (List Bytes)
  tones h =
      if length h == hex_len
      then (after (hex_to_oklab {R = R} h) λ c. some (tones_of h c))
      else some (tones_of h (literal 0 0, literal 0 0, literal 0 0))
