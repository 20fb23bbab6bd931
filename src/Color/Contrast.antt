-- ===== src/Color/Contrast.antt =====
-- internal/color/contrast.go: WCAG contrast against white and black.
use wavelen.Prelude.{Bytes, codes, Option, some, if◌then◌else◌}
use wavelen.Color.Floats.{Arithmetic, ◌⊕◌, ◌⊗◌, ◌⊘◌}
use wavelen.Color.Oklab.{Triple, after, channels, srgb_to_linear}

-- `Level`
abbrev pub Level : Type 0
Level = Bytes

abbrev pub level_aaa : Level
level_aaa = codes "aaa"

abbrev pub level_aa : Level
level_aa = codes "aa"

abbrev pub level_aa_large : Level
level_aa_large = codes "aa-large"

abbrev pub level_fail : Level
level_fail = codes "fail"

-- `Contrast`
pub record Contrast (R : Type 0) : Type 0 where
  pub ratio : R
  pub level : Level

module _ {R : Type 0} ⦃arithmetic : Arithmetic R⦄ where
  open arithmetic use {literal, leq, maximum, minimum, power, trunc}

  -- `levelOf`
  unfoldable pub level_of : R → Level
  level_of ratio =
      if leq (literal 7 0) ratio
      then level_aaa
      else if leq (literal 45 1) ratio
      then level_aa
      else if leq (literal 3 0) ratio
      then level_aa_large
      else level_fail

  -- `contrastRatio`
  unfoldable pub contrast_ratio : R → R → R
  contrast_ratio a b = (maximum a b ⊕ literal 5 2) ⊘ (minimum a b ⊕ literal 5 2)

  -- `contrastOf`, with `contrastRatioDecimals`
  unfoldable pub contrast_of : R → Contrast R
  contrast_of ratio =
      let scale = power (literal 10 0) (literal 2 0) in
      let truncated = trunc (ratio ⊗ scale) ⊘ scale in
      record { ratio = truncated; level = level_of truncated }

  unfoldable pub luminance_of : Triple R → R
  luminance_of (red, green, blue) =
      literal 2126 4 ⊗ srgb_to_linear red
      ⊕ literal 7152 4 ⊗ srgb_to_linear green
      ⊕ literal 722 4 ⊗ srgb_to_linear blue

  -- `relativeLuminance`
  unfoldable pub relative_luminance : Bytes → Option R
  relative_luminance h = after (channels h) λ c. some (luminance_of c)

  -- `contrastsOfBW`
  unfoldable pub contrasts_of_bw : Bytes → Option (Contrast R × Contrast R)
  contrasts_of_bw h = after (relative_luminance h) λ luminance. some (
    contrast_of (contrast_ratio luminance (literal 1 0)),
    contrast_of (contrast_ratio luminance (literal 0 0)),
  )
