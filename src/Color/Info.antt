-- ===== src/Color/Info.antt =====
-- internal/color/info.go: every value derived from one code.
pub mod Lossless
use wavelen.Prelude.{
  ℕ, ◌%◌, Bytes, Bool, not, Option, none, some, List, [], length, if◌then◌else◌, ◌==◌, nat_eq,
}
use wavelen.Color.Hex.{hex_len, r_byte, g_byte, b_byte}
use wavelen.Color.Floats.{Arithmetic, ◌⊕◌, ◌⊗◌, ◌⊘◌}
use wavelen.Color.Oklab.{Triple, after, hex_to_oklab}
use wavelen.Color.Hsl.{hex_to_hsl, hex_to_hsv}
use wavelen.Color.Derive.{is_neutral}
use wavelen.Color.Contrast.{Level, Contrast, contrasts_of_bw}

-- `RGB`
pub record Rgb : Type 0 where
  pub r : ℕ
  pub g : ℕ
  pub b : ℕ

-- `HSL`
pub record Hsl : Type 0 where
  pub hue : ℕ
  pub saturation : ℕ
  pub lightness : ℕ

-- `HSV`
pub record Hsv : Type 0 where
  pub hue : ℕ
  pub saturation : ℕ
  pub value : ℕ

-- `OkLabCh`
pub record OkLabCh (R : Type 0) : Type 0 where
  pub lightness : R
  pub chroma : R
  pub hue : ℕ

-- `Info`
pub record Info (R : Type 0) : Type 0 where
  pub hex : Bytes
  pub rgb : Rgb
  pub hsl : Hsl
  pub hsv : Hsv
  pub oklch : OkLabCh R
  pub against_white : Contrast R
  pub against_black : Contrast R

module _ {R : Type 0} ⦃arithmetic : Arithmetic R⦄ where
  open arithmetic use {literal, leq, less, round, whole, power, hypot, atan2, pi}

  -- `wholeDegrees`
  unfoldable pub whole_degrees : R → ℕ
  whole_degrees v = whole (round v) % 360

  -- `wholePercent`
  unfoldable pub whole_percent : R → ℕ
  whole_percent v = whole (round (v ⊗ literal 100 0))

  -- `roundTo`
  unfoldable pub round_to : R → ℕ → R
  round_to v decimals =
      let scale = power (literal 10 0) (literal decimals 0) in round (v ⊗ scale) ⊘ scale

  -- `oklabHueDegrees`
  unfoldable pub oklab_hue_degrees : R → R → R
  oklab_hue_degrees a b =
      let deg = atan2 b a ⊗ literal 180 0 ⊘ pi in
      if less deg (literal 0 0) then deg ⊕ literal 360 0 else deg

  -- `Info{Hex: h}`
  abbrev pub info_of_other : Bytes → Info R
  info_of_other h = record {
    hex = h;
    rgb = record { r = 0; g = 0; b = 0 };
    hsl = record { hue = 0; saturation = 0; lightness = 0 };
    hsv = record { hue = 0; saturation = 0; value = 0 };
    oklch = record { lightness = literal 0 0; chroma = literal 0 0; hue = 0 };
    against_white = record { ratio = literal 0 0; level = [] };
    against_black = record { ratio = literal 0 0; level = [] };
  }

  abbrev pub hsl_values : Triple R → Hsl
  hsl_values v = record {
    hue = whole_degrees v.0;
    saturation = whole_percent v.1;
    lightness = whole_percent v.2;
  }

  abbrev pub hsv_values : Triple R → Hsv
  hsv_values v = record {
    hue = whole_degrees v.0;
    saturation = whole_percent v.1;
    value = whole_percent v.2;
  }

  abbrev pub oklch_values : Triple R → OkLabCh R
  oklch_values c = record {
    lightness = round_to (c.0 ⊗ literal 100 0) 1;
    chroma = round_to (hypot c.1 c.2) 3;
    hue =
        whole_degrees
          (if leq (literal 2 2) (hypot c.1 c.2) then oklab_hue_degrees c.1 c.2 else literal 0 0);
  }

  -- `Describe`
  unfoldable pub describe : Bytes → Option (Info R)
  describe h =
      if not (length h == hex_len)
      then some (info_of_other h)
      else after (hex_to_hsl h) λ hsl. after (hex_to_hsv h) λ hsv. after (hex_to_oklab h) λ lab.
        after (contrasts_of_bw h) λ contrasts. after (r_byte h) λ r. after (g_byte h) λ g.
          after (b_byte h) λ b. some record {
            hex = h;
            rgb = record { r = r; g = g; b = b };
            hsl = hsl_values hsl;
            hsv = hsv_values hsv;
            oklch = oklch_values lab;
            against_white = contrasts.0;
            against_black = contrasts.1;
          }
