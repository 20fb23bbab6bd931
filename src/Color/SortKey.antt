-- ===== src/Color/SortKey.antt =====
-- internal/color/sortkey.go: the perceptual sort key.
pub mod Packed
use wavelen.Prelude.{
  ℕ, ◌+◌, ◌*◌, ◌%◌, ◌^◌, Bytes, not, Option, some, length, leb, if◌then◌else◌, ◌==◌, nat_eq,
}
use wavelen.Color.Hex.{hex_len}
use wavelen.Color.Floats.{Arithmetic, ◌⊕◌, ◌⊖◌, ◌⊗◌, ◌⊘◌}
use wavelen.Color.Oklab.{Triple, after, channels, oklab_of, srgb_to_linear}

-- `groupStep`, `lightnessStep` and `chromaMax`
abbrev pub group_step : ℕ
group_step = 10000000

abbrev pub lightness_step : ℕ
lightness_step = 1000

abbrev pub chroma_max : ℕ
chroma_max = 999

-- Go's `min` on integers.
unfoldable pub least : ℕ → ℕ → ℕ
least a b = if leb a b then a else b

-- The three components in one number, and its conversion to int32.
unfoldable pub packed : ℕ → ℕ → ℕ → ℕ
packed group lightness chroma =
    (group * group_step + lightness * lightness_step + least chroma chroma_max) % 2 ^ 32

module _ {R : Type 0} ⦃arithmetic : Arithmetic R⦄ where
  open arithmetic use {literal, leq, less, sqrt, atan2, pi, whole, round}

  -- The hue from the origin of the buckets, over the width of one.
  unfoldable pub bucket : R → R → R
  bucket a b =
      let hue = atan2 b a ⊗ literal 180 0 ⊘ pi ⊖ literal 20 0 in
      let turned = (if less hue (literal 0 0) then hue ⊕ literal 360 0 else hue) in
      turned ⊘ literal 30 0

  unfoldable pub chroma_of : R → R → R
  chroma_of a b = sqrt (a ⊗ a ⊕ b ⊗ b)

  -- Neutrals are group 0.
  unfoldable pub group_of : R → R → ℕ
  group_of a b = if leq (literal 2 2) (chroma_of a b) then 1 + whole (bucket a b) else 0

  unfoldable pub key_of_oklab : Triple R → ℕ
  key_of_oklab (lightness, a, b) =
      packed (group_of a b) (whole (round (lightness ⊗ literal 1000 0)))
        (whole (round (chroma_of a b ⊗ literal 1000 0)))

module _ (R : Type 0) ⦃arithmetic : Arithmetic R⦄ where
  -- `perceptualSortKey` and `Feel`
  unfoldable pub perceptual_sort_key : Bytes → Option ℕ
  perceptual_sort_key h =
      if not (length h == hex_len)
      then some 0
      else after (channels {R = R} h) λ c.
        some
          (key_of_oklab (oklab_of (srgb_to_linear c.0) (srgb_to_linear c.1) (srgb_to_linear c.2)))
