-- ===== src/Color/Oklab/Channels.antt =====
-- A code of seven bytes has three channels, and three channels are written as a normalized code.
use wavelen.Prelude.{◌≤◌, Bytes, true, some, [], ◌∷◌, length, ◌≡◌, refl, arith}
use wavelen.Color.Hex.{is_hex, channel_byte}
use wavelen.Color.Hex.Channels.{hex_of_bytes-is_hex}
use wavelen.Color.Floats.{Arithmetic}
use wavelen.Color.Oklab.{
  Triple, channel_normalized, channels, quantize, srgb_to_hex, linear_to_hex, srgb_from_linear,
}

pub length-is_hex : (h : Bytes) → is_hex h ≡ true → length h ≡ 7
unfolding is_hex
length-is_hex [] e = ground arith
length-is_hex (c ∷ digits) e = ground arith

module _ {R : Type 0} ⦃arithmetic : Arithmetic R⦄ where
  open arithmetic use {literal, maximum, minimum, whole_round, times_le, minimum_le}

  -- Seven bytes are enough for the three channels.
  pub channels-length : (h : Bytes) → length h ≡ 7 → (c : Triple R) × (channels h ≡ some c)
  unfolding channels channel_normalized channel_byte
  channels-length (hash ∷ r ∷ r' ∷ g ∷ g' ∷ b ∷ b' ∷ []) e = (_, refl)
  channels-length h e = absurd (omega arith)

  quantize_le : (c : R) → quantize c ≤ 255
  unfolding quantize
  quantize_le c = whole_round _ 255 (
      times_le (minimum (maximum c (literal 0 0)) (literal 1 0)) 255
        (minimum_le (maximum c (literal 0 0)) (literal 1 0)))

  pub srgb_to_hex-is_hex : (r g b : R) → is_hex (srgb_to_hex r g b) ≡ true
  unfolding srgb_to_hex
  srgb_to_hex-is_hex r g b =
      hex_of_bytes-is_hex (quantize r) (quantize g) (quantize b) (omega (arith, quantize_le r))
        (omega (arith, quantize_le g)) (omega (arith, quantize_le b))

  pub linear_to_hex-is_hex : (c : Triple R) → is_hex (linear_to_hex c) ≡ true
  unfolding linear_to_hex
  linear_to_hex-is_hex (r, g, b) =
      srgb_to_hex-is_hex (srgb_from_linear r) (srgb_from_linear g) (srgb_from_linear b)
