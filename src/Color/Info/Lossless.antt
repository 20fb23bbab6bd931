-- ===== src/Color/Info/Lossless.antt =====
-- What `Describe` of internal/color/info.go keeps of the color.
use wavelen.Prelude.{
  ℕ, ◌+◌, ◌*◌, ◌/◌, ◌%◌, ◌<◌, Bytes, true, Option, some, List, [], ◌∷◌, all, ◌≡◌, refl, ap, ◌∙◌,
  nat_eq, arith,
}
use wavelen.Color.Hex.{
  is_hex, is_hex_digit, hex_digit, digit_of, hex_of_bytes, channel_byte, r_byte, g_byte, b_byte,
}
use wavelen.Color.Floats.{Arithmetic}
use wavelen.Color.Oklab.{Triple, after, channels}
use wavelen.Color.Oklab.Channels.{channels-length, length-is_hex}
use wavelen.Color.Derive.Normalized.{oklab-is_hex, hsl-is_hex, after-some, Yields}
use wavelen.Color.Hsl.{hex_to_hsv, hsv_of}
use wavelen.Color.Contrast.{
  Contrast, contrasts_of_bw, relative_luminance, luminance_of, contrast_of, contrast_ratio,
}
use wavelen.Color.Info.{Info, whole_degrees, describe}

digit_of-hex_digit : (c : ℕ) → is_hex_digit c ≡ true → digit_of (hex_digit c) ≡ c
unfolding is_hex_digit hex_digit digit_of
digit_of-hex_digit c h = ground arith

hex_digit_lt : (c : ℕ) → hex_digit c < 16
unfolding hex_digit
hex_digit_lt c = ground arith

split_high : (x y : ℕ) → y < 16 → (x * 16 + y) / 16 ≡ x
split_high x y h = omega arith

split_low : (x y : ℕ) → y < 16 → (x * 16 + y) % 16 ≡ y
split_low x y h = omega arith

-- The digits of a channel are the ones it was read from.
high_digit :
    (c d : ℕ) → is_hex_digit c ≡ true → digit_of ((hex_digit c * 16 + hex_digit d) / 16) ≡ c
high_digit c d h =
    rw (split_high (hex_digit c) (hex_digit d) (hex_digit_lt d)) (digit_of-hex_digit c h)

low_digit : (c d : ℕ) → is_hex_digit d ≡ true → digit_of ((hex_digit c * 16 + hex_digit d) % 16) ≡ d
low_digit c d h =
    rw (split_low (hex_digit c) (hex_digit d) (hex_digit_lt d)) (digit_of-hex_digit d h)

-- The channels of a normalized code.
abbrev pub ReadsBack : Bytes → ℕ → ℕ → ℕ → Type 0
ReadsBack h r g b =
    (r_byte h ≡ some r) × (g_byte h ≡ some g) × (b_byte h ≡ some b) × (hex_of_bytes r g b ≡ h)

-- The parts of a normalized code.
abbrev AreDigits : List ℕ → Type 0
AreDigits cs = all is_hex_digit cs ≡ true

is_sign : (c : ℕ) (digits : List ℕ) → is_hex (c ∷ digits) ≡ true → b'#' ≡ c
unfolding is_hex
is_sign c digits e = ground arith

are_digits : (c : ℕ) (digits : List ℕ) → is_hex (c ∷ digits) ≡ true → AreDigits digits
unfolding is_hex
are_digits c digits e = ground arith

restored :
    (hash r r' g g' b b' : ℕ)
    → is_hex (hash ∷ r ∷ r' ∷ g ∷ g' ∷ b ∷ b' ∷ []) ≡ true
    → hex_of_bytes
        (hex_digit r * 16 + hex_digit r')
        (hex_digit g * 16 + hex_digit g')
        (hex_digit b * 16 + hex_digit b')
      ≡ hash ∷ r ∷ r' ∷ g ∷ g' ∷ b ∷ b' ∷ []
unfolding is_hex hex_of_bytes
restored hash r r' g g' b b' e =
    let sign = is_sign hash (r ∷ r' ∷ g ∷ g' ∷ b ∷ b' ∷ []) e in
    let digits = are_digits hash (r ∷ r' ∷ g ∷ g' ∷ b ∷ b' ∷ []) e in
    λ i.
      sign i
      ∷ high_digit r r' (ground arith) i
      ∷ low_digit r r' (ground arith) i
      ∷ high_digit g g' (ground arith) i
      ∷ low_digit g g' (ground arith) i
      ∷ high_digit b b' (ground arith) i
      ∷ low_digit b b' (ground arith) i
      ∷ []

pub bytes-is_hex : (h : Bytes) → is_hex h ≡ true → (r g b : ℕ) × ReadsBack h r g b
unfolding is_hex channel_byte
bytes-is_hex (hash ∷ r ∷ r' ∷ g ∷ g' ∷ b ∷ b' ∷ []) e = (
  hex_digit r * 16 + hex_digit r',
  hex_digit g * 16 + hex_digit g',
  hex_digit b * 16 + hex_digit b',
  (refl, refl, refl, restored hash r r' g g' b b' e),
)
bytes-is_hex h e = absurd (ground arith)

module _ {A B : Type 0} where
  -- A chain of steps that do not fail.
  Yields-then :
      (P : B → Type 0) (o : Option A) (f : A → Option B)
      → (step : (a : A) × (o ≡ some a)) → Yields P (f step.0)
      → Yields P (after o f)
  Yields-then P o f (a, e) (b, fe, p) = (b, ap (λ x. after x f) e ∙ fe, p)

module _ (R : Type 0) ⦃arithmetic : Arithmetic R⦄ where
  open arithmetic use {literal}

  hsv-is_hex : (h : Bytes) → is_hex h ≡ true → (c : Triple R) × (hex_to_hsv h ≡ some c)
  unfolding hex_to_hsv
  hsv-is_hex h e = after-some (channels h) hsv_of (channels-length h (length-is_hex h e))

  luminance-is_hex : (h : Bytes) → is_hex h ≡ true → (l : R) × (relative_luminance h ≡ some l)
  unfolding relative_luminance
  luminance-is_hex h e =
      after-some (channels h) luminance_of (channels-length h (length-is_hex h e))

  contrasts-is_hex :
      (h : Bytes) → is_hex h ≡ true → (c : Contrast R × Contrast R) × (contrasts_of_bw h ≡ some c)
  unfolding contrasts_of_bw
  contrasts-is_hex h e =
      after-some (relative_luminance h)
        (λ l. (
          contrast_of (contrast_ratio l (literal 1 0)),
          contrast_of (contrast_ratio l (literal 0 0)),
        ))
        (luminance-is_hex h e)

  -- What is kept of a code, and the ranges of the hues.
  abbrev pub Keeps : Bytes → Info R → Type 0
  Keeps h info =
      (info.hex ≡ h)
      × (hex_of_bytes info.rgb.r info.rgb.g info.rgb.b ≡ h)
      × (info.hsl.hue < 360)
      × (info.hsv.hue < 360)
      × (info.oklch.hue < 360)

  degrees_lt : (v : R) → whole_degrees v < 360
  unfolding whole_degrees
  degrees_lt v = omega arith

  -- For a normalized code the description is computed without a panic. Its red, green and blue are
  -- written as that code again, and its three hues are below 360.
  pub describe-Keeps : (h : Bytes) → is_hex h ≡ true → Yields (Keeps h) (describe h)
  unfolding describe
  describe-Keeps h e =
      let (r, g, b, reads) = bytes-is_hex h e in
      rw (length-is_hex h e) (
        Yields-then (Keeps h) _ _ (hsl-is_hex h e) (
          Yields-then (Keeps h) _ _ (hsv-is_hex h e) (
            Yields-then (Keeps h) _ _ (oklab-is_hex h e) (
              Yields-then (Keeps h) _ _ (contrasts-is_hex h e) (
                Yields-then (Keeps h) _ _ (r, reads.0)
                  (Yields-then (Keeps h) _ _ (g, reads.1)
                    (Yields-then (Keeps h) _ _ (b, reads.2)
                      (_, refl, (refl, reads.3, degrees_lt _, degrees_lt _, degrees_lt _)))))))))
