-- ===== src/Color/Derive/Normalized.antt =====
-- The codes that internal/color/derive.go derives from a code.
use wavelen.Prelude.{
  ℕ, zero, suc, Bytes, true, Option, some, List, length, map, all, ◌≡◌, refl, ap, inl, inr,
  Bool-cases, nat_eq, arith,
}
use wavelen.Color.Hex.{is_hex}
use wavelen.Color.Floats.{Arithmetic, ◌⊕◌, ◌⊗◌, ◌⊘◌}
use wavelen.Color.Oklab.{
  Triple, after, channels, hex_to_oklab, oklab_of, srgb_to_linear, oklab_to_linear,
}
use wavelen.Color.Oklab.Channels.{
  channels-length, length-is_hex, srgb_to_hex-is_hex, linear_to_hex-is_hex,
}
use wavelen.Color.Hsl.{hex_to_hsl, hsl_of, hsl_to_hex}
use wavelen.Color.Gamut.{range_from, color_at, fit_to_srgb}
use wavelen.Color.Derive.{
  is_neutral, rotate_oklch, rotate_hsl, repeated, ramp_of, ramp_color, ramp, tones_of, tones,
  ramp_steps,
}

-- As many normalized codes as were asked for.
abbrev pub AreCodes : ℕ → List Bytes → Type 0
AreCodes n hs = (length hs ≡ n) × (all is_hex hs ≡ true)

-- The value is computed without a panic, and every code in it is normalized.
module _ {A : Type 0} where
  abbrev pub Yields : (A → Type 0) → Option A → Type 0
  Yields P o = (a : A) × (o ≡ some a) × P a

abbrev pub IsCode : Bytes → Type 0
IsCode h = is_hex h ≡ true

module _ {A B : Type 0} where
  -- A step that cannot fail follows one that does not.
  pub after-some :
      (o : Option A) (f : A → B)
      → (a : A) × (o ≡ some a)
      → (b : B) × (after o (λ a. some (f a)) ≡ some b)
  after-some o f (a, e) = (f a, ap (λ x. after x (λ a. some (f a))) e)

AreCodes-repeated : (n : ℕ) (h : Bytes) → is_hex h ≡ true → AreCodes n (repeated n h)
unfolding repeated
AreCodes-repeated zero h e = (refl, refl)
AreCodes-repeated (suc n) h e = ground (arith, AreCodes-repeated n h e)

AreCodes-map :
    (f : ℕ → Bytes)
    → ((i : ℕ) → is_hex (f i) ≡ true)
    → (i n : ℕ) → AreCodes n (map f (range_from i n))
unfolding range_from
AreCodes-map f h i zero = (refl, refl)
AreCodes-map f h i (suc n) = ground (arith, AreCodes-map f h (suc i) n, h i)

module _ {R : Type 0} ⦃arithmetic : Arithmetic R⦄ where
  open arithmetic use {literal, hypot, atan2, pi}

  color_at-is_hex :
      (lightness chroma cos sin : R) → is_hex (color_at lightness chroma cos sin) ≡ true
  unfolding color_at
  color_at-is_hex lightness chroma cos sin =
      linear_to_hex-is_hex (oklab_to_linear lightness (chroma ⊗ cos) (chroma ⊗ sin)).0

  fit_to_srgb-is_hex : (lightness chroma hue : R) → is_hex (fit_to_srgb lightness chroma hue) ≡ true
  unfolding fit_to_srgb
  fit_to_srgb-is_hex lightness chroma hue = color_at-is_hex _ _ _ _

  hsl_to_hex-is_hex : (h s l : R) → is_hex (hsl_to_hex h s l) ≡ true
  unfolding hsl_to_hex
  hsl_to_hex-is_hex h s l = srgb_to_hex-is_hex _ _ _

  pub oklab-is_hex : (h : Bytes) → is_hex h ≡ true → (c : Triple R) × (hex_to_oklab h ≡ some c)
  unfolding hex_to_oklab
  oklab-is_hex h e =
      after-some (channels h)
        (λ c. oklab_of (srgb_to_linear c.0) (srgb_to_linear c.1) (srgb_to_linear c.2))
        (channels-length h (length-is_hex h e))

  pub hsl-is_hex : (h : Bytes) → is_hex h ≡ true → (c : Triple R) × (hex_to_hsl h ≡ some c)
  unfolding hex_to_hsl
  hsl-is_hex h e = after-some (channels h) hsl_of (channels-length h (length-is_hex h e))

  pub rotate_oklch-is_hex :
      (h : Bytes) → is_hex h ≡ true → (deg : R) → Yields IsCode (rotate_oklch h deg)
  unfolding rotate_oklch
  rotate_oklch-is_hex h e deg =
      let (c, ce) = oklab-is_hex h e in
      elim (Bool-cases (is_neutral c.1 c.2)) [
        | inl gray ↦ (h, rw (length-is_hex h e, ce, gray) refl, e)
        | inr hued ↦ (
          fit_to_srgb c.0 (hypot c.1 c.2) (atan2 c.2 c.1 ⊕ deg ⊗ pi ⊘ literal 180 0),
          rw (length-is_hex h e, ce, hued) refl,
          fit_to_srgb-is_hex _ _ _,
        )
      ]

  pub rotate_hsl-is_hex :
      (h : Bytes) → is_hex h ≡ true → (deg : R) → Yields IsCode (rotate_hsl h deg)
  unfolding rotate_hsl
  rotate_hsl-is_hex h e deg =
      let (c, ce) = oklab-is_hex h e in
      let (s, se) = hsl-is_hex h e in
      elim (Bool-cases (is_neutral c.1 c.2)) [
        | inl gray ↦ (h, rw (length-is_hex h e, ce, gray) refl, e)
        | inr hued ↦ (
          hsl_to_hex (s.0 ⊕ deg) s.1 s.2,
          rw (length-is_hex h e, ce, hued, se) refl,
          hsl_to_hex-is_hex _ _ _,
        )
      ]

  ramp_of-codes : (c : Triple R) → AreCodes ramp_steps (ramp_of c)
  unfolding ramp_of ramp_color
  ramp_of-codes c = AreCodes-map _ (λ i. color_at-is_hex _ _ _ _) 0 ramp_steps

  tones_of-codes :
      (h : Bytes) → is_hex h ≡ true → (c : Triple R) → AreCodes ramp_steps (tones_of h c)
  unfolding tones_of
  tones_of-codes h e c = elim (Bool-cases (is_neutral c.1 c.2)) [
    | inl gray ↦ rw gray (AreCodes-repeated ramp_steps h e)
    | inr hued ↦ rw hued (AreCodes-map _ (λ i. color_at-is_hex _ _ _ _) 0 ramp_steps)
  ]

module _ (R : Type 0) ⦃arithmetic : Arithmetic R⦄ where
  pub ramp-codes : (h : Bytes) → is_hex h ≡ true → Yields (AreCodes ramp_steps) (ramp R h)
  unfolding ramp
  ramp-codes h e =
      let (c, ce) = oklab-is_hex {R = R} h e in
      (ramp_of c, rw (length-is_hex h e, ce) refl, ramp_of-codes c)

  pub tones-codes : (h : Bytes) → is_hex h ≡ true → Yields (AreCodes ramp_steps) (tones R h)
  unfolding tones
  tones-codes h e =
      let (c, ce) = oklab-is_hex {R = R} h e in
      (tones_of h c, rw (length-is_hex h e, ce) refl, tones_of-codes h e c)
