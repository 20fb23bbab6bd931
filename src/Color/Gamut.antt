-- ===== src/Color/Gamut.antt =====
-- internal/color/gamut.go: putting a color back inside sRGB.
pub mod Search
pub mod Fitting
pub mod Settled
use wavelen.Prelude.{
  ℕ, zero, suc, ◌+◌, Bytes, Bool, true, false, not, ◌&&◌, ◌||◌, List, [], ◌∷◌, if◌then◌else◌,
}
use wavelen.Color.Floats.{Arithmetic, ◌⊕◌, ◌⊖◌, ◌⊗◌, ◌⊘◌}
use wavelen.Color.Oklab.{Triple, oklab_to_linear, linear_to_hex}

-- `gamutSteps`
abbrev pub gamut_steps : ℕ
gamut_steps = 20

-- `lightnessSamples`
abbrev pub lightness_samples : ℕ
lightness_samples = 128

-- `range n`
unfoldable pub range_from : ℕ → ℕ → List ℕ
range_from i zero = []
range_from i (suc n) = i ∷ range_from (suc i) n

module _ {R : Type 0} ⦃arithmetic : Arithmetic R⦄ where
  open arithmetic use {literal, leq, less, absolute, negated, cosine, sine}

  -- The binary search of `maxChromaAt` and of `fitToSRGB`: the half that passes becomes `low`.
  unfoldable pub bisect : (R → Bool) → ℕ → R → R → R
  bisect passes zero low high = low
  bisect passes (suc n) low high =
      let mid = (low ⊕ high) ⊘ literal 2 0 in
      let upper = passes mid in
      bisect passes n (if upper then mid else low) (if upper then high else mid)

  -- Whether sRGB shows the color of this lightness, chroma and hue.
  unfoldable pub is_shown : R → R → R → R → Bool
  is_shown lightness cos sin chroma = (oklab_to_linear lightness (chroma ⊗ cos) (chroma ⊗ sin)).1

  -- `maxChromaAt`, from 0 to `chromaCeiling`
  unfoldable pub max_chroma_at : R → R → R → R
  max_chroma_at lightness cos sin =
      bisect (is_shown lightness cos sin) gamut_steps (literal 0 0) (literal 5 1)

  -- `colorAt`
  unfoldable pub color_at : R → R → R → R → Bytes
  color_at lightness chroma cos sin =
      linear_to_hex (oklab_to_linear lightness (chroma ⊗ cos) (chroma ⊗ sin)).0

-- The variables of the loop over the sampled lightnesses.
pub record Scan (R : Type 0) : Type 0 where
  pub nearest : R
  pub found : Bool
  pub peak : R
  pub peak_chroma : R

module _ {R : Type 0} ⦃arithmetic : Arithmetic R⦄ where
  open arithmetic use {literal, leq, less, absolute, negated, cosine, sine}

  abbrev pub scan_start : Scan R
  scan_start = record {
    nearest = literal 0 0;
    found = false;
    peak = literal 0 0;
    peak_chroma = negated (literal 1 0);
  }

  -- The first test of the body: the most chroma so far.
  unfoldable pub raise_peak : R → R → Scan R → Scan R
  raise_peak l held s =
      if less s.peak_chroma held then record s { peak = l; peak_chroma = held } else s

  -- The second test: the nearest lightness so far that holds the chroma.
  unfoldable pub move_nearest : R → R → R → R → Scan R → Scan R
  move_nearest lightness chroma l held s =
      if leq chroma held
        && (not s.found || less (absolute (l ⊖ lightness)) (absolute (s.nearest ⊖ lightness)))
      then record s { nearest = l; found = true }
      else s

  -- The loop over the samples, with what each holds.
  unfoldable pub scan_samples : R → R → (R → R) → List R → Scan R → Scan R
  scan_samples lightness chroma holds [] s = s
  scan_samples lightness chroma holds (l ∷ ls) s =
      scan_samples lightness chroma holds ls
        (move_nearest lightness chroma l (holds l) (raise_peak l (holds l) s))

  unfoldable pub samples_of : List ℕ → List R
  samples_of [] = []
  samples_of (i ∷ is) = (literal i 0 ⊘ literal lightness_samples 0) ∷ samples_of is

  unfoldable pub samples : List R
  samples = samples_of (range_from 0 (lightness_samples + 1))

  -- A lightness and a chroma that stand in for the ones asked for, from the finished scan: with
  -- none found the chroma gives way, else the search walks from the sample to the edge.
  unfoldable pub settle : R → R → (R → R) → Scan R → R × R
  settle lightness chroma holds s =
      if not s.found
      then (s.peak, s.peak_chroma)
      else (bisect (λ mid. leq chroma (holds mid)) gamut_steps s.nearest lightness, chroma)

  -- The lightness and the chroma that `fitToSRGB` writes.
  unfoldable pub fitted : R → R → R → R → R × R
  fitted lightness chroma cos sin =
      let holds = λ (l : R). max_chroma_at l cos sin in
      if is_shown lightness cos sin chroma
      then (lightness, chroma)
      else settle lightness chroma holds (scan_samples lightness chroma holds samples scan_start)

  -- `fitToSRGB`
  unfoldable pub fit_to_srgb : R → R → R → Bytes
  fit_to_srgb lightness chroma hue =
      let place = fitted lightness chroma (cosine hue) (sine hue) in
      color_at place.0 place.1 (cosine hue) (sine hue)
