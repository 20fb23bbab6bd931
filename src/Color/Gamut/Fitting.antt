-- ===== src/Color/Gamut/Fitting.antt =====
-- What `fitToSRGB` settles on: its one pass over the sampled lightnesses and the search after it.
use wavelen.Prelude.{
  Bool, true, not, ◌&&◌, ◌||◌, List, [], ◌∷◌, all, any, ◌≡◌, ◌⊎◌, inl, inr, refl, Bool-cases, arith,
}
use wavelen.Color.Floats.{Arithmetic, leq_refl, leq_of_not_less, leq_of_less, ◌⊖◌}
use wavelen.Color.Gamut.{Scan, raise_peak, move_nearest, scan_samples}

module _ {R : Type 0} ⦃arithmetic : Arithmetic R⦄ (lightness chroma : R) (holds : R → R) where
  open arithmetic use {leq, less, leq_trans, absolute, negated, literal}

  abbrev carries : R → Bool
  carries l = leq chroma (holds l)

  abbrev step : R → Scan R → Scan R
  step l s = move_nearest lightness chroma l (holds l) (raise_peak l (holds l) s)

  abbrev scanned : List R → Scan R → Scan R
  scanned = scan_samples lightness chroma holds

  -- A lightness is found just when some sample carries the chroma.
  found-step : (l : R) (s : Scan R) → (step l s).found ≡ (s.found || carries l)
  unfolding move_nearest raise_peak
  found-step l s = ground arith

  pub found-scan : (ls : List R) (s : Scan R) → (scanned ls s).found ≡ (s.found || any carries ls)
  unfolding scan_samples any
  found-scan [] s = ground arith
  found-scan (l ∷ ls) s = ground (arith, found-scan ls (step l s), found-step l s)

  -- The found lightness carries it.
  abbrev NearestCarries : Scan R → Type 0
  NearestCarries s = s.found ≡ true → carries s.nearest ≡ true

  nearest-step : (l : R) (s : Scan R) → NearestCarries s → NearestCarries (step l s)
  unfolding move_nearest raise_peak
  nearest-step l s h =
      let nearer = less (absolute (l ⊖ lightness)) (absolute (s.nearest ⊖ lightness)) in
      elim (Bool-cases (carries l && (not s.found || nearer))) [
        | inl here ↦ λ e. ground arith
        | inr here ↦ λ e. ground arith
      ]

  pub nearest-scan : (ls : List R) (s : Scan R) → NearestCarries s → NearestCarries (scanned ls s)
  unfolding scan_samples
  nearest-scan [] s h = h
  nearest-scan (l ∷ ls) s h = nearest-scan ls (step l s) (nearest-step l s h)

  -- The peak only rises, and is at least what each sample holds.
  peak-step :
      (l : R) (s : Scan R)
      → (leq s.peak_chroma (step l s).peak_chroma ≡ true)
        × (leq (holds l) (step l s).peak_chroma ≡ true)
  unfolding move_nearest raise_peak
  peak-step l s = elim (Bool-cases (less s.peak_chroma (holds l))) [
    | inl up ↦ ground (arith, leq_of_less s.peak_chroma (holds l) up, leq_refl (holds l))
    | inr level ↦
        ground (arith, leq_of_not_less s.peak_chroma (holds l) level, leq_refl s.peak_chroma)
  ]

  pub peak-scan :
      (ls : List R) (s : Scan R)
      → (leq s.peak_chroma (scanned ls s).peak_chroma ≡ true)
        × (all (λ l. leq (holds l) (scanned ls s).peak_chroma) ls ≡ true)
  unfolding scan_samples
  peak-scan [] s = (leq_refl s.peak_chroma, refl)
  peak-scan (l ∷ ls) s =
      let rest = peak-scan ls (step l s) in
      let here = peak-step l s in
      (
        leq_trans _ _ _ here.0 rest.0,
        ground (
          arith,
          rest.1,
          leq_trans (holds l) (step l s).peak_chroma (scanned ls (step l s)).peak_chroma here.1
              rest.0,
        ),
      )

  -- The peak is what its lightness holds, unless nothing rose above the start.
  abbrev IsPeak : Scan R → Type 0
  IsPeak s = (s.peak_chroma ≡ holds s.peak) ⊎ (s.peak_chroma ≡ negated (literal 1 0))

  IsPeak-step : (l : R) (s : Scan R) → IsPeak s → IsPeak (step l s)
  unfolding move_nearest raise_peak
  IsPeak-step l s h = elim (Bool-cases (less s.peak_chroma (holds l))) [
    | inl up ↦ inl (ground arith)
    | inr level ↦ elim h [ inl own ↦ inl (ground arith) | inr low ↦ inr (ground arith) ]
  ]

  pub IsPeak-scan : (ls : List R) (s : Scan R) → IsPeak s → IsPeak (scanned ls s)
  unfolding scan_samples
  IsPeak-scan [] s h = h
  IsPeak-scan (l ∷ ls) s h = IsPeak-scan ls (step l s) (IsPeak-step l s h)
