-- ===== src/Color/Gamut/Settled.antt =====
-- Where `fitToSRGB` puts a color (internal/color/gamut.go).
use wavelen.Prelude.{
  true, false, List, ◌∷◌, all, any, ◌≡◌, ◌⊎◌, inl, inr, refl, sym, ◌∙◌, subst, Bool-cases, arith,
}
use wavelen.Color.Floats.{Arithmetic, less_leq_trans}
use wavelen.Color.Gamut.{
  Scan, scan_start, scan_samples, samples, samples_of, range_from, settle, fitted, is_shown,
  max_chroma_at, gamut_steps,
}
use wavelen.Color.Gamut.Search.{bisect-passes, max_chroma_at_lem}
use wavelen.Color.Gamut.Fitting.{found-scan, nearest-scan, peak-scan, IsPeak-scan}

module _ {R : Type 0} ⦃arithmetic : Arithmetic R⦄ where
  open arithmetic use {leq, less, leq_trans, negated, literal, below_zero, less_lem}

  -- The sampled lightnesses hold the chroma somewhere, and so does the one that is taken; or they
  -- hold it nowhere, and the most that any of them holds is taken with its lightness.
  abbrev pub SettlesAt : (R → R) → R → List R → R × R → Type 0
  SettlesAt holds chroma ls place =
      ((any (λ l. leq chroma (holds l)) ls ≡ true)
        × (place.1 ≡ chroma)
        × (leq chroma (holds place.0) ≡ true))
      ⊎ ((any (λ l. leq chroma (holds l)) ls ≡ false)
          × (place.1 ≡ holds place.0)
          × (all (λ l. leq (holds l) place.1) ls ≡ true))

  -- Nothing at or above 0 is the start of the peak.
  above_start : (x : R) → leq (literal 0 0) x ≡ true → leq x (negated (literal 1 0)) ≡ false
  above_start x h = elim (Bool-cases (leq x (negated (literal 1 0)))) [
    | inl low ↦ absurd (
        ground (
          arith,
          less_leq_trans (negated (literal 1 0)) (literal 0 0) x below_zero h,
          less_lem (negated (literal 1 0)) x,
        ))
    | inr e ↦ e
  ]

  module _ (holds : R → R) (nonnegative : (l : R) → leq (literal 0 0) (holds l) ≡ true)
      (lightness chroma : R) (l : R) (ls : List R) where
    abbrev scan : Scan R
    scan = scan_samples lightness chroma holds (l ∷ ls) scan_start

    peak_held : scan.peak_chroma ≡ holds scan.peak
    peak_held = elim (IsPeak-scan lightness chroma holds (l ∷ ls) scan_start (inr refl)) [
      | inl own ↦ own
      | inr start ↦ absurd (
          ground (
            arith,
            above_start (holds l) (nonnegative l),
            (peak-scan lightness chroma holds (l ∷ ls) scan_start).1,
          ))
    ]

    found-any : scan.found ≡ any (λ x. leq chroma (holds x)) (l ∷ ls)
    found-any = found-scan lightness chroma holds (l ∷ ls) scan_start

    carried : scan.found ≡ true → leq chroma (holds scan.nearest) ≡ true
    carried = nearest-scan lightness chroma holds (l ∷ ls) scan_start (λ e. ground arith)

    settle_peak :
        scan.found ≡ false → settle lightness chroma holds scan ≡ (scan.peak, scan.peak_chroma)
    unfolding settle
    settle_peak nowhere = rw nowhere refl

    pub settle-SettlesAt : SettlesAt holds chroma (l ∷ ls) (settle lightness chroma holds scan)
    unfolding settle
    settle-SettlesAt = elim (Bool-cases scan.found) [
      | inl here ↦ inl (
        sym found-any ∙ here,
        rw here refl,
        rw here (
            bisect-passes (λ x. leq chroma (holds x) ≡ true) (λ x. leq chroma (holds x)) (λ x e. e)
              gamut_steps scan.nearest lightness (carried here)),
      )
      | inr nowhere ↦ subst (SettlesAt holds chroma (l ∷ ls)) (sym (settle_peak nowhere)) (
          inr (
            sym found-any ∙ nowhere,
            peak_held,
            (peak-scan lightness chroma holds (l ∷ ls) scan_start).1,
          ))
    ]

  samples-first : (l : R) × (ls : List R) × (samples ≡ l ∷ ls)
  unfolding samples samples_of range_from
  samples-first = (_, _, refl)

  -- A color that sRGB shows is kept. Of another one the chroma is kept, at a lightness that holds
  -- it, when a sampled lightness holds it; else the most chroma that any sample holds is taken.
  pub fitted_lem :
      (lightness chroma cos sin : R)
      → ((is_shown lightness cos sin chroma ≡ true)
          × (fitted lightness chroma cos sin ≡ (lightness, chroma)))
        ⊎ SettlesAt (λ l. max_chroma_at l cos sin) chroma samples (fitted lightness chroma cos sin)
  unfolding fitted
  fitted_lem lightness chroma cos sin =
      let (l, ls, e) = samples-first in
      elim (Bool-cases (is_shown lightness cos sin chroma)) [
        | inl shown ↦ inl (shown, rw shown refl)
        | inr hidden ↦ inr (
            rw (hidden, e)
              (settle-SettlesAt (λ x. max_chroma_at x cos sin)
                (λ x. (max_chroma_at_lem x cos sin).1) lightness chroma l ls))
      ]
