-- ===== src/Color/Gamut/Search.antt =====
-- The binary search of internal/color/gamut.go: where it ends.
use wavelen.Prelude.{ℕ, zero, suc, Bool, true, ◌≡◌, ◌⊎◌, inl, inr, refl, Bool-cases}
use wavelen.Color.Floats.{Arithmetic, leq_refl, ◌⊕◌, ◌⊘◌}
use wavelen.Color.Gamut.{bisect, is_shown, max_chroma_at, gamut_steps}

module _ {R : Type 0} ⦃arithmetic : Arithmetic R⦄ where
  open arithmetic use {literal, leq, halfway, leq_trans, zero_le_literal, half_le_one}

  -- From a value that passes, or one that is kept, the search ends at such a value.
  pub bisect-passes :
      (Holds : R → Type 0) (passes : R → Bool)
      → ((x : R) → passes x ≡ true → Holds x)
      → (n : ℕ) (low high : R) → Holds low
      → Holds (bisect passes n low high)
  unfolding bisect
  bisect-passes Holds passes step zero low high h = h
  bisect-passes Holds passes step (suc n) low high h =
      let mid = (low ⊕ high) ⊘ literal 2 0 in
      elim (Bool-cases (passes mid)) [
        | inl up ↦ rw up (bisect-passes Holds passes step n mid high (step mid up))
        | inr down ↦ rw down (bisect-passes Holds passes step n low mid h)
      ]

  -- Inside [0, 1] the search stays between its ends.
  pub bisect-between :
      (passes : R → Bool) (n : ℕ) (low high : R)
      → leq (literal 0 0) low ≡ true
      → leq low high ≡ true
      → leq high (literal 1 0) ≡ true
      → (leq low (bisect passes n low high) ≡ true) × (leq (bisect passes n low high) high ≡ true)
  unfolding bisect
  bisect-between passes zero low high h0 h h1 = (leq_refl low, h)
  bisect-between passes (suc n) low high h0 h h1 =
      let mid = (low ⊕ high) ⊘ literal 2 0 in
      let between = halfway low high h0 h h1 in
      elim (Bool-cases (passes mid)) [
        | inl up ↦ rw up (
            let rest =
              bisect-between passes n mid high (leq_trans _ _ _ h0 between.0) between.1 h1 in
            (leq_trans _ _ _ between.0 rest.0, rest.1))
        | inr down ↦ rw down (
            let rest =
              bisect-between passes n low mid h0 between.0 (leq_trans _ _ _ between.1 h1) in
            (rest.0, leq_trans _ _ _ rest.1 between.1))
      ]

  -- At every lightness and hue, the chroma that is found is 0 or one that sRGB shows, and it is
  -- between 0 and the ceiling of the search.
  pub max_chroma_at_lem :
      (lightness cos sin : R)
      → ((max_chroma_at lightness cos sin ≡ literal 0 0)
          ⊎ (is_shown lightness cos sin (max_chroma_at lightness cos sin) ≡ true))
        × (leq (literal 0 0) (max_chroma_at lightness cos sin) ≡ true)
        × (leq (max_chroma_at lightness cos sin) (literal 5 1) ≡ true)
  unfolding max_chroma_at
  max_chroma_at_lem lightness cos sin =
      let between =
        bisect-between (is_shown lightness cos sin) gamut_steps (literal 0 0) (literal 5 1)
          (zero_le_literal 0 0) (zero_le_literal 5 1) half_le_one in
      (
        bisect-passes (λ c. (c ≡ literal 0 0) ⊎ (is_shown lightness cos sin c ≡ true))
            (is_shown lightness cos sin) (λ c. inr) gamut_steps (literal 0 0) (literal 5 1)
            (inl refl),
        between.0,
        between.1,
      )
