-- ===== src/Color/Harmonies/Yields.antt =====
-- What every harmony of internal/color/color.go yields.
use wavelen.Prelude.{
  ℕ, suc, ◌<◌, ltb, ltb→lt, Bytes, Bool, true, some, List, [], ◌∷◌, length, all, any, find, ◌≡◌,
  refl, ap, sym, subst, inl, inr, Bool-cases, ◌==◌, bytes_eq, ok, arith,
}
use wavelen.Color.Hex.{is_hex}
use wavelen.Color.Floats.{Arithmetic}
use wavelen.Color.Derive.{Space, ramp_steps}
use wavelen.Color.Derive.Normalized.{
  AreCodes, IsCode, Yields, rotate_oklch-is_hex, rotate_hsl-is_hex, ramp-codes, tones-codes,
}
use wavelen.Color.Harmonies.{
  Scheme, turns, sweep_ramp, sweep_tones, Harmony, harmonies, parse_harmony, space_hsl, rotate,
  rotations, of_scheme, colors_by, colors,
}

module _ {R : Type 0} where
  -- How many colors a row gives.
  abbrev pub size : Scheme R → ℕ
  size (turns degs) = length degs
  size sweep_ramp = ramp_steps
  size sweep_tones = ramp_steps

module _ {A : Type 0} (p q : A → Bool) where
  -- A search that some item answers finds one, and what all items have, it has.
  find-all :
      (xs : List A)
      → any p xs ≡ true
      → all q xs ≡ true
      → (x : A) × (find p xs ≡ some x) × (q x ≡ true)
  unfolding any find
  find-all [] h a = absurd (ground arith)
  find-all (x ∷ xs) h a = elim (Bool-cases (p x)) [
    | inl here ↦ (x, rw here refl, ground arith)
    | inr there ↦ let (y, e, qy) = find-all xs (ground arith) (ground arith) in (y, rw there e, qy)
  ]

module _ {R : Type 0} ⦃arithmetic : Arithmetic R⦄ where
  rotate-is_hex :
      (space : Space) (h : Bytes) → is_hex h ≡ true → (deg : R) → Yields IsCode (rotate space h deg)
  unfolding rotate
  rotate-is_hex space h e deg = elim (Bool-cases (space == space_hsl)) [
    | inl hsl ↦ rw hsl (rotate_hsl-is_hex h e deg)
    | inr other ↦ rw other (rotate_oklch-is_hex h e deg)
  ]

  rotations-codes :
      (space : Space) (h : Bytes)
      → is_hex h ≡ true
      → (degs : List R) → Yields (AreCodes (length degs)) (rotations space h degs)
  unfolding rotations
  rotations-codes space h e [] = ([], refl, (refl, refl))
  rotations-codes space h e (deg ∷ degs) =
      let (turned, te, tc) = rotate-is_hex space h e deg in
      let (rest, re, rc) = rotations-codes space h e degs in
      (turned ∷ rest, rw (te, re) refl, (ap suc rc.0, ground (arith, tc, rc.1)))

  of_scheme-codes :
      (space : Space) (h : Bytes)
      → is_hex h ≡ true
      → (scheme : Scheme R) → Yields (AreCodes (size scheme)) (of_scheme space h scheme)
  unfolding of_scheme
  of_scheme-codes space h e (turns degs) = rotations-codes space h e degs
  of_scheme-codes space h e sweep_ramp = ramp-codes R h e
  of_scheme-codes space h e sweep_tones = tones-codes R h e

module _ (R : Type 0) ⦃arithmetic : Arithmetic R⦄ where
  rows-give : all (λ row. ltb 0 (size row.scheme)) (harmonies R) ≡ true
  unfolding harmonies
  rows-give = refl

  named : (s name : Bytes) → parse_harmony R s ≡ ok name → s ≡ name
  unfolding parse_harmony
  named s name h = ground arith

  known_as :
      (s name : Bytes)
      → parse_harmony R s ≡ ok name
      → any (λ row. row.name == s) (harmonies R) ≡ true
  unfolding parse_harmony
  known_as s name h = ground arith

  known :
      (s name : Bytes)
      → parse_harmony R s ≡ ok name
      → any (λ row. row.name == name) (harmonies R) ≡ true
  known s name h =
      subst (λ n. any (λ row. row.name == n) (harmonies R) ≡ true) (named s name h)
        (known_as s name h)

  -- A name that is accepted is the name of a row. For a normalized code, on either wheel, its
  -- colors are computed without a panic: they are normalized codes, as many as the row says, and
  -- at least one.
  pub colors-parse_harmony :
      (s name : Bytes) (space : Space) (h : Bytes)
      → parse_harmony R s ≡ ok name
      → is_hex h ≡ true
      → (row : Harmony R) × (hs : List Bytes) × (find (λ r. r.name == name) (harmonies R)
          ≡ some row)
        × (colors R name space h ≡ some hs)
        × (length hs ≡ size row.scheme)
        × (0 < length hs)
        × (all is_hex hs ≡ true)
  unfolding colors colors_by
  colors-parse_harmony s name space h accepted e =
      let (row, found, gives) =
        find-all (λ r. r.name == name) (λ r. ltb 0 (size r.scheme)) (harmonies R)
          (known s name accepted) rows-give in
      let (hs, he, hc) = of_scheme-codes space h e row.scheme in
      (
        row,
        hs,
        found,
        rw (found, he) refl,
        hc.0,
        subst (λ n. 0 < n) (sym hc.0) (ltb→lt 0 (size row.scheme) gives),
        hc.1,
      )
