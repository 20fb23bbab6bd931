-- ===== src/Color/SortKey/Packed.antt =====
-- The order of the sort keys of internal/color/sortkey.go.
use wavelen.Prelude.{ℕ, ◌≤◌, ◌<◌, true, ◌≡◌, ◌⊎◌, ◌↔◌, nat_eq, arith}
use wavelen.Color.Floats.{Arithmetic, ◌⊗◌}
use wavelen.Color.Oklab.{Triple}
use wavelen.Color.SortKey.{least, packed, chroma_max, bucket, group_of, chroma_of, key_of_oklab}

-- First by group, then by lightness, then by the chroma up to its cap.
abbrev pub Before : ℕ → ℕ → ℕ → ℕ → ℕ → ℕ → Type 0
Before g l c g' l' c' =
    (g < g') ⊎ ((g ≡ g') × ((l < l') ⊎ ((l ≡ l') × (least c chroma_max < least c' chroma_max))))

packed_lem :
    (g l c g' l' c' : ℕ)
    → g ≤ 13
    → l ≤ 1000
    → g' ≤ 13
    → l' ≤ 1000
    → (packed g l c < packed g' l' c') ↔ Before g l c g' l' c'
unfolding packed least
packed_lem g l c g' l' c' hg hl hg' hl' = ground arith

packed_lt : (g l c : ℕ) → g ≤ 13 → l ≤ 1000 → packed g l c < 2147483648
unfolding packed least
packed_lt g l c hg hl = ground arith

module _ {R : Type 0} ⦃arithmetic : Arithmetic R⦄ where
  open arithmetic use {literal, leq, less, whole, round, whole_round, whole_less, times_le}

  abbrev pub thousandths : R → ℕ
  thousandths x = whole (round (x ⊗ literal 1000 0))

  -- Coordinates of a color: a lightness up to 1, and a hue of at most one turn.
  abbrev pub IsInRange : Triple R → Type 0
  IsInRange c = (leq c.0 (literal 1 0) ≡ true) × (less (bucket c.1 c.2) (literal 13 0) ≡ true)

  group_le : (c : Triple R) → IsInRange c → group_of c.1 c.2 ≤ 13
  unfolding group_of
  group_le c h = ground (arith, whole_less (bucket c.1 c.2) 12 h.1)

  lightness_le : (c : Triple R) → IsInRange c → thousandths c.0 ≤ 1000
  lightness_le c h = whole_round (c.0 ⊗ literal 1000 0) 1000 (times_le c.0 1000 h.0)

  -- For colors in range the keys compare as group, lightness and chroma do, in this order, and the
  -- conversion to int32 loses nothing.
  pub key_of_oklab-Before :
      (c d : Triple R)
      → IsInRange c
      → IsInRange d
      → ((key_of_oklab c < key_of_oklab d)
          ↔ Before
              (group_of c.1 c.2)
              (thousandths c.0)
              (thousandths (chroma_of c.1 c.2))
              (group_of d.1 d.2)
              (thousandths d.0)
              (thousandths (chroma_of d.1 d.2)))
        × (key_of_oklab c < 2147483648)
  unfolding key_of_oklab
  key_of_oklab-Before c d hc hd = (
    packed_lem (group_of c.1 c.2) (thousandths c.0) (thousandths (chroma_of c.1 c.2))
        (group_of d.1 d.2) (thousandths d.0) (thousandths (chroma_of d.1 d.2)) (group_le c hc)
        (lightness_le c hc) (group_le d hd) (lightness_le d hd),
    packed_lt (group_of c.1 c.2) (thousandths c.0) (thousandths (chroma_of c.1 c.2)) (group_le c hc)
        (lightness_le c hc),
  )
