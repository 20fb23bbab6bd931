-- ===== src/Color/Harmonies.antt =====
-- internal/color/color.go: the table of the harmonies, their names and the wheels they turn on.
pub mod Yields
use wavelen.Prelude.{
  ℕ, Bytes, codes, Bool, true, false, ◌||◌, Option, none, some, List, [], ◌∷◌, map, find, any,
  if◌then◌else◌, ◌==◌, bytes_eq, Result, ok, err,
}
use wavelen.Errors.{Error, unknown_harmony, unknown_space}
use wavelen.Color.Floats.{Arithmetic, ◌⊖◌, ◌⊗◌}
use wavelen.Color.Oklab.{after}
use wavelen.Color.Derive.{Space, rotate_oklch, rotate_hsl, ramp, tones}

abbrev pub complement : Bytes
complement = codes "complement"

abbrev pub split_complement : Bytes
split_complement = codes "split-complement"

abbrev pub triad : Bytes
triad = codes "triad"

abbrev pub analogous : Bytes
analogous = codes "analogous"

abbrev pub square : Bytes
square = codes "square"

abbrev pub ramp_name : Bytes
ramp_name = codes "ramp"

abbrev pub tones_name : Bytes
tones_name = codes "tones"

abbrev pub space_oklab : Space
space_oklab = codes "oklab"

abbrev pub space_hsl : Space
space_hsl = codes "hsl"

-- `DefSpace`
abbrev pub default_space : Space
default_space = space_hsl

-- What a row does: it turns the hue by angles, or it sweeps.
pub data Scheme (R : Type 0) : Type 0 where
  turns : List R → Scheme R
  sweep_ramp sweep_tones : Scheme R

pub record Harmony (R : Type 0) : Type 0 where
  pub name : Bytes
  pub scheme : Scheme R

module _ {R : Type 0} where
  unfoldable pub names_of : List (Harmony R) → List Bytes
  names_of [] = []
  names_of (h ∷ hs) = h.name ∷ names_of hs

module _ (R : Type 0) ⦃arithmetic : Arithmetic R⦄ where
  open arithmetic use {literal, negated}

  abbrev row : Bytes → List R → Harmony R
  row name degs = record { name = name; scheme = turns degs }

  -- `harmonies`
  unfoldable pub harmonies : List (Harmony R)
  harmonies =
      row complement (literal 180 0 ∷ [])
      ∷ row split_complement (literal 150 0 ∷ literal 210 0 ∷ [])
      ∷ row triad (literal 120 0 ∷ literal 240 0 ∷ [])
      ∷ row analogous (negated (literal 30 0) ∷ literal 30 0 ∷ [])
      ∷ row square (literal 90 0 ∷ literal 180 0 ∷ literal 270 0 ∷ [])
      ∷ record { name = ramp_name; scheme = sweep_ramp }
      ∷ record { name = tones_name; scheme = sweep_tones }
      ∷ []

  -- `HarmonyNames`
  unfoldable pub harmony_names : List Bytes
  harmony_names = names_of harmonies

  -- `ParseHarmony`
  unfoldable pub parse_harmony : Bytes → Result Error Bytes
  parse_harmony s = if any (λ h. h.name == s) harmonies then ok s else err unknown_harmony

-- `ParseSpace`
unfoldable pub parse_space : Bytes → Result Error Space
parse_space s = if s == space_oklab || s == space_hsl then ok s else err unknown_space

module _ {R : Type 0} ⦃arithmetic : Arithmetic R⦄ where
  -- `rotate`
  unfoldable pub rotate : Space → Bytes → R → Option Bytes
  rotate space h deg = if space == space_hsl then rotate_hsl h deg else rotate_oklch h deg

  -- `rotations`
  unfoldable pub rotations : Space → Bytes → List R → Option (List Bytes)
  rotations space h [] = some []
  rotations space h (deg ∷ degs) =
      after (rotate space h deg)
        λ turned. after (rotations space h degs) λ rest. some (turned ∷ rest)

  unfoldable pub of_scheme : Space → Bytes → Scheme R → Option (List Bytes)
  of_scheme space h (turns degs) = rotations space h degs
  of_scheme space h sweep_ramp = ramp R h
  of_scheme space h sweep_tones = tones R h

  unfoldable pub colors_by : Space → Bytes → Option (Harmony R) → Option (List Bytes)
  colors_by space h none = some []
  colors_by space h (some row) = of_scheme space h row.scheme

module _ (R : Type 0) ⦃arithmetic : Arithmetic R⦄ where
  -- `Colors`: the nil of an unknown name is the empty list; `none` is a panic.
  unfoldable pub colors : Bytes → Space → Bytes → Option (List Bytes)
  colors harmony space hex = colors_by space hex (find (λ h. h.name == harmony) (harmonies R))
