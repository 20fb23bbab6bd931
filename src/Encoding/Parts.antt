-- ===== src/Encoding/Parts.antt =====
-- strings.Split and strings.Join at a separator of one byte.
use wavelen.Prelude.{
  ℕ, Bytes, List, [], ◌∷◌, ◌++◌, ◌==◌, nat_eq, if◌then◌else◌, ◌≡◌, ◌≢◌, refl, arith, ap,
}

prepend : ℕ → List Bytes → List Bytes
prepend c [] = (c ∷ []) ∷ []
prepend c (part ∷ parts) = (c ∷ part) ∷ parts

unfoldable pub split : ℕ → Bytes → List Bytes
unfolding prepend
split sep [] = [] ∷ []
split sep (c ∷ s) = let rest = split sep s in if c == sep then [] ∷ rest else prepend c rest

unfoldable pub join : ℕ → List Bytes → Bytes
join sep [] = []
join sep (part ∷ []) = part
join sep (part ∷ next ∷ parts) = part ++ sep ∷ join sep (next ∷ parts)

abbrev pub Lacks : ℕ → Bytes → Type 0
Lacks sep [] = Unit
Lacks sep (c ∷ s) = (c ≢ sep) × Lacks sep s

split_last : (sep : ℕ) (part : Bytes) → Lacks sep part → split sep part ≡ part ∷ []
unfolding split
split_last sep [] h = refl
split_last sep (c ∷ s) (n, h) = ground (arith, split_last sep s h)

split_part :
    (sep : ℕ) (part rest : Bytes)
    → Lacks sep part
    → split sep (part ++ sep ∷ rest) ≡ part ∷ split sep rest
unfolding split
split_part sep [] rest h = ground arith
split_part sep (c ∷ s) rest (n, h) = ground (arith, split_part sep s rest h)

abbrev pub AllLack : ℕ → List Bytes → Type 0
AllLack sep [] = Unit
AllLack sep (p ∷ ps) = Lacks sep p × AllLack sep ps

-- Splitting a join gives the parts back, if there is one and none holds the separator.
pub split-join :
    (sep : ℕ) (part : Bytes) (parts : List Bytes)
    → Lacks sep part
    → AllLack sep parts
    → split sep (join sep (part ∷ parts)) ≡ part ∷ parts
unfolding join
split-join sep part [] h k = split_last sep part h
split-join sep part (next ∷ parts) h (n, k) =
    rw (split_part sep part _ h)
      (ap (λ (ps : List Bytes). part ∷ ps) (split-join sep next parts n k))
