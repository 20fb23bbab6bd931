-- ===== src/Storage/Colors/Paging/Pages.antt =====
-- How `ListColors` of internal/storage/color_repo.go cuts the rest of a listing into a page.
use wavelen.Prelude.{
  ℕ, zero, suc, ◌+◌, ◌≤◌, ◌<◌, true, false, List, [], ◌∷◌, ◌++◌, map, length, take, ltb, ◌≡◌, ◌⊎◌,
  inl, inr, refl, ap, ◌∙◌, sym, subst, arith,
}
use wavelen.Storage.Schema.{Color, ColorRow}
use wavelen.Storage.Colors.{ColorPage, page_of}

-- Up to l + 1 rows, or l rows, one more, and others.
abbrev Beyond : ℕ → List ColorRow → Type 0
Beyond l rows =
    (init : List ColorRow) × (r : ColorRow) × (next : ColorRow) × (post : List ColorRow) × (rows
      ≡ init ++ r ∷ next ∷ post)
    × (length init ≡ l)

split_at : (l : ℕ) (rows : List ColorRow) → (length rows ≤ suc l) ⊎ Beyond l rows
split_at l [] = inl (omega arith)
split_at zero (x ∷ []) = inl (omega arith)
split_at zero (x ∷ y ∷ post) = inr ([], x, y, post, refl, refl)
split_at (suc l) (x ∷ rows) = elim (split_at l rows) [
  | inl h ↦ inl (omega (arith, h))
  | inr (init, r, next, post, e, len) ↦
      inr (x ∷ init, r, next, post, ap (λ xs. x ∷ xs) e, ap suc len)
]

abbrev color_of : ColorRow → Color
color_of r = r.color

taken :
    (init : List ColorRow) (r next : ColorRow) (post : List ColorRow)
    → take
        (suc (length init))
        (map color_of (take (suc (suc (length init))) (init ++ r ∷ next ∷ post)))
      ≡ map color_of (init ++ r ∷ [])
taken [] r next post = refl
taken (x ∷ init) r next post = ap (λ cs. x.color ∷ cs) (taken init r next post)

length-taken :
    (init : List ColorRow) (r next : ColorRow) (post : List ColorRow)
    → length (map color_of (take (suc (suc (length init))) (init ++ r ∷ next ∷ post)))
      ≡ suc (suc (length init))
length-taken [] r next post = refl
length-taken (x ∷ init) r next post = ap suc (length-taken init r next post)

kept_all :
    (n : ℕ) (rows : List ColorRow)
    → length rows ≤ n
    → map color_of (take n rows) ≡ map color_of rows
kept_all zero [] h = refl
kept_all zero (x ∷ rows) h = absurd (omega arith)
kept_all (suc n) [] h = refl
kept_all (suc n) (x ∷ rows) h = ap (λ cs. x.color ∷ cs) (kept_all n rows (omega arith))

length-colors : (rows : List ColorRow) → length (map color_of rows) ≡ length rows
length-colors [] = refl
length-colors (x ∷ rows) = ap suc (length-colors rows)

-- The rest of a listing is a last page, or a full page with rows behind it.
abbrev pub Cut : ColorPage → List ColorRow → Type 0
Cut page rest =
    (page ≡ record { colors = map color_of rest; has_more = false })
    ⊎ ((init : List ColorRow) × (r : ColorRow) × (post : List ColorRow) × (rest ≡ init ++ r ∷ post)
        × (page ≡ record { colors = map color_of (init ++ r ∷ []); has_more = true }))

last_page :
    (n : ℕ) (cs : List Color)
    → ltb n (length cs) ≡ false
    → page_of n cs ≡ record { colors = cs; has_more = false }
unfolding page_of
last_page n cs h = rw h refl

filled :
    (n : ℕ) (cs : List Color)
    → ltb n (length cs) ≡ true
    → page_of n cs ≡ record { colors = take n cs; has_more = true }
unfolding page_of
filled n cs h = rw h refl

full_page :
    (init : List ColorRow) (r next : ColorRow) (post : List ColorRow)
    → page_of
        (suc (length init))
        (map color_of (take (suc (suc (length init))) (init ++ r ∷ next ∷ post)))
      ≡ record { colors = map color_of (init ++ r ∷ []); has_more = true }
full_page init r next post =
    filled (suc (length init))
      (map color_of (take (suc (suc (length init))) (init ++ r ∷ next ∷ post)))
      (ground (arith, length-taken init r next post))
    ∙ ap (λ (cs : List Color). record { colors = cs; has_more = true }) (taken init r next post)

Cut-at :
    (l : ℕ) (rest : List ColorRow)
    → (length rest ≤ suc l) ⊎ Beyond l rest
    → Cut (page_of (suc l) (map color_of (take (suc (suc l)) rest))) rest
unfolding page_of
Cut-at l rest (inl h) = inl (
    ap (page_of (suc l)) (kept_all (suc (suc l)) rest (omega (arith, h)))
    ∙ last_page (suc l) (map color_of rest) (ground (arith, length-colors rest)))
Cut-at l rest (inr (init, r, next, post, e, len)) = inr (
  init,
  r,
  next ∷ post,
  e,
  subst
      (λ m.
        page_of (suc m) (map color_of (take (suc (suc m)) rest))
        ≡ record { colors = map color_of (init ++ r ∷ []); has_more = true })
      len
      (subst
        (λ rows.
          page_of (suc (length init)) (map color_of (take (suc (suc (length init))) rows))
          ≡ record { colors = map color_of (init ++ r ∷ []); has_more = true })
        (sym e) (full_page init r next post)),
)

two_more : (l : ℕ) → suc (suc l) ≡ suc l + 1
two_more l = omega arith

pub page_of-Cut :
    (limit : ℕ) (rest : List ColorRow)
    → 0 < limit
    → Cut (page_of limit (map color_of (take (limit + 1) rest))) rest
page_of-Cut zero rest h = absurd (omega arith)
page_of-Cut (suc l) rest h =
    subst (λ n. Cut (page_of (suc l) (map color_of (take n rest))) rest) (two_more l)
      (Cut-at l rest (split_at l rest))
