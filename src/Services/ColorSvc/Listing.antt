-- ===== src/Services/ColorSvc/Listing.antt =====
-- The size of a page of colors: internal/storage/color_repo.go, `ListColors`.
use wavelen.Prelude.{
  ℕ, zero, suc, ◌+◌, ◌≤◌, ◌<◌, true, Option, none, some, List, [], ◌∷◌, length, take, ltb, Result,
  ok, err, on_err, ◌≡◌, refl, subst, inl, inr, Bool-cases, arith, length-take-le,
}
use wavelen.Errors.{Error, storage_error}
use wavelen.Storage.Schema.{Color}
use wavelen.Storage.Actions.{World, attempt, statement, gets}
use wavelen.Storage.Colors.{ColorPage, page_of, list_query, list_by, list_colors}
use wavelen.Storage.Colors.Sorting.{ListColorsParams, Keyset, normalized, keyset, max_color_limit}

length-take : (n : ℕ) (cs : List Color) → n ≤ length cs → length (take n cs) ≡ n
length-take zero cs h = refl
length-take (suc n) [] h = absurd (omega arith)
length-take (suc n) (c ∷ cs) h = omega (arith, length-take n cs (omega arith))

-- A page is full when more rows follow, and has the rest otherwise.
abbrev pub Fits : ℕ → ColorPage → Type 0
Fits limit page = (length page.colors ≤ limit) × (page.has_more ≡ true → length page.colors ≡ limit)

abbrev Shows : ℕ → Result Error ColorPage → Type 0
Shows limit (ok page) = Fits limit page
Shows limit (err e) = Unit

page_of-Fits : (limit : ℕ) (cs : List Color) → Fits limit (page_of limit cs)
unfolding page_of
page_of-Fits limit cs = elim (Bool-cases (ltb limit (length cs))) [
  | inl more ↦
      rw (more, page_of) (length-take-le limit cs, λ e. length-take limit cs (ground arith))
  | inr rest ↦ rw (rest, page_of) (ground arith, λ e. cc)
]

normalized-limit :
    (p : ListColorsParams) → (0 < (normalized p).limit) × ((normalized p).limit ≤ max_color_limit)
unfolding normalized
normalized-limit p = (ground arith, ground arith)

queried :
    (limit : ℕ) (k : Keyset) (cid : ℕ) (w : World) (fs : List (Option ℕ)) (page : ColorPage)
    → on_err storage_error
        (attempt (gets λ v. page_of limit (list_query k cid (limit + 1) v.tables)) fs w).0
      ≡ ok page
    → Fits limit page
unfolding attempt
queried limit k cid w [] page h =
    subst (λ (r : Result Error ColorPage). Shows limit r) h (page_of-Fits limit _)
queried limit k cid w (none ∷ fs) page h =
    subst (λ (r : Result Error ColorPage). Shows limit r) h (page_of-Fits limit _)
queried limit k cid w (some e ∷ fs) page h = cc

listed :
    (limit cid : ℕ) (w : World) (k : Result Error Keyset) (page : ColorPage)
    → (list_by cid limit k w).0 ≡ ok page
    → Fits limit page
unfolding list_by statement
listed limit cid w (err e) page h = cc
listed limit cid w (ok k) page h = queried limit k cid w w.faults page h

-- A page of any listing that is answered has at most 100 colors, and if more follow it has as
-- many as the limit of the listing says, which is at least 1.
pub list_colors-length :
    (cid : ℕ) (p : ListColorsParams) (w : World) (page : ColorPage)
    → (list_colors cid p w).0 ≡ ok page
    → (length page.colors ≤ max_color_limit)
      × (0 < (normalized p).limit)
      × (page.has_more ≡ true → length page.colors ≡ (normalized p).limit)
unfolding list_colors
list_colors-length cid p w page h =
    let (f, m) = listed (normalized p).limit cid w (keyset w.env.feel (normalized p)) page h in
    let (a, b) = normalized-limit p in (omega (arith, f, b), a, m)
