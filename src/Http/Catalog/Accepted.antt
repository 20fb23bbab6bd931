-- ===== src/Http/Catalog/Accepted.antt =====
-- A listing of the palette with its accepted parameters: internal/handlers/catalog_handler.go.
use wavelen.Prelude.{
  Bytes, codes, Bool, true, false, List, [], ◌==◌, bytes_eq, bytes_beq, Result, ok, err, and_then,
  on_ok, ◌≡◌, refl, ap, ◌∙◌, Bool-cases, inl, inr, arith, ℕ,
}
use wavelen.Errors.{Error}
use wavelen.Palette.{
  Common, Entry, SortParams, parse_sort, key_of, by_name, listed as palette_listed, list_of, list,
  entries,
}
use wavelen.Palette.Orders.{column, accepted}
use wavelen.Http.Message.{Request}
use wavelen.Http.Catalog.{list_common_colors_params, given_sort, given_order}

key_of_empty : key_of [] ≡ ok by_name
unfolding key_of bytes_beq
key_of_empty = refl

unsorted : (raw s : Bytes) → (raw == []) ≡ true → given_sort raw ≡ ok s → s ≡ []
unfolding given_sort
unsorted raw s e h = ground arith

sorted_as : (raw s : Bytes) → (raw == []) ≡ false → given_sort raw ≡ ok s → parse_sort raw ≡ ok s
unfolding given_sort
sorted_as raw s e h = ground arith

sort_key : (raw s : Bytes) → given_sort raw ≡ ok s → (key : Entry → List ℕ) × (key_of s ≡ ok key)
sort_key raw s h = elim (Bool-cases (raw == [])) [
  | inl e ↦ (by_name, ap key_of (unsorted raw s e h) ∙ key_of_empty)
  | inr n ↦ (column s, accepted raw s (sorted_as raw s n h))
]

eq-of_ok : (p q : SortParams) → ◌≡◌ {A = Result Error SortParams} (ok p) (ok q) → p ≡ q
eq-of_ok p q e = ground arith

and_then-sort :
    (r : Result Error Bytes) (o : Result Error Bool) (p : SortParams)
    → and_then r (λ sort. on_ok (λ desc. record { sort = sort; desc = desc }) o) ≡ ok p
    → r ≡ ok p.sort
and_then-sort (ok s) (ok d) p h =
    ap ok (ap (λ (q : SortParams). q.sort) (eq-of_ok (record { sort = s; desc = d }) p h))
and_then-sort (ok s) (err e) p h = cc
and_then-sort (err e) o p h = cc

listed_by :
    (p : SortParams) (key : Entry → List ℕ)
    → key_of p.sort ≡ ok key
    → (xs : List Common) × (list_of entries p ≡ ok xs)
unfolding list_of palette_listed
listed_by p key e = (_, ap (palette_listed entries p.desc) e)

-- Parameters that the handler accepts name a sort of the palette: the listing is answered, and the
-- branch of the handler for an unknown sort is never taken.
pub list_common_colors_params-list :
    (req : Request) (p : SortParams)
    → list_common_colors_params req ≡ ok p
    → (xs : List Common) × (list p ≡ ok xs)
unfolding list_common_colors_params list
list_common_colors_params-list req p h =
    let (key, e) = sort_key (req.query (codes "sort")) p.sort (
      and_then-sort (given_sort (req.query (codes "sort")))
        (given_order (req.query (codes "order"))) p h) in
    listed_by p key e
