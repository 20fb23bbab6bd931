-- ===== src/Storage/Colors/Paging/Following.antt =====
-- The listing that follows a cursor: `keyset` and `listQuery` of internal/storage/color_sort.go and
-- color_repo.go, over colors that are unique in their collection.
use wavelen.Prelude.{
  ℕ, ◌≤◌, ◌<◌, Bytes, some, List, [], ◌∷◌, ◌++◌, map, filter, take, count, ◌==◌, nat_eq, bytes_eq,
  bytes_beq, ==_iff, ==_refl, Result, ok, ◌≡◌, ◌⊎◌, inl, inr, refl, sym, ap, ◌∙◌, subst, arith,
  append-nil, count-append,
}
use wavelen.Errors.{Error}
use wavelen.Storage.Schema.{ColorRow, Tables, in_collection, is_color}
use wavelen.Storage.Order.{Direction, ascending, descending, sort}
use wavelen.Storage.Order.Laws.{NoneEqual, count-sort}
use wavelen.Storage.Colors.{list_query}
use wavelen.Storage.Colors.Sorting.{
  Column, created_at, hex, color_key, ColorCursor, ListColorsParams, Keyset, keyset, row_key,
  sort_by_created_at, sort_by_hex, sort_by_color, order_asc, order_desc, ordered,
}
use wavelen.Storage.Colors.Paging.{continued, list_query-continued}

-- The columns of a listing end with the code.
data Listed : List Column → Type 0 where
  by_time : Listed (created_at ∷ hex ∷ [])
  by_code : Listed (hex ∷ [])
  by_feel : Listed (color_key ∷ hex ∷ [])

tail_of : List ℕ → List ℕ
tail_of [] = []
tail_of (x ∷ xs) = xs

Listed-hex :
    (columns : List Column) (x y : ColorRow)
    → Listed columns
    → row_key columns x ≡ row_key columns y
    → x.hex ≡ y.hex
unfolding row_key tail_of
Listed-hex _ x y by_time e = sym (append-nil x.hex) ∙ ap tail_of e ∙ append-nil y.hex
Listed-hex _ x y by_code e = sym (append-nil x.hex) ∙ e ∙ append-nil y.hex
Listed-hex _ x y by_feel e = sym (append-nil x.hex) ∙ ap tail_of e ∙ append-nil y.hex

NoneEqual-count :
    (d : Direction) (columns : List Column) (r : ColorRow) (rows : List ColorRow)
    → Listed columns
    → count (λ x. x.hex == r.hex) rows ≡ 0
    → NoneEqual d (row_key columns) r rows
unfolding count
NoneEqual-count d columns r [] l h = tt
NoneEqual-count d columns r (x ∷ rows) l h = (
  (λ e. absurd (omega (arith, counted (sym (Listed-hex columns r x l e))))),
  NoneEqual-count d columns r rows l (ground arith),
)
  where
    counted : x.hex ≡ r.hex → 0 < count (λ y. y.hex == r.hex) (x ∷ rows)
    counted e = ground (arith, ==_iff x.hex r.hex)

module _ (feel : Bytes → ℕ) (p : ListColorsParams) (r : ColorRow) (c : ColorCursor) where
  -- The cursor is that of the row.
  abbrev pub Marks : Type 0
  Marks =
      (p.after ≡ some c)
      × (c.hex ≡ r.hex)
      × (p.sort ≡ sort_by_created_at → c.created_at ≡ r.created_at)
      × (r.color_key ≡ feel r.hex)

  Known : Type 0
  Known =
      ((p.sort ≡ sort_by_created_at) ⊎ ((p.sort ≡ sort_by_hex) ⊎ (p.sort ≡ sort_by_color)))
      × ((p.order ≡ order_desc) ⊎ (p.order ≡ order_asc))

  keyset-Marks :
      Marks
      → Known
      → (d : Direction) × (columns : List Column) × (keyset feel p ≡ ok (continued d columns r))
        × Listed columns
  unfolding keyset continued row_key bytes_beq Known
  keyset-Marks (a, h, t, f) (inl s, inl o) =
      (descending, created_at ∷ hex ∷ [], rw (s, o, a, h, t s, append-nil r.hex) refl, by_time)
  keyset-Marks (a, h, t, f) (inl s, inr o) =
      (ascending, created_at ∷ hex ∷ [], rw (s, o, a, h, t s, append-nil r.hex) refl, by_time)
  keyset-Marks (a, h, t, f) (inr (inl s), inl o) =
      (descending, hex ∷ [], rw (s, o, a, h, append-nil r.hex) refl, by_code)
  keyset-Marks (a, h, t, f) (inr (inl s), inr o) =
      (ascending, hex ∷ [], rw (s, o, a, h, append-nil r.hex) refl, by_code)
  keyset-Marks (a, h, t, f) (inr (inr s), inl o) =
      (descending, color_key ∷ hex ∷ [], rw (s, o, a, h, f, append-nil r.hex) refl, by_feel)
  keyset-Marks (a, h, t, f) (inr (inr s), inr o) =
      (ascending, color_key ∷ hex ∷ [], rw (s, o, a, h, f, append-nil r.hex) refl, by_feel)

  known : (k : Keyset) → keyset feel p ≡ ok k → Known
  unfolding keyset Known ordered
  known k e = (
    ground (
      arith,
      ==_iff p.sort sort_by_created_at,
      ==_iff p.sort sort_by_hex,
      ==_iff p.sort sort_by_color,
    ),
    ground (arith, ==_iff p.order order_desc, ==_iff p.order order_asc),
  )

-- Continued after a row, a listing that is known is known.
pub keyset_again :
    (feel : Bytes → ℕ) (p : ListColorsParams) (k : Keyset) (r : ColorRow) (c : ColorCursor)
    → keyset feel p ≡ ok k
    → Marks feel (record p { after = some c }) r c
    → (k' : Keyset) × (keyset feel (record p { after = some c }) ≡ ok k')
unfolding Known
keyset_again feel p k r c e m =
    let (d, columns, q, l) =
      keyset-Marks feel (record p { after = some c }) r c m (known feel p r c k e) in
    (continued d columns r, q)

count-in_collection :
    (cid : ℕ) (h : Bytes) (rows : List ColorRow)
    → count (λ x. x.hex == h) (filter (in_collection cid) rows) ≡ count (is_color cid h) rows
unfolding count filter
count-in_collection cid h [] = refl
count-in_collection cid h (x ∷ rows) = ground (arith, count-in_collection cid h rows)

count-here :
    (pre : List ColorRow) (r : ColorRow) (post : List ColorRow)
    → count (λ x. x.hex == r.hex) (pre ++ r ∷ post) ≤ 1
    → count (λ x. x.hex == r.hex) post ≡ 0
unfolding count
count-here pre r post h =
    ground (arith, count-append (λ x. x.hex == r.hex) pre (r ∷ post), ==_refl r.hex)

eq-of_ok : (j k : Keyset) → ◌≡◌ {A = Result Error Keyset} (ok j) (ok k) → j ≡ k
eq-of_ok j k e = ground arith

module _ (feel : Bytes → ℕ) (p : ListColorsParams) (k : Keyset) (c : ColorCursor) (cid limit : ℕ)
    (t : Tables) (pre : List ColorRow) (r : ColorRow) (post : List ColorRow) where
  -- Let a listing ask, under any sort and order, for the colors after a cursor, made from a row of
  -- the collection. If the collection's rows in the order of the listing are `pre`, then this row,
  -- then `post`, and the color of the row is there once, the page of `limit` colors is the first
  -- `limit` colors of `post`: none is repeated and none is skipped.
  pub list_query-keyset :
      keyset feel p ≡ ok k
      → Marks feel p r c
      → count (is_color cid r.hex) t.colors ≤ 1
      → sort k.direction (row_key k.order_by) (filter (in_collection cid) t.colors)
        ≡ pre ++ r ∷ post
      → list_query k cid limit t ≡ map (λ x. x.color) (take limit post)
  unfolding continued
  list_query-keyset e m u s =
      let (d, columns, q, l) = keyset-Marks feel p r c m (known feel p r c k e) in
      following d columns l (eq-of_ok (continued d columns r) k (sym q ∙ e))
    where
      alone : count (λ x. x.hex == r.hex) post ≡ 0
      alone = count-here pre r post (
          omega (
            arith,
            u,
            count-in_collection cid r.hex t.colors,
            count-sort k.direction (row_key k.order_by) (λ x. x.hex == r.hex)
                (filter (in_collection cid) t.colors),
            ap (count (λ x. x.hex == r.hex)) s,
          ))

      following :
          (d : Direction) (columns : List Column)
          → Listed columns
          → continued d columns r ≡ k
          → list_query k cid limit t ≡ map (λ x. x.color) (take limit post)
      following d columns l f =
          subst (λ (j : Keyset). list_query j cid limit t ≡ map (λ x. x.color) (take limit post)) f
            (list_query-continued d columns cid limit t pre r post
              (subst
                (λ (j : Keyset).
                  sort j.direction (row_key j.order_by) (filter (in_collection cid) t.colors)
                  ≡ pre ++ r ∷ post)
                (sym f) s)
              (NoneEqual-count d columns r post l alone))
