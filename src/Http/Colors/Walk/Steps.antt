-- ===== src/Http/Colors/Walk/Steps.antt =====
-- One request of a client that follows the cursors, and the request that it leads to.
use wavelen.Prelude.{
  ℕ, suc, ◌+◌, ◌<◌, Bytes, Bool, true, ◌&&◌, Option, none, some, List, [], ◌∷◌, ◌++◌, map, filter,
  all, length, last?, ◌==◌, nat_eq, bytes_eq, ==_iff, bytes_beq, Bool-cases, ok, on_ok, ◌≡◌, inl,
  inr, refl, sym, ap, ◌∙◌, subst, arith, length-append,
}
use wavelen.Color.Hex.{is_hex}
use wavelen.Storage.Schema.{ColorRow}
use wavelen.Storage.Actions.{World, statement}
use wavelen.Storage.Colors.{page_of, list_query, list_by, list_colors, after_cursor}
use wavelen.Storage.Colors.Sorting.{
  ListColorsParams, ColorCursor, Keyset, keyset, ordered, normalized, parse_color_sort,
  parse_sort_order, sort_by_created_at, cursor_args,
}
use wavelen.Storage.Colors.Paging.Following.{Marks}
use wavelen.Http.Cursor.{encode_cursor}
use wavelen.Http.Cursor.RoundTrip.{kept, decode_cursor-encode_cursor}
use wavelen.Http.Colors.{ColorConfig}
use wavelen.Http.Colors.Walk.{asked_again}

-- The answer to a listing, with a database that answers.
pub listed :
    (cid : ℕ) (p : ListColorsParams) (w : World) (k : Keyset)
    → w.faults ≡ []
    → keyset w.env.feel (normalized p) ≡ ok k
    → (list_colors cid p w).0
      ≡ ok (page_of (normalized p).limit (list_query k cid ((normalized p).limit + 1) w.tables))
unfolding list_colors list_by statement
listed cid p w k f e = rw (e, f) refl

-- With no cursor every row is listed.
pub first_rows :
    (k : Keyset) (rows : List ColorRow) → k.cursor ≡ none → filter (after_cursor k) rows ≡ rows
unfolding filter after_cursor
first_rows k [] e = refl
first_rows k (x ∷ rows) e = rw e (ap (λ xs. x ∷ xs) (first_rows k rows e))

pub no_cursor :
    (feel : Bytes → ℕ) (p : ListColorsParams) (k : Keyset)
    → p.after ≡ none
    → keyset feel p ≡ ok k
    → k.cursor ≡ none
unfolding keyset ordered cursor_args
no_cursor feel p k e h = ground arith

-- Another cursor changes neither the columns nor the direction.
pub same_order :
    (feel : Bytes → ℕ) (p : ListColorsParams) (a : Option ColorCursor) (k k' : Keyset)
    → keyset feel p ≡ ok k
    → keyset feel (record p { after = a }) ≡ ok k'
    → (k'.direction ≡ k.direction) × (k'.order_by ≡ k.order_by)
unfolding keyset ordered
same_order feel p a k k' h h' = (ground arith, ground arith)

no_empty : (s : Bytes) → parse_color_sort [] ≡ ok s → ⊥
unfolding parse_color_sort bytes_beq
no_empty s h = cc

-- A sort that requests can ask for is kept.
pub sort-normalized :
    (p : ListColorsParams) (s : Bytes)
    → parse_color_sort p.sort ≡ ok s
    → (normalized p).sort ≡ p.sort
unfolding normalized parse_color_sort
sort-normalized p s h = elim (Bool-cases (p.sort == [])) [
  | inl e ↦ absurd (no_empty s (subst (λ x. parse_color_sort x ≡ ok s) ((==_iff p.sort []).0 e) h))
  | inr e ↦ rw e refl
]

pub limit-normalized : (p : ListColorsParams) → 0 < (normalized p).limit
unfolding normalized
limit-normalized p = ground arith

pub last-colors :
    (init : List ColorRow) (r : ColorRow)
    → last? (map (λ x. x.color) (init ++ r ∷ [])) ≡ some r.color
last-colors [] r = refl
last-colors (x ∷ []) r = refl
last-colors (x ∷ y ∷ init) r = last-colors (y ∷ init) r

pub map-append :
    (xs ys : List ColorRow)
    → map (λ x. x.color) (xs ++ ys) ≡ map (λ x. x.color) xs ++ map (λ x. x.color) ys
map-append [] ys = refl
map-append (x ∷ xs) ys = ap (λ cs. x.color ∷ cs) (map-append xs ys)

pub all-at :
    (f : ColorRow → Bool) (pre : List ColorRow) (r : ColorRow) (post : List ColorRow)
    → all f (pre ++ r ∷ post) ≡ true
    → f r ≡ true
all-at f [] r post h = ground arith
all-at f (x ∷ pre) r post h = all-at f pre r post (ground arith)

module _ (cfg : ColorConfig) (w : World) (cid : ℕ) where
  open cfg use {validation, times}

  -- A stored row: a normalized code, with the sort key of it.
  abbrev pub is_stored : ColorRow → Bool
  is_stored r = is_hex r.hex && (r.color_key == w.env.feel r.hex)

  -- The parameters are ones that a request can give.
  abbrev pub IsAsked : ListColorsParams → Type 0
  IsAsked p =
      (s : Bytes) × (o : Bytes) × (parse_color_sort p.sort ≡ ok s)
      × (parse_sort_order p.order ≡ ok o)

  abbrev pub continuing : ListColorsParams → ColorRow → ListColorsParams
  continuing p r = record p { after = some (kept p.sort r.color) }

  pub asked_again-kept :
      (p : ListColorsParams) (r : ColorRow)
      → IsAsked p
      → is_hex r.hex ≡ true
      → asked_again cfg p (encode_cursor times p.sort p.order r.color) ≡ ok (continuing p r)
  unfolding asked_again
  asked_again-kept p r (s, o, hs, ho) good =
      ap (λ c. on_ok (λ c. record p { after = some c }) c)
        (decode_cursor-encode_cursor times validation.hex r.color good p.sort p.order s o hs ho)

  pub continuing-Marks :
      (p : ListColorsParams) (r : ColorRow)
      → IsAsked p
      → is_stored r ≡ true
      → Marks w.env.feel (normalized (continuing p r)) r (kept p.sort r.color)
  unfolding normalized
  continuing-Marks p r (s, o, hs, ho) stored = (
    refl,
    refl,
    λ e. rw ((==_iff p.sort sort_by_created_at).1 (sym (sort-normalized p s hs) ∙ e)) refl,
    ground (arith, ==_iff r.color_key (w.env.feel r.hex)),
  )

pub shorter :
    (init : List ColorRow) (r : ColorRow) (post : List ColorRow) (n : ℕ)
    → length (init ++ r ∷ post) < suc n
    → length post < n
shorter init r post n h = omega (arith, h, length-append init (r ∷ post))
