-- ===== src/Http/Colors/Params.antt =====
-- The query parameters of a listing of colors: internal/handlers/color_handler.go and
-- internal/storage/color_sort.go.
use wavelen.Prelude.{
  ℕ, Bytes, codes, bytes_eq, bytes_beq, ==_iff, Result, ok, err, subst, and_then, on_ok, ◌≡◌, refl,
  ◌⊎◌, inl, inr, arith,
}
use wavelen.Errors.{Error}
use wavelen.Storage.Colors.Sorting.{
  ListColorsParams, Keyset, normalized, keyset, parse_color_sort, parse_sort_order,
  sort_by_created_at, sort_by_hex, sort_by_color, order_asc, order_desc,
}
use wavelen.Http.Message.{Request}
use wavelen.Http.Colors.{ColorConfig, list_colors_params, given, cursor_param}

-- The statement that answers a listing compares the columns that it orders by, in the direction
-- in which it orders, and compares when there is a cursor.
abbrev pub Continues : Keyset → Type 0
Continues k = (k.predicate ≡ k.order_by) × (k.comparison ≡ k.direction)

abbrev pub Known : ListColorsParams → Type 0
Known p =
    ((p.sort ≡ sort_by_created_at) ⊎ ((p.sort ≡ sort_by_hex) ⊎ (p.sort ≡ sort_by_color)))
    × ((p.order ≡ order_desc) ⊎ (p.order ≡ order_asc))

keyset-Known :
    (feel : Bytes → ℕ) (p : ListColorsParams)
    → Known p
    → (k : Keyset) × (keyset feel (normalized p) ≡ ok k) × Continues k
unfolding keyset normalized bytes_beq
keyset-Known feel p (inl s, inl o) = rw (s, o) (_, refl, (refl, refl))
keyset-Known feel p (inl s, inr o) = rw (s, o) (_, refl, (refl, refl))
keyset-Known feel p (inr (inl s), inl o) = rw (s, o) (_, refl, (refl, refl))
keyset-Known feel p (inr (inl s), inr o) = rw (s, o) (_, refl, (refl, refl))
keyset-Known feel p (inr (inr s), inl o) = rw (s, o) (_, refl, (refl, refl))
keyset-Known feel p (inr (inr s), inr o) = rw (s, o) (_, refl, (refl, refl))

and_then-ok :
    {A B : Type 0}
    → (r : Result Error A) (f : A → Result Error B) (b : B) → and_then r f ≡ ok b
    → (a : A) × (r ≡ ok a) × (f a ≡ ok b)
and_then-ok (ok a) f b h = (a, refl, h)
and_then-ok (err e) f b h = cc

sort_known :
    (cfg : ColorConfig) (raw s : Bytes)
    → given cfg raw sort_by_created_at parse_color_sort ≡ ok s
    → (s ≡ sort_by_created_at) ⊎ ((s ≡ sort_by_hex) ⊎ (s ≡ sort_by_color))
unfolding given parse_color_sort
sort_known cfg raw s h =
    ground (arith, ==_iff raw sort_by_created_at, ==_iff raw sort_by_hex, ==_iff raw sort_by_color)

order_known :
    (cfg : ColorConfig) (raw s : Bytes)
    → given cfg raw order_desc parse_sort_order ≡ ok s
    → (s ≡ order_desc) ⊎ (s ≡ order_asc)
unfolding given parse_sort_order
order_known cfg raw s h = ground (arith, ==_iff raw order_desc, ==_iff raw order_asc)

on_ok-ok :
    {A B : Type 0}
    → (f : A → B) (r : Result Error A) (b : B) → on_ok f r ≡ ok b
    → (a : A) × (f a ≡ b)
on_ok-ok f (ok a) b h = (a, ground arith)
on_ok-ok f (err e) b h = cc

-- The parameters that a request's query gives are known to the storage: a listing that the handler
-- accepts is never refused for its sort or its order, and the statement that answers it compares
-- the columns that it orders by, in the direction in which it orders.
pub list_colors_params-keyset :
    (cfg : ColorConfig) (feel : Bytes → ℕ) (req : Request) (p : ListColorsParams)
    → list_colors_params cfg req ≡ ok p
    → (k : Keyset) × (keyset feel (normalized p) ≡ ok k) × Continues k
unfolding list_colors_params
list_colors_params-keyset cfg feel req p h =
    let (limit, l, h1) = and_then-ok req.limit _ p h in
    let (s, sort, h2) =
      and_then-ok (given cfg (req.query (codes "sort")) sort_by_created_at parse_color_sort) _ p
        h1 in
    let (o, order, h3) =
      and_then-ok (given cfg (req.query (codes "order")) order_desc parse_sort_order) _ p h2 in
    let (after, e) =
      on_ok-ok (λ after. record { sort = s; order = o; after = after; limit = limit })
        (cursor_param cfg (req.query (codes "cursor")) s o) p h3 in
    keyset-Known feel p (subst Known e (sort_known cfg _ s sort, order_known cfg _ o order))
