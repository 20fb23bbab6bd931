-- ===== src/Http/Colors/Walk/Shown.antt =====
-- What a client that follows the cursors is shown, up to the order.
use wavelen.Prelude.{
  ℕ, ◌<◌, Bytes, true, none, List, map, filter, all, count, length, ◌≤◌, ok, on_ok, [], ◌≡◌, ap,
  ◌∙◌, sym,
}
use mathlib.Core.Quot
use wavelen.Prelude.Bags.{bag_of, count-map}
use wavelen.Storage.Schema.{ColorRow, in_collection, is_color}
use wavelen.Storage.Order.{sort}
use wavelen.Storage.Order.Laws.{count-sort}
use wavelen.Storage.Actions.{World}
use wavelen.Storage.Colors.Sorting.{ListColorsParams, Keyset, keyset, normalized, row_key}
use wavelen.Services.ColorSvc.Bags.{colors_bag}
use wavelen.Http.Colors.{ColorConfig}
use wavelen.Http.Colors.Walk.{walk}
use wavelen.Http.Colors.Walk.Steps.{is_stored, IsAsked}
use wavelen.Http.Colors.Walk.Whole.{rows, walk-whole}

-- Sorting is forgotten.
sorted-bag :
    (k : Keyset) (rs : List ColorRow)
    → bag_of (map (λ r. r.color) (sort k.direction (row_key k.order_by) rs))
      ≡ bag_of (map (λ r. r.color) rs)
unfolding bag_of
sorted-bag k rs = Quot.sound (λ p.
    count-map p (λ r. r.color) (sort k.direction (row_key k.order_by) rs)
    ∙ count-sort k.direction (row_key k.order_by) (λ r. p r.color) rs
    ∙ sym (count-map p (λ r. r.color) rs))

-- Under the conditions of a whole walk: whatever the sort, the order and the limit are, the client
-- is shown the same bag, that of the collection's colors.
pub walk-colors_bag :
    (cfg : ColorConfig) (w : World) (cid : ℕ) (k : Keyset) (answers : w.faults ≡ [])
    (unique : (hex : Bytes) → count (is_color cid hex) w.tables.colors ≤ 1) (p : ListColorsParams)
    (n : ℕ)
    → IsAsked cfg w cid p
    → p.after ≡ none
    → keyset w.env.feel (normalized p) ≡ ok k
    → all (is_stored cfg w cid) (rows cfg w cid k answers unique) ≡ true
    → length (rows cfg w cid k answers unique) < n
    → on_ok bag_of (walk cfg w cid n p) ≡ ok (colors_bag cid w.tables)
walk-colors_bag cfg w cid k answers unique p n asked start e stored fuel =
    ap (on_ok bag_of) (walk-whole cfg w cid k answers unique p n asked start e stored fuel)
    ∙ ap ok (sorted-bag k (filter (in_collection cid) w.tables.colors))
