-- ===== src/Storage/Colors/Paging.antt =====
-- A page that continues a listing of colors after a row: internal/storage/color_repo.go,
-- `ListColors`.
pub mod Following
pub mod Pages
use wavelen.Prelude.{ℕ, some, subst, List, ◌∷◌, ◌++◌, map, filter, take, ◌≡◌, sym, ap, ◌∙◌}
use wavelen.Storage.Schema.{ColorRow, Tables, in_collection}
use wavelen.Storage.Order.{Direction, sort}
use wavelen.Storage.Order.Laws.{IsSorted, NoneEqual, sort-IsSorted, filter-sort, filter_after}
use wavelen.Storage.Colors.{after_cursor, list_query}
use wavelen.Storage.Colors.Sorting.{Column, Keyset, row_key}

-- The statement of a listing in an order, after a row.
unfoldable pub continued : Direction → List Column → ColorRow → Keyset
continued d columns r = record {
  order_by = columns;
  direction = d;
  predicate = columns;
  comparison = d;
  cursor = some (row_key columns r);
}

-- Rows with distinct keys: after `r` come the rows behind it in the order of the listing.
pub list_query-continued :
    (d : Direction) (columns : List Column) (cid limit : ℕ) (t : Tables) (pre : List ColorRow)
    (r : ColorRow) (post : List ColorRow)
    → sort d (row_key columns) (filter (in_collection cid) t.colors) ≡ pre ++ r ∷ post
    → NoneEqual d (row_key columns) r post
    → list_query (continued d columns r) cid limit t ≡ map (λ x. x.color) (take limit post)
unfolding list_query continued after_cursor
list_query-continued d columns cid limit t pre r post e h =
    ap (λ (rows : List ColorRow). map (λ x. x.color) (take limit rows))
      (sym (
          filter-sort d (row_key columns) (after_cursor (continued d columns r))
            (filter (in_collection cid) t.colors))
        ∙ ap (filter (after_cursor (continued d columns r))) e
        ∙ filter_after d (row_key columns) pre r post sorted h)
  where
    sorted : IsSorted d (row_key columns) (pre ++ r ∷ post)
    sorted =
        subst (IsSorted d (row_key columns)) e
          (sort-IsSorted d (row_key columns) (filter (in_collection cid) t.colors))
