-- ===== src/Storage/Colors/Sorting.antt =====
-- internal/storage/color_sort.go and sort.go: the orders of a colors listing, and the keyset
-- comparison that continues a listing after a row. A limit is a natural number: the code treats a
-- negative one as it treats 0.
use wavelen.Prelude.{
  ℕ, Bytes, codes, Option, none, some, List, [], ◌∷◌, ◌++◌, ltb, leb, ◌==◌, bytes_eq, if◌then◌else◌,
  ◌||◌, Result, ok, err,
}
use wavelen.Errors.{Error, invalid_color_sort, invalid_sort_order}
use wavelen.Storage.Schema.{ColorRow}
use wavelen.Storage.Order.{Direction, ascending, descending}

abbrev pub order_asc : Bytes
order_asc = codes "asc"

abbrev pub order_desc : Bytes
order_desc = codes "desc"

-- `ParseSortOrder`
unfoldable pub parse_sort_order : Bytes → Result Error Bytes
parse_sort_order s = if s == order_asc || s == order_desc then ok s else err invalid_sort_order

abbrev pub sort_by_created_at : Bytes
sort_by_created_at = codes "created_at"

abbrev pub sort_by_hex : Bytes
sort_by_hex = codes "hex"

abbrev pub sort_by_color : Bytes
sort_by_color = codes "color"

abbrev pub default_color_limit : ℕ
default_color_limit = 50

abbrev pub max_color_limit : ℕ
max_color_limit = 100

-- `ParseColorSort`
unfoldable pub parse_color_sort : Bytes → Result Error Bytes
parse_color_sort s =
    if s == sort_by_created_at || (s == sort_by_hex || s == sort_by_color)
    then ok s
    else err invalid_color_sort

pub record ColorCursor : Type 0 where
  pub created_at : ℕ
  pub hex : Bytes

pub record ListColorsParams : Type 0 where
  pub sort : Bytes
  pub order : Bytes
  pub after : Option ColorCursor
  pub limit : ℕ

-- `normalized`: a zero value means the default, and a limit is at most the maximum.
unfoldable pub normalized : ListColorsParams → ListColorsParams
normalized p = record p {
  sort = if p.sort == [] then sort_by_created_at else p.sort;
  order = if p.order == [] then order_desc else p.order;
  limit =
      if leb p.limit 0
      then default_color_limit
      else if ltb max_color_limit p.limit
      then max_color_limit
      else p.limit;
}

pub data Column : Type 0 where
  created_at hex color_key : Column

-- The ORDER BY columns with their direction, the columns that the predicate compares with the
-- arguments, whether it asks for greater (`ascending`) or for less, and the arguments.
pub record Keyset : Type 0 where
  pub order_by : List Column
  pub direction : Direction
  pub predicate : List Column
  pub comparison : Direction
  pub cursor : Option (List ℕ)

-- The arguments `$3, $4` of a cursor.
unfoldable pub cursor_args : (ColorCursor → List ℕ) → Option ColorCursor → Option (List ℕ)
cursor_args f none = none
cursor_args f (some c) = some (f c)

-- The switch on the order: the same columns both ways.
unfoldable pub ordered : Bytes → List Column → Option (List ℕ) → Result Error Keyset
ordered order columns args =
    if order == order_desc
    then ok (record {
      order_by = columns;
      direction = descending;
      predicate = columns;
      comparison = descending;
      cursor = args;
    })
    else if order == order_asc
    then ok (record {
      order_by = columns;
      direction = ascending;
      predicate = columns;
      comparison = ascending;
      cursor = args;
    })
    else err invalid_sort_order

-- `keyset`; `feel` is `color.Feel`.
unfoldable pub keyset : (Bytes → ℕ) → ListColorsParams → Result Error Keyset
unfolding cursor_args ordered
keyset feel p =
    if p.sort == sort_by_created_at
    then ordered p.order (created_at ∷ hex ∷ []) (cursor_args (λ c. c.created_at ∷ c.hex) p.after)
    else if p.sort == sort_by_hex
    then ordered p.order (hex ∷ []) (cursor_args (λ c. c.hex) p.after)
    else if p.sort == sort_by_color
    then ordered p.order (color_key ∷ hex ∷ []) (cursor_args (λ c. feel c.hex ∷ c.hex) p.after)
    else err invalid_color_sort

abbrev column_key : Column → ColorRow → List ℕ
column_key created_at r = r.created_at ∷ []
column_key hex r = r.hex
column_key color_key r = r.color_key ∷ []

-- The values of the columns in a row.
unfoldable pub row_key : List Column → ColorRow → List ℕ
row_key [] r = []
row_key (c ∷ cs) r = column_key c r ++ row_key cs r
