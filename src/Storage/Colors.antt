-- ===== src/Storage/Colors.antt =====
-- internal/storage/color_repo.go, color_sort.go and sort.go, over `collection_colors`
-- (migrations/000003, 000004).
pub mod Sorting
pub mod Paging
use wavelen.Prelude.{
  ℕ, suc, ◌+◌, Bytes, codes, Bool, true, false, Option, none, some, List, [], ◌∷◌, ◌++◌, not, ◌&&◌,
  map, filter, any, count, length, take, ltb, leb, ◌==◌, nat_eq, bytes_eq, if◌then◌else◌, Result,
  ok, err, and_then, on_ok,
}
use wavelen.Errors.{PgError, foreign_key_violation, driver, Error, not_found, storage_error}
use wavelen.Color.Hex.{is_hex}
use wavelen.Storage.Schema.{Color, ColorRow, Tables, has_id, in_collection, is_color}
use wavelen.Storage.Actions.{
  World, M, Statement, statement, rescue, change, pure, raise, gets, ◌>>=◌, ◌>>◌,
}
use wavelen.Storage.Order.{before, sort}
use wavelen.Storage.Colors.Sorting.{ListColorsParams, Keyset, normalized, keyset, row_key}

-- The SQLSTATE of a failed CHECK, which the program does not name.
abbrev pub check_violation : ℕ
check_violation = 23514

unfoldable pub color_row : World → ℕ → Bytes → ColorRow
color_row w cid hex = record {
  collection_id = cid;
  color = record { hex = hex; created_at = w.now };
  color_key = w.env.feel hex;
}

-- INSERT INTO collection_colors … ON CONFLICT (collection_id, hex) DO NOTHING: the rows affected.
unfoldable pub insert_color : ℕ → Bytes → Statement ℕ
unfolding color_row
insert_color cid hex w =
    if not (is_hex hex)
    then (err (driver check_violation), w)
    else if any (is_color cid hex) w.tables.colors
    then (ok 0, w)
    else if any (has_id cid) w.tables.collections
    then (
      ok 1,
      record w {
        tables = record w.tables { colors = w.tables.colors ++ color_row w cid hex ∷ [] };
      },
    )
    else (err foreign_key_violation, w)

unfoldable pub add_color_error : PgError → Error
add_color_error foreign_key_violation = not_found
add_color_error e = storage_error e

-- `AddColor`: whether a row was written.
unfoldable pub add_color : ℕ → Bytes → M Bool
unfolding insert_color add_color_error statement
add_color cid hex = do n ← rescue add_color_error (statement (insert_color cid hex)); pure (n == 1)

-- `CountColors`
unfoldable pub count_colors : ℕ → M ℕ
unfolding statement
count_colors cid =
    rescue storage_error (statement (gets λ w. count (in_collection cid) w.tables.colors))

-- `HasColor`
unfoldable pub has_color : ℕ → Bytes → M Bool
unfolding statement
has_color cid hex =
    rescue storage_error (statement (gets λ w. any (is_color cid hex) w.tables.colors))

-- `DeleteColor`
unfoldable pub delete_color : ℕ → Bytes → M (Unit {0})
unfolding change
delete_color cid hex = do
  n ← rescue storage_error (
      change λ w. (
        count (is_color cid hex) w.tables.colors,
        record w.tables { colors = filter (λ r. not (is_color cid hex r)) w.tables.colors },
      ))
  if n == 0 then raise not_found else pure tt

-- `DeleteAllColors`
unfoldable pub delete_all_colors : ℕ → M (Unit {0})
unfolding change
delete_all_colors cid = do
  rescue storage_error (
      change λ w. (
        count (in_collection cid) w.tables.colors,
        record w.tables { colors = filter (λ r. not (in_collection cid r)) w.tables.colors },
      ))
  pure tt

pub record ColorPage : Type 0 where
  pub colors : List Color
  pub has_more : Bool

-- The rows after the cursor: all of them when there is none.
unfoldable pub after_cursor : Keyset → ColorRow → Bool
after_cursor k r = elim k.cursor [
  | none ↦ true
  | some args ↦ before k.comparison args (row_key k.predicate r)
]

-- SELECT hex, created_at … WHERE collection_id = $1 [AND …] ORDER BY … LIMIT $2
unfoldable pub list_query : Keyset → ℕ → ℕ → Tables → List Color
unfolding after_cursor
list_query k cid limit t =
    map (λ r. r.color)
      (take limit (
        sort k.direction (row_key k.order_by)
          (filter (after_cursor k) (filter (in_collection cid) t.colors))))

-- One row more than the page holds was asked for.
unfoldable pub page_of : ℕ → List Color → ColorPage
page_of limit colors =
    if ltb limit (length colors)
    then record { colors = take limit colors; has_more = true }
    else record { colors = colors; has_more = false }

-- The rest of `ListColors` after `keyset`.
unfoldable pub list_by : ℕ → ℕ → Result Error Keyset → M ColorPage
unfolding list_query page_of statement
list_by cid limit (err e) = raise e
list_by cid limit (ok k) =
    rescue storage_error
      (statement (gets λ v. page_of limit (list_query k cid (limit + 1) v.tables)))

-- `ListColors`
unfoldable pub list_colors : ℕ → ListColorsParams → M ColorPage
unfolding list_by
list_colors cid p = λ w. list_by cid (normalized p).limit (keyset w.env.feel (normalized p)) w
