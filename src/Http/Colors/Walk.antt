-- ===== src/Http/Colors/Walk.antt =====
-- A client that reads a listing to its end: it sends the `next_cursor` of each response back as the
-- `cursor` of the next request, under the same sort, order and limit, until there is none
-- (internal/handlers/color_handler.go over internal/storage/color_repo.go). Nothing is written
-- meanwhile.
pub mod Steps
pub mod Whole
pub mod Shown
use wavelen.Prelude.{
  ℕ, zero, suc, Bytes, Option, none, some, List, [], ◌++◌, last?, Result, ok, err, and_then, on_ok,
}
use wavelen.Errors.{Error}
use wavelen.Storage.Schema.{Color}
use wavelen.Storage.Actions.{World}
use wavelen.Storage.Colors.{ColorPage, list_colors}
use wavelen.Storage.Colors.Sorting.{ListColorsParams}
use wavelen.Http.Cursor.{decode_cursor}
use wavelen.Http.Colors.{ColorConfig, next_cursor}

module _ (cfg : ColorConfig) where
  open cfg use {validation, times}

  -- The parameters of the next request, from the cursor that it carries.
  unfoldable pub asked_again : ListColorsParams → Bytes → Result Error ListColorsParams
  asked_again p token =
      on_ok (λ c. record p { after = some c })
        (decode_cursor times validation.hex token p.sort p.order)

  unfoldable pub go_on :
      (ListColorsParams → Result Error (List Color))
      → ListColorsParams
      → List Color
      → Option Bytes
      → Result Error (List Color)
  go_on next p colors none = ok colors
  go_on next p colors (some token) =
      and_then (asked_again p token) λ q. on_ok (λ rest. colors ++ rest) (next q)

  unfoldable pub turn :
      (ListColorsParams → Result Error (List Color))
      → ListColorsParams
      → ColorPage
      → Result Error (List Color)
  unfolding go_on
  turn next p page = go_on next p page.colors (next_cursor cfg p page.has_more (last? page.colors))

  -- At most n requests; the colors that they showed.
  unfoldable pub walk : World → ℕ → ℕ → ListColorsParams → Result Error (List Color)
  unfolding turn
  walk w cid zero p = ok []
  walk w cid (suc n) p = and_then (list_colors cid p w).0 (turn (walk w cid n) p)
