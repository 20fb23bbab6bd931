-- ===== src/Http/Colors.antt =====
-- internal/handlers/color_handler.go
pub mod Params
pub mod Adding
pub mod Walk
use wavelen.Prelude.{
  ℕ, ◌+◌, ◌<◌, Bytes, codes, Bool, true, false, ◌&&◌, not, Option, none, some, List, [], length,
  last?, ◌==◌, bytes_eq, if◌then◌else◌, Result, ok, err, and_then, on_ok,
}
use wavelen.Errors.{Error}
use wavelen.Color.Hex.{new_hex}
use wavelen.Domain.Names.{Validation}
use wavelen.Storage.Schema.{Color}
use wavelen.Storage.Actions.{World, Action, ◌>>=◌, ◌>>◌, pure}
use wavelen.Storage.Colors.{ColorPage}
use wavelen.Storage.Colors.Sorting.{
  ListColorsParams, ColorCursor, parse_color_sort, parse_sort_order, sort_by_created_at, order_desc,
}
use wavelen.Services.ColorSvc.{
  add_color_to, list_colors_of, delete_color_from, delete_all_colors_from,
}
use wavelen.Http.Message.{
  Request, Response, Handler, reply, empty, saved_hex, color_list, check, call,
  collection_id_from_path, hex_from_path,
}
use wavelen.Http.Cursor.{TimeText, encode_cursor, decode_cursor}

-- What the handlers stand on: the checks, the texts of times and the quota.
pub record ColorConfig : Type 0 where
  pub validation : Validation
  pub times : TimeText
  pub quota : ℕ

module _ (cfg : ColorConfig) where
  open cfg use {validation, times, quota}

  -- `HandleAddColor`; `body` is the hex of the decoded body.
  unfoldable pub handle_add_color : Request → Result Error Bytes → ℕ → Handler
  handle_add_color req body uid = do
    cid ← check (collection_id_from_path validation req)
    raw ← check body
    hex ← check (new_hex validation.hex raw)
    created ← call (add_color_to quota uid cid hex)
    pure (reply (if created then 201 else 200) (saved_hex hex))

  -- A query parameter that is not there leaves the default.
  given : Bytes → Bytes → (Bytes → Result Error Bytes) → Result Error Bytes
  given raw default parse = if raw == [] then ok default else parse raw

  cursor_param : Bytes → Bytes → Bytes → Result Error (Option ColorCursor)
  cursor_param raw sort order =
      if raw == []
      then ok none
      else on_ok (λ c. some c) (decode_cursor times validation.hex raw sort order)

  -- `listColorsParams`: the limit, then the sort, the order and the cursor.
  unfoldable pub list_colors_params : Request → Result Error ListColorsParams
  unfolding given cursor_param
  list_colors_params req = and_then req.limit λ limit.
      and_then (given (req.query (codes "sort")) sort_by_created_at parse_color_sort) λ sort.
        and_then (given (req.query (codes "order")) order_desc parse_sort_order) λ order.
          on_ok (λ after. record { sort = sort; order = order; after = after; limit = limit })
            (cursor_param (req.query (codes "cursor")) sort order)

  unfoldable pub next_cursor : ListColorsParams → Bool → Option Color → Option Bytes
  next_cursor p true (some last) = some (encode_cursor times p.sort p.order last)
  next_cursor p _ _ = none

  -- The listing with the cursor of its last row, when more rows follow.
  unfoldable pub list_reply : ListColorsParams → ColorPage → Response
  unfolding next_cursor
  list_reply p page =
      reply 200 (color_list page.colors p.limit (next_cursor p page.has_more (last? page.colors)))

  -- `HandleListColors`
  unfoldable pub handle_list_colors : Request → ℕ → Handler
  unfolding list_colors_params list_reply
  handle_list_colors req uid = do
    cid ← check (collection_id_from_path validation req)
    params ← check (list_colors_params req)
    page ← call (list_colors_of uid cid params)
    pure (list_reply params page)

  -- `HandleDeleteColor`
  unfoldable pub handle_delete_color : Request → ℕ → Handler
  handle_delete_color req uid = do
    cid ← check (collection_id_from_path validation req)
    hex ← check (hex_from_path validation req)
    call (delete_color_from uid cid hex)
    pure (reply 204 empty)

  -- `HandleDeleteAllColors`
  unfoldable pub handle_delete_all_colors : Request → ℕ → Handler
  handle_delete_all_colors req uid = do
    cid ← check (collection_id_from_path validation req)
    call (delete_all_colors_from uid cid)
    pure (reply 204 empty)
