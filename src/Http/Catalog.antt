-- ===== src/Http/Catalog.antt =====
-- internal/handlers/catalog_handler.go and shades_handler.go: the read-only palettes.
pub mod Accepted
use wavelen.Prelude.{
  Bytes, codes, Bool, true, false, List, [], ◌∷◌, map, ◌==◌, bytes_eq, if◌then◌else◌, Result, ok,
  err, and_then, on_ok,
}
use wavelen.Errors.{Error}
use wavelen.Storage.Colors.Sorting.{parse_sort_order, order_desc}
use wavelen.Palette.{Common, SortParams, parse_sort, list}
use wavelen.Shades.{Family, families}
use wavelen.Http.Message.{
  Request, Response, request_error, reply, reason, common_colors, shade_families,
}

-- `staticCacheControl`
abbrev pub static_cache_control : Bytes
static_cache_control = codes "public, max-age=600, immutable"

given_sort : Bytes → Result Error Bytes
given_sort raw = if raw == [] then ok [] else parse_sort raw

given_order : Bytes → Result Error Bool
given_order raw =
    if raw == [] then ok false else on_ok (λ order. order == order_desc) (parse_sort_order raw)

-- `listCommonColorsParams`
unfoldable pub list_common_colors_params : Request → Result Error SortParams
unfolding given_sort given_order
list_common_colors_params req = and_then (given_sort (req.query (codes "sort"))) λ sort.
    on_ok (λ desc. record { sort = sort; desc = desc }) (given_order (req.query (codes "order")))

cached : Response → Response
cached r = record r { headers = (codes "Cache-Control", static_cache_control) ∷ r.headers }

listed : Result Error (List Common) → Response
unfolding cached
listed (ok common) = cached (reply 200 (common_colors (map (λ c. (c.hex, c.name)) common)))
listed (err e) = reply 500 (reason e)

answered : Result Error SortParams → Response
unfolding listed
answered (ok params) = listed (list params)
answered (err e) = request_error e

-- `HandleListCommonColors`
unfoldable pub handle_list_common_colors : Request → Response
unfolding answered
handle_list_common_colors req = answered (list_common_colors_params req)

-- `HandleListShades`
unfoldable pub handle_list_shades : Response
unfolding cached
handle_list_shades =
    cached (
      reply 200
        (shade_families (map (λ f. (f.name, map (λ c. (c.hex, c.name)) f.colors)) families)))
