-- ===== src/Server/Routes.antt =====
-- internal/server/routes.go: the routes, and what serves the ones that need a token. The matching
-- of patterns is that of `http.ServeMux`, which is not under the repository.
pub mod Guarded
use wavelen.Prelude.{ℕ, String, Bytes, codes, List, [], ◌∷◌, Result}
use wavelen.Errors.{Error}
use wavelen.Domain.Auth.{Hashing}
use wavelen.Http.Message.{Request, Handler}
use wavelen.Http.Auth.{authenticate}
use wavelen.Http.Colors.{
  ColorConfig, handle_add_color, handle_list_colors, handle_delete_color, handle_delete_all_colors,
}
use wavelen.Http.Collections.{
  CreateReq, UpdateReq, handle_create_collection, handle_list_collections, handle_get_collection,
  handle_update_collection, handle_delete_collection,
}
use wavelen.Http.Users.{handle_get_me, handle_delete_me, handle_export}
use wavelen.Http.Tokens.{handle_delete_token}

-- The handlers behind `authed`.
pub data Authed : Type 0 where
  delete_token get_me delete_me export : Authed
  list_collections create_collection get_collection update_collection delete_collection : Authed
  list_colors add_color delete_all_colors delete_color : Authed

-- What stands behind a route: `authed` or `bcryptLimited` around a handler, or a handler alone.
pub data Endpoint : Type 0 where
  authed : Authed → Endpoint
  limited_create_user limited_create_token : Endpoint
  live ready version static_files css open_color color_info harmony : Endpoint

pub record Route : Type 0 where
  pub method : Bytes
  pub path : Bytes
  pub endpoint : Endpoint

abbrev route : String → String → Endpoint → Route
route method path endpoint = record {
  method = codes method;
  path = codes path;
  endpoint = endpoint;
}

-- `newMux`
unfoldable pub routes : List Route
routes =
    route "GET" "/livez" live
    ∷ route "GET" "/readyz" ready
    ∷ route "GET" "/api/v1/version" version
    ∷ route "" "/" static_files
    ∷ route "POST" "/api/v1/users" limited_create_user
    ∷ route "POST" "/api/v1/tokens" limited_create_token
    ∷ route "DELETE" "/api/v1/tokens" (authed delete_token)
    ∷ route "GET" "/api/v1/me" (authed get_me)
    ∷ route "DELETE" "/api/v1/me" (authed delete_me)
    ∷ route "GET" "/api/v1/me/export" (authed export)
    ∷ route "GET" "/api/v1/me/collections" (authed list_collections)
    ∷ route "POST" "/api/v1/me/collections" (authed create_collection)
    ∷ route "GET" "/api/v1/me/collections/{id}" (authed get_collection)
    ∷ route "PATCH" "/api/v1/me/collections/{id}" (authed update_collection)
    ∷ route "DELETE" "/api/v1/me/collections/{id}" (authed delete_collection)
    ∷ route "GET" "/api/v1/me/collections/{id}/colors" (authed list_colors)
    ∷ route "POST" "/api/v1/me/collections/{id}/colors" (authed add_color)
    ∷ route "DELETE" "/api/v1/me/collections/{id}/colors" (authed delete_all_colors)
    ∷ route "DELETE" "/api/v1/me/collections/{id}/colors/{hex}" (authed delete_color)
    ∷ route "GET" "/api/v1/palettes/css" css
    ∷ route "GET" "/api/v1/palettes/open-color" open_color
    ∷ route "GET" "/api/v1/colors/{hex}/info" color_info
    ∷ route "GET" "/api/v1/colors/{hex}/harmonies/{harmony}" harmony
    ∷ []

-- What the handlers are made with: `HandlerConfig`, and the library code that they call.
pub record Wiring : Type 0 where
  pub colors : ColorConfig
  pub collection_quota : ℕ
  pub hashing : Hashing
  -- the time stamp in the name of an export
  pub compact : ℕ → Bytes

-- What `httputils.ReadJSON` makes of the body, for each type that a handler asks for.
pub record Bodies : Type 0 where
  pub color : Result Error Bytes
  pub created : Result Error CreateReq
  pub updated : Result Error UpdateReq

module _ (wiring : Wiring) (bodies : Bodies) where
  open wiring use {colors, collection_quota, hashing, compact}
  open bodies use {color, created, updated}

  unfoldable pub authed_handler : Authed → Request → ℕ → Handler
  authed_handler delete_token req = handle_delete_token req
  authed_handler get_me req = handle_get_me
  authed_handler delete_me req = handle_delete_me
  authed_handler export req = handle_export compact
  authed_handler list_collections req =
      handle_list_collections colors.validation collection_quota req
  authed_handler create_collection req =
      handle_create_collection colors.validation collection_quota req created
  authed_handler get_collection req = handle_get_collection colors.validation collection_quota req
  authed_handler update_collection req =
      handle_update_collection colors.validation collection_quota req updated
  authed_handler delete_collection req =
      handle_delete_collection colors.validation collection_quota req
  authed_handler list_colors req = handle_list_colors colors req
  authed_handler add_color req = handle_add_color colors req color
  authed_handler delete_all_colors req = handle_delete_all_colors colors req
  authed_handler delete_color req = handle_delete_color colors req

  -- `authed(…)`, as `authenticate(s)` wraps it
  unfoldable pub serve_authed : Authed → Request → Handler
  unfolding authed_handler
  serve_authed a = authenticate hashing (authed_handler a)
