-- ===== src/Http/Message.antt =====
-- internal/handlers/handler.go: requests, responses and the mapping of errors to statuses. The
-- package httputils is not under the repository; what a handler gets from it (a decoded body, a
-- checked number) is a part of the request, and what it writes is a status and a body.
use wavelen.Prelude.{
  ℕ, Bytes, codes, List, [], any, ◌==◌, nat_eq, if◌then◌else◌, Option, Result, ok, err,
}
use wavelen.Errors.{
  Error, max_bytes, user_not_found, not_found, duplicate_nickname, invalid_credentials,
  color_quota_full, collection_quota_full, delete_default, hex_with_hash, is,
}
use wavelen.Color.Hex.{new_hex}
use wavelen.Domain.Names.{Validation, parse_id}
use wavelen.Storage.Schema.{Collection, Color}
use wavelen.Storage.Actions.{World, Action, M, raise, pure, rescue}

-- The JSON bodies, by the response types that they are made of.
pub data Body : Type 0 where
  empty : Body
  -- `httputils.WriteError`: a fixed text, or the error itself
  message : Bytes → Body
  reason : Error → Body
  saved_hex : Bytes → Body
  color_list : List Color → ℕ → Option Bytes → Body
  one_collection : Collection → Body
  collection_list : List Collection → Body
  account_of : Bytes → ℕ → Body
  token : Bytes → ℕ → Body
  common_colors : List (Bytes × Bytes) → Body
  shade_families : List (Bytes × List (Bytes × Bytes)) → Body
  -- `HarmonyResp`, and a refused name with the names there are
  harmony_colors : Bytes → Bytes → Bytes → List Bytes → Body
  one_of : Error → Bytes → Body
  -- `HealthResp` and `VersionResp`
  health : Bytes → Option Bytes → Body
  version : Bytes → Body
  export_of : Bytes → ℕ → ℕ → List (Collection × List Color) → Body

pub record Response : Type 0 where
  pub status : ℕ
  pub headers : List (Bytes × Bytes)
  pub body : Body

abbrev pub reply : ℕ → Body → Response
reply status body = record { status = status; headers = []; body = body }

-- A request as its handler sees it: the path values, the query (`""` where a name is missing),
-- what `httputils.ReadJSON` and `httputils.ParseIntQuery` answer, and the hash that the
-- authentication put into the context.
pub record Request : Type 0 where
  pub path_id : Bytes
  pub path_hex : Bytes
  pub path_harmony : Bytes
  pub query : Bytes → Bytes
  pub limit : Result Error ℕ
  pub authorization : Bytes
  pub token_hash : Option Bytes

-- A handler may stop early with its response.
abbrev pub Handler : Type 0
Handler = Action Response Response

abbrev pub finished : Result Response Response × World → Response × World
finished (ok r, w) = (r, w)
finished (err r, w) = (r, w)

abbrev pub answer : Handler → World → Response × World
answer h w = finished (h w)

-- `writeRequestError`
unfoldable pub request_error : Error → Response
unfolding is
request_error e =
    if is e max_bytes
    then reply 413 (message (codes "request body too large"))
    else reply 400 (reason e)

-- `writeStorageError`
unfoldable pub storage_error_reply : Error → Response
unfolding is
storage_error_reply e =
    if is e user_not_found
    then reply 404 (message (codes "user not found"))
    else if is e not_found
    then reply 404 (message (codes "not found"))
    else if is e duplicate_nickname
    then reply 409 (message (codes "nickname already taken"))
    else if is e invalid_credentials
    then reply 401 (message (codes "invalid credentials"))
    else if is e color_quota_full
    then reply 409 (message (codes "color quota full"))
    else if is e collection_quota_full
    then reply 409 (message (codes "collection quota full"))
    else if is e delete_default
    then reply 409 (message (codes "default collection cannot be deleted"))
    else reply 500 (reason e)

module _ {A : Type 0} where
  -- A check of the request: an error ends the handler.
  abbrev pub check : Result Error A → Action Response A
  check (ok a) = pure a
  check (err e) = raise (request_error e)

  -- A call of a service: an error ends the handler.
  abbrev pub call : M A → Action Response A
  call m = rescue storage_error_reply m

-- `collectionIDFromPath`
abbrev pub collection_id_from_path : Validation → Request → Result Error ℕ
collection_id_from_path v req = parse_id v req.path_id

-- `hexFromPath`: a '#' is refused before the code is parsed.
unfoldable pub hex_from_path : Validation → Request → Result Error Bytes
hex_from_path v req =
    if any (λ c. c == b'#') req.path_hex then err hex_with_hash else new_hex v.hex req.path_hex
