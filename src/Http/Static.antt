-- ===== src/Http/Static.antt =====
-- internal/handlers/static_handler.go: the files of the user interface. `http.FileServerFS`,
-- `http.NotFound` and `strconv.Quote` are not under the repository: `FileServer`.
use wavelen.Prelude.{Bytes, codes, not, ◌&&◌, List, [], ◌∷◌, ◌==◌, bytes_eq, if◌then◌else◌}
use wavelen.Http.Message.{Response}

-- What answers a request for a path, given the headers that are set already.
pub record FileServer : Type 0 where
  pub serve : List (Bytes × Bytes) → Bytes → Response
  pub not_found : List (Bytes × Bytes) → Bytes → Response
  pub quote : Bytes → Bytes

-- `version.Dev`
abbrev pub dev : Bytes
dev = codes "dev"

-- The method and the path of a request.
pub record Target : Type 0 where
  pub method : Bytes
  pub path : Bytes

module _ (files : FileServer) where
  -- `readOnly`
  unfoldable pub read_only : List (Bytes × Bytes) → Target → Response
  read_only headers req =
      if not (req.method == codes "GET") && not (req.method == codes "HEAD")
      then files.not_found headers req.path
      else files.serve headers req.path

  abbrev pub cache_headers : Bytes → List (Bytes × Bytes)
  cache_headers build =
      (codes "Etag", files.quote build) ∷ (codes "Cache-Control", codes "no-cache") ∷ []

  -- `NewStaticHandler`, for the version of the build
  unfoldable pub static_handler : Bytes → Target → Response
  unfolding read_only
  static_handler build req =
      if build == dev then read_only [] req else read_only (cache_headers build) req
