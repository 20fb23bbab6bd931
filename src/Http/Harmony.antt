-- ===== src/Http/Harmony.antt =====
-- internal/handlers/harmony_handler.go: the harmonies of a color. A response is `none` where the
-- handler would panic.
pub mod Answers
use wavelen.Prelude.{
  Bytes, codes, Bool, Option, some, List, [], ◌∷◌, ◌++◌, ◌==◌, bytes_eq, if◌then◌else◌, Result, ok,
  err,
}
use wavelen.Errors.{Error}
use wavelen.Domain.Names.{Validation}
use wavelen.Color.Floats.{Arithmetic}
use wavelen.Color.Oklab.{after}
use wavelen.Color.Derive.{Space}
use wavelen.Color.Harmonies.{harmony_names, parse_harmony, parse_space, default_space, colors}
use wavelen.Http.Message.{
  Request, Response, request_error, reply, one_of, harmony_colors, hex_from_path,
}
use wavelen.Http.Catalog.{static_cache_control}

-- `strings.Join(…, ", ")`
unfoldable pub joined : List Bytes → Bytes
joined [] = []
joined (n ∷ []) = n
joined (n ∷ m ∷ rest) = n ++ codes ", " ++ joined (m ∷ rest)

-- The space of the query, `DefSpace` where it is missing.
unfoldable pub space_from_query : Request → Result Error Space
space_from_query req =
    let raw = req.query (codes "space") in if raw == [] then ok default_space else parse_space raw

module _ (R : Type 0) ⦃arithmetic : Arithmetic R⦄ where
  -- `harmonyNameList`
  unfoldable pub harmony_name_list : Bytes
  harmony_name_list = joined (harmony_names R)

  abbrev pub harmony_response : Bytes → Bytes → Space → List Bytes → Response
  harmony_response hex harmony space hs = record {
    status = 200;
    headers = (codes "Cache-Control", static_cache_control) ∷ [];
    body = harmony_colors hex harmony space hs;
  }

  unfoldable pub in_space : Bytes → Bytes → Result Error Space → Option Response
  in_space hex harmony (err e) = some (request_error e)
  in_space hex harmony (ok space) =
      after (colors R harmony space hex) λ hs. some (harmony_response hex harmony space hs)

  unfoldable pub with_harmony : Request → Bytes → Result Error Bytes → Option Response
  unfolding in_space
  with_harmony req hex (err e) = some (reply 404 (one_of e harmony_name_list))
  with_harmony req hex (ok harmony) = in_space hex harmony (space_from_query req)

  unfoldable pub with_hex : Request → Result Error Bytes → Option Response
  unfolding with_harmony
  with_hex req (err e) = some (request_error e)
  with_hex req (ok hex) = with_harmony req hex (parse_harmony R req.path_harmony)

  -- `HandleHarmony`
  unfoldable pub handle_harmony : Validation → Request → Option Response
  unfolding with_hex
  handle_harmony v req = with_hex req (hex_from_path v req)
