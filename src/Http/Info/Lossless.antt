-- ===== src/Http/Info/Lossless.antt =====
-- The answers of internal/handlers/info_handler.go.
use wavelen.Prelude.{
  ◌<◌, Bytes, codes, Option, some, [], ◌∷◌, ◌≡◌, ◌⊎◌, inl, inr, refl, ok, err, Result-cases,
}
use wavelen.Errors.{Error}
use wavelen.Domain.Names.{Validation}
use wavelen.Color.Hex.{hex_of_bytes}
use wavelen.Color.Floats.{Arithmetic}
use wavelen.Color.Info.Lossless.{describe-Keeps}
use wavelen.Http.Message.{Request, request_error, hex_from_path}
use wavelen.Http.Catalog.{static_cache_control}
use wavelen.Http.Harmony.Answers.{hex_from_path-is_hex}
use wavelen.Http.Info.{
  ColorInfoResp, InfoReply, refused, described, color_info_resp, info_of, handle_color_info,
}

module _ (R : Type 0) ⦃arithmetic : Arithmetic R⦄ (v : Validation) where
  -- A refused color, or the values of an accepted one.
  abbrev pub Informs : Request → Option (InfoReply R) → Type 0
  Informs req o =
      ((e : Error) × (hex_from_path v req ≡ err e) × (o ≡ some (refused (request_error e))))
      ⊎ ((hex : Bytes) × (resp : ColorInfoResp R) × (hex_from_path v req ≡ ok hex)
          × (o ≡ some (described ((codes "Cache-Control", static_cache_control) ∷ []) resp))
          × (resp.hex ≡ hex)
          × (hex_of_bytes resp.rgb.r resp.rgb.g resp.rgb.b ≡ hex)
          × (resp.hsl.h < 360)
          × (resp.hsv.h < 360)
          × (resp.oklch.h < 360))

  -- The handler answers every request, without a panic: a bad color is a request error; for an
  -- accepted one the red, green and blue that it writes are those of the code, and the three hues
  -- are below 360.
  pub handle_color_info-Informs : (req : Request) → Informs req (handle_color_info R v req)
  unfolding handle_color_info info_of color_info_resp
  handle_color_info-Informs req = elim (Result-cases (hex_from_path v req)) [
    | inr (e, bad) ↦ inl (e, bad, rw bad refl)
    | inl (hex, he) ↦
        let (info, ie, k) = describe-Keeps R hex (hex_from_path-is_hex v req hex he) in
        inr (hex, color_info_resp info, he, rw (he, ie) refl, k.0, k.1, k.2, k.3, k.4)
  ]
