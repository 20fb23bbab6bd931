-- ===== src/Http/Info.antt =====
-- internal/handlers/info_handler.go: everything about one color. A response is `none` where the
-- handler would panic.
pub mod Lossless
use wavelen.Prelude.{ℕ, Bytes, codes, Option, some, List, [], ◌∷◌, Result, ok, err}
use wavelen.Errors.{Error}
use wavelen.Domain.Names.{Validation}
use wavelen.Color.Floats.{Arithmetic}
use wavelen.Color.Oklab.{after}
use wavelen.Color.Contrast.{Contrast}
use wavelen.Color.Info.{Rgb, Hsl, Hsv, OkLabCh, Info, describe}
use wavelen.Http.Message.{Request, Response, request_error, hex_from_path}
use wavelen.Http.Catalog.{static_cache_control}

-- `RGBResp`
pub record RgbResp : Type 0 where
  pub r : ℕ
  pub g : ℕ
  pub b : ℕ

-- `HSLResp`
pub record HslResp : Type 0 where
  pub h : ℕ
  pub s : ℕ
  pub l : ℕ

-- `HSVResp`
pub record HsvResp : Type 0 where
  pub h : ℕ
  pub s : ℕ
  pub v : ℕ

-- `OkLChResp`
pub record OkLchResp (R : Type 0) : Type 0 where
  pub l : R
  pub c : R
  pub h : ℕ

-- `ContrastResp`
pub record ContrastResp (R : Type 0) : Type 0 where
  pub ratio : R
  pub level : Bytes

-- `ContrastsResp`
pub record ContrastsResp (R : Type 0) : Type 0 where
  pub white : ContrastResp R
  pub black : ContrastResp R

-- `ColorInfoResp`
pub record ColorInfoResp (R : Type 0) : Type 0 where
  pub hex : Bytes
  pub rgb : RgbResp
  pub hsl : HslResp
  pub hsv : HsvResp
  pub oklch : OkLchResp R
  pub contrast : ContrastsResp R

-- The error response, or 200 with the headers and the values.
pub data InfoReply (R : Type 0) : Type 0 where
  refused : Response → InfoReply R
  described : List (Bytes × Bytes) → ColorInfoResp R → InfoReply R

module _ {R : Type 0} where
  -- `contrastResp`
  unfoldable pub contrast_resp : Contrast R → ContrastResp R
  contrast_resp c = record { ratio = c.ratio; level = c.level }

  -- `colorInfoResp`
  unfoldable pub color_info_resp : Info R → ColorInfoResp R
  color_info_resp info = record {
    hex = info.hex;
    rgb = record { r = info.rgb.r; g = info.rgb.g; b = info.rgb.b };
    hsl = record { h = info.hsl.hue; s = info.hsl.saturation; l = info.hsl.lightness };
    hsv = record { h = info.hsv.hue; s = info.hsv.saturation; v = info.hsv.value };
    oklch = record { l = info.oklch.lightness; c = info.oklch.chroma; h = info.oklch.hue };
    contrast = record {
      white = contrast_resp info.against_white;
      black = contrast_resp info.against_black;
    };
  }

module _ (R : Type 0) ⦃arithmetic : Arithmetic R⦄ where
  unfoldable pub info_of : Result Error Bytes → Option (InfoReply R)
  info_of (err e) = some (refused (request_error e))
  info_of (ok hex) = after (describe hex) λ info.
      some (described ((codes "Cache-Control", static_cache_control) ∷ []) (color_info_resp info))

  -- `HandleColorInfo`
  unfoldable pub handle_color_info : Validation → Request → Option (InfoReply R)
  unfolding info_of
  handle_color_info v req = info_of (hex_from_path v req)
