-- ===== src/Http/Harmony/Answers.antt =====
-- The answers of internal/handlers/harmony_handler.go.
use wavelen.Prelude.{
  ◌<◌, Bytes, true, Option, some, List, length, all, ◌≡◌, ◌⊎◌, inl, inr, refl, ok, err,
  Result-cases, nat_eq, arith,
}
use wavelen.Errors.{Error}
use wavelen.Domain.Names.{Validation}
use wavelen.Color.Hex.{is_hex, Parser, new_hex}
use wavelen.Color.Floats.{Arithmetic}
use wavelen.Color.Derive.{Space}
use wavelen.Color.Harmonies.{parse_harmony}
use wavelen.Color.Harmonies.Yields.{colors-parse_harmony}
use wavelen.Http.Message.{Request, Response, request_error, reply, one_of, hex_from_path}
use wavelen.Http.Harmony.{
  space_from_query, harmony_name_list, harmony_response, in_space, with_harmony, with_hex,
  handle_harmony,
}

new_hex-is_hex : (p : Parser) (s h : Bytes) → new_hex p s ≡ ok h → is_hex h ≡ true
unfolding new_hex
new_hex-is_hex p s h e = elim (Result-cases (p.parse_hex s)) [
  | inl (c, ce) ↦ ground (arith, p.normalizes s c ce)
  | inr (x, xe) ↦ ground arith
]

-- A color in the path is normalized.
pub hex_from_path-is_hex :
    (v : Validation) (req : Request) (h : Bytes) → hex_from_path v req ≡ ok h → is_hex h ≡ true
unfolding hex_from_path
hex_from_path-is_hex v req h e = ground (arith, new_hex-is_hex v.hex req.path_hex h)

module _ (R : Type 0) ⦃arithmetic : Arithmetic R⦄ (v : Validation) where
  -- The answers by what is wrong with the request, if anything.
  abbrev pub Answered : Request → Option Response → Type 0
  Answered req o =
      ((e : Error) × (hex_from_path v req ≡ err e) × (o ≡ some (request_error e)))
      ⊎ ((e : Error) × (hex : Bytes) × (hex_from_path v req ≡ ok hex)
          × (parse_harmony R req.path_harmony ≡ err e)
          × (o ≡ some (reply 404 (one_of e (harmony_name_list R)))))
      ⊎ ((e : Error) × (hex : Bytes) × (harmony : Bytes) × (hex_from_path v req ≡ ok hex)
          × (parse_harmony R req.path_harmony ≡ ok harmony)
          × (space_from_query req ≡ err e)
          × (o ≡ some (request_error e)))
      ⊎ ((hex : Bytes) × (harmony : Bytes) × (space : Space) × (hs : List Bytes) × (hex_from_path v
              req
            ≡ ok hex)
          × (parse_harmony R req.path_harmony ≡ ok harmony)
          × (space_from_query req ≡ ok space)
          × (o ≡ some (harmony_response R hex harmony space hs))
          × (0 < length hs)
          × (all is_hex hs ≡ true))

  -- The handler answers every request, without a panic. It looks first at the color, then at
  -- the harmony, then at the space: a request error for a bad color or space, 404 with the names
  -- for an unknown harmony, and else 200 with normalized colors, at least one.
  pub handle_harmony-Answered : (req : Request) → Answered req (handle_harmony R v req)
  unfolding handle_harmony with_hex with_harmony in_space
  handle_harmony-Answered req = elim (Result-cases (hex_from_path v req)) [
    | inr (e, bad_hex) ↦ inl (e, bad_hex, rw bad_hex refl)
    | inl (hex, he) ↦ elim (Result-cases (parse_harmony R req.path_harmony)) [
      | inr (e, unknown) ↦ inr (inl (e, hex, he, unknown, rw (he, unknown) refl))
      | inl (harmony, ne) ↦ elim (Result-cases (space_from_query req)) [
        | inr (e, bad_space) ↦
            inr (inr (inl (e, hex, harmony, he, ne, bad_space, rw (he, ne, bad_space) refl)))
        | inl (space, se) ↦
            let (row, hs, found, ce, len, pos, codes) =
              colors-parse_harmony R req.path_harmony harmony space hex ne
                (hex_from_path-is_hex v req hex he) in
            inr (
              inr (inr (hex, harmony, space, hs, he, ne, se, rw (he, ne, se, ce) refl, pos, codes)))
      ]
    ]
  ]
