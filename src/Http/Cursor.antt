-- ===== src/Http/Cursor.antt =====
-- internal/handlers/cursor.go: a cursor is base64url("<sort>|<order>|<key…>"), unpadded.
pub mod RoundTrip
use wavelen.Prelude.{
  ℕ, Bytes, codes, not, ◌&&◌, ◌||◌, Option, none, some, List, [], ◌∷◌, ◌==◌, bytes_eq,
  if◌then◌else◌, Result, ok, err, ◌≡◌, on_ok,
}
use wavelen.Errors.{Error, invalid_cursor}
use wavelen.Color.Hex.{Parser}
use wavelen.Encoding.Base64.{encode, decode, AreBytes}
use wavelen.Encoding.Parts.{split, join, Lacks}
use wavelen.Storage.Schema.{Color}
use wavelen.Storage.Colors.Sorting.{ColorCursor, sort_by_created_at, sort_by_hex, sort_by_color}

-- Times as RFC 3339 texts with nanoseconds (`time.Format`, `time.Parse`): a text of ASCII
-- characters without '|', which parses to the time that it was made from.
pub record TimeText : Type 0 where
  pub format : ℕ → Bytes
  pub parse : Bytes → Result Bytes ℕ
  pub parse-format : (t : ℕ) → parse (format t) ≡ ok t
  pub plain : (t : ℕ) → Lacks b'|' (format t)
  pub ascii : (t : ℕ) → AreBytes (format t)

-- The zero `time.Time` of a cursor that carries none.
abbrev pub no_time : ℕ
no_time = 0

module _ (times : TimeText) where
  -- `cursorKey`
  unfoldable pub cursor_key : Bytes → Color → List Bytes
  cursor_key sort last =
      if sort == sort_by_created_at
      then times.format last.created_at ∷ last.hex ∷ []
      else if sort == sort_by_hex || sort == sort_by_color
      then last.hex ∷ []
      else []

  -- `encodeCursor`
  unfoldable pub encode_cursor : Bytes → Bytes → Color → Bytes
  unfolding cursor_key
  encode_cursor sort order last = encode (join b'|' (sort ∷ order ∷ cursor_key sort last))

module _ (times : TimeText) (parser : Parser) where
  hex_of : ℕ → Result Bytes Bytes → Result Error ColorCursor
  hex_of t (ok hex) = ok (record { created_at = t; hex = hex })
  hex_of t (err e) = err invalid_cursor

  timed : Bytes → Result Bytes ℕ → Result Error ColorCursor
  unfolding hex_of
  timed hex (ok t) = hex_of t (parser.parse_hex hex)
  timed hex (err e) = err invalid_cursor

  time_and_hex : List Bytes → Result Error ColorCursor
  unfolding timed
  time_and_hex (t ∷ hex ∷ []) = timed hex (times.parse t)
  time_and_hex _ = err invalid_cursor

  only_hex : List Bytes → Result Error ColorCursor
  unfolding hex_of
  only_hex (hex ∷ []) = hex_of no_time (parser.parse_hex hex)
  only_hex _ = err invalid_cursor

  -- The switch on the sort.
  decode_key : Bytes → List Bytes → Result Error ColorCursor
  unfolding time_and_hex only_hex
  decode_key sort key =
      if sort == sort_by_created_at
      then time_and_hex key
      else if sort == sort_by_hex || sort == sort_by_color
      then only_hex key
      else err invalid_cursor

  decode_parts : Bytes → Bytes → List Bytes → Result Error ColorCursor
  unfolding decode_key
  decode_parts sort order (got_sort ∷ got_order ∷ part ∷ parts) =
      if not (got_sort == sort) || not (got_order == order)
      then err invalid_cursor
      else decode_key sort (part ∷ parts)
  decode_parts sort order _ = err invalid_cursor

  decoded : Bytes → Bytes → Option Bytes → Result Error ColorCursor
  unfolding decode_parts
  decoded sort order none = err invalid_cursor
  decoded sort order (some raw) = decode_parts sort order (split b'|' raw)

  -- `decodeCursor`: `sort` and `order` are those that the request asks for.
  unfoldable pub decode_cursor : Bytes → Bytes → Bytes → Result Error ColorCursor
  unfolding decoded
  decode_cursor token sort order = decoded sort order (decode token)
