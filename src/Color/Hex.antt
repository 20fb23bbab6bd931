-- ===== src/Color/Hex.antt =====
-- internal/color/hex.go and the digits of `srgbToHex` (internal/color/oklab.go): a hex code
-- "#rrggbb" and its channels. `strvalid.ParseHex` is not under the repository: `Parser`.
pub mod Channels
use wavelen.Prelude.{
  ℕ, zero, suc, ◌+◌, ◌-◌, ◌*◌, ◌/◌, ◌%◌, Bytes, codes, Bool, true, false, ◌&&◌, ◌||◌, Option, none,
  some, List, [], ◌∷◌, leb, ◌==◌, nat_eq, if◌then◌else◌, length, get_elem?, all, ◌≡◌, Result, ok,
  err, on_err,
}
use wavelen.Errors.{Error, invalid}

-- `HexLen`
abbrev pub hex_len : ℕ
hex_len = 7

-- A digit of a normalized code.
unfoldable pub is_hex_digit : ℕ → Bool
is_hex_digit c = (leb b'0' c && leb c b'9') || (leb b'a' c && leb c b'f')

-- '^#[0-9a-f]{6}$', the form of a normalized code and the CHECK of collection_colors.
unfoldable pub is_hex : Bytes → Bool
is_hex [] = false
is_hex (c ∷ digits) = (c == b'#') && ((length digits == 6) && all is_hex_digit digits)

-- `hexDigit`: 0 for any other byte.
unfoldable pub hex_digit : ℕ → ℕ
hex_digit c =
    if leb b'0' c && leb c b'9'
    then c - b'0'
    else if leb b'a' c && leb c b'f'
    then c - b'a' + 10
    else 0

-- `h[i]`, read where `h` is long enough; past its end the program panics: `none`.
pair_value : Option ℕ → Option ℕ → Option ℕ
pair_value (some hi) (some lo) = some (hex_digit hi * 16 + hex_digit lo)
pair_value _ _ = none

-- `channelByte`. The low digit is below 16, so `|` adds it.
unfoldable pub channel_byte : Bytes → ℕ → Option ℕ
unfolding pair_value
channel_byte h i = pair_value (get_elem? h i) (get_elem? h (suc i))

abbrev pub r_byte : Bytes → Option ℕ
r_byte h = channel_byte h 1

abbrev pub g_byte : Bytes → Option ℕ
g_byte h = channel_byte h 3

abbrev pub b_byte : Bytes → Option ℕ
b_byte h = channel_byte h 5

-- `digits[v]` for v < 16.
unfoldable pub digit_of : ℕ → ℕ
digit_of v = if leb v 9 then b'0' + v else b'a' + (v - 10)

-- `srgbToHex`, after `quantize`: v >> 4 and v & 0xf are the digits of a channel below 256.
unfoldable pub hex_of_bytes : ℕ → ℕ → ℕ → Bytes
hex_of_bytes r g b =
    b'#'
    ∷ digit_of (r / 16)
    ∷ digit_of (r % 16)
    ∷ digit_of (g / 16)
    ∷ digit_of (g % 16)
    ∷ digit_of (b / 16)
    ∷ digit_of (b % 16)
    ∷ []

-- `strvalid.ParseHex` under `hexCfg`: it trims, lowercases and adds the '#'. It answers a
-- normalized code or the text of an error, and a normalized code is left alone.
pub record Parser : Type 0 where
  pub parse_hex : Bytes → Result Bytes Bytes
  pub normalizes : (s h : Bytes) → parse_hex s ≡ ok h → is_hex h ≡ true
  pub keeps : (h : Bytes) → is_hex h ≡ true → parse_hex h ≡ ok h

-- `NewHex`
unfoldable pub new_hex : Parser → Bytes → Result Error Bytes
new_hex p s = on_err invalid (p.parse_hex s)
