-- ===== src/Color/Hex/Channels.antt =====
-- Writing a code from its channels and reading it (internal/color/hex.go).
use wavelen.Prelude.{ℕ, ◌+◌, ◌*◌, ◌/◌, ◌%◌, ◌<◌, true, some, ◌≡◌, ap, arith}
use wavelen.Color.Hex.{
  is_hex_digit, is_hex, hex_digit, channel_byte, r_byte, g_byte, b_byte, digit_of, hex_of_bytes,
}

hex_digit-digit_of : (v : ℕ) → v < 16 → hex_digit (digit_of v) ≡ v
unfolding hex_digit digit_of
hex_digit-digit_of v h = ground arith

digit_of-is_hex_digit : (v : ℕ) → v < 16 → is_hex_digit (digit_of v) ≡ true
unfolding is_hex_digit digit_of
digit_of-is_hex_digit v h = ground arith

channel_value :
    (v : ℕ) → v < 256 → hex_digit (digit_of (v / 16)) * 16 + hex_digit (digit_of (v % 16)) ≡ v
channel_value v h =
    omega
      (arith, hex_digit-digit_of (v / 16) (omega arith), hex_digit-digit_of (v % 16) (omega arith))

-- For channels below 256, the written code reads back as the three channels.
pub channel_byte-hex_of_bytes :
    (r g b : ℕ)
    → r < 256
    → g < 256
    → b < 256
    → (r_byte (hex_of_bytes r g b) ≡ some r)
      × (g_byte (hex_of_bytes r g b) ≡ some g)
      × (b_byte (hex_of_bytes r g b) ≡ some b)
unfolding channel_byte hex_of_bytes
channel_byte-hex_of_bytes r g b hr hg hb =
    (ap some (channel_value r hr), ap some (channel_value g hg), ap some (channel_value b hb))

-- For channels below 256, the written code is a normalized one.
pub hex_of_bytes-is_hex :
    (r g b : ℕ) → r < 256 → g < 256 → b < 256 → is_hex (hex_of_bytes r g b) ≡ true
unfolding is_hex hex_of_bytes
hex_of_bytes-is_hex r g b hr hg hb = ground (
  arith,
  digit_of-is_hex_digit (r / 16) (omega arith),
  digit_of-is_hex_digit (r % 16) (omega arith),
  digit_of-is_hex_digit (g / 16) (omega arith),
  digit_of-is_hex_digit (g % 16) (omega arith),
  digit_of-is_hex_digit (b / 16) (omega arith),
  digit_of-is_hex_digit (b % 16) (omega arith),
)
