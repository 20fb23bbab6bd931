-- ===== src/Encoding/Base64.antt =====
-- base64.RawURLEncoding of the Go library: the alphabet of RFC 4648 section 5 without padding.
-- The decoder skips line ends and does not look at the spare bits of the last group.
use wavelen.Prelude.{
  ℕ, ◌+◌, ◌-◌, ◌*◌, ◌/◌, ◌%◌, ◌<◌, Bytes, false, ◌&&◌, ◌||◌, Option, none, some, List, [], ◌∷◌,
  ◌++◌, ltb, leb, ◌==◌, nat_eq, if◌then◌else◌, ◌≡◌, refl, arith,
}

digit : ℕ → ℕ
digit v =
    if ltb v 26
    then b'A' + v
    else if ltb v 52
    then b'a' + (v - 26)
    else if ltb v 62
    then b'0' + (v - 52)
    else if v == 62
    then b'-'
    else b'_'

unfoldable pub encode : Bytes → Bytes
unfolding digit
encode [] = []
encode (a ∷ []) = digit (a / 4) ∷ digit (a % 4 * 16) ∷ []
encode (a ∷ b ∷ []) = digit (a / 4) ∷ digit (a % 4 * 16 + b / 16) ∷ digit (b % 16 * 4) ∷ []
encode (a ∷ b ∷ c ∷ rest) =
    digit (a / 4)
    ∷ digit (a % 4 * 16 + b / 16)
    ∷ digit (b % 16 * 4 + c / 64)
    ∷ digit (c % 64)
    ∷ encode rest

value : ℕ → Option ℕ
value c =
    if leb b'A' c && leb c b'Z'
    then some (c - b'A')
    else if leb b'a' c && leb c b'z'
    then some (c - b'a' + 26)
    else if leb b'0' c && leb c b'9'
    then some (c - b'0' + 52)
    else if c == b'-'
    then some 62
    else if c == b'_'
    then some 63
    else none

both : Option ℕ → Option (List ℕ) → Option (List ℕ)
both (some v) (some vs) = some (v ∷ vs)
both _ _ = none

-- The values of the characters, line ends left out.
values : Bytes → Option (List ℕ)
unfolding value both
values [] = some []
values (c ∷ s) = let rest = values s in if c == 10 || c == 13 then rest else both (value c) rest

prefix : Bytes → Option Bytes → Option Bytes
prefix out none = none
prefix out (some rest) = some (out ++ rest)

group : List ℕ → Option Bytes
unfolding prefix
group [] = some []
group (x ∷ []) = none
group (x ∷ y ∷ []) = some ((x * 4 + y / 16) ∷ [])
group (x ∷ y ∷ z ∷ []) = some ((x * 4 + y / 16) ∷ (y % 16 * 16 + z / 4) ∷ [])
group (x ∷ y ∷ z ∷ t ∷ rest) =
    prefix ((x * 4 + y / 16) ∷ (y % 16 * 16 + z / 4) ∷ (z % 4 * 64 + t) ∷ []) (group rest)

grouped : Option (List ℕ) → Option Bytes
grouped none = none
grouped (some vs) = group vs

unfoldable pub decode : Bytes → Option Bytes
unfolding values group grouped
decode s = grouped (values s)

abbrev pub AreBytes : Bytes → Type 0
AreBytes [] = Unit
AreBytes (b ∷ s) = (b < 256) × AreBytes s

value-digit : (v : ℕ) → v < 64 → value (digit v) ≡ some v
unfolding value digit
value-digit v h = ground arith

digit-printable : (v : ℕ) → v < 64 → (digit v == 10 || digit v == 13) ≡ false
unfolding digit
digit-printable v h = ground arith

values-digit :
    (v : ℕ) (s : Bytes) (vs : List ℕ)
    → v < 64
    → values s ≡ some vs
    → values (digit v ∷ s) ≡ some (v ∷ vs)
unfolding values
values-digit v s vs h e = rw (digit-printable v h, value-digit v h, e)

sextets : Bytes → List ℕ
sextets [] = []
sextets (a ∷ []) = (a / 4) ∷ (a % 4 * 16) ∷ []
sextets (a ∷ b ∷ []) = (a / 4) ∷ (a % 4 * 16 + b / 16) ∷ (b % 16 * 4) ∷ []
sextets (a ∷ b ∷ c ∷ rest) =
    (a / 4) ∷ (a % 4 * 16 + b / 16) ∷ (b % 16 * 4 + c / 64) ∷ (c % 64) ∷ sextets rest

values-encode : (s : Bytes) → AreBytes s → values (encode s) ≡ some (sextets s)
unfolding encode sextets
values-encode [] h = unfold values in refl
values-encode (a ∷ []) h =
    values-digit _ _ _ (omega arith) (values-digit _ _ _ (omega arith) (unfold values in refl))
values-encode (a ∷ b ∷ []) h =
    values-digit _ _ _ (omega arith)
      (values-digit _ _ _ (omega arith) (values-digit _ _ _ (omega arith) (unfold values in refl)))
values-encode (a ∷ b ∷ c ∷ rest) (ha, (hb, (hc, h))) = values-digit _ _ _ (omega arith) (
    values-digit _ _ _ (omega arith)
      (values-digit _ _ _ (omega arith) (values-digit _ _ _ (omega arith) (values-encode rest h))))

group-sextets : (s : Bytes) → AreBytes s → group (sextets s) ≡ some s
unfolding group sextets
group-sextets [] h = refl
group-sextets (a ∷ []) h = ground arith
group-sextets (a ∷ b ∷ []) h = ground arith
group-sextets (a ∷ b ∷ c ∷ rest) (ha, (hb, (hc, h))) = ground (arith, group-sextets rest h)

-- Decoding what was encoded gives the bytes back.
pub decode-encode : (s : Bytes) → AreBytes s → decode (encode s) ≡ some s
unfolding decode
decode-encode s h = rw (values-encode s h) (group-sextets s h)
