-- ===== src/Domain/Auth.antt =====
-- internal/auth/password.go and token.go: passwords under bcrypt and tokens under SHA-256.
-- The hash functions and the random generator are not under the repository: `Hashing`.
use wavelen.Prelude.{
  ℕ, ◌+◌, Bytes, Bool, true, false, ◌||◌, length, ltb, if◌then◌else◌, Result, ok, err, ◌≡◌,
}
use wavelen.Errors.{Error, invalid_password, unusable_hash, hash_failed}
use wavelen.Storage.Schema.{Token}

-- `bcrypt.CompareHashAndPassword`: nil, `ErrMismatchedHashAndPassword`, or another error.
pub data Comparison : Type 0 where
  matched mismatched unusable : Comparison

-- `generate` takes the salt drawn for it. A hash matches the password that it was made from.
pub record Hashing : Type 0 where
  pub generate : Bytes → Bytes → Result ℕ Bytes
  pub compare : Bytes → Bytes → Comparison
  pub sha256 : Bytes → Bytes
  pub generate-compare :
      (salt plaintext hash : Bytes)
      → generate salt plaintext ≡ ok hash
      → compare hash plaintext ≡ matched

abbrev pub min_password_len : ℕ
min_password_len = 16

abbrev pub max_password_len : ℕ
max_password_len = 72

module _ (h : Hashing) where
  unfoldable pub generated : Result ℕ Bytes → Result Error Bytes
  generated (ok hash) = ok hash
  generated (err e) = err hash_failed

  -- `HashPassword`
  unfoldable pub hash_password : Bytes → Bytes → Result Error Bytes
  unfolding generated
  hash_password salt plaintext =
      if ltb (length plaintext) min_password_len || ltb max_password_len (length plaintext)
      then err invalid_password
      else generated (h.generate salt plaintext)

  unfoldable pub compared : Comparison → Result Error Bool
  compared matched = ok true
  compared mismatched = ok false
  compared unusable = err unusable_hash

  -- `PasswordMatches`: a longer password than bcrypt reads matches nothing.
  unfoldable pub password_matches : Bytes → Bytes → Result Error Bool
  unfolding compared
  password_matches hash plaintext =
      if ltb max_password_len (length plaintext)
      then ok false
      else compared (h.compare hash plaintext)

  -- `HashToken`
  abbrev pub hash_token : Bytes → Bytes
  hash_token plaintext = h.sha256 plaintext

  -- `NewToken`, with the text that `rand.Text` drew and the time that `time.Now` read.
  unfoldable pub new_token : Bytes → ℕ → ℕ → ℕ → Token
  new_token plaintext now user_id ttl = record {
    plaintext = plaintext;
    hash = hash_token plaintext;
    user_id = user_id;
    expiry = now + ttl;
  }
