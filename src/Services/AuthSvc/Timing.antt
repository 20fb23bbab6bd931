-- ===== src/Services/AuthSvc/Timing.antt =====
-- The bcrypt work of `AuthSvc.Login` (internal/authsvc/authsvc.go), which `EqualizeTiming` and
-- `PasswordMatches` of internal/auth/password.go keep the same whether there is a password to check
-- or not. An action also tells the hashes that bcrypt was run against.
pub mod Constant
use wavelen.Prelude.{
  ℕ, ◌+◌, ◌*◌, ◌^◌, ◌-◌, Bytes, codes, Bool, true, false, List, [], ◌∷◌, length, ltb, Result, ok,
  err, if◌then◌else◌,
}
use wavelen.Errors.{Error, user_not_found, is, invalid_credentials}
use wavelen.Domain.Names.{Validation, normalize_nickname}
use wavelen.Domain.Auth.{
  Comparison, matched, mismatched, unusable, Hashing, compared, max_password_len,
}
use wavelen.Storage.Schema.{User, Token}
use wavelen.Storage.Actions.{World, M, raise}
use wavelen.Storage.Users.{user_by_nickname}
use wavelen.Services.AuthSvc.{store_token}

abbrev pub dummy_hash : Bytes
dummy_hash = codes "$2a$12$w197MSRbyWSMKybxo4ysO.QmD.JA3Ei0iDlMJE0ol0rQuHqyCmaRa"

abbrev pub bcrypt_cost : ℕ
bcrypt_cost = 12

-- The cost in a hash `$2a$[cost]$…`.
unfoldable pub cost_of : Bytes → ℕ
cost_of (_ ∷ _ ∷ _ ∷ _ ∷ tens ∷ units ∷ _) = 10 * (tens - 48) + (units - 48)
cost_of _ = 0

-- The rounds of bcrypt for the hashes that it was run against.
unfoldable pub work : List Bytes → ℕ
unfolding cost_of
work [] = 0
work (hash ∷ hashes) = 2 ^ cost_of hash + work hashes

-- `EqualizeTiming`
abbrev pub equalize_timing : List Bytes
equalize_timing = dummy_hash ∷ []

-- `AuthSvc.refuse`
abbrev pub refuse : World → (Result Error Token × World) × List Bytes
refuse w = ((err invalid_credentials, w), equalize_timing)

-- bcrypt gives up on an unusable hash before any round.
unfoldable pub run_against : Bytes → Comparison → List Bytes
run_against hash matched = hash ∷ []
run_against hash mismatched = hash ∷ []
run_against hash unusable = []

module _ (v : Validation) (h : Hashing) (ttl : ℕ) (random password : Bytes) where
  -- `PasswordMatches`, with the hashes
  unfoldable pub matches : Bytes → Result Error Bool × List Bytes
  unfolding run_against
  matches hash =
      if ltb max_password_len (length password)
      then (ok false, equalize_timing)
      else (compared h (h.compare hash password), run_against hash (h.compare hash password))

  unfoldable pub after_match : User → Result Error Bool → M Token
  after_match u (ok true) = store_token v h ttl random u
  after_match u (ok false) = raise invalid_credentials
  after_match u (err e) = raise invalid_credentials

  unfoldable pub after_lookup :
      Result Error User × World → (Result Error Token × World) × List Bytes
  unfolding matches after_match is
  after_lookup (ok u, w) =
      (after_match u (matches u.password_hash).0 w, (matches u.password_hash).1)
  after_lookup (err e, w) = if is e user_not_found then refuse w else ((err e, w), [])

  unfoldable pub login_with : Result Error Bytes → World → (Result Error Token × World) × List Bytes
  unfolding after_lookup
  login_with (err e) w = refuse w
  login_with (ok nickname) w = after_lookup (user_by_nickname nickname w)

  -- `AuthSvc.Login`
  unfoldable pub timed_login : Bytes → World → (Result Error Token × World) × List Bytes
  unfolding login_with
  timed_login nickname w = login_with (normalize_nickname v nickname) w
