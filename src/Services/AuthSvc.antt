-- ===== src/Services/AuthSvc.antt =====
-- internal/authsvc/authsvc.go. What `EqualizeTiming` is for is in Timing.
pub mod Grants
pub mod Revokes
pub mod Timing
use wavelen.Prelude.{ℕ, Bytes, Bool, true, false, ok, err, Result, if◌then◌else◌}
use wavelen.Errors.{Error, user_not_found, is, invalid_credentials}
use wavelen.Domain.Names.{Validation, normalize_nickname}
use wavelen.Domain.Auth.{Hashing, password_matches, new_token}
use wavelen.Storage.Schema.{User, Token}
use wavelen.Storage.Actions.{World, M, pure, raise, gets, rescue, ◌>>=◌, ◌>>◌}
use wavelen.Storage.Users.{user_by_nickname}
use wavelen.Storage.Tokens.{insert_token, delete_token}

-- An unknown nickname is refused as a wrong password is.
unfoldable pub lookup_error : Error → Error
lookup_error e = if is e user_not_found then invalid_credentials else e

module _ (v : Validation) (h : Hashing) where
  -- The token is made and stored, its plaintext drawn as `random`.
  unfoldable pub store_token : ℕ → Bytes → User → M Token
  store_token ttl random u = do
    now ← gets (λ w. w.now)
    let token = new_token h random now u.id ttl
    insert_token token
    pure token

  unfoldable pub check_password : ℕ → Bytes → Bytes → User → M Token
  unfolding store_token
  check_password ttl random password u = elim (password_matches h u.password_hash password) [
    | ok true ↦ store_token ttl random u
    | ok false ↦ raise invalid_credentials
    | err e ↦ raise invalid_credentials
  ]

  unfoldable pub login_as : ℕ → Bytes → Bytes → Result Error Bytes → M Token
  unfolding check_password lookup_error
  login_as ttl random password (err e) = raise invalid_credentials
  login_as ttl random password (ok nickname) = do
    u ← rescue lookup_error (user_by_nickname nickname)
    check_password ttl random password u

  -- `AuthSvc.Login`
  unfoldable pub login : ℕ → Bytes → Bytes → Bytes → M Token
  unfolding login_as
  login ttl random nickname password = login_as ttl random password (normalize_nickname v nickname)

-- `AuthSvc.Logout`
unfoldable pub logout : Bytes → M (Unit {0})
logout hash = delete_token hash
