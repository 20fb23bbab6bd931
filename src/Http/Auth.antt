-- ===== src/Http/Auth.antt =====
-- internal/server/auth.go: the wrapper of the authenticated routes.
pub mod Guard
use wavelen.Prelude.{
  ℕ, Bytes, codes, Option, none, some, List, [], ◌∷◌, ◌==◌, nat_eq, bytes_eq, if◌then◌else◌, Result,
  ok, err,
}
use wavelen.Errors.{Error, token_not_found, is}
use wavelen.Domain.Auth.{Hashing, hash_token}
use wavelen.Storage.Actions.{World, Action, M, raise, pure, rescue, ◌>>=◌}
use wavelen.Storage.Tokens.{user_id_for_token_hash}
use wavelen.Http.Message.{Request, Response, Handler, reply, reason, message}

abbrev pub bearer_prefix : Bytes
bearer_prefix = codes "Bearer "

-- `strings.CutPrefix`
unfoldable pub cut_prefix : Bytes → Bytes → Option Bytes
cut_prefix s [] = some s
cut_prefix [] (p ∷ prefix) = none
cut_prefix (c ∷ s) (p ∷ prefix) = if c == p then cut_prefix s prefix else none

-- `unauthorized`
abbrev pub unauthorized : Response
unauthorized = record {
  status = 401;
  headers = (codes "WWW-Authenticate", codes "Bearer") ∷ [];
  body = message (codes "invalid credentials");
}

-- An unknown token is no 404, though `ErrTokenNotFound` wraps `ErrNotFound`.
unfoldable pub token_refused : Error → Response
unfolding is
token_refused e = if is e token_not_found then unauthorized else reply 500 (reason e)

abbrev pub vary : Response → Response
vary r = record r { headers = (codes "Vary", codes "Authorization") ∷ r.headers }

-- The `Vary` header is added before anything else happens.
abbrev pub varied : Result Response Response × World → Result Response Response × World
varied (ok r, w) = (ok (vary r), w)
varied (err r, w) = (err (vary r), w)

module _ (h : Hashing) (next : Request → ℕ → Handler) where
  unfoldable pub admit : Request → Bytes → Handler
  unfolding token_refused
  admit req plaintext = do
    uid ← rescue token_refused (user_id_for_token_hash (hash_token h plaintext))
    next (record req { token_hash = some (hash_token h plaintext) }) uid

  unfoldable pub authenticate_with : Request → Option Bytes → Handler
  unfolding admit
  authenticate_with req none = raise unauthorized
  authenticate_with req (some plaintext) =
      if plaintext == [] then raise unauthorized else admit req plaintext

  -- `authenticate`
  unfoldable pub authenticate : Request → Handler
  unfolding authenticate_with cut_prefix
  authenticate req =
      λ w. varied (authenticate_with req (cut_prefix req.authorization bearer_prefix) w)
