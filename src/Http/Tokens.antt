-- ===== src/Http/Tokens.antt =====
-- internal/handlers/token_handler.go
use wavelen.Prelude.{ℕ, Bytes, codes, Option, none, some, Result}
use wavelen.Errors.{Error}
use wavelen.Domain.Names.{Validation}
use wavelen.Domain.Auth.{Hashing}
use wavelen.Storage.Actions.{raise, pure, ◌>>=◌, ◌>>◌}
use wavelen.Services.AuthSvc.{login, logout}
use wavelen.Http.Message.{Request, Handler, reply, empty, message, token, check, call}
use wavelen.Http.Users.{Credentials}

-- `HandleCreateToken`
unfoldable pub handle_create_token :
    Validation → Hashing → ℕ → Bytes → Result Error Credentials → Handler
handle_create_token v h ttl random body = do
  data_ ← check body
  t ← call (login v h ttl random data_.nickname data_.password)
  pure (reply 201 (token t.plaintext t.expiry))

revoke : Option Bytes → Handler
revoke none = raise (reply 500 (message (codes "internal server error")))
revoke (some hash) = do call (logout hash); pure (reply 204 empty)

-- `HandleDeleteToken`: the hash comes from the context (`auth.TokenHashFromContext`).
unfoldable pub handle_delete_token : Request → ℕ → Handler
unfolding revoke
handle_delete_token req uid = revoke req.token_hash
