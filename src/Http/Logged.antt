-- ===== src/Http/Logged.antt =====
-- What the log shows of requests and responses with secrets: the methods `LogValue` of
-- internal/handlers/user_handler.go and token_handler.go.
use wavelen.Prelude.{ℕ, Bytes, codes, List, [], ◌∷◌}
use wavelen.Http.Users.{Credentials}

-- A value of `slog`: a text or a time.
pub data LogValue : Type 0 where
  log_string : Bytes → LogValue
  log_time : ℕ → LogValue

abbrev pub redacted_value : LogValue
redacted_value = log_string (codes "[redacted]")

-- `CreateUserReq.LogValue`, and also `CreateTokenReq.LogValue`
unfoldable pub credentials_log : Credentials → List (Bytes × LogValue)
credentials_log c =
    (codes "nickname", log_string c.nickname) ∷ (codes "password", redacted_value) ∷ []

-- `CreateTokenResp.LogValue`
unfoldable pub token_log : Bytes → ℕ → List (Bytes × LogValue)
token_log plaintext expiry =
    (codes "token", redacted_value) ∷ (codes "expiry", log_time expiry) ∷ []
