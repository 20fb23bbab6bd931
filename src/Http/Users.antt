-- ===== src/Http/Users.antt =====
-- internal/handlers/user_handler.go
use wavelen.Prelude.{ℕ, Bytes, codes, List, [], ◌∷◌, ◌++◌, map, Result}
use wavelen.Errors.{Error}
use wavelen.Domain.Names.{Validation, normalize_nickname}
use wavelen.Domain.Auth.{Hashing, hash_password}
use wavelen.Storage.Schema.{User, Collection, Color}
use wavelen.Storage.Export.{CltWithColors}
use wavelen.Storage.Actions.{gets, ◌>>=◌, ◌>>◌, pure}
use wavelen.Services.UserSvc.{create_account, account, delete_account, export_user}
use wavelen.Http.Message.{Handler, Body, reply, empty, account_of, export_of, check, call}

-- `CreateUserReq`, and also `CreateTokenReq` of token_handler.go
pub record Credentials : Type 0 where
  pub nickname : Bytes
  pub password : Bytes

-- `userToResp`
abbrev pub user_body : User → Body
user_body u = account_of u.nickname u.created_at

-- `HandleCreateUser`; the salt is drawn for the hash.
unfoldable pub handle_create_user :
    Validation → Hashing → Bytes → Result Error Credentials → Handler
handle_create_user v h salt body = do
  data_ ← check body
  nickname ← check (normalize_nickname v data_.nickname)
  hash ← check (hash_password h salt data_.password)
  u ← call (
      create_account (record { id = 0; nickname = nickname; password_hash = hash; created_at = 0 }))
  pure (reply 201 (user_body u))

-- `HandleGetMe`
unfoldable pub handle_get_me : ℕ → Handler
handle_get_me uid = do u ← call (account uid); pure (reply 200 (user_body u))

-- `HandleDeleteMe`
unfoldable pub handle_delete_me : ℕ → Handler
handle_delete_me uid = do call (delete_account uid); pure (reply 204 empty)

-- `contentDisposition`; `compact` writes a time with the layout `20060102T150405Z`.
unfoldable pub content_disposition : (ℕ → Bytes) → Bytes → ℕ → Bytes
content_disposition compact nickname ts =
    codes "attachment; filename=\"wavelen-"
    ++ nickname
    ++ codes "-"
    ++ compact ts
    ++ codes ".json\""

unfoldable pub exported : CltWithColors → Collection × List Color
exported c = (c.clt, c.colors)

-- `HandleExport`
unfoldable pub handle_export : (ℕ → Bytes) → ℕ → Handler
unfolding exported
handle_export compact uid = do
  (u, collections) ← call (export_user uid)
  now ← gets (λ w. w.now)
  pure (record {
    status = 200;
    headers = (codes "Content-Disposition", content_disposition compact u.nickname now) ∷ [];
    body = export_of u.nickname u.created_at now (map exported collections);
  })
