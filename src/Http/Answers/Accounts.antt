-- ===== src/Http/Answers/Accounts.antt =====
-- The answers of the handlers that create: internal/handlers/user_handler.go,
-- collection_handler.go and token_handler.go.
use wavelen.Prelude.{ℕ, Bytes, ok, codes, [], ◌≡◌, refl}
use wavelen.Errors.{is}
use wavelen.Domain.Names.{Validation, normalize_nickname}
use wavelen.Domain.Auth.{Hashing, hash_password}
use wavelen.Storage.Schema.{User, Collection, CreateParams}
use wavelen.Storage.Actions.{World}
use wavelen.Services.UserSvc.{create_account}
use wavelen.Services.UserSvc.Refinement.{create_account_promise, create_account-Implements}
use wavelen.Services.CollectionSvc.{create_collection_for}
use wavelen.Services.CollectionSvc.Refinement.{create_promise, create_collection_for-Implements}
use wavelen.Services.AuthSvc.Grants.{Known, login_refused}
use wavelen.Http.Message.{
  Request, Response, reply, message, one_collection, answer, storage_error_reply,
}
use wavelen.Http.Collections.{CreateReq, create_collection_params, handle_create_collection}
use wavelen.Http.Users.{Credentials, user_body, handle_create_user}
use wavelen.Http.Tokens.{handle_create_token}
use wavelen.Http.Answers.{Answers, Implements-Answers}

-- The account to be written.
abbrev pub account_for : Bytes → Bytes → User
account_for nickname hash = record {
  id = 0;
  nickname = nickname;
  password_hash = hash;
  created_at = 0;
}

abbrev pub created_user : User → Response
created_user u = reply 201 (user_body u)

-- For credentials with a valid nickname and a password that can be hashed: the account is written
-- with its default collection and the answer is 201 with it; or 409 for a taken nickname, or 500
-- where nothing has changed.
pub handle_create_user-Answers :
    (v : Validation) (h : Hashing) (salt nickname hash : Bytes) (c : Credentials) (w : World)
    → normalize_nickname v c.nickname ≡ ok nickname
    → hash_password h salt c.password ≡ ok hash
    → Answers created_user
        (handle_create_user v h salt (ok c))
        w
        (create_account_promise (account_for nickname hash) w)
unfolding handle_create_user
handle_create_user-Answers v h salt nickname hash c w n p =
    rw (n, p)
      (Implements-Answers created_user (create_account (account_for nickname hash)) w _
        (create_account-Implements (account_for nickname hash) w))

abbrev pub created_collection : Collection → Response
created_collection c = reply 201 (one_collection c)

-- For fields that are valid: the answer is as the service promises.
pub handle_create_collection-Answers :
    (v : Validation) (quota uid : ℕ) (req : Request) (d : CreateReq) (p : CreateParams) (w : World)
    → create_collection_params v quota d ≡ ok p
    → Answers created_collection
        (handle_create_collection v quota req (ok d) uid)
        w
        (create_promise quota uid p w)
unfolding handle_create_collection
handle_create_collection-Answers v quota uid req d p w e = rw e (
    Implements-Answers created_collection (create_collection_for quota uid p) w _
      (create_collection_for-Implements quota uid p w))

-- With a database that answers: credentials of nobody get the same 401, whatever is wrong with
-- them, and nothing changes.
pub handle_create_token-refused :
    (v : Validation) (h : Hashing) (ttl : ℕ) (random : Bytes) (c : Credentials) (w : World)
    → w.faults ≡ []
    → ((u : User) → ¬ Known v h ttl random c.nickname c.password w u)
    → answer (handle_create_token v h ttl random (ok c)) w
      ≡ (reply 401 (message (codes "invalid credentials")), w)
unfolding handle_create_token storage_error_reply is
handle_create_token-refused v h ttl random c w f k =
    rw (login_refused v h ttl random c.nickname c.password w f k) refl
