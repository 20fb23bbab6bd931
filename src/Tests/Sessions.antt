-- ===== src/Tests/Sessions.antt =====
-- Runs of the sessions: passwords, logins and the wrapper of the authenticated routes.
use wavelen.Prelude.{
  ℕ, Bytes, codes, true, false, some, [], ◌∷◌, ◌++◌, any, find, ok, err, ◌≡◌, refl, bytes_beq,
}
use wavelen.Errors.{token_not_found}
use wavelen.Domain.Auth.{password_matches, new_token}
use wavelen.Domain.Names.{normalize_nickname}
use wavelen.Storage.Actions.{World, pure}
use wavelen.Storage.Schema.{has_hash}
use wavelen.Storage.Users.{same_nickname}
use wavelen.Storage.Tokens.{is_live, user_id_for_token_hash}
use wavelen.Services.AuthSvc.{login, logout}
use wavelen.Services.AuthSvc.Revokes.{logout-forgets}
use wavelen.Services.AuthSvc.Grants.{Known, at, login-recognized}
use wavelen.Http.Message.{Request, Handler, reply, empty}
use wavelen.Http.Auth.{bearer_prefix, authenticate}
use wavelen.Http.Auth.Guard.{admitted, authenticate_lem}
use wavelen.Tests.{validation, hashing, world, alice, request}

abbrev password : Bytes
password = codes "correct horse battery"

alice-nickname : normalize_nickname validation (codes "alice") ≡ ok (codes "alice")
unfolding normalize_nickname
alice-nickname = refl

alice-found : find (same_nickname world.env.citext (codes "alice")) world.tables.users ≡ some alice
unfolding find same_nickname bytes_beq
alice-found = refl

password-match : password_matches hashing password password ≡ ok true
unfolding password_matches bytes_beq
password-match = refl

alice-Known : Known validation hashing 10 (codes "T") (codes "alice") password world alice
alice-Known = (codes "alice", alice-nickname, alice-found, password-match)

no_token : any (has_hash (codes "T")) world.tables.tokens ≡ false
unfolding any
no_token = refl

login-recognized_example :
    ((login validation hashing 10 (codes "T") (codes "alice") password world).0
      ≡ ok (new_token hashing (codes "T") 5 1 10))
    × ((user_id_for_token_hash
          (codes "T")
          (at 14 (login validation hashing 10 (codes "T") (codes "alice") password world).1)).0
        ≡ ok 1)
login-recognized_example =
    login-recognized validation hashing 10 (codes "T") (codes "alice") password world alice 14 refl
      alice-Known no_token

abbrev greet : Request → ℕ → Handler
greet req uid = pure (reply 200 empty)

authenticate_lem_example :
    authenticate hashing greet (request (bearer_prefix ++ codes "T")) world
    ≡ admitted hashing greet
        (request (bearer_prefix ++ codes "T"))
        (codes "T")
        world
        (find (is_live (codes "T") 5) world.tables.tokens)
authenticate_lem_example =
    authenticate_lem hashing greet (request (bearer_prefix ++ codes "T")) b'T' [] world refl refl

abbrev signed_in : World
signed_in = record world {
  tables = record world.tables {
    tokens = record { hash = codes "T"; user_id = 1; expiry = 15 } ∷ [];
  };
}

logout-forgets_example :
    ((logout (codes "T") signed_in).0 ≡ ok tt)
    × ((user_id_for_token_hash (codes "T") (logout (codes "T") signed_in).1).0
        ≡ err token_not_found)
logout-forgets_example = logout-forgets (codes "T") signed_in refl
