-- ===== src/Services/AuthSvc/Revokes.antt =====
-- A token after its logout: internal/authsvc/authsvc.go with the tokens of
-- internal/storage/token_repo.go.
use wavelen.Prelude.{ℕ, Bytes, none, List, [], ◌∷◌, not, find, filter, ok, err, ◌≡◌, refl, arith}
use wavelen.Errors.{token_not_found}
use wavelen.Storage.Schema.{TokenRow, has_hash}
use wavelen.Storage.Actions.{World, statement}
use wavelen.Storage.Tokens.{delete_token, is_live, user_id_for_token_hash}
use wavelen.Services.AuthSvc.{logout}

none_live :
    (hash : Bytes) (now : ℕ) (rows : List TokenRow)
    → find (is_live hash now) (filter (λ r. not (has_hash hash r)) rows) ≡ none
unfolding find filter
none_live hash now [] = refl
none_live hash now (r ∷ rows) = ground (arith, none_live hash now rows)

-- With a database that answers: a logout succeeds, whether the token is there or not, and after it
-- the token is not recognized.
pub logout-forgets :
    (hash : Bytes) (w : World)
    → w.faults ≡ []
    → ((logout hash w).0 ≡ ok tt)
      × ((user_id_for_token_hash hash (logout hash w).1).0 ≡ err token_not_found)
unfolding logout delete_token user_id_for_token_hash statement
logout-forgets hash w f = rw (f, none_live hash w.now w.tables.tokens) (refl, refl)
