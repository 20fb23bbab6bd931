-- ===== src/Storage/Tokens.antt =====
-- internal/storage/token_repo.go, over `tokens` (migrations/000005).
use wavelen.Prelude.{
  ℕ, Bytes, Bool, [], ◌∷◌, ◌++◌, not, ◌&&◌, filter, any, find, count, ltb, ◌==◌, nat_eq, bytes_eq,
  if◌then◌else◌, ok, err,
}
use wavelen.Errors.{
  PgError, unique_violation, foreign_key_violation, no_rows, Error, user_not_found, token_not_found,
  storage_error,
}
use wavelen.Storage.Schema.{Token, TokenRow, has_user_id, has_hash}
use wavelen.Storage.Actions.{M, Statement, statement, rescue, select_one, change, pure, ◌>>=◌, ◌>>◌}

-- INSERT INTO tokens: the hash is the primary key, and the user must exist.
unfoldable pub insert_token_row : TokenRow → Statement (Unit {0})
insert_token_row row w =
    if any (has_hash row.hash) w.tables.tokens
    then (err unique_violation, w)
    else if any (has_user_id row.user_id) w.tables.users
    then (ok tt, record w { tables = record w.tables { tokens = w.tables.tokens ++ row ∷ [] } })
    else (err foreign_key_violation, w)

unfoldable pub insert_token_error : PgError → Error
insert_token_error foreign_key_violation = user_not_found
insert_token_error e = storage_error e

-- `InsertToken`, which leaves the plaintext out.
unfoldable pub insert_token : Token → M (Unit {0})
unfolding insert_token_row insert_token_error statement
insert_token t = rescue insert_token_error (
    statement (insert_token_row (record { hash = t.hash; user_id = t.user_id; expiry = t.expiry })))

unfoldable pub token_error : PgError → Error
token_error no_rows = token_not_found
token_error e = storage_error e

abbrev pub is_live : Bytes → ℕ → TokenRow → Bool
is_live hash now r = (r.hash == hash) && ltb now r.expiry

-- `UserIDForTokenHash`: unknown and expired tokens are alike.
unfoldable pub user_id_for_token_hash : Bytes → M ℕ
unfolding select_one token_error
user_id_for_token_hash hash = do
  row ← rescue token_error (select_one λ w. find (is_live hash w.now) w.tables.tokens)
  pure row.user_id

-- `DeleteToken`: an unknown token is no error.
unfoldable pub delete_token : Bytes → M (Unit {0})
unfolding change
delete_token hash = do
  rescue storage_error (
      change λ w. (
        count (has_hash hash) w.tables.tokens,
        record w.tables { tokens = filter (λ r. not (has_hash hash r)) w.tables.tokens },
      ))
  pure tt
