-- ===== src/Storage/Users.antt =====
-- internal/storage/user_repo.go, over `users` (migrations/000001).
use wavelen.Prelude.{
  ℕ, suc, Bytes, Bool, [], ◌∷◌, ◌++◌, not, filter, any, find, count, ◌==◌, ◌||◌, nat_eq, bytes_eq,
  if◌then◌else◌, ok, err,
}
use wavelen.Errors.{
  PgError, unique_violation, no_rows, Error, duplicate_nickname, user_not_found, storage_error,
}
use wavelen.Storage.Schema.{User, TokenRow, Tables, has_user_id, owned_by, delete_collections}
use wavelen.Storage.Actions.{
  World, M, Statement, statement, rescue, select_one, change, pure, raise, ◌>>=◌, ◌>>◌,
}

-- The column is `citext`: texts are compared folded.
unfoldable pub same_nickname : (Bytes → Bytes) → Bytes → User → Bool
same_nickname fold nickname u = fold u.nickname == fold nickname

-- The constraints that the new row meets: the primary key and the unique nickname.
unfoldable pub clashes : World → User → User → Bool
unfolding same_nickname
clashes w new u = (u.id == new.id) || same_nickname w.env.citext new.nickname u

-- INSERT INTO users … RETURNING id, created_at. The sequence moves also when the row is refused.
unfoldable pub insert_user : User → Statement User
unfolding clashes
insert_user u w =
    let w' = record w { user_seq = suc w.user_seq } in
    let row = record u { id = w.user_seq; created_at = w.now } in
    if any (clashes w row) w.tables.users
    then (err unique_violation, w')
    else (ok row, record w' { tables = record w.tables { users = w.tables.users ++ row ∷ [] } })

unfoldable pub create_user_error : PgError → Error
create_user_error unique_violation = duplicate_nickname
create_user_error e = storage_error e

-- `CreateUser`, which fills in the id and the time of creation.
unfoldable pub create_user : User → M User
unfolding insert_user create_user_error statement
create_user u = rescue create_user_error (statement (insert_user u))

unfoldable pub user_error : PgError → Error
user_error no_rows = user_not_found
user_error e = storage_error e

-- `UserByNickname`
unfoldable pub user_by_nickname : Bytes → M User
unfolding select_one user_error
user_by_nickname nickname =
    rescue user_error (select_one λ w. find (same_nickname w.env.citext nickname) w.tables.users)

-- `UserByID`, which does not read the password hash.
unfoldable pub user_by_id : ℕ → M User
unfolding select_one user_error
user_by_id id = do
  u ← rescue user_error (select_one λ w. find (has_user_id id) w.tables.users)
  pure (record u { password_hash = [] })

-- `LockUser`. The lock has no effect on the tables.
unfoldable pub lock_user : ℕ → M (Unit {0})
unfolding select_one user_error
lock_user id = do rescue user_error (select_one λ w. find (has_user_id id) w.tables.users); pure tt

abbrev pub token_of : ℕ → TokenRow → Bool
token_of uid r = r.user_id == uid

-- A user's row and what cascades with it: tokens and collections, and the collections' colors.
unfoldable pub remove_user : ℕ → Tables → Tables
unfolding delete_collections
remove_user id t = record (delete_collections (owned_by id) t) {
  users = filter (λ u. not (has_user_id id u)) t.users;
  tokens = filter (λ r. not (token_of id r)) t.tokens;
}

-- `DeleteUser`: DELETE FROM users; without a row nothing cascades.
unfoldable pub delete_user : ℕ → M (Unit {0})
unfolding change remove_user
delete_user id = do
  n ← rescue storage_error (
      change λ w. (
        count (has_user_id id) w.tables.users,
        if any (has_user_id id) w.tables.users then remove_user id w.tables else w.tables,
      ))
  if n == 0 then raise user_not_found else pure tt
