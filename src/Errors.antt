-- ===== src/Errors.antt =====
-- The error values of the program (the `Err…` variables of internal/storage, internal/colorsvc,
-- internal/collectionsvc, internal/authsvc, internal/auth, internal/color, internal/icon,
-- internal/palette, internal/handlers and cmd/api), with what `errors.Is` sees of their wrapping.
-- The text of a message is kept only where it reaches a client by itself.
use wavelen.Prelude.{ℕ, Bytes, Bool, false, ◌||◌, Option, none, some, ◌==◌, nat_eq}

-- What Postgres or its driver answers to a failed statement: the SQLSTATE codes that storage.go
-- names, `pgx.ErrNoRows`, and any other failure.
pub data PgError : Type 0 where
  unique_violation foreign_key_violation no_rows : PgError
  driver : ℕ → PgError

pub data Error : Type 0 where
  not_found user_not_found token_not_found duplicate_nickname nested_tx : Error
  invalid_color_sort invalid_sort_order invalid_sort : Error
  color_quota_full collection_quota_full delete_default : Error
  invalid_credentials invalid_password invalid_cursor : Error
  unknown_icon unknown_harmony unknown_space : Error
  nothing_to_update hex_with_hash : Error
  config missing_creds : Error
  -- `*http.MaxBytesError`
  max_bytes : Error
  -- an error of a validating or parsing library, with the library's text
  invalid : Bytes → Error
  -- `fmt.Errorf("storage …: %w", err)`
  storage_error : PgError → Error
  -- `auth.ErrUnusableHash`, and a failure of the hashing library
  unusable_hash hash_failed : Error

-- Sentinels are compared by identity.
identity : Error → ℕ
identity not_found = 1
identity user_not_found = 2
identity token_not_found = 3
identity duplicate_nickname = 4
identity nested_tx = 5
identity invalid_color_sort = 6
identity invalid_sort_order = 7
identity invalid_sort = 8
identity color_quota_full = 9
identity collection_quota_full = 10
identity delete_default = 11
identity invalid_credentials = 12
identity invalid_password = 13
identity invalid_cursor = 14
identity unknown_icon = 15
identity unknown_harmony = 16
identity unknown_space = 17
identity nothing_to_update = 18
identity hex_with_hash = 19
identity config = 20
identity missing_creds = 21
identity max_bytes = 22
identity (invalid text) = 23
identity (storage_error e) = 24
identity unusable_hash = 25
identity hash_failed = 26

-- `ErrUserNotFound` and `ErrTokenNotFound` wrap `ErrNotFound`.
wrapped : Error → Option Error
wrapped user_not_found = some not_found
wrapped token_not_found = some not_found
wrapped _ = none

is_wrapped : Option Error → Error → Bool
unfolding identity
is_wrapped none target = false
is_wrapped (some e) target = identity e == identity target

-- `errors.Is(e, target)`, for a sentinel `target`.
unfoldable pub is : Error → Error → Bool
unfolding identity wrapped is_wrapped
is e target = (identity e == identity target) || is_wrapped (wrapped e) target
