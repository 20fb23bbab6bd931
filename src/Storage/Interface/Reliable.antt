-- ===== src/Storage/Interface/Reliable.antt =====
-- The methods of the interface of internal/storage/interface.go under a failing database.
use wavelen.Prelude.{ℕ, Bytes, [], Result, ok, err, ◌≡◌, refl, arith}
use wavelen.Errors.{PgError, Error, storage_error}
use wavelen.Storage.Schema.{User, Token, TokenRow, CreateParams, UpdateParams}
use wavelen.Storage.Actions.{World, M, ping, rescue}
use wavelen.Storage.Faults.{
  IsPlain, IsRobust, IsAtomic, IsReading, Reports, query-IsRobust, pure-IsRobust, raise-IsRobust,
  bind-IsRobust,
}
use wavelen.Storage.Faults.Reading.{
  query-IsAtomic, IsReading-IsAtomic, pure-IsReading, raise-IsReading, bind-IsReading,
  then-IsAtomic,
}
use wavelen.Storage.Statements.{
  select-IsRobust, select-IsReading, gets-IsRobust, gets-IsReading, change-IsRobust,
  change-IsAtomic, storage_error-Reports,
}
use wavelen.Storage.Users.{
  insert_user, create_user_error, create_user, user_error, user_by_nickname, user_by_id, lock_user,
}
use wavelen.Storage.Tokens.{
  insert_token_row, insert_token_error, insert_token, token_error, user_id_for_token_hash,
  delete_token,
}
use wavelen.Storage.Collections.{
  insert_collection, create_collection_error, create_collection, list_collections,
  count_collections, collection_error, update_statement, update_collection, lock_collection,
}
use wavelen.Storage.Colors.Sorting.{ListColorsParams, Keyset, normalized}
use wavelen.Storage.Colors.{
  insert_color, add_color_error, add_color, count_colors, has_color, list_by, list_colors,
}
use wavelen.Storage.Export.{export_collections}
use wavelen.Storage.Methods.{
  create_user-IsRobust, lock_user-IsRobust, create_collection-IsRobust, count_collections-IsRobust,
  lock_collection-IsRobust, add_color-IsRobust, count_colors-IsRobust, has_color-IsRobust,
  user_error-Reports, collection_error-Reports,
}

-- A method reports the failure and changes no table, or does what it does without one.
pub record IsReliable {A : Type 0} (m : M A) : Type 0 where
  pub robust : IsRobust m
  pub atomic : IsAtomic m

pub reading : {A : Type 0} (m : M A) → IsRobust m → IsReading m → IsReliable m
reading m r q = record { robust = r; atomic = IsReading-IsAtomic m q }

insert_user-atomic :
    (u : User) (w : World) (e : PgError)
    → (insert_user u w).0 ≡ err e
    → (insert_user u w).1.tables ≡ w.tables
unfolding insert_user
insert_user-atomic u w e h = ground arith

insert_collection-atomic :
    (uid : ℕ) (p : CreateParams) (w : World) (e : PgError)
    → (insert_collection uid p w).0 ≡ err e
    → (insert_collection uid p w).1.tables ≡ w.tables
unfolding insert_collection
insert_collection-atomic uid p w e h = ground arith

insert_color-atomic :
    (cid : ℕ) (hex : Bytes) (w : World) (e : PgError)
    → (insert_color cid hex w).0 ≡ err e
    → (insert_color cid hex w).1.tables ≡ w.tables
unfolding insert_color
insert_color-atomic cid hex w e h = ground arith

insert_token_row-atomic :
    (row : TokenRow) (w : World) (e : PgError)
    → (insert_token_row row w).0 ≡ err e
    → (insert_token_row row w).1.tables ≡ w.tables
unfolding insert_token_row
insert_token_row-atomic row w e h = ground arith

insert_token_row-IsPlain : (row : TokenRow) → IsPlain (insert_token_row row)
unfolding insert_token_row
insert_token_row-IsPlain row = record { at = λ w. ground arith }

update_statement-IsPlain : (uid id : ℕ) (p : UpdateParams) → IsPlain (update_statement uid id p)
unfolding update_statement
update_statement-IsPlain uid id p = record { at = λ w. ground arith }

update_statement-atomic :
    (uid id : ℕ) (p : UpdateParams) (w : World) (e : PgError)
    → (update_statement uid id p w).0 ≡ err e
    → (update_statement uid id p w).1.tables ≡ w.tables
unfolding update_statement
update_statement-atomic uid id p w e h = ground arith

insert_token_error-Reports : Reports insert_token_error
unfolding insert_token_error
insert_token_error-Reports = record { at = λ e. refl }

token_error-Reports : Reports token_error
unfolding token_error
token_error-Reports = record { at = λ e. refl }

pub create_user-IsReliable : (u : User) → IsReliable (create_user u)
unfolding create_user
create_user-IsReliable u = record {
  robust = create_user-IsRobust u;
  atomic = query-IsAtomic create_user_error _ (insert_user-atomic u);
}

pub user_by_nickname-IsReliable : (nickname : Bytes) → IsReliable (user_by_nickname nickname)
unfolding user_by_nickname
user_by_nickname-IsReliable nickname =
    reading _ (select-IsRobust user_error _ user_error-Reports (λ w. refl))
      (select-IsReading user_error _)

pub user_by_id-IsReliable : (uid : ℕ) → IsReliable (user_by_id uid)
unfolding user_by_id
user_by_id-IsReliable uid =
    reading _
      (bind-IsRobust _ _ (select-IsRobust user_error _ user_error-Reports (λ w. refl))
        (λ u. pure-IsRobust (record u { password_hash = [] })))
      (bind-IsReading _ _ (select-IsReading user_error _)
        (λ u. pure-IsReading (record u { password_hash = [] })))

pub lock_user-IsReliable : (uid : ℕ) → IsReliable (lock_user uid)
unfolding lock_user
lock_user-IsReliable uid =
    reading _ (lock_user-IsRobust uid)
      (bind-IsReading _ _ (select-IsReading user_error _) (λ u. pure-IsReading tt))

pub insert_token-IsReliable : (t : Token) → IsReliable (insert_token t)
unfolding insert_token
insert_token-IsReliable t = record {
  robust =
      query-IsRobust insert_token_error _ (insert_token_row-IsPlain _) insert_token_error-Reports;
  atomic = query-IsAtomic insert_token_error _ (insert_token_row-atomic _);
}

pub user_id_for_token_hash-IsReliable : (hash : Bytes) → IsReliable (user_id_for_token_hash hash)
unfolding user_id_for_token_hash
user_id_for_token_hash-IsReliable hash =
    reading _
      (bind-IsRobust _ _ (select-IsRobust token_error _ token_error-Reports (λ w. refl))
        (λ r. pure-IsRobust r.user_id))
      (bind-IsReading _ _ (select-IsReading token_error _) (λ r. pure-IsReading r.user_id))

pub delete_token-IsReliable : (hash : Bytes) → IsReliable (delete_token hash)
unfolding delete_token
delete_token-IsReliable hash = record {
  robust =
      bind-IsRobust _ _ (change-IsRobust storage_error _ storage_error-Reports (λ w. refl))
        (λ n. pure-IsRobust tt);
  atomic = then-IsAtomic _ _ (change-IsAtomic storage_error _) (λ n. record { at = λ w. refl });
}

pub create_collection-IsReliable :
    (uid : ℕ) (p : CreateParams) → IsReliable (create_collection uid p)
unfolding create_collection
create_collection-IsReliable uid p = record {
  robust = create_collection-IsRobust uid p;
  atomic = query-IsAtomic create_collection_error _ (insert_collection-atomic uid p);
}

pub list_collections-IsReliable : (uid : ℕ) → IsReliable (list_collections uid)
unfolding list_collections
list_collections-IsReliable uid =
    reading _ (gets-IsRobust storage_error _ storage_error-Reports (λ w. refl))
      (gets-IsReading storage_error _)

pub count_collections-IsReliable : (uid : ℕ) → IsReliable (count_collections uid)
unfolding count_collections
count_collections-IsReliable uid =
    reading _ (count_collections-IsRobust uid) (gets-IsReading storage_error _)

pub update_collection-IsReliable :
    (uid id : ℕ) (p : UpdateParams) → IsReliable (update_collection uid id p)
unfolding update_collection
update_collection-IsReliable uid id p = record {
  robust =
      query-IsRobust collection_error _ (update_statement-IsPlain uid id p)
        collection_error-Reports;
  atomic = query-IsAtomic collection_error _ (update_statement-atomic uid id p);
}

pub lock_collection-IsReliable : (uid id : ℕ) → IsReliable (lock_collection uid id)
unfolding lock_collection
lock_collection-IsReliable uid id =
    reading _ (lock_collection-IsRobust uid id)
      (bind-IsReading _ _ (select-IsReading collection_error _) (λ r. pure-IsReading r.id))

pub add_color-IsReliable : (cid : ℕ) (hex : Bytes) → IsReliable (add_color cid hex)
unfolding add_color
add_color-IsReliable cid hex = record {
  robust = add_color-IsRobust cid hex;
  atomic =
      then-IsAtomic _ _ (query-IsAtomic add_color_error _ (insert_color-atomic cid hex))
        (λ n. record { at = λ w. refl });
}

list_by-IsReliable : (cid limit : ℕ) (k : Result Error Keyset) → IsReliable (list_by cid limit k)
unfolding list_by
list_by-IsReliable cid limit (err e) = reading _ (raise-IsRobust e) (raise-IsReading e)
list_by-IsReliable cid limit (ok k) =
    reading _ (gets-IsRobust storage_error _ storage_error-Reports (λ w. refl))
      (gets-IsReading storage_error _)

pub list_colors-IsReliable : (cid : ℕ) (p : ListColorsParams) → IsReliable (list_colors cid p)
unfolding list_colors
list_colors-IsReliable cid p = record {
  robust = record { at = λ w. (list_by-IsReliable cid (normalized p).limit _).robust.at w };
  atomic = record { at = λ w. (list_by-IsReliable cid (normalized p).limit _).atomic.at w };
}

pub count_colors-IsReliable : (cid : ℕ) → IsReliable (count_colors cid)
unfolding count_colors
count_colors-IsReliable cid = reading _ (count_colors-IsRobust cid) (gets-IsReading storage_error _)

pub has_color-IsReliable : (cid : ℕ) (hex : Bytes) → IsReliable (has_color cid hex)
unfolding has_color
has_color-IsReliable cid hex =
    reading _ (has_color-IsRobust cid hex) (gets-IsReading storage_error _)

pub export_collections-IsReliable : (uid : ℕ) → IsReliable (export_collections uid)
unfolding export_collections
export_collections-IsReliable uid =
    reading _ (gets-IsRobust storage_error _ storage_error-Reports (λ w. refl))
      (gets-IsReading storage_error _)

pub ping-IsReliable : IsReliable (rescue storage_error ping)
unfolding ping
ping-IsReliable =
    reading _ (gets-IsRobust storage_error _ storage_error-Reports (λ w. refl))
      (gets-IsReading storage_error _)
