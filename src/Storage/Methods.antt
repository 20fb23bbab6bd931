-- ===== src/Storage/Methods.antt =====
-- The methods of the repositories under a failing database: each reports the failure or does what
-- it does without one, and a reported failure leaves the tables alone.
use wavelen.Prelude.{ℕ, Bytes, Bool, true, false, ◌==◌, nat_eq, if◌then◌else◌, refl, arith}
use wavelen.Errors.{Error, storage_error, not_found, user_not_found}
use wavelen.Storage.Schema.{User, CreateParams}
use wavelen.Storage.Actions.{M, pure, raise}
use wavelen.Storage.Faults.{
  IsPlain, IsRobust, IsAtomic, IsReading, Reports, query-IsRobust, pure-IsRobust, raise-IsRobust,
  if-IsRobust, bind-IsRobust,
}
use wavelen.Storage.Faults.Reading.{IsCalm, pure-IsReading, bind-IsReading, then-IsAtomic}
use wavelen.Storage.Statements.{
  select-IsRobust, select-IsReading, gets-IsRobust, change-IsRobust, change-IsAtomic,
  storage_error-Reports,
}
use wavelen.Storage.Users.{
  user_error, insert_user, create_user_error, create_user, lock_user, delete_user,
}
use wavelen.Storage.Collections.{
  collection_error, insert_collection, create_collection_error, create_collection,
  count_collections, collection_by_id, delete_collection, resolve_collection, lock_collection,
}
use wavelen.Storage.Colors.{
  insert_color, add_color_error, add_color, count_colors, has_color, delete_color,
  delete_all_colors,
}

pub IsCalm-if :
    {A : Type 0} (b : Bool) (m n : M A) → IsCalm m → IsCalm n → IsCalm (if b then m else n)
IsCalm-if true m n p q = p
IsCalm-if false m n p q = q

pub user_error-Reports : Reports user_error
unfolding user_error
user_error-Reports = record { at = λ e. refl }

create_user_error-Reports : Reports create_user_error
unfolding create_user_error
create_user_error-Reports = record { at = λ e. refl }

pub collection_error-Reports : Reports collection_error
unfolding collection_error
collection_error-Reports = record { at = λ e. refl }

create_collection_error-Reports : Reports create_collection_error
unfolding create_collection_error
create_collection_error-Reports = record { at = λ e. refl }

add_color_error-Reports : Reports add_color_error
unfolding add_color_error
add_color_error-Reports = record { at = λ e. refl }

insert_color-IsPlain : (cid : ℕ) (hex : Bytes) → IsPlain (insert_color cid hex)
unfolding insert_color
insert_color-IsPlain cid hex = record { at = λ w. ground arith }

insert_user-IsPlain : (u : User) → IsPlain (insert_user u)
unfolding insert_user
insert_user-IsPlain u = record { at = λ w. ground arith }

insert_collection-IsPlain : (uid : ℕ) (p : CreateParams) → IsPlain (insert_collection uid p)
unfolding insert_collection
insert_collection-IsPlain uid p = record { at = λ w. ground arith }

pub lock_collection-IsRobust : (uid cid : ℕ) → IsRobust (lock_collection uid cid)
unfolding lock_collection
lock_collection-IsRobust uid cid =
    bind-IsRobust _ _ (select-IsRobust collection_error _ collection_error-Reports (λ w. refl))
      (λ r. pure-IsRobust r.id)

pub count_colors-IsRobust : (cid : ℕ) → IsRobust (count_colors cid)
unfolding count_colors
count_colors-IsRobust cid = gets-IsRobust storage_error _ storage_error-Reports (λ w. refl)

pub has_color-IsRobust : (cid : ℕ) (hex : Bytes) → IsRobust (has_color cid hex)
unfolding has_color
has_color-IsRobust cid hex = gets-IsRobust storage_error _ storage_error-Reports (λ w. refl)

pub add_color-IsRobust : (cid : ℕ) (hex : Bytes) → IsRobust (add_color cid hex)
unfolding add_color
add_color-IsRobust cid hex =
    bind-IsRobust _ _
      (query-IsRobust add_color_error _ (insert_color-IsPlain cid hex) add_color_error-Reports)
      (λ n. pure-IsRobust (n == 1))

resolve-IsReading : (uid cid : ℕ) → IsReading (resolve_collection uid cid)
unfolding resolve_collection
resolve-IsReading uid cid =
    bind-IsReading _ _ (select-IsReading collection_error _) (λ r. pure-IsReading r.id)

pub resolve_collection-IsReading : (uid cid : ℕ) → IsReading (resolve_collection uid cid)
resolve_collection-IsReading uid cid = resolve-IsReading uid cid

pub resolve_collection-IsRobust : (uid cid : ℕ) → IsRobust (resolve_collection uid cid)
unfolding resolve_collection
resolve_collection-IsRobust uid cid =
    bind-IsRobust _ _ (select-IsRobust collection_error _ collection_error-Reports (λ w. refl))
      (λ r. pure-IsRobust r.id)

-- What follows the last statement of a DELETE.
affected-IsRobust :
    (n : ℕ) (e : Error) → IsRobust (if n == 0 then raise {A = Unit {0}} e else pure tt)
affected-IsRobust n e = if-IsRobust (n == 0) _ _ (raise-IsRobust e) (pure-IsRobust tt)

not_found-IsCalm : (n : ℕ) → IsCalm (if n == 0 then raise {A = Unit {0}} not_found else pure tt)
not_found-IsCalm n = IsCalm-if (n == 0) _ _ (record { at = λ w. refl }) (record { at = λ w. refl })

user_not_found-IsCalm :
    (n : ℕ) → IsCalm (if n == 0 then raise {A = Unit {0}} user_not_found else pure tt)
user_not_found-IsCalm n =
    IsCalm-if (n == 0) _ _ (record { at = λ w. refl }) (record { at = λ w. refl })

pub delete_color-IsRobust : (cid : ℕ) (hex : Bytes) → IsRobust (delete_color cid hex)
unfolding delete_color
delete_color-IsRobust cid hex =
    bind-IsRobust _ _ (change-IsRobust storage_error _ storage_error-Reports (λ w. refl))
      (λ n. affected-IsRobust n not_found)

pub delete_color-IsAtomic : (cid : ℕ) (hex : Bytes) → IsAtomic (delete_color cid hex)
unfolding delete_color
delete_color-IsAtomic cid hex =
    then-IsAtomic _ _ (change-IsAtomic storage_error _) (λ n. not_found-IsCalm n)

pub delete_all_colors-IsRobust : (cid : ℕ) → IsRobust (delete_all_colors cid)
unfolding delete_all_colors
delete_all_colors-IsRobust cid =
    bind-IsRobust _ _ (change-IsRobust storage_error _ storage_error-Reports (λ w. refl))
      (λ n. pure-IsRobust tt)

pub delete_all_colors-IsAtomic : (cid : ℕ) → IsAtomic (delete_all_colors cid)
unfolding delete_all_colors
delete_all_colors-IsAtomic cid =
    then-IsAtomic _ _ (change-IsAtomic storage_error _) (λ n. record { at = λ w. refl })

pub delete_collection-IsRobust : (uid cid : ℕ) → IsRobust (delete_collection uid cid)
unfolding delete_collection
delete_collection-IsRobust uid cid =
    bind-IsRobust _ _ (change-IsRobust storage_error _ storage_error-Reports (λ w. refl))
      (λ n. affected-IsRobust n not_found)

pub delete_collection-IsAtomic : (uid cid : ℕ) → IsAtomic (delete_collection uid cid)
unfolding delete_collection
delete_collection-IsAtomic uid cid =
    then-IsAtomic _ _ (change-IsAtomic storage_error _) (λ n. not_found-IsCalm n)

pub delete_user-IsRobust : (uid : ℕ) → IsRobust (delete_user uid)
unfolding delete_user
delete_user-IsRobust uid =
    bind-IsRobust _ _ (change-IsRobust storage_error _ storage_error-Reports (λ w. refl))
      (λ n. affected-IsRobust n user_not_found)

pub delete_user-IsAtomic : (uid : ℕ) → IsAtomic (delete_user uid)
unfolding delete_user
delete_user-IsAtomic uid =
    then-IsAtomic _ _ (change-IsAtomic storage_error _) (λ n. user_not_found-IsCalm n)

pub collection_by_id-IsRobust : (uid cid : ℕ) → IsRobust (collection_by_id uid cid)
unfolding collection_by_id
collection_by_id-IsRobust uid cid =
    bind-IsRobust _ _ (select-IsRobust collection_error _ collection_error-Reports (λ w. refl))
      (λ r. pure-IsRobust r.clt)

pub collection_by_id-IsReading : (uid cid : ℕ) → IsReading (collection_by_id uid cid)
unfolding collection_by_id
collection_by_id-IsReading uid cid =
    bind-IsReading _ _ (select-IsReading collection_error _) (λ r. pure-IsReading r.clt)

pub lock_user-IsRobust : (uid : ℕ) → IsRobust (lock_user uid)
unfolding lock_user
lock_user-IsRobust uid =
    bind-IsRobust _ _ (select-IsRobust user_error _ user_error-Reports (λ w. refl))
      (λ u. pure-IsRobust tt)

pub count_collections-IsRobust : (uid : ℕ) → IsRobust (count_collections uid)
unfolding count_collections
count_collections-IsRobust uid = gets-IsRobust storage_error _ storage_error-Reports (λ w. refl)

pub create_collection-IsRobust : (uid : ℕ) (p : CreateParams) → IsRobust (create_collection uid p)
unfolding create_collection
create_collection-IsRobust uid p =
    query-IsRobust create_collection_error _ (insert_collection-IsPlain uid p)
      create_collection_error-Reports

pub create_user-IsRobust : (u : User) → IsRobust (create_user u)
unfolding create_user
create_user-IsRobust u =
    query-IsRobust create_user_error _ (insert_user-IsPlain u) create_user_error-Reports
