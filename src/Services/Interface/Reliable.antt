-- ===== src/Services/Interface/Reliable.antt =====
-- The services of internal/usersvc, authsvc, collectionsvc and colorsvc under a failing database.
use wavelen.Prelude.{on_err, ℕ, Bytes, Bool, true, false, Result, ok, err, ◌≡◌, refl, ap, inl, inr}
use wavelen.Errors.{Error, is, storage_error, driver, invalid_credentials}
use wavelen.Domain.Names.{Validation, normalize_nickname}
use wavelen.Domain.Auth.{Hashing, password_matches, new_token}
use wavelen.Storage.Schema.{User, Token, CreateParams}
use wavelen.Storage.Actions.{World, M, Querier, pool, tx, in_tx, rescue, gets, raise, ◌>>=◌}
use wavelen.Storage.Faults.{
  is_fault, IsRobust, IsReading, in_tx-IsRobust, in_tx-IsAtomic, bind-IsRobust, pure-IsRobust,
  raise-IsRobust,
}
use wavelen.Storage.Faults.Reading.{bind-IsAtomic, then-IsAtomic, raise-IsReading}
use wavelen.Storage.Colors.Sorting.{ListColorsParams}
use wavelen.Storage.Statements.{select-IsReading}
use wavelen.Storage.Methods.{
  resolve_collection-IsRobust, resolve_collection-IsReading, delete_color-IsRobust,
  delete_color-IsAtomic, delete_all_colors-IsRobust, delete_all_colors-IsAtomic,
}
use wavelen.Storage.Interface.Reliable.{
  IsReliable, reading, export_collections-IsReliable, insert_token-IsReliable,
  list_colors-IsReliable, user_by_id-IsReliable, user_by_nickname-IsReliable,
}
use wavelen.Storage.Collections.{resolve_collection}
use wavelen.Storage.Users.{user_by_nickname}
use wavelen.Services.UserSvc.{create_account, export_user}
use wavelen.Services.UserSvc.Refinement.{create_user_tx-IsRobust}
use wavelen.Services.AuthSvc.{lookup_error, store_token, check_password, login_as, login}
use wavelen.Services.CollectionSvc.{create_collection_for}
use wavelen.Services.CollectionSvc.Refinement.{create_collection_tx-IsRobust}
use wavelen.Services.ColorSvc.{
  add_color_to, list_colors_of, delete_color_from, delete_all_colors_from,
}
use wavelen.Services.ColorSvc.Refinement.{add_color_tx-IsRobust}

module _ {A : Type 0} where
  tx-IsReliable : (fn : Querier → M A) → IsRobust (fn tx) → IsReliable (in_tx pool fn)
  tx-IsReliable fn r = record { robust = in_tx-IsRobust fn r; atomic = in_tx-IsAtomic fn }

  raise-IsReliable : (e : Error) → IsReliable (raise {A = A} e)
  raise-IsReliable e = reading _ (raise-IsRobust e) (raise-IsReading e)

  -- An error that is turned into another one, where a failure stays.
  fault_kept :
      (f : Error → Error) (r : Result Error A)
      → ((e : ℕ) → f (storage_error (driver e)) ≡ storage_error (driver e))
      → is_fault r ≡ true
      → is_fault (on_err f r) ≡ true
  fault_kept f (ok a) k h = cc
  fault_kept f (err (storage_error (driver e))) k h = rw (k e) refl
  fault_kept f (err x) k h = cc

  rescue-IsRobust :
      (f : Error → Error) (m : M A)
      → ((e : ℕ) → f (storage_error (driver e)) ≡ storage_error (driver e))
      → IsRobust m
      → IsRobust (rescue f m)
  rescue-IsRobust f m k r = record {
    at = λ w. elim (r.at w) [
      | inl h ↦ inl (fault_kept f (m w).0 k h)
      | inr e ↦ inr (ap (λ (x : Result Error A × World). (on_err f x.0, x.1)) e)
    ];
  }

  rescue-IsReading : (f : Error → Error) (m : M A) → IsReading m → IsReading (rescue f m)
  rescue-IsReading f m r = record { at = r.at }

module _ {A B : Type 0} where
  -- Reads first.
  bind-IsReliable :
      (m : M A) (f : A → M B)
      → IsRobust m
      → IsReading m
      → ((a : A) → IsReliable (f a))
      → IsReliable (m >>= f)
  bind-IsReliable m f r q k = record {
    robust = bind-IsRobust f m r (λ a. (k a).robust);
    atomic = bind-IsAtomic f m q (λ a. (k a).atomic);
  }

-- Users
pub create_account-IsReliable : (u : User) → IsReliable (create_account u)
unfolding create_account
create_account-IsReliable u = tx-IsReliable _ (create_user_tx-IsRobust u)

pub export_user-IsReliable : (id : ℕ) → IsReliable (export_user id)
unfolding export_user
export_user-IsReliable id = tx-IsReliable _ (
    bind-IsRobust _ _ (user_by_id-IsReliable id).robust
      λ u. bind-IsRobust _ _ (export_collections-IsReliable id).robust λ cs. pure-IsRobust (u, cs))

-- Tokens
lookup-IsReading : (nickname : Bytes) → IsReading (rescue lookup_error (user_by_nickname nickname))
unfolding user_by_nickname
lookup-IsReading nickname = rescue-IsReading lookup_error _ (select-IsReading _ _)

lookup-IsRobust : (nickname : Bytes) → IsRobust (rescue lookup_error (user_by_nickname nickname))
unfolding lookup_error is
lookup-IsRobust nickname =
    rescue-IsRobust _ _ (λ e. refl) (user_by_nickname-IsReliable nickname).robust

module _ (v : Validation) (h : Hashing) (ttl : ℕ) (random : Bytes) where
  store_token-IsReliable : (u : User) → IsReliable (store_token v h ttl random u)
  unfolding store_token
  store_token-IsReliable u =
      bind-IsReliable (gets (λ w. w.now)) _ (record { at = λ w. inr refl })
        (record { at = λ w. refl })
        λ now.
          let token = new_token h random now u.id ttl in
          record {
            robust =
                bind-IsRobust _ _ (insert_token-IsReliable token).robust (λ _. pure-IsRobust token);
            atomic =
                then-IsAtomic _ _ (insert_token-IsReliable token).atomic
                  (λ _. record { at = λ w. refl });
          }

  check_password-IsReliable :
      (password : Bytes) (u : User) → IsReliable (check_password v h ttl random password u)
  unfolding check_password
  check_password-IsReliable password u =
      let go = λ (r : Result Error Bool). elim r as (λ _. M Token) [
        | ok true ↦ store_token v h ttl random u
        | ok false ↦ raise invalid_credentials
        | err e ↦ raise invalid_credentials
      ] in
      elim (password_matches h u.password_hash password) as (λ r. IsReliable (go r)) [
        | ok true ↦ store_token-IsReliable u
        | ok false ↦ raise-IsReliable invalid_credentials
        | err e ↦ raise-IsReliable invalid_credentials
      ]

  login_as-IsReliable :
      (password : Bytes) (r : Result Error Bytes) → IsReliable (login_as v h ttl random password r)
  unfolding login_as
  login_as-IsReliable password (err e) = raise-IsReliable invalid_credentials
  login_as-IsReliable password (ok nickname) =
      bind-IsReliable _ _ (lookup-IsRobust nickname) (lookup-IsReading nickname)
        (check_password-IsReliable password)

  pub login-IsReliable :
      (nickname password : Bytes) → IsReliable (login v h ttl random nickname password)
  unfolding login
  login-IsReliable nickname password = login_as-IsReliable password (normalize_nickname v nickname)

-- Collections
module _ (quota uid : ℕ) where
  pub create_collection_for-IsReliable :
      (p : CreateParams) → IsReliable (create_collection_for quota uid p)
  unfolding create_collection_for
  create_collection_for-IsReliable p = tx-IsReliable _ (create_collection_tx-IsRobust quota uid _)

  -- Colors
  pub add_color_to-IsReliable :
      (cid : ℕ) (hex : Bytes) → IsReliable (add_color_to quota uid cid hex)
  unfolding add_color_to
  add_color_to-IsReliable cid hex = tx-IsReliable _ (add_color_tx-IsRobust quota uid cid hex)

module _ (uid cid : ℕ) where
  in_own-IsReliable :
      {A : Type 0} (f : ℕ → M A)
      → ((owned : ℕ) → IsReliable (f owned))
      → IsReliable (resolve_collection uid cid >>= f)
  in_own-IsReliable f k =
      bind-IsReliable _ f (resolve_collection-IsRobust uid cid)
        (resolve_collection-IsReading uid cid) k

  pub list_colors_of-IsReliable : (p : ListColorsParams) → IsReliable (list_colors_of uid cid p)
  unfolding list_colors_of
  list_colors_of-IsReliable p = in_own-IsReliable _ λ owned. list_colors-IsReliable owned p

  pub delete_color_from-IsReliable : (hex : Bytes) → IsReliable (delete_color_from uid cid hex)
  unfolding delete_color_from
  delete_color_from-IsReliable hex = in_own-IsReliable _ λ owned. record {
    robust = delete_color-IsRobust owned hex;
    atomic = delete_color-IsAtomic owned hex;
  }

  pub delete_all_colors_from-IsReliable : IsReliable (delete_all_colors_from uid cid)
  unfolding delete_all_colors_from
  delete_all_colors_from-IsReliable = in_own-IsReliable _ λ owned. record {
    robust = delete_all_colors-IsRobust owned;
    atomic = delete_all_colors-IsAtomic owned;
  }
