-- ===== src/Services/UserSvc/Refinement.antt =====
-- What the account service promises, on the tables alone, and its methods against it.
use wavelen.Prelude.{
  ℕ, true, [], ◌∷◌, ◌++◌, any, if◌then◌else◌, ok, err, ◌≡◌, inl, inr, Bool-cases, arith,
  count-eq-zero, count-pos, any-append, ==_refl, nat_eq,
}
use wavelen.Errors.{user_not_found, duplicate_nickname, unique_violation, storage_error}
use wavelen.Storage.Schema.{User, has_user_id}
use wavelen.Storage.Actions.{World, statement, in_tx}
use wavelen.Storage.Faults.{IsRobust, in_tx-IsRobust, in_tx-IsAtomic, bind-IsRobust, pure-IsRobust}
use wavelen.Storage.Promises.{Promise, Implements, Keeps, Keeps-Implements}
use wavelen.Storage.Users.{create_user, delete_user, clashes}
use wavelen.Storage.Cascade.{without_account, remove_user_lem}
use wavelen.Storage.Collections
use wavelen.Storage.Collections.{new_row, create_collection}
use wavelen.Storage.Methods.{
  create_user-IsRobust, create_collection-IsRobust, delete_user-IsRobust, delete_user-IsAtomic,
}
use wavelen.Services.UserSvc.{default_params, create_user_tx, create_account, delete_account}

-- The row of a new account.
abbrev pub new_user : World → User → User
new_user w u = record u { id = w.user_seq; created_at = w.now }

-- A taken nickname is refused; otherwise the account comes with its default collection, unless
-- the database refuses that one.
abbrev pub create_account_promise : User → World → Promise User
create_account_promise u w =
    let row = new_row w w.user_seq default_params in
    if any (clashes w (new_user w u)) w.tables.users
    then (err duplicate_nickname, w.tables)
    else if any (Collections.clashes row) w.tables.collections
    then (err (storage_error unique_violation), w.tables)
    else (
      ok (new_user w u),
      record w.tables {
        users = w.tables.users ++ new_user w u ∷ [];
        collections = w.tables.collections ++ row ∷ [];
      },
    )

pub create_user_tx-IsRobust : (u : User) → IsRobust (create_user_tx u)
unfolding create_user_tx
create_user_tx-IsRobust u =
    search (bind-IsRobust, pure-IsRobust, create_user-IsRobust, create_collection-IsRobust) depth 8

any-new_user :
    (w : World) (u : User)
    → any (has_user_id w.user_seq) (w.tables.users ++ new_user w u ∷ []) ≡ true
unfolding any
any-new_user w u = simp any-append (ground (arith, ==_refl w.user_seq))

create_account-Keeps :
    (u : User) (w : World) → Keeps (create_account u) w (create_account_promise u w)
unfolding create_account in_tx create_user create_collection
create_account-Keeps u w = ground (arith, any-new_user w u)

-- Creating an account implements the promise, or reports a failure of the database and changes
-- nothing.
pub create_account-Implements :
    (u : User) (w : World) → Implements (create_account u) w (create_account_promise u w)
unfolding create_account
create_account-Implements u w =
    Keeps-Implements _ w _ (in_tx-IsRobust _ (create_user_tx-IsRobust u))
      (in_tx-IsAtomic λ _. create_user_tx u) (create_account-Keeps u w)

-- The account goes with all that cascades; an unknown one is reported.
abbrev pub delete_account_promise : ℕ → World → Promise (Unit {0})
delete_account_promise uid w =
    if any (has_user_id uid) w.tables.users
    then (ok tt, without_account uid w.tables)
    else (err user_not_found, w.tables)

delete_account-Keeps :
    (uid : ℕ) (w : World) → Keeps (delete_account uid) w (delete_account_promise uid w)
unfolding delete_account delete_user statement
delete_account-Keeps uid w = elim (Bool-cases (any (has_user_id uid) w.tables.users)) [
  | inl h ↦
      ground (arith, count-pos (has_user_id uid) w.tables.users h, remove_user_lem uid w.tables)
  | inr h ↦ ground (arith, count-eq-zero (has_user_id uid) w.tables.users h)
]

-- Deleting an account implements the promise, or reports a failure of the database and changes
-- nothing.
pub delete_account-Implements :
    (uid : ℕ) (w : World) → Implements (delete_account uid) w (delete_account_promise uid w)
unfolding delete_account
delete_account-Implements uid w =
    Keeps-Implements _ w _ (delete_user-IsRobust uid) (delete_user-IsAtomic uid)
      (delete_account-Keeps uid w)
