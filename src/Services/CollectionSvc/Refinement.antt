-- ===== src/Services/CollectionSvc/Refinement.antt =====
-- What the collection service promises, on the tables alone, and its methods against it.
use wavelen.Prelude.{
  ℕ, true, false, some, none, List, [], ◌∷◌, ◌++◌, not, any, find, count, leb, if◌then◌else◌, ok,
  err, ◌≡◌, inl, inr, Bool-cases, arith, any-find-none, Option, Option-cases, count-pos_of_find,
  any_of_count,
}
use wavelen.Errors.{
  not_found, user_not_found, collection_quota_full, delete_default, unique_violation, storage_error,
}
use wavelen.Storage.Schema.{
  Collection, CreateParams, CollectionRow, User, has_user_id, owned_by, owned_with_id,
}
use wavelen.Storage.Actions.{World, statement, in_tx}
use wavelen.Storage.Faults.{
  IsRobust, IsAtomic, in_tx-IsRobust, in_tx-IsAtomic, bind-IsRobust, if-IsRobust, raise-IsRobust,
}
use wavelen.Storage.Faults.Reading.{bind-IsAtomic, if-IsAtomic, raise-IsReading, IsReading-IsAtomic}
use wavelen.Storage.Cascade.{without_collection, delete_collections-own}
use wavelen.Storage.Promises.{Promise, Implements, Keeps, Keeps-Implements}
use wavelen.Storage.Users.{lock_user}
use wavelen.Storage.Collections.{
  clashes, new_row, create_collection, count_collections, collection_by_id, delete_collection,
}
use wavelen.Storage.Methods.{
  lock_user-IsRobust, count_collections-IsRobust, create_collection-IsRobust,
  collection_by_id-IsRobust, collection_by_id-IsReading, delete_collection-IsRobust,
  delete_collection-IsAtomic,
}
use wavelen.Services.CollectionSvc.{
  create_collection_tx, create_collection_for, delete_collection_of,
}

-- Only for an existing user below the quota; the row is no default and has a fresh id.
abbrev pub create_promise : ℕ → ℕ → CreateParams → World → Promise Collection
create_promise quota uid p w =
    let row = new_row w uid (record p { is_default = false }) in
    if not (any (has_user_id uid) w.tables.users)
    then (err user_not_found, w.tables)
    else if leb quota (count (owned_by uid) w.tables.collections)
    then (err collection_quota_full, w.tables)
    else if any (clashes row) w.tables.collections
    then (err (storage_error unique_violation), w.tables)
    else (ok row.clt, record w.tables { collections = w.tables.collections ++ row ∷ [] })

pub find_user :
    (uid : ℕ) (users : List User)
    → any (has_user_id uid) users ≡ true
    → (u : User) × (find (has_user_id uid) users ≡ some u)
unfolding any find
find_user uid [] h = cc
find_user uid (u ∷ users) h = elim (Bool-cases (has_user_id uid u)) [
  | inl hit ↦ (u, rw hit)
  | inr miss ↦ let (s, e) = find_user uid users (ground arith) in (s, rw miss e)
]

pub create_collection_tx-IsRobust :
    (quota uid : ℕ) (p : CreateParams) → IsRobust (create_collection_tx quota uid p)
unfolding create_collection_tx
create_collection_tx-IsRobust quota uid p =
    search
      (
        bind-IsRobust, if-IsRobust, raise-IsRobust, lock_user-IsRobust, count_collections-IsRobust,
        create_collection-IsRobust,
      )
      depth 8

create_collection_for-Keeps :
    (quota uid : ℕ) (p : CreateParams) (w : World)
    → Keeps (create_collection_for quota uid p) w (create_promise quota uid p w)
unfolding create_collection_for in_tx lock_user count_collections create_collection
create_collection_for-Keeps quota uid p w =
    elim (Bool-cases (any (has_user_id uid) w.tables.users)) [
      | inl known ↦ let (u, e) = find_user uid w.tables.users known in ground arith
      | inr unknown ↦ ground (arith, any-find-none (has_user_id uid) w.tables.users unknown)
    ]

-- Creating a collection implements the promise, or reports a failure of the database and changes
-- nothing.
pub create_collection_for-Implements :
    (quota uid : ℕ) (p : CreateParams) (w : World)
    → Implements (create_collection_for quota uid p) w (create_promise quota uid p w)
unfolding create_collection_for
create_collection_for-Implements quota uid p w =
    Keeps-Implements _ w _ (in_tx-IsRobust _ (create_collection_tx-IsRobust quota uid _))
      (in_tx-IsAtomic λ _. create_collection_tx quota uid _)
      (create_collection_for-Keeps quota uid p w)

pub found_owned :
    (uid cid : ℕ) (rows : List CollectionRow) (r : CollectionRow)
    → find (owned_with_id uid cid) rows ≡ some r
    → any (owned_with_id uid cid) rows ≡ true
found_owned uid cid rows r e =
    any_of_count (owned_with_id uid cid) rows (count-pos_of_find (owned_with_id uid cid) rows r e)

delete_found : ℕ → ℕ → World → Option CollectionRow → Promise (Unit {0})
delete_found uid cid w none = (err not_found, w.tables)
delete_found uid cid w (some r) =
    if r.is_default
    then (err delete_default, w.tables)
    else (ok tt, without_collection uid cid w.tables)

-- Only an own collection that is not the default one, with all its colors.
unfoldable pub delete_promise : ℕ → ℕ → World → Promise (Unit {0})
unfolding delete_found
delete_promise uid cid w =
    delete_found uid cid w (find (owned_with_id uid cid) w.tables.collections)

pub delete_collection_of-IsRobust : (uid cid : ℕ) → IsRobust (delete_collection_of uid cid)
unfolding delete_collection_of
delete_collection_of-IsRobust uid cid = bind-IsRobust _ _ (collection_by_id-IsRobust uid cid) λ c.
    if-IsRobust c.is_default _ _ (raise-IsRobust delete_default)
      (delete_collection-IsRobust uid cid)

pub delete_collection_of-IsAtomic : (uid cid : ℕ) → IsAtomic (delete_collection_of uid cid)
unfolding delete_collection_of
delete_collection_of-IsAtomic uid cid = bind-IsAtomic _ _ (collection_by_id-IsReading uid cid) λ c.
    if-IsAtomic c.is_default _ _ (IsReading-IsAtomic _ (raise-IsReading delete_default))
      (delete_collection-IsAtomic uid cid)

delete_collection_of-Keeps :
    (uid cid : ℕ) (w : World) → Keeps (delete_collection_of uid cid) w (delete_promise uid cid w)
unfolding delete_collection_of collection_by_id delete_collection delete_promise statement
delete_collection_of-Keeps uid cid w =
    elim (Option-cases (find (owned_with_id uid cid) w.tables.collections)) [
      | inl e ↦ ground arith
      | inr (r, e) ↦ ground (
        arith,
        count-pos_of_find (owned_with_id uid cid) w.tables.collections r e,
        delete_collections-own uid cid w.tables (found_owned uid cid w.tables.collections r e),
      )
    ]

-- Deleting a collection implements the promise, or reports a failure of the database and changes
-- nothing.
pub delete_collection_of-Implements :
    (uid cid : ℕ) (w : World)
    → Implements (delete_collection_of uid cid) w (delete_promise uid cid w)
delete_collection_of-Implements uid cid w =
    Keeps-Implements _ w _ (delete_collection_of-IsRobust uid cid)
      (delete_collection_of-IsAtomic uid cid) (delete_collection_of-Keeps uid cid w)
