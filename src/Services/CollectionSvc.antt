-- ===== src/Services/CollectionSvc.antt =====
-- internal/collectionsvc/collectionsvc.go
pub mod Interleaving
pub mod Refinement
use wavelen.Prelude.{ℕ, List, false, leb, if◌then◌else◌}
use wavelen.Errors.{collection_quota_full, delete_default}
use wavelen.Storage.Schema.{Collection, CreateParams, UpdateParams}
use wavelen.Storage.Actions.{M, pool, in_tx, raise, ◌>>=◌, ◌>>◌}
use wavelen.Storage.Users.{lock_user}
use wavelen.Storage.Collections.{
  create_collection, list_collections, count_collections, collection_by_id, update_collection,
  delete_collection,
}

-- The body of the transaction of `CreateCollection`.
unfoldable pub create_collection_tx : ℕ → ℕ → CreateParams → M Collection
create_collection_tx quota uid p = do
  lock_user uid
  n ← count_collections uid
  if leb quota n then raise collection_quota_full else create_collection uid p

-- `CollectionSvc.CreateCollection`: never a default one.
unfoldable pub create_collection_for : ℕ → ℕ → CreateParams → M Collection
unfolding create_collection_tx
create_collection_for quota uid p =
    in_tx pool λ _. create_collection_tx quota uid (record p { is_default = false })

-- `CollectionSvc.ListCollections`
unfoldable pub list_collections_of : ℕ → M (List Collection)
list_collections_of uid = list_collections uid

-- `CollectionSvc.CollectionByID`
unfoldable pub collection_of : ℕ → ℕ → M Collection
collection_of uid id = collection_by_id uid id

-- `CollectionSvc.UpdateCollection`
unfoldable pub update_collection_of : ℕ → ℕ → UpdateParams → M Collection
update_collection_of uid id p = update_collection uid id p

-- `CollectionSvc.DeleteCollection`
unfoldable pub delete_collection_of : ℕ → ℕ → M (Unit {0})
delete_collection_of uid id = do
  col ← collection_by_id uid id
  if col.is_default then raise delete_default else delete_collection uid id
