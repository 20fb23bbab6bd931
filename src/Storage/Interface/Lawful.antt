-- ===== src/Storage/Interface/Lawful.antt =====
-- What the clients of the interface of internal/storage/interface.go may rely on, and `Postgres`.
use wavelen.Prelude.{ℕ, Bytes}
use wavelen.Errors.{storage_error}
use wavelen.Storage.Schema.{User, Token, CreateParams, UpdateParams}
use wavelen.Storage.Actions.{rescue}
use wavelen.Storage.Colors.Sorting.{ListColorsParams}
use wavelen.Storage.Methods.{
  delete_user-IsRobust, delete_user-IsAtomic, collection_by_id-IsRobust, collection_by_id-IsReading,
  delete_collection-IsRobust, delete_collection-IsAtomic, resolve_collection-IsRobust,
  resolve_collection-IsReading, delete_color-IsRobust, delete_color-IsAtomic,
  delete_all_colors-IsRobust, delete_all_colors-IsAtomic,
}
use wavelen.Storage.Interface.{Storage, postgres}
use wavelen.Storage.Interface.Reliable.{
  IsReliable, reading, add_color-IsReliable, count_collections-IsReliable, count_colors-IsReliable,
  create_collection-IsReliable, create_user-IsReliable, delete_token-IsReliable,
  export_collections-IsReliable, has_color-IsReliable, insert_token-IsReliable,
  list_collections-IsReliable, list_colors-IsReliable, lock_collection-IsReliable,
  lock_user-IsReliable, ping-IsReliable, update_collection-IsReliable, user_by_id-IsReliable,
  user_by_nickname-IsReliable, user_id_for_token_hash-IsReliable,
}

-- Every method is reliable.
pub record IsLawful (s : Storage) : Type 0 where
  pub create_user : (u : User) → IsReliable (s.users.create_user u)
  pub user_by_nickname : (nickname : Bytes) → IsReliable (s.users.user_by_nickname nickname)
  pub user_by_id : (id : ℕ) → IsReliable (s.users.user_by_id id)
  pub delete_user : (id : ℕ) → IsReliable (s.users.delete_user id)
  pub lock_user : (id : ℕ) → IsReliable (s.users.lock_user id)
  pub insert_token : (t : Token) → IsReliable (s.tokens.insert_token t)
  pub user_id_for_token_hash : (hash : Bytes) → IsReliable (s.tokens.user_id_for_token_hash hash)
  pub delete_token : (hash : Bytes) → IsReliable (s.tokens.delete_token hash)
  pub create_collection :
      (uid : ℕ) (p : CreateParams) → IsReliable (s.collections.create_collection uid p)
  pub list_collections : (uid : ℕ) → IsReliable (s.collections.list_collections uid)
  pub count_collections : (uid : ℕ) → IsReliable (s.collections.count_collections uid)
  pub collection_by_id : (uid id : ℕ) → IsReliable (s.collections.collection_by_id uid id)
  pub update_collection :
      (uid id : ℕ) (p : UpdateParams) → IsReliable (s.collections.update_collection uid id p)
  pub delete_collection : (uid id : ℕ) → IsReliable (s.collections.delete_collection uid id)
  pub resolve_collection : (uid id : ℕ) → IsReliable (s.collections.resolve_collection uid id)
  pub lock_collection : (uid id : ℕ) → IsReliable (s.collections.lock_collection uid id)
  pub add_color : (cid : ℕ) (hex : Bytes) → IsReliable (s.colors.add_color cid hex)
  pub list_colors : (cid : ℕ) (p : ListColorsParams) → IsReliable (s.colors.list_colors cid p)
  pub count_colors : (cid : ℕ) → IsReliable (s.colors.count_colors cid)
  pub has_color : (cid : ℕ) (hex : Bytes) → IsReliable (s.colors.has_color cid hex)
  pub delete_color : (cid : ℕ) (hex : Bytes) → IsReliable (s.colors.delete_color cid hex)
  pub delete_all_colors : (cid : ℕ) → IsReliable (s.colors.delete_all_colors cid)
  pub export_collections : (uid : ℕ) → IsReliable (s.export.export_collections uid)
  pub ping : IsReliable (rescue storage_error s.health.ping)

pub postgres-IsLawful : IsLawful postgres
postgres-IsLawful = record {
  create_user = create_user-IsReliable;
  user_by_nickname = user_by_nickname-IsReliable;
  user_by_id = user_by_id-IsReliable;
  delete_user = λ id. record { robust = delete_user-IsRobust id; atomic = delete_user-IsAtomic id };
  lock_user = lock_user-IsReliable;
  insert_token = insert_token-IsReliable;
  user_id_for_token_hash = user_id_for_token_hash-IsReliable;
  delete_token = delete_token-IsReliable;
  create_collection = create_collection-IsReliable;
  list_collections = list_collections-IsReliable;
  count_collections = count_collections-IsReliable;
  collection_by_id =
      λ uid id. reading _ (collection_by_id-IsRobust uid id) (collection_by_id-IsReading uid id);
  update_collection = update_collection-IsReliable;
  delete_collection = λ uid id. record {
    robust = delete_collection-IsRobust uid id;
    atomic = delete_collection-IsAtomic uid id;
  };
  resolve_collection = λ uid id.
      reading _ (resolve_collection-IsRobust uid id) (resolve_collection-IsReading uid id);
  lock_collection = lock_collection-IsReliable;
  add_color = add_color-IsReliable;
  list_colors = list_colors-IsReliable;
  count_colors = count_colors-IsReliable;
  has_color = has_color-IsReliable;
  delete_color = λ cid hex. record {
    robust = delete_color-IsRobust cid hex;
    atomic = delete_color-IsAtomic cid hex;
  };
  delete_all_colors = λ cid. record {
    robust = delete_all_colors-IsRobust cid;
    atomic = delete_all_colors-IsAtomic cid;
  };
  export_collections = export_collections-IsReliable;
  ping = ping-IsReliable;
}
