-- ===== src/Services/Interface/Lawful.antt =====
-- What the handlers of internal/handlers may rely on, and the services of internal/usersvc,
-- authsvc, collectionsvc and colorsvc.
use wavelen.Prelude.{ℕ, Bytes}
use wavelen.Domain.Names.{Validation}
use wavelen.Domain.Auth.{Hashing}
use wavelen.Storage.Schema.{User, CreateParams, UpdateParams}
use wavelen.Storage.Colors.Sorting.{ListColorsParams}
use wavelen.Storage.Methods.{
  delete_user-IsRobust, delete_user-IsAtomic, collection_by_id-IsRobust, collection_by_id-IsReading,
}
use wavelen.Storage.Interface.Reliable.{
  IsReliable, reading, delete_token-IsReliable, list_collections-IsReliable,
  update_collection-IsReliable, user_by_id-IsReliable,
}
use wavelen.Services.UserSvc.{account, delete_account}
use wavelen.Services.AuthSvc.{logout}
use wavelen.Services.CollectionSvc.{list_collections_of, collection_of, update_collection_of}
use wavelen.Services.CollectionSvc.Refinement.{
  delete_collection_of-IsRobust, delete_collection_of-IsAtomic,
}
use wavelen.Services.Interface.{Services, services}
use wavelen.Services.Interface.Reliable.{
  create_account-IsReliable, export_user-IsReliable, login-IsReliable,
  create_collection_for-IsReliable, add_color_to-IsReliable, list_colors_of-IsReliable,
  delete_color_from-IsReliable, delete_all_colors_from-IsReliable,
}

-- Every method is reliable.
pub record IsLawful (s : Services) : Type 0 where
  pub create_user : (u : User) → IsReliable (s.users.create_user u)
  pub user_by_id : (id : ℕ) → IsReliable (s.users.user_by_id id)
  pub delete_user : (id : ℕ) → IsReliable (s.users.delete_user id)
  pub export_user : (id : ℕ) → IsReliable (s.users.export_user id)
  pub login :
      (random nickname password : Bytes) → IsReliable (s.tokens.login random nickname password)
  pub logout : (hash : Bytes) → IsReliable (s.tokens.logout hash)
  pub create_collection :
      (uid : ℕ) (p : CreateParams) → IsReliable (s.collections.create_collection uid p)
  pub list_collections : (uid : ℕ) → IsReliable (s.collections.list_collections uid)
  pub collection_by_id : (uid id : ℕ) → IsReliable (s.collections.collection_by_id uid id)
  pub update_collection :
      (uid id : ℕ) (p : UpdateParams) → IsReliable (s.collections.update_collection uid id p)
  pub delete_collection : (uid id : ℕ) → IsReliable (s.collections.delete_collection uid id)
  pub add_color : (uid cid : ℕ) (hex : Bytes) → IsReliable (s.colors.add_color uid cid hex)
  pub list_colors :
      (uid cid : ℕ) (p : ListColorsParams) → IsReliable (s.colors.list_colors uid cid p)
  pub delete_color : (uid cid : ℕ) (hex : Bytes) → IsReliable (s.colors.delete_color uid cid hex)
  pub delete_all_colors : (uid cid : ℕ) → IsReliable (s.colors.delete_all_colors uid cid)

-- Whatever the database does, and whatever the quotas and the lifetime of tokens are: each method
-- of the services either reports a failure of the database and leaves the tables as they were, or
-- does what it does on a database that answers.
pub services-IsLawful :
    (v : Validation) (h : Hashing) (color_quota collection_quota ttl : ℕ)
    → IsLawful (services v h color_quota collection_quota ttl)
unfolding account delete_account logout list_collections_of collection_of update_collection_of
services-IsLawful v h color_quota collection_quota ttl = record {
  create_user = create_account-IsReliable;
  user_by_id = user_by_id-IsReliable;
  delete_user = λ id. record { robust = delete_user-IsRobust id; atomic = delete_user-IsAtomic id };
  export_user = export_user-IsReliable;
  login = login-IsReliable v h ttl;
  logout = delete_token-IsReliable;
  create_collection = create_collection_for-IsReliable collection_quota;
  list_collections = list_collections-IsReliable;
  collection_by_id =
      λ uid id. reading _ (collection_by_id-IsRobust uid id) (collection_by_id-IsReading uid id);
  update_collection = update_collection-IsReliable;
  delete_collection = λ uid id. record {
    robust = delete_collection_of-IsRobust uid id;
    atomic = delete_collection_of-IsAtomic uid id;
  };
  add_color = add_color_to-IsReliable color_quota;
  list_colors = list_colors_of-IsReliable;
  delete_color = delete_color_from-IsReliable;
  delete_all_colors = delete_all_colors_from-IsReliable;
}
