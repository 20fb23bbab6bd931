-- ===== src/Storage/Interface.antt =====
-- internal/storage/interface.go: the repositories, as the services and the server see them, and
-- `Postgres`, which satisfies them all. `InTx` takes a function of the interface itself: it is
-- `in_tx` of Storage/Actions, for functions of the methods here.
pub mod Reliable
pub mod Lawful
use wavelen.Prelude.{ℕ, Bytes, Bool, List}
use wavelen.Storage.Schema.{User, Token, Collection, CreateParams, UpdateParams}
use wavelen.Storage.Actions.{M, Statement, ping}
use wavelen.Storage.Users.{create_user, user_by_nickname, user_by_id, delete_user, lock_user}
use wavelen.Storage.Tokens.{insert_token, user_id_for_token_hash, delete_token}
use wavelen.Storage.Collections.{
  create_collection, list_collections, count_collections, collection_by_id, update_collection,
  delete_collection, resolve_collection, lock_collection,
}
use wavelen.Storage.Colors.Sorting.{ListColorsParams}
use wavelen.Storage.Colors.{
  ColorPage, add_color, list_colors, count_colors, has_color, delete_color, delete_all_colors,
}
use wavelen.Storage.Export.{CltWithColors, export_collections}

-- An id of a user is filled in on the record that is returned.
pub record UserRepo : Type 0 where
  pub create_user : User → M User
  pub user_by_nickname : Bytes → M User
  pub user_by_id : ℕ → M User
  pub delete_user : ℕ → M (Unit {0})
  pub lock_user : ℕ → M (Unit {0})

pub record TokenRepo : Type 0 where
  pub insert_token : Token → M (Unit {0})
  pub user_id_for_token_hash : Bytes → M ℕ
  pub delete_token : Bytes → M (Unit {0})

pub record CollectionRepo : Type 0 where
  pub create_collection : ℕ → CreateParams → M Collection
  pub list_collections : ℕ → M (List Collection)
  pub count_collections : ℕ → M ℕ
  pub collection_by_id : ℕ → ℕ → M Collection
  pub update_collection : ℕ → ℕ → UpdateParams → M Collection
  pub delete_collection : ℕ → ℕ → M (Unit {0})
  pub resolve_collection : ℕ → ℕ → M ℕ
  pub lock_collection : ℕ → ℕ → M ℕ

pub record ColorRepo : Type 0 where
  pub add_color : ℕ → Bytes → M Bool
  pub list_colors : ℕ → ListColorsParams → M ColorPage
  pub count_colors : ℕ → M ℕ
  pub has_color : ℕ → Bytes → M Bool
  pub delete_color : ℕ → Bytes → M (Unit {0})
  pub delete_all_colors : ℕ → M (Unit {0})

pub record ExportRepo : Type 0 where
  pub export_collections : ℕ → M (List CltWithColors)

pub record HealthRepo : Type 0 where
  pub ping : Statement (Unit {0})

-- The interfaces that `Storage` embeds.
pub record Storage : Type 0 where
  pub users : UserRepo
  pub tokens : TokenRepo
  pub collections : CollectionRepo
  pub colors : ColorRepo
  pub export : ExportRepo
  pub health : HealthRepo

abbrev pub postgres : Storage
postgres = record {
  users = record {
    create_user = create_user;
    user_by_nickname = user_by_nickname;
    user_by_id = user_by_id;
    delete_user = delete_user;
    lock_user = lock_user;
  };
  tokens = record {
    insert_token = insert_token;
    user_id_for_token_hash = user_id_for_token_hash;
    delete_token = delete_token;
  };
  collections = record {
    create_collection = create_collection;
    list_collections = list_collections;
    count_collections = count_collections;
    collection_by_id = collection_by_id;
    update_collection = update_collection;
    delete_collection = delete_collection;
    resolve_collection = resolve_collection;
    lock_collection = lock_collection;
  };
  colors = record {
    add_color = add_color;
    list_colors = list_colors;
    count_colors = count_colors;
    has_color = has_color;
    delete_color = delete_color;
    delete_all_colors = delete_all_colors;
  };
  export = record { export_collections = export_collections };
  health = record { ping = ping };
}
