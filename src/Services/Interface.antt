-- ===== src/Services/Interface.antt =====
-- The services as the handlers see them (internal/handlers/user_handler.go, token_handler.go,
-- collection_handler.go and color_handler.go), and the services of internal/usersvc, authsvc,
-- collectionsvc and colorsvc, which satisfy them.
pub mod Lawful
pub mod Reliable
use wavelen.Prelude.{ℕ, Bytes, Bool, List}
use wavelen.Domain.Names.{Validation}
use wavelen.Domain.Auth.{Hashing}
use wavelen.Storage.Schema.{User, Token, Collection, CreateParams, UpdateParams}
use wavelen.Storage.Actions.{M}
use wavelen.Storage.Colors.{ColorPage}
use wavelen.Storage.Colors.Sorting.{ListColorsParams}
use wavelen.Storage.Export.{CltWithColors}
use wavelen.Services.UserSvc.{create_account, account, delete_account, export_user}
use wavelen.Services.AuthSvc.{login, logout}
use wavelen.Services.CollectionSvc.{
  create_collection_for, list_collections_of, collection_of, update_collection_of,
  delete_collection_of,
}
use wavelen.Services.ColorSvc.{
  add_color_to, list_colors_of, delete_color_from, delete_all_colors_from,
}

-- An id of a user is filled in on the record that is returned.
pub record UserService : Type 0 where
  pub create_user : User → M User
  pub user_by_id : ℕ → M User
  pub delete_user : ℕ → M (Unit {0})
  pub export_user : ℕ → M (User × List CltWithColors)

-- A login draws the plaintext of its token: its first argument.
pub record TokenService : Type 0 where
  pub login : Bytes → Bytes → Bytes → M Token
  pub logout : Bytes → M (Unit {0})

pub record CollectionService : Type 0 where
  pub create_collection : ℕ → CreateParams → M Collection
  pub list_collections : ℕ → M (List Collection)
  pub collection_by_id : ℕ → ℕ → M Collection
  pub update_collection : ℕ → ℕ → UpdateParams → M Collection
  pub delete_collection : ℕ → ℕ → M (Unit {0})

pub record ColorService : Type 0 where
  pub add_color : ℕ → ℕ → Bytes → M Bool
  pub list_colors : ℕ → ℕ → ListColorsParams → M ColorPage
  pub delete_color : ℕ → ℕ → Bytes → M (Unit {0})
  pub delete_all_colors : ℕ → ℕ → M (Unit {0})

pub record Services : Type 0 where
  pub users : UserService
  pub tokens : TokenService
  pub collections : CollectionService
  pub colors : ColorService

-- The services over Postgres, with their quotas and the lifetime of a token.
abbrev pub services : Validation → Hashing → ℕ → ℕ → ℕ → Services
services v h color_quota collection_quota ttl = record {
  users = record {
    create_user = create_account;
    user_by_id = account;
    delete_user = delete_account;
    export_user = export_user;
  };
  tokens = record { login = login v h ttl; logout = logout };
  collections = record {
    create_collection = create_collection_for collection_quota;
    list_collections = list_collections_of;
    collection_by_id = collection_of;
    update_collection = update_collection_of;
    delete_collection = delete_collection_of;
  };
  colors = record {
    add_color = add_color_to color_quota;
    list_colors = list_colors_of;
    delete_color = delete_color_from;
    delete_all_colors = delete_all_colors_from;
  };
}
