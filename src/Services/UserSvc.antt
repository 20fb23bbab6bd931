-- ===== src/Services/UserSvc.antt =====
-- internal/usersvc/usersvc.go
pub mod Refinement
use wavelen.Prelude.{ℕ, codes, Bytes, List, true}
use wavelen.Domain.Icon.{default_icon}
use wavelen.Storage.Schema.{User, CreateParams}
use wavelen.Storage.Export.{CltWithColors, export_collections}
use wavelen.Storage.Actions.{M, pool, in_tx, pure, ◌>>=◌, ◌>>◌}
use wavelen.Storage.Users.{create_user, user_by_id, delete_user}
use wavelen.Storage.Collections.{create_collection}

-- `clt.DefIconAccent`
abbrev pub default_accent : Bytes
default_accent = codes "#dbd7d0"

-- The collection that an account starts with.
abbrev pub default_params : CreateParams
default_params = record {
  name = codes "Main";
  icon = default_icon;
  accent = default_accent;
  is_default = true;
}

-- The body of the transaction of `CreateUser`.
unfoldable pub create_user_tx : User → M User
create_user_tx u = do u' ← create_user u; create_collection u'.id default_params; pure u'

-- `Users.CreateUser`: the account with its default collection.
unfoldable pub create_account : User → M User
unfolding create_user_tx
create_account u = in_tx pool λ _. create_user_tx u

-- `Users.UserByID`
unfoldable pub account : ℕ → M User
account id = user_by_id id

-- `Users.DeleteUser`
unfoldable pub delete_account : ℕ → M (Unit {0})
delete_account id = delete_user id

-- `Users.ExportUser`: both reads in one transaction.
unfoldable pub export_user : ℕ → M (User × List CltWithColors)
export_user id =
    in_tx pool λ _. do u ← user_by_id id; collections ← export_collections id; pure (u, collections)
