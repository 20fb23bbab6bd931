-- ===== src/Services/Consistency/Reachable.antt =====
-- What the program can do to its tables, as steps, and the states that it reaches.
use wavelen.Prelude.{ℕ, Bytes, true, count, any, ◌≡◌, refl, sym, subst, arith}
use wavelen.Color.Hex.{is_hex}
use wavelen.Domain.Names.{Validation}
use wavelen.Domain.Auth.{Hashing}
use wavelen.Storage.Schema.{User, CreateParams, UpdateParams, empty_tables}
use wavelen.Storage.Actions.{World}
use wavelen.Services.ColorSvc.{add_color_to, delete_color_from, delete_all_colors_from}
use wavelen.Services.CollectionSvc.{
  create_collection_for, update_collection_of, delete_collection_of,
}
use wavelen.Services.UserSvc.{create_account, delete_account}
use wavelen.Services.AuthSvc.{login, logout}
use wavelen.Services.ColorSvc.Refinement.{add_color_to-Implements}
use wavelen.Services.ColorSvc.Removal.{
  delete_color_from-Implements, delete_all_colors_from-Implements,
}
use wavelen.Services.CollectionSvc.Refinement.{
  create_collection_for-Implements, delete_collection_of-Implements,
}
use wavelen.Services.UserSvc.Refinement.{create_account-Implements, delete_account-Implements}
use wavelen.Services.Consistency.{IsConsistent}
use wavelen.Services.Consistency.Promised.{
  Implements-IsConsistent, add_color_promise-IsConsistent, delete_color_promise-IsConsistent,
  delete_all_colors_promise-IsConsistent, create_promise-IsConsistent, delete_promise-IsConsistent,
  create_account_promise-IsConsistent, delete_account_promise-IsConsistent,
}
use wavelen.Services.Consistency.Safe.{update_collection_of-IsSafe, login-IsSafe, logout-IsSafe}

-- A call of a service that writes, with any arguments that pass the handlers' checks, whatever
-- fails in it; between the calls all but the tables may change.
pub data Step (v : Validation) (h : Hashing) : World → World → Type 0 where
  sign_up : (w : World) (u : User) → Step v h w (create_account u w).1
  close_account : (w : World) (uid : ℕ) → Step v h w (delete_account uid w).1
  log_in :
      (w : World) (ttl : ℕ) (random nickname password : Bytes)
      → Step v h w (login v h ttl random nickname password w).1
  log_out : (w : World) (hash : Bytes) → Step v h w (logout hash w).1
  create :
      (w : World) (quota uid : ℕ) (p : CreateParams)
      → Step v h w (create_collection_for quota uid p w).1
  update :
      (w : World) (uid cid : ℕ) (p : UpdateParams) → Step v h w (update_collection_of uid cid p w).1
  delete : (w : World) (uid cid : ℕ) → Step v h w (delete_collection_of uid cid w).1
  add :
      (w : World) (quota uid cid : ℕ) (hex : Bytes)
      → is_hex hex ≡ true
      → Step v h w (add_color_to quota uid cid hex w).1
  remove : (w : World) (uid cid : ℕ) (hex : Bytes) → Step v h w (delete_color_from uid cid hex w).1
  remove_all : (w : World) (uid cid : ℕ) → Step v h w (delete_all_colors_from uid cid w).1
  elsewhere : (w w' : World) → w'.tables ≡ w.tables → Step v h w w'

-- From empty tables.
pub data Reachable (v : Validation) (h : Hashing) : World → Type 0 where
  initial : (w : World) → w.tables ≡ empty_tables → Reachable v h w
  next : (w w' : World) → Reachable v h w → Step v h w w' → Reachable v h w'

module _ (v : Validation) (h : Hashing) where
  Step-IsConsistent :
      (w w' : World) → Step v h w w' → IsConsistent w.tables → IsConsistent w'.tables
  Step-IsConsistent _ _ (sign_up w u) c =
      Implements-IsConsistent (create_account u) w _ (create_account-Implements u w) c
        (create_account_promise-IsConsistent w c u)
  Step-IsConsistent _ _ (close_account w uid) c =
      Implements-IsConsistent (delete_account uid) w _ (delete_account-Implements uid w) c
        (delete_account_promise-IsConsistent w c uid)
  Step-IsConsistent _ _ (log_in w ttl random nickname password) c =
      (login-IsSafe v h ttl random nickname password).at w c
  Step-IsConsistent _ _ (log_out w hash) c = (logout-IsSafe hash).at w c
  Step-IsConsistent _ _ (create w quota uid p) c =
      Implements-IsConsistent (create_collection_for quota uid p) w _
        (create_collection_for-Implements quota uid p w) c
        (create_promise-IsConsistent w c quota uid p)
  Step-IsConsistent _ _ (update w uid cid p) c = (update_collection_of-IsSafe uid cid p).at w c
  Step-IsConsistent _ _ (delete w uid cid) c =
      Implements-IsConsistent (delete_collection_of uid cid) w _
        (delete_collection_of-Implements uid cid w) c (delete_promise-IsConsistent w c uid cid)
  Step-IsConsistent _ _ (add w quota uid cid hex x) c =
      Implements-IsConsistent (add_color_to quota uid cid hex) w _
        (add_color_to-Implements quota uid cid hex w x) c
        (add_color_promise-IsConsistent w c quota uid cid hex)
  Step-IsConsistent _ _ (remove w uid cid hex) c =
      Implements-IsConsistent (delete_color_from uid cid hex) w _
        (delete_color_from-Implements uid cid hex w) c
        (delete_color_promise-IsConsistent w c uid cid hex)
  Step-IsConsistent _ _ (remove_all w uid cid) c =
      Implements-IsConsistent (delete_all_colors_from uid cid) w _
        (delete_all_colors_from-Implements uid cid w) c
        (delete_all_colors_promise-IsConsistent w c uid cid)
  Step-IsConsistent _ _ (elsewhere w w' e) c = subst IsConsistent (sym e) c

empty_tables-IsConsistent : IsConsistent empty_tables
unfolding count any
empty_tables-IsConsistent = record {
  one_default = λ uid. refl;
  owners = λ uid h. refl;
  one_user = λ uid. omega arith;
  one_collection = λ cid. omega arith;
  homes = λ cid h. refl;
  one_color = λ cid hex. omega arith;
}

-- In every state that the services reach from empty tables, whatever fails on the way, the tables
-- are consistent: every account has exactly one default collection, collections and colors have
-- owners and homes, and ids and the colors of a collection are unique.
pub Reachable-IsConsistent :
    (v : Validation) (h : Hashing) (w : World) → Reachable v h w → IsConsistent w.tables
Reachable-IsConsistent v h _ (initial w e) = subst IsConsistent (sym e) empty_tables-IsConsistent
Reachable-IsConsistent v h _ (next w w' r s) =
    Step-IsConsistent v h w w' s (Reachable-IsConsistent v h w r)
