-- ===== src/Http/Collections.antt =====
-- internal/handlers/collection_handler.go
use wavelen.Prelude.{
  ℕ, Bytes, false, Option, none, some, [], ◌==◌, bytes_eq, if◌then◌else◌, Result, ok, err, and_then,
  on_ok,
}
use wavelen.Errors.{Error, nothing_to_update}
use wavelen.Color.Hex.{new_hex}
use wavelen.Domain.Names.{Validation, normalize_name}
use wavelen.Domain.Icon.{parse_slug, default_icon}
use wavelen.Storage.Schema.{CreateParams, UpdateParams}
use wavelen.Storage.Actions.{◌>>=◌, ◌>>◌, pure}
use wavelen.Services.CollectionSvc.{
  create_collection_for, list_collections_of, collection_of, update_collection_of,
  delete_collection_of,
}
use wavelen.Services.UserSvc.{default_accent}
use wavelen.Http.Message.{
  Request, Handler, reply, empty, one_collection, collection_list, check, call,
  collection_id_from_path,
}

-- `CreateCollectionReq`
pub record CreateReq : Type 0 where
  pub name : Bytes
  pub icon : Bytes
  pub accent : Bytes

-- `UpdateCollectionReq`: nothing stands for what was not sent.
pub record UpdateReq : Type 0 where
  pub name : Option Bytes
  pub icon : Option Bytes
  pub accent : Option Bytes

-- A field that is not required keeps its default when it is empty.
or_default : Bytes → Bytes → (Bytes → Result Error Bytes) → Result Error Bytes
or_default raw default parse = if raw == [] then ok default else parse raw

-- A field that was sent is validated.
optional : Option Bytes → (Bytes → Result Error Bytes) → Result Error (Option Bytes)
optional none parse = ok none
optional (some raw) parse = on_ok (λ s. some s) (parse raw)

module _ (v : Validation) (quota : ℕ) where
  -- `createCollectionParams`
  unfoldable pub create_collection_params : CreateReq → Result Error CreateParams
  unfolding or_default
  create_collection_params d = and_then (normalize_name v d.name) λ name.
      and_then (or_default d.icon default_icon parse_slug) λ slug.
        on_ok (λ accent. record { name = name; icon = slug; accent = accent; is_default = false })
          (or_default d.accent default_accent (new_hex v.hex))

  update_fields : UpdateReq → Result Error UpdateParams
  unfolding optional
  update_fields d = and_then (optional d.name (normalize_name v)) λ name.
      and_then (optional d.icon parse_slug) λ slug.
        on_ok (λ accent. record { name = name; icon = slug; accent = accent })
          (optional d.accent (new_hex v.hex))

  is_nothing :
      Option Bytes
      → Option Bytes
      → Option Bytes
      → Result Error UpdateParams
      → Result Error UpdateParams
  is_nothing none none none rest = err nothing_to_update
  is_nothing _ _ _ rest = rest

  -- `updateCollectionParams`: at least one field must be there.
  unfoldable pub update_collection_params : UpdateReq → Result Error UpdateParams
  unfolding update_fields is_nothing
  update_collection_params d = is_nothing d.name d.icon d.accent (update_fields d)

  -- `HandleCreateCollection`
  unfoldable pub handle_create_collection : Request → Result Error CreateReq → ℕ → Handler
  handle_create_collection req body uid = do
    d ← check body
    params ← check (create_collection_params d)
    created ← call (create_collection_for quota uid params)
    pure (reply 201 (one_collection created))

  -- `HandleListCollections`
  unfoldable pub handle_list_collections : Request → ℕ → Handler
  handle_list_collections req uid = do
    collections ← call (list_collections_of uid)
    pure (reply 200 (collection_list collections))

  -- `HandleGetCollection`
  unfoldable pub handle_get_collection : Request → ℕ → Handler
  handle_get_collection req uid = do
    id ← check (collection_id_from_path v req)
    col ← call (collection_of uid id)
    pure (reply 200 (one_collection col))

  -- `HandleUpdateCollection`
  unfoldable pub handle_update_collection : Request → Result Error UpdateReq → ℕ → Handler
  handle_update_collection req body uid = do
    id ← check (collection_id_from_path v req)
    d ← check body
    params ← check (update_collection_params d)
    updated ← call (update_collection_of uid id params)
    pure (reply 200 (one_collection updated))

  -- `HandleDeleteCollection`
  unfoldable pub handle_delete_collection : Request → ℕ → Handler
  handle_delete_collection req uid = do
    id ← check (collection_id_from_path v req)
    call (delete_collection_of uid id)
    pure (reply 204 empty)
