-- ===== src/Http/Wire.antt =====
-- The response types of internal/handlers as the JSON that `httputils.WriteJSON` writes of them: the
-- json tags of user_handler.go, collection_handler.go, color_handler.go, token_handler.go,
-- catalog_handler.go, shades_handler.go, harmony_handler.go, health_handler.go and handler.go.
pub mod Exported
use wavelen.Prelude.{
  ℕ, Bytes, codes, Option, none, some, List, [], ◌∷◌, ◌==◌, bytes_eq, if◌then◌else◌, ◌≡◌,
}
use wavelen.Errors.{Error}
use wavelen.Encoding.Json.{
  Json, string, number, boolean, array, object, Fields, close, field, elements,
}
use wavelen.Storage.Schema.{Collection, Color}
use wavelen.Http.Cursor.{TimeText}
use wavelen.Http.Message.{
  Body, empty, message, reason, saved_hex, color_list, one_collection, collection_list, account_of,
  token, common_colors, shade_families, harmony_colors, one_of, health, version, export_of,
}

-- The texts of times and ids, and what `httputils.WriteError` writes for an error and its text.
pub record Texts : Type 0 where
  pub times : TimeText
  pub id_text : ℕ → Bytes
  pub read_id : Bytes → Option ℕ
  pub read_id-id_text : (id : ℕ) → read_id (id_text id) ≡ some id
  pub write_error : Bytes → Json
  pub error_text : Error → Bytes
  pub refused_name : Error → Bytes → Bytes

-- A field with `omitempty`.
unfoldable pub omit_empty : Bytes → Bytes → Fields → Fields
omit_empty name value rest = if value == [] then rest else field name (string value) rest

-- `CommonColorResp`
unfoldable pub common_color_resp : Bytes × Bytes → Json
common_color_resp c =
    object (field (codes "hex") (string c.0) (field (codes "name") (string c.1) close))

-- `ShadeFamilyResp`
unfoldable pub shade_family_resp : Bytes × List (Bytes × Bytes) → Json
unfolding common_color_resp
shade_family_resp f = object (
    field (codes "name") (string f.0)
      (field (codes "colors") (array (elements common_color_resp f.1)) close))

-- `HarmonyResp`
unfoldable pub harmony_resp : Bytes → Bytes → Bytes → List Bytes → Json
harmony_resp hex harmony space colors = object (
    field (codes "hex") (string hex) (
      field (codes "harmony") (string harmony) (
        field (codes "space") (string space)
          (field (codes "colors") (array (elements string colors)) close))))

module _ (t : Texts) where
  time : ℕ → Json
  time n = string (t.times.format n)

  -- `UserResp`
  unfoldable pub user_resp : Bytes → ℕ → Json
  unfolding time
  user_resp nickname created_at = object (
      field (codes "nickname") (string nickname)
        (field (codes "created_at") (time created_at) close))

  -- `SavedColorResp`
  unfoldable pub saved_color_resp : Color → Json
  unfolding time
  saved_color_resp c =
      object
        (field (codes "hex") (string c.hex) (field (codes "created_at") (time c.created_at) close))

  -- `CollectionResp`, by `collectionToResp`; its fields stand before those of a struct around it.
  unfoldable pub collection_fields : Collection → Fields → Fields
  unfolding time
  collection_fields c rest = field (codes "id") (string (t.id_text c.id)) (
      field (codes "name") (string c.name) (
        field (codes "icon") (string c.icon_slug) (
          field (codes "accent") (string c.icon_accent) (
            field (codes "is_default") (boolean c.is_default)
              (field (codes "created_at") (time c.created_at) rest)))))

  unfoldable pub collection_resp : Collection → Json
  unfolding collection_fields
  collection_resp c = object (collection_fields c close)

  -- `cursorMeta`
  unfoldable pub cursor_meta : ℕ → Option Bytes → Json
  unfolding omit_empty
  cursor_meta limit none = object (field (codes "limit") (number limit) close)
  cursor_meta limit (some next) =
      object (field (codes "limit") (number limit) (omit_empty (codes "next_cursor") next close))

  -- `ListColorsResp`
  unfoldable pub list_colors_resp : List Color → ℕ → Option Bytes → Json
  unfolding saved_color_resp cursor_meta
  list_colors_resp colors limit next = object (
      field (codes "colors") (array (elements saved_color_resp colors))
        (field (codes "metadata") (cursor_meta limit next) close))

  -- `CreateTokenResp`
  unfoldable pub create_token_resp : Bytes → ℕ → Json
  unfolding time
  create_token_resp plaintext expiry =
      object (field (codes "token") (string plaintext) (field (codes "expiry") (time expiry) close))

  -- `HealthResp`
  unfoldable pub health_resp : Bytes → Option Bytes → Json
  unfolding omit_empty
  health_resp status none = object (field (codes "status") (string status) close)
  health_resp status (some dependency) =
      object
        (field (codes "status") (string status) (omit_empty (codes "dependency") dependency close))

  -- `ExportCollectionResp`
  unfoldable pub export_collection_resp : Collection × List Color → Json
  unfolding collection_fields saved_color_resp
  export_collection_resp c =
      object (
        collection_fields c.0
          (field (codes "colors") (array (elements saved_color_resp c.1)) close))

  -- `ExportResp`, with `exportVer`
  unfoldable pub export_resp : Bytes → ℕ → ℕ → List (Collection × List Color) → Json
  unfolding time user_resp export_collection_resp
  export_resp nickname created_at now collections = object (
      field (codes "format") (number 1) (
        field (codes "exported_at") (time now) (
          field (codes "user") (user_resp nickname created_at) (
            field (codes "collections") (array (elements export_collection_resp collections))
              close))))

  -- What is written of a body; a 204 has none.
  unfoldable pub written : Body → Option Json
  written empty = none
  written (message s) = some (t.write_error s)
  written (reason e) = some (t.write_error (t.error_text e))
  written (saved_hex hex) = some (object (field (codes "hex") (string hex) close))
  written (color_list colors limit next) = some (list_colors_resp colors limit next)
  written (one_collection c) = some (object (field (codes "collection") (collection_resp c) close))
  written (collection_list cs) =
      some (object (field (codes "collections") (array (elements collection_resp cs)) close))
  written (account_of nickname created_at) =
      some (object (field (codes "user") (user_resp nickname created_at) close))
  written (token plaintext expiry) = some (create_token_resp plaintext expiry)
  written (common_colors cs) =
      some (object (field (codes "colors") (array (elements common_color_resp cs)) close))
  written (shade_families fs) =
      some (object (field (codes "families") (array (elements shade_family_resp fs)) close))
  written (harmony_colors hex harmony space colors) = some (harmony_resp hex harmony space colors)
  written (one_of e names) = some (t.write_error (t.refused_name e names))
  written (health status dependency) = some (health_resp status dependency)
  written (version build) = some (object (field (codes "version") (string build) close))
  written (export_of nickname created_at now collections) =
      some (export_resp nickname created_at now collections)
