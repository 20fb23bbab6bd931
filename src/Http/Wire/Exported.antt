-- ===== src/Http/Wire/Exported.antt =====
-- What a client reads of an export (internal/handlers/user_handler.go).
use wavelen.Prelude.{
  ℕ, Bytes, codes, bytes_beq, ◌≤◌, count, find, map, Option, none, some, List, [], bytes_eq, Result,
  ok, err, ◌≡◌, refl,
}
use wavelen.Storage.Actions.{
  World, in_tx, begun, body_on, finish, committed, statement, select_one, row_or_none,
}
use wavelen.Storage.Actions
use wavelen.Storage.Faults.{clear}
use wavelen.Storage.Users.{user_by_id}
use wavelen.Storage.Export.{export_promise, export_collections_lem}
use wavelen.Services.UserSvc.{export_user}
use wavelen.Http.Message.{answer}
use wavelen.Http.Users.{exported, handle_export}
use wavelen.Encoding.Json.{
  Json, ◌>>=◌, lookup, get, text, truth, read_array, read_elements-elements,
}
use wavelen.Storage.Schema.{User, Collection, Color, has_id, has_user_id}
use wavelen.Http.Wire.{
  Texts, user_resp, saved_color_resp, collection_fields, export_collection_resp, export_resp, time,
  written,
}

-- An account with its collections, as an export tells it.
pub record Exported : Type 0 where
  pub nickname : Bytes
  pub created_at : ℕ
  pub collections : List (Collection × List Color)

module _ (t : Texts) where
  known_time : Result Bytes ℕ → Option ℕ
  known_time (ok n) = some n
  known_time (err e) = none

  read_text : Bytes → Json → Option Bytes
  read_text name j = do v ← get name j; text v

  read_time : Bytes → Json → Option ℕ
  unfolding read_text known_time
  read_time name j = do s ← read_text name j; known_time (t.times.parse s)

  read_color : Json → Option Color
  unfolding read_text read_time
  read_color j = do
    hex ← read_text (codes "hex") j
    created_at ← read_time (codes "created_at") j
    some (record { hex = hex; created_at = created_at })

  read_collection : Json → Option (Collection × List Color)
  unfolding read_text read_time read_color
  read_collection j = do
    id_text ← read_text (codes "id") j
    id ← t.read_id id_text
    name ← read_text (codes "name") j
    icon ← read_text (codes "icon") j
    accent ← read_text (codes "accent") j
    is_default_json ← get (codes "is_default") j
    is_default ← truth is_default_json
    created_at ← read_time (codes "created_at") j
    colors_json ← get (codes "colors") j
    colors ← read_array read_color colors_json
    some (
      record {
        id = id;
        name = name;
        icon_slug = icon;
        icon_accent = accent;
        is_default = is_default;
        created_at = created_at;
      },
      colors,
    )

  unfoldable pub read_export : Json → Option Exported
  unfolding read_text read_time read_collection
  read_export j = do
    user ← get (codes "user") j
    nickname ← read_text (codes "nickname") user
    created_at ← read_time (codes "created_at") user
    collections_json ← get (codes "collections") j
    collections ← read_array read_collection collections_json
    some (record { nickname = nickname; created_at = created_at; collections = collections })

  read_color-resp : (c : Color) → read_color (saved_color_resp t c) ≡ some c
  unfolding read_color read_text read_time known_time saved_color_resp time get lookup text
      bytes_beq
  read_color-resp c = rw (t.times.parse-format c.created_at) refl

  read_collection-resp :
      (c : Collection × List Color) → read_collection (export_collection_resp t c) ≡ some c
  unfolding read_collection read_text read_time known_time export_collection_resp collection_fields
      time get lookup text truth bytes_beq read_array
  read_collection-resp (c, colors) =
      rw
        (
          t.read_id-id_text c.id,
          t.times.parse-format c.created_at,
          read_elements-elements read_color (saved_color_resp t) read_color-resp colors,
        )
        refl

  read_export-resp :
      (nickname : Bytes) (created_at now : ℕ) (cs : List (Collection × List Color))
      → read_export (export_resp t nickname created_at now cs)
        ≡ some (record { nickname = nickname; created_at = created_at; collections = cs })
  unfolding read_export read_text read_time known_time export_resp user_resp time get lookup text
      bytes_beq read_array
  read_export-resp nickname created_at now cs =
      rw
        (
          t.times.parse-format created_at,
          read_elements-elements read_collection (export_collection_resp t) read_collection-resp cs,
        )
        refl

  module _ (compact : ℕ → Bytes) (uid : ℕ) (u : User) (w : World) where
    export_user_at :
        w.faults ≡ []
        → find (has_user_id uid) w.tables.users ≡ some u
        → ((cid : ℕ) → count (has_id cid) w.tables.collections ≤ 1)
        → export_user uid w ≡ (ok (record u { password_hash = [] }, export_promise uid w.tables), w)
    unfolding export_user in_tx begun body_on finish committed statement user_by_id select_one
        row_or_none
    export_user_at f k ids =
        rw (f, k, Actions.◌>>=◌, export_collections_lem uid (clear w) refl ids) refl

    pub handle_export-Lossless :
        w.faults ≡ []
        → find (has_user_id uid) w.tables.users ≡ some u
        → ((cid : ℕ) → count (has_id cid) w.tables.collections ≤ 1)
        → (j : Json) × ((answer (handle_export compact uid) w).0.status ≡ 200)
          × (written t (answer (handle_export compact uid) w).0.body ≡ some j)
          × (read_export j
              ≡ some (record {
                nickname = u.nickname;
                created_at = u.created_at;
                collections = map exported (export_promise uid w.tables);
              }))
    unfolding handle_export written
    handle_export-Lossless f k ids =
        let collections = map exported (export_promise uid w.tables) in
        (
          export_resp t u.nickname u.created_at w.now collections,
          rw (export_user_at f k ids) refl,
          rw (export_user_at f k ids) refl,
          read_export-resp u.nickname u.created_at w.now collections,
        )
