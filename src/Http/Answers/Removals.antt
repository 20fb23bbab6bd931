-- ===== src/Http/Answers/Removals.antt =====
-- The answers of the handlers that remove: internal/handlers/color_handler.go, collection_handler.go
-- and user_handler.go.
use wavelen.Prelude.{ℕ, Bytes, ok, ◌≡◌}
use wavelen.Domain.Names.{Validation, parse_id}
use wavelen.Storage.Actions.{World}
use wavelen.Services.ColorSvc.{delete_color_from, delete_all_colors_from}
use wavelen.Services.ColorSvc.Removal.{
  delete_color_promise, delete_all_colors_promise, delete_color_from-Implements,
  delete_all_colors_from-Implements,
}
use wavelen.Services.CollectionSvc.{delete_collection_of}
use wavelen.Services.CollectionSvc.Refinement.{delete_promise, delete_collection_of-Implements}
use wavelen.Services.UserSvc.{delete_account}
use wavelen.Services.UserSvc.Refinement.{delete_account_promise, delete_account-Implements}
use wavelen.Http.Message.{Request, Response, reply, empty, hex_from_path}
use wavelen.Http.Colors.{ColorConfig, handle_delete_color, handle_delete_all_colors}
use wavelen.Http.Collections.{handle_delete_collection}
use wavelen.Http.Users.{handle_delete_me}
use wavelen.Http.Answers.{Answers, Implements-Answers}

abbrev pub no_content : Unit {0} → Response
no_content done = reply 204 empty

pub handle_delete_me-Answers :
    (uid : ℕ) (w : World)
    → Answers no_content (handle_delete_me uid) w (delete_account_promise uid w)
unfolding handle_delete_me
handle_delete_me-Answers uid w =
    Implements-Answers no_content (delete_account uid) w _ (delete_account-Implements uid w)

module _ (req : Request) (uid cid : ℕ) (w : World) where
  -- For a path that names a collection: the answer is as the service promises.
  pub handle_delete_collection-Answers :
      (v : Validation) (quota : ℕ)
      → parse_id v req.path_id ≡ ok cid
      → Answers no_content (handle_delete_collection v quota req uid) w (delete_promise uid cid w)
  unfolding handle_delete_collection
  handle_delete_collection-Answers v quota i = rw i (
      Implements-Answers no_content (delete_collection_of uid cid) w _
        (delete_collection_of-Implements uid cid w))

  module _ (cfg : ColorConfig) where
    -- For a path that names a collection: an own one is emptied and the answer is 204; or 404, or
    -- 500 where nothing has changed.
    pub handle_delete_all_colors-Answers :
        parse_id cfg.validation req.path_id ≡ ok cid
        → Answers no_content
            (handle_delete_all_colors cfg req uid)
            w
            (delete_all_colors_promise uid cid w)
    unfolding handle_delete_all_colors
    handle_delete_all_colors-Answers i = rw i (
        Implements-Answers no_content (delete_all_colors_from uid cid) w _
          (delete_all_colors_from-Implements uid cid w))

    pub handle_delete_color-Answers :
        (hex : Bytes)
        → parse_id cfg.validation req.path_id ≡ ok cid
        → hex_from_path cfg.validation req ≡ ok hex
        → Answers no_content
            (handle_delete_color cfg req uid)
            w
            (delete_color_promise uid cid hex w)
    unfolding handle_delete_color
    handle_delete_color-Answers hex i x =
        rw (i, x)
          (Implements-Answers no_content (delete_color_from uid cid hex) w _
            (delete_color_from-Implements uid cid hex w))
