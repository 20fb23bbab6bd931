-- ===== src/Http/Colors/Adding.antt =====
-- The answers of `HandleAddColor` of internal/handlers/color_handler.go.
use wavelen.Prelude.{
  ℕ, Bytes, Bool, true, not, any, count, leb, if◌then◌else◌, Result, ok, err, on_err, ◌≡◌, refl, ap,
  ◌∙◌, ◌⊎◌, arith, Bool-cases, inl, inr,
}
use wavelen.Errors.{Error, storage_error, driver, invalid, is}
use wavelen.Color.Hex.{is_hex, new_hex}
use wavelen.Domain.Names.{parse_id}
use wavelen.Storage.Schema.{owned_with_id, in_collection, is_color}
use wavelen.Storage.Actions.{World, continue, pure}
use wavelen.Storage.Faults.{is_fault}
use wavelen.Storage.Promises.{Implements}
use wavelen.Services.ColorSvc.{add_color_to}
use wavelen.Services.ColorSvc.Refinement.{add_color_promise, add_color_to-Implements}
use wavelen.Http.Message.{
  Request, Response, reply, saved_hex, storage_error_reply, answer, finished,
}
use wavelen.Http.Colors.{ColorConfig, handle_add_color}

-- The status that the state of the tables asks for.
unfoldable pub add_status : ℕ → ℕ → ℕ → Bytes → World → ℕ
add_status quota uid cid hex w =
    if not (any (owned_with_id uid cid) w.tables.collections)
    then 404
    else if any (is_color cid hex) w.tables.colors
    then 200
    else if leb quota (count (in_collection cid) w.tables.colors)
    then 409
    else 201

-- The response to the result of the service.
answered : Bytes → Result Error Bool → ℕ
answered hex (ok created) = if created then 201 else 200
answered hex (err e) = (storage_error_reply e).status

answered-promise :
    (quota uid cid : ℕ) (hex : Bytes) (w : World)
    → answered hex (add_color_promise quota uid cid hex w).0 ≡ add_status quota uid cid hex w
unfolding answered add_status storage_error_reply is
answered-promise quota uid cid hex w =
    elim (Bool-cases (any (owned_with_id uid cid) w.tables.collections)) [
      | inr foreign ↦ rw foreign refl
      | inl owned ↦ elim (Bool-cases (any (is_color cid hex) w.tables.colors)) [
        | inl there ↦ rw (owned, there) refl
        | inr new ↦ elim (Bool-cases (leb quota (count (in_collection cid) w.tables.colors))) [
          | inl full ↦ rw (owned, new, full) refl
          | inr room ↦ rw (owned, new, room) refl
        ]
      ]
    ]

fault-500 : (hex : Bytes) (r : Result Error Bool) → is_fault r ≡ true → answered hex r ≡ 500
unfolding answered storage_error_reply is
fault-500 hex (ok b) h = cc
fault-500 hex (err (storage_error (driver e))) h = refl
fault-500 hex (err e) h = cc

-- What is sent after the service has answered.
abbrev sent : Bytes → Result Error Bool × World → Response × World
sent hex p = finished (
    continue (λ created. pure (reply (if created then 201 else 200) (saved_hex hex)))
      (on_err storage_error_reply p.0, p.1))

sent_lem :
    (hex : Bytes) (p : Result Error Bool × World)
    → ((sent hex p).0.status ≡ answered hex p.0) × ((sent hex p).1 ≡ p.1)
unfolding answered
sent_lem hex (ok created, w) = (refl, refl)
sent_lem hex (err e, w) = (refl, refl)

sent-promise :
    (quota uid cid : ℕ) (hex : Bytes) (w : World)
    → Implements (add_color_to quota uid cid hex) w (add_color_promise quota uid cid hex w)
    → (((sent hex (add_color_to quota uid cid hex w)).0.status ≡ add_status quota uid cid hex w)
        × ((sent hex (add_color_to quota uid cid hex w)).1.tables
            ≡ (add_color_promise quota uid cid hex w).1))
      ⊎ (((sent hex (add_color_to quota uid cid hex w)).0.status ≡ 500)
          × ((sent hex (add_color_to quota uid cid hex w)).1.tables ≡ w.tables))
sent-promise quota uid cid hex w (inl (r, t)) =
    let (a, b) = sent_lem hex (add_color_to quota uid cid hex w) in
    inl (
      a ∙ ap (answered hex) r ∙ answered-promise quota uid cid hex w,
      ap (λ (v : World). v.tables) b ∙ t,
    )
sent-promise quota uid cid hex w (inr (r, t)) =
    let (a, b) = sent_lem hex (add_color_to quota uid cid hex w) in
    inr (a ∙ fault-500 hex _ r, ap (λ (v : World). v.tables) b ∙ t)

normalized :
    (cfg : ColorConfig) (raw hex : Bytes)
    → new_hex cfg.validation.hex raw ≡ ok hex
    → is_hex hex ≡ true
unfolding new_hex
normalized cfg raw hex e = parsed (cfg.validation.hex.parse_hex raw) refl e
  where
    parsed :
        (r : Result Bytes Bytes)
        → cfg.validation.hex.parse_hex raw ≡ r
        → on_err invalid r ≡ ok hex
        → is_hex hex ≡ true
    parsed (ok h) q e = cfg.validation.hex.normalizes raw hex (ground arith)
    parsed (err x) q e = cc

module _ (cfg : ColorConfig) (req : Request) (raw : Bytes) (uid cid : ℕ) (hex : Bytes)
    (w : World) where
  abbrev added : Response × World
  added = answer (handle_add_color cfg req (ok raw) uid) w

  -- For a request whose path names a collection and whose body gives a color: the answer is 201
  -- with the color added, or 200 if it is there already, 404 if the collection is not the user's,
  -- 409 if it is full, as the service promises; or 500 with the tables as they were.
  pub handle_add_color-status :
      parse_id cfg.validation req.path_id ≡ ok cid
      → new_hex cfg.validation.hex raw ≡ ok hex
      → ((added.0.status ≡ add_status cfg.quota uid cid hex w)
          × (added.1.tables ≡ (add_color_promise cfg.quota uid cid hex w).1))
        ⊎ ((added.0.status ≡ 500) × (added.1.tables ≡ w.tables))
  unfolding handle_add_color
  handle_add_color-status i x =
      rw (i, x)
        (sent-promise cfg.quota uid cid hex w
          (add_color_to-Implements cfg.quota uid cid hex w (normalized cfg raw hex x)))
