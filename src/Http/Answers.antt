-- ===== src/Http/Answers.antt =====
-- How the promises of the services reach the client: handlers of internal/handlers that end with the
-- call of a service and the response to its result.
pub mod Accounts
pub mod Removals
use wavelen.Prelude.{true, Result, ok, err, on_err, ◌≡◌, refl, ap, ◌∙◌, ◌⊎◌, inl, inr}
use wavelen.Errors.{Error, storage_error, driver, is}
use wavelen.Storage.Actions.{World, M, ◌>>=◌, continue, pure}
use wavelen.Storage.Faults.{is_fault}
use wavelen.Storage.Promises.{Promise, Implements}
use wavelen.Http.Message.{Response, Handler, storage_error_reply, answer, finished, call}

module _ {A : Type 0} (respond : A → Response) where
  -- The response to a result of the service.
  unfoldable pub replied : Result Error A → Response
  replied (ok a) = respond a
  replied (err e) = storage_error_reply e

  finished_lem :
      (p : Result Error A × World)
      → finished (continue (λ a. pure (respond a)) (on_err storage_error_reply p.0, p.1))
        ≡ (replied p.0, p.1)
  unfolding replied
  finished_lem (ok a, w) = refl
  finished_lem (err e, w) = refl

  replied_fault : (r : Result Error A) → is_fault r ≡ true → (replied r).status ≡ 500
  unfolding replied storage_error_reply is
  replied_fault (ok a) h = cc
  replied_fault (err (storage_error (driver e))) h = refl
  replied_fault (err e) h = cc

  -- A handler answers what is promised, or 500 where nothing has changed.
  abbrev pub Answers : Handler → World → Promise A → Type 0
  Answers h w p =
      (((answer h w).0 ≡ replied p.0) × ((answer h w).1.tables ≡ p.1))
      ⊎ (((answer h w).0.status ≡ 500) × ((answer h w).1.tables ≡ w.tables))

  pub Implements-Answers :
      (m : M A) (w : World) (p : Promise A)
      → Implements m w p
      → Answers (call m >>= λ a. pure (respond a)) w p
  Implements-Answers m w p (inl (r, t)) = inl (
    ap (λ (x : Response × World). x.0) (finished_lem (m w)) ∙ ap replied r,
    ap (λ (x : Response × World). x.1.tables) (finished_lem (m w)) ∙ t,
  )
  Implements-Answers m w p (inr (f, t)) = inr (
    ap (λ (x : Response × World). x.0.status) (finished_lem (m w)) ∙ replied_fault (m w).0 f,
    ap (λ (x : Response × World). x.1.tables) (finished_lem (m w)) ∙ t,
  )
