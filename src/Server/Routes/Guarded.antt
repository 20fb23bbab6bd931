-- ===== src/Server/Routes/Guarded.antt =====
-- Which routes of internal/server/routes.go need a token, and what they do without one.
use wavelen.Prelude.{
  ℕ, zero, suc, Bytes, codes, Bool, true, false, not, ◌||◌, none, some, List, [], ◌∷◌, ◌++◌, all,
  find, get_elem?, bytes_eq, err, ◌≡◌, ◌≢◌, ◌⊎◌, inl, inr, refl, arith, ap, ◌∙◌,
}
use wavelen.Storage.Actions.{World}
use wavelen.Storage.Tokens.{is_live}
use wavelen.Http.Message.{Request, answer, finished}
use wavelen.Http.Auth.{bearer_prefix, cut_prefix, unauthorized, vary}
use wavelen.Http.Auth.Guard.{admitted, authenticate_lem, authenticate_refused}
use wavelen.Server.Routes.{
  Authed, Endpoint, authed, Route, routes, Wiring, Bodies, serve_authed, authed_handler,
}

-- A text that begins with another.
abbrev pub begins : Bytes → Bytes → Bool
begins prefix s = elim (cut_prefix s prefix) [ none ↦ false | some rest ↦ true ]

-- The paths of an account's data.
abbrev pub IsPersonal : Route → Type 0
IsPersonal r = begins (codes "/api/v1/me") r.path ≡ true

abbrev is_authed : Endpoint → Bool
is_authed (authed a) = true
is_authed e = false

all-get :
    (p : Route → Bool) (rs : List Route) (i : ℕ) (r : Route)
    → all p rs ≡ true
    → get_elem? rs i ≡ some r
    → p r ≡ true
all-get p [] i r h e = cc
all-get p (x ∷ rs) zero r h e = ground arith
all-get p (x ∷ rs) (suc i) r h e = all-get p rs i r (ground arith) e

abbrev guarded : Route → Bool
guarded r = not (begins (codes "/api/v1/me") r.path) || is_authed r.endpoint

personal-authed : all guarded routes ≡ true
unfolding routes cut_prefix
personal-authed = refl

authed_of : (e : Endpoint) → is_authed e ≡ true → (a : Authed) × (e ≡ authed a)
authed_of (authed a) h = (a, refl)
authed_of e h = absurd (ground arith)

-- A request that proves no account: no bearer token in its header, or one that is the token of no
-- live session, which the database has been asked for and has answered.
abbrev pub IsAnonymous : Wiring → Request → World → Type 0
IsAnonymous wiring req w =
    ((c : ℕ) (s : Bytes) → req.authorization ≢ bearer_prefix ++ c ∷ s)
    ⊎ ((c : ℕ) × (p : Bytes) × (req.authorization ≡ bearer_prefix ++ c ∷ p)
        × (find (is_live (wiring.hashing.sha256 (c ∷ p)) w.now) w.tables.tokens ≡ none)
        × (w.faults ≡ []))

module _ (wiring : Wiring) (bodies : Bodies) (req : Request) (w : World) where
  serve_authed-refused :
      (a : Authed)
      → IsAnonymous wiring req w
      → serve_authed wiring bodies a req w ≡ (err (vary unauthorized), w)
  unfolding serve_authed
  serve_authed-refused a (inl absent) =
      authenticate_refused wiring.hashing (authed_handler wiring bodies a) req w absent
  serve_authed-refused a (inr (c, p, header, dead, f)) =
      authenticate_lem wiring.hashing (authed_handler wiring bodies a) req c p w header f
      ∙ ap (admitted wiring.hashing (authed_handler wiring bodies a) req (c ∷ p) w) dead

  -- Every route whose path begins with /api/v1/me is served behind the authentication. For a
  -- request that proves no account it answers 401 and changes nothing.
  pub personal_lem :
      (i : ℕ) (r : Route)
      → get_elem? routes i ≡ some r
      → IsPersonal r
      → IsAnonymous wiring req w
      → (a : Authed) × (r.endpoint ≡ authed a)
        × (answer (serve_authed wiring bodies a req) w ≡ (vary unauthorized, w))
  personal_lem i r at personal anonymous =
      let passed = all-get guarded routes i r personal-authed at in
      let (a, e) = authed_of r.endpoint (ground (arith, passed)) in
      (a, e, ap finished (serve_authed-refused a anonymous))
