-- ===== src/Http/Auth/Guard.antt =====
-- Who gets past the wrapper of internal/server/auth.go.
use wavelen.Prelude.{
  ℕ, Bytes, Option, none, some, [], ◌∷◌, ◌++◌, find, nat_eq, bytes_eq, bytes_beq, ==_refl, ==_iff,
  Result, err, ◌≡◌, ◌≢◌, refl, ap, ◌∙◌, arith,
}
use wavelen.Domain.Auth.{Hashing, hash_token}
use wavelen.Storage.Schema.{TokenRow}
use wavelen.Storage.Actions.{World, statement}
use wavelen.Storage.Tokens.{is_live, user_id_for_token_hash}
use wavelen.Http.Message.{Request, Response, Handler}
use wavelen.Http.Auth.{
  cut_prefix, bearer_prefix, unauthorized, token_refused, vary, varied, authenticate,
  authenticate_with, admit,
}

pub cut_prefix-append : (prefix s : Bytes) → cut_prefix (prefix ++ s) prefix ≡ some s
unfolding cut_prefix
cut_prefix-append [] [] = refl
cut_prefix-append [] (c ∷ s) = refl
cut_prefix-append (p ∷ prefix) s = rw (==_refl p) (cut_prefix-append prefix s)

-- The answer to a request with this token: its owner's request goes on, another is refused.
abbrev pub admitted :
    Hashing
    → (Request → ℕ → Handler)
    → Request
    → Bytes
    → World
    → Option TokenRow
    → Result Response Response × World
admitted h next req p w none = (err (vary unauthorized), w)
admitted h next req p w (some row) =
    varied (next (record req { token_hash = some (hash_token h p) }) row.user_id w)

admit_lem :
    (h : Hashing) (next : Request → ℕ → Handler) (req : Request) (p : Bytes) (w : World)
    (o : Option TokenRow)
    → find (is_live (h.sha256 p) w.now) w.tables.tokens ≡ o
    → w.faults ≡ []
    → varied (admit h next req p w) ≡ admitted h next req p w o
unfolding admit statement token_refused user_id_for_token_hash
admit_lem h next req p w none e f = rw (f, e) refl
admit_lem h next req p w (some row) e f = rw (f, e) refl

-- With a database that answers, a request with `Authorization: Bearer p` goes on as the user of
-- the live token whose hash is that of p, and is refused with 401 when there is none.
pub authenticate_lem :
    (h : Hashing) (next : Request → ℕ → Handler) (req : Request) (c : ℕ) (p : Bytes) (w : World)
    → req.authorization ≡ bearer_prefix ++ c ∷ p
    → w.faults ≡ []
    → authenticate h next req w
      ≡ admitted h next req (c ∷ p) w (find (is_live (h.sha256 (c ∷ p)) w.now) w.tables.tokens)
unfolding authenticate authenticate_with bytes_beq
authenticate_lem h next req c p w e f =
    ap (λ (o : Option Bytes). varied (authenticate_with h next req o w))
      (ap (λ (s : Bytes). cut_prefix s bearer_prefix) e ∙ cut_prefix-append bearer_prefix (c ∷ p))
    ∙ admit_lem h next req (c ∷ p) w _ refl f

cut_prefix-inv : (prefix s r : Bytes) → cut_prefix s prefix ≡ some r → s ≡ prefix ++ r
unfolding cut_prefix
cut_prefix-inv [] [] r h = ground arith
cut_prefix-inv [] (c ∷ s) r h = ground arith
cut_prefix-inv (p ∷ prefix) [] r h = cc
cut_prefix-inv (p ∷ prefix) (c ∷ s) r h = ground (arith, cut_prefix-inv prefix s r, ==_iff c p)

refused_with :
    (h : Hashing) (next : Request → ℕ → Handler) (req : Request) (w : World) (o : Option Bytes)
    → ((c : ℕ) (s : Bytes) → o ≢ some (c ∷ s))
    → varied (authenticate_with h next req o w) ≡ (err (vary unauthorized), w)
unfolding authenticate_with bytes_beq
refused_with h next req w none n = refl
refused_with h next req w (some []) n = refl
refused_with h next req w (some (c ∷ s)) n = absurd (n c s refl)

-- A header that is no `Bearer ` with a token after it is refused with 401 before the database is
-- asked, and the handler is not run.
pub authenticate_refused :
    (h : Hashing) (next : Request → ℕ → Handler) (req : Request) (w : World)
    → ((c : ℕ) (s : Bytes) → req.authorization ≢ bearer_prefix ++ c ∷ s)
    → authenticate h next req w ≡ (err (vary unauthorized), w)
unfolding authenticate
authenticate_refused h next req w n =
    refused_with h next req w (cut_prefix req.authorization bearer_prefix)
      (λ c s e. n c s (cut_prefix-inv bearer_prefix req.authorization (c ∷ s) e))
