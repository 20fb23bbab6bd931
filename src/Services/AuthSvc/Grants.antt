-- ===== src/Services/AuthSvc/Grants.antt =====
-- What a login grants, and what it refuses: internal/authsvc/authsvc.go with the tokens of
-- internal/storage/token_repo.go.
use wavelen.Prelude.{
  ℕ, ◌+◌, ltb, if◌then◌else◌, Bool-cases, inl, inr, Bytes, Bool, true, false, some, none, List, [],
  ◌∷◌, ◌++◌, any, find, nat_eq, bytes_eq, ==_refl, Option, Result, ok, err, ◌≡◌, ◌≢◌, refl, ap, ◌∙◌,
  arith,
}
use wavelen.Errors.{Error, invalid_credentials, token_not_found, is}
use wavelen.Domain.Names.{Validation, normalize_nickname}
use wavelen.Domain.Auth.{Hashing, hash_password, password_matches, new_token, generated, compared}
use wavelen.Storage.Schema.{User, Token, TokenRow, has_user_id, has_hash}
use wavelen.Storage.Actions.{World, row_or_none, statement, rescue, continue, pure}
use wavelen.Storage.Users.{user_by_nickname, same_nickname}
use wavelen.Storage.Tokens.{
  insert_token, insert_token_row, token_error, is_live, user_id_for_token_hash,
}
use wavelen.Services.AuthSvc.{store_token, check_password, login_as, login, lookup_error}

generated-ok :
    (h : Hashing) (r : Result ℕ Bytes) (hash : Bytes) → generated h r ≡ ok hash → r ≡ ok hash
unfolding generated
generated-ok h (ok x) hash e = ground arith
generated-ok h (err x) hash e = cc

-- A password that was hashed matches its hash.
pub password_matches-hash_password :
    (h : Hashing) (salt password hash : Bytes)
    → hash_password h salt password ≡ ok hash
    → password_matches h hash password ≡ ok true
unfolding hash_password password_matches compared
password_matches-hash_password h salt password hash e =
    ground
      (arith, h.generate-compare salt password hash, generated-ok h (h.generate salt password) hash)

find-append_new :
    (p : TokenRow → Bool) (rows : List TokenRow) (r : TokenRow)
    → any p rows ≡ false
    → find p (rows ++ r ∷ []) ≡ (if p r then some r else none)
unfolding any find
find-append_new p [] r n = refl
find-append_new p (x ∷ rows) r n = ground (arith, find-append_new p rows r)

not_live :
    (hash : Bytes) (now : ℕ) (rows : List TokenRow)
    → any (has_hash hash) rows ≡ false
    → any (is_live hash now) rows ≡ false
unfolding any
not_live hash now [] n = refl
not_live hash now (r ∷ rows) n = ground (arith, not_live hash now rows)

any_of_find :
    (p : User → Bool) (users : List User) (u : User)
    → find p users ≡ some u
    → any (has_user_id u.id) users ≡ true
unfolding any find
any_of_find p [] u e = cc
any_of_find p (x ∷ users) u e = ground (
  arith,
  any_of_find p users u,
  ==_refl x.id,
  λ (i : x ≡ u). ap (λ (y : User). has_user_id y.id x) i,
)

-- The same tables at another time.
abbrev pub at : ℕ → World → World
at time w = record w { now = time }

-- Whose a token is that expires at a time, asked at another time.
abbrev pub owner_at : ℕ → ℕ → ℕ → Result Error ℕ
owner_at uid expiry time = if ltb time expiry then ok uid else err token_not_found

found_row : (row : TokenRow) (time : ℕ) → is_live row.hash time row ≡ ltb time row.expiry
found_row row time = ground (arith, ==_refl row.hash)

-- A stored token is recognized while it is live.
recognized :
    (w : World) (t : Token) (time : ℕ)
    → w.faults ≡ []
    → any (has_hash t.hash) w.tables.tokens ≡ false
    → any (has_user_id t.user_id) w.tables.users ≡ true
    → ((insert_token t w).0 ≡ ok tt)
      × ((user_id_for_token_hash t.hash (at time (insert_token t w).1)).0
          ≡ owner_at t.user_id t.expiry time)
unfolding user_id_for_token_hash insert_token insert_token_row statement row_or_none token_error
recognized w t time f n k =
    let row : TokenRow = record { hash = t.hash; user_id = t.user_id; expiry = t.expiry } in
    elim (Bool-cases (ltb time t.expiry)) [
      | inl live ↦
          rw
            (
              f,
              n,
              k,
              find-append_new (is_live t.hash time) w.tables.tokens row
                  (not_live t.hash time w.tables.tokens n),
              found_row row time,
              live,
            )
            (refl, refl)
      | inr dead ↦
          rw
            (
              f,
              n,
              k,
              find-append_new (is_live t.hash time) w.tables.tokens row
                  (not_live t.hash time w.tables.tokens n),
              found_row row time,
              dead,
            )
            (refl, refl)
    ]

module _ (v : Validation) (h : Hashing) (ttl : ℕ) (random nickname password : Bytes) where
  -- The nickname names a user, and the password is the user's.
  abbrev pub Known : World → User → Type 0
  Known w u =
      (n : Bytes) × (normalize_nickname v nickname ≡ ok n)
      × (find (same_nickname w.env.citext n) w.tables.users ≡ some u)
      × (password_matches h u.password_hash password ≡ ok true)

  -- What the lookup of the user answers.
  looked_up : Option User → Result Error User
  looked_up none = err invalid_credentials
  looked_up (some u) = ok u

  lookup_lem :
      (w : World) (n : Bytes) (o : Option User)
      → w.faults ≡ []
      → find (same_nickname w.env.citext n) w.tables.users ≡ o
      → rescue lookup_error (user_by_nickname n) w ≡ (looked_up o, w)
  unfolding looked_up lookup_error user_by_nickname statement is
  lookup_lem w n none f s = rw (f, s) refl
  lookup_lem w n (some u) f s = rw (f, s) refl

  check_lem :
      (w : World) (u : User) (r : Result Error Bool)
      → password_matches h u.password_hash password ≡ r
      → r ≢ ok true
      → check_password v h ttl random password u w ≡ (err invalid_credentials, w)
  unfolding check_password
  check_lem w u (ok true) m n = absurd (n refl)
  check_lem w u (ok false) m n = rw (m, check_password) refl
  check_lem w u (err e) m n = rw (m, check_password) refl

  check_matched :
      (w : World) (u : User)
      → password_matches h u.password_hash password ≡ ok true
      → check_password v h ttl random password u w ≡ store_token v h ttl random u w
  unfolding check_password
  check_matched w u m = rw (m, check_password) refl

  login-Known :
      (w : World) (u : User)
      → w.faults ≡ []
      → Known w u
      → login v h ttl random nickname password w ≡ store_token v h ttl random u w
  unfolding login login_as looked_up
  login-Known w u f (n, e, s, m) =
      ap (λ (r : Result Error Bytes). login_as v h ttl random password r w) e
      ∙ ap (λ (p : Result Error User × World). continue (check_password v h ttl random password) p)
          (lookup_lem w n (some u) f s)
      ∙ check_matched w u m

  granted :
      (w : World) (u : User) (o : Bytes) (time : ℕ) (a : Result Error ℕ)
      → (insert_token (new_token h random w.now u.id ttl) w).0 ≡ ok tt
      → (user_id_for_token_hash o
          (at time (insert_token (new_token h random w.now u.id ttl) w).1)).0
        ≡ a
      → ((store_token v h ttl random u w).0 ≡ ok (new_token h random w.now u.id ttl))
        × ((user_id_for_token_hash o (at time (store_token v h ttl random u w).1)).0 ≡ a)
  unfolding store_token
  granted w u o time a r q = stored_as (insert_token (new_token h random w.now u.id ttl) w) r q
    where
      stored_as :
          (p : Result Error (Unit {0}) × World)
          → p.0 ≡ ok tt
          → (user_id_for_token_hash o (at time p.1)).0 ≡ a
          → ((continue (λ _. pure (new_token h random w.now u.id ttl)) p).0
              ≡ ok (new_token h random w.now u.id ttl))
            × ((user_id_for_token_hash o
                  (at time (continue (λ _. pure (new_token h random w.now u.id ttl)) p).1)).0
                ≡ a)
      stored_as (ok x, w') r q = (refl, q)
      stored_as (err x, w') r q = cc

  -- With a database that answers: a known user who logs in gets a token with the text drawn for
  -- it, if no token has the hash of that text yet. In the tables that the login leaves, the hash is
  -- recognized as this user's at every time before the login's time plus the lifetime, and at no
  -- later one.
  pub login-recognized :
      (w : World) (u : User) (time : ℕ)
      → w.faults ≡ []
      → Known w u
      → any (has_hash (h.sha256 random)) w.tables.tokens ≡ false
      → ((login v h ttl random nickname password w).0 ≡ ok (new_token h random w.now u.id ttl))
        × ((user_id_for_token_hash
              (h.sha256 random)
              (at time (login v h ttl random nickname password w).1)).0
            ≡ owner_at u.id (w.now + ttl) time)
  unfolding store_token new_token
  login-recognized w u time f (n, e, s, m) new =
      let (r, q) =
        recognized w (new_token h random w.now u.id ttl) time f new
          (any_of_find _ w.tables.users u s) in
      rw (login-Known w u f (n, e, s, m))
        (granted w u (h.sha256 random) time (owner_at u.id (w.now + ttl) time) r q)

  refused_as :
      (w : World) (n : Bytes) (o : Option User)
      → w.faults ≡ []
      → normalize_nickname v nickname ≡ ok n
      → find (same_nickname w.env.citext n) w.tables.users ≡ o
      → ((u : User) → ¬ Known w u)
      → login_as v h ttl random password (ok n) w ≡ (err invalid_credentials, w)
  unfolding login_as looked_up
  refused_as w n none f e s k =
      ap (λ (p : Result Error User × World). continue (check_password v h ttl random password) p)
        (lookup_lem w n none f s)
  refused_as w n (some u) f e s k =
      ap (λ (p : Result Error User × World). continue (check_password v h ttl random password) p)
        (lookup_lem w n (some u) f s)
      ∙ check_lem w u _ refl (λ m. k u (n, e, s, m))

  login_refused_as :
      (w : World) (r : Result Error Bytes)
      → w.faults ≡ []
      → normalize_nickname v nickname ≡ r
      → ((u : User) → ¬ Known w u)
      → login_as v h ttl random password r w ≡ (err invalid_credentials, w)
  unfolding login_as
  login_refused_as w (err x) f e k = refl
  login_refused_as w (ok n) f e k = refused_as w n _ f e refl k

  -- With a database that answers: all others are refused in the same way, be the nickname no
  -- nickname, unknown, or the password wrong, and nothing changes.
  pub login_refused :
      (w : World)
      → w.faults ≡ []
      → ((u : User) → ¬ Known w u)
      → login v h ttl random nickname password w ≡ (err invalid_credentials, w)
  unfolding login
  login_refused w f k = login_refused_as w _ f refl k
