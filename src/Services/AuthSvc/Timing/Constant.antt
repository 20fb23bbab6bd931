-- ===== src/Services/AuthSvc/Timing/Constant.antt =====
-- The work of a login: internal/authsvc/authsvc.go with internal/auth/password.go.
use wavelen.Prelude.{
  ℕ, ◌^◌, ◌+◌, Bytes, Bool, true, false, ◌&&◌, List, [], ◌∷◌, all, find, length, ltb, ◌==◌, ==_iff,
  nat_eq, Option, none, some, Result, ok, err, on_err, ◌≡◌, refl, ap, sym, Bool-cases, inl, inr,
  arith,
}
use wavelen.Errors.{Error, is}
use wavelen.Domain.Names.{Validation, normalize_nickname}
use wavelen.Domain.Auth.{
  Comparison, matched, mismatched, unusable, Hashing, password_matches, max_password_len,
}
use wavelen.Storage.Schema.{User}
use wavelen.Storage.Actions.{World, continue, statement, select_one, row_or_none}
use wavelen.Storage.Users.{user_by_nickname, user_error, same_nickname}
use wavelen.Services.AuthSvc.{lookup_error, check_password, login_as, login}
use wavelen.Services.AuthSvc.Timing.{
  bcrypt_cost, cost_of, work, run_against, matches, after_match, after_lookup, login_with,
  timed_login,
}

find-all :
    (p q : User → Bool) (users : List User) (u : User)
    → all q users ≡ true
    → find p users ≡ some u
    → q u ≡ true
unfolding find
find-all p q [] u h e = cc
find-all p q (x ∷ users) u h e = ground (arith, find-all p q users u)

abbrev is_usable : Comparison → Bool
is_usable matched = true
is_usable mismatched = true
is_usable unusable = false

-- The hash has the program's cost, and bcrypt can use it.
abbrev pub is_costly : Hashing → Bytes → User → Bool
is_costly h password u =
    (cost_of u.password_hash == bcrypt_cost) && is_usable (h.compare u.password_hash password)

run_usable : (hash : Bytes) (c : Comparison) → is_usable c ≡ true → run_against hash c ≡ hash ∷ []
unfolding run_against
run_usable hash matched e = refl
run_usable hash mismatched e = refl
run_usable hash unusable e = cc

module _ (v : Validation) (h : Hashing) (ttl : ℕ) (random password : Bytes) where
  matches_lem :
      (hash : Bytes) → (matches v h ttl random password hash).0 ≡ password_matches h hash password
  unfolding matches password_matches
  matches_lem hash = ground arith

  matches-work :
      (u : User)
      → is_costly h password u ≡ true
      → work (matches v h ttl random password u.password_hash).1 ≡ 2 ^ bcrypt_cost
  unfolding matches work cost_of
  matches-work u c = elim (Bool-cases (ltb max_password_len (length password))) [
    | inl long ↦ rw (long, matches) (ground arith)
    | inr short ↦
        rw
          (
            short,
            matches,
            run_usable u.password_hash (h.compare u.password_hash password) (ground arith),
          )
          (ap (λ n. 2 ^ n + 0) ((==_iff (cost_of u.password_hash) bcrypt_cost).0 (ground arith)))
  ]

  after_match_lem :
      (u : User) (r : Result Error Bool) (w : World)
      → password_matches h u.password_hash password ≡ r
      → check_password v h ttl random password u w ≡ after_match v h ttl random password u r w
  unfolding check_password after_match
  after_match_lem u (ok true) w e = rw (e, check_password) refl
  after_match_lem u (ok false) w e = rw (e, check_password) refl
  after_match_lem u (err x) w e = rw (e, check_password) refl

  after_lookup_lem :
      (p : Result Error User × World)
      → (after_lookup v h ttl random password p).0
        ≡ continue (check_password v h ttl random password) (on_err lookup_error p.0, p.1)
  unfolding after_lookup lookup_error
  after_lookup_lem (ok u, w) = sym (after_match_lem u _ w (sym (matches_lem u.password_hash)))
  after_lookup_lem (err e, w) = ground arith

  login_with_lem :
      (r : Result Error Bytes) (w : World)
      → (login_with v h ttl random password r w).0 ≡ login_as v h ttl random password r w
  unfolding login_with login_as
  login_with_lem (err e) w = refl
  login_with_lem (ok nickname) w = after_lookup_lem (user_by_nickname nickname w)

  lookup-work :
      (nickname : Bytes) (w : World) (o : Option User)
      → w.faults ≡ []
      → all (is_costly h password) w.tables.users ≡ true
      → find (same_nickname w.env.citext nickname) w.tables.users ≡ o
      → work (after_lookup v h ttl random password (user_by_nickname nickname w)).1
        ≡ 2 ^ bcrypt_cost
  unfolding user_by_nickname select_one row_or_none statement user_error after_lookup is work
      cost_of
  lookup-work nickname w none f c e = rw (f, e) refl
  lookup-work nickname w (some u) f c e =
      rw (f, e) (matches-work u (find-all _ (is_costly h password) w.tables.users u c e))

  login_with-work :
      (r : Result Error Bytes) (w : World)
      → w.faults ≡ []
      → all (is_costly h password) w.tables.users ≡ true
      → work (login_with v h ttl random password r w).1 ≡ 2 ^ bcrypt_cost
  unfolding login_with work cost_of
  login_with-work (err e) w f c = refl
  login_with-work (ok nickname) w f c = lookup-work nickname w _ f c refl

  -- The login with its hashes is the login. With a database that answers and usable hashes of the
  -- program's cost, it does the work of one comparison, whether the nickname is no nickname, is unknown, or
  -- the password is too long, wrong or right.
  pub timed_login-work :
      (nickname : Bytes) (w : World)
      → w.faults ≡ []
      → all (is_costly h password) w.tables.users ≡ true
      → ((timed_login v h ttl random password nickname w).0
          ≡ login v h ttl random nickname password w)
        × (work (timed_login v h ttl random password nickname w).1 ≡ 2 ^ bcrypt_cost)
  unfolding timed_login login
  timed_login-work nickname w f c = (
    login_with_lem (normalize_nickname v nickname) w,
    login_with-work (normalize_nickname v nickname) w f c,
  )
