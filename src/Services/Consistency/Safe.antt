-- ===== src/Services/Consistency/Safe.antt =====
-- Methods that keep the tables consistent whatever fails: rules, and those methods that need no
-- promise for it (updates, login and logout).
use wavelen.Prelude.{
  ℕ, Bytes, Bool, true, false, some, none, List, [], ◌∷◌, any, find, count, nat_eq, Option, Result,
  ok, err, Result-cases, ◌≡◌, refl, sym, ◌∙◌, subst, inl, inr, Bool-cases, arith, Option-cases,
}
use wavelen.Errors.{PgError, Error}
use wavelen.Domain.Names.{Validation, normalize_nickname}
use wavelen.Domain.Auth.{Hashing, password_matches, new_token}
use wavelen.Storage.Schema.{
  User, Token, TokenRow, Tables, UpdateParams, CollectionRow, has_user_id, has_id, owned_by,
  owned_with_id, has_hash,
}
use wavelen.Storage.Actions.{
  World, M, Statement, attempt, statement, rescue, continue, pure, raise, change, ◌>>=◌,
}
use wavelen.Storage.Users.{user_by_nickname, user_error}
use wavelen.Storage.Tokens.{insert_token_row, insert_token, insert_token_error, delete_token}
use wavelen.Storage.Collections.{
  updated, update_rows, update_statement, update_collection, collection_error, default_of,
}
use wavelen.Storage.Faults.{IsReading}
use wavelen.Storage.Statements.{select-IsReading}
use wavelen.Services.CollectionSvc.{update_collection_of}
use wavelen.Services.AuthSvc.{store_token, check_password, login_as, login, logout}
use wavelen.Services.Consistency.{IsConsistent}

pub record IsSafe {A : Type 0} (m : M A) : Type 0 where
  pub at : (w : World) → IsConsistent w.tables → IsConsistent (m w).1.tables

module _ {A : Type 0} where
  attempt_safe :
      (s : Statement A) (w : World) (fs : List (Option ℕ))
      → ((v : World) → IsConsistent v.tables → IsConsistent (s v).1.tables)
      → IsConsistent w.tables
      → IsConsistent (attempt s fs w).1.tables
  unfolding attempt
  attempt_safe s w [] h c = h w c
  attempt_safe s w (none ∷ fs) h c = h (record w { faults = fs }) c
  attempt_safe s w (some e ∷ fs) h c = c

  query-IsSafe :
      (f : PgError → Error) (s : Statement A)
      → ((v : World) → IsConsistent v.tables → IsConsistent (s v).1.tables)
      → IsSafe (rescue f (statement s))
  unfolding statement
  query-IsSafe f s h = record { at = λ w c. attempt_safe s w w.faults h c }

  reading-IsSafe : (m : M A) → IsReading m → IsSafe m
  reading-IsSafe m r = record { at = λ w c. subst IsConsistent (sym (r.at w)) c }

  raise-IsSafe : (e : Error) → IsSafe (raise {A = A} e)
  raise-IsSafe e = record { at = λ w c. c }

module _ {A B : Type 0} (f : A → M B) where
  continue_safe :
      ((a : A) → IsSafe (f a))
      → (p : Result Error A × World) → IsConsistent p.1.tables
      → IsConsistent (continue f p).1.tables
  continue_safe r (ok a, w) c = (r a).at w c
  continue_safe r (err e, w) c = c

  bind-IsSafe : (m : M A) → IsSafe m → ((a : A) → IsSafe (f a)) → IsSafe (m >>= f)
  bind-IsSafe m p r = record { at = λ w c. continue_safe r (m w) (p.at w c) }

-- A column that the update leaves alone counts the same.
count-update_rows :
    (q : CollectionRow → Bool) (uid id : ℕ) (p : UpdateParams)
    → ((r : CollectionRow) → q (updated p r) ≡ q r)
    → (rows : List CollectionRow) → count q (update_rows uid id p rows) ≡ count q rows
unfolding count update_rows
count-update_rows q uid id p h [] = refl
count-update_rows q uid id p h (r ∷ rows) = ground (arith, count-update_rows q uid id p h rows, h r)

any-update_rows :
    (q : CollectionRow → Bool) (uid id : ℕ) (p : UpdateParams)
    → ((r : CollectionRow) → q (updated p r) ≡ q r)
    → (rows : List CollectionRow) → any q (update_rows uid id p rows) ≡ any q rows
unfolding any update_rows
any-update_rows q uid id p h [] = refl
any-update_rows q uid id p h (r ∷ rows) = ground (arith, any-update_rows q uid id p h rows, h r)

update_rows-IsConsistent :
    (t : Tables) (uid id : ℕ) (p : UpdateParams)
    → IsConsistent t
    → IsConsistent (record t { collections = update_rows uid id p t.collections })
unfolding updated
update_rows-IsConsistent t uid id p c = record {
  one_default =
      λ u. count-update_rows (default_of u) uid id p (λ r. refl) t.collections ∙ c.one_default u;
  owners = λ u h. count-update_rows (owned_by u) uid id p (λ r. refl) t.collections ∙ c.owners u h;
  one_user = c.one_user;
  one_collection = λ cid. omega (
    arith,
    count-update_rows (has_id cid) uid id p (λ r. refl) t.collections,
    c.one_collection cid,
  );
  homes = λ cid h.
      c.homes cid (sym (any-update_rows (has_id cid) uid id p (λ r. refl) t.collections) ∙ h);
  one_color = c.one_color;
}

update_statement-safe :
    (uid id : ℕ) (p : UpdateParams) (v : World)
    → IsConsistent v.tables
    → IsConsistent (update_statement uid id p v).1.tables
unfolding update_statement
update_statement-safe uid id p v c =
    elim (Option-cases (find (owned_with_id uid id) v.tables.collections)) [
      | inl e ↦ rw (e, update_statement) c
      | inr (r, e) ↦ rw (e, update_statement) (update_rows-IsConsistent v.tables uid id p c)
    ]

pub update_collection_of-IsSafe :
    (uid id : ℕ) (p : UpdateParams) → IsSafe (update_collection_of uid id p)
unfolding update_collection_of update_collection
update_collection_of-IsSafe uid id p =
    query-IsSafe collection_error _ (update_statement-safe uid id p)

-- Tokens are no part of it.
tokens-IsConsistent :
    (t : Tables) (tokens : List TokenRow)
    → IsConsistent t
    → IsConsistent (record t { tokens = tokens })
tokens-IsConsistent t tokens c = record {
  one_default = c.one_default;
  owners = c.owners;
  one_user = c.one_user;
  one_collection = c.one_collection;
  homes = c.homes;
  one_color = c.one_color;
}

insert_token-IsSafe : (t : Token) → IsSafe (insert_token t)
unfolding insert_token
insert_token-IsSafe t = query-IsSafe insert_token_error _ λ v c.
    unfold insert_token_row in
    elim (Bool-cases (any (has_hash t.hash) v.tables.tokens)) [
      | inl taken ↦ rw taken c
      | inr new ↦ elim (Bool-cases (any (has_user_id t.user_id) v.tables.users)) [
        | inl known ↦ rw (new, known) (tokens-IsConsistent v.tables _ c)
        | inr unknown ↦ rw (new, unknown) c
      ]
    ]

pub logout-IsSafe : (hash : Bytes) → IsSafe (logout hash)
unfolding logout delete_token change
logout-IsSafe hash =
    bind-IsSafe _ _ (query-IsSafe _ _ (λ v c. tokens-IsConsistent v.tables _ c))
      λ n. record { at = λ w c. c }

module _ (v : Validation) (h : Hashing) (ttl : ℕ) (random : Bytes) where
  store_token-IsSafe : (u : User) → IsSafe (store_token v h ttl random u)
  unfolding store_token
  store_token-IsSafe u = record {
    at = λ w c.
        (bind-IsSafe (λ _. pure _) _ (insert_token-IsSafe (new_token h random w.now u.id ttl))
            λ _. record { at = λ w' c'. c' }).at
          w c;
  }

  check_password-IsSafe :
      (u : User) (password : Bytes) → IsSafe (check_password v h ttl random password u)
  unfolding check_password
  check_password-IsSafe u password =
      elim (Result-cases (password_matches h u.password_hash password)) [
        | inl (true, e) ↦ rw (e, check_password) (store_token-IsSafe u)
        | inl (false, e) ↦ rw (e, check_password) (raise-IsSafe _)
        | inr (x, e) ↦ rw (e, check_password) (raise-IsSafe _)
      ]

  login_as-IsSafe :
      (password : Bytes) (n : Result Error Bytes) → IsSafe (login_as v h ttl random password n)
  unfolding login_as user_by_nickname
  login_as-IsSafe password (err e) = raise-IsSafe _
  login_as-IsSafe password (ok nickname) =
      bind-IsSafe _ _
        (record {
          at = λ w c.
              (reading-IsSafe (user_by_nickname nickname) (select-IsReading user_error _)).at w c;
        })
        (λ u. check_password-IsSafe u password)

  pub login-IsSafe : (nickname password : Bytes) → IsSafe (login v h ttl random nickname password)
  unfolding login
  login-IsSafe nickname password = login_as-IsSafe password (normalize_nickname v nickname)
