-- ===== src/Services/Consistency/Promised.antt =====
-- The consistency of the tables under what the services promise.
use wavelen.Prelude.{
  ℕ, Bytes, Bool, true, false, List, [], ◌∷◌, any, find, count, leb, nat_eq, ◌≡◌, refl, sym, subst,
  inl, inr, Bool-cases, arith, Option-cases,
}
use wavelen.Storage.Schema.{
  User, CreateParams, CollectionRow, has_user_id, has_id, owned_by, owned_with_id, in_collection,
  is_color,
}
use wavelen.Storage.Actions.{World, M}
use wavelen.Storage.Promises.{Promise, Implements}
use wavelen.Storage.Users
use wavelen.Storage.Cascade.{delete_collections-own, remove_user_lem}
use wavelen.Storage.Collections
use wavelen.Storage.Collections.{new_row, update_rows, updated, default_of}
use wavelen.Storage.Colors.{color_row}
use wavelen.Services.ColorSvc.Refinement.{add_color_promise, any_id_of_owned}
use wavelen.Services.ColorSvc.Removal.{delete_color_promise, delete_all_colors_promise}
use wavelen.Services.CollectionSvc.Refinement.{create_promise, delete_promise, found_owned}
use wavelen.Services.UserSvc.{default_params}
use wavelen.Services.UserSvc.Refinement.{new_user, create_account_promise, delete_account_promise}
use wavelen.Services.Consistency.{IsConsistent}
use wavelen.Services.Consistency.Inserts.{
  added_color-IsConsistent, added_collection-IsConsistent, added_account-IsConsistent,
}
use wavelen.Services.Consistency.Deletes.{
  fewer_colors-IsConsistent, deleted_one-IsConsistent, removed_user-IsConsistent,
}

any_weaken :
    {A : Type 0}
    → (p q : A → Bool) → ((x : A) → p x ≡ true → q x ≡ true)
    → (xs : List A) → any q xs ≡ false
    → any p xs ≡ false
unfolding any
any_weaken p q h [] e = refl
any_weaken p q h (x ∷ xs) e = ground (arith, any_weaken p q h xs, h x)

pub Implements-IsConsistent :
    {A : Type 0}
    → (m : M A) (w : World) (p : Promise A) → Implements m w p
    → IsConsistent w.tables
    → IsConsistent p.1
    → IsConsistent (m w).1.tables
Implements-IsConsistent m w p (inl (r, e)) c d = subst IsConsistent (sym e) d
Implements-IsConsistent m w p (inr (r, e)) c d = subst IsConsistent (sym e) c

module _ (w : World) (c : IsConsistent w.tables) where
  pub add_color_promise-IsConsistent :
      (quota uid cid : ℕ) (hex : Bytes) → IsConsistent (add_color_promise quota uid cid hex w).1
  add_color_promise-IsConsistent quota uid cid hex =
      elim (Bool-cases (any (owned_with_id uid cid) w.tables.collections)) [
        | inr foreign ↦ rw foreign c
        | inl owned ↦ elim (Bool-cases (any (is_color cid hex) w.tables.colors)) [
          | inl there ↦ rw (owned, there) c
          | inr new ↦ elim (Bool-cases (leb quota (count (in_collection cid) w.tables.colors))) [
            | inl full ↦ rw (owned, new, full) c
            | inr room ↦
                rw (owned, new, room)
                  (added_color-IsConsistent w.tables (color_row w cid hex) c
                    (unfold color_row in any_id_of_owned uid cid w.tables.collections owned)
                    (unfold color_row in new))
          ]
        ]
      ]

  pub delete_color_promise-IsConsistent :
      (uid cid : ℕ) (hex : Bytes) → IsConsistent (delete_color_promise uid cid hex w).1
  delete_color_promise-IsConsistent uid cid hex =
      elim (Bool-cases (any (owned_with_id uid cid) w.tables.collections)) [
        | inr foreign ↦ rw foreign c
        | inl owned ↦ elim (Bool-cases (any (is_color cid hex) w.tables.colors)) [
          | inl there ↦ rw (owned, there) (fewer_colors-IsConsistent w.tables _ c)
          | inr absent ↦ rw (owned, absent) c
        ]
      ]

  pub delete_all_colors_promise-IsConsistent :
      (uid cid : ℕ) → IsConsistent (delete_all_colors_promise uid cid w).1
  delete_all_colors_promise-IsConsistent uid cid =
      elim (Bool-cases (any (owned_with_id uid cid) w.tables.collections)) [
        | inr foreign ↦ rw foreign c
        | inl owned ↦ rw owned (fewer_colors-IsConsistent w.tables _ c)
      ]

  pub create_promise-IsConsistent :
      (quota uid : ℕ) (p : CreateParams) → IsConsistent (create_promise quota uid p w).1
  create_promise-IsConsistent quota uid p =
      let row : CollectionRow = new_row w uid (record p { is_default = false }) in
      elim (Bool-cases (any (has_user_id uid) w.tables.users)) [
        | inr unknown ↦ rw unknown c
        | inl known ↦ elim (Bool-cases (leb quota (count (owned_by uid) w.tables.collections))) [
          | inl full ↦ rw (known, full) c
          | inr room ↦ elim (Bool-cases (any (Collections.clashes row) w.tables.collections)) [
            | inl taken ↦ rw (known, room, taken) c
            | inr free ↦
                rw (known, room, free)
                  (added_collection-IsConsistent w.tables row c (unfold new_row in known)
                    (any_weaken (has_id row.id) (Collections.clashes row)
                      (λ r h. unfold Collections.clashes in ground arith) w.tables.collections free)
                    (unfold new_row in refl))
          ]
        ]
      ]

  pub delete_promise-IsConsistent : (uid cid : ℕ) → IsConsistent (delete_promise uid cid w).1
  unfolding delete_promise
  delete_promise-IsConsistent uid cid =
      elim (Option-cases (find (owned_with_id uid cid) w.tables.collections)) [
        | inl e ↦ rw e c
        | inr (r, e) ↦ elim (Bool-cases r.is_default) [
          | inl d ↦ rw (e, d) c
          | inr d ↦
              rw (e, d)
                (subst IsConsistent
                  (delete_collections-own uid cid w.tables
                    (found_owned uid cid w.tables.collections r e))
                  (deleted_one-IsConsistent w.tables uid cid r c e d))
        ]
      ]

  pub create_account_promise-IsConsistent : (u : User) → IsConsistent (create_account_promise u w).1
  create_account_promise-IsConsistent u =
      let row : CollectionRow = new_row w w.user_seq default_params in
      elim (Bool-cases (any (Users.clashes w (new_user w u)) w.tables.users)) [
        | inl taken ↦ rw taken c
        | inr free ↦ elim (Bool-cases (any (Collections.clashes row) w.tables.collections)) [
          | inl clash ↦ rw (free, clash) c
          | inr new ↦
              rw (free, new)
                (added_account-IsConsistent w.tables (new_user w u) row c
                  (any_weaken (has_user_id w.user_seq) (Users.clashes w (new_user w u))
                    (λ x h. unfold Users.clashes in ground arith) w.tables.users free)
                  (any_weaken (has_id row.id) (Collections.clashes row)
                    (λ r h. unfold Collections.clashes in ground arith) w.tables.collections new)
                  (unfold new_row in refl) (unfold new_row in refl))
        ]
      ]

  pub delete_account_promise-IsConsistent :
      (uid : ℕ) → IsConsistent (delete_account_promise uid w).1
  delete_account_promise-IsConsistent uid =
      elim (Bool-cases (any (has_user_id uid) w.tables.users)) [
        | inl h ↦ rw h (
            subst IsConsistent (remove_user_lem uid w.tables)
              (removed_user-IsConsistent w.tables uid c))
        | inr h ↦ rw h c
      ]
