-- ===== src/Storage/Cascade.antt =====
-- What a DELETE takes along (internal/storage/collection_repo.go and user_repo.go, with the ON
-- DELETE CASCADE of the migrations), row by row.
use wavelen.Prelude.{
  ℕ, Bool, true, not, List, [], ◌∷◌, ◌&&◌, any, filter, ◌==◌, nat_eq, ◌≡◌, refl, ap, Bool-cases,
  inl, inr, arith,
}
use wavelen.Storage.Schema.{
  CollectionRow, ColorRow, Tables, has_user_id, has_id, owned_by, owned_with_id, delete_collections,
}
use wavelen.Storage.Users.{token_of, remove_user}

-- The tables without a collection of a user: its row and its colors are gone.
abbrev pub without_collection : ℕ → ℕ → Tables → Tables
without_collection uid cid t = record t {
  collections = filter (λ c. not ((c.id == cid) && (c.user_id == uid))) t.collections;
  colors = filter (λ r. not (r.collection_id == cid)) t.colors;
}

-- The tables without a user: its row, its tokens, its collections and the colors of these are gone.
abbrev pub without_account : ℕ → Tables → Tables
without_account uid t = record {
  users = filter (λ u. not (u.id == uid)) t.users;
  collections = filter (λ c. not (c.user_id == uid)) t.collections;
  colors =
      filter (λ r. not (any (λ c. (c.user_id == uid) && (c.id == r.collection_id)) t.collections))
        t.colors;
  tokens = filter (λ k. not (k.user_id == uid)) t.tokens;
}

filter_same :
    {A : Type 0} (p q : A → Bool)
    → ((x : A) → p x ≡ q x)
    → (xs : List A) → filter p xs ≡ filter q xs
unfolding filter
filter_same p q h [] = refl
filter_same p q h (x ∷ xs) = ground (arith, h x, filter_same p q h xs)

any-filter_both :
    (p q : CollectionRow → Bool) (rows : List CollectionRow)
    → any p (filter q rows) ≡ any (λ c. q c && p c) rows
unfolding any filter
any-filter_both p q [] = refl
any-filter_both p q (c ∷ rows) = ground (arith, any-filter_both p q rows)

module _ (uid cid : ℕ) where
  -- Only the id of the collection is among those of the deleted rows.
  gone_same :
      (x : ℕ) (rows : List CollectionRow)
      → any (has_id x) (filter (owned_with_id uid cid) rows) ≡ true
      → (x == cid) ≡ true
  unfolding any filter
  gone_same x [] h = cc
  gone_same x (c ∷ rows) h = ground (arith, gone_same x rows)

  gone_there :
      (rows : List CollectionRow)
      → any (owned_with_id uid cid) rows ≡ true
      → any (has_id cid) (filter (owned_with_id uid cid) rows) ≡ true
  unfolding any filter
  gone_there [] h = cc
  gone_there (c ∷ rows) h = ground (arith, gone_there rows)

  gone_lem :
      (x : ℕ) (rows : List CollectionRow)
      → any (owned_with_id uid cid) rows ≡ true
      → any (has_id x) (filter (owned_with_id uid cid) rows) ≡ (x == cid)
  gone_lem x rows h = elim (Bool-cases (any (has_id x) (filter (owned_with_id uid cid) rows))) [
    | inl there ↦ ground (arith, gone_same x rows there)
    | inr none ↦ elim (Bool-cases (x == cid)) [
      | inl same ↦ ground (arith, gone_there rows h)
      | inr other ↦ ground arith
    ]
  ]

  pub delete_collections-own :
      (t : Tables)
      → any (owned_with_id uid cid) t.collections ≡ true
      → delete_collections (owned_with_id uid cid) t ≡ without_collection uid cid t
  unfolding delete_collections
  delete_collections-own t h =
      ap
        (λ (colors : List ColorRow). record t {
          collections = filter (λ c. not (owned_with_id uid cid c)) t.collections;
          colors = colors;
        })
        (filter_same _ _ (λ r. ap not (gone_lem r.collection_id t.collections h)) t.colors)

pub remove_user_lem : (uid : ℕ) (t : Tables) → remove_user uid t ≡ without_account uid t
unfolding remove_user delete_collections
remove_user_lem uid t =
    ap
      (λ (colors : List ColorRow). record t {
        users = filter (λ u. not (has_user_id uid u)) t.users;
        collections = filter (λ c. not (owned_by uid c)) t.collections;
        colors = colors;
        tokens = filter (λ r. not (token_of uid r)) t.tokens;
      })
      (filter_same _ _
        (λ r. ap not (any-filter_both (has_id r.collection_id) (owned_by uid) t.collections))
        t.colors)
