-- ===== src/Services/Consistency/Deletes.antt =====
-- The consistency of the tables when colors, a collection or an account are removed.
use wavelen.Prelude.{
  ℕ, Bool, true, false, some, not, ◌&&◌, any, count, filter, find, ◌==◌, nat_eq, bytes_eq, ==_iff,
  ◌≡◌, ap, sym, ◌∙◌, inl, inr, Bool-cases, arith, not_any_of_count, count-filter-le,
  count-filter-not, any-filter_or, any-filter_keeps, count-filter_drops, count-filter_keeps,
  count-zero_of_unique,
}
use wavelen.Storage.Schema.{
  Tables, CollectionRow, ColorRow, has_user_id, has_id, owned_by, owned_with_id, in_collection,
  is_color, delete_collections,
}
use wavelen.Storage.Users.{remove_user}
use wavelen.Storage.Collections.{default_of}
use wavelen.Services.Consistency.{one_if, IsConsistent}

-- Fewer colors are no problem.
pub fewer_colors-IsConsistent :
    (t : Tables) (p : ColorRow → Bool)
    → IsConsistent t
    → IsConsistent (record t { colors = filter p t.colors })
fewer_colors-IsConsistent t p c = record {
  one_default = c.one_default;
  owners = c.owners;
  one_user = c.one_user;
  one_collection = c.one_collection;
  homes = λ cid h. omega (arith, c.homes cid h, count-filter-le (in_collection cid) p t.colors);
  one_color =
      λ cid hex. omega (arith, c.one_color cid hex, count-filter-le (is_color cid hex) p t.colors);
}

-- The colors of a collection that is gone are gone.
cascaded :
    (t : Tables) (p : CollectionRow → Bool) (cid : ℕ)
    → IsConsistent t
    → any (has_id cid) (delete_collections p t).collections ≡ false
    → count (in_collection cid) (delete_collections p t).colors ≡ 0
unfolding delete_collections
cascaded t p cid c h = elim (Bool-cases (any (has_id cid) t.collections)) [
  | inl there ↦
      count-filter_drops (in_collection cid) _
        (λ r e. ground (
          arith,
          ==_iff r.collection_id cid,
          any-filter_or (has_id cid) p t.collections,
          λ (i : r.collection_id ≡ cid). ap (λ (k : ℕ). any (has_id k) (filter p t.collections)) i,
        ))
        t.colors
  | inr gone ↦ omega (
    arith,
    c.homes cid gone,
    count-filter-le (in_collection cid)
        (λ r. not (any (has_id r.collection_id) (filter p t.collections))) t.colors,
  )
]

-- A collection goes, where those that go hold no default one.
pub deleted-IsConsistent :
    (t : Tables) (p : CollectionRow → Bool)
    → IsConsistent t
    → ((uid : ℕ) → count (λ r. default_of uid r && p r) t.collections ≡ 0)
    → IsConsistent (delete_collections p t)
unfolding delete_collections
deleted-IsConsistent t p c plain = record {
  one_default = λ uid.
      omega
        (arith, c.one_default uid, plain uid, count-filter-not (default_of uid) p t.collections);
  owners = λ uid h.
      omega (arith, c.owners uid h, count-filter-le (owned_by uid) (λ r. not (p r)) t.collections);
  one_user = c.one_user;
  one_collection = λ cid.
      omega
        (arith, c.one_collection cid, count-filter-le (has_id cid) (λ r. not (p r)) t.collections);
  homes = λ cid h. cascaded t p cid c h;
  one_color = λ cid hex. omega (
    arith,
    c.one_color cid hex,
    count-filter-le (is_color cid hex)
        (λ r. not (any (has_id r.collection_id) (filter p t.collections))) t.colors,
  );
}

no_default :
    (t : Tables) (uid cid : ℕ) (r : CollectionRow)
    → IsConsistent t
    → find (owned_with_id uid cid) t.collections ≡ some r
    → r.is_default ≡ false
    → (u : ℕ) → count (λ x. default_of u x && owned_with_id uid cid x) t.collections ≡ 0
no_default t uid cid r c f plain u =
    count-zero_of_unique (owned_with_id uid cid) (λ x. default_of u x && owned_with_id uid cid x)
      (has_id cid) t.collections r (λ x h. ground arith) (λ x h. ground arith)
      (c.one_collection cid) f (ground arith)

-- One collection that is not a default one goes.
pub deleted_one-IsConsistent :
    (t : Tables) (uid cid : ℕ) (r : CollectionRow)
    → IsConsistent t
    → find (owned_with_id uid cid) t.collections ≡ some r
    → r.is_default ≡ false
    → IsConsistent (delete_collections (owned_with_id uid cid) t)
deleted_one-IsConsistent t uid cid r c f plain =
    deleted-IsConsistent t (owned_with_id uid cid) c (no_default t uid cid r c f plain)

module _ (t : Tables) (uid u : ℕ) (c : IsConsistent t) where
  -- Of the account that goes nothing is left.
  default_of_removed :
      (u == uid) ≡ true
      → count (default_of u) (remove_user uid t).collections
        ≡ one_if (any (has_user_id u) (remove_user uid t).users)
  unfolding remove_user delete_collections
  default_of_removed same = ground (
    arith,
    count-filter_drops (default_of u) (λ r. not (owned_by uid r)) (λ r h. ground arith)
        t.collections,
    not_any_of_count (has_user_id u) (filter (λ x. not (has_user_id uid x)) t.users) (
        count-filter_drops (has_user_id u) (λ x. not (has_user_id uid x)) (λ x h. ground arith)
          t.users),
  )

  -- The other accounts keep their default collection.
  default_of_kept :
      (u == uid) ≡ false
      → count (default_of u) (remove_user uid t).collections
        ≡ one_if (any (has_user_id u) (remove_user uid t).users)
  unfolding remove_user delete_collections
  default_of_kept other =
      rw
        (
          count-filter_keeps (default_of u) (λ r. not (owned_by uid r)) (λ r h. ground arith)
              t.collections,
          any-filter_keeps (has_user_id u) (λ x. not (has_user_id uid x)) (λ x h. ground arith)
              t.users,
        )
        (c.one_default u)

  owned_of_removed :
      any (has_user_id u) (remove_user uid t).users ≡ false
      → count (owned_by u) (remove_user uid t).collections ≡ 0
  unfolding remove_user delete_collections
  owned_of_removed h = elim (Bool-cases (u == uid)) [
    | inl same ↦
        count-filter_drops (owned_by u) (λ r. not (owned_by uid r)) (λ r k. ground arith)
          t.collections
    | inr other ↦ omega (
      arith,
      c.owners u (
          sym (
            any-filter_keeps (has_user_id u) (λ x. not (has_user_id uid x)) (λ x k. ground arith)
              t.users)
          ∙ h),
      count-filter-le (owned_by u) (λ r. not (owned_by uid r)) t.collections,
    )
  ]

-- An account goes with all its collections and their colors.
pub removed_user-IsConsistent :
    (t : Tables) (uid : ℕ) → IsConsistent t → IsConsistent (remove_user uid t)
unfolding remove_user delete_collections
removed_user-IsConsistent t uid c = record {
  one_default = λ u. elim (Bool-cases (u == uid)) [
    | inl same ↦ default_of_removed t uid u c same
    | inr other ↦ default_of_kept t uid u c other
  ];
  owners = λ u h. owned_of_removed t uid u c h;
  one_user = λ u.
      omega (
        arith,
        c.one_user u,
        count-filter-le (has_user_id u) (λ x. not (has_user_id uid x)) t.users,
      );
  one_collection = λ cid. omega (
    arith,
    c.one_collection cid,
    count-filter-le (has_id cid) (λ r. not (owned_by uid r)) t.collections,
  );
  homes = λ cid h. cascaded t (owned_by uid) cid c h;
  one_color = λ cid hex. omega (
    arith,
    c.one_color cid hex,
    count-filter-le (is_color cid hex)
        (λ r. not (any (has_id r.collection_id) (filter (owned_by uid) t.collections))) t.colors,
  );
}
