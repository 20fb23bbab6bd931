-- ===== src/Services/Consistency/Inserts.antt =====
-- The consistency of the tables when a color, a collection or an account is added.
use wavelen.Prelude.{
  ℕ, Bytes, true, false, List, [], ◌∷◌, ◌++◌, any, count, nat_eq, bytes_eq, ==_iff, ◌≡◌, ap, subst,
  arith, count-append, any-append, count-eq-zero,
}
use wavelen.Storage.Schema.{
  Tables, User, CollectionRow, ColorRow, has_user_id, has_id, owned_by, in_collection, is_color,
}
use wavelen.Storage.Collections.{default_of}
use wavelen.Services.Consistency.{IsConsistent}

-- The new color is not there yet, whatever the names that it is looked up by.
absent_color :
    (colors : List ColorRow) (r : ColorRow) (cid : ℕ) (hex : Bytes)
    → any (is_color r.collection_id r.hex) colors ≡ false
    → is_color cid hex r ≡ true
    → count (is_color cid hex) colors ≡ 0
absent_color colors r cid hex new same =
    subst (λ (k : ℕ × Bytes). count (is_color k.0 k.1) colors ≡ 0)
      (λ i.
        ((==_iff r.collection_id cid).0 (ground arith) i, (==_iff r.hex hex).0 (ground arith) i))
      (count-eq-zero (is_color r.collection_id r.hex) colors new)

-- One more color of a collection that is there and lacks it.
pub added_color-IsConsistent :
    (t : Tables) (r : ColorRow)
    → IsConsistent t
    → any (has_id r.collection_id) t.collections ≡ true
    → any (is_color r.collection_id r.hex) t.colors ≡ false
    → IsConsistent (record t { colors = t.colors ++ r ∷ [] })
unfolding count
added_color-IsConsistent t r c home new = record {
  one_default = c.one_default;
  owners = c.owners;
  one_user = c.one_user;
  one_collection = c.one_collection;
  homes = λ cid h. rw (count-append (in_collection cid) t.colors (r ∷ [])) (
      ground (
        arith,
        c.homes cid h,
        ==_iff r.collection_id cid,
        λ (e : r.collection_id ≡ cid). ap (λ (k : ℕ). any (has_id k) t.collections) e,
      ));
  one_color = λ cid hex.
      rw (count-append (is_color cid hex) t.colors (r ∷ []))
        (ground (arith, c.one_color cid hex, absent_color t.colors r cid hex new));
}

-- A new collection of a known user, which is no default one and has a new id.
pub added_collection-IsConsistent :
    (t : Tables) (r : CollectionRow)
    → IsConsistent t
    → any (has_user_id r.user_id) t.users ≡ true
    → any (has_id r.id) t.collections ≡ false
    → r.is_default ≡ false
    → IsConsistent (record t { collections = t.collections ++ r ∷ [] })
unfolding count any
added_collection-IsConsistent t r c known new plain = record {
  one_default = λ uid.
      rw (count-append (default_of uid) t.collections (r ∷ [])) (ground (arith, c.one_default uid));
  owners = λ uid h. rw (count-append (owned_by uid) t.collections (r ∷ [])) (
      ground (
        arith,
        c.owners uid h,
        ==_iff r.user_id uid,
        λ (e : r.user_id ≡ uid). ap (λ (k : ℕ). any (has_user_id k) t.users) e,
      ));
  one_user = c.one_user;
  one_collection = λ cid. rw (count-append (has_id cid) t.collections (r ∷ [])) (
      ground (
        arith,
        c.one_collection cid,
        ==_iff r.id cid,
        count-eq-zero (has_id r.id) t.collections new,
        λ (e : r.id ≡ cid). ap (λ (k : ℕ). count (has_id k) t.collections) e,
      ));
  homes = λ cid h. c.homes cid (ground (arith, any-append (has_id cid) t.collections (r ∷ [])));
  one_color = c.one_color;
}

-- A new account, and its default collection with a new id.
pub added_account-IsConsistent :
    (t : Tables) (u : User) (r : CollectionRow)
    → IsConsistent t
    → any (has_user_id u.id) t.users ≡ false
    → any (has_id r.id) t.collections ≡ false
    → r.user_id ≡ u.id
    → r.is_default ≡ true
    → IsConsistent (record t { users = t.users ++ u ∷ []; collections = t.collections ++ r ∷ [] })
unfolding count any
added_account-IsConsistent t u r c fresh new own plain = record {
  one_default = λ uid.
      rw
        (
          count-append (default_of uid) t.collections (r ∷ []),
          any-append (has_user_id uid) t.users (u ∷ []),
        )
        (ground (
          arith,
          c.one_default uid,
          λ (e : u.id ≡ uid). ap (λ (k : ℕ). any (has_user_id k) t.users) e,
        ));
  owners = λ uid h.
      rw (count-append (owned_by uid) t.collections (r ∷ []))
        (ground (arith, c.owners uid, any-append (has_user_id uid) t.users (u ∷ [])));
  one_user = λ uid. rw (count-append (has_user_id uid) t.users (u ∷ [])) (
      ground (
        arith,
        c.one_user uid,
        count-eq-zero (has_user_id u.id) t.users fresh,
        λ (e : u.id ≡ uid). ap (λ (k : ℕ). count (has_user_id k) t.users) e,
      ));
  one_collection = λ cid. rw (count-append (has_id cid) t.collections (r ∷ [])) (
      ground (
        arith,
        c.one_collection cid,
        ==_iff r.id cid,
        count-eq-zero (has_id r.id) t.collections new,
        λ (e : r.id ≡ cid). ap (λ (k : ℕ). count (has_id k) t.collections) e,
      ));
  homes = λ cid h. c.homes cid (ground (arith, any-append (has_id cid) t.collections (r ∷ [])));
  one_color = c.one_color;
}
