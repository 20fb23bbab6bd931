-- ===== src/Services/Consistency.antt =====
-- The invariant of the tables: the keys and references that migrations/ declare, and the one rule
-- that only the services keep, that every account has exactly one default collection.
pub mod Inserts
pub mod Deletes
pub mod Promised
pub mod Safe
pub mod Reachable
use wavelen.Prelude.{ℕ, ◌≤◌, Bytes, Bool, true, false, any, count, if◌then◌else◌, ◌≡◌}
use wavelen.Storage.Schema.{Tables, has_user_id, has_id, owned_by, in_collection, is_color}
use wavelen.Storage.Collections.{default_of}

abbrev pub one_if : Bool → ℕ
one_if b = if b then 1 else 0

pub record IsConsistent (t : Tables) : Type 0 where
  pub one_default :
      (uid : ℕ) → count (default_of uid) t.collections ≡ one_if (any (has_user_id uid) t.users)
  pub owners :
      (uid : ℕ) → any (has_user_id uid) t.users ≡ false → count (owned_by uid) t.collections ≡ 0
  pub one_user : (uid : ℕ) → count (has_user_id uid) t.users ≤ 1
  pub one_collection : (cid : ℕ) → count (has_id cid) t.collections ≤ 1
  pub homes :
      (cid : ℕ) → any (has_id cid) t.collections ≡ false → count (in_collection cid) t.colors ≡ 0
  pub one_color : (cid : ℕ) (hex : Bytes) → count (is_color cid hex) t.colors ≤ 1
