-- ===== src/Storage/Schema.antt =====
-- The records that cross the storage boundary (internal/user/user.go, internal/clt/collection.go,
-- internal/color/color.go, internal/auth/token.go) and the tables of migrations/, row by row.
-- An id is a number (a bigserial, or a uuid read as a number), a time is the number of
-- microseconds, a hash and a text are byte strings.
use wavelen.Prelude.{
  ℕ, Bytes, Bool, Option, List, [], not, filter, any, ◌==◌, nat_eq, bytes_eq, ◌&&◌,
}

pub record User : Type 0 where
  pub id : ℕ
  pub nickname : Bytes
  pub password_hash : Bytes
  pub created_at : ℕ

pub record Collection : Type 0 where
  pub id : ℕ
  pub name : Bytes
  pub icon_slug : Bytes
  pub icon_accent : Bytes
  pub is_default : Bool
  pub created_at : ℕ

pub record CreateParams : Type 0 where
  pub name : Bytes
  pub icon : Bytes
  pub accent : Bytes
  pub is_default : Bool

pub record UpdateParams : Type 0 where
  pub name : Option Bytes
  pub icon : Option Bytes
  pub accent : Option Bytes

pub record Color : Type 0 where
  pub hex : Bytes
  pub created_at : ℕ

pub record Token : Type 0 where
  pub plaintext : Bytes
  pub hash : Bytes
  pub user_id : ℕ
  pub expiry : ℕ

-- A row of `collections`: the collection and its owner.
pub record CollectionRow : Type 0 where
  pub user_id : ℕ
  pub clt : Collection
  pub open clt use *

-- A row of `collection_colors`.
pub record ColorRow : Type 0 where
  pub collection_id : ℕ
  pub color : Color
  pub open color use *
  pub color_key : ℕ

-- A row of `tokens`.
pub record TokenRow : Type 0 where
  pub hash : Bytes
  pub user_id : ℕ
  pub expiry : ℕ

pub record Tables : Type 0 where
  pub users : List User
  pub collections : List CollectionRow
  pub colors : List ColorRow
  pub tokens : List TokenRow

abbrev pub empty_tables : Tables
empty_tables = record { users = []; collections = []; colors = []; tokens = [] }

-- WHERE clauses that several statements share.
abbrev pub has_user_id : ℕ → User → Bool
has_user_id uid u = u.id == uid

abbrev pub has_id : ℕ → CollectionRow → Bool
has_id cid r = r.id == cid

abbrev pub owned_by : ℕ → CollectionRow → Bool
owned_by uid r = r.user_id == uid

abbrev pub owned_with_id : ℕ → ℕ → CollectionRow → Bool
owned_with_id uid cid r = (r.id == cid) && (r.user_id == uid)

abbrev pub in_collection : ℕ → ColorRow → Bool
in_collection cid r = r.collection_id == cid

abbrev pub is_color : ℕ → Bytes → ColorRow → Bool
is_color cid hex r = (r.collection_id == cid) && (r.hex == hex)

abbrev pub has_hash : Bytes → TokenRow → Bool
has_hash h r = r.hash == h

-- ON DELETE CASCADE: a deleted collection takes its colors along (migrations/000003).
unfoldable pub delete_collections : (CollectionRow → Bool) → Tables → Tables
delete_collections p t =
    let gone = filter p t.collections in
    record t {
      collections = filter (λ r. not (p r)) t.collections;
      colors = filter (λ r. not (any (has_id r.collection_id) gone)) t.colors;
    }
