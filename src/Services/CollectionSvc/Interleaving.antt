-- ===== src/Services/CollectionSvc/Interleaving.antt =====
-- `CollectionSvc` of internal/collectionsvc/collectionsvc.go by many requests of one user at once.
-- The transactions are those of Postgres under READ COMMITTED: a row lock has one holder until its
-- transaction ends, a statement sees what is committed, and what is inserted is there for others
-- from the COMMIT on. The account itself stays.
pub mod Kept
pub mod Sound
use wavelen.Prelude.{
  ℕ, Bool, true, false, not, some, List, [], ◌∷◌, ◌++◌, any, count, filter, find, length, leb, ◌==◌,
  nat_eq, ◌≡◌,
}
use wavelen.Storage.Schema.{CreateParams, UpdateParams, CollectionRow, owned_with_id}
use wavelen.Storage.Collections.{update_rows}

-- Where a request is. A creation: before `LockUser`, before `CountCollections`, after it with the
-- count, after the insert with the row. A deletion: before `CollectionByID`, after it with the row.
pub data Place : Type 0 where
  before_lock : CreateParams → Place
  locked : CreateParams → Place
  counted : ℕ → CreateParams → Place
  inserted : CollectionRow → Place
  before_lookup : ℕ → Place
  found : CollectionRow → Place
  ended : Place

-- Whether a request holds the lock of the user's row.
unfoldable pub holds_lock : Place → Bool
holds_lock (locked p) = true
holds_lock (counted n p) = true
holds_lock (inserted row) = true
holds_lock _ = false

-- The committed collections of the user, and the requests.
pub record Shared : Type 0 where
  pub stored : List CollectionRow
  pub requests : List Place

-- One request stands at a place, among others.
unfoldable pub placed : List CollectionRow → List Place → Place → List Place → Shared
placed stored pre p post = record { stored = stored; requests = pre ++ p ∷ post }

-- The row of a created collection: never a default one.
unfoldable pub created_row : ℕ → ℕ → ℕ → CreateParams → CollectionRow
created_row uid id now p = record {
  user_id = uid;
  clt = record {
    id = id;
    name = p.name;
    icon_slug = p.icon;
    icon_accent = p.accent;
    is_default = false;
    created_at = now;
  };
}

abbrev pub has_id : ℕ → CollectionRow → Bool
has_id id r = r.id == id

-- What can happen next.
pub data Step (uid quota : ℕ) : Shared → Shared → Type 0 where
  arrive :
      (p : CreateParams) (stored : List CollectionRow) (rs : List Place)
      → Step uid quota
          (record { stored = stored; requests = rs })
          (record { stored = stored; requests = before_lock p ∷ rs })
  -- `LockUser`, while nobody holds the lock
  lock :
      (p : CreateParams) (stored : List CollectionRow) (pre post : List Place)
      → count holds_lock (pre ++ before_lock p ∷ post) ≡ 0
      → Step uid quota (placed stored pre (before_lock p) post) (placed stored pre (locked p) post)
  -- `CountCollections`
  count_rows :
      (p : CreateParams) (stored : List CollectionRow) (pre post : List Place)
      → Step uid quota
          (placed stored pre (locked p) post)
          (placed stored pre (counted (length stored) p) post)
  -- `ErrQuotaFull`
  refuse :
      (n : ℕ) (p : CreateParams) (stored : List CollectionRow) (pre post : List Place)
      → leb quota n ≡ true
      → Step uid quota (placed stored pre (counted n p) post) (placed stored pre ended post)
  -- `CreateCollection`, with an id that no row has
  insert :
      (n id now : ℕ) (p : CreateParams) (stored : List CollectionRow) (pre post : List Place)
      → leb quota n ≡ false
      → any (has_id id) stored ≡ false
      → Step uid quota
          (placed stored pre (counted n p) post)
          (placed stored pre (inserted (created_row uid id now p)) post)
  commit :
      (row : CollectionRow) (stored : List CollectionRow) (pre post : List Place)
      → Step uid quota
          (placed stored pre (inserted row) post)
          (placed (stored ++ row ∷ []) pre ended post)
  -- a failure, or nothing found: ROLLBACK
  fail :
      (p : Place) (stored : List CollectionRow) (pre post : List Place)
      → Step uid quota (placed stored pre p post) (placed stored pre ended post)
  arrive_delete :
      (id : ℕ) (stored : List CollectionRow) (rs : List Place)
      → Step uid quota
          (record { stored = stored; requests = rs })
          (record { stored = stored; requests = before_lookup id ∷ rs })
  -- `CollectionByID` of a deletion, which has no transaction
  look_up :
      (id : ℕ) (row : CollectionRow) (stored : List CollectionRow) (pre post : List Place)
      → find (owned_with_id uid id) stored ≡ some row
      → Step uid quota
          (placed stored pre (before_lookup id) post)
          (placed stored pre (found row) post)
  -- `ErrDeleteDefault`
  keep :
      (row : CollectionRow) (stored : List CollectionRow) (pre post : List Place)
      → row.is_default ≡ true
      → Step uid quota (placed stored pre (found row) post) (placed stored pre ended post)
  -- `DeleteCollection`
  delete :
      (row : CollectionRow) (stored : List CollectionRow) (pre post : List Place)
      → row.is_default ≡ false
      → Step uid quota
          (placed stored pre (found row) post)
          (placed (filter (λ r. not (owned_with_id uid row.id r)) stored) pre ended post)
  -- `UpdateCollection`, one statement
  update :
      (id : ℕ) (p : UpdateParams) (stored : List CollectionRow) (rs : List Place)
      → Step uid quota
          (record { stored = stored; requests = rs })
          (record { stored = update_rows uid id p stored; requests = rs })

-- From the account's creation on: its default collection is there, and nobody asks for anything.
pub data Runs (uid quota : ℕ) (default : CollectionRow) : Shared → Type 0 where
  start : Runs uid quota default (record { stored = default ∷ []; requests = [] })
  then_ : (s t : Shared) → Runs uid quota default s → Step uid quota s t → Runs uid quota default t
