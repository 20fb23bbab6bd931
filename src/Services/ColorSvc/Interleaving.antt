-- ===== src/Services/ColorSvc/Interleaving.antt =====
-- `ColorSvc.AddColor` of internal/colorsvc/colorsvc.go by many requests at once, on the colors of
-- one collection, with the deletes between them. The transactions are those of Postgres under READ
-- COMMITTED: a row lock has one holder until its transaction ends, a statement sees what is
-- committed, and what is inserted is there for others from the COMMIT on.
pub mod Calls
pub mod Capped
pub mod Serial
use wavelen.Prelude.{
  ℕ, Bytes, Bool, true, false, not, List, [], ◌∷◌, ◌++◌, any, count, filter, length, leb, ◌==◌,
  nat_eq, bytes_eq, if◌then◌else◌, ◌≡◌,
}

-- Where a request for a color is: before `LockCollection`, before `CountColors`, after it with the
-- count, after the insert and whether it wrote a row, or past the end of its transaction.
pub data Place : Type 0 where
  before_lock : Bytes → Place
  locked : Bytes → Place
  counted : ℕ → Bytes → Place
  inserted : Bool → Bytes → Place
  ended : Place

-- Whether a request holds the lock of the collection's row.
unfoldable pub holds_lock : Place → Bool
holds_lock (before_lock hex) = false
holds_lock (locked hex) = true
holds_lock (counted n hex) = true
holds_lock (inserted created hex) = true
holds_lock ended = false

-- The committed colors of the collection, and the requests.
pub record Shared : Type 0 where
  pub stored : List Bytes
  pub requests : List Place

abbrev pub untouched : Shared
untouched = record { stored = []; requests = [] }

-- One request stands at a place, among others.
unfoldable pub placed : List Bytes → List Place → Place → List Place → Shared
placed stored pre p post = record { stored = stored; requests = pre ++ p ∷ post }

unfoldable pub is_stored : Bytes → List Bytes → Bool
is_stored hex stored = any (λ h. h == hex) stored

-- What can happen next.
pub data Step (quota : ℕ) : Shared → Shared → Type 0 where
  arrive :
      (hex : Bytes) (stored : List Bytes) (rs : List Place)
      → Step quota
          (record { stored = stored; requests = rs })
          (record { stored = stored; requests = before_lock hex ∷ rs })
  -- `LockCollection`, while nobody holds the lock
  lock :
      (hex : Bytes) (stored : List Bytes) (pre post : List Place)
      → count holds_lock (pre ++ before_lock hex ∷ post) ≡ 0
      → Step quota (placed stored pre (before_lock hex) post) (placed stored pre (locked hex) post)
  -- `CountColors`
  count_colors :
      (hex : Bytes) (stored : List Bytes) (pre post : List Place)
      → Step quota
          (placed stored pre (locked hex) post)
          (placed stored pre (counted (length stored) hex) post)
  -- the branch `n >= c.quota`: the color is there, or `ErrQuotaFull`; nothing is written
  refuse :
      (n : ℕ) (hex : Bytes) (stored : List Bytes) (pre post : List Place)
      → leb quota n ≡ true
      → Step quota (placed stored pre (counted n hex) post) (placed stored pre ended post)
  -- `AddColor`, ON CONFLICT DO NOTHING
  insert :
      (n : ℕ) (hex : Bytes) (stored : List Bytes) (pre post : List Place)
      → leb quota n ≡ false
      → Step quota
          (placed stored pre (counted n hex) post)
          (placed stored pre (inserted (not (is_stored hex stored)) hex) post)
  commit :
      (created : Bool) (hex : Bytes) (stored : List Bytes) (pre post : List Place)
      → Step quota
          (placed stored pre (inserted created hex) post)
          (placed (if created then stored ++ hex ∷ [] else stored) pre ended post)
  -- a failure: ROLLBACK
  fail :
      (p : Place) (stored : List Bytes) (pre post : List Place)
      → Step quota (placed stored pre p post) (placed stored pre ended post)
  -- `DeleteColor` and `DeleteAllColors` take no lock
  delete :
      (hex : Bytes) (stored : List Bytes) (rs : List Place)
      → Step quota
          (record { stored = stored; requests = rs })
          (record { stored = filter (λ h. not (h == hex)) stored; requests = rs })
  delete_all :
      (stored : List Bytes) (rs : List Place)
      → Step quota
          (record { stored = stored; requests = rs })
          (record { stored = []; requests = rs })

pub data Runs (quota : ℕ) : Shared → Type 0 where
  start : Runs quota untouched
  then_ : (s t : Shared) → Runs quota s → Step quota s t → Runs quota t
