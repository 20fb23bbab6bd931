-- ===== src/Services/CollectionSvc/Interleaving/Sound.antt =====
-- What every state of the interleavings of `CollectionSvc` keeps
-- (internal/collectionsvc/collectionsvc.go).
use wavelen.Prelude.{
  ℕ, ◌≤◌, ◌<◌, Bool, Bool-cases, inl, inr, ==_iff, true, false, not, List, [], ◌∷◌, ◌&&◌, any, all,
  count, filter, length, leb, ltb, ◌==◌, nat_eq, if◌then◌else◌, ◌≡◌, refl, sym, ap, ◌∙◌, arith,
}
use wavelen.Storage.Schema.{CollectionRow, owned_with_id}
use wavelen.Services.CollectionSvc.Interleaving.{
  Place, before_lock, locked, counted, inserted, before_lookup, found, ended, holds_lock, Shared,
  has_id,
}

-- The row with this id is the default one, and no other.
unfoldable pub marked : ℕ → CollectionRow → Bool
marked first r = if r.id == first then r.is_default else not r.is_default

-- With m collections stored: a count is not below m, an insert has room and is no default, and a
-- row that was looked up tells whether it is the default.
unfoldable pub sound : ℕ → ℕ → ℕ → Place → Bool
unfolding marked
sound first quota m (counted n p) = leb m n
sound first quota m (inserted row) = ltb m quota && (not row.is_default && marked first row)
sound first quota m (found row) = marked first row
sound first quota m _ = true

abbrev pub is_default_row : CollectionRow → Bool
is_default_row r = r.is_default

-- One holder at most, no more collections than the quota, one of them the default.
abbrev pub IsKept : ℕ → ℕ → Shared → Type 0
IsKept first quota s =
    (count holds_lock s.requests ≤ 1)
    × (length s.stored ≤ quota)
    × (count is_default_row s.stored ≡ 1)
    × (all (marked first) s.stored ≡ true)
    × (all (sound first quota (length s.stored)) s.requests ≡ true)

module _ (first : ℕ) where
  -- No row has the id of the default one.
  no_default :
      (rows : List CollectionRow)
      → all (marked first) rows ≡ true
      → any (has_id first) rows ≡ false
      → count is_default_row rows ≡ 0
  unfolding marked any count
  no_default [] h e = refl
  no_default (r ∷ rows) h e = ground (arith, no_default rows)

  -- A fresh id is not that of the default row.
  pub fresh_other :
      (id : ℕ) (rows : List CollectionRow)
      → all (marked first) rows ≡ true
      → count is_default_row rows ≡ 1
      → any (has_id id) rows ≡ false
      → (id == first) ≡ false
  fresh_other id rows h one e = elim (Bool-cases (id == first)) [
    | inl same ↦ absurd (
        omega (
          arith,
          one,
          no_default rows h (ap (λ i. any (has_id i) rows) (sym ((==_iff id first).0 same)) ∙ e),
        ))
    | inr other ↦ other
  ]

  -- The deletion of another row keeps the default one.
  pub default_spared :
      (uid : ℕ) (row : CollectionRow)
      → marked first row ≡ true
      → row.is_default ≡ false
      → (rows : List CollectionRow) → all (marked first) rows ≡ true
      → count is_default_row (filter (λ r. not (owned_with_id uid row.id r)) rows)
        ≡ count is_default_row rows
  unfolding marked count filter
  default_spared uid row m d [] h = refl
  default_spared uid row m d (r ∷ rows) h = ground (arith, default_spared uid row m d rows)

module _ (first quota m m' : ℕ) where
  pub roomier : m' ≤ m → (p : Place) → sound first quota m p ≡ true → sound first quota m' p ≡ true
  unfolding sound
  roomier le (counted n p) e = ground arith
  roomier le (inserted row) e = ground arith
  roomier le (found row) e = e
  roomier le (before_lock p) e = refl
  roomier le (locked p) e = refl
  roomier le (before_lookup id) e = refl
  roomier le ended e = refl

  -- Who holds no lock has nothing under way.
  pub free_sound :
      (rs : List Place)
      → count holds_lock rs ≡ 0
      → all (sound first quota m) rs ≡ true
      → all (sound first quota m') rs ≡ true
  unfolding count holds_lock sound
  free_sound [] z h = refl
  free_sound (counted n p ∷ rs) z h = absurd (omega (arith, z))
  free_sound (inserted row ∷ rs) z h = absurd (omega (arith, z))
  free_sound (locked p ∷ rs) z h = absurd (omega (arith, z))
  free_sound (found row ∷ rs) z h = ground (arith, free_sound rs)
  free_sound (before_lock p ∷ rs) z h = free_sound rs (omega (arith, z)) h
  free_sound (before_lookup id ∷ rs) z h = free_sound rs (omega (arith, z)) h
  free_sound (ended ∷ rs) z h = free_sound rs (omega (arith, z)) h

-- The default row by its id.
pub default_there :
    (first : ℕ) (rows : List CollectionRow)
    → all (marked first) rows ≡ true
    → 0 < count is_default_row rows
    → any (λ r. is_default_row r && (r.id == first)) rows ≡ true
unfolding marked any count
default_there first [] h e = absurd (omega arith)
default_there first (r ∷ rows) h e = ground (arith, default_there first rows)
