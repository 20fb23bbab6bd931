-- ===== src/Services/ColorSvc/Refinement.antt =====
-- What the color service promises, on the tables alone, and its methods against it.
use wavelen.Prelude.{
  ℕ, Bytes, Bool, true, false, some, none, List, [], ◌∷◌, ◌++◌, not, any, find, count, leb,
  if◌then◌else◌, ok, err, ◌≡◌, refl, inl, inr, Bool-cases, arith,
}
use wavelen.Errors.{not_found, color_quota_full}
use wavelen.Color.Hex.{is_hex}
use wavelen.Storage.Schema.{CollectionRow, has_id, owned_with_id, in_collection, is_color}
use wavelen.Storage.Actions.{World, in_tx}
use wavelen.Storage.Faults.{
  IsRobust, in_tx-IsRobust, in_tx-IsAtomic, bind-IsRobust, if-IsRobust, pure-IsRobust,
  raise-IsRobust,
}
use wavelen.Storage.Promises.{Promise, Implements, Keeps, Keeps-Implements}
use wavelen.Storage.Collections.{lock_collection}
use wavelen.Storage.Colors.{color_row, add_color, count_colors, has_color}
use wavelen.Storage.Methods.{
  lock_collection-IsRobust, count_colors-IsRobust, has_color-IsRobust, add_color-IsRobust,
}
use wavelen.Services.ColorSvc.{add_color_tx, add_color_to}

-- Only in an own collection; a color that is there stays as it is; in a full collection a new one
-- is refused; otherwise it is added.
abbrev pub add_color_promise : ℕ → ℕ → ℕ → Bytes → World → Promise Bool
add_color_promise quota uid cid hex w =
    if not (any (owned_with_id uid cid) w.tables.collections)
    then (err not_found, w.tables)
    else if any (is_color cid hex) w.tables.colors
    then (ok false, w.tables)
    else if leb quota (count (in_collection cid) w.tables.colors)
    then (err color_quota_full, w.tables)
    else (ok true, record w.tables { colors = w.tables.colors ++ color_row w cid hex ∷ [] })

pub find_owned :
    (uid cid : ℕ) (rows : List CollectionRow)
    → any (owned_with_id uid cid) rows ≡ true
    → (r : CollectionRow) × (find (owned_with_id uid cid) rows ≡ some r) × (r.id ≡ cid)
unfolding any find
find_owned uid cid [] h = cc
find_owned uid cid (r ∷ rows) h = elim (Bool-cases (owned_with_id uid cid r)) [
  | inl hit ↦ (r, rw hit, ground arith)
  | inr miss ↦ let (s, e, i) = find_owned uid cid rows (ground arith) in (s, rw miss e, i)
]

pub find_not_owned :
    (uid cid : ℕ) (rows : List CollectionRow)
    → any (owned_with_id uid cid) rows ≡ false
    → find (owned_with_id uid cid) rows ≡ none
unfolding any find
find_not_owned uid cid [] h = refl
find_not_owned uid cid (r ∷ rows) h = ground (arith, find_not_owned uid cid rows)

pub any_id_of_owned :
    (uid cid : ℕ) (rows : List CollectionRow)
    → any (owned_with_id uid cid) rows ≡ true
    → any (has_id cid) rows ≡ true
unfolding any
any_id_of_owned uid cid [] h = cc
any_id_of_owned uid cid (r ∷ rows) h = ground (arith, any_id_of_owned uid cid rows)

pub add_color_tx-IsRobust :
    (quota uid cid : ℕ) (hex : Bytes) → IsRobust (add_color_tx quota uid cid hex)
unfolding add_color_tx
add_color_tx-IsRobust quota uid cid hex =
    search
      (
        bind-IsRobust, if-IsRobust, pure-IsRobust, raise-IsRobust, lock_collection-IsRobust,
        count_colors-IsRobust, has_color-IsRobust, add_color-IsRobust,
      )
      depth 8

pub add_color_to-Keeps :
    (quota uid cid : ℕ) (hex : Bytes) (w : World)
    → is_hex hex ≡ true
    → Keeps (add_color_to quota uid cid hex) w (add_color_promise quota uid cid hex w)
unfolding add_color_to in_tx lock_collection count_colors has_color add_color
add_color_to-Keeps quota uid cid hex w h =
    elim (Bool-cases (any (owned_with_id uid cid) w.tables.collections)) [
      | inl owned ↦
          let (r, e, i) = find_owned uid cid w.tables.collections owned in
          ground (arith, any_id_of_owned uid cid w.tables.collections owned)
      | inr foreign ↦ ground (arith, find_not_owned uid cid w.tables.collections foreign)
    ]

-- For a normalized color: adding it to a collection implements the promise, or reports a failure
-- of the database and changes nothing.
pub add_color_to-Implements :
    (quota uid cid : ℕ) (hex : Bytes) (w : World)
    → is_hex hex ≡ true
    → Implements (add_color_to quota uid cid hex) w (add_color_promise quota uid cid hex w)
unfolding add_color_to
add_color_to-Implements quota uid cid hex w h =
    Keeps-Implements _ w _ (in_tx-IsRobust _ (add_color_tx-IsRobust quota uid cid hex))
      (in_tx-IsAtomic λ _. add_color_tx quota uid cid hex)
      (add_color_to-Keeps quota uid cid hex w h)
