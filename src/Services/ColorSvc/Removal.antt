-- ===== src/Services/ColorSvc/Removal.antt =====
-- Removing colors through the color service: what is promised, and the methods against it.
use wavelen.Prelude.{
  ℕ, Bytes, not, any, filter, if◌then◌else◌, ok, err, refl, inl, inr, Bool-cases, arith,
  any-find-none, count-pos, count-eq-zero, filter-not_none,
}
use wavelen.Errors.{not_found}
use wavelen.Storage.Schema.{owned_with_id, in_collection, is_color}
use wavelen.Storage.Actions.{World, statement}
use wavelen.Storage.Faults.{bind-IsRobust}
use wavelen.Storage.Faults.Reading.{bind-IsAtomic}
use wavelen.Storage.Promises.{Promise, Implements, Keeps, Keeps-Implements}
use wavelen.Storage.Collections.{resolve_collection}
use wavelen.Storage.Colors.{delete_color, delete_all_colors}
use wavelen.Storage.Methods.{
  resolve_collection-IsRobust, resolve_collection-IsReading, delete_color-IsRobust,
  delete_color-IsAtomic, delete_all_colors-IsRobust, delete_all_colors-IsAtomic,
}
use wavelen.Services.ColorSvc.{delete_color_from, delete_all_colors_from}
use wavelen.Services.ColorSvc.Refinement.{find_owned}

-- Only a color of an own collection.
abbrev pub delete_color_promise : ℕ → ℕ → Bytes → World → Promise (Unit {0})
delete_color_promise uid cid hex w =
    if not (any (owned_with_id uid cid) w.tables.collections)
    then (err not_found, w.tables)
    else if not (any (is_color cid hex) w.tables.colors)
    then (err not_found, w.tables)
    else (
      ok tt,
      record w.tables { colors = filter (λ r. not (is_color cid hex r)) w.tables.colors },
    )

-- The colors of an own collection, be there any or none.
abbrev pub delete_all_colors_promise : ℕ → ℕ → World → Promise (Unit {0})
delete_all_colors_promise uid cid w =
    if not (any (owned_with_id uid cid) w.tables.collections) then (err not_found, w.tables) else (
      ok tt,
      record w.tables { colors = filter (λ r. not (in_collection cid r)) w.tables.colors },
    )

pub delete_color_from-Keeps :
    (uid cid : ℕ) (hex : Bytes) (w : World)
    → Keeps (delete_color_from uid cid hex) w (delete_color_promise uid cid hex w)
unfolding delete_color_from resolve_collection delete_color statement
delete_color_from-Keeps uid cid hex w =
    elim (Bool-cases (any (owned_with_id uid cid) w.tables.collections)) [
      | inr foreign ↦
          ground (arith, any-find-none (owned_with_id uid cid) w.tables.collections foreign)
      | inl owned ↦
          let (r, e, i) = find_owned uid cid w.tables.collections owned in
          elim (Bool-cases (any (is_color cid hex) w.tables.colors)) [
            | inl there ↦
                rw (e, owned, there, i)
                  (ground (arith, count-pos (is_color cid hex) w.tables.colors there))
            | inr absent ↦
                rw (e, owned, absent, i)
                  (ground (
                    arith,
                    count-eq-zero (is_color cid hex) w.tables.colors absent,
                    filter-not_none (is_color cid hex) w.tables.colors absent,
                  ))
          ]
    ]

pub delete_all_colors_from-Keeps :
    (uid cid : ℕ) (w : World)
    → Keeps (delete_all_colors_from uid cid) w (delete_all_colors_promise uid cid w)
unfolding delete_all_colors_from resolve_collection delete_all_colors statement
delete_all_colors_from-Keeps uid cid w =
    elim (Bool-cases (any (owned_with_id uid cid) w.tables.collections)) [
      | inr foreign ↦
          ground (arith, any-find-none (owned_with_id uid cid) w.tables.collections foreign)
      | inl owned ↦
          let (r, e, i) = find_owned uid cid w.tables.collections owned in
          rw (e, owned, i) (refl, refl)
    ]

-- Removing a color implements the promise, or reports a failure of the database and changes
-- nothing.
pub delete_color_from-Implements :
    (uid cid : ℕ) (hex : Bytes) (w : World)
    → Implements (delete_color_from uid cid hex) w (delete_color_promise uid cid hex w)
unfolding delete_color_from
delete_color_from-Implements uid cid hex w =
    Keeps-Implements _ w _
      (bind-IsRobust _ _ (resolve_collection-IsRobust uid cid) λ c. delete_color-IsRobust c hex)
      (bind-IsAtomic _ _ (resolve_collection-IsReading uid cid) λ c. delete_color-IsAtomic c hex)
      (delete_color_from-Keeps uid cid hex w)

-- Removing all colors implements the promise, or reports a failure of the database and changes
-- nothing.
pub delete_all_colors_from-Implements :
    (uid cid : ℕ) (w : World)
    → Implements (delete_all_colors_from uid cid) w (delete_all_colors_promise uid cid w)
unfolding delete_all_colors_from
delete_all_colors_from-Implements uid cid w =
    Keeps-Implements _ w _
      (bind-IsRobust _ _ (resolve_collection-IsRobust uid cid) λ c. delete_all_colors-IsRobust c)
      (bind-IsAtomic _ _ (resolve_collection-IsReading uid cid) λ c. delete_all_colors-IsAtomic c)
      (delete_all_colors_from-Keeps uid cid w)
