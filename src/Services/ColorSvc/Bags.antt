-- ===== src/Services/ColorSvc/Bags.antt =====
-- What a collection is to its user: a bag of colors, whatever the order of the rows. The operations
-- of internal/colorsvc/colorsvc.go on it.
use wavelen.Prelude.{
  ℕ, Bytes, Bool, true, not, List, [], ◌∷◌, ◌++◌, map, filter, any, count, filter-not_none, leb,
  ltb, ◌==◌, ==_refl, nat_eq, bytes_eq, if◌then◌else◌, ◌≡◌, refl, sym, ap, ◌∙◌, ◌⊎◌, inl, inr,
  Bool-cases, arith,
}
use wavelen.Prelude.Bags.{
  Bag, bag_of, occurrences, put, keep, count-map, count-filter_of, bag_of-append,
}
use wavelen.Color.Hex.{is_hex}
use wavelen.Storage.Schema.{Color, ColorRow, Tables, owned_with_id, in_collection, is_color}
use wavelen.Storage.Actions.{World, M}
use wavelen.Storage.Faults.{is_fault}
use wavelen.Storage.Promises.{Promise, Implements}
use wavelen.Services.ColorSvc.{add_color_to, delete_color_from, delete_all_colors_from}
use wavelen.Storage.Colors.{color_row}
use wavelen.Services.ColorSvc.Refinement.{add_color_promise, add_color_to-Implements}
use wavelen.Services.ColorSvc.Removal.{
  delete_color_promise, delete_all_colors_promise, delete_color_from-Implements,
  delete_all_colors_from-Implements,
}

abbrev pub colors_of : ℕ → Tables → List Color
colors_of cid t = map (λ r. r.color) (filter (in_collection cid) t.colors)

abbrev pub colors_bag : ℕ → Tables → Bag Color
colors_bag cid t = bag_of (colors_of cid t)

abbrev pub same_hex : Bytes → Color → Bool
same_hex hex c = c.hex == hex

-- A color is added when it is not there and there is room.
unfoldable pub add_to_bag : ℕ → Color → Bag Color → Bag Color
add_to_bag quota c b =
    if ltb 0 (occurrences (same_hex c.hex) b)
    then b
    else if leb quota (occurrences (λ x. true) b)
    then b
    else put c b

module _ {A : Type 0} where
  any_of_ltb : (p : A → Bool) (xs : List A) → ltb 0 (count p xs) ≡ any p xs
  unfolding count any
  any_of_ltb p [] = ground arith
  any_of_ltb p (x ∷ xs) = ground (arith, any_of_ltb p xs)

  count-filtered : (q : A → Bool) (xs : List A) → count (λ x. true) (filter q xs) ≡ count q xs
  unfolding count filter
  count-filtered q [] = refl
  count-filtered q (x ∷ xs) = ground (arith, count-filtered q xs)

  map-append_one :
      {B : Type 0} (f : A → B) (xs : List A) (x : A) → map f (xs ++ x ∷ []) ≡ map f xs ++ f x ∷ []
  map-append_one f [] x = refl
  map-append_one f (y ∷ xs) x = ap (λ ys. f y ∷ ys) (map-append_one f xs x)

  filter-append_one :
      (q : A → Bool) (xs : List A) (x : A)
      → q x ≡ true
      → filter q (xs ++ x ∷ []) ≡ filter q xs ++ x ∷ []
  unfolding filter
  filter-append_one q [] x h = rw h refl
  filter-append_one q (y ∷ xs) x h = ground (arith, filter-append_one q xs x h)

-- Whether the color is there, and how many there are.
there_lem :
    (cid : ℕ) (hex : Bytes) (t : Tables)
    → ltb 0 (occurrences (same_hex hex) (colors_bag cid t)) ≡ any (is_color cid hex) t.colors
unfolding occurrences bag_of
there_lem cid hex t =
    ap (ltb 0) (
      count-map (same_hex hex) (λ r. r.color) (filter (in_collection cid) t.colors)
      ∙ count-filter_of (λ r. same_hex hex r.color) (in_collection cid) t.colors)
    ∙ any_of_ltb (is_color cid hex) t.colors

size_lem :
    (cid : ℕ) (t : Tables)
    → occurrences (λ x. true) (colors_bag cid t) ≡ count (in_collection cid) t.colors
unfolding occurrences bag_of
size_lem cid t =
    count-map (λ x. true) (λ r. r.color) (filter (in_collection cid) t.colors)
    ∙ count-filtered (in_collection cid) t.colors

added_lem :
    (cid : ℕ) (hex : Bytes) (w : World)
    → colors_bag cid (record w.tables { colors = w.tables.colors ++ color_row w cid hex ∷ [] })
      ≡ put (record { hex = hex; created_at = w.now }) (colors_bag cid w.tables)
unfolding color_row
added_lem cid hex w =
    ap (λ rs. bag_of (map (λ (r : ColorRow). r.color) rs))
      (filter-append_one (in_collection cid) w.tables.colors (color_row w cid hex) (==_refl cid))
    ∙ ap bag_of (
        map-append_one (λ (r : ColorRow). r.color) (filter (in_collection cid) w.tables.colors)
          (color_row w cid hex))
    ∙ bag_of-append (colors_of cid w.tables) (record { hex = hex; created_at = w.now })

add_promise-bag :
    (quota uid cid : ℕ) (hex : Bytes) (w : World)
    → any (owned_with_id uid cid) w.tables.collections ≡ true
    → colors_bag cid (add_color_promise quota uid cid hex w).1
      ≡ add_to_bag quota (record { hex = hex; created_at = w.now }) (colors_bag cid w.tables)
unfolding add_to_bag
add_promise-bag quota uid cid hex w owned =
    rw (there_lem cid hex w.tables, size_lem cid w.tables)
      (elim (Bool-cases (any (is_color cid hex) w.tables.colors)) [
        | inl there ↦ rw (owned, there) refl
        | inr new ↦ elim (Bool-cases (leb quota (count (in_collection cid) w.tables.colors))) [
          | inl full ↦ rw (owned, new, full) refl
          | inr room ↦ rw (owned, new, room) (added_lem cid hex w)
        ]
      ])

deleted_lem :
    (cid : ℕ) (hex : Bytes) (rs : List ColorRow)
    → map (λ r. r.color) (filter (in_collection cid) (filter (λ r. not (is_color cid hex r)) rs))
      ≡ filter (λ c. not (same_hex hex c)) (map (λ r. r.color) (filter (in_collection cid) rs))
unfolding filter
deleted_lem cid hex [] = refl
deleted_lem cid hex (r ∷ rs) = ground (arith, deleted_lem cid hex rs)

emptied_lem :
    (cid : ℕ) (rs : List ColorRow)
    → filter (in_collection cid) (filter (λ r. not (in_collection cid r)) rs) ≡ []
unfolding filter
emptied_lem cid [] = refl
emptied_lem cid (r ∷ rs) = ground (arith, emptied_lem cid rs)

module _ (uid cid : ℕ) (w : World) where
  delete_promise-bag :
      (hex : Bytes)
      → any (owned_with_id uid cid) w.tables.collections ≡ true
      → colors_bag cid (delete_color_promise uid cid hex w).1
        ≡ keep (λ c. not (same_hex hex c)) (colors_bag cid w.tables)
  unfolding keep bag_of
  delete_promise-bag hex owned = elim (Bool-cases (any (is_color cid hex) w.tables.colors)) [
    | inl there ↦ rw (owned, there) (ap bag_of (deleted_lem cid hex w.tables.colors))
    | inr absent ↦
        rw (owned, absent)
          (ap bag_of (
            ap (λ rs. map (λ (r : ColorRow). r.color) (filter (in_collection cid) rs))
              (sym (filter-not_none (is_color cid hex) w.tables.colors absent))
            ∙ deleted_lem cid hex w.tables.colors))
  ]

  delete_all_promise-bag :
      any (owned_with_id uid cid) w.tables.collections ≡ true
      → colors_bag cid (delete_all_colors_promise uid cid w).1 ≡ bag_of []
  delete_all_promise-bag owned =
      rw owned
        (ap (λ rs. bag_of (map (λ (r : ColorRow). r.color) rs)) (emptied_lem cid w.tables.colors))

  -- The bag that a method leaves, unless it reports a failure and leaves the tables.
  abbrev pub Leaves : {A : Type 0} → M A → Bag Color → Type 0
  Leaves m b =
      (colors_bag cid (m w).1.tables ≡ b)
      ⊎ ((is_fault (m w).0 ≡ true) × ((m w).1.tables ≡ w.tables))

  Implements-Leaves :
      {A : Type 0} (m : M A) (p : Promise A) (b : Bag Color)
      → Implements m w p
      → colors_bag cid p.1 ≡ b
      → Leaves m b
  Implements-Leaves m p b (inl (r, t)) e = inl (ap (colors_bag cid) t ∙ e)
  Implements-Leaves m p b (inr f) e = inr f

  -- In an own collection and for a normalized color, whatever the database does: on the bag of the
  -- collection's colors AddColor is adding one that is not there while there is room, DeleteColor is
  -- removing the color, DeleteAllColors is emptying; or each reports a failure and leaves the
  -- tables.
  pub service-Leaves :
      (quota : ℕ) (hex : Bytes)
      → any (owned_with_id uid cid) w.tables.collections ≡ true
      → is_hex hex ≡ true
      → Leaves
          (add_color_to quota uid cid hex)
          (add_to_bag quota (record { hex = hex; created_at = w.now }) (colors_bag cid w.tables))
        × Leaves
            (delete_color_from uid cid hex)
            (keep (λ c. not (same_hex hex c)) (colors_bag cid w.tables))
        × Leaves (delete_all_colors_from uid cid) (bag_of [])
  service-Leaves quota hex owned good = (
    Implements-Leaves (add_color_to quota uid cid hex) _ _
        (add_color_to-Implements quota uid cid hex w good)
        (add_promise-bag quota uid cid hex w owned),
    Implements-Leaves (delete_color_from uid cid hex) _ _
        (delete_color_from-Implements uid cid hex w) (delete_promise-bag hex owned),
    Implements-Leaves (delete_all_colors_from uid cid) _ _
        (delete_all_colors_from-Implements uid cid w) (delete_all_promise-bag owned),
  )
