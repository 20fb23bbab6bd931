-- ===== src/Services/ColorSvc/Interleaving/Calls.antt =====
-- The interleavings of internal/colorsvc/colorsvc.go as calls of its methods one after the other.
use wavelen.Prelude.{
  subst, ℕ, Bytes, Bool, true, not, List, [], ◌∷◌, ◌++◌, map, any, all, count, filter,
  filter-not_none, length, leb, ◌==◌, ==_refl, nat_eq, bytes_eq, ◌≡◌, refl, sym, ap, ◌∙◌, inl, inr,
  Bool-cases, arith,
}
use wavelen.Color.Hex.{is_hex}
use wavelen.Storage.Schema.{ColorRow, Tables, owned_with_id, in_collection, is_color}
use wavelen.Storage.Actions.{World}
use wavelen.Storage.Faults.{clear}
use wavelen.Storage.Colors.{color_row}
use wavelen.Services.ColorSvc.{add_color_to, delete_color_from, delete_all_colors_from}
use wavelen.Services.ColorSvc.Refinement.{add_color_promise, add_color_to-Keeps}
use wavelen.Services.ColorSvc.Removal.{
  delete_color_promise, delete_all_colors_promise, delete_color_from-Keeps,
  delete_all_colors_from-Keeps,
}
use wavelen.Services.ColorSvc.Interleaving.{Shared, is_stored, Runs}
use wavelen.Services.ColorSvc.Interleaving.Serial.{
  Op, addition, removal, clearing, applied, replay, history, Runs-history,
}

-- The codes of a collection's colors, as they were added.
abbrev pub hexes : ℕ → List ColorRow → List Bytes
hexes cid rs = map (λ (r : ColorRow). r.hex) (filter (in_collection cid) rs)

-- Handlers pass on normalized colors only.
unfoldable pub is_normal : Op → Bool
is_normal (addition hex) = is_hex hex
is_normal _ = true

module _ (quota uid cid : ℕ) where
  -- The method that a request calls, with a database that answers.
  unfoldable pub call : Op → World → World
  call (addition hex) w = (add_color_to quota uid cid hex (clear w)).1
  call (removal hex) w = (delete_color_from uid cid hex (clear w)).1
  call clearing w = (delete_all_colors_from uid cid (clear w)).1

  unfoldable pub calls : List Op → World → World
  unfolding call
  calls [] w = w
  calls (op ∷ ops) w = calls ops (call op w)

module _ (cid : ℕ) where
  is_stored-hexes :
      (hex : Bytes) (rs : List ColorRow) → is_stored hex (hexes cid rs) ≡ any (is_color cid hex) rs
  unfolding is_stored any filter
  is_stored-hexes hex [] = refl
  is_stored-hexes hex (r ∷ rs) = ground (arith, is_stored-hexes hex rs)

  length-hexes : (rs : List ColorRow) → length (hexes cid rs) ≡ count (in_collection cid) rs
  unfolding count filter
  length-hexes [] = refl
  length-hexes (r ∷ rs) = ground (arith, length-hexes rs)

  hexes-append :
      (rs : List ColorRow) (r : ColorRow)
      → in_collection cid r ≡ true
      → hexes cid (rs ++ r ∷ []) ≡ hexes cid rs ++ r.hex ∷ []
  unfolding filter
  hexes-append [] r h = rw h refl
  hexes-append (x ∷ rs) r h = ground (arith, hexes-append rs r h)

  hexes-removed :
      (hex : Bytes) (rs : List ColorRow)
      → hexes cid (filter (λ r. not (is_color cid hex r)) rs)
        ≡ filter (λ h. not (h == hex)) (hexes cid rs)
  unfolding filter
  hexes-removed hex [] = refl
  hexes-removed hex (r ∷ rs) = ground (arith, hexes-removed hex rs)

  hexes-cleared : (rs : List ColorRow) → hexes cid (filter (λ r. not (in_collection cid r)) rs) ≡ []
  unfolding filter
  hexes-cleared [] = refl
  hexes-cleared (r ∷ rs) = ground (arith, hexes-cleared rs)

  module _ (quota uid : ℕ) (w : World)
      (owned : any (owned_with_id uid cid) w.tables.collections ≡ true) where
    -- The tables after a call: the same collections, and these colors.
    abbrev Left : Tables → List Bytes → Type 0
    Left t xs = (t.collections ≡ w.tables.collections) × (hexes cid t.colors ≡ xs)

    added-Left :
        (hex : Bytes)
        → Left
            (add_color_promise quota uid cid hex w).1
            (applied quota (addition hex) (hexes cid w.tables.colors))
    unfolding applied color_row
    added-Left hex =
        rw (is_stored-hexes hex w.tables.colors, length-hexes w.tables.colors)
          (elim (Bool-cases (any (is_color cid hex) w.tables.colors)) [
            | inl there ↦ rw (owned, there) (refl, refl)
            | inr new ↦ elim (Bool-cases (leb quota (count (in_collection cid) w.tables.colors))) [
              | inl full ↦ rw (owned, new, full) (refl, refl)
              | inr room ↦
                  rw (owned, new, room)
                    (refl, hexes-append w.tables.colors (color_row w cid hex) (==_refl cid))
            ]
          ])

    removed-Left :
        (hex : Bytes)
        → Left
            (delete_color_promise uid cid hex w).1
            (applied quota (removal hex) (hexes cid w.tables.colors))
    unfolding applied
    removed-Left hex = elim (Bool-cases (any (is_color cid hex) w.tables.colors)) [
      | inl there ↦ rw (owned, there) (refl, hexes-removed hex w.tables.colors)
      | inr absent ↦
          rw (owned, absent)
            (
              refl,
              ap (hexes cid) (sym (filter-not_none (is_color cid hex) w.tables.colors absent))
                  ∙ hexes-removed hex w.tables.colors,
            )
    ]

    cleared-Left :
        Left
          (delete_all_colors_promise uid cid w).1
          (applied quota clearing (hexes cid w.tables.colors))
    unfolding applied
    cleared-Left = rw owned (refl, hexes-cleared w.tables.colors)

    call-Left :
        (op : Op)
        → is_normal op ≡ true
        → Left (call quota uid cid op w).tables (applied quota op (hexes cid w.tables.colors))
    unfolding call is_normal
    call-Left (addition hex) good =
        subst (λ t. Left t (applied quota (addition hex) (hexes cid w.tables.colors)))
          (sym (add_color_to-Keeps quota uid cid hex w good).1) (added-Left hex)
    call-Left (removal hex) good =
        subst (λ t. Left t (applied quota (removal hex) (hexes cid w.tables.colors)))
          (sym (delete_color_from-Keeps uid cid hex w).1) (removed-Left hex)
    call-Left clearing good =
        subst (λ t. Left t (applied quota clearing (hexes cid w.tables.colors)))
          (sym (delete_all_colors_from-Keeps uid cid w).1) cleared-Left

module _ (quota uid cid : ℕ) where
  -- Calls one after the other on an own collection.
  calls-replay :
      (ops : List Op) (w : World)
      → all is_normal ops ≡ true
      → any (owned_with_id uid cid) w.tables.collections ≡ true
      → hexes cid (calls quota uid cid ops w).tables.colors
        ≡ replay quota ops (hexes cid w.tables.colors)
  unfolding calls replay
  calls-replay [] w good owned = refl
  calls-replay (op ∷ ops) w good owned =
      let (same, left) = call-Left cid quota uid w owned op (ground arith) in
      calls-replay ops (call quota uid cid op w) (ground arith)
        (ap (any (owned_with_id uid cid)) same ∙ owned)
      ∙ ap (replay quota ops) left

  -- For an own collection without colors, and requests for normalized colors: however AddColor,
  -- DeleteColor, DeleteAllColors and failures interleave, the colors of the collection are those
  -- that calls of these methods one after the other leave, in the order in which the additions
  -- committed a row and the deletions were made, with a database that answers.
  pub Runs-calls :
      (s : Shared) (r : Runs quota s) (w : World)
      → all is_normal (history r) ≡ true
      → any (owned_with_id uid cid) w.tables.collections ≡ true
      → hexes cid w.tables.colors ≡ []
      → hexes cid (calls quota uid cid (history r) w).tables.colors ≡ s.stored
  Runs-calls s r w good owned empty =
      calls-replay (history r) w good owned
      ∙ ap (replay quota (history r)) empty
      ∙ Runs-history quota s r
