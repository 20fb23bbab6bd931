-- ===== src/Http/Colors/Walk/Whole.antt =====
-- What a client sees that follows the cursors of a listing to its end.
use wavelen.Prelude.{
  ℕ, zero, suc, ◌+◌, ◌≤◌, ◌<◌, Bytes, true, false, none, some, List, [], ◌∷◌, ◌++◌, map, filter,
  take, all, count, length, nat_eq, bytes_eq, Result, ok, and_then, on_ok, ◌≡◌, inl, inr, refl, sym,
  ap, ◌∙◌, subst, arith, append_assoc,
}
use wavelen.Errors.{Error}
use wavelen.Color.Hex.{is_hex}
use wavelen.Storage.Schema.{Color, ColorRow, in_collection, is_color}
use wavelen.Storage.Order.{sort}
use wavelen.Storage.Actions.{World}
use wavelen.Storage.Colors.{ColorPage, page_of, list_query, list_colors}
use wavelen.Storage.Colors.Sorting.{ListColorsParams, Keyset, keyset, normalized, row_key}
use wavelen.Storage.Colors.Paging.Following.{keyset_again, list_query-keyset}
use wavelen.Storage.Colors.Paging.Pages.{page_of-Cut}
use wavelen.Http.Cursor.RoundTrip.{kept}
use wavelen.Http.Colors.{ColorConfig, next_cursor}
use wavelen.Http.Colors.Walk.{go_on, turn, walk}
use wavelen.Http.Colors.Walk.Steps.{
  listed, first_rows, no_cursor, same_order, limit-normalized, last-colors, map-append, all-at,
  shorter, is_stored, IsAsked, continuing, asked_again-kept, continuing-Marks,
}

module _ (cfg : ColorConfig) (w : World) (cid : ℕ) where
  open cfg use {validation, times}

  module _ (k : Keyset) (answers : w.faults ≡ [])
      (unique : (hex : Bytes) → count (is_color cid hex) w.tables.colors ≤ 1) where
    -- The whole listing.
    abbrev pub rows : List ColorRow
    rows = sort k.direction (row_key k.order_by) (filter (in_collection cid) w.tables.colors)

    abbrev colored : List ColorRow → List Color
    colored xs = map (λ x. x.color) xs

    -- A listing that continues where the rows `pre` end.
    abbrev Continues : ListColorsParams → Keyset → List ColorRow → Type 0
    Continues p kp rest =
        (keyset w.env.feel (normalized p) ≡ ok kp)
        × (kp.direction ≡ k.direction)
        × (kp.order_by ≡ k.order_by)
        × ((limit : ℕ) → list_query kp cid limit w.tables ≡ colored (take limit rest))

    same_rows :
        (kq : Keyset)
        → kq.direction ≡ k.direction
        → kq.order_by ≡ k.order_by
        → sort kq.direction (row_key kq.order_by) (filter (in_collection cid) w.tables.colors)
          ≡ rows
    same_rows kq d o =
        ap (λ x. sort x (row_key kq.order_by) (filter (in_collection cid) w.tables.colors)) d
        ∙ ap (λ cs. sort k.direction (row_key cs) (filter (in_collection cid) w.tables.colors)) o

    next_rows :
        (p : ListColorsParams) (kp : Keyset) (pre : List ColorRow) (r : ColorRow)
        (post : List ColorRow)
        → IsAsked cfg w cid p
        → is_stored cfg w cid r ≡ true
        → keyset w.env.feel (normalized p) ≡ ok kp
        → kp.direction ≡ k.direction
        → kp.order_by ≡ k.order_by
        → rows ≡ pre ++ r ∷ post
        → (kq : Keyset) × Continues (continuing cfg w cid p r) kq post
    unfolding normalized
    next_rows p kp pre r post asked stored e d o split =
        let m = continuing-Marks cfg w cid p r asked stored in
        let (kq, eq) = keyset_again w.env.feel (normalized p) kp r (kept p.sort r.color) e m in
        let same = same_order w.env.feel (normalized p) (some (kept p.sort r.color)) kp kq e eq in
        (
          kq,
          (
            eq,
            same.0 ∙ d,
            same.1 ∙ o,
            λ limit.
                list_query-keyset w.env.feel (normalized (continuing cfg w cid p r)) kq
                  (kept p.sort r.color) cid limit w.tables pre r post eq m (unique r.hex)
                  (same_rows kq (same.0 ∙ d) (same.1 ∙ o) ∙ split),
          ),
        )

    -- A page as `ListColors` answers it.
    answered :
        (p : ListColorsParams) (kp : Keyset) (rest : List ColorRow) (page : ColorPage)
        → Continues p kp rest
        → page_of (normalized p).limit (colored (take ((normalized p).limit + 1) rest)) ≡ page
        → (list_colors cid p w).0 ≡ ok page
    answered p kp rest page (e, d, o, query) cut =
        listed cid p w kp answers e
        ∙ ap (λ cs. ok (page_of (normalized p).limit cs)) (query ((normalized p).limit + 1))
        ∙ ap ok cut

    last_turn :
        (next : ListColorsParams → Result Error (List Color)) (p : ListColorsParams)
        (cs : List Color)
        → turn cfg next p (record { colors = cs; has_more = false }) ≡ ok cs
    unfolding turn go_on next_cursor
    last_turn next p cs = refl

    more_turn :
        (next : ListColorsParams → Result Error (List Color)) (p : ListColorsParams)
        (init : List ColorRow) (r : ColorRow) (rest : List Color)
        → IsAsked cfg w cid p
        → is_hex r.hex ≡ true
        → next (continuing cfg w cid p r) ≡ ok rest
        → turn cfg next p (record { colors = colored (init ++ r ∷ []); has_more = true })
          ≡ ok (colored (init ++ r ∷ []) ++ rest)
    unfolding turn go_on next_cursor
    more_turn next p init r rest asked good e =
        ap (λ l. go_on cfg next p (colored (init ++ r ∷ [])) (next_cursor cfg p true l))
          (last-colors init r)
        ∙ ap (λ q. and_then q λ q. on_ok (λ rest. colored (init ++ r ∷ []) ++ rest) (next q))
            (asked_again-kept cfg w cid p r asked good)
        ∙ ap (on_ok (λ rest. colored (init ++ r ∷ []) ++ rest)) e

    walk_rest :
        (n : ℕ) (p : ListColorsParams) (kp : Keyset) (pre rest : List ColorRow)
        → IsAsked cfg w cid p
        → Continues p kp rest
        → rows ≡ pre ++ rest
        → all (is_stored cfg w cid) rows ≡ true
        → length rest < n
        → walk cfg w cid n p ≡ ok (colored rest)
    unfolding walk
    walk_rest zero p kp pre rest asked c split stored fuel = absurd (omega (arith, fuel))
    walk_rest (suc n) p kp pre rest asked c split stored fuel =
        elim (page_of-Cut (normalized p).limit rest (limit-normalized p)) [
          | inl last ↦
              ap (λ x. and_then x (turn cfg (walk cfg w cid n) p)) (answered p kp rest _ c last)
              ∙ last_turn (walk cfg w cid n) p (colored rest)
          | inr (init, r, post, e, full) ↦
              let split' =
                split ∙ ap (λ xs. pre ++ xs) e ∙ sym (append_assoc pre init (r ∷ post)) in
              let here =
                all-at (is_stored cfg w cid) (pre ++ init) r post
                  (subst (λ xs. all (is_stored cfg w cid) xs ≡ true) split' stored) in
              let (kq, cq) = next_rows p kp (pre ++ init) r post asked here c.0 c.1 c.2 split' in
              ap (λ x. and_then x (turn cfg (walk cfg w cid n) p)) (answered p kp rest _ c full)
              ∙ more_turn (walk cfg w cid n) p init r (colored post) asked (ground (arith, here)) (
                  walk_rest n (continuing cfg w cid p r) kq ((pre ++ init) ++ r ∷ []) post asked cq
                    (split' ∙ sym (append_assoc (pre ++ init) (r ∷ []) post)) stored
                    (shorter init r post n (subst (λ xs. length xs < suc n) e fuel)))
              ∙ ap ok (
                  sym (map-append (init ++ r ∷ []) post)
                  ∙ ap colored (append_assoc init (r ∷ []) post ∙ sym e))
        ]

    -- With a database that answers, where the collection's rows are normalized codes with their sort
    -- keys and no color is there twice: a client that asks with a sort and an order that requests
    -- can give, with any limit, and then follows the cursors, has seen the whole ordered listing,
    -- each color once, when it may send more requests than there are colors.
    pub walk-whole :
        (p : ListColorsParams) (n : ℕ)
        → IsAsked cfg w cid p
        → p.after ≡ none
        → keyset w.env.feel (normalized p) ≡ ok k
        → all (is_stored cfg w cid) rows ≡ true
        → length rows < n
        → walk cfg w cid n p ≡ ok (map (λ x. x.color) rows)
    unfolding list_query normalized
    walk-whole p n asked start e stored fuel =
        walk_rest n p k [] rows asked
          (
            e,
            refl,
            refl,
            λ limit.
                ap (λ xs. colored (take limit (sort k.direction (row_key k.order_by) xs)))
                  (first_rows k (filter (in_collection cid) w.tables.colors)
                    (no_cursor w.env.feel (normalized p) k start e)),
          )
          refl stored fuel
