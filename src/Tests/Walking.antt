-- ===== src/Tests/Walking.antt =====
-- A client follows the cursors through two colors, one at a time.
use wavelen.Prelude.{
  on_ok, ◌≤◌, ◌<◌, Bytes, true, false, none, [], ◌∷◌, map, filter, all, count, length, ok, ◌==◌,
  bytes_eq, bytes_beq, ==_iff, Bool-cases, inl, inr, ◌≡◌, refl, sym, subst, arith,
}
use wavelen.Color.Hex.{is_hex, is_hex_digit}
use wavelen.Storage.Schema.{is_color}
use wavelen.Storage.Order.{ascending, sort, insert, before, lex}
use wavelen.Storage.Colors.Sorting.{
  hex, ListColorsParams, Keyset, keyset, normalized, row_key, sort_by_hex, order_asc,
  parse_color_sort, parse_sort_order,
}
use wavelen.Http.Colors.Walk.{walk}
use wavelen.Http.Colors.Walk.Steps.{is_stored, IsAsked}
use wavelen.Http.Colors.Walk.Whole.{rows, walk-whole}
use wavelen.Prelude.Bags.{bag_of}
use wavelen.Services.ColorSvc.Bags.{colors_bag}
use wavelen.Http.Colors.Walk.Shown.{walk-colors_bag}
use wavelen.Tests.{config, world, teal, rose}

abbrev one_by_one : ListColorsParams
one_by_one = record { sort = sort_by_hex; order = order_asc; after = none; limit = 1 }

abbrev by_code : Keyset
by_code = record {
  order_by = hex ∷ [];
  direction = ascending;
  predicate = hex ∷ [];
  comparison = ascending;
  cursor = none;
}

keyset-one_by_one : keyset world.env.feel (normalized one_by_one) ≡ ok by_code
unfolding keyset normalized bytes_beq
keyset-one_by_one = refl

one_by_one-IsAsked : IsAsked config world 100 one_by_one
unfolding parse_color_sort parse_sort_order bytes_beq
one_by_one-IsAsked = (sort_by_hex, order_asc, refl, refl)

not_both : (h : Bytes) → (teal == h) ≡ true → (rose == h) ≡ true → ⊥
unfolding bytes_beq
not_both h e f = true-false (subst (λ x. (teal == x) ≡ true) (sym ((==_iff rose h).0 f)) e)
  where
    true-false : false ≡ true → ⊥
    true-false g = cc

each_once : (h : Bytes) → count (is_color 100 h) world.tables.colors ≤ 1
unfolding count
each_once h = elim (Bool-cases (teal == h)) [
  | inl e ↦ elim (Bool-cases (rose == h)) [ inl f ↦ absurd (not_both h e f) | inr f ↦ ground arith ]
  | inr e ↦ ground arith
]

rows-stored : all (is_stored config world 100) (rows config world 100 by_code refl each_once) ≡ true
unfolding is_hex is_hex_digit sort insert before lex row_key filter
rows-stored = refl

rows-fuel : length (rows config world 100 by_code refl each_once) < 3
unfolding sort insert before lex row_key filter
rows-fuel = omega arith

walk-whole_example :
    walk config world 100 3 one_by_one
    ≡ ok (map (λ x. x.color) (rows config world 100 by_code refl each_once))
walk-whole_example =
    walk-whole config world 100 by_code refl each_once one_by_one 3 one_by_one-IsAsked refl
      keyset-one_by_one rows-stored rows-fuel

walk-colors_bag_example :
    on_ok bag_of (walk config world 100 3 one_by_one) ≡ ok (colors_bag 100 world.tables)
walk-colors_bag_example =
    walk-colors_bag config world 100 by_code refl each_once one_by_one 3 one_by_one-IsAsked refl
      keyset-one_by_one rows-stored rows-fuel
