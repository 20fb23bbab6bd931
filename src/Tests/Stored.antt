-- ===== src/Tests/Stored.antt =====
-- Runs of the services and of their statements on the small world.
use wavelen.Prelude.{
  some, sym, Bytes, ◌≤◌, codes, true, false, List, [], ◌∷◌, map, take, count, length, ok, err, ◌≡◌,
  ap, refl, arith, filter, bytes_beq, ◌++◌, none,
}
use wavelen.Errors.{Error}
use wavelen.Color.Hex.{is_hex, is_hex_digit}
use wavelen.Storage.Schema.{in_collection, is_color}
use wavelen.Storage.Actions.{World, M, Querier, pool, in_tx, statement}
use wavelen.Storage.Order.{ascending, before, insert, sort, lex}
use wavelen.Storage.Faults.{nesting, in_tx-nested}
use wavelen.Storage.Promises.{Implements}
use wavelen.Storage.Colors.{delete_all_colors, ColorPage, list_query, list_colors}
use wavelen.Storage.Colors.Sorting.{
  Column, hex, row_key, ListColorsParams, normalized, keyset, Keyset, sort_by_hex,
  sort_by_created_at, order_asc,
}
use wavelen.Storage.Colors.Paging.Following.{Marks, list_query-keyset}
use wavelen.Services.ColorSvc.{add_color_to}
use wavelen.Services.ColorSvc.Refinement.{add_color_promise, add_color_to-Implements}
use wavelen.Services.CollectionSvc.{create_collection_for, delete_collection_of}
use wavelen.Services.CollectionSvc.Refinement.{
  create_promise, delete_promise, create_collection_for-Implements, delete_collection_of-Implements,
}
use wavelen.Services.UserSvc.{create_account, default_params}
use wavelen.Services.UserSvc.Refinement.{create_account_promise, create_account-Implements}
use wavelen.Services.Consistency.{IsConsistent}
use wavelen.Services.Consistency.Reachable.{initial, next, sign_up, create, Reachable-IsConsistent}
use wavelen.Tests.{validation, hashing, empty_world, world, alice, teal, rose, color_at}

abbrev signed_up : World
signed_up = (create_account alice empty_world).1

Reachable-IsConsistent_example :
    IsConsistent (create_collection_for 5 1 default_params signed_up).1.tables
Reachable-IsConsistent_example =
    Reachable-IsConsistent validation hashing (create_collection_for 5 1 default_params signed_up).1
      (next signed_up (create_collection_for 5 1 default_params signed_up).1
        (next empty_world signed_up (initial empty_world refl) (sign_up empty_world alice))
        (create signed_up 5 1 default_params))

abbrev navy : Bytes
navy = codes "#000080"

navy-is_hex : is_hex navy ≡ true
unfolding is_hex is_hex_digit
navy-is_hex = refl

add_color_to-Implements_example :
    Implements (add_color_to 3 1 100 navy) world (add_color_promise 3 1 100 navy world)
add_color_to-Implements_example = add_color_to-Implements 3 1 100 navy world navy-is_hex

create_collection_for-Implements_example :
    Implements
      (create_collection_for 5 1 default_params)
      world
      (create_promise 5 1 default_params world)
create_collection_for-Implements_example = create_collection_for-Implements 5 1 default_params world

delete_collection_of-Implements_example :
    Implements (delete_collection_of 1 101) world (delete_promise 1 101 world)
delete_collection_of-Implements_example = delete_collection_of-Implements 1 101 world

create_account-Implements_example :
    Implements (create_account alice) empty_world (create_account_promise alice empty_world)
create_account-Implements_example = create_account-Implements alice empty_world

-- Removes the colors.
abbrev emptying : Querier → M (Unit {0})
emptying q = delete_all_colors 100

in_tx-nested_example :
    ((e : Error) × ((in_tx pool (nesting emptying emptying) world).0 ≡ err e))
    × ((in_tx pool (nesting emptying emptying) world).1.tables ≡ world.tables)
in_tx-nested_example = in_tx-nested emptying emptying world

abbrev by_hex : List Column
by_hex = hex ∷ []

world-sorted :
    sort ascending (row_key by_hex) (filter (in_collection 100) world.tables.colors)
    ≡ [] ++ color_at 3 teal ∷ color_at 4 rose ∷ []
unfolding sort filter insert before lex row_key
world-sorted = refl

apart : true ≡ false → ⊥
apart e = cc

abbrev after_teal : ListColorsParams
after_teal = record {
  sort = sort_by_hex;
  order = order_asc;
  after = some (record { created_at = 0; hex = teal });
  limit = 1;
}

abbrev after_teal_keyset : Keyset
after_teal_keyset = record {
  order_by = by_hex;
  direction = ascending;
  predicate = by_hex;
  comparison = ascending;
  cursor = some teal;
}

keyset-after_teal : keyset (λ s. length s) after_teal ≡ ok after_teal_keyset
unfolding keyset bytes_beq
keyset-after_teal = refl

teal-Marks :
    Marks (λ s. length s) after_teal (color_at 3 teal) (record { created_at = 0; hex = teal })
unfolding bytes_beq
teal-Marks = (
  refl,
  refl,
  λ e. absurd (apart (sym (ap (λ (k : Bytes). bytes_beq k sort_by_created_at) e))),
  refl,
)

teal_once : count (is_color 100 teal) world.tables.colors ≤ 1
unfolding count bytes_beq
teal_once = omega arith

list_query-keyset_example :
    list_query after_teal_keyset 100 1 world.tables
    ≡ map (λ x. x.color) (take 1 (color_at 4 rose ∷ []))
list_query-keyset_example =
    list_query-keyset (λ s. length s) after_teal after_teal_keyset
      (record { created_at = 0; hex = teal }) 100 1 world.tables [] (color_at 3 teal)
      (color_at 4 rose ∷ []) keyset-after_teal teal-Marks teal_once world-sorted

abbrev one_a_page : ListColorsParams
one_a_page = record { sort = []; order = []; after = none; limit = 1 }

abbrev first_page : ColorPage
first_page = record { colors = record { hex = rose; created_at = 4 } ∷ []; has_more = true }

world-first_page : (list_colors 100 one_a_page world).0 ≡ ok first_page
unfolding list_colors statement keyset sort filter insert before lex row_key bytes_beq normalized
world-first_page = refl
