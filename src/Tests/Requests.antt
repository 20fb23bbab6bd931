-- ===== src/Tests/Requests.antt =====
-- Runs of the handlers, of the cursors, and of the colors.
use wavelen.Prelude.{
  codes, true, none, List, [], ◌∷◌, length, any, ok, err, ◌≡◌, ◌⊎◌, refl, arith, bytes_beq,
  bytes_eq, if◌then◌else◌, ◌==◌,
}
use wavelen.Errors.{unknown_icon}
use wavelen.Color.Hex.{is_hex, is_hex_digit, new_hex}
use wavelen.Domain.Icon.{slugs, parse_slug, parse_slug_lem}
use wavelen.Domain.Names.{parse_id}
use wavelen.Storage.Schema.{Color}
use wavelen.Storage.Colors.Sorting.{
  sort_by_created_at, order_asc, order_desc, parse_color_sort, parse_sort_order, ListColorsParams,
  Keyset, normalized, keyset,
}
use wavelen.Server.Limit.{moved, running, arrived, idle, Runs, start, then_, arrive, acquire}
use wavelen.Server.Limit.Bound.{IsBounded, Runs-IsBounded}
use wavelen.Palette.{Entry, sort_by_name, parse_sort}
use wavelen.Palette.Orders.{Lists, list_of-parse_sort}
use wavelen.Http.Message.{answer}
use wavelen.Http.Cursor.{encode_cursor, decode_cursor}
use wavelen.Http.Cursor.RoundTrip.{kept, decode_cursor-encode_cursor}
use wavelen.Http.Colors.{handle_add_color, list_colors_params}
use wavelen.Http.Colors.Params.{Continues, list_colors_params-keyset}
use wavelen.Http.Colors.Adding.{add_status, handle_add_color-status}
use wavelen.Services.ColorSvc.Refinement.{add_color_promise}
use wavelen.Tests.{validation, parser, times, config, world, request, teal}

abbrev last : Color
last = record { hex = teal; created_at = 3 }

teal-is_hex : is_hex teal ≡ true
unfolding is_hex is_hex_digit
teal-is_hex = refl

created_at-sort : parse_color_sort sort_by_created_at ≡ ok sort_by_created_at
unfolding parse_color_sort bytes_beq
created_at-sort = refl

asc-order : parse_sort_order order_asc ≡ ok order_asc
unfolding parse_sort_order bytes_beq
asc-order = refl

decode_cursor-encode_cursor_example :
    decode_cursor times parser
      (encode_cursor times sort_by_created_at order_asc last)
      sort_by_created_at
      order_asc
    ≡ ok (kept sort_by_created_at last)
decode_cursor-encode_cursor_example =
    decode_cursor-encode_cursor times parser last teal-is_hex sort_by_created_at order_asc
      sort_by_created_at order_asc created_at-sort asc-order

abbrev asked : ListColorsParams
asked = record { sort = sort_by_created_at; order = order_desc; after = none; limit = 0 }

params-asked : list_colors_params config (request []) ≡ ok asked
unfolding list_colors_params bytes_beq
params-asked = refl

list_colors_params-keyset_example :
    (k : Keyset) × (keyset (λ s. length s) (normalized asked) ≡ ok k) × Continues k
list_colors_params-keyset_example =
    list_colors_params-keyset config (λ s. length s) (request []) asked params-asked

request-id : parse_id validation [] ≡ ok 100
unfolding parse_id
request-id = refl

teal-new : new_hex parser teal ≡ ok teal
unfolding new_hex is_hex is_hex_digit
teal-new = refl

handle_add_color-status_example :
    (((answer (handle_add_color config (request []) (ok teal) 1) world).0.status
        ≡ add_status 3 1 100 teal world)
      × ((answer (handle_add_color config (request []) (ok teal) 1) world).1.tables
          ≡ (add_color_promise 3 1 100 teal world).1))
    ⊎ (((answer (handle_add_color config (request []) (ok teal) 1) world).0.status ≡ 500)
        × ((answer (handle_add_color config (request []) (ok teal) 1) world).1.tables
            ≡ world.tables))
handle_add_color-status_example =
    handle_add_color-status config (request []) teal 1 100 teal world request-id teal-new

parse_slug_lem_example :
    parse_slug (codes "star")
    ≡ (if any (λ x. x == codes "star") slugs then ok (codes "star") else err unknown_icon)
parse_slug_lem_example = parse_slug_lem (codes "star")

abbrev two_entries : List Entry
two_entries =
    record { hex = codes "#ff0000"; name = codes "red"; feel = 10628258 }
    ∷ record { hex = codes "#000000"; name = codes "black"; feel = 0 }
    ∷ []

name-sort : parse_sort sort_by_name ≡ ok sort_by_name
unfolding parse_sort bytes_beq
name-sort = refl

list_of-parse_sort_example : Lists two_entries sort_by_name
list_of-parse_sort_example = list_of-parse_sort two_entries sort_by_name sort_by_name name-sort

one_running : Runs 1 (moved 1 [] running [])
unfolding moved
one_running =
    then_ (moved 0 [] arrived []) (moved 1 [] running [])
      (then_ idle (moved 0 [] arrived []) (start (omega arith)) (arrive 0 []))
      (acquire 0 [] [] refl)

Runs-IsBounded_example : IsBounded 1 (moved 1 [] running [])
Runs-IsBounded_example = Runs-IsBounded 1 (moved 1 [] running []) (omega arith) one_running
