-- ===== src/Tests/Bagged.antt =====
-- The color service on the bag of a collection's colors, and the work of a login.
use wavelen.Prelude.{Bytes, codes, bytes_beq, ◌^◌, any, all, not, true, [], ◌∷◌, ◌≡◌, refl}
use wavelen.Prelude.Bags.{bag_of, keep}
use wavelen.Color.Hex.{is_hex, is_hex_digit}
use wavelen.Storage.Schema.{owned_with_id}
use wavelen.Storage.Actions.{World}
use wavelen.Services.ColorSvc.{add_color_to, delete_color_from, delete_all_colors_from}
use wavelen.Services.ColorSvc.Bags.{colors_bag, add_to_bag, same_hex, Leaves, service-Leaves}
use wavelen.Services.Interface.{services}
use wavelen.Services.Interface.Lawful.{IsLawful, services-IsLawful}
use wavelen.Services.AuthSvc.{login}
use wavelen.Services.AuthSvc.Timing.{dummy_hash, bcrypt_cost, cost_of, work, timed_login}
use wavelen.Services.AuthSvc.Timing.Constant.{is_costly, timed_login-work}
use wavelen.Tests.{validation, hashing, world, alice}

abbrev black : Bytes
black = codes "#000000"

main-owned : any (owned_with_id 1 100) world.tables.collections ≡ true
unfolding any
main-owned = refl

black-is_hex : is_hex black ≡ true
unfolding is_hex is_hex_digit
black-is_hex = refl

service-Leaves_example :
    Leaves 1 100 world
      (add_color_to 3 1 100 black)
      (add_to_bag 3 (record { hex = black; created_at = 5 }) (colors_bag 100 world.tables))
    × Leaves 1 100 world
        (delete_color_from 1 100 black)
        (keep (λ c. not (same_hex black c)) (colors_bag 100 world.tables))
    × Leaves 1 100 world (delete_all_colors_from 1 100) (bag_of [])
service-Leaves_example = service-Leaves 1 100 world 3 black main-owned black-is_hex

-- Her hash has the cost of the program.
abbrev careful : World
careful = record world {
  tables = record world.tables { users = record alice { password_hash = dummy_hash } ∷ [] };
}

careful-costly : all (is_costly hashing (codes "wrong")) careful.tables.users ≡ true
unfolding cost_of bytes_beq
careful-costly = refl

timed_login-work_example :
    ((timed_login validation hashing 10 (codes "T") (codes "wrong") (codes "alice") careful).0
      ≡ login validation hashing 10 (codes "T") (codes "alice") (codes "wrong") careful)
    × (work
          (timed_login validation hashing 10 (codes "T") (codes "wrong") (codes "alice") careful).1
        ≡ 2 ^ bcrypt_cost)
timed_login-work_example =
    timed_login-work validation hashing 10 (codes "T") (codes "wrong") (codes "alice") careful refl
      careful-costly

services-IsLawful_example : IsLawful (services validation hashing 3 2 10)
services-IsLawful_example = services-IsLawful validation hashing 3 2 10
