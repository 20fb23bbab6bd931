-- ===== src/Tests/Adding.antt =====
-- Two requests that add a color to the same collection, under a quota of one color.
use wavelen.Prelude.{Bytes, codes, true, [], ◌∷◌, any, all, filter, count, bytes_eq, ◌≡◌, refl}
use wavelen.Services.ColorSvc.Interleaving.{
  before_lock, locked, counted, inserted, ended, holds_lock, Shared, placed, is_stored, untouched,
  arrive, lock, count_colors, refuse, insert, commit, Runs, start, then_,
}
use wavelen.Services.ColorSvc.Interleaving.Capped.{IsCapped, Runs-IsCapped}
use wavelen.Services.ColorSvc.Interleaving.Serial.{history, ops_of}
use wavelen.Services.ColorSvc.Interleaving.Calls.{hexes, is_normal, calls, Runs-calls}
use wavelen.Color.Hex.{is_hex, is_hex_digit}
use wavelen.Storage.Actions.{World}
use wavelen.Tests.{world}

abbrev red : Bytes
red = codes "#ff0000"

abbrev blue : Bytes
blue = codes "#0000ff"

abbrev both : Shared
both = record { stored = []; requests = before_lock blue ∷ before_lock red ∷ [] }

abbrev red_added : Shared
red_added = record { stored = red ∷ []; requests = before_lock blue ∷ ended ∷ [] }

abbrev blue_refused : Shared
blue_refused = record { stored = red ∷ []; requests = ended ∷ ended ∷ [] }

unfoldable run_both : Runs 1 both
run_both =
    then_ (record { stored = []; requests = before_lock red ∷ [] }) both
      (then_ untouched (record { stored = []; requests = before_lock red ∷ [] }) start
        (arrive red [] []))
      (arrive blue [] (before_lock red ∷ []))

unfoldable run_red : Runs 1 red_added
unfolding placed holds_lock is_stored count any
run_red =
    let waiting = before_lock blue ∷ [] in
    then_ (placed [] waiting (inserted true red) []) red_added
      (then_ (placed [] waiting (counted 0 red) []) (placed [] waiting (inserted true red) [])
        (then_ (placed [] waiting (locked red) []) (placed [] waiting (counted 0 red) [])
          (then_ both (placed [] waiting (locked red) []) run_both (lock red [] waiting [] refl))
          (count_colors red [] waiting []))
        (insert 0 red [] waiting [] refl))
      (commit true red [] waiting [])

unfoldable run_refused : Runs 1 blue_refused
unfolding placed holds_lock count
run_refused =
    let stored = red ∷ [] in
    let done = ended ∷ [] in
    then_ (placed stored [] (counted 1 blue) done) blue_refused
      (then_ (placed stored [] (locked blue) done) (placed stored [] (counted 1 blue) done)
        (then_ red_added (placed stored [] (locked blue) done) run_red
          (lock blue stored [] done refl))
        (count_colors blue stored [] done))
      (refuse 1 blue stored [] done refl)

Runs-IsCapped_example : IsCapped 1 blue_refused
Runs-IsCapped_example = Runs-IsCapped 1 blue_refused run_refused

abbrev bare : World
bare = record world { tables = record world.tables { colors = [] } }

normal : all is_normal (history run_refused) ≡ true
unfolding history ops_of is_normal is_hex is_hex_digit run_refused run_red run_both
normal = refl

Runs-calls_example : hexes 100 (calls 1 1 100 (history run_refused) bare).tables.colors ≡ red ∷ []
unfolding any filter
Runs-calls_example = Runs-calls 1 1 100 blue_refused run_refused bare normal refl refl
