-- ===== src/Services/ColorSvc/Interleaving/Serial.antt =====
-- The interleavings of `AddColor` (internal/colorsvc/colorsvc.go) as additions one after the other.
use wavelen.Prelude.{
  ◌==◌, ℕ, Bytes, Bool, true, false, not, List, [], ◌∷◌, ◌++◌, any, all, count, filter, length, leb,
  bytes_eq, if◌then◌else◌, ◌≡◌, refl, ap, ◌∙◌, arith,
}
use wavelen.Prelude.Moves.{all_replaced, all_here}
use wavelen.Services.ColorSvc.Interleaving.{
  Place, before_lock, locked, counted, inserted, ended, holds_lock, Shared, placed, is_stored, Step,
  arrive, lock, count_colors, refuse, insert, commit, fail, delete, delete_all, Runs, start, then_,
}
use wavelen.Services.ColorSvc.Interleaving.Capped.{fits, IsCapped, Runs-IsCapped, nobody_left}

-- What one caller after the other does.
pub data Op : Type 0 where
  addition : Bytes → Op
  removal : Bytes → Op
  clearing : Op

-- An addition of a color that is there, or without room, changes nothing.
unfoldable pub applied : ℕ → Op → List Bytes → List Bytes
applied quota (addition hex) stored =
    if is_stored hex stored
    then stored
    else if leb quota (length stored)
    then stored
    else stored ++ hex ∷ []
applied quota (removal hex) stored = filter (λ h. not (h == hex)) stored
applied quota clearing stored = []

unfoldable pub replay : ℕ → List Op → List Bytes → List Bytes
unfolding applied
replay quota [] stored = stored
replay quota (op ∷ ops) stored = replay quota ops (applied quota op stored)

-- What a run commits, in the order of its commits.
unfoldable pub ops_of : {quota : ℕ} {s t : Shared} → Step quota s t → List Op
ops_of (commit true hex stored pre post) = addition hex ∷ []
ops_of (delete hex stored rs) = removal hex ∷ []
ops_of (delete_all stored rs) = clearing ∷ []
ops_of _ = []

unfoldable pub history : {quota : ℕ} {s : Shared} → Runs quota s → List Op
unfolding ops_of
history start = []
history (then_ s t r q) = history r ++ ops_of q

replay-append :
    (quota : ℕ) (xs ys : List Op) (stored : List Bytes)
    → replay quota (xs ++ ys) stored ≡ replay quota ys (replay quota xs stored)
unfolding replay
replay-append quota [] ys stored = refl
replay-append quota (x ∷ xs) ys stored = replay-append quota xs ys (applied quota x stored)

-- A row that was written is of a color that is not committed.
unfoldable absent : List Bytes → Place → Bool
absent stored (inserted true hex) = not (is_stored hex stored)
absent stored p = true

free_absent :
    (stored : List Bytes) (rs : List Place)
    → count holds_lock rs ≡ 0
    → all (absent stored) rs ≡ true
unfolding count holds_lock absent
free_absent stored [] h = refl
free_absent stored (before_lock hex ∷ rs) h = free_absent stored rs (omega (arith, h))
free_absent stored (locked hex ∷ rs) h = absurd (omega (arith, h))
free_absent stored (counted n hex ∷ rs) h = absurd (omega (arith, h))
free_absent stored (inserted c hex ∷ rs) h = absurd (omega (arith, h))
free_absent stored (ended ∷ rs) h = free_absent stored rs (omega (arith, h))

is_stored-filter :
    (keeps : Bytes → Bool) (hex : Bytes) (stored : List Bytes)
    → is_stored hex stored ≡ false
    → is_stored hex (filter keeps stored) ≡ false
unfolding is_stored any filter
is_stored-filter keeps hex [] h = refl
is_stored-filter keeps hex (x ∷ stored) h = ground (arith, is_stored-filter keeps hex stored)

fewer_absent :
    (keeps : Bytes → Bool) (stored : List Bytes) (rs : List Place)
    → all (absent stored) rs ≡ true
    → all (absent (filter keeps stored)) rs ≡ true
unfolding absent
fewer_absent keeps stored [] h = refl
fewer_absent keeps stored (inserted true hex ∷ rs) h =
    ground (arith, is_stored-filter keeps hex stored, fewer_absent keeps stored rs)
fewer_absent keeps stored (inserted false hex ∷ rs) h = fewer_absent keeps stored rs h
fewer_absent keeps stored (before_lock hex ∷ rs) h = fewer_absent keeps stored rs h
fewer_absent keeps stored (locked hex ∷ rs) h = fewer_absent keeps stored rs h
fewer_absent keeps stored (counted n hex ∷ rs) h = fewer_absent keeps stored rs h
fewer_absent keeps stored (ended ∷ rs) h = fewer_absent keeps stored rs h

none_absent : (rs : List Place) → all (absent []) rs ≡ true
unfolding absent is_stored any
none_absent [] = refl
none_absent (before_lock hex ∷ rs) = none_absent rs
none_absent (locked hex ∷ rs) = none_absent rs
none_absent (counted n hex ∷ rs) = none_absent rs
none_absent (inserted true hex ∷ rs) = none_absent rs
none_absent (inserted false hex ∷ rs) = none_absent rs
none_absent (ended ∷ rs) = none_absent rs

-- Written is what is not there.
new_absent :
    (hex : Bytes) (stored : List Bytes) (b : Bool)
    → is_stored hex stored ≡ b
    → absent stored (inserted (not b) hex) ≡ true
unfolding absent
new_absent hex stored true e = refl
new_absent hex stored false e = ground arith

Step-absent :
    (quota : ℕ) (s t : Shared)
    → Step quota s t
    → IsCapped quota s
    → all (absent s.stored) s.requests ≡ true
    → all (absent t.stored) t.requests ≡ true
unfolding placed absent
Step-absent quota _ _ (arrive hex stored rs) c h = h
Step-absent quota _ _ (lock hex stored pre post nobody) c h =
    all_replaced (absent stored) pre (before_lock hex) (locked hex) post h refl
Step-absent quota _ _ (count_colors hex stored pre post) c h =
    all_replaced (absent stored) pre (locked hex) (counted (length stored) hex) post h refl
Step-absent quota _ _ (refuse n hex stored pre post full) c h =
    all_replaced (absent stored) pre (counted n hex) ended post h refl
Step-absent quota _ _ (insert n hex stored pre post room) c h =
    all_replaced (absent stored) pre (counted n hex) (inserted (not (is_stored hex stored)) hex)
      post h (new_absent hex stored (is_stored hex stored) refl)
Step-absent quota _ _ (commit created hex stored pre post) c h =
    free_absent _ (pre ++ ended ∷ post) (nobody_left created hex pre post c.0)
Step-absent quota _ _ (fail p stored pre post) c h =
    all_replaced (absent stored) pre p ended post h refl
Step-absent quota _ _ (delete hex stored rs) c h = fewer_absent (λ x. not (x == hex)) stored rs h
Step-absent quota _ _ (delete_all stored rs) c h = none_absent rs

Runs-absent : (quota : ℕ) (s : Shared) → Runs quota s → all (absent s.stored) s.requests ≡ true
Runs-absent quota _ start = refl
Runs-absent quota _ (then_ s t r q) =
    Step-absent quota s t q (Runs-IsCapped quota s r) (Runs-absent quota s r)

-- One step writes what its operations write one after the other.
Step-ops_of :
    (quota : ℕ) (s t : Shared) (q : Step quota s t)
    → IsCapped quota s
    → all (absent s.stored) s.requests ≡ true
    → replay quota (ops_of q) s.stored ≡ t.stored
unfolding placed replay applied ops_of fits absent
Step-ops_of quota _ _ (arrive hex stored rs) c h = refl
Step-ops_of quota _ _ (lock hex stored pre post nobody) c h = refl
Step-ops_of quota _ _ (count_colors hex stored pre post) c h = refl
Step-ops_of quota _ _ (refuse n hex stored pre post full) c h = refl
Step-ops_of quota _ _ (insert n hex stored pre post room) c h = refl
Step-ops_of quota _ _ (commit true hex stored pre post) (one, len, fit) h = ground (
  arith,
  all_here (absent stored) pre (inserted true hex) post h,
  all_here (fits quota (length stored)) pre (inserted true hex) post fit,
)
Step-ops_of quota _ _ (commit false hex stored pre post) c h = refl
Step-ops_of quota _ _ (fail p stored pre post) c h = refl
Step-ops_of quota _ _ (delete hex stored rs) c h = refl
Step-ops_of quota _ _ (delete_all stored rs) c h = refl

-- However additions to a collection, failures and deletions interleave, its colors are those that
-- the additions that committed a row and the deletions leave when they are made one after the
-- other, each addition at its commit and as a single action: it changes nothing when the color is
-- there or the collection is at its quota, and appends the color otherwise.
pub Runs-history :
    (quota : ℕ) (s : Shared) (r : Runs quota s) → replay quota (history r) [] ≡ s.stored
unfolding history replay
Runs-history quota _ start = refl
Runs-history quota _ (then_ s t r q) =
    replay-append quota (history r) (ops_of q) []
    ∙ ap (replay quota (ops_of q)) (Runs-history quota s r)
    ∙ Step-ops_of quota s t q (Runs-IsCapped quota s r) (Runs-absent quota s r)
