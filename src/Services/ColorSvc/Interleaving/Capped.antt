-- ===== src/Services/ColorSvc/Interleaving/Capped.antt =====
-- The quota under the interleavings of `AddColor` (internal/colorsvc/colorsvc.go).
use wavelen.Prelude.{
  ◌==◌, bytes_eq, ℕ, ◌≤◌, Bytes, Bool, true, false, not, List, [], ◌∷◌, ◌++◌, all, count, filter,
  length, length-append, leb, ltb, if◌then◌else◌, ◌≡◌, refl, arith,
}
use wavelen.Prelude.Moves.{all_replaced, all_here, count_replaced, one_replaced, length-filter-le}
use wavelen.Services.ColorSvc.Interleaving.{
  Place, before_lock, locked, counted, inserted, ended, holds_lock, Shared, placed, is_stored, Step,
  arrive, lock, count_colors, refuse, insert, commit, fail, delete, delete_all, Runs, start, then_,
}

-- With m colors stored: a count is not below m, and an insert has room.
unfoldable pub fits : ℕ → ℕ → Place → Bool
fits quota m (before_lock hex) = true
fits quota m (locked hex) = true
fits quota m (counted n hex) = leb m n
fits quota m (inserted created hex) = ltb m quota
fits quota m ended = true

-- One holder at most, no more colors than the quota, and room for what is under way.
abbrev pub IsCapped : ℕ → Shared → Type 0
IsCapped quota s =
    (count holds_lock s.requests ≤ 1)
    × (length s.stored ≤ quota)
    × (all (fits quota (length s.stored)) s.requests ≡ true)

free_place : (quota m : ℕ) (p : Place) → holds_lock p ≡ false → fits quota m p ≡ true
unfolding holds_lock fits
free_place quota m (before_lock hex) e = refl
free_place quota m (locked hex) e = refl
free_place quota m (counted n hex) e = absurd (ground arith)
free_place quota m (inserted created hex) e = absurd (ground arith)
free_place quota m ended e = refl

-- Who holds no lock has nothing under way.
free_fits : (quota m : ℕ) (rs : List Place) → count holds_lock rs ≡ 0 → all (fits quota m) rs ≡ true
unfolding count
free_fits quota m [] h = refl
free_fits quota m (p ∷ rs) h = ground (arith, free_place quota m p, free_fits quota m rs)

roomier : (quota m m' : ℕ) (p : Place) → m' ≤ m → fits quota m p ≡ true → fits quota m' p ≡ true
unfolding fits
roomier quota m m' (before_lock hex) le e = refl
roomier quota m m' (locked hex) le e = refl
roomier quota m m' (counted n hex) le e = ground arith
roomier quota m m' (inserted created hex) le e = ground arith
roomier quota m m' ended le e = refl

-- Fewer colors leave the room that there was.
fewer_fit :
    (quota m m' : ℕ) (rs : List Place)
    → m' ≤ m
    → all (fits quota m) rs ≡ true
    → all (fits quota m') rs ≡ true
fewer_fit quota m m' [] le h = refl
fewer_fit quota m m' (p ∷ rs) le h =
    ground (arith, roomier quota m m' p, fewer_fit quota m m' rs le)

-- A request that moves without writing.
moved-IsCapped :
    (quota : ℕ) (stored : List Bytes) (pre : List Place) (p q : Place) (post : List Place)
    → count holds_lock (pre ++ q ∷ post) ≤ 1
    → fits quota (length stored) q ≡ true
    → IsCapped quota (placed stored pre p post)
    → IsCapped quota (placed stored pre q post)
unfolding placed
moved-IsCapped quota stored pre p q post one room (h, len, fit) =
    (one, len, all_replaced (fits quota (length stored)) pre p q post fit room)

-- After the only holder, nobody.
pub nobody_left :
    (created : Bool) (hex : Bytes) (pre post : List Place)
    → count holds_lock (pre ++ inserted created hex ∷ post) ≤ 1
    → count holds_lock (pre ++ ended ∷ post) ≡ 0
unfolding count holds_lock
nobody_left created hex pre post one =
    omega (arith, one, count_replaced holds_lock pre (inserted created hex) ended post)

room_left :
    (quota : ℕ) (created : Bool) (hex : Bytes) (stored : List Bytes) (pre post : List Place)
    → all (fits quota (length stored)) (pre ++ inserted created hex ∷ post) ≡ true
    → length (if created then stored ++ hex ∷ [] else stored) ≤ quota
unfolding fits
room_left quota false hex stored pre post fit =
    ground (arith, all_here (fits quota (length stored)) pre (inserted false hex) post fit)
room_left quota true hex stored pre post fit = ground (
  arith,
  length-append stored (hex ∷ []),
  all_here (fits quota (length stored)) pre (inserted true hex) post fit,
)

-- After the COMMIT of the only holder.
written-IsCapped :
    (quota : ℕ) (created : Bool) (hex : Bytes) (stored : List Bytes) (pre post : List Place)
    → IsCapped quota (placed stored pre (inserted created hex) post)
    → IsCapped quota (placed (if created then stored ++ hex ∷ [] else stored) pre ended post)
unfolding placed
written-IsCapped quota created hex stored pre post (one, len, fit) =
    let nobody = nobody_left created hex pre post one in
    (
      omega (arith, nobody),
      room_left quota created hex stored pre post fit,
      free_fits quota (length (if created then stored ++ hex ∷ [] else stored))
          (pre ++ ended ∷ post) nobody,
    )

Step-IsCapped : (quota : ℕ) (s t : Shared) → Step quota s t → IsCapped quota s → IsCapped quota t
unfolding placed count holds_lock fits
Step-IsCapped quota _ _ (arrive hex stored rs) (one, len, fit) = (omega (arith, one), len, fit)
Step-IsCapped quota _ _ (lock hex stored pre post nobody) c =
    moved-IsCapped quota stored pre (before_lock hex) (locked hex) post
      (omega (arith, nobody, count_replaced holds_lock pre (before_lock hex) (locked hex) post))
      refl c
Step-IsCapped quota _ _ (count_colors hex stored pre post) (one, len, fit) =
    moved-IsCapped quota stored pre (locked hex) (counted (length stored) hex) post
      (one_replaced holds_lock pre (locked hex) (counted (length stored) hex) post (omega arith)
        one)
      (ground arith) (one, len, fit)
Step-IsCapped quota _ _ (refuse n hex stored pre post full) (one, len, fit) =
    moved-IsCapped quota stored pre (counted n hex) ended post
      (one_replaced holds_lock pre (counted n hex) ended post (omega arith) one) refl
      (one, len, fit)
Step-IsCapped quota _ _ (insert n hex stored pre post room) (one, len, fit) =
    let written = inserted (not (is_stored hex stored)) hex in
    moved-IsCapped quota stored pre (counted n hex) written post
      (one_replaced holds_lock pre (counted n hex) written post (omega arith) one)
      (ground (arith, room, all_here (fits quota (length stored)) pre (counted n hex) post fit))
      (one, len, fit)
Step-IsCapped quota _ _ (commit created hex stored pre post) c =
    written-IsCapped quota created hex stored pre post c
Step-IsCapped quota _ _ (fail p stored pre post) (one, len, fit) =
    moved-IsCapped quota stored pre p ended post
      (one_replaced holds_lock pre p ended post (omega arith) one) refl (one, len, fit)
Step-IsCapped quota _ _ (delete hex stored rs) (h, len, fit) =
    let keeps = λ (x : Bytes). not (x == hex) in
    (
      h,
      omega (arith, len, length-filter-le keeps stored),
      fewer_fit quota (length stored) (length (filter keeps stored)) rs
          (length-filter-le keeps stored) fit,
    )
Step-IsCapped quota _ _ (delete_all stored rs) (h, len, fit) =
    (h, omega arith, fewer_fit quota (length stored) 0 rs (omega arith) fit)

-- However additions to a collection, failures and deletions interleave, it never has more colors
-- than the quota, and one request at most is past its lock and before its end.
pub Runs-IsCapped : (quota : ℕ) (s : Shared) → Runs quota s → IsCapped quota s
unfolding count
Runs-IsCapped quota _ start = (omega arith, omega arith, refl)
Runs-IsCapped quota _ (then_ s t r q) = Step-IsCapped quota s t q (Runs-IsCapped quota s r)
