-- ===== src/Palette/Orders.antt =====
-- The orders of internal/palette/palette.go.
use wavelen.Prelude.{
  ℕ, Bytes, Bool, true, false, List, [], ◌∷◌, ◌++◌, map, count, ◌==◌, bytes_eq, bytes_beq, ==_iff,
  ok, ◌≡◌, refl, sym, ap, subst, ◌∙◌, arith, count-append, Bool-cases, inl, inr, if◌then◌else◌,
}
use wavelen.Storage.Order.{Direction, ascending, descending, before, sort}
use wavelen.Storage.Order.Laws.{count-sort, NoneBefore, IsSorted, sort-IsSorted}
use wavelen.Palette.{
  Entry, Common, sorted, reverse, key_of, list_of, parse_sort, listed, sort_by_name, sort_by_hex,
  sort_by_feel, by_name, by_hex, by_feel,
}

abbrev common : Entry → Common
common e = record { hex = e.hex; name = e.name }

-- What a sort compares: the name, the code, or the feel and then the code.
abbrev pub column : Bytes → Entry → List ℕ
column s e =
    if s == sort_by_name then e.name else if s == sort_by_hex then e.hex else e.feel ∷ e.hex

-- The entries of a listing: those of the table, each as often, in the direction of their columns.
abbrev pub ListsIn : Direction → List Entry → Bytes → List Common → Type 0
ListsIn d rows s xs =
    (es : List Entry) × (xs ≡ map common es)
    × IsSorted d (column s) es
    × ((p : Entry → Bool) → count p es ≡ count p rows)

abbrev pub Lists : List Entry → Bytes → Type 0
Lists rows s =
    ((xs : List Common) × (list_of rows (record { sort = s; desc = false }) ≡ ok xs)
      × ListsIn ascending rows s xs)
    × ((xs : List Common) × (list_of rows (record { sort = s; desc = true }) ≡ ok xs)
        × ListsIn descending rows s xs)

count-reverse : (p : Entry → Bool) (xs : List Entry) → count p (reverse xs) ≡ count p xs
unfolding reverse count
count-reverse p [] = refl
count-reverse p (x ∷ xs) = ground (arith, count-append p (reverse xs) (x ∷ []), count-reverse p xs)

map-append_one :
    (es : List Entry) (e : Entry) → map common es ++ common e ∷ [] ≡ map common (es ++ e ∷ [])
map-append_one [] e = refl
map-append_one (x ∷ es) e = ap (λ xs. common x ∷ xs) (map-append_one es e)

reverse-map : (es : List Entry) → reverse (map common es) ≡ map common (reverse es)
unfolding reverse
reverse-map [] = refl
reverse-map (e ∷ es) =
    ap (λ xs. xs ++ common e ∷ []) (reverse-map es) ∙ map-append_one (reverse es) e

module _ (key : Entry → List ℕ) where
  NoneBefore-append_one :
      (d : Direction) (x y : Entry) (es : List Entry)
      → NoneBefore d key x es
      → before d (key y) (key x) ≡ false
      → NoneBefore d key x (es ++ y ∷ [])
  NoneBefore-append_one d x y [] h k = (k, tt)
  NoneBefore-append_one d x y (e ∷ es) (h, hs) k = (h, NoneBefore-append_one d x y es hs k)

  NoneBefore-reverse :
      (d : Direction) (x : Entry) (es : List Entry)
      → NoneBefore d key x es
      → NoneBefore d key x (reverse es)
  unfolding reverse
  NoneBefore-reverse d x [] h = tt
  NoneBefore-reverse d x (e ∷ es) (h, hs) =
      NoneBefore-append_one d x e (reverse es) (NoneBefore-reverse d x es hs) h

  -- The item that nothing stands before comes last in the other direction.
  IsSorted-append_one :
      (x : Entry) (es : List Entry)
      → IsSorted descending key es
      → NoneBefore ascending key x es
      → IsSorted descending key (es ++ x ∷ [])
  unfolding before
  IsSorted-append_one x [] s h = (tt, tt)
  IsSorted-append_one x (e ∷ es) (k, s) (h, hs) =
      (NoneBefore-append_one descending e x es k h, IsSorted-append_one x es s hs)

  reverse-IsSorted :
      (es : List Entry) → IsSorted ascending key es → IsSorted descending key (reverse es)
  unfolding reverse
  reverse-IsSorted [] s = tt
  reverse-IsSorted (e ∷ es) (h, s) =
      IsSorted-append_one e (reverse es) (reverse-IsSorted es s)
        (NoneBefore-reverse ascending e es h)

Lists-by : (rows : List Entry) (s : Bytes) → key_of s ≡ ok (column s) → Lists rows s
unfolding list_of listed sorted
Lists-by rows s e =
    let es = sort ascending (column s) rows in
    let ordered = sort-IsSorted ascending (column s) rows in
    (
      (map common es, rw e refl, (es, refl, ordered, λ p. count-sort ascending (column s) p rows)),
      (
        reverse (map common es),
        rw e refl,
        (
          reverse es,
          reverse-map es,
          reverse-IsSorted (column s) es ordered,
          λ p. count-reverse p es ∙ count-sort ascending (column s) p rows,
        ),
      ),
    )

key_of_name : key_of sort_by_name ≡ ok (column sort_by_name)
unfolding key_of bytes_beq by_name
key_of_name = refl

key_of_hex : key_of sort_by_hex ≡ ok (column sort_by_hex)
unfolding key_of bytes_beq by_hex
key_of_hex = refl

key_of_feel : key_of sort_by_feel ≡ ok (column sort_by_feel)
unfolding key_of bytes_beq by_feel
key_of_feel = refl

named : (raw s : Bytes) → parse_sort raw ≡ ok s → raw ≡ s
unfolding parse_sort
named raw s h = ground arith

key_of_same : (s t : Bytes) → s ≡ t → key_of t ≡ ok (column t) → key_of s ≡ ok (column s)
key_of_same s t e k = subst (λ x. key_of x ≡ ok (column x)) (sym e) k

key_of_accepted : (s : Bytes) → parse_sort s ≡ ok s → key_of s ≡ ok (column s)
unfolding parse_sort
key_of_accepted s h = elim (Bool-cases (s == sort_by_name)) [
  | inl n ↦ key_of_same s sort_by_name ((==_iff s sort_by_name).0 n) key_of_name
  | inr n ↦ elim (Bool-cases (s == sort_by_hex)) [
    | inl x ↦ key_of_same s sort_by_hex ((==_iff s sort_by_hex).0 x) key_of_hex
    | inr x ↦ key_of_same s sort_by_feel ((==_iff s sort_by_feel).0 (ground arith)) key_of_feel
  ]
]

-- An accepted sort has a key.
pub accepted : (raw s : Bytes) → parse_sort raw ≡ ok s → key_of s ≡ ok (column s)
accepted raw s h = key_of_accepted s (ap parse_sort (sym (named raw s h)) ∙ h)

-- For every sort that is accepted, and any table: the listing has the entries of the table, each as
-- often, in ascending order of what the sort compares (the name, the code, or the feel and then the
-- code); the descending listing has them in descending order of it.
pub list_of-parse_sort : (rows : List Entry) (raw s : Bytes) → parse_sort raw ≡ ok s → Lists rows s
list_of-parse_sort rows raw s h = Lists-by rows s (accepted raw s h)
