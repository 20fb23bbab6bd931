-- ===== src/Storage/Order/Laws.antt =====
-- Laws of the order of keys, and of sorting: sorting keeps the items and commutes with a WHERE
-- clause.
use wavelen.Prelude.{
  ℕ, ◌+◌, Bool, true, false, List, [], ◌∷◌, ◌++◌, if◌then◌else◌, filter, count, ◌≡◌, ◌≢◌, refl,
  arith, Bool-cases, inl, inr,
}
use wavelen.Storage.Order.{lex, Direction, ascending, descending, before, insert, sort}

lex_irrefl : (a : List ℕ) → lex a a ≡ false
unfolding lex
lex_irrefl [] = refl
lex_irrefl (x ∷ xs) = ground (arith, lex_irrefl xs)

lex_trans : (a b c : List ℕ) → lex a b ≡ true → lex b c ≡ true → lex a c ≡ true
unfolding lex
lex_trans [] [] c h k = cc
lex_trans [] (y ∷ ys) [] h k = cc
lex_trans [] (y ∷ ys) (z ∷ zs) h k = refl
lex_trans (x ∷ xs) [] c h k = cc
lex_trans (x ∷ xs) (y ∷ ys) [] h k = cc
lex_trans (x ∷ xs) (y ∷ ys) (z ∷ zs) h k = ground (arith, lex_trans xs ys zs)

-- Nothing stands between two keys without being compared to one of them.
lex_cotrans : (a b c : List ℕ) → lex a c ≡ true → lex a b ≡ false → lex b c ≡ true
unfolding lex
lex_cotrans [] b [] h k = cc
lex_cotrans [] [] (z ∷ zs) h k = refl
lex_cotrans [] (y ∷ ys) (z ∷ zs) h k = cc
lex_cotrans (x ∷ xs) b [] h k = cc
lex_cotrans (x ∷ xs) [] (z ∷ zs) h k = refl
lex_cotrans (x ∷ xs) (y ∷ ys) (z ∷ zs) h k = ground (arith, lex_cotrans xs ys zs)

lex_total : (a b : List ℕ) → lex a b ≡ false → lex b a ≡ false → a ≡ b
unfolding lex
lex_total [] [] h k = refl
lex_total [] (y ∷ ys) h k = cc
lex_total (x ∷ xs) [] h k = cc
lex_total (x ∷ xs) (y ∷ ys) h k = ground (arith, lex_total xs ys)

pub before_irrefl : (d : Direction) (a : List ℕ) → before d a a ≡ false
unfolding before
before_irrefl ascending a = lex_irrefl a
before_irrefl descending a = lex_irrefl a

pub before_trans :
    (d : Direction) (a b c : List ℕ)
    → before d a b ≡ true
    → before d b c ≡ true
    → before d a c ≡ true
unfolding before
before_trans ascending a b c h k = lex_trans a b c h k
before_trans descending a b c h k = lex_trans c b a k h

pub before_cotrans :
    (d : Direction) (a b c : List ℕ)
    → before d a c ≡ true
    → before d a b ≡ false
    → before d b c ≡ true
unfolding before
before_cotrans ascending a b c h k = lex_cotrans a b c h k
before_cotrans descending a b c h k = elim (Bool-cases (lex c b)) [
  | inl e ↦ e
  | inr e ↦ ground (arith, lex_cotrans c b a h e)
]

pub before_total :
    (d : Direction) (a b : List ℕ) → before d a b ≡ false → before d b a ≡ false → a ≡ b
unfolding before
before_total ascending a b h k = lex_total a b h k
before_total descending a b h k = lex_total a b k h

module _ {A : Type 0} (d : Direction) (key : A → List ℕ) where
  -- Each test sees the same items after sorting.
  count-insert :
      (p : A → Bool) (x : A) (xs : List A)
      → count p (insert d key x xs) ≡ (if p x then 1 else 0) + count p xs
  unfolding insert count
  count-insert p x [] = refl
  count-insert p x (y ∷ ys) = ground (arith, count-insert p x ys)

  pub count-sort : (p : A → Bool) (xs : List A) → count p (sort d key xs) ≡ count p xs
  unfolding sort count
  count-sort p [] = refl
  count-sort p (x ∷ xs) = ground (arith, count-insert p x (sort d key xs), count-sort p xs)

  -- No item of the list stands before x.
  abbrev pub NoneBefore : A → List A → Type 0
  NoneBefore x [] = Unit
  NoneBefore x (y ∷ ys) = (before d (key y) (key x) ≡ false) × NoneBefore x ys

  abbrev pub IsSorted : List A → Type 0
  IsSorted [] = Unit
  IsSorted (x ∷ xs) = NoneBefore x xs × IsSorted xs

  NoneBefore-insert :
      (x y : A) (xs : List A)
      → before d (key y) (key x) ≡ false
      → NoneBefore x xs
      → NoneBefore x (insert d key y xs)
  unfolding insert
  NoneBefore-insert x y [] h k = (h, tt)
  NoneBefore-insert x y (z ∷ zs) h (k, l) = ground (arith, NoneBefore-insert x y zs h l)

  NoneBefore-down :
      (x y : A) (xs : List A) → before d (key y) (key x) ≡ false → NoneBefore y xs → NoneBefore x xs
  NoneBefore-down x y [] h k = tt
  NoneBefore-down x y (z ∷ zs) h (k, l) =
      (ground (arith, before_cotrans d (key z) (key y) (key x)), NoneBefore-down x y zs h l)

  insert-IsSorted : (x : A) (xs : List A) → IsSorted xs → IsSorted (insert d key x xs)
  unfolding insert
  insert-IsSorted x [] h = (tt, tt)
  insert-IsSorted x (y ∷ ys) (h, s) = elim (Bool-cases (before d (key y) (key x))) [
    | inl e ↦ rw e (
      NoneBefore-insert y x ys
          (ground (arith, before_trans d (key x) (key y) (key x), before_irrefl d (key x))) h,
      insert-IsSorted x ys s,
    )
    | inr e ↦ rw e ((e, NoneBefore-down x y ys e h), (h, s))
  ]

  pub sort-IsSorted : (xs : List A) → IsSorted (sort d key xs)
  unfolding sort
  sort-IsSorted [] = tt
  sort-IsSorted (x ∷ xs) = insert-IsSorted x (sort d key xs) (sort-IsSorted xs)

  module _ (p : A → Bool) where
    insert_front : (x : A) (xs : List A) → NoneBefore x xs → insert d key x xs ≡ x ∷ xs
    unfolding insert
    insert_front x [] h = refl
    insert_front x (y ∷ ys) (h, k) = rw h

    NoneBefore-filter : (x : A) (xs : List A) → NoneBefore x xs → NoneBefore x (filter p xs)
    unfolding filter
    NoneBefore-filter x [] h = tt
    NoneBefore-filter x (y ∷ ys) (h, k) = ground (arith, NoneBefore-filter x ys k)

    filter-insert :
        (x : A) (xs : List A)
        → IsSorted xs
        → filter p (insert d key x xs) ≡ (if p x then insert d key x (filter p xs) else filter p xs)
    unfolding filter insert
    filter-insert x [] s = ground arith
    filter-insert x (y ∷ ys) (h, s) = elim (Bool-cases (before d (key y) (key x))) [
      | inl e ↦ ground (arith, filter-insert x ys s)
      | inr e ↦ ground (
        arith,
        insert_front x (filter p ys) (NoneBefore-filter x ys (NoneBefore-down x y ys e h)),
      )
    ]

    -- ORDER BY after WHERE is WHERE after ORDER BY.
    pub filter-sort : (xs : List A) → filter p (sort d key xs) ≡ sort d key (filter p xs)
    unfolding sort filter
    filter-sort [] = refl
    filter-sort (x ∷ xs) =
        ground (arith, filter-insert x (sort d key xs) (sort-IsSorted xs), filter-sort xs)

  NoneBefore-at :
      (x : A) (pre : List A) (r : A) (post : List A)
      → NoneBefore x (pre ++ r ∷ post)
      → before d (key r) (key x) ≡ false
  NoneBefore-at x [] r post h = h.0
  NoneBefore-at x (y ∷ pre) r post h = NoneBefore-at x pre r post h.1

  -- Of a sorted list with one item for each key, the items after a given one are its tail.
  abbrev pub NoneEqual : A → List A → Type 0
  NoneEqual x [] = Unit
  NoneEqual x (y ∷ ys) = (key x ≢ key y) × NoneEqual x ys

  abbrev pub after : A → A → Bool
  after r x = before d (key r) (key x)

  after_all : (r : A) (xs : List A) → NoneBefore r xs → NoneEqual r xs → filter (after r) xs ≡ xs
  unfolding filter
  after_all r [] h k = refl
  after_all r (x ∷ xs) (h, hs) (k, ks) =
      ground (arith, after_all r xs hs ks, before_total d (key r) (key x))

  pub filter_after :
      (pre : List A) (r : A) (post : List A)
      → IsSorted (pre ++ r ∷ post)
      → NoneEqual r post
      → filter (after r) (pre ++ r ∷ post) ≡ post
  unfolding filter
  filter_after [] r post (h, s) k = rw (before_irrefl d (key r)) (after_all r post h k)
  filter_after (x ∷ pre) r post (h, s) k =
      ground (arith, filter_after pre r post s k, NoneBefore-at x pre r post h)
