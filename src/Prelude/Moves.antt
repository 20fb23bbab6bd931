-- ===== src/Prelude/Moves.antt =====
-- Tests and counts on a list of which one item is replaced.
use Prim.Native.Nat.{◌+◌, ◌≤◌}
use mathlib.Core.Path.{◌≡◌, refl}
use mathlib.Core.Bool.{Bool, true}
use mathlib.Core.Option.{some}
use mathlib.Core.List.{List, [], ◌∷◌, ◌++◌, map}
use native.Mathlib.Omega.{arith}
use wavelen.Prelude.Lists.{length, filter, all, count, find}
use wavelen.Prelude.Counting.{count-append}

module _ {ℓ} {A : Type ℓ} (f : A → Bool) where
  pub all_replaced :
      (pre : List A) (p q : A) (post : List A)
      → all f (pre ++ p ∷ post) ≡ true
      → f q ≡ true
      → all f (pre ++ q ∷ post) ≡ true
  all_replaced [] p q post h k = ground arith
  all_replaced (x ∷ pre) p q post h k = ground (arith, all_replaced pre p q post)

  pub all_here :
      (pre : List A) (p : A) (post : List A) → all f (pre ++ p ∷ post) ≡ true → f p ≡ true
  all_here [] p post h = ground arith
  all_here (x ∷ pre) p post h = all_here pre p post (ground arith)

  -- The count, when one item is replaced.
  pub count_replaced :
      (pre : List A) (p q : A) (post : List A)
      → count f (pre ++ q ∷ post) + count f (p ∷ []) ≡ count f (pre ++ p ∷ post) + count f (q ∷ [])
  unfolding count
  count_replaced pre p q post =
      ground (arith, count-append f pre (q ∷ post), count-append f pre (p ∷ post))

  -- An item that counts no more than the one before it.
  pub one_replaced :
      (pre : List A) (p q : A) (post : List A)
      → count f (q ∷ []) ≤ count f (p ∷ [])
      → count f (pre ++ p ∷ post) ≤ 1
      → count f (pre ++ q ∷ post) ≤ 1
  one_replaced pre p q post le one = omega (arith, le, one, count_replaced pre p q post)

  pub length-filter-le : (xs : List A) → length (filter f xs) ≤ length xs
  unfolding filter
  length-filter-le [] = omega arith
  length-filter-le (x ∷ xs) = ground (arith, length-filter-le xs)

  pub all-append : (xs ys : List A) → all f xs ≡ true → all f ys ≡ true → all f (xs ++ ys) ≡ true
  all-append [] ys h k = k
  all-append (x ∷ xs) ys h k = ground (arith, all-append xs ys)

  module _ (g : A → Bool) where
    pub all-filter : (xs : List A) → all f xs ≡ true → all f (filter g xs) ≡ true
    unfolding filter
    all-filter [] h = refl
    all-filter (x ∷ xs) h = ground (arith, all-filter xs)

    pub all-find : (xs : List A) (x : A) → all f xs ≡ true → find g xs ≡ some x → f x ≡ true
    unfolding find
    all-find [] x h e = cc
    all-find (y ∷ ys) x h e = ground (arith, all-find ys x)

    -- A test that holds wherever another one does.
    pub all_weaker :
        ((x : A) → f x ≡ true → g x ≡ true) → (xs : List A) → all f xs ≡ true → all g xs ≡ true
    all_weaker k [] h = refl
    all_weaker k (x ∷ xs) h = ground (arith, k x, all_weaker k xs)

  module _ (g : A → A) where
    -- A map that keeps what is tested.
    pub all-map : ((x : A) → f (g x) ≡ f x) → (xs : List A) → all f (map g xs) ≡ all f xs
    all-map k [] = refl
    all-map k (x ∷ xs) = ground (arith, k x, all-map k xs)

    pub count-map_same : ((x : A) → f (g x) ≡ f x) → (xs : List A) → count f (map g xs) ≡ count f xs
    unfolding count
    count-map_same k [] = refl
    count-map_same k (x ∷ xs) = ground (arith, k x, count-map_same k xs)

pub length-map {ℓ} : {A : Type ℓ} (g : A → A) (xs : List A) → length (map g xs) ≡ length xs
length-map g [] = refl
length-map g (x ∷ xs) = omega (arith, length-map g xs)
