-- ===== src/Prelude/Counting.antt =====
-- Laws of selection and counting.
use Prim.Native.Nat.{◌+◌, ◌≤◌, ◌<◌}
use mathlib.Core.Path.{◌≡◌, refl}
use mathlib.Core.Bool.{Bool, true, false, not, ◌&&◌, ◌||◌}
use mathlib.Core.Option.{none, some}
use mathlib.Core.List.{List, [], ◌∷◌, ◌++◌}
use native.Mathlib.Omega.{arith}
use wavelen.Prelude.Lists.{filter, any, count, find}

module _ {ℓ} {A : Type ℓ} (p : A → Bool) where
  pub count-append : (xs ys : List A) → count p (xs ++ ys) ≡ count p xs + count p ys
  unfolding count
  count-append [] ys = omega arith
  count-append (x ∷ xs) ys = omega (arith, count-append xs ys)

  pub any-append : (xs ys : List A) → any p (xs ++ ys) ≡ (any p xs || any p ys)
  unfolding any
  any-append [] ys = refl
  any-append (x ∷ xs) ys = ground (arith, any-append xs ys)

  pub count-eq-zero : (xs : List A) → any p xs ≡ false → count p xs ≡ 0
  unfolding count any
  count-eq-zero [] h = refl
  count-eq-zero (x ∷ xs) h = ground (arith, count-eq-zero xs)

  pub count-pos : (xs : List A) → any p xs ≡ true → 0 < count p xs
  unfolding count any
  count-pos [] h = cc
  count-pos (x ∷ xs) h = ground (arith, count-pos xs)

  pub any_of_count : (xs : List A) → 0 < count p xs → any p xs ≡ true
  unfolding count any
  any_of_count [] h = absurd (omega arith)
  any_of_count (x ∷ xs) h = ground (arith, any_of_count xs)

  pub not_any_of_count : (xs : List A) → count p xs ≡ 0 → any p xs ≡ false
  unfolding count any
  not_any_of_count [] h = refl
  not_any_of_count (x ∷ xs) h = ground (arith, not_any_of_count xs)

  -- Nothing is removed where nothing is selected.
  pub filter-not_none : (xs : List A) → any p xs ≡ false → filter (λ x. not (p x)) xs ≡ xs
  unfolding filter any
  filter-not_none [] h = refl
  filter-not_none (x ∷ xs) h = ground (arith, filter-not_none xs)

  pub any-filter-not : (xs : List A) → any p (filter (λ x. not (p x)) xs) ≡ false
  unfolding filter any
  any-filter-not [] = refl
  any-filter-not (x ∷ xs) = ground (arith, any-filter-not xs)

  pub any-find-none : (xs : List A) → any p xs ≡ false → find p xs ≡ none
  unfolding any find
  any-find-none [] h = refl
  any-find-none (x ∷ xs) h = ground (arith, any-find-none xs)

  module _ (q : A → Bool) where
    pub count-filter-le : (xs : List A) → count p (filter q xs) ≤ count p xs
    unfolding count filter
    count-filter-le [] = omega arith
    count-filter-le (x ∷ xs) = ground (arith, count-filter-le xs)

    pub count_mono : ((x : A) → p x ≡ true → q x ≡ true) → (xs : List A) → count p xs ≤ count q xs
    unfolding count
    count_mono h [] = omega arith
    count_mono h (x ∷ xs) = ground (arith, count_mono h xs, h x)

    -- A filter that keeps all that is counted.
    pub count-filter_keeps :
        ((x : A) → p x ≡ true → q x ≡ true) → (xs : List A) → count p (filter q xs) ≡ count p xs
    unfolding count filter
    count-filter_keeps h [] = refl
    count-filter_keeps h (x ∷ xs) = ground (arith, count-filter_keeps h xs, h x)

    -- A filter that drops all that is counted.
    pub count-filter_drops :
        ((x : A) → p x ≡ true → q x ≡ false) → (xs : List A) → count p (filter q xs) ≡ 0
    unfolding count filter
    count-filter_drops h [] = refl
    count-filter_drops h (x ∷ xs) = ground (arith, count-filter_drops h xs, h x)

  pub count-pos_of_find : (xs : List A) (x : A) → find p xs ≡ some x → 0 < count p xs
  unfolding count find
  count-pos_of_find [] x h = cc
  count-pos_of_find (y ∷ ys) x h = ground (arith, count-pos_of_find ys x)

  pub test_of_find : (xs : List A) (x : A) → find p xs ≡ some x → p x ≡ true
  unfolding find
  test_of_find [] x h = cc
  test_of_find (y ∷ ys) x h = ground (arith, test_of_find ys x)

  module _ (q : A → Bool) where
    -- What a filter leaves and what it takes away.
    pub count-filter-not :
        (xs : List A)
        → count p (filter (λ x. not (q x)) xs) + count (λ x. p x && q x) xs ≡ count p xs
    unfolding count filter
    count-filter-not [] = refl
    count-filter-not (x ∷ xs) = ground (arith, count-filter-not xs)

    pub any-filter_or :
        (xs : List A) → any p xs ≡ (any p (filter q xs) || any p (filter (λ x. not (q x)) xs))
    unfolding any filter
    any-filter_or [] = refl
    any-filter_or (x ∷ xs) = ground (arith, any-filter_or xs)

    pub any-filter_keeps :
        ((x : A) → p x ≡ true → q x ≡ true) → (xs : List A) → any p (filter q xs) ≡ any p xs
    unfolding any filter
    any-filter_keeps h [] = refl
    any-filter_keeps h (x ∷ xs) = ground (arith, any-filter_keeps h xs, h x)

module _ {ℓ} {A : Type ℓ} (p q one : A → Bool) where
  -- Of items that share what only one item has, the one that was found is the only one.
  pub count-zero_of_unique :
      (xs : List A) (r : A)
      → ((x : A) → p x ≡ true → one x ≡ true)
      → ((x : A) → q x ≡ true → one x ≡ true)
      → count one xs ≤ 1
      → find p xs ≡ some r
      → q r ≡ false
      → count q xs ≡ 0
  unfolding count find
  count-zero_of_unique [] r hp hq u f n = refl
  count-zero_of_unique (x ∷ xs) r hp hq u f n = ground (
    arith,
    hp x,
    hq x,
    count_mono q one hq xs,
    count_mono p one hp xs,
    count-pos_of_find p xs r,
    count-zero_of_unique xs r hp hq,
  )
