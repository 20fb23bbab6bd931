-- ===== src/Prelude/Bags.antt =====
-- Lists up to their order: a quotient, by how often each test holds.
use Prim.Native.Nat.{ℕ}
use mathlib.Core.Path.{◌≡◌, refl, sym, ◌∙◌}
use mathlib.Core.Bool.{Bool, ◌&&◌}
use mathlib.Core.List.{List, [], ◌∷◌, ◌++◌, map}
use mathlib.Core.Quot
use mathlib.Core.Quot.{Quot, Quot-set}
use native.Mathlib.Nat.{ℕ_set}
use native.Mathlib.Omega.{arith}
use wavelen.Prelude.Lists.{filter, count}
use wavelen.Prelude.Counting.{count-append}

module _ {A : Type 0} where
  -- Every test holds on as many items of both.
  abbrev pub SameItems : List A → List A → Type 0
  SameItems xs ys = (p : A → Bool) → count p xs ≡ count p ys

  pub count-filter_of :
      (p q : A → Bool) (xs : List A) → count p (filter q xs) ≡ count (λ x. q x && p x) xs
  unfolding count filter
  count-filter_of p q [] = refl
  count-filter_of p q (x ∷ xs) = ground (arith, count-filter_of p q xs)

abbrev pub Bag : Type 0 → Type 0
Bag A = Quot (SameItems {A = A})

module _ {A B : Type 0} where
  pub count-map :
      (p : B → Bool) (f : A → B) (xs : List A) → count p (map f xs) ≡ count (λ x. p (f x)) xs
  unfolding count
  count-map p f [] = refl
  count-map p f (x ∷ xs) = ground (arith, count-map p f xs)

module _ {A : Type 0} where
  unfoldable pub bag_of : List A → Bag A
  bag_of xs = Quot.mk xs

  -- How many items pass a test.
  unfoldable pub occurrences : (A → Bool) → Bag A → ℕ
  occurrences p = Quot.lift ℕ_set (count p) (λ xs ys h. h p)

  pub SameItems-cons : (x : A) (xs ys : List A) → SameItems xs ys → SameItems (x ∷ xs) (x ∷ ys)
  unfolding count
  SameItems-cons x xs ys h p = ground (arith, h p)

  unfoldable pub put : A → Bag A → Bag A
  put x =
      Quot.lift Quot-set (λ xs. Quot.mk (x ∷ xs)) (λ xs ys h. Quot.sound (SameItems-cons x xs ys h))

  pub SameItems-filter :
      (q : A → Bool) (xs ys : List A) → SameItems xs ys → SameItems (filter q xs) (filter q ys)
  SameItems-filter q xs ys h p =
      count-filter_of p q xs ∙ h (λ x. q x && p x) ∙ sym (count-filter_of p q ys)

  -- The items that pass a test.
  unfoldable pub keep : (A → Bool) → Bag A → Bag A
  keep q =
      Quot.lift Quot-set (λ xs. Quot.mk (filter q xs))
        (λ xs ys h. Quot.sound (SameItems-filter q xs ys h))

  -- At the end of a list, or before it.
  pub bag_of-append : (xs : List A) (x : A) → bag_of (xs ++ x ∷ []) ≡ put x (bag_of xs)
  unfolding bag_of put count
  bag_of-append xs x = Quot.sound (λ p. omega (arith, count-append p xs (x ∷ [])))
