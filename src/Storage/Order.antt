-- ===== src/Storage/Order.antt =====
-- ORDER BY and the comparison of rows. The key of a row is the list of its columns' values, where
-- a text counts as its bytes and stands last; keys are compared from the first value on, as
-- Postgres compares rows (texts as under the "C" collation).
pub mod Laws
use wavelen.Prelude.{ℕ, Bool, true, false, List, [], ◌∷◌, ltb, if◌then◌else◌}

unfoldable pub lex : List ℕ → List ℕ → Bool
lex [] [] = false
lex [] (y ∷ ys) = true
lex (x ∷ xs) [] = false
lex (x ∷ xs) (y ∷ ys) =
    let rest = lex xs ys in if ltb x y then true else if ltb y x then false else rest

pub data Direction : Type 0 where
  ascending descending : Direction

-- Whether the first key stands before the second one.
unfoldable pub before : Direction → List ℕ → List ℕ → Bool
before ascending k l = lex k l
before descending k l = lex l k

module _ {A : Type 0} (direction : Direction) (key : A → List ℕ) where
  unfoldable pub insert : A → List A → List A
  insert x [] = x ∷ []
  insert x (y ∷ ys) = if before direction (key y) (key x) then y ∷ insert x ys else x ∷ y ∷ ys

  unfoldable pub sort : List A → List A
  unfolding insert
  sort [] = []
  sort (x ∷ xs) = insert x (sort xs)
