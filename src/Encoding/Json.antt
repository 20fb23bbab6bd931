-- ===== src/Encoding/Json.antt =====
-- JSON values, as encoding/json makes them of the response types: a struct is an object with a field
-- per tag, in the order of declaration, and a slice is an array. What a client reads of them: the
-- first field of a name, a text, a list.
use wavelen.Prelude.{
  ℕ, Bytes, Bool, Option, none, some, List, [], ◌∷◌, ◌==◌, bytes_eq, if◌then◌else◌, ◌≡◌, refl,
}

mutual
  pub data Json : Type 0 where
    string : Bytes → Json
    number : ℕ → Json
    boolean : Bool → Json
    array : Elements → Json
    object : Fields → Json

  pub data Elements : Type 0 where
    end : Elements
    element : Json → Elements → Elements

  pub data Fields : Type 0 where
    close : Fields
    field : Bytes → Json → Fields → Fields

module _ {A : Type 0} where
  unfoldable pub elements : (A → Json) → List A → Elements
  elements f [] = end
  elements f (x ∷ xs) = element (f x) (elements f xs)

module _ {A B : Type 0} where
  infixl 5 ◌>>=◌
  abbrev pub ◌>>=◌ : Option A → (A → Option B) → Option B
  none >>= f = none
  some a >>= f = f a

unfoldable pub lookup : Bytes → Fields → Option Json
lookup name close = none
lookup name (field n j fs) = if n == name then some j else lookup name fs

-- The field of a name, where the value is an object.
unfoldable pub get : Bytes → Json → Option Json
unfolding lookup
get name (object fs) = lookup name fs
get name _ = none

unfoldable pub text : Json → Option Bytes
text (string s) = some s
text _ = none

unfoldable pub truth : Json → Option Bool
truth (boolean b) = some b
truth _ = none

module _ {A : Type 0} (read : Json → Option A) where
  unfoldable pub read_elements : Elements → Option (List A)
  read_elements end = some []
  read_elements (element j js) = do a ← read j; rest ← read_elements js; some (a ∷ rest)

  unfoldable pub read_array : Json → Option (List A)
  unfolding read_elements
  read_array (array js) = read_elements js
  read_array _ = none

module _ {A : Type 0} (read : Json → Option A) (f : A → Json) where
  -- Reading back what was written, one item at a time.
  pub read_elements-elements :
      ((a : A) → read (f a) ≡ some a) → (xs : List A) → read_elements read (elements f xs) ≡ some xs
  unfolding read_elements elements
  read_elements-elements h [] = refl
  read_elements-elements h (x ∷ xs) = rw (h x, read_elements-elements h xs) refl
