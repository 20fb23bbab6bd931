-- ===== src/Domain/Icon.antt =====
-- internal/icon/icon.go: the icon slugs and their lookup by `slices.BinarySearch`.
use wavelen.Prelude.{
  ℕ, zero, suc, ◌+◌, ◌/◌, Bytes, codes, Bool, true, false, Option, none, some, List, [], ◌∷◌,
  length, get_elem?, ltb, ◌==◌, bytes_eq, if◌then◌else◌, Result, ok, err, ◌≡◌, refl, ap, sym, ◌∙◌,
  arith, bytes_beq, any, all, ==_iff, Bool-cases, inl, inr,
}
use wavelen.Errors.{Error, unknown_icon}
use wavelen.Storage.Order.{lex}

abbrev pub default_icon : Bytes
default_icon = codes "square"

abbrev pub slugs : List Bytes
slugs =
    codes "anchor"
    ∷ codes "blend"
    ∷ codes "brush"
    ∷ codes "camera"
    ∷ codes "cat"
    ∷ codes "coffee"
    ∷ codes "crown"
    ∷ codes "droplet"
    ∷ codes "fish"
    ∷ codes "flower"
    ∷ codes "heart"
    ∷ codes "landmark"
    ∷ codes "layers"
    ∷ codes "leaf"
    ∷ codes "moon"
    ∷ codes "mountain"
    ∷ codes "music"
    ∷ codes "paintbrush"
    ∷ codes "palette"
    ∷ codes "pipette"
    ∷ codes "snowflake"
    ∷ codes "square"
    ∷ codes "star"
    ∷ codes "sun"
    ∷ codes "tag"
    ∷ []

-- `cmp.Less(s[h], target)`; out of range there is nothing to compare.
less_at : List Bytes → ℕ → Bytes → Bool
unfolding lex
less_at xs h target = elim (get_elem? xs h) [ none ↦ false | some x ↦ lex x target ]

-- The loop of `slices.BinarySearch`, with i and j; the fuel is the number of rounds.
search_from : ℕ → List Bytes → Bytes → ℕ → ℕ → ℕ
search_from zero xs target i j = i
search_from (suc fuel) xs target i j =
    let h = (i + j) / 2 in
    let right = search_from fuel xs target (h + 1) j in
    let left = search_from fuel xs target i h in
    if ltb i j then if less_at xs h target then right else left else i

equals : Option Bytes → Bytes → Bool
equals none target = false
equals (some x) target = x == target

-- The second result of `slices.BinarySearch`. The interval shrinks in every round.
unfoldable pub found : List Bytes → Bytes → Bool
unfolding search_from less_at equals
found xs target = equals (get_elem? xs (search_from (length xs) xs target 0 (length xs))) target

-- `ParseSlug`
unfoldable pub parse_slug : Bytes → Result Error Bytes
parse_slug s = if found slugs s then ok s else err unknown_icon

-- Every listed slug is found.
found-all : all (found slugs) slugs ≡ true
unfolding found bytes_beq
found-all = refl

any_of_get_elem? :
    (xs : List Bytes) (i : ℕ) (s : Bytes)
    → equals (get_elem? xs i) s ≡ true
    → any (λ x. x == s) xs ≡ true
unfolding equals any
any_of_get_elem? [] i s h = cc
any_of_get_elem? (x ∷ xs) zero s h = ground arith
any_of_get_elem? (x ∷ xs) (suc i) s h = ground (arith, any_of_get_elem? xs i s h)

any_of_found : (xs : List Bytes) (s : Bytes) → found xs s ≡ true → any (λ x. x == s) xs ≡ true
unfolding found
any_of_found xs s h = any_of_get_elem? xs _ s h

all_at :
    (p : Bytes → Bool) (xs : List Bytes) (s : Bytes)
    → all p xs ≡ true
    → any (λ x. x == s) xs ≡ true
    → p s ≡ true
unfolding any
all_at p [] s h k = cc
all_at p (x ∷ xs) s h k = elim (Bool-cases (x == s)) [
  | inl same ↦ ground (arith, ap p ((==_iff x s).0 same))
  | inr other ↦ all_at p xs s (ground arith) (ground arith)
]

abbrev is_listed : Bytes → Bool
is_listed s = any (λ x. x == s) slugs

found-is_listed : (s : Bytes) → found slugs s ≡ is_listed s
found-is_listed s = elim (Bool-cases (found slugs s)) [
  | inl yes_ ↦ yes_ ∙ sym (any_of_found slugs s yes_)
  | inr no_ ↦ elim (Bool-cases (is_listed s)) [
    | inl listed ↦ ground (arith, all_at (found slugs) slugs s found-all listed)
    | inr unlisted ↦ no_ ∙ sym unlisted
  ]
]

-- A text is accepted as an icon, and then unchanged, exactly when it is listed; any other text is
-- an unknown icon.
pub parse_slug_lem :
    (s : Bytes) → parse_slug s ≡ (if any (λ x. x == s) slugs then ok s else err unknown_icon)
unfolding parse_slug
parse_slug_lem s = ap (λ (b : Bool). if b then ok s else err unknown_icon) (found-is_listed s)
