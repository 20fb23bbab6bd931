-- ===== src/Server/Middleware/Forwarded.antt =====
-- What `forwardedFor` of internal/server/middleware.go reads.
use wavelen.Prelude.{
  ℕ, Bytes, true, not, List, [], ◌∷◌, ◌++◌, all, some, last?, ◌==◌, nat_eq, ==_refl, ◌≡◌, refl, ap,
  ◌∙◌, inl, inr, Bool-cases, arith,
}
use wavelen.Server.Middleware.{after_last, entry_of, forwarded_for}

after_last_kept :
    (c : ℕ) (xs since : Bytes) → all (λ x. not (x == c)) xs ≡ true → after_last c xs since ≡ since
unfolding after_last
after_last_kept c [] since h = refl
after_last_kept c (x ∷ xs) since h = elim (Bool-cases (x == c)) [
  | inl same ↦ absurd (ground arith)
  | inr apart ↦ rw apart (after_last_kept c xs since (ground arith))
]

after_last-append :
    (c : ℕ) (xs ys since : Bytes)
    → all (λ x. not (x == c)) ys ≡ true
    → after_last c (xs ++ c ∷ ys) since ≡ ys
unfolding after_last
after_last-append c [] ys since h = rw (after_last, ==_refl c) (after_last_kept c ys ys h)
after_last-append c (x ∷ xs) ys since h = after_last-append c xs ys _ h

last-append : (lines : List Bytes) (line : Bytes) → last? (lines ++ line ∷ []) ≡ some line
last-append [] line = refl
last-append (x ∷ []) line = refl
last-append (x ∷ y ∷ lines) line = last-append (y ∷ lines) line

-- When the last line of the header ends with a comma and an address that has no comma, that
-- address is what is read, whatever the lines and the text before it are.
pub forwarded_for-append :
    (trim_space : Bytes → Bytes) (lines : List Bytes) (claimed address : Bytes)
    → all (λ x. not (x == b',')) address ≡ true
    → forwarded_for trim_space (lines ++ (claimed ++ b',' ∷ address) ∷ []) ≡ trim_space address
unfolding forwarded_for entry_of
forwarded_for-append trim_space lines claimed address h =
    ap (entry_of trim_space) (last-append lines (claimed ++ b',' ∷ address))
    ∙ ap trim_space (after_last-append b',' claimed address (claimed ++ b',' ∷ address) h)
