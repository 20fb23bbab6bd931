-- ===== src/Server/Limit/Bound.antt =====
-- The cap of internal/server/limit.go, and giving a slot back.
use wavelen.Prelude.{ℕ, ◌≤◌, Bool, true, false, [], ◌∷◌, count, ◌≡◌, refl, arith, count-append}
use wavelen.Server.Limit.{
  Phase, arrived, waiting, running, served, refused, gone, Limiter, moved, Step, arrive, acquire,
  wait, acquire_late, time_out, hang_up, release, Runs, start, then_,
}

unfoldable pub is_running : Phase → Bool
is_running running = true
is_running _ = false

-- The channel holds an item for each request in the handler, and no more than its capacity.
abbrev pub IsBounded : ℕ → Limiter → Type 0
IsBounded limit s = (s.taken ≡ count is_running s.requests) × (s.taken ≤ limit)

Step-IsBounded :
    (limit : ℕ) (s t : Limiter) → Step limit s t → IsBounded limit s → IsBounded limit t
unfolding moved count is_running
Step-IsBounded limit _ _ (arrive n rs) (e, b) =
    (omega (arith, e, count-append is_running rs (arrived ∷ [])), b)
Step-IsBounded limit _ _ (acquire n pre post h) (e, b) = (
  omega (
    arith,
    e,
    count-append is_running pre (arrived ∷ post),
    count-append is_running pre (running ∷ post),
  ),
  ground arith,
)
Step-IsBounded limit _ _ (wait n pre post h) (e, b) = (
  omega (
    arith,
    e,
    count-append is_running pre (arrived ∷ post),
    count-append is_running pre (waiting ∷ post),
  ),
  b,
)
Step-IsBounded limit _ _ (acquire_late n pre post h) (e, b) = (
  omega (
    arith,
    e,
    count-append is_running pre (waiting ∷ post),
    count-append is_running pre (running ∷ post),
  ),
  ground arith,
)
Step-IsBounded limit _ _ (time_out n pre post) (e, b) = (
  omega (
    arith,
    e,
    count-append is_running pre (waiting ∷ post),
    count-append is_running pre (refused ∷ post),
  ),
  b,
)
Step-IsBounded limit _ _ (hang_up n pre post) (e, b) = (
  omega (
    arith,
    e,
    count-append is_running pre (waiting ∷ post),
    count-append is_running pre (gone ∷ post),
  ),
  b,
)
Step-IsBounded limit _ _ (release n pre post) (e, b) = (
  omega (
    arith,
    e,
    count-append is_running pre (running ∷ post),
    count-append is_running pre (served ∷ post),
  ),
  omega (arith, b),
)

pub IsBounded-of : (limit : ℕ) (s : Limiter) → Runs limit s → IsBounded limit s
unfolding count
IsBounded-of limit _ (start l) = (refl, omega arith)
IsBounded-of limit _ (then_ s t r q) = Step-IsBounded limit s t q (IsBounded-of limit s r)

-- For a positive limit: however requests arrive, wait, give up and end, at most `limit` of them are
-- in the handler, and the semaphore holds as many items as there are.
pub Runs-IsBounded : (limit : ℕ) (s : Limiter) → 1 ≤ limit → Runs limit s → IsBounded limit s
Runs-IsBounded limit s l r = IsBounded-of limit s r
