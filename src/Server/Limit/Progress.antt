-- ===== src/Server/Limit/Progress.antt =====
-- How the limiter of internal/server/limit.go goes on from any state.
use wavelen.Prelude.{
  ℕ, suc, ◌+◌, ◌<◌, List, [], ◌∷◌, ◌++◌, map, count, lt→ltb, append_assoc, ◌≡◌, refl, ap, subst,
  arith,
}
use wavelen.Server.Limit.{
  Phase, arrived, waiting, running, served, refused, gone, Limiter, moved, Step, acquire,
  acquire_late, release, Runs,
}
use wavelen.Server.Limit.Bound.{is_running, IsBounded-of}

-- Some steps, one after another.
pub data Steps (limit : ℕ) : Limiter → Limiter → Type 0 where
  stay : (s : Limiter) → Steps limit s s
  step : (s t u : Limiter) → Step limit s t → Steps limit t u → Steps limit s u

append_steps : (limit : ℕ) (s t u : Limiter) → Steps limit s t → Steps limit t u → Steps limit s u
append_steps limit _ _ u (stay s) k = k
append_steps limit _ _ u (step s t t' h hs) k = step s t u h (append_steps limit t t' u hs k)

abbrev at : ℕ → List Phase → Limiter
at n rs = record { taken = n; requests = rs }

-- Whoever is in the handler has left it.
abbrev released : Phase → Phase
released running = served
released p = p

-- Whoever was not yet refused or gone is served.
abbrev pub served_of : Phase → Phase
served_of arrived = served
served_of waiting = served
served_of running = served
served_of p = p

-- After everybody has left the handler, the rest are served one at a time.
abbrev admitted : Phase → Phase
admitted arrived = served
admitted waiting = served
admitted p = p

admitted-released : (rs : List Phase) → map admitted (map released rs) ≡ map served_of rs
admitted-released [] = refl
admitted-released (arrived ∷ rs) = ap (λ xs. served ∷ xs) (admitted-released rs)
admitted-released (waiting ∷ rs) = ap (λ xs. served ∷ xs) (admitted-released rs)
admitted-released (running ∷ rs) = ap (λ xs. served ∷ xs) (admitted-released rs)
admitted-released (served ∷ rs) = ap (λ xs. served ∷ xs) (admitted-released rs)
admitted-released (refused ∷ rs) = ap (λ xs. refused ∷ xs) (admitted-released rs)
admitted-released (gone ∷ rs) = ap (λ xs. gone ∷ xs) (admitted-released rs)

module _ (limit : ℕ) where
  -- The steps of one request, then those of the requests behind it.
  pass :
      (f : Phase → Phase) (n m : ℕ) (pre : List Phase) (q : Phase) (post : List Phase) (s : Limiter)
      → Steps limit s (at n (pre ++ q ∷ post))
      → Steps limit (at n ((pre ++ q ∷ []) ++ post)) (at m ((pre ++ q ∷ []) ++ map f post))
      → Steps limit s (at m (pre ++ q ∷ map f post))
  pass f n m pre q post s h k =
      append_steps limit s (at n (pre ++ q ∷ post)) (at m (pre ++ q ∷ map f post)) h (
        subst (λ xs. Steps limit (at n xs) (at m (pre ++ q ∷ map f post)))
          (append_assoc pre (q ∷ []) post)
          (subst (λ ys. Steps limit (at n ((pre ++ q ∷ []) ++ post)) (at m ys))
            (append_assoc pre (q ∷ []) (map f post)) k))

  one_release :
      (n : ℕ) (pre post : List Phase)
      → Steps limit (at (suc n) (pre ++ running ∷ post)) (at n (pre ++ served ∷ post))
  unfolding moved
  one_release n pre post = step _ _ _ (release n pre post) (stay _)

  leave :
      (m n : ℕ) (pre post : List Phase)
      → m ≡ count is_running post + n
      → Steps limit (at m (pre ++ post)) (at n (pre ++ map released post))
  unfolding count is_running
  leave m n pre [] e =
      subst (λ x. Steps limit (at m (pre ++ [])) (at x (pre ++ []))) (omega (arith, e)) (stay _)
  leave m n pre (running ∷ post) e =
      subst
        (λ x. Steps limit (at x (pre ++ running ∷ post)) (at n (pre ++ served ∷ map released post)))
        (omega (arith, e))
        (pass released (count is_running post + n) n pre served post
          (at (suc (count is_running post + n)) (pre ++ running ∷ post))
          (one_release (count is_running post + n) pre post)
          (leave (count is_running post + n) n (pre ++ served ∷ []) post refl))
  leave m n pre (arrived ∷ post) e =
      pass released m n pre arrived post _ (stay _)
        (leave m n (pre ++ arrived ∷ []) post (omega (arith, e)))
  leave m n pre (waiting ∷ post) e =
      pass released m n pre waiting post _ (stay _)
        (leave m n (pre ++ waiting ∷ []) post (omega (arith, e)))
  leave m n pre (served ∷ post) e =
      pass released m n pre served post _ (stay _)
        (leave m n (pre ++ served ∷ []) post (omega (arith, e)))
  leave m n pre (refused ∷ post) e =
      pass released m n pre refused post _ (stay _)
        (leave m n (pre ++ refused ∷ []) post (omega (arith, e)))
  leave m n pre (gone ∷ post) e =
      pass released m n pre gone post _ (stay _)
        (leave m n (pre ++ gone ∷ []) post (omega (arith, e)))

  module _ (positive : 0 < limit) where
    enter :
        (pre post : List Phase) → Steps limit (at 0 (pre ++ post)) (at 0 (pre ++ map admitted post))
    unfolding moved
    enter pre [] = stay (at 0 (pre ++ []))
    enter pre (arrived ∷ post) =
        pass admitted 0 0 pre served post _
          (step _ _ _ (acquire 0 pre post (lt→ltb 0 limit positive))
            (step _ _ _ (release 0 pre post) (stay _)))
          (enter (pre ++ served ∷ []) post)
    enter pre (waiting ∷ post) =
        pass admitted 0 0 pre served post _
          (step _ _ _ (acquire_late 0 pre post (lt→ltb 0 limit positive))
            (step _ _ _ (release 0 pre post) (stay _)))
          (enter (pre ++ served ∷ []) post)
    enter pre (running ∷ post) =
        pass admitted 0 0 pre running post _ (stay _) (enter (pre ++ running ∷ []) post)
    enter pre (served ∷ post) =
        pass admitted 0 0 pre served post _ (stay _) (enter (pre ++ served ∷ []) post)
    enter pre (refused ∷ post) =
        pass admitted 0 0 pre refused post _ (stay _) (enter (pre ++ refused ∷ []) post)
    enter pre (gone ∷ post) =
        pass admitted 0 0 pre gone post _ (stay _) (enter (pre ++ gone ∷ []) post)

    -- For a positive limit, from every state that can be reached there are steps, none of them an
    -- arrival, after which the channel is empty and every request that was not yet refused or gone
    -- has been served: no slot is lost and nobody is stuck.
    pub Runs-served_of :
        (s : Limiter)
        → Runs limit s
        → Steps limit s (record { taken = 0; requests = map served_of s.requests })
    Runs-served_of s r =
        subst (λ rs. Steps limit s (at 0 rs)) (admitted-released s.requests)
          (append_steps limit s (at 0 (map released s.requests))
            (at 0 (map admitted (map released s.requests)))
            (leave s.taken 0 [] s.requests (omega (arith, (IsBounded-of limit s r).0)))
            (enter [] (map released s.requests)))
