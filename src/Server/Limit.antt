-- ===== src/Server/Limit.antt =====
-- internal/server/limit.go: the semaphore in front of the routes that hash passwords, for a
-- positive limit; with another one nothing is put in front.
pub mod Bound
pub mod Progress
pub mod Replies
use wavelen.Prelude.{ℕ, suc, ◌-◌, ◌≤◌, Bool, true, false, List, [], ◌∷◌, ◌++◌, ltb, count, ◌≡◌}

-- Where a request is: before `acquire`, in its second `select`, in the handler, or done: served,
-- refused with 429, or left alone because the client hung up.
pub data Phase : Type 0 where
  arrived waiting running served refused gone : Phase

-- The channel holds `taken` of its `limit` items.
pub record Limiter : Type 0 where
  pub taken : ℕ
  pub requests : List Phase

abbrev pub idle : Limiter
idle = record { taken = 0; requests = [] }

-- One request moves from a phase to another.
unfoldable pub moved : ℕ → List Phase → Phase → List Phase → Limiter
moved taken pre p post = record { taken = taken; requests = pre ++ p ∷ post }

-- What can happen next. A send succeeds while the channel is not full; the two `select`s, the end
-- of the waiting time, the end of the request's context, and the deferred receive.
pub data Step (limit : ℕ) : Limiter → Limiter → Type 0 where
  arrive :
      (n : ℕ) (rs : List Phase)
      → Step limit
          (record { taken = n; requests = rs })
          (record { taken = n; requests = rs ++ arrived ∷ [] })
  acquire :
      (n : ℕ) (pre post : List Phase)
      → ltb n limit ≡ true
      → Step limit (moved n pre arrived post) (moved (suc n) pre running post)
  wait :
      (n : ℕ) (pre post : List Phase)
      → ltb n limit ≡ false
      → Step limit (moved n pre arrived post) (moved n pre waiting post)
  acquire_late :
      (n : ℕ) (pre post : List Phase)
      → ltb n limit ≡ true
      → Step limit (moved n pre waiting post) (moved (suc n) pre running post)
  time_out :
      (n : ℕ) (pre post : List Phase)
      → Step limit (moved n pre waiting post) (moved n pre refused post)
  hang_up :
      (n : ℕ) (pre post : List Phase)
      → Step limit (moved n pre waiting post) (moved n pre gone post)
  release :
      (n : ℕ) (pre post : List Phase)
      → Step limit (moved (suc n) pre running post) (moved n pre served post)

-- From the start of the server on. There is a semaphore for a positive limit only.
pub data Runs (limit : ℕ) : Limiter → Type 0 where
  start : 1 ≤ limit → Runs limit idle
  then_ : (s t : Limiter) → Runs limit s → Step limit s t → Runs limit t
