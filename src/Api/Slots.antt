-- ===== src/Api/Slots.antt =====
-- The semaphore of Server in internal/api/server.go, which requests that are served at the same time
-- share. Any request may take the next step.
pub mod Bounded
use contextq_server.Prelude.{ℕ, zero, suc, ◌<◌, ◌≡◌, ℤ, pos, negsuc, List, [], ◌∷◌, ◌++◌}

-- NewServer: MaxConcurrent, if it is positive
unfoldable pub max_concurrent : ℤ → ℕ
max_concurrent (pos zero) = 32
max_concurrent (pos (suc n)) = suc n
max_concurrent (negsuc n) = 32

-- where a request is: at the `select`, behind it with a slot, or at its return
pub data Stage : Type 0 where
  waiting running answered : Stage

-- `held` is the number of values in the channel, `capacity` what make was given.
pub record Pool : Type 0 where
  pub held : ℕ
  pub capacity : ℕ
  pub requests : List Stage

abbrev pub new_pool : ℤ → Pool
new_pool n = record { held = 0; capacity = max_concurrent n; requests = [] }

-- A request reaches the `select`; a send to a channel that is not full takes a slot; the context ends
-- first; the deferred receive gives the slot back, for which there must be a value in the channel.
pub data Step (s t : Pool) : Type 0 where
  arrive : t ≡ record s { requests = waiting ∷ s.requests } → Step s t
  acquire :
      (before after : List Stage)
      → s.requests ≡ before ++ waiting ∷ after
      → s.held < s.capacity
      → t ≡ record s { held = suc s.held; requests = before ++ running ∷ after }
      → Step s t
  give_up :
      (before after : List Stage)
      → s.requests ≡ before ++ waiting ∷ after
      → t ≡ record s { requests = before ++ answered ∷ after }
      → Step s t
  release :
      (before after : List Stage) (n : ℕ)
      → s.requests ≡ before ++ running ∷ after
      → s.held ≡ suc n
      → t ≡ record s { held = n; requests = before ++ answered ∷ after }
      → Step s t

-- the pools that a server of this option comes to
pub data Reachable (n : ℤ) : Pool → Type 0 where
  start : Reachable n (new_pool n)
  next : {s t : Pool} → Reachable n s → Step s t → Reachable n t
