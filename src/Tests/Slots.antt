-- ===== src/Tests/Slots.antt =====
-- Two requests at a server that runs one at a time.
use contextq_server.Prelude.{ℕ, ◌≡◌, ◌⊎◌, refl, pos, List, [], ◌∷◌, ◌++◌, arith}
use contextq_server.Api.Slots.{
  max_concurrent, Stage, waiting, running, answered, Pool, Step, arrive, acquire, Reachable, start,
  next,
}
use contextq_server.Api.Slots.Bounded.{Balanced, Reachable-Balanced, Reachable-progress}

abbrev full : Pool
full = record { held = 1; capacity = max_concurrent (pos 1); requests = waiting ∷ running ∷ [] }

one_slot : max_concurrent (pos 1) ≡ 1
unfolding max_concurrent
one_slot = refl

reach_full : Reachable (pos 1) full
reach_full =
    next (next (next start (arrive refl)) (acquire [] [] refl (omega (arith, one_slot)) refl))
      (arrive refl)

Reachable-Balanced_example : Balanced full × (max_concurrent (pos 1) ≡ max_concurrent (pos 1))
Reachable-Balanced_example = Reachable-Balanced (pos 1) reach_full

Reachable-progress_example :
    Step full (record full { held = 2; requests = running ∷ running ∷ [] })
    ⊎ ((b : List Stage) × (a : List Stage) × (k : ℕ) × (waiting ∷ running ∷ [] ≡ b ++ running ∷ a)
        × Step full (record full { held = k; requests = b ++ answered ∷ a }))
Reachable-progress_example = Reachable-progress (pos 1) full [] (running ∷ []) reach_full refl
