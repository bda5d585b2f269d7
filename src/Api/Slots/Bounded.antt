-- ===== src/Api/Slots/Bounded.antt =====
-- How many requests run at once, and that a waiting request never waits for nothing.
use contextq_server.Prelude.{
  ℕ, zero, suc, ◌+◌, ◌≤◌, ◌≡◌, ◌⊎◌, refl, sym, ◌∙◌, ap, inl, inr, ℤ, pos, negsuc, List, [], ◌∷◌,
  ◌++◌, arith,
}
use contextq_server.Api.Slots.{
  max_concurrent, Stage, waiting, running, answered, Pool, Step, arrive, acquire, give_up, release,
  Reachable, start, next,
}

abbrev pub is_running : Stage → ℕ
is_running waiting = 0
is_running running = 1
is_running answered = 0

-- the number of requests that run
abbrev pub running_in : List Stage → ℕ
running_in [] = 0
running_in (s ∷ ss) = is_running s + running_in ss

running_in-append : (xs ys : List Stage) → running_in (xs ++ ys) ≡ running_in xs + running_in ys
running_in-append [] ys = omega arith
running_in-append (x ∷ xs) ys = omega (arith, running_in-append xs ys)

-- The semaphore holds one value for each request that runs, and not more than its capacity.
pub record Balanced (s : Pool) : Type 0 where
  pub one_each : s.held ≡ running_in s.requests
  pub not_more : s.held ≤ s.capacity

max_concurrent-positive : (n : ℤ) → 1 ≤ max_concurrent n
unfolding max_concurrent
max_concurrent-positive (pos zero) = omega arith
max_concurrent-positive (pos (suc n)) = omega arith
max_concurrent-positive (negsuc n) = omega arith

change :
    (x y : Stage) (before after ss : List Stage)
    → ss ≡ before ++ x ∷ after
    → running_in (before ++ y ∷ after) + is_running x ≡ running_in ss + is_running y
change x y before after ss e =
    rw e (omega (arith, running_in-append before (x ∷ after), running_in-append before (y ∷ after)))

Step-Balanced : (s t : Pool) → Balanced s → Step s t → Balanced t
Step-Balanced s t b (arrive e) =
    rw e (record { one_each = omega (arith, b.one_each); not_more = b.not_more })
Step-Balanced s t b (acquire before after q room e) = rw e (record {
  one_each = omega (arith, change waiting running before after s.requests q, b.one_each);
  not_more = omega (arith, room);
})
Step-Balanced s t b (give_up before after q e) = rw e (record {
  one_each = omega (arith, change waiting answered before after s.requests q, b.one_each);
  not_more = b.not_more;
})
Step-Balanced s t b (release before after n q h e) = rw e (record {
  one_each = omega (arith, change running answered before after s.requests q, b.one_each, h);
  not_more = omega (arith, h, b.not_more);
})

Step-capacity : (s t : Pool) → Step s t → t.capacity ≡ s.capacity
Step-capacity s t (arrive e) = ap (λ (p : Pool). p.capacity) e
Step-capacity s t (acquire before after q room e) = ap (λ (p : Pool). p.capacity) e
Step-capacity s t (give_up before after q e) = ap (λ (p : Pool). p.capacity) e
Step-capacity s t (release before after n q h e) = ap (λ (p : Pool). p.capacity) e

-- In every state that a server comes to, whatever the order of the requests' steps, the semaphore
-- holds one value for each request that runs contextq, and at most MaxConcurrent requests run, or 32
-- if that is not positive.
pub Reachable-Balanced :
    (n : ℤ) {s : Pool} → Reachable n s → Balanced s × (s.capacity ≡ max_concurrent n)
Reachable-Balanced n start = (record { one_each = refl; not_more = omega arith }, refl)
Reachable-Balanced n (next r st) =
    let q = Reachable-Balanced n r in (Step-Balanced _ _ q.0 st, Step-capacity _ _ st ∙ q.1)

-- the first request that runs, if one does
find_running :
    (ss : List Stage) (n : ℕ)
    → running_in ss ≡ suc n
    → (before : List Stage) × (after : List Stage) × (ss ≡ before ++ running ∷ after)
find_running [] n h = absurd (omega arith)
find_running (running ∷ ss) n h = ([], ss, refl)
find_running (waiting ∷ ss) n h =
    let q = find_running ss n (omega (arith, h)) in
    (waiting ∷ q.0, q.1, ap (λ x. waiting ∷ x) (q.2))
find_running (answered ∷ ss) n h =
    let q = find_running ss n (omega (arith, h)) in
    (answered ∷ q.0, q.1, ap (λ x. answered ∷ x) (q.2))

-- A waiting request is never stuck: in every state that a server comes to, it can take a slot, or a
-- request that runs can give one back.
pub Reachable-progress :
    (n : ℤ) (s : Pool) (before after : List Stage)
    → Reachable n s
    → s.requests ≡ before ++ waiting ∷ after
    → Step s (record s { held = suc s.held; requests = before ++ running ∷ after })
      ⊎ ((b : List Stage) × (a : List Stage) × (k : ℕ) × (s.requests ≡ b ++ running ∷ a)
          × Step s (record s { held = k; requests = b ++ answered ∷ a }))
Reachable-progress n s before after r q =
    let b = Reachable-Balanced n r in go s.held refl b.0.one_each b.1
  where
    go :
        (h : ℕ)
        → s.held ≡ h
        → s.held ≡ running_in s.requests
        → s.capacity ≡ max_concurrent n
        → Step s (record s { held = suc s.held; requests = before ++ running ∷ after })
          ⊎ ((b : List Stage) × (a : List Stage) × (k : ℕ) × (s.requests ≡ b ++ running ∷ a)
              × Step s (record s { held = k; requests = b ++ answered ∷ a }))
    go zero e c m =
        inl (acquire before after q (omega (arith, max_concurrent-positive n, e, m)) refl)
    go (suc k) e c m =
        let f = find_running s.requests k (sym c ∙ e) in
        inr (f.0, f.1, k, f.2, release f.0 f.1 k (f.2) e refl)
