-- ===== src/App/Ensures.antt =====
-- What an action does to the runs of programs, whichever of its steps fails.
use contextq_server.Prelude.{◌≡◌, ap, List, [], ◌∷◌, ◌++◌, Result, ok, err, append_assoc, ◌∙◌}
use contextq_server.Errors.{Error}
use contextq_server.Os.{Io}
use contextq_server.Remote.Ssh.{Call, Executor}
use contextq_server.App.{
  AppError, State, App, pure, lift, continue, ◌>>=◌, finally, with_error, io, execute,
}

abbrev pub Runs : Type 1
Runs = List Call → Type 0

abbrev pub After : {A : Type 0} → Runs → (A → Runs) → Result AppError A → Runs
After E R (ok a) c = R a c
After E R (err e) c = E c

-- From runs in `P`, the action ends in `E` with an error, or in `R` with its result.
pub record Ensures {A : Type 0} (P E : Runs) (R : A → Runs) (m : App A) : Type 0 where
  pub run : (s : State) → P s.calls → After E R (m s).0 (m s).1.calls

After-continue :
    {A B : Type 0} (E : Runs) (Q : A → Runs) (R : B → Runs) (r : Result AppError A) (f : A → App B)
    (s : State)
    → After E Q r s.calls
    → ((a : A) → Ensures (Q a) E R (f a))
    → After E R (continue r f s).0 (continue r f s).1.calls
After-continue E Q R (ok a) f s h k = (k a).run s h
After-continue E Q R (err e) f s h k = h

After-error :
    {D A : Type 0} (P E : Runs) (f : D → AppError) (r : Result D A) (c : List Call)
    → P c
    → E c
    → After E (λ _. P) (with_error f r) c
After-error P E f (ok a) c p e = p
After-error P E f (err d) c p e = e

After-lift :
    {A : Type 0} (P E : Runs) (r : Result AppError A) (c : List Call)
    → P c
    → E c
    → After E (λ _. P) r c
After-lift P E (ok a) c p e = p
After-lift P E (err d) c p e = e

After-finally :
    {A B : Type 0} (E E' : Runs) (R R' : A → Runs) (r : Result AppError A) (after : App B)
    (s : State)
    → After E R r s.calls
    → ((s : State) → E s.calls → E' (after s).1.calls)
    → ((a : A) (s : State) → R a s.calls → R' a (after s).1.calls)
    → After E' R' r (after s).1.calls
After-finally E E' R R' (ok a) after s h ke kr = kr a s h
After-finally E E' R R' (err e) after s h ke kr = ke s h

After-weaken :
    {A : Type 0} (E E' : Runs) (R R' : A → Runs) (r : Result AppError A) (c : List Call)
    → After E R r c
    → ((c : List Call) → E c → E' c)
    → ((a : A) (c : List Call) → R a c → R' a c)
    → After E' R' r c
After-weaken E E' R R' (ok a) c h ke kr = kr a c h
After-weaken E E' R R' (err e) c h ke kr = ke c h

module _ {A B : Type 0} {P E : Runs} {Q : A → Runs} {R : B → Runs} where
  pub Ensures-bind :
      {m : App A} {f : A → App B}
      → Ensures P E Q m
      → ((a : A) → Ensures (Q a) E R (f a))
      → Ensures P E R (m >>= f)
  Ensures-bind {m} {f} h k = record {
    run = λ s p. After-continue E Q R (m s).0 f (m s).1 (h.run s p) k;
  }

module _ {A : Type 0} {P E : Runs} where
  -- a step that runs no program
  pub Ensures-io :
      (f : Error → AppError) (m : Io A)
      → ((c : List Call) → P c → E c)
      → Ensures P E (λ _. P) (io f m)
  Ensures-io f m h = record { run = λ s p. After-error P E f (m s.world).0 s.calls p (h s.calls p) }

  pub Ensures-lift :
      (r : Result AppError A) → ((c : List Call) → P c → E c) → Ensures P E (λ _. P) (lift r)
  Ensures-lift r h = record { run = λ s p. After-lift P E r s.calls p (h s.calls p) }

  pub Ensures-pure : (a : A) → Ensures P E (λ _. P) (pure a)
  Ensures-pure a = record { run = λ s p. p }

-- exactly these runs behind those of `before`
abbrev pub Did : List Call → List Call → Runs
Did before xs c = c ≡ before ++ xs

pub Ensures-execute :
    {E : Runs} (executor : List Call → Executor) (before xs : List Call) (c : Call)
    → Ensures (Did before xs) E (λ _. Did before (xs ++ c ∷ [])) (execute executor c)
Ensures-execute executor before xs c = record {
  run = λ s h. ap (λ l. l ++ c ∷ []) h ∙ append_assoc before xs (c ∷ []);
}

module _ {A B : Type 0} {P E E' : Runs} {R R' : A → Runs} where
  pub Ensures-finally :
      {m : App A} (after : App B)
      → Ensures P E R m
      → ((s : State) → E s.calls → E' (after s).1.calls)
      → ((a : A) (s : State) → R a s.calls → R' a (after s).1.calls)
      → Ensures P E' R' (finally m after)
  Ensures-finally {m} after h ke kr = record {
    run = λ s p. After-finally E E' R R' (m s).0 after (m s).1 (h.run s p) ke kr;
  }

module _ {A : Type 0} {P P' E E' : Runs} {R R' : A → Runs} where
  pub Ensures-weaken :
      {m : App A}
      → Ensures P E R m
      → ((c : List Call) → P' c → P c)
      → ((c : List Call) → E c → E' c)
      → ((a : A) (c : List Call) → R a c → R' a c)
      → Ensures P' E' R' m
  Ensures-weaken {m} h kp ke kr = record {
    run = λ s p. After-weaken E E' R R' (m s).0 (m s).1.calls (h.run s (kp s.calls p)) ke kr;
  }

-- a fact that holds before the action
pub Ensures-given :
    {A G : Type 0} {P E : Runs} {R : A → Runs} {m : App A}
    → (G → Ensures P E R m)
    → Ensures (λ c. G × P c) E R m
Ensures-given h = record { run = λ s p. (h p.0).run s p.1 }
