-- ===== src/Os/Lock.antt =====
-- What holds after an action under a file lock.
use contextq_server.Prelude.{◌≡◌, some, ap}
use contextq_server.Os.{FilePath, Files, Io, with_lock, put, created, syscall}
use contextq_server.Os.Ends.{Ends, Ends-bind, Ends-syscall, Ends-update, Ends-finally}

-- The files once the lock file is there.
abbrev pub locked : FilePath → Files → Files
locked path old = put path (some (created (old path))) old

module _ {A : Type 0} {E : Files → Type 0} {R : A → Files → Type 0} (path : FilePath)
    (old : Files) where
  pub with_lock-Ends :
      (fn : Io A)
      → E old
      → E (locked path old)
      → Ends (λ fs. fs ≡ locked path old) E R fn
      → Ends (λ fs. fs ≡ old) E R (with_lock path fn)
  unfolding with_lock
  with_lock-Ends fn e el h = Ends-bind {Q = λ _ fs. fs ≡ old} (Ends-syscall (λ fs q. rw q e)) λ _.
      Ends-bind {Q = λ _ fs. fs ≡ locked path old} (Ends-update _ (λ fs q. ap (locked path) q)) λ _.
        Ends-finally syscall
          (Ends-bind {Q = λ _ fs. fs ≡ locked path old} (Ends-syscall (λ fs q. rw q el))
            λ _. Ends-finally syscall h (λ w x. x) (λ a w x. x))
          (λ w x. x) (λ a w x. x)
