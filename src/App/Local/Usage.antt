-- ===== src/App/Local/Usage.antt =====
-- What a usage error of `namespace` and `key` leaves behind.
use contextq_server.Prelude.{
  ◌≡◌, ◌≢◌, arith, refl, Bool, true, false, List, [], ◌∷◌, Option, if◌then◌else◌, Result, ok, err,
  Text, codes, same,
}
use contextq_server.Errors.{Error}
use contextq_server.Os.{World, Io}
use contextq_server.Namespace.Store.{Platform}
use contextq_server.Namespace.Roster.{DirEntry}
use contextq_server.Target.File.{Env}
use contextq_server.App.{
  AppError, State, App, usage, os_error, pure, lift, raise, continue, ◌>>=◌, with_error, io,
}
use contextq_server.App.Local.{
  Flags, Printed, LocalCommand, on_namespaces, on_keys, exit_code, run_local, opened,
  namespace_init, namespace_list, run_namespace, key_add, key_list, key_revoke, run_key,
}

-- The action has done nothing where it returns a usage error.
record UsageKeeps {A : Type 0} (m : App A) : Type 0 where
  kept : (s : State) → (m s).0 ≡ err usage → (m s).1 ≡ s

continue_io :
    {A B : Type 0} (r : Result Error A) (f : A → B) (s : State)
    → (continue (with_error os_error r) (λ a. pure (f a)) s).0 ≢ err usage
continue_io (ok a) f s h = cc
continue_io (err e) f s h = cc

exit_code_inv : {A : Type 0} (r : Result AppError A) → exit_code r ≡ 2 → r ≡ err usage
unfolding exit_code
exit_code_inv (err usage) h = refl
exit_code_inv (ok a) h = absurd (omega arith)
exit_code_inv (err e) h = absurd (omega arith)

lift_keeps :
    {A B : Type 0} (r : Result AppError A) (f : A → App B) (s : State)
    → ((a : A) → UsageKeeps (f a))
    → (continue r f s).0 ≡ err usage
    → (continue r f s).1 ≡ s
lift_keeps (ok a) f s k h = (k a).kept s h
lift_keeps (err e) f s k h = refl

module _ {A B : Type 0} where
  UsageKeeps-io : (m : Io A) (f : A → B) → UsageKeeps (io os_error m >>= λ a. pure (f a))
  UsageKeeps-io m f = record {
    kept = λ s h. absurd (continue_io (m s.world).0 f (io os_error m s).1 h);
  }

  UsageKeeps-lift :
      (r : Result AppError A) (f : A → App B)
      → ((a : A) → UsageKeeps (f a))
      → UsageKeeps (lift r >>= f)
  UsageKeeps-lift r f k = record { kept = λ s h. lift_keeps r f s k h }

module _ {A : Type 0} where
  UsageKeeps-if :
      (b : Bool) (m n : App A) → UsageKeeps m → UsageKeeps n → UsageKeeps (if b then m else n)
  UsageKeeps-if true m n h k = h
  UsageKeeps-if false m n h k = k

  UsageKeeps-raise : (e : AppError) → UsageKeeps {A = A} (raise e)
  UsageKeeps-raise e = record { kept = λ s h. refl }

module _ (p : Platform) (read_dir : Text → World → Result Error (List DirEntry)) (env : Env)
    (value : Text) (parse : Text → List Text → Option Flags) where
  UsageKeeps-opened :
      (f : Flags) (m : Text → App Printed)
      → ((root : Text) → UsageKeeps (m root))
      → UsageKeeps (opened p read_dir env value parse f >>= m)
  unfolding opened
  UsageKeeps-opened f m k = UsageKeeps-lift _ m k

  run_local-UsageKeeps :
      (command : LocalCommand) (args : List Text)
      → UsageKeeps (run_local p read_dir env value parse command args)
  unfolding run_local run_namespace run_key namespace_init namespace_list key_add key_list
      key_revoke
  run_local-UsageKeeps on_namespaces [] = UsageKeeps-raise usage
  run_local-UsageKeeps on_keys [] = UsageKeeps-raise usage
  run_local-UsageKeeps on_namespaces (verb ∷ args) =
      UsageKeeps-if (same verb (codes "init")) _ _
        (UsageKeeps-lift _ _ λ f. UsageKeeps-opened f _ λ root. UsageKeeps-io _ _)
        (UsageKeeps-if (same verb (codes "list")) _ _
          (UsageKeeps-lift _ _ λ f. UsageKeeps-opened f _ λ root. UsageKeeps-io _ _)
          (UsageKeeps-raise usage))
  run_local-UsageKeeps on_keys (verb ∷ args) =
      UsageKeeps-if (same verb (codes "add")) _ _
        (UsageKeeps-lift _ _ λ f.
          UsageKeeps-if (same f.label []) _ _ (UsageKeeps-raise usage)
            (UsageKeeps-opened f _ λ root. UsageKeeps-io _ _))
        (UsageKeeps-if (same verb (codes "list")) _ _
          (UsageKeeps-lift _ _ λ f. UsageKeeps-opened f _ λ root. UsageKeeps-io _ _)
          (UsageKeeps-if (same verb (codes "revoke")) _ _
            (UsageKeeps-lift _ _ λ f. UsageKeeps-opened f _ λ root. UsageKeeps-io _ _)
            (UsageKeeps-raise usage)))

  -- Where `namespace` or `key` ends with the exit code 2 of a usage error, nothing was done: no file
  -- has changed, and no system call was made.
  pub run_local-usage :
      (command : LocalCommand) (args : List Text) (s : State)
      → exit_code (run_local p read_dir env value parse command args s).0 ≡ 2
      → (run_local p read_dir env value parse command args s).1 ≡ s
  run_local-usage command args s h =
      (run_local-UsageKeeps command args).kept s
        (exit_code_inv (run_local p read_dir env value parse command args s).0 h)
