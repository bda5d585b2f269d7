-- ===== src/App/Deploy/Order.antt =====
-- Which programs `remote-init --apply` runs, and in which order.
use contextq_server.Prelude.{
  ℕ, ◌≤◌, ◌≡◌, refl, sym, ◌∙◌, ap, ◌⊎◌, inl, inr, List, [], ◌∷◌, ◌++◌, none, if◌then◌else◌, ltb,
  take, Text, codes, same, arith, append_assoc, append-nil,
}
use contextq_server.Os.{syscall}
use contextq_server.Paths.{join_path}
use contextq_server.Target.Data.{Target, Config, Named}
use contextq_server.Remote.Binary.{detected}
use contextq_server.Remote.Ssh.{Call, ssh_call, close_call}
use contextq_server.App.{Surroundings, State, os_error, remote_error, finally, with_error, execute}
use contextq_server.App.Ensures.{
  Runs, Ensures, Ensures-bind, Ensures-io, Ensures-lift, Did, Ensures-execute, Ensures-given,
  Ensures-finally,
}
use contextq_server.App.Binaries.{resolve_bootstrap_binaries}
use contextq_server.App.Deploy.Steps.{plan, Reached, install-Ensures}
use contextq_server.App.Deploy.{
  InitFlags, stage_call, unstage_call, staged, new_session, end_session, with_session, deploy,
}

module _ (s : Surroundings) (before : List Call) where
  module _ (cfg : Config) (path : Text) (named : Named) (flags : InitFlags)
      (stage_dir script : Text) (t : Target) where
    -- the plan of this deployment
    abbrev planned : Text → Text → List Call
    planned = plan s before cfg path named flags stage_dir script t

    -- the removal of the staging directory, once there is one
    abbrev pub cleanup : ℕ → List Call
    cleanup n = if ltb 2 n then unstage_call t stage_dir ∷ [] else []

    cleanup-staged : (n : ℕ) → 3 ≤ n → cleanup n ≡ unstage_call t stage_dir ∷ []
    cleanup-staged n h = ground arith

    -- the first `n` runs of the plan, and the cleaning up that they need
    abbrev Cleaned : Runs
    Cleaned c =
        (server : Text) × (contextq : Text) × (n : ℕ) × Did before
          (take n (planned server contextq) ++ cleanup n) c

    abbrev Installed : Runs
    Installed c =
        (server : Text) × (contextq : Text) × Did before
          (planned server contextq ++ unstage_call t stage_dir ∷ []) c

    did_then : (xs ys c : List Call) → Did before xs c → Did before (xs ++ ys) (c ++ ys)
    did_then xs ys c h = ap (λ l. l ++ ys) h ∙ append_assoc before xs ys

    cleaned :
        (server contextq : Text) (c : List Call)
        → Reached s before cfg path named flags stage_dir script t
            (same named.target.key [])
            server
            contextq
            c
        → Cleaned (c ++ unstage_call t stage_dir ∷ [])
    cleaned server contextq c (n, low, h) = (
      server,
      contextq,
      n,
      rw (cleanup-staged n low)
          (did_then (take n (planned server contextq)) (unstage_call t stage_dir ∷ []) c h),
    )

    with_session-Ensures :
        Ensures
          (Did before [])
          Cleaned
          (λ _. Installed)
          (with_session s cfg path named flags stage_dir script t)
    unfolding with_session
    with_session-Ensures =
        Ensures-bind (Ensures-execute s.executor before [] (ssh_call t (codes "uname -m") none))
          λ answer.
            Ensures-bind
              (Ensures-lift (with_error remote_error (detected answer)) (λ c h. ([], [], 1, h)))
              λ arch.
                Ensures-bind
                  (Ensures-lift
                    (resolve_bootstrap_binaries s arch flags.server_binary flags.contextq_binary)
                    (λ c h. ([], [], 1, h)))
                  λ b.
                    Ensures-bind (Ensures-execute s.executor before _ (stage_call t stage_dir)) λ r.
                      Ensures-bind (Ensures-lift (staged r) (λ c h. ([], [], 2, h))) λ _.
                        Ensures-finally (execute s.executor (unstage_call t stage_dir))
                          (install-Ensures s before cfg path named flags stage_dir script t b.0 b.1)
                          (λ st h. cleaned b.0 b.1 st.calls h)
                          (λ _ st h. (
                            b.0,
                            b.1,
                            did_then (planned b.0 b.1) (unstage_call t stage_dir ∷ []) st.calls h,
                          ))

  module _ (cfg : Config) (path : Text) (named : Named) (flags : InitFlags)
      (stage_dir script : Text) where
    -- the target of the session
    abbrev pub session_target : Target
    session_target = record named.target {
      control_path = join_path s.control_dir (codes "control");
    }

    abbrev pub steps : Text → Text → List Call
    steps = plan s before cfg path named flags stage_dir script session_target

    -- what a deployment may have run when it stops: nothing, or the first runs of the plan, then the
    -- removal of the staging directory if it was made, then the end of the session
    abbrev pub Stopped : Runs
    Stopped c =
        (c ≡ before)
        ⊎ ((server : Text) × (contextq : Text) × (n : ℕ) × Did before
              (take n (steps server contextq)
                ++ cleanup cfg path named flags stage_dir script session_target n
                ++ close_call session_target ∷ [])
              c)

    -- the whole plan, and the cleaning up
    abbrev pub Completed : Runs
    Completed c =
        (server : Text) × (contextq : Text) × Did before
          (steps server contextq
            ++ unstage_call session_target stage_dir ∷ []
            ++ close_call session_target ∷ [])
          c

    new_session-Ensures :
        Ensures
          (λ c. c ≡ before)
          Stopped
          (λ t c. (t ≡ session_target) × Did before [] c)
          (new_session s named.target)
    unfolding new_session
    new_session-Ensures =
        Ensures-bind (Ensures-io os_error syscall (λ c h. inl h))
          λ _. record { run = λ st h. (refl, h ∙ sym (append-nil before)) }

    ended :
        (xs : List Call) (st : State)
        → Did before xs st.calls
        → Did before
            (xs ++ close_call session_target ∷ [])
            (end_session s session_target st).1.calls
    unfolding end_session
    ended xs st h =
        ap (λ l. l ++ close_call session_target ∷ []) h
        ∙ append_assoc before xs (close_call session_target ∷ [])

    in_session-Ensures :
        Ensures
          (Did before [])
          Stopped
          (λ _. Completed)
          (finally
            (with_session s cfg path named flags stage_dir script session_target)
            (end_session s session_target))
    in_session-Ensures =
        Ensures-finally (end_session s session_target)
          (with_session-Ensures cfg path named flags stage_dir script session_target)
          (λ st h. inr (h.0, h.1, h.2, ended _ st h.3)) (λ _ st h. (h.0, h.1, ended _ st h.2))

    -- Whichever step fails, `remote-init --apply` runs the steps of the plan in their order, from the
    -- first on and none twice: it detects the architecture, makes the staging directory, uploads the
    -- two binaries, applies the script, initializes the namespace, and issues a key if the target has
    -- none. However it ends, it removes the staging directory if it ran
    -- anything behind making it, and ends the
    -- session. It returns without an error only if it has run them all.
    pub deploy-Ensures :
        Ensures
          (λ c. c ≡ before)
          Stopped
          (λ _. Completed)
          (deploy s cfg path named flags stage_dir script)
    unfolding deploy
    deploy-Ensures =
        Ensures-bind new_session-Ensures
          λ t. Ensures-given {G = t ≡ session_target} λ e. rw e in_session-Ensures
