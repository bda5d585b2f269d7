-- ===== src/App/Deploy/Steps.antt =====
-- The plan of `remote-init --apply`, and the part of it that needs the staging directory.
use contextq_server.Prelude.{
  ℕ, ◌≤◌, Bool, true, false, List, [], ◌∷◌, ◌++◌, none, if◌then◌else◌, take, Text, codes, same,
  arith,
}
use contextq_server.Target.Data.{Target, Config, Named}
use contextq_server.Remote.Shell.{shell_command}
use contextq_server.Remote.Ssh.{Call, admin_command, ssh_call, scp_call, uploaded, administered}
use contextq_server.App.{Surroundings, remote_error, pure, with_error}
use contextq_server.App.Ensures.{
  Runs, Ensures, Ensures-bind, Ensures-io, Ensures-lift, Ensures-pure, Did, Ensures-execute,
  Ensures-weaken,
}
use contextq_server.App.Keys.{
  issued_of, remote_admin, remote_namespace_init, remote_key_add, save_issued,
}
use contextq_server.App.Deploy.{
  InitFlags, stage_call, apply_call, applied, upload_file, label_of, issue_first, install,
}

-- the run of an administrative command
abbrev pub admin_call : Target → List Text → Call
admin_call t args = ssh_call t (shell_command (admin_command t args)) none

abbrev pub init_args : Target → List Text
init_args t =
    codes "namespace"
    ∷ codes "init"
    ∷ codes "--data-root"
    ∷ t.data_root
    ∷ codes "--json"
    ∷ t.namespace
    ∷ []

abbrev pub add_args : Target → Text → List Text
add_args t label =
    codes "key"
    ∷ codes "add"
    ∷ codes "--data-root"
    ∷ t.data_root
    ∷ codes "--label"
    ∷ label
    ∷ codes "--json"
    ∷ t.namespace
    ∷ []

module _ (s : Surroundings) (before : List Call) where
  remote_admin-Ensures :
      (xs : List Call) (t : Target) (args : List Text)
      → Ensures
          (Did before xs)
          (Did before (xs ++ admin_call t args ∷ []))
          (λ _. Did before (xs ++ admin_call t args ∷ []))
          (remote_admin s t args)
  unfolding remote_admin
  remote_admin-Ensures xs t args =
      Ensures-bind (Ensures-execute s.executor before xs (admin_call t args))
        λ r. Ensures-lift (with_error remote_error (administered r)) (λ c h. h)

  upload_file-Ensures :
      (xs : List Call) (t : Target) (local_path remote_path : Text)
      → Ensures
          (Did before xs)
          (Did before (xs ++ scp_call t local_path remote_path ∷ []))
          (λ _. Did before (xs ++ scp_call t local_path remote_path ∷ []))
          (upload_file s t local_path remote_path)
  unfolding upload_file
  upload_file-Ensures xs t local_path remote_path =
      Ensures-bind (Ensures-execute s.executor before xs (scp_call t local_path remote_path))
        λ r. Ensures-lift (with_error remote_error (uploaded r)) (λ c h. h)

  module _ (cfg : Config) (path : Text) (named : Named) (flags : InitFlags)
      (stage_dir script : Text) (t : Target) where
    abbrev pub label : Text
    label = label_of s cfg path named flags stage_dir script t

    -- the run that issues the first key, if the target has none
    abbrev pub issuing : Bool → List Call
    issuing true = admin_call t (add_args t label) ∷ []
    issuing false = []

    -- all the runs of a deployment, in their order, without the cleaning up
    abbrev pub plan_for : Bool → Text → Text → List Call
    plan_for no_key server contextq =
        ssh_call t (codes "uname -m") none
        ∷ stage_call t stage_dir
        ∷ scp_call t server (stage_dir ++ codes "/contextq-server")
        ∷ scp_call t contextq (stage_dir ++ codes "/contextq")
        ∷ apply_call t script
        ∷ admin_call t (init_args t)
        ∷ issuing no_key

    abbrev pub plan : Text → Text → List Call
    plan = plan_for (same named.target.key [])

    -- the first `n` runs of the plan, at least three of them
    abbrev pub Reached : Bool → Text → Text → Runs
    Reached no_key server contextq c =
        (n : ℕ) × (3 ≤ n) × Did before (take n (plan_for no_key server contextq)) c

    abbrev six : Text → Text → List Call
    six server contextq =
        ssh_call t (codes "uname -m") none
        ∷ stage_call t stage_dir
        ∷ scp_call t server (stage_dir ++ codes "/contextq-server")
        ∷ scp_call t contextq (stage_dir ++ codes "/contextq")
        ∷ apply_call t script
        ∷ admin_call t (init_args t)
        ∷ []

    last-Ensures :
        (no_key : Bool) (server contextq : Text)
        → Ensures
            (Did before (six server contextq))
            (Reached no_key server contextq)
            (λ _. Did before (plan_for no_key server contextq))
            (if no_key then issue_first s cfg path named flags stage_dir script t else pure tt)
    unfolding issue_first remote_key_add save_issued
    last-Ensures true server contextq =
        Ensures-bind {Q = λ _. Did before (plan_for true server contextq)}
          (Ensures-bind
            (Ensures-weaken (remote_admin-Ensures (six server contextq) t (add_args t label))
              (λ c h. h) (λ c h. (7, omega arith, h)) (λ _ c h. h))
            λ r. Ensures-lift (issued_of (s.decode_issued r.stdout)) (λ c h. (7, omega arith, h)))
          λ issued. Ensures-io _ _ (λ c h. (7, omega arith, h))
    last-Ensures false server contextq = Ensures-pure tt

    pub install-Ensures :
        (server contextq : Text)
        → Ensures
            (Did before (ssh_call t (codes "uname -m") none ∷ stage_call t stage_dir ∷ []))
            (Reached (same named.target.key []) server contextq)
            (λ _. Did before (plan server contextq))
            (install s cfg path named flags stage_dir script t server contextq)
    unfolding install remote_namespace_init
    install-Ensures server contextq =
        Ensures-bind
          (Ensures-weaken (upload_file-Ensures _ t server (stage_dir ++ codes "/contextq-server"))
            (λ c h. h) (λ c h. (3, omega arith, h)) (λ _ c h. h))
          λ _.
            Ensures-bind
              (Ensures-weaken (upload_file-Ensures _ t contextq (stage_dir ++ codes "/contextq"))
                (λ c h. h) (λ c h. (4, omega arith, h)) (λ _ c h. h))
              λ _. Ensures-bind (Ensures-execute s.executor before _ (apply_call t script)) λ r.
                Ensures-bind (Ensures-lift (applied r) (λ c h. (5, omega arith, h))) λ _.
                  Ensures-bind
                    (Ensures-weaken (remote_admin-Ensures _ t (init_args t)) (λ c h. h)
                      (λ c h. (6, omega arith, h)) (λ _ c h. h))
                    λ _. last-Ensures (same named.target.key []) server contextq
