-- ===== src/Remote/Ssh/Arguments.antt =====
-- What an administrative command is for the shell on the server's host.
use contextq_server.Prelude.{
  ◌≡◌, sym, false, List, [], ◌∷◌, ◌++◌, some, none, ok, Text, codes, Bool-cases, inl, inr,
}
use contextq_server.Remote.Shell.{shell_command}
use contextq_server.Remote.Shell.Words.{sh_words, sh_words-shell_command}
use contextq_server.Target.Data.{Target}
use contextq_server.Remote.Ssh.{
  Executor, Outcome, ssh_args, admin_command, run_ssh, run_remote_admin,
}

module _ (executor : Executor) (t : Target) (args : List Text) where
  -- The outcome of an ssh run whose last argument is a command of these words.
  pub record Administered (r : Outcome) : Type 0 where
    pub command : Text
    pub ran : r ≡ executor (codes "ssh") (ssh_args t ++ command ∷ []) none
    pub words :
        sh_words command
        ≡ some (codes "runuser" ∷ codes "-u" ∷ t.service_user ∷ codes "--" ∷ t.remote_bin ∷ args)
    pub no_failure : r.failed ≡ false

  -- An administrative run that returns no error is one run of ssh whose command a POSIX shell reads
  -- as `runuser -u`, the service user, `--`, the server's binary and the given arguments, word for
  -- word.
  pub run_remote_admin-words :
      (r : Outcome) → run_remote_admin executor t args ≡ ok r → Administered r
  unfolding run_remote_admin run_ssh admin_command
  run_remote_admin-words r h =
      elim (Bool-cases
        (executor (codes "ssh") (ssh_args t ++ shell_command (admin_command t args) ∷ [])
          none).failed) [
            | inl e ↦ cc (rw e at h)
            | inr e ↦
                let same_run : executor (codes "ssh")
                      (ssh_args t ++ shell_command (admin_command t args) ∷ []) none
                    ≡ r =
                  cc (rw e at h) in
                record {
                  command = shell_command (admin_command t args);
                  ran = sym same_run;
                  words = sh_words-shell_command (admin_command t args);
                  no_failure = rw same_run at e;
                }
          ]
