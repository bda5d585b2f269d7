-- ===== src/App/Deploy.antt =====
-- `remote-init` of internal/app/remote.go, behind the flags: runRemoteInit, randomStageDir, and
-- NewSession of internal/remote/session.go.

pub mod Steps
pub mod Order
use contextq_server.Prelude.{
  ◌≡◌, Bool, true, false, List, [], ◌∷◌, ◌++◌, Option, none, some, if◌then◌else◌, Result, ok, err,
  Text, Bytes, codes, same,
}
use contextq_server.Errors.{Error}
use contextq_server.Strings.{utf8}
use contextq_server.Encoding.{hex_encode}
use contextq_server.Paths.{join_path}
use contextq_server.Os.{World, syscall, random_bytes}
use contextq_server.Namespace.Data.{IssuedKey}
use contextq_server.Target.Data.{Target, Config, Named}
use contextq_server.Target.File.{resolve_target}
use contextq_server.Setup.{BootstrapOptions, service_name, bootstrap_script}
use contextq_server.Remote.Shell.{shell_command}
use contextq_server.Remote.Ssh.{Call, Outcome, ssh_call, scp_call, close_call, uploaded}
use contextq_server.Remote.Binary.{detected}
use contextq_server.App.{
  Surroundings, AppError, App, os_error, remote_error, setup_error, not_staged, not_applied, pure,
  lift, ◌>>=◌, ◌>>◌, finally, with_error, io, execute,
}
use contextq_server.App.Keys.{remote_namespace_init, remote_key_add, default_key_label, save_issued}
use contextq_server.App.Binaries.{resolve_bootstrap_binaries}

-- the flags
pub record InitFlags : Type 0 where
  pub config_path : Text
  pub target_name : Text
  pub apply : Bool
  pub server_binary : Text
  pub contextq_binary : Text
  pub listen : Text
  pub label : Text

unfoldable pub options_for : Named → Text → Text → BootstrapOptions
options_for named listen stage_dir = record {
  target = named.target;
  target_name = named.name;
  listen = listen;
  staged_server = stage_dir ++ codes "/contextq-server";
  staged_contextq = stage_dir ++ codes "/contextq";
  systemd_unit_path = codes "/etc/systemd/system/" ++ service_name;
}

-- the run that makes the staging directory
unfoldable pub stage_call : Target → Text → Call
unfolding ssh_call shell_command
stage_call t stage_dir =
    ssh_call t
      (shell_command (codes "install" ∷ codes "-d" ∷ codes "-m" ∷ codes "0700" ∷ stage_dir ∷ []))
      none

-- the run that removes it
unfoldable pub unstage_call : Target → Text → Call
unfolding ssh_call shell_command
unstage_call t stage_dir =
    ssh_call t (shell_command (codes "rm" ∷ codes "-rf" ∷ codes "--" ∷ stage_dir ∷ [])) none

-- the run of the script, which is its standard input
unfoldable pub apply_call : Target → Text → Call
unfolding ssh_call utf8
apply_call t script = ssh_call t (codes "sh -s") (some (utf8 script))

unfoldable pub staged : Outcome → Result AppError (Unit {0})
staged r = if r.failed then err not_staged else ok tt

unfoldable pub applied : Outcome → Result AppError (Unit {0})
applied r = if r.failed then err not_applied else ok tt

module _ (s : Surroundings) where
  -- randomStageDir, or the fixed directory of a script that is only printed
  unfoldable pub choose_stage_dir : Bool → App Text
  unfolding random_bytes hex_encode
  choose_stage_dir false = pure (codes "/tmp/contextq-install")
  choose_stage_dir true = do
    b ← io os_error (random_bytes 8)
    pure (codes "/tmp/contextq-install-" ++ hex_encode b)

  -- NewSession: the target with a control path
  unfoldable pub new_session : Target → App Target
  unfolding syscall join_path
  new_session t = do
    io os_error syscall
    pure (record t { control_path = join_path s.control_dir (codes "control") })

  -- Session.Close with the removal of its directory, whose errors the caller drops
  unfoldable pub end_session : Target → App (Unit {0})
  unfolding close_call syscall
  end_session t = do execute s.executor (close_call t); io os_error syscall

  unfoldable pub upload_file : Target → Text → Text → App (Unit {0})
  unfolding scp_call uploaded
  upload_file t local_path remote_path = do
    r ← execute s.executor (scp_call t local_path remote_path)
    lift (with_error remote_error (uploaded r))

  module _ (cfg : Config) (path : Text) (named : Named) (flags : InitFlags)
      (stage_dir script : Text) (t : Target) where
    unfoldable pub label_of : Text
    unfolding default_key_label same
    label_of = if same flags.label [] then default_key_label s s.hostname else flags.label

    -- the first key of a target that has none
    unfoldable pub issue_first : App (Unit {0})
    unfolding label_of remote_key_add save_issued
    issue_first = do issued ← remote_key_add s t label_of; save_issued s cfg path named issued

    -- what is done while there is a staging directory
    unfoldable pub install : Text → Text → App (Unit {0})
    unfolding upload_file apply_call applied remote_namespace_init issue_first same
    install server contextq = do
      upload_file t server (stage_dir ++ codes "/contextq-server")
      upload_file t contextq (stage_dir ++ codes "/contextq")
      r ← execute s.executor (apply_call t script)
      lift (applied r)
      remote_namespace_init s t
      if same named.target.key [] then issue_first else pure tt

    -- what is done in a session
    unfoldable pub with_session : App (Unit {0})
    unfolding detected resolve_bootstrap_binaries stage_call staged install unstage_call
    with_session = do
      answer ← execute s.executor (ssh_call t (codes "uname -m") none)
      arch ← lift (with_error remote_error (detected answer))
      b ← lift (resolve_bootstrap_binaries s arch flags.server_binary flags.contextq_binary)
      r ← execute s.executor (stage_call t stage_dir)
      lift (staged r)
      finally (install b.0 b.1) (execute s.executor (unstage_call t stage_dir))

  -- the part with `--apply`
  unfoldable pub deploy : Config → Text → Named → InitFlags → Text → Text → App (Unit {0})
  unfolding new_session with_session end_session
  deploy cfg path named flags stage_dir script = do
    t ← new_session named.target
    finally (with_session cfg path named flags stage_dir script t) (end_session t)

  -- runRemoteInit: the script that it prints without `--apply` is its result
  unfoldable pub remote_init : InitFlags → App Text
  unfolding resolve_target choose_stage_dir bootstrap_script options_for deploy
  remote_init flags = do
    found ← io os_error (resolve_target s.parse s.codec s.env flags.config_path flags.target_name)
    stage_dir ← choose_stage_dir flags.apply
    script ← lift (
        with_error setup_error
          (bootstrap_script s.parse s.net (options_for found.2 flags.listen stage_dir)))
    (if flags.apply then deploy found.0 found.1 found.2 flags stage_dir script else pure tt)
    pure script
