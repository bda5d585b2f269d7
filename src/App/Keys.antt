-- ===== src/App/Keys.antt =====
-- remoteNamespaceInit, remoteKeyAdd, defaultKeyLabel and the commands `remote namespace init`,
-- `remote key add`, `remote key list` and `remote key revoke` of internal/app/remote.go.
use contextq_server.Prelude.{
  Bool, List, [], ◌∷◌, Option, none, some, if◌then◌else◌, Result, ok, err, Text, Bytes, codes, same,
}
use contextq_server.Namespace.Data.{IssuedKey}
use contextq_server.Target.Data.{Target, Config, Named}
use contextq_server.Target.Config.{assign}
use contextq_server.Target.File.{save, resolve_target}
use contextq_server.Remote.Shell.{shell_command}
use contextq_server.Remote.Ssh.{Outcome, admin_command, ssh_call, administered}
use contextq_server.Remote.Binary.{client_key_id}
use contextq_server.App.{
  Surroundings, AppError, App, usage, bad_reply, os_error, remote_error, unsaved, pure, lift, raise,
  ◌>>=◌, ◌>>◌, with_error, io, execute,
}

unfoldable pub issued_of : Option IssuedKey → Result AppError IssuedKey
issued_of none = err bad_reply
issued_of (some i) = ok i

-- the target with another key, under its name
unfoldable pub target_with_key : Config → Named → Text → Config
target_with_key c named key = record c {
  targets = assign named.name (record named.target { key = key }) c.targets;
}

module _ (s : Surroundings) where
  -- runRemoteAdmin
  unfoldable pub remote_admin : Target → List Text → App Outcome
  unfolding ssh_call admin_command administered shell_command
  remote_admin t args = do
    r ← execute s.executor (ssh_call t (shell_command (admin_command t args)) none)
    lift (with_error remote_error (administered r))

  -- remoteNamespaceInit
  unfoldable pub remote_namespace_init : Target → App Outcome
  unfolding remote_admin
  remote_namespace_init t = remote_admin t (
      codes "namespace"
      ∷ codes "init"
      ∷ codes "--data-root"
      ∷ t.data_root
      ∷ codes "--json"
      ∷ t.namespace
      ∷ [])

  -- remoteKeyAdd
  unfoldable pub remote_key_add : Target → Text → App IssuedKey
  unfolding remote_admin issued_of
  remote_key_add t label = do
    r ← remote_admin t (
        codes "key"
        ∷ codes "add"
        ∷ codes "--data-root"
        ∷ t.data_root
        ∷ codes "--label"
        ∷ label
        ∷ codes "--json"
        ∷ t.namespace
        ∷ [])
    lift (issued_of (s.decode_issued r.stdout))

  -- defaultKeyLabel
  unfoldable pub default_key_label : Option Text → Text
  unfolding same
  default_key_label none = codes "contextq-client"
  default_key_label (some name) = if same name [] then codes "contextq-client" else name

  -- saving the token of an issued key in the target, whose error holds the token
  unfoldable pub save_issued : Config → Text → Named → IssuedKey → App (Unit {0})
  unfolding save target_with_key
  save_issued cfg path named issued =
      io (λ e. unsaved e issued.token)
        (save s.parse s.codec s.env (target_with_key cfg named issued.token) path)

  -- `remote namespace init`
  unfoldable pub namespace_init_command : Text → Text → App Outcome
  unfolding resolve_target remote_namespace_init
  namespace_init_command config_path target_name = do
    found ← io os_error (resolve_target s.parse s.codec s.env config_path target_name)
    remote_namespace_init (found.2).target

  -- `remote key add`, which prints the key that is its result
  unfoldable pub key_add_command : Text → Text → Text → Bool → App IssuedKey
  unfolding resolve_target remote_key_add save_issued same
  key_add_command config_path target_name label no_save = if same label [] then raise usage else do
    found ← io os_error (resolve_target s.parse s.codec s.env config_path target_name)
    issued ← remote_key_add (found.2).target label
    (if no_save then pure tt else save_issued found.0 found.1 found.2 issued)
    pure issued

  -- `remote key list`, which prints the answer that is its result
  unfoldable pub key_list_command : Text → Text → App Bytes
  unfolding resolve_target remote_admin
  key_list_command config_path target_name = do
    found ← io os_error (resolve_target s.parse s.codec s.env config_path target_name)
    r ← remote_admin (found.2).target (
        codes "key"
        ∷ codes "list"
        ∷ codes "--data-root"
        ∷ (found.2).target.data_root
        ∷ codes "--json"
        ∷ (found.2).target.namespace
        ∷ [])
    pure r.stdout

  -- `remote key revoke`, which forgets the target's key if it is the one
  unfoldable pub key_revoke_command : Text → Text → Text → App (Unit {0})
  unfolding resolve_target remote_admin save target_with_key client_key_id same
  key_revoke_command config_path target_name id = do
    found ← io os_error (resolve_target s.parse s.codec s.env config_path target_name)
    r ← remote_admin (found.2).target (
        codes "key"
        ∷ codes "revoke"
        ∷ codes "--data-root"
        ∷ (found.2).target.data_root
        ∷ codes "--json"
        ∷ (found.2).target.namespace
        ∷ id
        ∷ [])
    if same (client_key_id (found.2).target.key) id
        then io os_error (save s.parse s.codec s.env (target_with_key found.0 found.2 []) found.1)
        else pure tt
