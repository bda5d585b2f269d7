-- ===== src/App/Doctor.antt =====
-- `doctor` of internal/app/remote.go: runDoctor, behind its flags. The requests are answered
-- independently of the runs of programs, so that only the order of the runs is kept.
pub mod Healthy
use contextq_server.Prelude.{
  ℕ, suc, Bool, true, false, not, ◌&&◌, List, [], ◌∷◌, ◌++◌, Option, none, some, if◌then◌else◌, ltb,
  ◌==◌, Result, ok, err, Text, Bytes, codes, same,
}
use contextq_server.Strings.{join}
use contextq_server.Target.Data.{Target}
use contextq_server.Target.File.{resolve_target}
use contextq_server.Setup.{service_name}
use contextq_server.Remote.Shell.{shell_command}
use contextq_server.Remote.Ssh.{Call, Outcome, ssh_call}
use contextq_server.App.{
  Surroundings, AppError, App, os_error, doctor_failed, pure, lift, ◌>>=◌, finally, io, execute,
}
use contextq_server.App.Deploy.{new_session, end_session}
use contextq_server.App.Exec.{HttpRequest, HttpResponse, Http, client_request}

-- one line of the report, without its detail
pub record Check : Type 0 where
  pub name : Text
  pub passed : Bool

abbrev pub check : Text → Bool → Check
check name passed = record { name = name; passed = passed }

unfoldable pub failures : List Check → ℕ
failures [] = 0
failures (c ∷ cs) = let rest = failures cs in if c.passed then rest else suc rest

unfoldable pub report : List Check → Result AppError (List Check)
unfolding failures
report cs = if ltb 0 (failures cs) then err (doctor_failed (failures cs)) else ok cs

-- a request that was answered with the status 200
unfoldable pub answered_ok : Option HttpResponse → Bool
answered_ok none = false
answered_ok (some r) = r.status == 200

-- a GET request has neither of the two headers, nor a body
unfoldable pub health_request : Target → HttpRequest
health_request t = record {
  method = codes "GET";
  url = t.url ++ codes "/healthz";
  authorization = [];
  content_type = [];
  body = [];
}

-- the five runs, on the target of the session, for the resolved target
unfoldable pub true_call : Target → Call
unfolding ssh_call
true_call session = ssh_call session (codes "true") none

unfoldable pub service_call : Target → Call
unfolding ssh_call shell_command
service_call session =
    ssh_call session
      (shell_command (codes "systemctl" ∷ codes "is-active" ∷ codes "--quiet" ∷ service_name ∷ []))
      none

unfoldable pub files_call : Target → Target → Call
unfolding ssh_call shell_command join
files_call session t =
    ssh_call session
      (join (codes " && ") (
        shell_command (codes "test" ∷ codes "-x" ∷ t.remote_bin ∷ [])
        ∷ shell_command (codes "test" ∷ codes "-x" ∷ t.contextq_bin ∷ [])
        ∷ shell_command (codes "test" ∷ codes "-d" ∷ t.data_root ∷ [])
        ∷ []))
      none

unfoldable pub version_call : Target → Target → Call
unfolding ssh_call shell_command
version_call session t =
    ssh_call session (shell_command (t.remote_bin ∷ codes "version" ∷ codes "--json" ∷ [])) none

unfoldable pub caddy_call : Target → Target → Call
unfolding ssh_call shell_command
caddy_call session t =
    ssh_call session
      (shell_command (codes "caddy" ∷ codes "validate" ∷ codes "--config" ∷ t.caddyfile ∷ [])) none

module _ (http : Http) (reads_info : Bytes → Bool) where
  -- the check of the key; `queue list` is the request
  unfoldable pub key_check : Target → Check
  unfolding answered_ok client_request same
  key_check t =
      if same t.key []
      then check (codes "namespace key") false
      else check (codes "authenticated RPC")
          (answered_ok (http.send (client_request http t (codes "queue" ∷ codes "list" ∷ []))))

  -- `reads_info` is whether json.Unmarshal reads a version from the output
  unfoldable pub version_passed : Outcome → Bool
  version_passed r = not r.failed && reads_info r.stdout

  module _ (s : Surroundings) where
    unfoldable pub doctor_checks : Target → Target → App (List Check)
    unfolding true_call service_call files_call version_call caddy_call answered_ok health_request
        key_check version_passed
    doctor_checks session t = do
      ssh ← execute s.executor (true_call session)
      service ← execute s.executor (service_call session)
      files ← execute s.executor (files_call session t)
      version ← execute s.executor (version_call session t)
      caddy ← execute s.executor (caddy_call session t)
      pure (
          check (codes "HTTPS health") (answered_ok (http.send (health_request t)))
          ∷ check (codes "SSH") (not ssh.failed)
          ∷ check (codes "systemd service") (not service.failed)
          ∷ check (codes "remote files") (not files.failed)
          ∷ check (codes "remote version") (version_passed version)
          ∷ check (codes "Caddy config") (not caddy.failed)
          ∷ key_check t
          ∷ [])

    -- runDoctor, with the checks that it prints as its result
    unfoldable pub doctor : Text → Text → App (List Check)
    unfolding resolve_target new_session doctor_checks report end_session
    doctor config_path target_name = do
      found ← io os_error (resolve_target s.parse s.codec s.env config_path target_name)
      session ← new_session s (found.2).target
      finally (doctor_checks session (found.2).target >>= λ cs. lift (report cs))
          (end_session s session)
