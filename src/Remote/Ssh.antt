-- ===== src/Remote/Ssh.antt =====
-- internal/remote/command.go and session.go: the ssh and scp commands, and those of
-- internal/app/remote.go that run over them.
pub mod Arguments
pub mod Digits
use contextq_server.Prelude.{
  ℕ, zero, suc, ◌+◌, ◌/◌, ◌%◌, ℤ, pos, negsuc, is_nat, Bool, true, false, not, ◌&&◌, ◌||◌, List, [],
  ◌∷◌, ◌++◌, Option, none, some, if◌then◌else◌, ltb, Result, ok, err, Text, Bytes, codes, same,
}
use contextq_server.Strings.{trim_space}
use contextq_server.Remote.Shell.{shell_command}
use contextq_server.Target.Data.{Target}

-- Result; the error of an Executor is left as whether there is one.
pub record Outcome : Type 0 where
  pub stdout : Bytes
  pub stderr : Bytes
  pub exit_code : ℤ
  pub failed : Bool

-- Executor.Run: the program, its arguments and its standard input
abbrev pub Executor : Type 0
Executor = Text → List Text → Option Bytes → Outcome

pub data RemoteError : Type 0 where
  administration_failed upload_failed detection_failed session_failed : Bytes → RemoteError
  unsupported_architecture : Text → RemoteError

unfoldable pub digits : ℕ → ℕ → Text
digits zero n = []
digits (suc fuel) n =
    let rest = digits fuel (n / 10) in
    if ltb n 10 then (48 + n) ∷ [] else rest ++ (48 + n % 10) ∷ []

-- strconv.Itoa; a number has no more digits than its value and one.
unfoldable pub itoa : ℤ → Text
unfolding digits
itoa (pos n) = digits (suc n) n
itoa (negsuc n) = codes "-" ++ digits (suc (suc n)) (suc n)

unfoldable pub port_args : Text → ℤ → List Text
unfolding itoa
port_args flag port = if is_nat port 0 then [] else flag ∷ itoa port ∷ []

unfoldable pub identity_args : Text → List Text
unfolding same
identity_args identity = if same identity [] then [] else codes "-i" ∷ identity ∷ []

-- appendMultiplexArgs
unfoldable pub multiplex_args : Text → List Text
unfolding same
multiplex_args control_path =
    if same control_path []
    then []
    else codes "-o"
      ∷ codes "ControlMaster=auto"
      ∷ codes "-o"
      ∷ codes "ControlPersist=60"
      ∷ codes "-o"
      ∷ (codes "ControlPath=" ++ control_path)
      ∷ []

-- t.SSHUser+"@"+t.SSHHost
abbrev pub destination : Target → Text
destination t = t.ssh_user ++ codes "@" ++ t.ssh_host

-- SSHArgs
unfoldable pub ssh_args : Target → List Text
unfolding port_args identity_args multiplex_args
ssh_args t =
    port_args (codes "-p") t.ssh_port
    ++ identity_args t.identity
    ++ multiplex_args t.control_path
    ++ destination t ∷ []

-- SCPArgs
unfoldable pub scp_args : Target → List Text
unfolding port_args identity_args multiplex_args
scp_args t =
    port_args (codes "-P") t.ssh_port ++ identity_args t.identity ++ multiplex_args t.control_path

-- the command line of runRemoteAdmin
unfoldable pub admin_command : Target → List Text → List Text
admin_command t args =
    codes "runuser" ∷ codes "-u" ∷ t.service_user ∷ codes "--" ∷ t.remote_bin ∷ args

-- one run of a program
pub record Call : Type 0 where
  pub program : Text
  pub args : List Text
  pub stdin : Option Bytes

abbrev pub perform : Executor → Call → Outcome
perform executor c = executor c.program c.args c.stdin

-- the run of RunSSH
unfoldable pub ssh_call : Target → Text → Option Bytes → Call
unfolding ssh_args
ssh_call t command stdin = record {
  program = codes "ssh";
  args = ssh_args t ++ command ∷ [];
  stdin = stdin;
}

-- the run of Upload
unfoldable pub scp_call : Target → Text → Text → Call
unfolding scp_args
scp_call t local_path remote_path = record {
  program = codes "scp";
  args = scp_args t ++ local_path ∷ (destination t ++ codes ":" ++ remote_path) ∷ [];
  stdin = none;
}

-- the run of Session.Close
unfoldable pub close_call : Target → Call
unfolding port_args identity_args
close_call t = record {
  program = codes "ssh";
  args =
      port_args (codes "-p") t.ssh_port
      ++ identity_args t.identity
      ++ codes "-S" ∷ t.control_path ∷ codes "-O" ∷ codes "exit" ∷ destination t ∷ [];
  stdin = none;
}

unfoldable pub uploaded : Outcome → Result RemoteError (Unit {0})
uploaded r = if r.failed then err (upload_failed (trim_space r.stderr)) else ok tt

unfoldable pub closed : Outcome → Result RemoteError (Unit {0})
closed r = if r.failed then err (session_failed r.stderr) else ok tt

unfoldable pub administered : Outcome → Result RemoteError Outcome
administered r = if r.failed then err (administration_failed (trim_space r.stderr)) else ok r

module _ (executor : Executor) where
  -- RunSSH
  unfoldable pub run_ssh : Target → Text → Option Bytes → Outcome
  unfolding ssh_call
  run_ssh t command stdin = perform executor (ssh_call t command stdin)

  -- Upload
  unfoldable pub upload : Target → Text → Text → Result RemoteError (Unit {0})
  unfolding scp_call uploaded
  upload t local_path remote_path = uploaded (perform executor (scp_call t local_path remote_path))

  -- Session.Close; removing the directory of the control socket is left out.
  unfoldable pub close_session : Target → Result RemoteError (Unit {0})
  unfolding close_call closed
  close_session t = closed (perform executor (close_call t))

  -- runRemoteAdmin
  unfoldable pub run_remote_admin : Target → List Text → Result RemoteError Outcome
  unfolding administered run_ssh
  run_remote_admin t args = administered (run_ssh t (shell_command (admin_command t args)) none)
