-- ===== src/Api/Runner.antt =====
-- internal/api/runner.go: how one contextq process is run, and what is kept of its output.
pub mod Output
use contextq_server.Prelude.{
  ℕ, zero, suc, ℤ, pos, negsuc, ◌+◌, ◌-◌, ◌*◌, ◌≡◌, Bool, true, false, ◌||◌, List, [], ◌∷◌, ◌++◌,
  Option, none, some, if◌then◌else◌, ltb, ◌==◌, length, take, Text, Bytes, codes,
}

pub record BoundedBuffer : Type 0 where
  pub buf : Bytes
  pub limit : ℕ
  pub truncated : Bool

-- Write returns the length that it was given, whatever it kept.
unfoldable pub write : BoundedBuffer → Bytes → BoundedBuffer × ℕ
write b p =
    let remaining = b.limit - length b.buf in
    if remaining == 0
    then (record b { truncated = true }, length p)
    else if ltb remaining (length p)
    then (record b { buf = b.buf ++ take remaining p; truncated = true }, length p)
    else (record b { buf = b.buf ++ p }, length p)

-- the writes that os/exec makes of a process's output
unfoldable pub write_all : BoundedBuffer → List Bytes → BoundedBuffer
unfolding write
write_all b [] = b
write_all b (p ∷ ps) = write_all (write b p).0 ps

abbrev pub new_buffer : ℕ → BoundedBuffer
new_buffer limit = record { buf = []; limit = limit; truncated = false }

pub record CommandRunner : Type 0 where
  pub binary : Text
  pub output_limit : ℤ

pub record RunResult : Type 0 where
  pub stdout : Bytes
  pub stderr : Bytes
  pub exit_code : ℤ

pub data ContextError : Type 0 where
  deadline_exceeded canceled : ContextError

pub data RunError : Type 0 where
  no_binary output_limit : RunError
  context : ContextError → RunError
  not_run : RunError

-- What cmd.Run returns: nil, an *exec.ExitError with its code, or another error.
pub data ExitStatus : Type 0 where
  success : ExitStatus
  exit_error : ℤ → ExitStatus
  other_error : ExitStatus

-- exec.Cmd, as the runner fills it in
pub record Command : Type 0 where
  pub path : Text
  pub args : List Text
  pub dir : Text
  pub env : List Text

-- What a process does: the chunks that it writes, how it ends, and whether the context has ended.
pub record Process : Type 0 where
  pub out : List Bytes
  pub errors : List Bytes
  pub status : ExitStatus
  pub ctx_err : Option ContextError

unfoldable pub effective_limit : ℤ → ℕ
effective_limit (pos zero) = 4 * 1048576
effective_limit (pos (suc n)) = suc n
effective_limit (negsuc n) = 4 * 1048576

unfoldable pub command_of : CommandRunner → Text → Text → List Text → Command
command_of r namespace_dir contextq_root args = record {
  path = r.binary;
  args = codes "--json" ∷ codes "--root" ∷ contextq_root ∷ args;
  dir = namespace_dir;
  env =
      codes "PATH=/usr/local/bin:/usr/bin:/bin"
      ∷ codes "LANG=C.UTF-8"
      ∷ codes "LC_ALL=C.UTF-8"
      ∷ [];
}

exit_result : RunResult → ExitStatus → RunResult × Option RunError
exit_result result success = (result, none)
exit_result result (exit_error code) = (record result { exit_code = code }, none)
exit_result result other_error = (result, some not_run)

-- the tests behind cmd.Run
unfoldable pub finish : BoundedBuffer → BoundedBuffer → Process → RunResult × Option RunError
unfolding exit_result
finish stdout stderr p =
    let result : RunResult = record {
      stdout = stdout.buf;
      stderr = stderr.buf;
      exit_code = pos 0;
    } in
    if stdout.truncated || stderr.truncated
    then (result, some output_limit)
    else elim p.ctx_err [ some e ↦ (result, some (context e)) | none ↦ exit_result result p.status ]

unfoldable pub is_empty : Text → Bool
is_empty [] = true
is_empty (c ∷ s) = false

-- The process is the system's: a function of the command.
unfoldable pub run :
    (Command → Process) → CommandRunner → Text → Text → List Text → RunResult × Option RunError
run exec r namespace_dir contextq_root args =
    let limit = effective_limit r.output_limit in
    let p = exec (command_of r namespace_dir contextq_root args) in
    if is_empty r.binary
    then (record { stdout = []; stderr = []; exit_code = pos 0 }, some no_binary)
    else finish (write_all (new_buffer limit) p.out) (write_all (new_buffer limit) p.errors) p
