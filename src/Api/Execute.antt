-- ===== src/Api/Execute.antt =====
-- The handler `execute` of internal/api/server.go, and the helpers that write its answers.
pub mod Admitted
pub mod Refused
pub mod Answers
pub mod Composed
use contextq_server.Prelude.{
  ℕ, is_nat, Bool, true, false, ◌||◌, ◌++◌, List, [], ◌∷◌, Option, none, some, if◌then◌else◌, ltb,
  ◌==◌, length, take, every, Result, ok, err, Text, Bytes, codes, same, ◌+◌,
}
use contextq_server.Errors.{Error}
use contextq_server.Os.{World}
use contextq_server.Namespace.Data.{Key}
use contextq_server.Namespace.Dirs.{namespace_dir, contextq_root}
use contextq_server.Namespace.Atomic.{is_json_space}
use contextq_server.Namespace.Store.{Platform, authenticate}
use contextq_server.Api.Args.{ArgsError, max_request_body, validate_args}
use contextq_server.Api.Bearer.{bearer_token}
use contextq_server.Api.Runner.{
  CommandRunner, RunResult, RunError, no_binary, output_limit, context, not_run, deadline_exceeded,
  canceled, Command, Process, run,
}

-- The message of an error answer: a text of the server's, what the JSON decoder says, or the error
-- of validateArgs.
pub data Message : Type 0 where
  fixed bad_body : Text → Message
  bad_args : ArgsError → Message

pub data Body : Type 0 where
  api_error : Text → Message → Body
  command_json : Bytes → Body
  no_body : Body

-- `challenge` is whether the WWW-Authenticate header is set.
pub record Response : Type 0 where
  pub status : ℕ
  pub challenge : Bool
  pub body : Body

pub record Request : Type 0 where
  pub name : Text
  pub authorization : Text
  pub body : Bytes

-- A body behind http.MaxBytesReader: what can be read, and whether the end is an error.
pub record Limited : Type 0 where
  pub content : Bytes
  pub cut : Bool

-- What the handler takes from encoding/json: decoding an execRequest, with what is left of the body;
-- the `code` of an errorResponse; and json.Valid.
pub record Json : Type 0 where
  pub decode_request : Limited → Result Text (List Text × Limited)
  pub decode_code : Bytes → Option Text
  pub is_valid : Bytes → Bool

-- what waiting for the semaphore comes to
pub data Slot : Type 0 where
  acquired deadline_passed : Slot

-- what is left to be done for a request that is let in
pub record Job : Type 0 where
  pub key : Key
  pub args : List Text
  pub dir : Text
  pub root : Text

pub data Admission : Type 0 where
  rejected : Response → Admission
  admitted : Job → Admission

abbrev pub write_api_error : ℕ → Text → Message → Response
write_api_error status code message = record {
  status = status;
  challenge = false;
  body = api_error code message;
}

abbrev pub unauthorized : Response
unauthorized = record {
  status = 401;
  challenge = true;
  body = api_error (codes "unauthorized") (fixed (codes "invalid namespace or access key"));
}

-- A handler that returns before it has written anything is answered by net/http: 200, without a body.
abbrev pub unwritten : Response
unwritten = record { status = 200; challenge = false; body = no_body }

abbrev pub write_command_json : Json → ℕ → Bytes → Response
write_command_json json status body =
    if json.is_valid body
    then record { status = status; challenge = false; body = command_json body }
    else write_api_error 502 (codes "invalid_command_output")
        (fixed (codes "contextq returned invalid JSON"))

-- the `switch` of contextqErrorStatus
unfoldable pub status_of_code : Text → ℕ
unfolding same
status_of_code code =
    if same code (codes "queue_not_found")
    then 404
    else if same code (codes "queue_name_ambiguous")
        || same code (codes "duplicate_available_key")
        || same code (codes "no_available_items")
        || same code (codes "invalid_state_transition")
        || same code (codes "no_active_lifecycle")
    then 409
    else if same code (codes "force_required") || same code (codes "error")
    then 400
    else 502

unfoldable pub code_status : Option Text → ℕ
unfolding status_of_code
code_status none = 502
code_status (some code) = status_of_code code

unfoldable pub contextq_error_status : Json → Bytes → ℕ
unfolding code_status
contextq_error_status json body = code_status (json.decode_code body)

-- http.MaxBytesReader
unfoldable pub limited : Bytes → Limited
limited body = record {
  content = take max_request_body body;
  cut = ltb max_request_body (length body);
}

-- `decoder.Decode(&struct{}{}) == io.EOF`
unfoldable pub at_eof : Limited → Bool
unfolding is_json_space
at_eof b = if b.cut then false else every is_json_space b.content

unfoldable pub args_or_error : List Text → Result ArgsError (Unit {0}) → Result Response (List Text)
args_or_error args (ok u) = ok args
args_or_error args (err e) = err (write_api_error 400 (codes "invalid_arguments") (bad_args e))

unfoldable pub checked_args : List Text → Result Response (List Text)
unfolding args_or_error
checked_args args = args_or_error args (validate_args args)

unfoldable pub decoded_args : Result Text (List Text × Limited) → Result Response (List Text)
unfolding at_eof checked_args
decoded_args (err e) = err (write_api_error 400 (codes "invalid_request") (bad_body e))
decoded_args (ok (args, rest)) =
    if at_eof rest
    then checked_args args
    else err (
        write_api_error 400 (codes "invalid_request")
          (fixed (codes "request body must contain one JSON object")))

-- from MaxBytesReader to validateArgs
unfoldable pub read_args : Json → Bytes → Result Response (List Text)
unfolding limited decoded_args
read_args json body = decoded_args (json.decode_request (limited body))

unfoldable pub job_of : Key → List Text → Result Error Text → Result Error Text → Admission
job_of key args (ok dir) (ok root) =
    admitted (record { key = key; args = args; dir = dir; root = root })
job_of key args (ok dir) (err e) = rejected unauthorized
job_of key args (err e) root = rejected unauthorized

module _ (p : Platform) (root : Text) (json : Json) where
  -- after the body
  unfoldable pub place : Request → Key → Result Response (List Text) → Admission
  unfolding job_of namespace_dir contextq_root
  place request key (err r) = rejected r
  place request key (ok args) =
      job_of key args (namespace_dir root request.name) (contextq_root root request.name)

  -- after Authenticate; the log lines are left out
  unfoldable pub authenticated : Request → Result Error Key → Admission
  unfolding place read_args
  authenticated request (err e) = rejected unauthorized
  authenticated request (ok key) = place request key (read_args json request.body)

  unfoldable pub admit_token : Request → Option Text → World → Admission × World
  unfolding authenticated authenticate
  admit_token request none w = (rejected unauthorized, w)
  admit_token request (some token) w =
      let r = authenticate p root request.name token w in (authenticated request r.0, r.1)

  -- everything that `execute` does before it waits for a slot
  unfoldable pub admit : Request → World → Admission × World
  unfolding admit_token bearer_token
  admit request w = admit_token request (bearer_token p.fold request.authorization) w

-- The answer to a run. For a canceled request the handler writes nothing.
unfoldable pub respond : Json → RunResult × Option RunError → Response
unfolding contextq_error_status
respond json (result, none) =
    if is_nat result.exit_code 0
    then write_command_json json 200 result.stdout
    else write_command_json json (contextq_error_status json result.stderr) result.stderr
respond json (result, some (context deadline_exceeded)) =
    write_api_error 504 (codes "command_timeout") (fixed (codes "contextq command timed out"))
respond json (result, some (context canceled)) = unwritten
respond json (result, some output_limit) =
    write_api_error 502 (codes "output_limit") (fixed (codes "contextq output limit exceeded"))
respond json (result, some no_binary) =
    write_api_error 502 (codes "command_failed") (fixed (codes "could not execute contextq"))
respond json (result, some not_run) =
    write_api_error 502 (codes "command_failed") (fixed (codes "could not execute contextq"))

module _ (json : Json) (exec : Command → Process) (runner : CommandRunner) where
  unfoldable pub serve : Slot → Admission → Response
  unfolding respond run
  serve slot (rejected r) = r
  serve deadline_passed (admitted job) =
      write_api_error 503 (codes "server_busy")
        (fixed (codes "request could not start before its deadline"))
  serve acquired (admitted job) = respond json (run exec runner job.dir job.root job.args)

-- Server.execute
unfoldable pub execute :
    Platform
    → Text
    → Json
    → (Command → Process)
    → CommandRunner
    → Slot
    → Request
    → World
    → Response × World
unfolding admit serve
execute p root json exec runner slot request w =
    let r = admit p root json request w in (serve json exec runner slot r.0, r.1)
