-- ===== src/Tests/Api.antt =====
-- A request with the first key of the namespace `n`, from its header to the answer.
use contextq_server.Prelude.{
  ap, pos, ◌≡◌, ◌↔◌, refl, true, false, List, [], ◌∷◌, ◌++◌, none, some, ok, Text, codes, length,
  All, ◌≤◌, ◌/◌,
}
use mathlib.Core.List.{cons-ne-nil, flatten}
use contextq_server.Strings.{is_space, NoSpace, byte_length}
use contextq_server.Os.{put, same_path}
use contextq_server.Api.Args.{
  validate_args, max_request_body, is_allowed, check_total, scan, has_nul, is_controlled,
}
use contextq_server.Api.Args.Accepts.{
  CommandAllowed, NoNul, NotControlled, flags_part, total_length, validate_args_iff,
}
use contextq_server.Api.Bearer.{bearer_token}
use contextq_server.Api.Bearer.Client.{bearer_token-client}
use contextq_server.Api.Runner.{
  CommandRunner, Command, Process, success, is_empty, finish, effective_limit, write_all,
  new_buffer, command_of, run,
}
use contextq_server.Api.Runner.Output.{write_all-new_buffer, run_whole}
use contextq_server.Api.Execute.{
  Request, Limited, limited, at_eof, Response, Json, Job, acquired, admitted, unauthorized,
  command_json, admit, execute,
}
use contextq_server.Api.Execute.Admitted.{AdmittedBy, admit-AdmittedBy}
use contextq_server.Api.Execute.Refused.{Unauthenticated}
use contextq_server.Api.Execute.Answers.{Served, execute_200, execute-unauthorized_iff}
use contextq_server.Tests.Json.{platform}
use contextq_server.Namespace.Dirs.{namespace_dir}
use contextq_server.Namespace.Store.{issue_key}
use contextq_server.Namespace.Store.Authenticate.{calm}
use contextq_server.Api.Execute.Composed.{job_for, admit-issue_key}
use contextq_server.Tests.Store.{
  data_root, dir, world, first_key, first_token, issued, issue_ok, unused,
}

abbrev pub list_args : List Text
list_args = codes "queue" ∷ codes "list" ∷ []

validate_args_iff_example : (validate_args list_args ≡ ok tt) ↔ (
    CommandAllowed list_args
    × (length list_args ≤ 64)
    × All NoNul list_args
    × All NotControlled (flags_part list_args)
    × (total_length list_args ≤ max_request_body / 2))
validate_args_iff_example = validate_args_iff list_args

no_space : All NoSpace (codes "ab")
unfolding is_space
no_space = (refl, (refl, tt))

bearer_token-client_example :
    bearer_token (λ c. c) (codes "Bearer " ++ codes "ab") ≡ some (codes "ab")
bearer_token-client_example = bearer_token-client (λ c. c) (codes "ab") (cons-ne-nil _ _) no_space

-- a contextq that prints `[]` in two writes
abbrev contextq : Command → Process
contextq c = record {
  out = (b'[' ∷ []) ∷ (b']' ∷ []) ∷ [];
  errors = [];
  status = success;
  ctx_err = none;
}

abbrev runner : CommandRunner
runner = record { binary = codes "/b"; output_limit = pos 8 }

write_all-new_buffer_example :
    ((write_all (new_buffer 1) ((1 ∷ []) ∷ (2 ∷ []) ∷ [])).buf ≡ 1 ∷ [])
    × ((write_all (new_buffer 1) ((1 ∷ []) ∷ (2 ∷ []) ∷ [])).truncated ≡ true)
unfolding flatten
write_all-new_buffer_example =
    write_all-new_buffer 1 ((1 ∷ []) ∷ (2 ∷ []) ∷ []) (cons-ne-nil _ _, (cons-ne-nil _ _, tt))

run_ok : (run contextq runner dir dir list_args).1 ≡ none
unfolding run is_empty finish write_all effective_limit
run_ok = refl

run_whole_example :
    ((run contextq runner dir dir list_args).0.stdout ≡ codes "[]")
    × ((run contextq runner dir dir list_args).0.stderr ≡ [])
    × ((contextq (command_of runner dir dir list_args)).ctx_err ≡ none)
unfolding flatten
run_whole_example =
    run_whole contextq runner dir dir list_args (cons-ne-nil _ _, (cons-ne-nil _ _, tt)) tt run_ok

-- a decoder that reads every body as the same request
abbrev pub json : Json
json = record {
  decode_request = λ b. ok (list_args, record { content = []; cut = b.cut });
  decode_code = λ b. none;
  is_valid = λ b. true;
}

abbrev request : Request
request = record { name = codes "n"; authorization = codes "Bearer " ++ first_token; body = [] }

abbrev job : Job
job = record {
  key = record first_key { digest = [] };
  args = list_args;
  dir = dir;
  root = codes "/d/n/contextq";
}

admit_ok : (admit platform data_root json request world).0 ≡ admitted job
unfolding admit is_space put same_path validate_args is_allowed check_total scan has_nul
    is_controlled byte_length
admit_ok = refl

admit-AdmittedBy_example :
    AdmittedBy platform data_root json request world job
      (admit platform data_root json request world).1.files
admit-AdmittedBy_example = admit-AdmittedBy platform data_root json request world job admit_ok

abbrev answer : Response
answer = record { status = 200; challenge = false; body = command_json (codes "[]") }

execute_ok : (execute platform data_root json contextq runner acquired request world).0 ≡ answer
unfolding execute is_space put same_path validate_args is_allowed check_total scan has_nul
    is_controlled byte_length is_empty finish write_all effective_limit
execute_ok = refl

status_ok : (execute platform data_root json contextq runner acquired request world).0.status ≡ 200
status_ok = ap (λ (r : Response). r.status) execute_ok

execute_200_example :
    Served platform data_root json contextq runner acquired request world
      (execute platform data_root json contextq runner acquired request world).0
execute_200_example =
    execute_200 platform data_root json contextq runner acquired request world status_ok

execute-unauthorized_iff_example :
    ((execute platform data_root json contextq runner acquired request world).0.status ≡ 401
      ↔ Unauthenticated platform data_root json request world)
    × ((execute platform data_root json contextq runner acquired request world).0 ≡ unauthorized
        ↔ Unauthenticated platform data_root json request world)
execute-unauthorized_iff_example =
    execute-unauthorized_iff platform data_root json contextq runner acquired request world

abbrev pub nothing_left : Limited
nothing_left = record { content = []; cut = false }

pub eof : at_eof nothing_left ≡ true
unfolding at_eof
eof = refl

pub list_args_valid : validate_args list_args ≡ ok tt
unfolding validate_args is_allowed check_total scan has_nul is_controlled byte_length
list_args_valid = refl

admit-issue_key_example :
    (d : Text) × (namespace_dir data_root (codes "n") ≡ ok d)
    × ((admit platform data_root json
          (record { name = codes "n"; authorization = codes "Bearer " ++ issued.token; body = [] })
          (calm (issue_key platform data_root (codes "n") (codes " second ") world).1)).0
        ≡ admitted (
            job_for platform data_root json
              (record { id = issued.id; label = issued.label; digest = []; created_at = 7 })
              list_args
              d))
unfolding limited
admit-issue_key_example =
    admit-issue_key platform data_root json (codes "n") (codes " second ") issued world
      (issue_key platform data_root (codes "n") (codes " second ") world).1 [] list_args
      nothing_left issue_ok unused refl refl eof list_args_valid
