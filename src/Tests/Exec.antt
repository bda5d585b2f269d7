-- ===== src/Tests/Exec.antt =====
-- `exec` with the target of a configuration file.
use contextq_server.Prelude.{
  if◌then◌else◌, same, take, drop, ◌≡◌, ◌≤◌, refl, [], ◌∷◌, Option, none, some, ok, Text, Bytes,
  codes, length,
}
use contextq_server.Os.{put, same_path}
use contextq_server.Names.{matches_name}
use contextq_server.Strings.{is_space}
use contextq_server.Namespace.Dirs.{namespace_dir}
use contextq_server.Namespace.Store.{issue_key}
use contextq_server.Namespace.Store.Authenticate.{calm}
use contextq_server.Target.Data.{Url, Target, Config, Named}
use contextq_server.Target.Validate.{validate, origin, check_fields, normalize, trim_right_slash}
use contextq_server.Target.Config.{validate_config, check_targets, lookup, has_target, resolve}
use contextq_server.Target.Config.Same.{SameConfig}
use contextq_server.Target.File.{ConfigCodec, file_of, resolve_target}
use contextq_server.Api.Execute.{Request, limited, admitted, admit}
use contextq_server.Api.Execute.Composed.{job_for}
use contextq_server.App.{Surroundings, State}
use contextq_server.App.Keys.{target_with_key}
use contextq_server.App.Exec.{Http, client_request, client_exec}
use contextq_server.App.Exec.Answered.{Answered, client_exec-Answered}
use contextq_server.App.Exec.Admitted.{ReadsPath, routed, admit-client_request}
use contextq_server.Tests.Json.{platform}
use contextq_server.Tests.Store.{data_root, world, issued, issue_ok, unused}
use contextq_server.Tests.Api.{list_args, json, nothing_left, eof, list_args_valid}
use contextq_server.Tests.Client.{home, full_target, one_target}
use contextq_server.Tests.Config.{empty_world}
use contextq_server.Tests.Deploy.{surroundings}

abbrev pub keyed_target : Target
keyed_target = record full_target { key = codes "cqk_k_aa_b" }

abbrev pub keyed : Config
keyed = record one_target { targets = (codes "prod", keyed_target) ∷ [] }

pub none_written :
    (c : Config) (b : Bytes)
    → ◌≡◌ {A = Option Bytes} none (some b)
    → (d : Config) × (◌≡◌ {A = Option (Config × Bytes)} (some (keyed, [])) (some (d, 10 ∷ [])))
      × SameConfig c d
none_written c b h = cc

-- every file is read as the same configuration, and none is written
abbrev reader : ConfigCodec
reader = record {
  encode = λ c. none;
  decode = λ b. some (keyed, []);
  decode-encode = λ c b plain h. none_written c b h;
}

abbrev pub here : Surroundings
here = record surroundings { codec = reader }

abbrev pub state : State
state = record {
  world = record empty_world {
    files = put (file_of (codes "/h/t")) (some (record { mode = 0o600; content = [] })) (λ q. none);
  };
  calls = [];
}

-- every request is answered by `[]`
abbrev pub http : Http
http = record {
  send = λ r. some (record { status = 200; body = codes "[]" });
  encode_args = λ args. [];
}

exec_ok : (client_exec http here (codes "/h/t") [] list_args state).0 ≡ ok (codes "[]")
unfolding client_exec validate_config validate check_targets lookup has_target matches_name resolve
    origin check_fields normalize trim_right_slash is_space put same_path
exec_ok = refl

client_exec-Answered_example :
    (2 ≤ length list_args)
    × ((found : Config × Text × Named) × ((resolve_target here.parse here.codec here.env
            (codes "/h/t")
            []
            state.world).0
          ≡ ok found)
        × Answered http found.2 list_args (codes "[]"))
client_exec-Answered_example =
    client_exec-Answered http here (codes "/h/t") [] list_args state (codes "[]") exec_ok

abbrev named : Named
named = record { name = codes "prod"; target = full_target }

-- the host h, and behind it the path
abbrev home_at : Text → Url
home_at path = record home { path = path }

pub parse_home : Text → Option Url
parse_home s = if same (take 8 s) (codes "http://h") then some (home_at (drop 8 s)) else none

home_ReadsPath : ReadsPath parse_home (codes "http://h")
unfolding parse_home same
home_ReadsPath path plain = (home_at (b'/' ∷ path), refl, refl)

admit-client_request_example :
    (t : Target) × (lookup named.name (target_with_key one_target named issued.token).targets
      ≡ some t)
    × ((request : Request) × (routed parse_home (client_request http t list_args) ≡ some request)
        × ((dir : Text) × (namespace_dir data_root (codes "n") ≡ ok dir)
            × ((admit platform data_root json request
                  (calm (issue_key platform data_root (codes "n") (codes " second ") world).1)).0
                ≡ admitted (
                    job_for platform data_root json
                      (record { id = issued.id; label = issued.label; digest = []; created_at = 7 })
                      list_args
                      dir))))
unfolding limited
admit-client_request_example =
    admit-client_request platform data_root json http parse_home one_target named (codes " second ")
      issued world (issue_key platform data_root (codes "n") (codes " second ") world).1 list_args
      nothing_left home_ReadsPath issue_ok unused refl refl eof list_args_valid
