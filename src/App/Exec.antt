-- ===== src/App/Exec.antt =====
-- `exec` of internal/app/remote.go: runClientExec, behind its flags.
pub mod Answered
pub mod Admitted
use contextq_server.Prelude.{
  ℕ, ◌*◌, ◌^◌, Bool, not, ◌&&◌, List, ◌∷◌, [], ◌++◌, Option, none, some, if◌then◌else◌, ltb, leb,
  length, take, Result, ok, err, Text, Bytes, codes, same,
}
use contextq_server.Errors.{Error}
use contextq_server.Target.Data.{Target, Named}
use contextq_server.Target.File.{resolve_target}
use contextq_server.App.{
  Surroundings, AppError, App, usage, os_error, no_key, no_answer, http_failed, lift, raise, ◌>>=◌,
  io,
}

pub record HttpRequest : Type 0 where
  pub method : Text
  pub url : Text
  pub authorization : Text
  pub content_type : Text
  pub body : Bytes

pub record HttpResponse : Type 0 where
  pub status : ℕ
  pub body : Bytes

-- io.LimitReader's limit
abbrev pub answer_limit : ℕ
answer_limit = 4 * 2 ^ 20

-- The client's HTTP library, whose requests may fail, and json.Marshal of `{"args": args}`.
pub record Http : Type 0 where
  pub send : HttpRequest → Option HttpResponse
  pub encode_args : List Text → Bytes

unfoldable pub is_success : ℕ → Bool
is_success status = leb 200 status && ltb status 300

unfoldable pub answered : Option HttpResponse → Result AppError Bytes
unfolding is_success
answered none = err no_answer
answered (some r) =
    if is_success r.status then ok (take answer_limit r.body) else err (http_failed r.status)

module _ (http : Http) where
  unfoldable pub client_request : Target → List Text → HttpRequest
  client_request t args = record {
    method = codes "POST";
    url = t.url ++ codes "/v1/" ++ t.namespace ++ codes "/exec";
    authorization = codes "Bearer " ++ t.key;
    content_type = codes "application/json";
    body = http.encode_args args;
  }

  -- once the target is resolved
  unfoldable pub client_send : Named → List Text → App Bytes
  unfolding client_request answered same
  client_send named args =
      if same named.target.key []
      then raise no_key
      else lift (answered (http.send (client_request named.target args)))

  -- runClientExec, which prints the answer that is its result
  unfoldable pub client_exec : Surroundings → Text → Text → List Text → App Bytes
  unfolding resolve_target client_send
  client_exec s config_path target_name args = if ltb (length args) 2 then raise usage else do
    found ← io os_error (resolve_target s.parse s.codec s.env config_path target_name)
    client_send found.2 args
