-- ===== src/Api/Execute/Composed.antt =====
-- The store, the client's header and the handler put together.
use contextq_server.Prelude.{
  ◌≡◌, refl, ◌∙◌, ap, false, true, List, [], some, ok, ◌++◌, Text, Bytes, codes,
}
use contextq_server.Os.{World}
use contextq_server.Os.Ends.{Ends-ok}
use contextq_server.Namespace.Data.{Key, KeyFile, IssuedKey}
use contextq_server.Namespace.Dirs.{namespace_dir}
use contextq_server.Namespace.Keys.{keys_of, has_id}
use contextq_server.Namespace.Store.{Platform, issue_key, authenticate}
use contextq_server.Namespace.Store.Files.{key_file_at}
use contextq_server.Namespace.Store.Issue.{Issued, issue_key-Ends}
use contextq_server.Namespace.Store.Authenticate.{calm}
use contextq_server.Namespace.Store.Lifecycle.{authenticate-issue_key}
use contextq_server.Paths.{join_path}
use contextq_server.Api.Args.{validate_args}
use contextq_server.Api.Bearer.{bearer_token}
use contextq_server.Api.Bearer.Client.{bearer_token-client}
use contextq_server.Api.Execute.{
  Request, Limited, Json, Job, admitted, args_or_error, checked_args, limited, decoded_args, at_eof,
  read_args, job_of, place, authenticated, admit_token, admit,
}

-- an accepted body's arguments
decoded_args_ok :
    (args : List Text) (rest : Limited)
    → at_eof rest ≡ true
    → validate_args args ≡ ok tt
    → decoded_args (ok (args, rest)) ≡ ok args
unfolding decoded_args checked_args args_or_error
decoded_args_ok args rest e v = rw (e, v) refl

module _ (p : Platform) (root : Text) (json : Json) where
  abbrev pub job_for : Key → List Text → Text → Job
  job_for k args dir = record {
    key = k;
    args = args;
    dir = dir;
    root = join_path dir (codes "contextq");
  }

  authenticated_ok :
      (request : Request) (k : Key) (args : List Text) (rest : Limited) (dir : Text)
      → json.decode_request (limited request.body) ≡ ok (args, rest)
      → at_eof rest ≡ true
      → validate_args args ≡ ok tt
      → namespace_dir root request.name ≡ ok dir
      → authenticated p root json request (ok k) ≡ admitted (job_for k args dir)
  unfolding authenticated read_args place job_of
  authenticated_ok request k args rest dir d e v n = rw (d, decoded_args_ok args rest e v, n) refl

  admit_bearer :
      (request : Request) (token : Text) (w : World)
      → bearer_token p.fold request.authorization ≡ some token
      → (admit p root json request w).0
        ≡ authenticated p root json request (authenticate p root request.name token w).0
  unfolding admit admit_token
  admit_bearer request token w h = rw h refl

  -- An issued key lets its owner in: if IssueKey returned a key whose identifier was not in use, the
  -- files are as it left them and no system call fails, then a request for the namespace with the
  -- header "Bearer " and the key's token, whose body is one JSON object with valid arguments, is let
  -- in under the new key, with these arguments, in the namespace's directory.
  pub admit-issue_key :
      (name label : Text) (i : IssuedKey) (w v : World) (body : Bytes) (args : List Text)
      (rest : Limited)
      → (issue_key p root name label w).0 ≡ ok i
      → ((dir : Text) (f : KeyFile)
          → namespace_dir root name ≡ ok dir
          → key_file_at p root w.files dir ≡ ok f
          → has_id i.id (keys_of f) ≡ false)
      → v.files ≡ (issue_key p root name label w).1.files
      → json.decode_request (limited body) ≡ ok (args, rest)
      → at_eof rest ≡ true
      → validate_args args ≡ ok tt
      → (dir : Text) × (namespace_dir root name ≡ ok dir)
        × ((admit p root json
              (record { name = name; authorization = codes "Bearer " ++ i.token; body = body })
              (calm v)).0
            ≡ admitted (
                job_for
                  (record { id = i.id; label = i.label; digest = []; created_at = i.created_at })
                  args
                  dir))
  admit-issue_key name label i w v body args rest h unused e d eof valid =
      let made : Issued p root w.files name label i (issue_key p root name label w).1.files =
        Ends-ok (issue_key-Ends p root w.files name label) w refl h in
      let request : Request = record {
        name = name;
        authorization = codes "Bearer " ++ i.token;
        body = body;
      } in
      (
        made.dir,
        made.namespace.named,
        admit_bearer request i.token (calm v)
              (bearer_token-client p.fold i.token made.not_empty made.no_space)
            ∙ ap (authenticated p root json request)
                (authenticate-issue_key p root name label i w v h unused e)
            ∙ authenticated_ok request _ args rest made.dir d eof valid made.namespace.named,
      )
