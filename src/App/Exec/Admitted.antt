-- ===== src/App/Exec/Admitted.antt =====
-- A key that is issued, saved in a target and used by `exec`.
use contextq_server.Prelude.{
  append_assoc, ◌≡◌, refl, ap, ◌∙◌, false, true, List, [], ◌∷◌, ◌++◌, Option, none, some, ok, arith,
  Text, codes, All, All-append,
}
use contextq_server.Os.{World}
use contextq_server.Names.{matches_name, matches_name-IsPlainName}
use contextq_server.Names.Url.{InPath, matches_name-InPath}
use contextq_server.Namespace.Data.{KeyFile, IssuedKey}
use contextq_server.Namespace.Dirs.{namespace_dir}
use contextq_server.Namespace.Dirs.Confined.{namespace_dir_inv}
use contextq_server.Namespace.Keys.{keys_of, has_id}
use contextq_server.Namespace.Store.{Platform, issue_key}
use contextq_server.Namespace.Store.Files.{key_file_at}
use contextq_server.Namespace.Store.Authenticate.{calm}
use contextq_server.Target.Data.{Url, Target, Config, Named}
use contextq_server.Target.Config.{lookup}
use contextq_server.Target.Config.Kept.{lookup-assign}
use contextq_server.Api.Args.{validate_args}
use contextq_server.Api.Routes.{route, request_of, route-exec}
use contextq_server.Api.Execute.{Request, Limited, Json, admitted, limited, at_eof, admit}
use contextq_server.Api.Execute.Composed.{job_for, admit-issue_key}
use contextq_server.App.Keys.{target_with_key}
use contextq_server.App.Exec.{HttpRequest, Http, client_request}

-- What url.Parse does with a target's URL that is an origin, without `?` and `#`: it reads behind it
-- the path that follows it.
abbrev pub ReadsPath : (Text → Option Url) → Text → Type 0
ReadsPath parse url =
    (path : Text)
    → All InPath path
    → (u : Url) × (parse (url ++ b'/' ∷ path) ≡ some u) × (u.path ≡ b'/' ∷ path)

-- with the URL parsed
unfoldable pub routed_to : HttpRequest → Option Url → Option Request
unfolding request_of
routed_to r none = none
routed_to r (some u) = request_of (route r.method u.path) r.authorization r.body

-- The client's request at the server: its method and the path of its URL choose the handler, which is
-- given its header and its body.
unfoldable pub routed : (Text → Option Url) → HttpRequest → Option Request
unfolding routed_to
routed parse r = routed_to r (parse r.url)

routed_from :
    (r : HttpRequest) (o : Option Url) (u : Url) (path : Text)
    → o ≡ some u
    → u.path ≡ path
    → routed_to r o ≡ request_of (route r.method path) r.authorization r.body
unfolding routed_to
routed_from r o u path e k = rw (e, k) refl

exec_path : Text → Text
exec_path name = codes "v1/" ++ name ++ codes "/exec"

exec_path-InPath : (name : Text) → matches_name name ≡ true → All InPath (exec_path name)
unfolding exec_path
exec_path-InPath name m =
    All-append InPath (codes "v1/") (name ++ codes "/exec") (omega arith)
      (All-append InPath name (codes "/exec") (matches_name-InPath name m) (omega arith))

module _ (parse : Text → Option Url) (http : Http) where
  client_request-url :
      (t : Target) (args : List Text)
      → (client_request http t args).url ≡ t.url ++ b'/' ∷ exec_path t.namespace
  unfolding client_request exec_path
  client_request-url t args =
      append_assoc (t.url ++ codes "/v1/") t.namespace (codes "/exec")
      ∙ append_assoc t.url (codes "/v1/") (t.namespace ++ codes "/exec")

  routed_request :
      (t : Target) (args : List Text)
      → ReadsPath parse t.url
      → matches_name t.namespace ≡ true
      → routed parse (client_request http t args)
        ≡ some (record {
          name = t.namespace;
          authorization = codes "Bearer " ++ t.key;
          body = http.encode_args args;
        })
  unfolding routed client_request request_of exec_path
  routed_request t args reads m =
      let r = client_request http t args in
      let q = reads (exec_path t.namespace) (exec_path-InPath t.namespace m) in
      routed_from r (parse r.url) (q.0) (b'/' ∷ exec_path t.namespace)
        (ap parse (client_request-url t args) ∙ q.1) (q.2)
      ∙ ap (λ o. request_of o r.authorization r.body)
          (route-exec t.namespace (matches_name-IsPlainName t.namespace m))

module _ (p : Platform) (root : Text) (json : Json) (http : Http) (parse : Text → Option Url) where
  -- From the issued key to the handler: if IssueKey returned a key whose identifier was not in use,
  -- the client saved its token in a target for the namespace, the files are as IssueKey left them and
  -- no system call fails, then the request that `exec` sends for that target, by its method and its
  -- URL, is routed to the handler, which lets it in, under the new key, with the arguments of `exec`,
  -- in the namespace's directory. url.Parse reads the path behind the target's URL, the server's
  -- decoder reads what the client's encoder wrote, and the arguments are valid.
  pub admit-client_request :
      (cfg : Config) (named : Named) (label : Text) (i : IssuedKey) (w v : World) (args : List Text)
      (rest : Limited)
      → ReadsPath parse named.target.url
      → (issue_key p root named.target.namespace label w).0 ≡ ok i
      → ((dir : Text) (f : KeyFile)
          → namespace_dir root named.target.namespace ≡ ok dir
          → key_file_at p root w.files dir ≡ ok f
          → has_id i.id (keys_of f) ≡ false)
      → v.files ≡ (issue_key p root named.target.namespace label w).1.files
      → json.decode_request (limited (http.encode_args args)) ≡ ok (args, rest)
      → at_eof rest ≡ true
      → validate_args args ≡ ok tt
      → (t : Target) × (lookup named.name (target_with_key cfg named i.token).targets ≡ some t)
        × ((request : Request) × (routed parse (client_request http t args) ≡ some request)
            × ((dir : Text) × (namespace_dir root named.target.namespace ≡ ok dir)
                × ((admit p root json request (calm v)).0
                    ≡ admitted (
                        job_for p root json
                          (record {
                            id = i.id;
                            label = i.label;
                            digest = [];
                            created_at = i.created_at;
                          })
                          args
                          dir))))
  unfolding target_with_key
  admit-client_request cfg named label i w v args rest reads h unused e d eof valid =
      let t : Target = record named.target { key = i.token } in
      let q =
        admit-issue_key p root json named.target.namespace label i w v (http.encode_args args) args
          rest h unused e d eof valid in
      (
        t,
        lookup-assign named.name t cfg.targets,
        (
          _,
          routed_request parse http t args reads
              ((namespace_dir_inv root named.target.namespace (q.1)).0),
          q,
        ),
      )
