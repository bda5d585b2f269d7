-- ===== src/Api/Execute/Admitted.antt =====
-- What a request must be for the handler to let it in.
use mathlib.Core.Path.{subst}
use contextq_server.Prelude.{
  ◌≡◌, refl, sym, true, Bool-cases, inl, inr, List, Option, none, some, Result, ok, err, Text, ap,
}
use contextq_server.Errors.{Error}
use contextq_server.Os.{Files, World}
use contextq_server.Os.Ends.{Post}
use contextq_server.Namespace.Data.{Key}
use contextq_server.Namespace.Dirs.{namespace_dir, contextq_root}
use contextq_server.Namespace.Store.{Platform, authenticate}
use contextq_server.Namespace.Store.Authenticate.{Accepted, authenticate-Ends}
use contextq_server.Api.Args.{ArgsError, validate_args}
use contextq_server.Api.Bearer.{bearer_token}
use contextq_server.Api.Execute.{
  Response, Request, Limited, Json, Job, admitted, args_or_error, checked_args, limited,
  decoded_args, at_eof, read_args, job_of, place, authenticated, admit_token, admit,
}

args_or_error_inv :
    (args : List Text) (r : Result ArgsError (Unit {0})) {args' : List Text}
    → args_or_error args r ≡ ok args'
    → (args' ≡ args) × (r ≡ ok tt)
unfolding args_or_error
args_or_error_inv args (ok u) h = (cc, refl)
args_or_error_inv args (err e) h = cc

-- what an accepted body holds
decoded_args_inv :
    (d : Result Text (List Text × Limited)) {args : List Text}
    → decoded_args d ≡ ok args
    → (rest : Limited) × (d ≡ ok (args, rest)) × (at_eof rest ≡ true) × (validate_args args ≡ ok tt)
unfolding decoded_args checked_args
decoded_args_inv (err e) h = cc
decoded_args_inv (ok (args, rest)) h = elim (Bool-cases (at_eof rest)) [
  | inl e ↦
      let q = args_or_error_inv args (validate_args args) (rw e at h) in
      (rest, rw q.0 refl, e, rw q.0 (q.1))
  | inr e ↦ let bad : ⊥ = cc (rw e at h) in absurd bad
]

job_of_inv :
    (k : Key) (args : List Text) (d r : Result Error Text) {job : Job}
    → job_of k args d r ≡ admitted job
    → (job.key ≡ k) × (job.args ≡ args) × (d ≡ ok job.dir) × (r ≡ ok job.root)
unfolding job_of
job_of_inv k args (ok dir) (ok root) {job} h =
    let e : record { key = k; args = args; dir = dir; root = root } ≡ job = cc h in
    (
      ap (λ j. j.key) (sym e),
      ap (λ j. j.args) (sym e),
      ap (λ (j : Job). ok j.dir) e,
      ap (λ (j : Job). ok j.root) e,
    )
job_of_inv k args (ok dir) (err e) h = cc
job_of_inv k args (err e) r h = cc

module _ (p : Platform) (root : Text) (json : Json) where
  -- The body is one JSON object with arguments that are valid, and the job runs in the namespace.
  pub record Checked (request : Request) (job : Job) : Type 0 where
    pub rest : Limited
    pub decoded : json.decode_request (limited request.body) ≡ ok (job.args, rest)
    pub one_object : at_eof rest ≡ true
    pub valid_args : validate_args job.args ≡ ok tt
    pub in_dir : namespace_dir root request.name ≡ ok job.dir
    pub in_root : contextq_root root request.name ≡ ok job.root

  place_inv :
      (request : Request) (k : Key) (r : Result Response (List Text)) {job : Job}
      → place p root json request k r ≡ admitted job
      → (r ≡ ok job.args)
        × (job.key ≡ k)
        × (namespace_dir root request.name ≡ ok job.dir)
        × (contextq_root root request.name ≡ ok job.root)
  unfolding place
  place_inv request k (err r) h = cc
  place_inv request k (ok args) h =
      let q =
        job_of_inv k args (namespace_dir root request.name) (contextq_root root request.name) h in
      (ap ok (sym q.1), q.0, q.2, q.3)

  authenticated_inv :
      (request : Request) (r : Result Error Key) {job : Job}
      → authenticated p root json request r ≡ admitted job
      → (r ≡ ok job.key) × Checked request job
  unfolding authenticated read_args
  authenticated_inv request (err e) h = cc
  authenticated_inv request (ok k) h =
      let q = place_inv request k (read_args json request.body) h in
      let d = decoded_args_inv (json.decode_request (limited request.body)) q.0 in
      (
        ap ok (sym q.1),
        record {
          rest = d.0;
          decoded = d.1;
          one_object = d.2;
          valid_args = d.3;
          in_dir = q.2;
          in_root = q.3;
        },
      )

  module _ (request : Request) (w : World) where
    -- The request's token is one of the namespace's keys, and the rest of the request is in order.
    pub record AdmittedBy (job : Job) (fs : Files) : Type 0 where
      pub token : Text
      pub bearer : bearer_token p.fold request.authorization ≡ some token
      pub accepted : Accepted p root w.files request.name token job.key fs
      pub checked : Checked request job

    admit_token_inv :
        (o : Option Text) {job : Job}
        → (admit_token p root json request o w).0 ≡ admitted job
        → (token : Text) × (o ≡ some token)
          × Accepted p root w.files request.name token job.key
              (admit_token p root json request o w).1.files
          × Checked request job
    unfolding admit_token
    admit_token_inv none h = cc
    admit_token_inv (some token) {job} h =
        let r = authenticate p root request.name token w in
        let q = authenticated_inv request r.0 h in
        let post = (authenticate-Ends p root w.files request.name token).run w refl in
        (
          token,
          refl,
          subst (λ x. Post (λ fs. fs ≡ w.files) (Accepted p root w.files request.name token) x r.1)
              q.0 post,
          q.1,
        )

    -- The handler runs contextq for a request only if the request's bearer token is accepted for the
    -- namespace, the body is one JSON object, its arguments are valid, and the directories are those
    -- of the namespace. Letting it in changes no file.
    pub admit-AdmittedBy :
        (job : Job)
        → (admit p root json request w).0 ≡ admitted job
        → AdmittedBy job (admit p root json request w).1.files
    unfolding admit
    admit-AdmittedBy job h =
        let q = admit_token_inv (bearer_token p.fold request.authorization) h in
        record { token = q.0; bearer = q.1; accepted = q.2; checked = q.3 }
