-- ===== src/Api/Execute/Refused.antt =====
-- When the handler answers 401, and what else it may answer before anything has run.
use mathlib.Core.Path.{subst}
use contextq_server.Prelude.{
  ◌≢◌, Option-cases, Result-cases, ◌≡◌, refl, Bool-cases, inl, inr, ◌⊎◌, List, Option, none, some,
  Result, ok, err, arith, Text,
}
use contextq_server.Errors.{Error}
use contextq_server.Os.{World}
use contextq_server.Os.Ends.{Post}
use contextq_server.Namespace.Data.{Key}
use contextq_server.Namespace.Dirs.{namespace_dir, contextq_root}
use contextq_server.Namespace.Store.{Platform, authenticate}
use contextq_server.Namespace.Store.Authenticate.{Accepted, authenticate-Ends}
use contextq_server.Api.Args.{ArgsError, validate_args}
use contextq_server.Api.Bearer.{bearer_token}
use contextq_server.Api.Execute.{
  Response, Request, Limited, Json, Admission, rejected, admitted, unauthorized, args_or_error,
  checked_args, limited, decoded_args, at_eof, read_args, job_of, place, authenticated, admit_token,
  admit,
}

args_or_error-err :
    (args : List Text) (r : Result ArgsError (Unit {0})) (e : Response)
    → args_or_error args r ≡ err e
    → e.status ≡ 400
unfolding args_or_error
args_or_error-err args (ok u) e h = cc
args_or_error-err args (err x) e h = cc

decoded_args-err :
    (d : Result Text (List Text × Limited)) (e : Response) → decoded_args d ≡ err e → e.status ≡ 400
unfolding decoded_args checked_args
decoded_args-err (err x) e h = cc
decoded_args-err (ok (args, rest)) e h = elim (Bool-cases (at_eof rest)) [
  | inl t ↦ args_or_error-err args (validate_args args) e (rw t at h)
  | inr t ↦ cc (rw t at h)
]

-- not answered with success before anything has run
unfoldable pub NotOk : Admission → Type 0
NotOk (rejected r) = r.status ≢ 200
NotOk (admitted job) = Unit {0}

job_of-NotOk : (k : Key) (args : List Text) (d r : Result Error Text) → NotOk (job_of k args d r)
unfolding job_of NotOk
job_of-NotOk k args (ok dir) (ok root) = tt
job_of-NotOk k args (ok dir) (err e) = λ q. omega arith
job_of-NotOk k args (err e) r = λ q. omega arith

-- not turned away for want of a key
unfoldable pub Authorized : Admission → Type 0
Authorized (rejected r) = r.status ≢ 401
Authorized (admitted job) = Unit {0}

module _ (p : Platform) (root : Text) (json : Json) where
  place-NotOk :
      (request : Request) (k : Key) (r : Result Response (List Text))
      → ((e : Response) → r ≡ err e → e.status ≡ 400)
      → NotOk (place p root json request k r)
  unfolding place NotOk
  place-NotOk request k (err e) h = rw (h e refl) (λ q. omega arith)
  place-NotOk request k (ok args) h =
      job_of-NotOk k args (namespace_dir root request.name) (contextq_root root request.name)

  authenticated-NotOk :
      (request : Request) (r : Result Error Key) → NotOk (authenticated p root json request r)
  unfolding authenticated read_args NotOk
  authenticated-NotOk request (err e) = λ q. omega arith
  authenticated-NotOk request (ok k) =
      place-NotOk request k (read_args json request.body)
        (decoded_args-err (json.decode_request (limited request.body)))

  module _ (request : Request) (w : World) where
    -- The bearer token is missing, or Authenticate fails.
    abbrev pub Unauthenticated : Type 0
    Unauthenticated =
        (bearer_token p.fold request.authorization ≡ none)
        ⊎ ((token : Text) × (e : Error) × (bearer_token p.fold request.authorization ≡ some token)
            × ((authenticate p root request.name token w).0 ≡ err e))

    admit_token_refused :
        (o : Option Text)
        → (o ≡ none)
          ⊎ ((token : Text) × (e : Error) × (o ≡ some token)
              × ((authenticate p root request.name token w).0 ≡ err e))
        → (admit_token p root json request o w).0 ≡ rejected unauthorized
    unfolding admit_token authenticated
    admit_token_refused none h = refl
    admit_token_refused (some token) (inl h) = cc
    admit_token_refused (some token) (inr (t, e, q, h)) =
        let same_token : t ≡ token = cc in rw (rw same_token at h) refl

    -- A request without a key of the namespace is refused in one way, whatever went wrong and whatever
    -- else it holds.
    pub admit-Unauthenticated :
        Unauthenticated → (admit p root json request w).0 ≡ rejected unauthorized
    unfolding admit
    admit-Unauthenticated h = admit_token_refused (bearer_token p.fold request.authorization) h

    place-Authorized :
        (k : Key) (dir : Text) (r : Result Response (List Text))
        → namespace_dir root request.name ≡ ok dir
        → ((e : Response) → r ≡ err e → e.status ≡ 400)
        → Authorized (place p root json request k r)
    unfolding place contextq_root job_of Authorized
    place-Authorized k dir (err e) n h = rw (h e refl) (λ q. omega arith)
    place-Authorized k dir (ok args) n h = rw n tt

    admit_token-Authorized :
        (o : Option Text) (token : Text) (k : Key)
        → o ≡ some token
        → (authenticate p root request.name token w).0 ≡ ok k
        → Authorized (admit_token p root json request o w).0
    unfolding admit_token authenticated read_args
    admit_token-Authorized none token k q h = cc
    admit_token-Authorized (some t) token k q h =
        let same_token : t ≡ token = cc in
        let a : (authenticate p root request.name t w).0 ≡ ok k = rw same_token h in
        let post = (authenticate-Ends p root w.files request.name t).run w refl in
        let acc : Accepted p root w.files request.name t k
            (authenticate p root request.name t w).1.files =
          subst
            (λ x.
              Post (λ fs. fs ≡ w.files) (Accepted p root w.files request.name t) x
                (authenticate p root request.name t w).1)
            a post in
        rw a (
          place-Authorized k acc.dir (read_args json request.body) acc.namespace.named
            (decoded_args-err (json.decode_request (limited request.body))))

    accepted_not :
        (token : Text) (k : Key)
        → bearer_token p.fold request.authorization ≡ some token
        → (authenticate p root request.name token w).0 ≡ ok k
        → ¬ Unauthenticated
    accepted_not token k b a (inl e) = cc
    accepted_not token k b a (inr (t, e, q, h)) =
        let same_token : t ≡ token = cc in cc (rw same_token at h)

    pub Unauthenticated-cases : Unauthenticated ⊎ (¬ Unauthenticated)
    Unauthenticated-cases = elim (Option-cases (bearer_token p.fold request.authorization)) [
      | inl e ↦ inl (inl e)
      | inr e ↦ elim (Result-cases (authenticate p root request.name (e.0) w).0) [
        | inl k ↦ inr (accepted_not (e.0) (k.0) (e.1) (k.1))
        | inr x ↦ inl (inr (e.0, x.0, e.1, x.1))
      ]
    ]

    pub admit-Authorized : (¬ Unauthenticated) → Authorized (admit p root json request w).0
    unfolding admit
    admit-Authorized n = elim (Option-cases (bearer_token p.fold request.authorization)) [
      | inl e ↦ absurd (n (inl e))
      | inr e ↦ elim (Result-cases (authenticate p root request.name (e.0) w).0) [
        | inl k ↦ admit_token-Authorized _ (e.0) (k.0) (e.1) (k.1)
        | inr x ↦ absurd (n (inr (e.0, x.0, e.1, x.1)))
      ]
    ]

    admit_token-NotOk : (o : Option Text) → NotOk (admit_token p root json request o w).0
    unfolding admit_token NotOk
    admit_token-NotOk none = λ q. omega arith
    admit_token-NotOk (some t) =
        authenticated-NotOk request (authenticate p root request.name t w).0

    pub admit-NotOk : NotOk (admit p root json request w).0
    unfolding admit
    admit-NotOk = admit_token-NotOk (bearer_token p.fold request.authorization)
