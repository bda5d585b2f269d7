-- ===== src/Api/Execute/Answers.antt =====
-- Which answer the handler gives: 401 and 200.
use contextq_server.Prelude.{
  ℕ, ◌≡◌, ◌≢◌, ◌↔◌, ◌⊎◌, refl, true, false, Bool-cases, inl, inr, Option, none, some, is_nat, arith,
  Text, Bytes, ap,
}
use contextq_server.Os.{World}
use contextq_server.Namespace.Store.{Platform}
use contextq_server.Api.Runner.{
  CommandRunner, RunResult, RunError, no_binary, output_limit, context, not_run, deadline_exceeded,
  canceled, Command, Process, run,
}
use contextq_server.Api.Execute.{
  Response, Request, Json, Slot, acquired, deadline_passed, Job, Admission, rejected, admitted,
  unauthorized, unwritten, write_command_json, command_json, status_of_code, code_status,
  contextq_error_status, respond, serve, execute,
}
use contextq_server.Api.Execute.Admitted.{AdmittedBy, admit-AdmittedBy}
use contextq_server.Api.Execute.Refused.{
  Unauthenticated, Unauthenticated-cases, admit-Unauthenticated, Authorized, NotOk, admit-NotOk,
  admit-Authorized,
}

status_of_code_between : (code : Text) → (status_of_code code ≢ 401) × (status_of_code code ≢ 200)
unfolding status_of_code
status_of_code_between code = (ground arith, ground arith)

code_status_between : (o : Option Text) → (code_status o ≢ 401) × (code_status o ≢ 200)
unfolding code_status
code_status_between none = ((λ h. omega arith), λ h. omega arith)
code_status_between (some code) = status_of_code_between code

module _ (json : Json) where
  write_command_json_other :
      (n status : ℕ) (body : Bytes)
      → status ≢ n
      → 502 ≢ n
      → (write_command_json json status body).status ≢ n
  write_command_json_other n status body h k = elim (Bool-cases (json.is_valid body)) [
    | inl e ↦ rw e h
    | inr e ↦ rw e k
  ]

  respond_authorized : (x : RunResult × Option RunError) → (respond json x).status ≢ 401
  unfolding respond contextq_error_status
  respond_authorized (result, none) = elim (Bool-cases (is_nat result.exit_code 0)) [
    | inl e ↦
        rw e (write_command_json_other 401 200 result.stdout (λ q. omega arith) (λ q. omega arith))
    | inr e ↦ rw e (
        write_command_json_other 401 _ result.stderr
          (code_status_between (json.decode_code result.stderr)).0 (λ q. omega arith))
  ]
  respond_authorized (result, some (context deadline_exceeded)) = λ q. omega arith
  respond_authorized (result, some (context canceled)) = λ q. omega arith
  respond_authorized (result, some output_limit) = λ q. omega arith
  respond_authorized (result, some no_binary) = λ q. omega arith
  respond_authorized (result, some not_run) = λ q. omega arith

  -- what is known of a run that is answered with 200
  pub record Succeeded (x : RunResult × Option RunError) (r : Response) : Type 0 where
    pub no_error : x.1 ≡ none
    pub exit_zero : is_nat x.0.exit_code 0 ≡ true
    pub valid_json : json.is_valid x.0.stdout ≡ true
    pub its_output : r ≡ record { status = 200; challenge = false; body = command_json x.0.stdout }

  -- the run was canceled, and nothing was written
  abbrev pub Canceled : RunResult × Option RunError → Response → Type 0
  Canceled x r = (x.1 ≡ some (context canceled)) × (r ≡ unwritten)

  write_command_json_200 :
      (result : RunResult)
      → is_nat result.exit_code 0 ≡ true
      → (write_command_json json 200 result.stdout).status ≡ 200
      → Succeeded (result, none) (write_command_json json 200 result.stdout)
  write_command_json_200 result z h = elim (Bool-cases (json.is_valid result.stdout)) [
    | inl e ↦ record { no_error = refl; exit_zero = z; valid_json = e; its_output = rw e refl }
    | inr e ↦ absurd (let q : 502 ≡ 200 = rw e at h in omega arith)
  ]

  respond_200 :
      (x : RunResult × Option RunError)
      → (respond json x).status ≡ 200
      → Succeeded x (respond json x) ⊎ Canceled x (respond json x)
  unfolding respond contextq_error_status
  respond_200 (result, none) h = elim (Bool-cases (is_nat result.exit_code 0)) [
    | inl e ↦ rw e (inl (write_command_json_200 result e (rw e at h)))
    | inr e ↦ absurd (
        write_command_json_other 200 _ result.stderr
          (code_status_between (json.decode_code result.stderr)).1 (λ k. omega arith) (rw e at h))
  ]
  respond_200 (result, some (context deadline_exceeded)) h = absurd (omega arith)
  respond_200 (result, some (context canceled)) h = inr (refl, refl)
  respond_200 (result, some output_limit) h = absurd (omega arith)
  respond_200 (result, some no_binary) h = absurd (omega arith)
  respond_200 (result, some not_run) h = absurd (omega arith)

module _ (json : Json) (exec : Command → Process) (runner : CommandRunner) where
  serve-Authorized :
      (slot : Slot) (a : Admission) → Authorized a → (serve json exec runner slot a).status ≢ 401
  unfolding serve Authorized
  serve-Authorized slot (rejected r) h = h
  serve-Authorized acquired (admitted job) h =
      respond_authorized json (run exec runner job.dir job.root job.args)
  serve-Authorized deadline_passed (admitted job) h = λ q. omega arith

  serve_200 :
      (slot : Slot) (a : Admission)
      → NotOk a
      → (serve json exec runner slot a).status ≡ 200
      → (job : Job) × (slot ≡ acquired)
        × (a ≡ admitted job)
        × (Succeeded json
              (run exec runner job.dir job.root job.args)
              (serve json exec runner slot a)
            ⊎ Canceled json
                (run exec runner job.dir job.root job.args)
                (serve json exec runner slot a))
  unfolding serve NotOk
  serve_200 slot (rejected s) n h = absurd (n h)
  serve_200 acquired (admitted job) n h =
      (job, refl, refl, respond_200 json (run exec runner job.dir job.root job.args) h)
  serve_200 deadline_passed (admitted job) n h = absurd (omega arith)

module _ (p : Platform) (root : Text) (json : Json) (exec : Command → Process)
    (runner : CommandRunner) (slot : Slot) (request : Request) (w : World) where
  -- the handler's answer
  abbrev answer_of : Response
  answer_of = (execute p root json exec runner slot request w).0

  unauthenticated_answer : Unauthenticated p root json request w → answer_of ≡ unauthorized
  unfolding execute serve
  unauthenticated_answer u = rw (admit-Unauthenticated p root json request w u) refl

  answer_401 : answer_of.status ≡ 401 → Unauthenticated p root json request w
  unfolding execute
  answer_401 h = elim (Unauthenticated-cases p root json request w) [
    | inl u ↦ u
    | inr n ↦
        absurd
          (serve-Authorized json exec runner slot _ (admit-Authorized p root json request w n) h)
  ]

  -- The handler answers with the status 401 exactly if the bearer token is missing or Authenticate
  -- fails, whatever the body and the waiting for a slot; and its answer is then always the same, and
  -- no other answer is that one.
  pub execute-unauthorized_iff :
      ((execute p root json exec runner slot request w).0.status ≡ 401
        ↔ Unauthenticated p root json request w)
      × ((execute p root json exec runner slot request w).0 ≡ unauthorized
          ↔ Unauthenticated p root json request w)
  execute-unauthorized_iff = (
    (answer_401, λ u. ap (λ (r : Response). r.status) (unauthenticated_answer u)),
    (λ e. answer_401 (ap (λ (r : Response). r.status) e), unauthenticated_answer),
  )

  -- What an answer with status 200 stands for.
  pub record Served (r : Response) : Type 0 where
    pub job : Job
    pub let_in :
        AdmittedBy p root json request w job
          (execute p root json exec runner slot request w).1.files
    pub in_slot : slot ≡ acquired
    pub its_run :
        Succeeded json (run exec runner job.dir job.root job.args) r
        ⊎ Canceled json (run exec runner job.dir job.root job.args) r

  -- An answer 200 is always for a request that was let in with a key and took a slot of the server;
  -- and it is the standard output, as valid JSON, of a contextq run that returned no error and exit
  -- code 0, or it has no body and the run was canceled.
  pub execute_200 :
      (execute p root json exec runner slot request w).0.status ≡ 200
      → Served (execute p root json exec runner slot request w).0
  unfolding execute
  execute_200 h =
      let s = serve_200 json exec runner slot _ (admit-NotOk p root json request w) h in
      record {
        job = s.0;
        let_in = admit-AdmittedBy p root json request w (s.0) (s.2);
        in_slot = s.1;
        its_run = s.3;
      }
