-- ===== src/App/Exec/Answered.antt =====
-- What an `exec` that succeeds has done.
use contextq_server.Prelude.{
  ◌≤◌, ◌<◌, ◌≡◌, ◌≢◌, refl, Bool-cases, inl, inr, List, [], Option, none, some, ltb, length, take,
  arith, ok, Text, Bytes, same, same_iff,
}
use contextq_server.Target.Data.{Config, Named}
use contextq_server.Target.File.{resolve_target}
use contextq_server.App.{Surroundings, State, os_error, io, step_inv, with_error_inv}
use contextq_server.App.Exec.{
  HttpResponse, Http, answer_limit, is_success, answered, client_request, client_send, client_exec,
}

module _ (http : Http) where
  -- The target has a key, and the output is the beginning of a successful answer to the request that
  -- the client makes for it.
  pub record Answered (named : Named) (args : List Text) (output : Bytes) : Type 0 where
    pub has_key : named.target.key ≢ []
    pub response : HttpResponse
    pub sent : http.send (client_request http named.target args) ≡ some response
    pub low : 200 ≤ response.status
    pub high : response.status < 300
    pub its_output : output ≡ take answer_limit response.body

  answered_inv :
      (o : Option HttpResponse) {b : Bytes}
      → answered o ≡ ok b
      → (r : HttpResponse) × (o ≡ some r)
        × (200 ≤ r.status)
        × (r.status < 300)
        × (b ≡ take answer_limit r.body)
  unfolding answered is_success
  answered_inv none h = cc
  answered_inv (some r) h = elim (Bool-cases (is_success r.status)) [
    | inl e ↦ (r, refl, ground (arith, e), ground (arith, e), cc (rw e at h))
    | inr e ↦ cc (rw e at h)
  ]

  client_send-Answered :
      (named : Named) (args : List Text) (st : State) {b : Bytes}
      → (client_send http named args st).0 ≡ ok b
      → Answered named args b
  unfolding client_send
  client_send-Answered named args st h = elim (Bool-cases (same named.target.key [])) [
    | inl e ↦ cc (rw e at h)
    | inr e ↦
        let q = answered_inv (http.send (client_request http named.target args)) (rw e at h) in
        record {
          has_key = λ k. cc (e, (same_iff named.target.key []).1 k);
          response = q.0;
          sent = q.1;
          low = q.2;
          high = q.3;
          its_output = q.4;
        }
  ]

  -- An `exec` that succeeds has at least two arguments and a target that was resolved and has a key;
  -- the client has sent the request for it, the status of the answer is from 200 to 299, and what is
  -- printed is the answer's body, up to the limit.
  pub client_exec-Answered :
      (s : Surroundings) (config_path target_name : Text) (args : List Text) (st : State)
      (output : Bytes)
      → (client_exec http s config_path target_name args st).0 ≡ ok output
      → (2 ≤ length args)
        × ((found : Config × Text × Named) × ((resolve_target s.parse s.codec s.env config_path
                target_name st.world).0
              ≡ ok found)
            × Answered found.2 args output)
  unfolding client_exec
  client_exec-Answered s config_path target_name args st output h =
      elim (Bool-cases (ltb (length args) 2)) [
        | inl e ↦ cc (rw e at h)
        | inr e ↦
            let q =
              step_inv (io os_error (resolve_target s.parse s.codec s.env config_path target_name))
                (λ found. client_send http found.2 args) st (rw e at h) in
            (
              ground (arith, e),
              (q.0, with_error_inv os_error _ (q.1), client_send-Answered (q.0).2 args _ (q.2)),
            )
      ]
