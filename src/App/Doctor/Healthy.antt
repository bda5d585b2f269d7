-- ===== src/App/Doctor/Healthy.antt =====
-- What a `doctor` that finds nothing has seen.
use contextq_server.Prelude.{
  suc, ◌≡◌, ◌≢◌, refl, Bool, Bool-cases, inl, inr, true, false, not, &&_parts, List, [], ◌∷◌, ◌++◌,
  ltb, Result, ok, err, arith, Text, Bytes, codes, same, same_iff,
}
use contextq_server.Os.{syscall}
use contextq_server.Paths.{join_path}
use contextq_server.Target.Data.{Target, Config, Named}
use contextq_server.Target.File.{resolve_target}
use contextq_server.Remote.Ssh.{Call, Executor, perform}
use contextq_server.App.{
  Surroundings, AppError, State, os_error, lift, ◌>>=◌, finally, io, step_inv, with_error_inv,
}
use contextq_server.App.Ensures.{Runs, After, Ensures, Ensures-bind, Ensures-io}
use contextq_server.App.Deploy.{new_session, end_session}
use contextq_server.App.Exec.{Http, client_request}
use contextq_server.App.Doctor.{
  Check, failures, report, answered_ok, health_request, true_call, service_call, files_call,
  version_call, caddy_call, key_check, version_passed, doctor_checks, doctor,
}

abbrev AllPassed : List Check → Type 0
AllPassed [] = Unit
AllPassed (c ∷ cs) = (c.passed ≡ true) × AllPassed cs

-- the runs, one after the other, return no error
abbrev pub AllSucceed : (List Call → Executor) → List Call → List Call → Type 0
AllSucceed executor before [] = Unit
AllSucceed executor before (c ∷ cs) =
    ((perform (executor before) c).failed ≡ false) × AllSucceed executor (before ++ c ∷ []) cs

failures_zero : (cs : List Check) → failures cs ≡ 0 → AllPassed cs
unfolding failures
failures_zero [] h = tt
failures_zero (c ∷ cs) h = elim (Bool-cases c.passed) [
  | inl e ↦ (e, failures_zero cs (rw e at h))
  | inr e ↦ let z : suc (failures cs) ≡ 0 = rw e at h in absurd (omega arith)
]

report_inv : (cs : List Check) {ds : List Check} → report cs ≡ ok ds → AllPassed cs
unfolding report
report_inv cs h = elim (Bool-cases (ltb 0 (failures cs))) [
  | inl e ↦ cc (rw e at h)
  | inr e ↦ failures_zero cs (ground (arith, e))
]

not-true : (b : Bool) → not b ≡ true → b ≡ false
not-true true h = cc
not-true false h = refl

-- the target of the session
abbrev pub session_of : Surroundings → Target → Target
session_of s t = record t { control_path = join_path s.control_dir (codes "control") }

new_session-runs :
    (s : Surroundings) (t : Target) (before : List Call)
    → Ensures
        (λ c. c ≡ before)
        (λ c. Unit)
        (λ session c. (session ≡ session_of s t) × (c ≡ before))
        (new_session s t)
unfolding new_session
new_session-runs s t before =
    Ensures-bind (Ensures-io os_error syscall (λ c h. tt)) λ _. record { run = λ st h. (refl, h) }

After_ok :
    {A : Type 0} (E : Runs) (R : A → Runs) (r : Result AppError A) (c : List Call) {a : A}
    → r ≡ ok a
    → After E R r c
    → R a c
After_ok E R (ok b) c {a} e x = let p : b ≡ a = cc e in rw (← p) x
After_ok E R (err d) c e x = cc e

abbrev pub queue_list : List Text
queue_list = codes "queue" ∷ codes "list" ∷ []

module _ (http : Http) (reads_info : Bytes → Bool) where
  key_check_inv :
      (t : Target)
      → (key_check http reads_info t).passed ≡ true
      → (t.key ≢ []) × (answered_ok (http.send (client_request http t queue_list)) ≡ true)
  unfolding key_check
  key_check_inv t h = elim (Bool-cases (same t.key [])) [
    | inl e ↦ cc (rw e at h)
    | inr e ↦ (λ k. cc (e, (same_iff t.key []).1 k), rw e at h)
  ]

  module _ (s : Surroundings) where
    -- the runs of `doctor`
    abbrev pub doctor_calls : Target → List Call
    doctor_calls t =
        let session = session_of s t in
        true_call session
        ∷ service_call session
        ∷ files_call session t
        ∷ version_call session t
        ∷ caddy_call session t
        ∷ []

    -- The target has a key, with which the server answers; it answers `/healthz`; and the runs behind
    -- those of `before` succeed.
    pub record Healthy (t : Target) (before : List Call) : Type 0 where
      pub has_key : t.key ≢ []
      pub is_up : answered_ok (http.send (health_request t)) ≡ true
      pub accepts_key : answered_ok (http.send (client_request http t queue_list)) ≡ true
      pub runs : AllSucceed s.executor before (doctor_calls t)

    checks-Healthy :
        (t : Target) (st : State) {cs : List Check}
        → ((doctor_checks http reads_info s (session_of s t) t >>= λ cs. lift (report cs)) st).0
          ≡ ok cs
        → Healthy t st.calls
    unfolding doctor_checks version_passed
    checks-Healthy t st h =
        let q = report_inv _ h in
        let q1 = q.1 in
        let q2 = q1.1 in
        let q3 = q2.1 in
        let q4 = q3.1 in
        let q5 = q4.1 in
        let k = key_check_inv t ((q5.1).0) in
        record {
          has_key = k.0;
          is_up = q.0;
          accepts_key = k.1;
          runs = (
            not-true _ (q1.0),
            (
              not-true _ (q2.0),
              (not-true _ (q3.0), (not-true _ ((&&_parts _ _ (q4.0)).0), (not-true _ (q5.0), tt))),
            ),
          );
        }

    session-Healthy :
        (t : Target) (st st1 : State) {cs : List Check}
        → st1.calls ≡ st.calls
        → ((new_session s t >>= λ session.
              finally
                (doctor_checks http reads_info s session t >>= λ cs. lift (report cs))
                (end_session s session))
            st1).0
          ≡ ok cs
        → Healthy t st.calls
    session-Healthy t st st1 e h =
        let n = step_inv (new_session s t) _ st1 h in
        let r =
          After_ok _ _ (new_session s t st1).0 (new_session s t st1).1.calls (n.1)
            ((new_session-runs s t st.calls).run st1 e) in
        rw (← r.1) (checks-Healthy t (new_session s t st1).1 (rw (r.0) at (n.2)))

    -- A `doctor` that returns no error has resolved a target that has a key; the server answers its
    -- health check and a request with that key with 200, and the five programs that it runs behind
    -- those before it all succeed.
    pub doctor-Healthy :
        (config_path target_name : Text) (st : State) (cs : List Check)
        → (doctor http reads_info s config_path target_name st).0 ≡ ok cs
        → (found : Config × Text × Named) × ((resolve_target s.parse s.codec s.env config_path
              target_name st.world).0
            ≡ ok found)
          × Healthy (found.2).target st.calls
    unfolding doctor
    doctor-Healthy config_path target_name st cs h =
        let q =
          step_inv (io os_error (resolve_target s.parse s.codec s.env config_path target_name)) _ st
            h in
        (
          q.0,
          with_error_inv os_error _ (q.1),
          session-Healthy ((q.0).2).target st
              (record st {
                world = (resolve_target s.parse s.codec s.env config_path target_name st.world).1;
              })
              refl (q.2),
        )
