-- ===== src/App.antt =====
-- The commands of internal/app/remote.go as actions: what a command sees of its surroundings, the
-- state that it changes, and the errors that it returns.
pub mod Ensures
pub mod Keys
pub mod Binaries
pub mod Deploy
pub mod Exec
pub mod Targets
pub mod Doctor
pub mod Local
use contextq_server.Prelude.{
  ℕ, ◌≡◌, refl, Bool, List, [], ◌∷◌, ◌++◌, Option, none, some, Result, ok, err, Text, Bytes,
}
use contextq_server.Errors.{Error}
use contextq_server.Os.{World, Io}
use contextq_server.Namespace.Data.{IssuedKey}
use contextq_server.Target.Data.{Url, Target}
use contextq_server.Target.File.{Env, ConfigCodec}
use contextq_server.Setup.{Net, SetupError}
use contextq_server.Remote.Ssh.{Call, Executor, Outcome, RemoteError, perform}

-- What a command takes from outside. `executor` answers a run as it likes, from the runs before it;
-- `control_dir` is what os.MkdirTemp makes; `binaries` are the contents of local files, `executable`
-- is os.Executable, `look_path` is exec.LookPath("contextq"), `hostname` is os.Hostname.
pub record Surroundings : Type 0 where
  pub parse : Text → Option Url
  pub net : Net
  pub codec : ConfigCodec
  pub env : Env
  pub decode_issued : Bytes → Option IssuedKey
  pub executor : List Call → Executor
  pub binaries : Text → Option Bytes
  pub executable : Option Text
  pub look_path : Option Text
  pub hostname : Option Text
  pub control_dir : Text

pub data AppError : Type 0 where
  usage no_executable no_server no_contextq bad_binary bad_reply : AppError
  os_error : Error → AppError
  remote_error : RemoteError → AppError
  setup_error : SetupError → AppError
  not_staged not_applied no_key no_answer : AppError
  http_failed doctor_failed : ℕ → AppError
  -- the key could not be saved; the token is in the message
  unsaved : Error → Text → AppError

-- the world, and the runs of programs so far
pub record State : Type 0 where
  pub world : World
  pub calls : List Call

abbrev pub App : Type 0 → Type 0
App A = State → Result AppError A × State

abbrev pub pure : {A : Type 0} → A → App A
pure a s = (ok a, s)

abbrev pub lift : {A : Type 0} → Result AppError A → App A
lift r s = (r, s)

abbrev pub raise : {A : Type 0} → AppError → App A
raise e s = (err e, s)

abbrev pub continue : {A B : Type 0} → Result AppError A → (A → App B) → App B
continue (ok a) f s = f a s
continue (err e) f s = (err e, s)

infixl 5 ◌>>=◌ ◌>>◌
abbrev pub ◌>>=◌ : {A B : Type 0} → App A → (A → App B) → App B
◌>>=◌ m f s = continue (m s).0 f (m s).1

abbrev pub ◌>>◌ : {A B : Type 0} → App A → App B → App B
m >> n = m >>= λ _. n

-- `defer`: `after` runs whatever `m` returns, and its own result is dropped.
abbrev pub finally : {A B : Type 0} → App A → App B → App A
finally m after s = ((m s).0, (after (m s).1).1)

abbrev pub with_error : {E A : Type 0} → (E → AppError) → Result E A → Result AppError A
with_error f (ok a) = ok a
with_error f (err e) = err (f e)

-- an action on the world alone, with what its error becomes
abbrev pub io : {A : Type 0} → (Error → AppError) → Io A → App A
io f m s = (with_error f (m s.world).0, record s { world = (m s.world).1 })

-- one run of a program, which is noted
abbrev pub execute : (List Call → Executor) → Call → App Outcome
execute executor c s = (ok (perform (executor s.calls) c), record s { calls = s.calls ++ c ∷ [] })

continue_inv :
    {A B : Type 0} (r : Result AppError A) (f : A → App B) (s : State) {b : B}
    → (continue r f s).0 ≡ ok b
    → (a : A) × (r ≡ ok a) × ((f a s).0 ≡ ok b)
continue_inv (ok a) f s h = (a, refl, h)
continue_inv (err e) f s h = cc

-- what came before a result
pub step_inv :
    {A B : Type 0} (m : App A) (f : A → App B) (s : State) {b : B}
    → ((m >>= f) s).0 ≡ ok b
    → (a : A) × ((m s).0 ≡ ok a) × ((f a (m s).1).0 ≡ ok b)
step_inv m f s h = continue_inv (m s).0 f (m s).1 h

pub with_error_inv :
    {E A : Type 0} (f : E → AppError) (r : Result E A) {a : A} → with_error f r ≡ ok a → r ≡ ok a
with_error_inv f (ok a) h = cc
with_error_inv f (err e) h = cc
