-- ===== src/App/Local.antt =====
-- internal/app/app.go: the commands on the data of this host, `namespace` and `key`, and what Run
-- returns for their errors.
pub mod Usage
use contextq_server.Prelude.{
  ℕ, zero, suc, Bool, List, [], ◌∷◌, Option, none, some, if◌then◌else◌, ◌==◌, length, Result, ok,
  err, Text, codes, same,
}
use contextq_server.Errors.{Error}
use contextq_server.Os.{World}
use contextq_server.Namespace.Data.{Namespace, Key, IssuedKey}
use contextq_server.Namespace.Store.{Platform, issue_key, revoke_key}
use contextq_server.Namespace.Init.{init}
use contextq_server.Namespace.Listing.{list_keys}
use contextq_server.Namespace.Roster.{DirEntry, new_store, list_namespaces}
use contextq_server.Target.File.{Env}
use contextq_server.App.{AppError, App, usage, os_error, pure, lift, raise, ◌>>=◌, with_error, io}

-- What a flag set holds once it has parsed its arguments: a flag that a command does not have is
-- not read there, and `data_root` is none where it is not given.
pub record Flags : Type 0 where
  pub data_root : Option Text
  pub label : Text
  pub positional : List Text

-- what a command prints
pub data Printed : Type 0 where
  initialized : Namespace → Printed
  namespaces : List Namespace → Printed
  issued : IssuedKey → Printed
  keys : List Key → Printed
  revoked : Text → Printed

-- what the first argument names
pub data LocalCommand : Type 0 where
  on_namespaces on_keys : LocalCommand

-- parseFlags, with what flags.Parse returned
unfoldable pub parse_flags : Option Flags → ℕ → Result AppError Flags
parse_flags none positional = err usage
parse_flags (some f) positional = if length f.positional == positional then ok f else err usage

-- flags.Arg
unfoldable pub arg : ℕ → List Text → Text
arg n [] = []
arg zero (a ∷ rest) = a
arg (suc n) (a ∷ rest) = arg n rest

-- dataRootDefault, with the value of CONTEXTQ_DATA_ROOT
unfoldable pub data_root_default : Text → Text
unfolding same
data_root_default value = if same value [] then codes "/var/contextq" else value

unfoldable pub chosen_root : Text → Option Text → Text
unfolding data_root_default
chosen_root value none = data_root_default value
chosen_root value (some root) = root

-- Run, once a command has returned
unfoldable pub exit_code : {A : Type 0} → Result AppError A → ℕ
exit_code (ok a) = 0
exit_code (err usage) = 2
exit_code (err e) = 1

-- `parse` is the flag package, by the name of the flag set; `value` is CONTEXTQ_DATA_ROOT.
module _ (p : Platform) (read_dir : Text → World → Result Error (List DirEntry)) (env : Env)
    (value : Text) (parse : Text → List Text → Option Flags) where
  -- NewStore for the flags
  unfoldable pub opened : Flags → App Text
  unfolding new_store chosen_root
  opened f = lift (with_error os_error (new_store env (chosen_root value f.data_root)))

  unfoldable pub namespace_init : List Text → App Printed
  unfolding parse_flags opened init arg
  namespace_init args = do
    f ← lift (parse_flags (parse (codes "namespace init") args) 1)
    root ← opened f
    ns ← io os_error (init p root (arg 0 f.positional))
    pure (initialized ns)

  unfoldable pub namespace_list : List Text → App Printed
  unfolding parse_flags opened list_namespaces
  namespace_list args = do
    f ← lift (parse_flags (parse (codes "namespace list") args) 0)
    root ← opened f
    nss ← io os_error (list_namespaces p read_dir root)
    pure (namespaces nss)

  -- runNamespace
  unfoldable pub run_namespace : List Text → App Printed
  unfolding namespace_init namespace_list same
  run_namespace [] = raise usage
  run_namespace (verb ∷ args) =
      if same verb (codes "init")
      then namespace_init args
      else if same verb (codes "list")
      then namespace_list args
      else raise usage

  unfoldable pub key_add : List Text → App Printed
  unfolding parse_flags opened issue_key arg same
  key_add args = do
    f ← lift (parse_flags (parse (codes "key add") args) 1)
    (if same f.label [] then raise usage else do
      root ← opened f
      i ← io os_error (issue_key p root (arg 0 f.positional) f.label)
      pure (issued i))

  unfoldable pub key_list : List Text → App Printed
  unfolding parse_flags opened list_keys arg
  key_list args = do
    f ← lift (parse_flags (parse (codes "key list") args) 1)
    root ← opened f
    ks ← io os_error (list_keys p root (arg 0 f.positional))
    pure (keys ks)

  unfoldable pub key_revoke : List Text → App Printed
  unfolding parse_flags opened revoke_key arg
  key_revoke args = do
    f ← lift (parse_flags (parse (codes "key revoke") args) 2)
    root ← opened f
    io os_error (revoke_key p root (arg 0 f.positional) (arg 1 f.positional)) >>= λ _.
        pure (revoked (arg 1 f.positional))

  -- runKey
  unfoldable pub run_key : List Text → App Printed
  unfolding key_add key_list key_revoke same
  run_key [] = raise usage
  run_key (verb ∷ args) =
      if same verb (codes "add")
      then key_add args
      else if same verb (codes "list")
      then key_list args
      else if same verb (codes "revoke")
      then key_revoke args
      else raise usage

  -- the two cases of Run's switch
  unfoldable pub run_local : LocalCommand → List Text → App Printed
  unfolding run_namespace run_key
  run_local on_namespaces args = run_namespace args
  run_local on_keys args = run_key args
