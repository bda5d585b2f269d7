-- ===== src/Target/File.antt =====
-- The file of the targets: DefaultPath, Load and Save of internal/target/config.go, and the functions
-- of internal/app/remote.go that call them.
pub mod Saved
pub mod Left
use contextq_server.Prelude.{
  ◌≡◌, Bool, not, ◌&&◌, [], ◌∷◌, Option, none, some, if◌then◌else◌, is_nat, pos, Result, ok, err,
  Text, Bytes, codes, same, All,
}
use contextq_server.Errors.{Error, not_exist, io_failure, unsupported_version, bad_config, no_home}
use contextq_server.Strings.{trim_space}
use contextq_server.Paths.{is_abs, clean, join_path, path_dir, path_base}
use contextq_server.Os.{
  FilePath, Io, lift, attempt, pure, ◌>>=◌, ◌>>◌, finally, syscall, chmod, remove, rename,
  create_temp, read_file,
}
use contextq_server.Namespace.Atomic.{encode_to, decode_all}
use contextq_server.Target.Data.{Url, Config, Named, TargetError}
use contextq_server.Target.Config.{validate_config, resolve}
use contextq_server.Target.Config.Same.{SameConfig}

-- What the program sees of its environment: CONTEXTQ_SERVER_CONFIG ("" if it is not set),
-- os.UserHomeDir, the working directory, and whether os.Getwd finds it.
pub record Env : Type 0 where
  pub config_variable : Text
  pub home : Option Text
  pub cwd : Text
  pub getwd_works : Bool

-- ControlPath has the tag `json:"-"`: it is not in the file.
abbrev pub NoControlPath : Config → Type 0
NoControlPath c = All (λ x. x.1.control_path ≡ []) c.targets

-- encoding/json at Config: Encoder.Encode, and a Decoder that does not allow unknown fields
pub record ConfigCodec : Type 0 where
  pub encode : Config → Option Bytes
  pub decode : Bytes → Option (Config × Bytes)
  -- What was encoded is decoded to the same configuration, and the newline is left. The order of the
  -- targets is not kept: the encoder sorts the keys of a map.
  pub decode-encode :
      (c : Config) (b : Bytes)
      → NoControlPath c
      → encode c ≡ some b
      → (d : Config) × (decode b ≡ some (d, 10 ∷ [])) × SameConfig c d

-- the absolute path of a path
unfoldable pub resolved_path : Env → Text → Text
unfolding is_abs clean join_path
resolved_path env path = if is_abs path then clean path else join_path env.cwd path

-- filepath.Abs
unfoldable pub abs_path : Env → Text → Result Error Text
unfolding resolved_path
abs_path env path =
    if not (is_abs path) && not env.getwd_works then err io_failure else ok (resolved_path env path)

unfoldable pub home_path : Option Text → Result Error Text
unfolding join_path
home_path none = err no_home
home_path (some home) = ok (join_path home (codes ".contextq-server"))

-- DefaultPath
unfoldable pub default_path : Env → Result Error Text
unfolding abs_path home_path trim_space same
default_path env =
    let path = trim_space env.config_variable in
    if not (same path []) then abs_path env path else home_path env.home

-- the path of Load and Save: the default if it is blank
unfoldable pub chosen_path : Env → Text → Result Error Text
unfolding default_path trim_space same
chosen_path env path = if same (trim_space path) [] then default_path env else ok path

-- the file that an absolute path names
unfoldable pub file_of : Text → FilePath
unfolding path_dir path_base
file_of path = record { dir = path_dir path; base = path_base path }

unfoldable pub checked_config : Result TargetError Config → Result Error Config
checked_config (ok c) = ok c
checked_config (err e) = err (bad_config e)

unfoldable pub checked_named : Result TargetError Named → Result Error Named
checked_named (ok n) = ok n
checked_named (err e) = err (bad_config e)

abbrev pub no_targets : Config
no_targets = record { version = pos 1; default_name = []; targets = [] }

module _ (parse : Text → Option Url) (codec : ConfigCodec) (env : Env) where
  -- Load, once the file is decoded
  unfoldable pub accept : Result Error Config → Result Error Config
  unfolding checked_config validate_config
  accept (err e) = err e
  accept (ok c) =
      if not (is_nat c.version 1)
      then err (unsupported_version c.version)
      else checked_config (validate_config parse c)

  -- Load, once the file is opened or not
  unfoldable pub loaded : Result Error Bytes → Result Error Config
  unfolding accept decode_all
  loaded (ok content) = accept (decode_all (codec.decode content))
  loaded (err not_exist) = ok no_targets
  loaded (err e) = err e

  -- Load
  unfoldable pub load : Text → Io Config
  unfolding loaded chosen_path file_of resolved_path read_file
  load path = do
    p ← lift (chosen_path env path)
    content ← attempt (read_file (file_of (resolved_path env p)))
    lift (loaded content)

  -- Save, from `tmp.Chmod` to os.Rename
  unfoldable pub save_to : FilePath → FilePath → Config → Io (Unit {0})
  unfolding chmod encode_to syscall rename
  save_to tmp path c = do
    chmod tmp 0o600
    encode_to tmp (codec.encode c)
    syscall
    syscall
    rename tmp path

  -- Save
  unfoldable pub save : Config → Text → Io (Unit {0})
  unfolding checked_config validate_config chosen_path abs_path syscall create_temp save_to file_of
      remove
  save config path = do
    c ← lift (checked_config (validate_config parse config))
    p ← lift (chosen_path env path)
    absolute ← lift (abs_path env p)
    syscall
    tmp ← create_temp (path_dir absolute) (codes ".contextq-server-")
    finally (save_to tmp (file_of absolute) c) (remove tmp)

  -- loadTargets: the flag's path, or the default
  unfoldable pub load_targets : Text → Io (Config × Text)
  unfolding load default_path same
  load_targets config_path = do
    path ← lift (if same config_path [] then default_path env else ok config_path)
    c ← load path
    pure (c, path)

  -- resolveTarget
  unfoldable pub resolve_target : Text → Text → Io (Config × Text × Named)
  unfolding load_targets checked_named resolve
  resolve_target config_path name = do
    found ← load_targets config_path
    named ← lift (checked_named (resolve parse found.0 name))
    pure (found.0, found.1, named)
