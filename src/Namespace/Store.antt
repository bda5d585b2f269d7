-- ===== src/Namespace/Store.antt =====
-- The operations of Store in internal/namespace/store.go, on the world of Os.
pub mod Files
pub mod Changes
pub mod Authenticate
pub mod Issue
pub mod Lifecycle
pub mod Revoke
use contextq_server.Prelude.{
  ℕ, Bool, true, false, not, ◌≡◌, List, [], ◌∷◌, ◌++◌, Option, none, some, pos, map, Result, ok,
  err, if◌then◌else◌, Text, Bytes, codes, same, length, All,
}
use contextq_server.Errors.{
  Error, duplicate_label, invalid_key, namespace_missing, metadata_mismatch, not_exist,
}
use contextq_server.Strings.{trim_space, utf8}
use contextq_server.Encoding.{hex_encode}
use contextq_server.Encoding.Laws.{IsByte}
use contextq_server.Os.{
  FilePath, World, Io, pure, raise, lift, attempt, ◌>>=◌, ◌>>◌, syscall, stat, with_lock,
  random_bytes, now,
}
use contextq_server.Namespace.Data.{Namespace, Key, IssuedKey, KeyFile, Codec, key_file_version}
use contextq_server.Namespace.Labels.{validate_label}
use contextq_server.Namespace.Tokens.{key_id, new_id, new_token}
use contextq_server.Namespace.Dirs.{namespace_dir}
use contextq_server.Namespace.Atomic.{write_json_atomic, read_json}
use contextq_server.Namespace.Keys.{check_version, keys_of, label_taken, revoke_in, authenticate_in}

-- What the store takes from Go's library: JSON at two types, SHA-256, and the case folding of one
-- character. A digest has 32 bytes.
pub record Platform : Type 0 where
  pub namespaces : Codec Namespace
  pub key_files : Codec KeyFile
  pub sha256 : Bytes → Bytes
  pub fold : ℕ → ℕ
  pub sha256_length : (b : Bytes) → length (sha256 b) ≡ 32
  pub sha256_bytes : (b : Bytes) → All IsByte (sha256 b)

-- filepath.Join(dir, …) at the names that the store uses
abbrev pub keys_path : Text → FilePath
keys_path dir = record { dir = dir; base = codes "keys.json" }

abbrev pub metadata_path : Text → FilePath
metadata_path dir = record { dir = dir; base = codes "namespace.json" }

abbrev pub keys_lock : Text → FilePath
keys_lock dir = record { dir = dir; base = codes ".keys.lock" }

abbrev pub namespace_lock : Text → FilePath
namespace_lock dir = record { dir = dir; base = codes ".namespace.lock" }

-- `errors.Is(err, os.ErrNotExist)` after os.Stat
missing_as : Error → Result Error (Unit {0}) → Result Error (Unit {0})
missing_as e (ok u) = ok u
missing_as e (err not_exist) = err e
missing_as e (err other) = err other

-- Authenticate hides why a namespace has no directory.
hide : Result Error Text → Result Error Text
hide (ok dir) = ok dir
hide (err e) = err invalid_key

id_or_invalid : Option Text → Result Error Text
id_or_invalid none = err invalid_key
id_or_invalid (some id) = ok id

module _ (p : Platform) (root : Text) where
  unfoldable pub existing_dir : Text → Io Text
  unfolding namespace_dir stat missing_as
  existing_dir name = do
    dir ← lift (namespace_dir root name)
    r ← attempt (stat (metadata_path dir))
    lift (missing_as namespace_missing r)
    pure dir

  unfoldable pub read_key_file : Text → Io KeyFile
  unfolding read_json check_version
  read_key_file dir = do f ← read_json p.key_files (keys_path dir); lift (check_version f)

  unfoldable pub write_key_file : Text → KeyFile → Io (Unit {0})
  unfolding write_json_atomic
  write_key_file dir f = write_json_atomic p.key_files (keys_path dir) f 0o600

  -- the key that is stored for a token
  abbrev pub stored_key : Text → Text → Text → ℕ → Key
  stored_key id label token created_at = record {
    id = id;
    label = label;
    digest = hex_encode (p.sha256 (utf8 token));
    created_at = created_at;
  }

  abbrev pub add_key : KeyFile → Key → KeyFile
  add_key f k = record f { keys = some (keys_of f ++ k ∷ []) }

  -- IssueKey under the lock, behind the test of the label
  issue_fresh : Text → Text → KeyFile → Io IssuedKey
  unfolding random_bytes write_key_file new_id new_token
  issue_fresh dir label f = do
    id_bytes ← random_bytes 6
    secret ← random_bytes 32
    created_at ← now
    let id = new_id id_bytes
    let token = new_token id secret
    write_key_file dir (add_key f (stored_key id label token created_at))
    pure (record { id = id; label = label; token = token; created_at = created_at })

  issue_locked : Text → Text → Io IssuedKey
  unfolding read_key_file issue_fresh label_taken
  issue_locked dir label = do
    f ← read_key_file dir
    if label_taken p.fold label (keys_of f) then raise duplicate_label else issue_fresh dir label f

  unfoldable pub issue_key : Text → Text → Io IssuedKey
  unfolding existing_dir issue_locked with_lock validate_label trim_space
  issue_key name label = do
    lift (validate_label (trim_space label))
    dir ← existing_dir name
    with_lock (keys_lock dir) (issue_locked dir (trim_space label))

  revoke_locked : Text → Text → Io (Unit {0})
  unfolding read_key_file write_key_file revoke_in
  revoke_locked dir id = do
    f ← read_key_file dir
    kept ← lift (revoke_in id (keys_of f))
    write_key_file dir (record f { keys = some kept })

  unfoldable pub revoke_key : Text → Text → Io (Unit {0})
  unfolding existing_dir revoke_locked with_lock
  revoke_key name id = do dir ← existing_dir name; with_lock (keys_lock dir) (revoke_locked dir id)

  unfoldable pub authenticate : Text → Text → Io Key
  unfolding existing_dir read_key_file authenticate_in key_id hide id_or_invalid utf8
  authenticate name token = do
    r ← attempt (existing_dir name)
    dir ← lift (hide r)
    id ← lift (id_or_invalid (key_id token))
    f ← read_key_file dir
    lift (authenticate_in id (p.sha256 (utf8 token)) (keys_of f))
