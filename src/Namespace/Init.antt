-- ===== src/Namespace/Init.antt =====
-- Store.Init and Store.Exists of internal/namespace/store.go.
pub mod Keeps
use contextq_server.Prelude.{
  Bool, true, false, List, [], Option, none, some, pos, Result, ok, err, if◌then◌else◌, Text, same,
}
use contextq_server.Errors.{Error, not_exist, metadata_mismatch}
use contextq_server.Os.{
  FilePath, World, Io, pure, raise, lift, attempt, ◌>>=◌, ◌>>◌, syscall, stat, with_lock, now,
}
use contextq_server.Namespace.Data.{Namespace, KeyFile, key_file_version}
use contextq_server.Namespace.Dirs.{namespace_dir, contextq_root}
use contextq_server.Namespace.Atomic.{write_json_atomic, read_json}
use contextq_server.Namespace.Store.{
  Platform, keys_path, metadata_path, namespace_lock, write_key_file,
}

abbrev pub empty_key_file : KeyFile
empty_key_file = record { version = pos key_file_version; keys = some [] }

unfoldable pub is_ok : Result Error (Unit {0}) → Bool
is_ok (ok u) = true
is_ok (err e) = false

module _ (p : Platform) (root : Text) where
  -- the branches on what readNamespace returned
  unfoldable pub settle : Text → Text → Result Error Namespace → Io Namespace
  settle dir name (ok existing) =
      if same existing.name name then pure existing else raise metadata_mismatch
  settle dir name (err not_exist) = do
    t ← now
    let ns : Namespace = record { name = name; created_at = t }
    write_json_atomic p.namespaces (metadata_path dir) ns 0o640
    pure ns
  settle dir name (err e) = raise e

  -- the branches on what os.Stat returned for the key file
  unfoldable pub ensure_keys : Text → Result Error (Unit {0}) → Io (Unit {0})
  ensure_keys dir (ok u) = pure tt
  ensure_keys dir (err not_exist) = write_key_file p root dir empty_key_file
  ensure_keys dir (err e) = raise e

  unfoldable pub init_locked : Text → Text → Io Namespace
  init_locked dir name = do
    existing ← attempt (read_json p.namespaces (metadata_path dir))
    ns ← settle dir name existing
    r ← attempt (stat (keys_path dir))
    ensure_keys dir r
    pure ns

  -- Directories are not kept: os.MkdirAll and os.Chmod of the namespace's are calls that may fail.
  unfoldable pub init : Text → Io Namespace
  init name = do
    dir ← lift (namespace_dir root name)
    syscall
    syscall
    with_lock (namespace_lock dir) (init_locked dir name)

  unfoldable pub exists_stat : Result Error Text → World → Bool × World
  exists_stat (err e) w = (false, w)
  exists_stat (ok dir) w = let r = stat (metadata_path dir) w in (is_ok r.0, r.1)

  -- Store.Exists
  unfoldable pub exists_namespace : Text → World → Bool × World
  exists_namespace name w = exists_stat (namespace_dir root name) w
