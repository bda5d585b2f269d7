-- ===== src/Namespace/Atomic.antt =====
-- writeJSONAtomic and readJSON of internal/namespace/store.go.
pub mod Write
pub mod Left
pub mod Read
use contextq_server.Prelude.{
  ℕ, ◌≡◌, Bool, true, false, ◌&&◌, ◌||◌, List, [], ◌∷◌, Option, none, some, ◌==◌, every, Result, ok,
  err, if◌then◌else◌, Bytes, codes,
}
use contextq_server.Errors.{Error, cannot_encode, bad_json, trailing_data}
use contextq_server.Os.{
  FilePath, Io, raise, lift, ◌>>=◌, ◌>>◌, finally, syscall, chmod, write, remove, rename,
  create_temp, read_file,
}
use contextq_server.Namespace.Data.{Codec}

-- the white space of JSON, which a Decoder skips before the end of its input
unfoldable pub is_json_space : ℕ → Bool
is_json_space c = c == 32 || c == 9 || c == 10 || c == 13

-- enc.Encode(v): the value is encoded before anything is written
unfoldable pub encode_to : FilePath → Option Bytes → Io (Unit {0})
unfolding write
encode_to tmp none = raise cannot_encode
encode_to tmp (some b) = write tmp b

-- one value, and nothing but white space behind it
unfoldable pub decode_all : {A : Type 0} → Option (A × Bytes) → Result Error A
unfolding is_json_space
decode_all none = err bad_json
decode_all (some (v, rest)) = if every is_json_space rest then ok v else err trailing_data

module _ {A : Type 0} (c : Codec A) where
  -- from `tmp.Chmod` to `d.Sync`
  pub fill : FilePath → FilePath → A → ℕ → Io (Unit {0})
  unfolding encode_to chmod syscall rename
  fill tmp path v mode = do
    chmod tmp mode
    encode_to tmp (c.encode v)
    syscall
    syscall
    rename tmp path
    syscall
    syscall

  unfoldable pub write_json_atomic : FilePath → A → ℕ → Io (Unit {0})
  unfolding fill syscall create_temp remove
  write_json_atomic path v mode = do
    syscall
    tmp ← create_temp path.dir (codes ".tmp-")
    finally (fill tmp path v mode) (remove tmp)

  unfoldable pub read_json : FilePath → Io A
  unfolding decode_all read_file
  read_json path = do content ← read_file path; lift (decode_all (c.decode content))
