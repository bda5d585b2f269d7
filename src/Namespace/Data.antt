-- ===== src/Namespace/Data.antt =====
-- The records of internal/namespace/store.go and the JSON documents that hold them.
use contextq_server.Prelude.{ℕ, ℤ, ◌≡◌, List, [], ◌∷◌, Option, some, Bytes, Text}

pub record Namespace : Type 0 where
  pub name : Text
  pub created_at : ℕ

-- `digest` is the hexadecimal SHA-256 of the token; "" is an omitted digest.
pub record Key : Type 0 where
  pub id : Text
  pub label : Text
  pub digest : Text
  pub created_at : ℕ

pub record IssuedKey : Type 0 where
  pub id : Text
  pub label : Text
  pub token : Text
  pub created_at : ℕ

-- `none` is a nil slice.
pub record KeyFile : Type 0 where
  pub version : ℤ
  pub keys : Option (List Key)

abbrev pub key_file_version : ℕ
key_file_version = 1

-- encoding/json at one type: Encoder.Encode, which ends its output by a newline, and one
-- Decoder.Decode, which returns the value and the input behind it.
pub record Codec (A : Type 0) : Type 0 where
  pub encode : A → Option Bytes
  pub decode : Bytes → Option (A × Bytes)
  -- what was encoded is decoded to itself, and the newline is left
  pub decode-encode : (a : A) (b : Bytes) → encode a ≡ some b → decode b ≡ some (a, 10 ∷ [])
