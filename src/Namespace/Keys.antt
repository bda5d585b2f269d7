-- ===== src/Namespace/Keys.antt =====
-- What the handlers of internal/namespace/store.go do with the list of keys that they have read.
pub mod Matching
use contextq_server.Prelude.{
  ℕ, ◌+◌, ◌≡◌, Bool, false, ◌&&◌, ◌||◌, List, [], ◌∷◌, Option, none, some, map, Result, ok, err,
  if◌then◌else◌, Text, Bytes, same, length, ◌==◌, is_nat, ltb,
}
use contextq_server.Errors.{Error, invalid_key, duplicate_label, key_missing, unsupported_version}
use contextq_server.Encoding.{hex_decode}
use contextq_server.Encoding.Laws.{IsByte}
use contextq_server.Namespace.Data.{Key, KeyFile, key_file_version}

-- the tests at the end of readKeyFile; nil becomes an empty slice
unfoldable pub check_version : KeyFile → Result Error KeyFile
check_version f =
    if is_nat f.version key_file_version
    then ok (record f { keys = elim f.keys [ none ↦ some [] | some ks ↦ some ks ] })
    else err (unsupported_version f.version)

abbrev pub keys_of : KeyFile → List Key
keys_of f = elim f.keys [ none ↦ [] | some ks ↦ ks ]

-- strings.EqualFold, by the case folding of one character
unfoldable pub equal_fold : (ℕ → ℕ) → Text → Text → Bool
unfolding same
equal_fold fold a b = same (map fold a) (map fold b)

-- the loop of IssueKey that looks for the label
unfoldable pub label_taken : (ℕ → ℕ) → Text → List Key → Bool
unfolding equal_fold
label_taken fold label [] = false
label_taken fold label (k ∷ ks) = equal_fold fold k.label label || label_taken fold label ks

-- the loop of RevokeKey: the keys that it keeps, and whether it found the one to drop
unfoldable pub has_id : Text → List Key → Bool
unfolding same
has_id id [] = false
has_id id (k ∷ ks) = same k.id id || has_id id ks

unfoldable pub without_id : Text → List Key → List Key
unfolding same
without_id id [] = []
without_id id (k ∷ ks) = let rest = without_id id ks in if same k.id id then rest else k ∷ rest

unfoldable pub revoke_in : Text → List Key → Result Error (List Key)
unfolding has_id without_id
revoke_in id ks = if has_id id ks then ok (without_id id ks) else err key_missing

-- The tests of Authenticate on the key that it found: the stored digest is the token's.
verify : Bytes → Key → Option Bytes → Result Error Key
unfolding same
verify digest k none = err invalid_key
verify digest k (some stored) =
    if length stored == length digest && same stored digest
    then ok (record k { digest = [] })
    else err invalid_key

-- the loop of Authenticate
unfoldable pub authenticate_in : Text → Bytes → List Key → Result Error Key
unfolding verify same hex_decode
authenticate_in id digest [] = err invalid_key
authenticate_in id digest (k ∷ ks) =
    if same k.id id then verify digest k (hex_decode k.digest) else authenticate_in id digest ks
