-- ===== src/Tests/Store.antt =====
-- A key's life in the namespace `n` under `/d`.
use contextq_server.Prelude.{
  ◌≡◌, refl, ◌≢◌, true, false, List, [], ◌∷◌, ◌++◌, Option, none, some, pos, ok, Text, Bytes, codes,
  sym, same, same_iff, ◌↔◌,
}
use contextq_server.Os.{File, Files, World, put, same_path}
use contextq_server.Namespace.Data.{Key, KeyFile, IssuedKey}
use contextq_server.Namespace.Store.{keys_path, metadata_path, issue_key, revoke_key, authenticate}
use contextq_server.Namespace.Dirs.{namespace_dir}
use contextq_server.Namespace.Tokens.{key_id}
use contextq_server.Namespace.Keys.{keys_of, has_id}
use contextq_server.Namespace.Store.Files.{key_file_at}
use contextq_server.Namespace.Store.Authenticate.{calm, Accepted, authenticate-Ends}
use contextq_server.Namespace.Store.Lifecycle.{
  authenticate-issue_key, issue_key_keeps_others, revoke_key_refuses, revoke_key_keeps_others,
}
use contextq_server.Namespace.Store.Issue.{Issued, IssueEnds, issue_key-Ends}
use contextq_server.Namespace.Store.Revoke.{Revoked, RevokeEnds, revoke_key-Ends}
use contextq_server.Namespace.Atomic.{write_json_atomic}
use contextq_server.Namespace.Atomic.Write.{Saved, Whole}
use contextq_server.Namespace.Atomic.Left.{OneLeft, write-Leaves}
use contextq_server.Namespace.Init.{init}
use contextq_server.Namespace.Init.Keeps.{KeepsKeys, init-KeepsKeys}
use contextq_server.Namespace.Listing.{list_keys}
use contextq_server.Namespace.Listing.Hidden.{Listed, list_keys-Ends}
use contextq_server.Namespace.Dirs.Confined.{namespace_dir_confined, namespace_dir_injective}
use contextq_server.Namespace.Labels.{validate_label}
use contextq_server.Namespace.Labels.Accepts.{IsLabel, validate_label_iff}
use contextq_server.Namespace.Spec.{Keyring, Call, issue, use_token, revoke, perform_all, Moves}
use contextq_server.Namespace.Spec.View.{view}
use contextq_server.Namespace.Spec.Refines.{Holds, perform_all-Moves}
use contextq_server.Os.Ends.{Ends}
use contextq_server.Os.Temp.{is_temp}
use contextq_server.Paths.{is_abs}
use contextq_server.Paths.Join.{resolved}
use contextq_server.Strings.{join, is_space, has_prefix}
use mathlib.Core.Path.{subst}
use contextq_server.Tests.Json.{platform, key_file_codec}

abbrev pub data_root : Text
data_root = codes "/d"

abbrev pub dir : Text
dir = codes "/d/n"

abbrev pub file_of : Option Bytes → Option File
file_of none = none
file_of (some b) = some (record { mode = 0o600; content = b })

abbrev pub first_key : Key
first_key = record {
  id = codes "k_aa";
  label = codes "first";
  digest = codes "0a0102030405060708090a0b0c0d0e0f101112131415161718191a1b1c1d1e1f";
  created_at = 3;
}

abbrev pub files : Files
files =
    put (keys_path dir)
      (file_of (key_file_codec.encode (record { version = pos 1; keys = some (first_key ∷ []) })))
      (put (metadata_path dir) (file_of (some [])) (λ _. none))

abbrev pub world : World
world = record {
  files = files;
  faults = [];
  entropy =
      1 ∷ 2 ∷ 3 ∷ 4 ∷ 5 ∷ 6 ∷ 0 ∷ 0 ∷ 0 ∷ 0 ∷ 0 ∷ 0 ∷ 0 ∷ 0 ∷ 0 ∷ 0 ∷ 0 ∷ 0 ∷ 0 ∷ 0 ∷ 0 ∷ 0 ∷ 0 ∷ 0
      ∷ 0 ∷ 0 ∷ 0 ∷ 0 ∷ 0 ∷ 0 ∷ 0 ∷ 0 ∷ 0 ∷ 0 ∷ 0 ∷ 0 ∷ 0 ∷ 0 ∷ [];
  suffixes = codes "x" ∷ [];
  time = 7;
}

abbrev pub issued : IssuedKey
issued = record {
  id = codes "k_010203040506";
  label = codes "second";
  token = codes "cqk_k_010203040506_AAAAAAAAAAAAAAAAAAAAAAAAAAAAAAAAAAAAAAAAAAA";
  created_at = 7;
}

abbrev pub first_token : Text
first_token = codes "cqk_k_aa_b"

pub issue_ok : (issue_key platform data_root (codes "n") (codes " second ") world).0 ≡ ok issued
unfolding issue_key revoke_key is_space same_path
issue_ok = refl

revoke_ok : (revoke_key platform data_root (codes "n") (codes "k_aa") world).0 ≡ ok tt
unfolding issue_key revoke_key is_space same_path
revoke_ok = refl

dir_ok : namespace_dir data_root (codes "n") ≡ ok dir
unfolding namespace_dir
dir_ok = refl

abbrev first_file : KeyFile
first_file = record { version = pos 1; keys = some (first_key ∷ []) }

read_ok : key_file_at platform data_root world.files dir ≡ ok first_file
unfolding issue_key revoke_key is_space same_path
read_ok = refl

first_key_id : key_id first_token ≡ some (codes "k_aa")
unfolding key_id
first_key_id = refl

unused_id : has_id issued.id (keys_of first_file) ≡ false
unfolding has_id
unused_id = refl

pub unused :
    (d : Text) (f : KeyFile)
    → namespace_dir data_root (codes "n") ≡ ok d
    → key_file_at platform data_root world.files d ≡ ok f
    → has_id issued.id (keys_of f) ≡ false
unused d f n r =
    let d_is : dir ≡ d = cc (dir_ok, n) in
    let r' : key_file_at platform data_root world.files dir ≡ ok f =
      subst (λ x. key_file_at platform data_root world.files x ≡ ok f) (sym d_is) r in
    let f_is : first_file ≡ f = cc (read_ok, r') in rw⁻¹ f_is unused_id

issued_key_id : key_id issued.token ≡ some (codes "k_010203040506")
unfolding key_id
issued_key_id = refl

same_ids : same issued.id (codes "k_aa") ≡ false
unfolding same
same_ids = refl

ids_differ : issued.id ≢ codes "k_aa"
ids_differ e = cc (same_ids, (same_iff issued.id (codes "k_aa")).1 e)

keys_path-not_temp : is_temp (keys_path dir) ≡ false
unfolding has_prefix
keys_path-not_temp = refl

root_abs : is_abs data_root ≡ true
unfolding is_abs
root_abs = refl

authenticate-issue_key_example :
    (authenticate platform data_root
      (codes "n")
      issued.token
      (calm (issue_key platform data_root (codes "n") (codes " second ") world).1)).0
    ≡ ok (record { id = issued.id; label = issued.label; digest = []; created_at = 7 })
authenticate-issue_key_example =
    authenticate-issue_key platform data_root (codes "n") (codes " second ") issued world
      (issue_key platform data_root (codes "n") (codes " second ") world).1 issue_ok unused refl

issue_key_keeps_others_example :
    (authenticate platform data_root
      (codes "n")
      first_token
      (calm (issue_key platform data_root (codes "n") (codes " second ") world).1)).0
    ≡ (authenticate platform data_root (codes "n") first_token (calm world)).0
issue_key_keeps_others_example =
    issue_key_keeps_others platform data_root (codes "n") (codes " second ") first_token
      (codes "k_aa") issued world
      (issue_key platform data_root (codes "n") (codes " second ") world).1 issue_ok first_key_id
      ids_differ refl

revoke_key_refuses_example :
    (authenticate platform data_root
      (codes "n")
      first_token
      (revoke_key platform data_root (codes "n") (codes "k_aa") world).1).0
    ≢ ok first_key
revoke_key_refuses_example =
    revoke_key_refuses platform data_root (codes "n") first_token (codes "k_aa") world
      (revoke_key platform data_root (codes "n") (codes "k_aa") world).1 revoke_ok first_key_id refl
      first_key

-- the world after the second key was issued
abbrev later_world : World
later_world = (issue_key platform data_root (codes "n") (codes " second ") world).1

revoke_later_ok :
    (revoke_key platform data_root
      (codes "n")
      (codes "k_aa")
      (record later_world { suffixes = codes "y" ∷ [] })).0
    ≡ ok tt
unfolding issue_key revoke_key is_space same_path
revoke_later_ok = refl

revoke_key_keeps_others_example :
    (authenticate platform data_root (codes "n") issued.token (
      calm
        (revoke_key platform data_root
          (codes "n")
          (codes "k_aa")
          (record later_world { suffixes = codes "y" ∷ [] })).1)).0
    ≡ (authenticate platform data_root
        (codes "n")
        issued.token
        (calm (record later_world { suffixes = codes "y" ∷ [] }))).0
revoke_key_keeps_others_example =
    revoke_key_keeps_others platform data_root (codes "n") issued.token (codes "k_aa")
      (codes "k_010203040506") (record later_world { suffixes = codes "y" ∷ [] })
      (revoke_key platform data_root (codes "n") (codes "k_aa")
        (record later_world { suffixes = codes "y" ∷ [] })).1
      revoke_later_ok issued_key_id (λ e. ids_differ (sym e)) refl

issue_key-Ends_example :
    Ends
      (λ fs. fs ≡ files)
      (IssueEnds platform data_root files (codes "n") (codes "second"))
      (Issued platform data_root files (codes "n") (codes "second"))
      (issue_key platform data_root (codes "n") (codes "second"))
issue_key-Ends_example = issue_key-Ends platform data_root files (codes "n") (codes "second")

revoke_key-Ends_example :
    Ends
      (λ fs. fs ≡ files)
      (RevokeEnds platform data_root files (codes "n") (codes "k_aa"))
      (λ _. Revoked platform data_root files (codes "n") (codes "k_aa"))
      (revoke_key platform data_root (codes "n") (codes "k_aa"))
revoke_key-Ends_example = revoke_key-Ends platform data_root files (codes "n") (codes "k_aa")

authenticate-Ends_example :
    Ends
      (λ fs. fs ≡ files)
      (λ fs. fs ≡ files)
      (Accepted platform data_root files (codes "n") first_token)
      (authenticate platform data_root (codes "n") first_token)
authenticate-Ends_example = authenticate-Ends platform data_root files (codes "n") first_token

write-Leaves_example :
    Ends
      (λ fs. fs ≡ files)
      (λ fs.
        Whole key_file_codec files (keys_path dir) first_file 0o600 fs
        × OneLeft files (keys_path dir) fs)
      (λ _ fs.
        Saved key_file_codec files (keys_path dir) first_file 0o600 fs
        × OneLeft files (keys_path dir) fs)
      (write_json_atomic key_file_codec (keys_path dir) first_file 0o600)
write-Leaves_example =
    write-Leaves key_file_codec files (keys_path dir) first_file 0o600 keys_path-not_temp

init-KeepsKeys_example :
    Ends
      (λ fs. fs ≡ files)
      (KeepsKeys files dir)
      (λ ns fs. KeepsKeys files dir fs × (ns.name ≡ codes "n"))
      (init platform data_root (codes "n"))
init-KeepsKeys_example = init-KeepsKeys platform data_root files dir (codes "n") dir_ok

list_keys-Ends_example :
    Ends
      (λ fs. fs ≡ files)
      (λ fs. fs ≡ files)
      (Listed platform data_root files (codes "n"))
      (list_keys platform data_root (codes "n"))
list_keys-Ends_example = list_keys-Ends platform data_root files (codes "n")

namespace_dir_confined_example :
    dir ≡ codes "/" ++ join (codes "/") (resolved data_root ++ codes "n" ∷ [])
namespace_dir_confined_example = namespace_dir_confined data_root (codes "n") root_abs dir_ok

namespace_dir_injective_example : codes "n" ≡ codes "n"
namespace_dir_injective_example =
    namespace_dir_injective data_root (codes "n") (codes "n") root_abs dir_ok dir_ok

validate_label_iff_example : (validate_label (codes "laptop") ≡ ok tt) ↔ IsLabel (codes "laptop")
validate_label_iff_example = validate_label_iff (codes "laptop")

metadata_there : world.files (metadata_path dir) ≡ some (record { mode = 0o600; content = [] })
unfolding put same_path
metadata_there = refl

first-Holds : Holds platform data_root (codes "n") world.files (view (first_key ∷ []))
first-Holds = record {
  dir = dir;
  namespace = record {
    file = record { mode = 0o600; content = [] };
    named = dir_ok;
    present = metadata_there;
  };
  key_file = first_file;
  read = read_ok;
  stands_for = refl;
}

abbrev calls : List Call
calls = issue (codes " second ") ∷ use_token first_token ∷ revoke (codes "k_aa") ∷ []

perform_all-Moves_example :
    (u : Keyring) × Holds platform data_root
      (codes "n")
      (perform_all platform data_root (codes "n") calls world).1.files
      u
    × Moves platform data_root
        (view (first_key ∷ []))
        u
        calls
        (perform_all platform data_root (codes "n") calls world).0
perform_all-Moves_example =
    perform_all-Moves platform data_root (codes "n") calls world (view (first_key ∷ [])) first-Holds
