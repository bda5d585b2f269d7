-- ===== src/Tests/Config.antt =====
-- Saving and loading the configuration with one target.
use contextq_server.Prelude.{
  map, if◌then◌else◌, ℤ, pos, negsuc, ◌≡◌, refl, sym, ◌∙◌, ap, Bool, true, false, ◌&&◌, &&_parts,
  List, [], ◌∷◌, Option, some, none, ok, Text, Bytes, codes, same, same_iff, arith, is_nat, ◌==◌,
}
use contextq_server.Strings.{is_space, has_prefix}
use contextq_server.Os.{World, put, same_path}
use contextq_server.Os.Ends.{Ends}
use contextq_server.Os.Temp.{is_temp}
use contextq_server.Names.{matches_name}
use contextq_server.Namespace.Store.Authenticate.{calm}
use contextq_server.Target.Data.{Target, Config}
use contextq_server.Target.Validate.{validate, origin, check_fields, normalize, trim_right_slash}
use contextq_server.Target.Config.{validate_config, check_targets, lookup, has_target}
use contextq_server.Target.Config.Same.{SameConfig}
use contextq_server.Target.File.{Env, ConfigCodec, abs_path, chosen_path, file_of, load, save}
use contextq_server.Target.File.Saved.{SaveEnds, SavedConfig, load-save}
use contextq_server.Target.File.Left.{LeavesOne, save-Leaves}
use contextq_server.Tests.Client.{parse, full_target, one_target}

texts : Target → List Text
texts t =
    t.url ∷ t.namespace ∷ t.key ∷ t.ssh_host ∷ t.ssh_user ∷ t.identity ∷ t.remote_bin
    ∷ t.contextq_bin ∷ t.data_root ∷ t.caddyfile ∷ t.snippet_dir ∷ t.service_user ∷ t.control_path
    ∷ []

of_texts : List Text → ℤ → Target
of_texts (a ∷ b ∷ c ∷ d ∷ e ∷ f ∷ g ∷ h ∷ i ∷ j ∷ k ∷ l ∷ m ∷ []) port = record {
  url = a;
  namespace = b;
  key = c;
  ssh_host = d;
  ssh_user = e;
  ssh_port = port;
  identity = f;
  remote_bin = g;
  contextq_bin = h;
  data_root = i;
  caddyfile = j;
  snippet_dir = k;
  service_user = l;
  control_path = m;
}
of_texts _ port = full_target

of_texts-texts : (t : Target) → of_texts (texts t) t.ssh_port ≡ t
unfolding of_texts texts
of_texts-texts t = refl

same_all : List Text → List Text → Bool
same_all [] [] = true
same_all [] (y ∷ ys) = false
same_all (x ∷ xs) [] = false
same_all (x ∷ xs) (y ∷ ys) = same x y && same_all xs ys

same_all_eq : (a b : List Text) → same_all a b ≡ true → a ≡ b
unfolding same_all
same_all_eq [] [] h = refl
same_all_eq [] (y ∷ ys) h = cc
same_all_eq (x ∷ xs) [] h = cc
same_all_eq (x ∷ xs) (y ∷ ys) h =
    let p = &&_parts (same x y) (same_all xs ys) h in
    rw ((same_iff x y).0 p.0, same_all_eq xs ys p.1) refl

is_full : Target → Bool
is_full t = same_all (texts t) (texts full_target) && is_nat t.ssh_port 0

is_zero : (z : ℤ) → is_nat z 0 ≡ true → z ≡ pos 0
is_zero (pos n) h = let e : n ≡ 0 = ground (arith, h) in rw e refl
is_zero (negsuc n) h = cc

is_full_eq : (t : Target) → is_full t ≡ true → t ≡ full_target
unfolding is_full
is_full_eq t h =
    let p = &&_parts (same_all (texts t) (texts full_target)) (is_nat t.ssh_port 0) h in
    sym (of_texts-texts t)
    ∙ ap (λ x. of_texts x t.ssh_port) (same_all_eq (texts t) (texts full_target) p.0)
    ∙ ap (of_texts (texts full_target)) (is_zero t.ssh_port p.1)
    ∙ of_texts-texts full_target

abbrev full_named : Text → Text × Target
full_named name = (name, full_target)

-- version 1, the default prod, and the same target under each name
abbrev config_of : List Text → Config
config_of names = record {
  version = pos 1;
  default_name = codes "prod";
  targets = map full_named names;
}

is_named : List Text → List (Text × Target) → Bool
is_named [] [] = true
is_named (n ∷ ns) ((m, t) ∷ ts) = same m n && (is_full t && is_named ns ts)
is_named _ _ = false

is_named_eq :
    (ns : List Text) (ts : List (Text × Target)) → is_named ns ts ≡ true → ts ≡ map full_named ns
unfolding is_named
is_named_eq [] [] h = refl
is_named_eq (n ∷ ns) ((m, t) ∷ ts) h =
    let p = &&_parts (same m n) (is_full t && is_named ns ts) h in
    let q = &&_parts (is_full t) (is_named ns ts) p.1 in
    rw ((same_iff m n).0 p.0, is_full_eq t q.0, is_named_eq ns ts q.1) refl
is_named_eq [] (t ∷ ts) h = cc
is_named_eq (n ∷ ns) [] h = cc

one_is : (v : ℤ) → is_nat v 1 ≡ true → v ≡ pos 1
one_is (pos n) h = let e : n ≡ 1 = ground (arith, h) in rw e refl
one_is (negsuc n) h = cc

pub is_config : List Text → Config → Bool
is_config ns c = is_nat c.version 1 && (same c.default_name (codes "prod") && is_named ns c.targets)

config_eq :
    (c : Config) (v : ℤ) (d : Text) (ts : List (Text × Target))
    → c.version ≡ v
    → c.default_name ≡ d
    → c.targets ≡ ts
    → c ≡ record { version = v; default_name = d; targets = ts }
config_eq c v d ts e f g = rw (← e, ← f, ← g) refl

pub is_config_eq : (ns : List Text) (c : Config) → is_config ns c ≡ true → c ≡ config_of ns
unfolding is_config
is_config_eq ns c h =
    let p =
      &&_parts (is_nat c.version 1) (same c.default_name (codes "prod") && is_named ns c.targets)
        h in
    let q = &&_parts (same c.default_name (codes "prod")) (is_named ns c.targets) p.1 in
    config_eq c _ _ _ (one_is c.version p.0) ((same_iff c.default_name (codes "prod")).0 q.0)
      (is_named_eq ns c.targets q.1)

abbrev pub unsorted : Config
unsorted = config_of (codes "prod" ∷ codes "a" ∷ [])

abbrev pub sorted : Config
sorted = config_of (codes "a" ∷ codes "prod" ∷ [])

-- The two orders of one map have one text.
pub encode_known : Bool → Bool → Bool → Option Bytes
encode_known true y z = some (7 ∷ 10 ∷ [])
encode_known false true z = some (8 ∷ 10 ∷ [])
encode_known false false true = some (8 ∷ 10 ∷ [])
encode_known false false false = none

pub decode_known : Bytes → Option (Config × Bytes)
decode_known [] = none
decode_known (b ∷ rest) = some (if b == 7 then one_target else sorted, rest)

SameConfig-sorted : SameConfig unsorted sorted
unfolding lookup
SameConfig-sorted = record {
  version = refl;
  default_name = refl;
  targets = λ name. ground arith;
  each = (refl, (refl, tt));
}

SameConfig-refl_sorted : SameConfig sorted sorted
unfolding lookup
SameConfig-refl_sorted = record {
  version = refl;
  default_name = refl;
  targets = λ name. refl;
  each = (refl, (refl, tt));
}

SameConfig-refl_one : SameConfig one_target one_target
unfolding lookup
SameConfig-refl_one = record {
  version = refl;
  default_name = refl;
  targets = λ name. refl;
  each = (refl, tt);
}

pub decode_known-encode_known :
    (c : Config) (x y z : Bool) (b : Bytes)
    → (x ≡ true → c ≡ one_target)
    → (y ≡ true → c ≡ sorted)
    → (z ≡ true → c ≡ unsorted)
    → encode_known x y z ≡ some b
    → (d : Config) × (decode_known b ≡ some (d, 10 ∷ [])) × SameConfig c d
unfolding encode_known decode_known
decode_known-encode_known c true y z b p q r h =
    let e : 7 ∷ 10 ∷ [] ≡ b = cc h in rw (← e, p refl) (one_target, refl, SameConfig-refl_one)
decode_known-encode_known c false true z b p q r h =
    let e : 8 ∷ 10 ∷ [] ≡ b = cc h in rw (← e, q refl) (sorted, refl, SameConfig-refl_sorted)
decode_known-encode_known c false false true b p q r h =
    let e : 8 ∷ 10 ∷ [] ≡ b = cc h in rw (← e, r refl) (sorted, refl, SameConfig-sorted)
decode_known-encode_known c false false false b p q r h = cc

-- Three configurations can be written, two of which are one map.
abbrev pub codec : ConfigCodec
codec = record {
  encode = λ c.
      encode_known (is_config (codes "prod" ∷ []) c) (is_config (codes "a" ∷ codes "prod" ∷ []) c)
        (is_config (codes "prod" ∷ codes "a" ∷ []) c);
  decode = decode_known;
  decode-encode = λ c b plain h.
      decode_known-encode_known c _ _ _ b (is_config_eq (codes "prod" ∷ []) c)
        (is_config_eq (codes "a" ∷ codes "prod" ∷ []) c)
        (is_config_eq (codes "prod" ∷ codes "a" ∷ []) c) h;
}

abbrev pub env : Env
env = record {
  config_variable = [];
  home = some (codes "/h");
  cwd = codes "/w";
  getwd_works = true;
}

abbrev pub empty_world : World
empty_world = record {
  files = λ q. none;
  faults = [];
  entropy = [];
  suffixes = codes "x" ∷ [];
  time = 0;
}

abbrev file : Text
file = codes "/h/targets"

chosen_ok : chosen_path env file ≡ ok file
unfolding chosen_path is_space
chosen_ok = refl

absolute_ok : abs_path env file ≡ ok file
unfolding abs_path
absolute_ok = refl

file_not_temp : is_temp (file_of file) ≡ false
unfolding file_of has_prefix
file_not_temp = refl

not_temp :
    (p absolute : Text)
    → chosen_path env file ≡ ok p
    → abs_path env p ≡ ok absolute
    → is_temp (file_of absolute) ≡ false
not_temp p absolute c a =
    let e : file ≡ p = cc (chosen_ok, c) in
    let q : abs_path env file ≡ ok absolute = rw e a in
    let r : file ≡ absolute = cc (absolute_ok, q) in rw (← r) file_not_temp

save-Leaves_example :
    Ends
      (λ fs. fs ≡ empty_world.files)
      (λ fs.
        SaveEnds parse codec env empty_world.files one_target file fs
        × LeavesOne parse codec env empty_world.files one_target file fs)
      (λ _ fs.
        SavedConfig parse codec env empty_world.files one_target file fs
        × LeavesOne parse codec env empty_world.files one_target file fs)
      (save parse codec env one_target file)
save-Leaves_example = save-Leaves parse codec env empty_world.files one_target file not_temp

valid_ok : validate_config parse unsorted ≡ ok unsorted
unfolding validate_config validate lookup has_target matches_name origin check_fields normalize
    trim_right_slash is_space check_targets
valid_ok = refl

save_ok : (save parse codec env unsorted file empty_world).0 ≡ ok tt
unfolding save validate lookup has_target matches_name origin check_fields normalize
    trim_right_slash is_space is_config is_named is_full texts same_all encode_known put same_path
    check_targets
save_ok = refl

load-save_example :
    (found : Config) × ((load parse codec env file
        (calm (save parse codec env unsorted file empty_world).1)).0
      ≡ ok found)
    × SameConfig unsorted found
load-save_example =
    load-save parse codec env unsorted file empty_world
      (save parse codec env unsorted file empty_world).1 unsorted not_temp (refl, (refl, tt))
      valid_ok save_ok refl
