-- ===== src/Tests/Client.antt =====
-- Targets, commands and tokens of the client.
use contextq_server.Prelude.{
  pos, ◌≡◌, ◌≢◌, refl, false, [], ◌∷◌, ◌++◌, Option, some, ok, Text, Bytes, codes,
}
use contextq_server.Strings.{trim_space, is_space}
use contextq_server.Remote.Shell.{shell_command}
use contextq_server.Remote.Shell.Words.{sh_words, sh_words-shell_command}
use contextq_server.Remote.Ssh.{Executor, Outcome, run_ssh, run_remote_admin}
use contextq_server.Remote.Ssh.Arguments.{Administered, run_remote_admin-words}
use contextq_server.Remote.Binary.{client_key_id}
use contextq_server.Remote.Binary.Match.{client_key_id-key_id}
use contextq_server.Namespace.Tokens.{key_id}
use contextq_server.Target.Data.{Url, Target, Config}
use contextq_server.Target.Validate.{validate, origin, check_fields, normalize, trim_right_slash}
use contextq_server.Names.{matches_name}
use contextq_server.Target.Validate.Again.{Trimmed}
use contextq_server.Target.Config.{delete, lookup, resolve, set}
use contextq_server.Target.Config.Kept.{
  resolve-set, DefaultExists, unset, was_set, Change-DefaultExists,
}

abbrev pub home : Url
home = record {
  scheme = codes "http";
  host = codes "h";
  hostname = codes "h";
  has_user = false;
  raw_query = [];
  fragment = [];
  path = [];
}

-- every text is read as the origin http://h
abbrev pub parse : Text → Option Url
parse s = some home

abbrev pub bare_target : Target
bare_target = record {
  url = codes " http://h/ ";
  namespace = codes "n";
  key = [];
  ssh_host = [];
  ssh_user = [];
  ssh_port = pos 0;
  identity = [];
  remote_bin = [];
  contextq_bin = [];
  data_root = [];
  caddyfile = [];
  snippet_dir = [];
  service_user = [];
  control_path = [];
}

abbrev pub full_target : Target
full_target = record bare_target {
  url = codes "http://h";
  ssh_host = codes "h";
  ssh_user = codes "root";
  remote_bin = codes "/usr/local/bin/contextq-server";
  contextq_bin = codes "/usr/local/bin/contextq";
  data_root = codes "/var/contextq";
  caddyfile = codes "/etc/caddy/Caddyfile";
  snippet_dir = codes "/etc/caddy/contextq.d";
  service_user = codes "contextq";
}

pub validate_ok : validate parse bare_target ≡ ok full_target
unfolding validate origin check_fields normalize trim_right_slash is_space
validate_ok = refl

url_trimmed : trim_space (codes "http://h") ≡ codes "http://h"
unfolding trim_space is_space
url_trimmed = refl

host_trimmed : trim_space (codes "h") ≡ codes "h"
unfolding trim_space is_space
host_trimmed = refl

trimmed : Trimmed full_target
trimmed = record { url = url_trimmed; ssh_host = host_trimmed }

abbrev empty_config : Config
empty_config = record { version = pos 1; default_name = []; targets = [] }

abbrev pub one_target : Config
one_target = record {
  version = pos 1;
  default_name = codes "prod";
  targets = (codes "prod", full_target) ∷ [];
}

set_ok : set parse empty_config (codes "prod") bare_target false ≡ ok one_target
unfolding set validate matches_name delete origin check_fields normalize trim_right_slash is_space
set_ok = refl

resolve-set_example :
    (resolve parse one_target (codes "prod")
      ≡ ok (record { name = codes "prod"; target = full_target }))
    × ((n : Text) → n ≢ codes "prod" → lookup n one_target.targets ≡ lookup n [])
resolve-set_example =
    resolve-set parse empty_config one_target (codes "prod") bare_target full_target false
      validate_ok trimmed set_ok

Change-DefaultExists_example : DefaultExists one_target
Change-DefaultExists_example =
    Change-DefaultExists parse empty_config one_target (unset refl)
      (was_set (codes "prod") bare_target false set_ok)

sh_words-shell_command_example :
    sh_words (shell_command (codes "a b" ∷ codes "c'd" ∷ []))
    ≡ some (codes "a b" ∷ codes "c'd" ∷ [])
sh_words-shell_command_example = sh_words-shell_command (codes "a b" ∷ codes "c'd" ∷ [])

abbrev pub silent : Outcome
silent = record { stdout = []; stderr = []; exit_code = pos 0; failed = false }

abbrev pub executor : Executor
executor program args stdin = silent

admin_ok : run_remote_admin executor full_target (codes "key" ∷ codes "list" ∷ []) ≡ ok silent
unfolding run_remote_admin run_ssh
admin_ok = refl

run_remote_admin-words_example :
    Administered executor full_target (codes "key" ∷ codes "list" ∷ []) silent
run_remote_admin-words_example =
    run_remote_admin-words executor full_target (codes "key" ∷ codes "list" ∷ []) silent admin_ok

read_id : key_id (codes "cqk_k_aa_b") ≡ some (codes "k_aa")
unfolding key_id
read_id = refl

client_key_id-key_id_example : client_key_id (codes "cqk_k_aa_b") ≡ codes "k_aa"
client_key_id-key_id_example = client_key_id-key_id (codes "cqk_k_aa_b") (codes "k_aa") read_id

-- one file, a header for amd64
abbrev pub binaries : Text → Option Bytes
binaries path =
    some (0x7f ∷ codes "ELF" ++ 2 ∷ 1 ∷ 1 ∷ 0 ∷ 0 ∷ 0 ∷ 0 ∷ 0 ∷ 0 ∷ 0 ∷ 0 ∷ 0 ∷ 2 ∷ 0 ∷ 62 ∷ 0 ∷ [])
