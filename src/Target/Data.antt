-- ===== src/Target/Data.antt =====
-- Config, Target and Named of internal/target/config.go, and what the file takes from net/url.
use contextq_server.Prelude.{ℤ, Bool, List, Text}

-- *url.URL: `has_user` is whether User is set, `hostname` is what Hostname returns.
pub record Url : Type 0 where
  pub scheme : Text
  pub host : Text
  pub hostname : Text
  pub has_user : Bool
  pub raw_query : Text
  pub fragment : Text
  pub path : Text

pub record Target : Type 0 where
  pub url : Text
  pub namespace : Text
  pub key : Text
  pub ssh_host : Text
  pub ssh_user : Text
  pub ssh_port : ℤ
  pub identity : Text
  pub remote_bin : Text
  pub contextq_bin : Text
  pub data_root : Text
  pub caddyfile : Text
  pub snippet_dir : Text
  pub service_user : Text
  pub control_path : Text

-- The map of targets is a list of pairs, the first pair of a name counting. A nil map is empty.
pub record Config : Type 0 where
  pub version : ℤ
  pub default_name : Text
  pub targets : List (Text × Target)

pub record Named : Type 0 where
  pub name : Text
  pub target : Target

pub data TargetError : Type 0 where
  invalid_url invalid_namespace invalid_port invalid_path invalid_service_user : TargetError
  unsupported_version invalid_name missing_default no_default missing_target : TargetError
