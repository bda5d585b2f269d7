-- ===== src/Target/Validate.antt =====
-- Target.Validate of internal/target/config.go.
pub mod Again
use contextq_server.Prelude.{
  ℕ, ℤ, pos, negsuc, Bool, true, false, not, ◌&&◌, ◌||◌, List, [], ◌∷◌, Option, none, some,
  if◌then◌else◌, ltb, ◌==◌, every, Result, ok, err, ◌>>=◌, Text, codes, same,
}
use mathlib.Core.List.{reverse}
use contextq_server.Strings.{trim_space}
use contextq_server.Names.{matches_name}
use contextq_server.Paths.{is_abs}
use contextq_server.Target.Data.{
  Url, Target, TargetError, invalid_url, invalid_namespace, invalid_port, invalid_path,
  invalid_service_user,
}

drop_slashes : Text → Text
drop_slashes [] = []
drop_slashes (c ∷ s) = if c == b'/' then drop_slashes s else c ∷ s

-- strings.TrimRight(s, "/")
unfoldable pub trim_right_slash : Text → Text
unfolding drop_slashes
trim_right_slash s = reverse (drop_slashes (reverse s))

-- the condition on the parsed URL
unfoldable pub is_origin : Url → Bool
unfolding same
is_origin u =
    (same u.scheme (codes "http") || same u.scheme (codes "https"))
    && not (same u.host [])
    && not u.has_user
    && same u.raw_query []
    && same u.fragment []
    && (same u.path [] || same u.path (codes "/"))

unfoldable pub origin : Option Url → Result TargetError Url
unfolding is_origin
origin none = err invalid_url
origin (some u) = if is_origin u then ok u else err invalid_url

unfoldable pub or_default : Text → Text → Text
unfolding same
or_default v d = if same v [] then d else v

unfoldable pub port_in_range : ℤ → Bool
port_in_range (pos n) = not (ltb 65535 n)
port_in_range (negsuc n) = false

-- strings.ContainsAny(value, " \t\r\n\x00"), negated
unfoldable pub is_clean : ℕ → Bool
is_clean c = not (c == 32 || c == 9 || c == 13 || c == 10 || c == 0)

unfoldable pub is_clean_path : Text → Bool
unfolding is_abs is_clean
is_clean_path s = is_abs s && every is_clean s

-- the fields that Validate fills in
unfoldable pub normalize : Text → Url → Target → Target
unfolding or_default trim_space
normalize url u t = record t {
  url = url;
  ssh_host = or_default (trim_space t.ssh_host) u.hostname;
  ssh_user = or_default t.ssh_user (codes "root");
  remote_bin = or_default t.remote_bin (codes "/usr/local/bin/contextq-server");
  contextq_bin = or_default t.contextq_bin (codes "/usr/local/bin/contextq");
  data_root = or_default t.data_root (codes "/var/contextq");
  caddyfile = or_default t.caddyfile (codes "/etc/caddy/Caddyfile");
  snippet_dir = or_default t.snippet_dir (codes "/etc/caddy/contextq.d");
  service_user = or_default t.service_user (codes "contextq");
}

-- The loop over the path fields visits them in any order; the field in its error is left out.
unfoldable pub paths_ok : Target → Bool
unfolding is_clean_path
paths_ok t =
    is_clean_path t.remote_bin
    && is_clean_path t.contextq_bin
    && is_clean_path t.data_root
    && is_clean_path t.caddyfile
    && is_clean_path t.snippet_dir

-- The tests on the fields. Those of the namespace and of the port read fields that nothing fills in,
-- so that they may come after the defaults.
unfoldable pub check_fields : Target → Result TargetError Target
unfolding matches_name port_in_range paths_ok
check_fields t =
    if not (matches_name t.namespace)
    then err invalid_namespace
    else if not (port_in_range t.ssh_port)
    then err invalid_port
    else if not (paths_ok t)
    then err invalid_path
    else if not (matches_name t.service_user)
    then err invalid_service_user
    else ok t

-- Validate writes to the target as it goes. Its callers drop the target when it fails, so that the
-- new target is the result.
module _ (parse : Text → Option Url) where
  unfoldable pub validate : Target → Result TargetError Target
  validate t =
      let url = trim_right_slash (trim_space t.url) in
      origin (parse url) >>= λ u. check_fields (normalize url u t)
