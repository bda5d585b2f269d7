-- ===== src/Setup.antt =====
-- BootstrapScript of internal/setup/bootstrap.go: its options, and the tests on them.
pub mod Script
pub mod Reader
pub mod Reads
pub mod OneLines
pub mod Accepts
pub mod Safe
use contextq_server.Prelude.{
  ℕ, ℤ, pos, negsuc, Bool, true, false, not, ◌&&◌, ◌||◌, Option, none, some, if◌then◌else◌, leb,
  ◌==◌, every, Result, ok, err, ◌>>=◌, Text, Bytes, codes, same, ◌++◌,
}
use contextq_server.Names.{matches_name}
use contextq_server.Paths.{is_abs}
use contextq_server.Target.Data.{Url, Target, TargetError}
use contextq_server.Target.Validate.{or_default, validate}
use contextq_server.Setup.Script.{script}

pub record BootstrapOptions : Type 0 where
  pub target : Target
  pub target_name : Text
  pub listen : Text
  pub staged_server : Text
  pub staged_contextq : Text
  pub systemd_unit_path : Text

pub data SetupError : Type 0 where
  bad_target : TargetError → SetupError
  bad_target_name bad_listen not_loopback bad_path : SetupError

-- net.SplitHostPort, strconv.Atoi, net.ParseIP and IP.IsLoopback
pub record Net : Type 0 where
  pub split_host_port : Text → Option (Text × Text)
  pub atoi : Text → Option ℤ
  pub parse_ip : Text → Option Bytes
  pub is_loopback : Bytes → Bool

-- ServiceName
abbrev pub service_name : Text
service_name = codes "contextq-server.service"

-- strings.ContainsAny(value, "\r\n\x00"), negated
unfoldable pub is_inline : ℕ → Bool
is_inline c = not (c == 13 || c == 10 || c == 0)

unfoldable pub is_setup_path : Text → Bool
unfolding is_abs is_inline
is_setup_path s = is_abs s && every is_inline s

-- `err == nil && port >= 1 && port <= 65535`
unfoldable pub is_port : Option ℤ → Bool
is_port none = false
is_port (some (pos n)) = leb 1 n && leb n 65535
is_port (some (negsuc n)) = false

-- `ip != nil && ip.IsLoopback()`
unfoldable pub is_loopback_ip : Net → Option Bytes → Bool
is_loopback_ip net none = false
is_loopback_ip net (some ip) = net.is_loopback ip

unfoldable pub is_loopback_listen : Net → Text → Text → Bool
unfolding is_port is_loopback_ip same
is_loopback_listen net host port =
    is_port (net.atoi port)
    && (same host (codes "localhost") || is_loopback_ip net (net.parse_ip host))

-- the tests on the parts of the listen address
unfoldable pub check_listen : Net → Option (Text × Text) → Result SetupError (Unit {0})
unfolding is_loopback_listen
check_listen net none = err bad_listen
check_listen net (some (host, port)) =
    if is_loopback_listen net host port then ok tt else err not_loopback

-- The loop over the paths visits them in any order; the name in its error is left out.
unfoldable pub check_paths : BootstrapOptions → Result SetupError (Unit {0})
unfolding is_setup_path
check_paths o =
    if is_setup_path o.staged_server
      && is_setup_path o.staged_contextq
      && is_setup_path o.systemd_unit_path
    then ok tt
    else err bad_path

-- the options with their defaults filled in
unfoldable pub with_defaults : BootstrapOptions → BootstrapOptions
unfolding or_default
with_defaults o = record o {
  listen = or_default o.listen (codes "127.0.0.1:8787");
  staged_server = or_default o.staged_server (codes "/tmp/contextq-install/contextq-server");
  staged_contextq = or_default o.staged_contextq (codes "/tmp/contextq-install/contextq");
  systemd_unit_path = or_default o.systemd_unit_path (codes "/etc/systemd/system/" ++ service_name);
}

-- `u, _ := url.Parse(t.URL); u.Host`, for a URL that Validate has parsed
unfoldable pub site_of : Option Url → Text
site_of none = codes ""
site_of (some u) = u.host

unfoldable pub target_or_error : Result TargetError Target → Result SetupError Target
target_or_error (ok t) = ok t
target_or_error (err e) = err (bad_target e)

unfoldable pub check_name : Text → Result SetupError (Unit {0})
unfolding matches_name
check_name name = if matches_name name then ok tt else err bad_target_name

-- The default of the listen address is filled in before it is tested, and those of the paths after
-- it; no test reads a field that another default fills in.
module _ (parse : Text → Option Url) (net : Net) where
  unfoldable pub bootstrap_script : BootstrapOptions → Result SetupError Text
  unfolding target_or_error check_name check_listen check_paths with_defaults script site_of
  bootstrap_script options = target_or_error (validate parse options.target) >>= λ t.
      check_name options.target_name >>= λ _.
      let o = with_defaults options in
      check_listen net (net.split_host_port o.listen) >>= λ _. check_paths o >>= λ _. ok (
        script t options.target_name (site_of (parse t.url)) o.listen o.staged_server
          o.staged_contextq o.systemd_unit_path)
