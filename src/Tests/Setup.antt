-- ===== src/Tests/Setup.antt =====
-- The bootstrap script of one target, whose path needs quoting.
use mathlib.Core.Path.{subst}
use contextq_server.Prelude.{
  ℤ, pos, ◌≡◌, ◌↔◌, refl, ◌⊎◌, inl, inr, true, Bool-cases, [], ◌∷◌, ◌++◌, Option, some, none, ok,
  Text, Bytes, codes, same, same_iff, if◌then◌else◌, arith,
}
use contextq_server.Paths.Lines.{OneLine}
use contextq_server.Names.{matches_name}
use contextq_server.Target.Data.{Url, Target}
use contextq_server.Target.Validate.{validate}
use contextq_server.Setup.{
  BootstrapOptions, Net, is_setup_path, is_inline, with_defaults, bootstrap_script,
}
use contextq_server.Setup.Reader.{read_script}
use contextq_server.Setup.Accepts.{Loopback, InOrder, script_for, bootstrap_script_iff}
use contextq_server.Setup.Safe.{Documented, reading_for, read_script-bootstrap_script}
use contextq_server.Tests.Client.{home, parse, bare_target, full_target, validate_ok}

pub split : Text → Option (Text × Text)
split s = if same s (codes "127.0.0.1:8787") then some (codes "127.0.0.1", codes "8787") else none

pub number : Text → Option ℤ
number s = if same s (codes "8787") then some (pos 8787) else none

pub address : Text → Option Bytes
address s = if same s (codes "127.0.0.1") then some (127 ∷ 0 ∷ 0 ∷ 1 ∷ []) else none

-- one address, and one port
abbrev pub net : Net
net = record {
  split_host_port = split;
  atoi = number;
  parse_ip = address;
  is_loopback = λ ip. true;
}

split_parts :
    (listen host port : Text)
    → split listen ≡ some (host, port)
    → (listen ≡ host ++ b':' ∷ port) ⊎ (listen ≡ b'[' ∷ host ++ b']' ∷ b':' ∷ port)
unfolding split
split_parts listen host port h = elim (Bool-cases (same listen (codes "127.0.0.1:8787"))) [
  | inl e ↦
      let l = (same_iff listen (codes "127.0.0.1:8787")).0 e in
      let q : some (codes "127.0.0.1", codes "8787") ≡ some (host, port) = rw e at h in
      inl (cc (l, q))
  | inr e ↦ cc (rw e at h)
]

number_line : (s : Text) (n : ℤ) → number s ≡ some n → OneLine s
unfolding number
number_line s n h = elim (Bool-cases (same s (codes "8787"))) [
  | inl e ↦ rw ((same_iff s (codes "8787")).0 e) (omega arith)
  | inr e ↦ cc (rw e at h)
]

address_line : (s : Text) (ip : Bytes) → address s ≡ some ip → OneLine s
unfolding address
address_line s ip h = elim (Bool-cases (same s (codes "127.0.0.1"))) [
  | inl e ↦ rw ((same_iff s (codes "127.0.0.1")).0 e) (omega arith)
  | inr e ↦ cc (rw e at h)
]

documented : Documented parse net
documented = record {
  split_parts = split_parts;
  atoi_line = number_line;
  ip_line = address_line;
  host_line =
      λ s u h. let e : home ≡ u = cc h in subst (λ (x : Url). OneLine x.host) e (omega arith);
}

abbrev options : BootstrapOptions
options = record {
  target = bare_target;
  target_name = codes "prod";
  listen = [];
  staged_server = codes "/tmp/it's $1/contextq-server";
  staged_contextq = codes "/tmp/it's $1/contextq";
  systemd_unit_path = [];
}

listen_ok : Loopback parse net (with_defaults options).listen
unfolding with_defaults split number address
listen_ok = record {
  host = codes "127.0.0.1";
  port = codes "8787";
  number = 8787;
  split = refl;
  port_is = refl;
  low = omega arith;
  high = omega arith;
  local = inr (127 ∷ 0 ∷ 0 ∷ 1 ∷ [], refl, refl);
}

in_order : InOrder parse net options (with_defaults options) full_target
unfolding with_defaults is_setup_path matches_name is_inline
in_order = record {
  target = validate_ok;
  name = refl;
  listen = listen_ok;
  server = refl;
  contextq = refl;
  unit = refl;
}

script_ok :
    bootstrap_script parse net options
    ≡ ok (script_for parse net (with_defaults options) full_target)
script_ok = (bootstrap_script_iff parse net options _).1 (full_target, in_order, refl)

bootstrap_script_iff_example :
    (bootstrap_script parse net options
      ≡ ok (script_for parse net (with_defaults options) full_target))
    ↔ ((t : Target) × InOrder parse net options (with_defaults options) t
        × (script_for parse net (with_defaults options) full_target
            ≡ script_for parse net (with_defaults options) t))
bootstrap_script_iff_example =
    bootstrap_script_iff parse net options
      (script_for parse net (with_defaults options) full_target)

read_script-bootstrap_script_example :
    (t : Target) × (validate parse options.target ≡ ok t)
    × (read_script (script_for parse net (with_defaults options) full_target)
        ≡ some (reading_for parse (with_defaults options) t))
read_script-bootstrap_script_example =
    read_script-bootstrap_script parse net documented options
      (script_for parse net (with_defaults options) full_target) script_ok
