-- ===== src/Setup/Accepts.antt =====
-- Which options BootstrapScript accepts.
use contextq_server.Prelude.{
  ℕ, ℤ, pos, negsuc, ◌≤◌, ◌≡◌, ◌⊎◌, inl, inr, refl, sym, ap, ◌∙◌, true, false, Bool, Bool-cases,
  ◌&&◌, ◌||◌, Option, none, some, codes, Text, Bytes, same, same_iff, &&_parts, leb, leb→le, le→leb,
  ◌↔◌, Result, ok, err, >>=_inv,
}
use contextq_server.Names.{matches_name}
use contextq_server.Target.Data.{Url, Target, TargetError}
use contextq_server.Target.Validate.{validate}
use contextq_server.Setup.{
  BootstrapOptions, Net, is_setup_path, is_port, is_loopback_ip, is_loopback_listen, check_listen,
  check_paths, with_defaults, site_of, target_or_error, check_name, bootstrap_script,
}
use contextq_server.Setup.Script.{script}

module _ (parse : Text → Option Url) (net : Net) where
  -- The listen address has a port from 1 to 65535 and a host that is `localhost` or a loopback
  -- address.
  pub record Loopback (listen : Text) : Type 0 where
    pub host : Text
    pub port : Text
    pub number : ℕ
    pub split : net.split_host_port listen ≡ some (host, port)
    pub port_is : net.atoi port ≡ some (pos number)
    pub low : 1 ≤ number
    pub high : number ≤ 65535
    pub local :
        (host ≡ codes "localhost")
        ⊎ ((ip : Bytes) × (net.parse_ip host ≡ some ip) × (net.is_loopback ip ≡ true))

  -- The options are in order; `o` has its defaults filled in.
  pub record InOrder (options o : BootstrapOptions) (t : Target) : Type 0 where
    pub target : validate parse options.target ≡ ok t
    pub name : matches_name options.target_name ≡ true
    pub listen : Loopback o.listen
    pub server : is_setup_path o.staged_server ≡ true
    pub contextq : is_setup_path o.staged_contextq ≡ true
    pub unit : is_setup_path o.systemd_unit_path ≡ true

  is_port_inv :
      (o : Option ℤ) → is_port o ≡ true → (n : ℕ) × (o ≡ some (pos n)) × (1 ≤ n) × (n ≤ 65535)
  unfolding is_port
  is_port_inv none h = cc
  is_port_inv (some (pos n)) h =
      let p = &&_parts (leb 1 n) (leb n 65535) h in (n, refl, leb→le 1 n p.0, leb→le n 65535 p.1)
  is_port_inv (some (negsuc n)) h = cc

  is_loopback_ip_inv :
      (o : Option Bytes)
      → is_loopback_ip net o ≡ true
      → (ip : Bytes) × (o ≡ some ip) × (net.is_loopback ip ≡ true)
  unfolding is_loopback_ip
  is_loopback_ip_inv none h = cc
  is_loopback_ip_inv (some ip) h = (ip, refl, h)

  or_inv : (a b : Bool) → (a || b) ≡ true → (a ≡ true) ⊎ (b ≡ true)
  or_inv true b h = inl refl
  or_inv false b h = inr h

  local_inv :
      (host : Text)
      → (same host (codes "localhost") || is_loopback_ip net (net.parse_ip host)) ≡ true
      → (host ≡ codes "localhost")
        ⊎ ((ip : Bytes) × (net.parse_ip host ≡ some ip) × (net.is_loopback ip ≡ true))
  local_inv host h =
      elim (or_inv (same host (codes "localhost")) (is_loopback_ip net (net.parse_ip host)) h) [
        | inl e ↦ inl ((same_iff host (codes "localhost")).0 e)
        | inr e ↦ inr (is_loopback_ip_inv (net.parse_ip host) e)
      ]

  Loopback-parts :
      (listen host port : Text)
      → net.split_host_port listen ≡ some (host, port)
      → is_loopback_listen net host port ≡ true
      → Loopback listen
  unfolding is_loopback_listen
  Loopback-parts listen host port s h =
      let p =
        &&_parts (is_port (net.atoi port))
          (same host (codes "localhost") || is_loopback_ip net (net.parse_ip host)) h in
      let q = is_port_inv (net.atoi port) p.0 in
      record {
        host = host;
        port = port;
        number = q.0;
        split = s;
        port_is = q.1;
        low = q.2;
        high = q.3;
        local = local_inv host p.1;
      }

  check_listen_inv :
      (listen : Text) (o : Option (Text × Text)) {u : Unit {0}}
      → net.split_host_port listen ≡ o
      → check_listen net o ≡ ok u
      → Loopback listen
  unfolding check_listen
  check_listen_inv listen none s h = cc
  check_listen_inv listen (some (host, port)) s h =
      elim (Bool-cases (is_loopback_listen net host port)) [
        | inl e ↦ Loopback-parts listen host port s e
        | inr e ↦ cc (rw e at h)
      ]

  target_or_error_inv :
      (r : Result TargetError Target) {t : Target} → target_or_error r ≡ ok t → r ≡ ok t
  unfolding target_or_error
  target_or_error_inv (ok t) h = cc
  target_or_error_inv (err e) h = cc

  check_name_inv : (name : Text) {u : Unit {0}} → check_name name ≡ ok u → matches_name name ≡ true
  unfolding check_name
  check_name_inv name h = elim (Bool-cases (matches_name name)) [
    | inl e ↦ e
    | inr e ↦ cc (rw e at h)
  ]

  paths_test : BootstrapOptions → Bool
  paths_test o =
      is_setup_path o.staged_server
      && is_setup_path o.staged_contextq
      && is_setup_path o.systemd_unit_path

  check_paths_inv :
      (o : BootstrapOptions) {u : Unit {0}} → check_paths o ≡ ok u → paths_test o ≡ true
  unfolding check_paths paths_test
  check_paths_inv o h = elim (Bool-cases (paths_test o)) [ inl e ↦ e | inr e ↦ cc (rw e at h) ]

  -- the script of options that are in order
  abbrev pub script_for : BootstrapOptions → Target → Text
  script_for o t =
      script t o.target_name (site_of (parse t.url)) o.listen o.staged_server o.staged_contextq
        o.systemd_unit_path

  or-inr : (a : Bool) → (a || true) ≡ true
  or-inr true = refl
  or-inr false = refl

  local-test :
      (host : Text)
      → (host ≡ codes "localhost")
        ⊎ ((ip : Bytes) × (net.parse_ip host ≡ some ip) × (net.is_loopback ip ≡ true))
      → (same host (codes "localhost") || is_loopback_ip net (net.parse_ip host)) ≡ true
  unfolding is_loopback_ip
  local-test host (inl e) = rw ((same_iff host (codes "localhost")).1 e) refl
  local-test host (inr (ip, p, l)) = rw p (rw l (or-inr (same host (codes "localhost"))))

  is_loopback_listen-Loopback :
      (listen : Text) (l : Loopback listen) → is_loopback_listen net l.host l.port ≡ true
  unfolding is_loopback_listen is_port
  is_loopback_listen-Loopback listen l =
      rw (l.port_is, le→leb 1 l.number l.low, le→leb l.number 65535 l.high)
        (local-test l.host l.local)

  check_listen-Loopback :
      (listen : Text) → Loopback listen → check_listen net (net.split_host_port listen) ≡ ok tt
  unfolding check_listen
  check_listen-Loopback listen l =
      rw (l.split, check_listen) (rw (is_loopback_listen-Loopback listen l) refl)

  bootstrap_script_inv :
      (options : BootstrapOptions) (s : Text)
      → bootstrap_script parse net options ≡ ok s
      → (t : Target) × InOrder options (with_defaults options) t
        × (s ≡ script_for (with_defaults options) t)
  unfolding bootstrap_script paths_test with_defaults
  bootstrap_script_inv options s h =
      let a = >>=_inv (target_or_error (validate parse options.target)) _ h in
      let b = >>=_inv (check_name options.target_name) _ (a.2) in
      let o = with_defaults options in
      let c = >>=_inv (check_listen net (net.split_host_port o.listen)) _ (b.2) in
      let d = >>=_inv (check_paths o) _ (c.2) in
      let p = check_paths_inv o (d.1) in
      let p1 =
        &&_parts (is_setup_path o.staged_server && is_setup_path o.staged_contextq)
          (is_setup_path o.systemd_unit_path) p in
      let p2 = &&_parts (is_setup_path o.staged_server) (is_setup_path o.staged_contextq) p1.0 in
      (
        a.0,
        record {
          target = target_or_error_inv (validate parse options.target) (a.1);
          name = check_name_inv options.target_name (b.1);
          listen = check_listen_inv o.listen (net.split_host_port o.listen) refl (c.1);
          server = p2.0;
          contextq = p2.1;
          unit = p1.1;
        },
        cc (d.2),
      )

  bootstrap_script-InOrder :
      (options : BootstrapOptions) (t : Target)
      → InOrder options (with_defaults options) t
      → bootstrap_script parse net options ≡ ok (script_for (with_defaults options) t)
  unfolding bootstrap_script target_or_error check_name check_paths with_defaults
  bootstrap_script-InOrder options t i =
      rw
        (
          i.target,
          i.name,
          check_listen-Loopback (with_defaults options).listen i.listen,
          i.server,
          i.contextq,
          i.unit,
        )
        refl

  -- BootstrapScript gives a script just for a target that is valid, a plain target name, a listen
  -- address whose port is from 1 to 65535 and whose host is `localhost` or a loopback address, and
  -- absolute paths without a line break; and the script is that of the validated target.
  pub bootstrap_script_iff :
      (options : BootstrapOptions) (s : Text)
      → (bootstrap_script parse net options ≡ ok s) ↔ (
          (t : Target) × InOrder options (with_defaults options) t
          × (s ≡ script_for (with_defaults options) t))
  bootstrap_script_iff options s = (
    bootstrap_script_inv options s,
    λ q. bootstrap_script-InOrder options (q.0) (q.1) ∙ ap ok (sym (q.2)),
  )
